-- ===== src/Virtio.antt =====
-- src/hw/virtio/virtio.c and include/vart/virtio.h: split virtqueues.
pub mod Defs
pub mod Queue
pub mod Invariant
pub mod Pop
pub mod Confined
pub mod Used
pub mod History
mod Tests
