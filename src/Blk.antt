-- ===== src/Blk.antt =====
-- src/hw/virtio/virtio-blk.c and include/vart/virtio-blk.h: the virtio block device.
pub mod Defs
pub mod Transfer
pub mod Request
pub mod Loops
pub mod Segments
pub mod Confined
pub mod Reads
pub mod Config
mod Tests
