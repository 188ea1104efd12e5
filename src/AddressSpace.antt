-- ===== src/AddressSpace.antt =====
-- src/core/address-space.c and include/vart/address-space.h: guest address spaces.
pub mod Defs
pub mod Ops
pub mod Access
pub mod Ranges
pub mod Find
pub mod Invariant
pub mod Removal
pub mod Preserve
pub mod Lifecycle
pub mod Order
pub mod Dispatch
pub mod Buffer
pub mod History
mod Tests
