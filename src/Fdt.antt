-- ===== src/Fdt.antt =====
-- src/boot/fdt.c and include/vart/fdt.h: the builder of flattened device trees.
pub mod Defs
pub mod Builder
pub mod Reader
pub mod Encode
pub mod Blob
pub mod Steps
pub mod Calls
pub mod Node
pub mod Property
pub mod Trip
pub mod Tree
pub mod Nesting
pub mod Errors
pub mod Whole
mod Tests
