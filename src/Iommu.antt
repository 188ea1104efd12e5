-- ===== src/Iommu.antt =====
-- src/iommu/iommu.c and include/vart/iommu.h: translation contexts of the IOMMU.
pub mod Defs
pub mod Walk
pub mod Cache
pub mod Context
pub mod Level
pub mod Page
pub mod Coherent
pub mod Still
pub mod Translate
pub mod Canonical
pub mod Ranges
pub mod Keeps
pub mod Agree
pub mod Attach
pub mod Chain
pub mod Levels
pub mod Descent
pub mod Bounded
pub mod Invalidate
mod Tests
