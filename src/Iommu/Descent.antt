-- ===== src/Iommu/Descent.antt =====
-- Buffer accesses through acyclic chains of IOMMU contexts end.
use vart.Iommu.Defs.{Context}
