-- ===== src/Iommu/Defs.antt =====
-- The data of iommu.h, page-table entries, and the addresses that a context translates.
use vart.Common.{
  ℕ, ◌+◌, ◌-◌, ◌*◌, ◌/◌, ◌%◌, ◌^◌, Bool, true, false, not, ◌&&◌, ◌||◌, Option, List, ◌==◌,
  if◌then◌else◌, has_bit, ok, err, Errno, Result,
}
use vart.AddressSpace.Defs.{u64_max}

-- `VartIommuContextMode`
pub data Mode : Type 0 where
  identity fault sv39 sv39x4 : Mode

-- `VartIommuCacheEntry`
pub record CacheEntry : Type 0 where
  pub iova_base : ℕ
  pub translated_base : ℕ
  pub size : ℕ
  pub permissions : ℕ
  pub valid : Bool

-- `VartIommuTranslation`
pub record Translation : Type 0 where
  pub iova_base : ℕ
  pub translated_base : ℕ
  pub size : ℕ
  pub permissions : ℕ

-- `VartIommuContext`; `cache` holds the first `cache_count` entries of the array, and `address_space`
-- is the pointer to the address space inside of the structure.
pub record Context : Type 0 where
  pub address_space : ℕ
  pub downstream : Option ℕ
  pub attached_device : Option ℕ
  pub saved_dma_as : Option ℕ
  pub saved_dma_as_from_bus : Bool
  pub requester_id : ℕ
  pub mode : Mode
  pub root_ppn : ℕ
  pub invalidation_generation : ℕ
  pub root_valid : Bool
  pub update_ad : Bool
  pub fault_handler : Option ℕ
  pub fault_opaque : ℕ
  pub cache : List CacheEntry
  pub cache_next : ℕ
  pub cache_lock_initialized : Bool

-- `VART_IOMMU_CACHE_ENTRIES`
abbrev pub cache_entries : ℕ
cache_entries = 64

-- `VART_IOMMU_CONTEXT_SV39` or `VART_IOMMU_CONTEXT_SV39X4`
abbrev pub walks : Mode → Bool
walks Mode.sv39 = true
walks Mode.sv39x4 = true
walks Mode.identity = false
walks Mode.fault = false

-- `VART_IOMMU_CONTEXT_FAULT`
abbrev pub faults : Mode → Bool
faults Mode.fault = true
faults _ = false

-- `context->mode == VART_IOMMU_CONTEXT_SV39 ? IOMMU_SV39_VA_BITS : IOMMU_SV39X4_VA_BITS`, and the root
-- width of the function that the same test chooses; both are asked for in the Sv39 modes alone.
abbrev pub va_bits : Mode → ℕ
va_bits Mode.sv39 = 39
va_bits _ = 41

abbrev pub root_bits : Mode → ℕ
root_bits Mode.sv39 = 9
root_bits _ = 11

-- Bits of a page-table entry: V, R, W, X, U, A and D
abbrev pub pte_valid : ℕ → Bool
pte_valid pte = has_bit pte 0

abbrev pub pte_read : ℕ → Bool
pte_read pte = has_bit pte 1

abbrev pub pte_write : ℕ → Bool
pte_write pte = has_bit pte 2

abbrev pub pte_execute : ℕ → Bool
pte_execute pte = has_bit pte 3

abbrev pub pte_user : ℕ → Bool
pte_user pte = has_bit pte 4

abbrev pub pte_accessed : ℕ → Bool
pte_accessed pte = has_bit pte 6

abbrev pub pte_dirty : ℕ → Bool
pte_dirty pte = has_bit pte 7

-- `pte & IOMMU_PTE_RESERVED` (bits 54 to 60) or `pte & IOMMU_PTE_N` (bit 63)
abbrev pub pte_reserved : ℕ → Bool
pte_reserved pte = not (pte / 2 ^ 54 % 2 ^ 7 == 0) || has_bit pte 63

-- `pte & (R | W | X)`, and `(pte & IOMMU_PTE_PPN_MASK) >> 10`
abbrev pub pte_permissions : ℕ → ℕ
pte_permissions pte = pte / 2 % 8 * 2

abbrev pub pte_ppn : ℕ → ℕ
pte_ppn pte = pte / 2 ^ 10 % 2 ^ 44

-- `pte |= 1 << k`
abbrev pub set_bit : ℕ → ℕ → ℕ
set_bit pte k = if has_bit pte k then pte else pte + 2 ^ k

-- `iommu_canonical_iova`
unfoldable pub canonical_iova : ℕ → ℕ → Result ℕ
canonical_iova address bits =
    let upper = address / 2 ^ (bits - 1) in
    let sign_extended = u64_max / 2 ^ (bits - 1) in
    if not (upper == 0) && not (upper == sign_extended)
    then err Errno.efault
    else ok (address % 2 ^ bits)
