-- ===== src/Iommu/Canonical.antt =====
-- The addresses that the Sv39 modes accept.
use vart.Common.{ℕ, ◌+◌, ◌-◌, ◌^◌, ◌<◌, ◌≡◌, ◌↔◌, arith, ltb, if◌then◌else◌, ok}
use vart.Iommu.Defs.{Mode, canonical_iova, va_bits}

-- The 64-bit address with the low `bits` bits of `iova`, whose other bits repeat the highest of them
abbrev pub sign_extend : ℕ → ℕ → ℕ
sign_extend iova bits = if ltb iova (2 ^ (bits - 1)) then iova else iova + (2 ^ 64 - 2 ^ bits)

-- In each mode, a 64-bit address is accepted, as a certain virtual address, exactly when that has no
-- more bits than the mode's virtual addresses, and the address is its sign extension.
pub canonical_iova_iff :
    (mode : Mode) (address iova : ℕ)
    → address < 2 ^ 64
    → (canonical_iova address (va_bits mode) ≡ ok iova)
      ↔ ((iova < 2 ^ va_bits mode) × (address ≡ sign_extend iova (va_bits mode)))
unfolding canonical_iova
canonical_iova_iff Mode.sv39 address iova p = (λ h. ground (arith, h), λ h. ground (arith, h))
canonical_iova_iff Mode.sv39x4 address iova p = (λ h. ground (arith, h), λ h. ground (arith, h))
canonical_iova_iff Mode.identity address iova p = (λ h. ground (arith, h), λ h. ground (arith, h))
canonical_iova_iff Mode.fault address iova p = (λ h. ground (arith, h), λ h. ground (arith, h))
