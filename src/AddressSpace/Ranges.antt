-- ===== src/AddressSpace/Ranges.antt =====
-- What the two range tests of address-space.c decide, against the addresses that a region covers.
use vart.Common.{ℕ, ◌+◌, ◌^◌, ◌≤◌, ◌<◌, ◌≡◌, ◌↔◌, true, arith}
use Prim.Native.Nat.{max}
use vart.AddressSpace.Defs.{Region, region_contains, regions_overlap}

-- What `vart_address_region_init` lets through.
pub record IsRegion (r : Region) : Type 0 where
  pub nonempty : 0 < r.size
  pub width : r.size < 2 ^ 64
  pub fits : r.base + r.size ≤ 2 ^ 64

abbrev pub Covers : Region → ℕ → Type 0
Covers r x = (r.base ≤ x) × (x < r.base + r.size)

-- A region contains an access exactly when it is enabled and the access's bytes lie in its range.
pub region_contains_iff :
    (r : Region) (address size : ℕ)
    → IsRegion r
    → address < 2 ^ 64
    → size < 2 ^ 64
    → (region_contains r address size ≡ true)
      ↔ ((r.enabled ≡ true) × (r.base ≤ address) × (address + size ≤ r.base + r.size))
unfolding region_contains
region_contains_iff r address size v ha hs = ground arith

-- Two regions overlap exactly when an address lies in both.
pub regions_overlap_iff :
    (a b : Region)
    → IsRegion a
    → IsRegion b
    → (regions_overlap a b ≡ true) ↔ ((x : ℕ) × Covers a x × Covers b x)
unfolding regions_overlap
regions_overlap_iff a b va vb =
    ((λ h. (max a.base b.base, ground arith, ground arith)), (λ (x, ca, cb). ground arith))
