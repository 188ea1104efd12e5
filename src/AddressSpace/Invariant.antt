-- ===== src/AddressSpace/Invariant.antt =====
-- The invariant of the address spaces, and that every operation keeps it: each mapped region has a
-- valid range and points back at its space, is mapped once, and shares no address with another of
-- its priority.
use vart.Common.{ℕ, ◌≡◌, ◌↔◌, false, some, List, [], ◌∷◌, ◌++◌, arith, All, In, All-append, Once}
use vart.AddressSpace.Defs.{Region, World}
use vart.AddressSpace.Ranges.{IsRegion, Covers, regions_overlap_iff}
use vart.AddressSpace.Ops.{clashes}

-- Two regions of one priority share no address.
abbrev pub Apart : Region → Region → Type 0
Apart a b = a.priority ≡ b.priority → (x : ℕ) → Covers a x → Covers b x → ⊥

abbrev pub AllApart : (ℕ → Region) → List ℕ → Type 0
AllApart regions [] = Unit {0}
AllApart regions (r ∷ rs) = All (λ q. Apart (regions r) (regions q)) rs × AllApart regions rs

pub record IsMapped (regions : ℕ → Region) (s : ℕ) (mapped : List ℕ) : Type 0 where
  pub valid : All (λ r. IsRegion (regions r)) mapped
  pub apart : AllApart regions mapped
  pub once : Once mapped
  pub linked : (r : ℕ) → In r mapped ↔ ((regions r).address_space ≡ some s)

-- The regions' ranges and priorities are as before.
abbrev pub SameShape : (ℕ → Region) → (ℕ → Region) → Type 0
SameShape old new =
    (r : ℕ)
    → ((new r).base ≡ (old r).base)
      × ((new r).size ≡ (old r).size)
      × ((new r).priority ≡ (old r).priority)

module _ (old new : ℕ → Region) (same : SameShape old new) where
  pub IsRegion-same :
      (rs : List ℕ) → All (λ r. IsRegion (old r)) rs → All (λ r. IsRegion (new r)) rs
  IsRegion-same [] v = tt
  IsRegion-same (r ∷ rs) v = (ground (arith, same r), IsRegion-same rs v.1)

  Apart-same : (a b : ℕ) → Apart (old a) (old b) → Apart (new a) (new b)
  Apart-same a b h e x ca cb =
      h (ground (arith, same a, same b)) x (ground (arith, same a)) (ground (arith, same b))

  All-Apart-same :
      (a : ℕ) (rs : List ℕ)
      → All (λ q. Apart (old a) (old q)) rs
      → All (λ q. Apart (new a) (new q)) rs
  All-Apart-same a [] h = tt
  All-Apart-same a (r ∷ rs) h = (Apart-same a r h.0, All-Apart-same a rs h.1)

  pub AllApart-same : (rs : List ℕ) → AllApart old rs → AllApart new rs
  AllApart-same [] h = tt
  AllApart-same (r ∷ rs) h = (All-Apart-same r rs h.0, AllApart-same rs h.1)

-- No clash means that the new region is apart from all that are mapped.
pub clashes-Apart :
    (regions : ℕ → Region) (r : Region) (qs : List ℕ)
    → IsRegion r
    → All (λ q. IsRegion (regions q)) qs
    → clashes regions r qs ≡ false
    → All (λ q. Apart (regions q) r) qs
unfolding clashes
clashes-Apart regions r [] v vs h = tt
clashes-Apart regions r (q ∷ qs) v vs h = (
  (λ e x cq cr. ground (arith, (regions_overlap_iff r (regions q) v vs.0).1 (x, cr, cq))),
  clashes-Apart regions r qs v vs.1 (ground arith),
)

pub AllApart-append :
    (regions : ℕ → Region) (qs : List ℕ) (r : ℕ)
    → AllApart regions qs
    → All (λ q. Apart (regions q) (regions r)) qs
    → AllApart regions (qs ++ r ∷ [])
AllApart-append regions [] r a h = (tt, tt)
AllApart-append regions (q ∷ qs) r a h = (
  All-append (λ p. Apart (regions q) (regions p)) qs (r ∷ []) a.0 (h.0, tt),
  AllApart-append regions qs r a.1 h.1,
)

-- The regions that `vart_address_space_add` finds linked are those that are mapped.
pub record IsWell {D : Type 0} (w : World D) : Type 0 where
  pub mapped : (s : ℕ) → IsMapped w.region s (w.space s).regions
