-- ===== src/AddressSpace/Removal.antt =====
-- What unmapping a region leaves of the regions that are apart.
use vart.Common.{
  ℕ, ◌≡◌, inl, inr, some, List, [], ◌∷◌, ◌==◌, Bool-cases, remove_first, remove_first-cons,
  remove_first-hit, remove_first-nil, remove_first-All,
}
use vart.AddressSpace.Defs.{Region}
use vart.AddressSpace.Invariant.{Apart, AllApart}

pub remove_first-AllApart :
    (regions : ℕ → Region) (r : ℕ) (qs rest : List ℕ)
    → remove_first r qs ≡ some rest
    → AllApart regions qs
    → AllApart regions rest
remove_first-AllApart regions r [] rest e h = absurd (remove_first-nil r rest e)
remove_first-AllApart regions r (q ∷ qs) rest e h = elim (Bool-cases (q == r)) [
  | inl hit ↦ rw (remove_first-hit r q qs rest hit e) h.1
  | inr ne ↦
      let (ps, f, g) = remove_first-cons r q qs rest ne e in
      rw g (
        remove_first-All (λ p. Apart (regions q) (regions p)) r qs ps f h.0,
        remove_first-AllApart regions r qs ps f h.1,
      )
]
