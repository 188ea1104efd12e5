-- ===== src/Iommu/Still.antt =====
-- A walk without updates of A and D bits leaves memory as it is.
use vart.Common.{
  ℕ, zero, suc, ◌+◌, ◌-◌, ◌*◌, ◌/◌, ◌%◌, ◌^◌, ◌≡◌, refl, ap, ◌∙◌, inl, inr, Bool, false, List, ltb,
  Bool-cases, ok, err, Result,
}
use vart.Iommu.Defs.{Translation}
use vart.AddressSpace.Defs.{u64_max}
use vart.Iommu.Walk.{Downstream, judge, walk_step, walk}
use vart.Iommu.Level.{page_of, Reads, read_pte, Verdict-cases, judge-no_update}
use vart.Iommu.Page.{walk-fits}

module _ {W : Type 0} (m : Downstream W) (space : ℕ) (w : W) (contents : ℕ → Result (List ℕ))
    (reads : Reads m space w contents) (iova size : ℕ) (write : Bool) where
  step-still :
      (left address : ℕ) (next : ℕ → W → W × Result Translation) (r : Result ℕ)
      → ((table : ℕ) → (next table w).0 ≡ w)
      → (walk_step m space iova size write false left address next (w, r)).0 ≡ w
  unfolding walk_step
  step-still left address next (err x) h = refl
  step-still left address next (ok pte) h = elim (Verdict-cases (judge write false left pte)) [
    | inl (x, failed) ↦ rw (failed, walk_step) refl
    | inr (inl (table, down)) ↦ rw (down, walk_step) (h table)
    | inr (inr (inl here)) ↦ rw (here, walk_step) refl
    | inr (inr (inr (updated, e))) ↦ absurd (judge-no_update pte write left updated e)
  ]

  pub walk-still :
      (left bits table : ℕ) → (walk m space iova size write false left bits table w).0 ≡ w
  unfolding walk
  walk-still zero bits table = refl
  walk-still (suc left) bits table =
      elim (Bool-cases (ltb (u64_max - iova / page_of left % 2 ^ bits * 8) table)) [
        | inl over ↦ rw over refl
        | inr fits ↦
            let at = table + iova / page_of left % 2 ^ bits * 8 in
            let (r, got) = read_pte m space w contents reads at in
            ap (λ p. p.0) (walk-fits m space w contents reads iova size write left bits table fits)
            ∙ ap
                (λ q.
                  (walk_step m space iova size write false left at
                    (walk m space iova size write false left 9) q).0)
                got
            ∙ step-still left at (walk m space iova size write false left 9) r
                (λ next. walk-still left 9 next)
      ]
