-- ===== src/Iommu/Page.antt =====
-- A successful walk answers alike for every access within its page.
use vart.Common.{
  ℕ, zero, suc, ◌+◌, ◌-◌, ◌*◌, ◌/◌, ◌%◌, ◌^◌, ◌≤◌, ◌≡◌, refl, sym, ap, ◌∙◌, inl, inr, Bool, true,
  false, none, List, arith, ltb, Bool-cases, ok, err, Errno, Result, Result-cases,
}
use vart.AddressSpace.Defs.{u64_max}
use vart.Iommu.Defs.{Translation}
use vart.Iommu.Walk.{
  Downstream, iommu_read_pte, descends, leaf, judge, leaf_translation, walk_step, walk,
}
use vart.Iommu.Level.{
  leaf_translation-InPage, page_of, judge-leaf, judge-descends, coarser, leaf_translation-shape,
  Reads, Found, read_pte, walk-read, step-descends, step-leaf, step-ok,
}

module _ {W : Type 0} (m : Downstream W) (space : ℕ) (w : W) (contents : ℕ → Result (List ℕ))
    (reads : Reads m space w contents) (iova size : ℕ) (write : Bool) where
  pub walk-fits :
      (left bits table : ℕ)
      → ltb (u64_max - iova / page_of left % 2 ^ bits * 8) table ≡ false
      → walk m space iova size write false (suc left) bits table w
        ≡ walk_step m space iova size write false left
            (table + iova / page_of left % 2 ^ bits * 8)
            (walk m space iova size write false left 9)
            (iommu_read_pte m space (table + iova / page_of left % 2 ^ bits * 8) w)
  unfolding walk
  walk-fits left bits table fits = rw fits refl

  pub walk-over :
      (left bits table : ℕ)
      → ltb (u64_max - iova / page_of left % 2 ^ bits * 8) table ≡ true
      → walk m space iova size write false (suc left) bits table w ≡ (w, err Errno.efault)
  unfolding walk
  walk-over left bits table over = rw over refl

  pub step-failed :
      (left address : ℕ) (next : ℕ → W → W × Result Translation) (x : Errno)
      → walk_step m space iova size write false left address next (w, err x) ≡ (w, err x)
  unfolding walk_step
  step-failed left address next x = refl

  -- The entry that the first level of a successful walk read.
  walk-ok :
      (left bits table : ℕ) (v : W) (t : Translation)
      → walk m space iova size write false (suc left) bits table w ≡ (v, ok t)
      → let index = iova / page_of left % 2 ^ bits in
        (ltb (u64_max - index * 8) table ≡ false)
        × (pte : ℕ) × (iommu_read_pte m space (table + index * 8) w ≡ (w, ok pte))
        × (walk_step m space iova size write false left
              (table + index * 8)
              (walk m space iova size write false left 9)
              (w, ok pte)
            ≡ (v, ok t))
  walk-ok left bits table v t e =
      let index = iova / page_of left % 2 ^ bits in
      elim (Bool-cases (ltb (u64_max - index * 8) table)) [
        | inl over ↦ absurd (cc (walk-over left bits table over, e))
        | inr fits ↦
            let (r, got) = read_pte m space w contents reads (table + index * 8) in
            elim (Result-cases r) [
              | inr (x, failed) ↦
                  let read = got ∙ ap (λ q. (w, q)) failed in
                  absurd (
                    cc (
                      walk-fits left bits table fits,
                      ap
                          (walk_step m space iova size write false left (table + index * 8)
                            (walk m space iova size write false left 9))
                          read,
                      step-failed left (table + index * 8)
                          (walk m space iova size write false left 9) x,
                      e,
                    ))
              | inl (pte, held) ↦
                  let read = got ∙ ap (λ q. (w, q)) held in
                  (
                    fits,
                    pte,
                    read,
                    sym (
                          ap
                            (walk_step m space iova size write false left (table + index * 8)
                              (walk m space iova size write false left 9))
                            read)
                        ∙ sym (walk-fits left bits table fits)
                        ∙ e,
                  )
            ]
      ]

module _ {W : Type 0} (m : Downstream W) (space : ℕ) (w : W) (iova : ℕ) (write : Bool)
    (left bits table pte : ℕ) (t : Translation)
    (fits : ltb (u64_max - iova / page_of left % 2 ^ bits * 8) table ≡ false)
    (got : iommu_read_pte m space (table + iova / page_of left % 2 ^ bits * 8) w ≡ (w, ok pte))
    (le : left ≤ 2) where
  leaf-Found :
      (size : ℕ)
      → judge write false left pte ≡ leaf none
      → leaf_translation left pte iova size ≡ ok t
      → Found m space w iova write left bits table t
  leaf-Found size here found = record {
    leaf_level = left;
    below = omega arith;
    page = (leaf_translation-shape left pte iova size t found).0;
    base = (leaf_translation-shape left pte iova size t found).1;
    others = λ other length kind h p.
        walk-read m space w w other length kind left pte bits table (iova / page_of left % 2 ^ bits)
          (ap (λ n. n % 2 ^ bits) p.0) fits got
        ∙ step-leaf m space w w other length kind left pte _ _
            (judge-leaf pte write left kind h here)
        ∙ ap (λ q. (w, q)) (leaf_translation-InPage left pte iova size other length t le found p);
  }

module _ {W : Type 0} (m : Downstream W) (space : ℕ) (w : W) (iova : ℕ) (write : Bool)
    (left bits table pte : ℕ) (t : Translation)
    (fits : ltb (u64_max - iova / page_of (suc left) % 2 ^ bits * 8) table ≡ false)
    (got : iommu_read_pte m space (table + iova / page_of (suc left) % 2 ^ bits * 8) w
      ≡ (w, ok pte))
    (le : suc left ≤ 2) where
  down-Found :
      (next : ℕ)
      → judge write false (suc left) pte ≡ descends next
      → Found m space w iova write left 9 next t
      → Found m space w iova write (suc left) bits table t
  down-Found next down f = record {
    leaf_level = f.leaf_level;
    below = (let b = f.below in omega arith);
    page = f.page;
    base = f.base;
    others = λ other length kind h p.
        walk-read m space w w other length kind (suc left) pte bits table
          (iova / page_of (suc left) % 2 ^ bits)
          (ap (λ n. n % 2 ^ bits)
            (coarser f.leaf_level (suc left) other iova (let b = f.below in omega arith) le p.0))
          fits got
        ∙ step-descends m space w w other length kind (suc left) pte _ next _
            (judge-descends pte write (suc left) kind next down)
        ∙ f.others other length kind h p;
  }

module _ {W : Type 0} (m : Downstream W) (space : ℕ) (w : W) (contents : ℕ → Result (List ℕ))
    (reads : Reads m space w contents) (iova size : ℕ) (write : Bool) where
  -- A successful walk without updates of A and D changes nothing, and its answer is the answer to
  -- every access in the page that it found.
  pub walk-Found :
      (left bits table : ℕ) (v : W) (t : Translation)
      → left ≤ 2
      → walk m space iova size write false (suc left) bits table w ≡ (v, ok t)
      → Found m space w iova write left bits table t
  unfolding walk
  walk-Found zero bits table v t le e =
      let (fits, pte, got, stepped) =
        walk-ok m space w contents reads iova size write zero bits table v t e in
      elim (step-ok m space w v iova size write zero pte _ _ t stepped) [
        | inl (here, found) ↦
            leaf-Found m space w iova write zero bits table pte t fits got le size here found
        | inr (next, down, deeper) ↦ absurd (no_table next deeper)
      ]
    where
      no_table : (next : ℕ) → walk m space iova size write false 0 9 next w ≡ (v, ok t) → ⊥
      no_table next deeper = ground (arith, deeper)
  walk-Found (suc left) bits table v t le e =
      let (fits, pte, got, stepped) =
        walk-ok m space w contents reads iova size write (suc left) bits table v t e in
      elim (step-ok m space w v iova size write (suc left) pte _ _ t stepped) [
        | inl (here, found) ↦
            leaf-Found m space w iova write (suc left) bits table pte t fits got le size here found
        | inr (next, down, deeper) ↦
            down-Found m space w iova write left bits table pte t fits got le next down
              (walk-Found left 9 next v t (omega arith) deeper)
      ]
