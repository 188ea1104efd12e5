-- ===== src/Iommu/Level.antt =====
-- One level of a walk, and what a walk found.
use vart.Common.{
  ℕ, zero, suc, ◌+◌, ◌-◌, ◌*◌, ◌/◌, ◌%◌, ◌^◌, ◌≤◌, ◌<◌, ◌≡◌, refl, ap, ◌∙◌, ◌≢◌, ◌⊎◌, inl, inr,
  Bool, false, not, ◌&&◌, none, some, List, arith, ltb, ok, err, length, Errno, Result,
}
use vart.AddressSpace.Defs.{u64_max}
use vart.Iommu.Defs.{Translation}
use vart.Virtio.Defs.{load_le64}
use vart.Iommu.Walk.{
  Downstream, loaded_pte, iommu_read_pte, Verdict, fails, descends, leaf, denied, needs_update,
  judge, leaf_translation, walk_step, walk,
}

-- The page of a leaf with `left` levels below it
abbrev pub page_of : ℕ → ℕ
page_of left = 2 ^ (12 + 9 * left)

-- An address and a size that lie in the page of another address
abbrev pub InPage : ℕ → ℕ → ℕ → ℕ → Type 0
InPage left iova other size =
    (other / page_of left ≡ iova / page_of left)
    × (0 < size)
    × (other % page_of left + size ≤ page_of left)

module _ (pte : ℕ) (write : Bool) (left : ℕ) where
  -- What lets an access write lets one read too.
  pub judge-leaf :
      (other : Bool)
      → (other && not write) ≡ false
      → judge write false left pte ≡ leaf none
      → judge other false left pte ≡ leaf none
  unfolding judge denied needs_update
  judge-leaf other h e = ground arith

  pub judge-descends :
      (other : Bool) (table : ℕ)
      → judge write false left pte ≡ descends table
      → judge other false left pte ≡ descends table
  unfolding judge denied needs_update
  judge-descends other table e = ground arith

  pub judge-no_update : (updated : ℕ) → judge write false left pte ≢ leaf (some updated)
  unfolding judge needs_update denied
  judge-no_update updated e = ground arith

pub coarser :
    (l left a b : ℕ)
    → l ≤ left
    → left ≤ 2
    → a / page_of l ≡ b / page_of l
    → a / page_of left ≡ b / page_of left
coarser zero zero a b p q e = e
coarser zero (suc zero) a b p q e = omega arith
coarser zero (suc (suc zero)) a b p q e = omega arith
coarser (suc zero) (suc zero) a b p q e = e
coarser (suc zero) (suc (suc zero)) a b p q e = omega arith
coarser (suc (suc zero)) (suc (suc zero)) a b p q e = e
coarser l (suc (suc (suc n))) a b p q e = absurd (omega arith)
coarser (suc l) zero a b p q e = absurd (omega arith)
coarser (suc (suc l)) (suc zero) a b p q e = absurd (omega arith)
coarser (suc (suc (suc l))) (suc (suc zero)) a b p q e = absurd (omega arith)

pub leaf_translation-InPage :
    (left pte iova size other length : ℕ) (t : Translation)
    → left ≤ 2
    → leaf_translation left pte iova size ≡ ok t
    → InPage left iova other length
    → leaf_translation left pte other length ≡ ok t
unfolding leaf_translation
leaf_translation-InPage zero pte iova size other length t le e (a, b, c) = ground arith
leaf_translation-InPage (suc zero) pte iova size other length t le e (a, b, c) = ground arith
leaf_translation-InPage (suc (suc zero)) pte iova size other length t le e (a, b, c) = ground arith
leaf_translation-InPage (suc (suc (suc n))) pte iova size other length t le e h =
    absurd (omega arith)

-- What a translation says of the leaf that it comes from.
pub leaf_translation-shape :
    (left pte iova size : ℕ) (t : Translation)
    → leaf_translation left pte iova size ≡ ok t
    → (t.size ≡ page_of left) × (t.iova_base ≡ iova - iova % page_of left)
unfolding leaf_translation
leaf_translation-shape left pte iova size t e = ground arith

-- Reads of a space that neither change the world nor depend on it.
abbrev pub Reads : {W : Type 0} → Downstream W → ℕ → W → (ℕ → Result (List ℕ)) → Type 0
Reads m space w contents = (a : ℕ) → m.read_buffer space a 8 w ≡ (w, contents a)

pub Verdict-cases :
    (v : Verdict)
    → ((e : Errno) × (v ≡ fails e))
      ⊎ (((table : ℕ) × (v ≡ descends table))
          ⊎ ((v ≡ leaf none) ⊎ ((updated : ℕ) × (v ≡ leaf (some updated)))))
Verdict-cases (fails e) = inl (e, refl)
Verdict-cases (descends table) = inr (inl (table, refl))
Verdict-cases (leaf none) = inr (inr (inl refl))
Verdict-cases (leaf (some updated)) = inr (inr (inr (updated, refl)))

-- A walk of `left` more levels from a table found the leaf `t` for `iova`: every access in the same
-- page finds it, if it does not write, or the first one did.
module _ {W : Type 0} (m : Downstream W) (space : ℕ) (w : W) (iova : ℕ) (write : Bool) where
  pub record Found (left bits table : ℕ) (t : Translation) : Type 0 where
    pub leaf_level : ℕ
    pub below : leaf_level ≤ left
    pub page : t.size ≡ page_of leaf_level
    pub base : t.iova_base ≡ iova - iova % page_of leaf_level
    pub others :
        (other length : ℕ) (kind : Bool)
        → (kind && not write) ≡ false
        → InPage leaf_level iova other length
        → walk m space other length kind false (suc left) bits table w ≡ (w, ok t)

loaded_pte-still :
    {W : Type 0} (w : W) (r : Result (List ℕ)) → (q : Result ℕ) × (loaded_pte (w, r) ≡ (w, q))
unfolding loaded_pte
loaded_pte-still w (ok bytes) = (ok (load_le64 bytes 0), refl)
loaded_pte-still w (err e) = (err e, refl)

module _ {W : Type 0} (m : Downstream W) (space : ℕ) (w : W) (contents : ℕ → Result (List ℕ))
    (reads : Reads m space w contents) where
  pub read_pte : (a : ℕ) → (r : Result ℕ) × (iommu_read_pte m space a w ≡ (w, r))
  unfolding iommu_read_pte
  read_pte a = let (q, e) = loaded_pte-still w (contents a) in (q, ap loaded_pte (reads a) ∙ e)

-- One level of a walk whose entry is read.
module _ {W : Type 0} (m : Downstream W) (space : ℕ) (w v : W) (iova size : ℕ) (write : Bool)
    (left pte : ℕ) where
  pub walk-read :
      (bits table index : ℕ)
      → iova / page_of left % 2 ^ bits ≡ index
      → ltb (u64_max - index * 8) table ≡ false
      → iommu_read_pte m space (table + index * 8) w ≡ (w, ok pte)
      → walk m space iova size write false (suc left) bits table w
        ≡ walk_step m space iova size write false left
            (table + index * 8)
            (walk m space iova size write false left 9)
            (w, ok pte)
  unfolding walk
  walk-read bits table index same fits got = rw (same, fits, got) refl

  pub step-descends :
      (address table : ℕ) (next : ℕ → W → W × Result Translation)
      → judge write false left pte ≡ descends table
      → walk_step m space iova size write false left address next (w, ok pte) ≡ next table w
  unfolding walk_step
  step-descends address table next e = rw (e, walk_step) refl

  pub step-leaf :
      (address : ℕ) (next : ℕ → W → W × Result Translation)
      → judge write false left pte ≡ leaf none
      → walk_step m space iova size write false left address next (w, ok pte)
        ≡ (w, leaf_translation left pte iova size)
  unfolding walk_step
  step-leaf address next e = rw (e, walk_step) refl

  pub step-ok :
      (address : ℕ) (next : ℕ → W → W × Result Translation) (t : Translation)
      → walk_step m space iova size write false left address next (w, ok pte) ≡ (v, ok t)
      → ((judge write false left pte ≡ leaf none) × (leaf_translation left pte iova size ≡ ok t))
        ⊎ ((table : ℕ) × (judge write false left pte ≡ descends table) × (next table w ≡ (v, ok t)))
  unfolding walk_step
  step-ok address next t e = elim (Verdict-cases (judge write false left pte)) [
    | inl (x, failed) ↦ absurd (ground (arith, failed, e))
    | inr (inl (table, down)) ↦ inr (table, down, ground (arith, down, e))
    | inr (inr (inl here)) ↦ inl (here, ground (arith, here, e))
    | inr (inr (inr (updated, h))) ↦ absurd (judge-no_update pte write left updated h)
  ]
