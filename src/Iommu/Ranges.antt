-- ===== src/Iommu/Ranges.antt =====
-- A translation keeps the cache within its array, and its entries within the translated addresses.
use vart.Common.{
  ℕ, zero, suc, ◌+◌, ◌-◌, ◌*◌, ◌/◌, ◌%◌, ◌^◌, ◌≤◌, ◌<◌, ◌≡◌, refl, sym, subst, ◌⊎◌, inl, inr, Bool,
  not, List, [], ◌∷◌, arith, ltb, ltb→lt, Bool-cases, Option-cases, ok, err, length, length-append,
  length-set, All, All-append, All-set, Errno, Result, Status, Result-cases,
}
use vart.AddressSpace.Defs.{u64_max}
use vart.Iommu.Defs.{
  CacheEntry, Translation, Context, cache_entries, canonical_iova, faults, walks, va_bits,
  root_bits,
}
use vart.Iommu.Walk.{
  Downstream, judge, iommu_read_pte, iommu_write_pte, leaf_finish, leaf_translation, walk_step,
  walk, translate_sv39_mode,
}
use vart.Iommu.Cache.{
  cache_lookup, cache_flush, cache_insert, new_entry, drop_overlapping, cache_ranges_overlap,
}
use vart.Iommu.Context.{translate_finish, translate_iova, translate_mode, translate_locked}
use vart.Iommu.Level.{page_of, leaf_translation-shape, Verdict-cases}
use vart.Iommu.Coherent.{page-bound, canonical_iova-lt}
use vart.Iommu.Invalidate.{IsSmall}

pub record IsContext (c : Context) : Type 0 where
  pub count : length c.cache ≤ cache_entries
  pub small : All IsSmall c.cache

abbrev IsLow : Translation → Type 0
IsLow t = t.iova_base + t.size ≤ 2 ^ 42

leaf_translation-IsLow :
    (left pte iova size : ℕ) (t : Translation)
    → left ≤ 2
    → iova < 2 ^ 41
    → leaf_translation left pte iova size ≡ ok t
    → IsLow t
leaf_translation-IsLow left pte iova size t le small e =
    let (page, base) = leaf_translation-shape left pte iova size t e in
    let bound = page-bound left iova le small in omega arith

-- A result whose translation, if it has one, is low
abbrev GivesLow : {W : Type 0} → W × Result Translation → Type 0
GivesLow r = (t : Translation) → r.1 ≡ ok t → IsLow t

module _ {W : Type 0} (m : Downstream W) (space iova size : ℕ) (write update_ad : Bool)
    (small : iova < 2 ^ 41) where
  leaf_finish-IsLow :
      (left pte : ℕ) (r : W × Status) → left ≤ 2 → GivesLow (leaf_finish left pte iova size r)
  unfolding leaf_finish
  leaf_finish-IsLow left pte (w, ok _) le t e =
      leaf_translation-IsLow left pte iova size t le small e
  leaf_finish-IsLow left pte (w, err x) le t e = absurd (ground arith)

  walk_step-IsLow :
      (left address : ℕ) (next : ℕ → W → W × Result Translation) (r : W × Result ℕ)
      → left ≤ 2
      → ((table : ℕ) (v : W) → GivesLow (next table v))
      → GivesLow (walk_step m space iova size write update_ad left address next r)
  unfolding walk_step
  walk_step-IsLow left address next (w, err x) le h t e = absurd (ground arith)
  walk_step-IsLow left address next (w, ok pte) le h t e =
      elim (Verdict-cases (judge write update_ad left pte)) [
        | inl (x, failed) ↦ absurd (ground (arith, failed, e))
        | inr (inl (table, down)) ↦ h table w t (ground (arith, down, e))
        | inr (inr (inl here)) ↦
            leaf_translation-IsLow left pte iova size t le small (ground (arith, here, e))
        | inr (inr (inr (updated, stored))) ↦
            leaf_finish-IsLow left pte (iommu_write_pte m space address updated w) le t
              (ground (arith, stored, e))
      ]

  walk-IsLow :
      (levels bits table : ℕ) (w : W)
      → levels ≤ 3
      → GivesLow (walk m space iova size write update_ad levels bits table w)
  unfolding walk
  walk-IsLow zero bits table w le t e = absurd (ground arith)
  walk-IsLow (suc left) bits table w le t e =
      let at = iova / page_of left % 2 ^ bits * 8 in
      elim (Bool-cases (ltb (u64_max - at) table)) [
        | inl over ↦ absurd (ground (arith, over, e))
        | inr fits ↦
            walk_step-IsLow left (table + at) (walk m space iova size write update_ad left 9)
              (iommu_read_pte m space (table + at) w) (omega arith)
              (λ next v. walk-IsLow left 9 next v (omega arith)) t (ground (arith, fits, e))
      ]

new_entry-IsSmall : (t : Translation) → IsLow t → IsSmall (new_entry t)
unfolding new_entry
new_entry-IsSmall t h = h

cache_insert-IsContext :
    (c : Context) (t : Translation) → IsContext c → IsLow t → IsContext (cache_insert c t)
unfolding cache_insert
cache_insert-IsContext c t v low = elim (Bool-cases (ltb (length c.cache) cache_entries)) [
  | inl room ↦ rw room (record {
    count = omega (
      arith,
      length-append c.cache (new_entry t ∷ []),
      ltb→lt (length c.cache) cache_entries room,
    );
    small = All-append IsSmall c.cache (new_entry t ∷ []) v.small (new_entry-IsSmall t low, tt);
  })
  | inr full ↦ rw full (record {
    count =
        (let n = v.count in
          omega (arith, length-set c.cache (c.cache_next % cache_entries) (new_entry t)));
    small =
        All-set IsSmall c.cache (c.cache_next % cache_entries) (new_entry t) v.small
          (new_entry-IsSmall t low);
  })
]

pub cache_flush-IsContext : (c : Context) → IsContext (cache_flush c)
unfolding cache_flush
cache_flush-IsContext c = record { count = omega arith; small = tt }

pub drop_overlapping-All :
    (es : List CacheEntry) (iova size : ℕ)
    → All IsSmall es
    → (length (drop_overlapping es iova size) ≤ length es)
      × All IsSmall (drop_overlapping es iova size)
unfolding drop_overlapping
drop_overlapping-All [] iova size h = (omega arith, tt)
drop_overlapping-All (e ∷ es) iova size h =
    let (n, all) = drop_overlapping-All es iova size h.1 in
    elim (Bool-cases (cache_ranges_overlap e iova size)) [
      | inl gone ↦ rw gone (omega arith, all)
      | inr kept ↦ rw kept (omega arith, (h.0, all))
    ]

module _ {W : Type 0} (m : Downstream W) (c : Context) where
  pub translate_locked-at :
      (address size : ℕ) (write : Bool) (w : W)
      → ((e : Errno) × (translate_locked m c address size write w ≡ (w, c, err e)))
        ⊎ ((space : ℕ) × (translate_locked m c address size write w
              ≡ translate_mode m space c address size write w))
  unfolding translate_locked
  translate_locked-at address size write w = elim (Bool-cases (faults c.mode)) [
    | inl faulty ↦ inl (Errno.eacces, ground (arith, faulty))
    | inr fine ↦ elim (Option-cases c.downstream) [
      | inl absent ↦ inl (Errno.enodev, ground (arith, fine, absent))
      | inr (space, here) ↦ inr (space, ground (arith, fine, here))
    ]
  ]

module _ {W : Type 0} (m : Downstream W) (c : Context) (v : IsContext c) where
  translate_finish-IsContext :
      (iova : ℕ) (r : W × Result Translation) → GivesLow r → IsContext (translate_finish c iova r).1
  unfolding translate_finish
  translate_finish-IsContext iova (w, ok t) h = cache_insert-IsContext c t v (h t refl)
  translate_finish-IsContext iova (w, err e) h = v

  translate_sv39_mode-IsLow :
      (space address size : ℕ) (write : Bool) (w : W)
      → GivesLow
          (translate_sv39_mode m space c address size write (root_bits c.mode) (va_bits c.mode) w)
  unfolding translate_sv39_mode
  translate_sv39_mode-IsLow space address size write w =
      elim (Result-cases (canonical_iova address (va_bits c.mode))) [
        | inl (iova, good) ↦
            rw (good, translate_sv39_mode)
              (walk-IsLow m space iova size write c.update_ad
                (canonical_iova-lt address c.mode iova good) 3 (root_bits c.mode)
                (c.root_ppn * 2 ^ 12 % 2 ^ 64) w (omega arith))
        | inr (e, bad) ↦ rw (bad, translate_sv39_mode) (λ t h. absurd (ground arith))
      ]

  translate_iova-IsContext :
      (space iova address size : ℕ) (write : Bool) (w : W)
      → IsContext (translate_iova m space c iova address size write w).1
  unfolding translate_iova
  translate_iova-IsContext space iova address size write w =
      elim (Option-cases (cache_lookup c iova size write)) [
        | inr (x, found) ↦ rw (found, translate_iova) v
        | inl missing ↦
            rw (missing, translate_iova)
              (translate_finish-IsContext iova _
                (translate_sv39_mode-IsLow space address size write w))
      ]

  translate_mode-IsContext :
      (space address size : ℕ) (write : Bool) (w : W)
      → IsContext (translate_mode m space c address size write w).1
  unfolding translate_mode
  translate_mode-IsContext space address size write w = elim (Bool-cases (walks c.mode)) [
    | inr direct ↦ rw direct v
    | inl tables ↦ elim (Bool-cases (not c.root_valid)) [
      | inl rootless ↦ rw (tables, rootless) v
      | inr rooted ↦ elim (Result-cases (canonical_iova address (va_bits c.mode))) [
        | inr (e, bad) ↦ rw (tables, rooted, bad) v
        | inl (iova, good) ↦
            rw (tables, rooted, good) (translate_iova-IsContext space iova address size write w)
      ]
    ]
  ]

  pub translate_locked-IsContext :
      (address size : ℕ) (write : Bool) (w : W)
      → IsContext (translate_locked m c address size write w).1
  translate_locked-IsContext address size write w =
      elim (translate_locked-at m c address size write w) [
        | inl (e, same) ↦ subst (λ r. IsContext r.1) (sym same) v
        | inr (space, same) ↦
            subst (λ r. IsContext r.1) (sym same)
              (translate_mode-IsContext space address size write w)
      ]
