-- ===== src/Iommu/Invalidate.antt =====
-- What an invalidation leaves in the cache.
use vart.Common.{
  ℕ, ◌+◌, ◌-◌, ◌^◌, ◌≤◌, ◌<◌, ◌≡◌, refl, subst, ◌↔◌, inl, inr, Bool, true, false, ◌||◌, none, List,
  [], ◌∷◌, arith, ltb, leb, ◌==◌, Bool-cases, ok, All, In, done,
}
use vart.AddressSpace.Defs.{u64_max}
use vart.Iommu.Defs.{Mode, CacheEntry, Context, canonical_iova, walks, va_bits}
use vart.Iommu.Cache.{
  serves, lookup_from, cache_lookup, cache_flush, cache_ranges_overlap, drop_overlapping,
  cache_invalidate,
}
use vart.Iommu.Context.{next_generation, invalidate_iova, invalidate}

-- The range of an entry lies far from the end of the 64-bit addresses.
abbrev pub IsSmall : CacheEntry → Type 0
IsSmall e = e.iova_base + e.size ≤ 2 ^ 42

-- Two ranges, by address and size, have an address in common.
abbrev pub Meets : ℕ → ℕ → ℕ → ℕ → Type 0
Meets a n b k = (x : ℕ) × (a ≤ x) × (x < a + n) × (b ≤ x) × (x < b + k)

-- An entry that serves an access covers it.
serves-range :
    (e : CacheEntry) (address size : ℕ) (write : Bool)
    → IsSmall e
    → 0 < size
    → address + size < 2 ^ 64
    → serves e address size write ≡ true
    → (e.iova_base ≤ address) × (address + size ≤ e.iova_base + e.size)
unfolding serves
serves-range e address size write s p b h = (ground arith, ground arith)

overlap-Meets :
    (e : CacheEntry) (address size iova n : ℕ)
    → IsSmall e
    → iova + n < 2 ^ 64
    → Meets address size iova n
    → e.iova_base ≤ address
    → address + size ≤ e.iova_base + e.size
    → cache_ranges_overlap e iova n ≡ true
unfolding cache_ranges_overlap
overlap-Meets e address size iova n s b (x, p, q, r, t) h k = ground arith

module _ (iova n : ℕ) (fits : iova + n < 2 ^ 64) where
  lookup_from-drop_overlapping :
      (es : List CacheEntry) (address size : ℕ) (write : Bool)
      → All IsSmall es
      → 0 < size
      → address + size < 2 ^ 64
      → Meets address size iova n
      → lookup_from (drop_overlapping es iova n) address size write ≡ none
  unfolding lookup_from drop_overlapping
  lookup_from-drop_overlapping [] address size write s p b meets = refl
  lookup_from-drop_overlapping (e ∷ es) address size write s p b meets =
      let ih = lookup_from-drop_overlapping es address size write s.1 p b meets in
      elim (Bool-cases (cache_ranges_overlap e iova n)) [
        | inl gone ↦ rw gone ih
        | inr kept ↦ elim (Bool-cases (serves e address size write)) [
          | inr other ↦ rw (kept, other) ih
          | inl here ↦
              let (above, below) = serves-range e address size write s.0 p b here in
              absurd (cc (overlap-Meets e address size iova n s.0 fits meets above below, kept))
        ]
      ]

  -- The entries that stay are those that do not overlap the range, in their order.
  drop_overlapping-In :
      (es : List CacheEntry) (e : CacheEntry)
      → In e (drop_overlapping es iova n) ↔ (In e es × (cache_ranges_overlap e iova n ≡ false))
  unfolding drop_overlapping
  drop_overlapping-In [] e = ((λ m. absurd (elim m [ ])), (λ (m, k). m))
  drop_overlapping-In (f ∷ es) e = elim (Bool-cases (cache_ranges_overlap f iova n)) [
    | inl gone ↦ rw gone (
      (λ m. (inr ((drop_overlapping-In es e).0 m).0, ((drop_overlapping-In es e).0 m).1)),
      (λ (m, k). elim m [ inl same ↦ absurd (cc) | inr i ↦ (drop_overlapping-In es e).1 (i, k) ]),
    )
    | inr kept ↦ rw kept (
      (λ m. elim m [
        | inl same ↦ (inl same, cc)
        | inr i ↦ (inr ((drop_overlapping-In es e).0 i).0, ((drop_overlapping-In es e).0 i).1)
      ]),
      (λ (m, k). elim m [
        | inl same ↦ inl same
        | inr i ↦ inr ((drop_overlapping-In es e).1 (i, k))
      ]),
    )
  ]

cache_lookup-next_generation :
    (c : Context) (address size : ℕ) (write : Bool)
    → lookup_from c.cache address size write ≡ none
    → cache_lookup (next_generation c) address size write ≡ none
unfolding cache_lookup next_generation
cache_lookup-next_generation c address size write h = ground (arith, h)

module _ (c d : Context) (iova address size other n : ℕ) (write : Bool)
    (small : All IsSmall c.cache) (some_bytes : 0 < n) (no_wrap : other + n < 2 ^ 64)
    (meets : Meets other n iova size) where
  invalidate_iova-lookup :
      invalidate_iova c iova size ≡ (d, done) → cache_lookup d other n write ≡ none
  unfolding invalidate_iova cache_flush cache_invalidate lookup_from
  invalidate_iova-lookup e = elim (Bool-cases (leb (2 ^ va_bits c.mode) size)) [
    | inl whole ↦
        subst (λ x. cache_lookup x other n write ≡ none) (ground (arith, whole, e))
          (cache_lookup-next_generation (cache_flush c) other n write refl)
    | inr part ↦ elim (Bool-cases (ltb (2 ^ va_bits c.mode - size) iova)) [
      | inl beyond ↦ absurd (ground (arith, part, beyond, e))
      | inr inside ↦
          subst (λ x. cache_lookup x other n write ≡ none) (ground (arith, part, inside, e))
            (cache_lookup-next_generation (cache_invalidate c iova size) other n write (
              lookup_from-drop_overlapping iova size (fits c.mode part inside) c.cache other n write
                small some_bytes no_wrap meets))
    ]
  ]
    where
      fits :
          (mode : Mode)
          → leb (2 ^ va_bits mode) size ≡ false
          → ltb (2 ^ va_bits mode - size) iova ≡ false
          → iova + size < 2 ^ 64
      fits Mode.sv39 p q = ground (arith, p, q)
      fits Mode.sv39x4 p q = ground (arith, p, q)
      fits Mode.identity p q = ground (arith, p, q)
      fits Mode.fault p q = ground (arith, p, q)

  -- After a successful invalidation in a mode that walks tables, the cache has no answer to any access
  -- that shares an address with the invalidated range, if its entries lie in the translated addresses.
  pub cache_lookup-invalidate :
      walks c.mode ≡ true
      → canonical_iova address (va_bits c.mode) ≡ ok iova
      → invalidate c address size ≡ (d, done)
      → cache_lookup d other n write ≡ none
  unfolding invalidate
  cache_lookup-invalidate tables canonical e =
      elim (Bool-cases (size == 0 || ltb (u64_max - (size - 1)) address)) [
        | inl bad ↦ absurd (ground (arith, bad, e))
        | inr good ↦ invalidate_iova-lookup (ground (arith, good, tables, canonical, e))
      ]
