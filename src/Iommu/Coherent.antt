-- ===== src/Iommu/Coherent.antt =====
-- Each cached translation is what a walk of the page table finds, so that reads do not see the cache.
use vart.Common.{
  ℕ, zero, suc, ◌+◌, ◌-◌, ◌*◌, ◌%◌, ◌^◌, ◌≤◌, ◌<◌, ◌≡◌, refl, sym, ap, ◌∙◌, inl, inr, Bool, false,
  none, some, List, [], ◌∷◌, arith, ltb, Bool-cases, Option-cases, ok, err, length, All, All-append,
  All-set, Result,
}
use vart.AddressSpace.Defs.{sub64}
use vart.Iommu.Defs.{
  Mode, CacheEntry, Translation, Context, cache_entries, canonical_iova, va_bits, root_bits,
}
use vart.Iommu.Walk.{Downstream, walk, translate_sv39_mode}
use vart.Iommu.Cache.{serves, hit, lookup_from, cache_lookup, cache_flush, cache_insert, new_entry}
use vart.Iommu.Context.{translate_finish, translate_iova}
use vart.Iommu.Level.{page_of, InPage, Reads}
use vart.Iommu.Page.{walk-Found}

abbrev pub translation_of : CacheEntry → Translation
translation_of e = record {
  iova_base = e.iova_base;
  translated_base = e.translated_base;
  size = e.size;
  permissions = e.permissions;
}

module _ {W : Type 0} (m : Downstream W) (space : ℕ) (w : W) (mode : Mode) (root_ppn : ℕ) where
  -- The walk of a context's table
  abbrev pub table_walk : ℕ → ℕ → Bool → W × Result Translation
  table_walk iova size write =
      walk m space iova size write false 3 (root_bits mode) (root_ppn * 2 ^ 12 % 2 ^ 64) w

  -- The entry covers a range without wrap, and a walk for a read anywhere in it finds the entry.
  pub record IsBacked (e : CacheEntry) : Type 0 where
    pub bounded : e.iova_base + e.size ≤ 2 ^ 42
    pub backed :
        (iova size : ℕ)
        → 0 < size
        → e.iova_base ≤ iova
        → iova + size ≤ e.iova_base + e.size
        → table_walk iova size false ≡ (w, ok (translation_of e))

abbrev pub IsCoherent : {W : Type 0} → Downstream W → ℕ → W → Context → Type 0
IsCoherent m space w c = All (IsBacked m space w c.mode c.root_ppn) c.cache

-- The range of a page, from an address in it
range-InPage :
    (level iova other size : ℕ)
    → level ≤ 2
    → 0 < size
    → iova - iova % page_of level ≤ other
    → other + size ≤ iova - iova % page_of level + page_of level
    → InPage level iova other size
range-InPage zero iova other size le p a b = (omega arith, p, omega arith)
range-InPage (suc zero) iova other size le p a b = (omega arith, p, omega arith)
range-InPage (suc (suc zero)) iova other size le p a b = (omega arith, p, omega arith)
range-InPage (suc (suc (suc n))) iova other size le p a b = absurd (omega arith)

pub page-bound :
    (level iova : ℕ)
    → level ≤ 2
    → iova < 2 ^ 41
    → iova - iova % page_of level + page_of level ≤ 2 ^ 42
page-bound zero iova le h = omega arith
page-bound (suc zero) iova le h = omega arith
page-bound (suc (suc zero)) iova le h = omega arith
page-bound (suc (suc (suc n))) iova le h = absurd (omega arith)

module _ {W : Type 0} (m : Downstream W) (space : ℕ) (w : W) (contents : ℕ → Result (List ℕ))
    (reads : Reads m space w contents) (mode : Mode) (root_ppn : ℕ) where
  -- What a walk finds may be cached.
  walk-IsBacked :
      (iova size : ℕ) (write : Bool) (v : W) (t : Translation)
      → iova < 2 ^ 41
      → table_walk m space w mode root_ppn iova size write ≡ (v, ok t)
      → IsBacked m space w mode root_ppn (new_entry t)
  unfolding new_entry
  walk-IsBacked iova size write v t small e =
      let f =
        walk-Found m space w contents reads iova size write 2 (root_bits mode)
          (root_ppn * 2 ^ 12 % 2 ^ 64) v t (omega arith) e in
      let below = f.below in
      let page = f.page in
      let base = f.base in
      let bound = page-bound f.leaf_level iova below small in
      record {
        bounded = omega arith;
        backed = λ other length p a b.
            f.others other length false refl
              (range-InPage f.leaf_level iova other length below p (omega arith) (omega arith));
      }

module _ {W : Type 0} (m : Downstream W) (space : ℕ) (w : W) (mode : Mode) (root_ppn : ℕ) where
  -- What the cache answers to a read is what the walk answers.
  lookup_from-IsBacked :
      (es : List CacheEntry) (iova size x : ℕ)
      → All (IsBacked m space w mode root_ppn) es
      → 0 < size
      → size ≤ 2 ^ 63
      → iova < 2 ^ 41
      → lookup_from es iova size false ≡ some x
      → (t : Translation) × (table_walk m space w mode root_ppn iova size false ≡ (w, ok t))
        × ((t.translated_base + sub64 iova t.iova_base) % 2 ^ 64 ≡ x)
  unfolding lookup_from serves hit
  lookup_from-IsBacked [] iova size x b p s i e = absurd (ground arith)
  lookup_from-IsBacked (e ∷ es) iova size x b p s i h =
      elim (Bool-cases (serves e iova size false)) [
        | inr other ↦ lookup_from-IsBacked es iova size x b.1 p s i (ground (arith, other, h))
        | inl here ↦
            let bound = b.0.bounded in
            (translation_of e, b.0.backed iova size p (ground arith) (ground arith), ground arith)
      ]

cache_insert-IsCoherent :
    {W : Type 0} (m : Downstream W) (space : ℕ) (w : W) (c : Context) (t : Translation)
    → IsCoherent m space w c
    → IsBacked m space w c.mode c.root_ppn (new_entry t)
    → IsCoherent m space w (cache_insert c t)
unfolding cache_insert
cache_insert-IsCoherent m space w c t h b = elim (Bool-cases (ltb (length c.cache) cache_entries)) [
  | inl room ↦ rw room (All-append _ c.cache (new_entry t ∷ []) h (b, tt))
  | inr full ↦ rw full (All-set _ c.cache (c.cache_next % cache_entries) (new_entry t) h b)
]

pub canonical_iova-lt :
    (address : ℕ) (mode : Mode) (iova : ℕ)
    → canonical_iova address (va_bits mode) ≡ ok iova
    → iova < 2 ^ 41
unfolding canonical_iova
canonical_iova-lt address Mode.sv39x4 iova e = ground arith
canonical_iova-lt address Mode.sv39 iova e = ground arith
canonical_iova-lt address Mode.identity iova e = ground arith
canonical_iova-lt address Mode.fault iova e = ground arith

module _ {W : Type 0} (m : Downstream W) (space : ℕ) (w : W) (contents : ℕ → Result (List ℕ))
    (reads : Reads m space w contents) (c : Context) (plain : c.update_ad ≡ false) where
  -- The walk of `iommu_context_translate`, from its canonical address
  mode-walk :
      (address iova size : ℕ) (write : Bool)
      → canonical_iova address (va_bits c.mode) ≡ ok iova
      → translate_sv39_mode m space c address size write (root_bits c.mode) (va_bits c.mode) w
        ≡ table_walk m space w c.mode c.root_ppn iova size write
  unfolding translate_sv39_mode
  mode-walk address iova size write e = rw (e, translate_sv39_mode, plain) refl

  pub translate_iova-IsCoherent :
      (address iova size : ℕ) (write : Bool)
      → canonical_iova address (va_bits c.mode) ≡ ok iova
      → IsCoherent m space w c
      → IsCoherent m space w (translate_iova m space c iova address size write w).1
  unfolding translate_iova translate_finish cache_insert
  translate_iova-IsCoherent address iova size write e h =
      elim (Option-cases (cache_lookup c iova size write)) [
        | inr (x, found) ↦ rw (found, translate_iova) h
        | inl missing ↦
            rw (missing, translate_iova, mode-walk address iova size write e)
              (finished (table_walk m space w c.mode c.root_ppn iova size write) refl)
      ]
    where
      finished :
          (r : W × Result Translation)
          → table_walk m space w c.mode c.root_ppn iova size write ≡ r
          → IsCoherent m space w (translate_finish c iova r).1
      finished (v, err x) walked = h
      finished (v, ok t) walked = cache_insert-IsCoherent m space w c t h (
          walk-IsBacked m space w contents reads c.mode c.root_ppn iova size write v t
            (canonical_iova-lt address c.mode iova e) walked)

  pub translate_iova-miss :
      (address iova size : ℕ) (write : Bool)
      → canonical_iova address (va_bits c.mode) ≡ ok iova
      → cache_lookup c iova size write ≡ none
      → translate_iova m space c iova address size write w
        ≡ translate_finish c iova (table_walk m space w c.mode c.root_ppn iova size write)
  unfolding translate_iova
  translate_iova-miss address iova size write e missing =
      rw (missing, translate_iova)
        (ap (translate_finish c iova) (mode-walk address iova size write e))

-- The answer to an access, and the world after it
abbrev pub answer : {W : Type 0} → W × Context × Result ℕ → W × Result ℕ
answer r = (r.0, r.2)

answer-translate_finish :
    {W : Type 0} (c d : Context) (iova : ℕ) (r : W × Result Translation)
    → answer (translate_finish c iova r) ≡ answer (translate_finish d iova r)
unfolding translate_finish
answer-translate_finish c d iova (v, ok t) = refl
answer-translate_finish c d iova (v, err x) = refl

cache_lookup-plain :
    (c : Context) (iova size : ℕ) (write : Bool)
    → c.update_ad ≡ false
    → cache_lookup c iova size write ≡ lookup_from c.cache iova size write
unfolding cache_lookup
cache_lookup-plain c iova size write plain = rw plain refl

module _ {W : Type 0} (m : Downstream W) (space : ℕ) (w : W) (contents : ℕ → Result (List ℕ))
    (reads : Reads m space w contents) (c : Context) (plain : c.update_ad ≡ false) where
  flushed :
      (address iova size : ℕ) (write : Bool)
      → canonical_iova address (va_bits c.mode) ≡ ok iova
      → translate_iova m space (cache_flush c) iova address size write w
        ≡ translate_finish
            (cache_flush c)
            iova
            (table_walk m space w c.mode c.root_ppn iova size write)
  unfolding cache_flush lookup_from
  flushed address iova size write e =
      translate_iova-miss m space w contents reads (cache_flush c) plain address iova size write e
        (cache_lookup-plain (cache_flush c) iova size write plain)

  pub translate_iova-cache_flush :
      (address iova size : ℕ)
      → canonical_iova address (va_bits c.mode) ≡ ok iova
      → IsCoherent m space w c
      → 0 < size
      → size ≤ 2 ^ 63
      → answer (translate_iova m space c iova address size false w)
        ≡ answer (translate_iova m space (cache_flush c) iova address size false w)
  unfolding translate_iova translate_finish
  translate_iova-cache_flush address iova size e h p s =
      elim (Option-cases (cache_lookup c iova size false)) [
        | inl missing ↦
            ap answer (
              translate_iova-miss m space w contents reads c plain address iova size false e
                missing)
            ∙ answer-translate_finish c (cache_flush c) iova _
            ∙ ap answer (sym (flushed address iova size false e))
        | inr (x, found) ↦
            let (t, walked, same) =
              lookup_from-IsBacked m space w c.mode c.root_ppn c.cache iova size x h p s
                (canonical_iova-lt address c.mode iova e)
                (sym (cache_lookup-plain c iova size false plain) ∙ found) in
            rw (found, translate_iova)
              (ap (λ (y : ℕ). (w, ok y)) (sym same)
                ∙ ap (λ r. answer (translate_finish (cache_flush c) iova r)) (sym walked)
                ∙ ap answer (sym (flushed address iova size false e)))
      ]
