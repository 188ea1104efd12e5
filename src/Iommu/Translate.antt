-- ===== src/Iommu/Translate.antt =====
-- Translations of a context: its cache does not show in the answers to reads.
use vart.Common.{
  ℕ, ◌*◌, ◌%◌, ◌^◌, ◌≤◌, ◌<◌, ◌≡◌, refl, sym, ap, ◌∙◌, subst, ◌⊎◌, inl, inr, Bool, true, false,
  some, List, [], ◌∷◌, arith, Bool-cases, Option-cases, ok, err, All, Errno, Result, Result-cases,
}
use vart.Iommu.Defs.{
  CacheEntry, Translation, Context, canonical_iova, faults, walks, va_bits, root_bits,
}
use vart.Iommu.Walk.{Downstream}
use vart.Iommu.Cache.{cache_flush, cache_insert, cache_lookup}
use vart.Iommu.Context.{translate_finish, translate_iova, translate_mode, translate_locked}
use vart.Iommu.Level.{Reads}
use vart.Iommu.Still.{walk-still}
use vart.Iommu.Coherent.{
  IsCoherent, answer, translate_iova-miss, translate_iova-IsCoherent, translate_iova-cache_flush,
}

abbrev pub with_cache : Context → List CacheEntry → ℕ → Context
with_cache c cache next = record c { cache = cache; cache_next = next }

module _ {W : Type 0} (m : Downstream W) (space : ℕ) (c : Context)
    (here : c.downstream ≡ some space) (address size : ℕ) (write : Bool) (w : W) where
  -- Whatever its cache holds, a context either looks the access up and walks, or gives one answer.
  locked-ways :
      ((iova : ℕ) × (canonical_iova address (va_bits c.mode) ≡ ok iova)
        × ((cache : List CacheEntry) (next : ℕ)
            → translate_locked m (with_cache c cache next) address size write w
              ≡ translate_iova m space (with_cache c cache next) iova address size write w))
      ⊎ ((x : Result ℕ) × ((cache : List CacheEntry) (next : ℕ)
            → translate_locked m (with_cache c cache next) address size write w
              ≡ (w, with_cache c cache next, x)))
  unfolding translate_locked translate_mode
  locked-ways = elim (Bool-cases (faults c.mode)) [
    | inl faulty ↦ inr (err Errno.eacces, λ cache next. ground (arith, faulty))
    | inr fine ↦ elim (Bool-cases (walks c.mode)) [
      | inr direct ↦ inr (ok address, λ cache next. ground (arith, fine, direct, here))
      | inl tables ↦ elim (Bool-cases c.root_valid) [
        | inr rootless ↦
            inr (err Errno.enodev, λ cache next. ground (arith, fine, tables, rootless, here))
        | inl rooted ↦ elim (Result-cases (canonical_iova address (va_bits c.mode))) [
          | inr (e, bad) ↦
              inr (err e, λ cache next. ground (arith, fine, tables, rooted, bad, here))
          | inl (iova, good) ↦
              inl (iova, good, λ cache next. ground (arith, fine, tables, rooted, good, here))
        ]
      ]
    ]
  ]

cache_flush-cache_insert :
    (c : Context) (t : Translation) → cache_flush (cache_insert c t) ≡ cache_flush c
unfolding cache_insert cache_flush
cache_flush-cache_insert c t = ground arith

translate_finish-cache_flush :
    {W : Type 0} (c : Context) (iova : ℕ) (r : W × Result Translation)
    → (cache_flush (translate_finish c iova r).1 ≡ cache_flush c)
      × ((translate_finish c iova r).0 ≡ r.0)
unfolding translate_finish cache_insert cache_flush
translate_finish-cache_flush c iova (v, ok t) = (cache_flush-cache_insert c t, refl)
translate_finish-cache_flush c iova (v, err e) = (refl, refl)

translate_iova-hit :
    {W : Type 0} (m : Downstream W) (space : ℕ) (c : Context) (address iova size : ℕ) (write : Bool)
    (w : W) (x : ℕ)
    → cache_lookup c iova size write ≡ some x
    → translate_iova m space c iova address size write w ≡ (w, c, ok x)
unfolding translate_iova
translate_iova-hit m space c address iova size write w x found = rw (found, translate_iova) refl

module _ {W : Type 0} (m : Downstream W) (space : ℕ) (w : W) (contents : ℕ → Result (List ℕ))
    (reads : Reads m space w contents) (c : Context) (plain : c.update_ad ≡ false)
    (here : c.downstream ≡ some space) where
  -- A translation keeps all of the context but its cache, and all of the world.
  pub translate_locked-kept :
      (address size : ℕ) (write : Bool)
      → (cache_flush (translate_locked m c address size write w).1 ≡ cache_flush c)
        × ((translate_locked m c address size write w).0 ≡ w)
  translate_locked-kept address size write =
      elim (locked-ways m space c here address size write w) [
        | inr (x, e) ↦ (
          ap (λ r. cache_flush r.1) (e c.cache c.cache_next),
          ap (λ r. r.0) (e c.cache c.cache_next),
        )
        | inl (iova, good, e) ↦ elim (Option-cases (cache_lookup c iova size write)) [
          | inr (x, found) ↦
              let same =
                e c.cache c.cache_next
                ∙ translate_iova-hit m space c address iova size write w x found in
              (ap (λ r. cache_flush r.1) same, ap (λ r. r.0) same)
          | inl missing ↦
              let same =
                e c.cache c.cache_next
                ∙ translate_iova-miss m space w contents reads c plain address iova size write good
                    missing in
              (
                ap (λ r. cache_flush r.1) same ∙ (translate_finish-cache_flush c iova _).0,
                ap (λ r. r.0) same
                    ∙ (translate_finish-cache_flush c iova _).1
                    ∙ walk-still m space w contents reads iova size write 3 (root_bits c.mode)
                        (c.root_ppn * 2 ^ 12 % 2 ^ 64),
              )
        ]
      ]

  -- It keeps the cache coherent.
  pub translate_locked-IsCoherent :
      (address size : ℕ) (write : Bool)
      → IsCoherent m space w c
      → IsCoherent m space w (translate_locked m c address size write w).1
  translate_locked-IsCoherent address size write h =
      elim (locked-ways m space c here address size write w) [
        | inr (x, e) ↦ subst (λ r. IsCoherent m space w r.1) (sym (e c.cache c.cache_next)) h
        | inl (iova, good, e) ↦
            subst (λ r. IsCoherent m space w r.1) (sym (e c.cache c.cache_next))
              (translate_iova-IsCoherent m space w contents reads c plain address iova size write
                good h)
      ]

  -- Its answer to a read is that of a context that caches nothing.
  pub translate_locked-cache_flush :
      (address size : ℕ)
      → IsCoherent m space w c
      → 0 < size
      → size ≤ 2 ^ 63
      → answer (translate_locked m c address size false w)
        ≡ answer (translate_locked m (cache_flush c) address size false w)
  unfolding cache_flush
  translate_locked-cache_flush address size h p s =
      elim (locked-ways m space c here address size false w) [
        | inr (x, e) ↦ ap answer (e c.cache c.cache_next) ∙ ap answer (sym (e [] 0))
        | inl (iova, good, e) ↦
            ap answer (e c.cache c.cache_next)
            ∙ translate_iova-cache_flush m space w contents reads c plain address iova size good h p
                s
            ∙ ap answer (sym (e [] 0))
      ]

-- Accesses of a device: address and size
pub data Access : Type 0 where
  reads writes : ℕ → ℕ → Access

-- No access is empty, nor longer than half of the 64-bit addresses.
abbrev pub IsAccess : Access → Type 0
IsAccess (reads address size) = (0 < size) × (size ≤ 2 ^ 63)
IsAccess (writes address size) = Unit {0}

module _ {W : Type 0} (m : Downstream W) (keep : Context → Context) where
  -- The answers to the reads of a sequence of accesses, by a context of which each translation finds
  -- what `keep` leaves.
  unfoldable pub answers : Context → List Access → W → List (Result ℕ)
  answers c [] w = []
  answers c (reads address size ∷ rest) w =
      let r = translate_locked m (keep c) address size false w in r.2 ∷ answers r.1 rest r.0
  answers c (writes address size ∷ rest) w =
      let r = translate_locked m (keep c) address size true w in answers r.1 rest r.0

module _ {W : Type 0} (m : Downstream W) (space : ℕ) (w : W) (contents : ℕ → Result (List ℕ))
    (steady : Reads m space w contents) (c d : Context) (plain : c.update_ad ≡ false)
    (here : c.downstream ≡ some space) (e : cache_flush d ≡ cache_flush c) (address size : ℕ)
    (write : Bool) where
  -- What the two contexts are after one access
  abbrev cached : W × Context × Result ℕ
  cached = translate_locked m c address size write w

  abbrev uncached : W × Context × Result ℕ
  uncached = translate_locked m (cache_flush d) address size write w

  after-same :
      (cached.0 ≡ w)
      × (uncached.0 ≡ w)
      × (cached.1.update_ad ≡ false)
      × (cached.1.downstream ≡ some space)
      × (cache_flush uncached.1 ≡ cache_flush cached.1)
  unfolding cache_flush
  after-same =
      let (same, still) =
        translate_locked-kept m space w contents steady c plain here address size write in
      let (other, quiet) =
        translate_locked-kept m space w contents steady (cache_flush c) plain here address size
          write in
      let moved : uncached ≡ translate_locked m (cache_flush c) address size write w =
        ap (λ x. translate_locked m x address size write w) e in
      (
        still,
        ap (λ r. r.0) moved ∙ quiet,
        ap (λ (x : Context). x.update_ad) same ∙ plain,
        ap (λ (x : Context). x.downstream) same ∙ here,
        ap (λ r. cache_flush r.1) moved ∙ other ∙ sym same,
      )

module _ {W : Type 0} (m : Downstream W) (space : ℕ) (w : W) (contents : ℕ → Result (List ℕ))
    (steady : Reads m space w contents) where
  answers-same :
      (c d : Context) (accesses : List Access)
      → c.update_ad ≡ false
      → c.downstream ≡ some space
      → IsCoherent m space w c
      → All IsAccess accesses
      → cache_flush d ≡ cache_flush c
      → answers m (λ c. c) c accesses w ≡ answers m cache_flush d accesses w
  unfolding answers
  answers-same c d [] plain here h all e = refl
  answers-same c d (reads address size ∷ rest) plain here h (ok_size, all) e =
      let (still, quiet, plain', here', e') =
        after-same m space w contents steady c d plain here e address size false in
      let a = cached m space w contents steady c d plain here e address size false in
      let b = uncached m space w contents steady c d plain here e address size false in
      let head : a.2 ≡ b.2 =
        ap (λ (q : W × Result ℕ). q.1)
          (translate_locked-cache_flush m space w contents steady c plain here address size h
            ok_size.0 ok_size.1)
        ∙ ap (λ x. (translate_locked m x address size false w).2) (sym e) in
      let tail =
        answers-same a.1 b.1 rest plain' here'
          (translate_locked-IsCoherent m space w contents steady c plain here address size false h)
          all e' in
      ap (λ q. q ∷ answers m (λ c. c) a.1 rest a.0) head
      ∙ ap (λ v. b.2 ∷ answers m (λ c. c) a.1 rest v) still
      ∙ ap (λ l. b.2 ∷ l) tail
      ∙ ap (λ v. b.2 ∷ answers m cache_flush b.1 rest v) (sym quiet)
  answers-same c d (writes address size ∷ rest) plain here h (ok_size, all) e =
      let (still, quiet, plain', here', e') =
        after-same m space w contents steady c d plain here e address size true in
      let a = cached m space w contents steady c d plain here e address size true in
      let b = uncached m space w contents steady c d plain here e address size true in
      ap (λ v. answers m (λ c. c) a.1 rest v) still
      ∙ answers-same a.1 b.1 rest plain' here'
          (translate_locked-IsCoherent m space w contents steady c plain here address size true h)
          all e'
      ∙ ap (λ v. answers m cache_flush b.1 rest v) (sym quiet)

  -- A context that does not update A and D bits and starts with an empty cache answers the reads of any
  -- sequence of reads and writes as a context does whose cache is emptied before each access, where
  -- the page tables in memory do not change.
  pub answers-cache_flush :
      (c : Context) (accesses : List Access)
      → c.update_ad ≡ false
      → c.downstream ≡ some space
      → c.cache ≡ []
      → All IsAccess accesses
      → answers m (λ c. c) c accesses w ≡ answers m cache_flush c accesses w
  answers-cache_flush c accesses plain here empty all =
      answers-same c c accesses plain here (subst (All _) (sym empty) tt) all refl
