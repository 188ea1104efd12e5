-- ===== src/AddressSpace/Lifecycle.antt =====
-- Mapping and unmapping in sequence: enabling, destroying, and adding then removing a region.
use vart.Common.{
  ℕ, ◌≡◌, refl, sym, ap, ◌∙◌, subst, ◌⊎◌, inl, inr, Bool, Option, none, some, List, [], ◌∷◌, arith,
  ℕ_discrete, Bool-cases, ==_refl, ==_ne, In, done, update, update_ne, Once, remove_first-append,
}
use vart.AddressSpace.Defs.{Region, World}
use vart.AddressSpace.Ops.{same_pointer, add, remove, set_enabled, unlink_all, space_destroy}
use vart.AddressSpace.Invariant.{IsMapped, IsWell, SameShape, IsRegion-same, AllApart-same}
use vart.AddressSpace.Preserve.{added, removed, add-cases}

-- The links are as they were.
abbrev SameLinks : (ℕ → Region) → (ℕ → Region) → Type 0
SameLinks old new = (q : ℕ) → (new q).address_space ≡ (old q).address_space

IsMapped-same :
    (old new : ℕ → Region) (s : ℕ) (mapped : List ℕ)
    → SameShape old new
    → SameLinks old new
    → IsMapped old s mapped
    → IsMapped new s mapped
IsMapped-same old new s mapped same links v = record {
  valid = IsRegion-same old new same mapped v.valid;
  apart = AllApart-same old new same mapped v.apart;
  once = v.once;
  linked = λ q. ((λ i. links q ∙ (v.linked q).0 i), (λ l. (v.linked q).1 (sym (links q) ∙ l)));
}

enabled-same :
    (regions : ℕ → Region) (r : ℕ) (enabled : Bool)
    → let new = update regions r (record (regions r) { enabled = enabled }) in
      SameShape regions new × SameLinks regions new
enabled-same regions r enabled = ((λ q. ground arith), (λ q. ground arith))

-- A region that is not in the list stays as it is.
unlink_all-ne :
    (regions : ℕ → Region) (rs : List ℕ) (q : ℕ) → ¬ In q rs → unlink_all regions rs q ≡ regions q
unfolding unlink_all
unlink_all-ne regions [] q n = refl
unlink_all-ne regions (r ∷ rs) q n =
    unlink_all-ne (update regions r (record (regions r) { address_space = none })) rs q
      (λ m. n (inr m))
    ∙ update_ne regions r q _ (λ e. n (inl (sym e)))

-- One that is in the list loses its link, and nothing else.
unlink_all-In :
    (regions : ℕ → Region) (rs : List ℕ) (q : ℕ)
    → Once rs
    → In q rs
    → unlink_all regions rs q ≡ record (regions q) { address_space = none }
unfolding unlink_all
unlink_all-In regions [] q o m = elim m [ ]
unlink_all-In regions (r ∷ rs) q o (inl e) =
    unlink_all-ne (update regions r (record (regions r) { address_space = none })) rs q
      (λ m. o.0 (subst (λ p. In p rs) e m))
    ∙ ground arith
unlink_all-In regions (r ∷ rs) q o (inr m) =
    unlink_all-In (update regions r (record (regions r) { address_space = none })) rs q o.1 m
    ∙ ap (λ (p : Region). record p { address_space = none })
        (update_ne regions r q _ (λ e. o.0 (subst (λ p. In p rs) (sym e) m)))

In-dec : (q : ℕ) (rs : List ℕ) → In q rs ⊎ (¬ In q rs)
In-dec q [] = inr (λ m. m)
In-dec q (r ∷ rs) = elim (ℕ_discrete q r) [
  | yes e ↦ inl (inl e)
  | no d ↦ elim (In-dec q rs) [
    | inl m ↦ inl (inr m)
    | inr n ↦ inr (λ m. elim m [ inl e ↦ d e | inr i ↦ n i ])
  ]
]

unlink_all-SameShape :
    (regions : ℕ → Region) (rs : List ℕ) → Once rs → SameShape regions (unlink_all regions rs)
unlink_all-SameShape regions rs o q = elim (In-dec q rs) [
  | inl m ↦ ground (arith, unlink_all-In regions rs q o m)
  | inr n ↦ ground (arith, unlink_all-ne regions rs q n)
]

module _ {D : Type 0} (w : World D) where
  -- `vart_address_space_set_enabled` keeps every address space well formed: enabling a region that
  -- was disabled brings no ambiguity, since `vart_address_space_add` looks at disabled ones too.
  pub set_enabled-IsWell :
      (s r : Option ℕ) (enabled : Bool) → IsWell w → IsWell (set_enabled w s r enabled).0
  unfolding set_enabled
  set_enabled-IsWell none r enabled v = v
  set_enabled-IsWell (some s) none enabled v = v
  set_enabled-IsWell (some s) (some r) enabled v =
      elim (Bool-cases (same_pointer (w.region r).address_space (some s))) [
        | inr ne ↦ rw ne v
        | inl hit ↦ rw hit (record {
          mapped = λ u.
              IsMapped-same w.region (update w.region r (record (w.region r) { enabled = enabled }))
                u _ (enabled-same w.region r enabled).0 (enabled-same w.region r enabled).1
                (v.mapped u);
        })
      ]

  -- What `vart_address_space_remove` undoes, for a region that the space does not hold.
  pub remove-added :
      (s r : ℕ) (allocated : Bool) {v : World D}
      → ¬ In r (w.space s).regions
      → add w (some s) (some r) allocated ≡ (v, done)
      → (u : World D) × (remove v (some s) (some r) ≡ (u, done))
        × ((u.space s).regions ≡ (w.space s).regions)
        × ((v.region r).address_space ≡ some s)
        × ((u.region r).address_space ≡ none)
  unfolding remove
  remove-added s r allocated {v} absent h = elim (add-cases w s r allocated) [
    | inl (e, f) ↦ absurd (ground arith)
    | inr (capacity, free, clear, f) ↦
        let e : v ≡ added w s r capacity = ground arith in
        rw e (
          removed (added w s r capacity) s r (w.space s).regions,
          ground (arith, remove_first-append r (w.space s).regions absent),
          ground arith,
          ground arith,
          ground arith,
        )
  ]

  -- A region that was added can be removed again: the space then holds the regions that it held, in
  -- their order, and the region is free, so that it can be mapped elsewhere.
  pub remove-add :
      (s r : ℕ) (allocated : Bool) {v : World D}
      → IsWell w
      → add w (some s) (some r) allocated ≡ (v, done)
      → (u : World D) × (remove v (some s) (some r) ≡ (u, done))
        × ((u.space s).regions ≡ (w.space s).regions)
        × ((u.region r).address_space ≡ none)
  remove-add s r allocated {v} well h = elim (add-cases w s r allocated) [
    | inl (e, f) ↦ absurd (ground arith)
    | inr (capacity, free, clear, f) ↦
        let absent : ¬ In r (w.space s).regions =
          λ m. (let l = ((well.mapped s).linked r).0 m in absurd (ground arith)) in
        let (u, gone, held, link, unlinked) = remove-added s r allocated absent h in
        (u, gone, held, unlinked)
  ]

  destroyed-IsMapped :
      (s t : ℕ)
      → IsWell w
      → IsMapped (space_destroy w s).region t ((space_destroy w s).space t).regions
  unfolding space_destroy
  destroyed-IsMapped s t v = elim (ℕ_discrete t s) [
    | yes e ↦
        rw (e, ==_refl)
          (record {
            valid = tt;
            apart = tt;
            once = tt;
            linked = λ q. ((λ m. elim m [ ]), (λ l. absurd (unlinked q l)));
          })
    | no d ↦ rw (==_ne s t (λ h. d (sym h))) (record {
      valid = IsRegion-same w.region new same _ (v.mapped t).valid;
      apart = AllApart-same w.region new same _ (v.mapped t).apart;
      once = (v.mapped t).once;
      linked = λ q. elim (In-dec q (w.space s).regions) [
        | inl m ↦
            let gone : (new q).address_space ≡ none =
              ap (λ (p : Region). p.address_space) (unlink_all-In w.region _ q once m) in
            let ours = ((v.mapped s).linked q).0 m in
            (
              (λ i. let theirs = ((v.mapped t).linked q).0 i in absurd (d (ground arith))),
              (λ l. absurd (ground arith)),
            )
        | inr n ↦
            let kept = ap (λ (p : Region). p.address_space) (unlink_all-ne w.region _ q n) in
            (
              (λ i. kept ∙ ((v.mapped t).linked q).0 i),
              (λ l. ((v.mapped t).linked q).1 (sym kept ∙ l)),
            )
      ];
    })
  ]
    where
      once : Once (w.space s).regions
      once = (v.mapped s).once

      new : ℕ → Region
      new = unlink_all w.region (w.space s).regions

      same : SameShape w.region new
      same = unlink_all-SameShape w.region (w.space s).regions once

      unlinked : (q : ℕ) → (new q).address_space ≡ some s → ⊥
      unlinked q l = elim (In-dec q (w.space s).regions) [
        | inl m ↦
            let gone = ap (λ (p : Region). p.address_space) (unlink_all-In w.region _ q once m) in
            ground arith
        | inr n ↦
            let kept = ap (λ (p : Region). p.address_space) (unlink_all-ne w.region _ q n) in
            n (((v.mapped s).linked q).1 (sym kept ∙ l))
      ]

  -- `vart_address_space_destroy` keeps the invariant: the other spaces are as they were, and every
  -- region of the destroyed space is free again, with its range and its settings unchanged.
  pub space_destroy-IsWell :
      (s : ℕ)
      → IsWell w
      → IsWell (space_destroy w s)
        × ((q : ℕ)
            → In q (w.space s).regions
            → (space_destroy w s).region q ≡ record (w.region q) { address_space = none })
  unfolding space_destroy
  space_destroy-IsWell s v = (
    record { mapped = λ t. destroyed-IsMapped s t v },
    λ q m. unlink_all-In w.region (w.space s).regions q (v.mapped s).once m,
  )
