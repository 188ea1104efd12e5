-- ===== src/AddressSpace/Preserve.antt =====
-- The operations of address-space.c keep the invariant.
use vart.Common.{
  ℕ, ◌≡◌, refl, sym, ◌∙◌, subst, ◌≢◌, ◌↔◌, ◌⊎◌, inl, inr, Bool, false, Option, none, some, List, [],
  ◌∷◌, ◌++◌, arith, ℕ_discrete, ◌==◌, Bool-cases, Option-cases, ==_refl, ==_ne, err, length, In,
  All-append, Errno, done, Result-cases, update, remove_first, In-append, Once-append,
  remove_first-All, remove_first-In, remove_first-Once, remove_first-some,
}
use vart.AddressSpace.Defs.{Region, World}
use vart.AddressSpace.Ranges.{IsRegion}
use vart.AddressSpace.Ops.{clashes, add, remove, grow}
use vart.AddressSpace.Invariant.{
  IsMapped, IsWell, SameShape, IsRegion-same, AllApart-same, clashes-Apart, AllApart-append,
}
use vart.AddressSpace.Removal.{remove_first-AllApart}

module _ (regions : ℕ → Region) (r : ℕ) where
  -- The regions after `r`'s link is set to `link`.
  abbrev pub relinked : Option ℕ → ℕ → Region
  relinked link = update regions r (record (regions r) { address_space = link })

  SameShape-relinked : (link : Option ℕ) → SameShape regions (relinked link)
  SameShape-relinked link q = ground arith

  relinked_self : (link : Option ℕ) → (relinked link r).address_space ≡ link
  relinked_self link = ground arith

  relinked_ne :
      (link : Option ℕ) (q : ℕ)
      → q ≢ r
      → (relinked link q).address_space ≡ (regions q).address_space
  relinked_ne link q n = ground arith

  -- A space that neither gains nor loses `r` stays as it is.
  IsMapped-other :
      (t : ℕ) (mapped : List ℕ) (link : Option ℕ)
      → (regions r).address_space ≢ some t
      → link ≢ some t
      → IsMapped regions t mapped
      → IsMapped (relinked link) t mapped
  IsMapped-other t mapped link n m v = record {
    valid = IsRegion-same regions (relinked link) (SameShape-relinked link) mapped v.valid;
    apart = AllApart-same regions (relinked link) (SameShape-relinked link) mapped v.apart;
    once = v.once;
    linked = λ q. elim (ℕ_discrete q r) [
      | yes e ↦
          rw e
            ((λ i. absurd (n ((v.linked r).0 i))), (λ l. absurd (m (sym (relinked_self link) ∙ l))))
      | no d ↦ (
        (λ i. relinked_ne link q d ∙ (v.linked q).0 i),
        (λ l. (v.linked q).1 (sym (relinked_ne link q d) ∙ l)),
      )
    ];
  }

  IsMapped-add :
      (s : ℕ) (mapped : List ℕ)
      → (regions r).address_space ≡ none
      → IsRegion (regions r)
      → clashes regions (regions r) mapped ≡ false
      → IsMapped regions s mapped
      → IsMapped (relinked (some s)) s (mapped ++ r ∷ [])
  IsMapped-add s mapped free fresh clear v = record {
    valid =
        IsRegion-same regions (relinked (some s)) (SameShape-relinked (some s)) (mapped ++ r ∷ [])
          (All-append (λ q. IsRegion (regions q)) mapped (r ∷ []) v.valid (fresh, tt));
    apart =
        AllApart-same regions (relinked (some s)) (SameShape-relinked (some s)) (mapped ++ r ∷ []) (
          AllApart-append regions mapped r v.apart
            (clashes-Apart regions (regions r) mapped fresh v.valid clear));
    once = Once-append mapped r v.once absent;
    linked = λ q. elim (ℕ_discrete q r) [
      | yes e ↦ rw e ((λ i. relinked_self (some s)), (λ l. (In-append mapped r r).1 (inr refl)))
      | no d ↦ (
        (λ i. relinked_ne (some s) q d ∙ (v.linked q).0 (earlier q d ((In-append mapped r q).0 i))),
        (λ l. (In-append mapped r q).1 (inl ((v.linked q).1 (sym (relinked_ne (some s) q d) ∙ l)))),
      )
    ];
  }
    where
      absent : ¬ In r mapped
      absent i = let e : (regions r).address_space ≡ some s = (v.linked r).0 i in cc

      earlier : (q : ℕ) → q ≢ r → In q mapped ⊎ (q ≡ r) → In q mapped
      earlier q d (inl i) = i
      earlier q d (inr e) = absurd (d e)

  IsMapped-remove :
      (s : ℕ) (mapped rest : List ℕ)
      → remove_first r mapped ≡ some rest
      → IsMapped regions s mapped
      → IsMapped (relinked none) s rest
  IsMapped-remove s mapped rest e v = record {
    valid =
        IsRegion-same regions (relinked none) (SameShape-relinked none) rest
          (remove_first-All (λ q. IsRegion (regions q)) r mapped rest e v.valid);
    apart =
        AllApart-same regions (relinked none) (SameShape-relinked none) rest
          (remove_first-AllApart regions r mapped rest e v.apart);
    once = remove_first-Once r mapped rest e v.once;
    linked = λ q. elim (ℕ_discrete q r) [
      | yes d ↦ (
        (λ i. absurd (((remove_first-In r mapped rest e v.once q).0 i).1 d)),
        (λ l.
            let z : (relinked none r).address_space ≡ some s =
              subst (λ p. (relinked none p).address_space ≡ some s) d l in
            absurd (unlinked z)),
      )
      | no d ↦ (
        (λ i.
            relinked_ne none q d
            ∙ (v.linked q).0 ((remove_first-In r mapped rest e v.once q).0 i).0),
        (λ l.
            (remove_first-In r mapped rest e v.once q).1
              ((v.linked q).1 (sym (relinked_ne none q d) ∙ l), d)),
      )
    ];
  }
    where
      unlinked : (relinked none r).address_space ≡ some s → ⊥
      unlinked z = let h : (relinked none r).address_space ≡ none = relinked_self none in cc

module _ {D : Type 0} (w : World D) where
  -- The world after a successful `vart_address_space_add` or `vart_address_space_remove`.
  abbrev pub added : ℕ → ℕ → ℕ → World D
  added s r capacity = record w {
    region = relinked w.region r (some s);
    space =
        update w.space s
          (record (w.space s) { regions = (w.space s).regions ++ r ∷ []; capacity = capacity });
  }

  abbrev pub removed : ℕ → ℕ → List ℕ → World D
  removed s r rest = record w {
    region = relinked w.region r none;
    space = update w.space s (record (w.space s) { regions = rest });
  }

  -- Adding fails and changes nothing, or links a free region that clashes with none.
  pub add-cases :
      (s r : ℕ) (allocated : Bool)
      → ((e : Errno) × (add w (some s) (some r) allocated ≡ (w, err e)))
        ⊎ ((capacity : ℕ) × ((w.region r).address_space ≡ none)
            × (clashes w.region (w.region r) (w.space s).regions ≡ false)
            × (add w (some s) (some r) allocated ≡ (added s r capacity, done)))
  unfolding add
  add-cases s r allocated = elim (Option-cases (w.region r).address_space) [
    | inr (t, e) ↦ inl (Errno.ealready, ground arith)
    | inl free ↦ elim (Bool-cases (clashes w.region (w.region r) (w.space s).regions)) [
      | inl clash ↦ inl (Errno.eexist, ground arith)
      | inr clear ↦
          elim (Result-cases (grow (length (w.space s).regions) (w.space s).capacity allocated 8)) [
            | inl (capacity, g) ↦ inr (capacity, free, clear, ground arith)
            | inr (e, g) ↦ inl (e, ground arith)
          ]
    ]
  ]

  pub remove-cases :
      (s r : ℕ)
      → (remove w (some s) (some r) ≡ (w, err Errno.enoent))
        ⊎ ((rest : List ℕ) × ((w.region r).address_space ≡ some s)
            × (remove_first r (w.space s).regions ≡ some rest)
            × (remove w (some s) (some r) ≡ (removed s r rest, done)))
  unfolding remove
  remove-cases s r = elim (Option-cases (w.region r).address_space) [
    | inl free ↦ inl (ground arith)
    | inr (t, l) ↦ elim (Bool-cases (t == s)) [
      | inr ne ↦ inl (ground arith)
      | inl hit ↦ elim (Option-cases (remove_first r (w.space s).regions)) [
        | inl n ↦ inl (ground arith)
        | inr (rest, e) ↦ inr (rest, ground arith, e, ground arith)
      ]
    ]
  ]

  added-IsWell :
      (s r capacity : ℕ)
      → (w.region r).address_space ≡ none
      → clashes w.region (w.region r) (w.space s).regions ≡ false
      → IsRegion (w.region r)
      → IsWell w
      → IsWell (added s r capacity)
  added-IsWell s r capacity free clear fresh v = record {
    mapped = λ t. elim (ℕ_discrete t s) [
      | yes e ↦ rw (e, ==_refl) (IsMapped-add w.region r s _ free fresh clear (v.mapped s))
      | no d ↦
          rw (==_ne s t (λ e. d (sym e)))
            (IsMapped-other w.region r t _ (some s) (λ l. cc) (λ l. d (ground arith)) (v.mapped t))
    ];
  }

  removed-IsWell :
      (s r : ℕ) (rest : List ℕ)
      → (w.region r).address_space ≡ some s
      → remove_first r (w.space s).regions ≡ some rest
      → IsWell w
      → IsWell (removed s r rest)
  removed-IsWell s r rest l e v = record {
    mapped = λ t. elim (ℕ_discrete t s) [
      | yes h ↦ rw (h, ==_refl) (IsMapped-remove w.region r s _ rest e (v.mapped s))
      | no d ↦
          rw (==_ne s t (λ h. d (sym h)))
            (IsMapped-other w.region r t _ none (λ h. d (ground arith)) (λ h. cc) (v.mapped t))
    ];
  }

  -- `vart_address_space_add` keeps every address space well formed, whatever it returns, if the
  -- region that it is given passed `vart_address_region_init`: a region that overlaps one of its own
  -- priority, or is mapped already, never gets in.
  pub add-IsWell :
      (s r : ℕ) (allocated : Bool)
      → IsRegion (w.region r)
      → IsWell w
      → IsWell (add w (some s) (some r) allocated).0
  add-IsWell s r allocated fresh v = elim (add-cases s r allocated) [
    | inl (e, h) ↦ rw h v
    | inr (capacity, free, clear, h) ↦ rw h (added-IsWell s r capacity free clear fresh v)
  ]

  -- `vart_address_space_remove` keeps every address space well formed, whatever it returns.
  pub remove-IsWell : (s r : ℕ) → IsWell w → IsWell (remove w (some s) (some r)).0
  remove-IsWell s r v = elim (remove-cases s r) [
    | inl h ↦ rw h v
    | inr (rest, l, e, h) ↦ rw h (removed-IsWell s r rest l e v)
  ]

  -- Where the spaces are well formed, removing a region succeeds exactly when its link names the
  -- space: the search through the array never fails on a linked region.
  pub remove-succeeds :
      (s r : ℕ)
      → IsWell w
      → ((remove w (some s) (some r)).1 ≡ done) ↔ ((w.region r).address_space ≡ some s)
  unfolding remove
  remove-succeeds s r v = (
    (λ h. elim (remove-cases s r) [ inl e ↦ absurd (refused e h) | inr (rest, l, e, f) ↦ l ]),
    (λ l. elim (remove-cases s r) [ inl e ↦ absurd (found l e) | inr (rest, _, e, f) ↦ rw f ]),
  )
    where
      refused :
          remove w (some s) (some r) ≡ (w, err Errno.enoent)
          → (remove w (some s) (some r)).1 ≡ done
          → ⊥
      refused e h = ground arith

      found :
          (w.region r).address_space ≡ some s
          → remove w (some s) (some r) ≡ (w, err Errno.enoent)
          → ⊥
      found l e =
          let (rest, f) = remove_first-some r _ (((v.mapped s).linked r).1 l) in ground arith
