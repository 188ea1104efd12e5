-- ===== src/AddressSpace/Order.antt =====
-- The order in which regions were mapped does not show.
use vart.Common.{
  ℕ, ◌+◌, ◌^◌, ◌≤◌, ◌<◌, ◌≡◌, refl, sym, ap, ◌∙◌, subst, ◌≢◌, ◌↔◌, ◌⊎◌, inl, inr, true, Option,
  none, some, List, [], ◌∷◌, arith, ℕ_discrete, All, In, All-In, All-of_In, ◌≤ℤ◌, eq_of_parts,
}
use vart.AddressSpace.Defs.{Region, World}
use vart.AddressSpace.Ranges.{IsRegion}
use vart.AddressSpace.Access.{find}
use vart.AddressSpace.Find.{Serves, IsAnswer, find-IsAnswer}
use vart.AddressSpace.Invariant.{Apart, AllApart, IsWell}

-- Any two different regions of a list that is apart are apart.
AllApart-In :
    (regions : ℕ → Region) (qs : List ℕ) (a b : ℕ)
    → AllApart regions qs
    → In a qs
    → In b qs
    → a ≢ b
    → Apart (regions a) (regions b) ⊎ Apart (regions b) (regions a)
AllApart-In regions [] a b h ma mb n = elim ma [ ]
AllApart-In regions (q ∷ qs) a b h (inl ea) (inl eb) n = absurd (n (ea ∙ sym eb))
AllApart-In regions (q ∷ qs) a b h (inl ea) (inr mb) n =
    inl (rw ea (All-In (λ p. Apart (regions q) (regions p)) qs b h.0 mb))
AllApart-In regions (q ∷ qs) a b h (inr ma) (inl eb) n =
    inr (rw eb (All-In (λ p. Apart (regions q) (regions p)) qs a h.0 ma))
AllApart-In regions (q ∷ qs) a b h (inr ma) (inr mb) n = AllApart-In regions qs a b h.1 ma mb n

module _ {D : Type 0} (w : World D) (s address size : ℕ) where
  -- Two regions of one priority never serve one access that is not empty.
  Serves-unique :
      (a b : ℕ)
      → IsWell w
      → 0 < size
      → Serves w s address size a
      → Serves w s address size b
      → (w.region a).priority ≡ (w.region b).priority
      → a ≡ b
  Serves-unique a b v pos_size sa sb e = elim (ℕ_discrete a b) [
    | yes h ↦ h
    | no n ↦ absurd (elim (AllApart-In w.region _ a b (v.mapped s).apart sa.mapped sb.mapped n) [
      | inl h ↦
          h e address (sa.above, let l = sa.below in omega arith)
            (sb.above, let l = sb.below in omega arith)
      | inr h ↦
          h (sym e) address (sb.above, let l = sb.below in omega arith)
            (sa.above, let l = sa.below in omega arith)
    ])
  ]

  IsAnswer-unique :
      (o p : Option ℕ)
      → IsWell w
      → 0 < size
      → IsAnswer w s address size o
      → IsAnswer w s address size p
      → o ≡ p
  IsAnswer-unique none none v pos_size ho hp = refl
  IsAnswer-unique none (some b) v pos_size ho hp = absurd (ho b hp.0)
  IsAnswer-unique (some a) none v pos_size ho hp = absurd (hp a ho.0)
  IsAnswer-unique (some a) (some b) v pos_size ho hp = ap some (
      Serves-unique a b v pos_size ho.0 hp.0
        (eq_of_parts _ _ (let l = ho.1 b hp.0 in let m = hp.1 a ho.0 in omega arith)))

module _ {D : Type 0} (w v : World D) (s address size : ℕ) where
  Serves-order :
      (q : ℕ)
      → v.region ≡ w.region
      → (In q (v.space s).regions → In q (w.space s).regions)
      → Serves v s address size q
      → Serves w s address size q
  Serves-order q same m h = record {
    mapped = m h.mapped;
    on = subst (λ (f : ℕ → Region). (f q).enabled ≡ true) same h.on;
    above = subst (λ (f : ℕ → Region). (f q).base ≤ address) same h.above;
    below = subst (λ (f : ℕ → Region). address + size ≤ (f q).base + (f q).size) same h.below;
  }

module _ {D : Type 0} (w v : World D) (s address size : ℕ) where
  IsAnswer-order :
      (o : Option ℕ)
      → v.region ≡ w.region
      → ((q : ℕ) → In q (v.space s).regions ↔ In q (w.space s).regions)
      → IsAnswer v s address size o
      → IsAnswer w s address size o
  IsAnswer-order none same m h = λ q k. h q (Serves-order v w s address size q (sym same) (m q).1 k)
  IsAnswer-order (some r) same m h = (
    Serves-order w v s address size r same (m r).0 h.0,
    λ q k.
        subst (λ (f : ℕ → Region). (f q).priority ≤ℤ (f r).priority) same
          (h.1 q (Serves-order v w s address size q (sym same) (m q).1 k)),
  )

  -- The order in which regions were mapped does not matter: two worlds with the same regions, whose
  -- space holds the same ones in any order, give one answer to every access that is not empty, if
  -- the regions are well formed and the address and size are 64-bit numbers.
  pub find-order :
      IsWell w
      → v.region ≡ w.region
      → ((q : ℕ) → In q (v.space s).regions ↔ In q (w.space s).regions)
      → 0 < size
      → address < 2 ^ 64
      → size < 2 ^ 64
      → find v (some s) address size ≡ find w (some s) address size
  find-order well same m pos_size ha hs =
      IsAnswer-unique w s address size _ _ well pos_size
        (IsAnswer-order _ same m (find-IsAnswer v s address size valid ha hs))
        (find-IsAnswer w s address size (well.mapped s).valid ha hs)
    where
      valid : All (λ r. IsRegion (v.region r)) (v.space s).regions
      valid =
          All-of_In (λ r. IsRegion (v.region r)) _
            λ q i.
              subst (λ (f : ℕ → Region). IsRegion (f q)) (sym same)
                (All-In (λ r. IsRegion (w.region r)) _ q (well.mapped s).valid ((m q).0 i))
