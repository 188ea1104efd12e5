-- ===== src/AddressSpace/Find.antt =====
-- Which region `vart_address_space_find` answers with.
use vart.Common.{
  ℕ, ◌+◌, ◌^◌, ◌≤◌, ◌<◌, ◌≡◌, refl, ◌⊎◌, inl, inr, Bool, true, false, ◌&&◌, Option, none, some,
  List, [], ◌∷◌, arith, Bool-cases, All, In, All-In, ◌≤ℤ◌,
}
use vart.AddressSpace.Defs.{Region, World, region_contains}
use vart.AddressSpace.Ranges.{IsRegion, region_contains_iff}
use vart.AddressSpace.Access.{beats, find_from, find}

module _ (regions : ℕ → Region) (address size : ℕ) where
  abbrev hit : ℕ → Bool
  hit r = region_contains (regions r) address size

  abbrev pub NotAbove : ℕ → ℕ → Type 0
  NotAbove r q = hit q ≡ true → (regions q).priority ≤ℤ (regions r).priority

  abbrev Beaten : Option ℕ → ℕ → Type 0
  Beaten none r = Unit {0}
  Beaten (some b) r = (regions b).priority ≤ℤ (regions r).priority

  -- What the loop, with `best` so far, may answer for the rest `l`.
  abbrev Answer : Option ℕ → List ℕ → Option ℕ → Type 0
  Answer best l none = (best ≡ none) × All (λ q. hit q ≡ false) l
  Answer best l (some r) =
      ((best ≡ some r) ⊎ (In r l × (hit r ≡ true))) × Beaten best r × All (NotAbove r) l

  pass-Answer :
      (best : Option ℕ) (q : ℕ) (l : List ℕ) (o : Option ℕ)
      → (hit q && beats regions best (regions q)) ≡ false
      → Answer best l o
      → Answer best (q ∷ l) o
  unfolding beats
  pass-Answer none q l none h a = ground arith
  pass-Answer none q l (some r) h a = ground arith
  pass-Answer (some b) q l none h a = ground arith
  pass-Answer (some b) q l (some r) h a = ground arith

  take-Answer :
      (best : Option ℕ) (q : ℕ) (l : List ℕ) (o : Option ℕ)
      → (hit q && beats regions best (regions q)) ≡ true
      → Answer (some q) l o
      → Answer best (q ∷ l) o
  unfolding beats
  take-Answer none q l none h a = ground arith
  take-Answer none q l (some r) h a = ground arith
  take-Answer (some b) q l none h a = ground arith
  take-Answer (some b) q l (some r) h a = ground arith

  find_from-Answer :
      (best : Option ℕ) (l : List ℕ) → Answer best l (find_from regions address size best l)
  unfolding find_from
  find_from-Answer none [] = (refl, tt)
  find_from-Answer (some b) [] = (inl refl, ground arith, tt)
  find_from-Answer best (q ∷ l) = elim (Bool-cases (hit q && beats regions best (regions q))) [
    | inl h ↦ rw h (take-Answer best q l _ h (find_from-Answer (some q) l))
    | inr h ↦ rw h (pass-Answer best q l _ h (find_from-Answer best l))
  ]

module _ {D : Type 0} where
  -- A region of the space, enabled, whose range holds the whole access.
  pub record Serves (w : World D) (s address size r : ℕ) : Type 0 where
    pub mapped : In r (w.space s).regions
    pub on : (w.region r).enabled ≡ true
    pub above : (w.region r).base ≤ address
    pub below : address + size ≤ (w.region r).base + (w.region r).size

  -- The answer for an access: the highest priority among the regions that serve it, NULL if none does.
  abbrev pub IsAnswer : World D → ℕ → ℕ → ℕ → Option ℕ → Type 0
  IsAnswer w s address size none = (q : ℕ) → ¬ Serves w s address size q
  IsAnswer w s address size (some r) =
      Serves w s address size r
      × ((q : ℕ) → Serves w s address size q → (w.region q).priority ≤ℤ (w.region r).priority)

module _ {D : Type 0} (w : World D) (s address size : ℕ) where
  module _ (valid : All (λ r. IsRegion (w.region r)) (w.space s).regions)
      (address_fits : address < 2 ^ 64) (size_fits : size < 2 ^ 64) where
    Serves-hit : (q : ℕ) → Serves w s address size q → hit w.region address size q ≡ true
    Serves-hit q v =
        (region_contains_iff (w.region q) address size
            (All-In (λ r. IsRegion (w.region r)) _ q valid v.mapped) address_fits size_fits).1
          (v.on, v.above, v.below)

    hit-Serves :
        (q : ℕ)
        → In q (w.space s).regions
        → hit w.region address size q ≡ true
        → Serves w s address size q
    hit-Serves q m h =
        let (on, above, below) =
          (region_contains_iff (w.region q) address size
              (All-In (λ r. IsRegion (w.region r)) _ q valid m) address_fits size_fits).0
            h in
        record { mapped = m; on = on; above = above; below = below }

    Answer-IsAnswer :
        (o : Option ℕ)
        → Answer w.region address size none (w.space s).regions o
        → IsAnswer w s address size o
    Answer-IsAnswer none a = λ q v.
        ground (
          arith,
          All-In (λ r. hit w.region address size r ≡ false) _ q a.1 v.mapped,
          Serves-hit q v,
        )
    Answer-IsAnswer (some r) (inl e, b, a) = cc
    Answer-IsAnswer (some r) (inr (m, h), b, a) = (
      hit-Serves r m h,
      λ q v. All-In (NotAbove w.region address size r) _ q a v.mapped (Serves-hit q v),
    )

    -- `vart_address_space_find` answers with a region that serves the access and has the highest
    -- priority of all that do, and with NULL exactly when no region serves it, provided that the
    -- mapped regions passed `vart_address_region_init` and the address and size are 64-bit numbers.
    pub find-IsAnswer : IsAnswer w s address size (find w (some s) address size)
    unfolding find
    find-IsAnswer =
        Answer-IsAnswer _ (find_from-Answer w.region address size none (w.space s).regions)
