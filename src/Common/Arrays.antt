-- ===== src/Common/Arrays.antt =====
-- Arrays of pointers without repetition: appending, and taking one entry out.
use Prim.Native.Nat.{ℕ, zero, suc, ◌≤◌, ◌<◌}
use mathlib.Core.Path.{◌≡◌, sym, ap, subst, ◌∙◌}
use mathlib.Core.Logic.{◌≢◌, ◌↔◌, ◌⊎◌, inl, inr}
use mathlib.Core.Bool.{true, false}
use mathlib.Core.Option.{Option, none, some}
use mathlib.Core.List.{List, [], ◌∷◌, ◌++◌}
use native.Mathlib.Omega.{arith}
use vart.Common.Tests.{◌==◌, if◌then◌else◌, Bool-cases, Option-cases}
use vart.Common.Lists.{length, All, In, All-In, All-of_In}

abbrev pub Once : List ℕ → Type 0
Once [] = Unit {0}
Once (r ∷ rs) = (¬ In r rs) × Once rs

-- The first entry of an array that is the pointer `r`, taken out; `none` where there is none.
-- `memmove` shifts the entries behind it.
unfoldable pub remove_first : ℕ → List ℕ → Option (List ℕ)
remove_first r [] = none
remove_first r (q ∷ qs) =
    let rest = remove_first r qs in
    if q == r then some qs else elim rest [ none ↦ none | some ps ↦ some (q ∷ ps) ]

pub In-append : (qs : List ℕ) (r q : ℕ) → In q (qs ++ r ∷ []) ↔ (In q qs ⊎ (q ≡ r))
In-append [] r q = (
  (λ h. elim h [ inl e ↦ inr e | inr m ↦ elim m [ ] ]),
  λ h. elim h [ inl m ↦ elim m [ ] | inr e ↦ inl e ],
)
In-append (p ∷ qs) r q = (
  (λ h. elim h [
    | inl e ↦ inl (inl e)
    | inr m ↦ elim ((In-append qs r q).0 m) [ inl m' ↦ inl (inr m') | inr e ↦ inr e ]
  ]),
  (λ h. elim h [
    | inl m ↦ elim m [ inl e ↦ inl e | inr m' ↦ inr ((In-append qs r q).1 (inl m')) ]
    | inr e ↦ inr ((In-append qs r q).1 (inr e))
  ]),
)

pub Once-append : (qs : List ℕ) (r : ℕ) → Once qs → ¬ In r qs → Once (qs ++ r ∷ [])
Once-append [] r o h = ((λ m. m), tt)
Once-append (q ∷ qs) r o h = (
  (λ m. elim ((In-append qs r q).0 m) [ inl m' ↦ o.0 m' | inr e ↦ h (inl (ground arith)) ]),
  Once-append qs r o.1 (λ m. h (inr m)),
)

-- The step of `remove_first` on a list whose head is not the pointer.
pub remove_first-cons :
    (r q : ℕ) (qs rest : List ℕ)
    → (q == r) ≡ false
    → remove_first r (q ∷ qs) ≡ some rest
    → (ps : List ℕ) × (remove_first r qs ≡ some ps) × (rest ≡ q ∷ ps)
unfolding remove_first
remove_first-cons r q qs rest ne e = elim (Option-cases (remove_first r qs)) [
  | inl n ↦ ground arith
  | inr (ps, f) ↦ (ps, f, ground arith)
]

pub remove_first-hit :
    (r q : ℕ) (qs rest : List ℕ) → (q == r) ≡ true → remove_first r (q ∷ qs) ≡ some rest → rest ≡ qs
unfolding remove_first
remove_first-hit r q qs rest h e = ground arith

pub remove_first-nil : (r : ℕ) (rest : List ℕ) → remove_first r [] ≢ some rest
unfolding remove_first
remove_first-nil r rest e = cc

-- A property of lists of regions that holds of every tail and is built up by `cons` survives.
pub remove_first-All {κ} :
    (P : ℕ → Type κ) (r : ℕ) (qs rest : List ℕ)
    → remove_first r qs ≡ some rest
    → All P qs
    → All P rest
remove_first-All P r [] rest e h = absurd (remove_first-nil r rest e)
remove_first-All P r (q ∷ qs) rest e h = elim (Bool-cases (q == r)) [
  | inl hit ↦ rw (remove_first-hit r q qs rest hit e) h.1
  | inr ne ↦
      let (ps, f, g) = remove_first-cons r q qs rest ne e in
      rw g (h.0, remove_first-All P r qs ps f h.1)
]

-- From an array without repetition exactly the pointer goes.
pub remove_first-In :
    (r : ℕ) (qs rest : List ℕ)
    → remove_first r qs ≡ some rest
    → Once qs
    → (q : ℕ) → In q rest ↔ (In q qs × (q ≢ r))
remove_first-In r [] rest e o q = absurd (remove_first-nil r rest e)
remove_first-In r (p ∷ qs) rest e o q = elim (Bool-cases (p == r)) [
  | inl hit ↦ hit_case (remove_first-hit r p qs rest hit e) (ground arith)
  | inr ne ↦
      let (ps, f, g) = remove_first-cons r p qs rest ne e in
      miss_case ps g (ground arith) (remove_first-In r qs ps f o.1 q)
]
  where
    hit_case : rest ≡ qs → p ≡ r → In q rest ↔ (In q (p ∷ qs) × (q ≢ r))
    hit_case e1 e2 = rw e1 (
      (λ m. (inr m, λ e3. o.0 (subst (λ t. In t qs) (e3 ∙ sym e2) m))),
      (λ (m, n). elim m [ inl e3 ↦ absurd (n (e3 ∙ e2)) | inr m' ↦ m' ]),
    )

    miss_case :
        (ps : List ℕ)
        → rest ≡ p ∷ ps
        → p ≢ r
        → In q ps ↔ (In q qs × (q ≢ r))
        → In q rest ↔ (In q (p ∷ qs) × (q ≢ r))
    miss_case ps e1 e2 ih = rw e1 (
      (λ m. elim m [
        | inl e3 ↦ (inl e3, λ e4. e2 (sym e3 ∙ e4))
        | inr m' ↦ (inr (ih.0 m').0, (ih.0 m').1)
      ]),
      (λ (m, n). elim m [ inl e3 ↦ inl e3 | inr m' ↦ inr (ih.1 (m', n)) ]),
    )

pub remove_first-Once :
    (r : ℕ) (qs rest : List ℕ) → remove_first r qs ≡ some rest → Once qs → Once rest
remove_first-Once r [] rest e o = absurd (remove_first-nil r rest e)
remove_first-Once r (q ∷ qs) rest e o = elim (Bool-cases (q == r)) [
  | inl hit ↦ rw (remove_first-hit r q qs rest hit e) o.1
  | inr ne ↦
      let (ps, f, g) = remove_first-cons r q qs rest ne e in
      rw g ((λ m. o.0 ((remove_first-In r qs ps f o.1 q).0 m).0), remove_first-Once r qs ps f o.1)
]

-- A pointer that is in the array is found.
pub remove_first-some :
    (r : ℕ) (qs : List ℕ) → In r qs → (rest : List ℕ) × (remove_first r qs ≡ some rest)
unfolding remove_first
remove_first-some r [] m = elim m [ ]
remove_first-some r (q ∷ qs) (inl e) = (qs, ground arith)
remove_first-some r (q ∷ qs) (inr m) =
    let (ps, f) = remove_first-some r qs m in
    elim (Bool-cases (q == r)) [ inl hit ↦ (qs, ground arith) | inr ne ↦ (q ∷ ps, ground arith) ]

-- Taking out what was just appended gives the array back.
pub remove_first-append :
    (r : ℕ) (qs : List ℕ) → ¬ In r qs → remove_first r (qs ++ r ∷ []) ≡ some qs
unfolding remove_first
remove_first-append r [] n = ground arith
remove_first-append r (q ∷ qs) n =
    ground (arith, remove_first-append r qs (λ m. n (inr m)), λ (e : q ≡ r). n (inl (sym e)))

pub length-remove_first :
    (r : ℕ) (qs rest : List ℕ) → remove_first r qs ≡ some rest → length qs ≡ suc (length rest)
length-remove_first r [] rest e = absurd (remove_first-nil r rest e)
length-remove_first r (q ∷ qs) rest e = elim (Bool-cases (q == r)) [
  | inl hit ↦ omega (arith, ap length (remove_first-hit r q qs rest hit e))
  | inr ne ↦
      let (ps, f, g) = remove_first-cons r q qs rest ne e in
      omega (arith, ap length g, length-remove_first r qs ps f)
]

-- A list of different numbers below `n` has at most `n` entries.
pub Once-length : (n : ℕ) (xs : List ℕ) → Once xs → All (λ x. x < n) xs → length xs ≤ n
Once-length n [] o h = omega arith
Once-length zero (x ∷ xs) o h = absurd (omega arith)
Once-length (suc n) (x ∷ xs) o h = elim (Option-cases (remove_first n (x ∷ xs))) [
  | inl missing ↦
      let short = Once-length n (x ∷ xs) o (
        All-of_In (λ y. y < n) (x ∷ xs)
          λ y m.
            let lt = All-In (λ z. z < suc n) (x ∷ xs) y h m in
            let ne : y ≢ n = λ e. absent missing (subst (λ z. In z (x ∷ xs)) e m) in omega arith) in
      omega arith
  | inr (rest, found) ↦
      let short = Once-length n rest (remove_first-Once n (x ∷ xs) rest found o) (
        All-of_In (λ y. y < n) rest
          λ y m.
            let (i, ne) = (remove_first-In n (x ∷ xs) rest found o y).0 m in
            let lt = All-In (λ z. z < suc n) (x ∷ xs) y h i in omega arith) in
      omega (arith, length-remove_first n (x ∷ xs) rest found)
]
  where
    absent : remove_first n (x ∷ xs) ≡ none → ¬ In n (x ∷ xs)
    absent missing m = let (rest, found) = remove_first-some n (x ∷ xs) m in cc
