-- ===== src/Sbi/Order.antt =====
-- The handlers are in order and apart, so that each call has at most one.
use vart.Common.{
  ℕ, ◌≤◌, ◌<◌, ◌≡◌, refl, ◌⊎◌, inl, inr, Bool, ◌&&◌, none, some, List, [], ◌∷◌, arith, ltb, leb,
  if◌then◌else◌, Bool-cases, ok, Result-cases,
}
use vart.Sbi.{Handler, insert, add_handler, select}

abbrev pub Handles : Handler → ℕ → Type 0
Handles h extension = (h.extension_start ≤ extension) × (extension ≤ h.extension_end)

-- Every handler after `h` begins behind its end.
abbrev pub IsBelow : Handler → List Handler → Type 0
IsBelow h [] = Unit {0}
IsBelow h (k ∷ ks) = (h.extension_end < k.extension_start) × IsBelow h ks

abbrev pub IsSorted : List Handler → Type 0
IsSorted [] = Unit {0}
IsSorted (h ∷ hs) = (h.extension_start ≤ h.extension_end) × IsBelow h hs × IsSorted hs

IsBelow-lower :
    (h k : Handler) (ks : List Handler)
    → h.extension_end < k.extension_start
    → k.extension_start ≤ k.extension_end
    → IsBelow k ks
    → IsBelow h ks
IsBelow-lower h k [] a b v = tt
IsBelow-lower h k (j ∷ ks) a b v = (omega (arith, v.0), IsBelow-lower h k ks a b v.1)

select-IsBelow :
    (h : Handler) (hs : List Handler) (extension : ℕ)
    → extension ≤ h.extension_end
    → IsBelow h hs
    → select extension hs ≡ none
unfolding select
select-IsBelow h [] extension le v = refl
select-IsBelow h (k ∷ ks) extension le v = (let a = v.0 in ground arith)

module _ (handler : Handler) where
  insert-nil : (l : List Handler) → insert handler [] ≡ ok l → l ≡ handler ∷ []
  unfolding insert
  insert-nil l e = cc

  insert-cons :
      (k : Handler) (ks l : List Handler)
      → insert handler (k ∷ ks) ≡ ok l
      → ((handler.extension_end < k.extension_start) × (l ≡ handler ∷ k ∷ ks))
        ⊎ ((r : List Handler) × (k.extension_end < handler.extension_start)
            × (insert handler ks ≡ ok r)
            × (l ≡ k ∷ r))
  unfolding insert
  insert-cons k ks l e = elim (Bool-cases (ltb handler.extension_end k.extension_start)) [
    | inl before ↦ inl (ground arith, ground arith)
    | inr after ↦ elim (Bool-cases (leb handler.extension_start k.extension_end)) [
      | inl clash ↦ absurd (ground arith)
      | inr apart ↦ elim (Result-cases (insert handler ks)) [
        | inr (x, failed) ↦ absurd (ground arith)
        | inl (r, inserted) ↦ inr (r, ground arith, inserted, ground arith)
      ]
    ]
  ]

module _ (handler : Handler) (valid : handler.extension_start ≤ handler.extension_end) where
  insert-IsBelow :
      (h : Handler) (hs l : List Handler)
      → h.extension_end < handler.extension_start
      → IsBelow h hs
      → insert handler hs ≡ ok l
      → IsBelow h l
  insert-IsBelow h [] l a v e = rw (insert-nil handler l e) (a, tt)
  insert-IsBelow h (k ∷ ks) l a v e = elim (insert-cons handler k ks l e) [
    | inl (before, same) ↦ rw same (a, v)
    | inr (r, after, inserted, same) ↦ rw same (v.0, insert-IsBelow h ks r a v.1 inserted)
  ]

  insert-IsSorted : (hs l : List Handler) → IsSorted hs → insert handler hs ≡ ok l → IsSorted l
  insert-IsSorted [] l v e = rw (insert-nil handler l e) (valid, tt, tt)
  insert-IsSorted (k ∷ ks) l v e = elim (insert-cons handler k ks l e) [
    | inl (before, same) ↦ rw same (valid, (before, IsBelow-lower handler k ks before v.0 v.1), v)
    | inr (r, after, inserted, same) ↦
        rw same (v.0, insert-IsBelow k ks r after v.1 inserted, insert-IsSorted ks r v.2 inserted)
  ]

  select-insert :
      (extension : ℕ) (hs l : List Handler)
      → IsSorted hs
      → insert handler hs ≡ ok l
      → select extension l ≡ (
          if leb handler.extension_start extension && leb extension handler.extension_end
          then some handler
          else select extension hs)
  unfolding select
  select-insert extension [] l v e = rw (insert-nil handler l e) (ground arith)
  select-insert extension (k ∷ ks) l v e = elim (insert-cons handler k ks l e) [
    | inl (before, same) ↦ rw same (let b = v.0 in ground arith)
    | inr (r, after, inserted, same) ↦
        let b = v.0 in let ih = select-insert extension ks r v.2 inserted in rw same (ground arith)
  ]

-- Adding a handler to handlers that are in order and apart, with success, keeps them so; from then on
-- a call of an extension in its range reaches it, and any other call reaches the handler that it
-- reached before, or none.
pub select-add_handler :
    (hs l : List Handler) (handler : Handler) (linked : Bool)
    → IsSorted hs
    → add_handler hs handler linked ≡ ok l
    → IsSorted l
      × ((extension : ℕ)
          → select extension l ≡ (
              if leb handler.extension_start extension && leb extension handler.extension_end
              then some handler
              else select extension hs))
unfolding add_handler
select-add_handler hs l handler linked v e =
    let valid : handler.extension_start ≤ handler.extension_end = ground arith in
    let inserted : insert handler hs ≡ ok l = ground arith in
    (
      insert-IsSorted handler valid hs l v inserted,
      λ x. select-insert handler valid x hs l v inserted,
    )
