-- ===== src/Fdt/Whole.antt =====
-- A finished blob says one whole tree.
use vart.Common.{
  ℕ, zero, suc, ◌+◌, ◌-◌, ◌/◌, ◌%◌, ◌^◌, ◌≤◌, ◌<◌, ◌≡◌, refl, sym, ap, ◌∙◌, subst, ◌⊎◌, inl, inr,
  Bool, true, false, ◌||◌, some, List, [], ◌∷◌, ◌++◌, arith, ltb, ◌==◌, Bool-cases, Option-cases,
  ok, err, length, get_or, All, replicate, Errno, Result, done, Result-cases,
}
use vart.AddressSpace.Defs.{sub64}
use vart.Fdt.Defs.{Fdt, u32_max, append_u32, append_padded, find_string}
use vart.Fdt.Builder.{
  fdt_init, fdt_begin_node, begin_finish, fdt_end_node, name_offset, property_finish, fdt_property,
  fdt_finish, is_empty,
}
use vart.Fdt.Reader.{Event, begins, ends, sets, read_blob}
use vart.Fdt.Encode.{append_assoc, append-nil}
use vart.Fdt.Calls.{apply, keep, run, accepted, HasString}
use vart.Fdt.Trip.{fresh, init-fresh, read_blob-fdt_finish}
use vart.Fdt.Errors.{apply-Kept}
use vart.Fdt.Tree.{Forest, node, spell}
use vart.Fdt.Nesting.{Nested, set-Nested, end-Nested, begin-Nested}

-- The fields of a builder that say which nodes are open agree with the events.
abbrev IsNested : Fdt → List Event → Type 0
IsNested fdt events =
    Nested fdt.child_seen fdt.depth_capacity fdt.depth fdt.root_seen fdt.root_closed events

is_empty-nil : (name : List ℕ) → is_empty name ≡ true → name ≡ []
is_empty-nil [] e = refl
is_empty-nil (b ∷ bs) e = absurd (ground (arith, e))

begin_node-ok :
    (fdt : Fdt) (name : List ℕ)
    → (fdt_begin_node fdt name).1 ≡ done
    → ((fdt_begin_node fdt name).0 ≡ begin_finish fdt name)
      × (fdt.root_closed ≡ false)
      × (fdt.depth < fdt.depth_capacity)
      × (fdt.root_seen ≡ false → is_empty name ≡ true)
unfolding fdt_begin_node
begin_node-ok fdt name e =
    (ground (arith, e), ground (arith, e), ground (arith, e), λ unseen. ground (arith, e, unseen))

begin_finish-IsNested :
    (fdt : Fdt) (events : List Event) (name : List ℕ)
    → IsNested fdt events
    → fdt.root_closed ≡ false
    → fdt.depth < fdt.depth_capacity
    → (fdt.root_seen ≡ false → is_empty name ≡ true)
    → IsNested (begin_finish fdt name) (events ++ begins name ∷ [])
unfolding begin_finish append_padded append_u32
begin_finish-IsNested fdt events name h open_ deep unnamed =
    begin-Nested fdt.child_seen fdt.depth_capacity fdt.depth fdt.root_seen fdt.root_closed events
      name h open_ deep (λ unseen. is_empty-nil name (unnamed unseen))

end_node-ok :
    (fdt : Fdt)
    → (fdt_end_node fdt).1 ≡ done
    → (0 < fdt.depth)
      × ((fdt_end_node fdt).0 ≡ record (append_u32 fdt 2) {
        depth = fdt.depth - 1;
        root_closed = fdt.root_closed || fdt.depth - 1 == 0;
      })
unfolding fdt_end_node
end_node-ok fdt e = (ground (arith, e), ground (arith, e))

property_finish-IsNested :
    (value : List ℕ) (events : List Event) (r : Fdt × Result ℕ)
    → IsNested r.0 events
    → IsNested (property_finish value r).0 events
unfolding property_finish append_padded append_u32
property_finish-IsNested value events (fdt, err e) h = h
property_finish-IsNested value events (fdt, ok offset) h = h

name_offset-ways :
    (fdt : Fdt) (name : List ℕ)
    → ((code : Errno) × (name_offset fdt name ≡ (fdt, err code)))
      ⊎ ((strings : List ℕ) × (offset : ℕ) × (name_offset fdt name
            ≡ (record fdt { strings = strings }, ok offset)))
unfolding name_offset
name_offset-ways fdt name = elim (Option-cases (find_string fdt name)) [
  | inr (offset, found) ↦ inr (fdt.strings, offset, rw (found, name_offset) refl)
  | inl missing ↦
      elim (Bool-cases (ltb (sub64 fdt.strings_capacity (length fdt.strings)) (length name + 1))) [
        | inl full ↦ inl (Errno.enospc, rw (missing, full, name_offset) refl)
        | inr free ↦ inr (
          fdt.strings ++ (name ++ 0 ∷ []),
          length fdt.strings % 2 ^ 32,
          rw (missing, free, name_offset) refl,
        )
      ]
]

name_offset-IsNested :
    (fdt : Fdt) (name : List ℕ) (events : List Event)
    → IsNested fdt events
    → IsNested (name_offset fdt name).0 events
name_offset-IsNested fdt name events h = elim (name_offset-ways fdt name) [
  | inl (code, e) ↦ subst (λ (r : Fdt × Result ℕ). IsNested r.0 events) (sym e) h
  | inr (strings, offset, e) ↦ subst (λ (r : Fdt × Result ℕ). IsNested r.0 events) (sym e) h
]

property-ok :
    (fdt : Fdt) (name value : List ℕ)
    → (fdt_property fdt name value).1 ≡ done
    → ((fdt_property fdt name value).0 ≡ (property_finish value (name_offset fdt name)).0)
      × (0 < fdt.depth)
      × (get_or fdt.child_seen (fdt.depth - 1) false ≡ false)
unfolding fdt_property
property-ok fdt name value e = (ground (arith, e), ground (arith, e), ground (arith, e))

accepted-IsNested :
    (e : Event) (fdt : Fdt) (events : List Event)
    → IsNested fdt events
    → (apply e fdt).1 ≡ done
    → IsNested (apply e fdt).0 (events ++ e ∷ [])
unfolding apply append_u32
accepted-IsNested (begins name) fdt events h e =
    let (same, open_, deep, unnamed) = begin_node-ok fdt name e in
    subst (λ f. IsNested f (events ++ begins name ∷ [])) (sym same)
      (begin_finish-IsNested fdt events name h open_ deep unnamed)
accepted-IsNested ends fdt events h e =
    let (deep, same) = end_node-ok fdt e in
    subst (λ f. IsNested f (events ++ ends ∷ [])) (sym same)
      (end-Nested fdt.child_seen fdt.depth_capacity fdt.depth fdt.root_seen fdt.root_closed events h
        deep)
accepted-IsNested (sets name value) fdt events h e =
    let (same, deep, unseen) = property-ok fdt name value e in
    subst (λ f. IsNested f (events ++ sets name value ∷ [])) (sym same)
      (property_finish-IsNested value (events ++ sets name value ∷ []) (name_offset fdt name) (
        name_offset-IsNested fdt name (events ++ sets name value ∷ []) (
          set-Nested fdt.child_seen fdt.depth_capacity fdt.depth fdt.root_seen fdt.root_closed
            events name value h deep unseen)))

apply-IsNested :
    (e : Event) (fdt : Fdt) (events : List Event)
    → IsNested fdt events
    → IsNested (apply e fdt).0 (events ++ keep (apply e fdt).1 e)
apply-IsNested e fdt events h = elim (Result-cases (apply e fdt).1) [
  | inl (_, good) ↦
      subst (λ s. IsNested (apply e fdt).0 (events ++ keep s e)) (sym good)
        (accepted-IsNested e fdt events h good)
  | inr (code, bad) ↦
      subst (λ s. IsNested (apply e fdt).0 (events ++ keep s e)) (sym bad)
        (subst (λ f. IsNested f (events ++ [])) (sym (apply-Kept e fdt code bad))
          (subst (IsNested fdt) (sym (append-nil events)) h))
]

run-IsNested :
    (calls : List Event) (fdt : Fdt) (events : List Event)
    → IsNested fdt events
    → IsNested (run calls fdt) (events ++ accepted calls fdt)
unfolding run accepted
run-IsNested [] fdt events h = subst (IsNested fdt) (sym (append-nil events)) h
run-IsNested (e ∷ calls) fdt events h =
    subst (IsNested (run calls (apply e fdt).0))
      (append_assoc events (keep (apply e fdt).1 e) (accepted calls (apply e fdt).0))
      (run-IsNested calls (apply e fdt).0 (events ++ keep (apply e fdt).1 e)
        (apply-IsNested e fdt events h))

length-replicate : (n : ℕ) → length (replicate {A = Bool} n false) ≡ n
length-replicate zero = refl
length-replicate (suc n) = ap suc (length-replicate n)

fresh-IsNested :
    (structure_capacity strings_capacity : ℕ)
    → structure_capacity ≤ u32_max
    → IsNested (fresh structure_capacity strings_capacity) []
fresh-IsNested structure_capacity strings_capacity p =
    (length-replicate (structure_capacity / 8 + 1), omega arith, inl (refl, refl, refl, refl))

finish-closed :
    (fdt : Fdt) (allocated : Bool) (blob : List ℕ)
    → (fdt_finish fdt allocated).1 ≡ ok blob
    → (fdt.root_seen ≡ true) × (fdt.root_closed ≡ true)
unfolding fdt_finish
finish-closed fdt allocated blob e = (ground (arith, e), ground (arith, e))

Nested-whole :
    (fdt : Fdt) (events : List Event)
    → IsNested fdt events
    → fdt.root_seen ≡ true
    → fdt.root_closed ≡ true
    → (ps : List (List ℕ × List ℕ)) × (ts : Forest) × (events ≡ spell (node [] ps ts))
Nested-whole fdt events (room, small, state) seen closed = elim state [
  | inl (e, d, s, c) ↦ absurd (ground (arith, s, seen))
  | inr (inl (f, fs, (e, d, s, c, childless, outer, rooted))) ↦ absurd (ground (arith, c, closed))
  | inr (inr (ps, ts, e, d, c)) ↦ (ps, ts, e)
]

-- Whatever nodes and properties are begun, ended and set on a builder that `vart_fdt_init` made, with
-- names that hold no NUL, a blob that `vart_fdt_finish` then returns is read back as one tree: a root with
-- the empty name, in which the properties of each node stand before its children, and every node ends
-- within the one around it.
pub read_blob-whole :
    (fdt after : Fdt) (structure_capacity strings_capacity : ℕ) (allocated room : Bool)
    (calls : List Event) (blob : List ℕ)
    → fdt_init fdt structure_capacity strings_capacity allocated ≡ (after, done)
    → All HasString calls
    → (fdt_finish (run calls after) room).1 ≡ ok blob
    → (ps : List (List ℕ × List ℕ)) × (ts : Forest) × (read_blob blob
        ≡ some (spell (node [] ps ts)))
read_blob-whole fdt after structure_capacity strings_capacity allocated room calls blob e all f =
    let (same, p, q) = init-fresh fdt after structure_capacity strings_capacity allocated e in
    let nested =
      run-IsNested calls after []
        (subst (λ x. IsNested x []) same (fresh-IsNested structure_capacity strings_capacity p)) in
    let (seen, closed) = finish-closed (run calls after) room blob f in
    let (ps, ts, says) = Nested-whole (run calls after) (accepted calls after) nested seen closed in
    (
      ps,
      ts,
      read_blob-fdt_finish fdt after structure_capacity strings_capacity allocated room calls blob e
            all f
          ∙ ap some says,
    )
