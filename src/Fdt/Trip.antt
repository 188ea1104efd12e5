-- ===== src/Fdt/Trip.antt =====
-- From calls of the builder to the blob, and back by the reader.
use vart.Common.{
  ℕ, ◌+◌, ◌-◌, ◌/◌, ◌^◌, ◌≤◌, ◌<◌, ◌≡◌, refl, sym, ap, ◌∙◌, subst, inl, inr, Bool, false, not, ◌||◌,
  some, List, [], ◌∷◌, ◌++◌, arith, ltb, ◌==◌, Bool-cases, ok, length, length-append, All,
  replicate, done, Result-cases,
}
use vart.AddressSpace.Defs.{u64_max}
use vart.Fdt.Defs.{Fdt, u32_max, zero_fdt, write_be32, reserve_structure, append_u32, append_padded}
use vart.Fdt.Builder.{
  fdt_init, fdt_begin_node, begin_finish, fdt_end_node, name_offset, property_finish, fdt_property,
  fdt_finish, blob_bytes,
}
use vart.Fdt.Reader.{Event, begins, ends, sets, read_blob}
use vart.Fdt.Encode.{append_assoc, read_events-Written, length-Written, append-nil}
use vart.Fdt.Blob.{read_blob-blob_bytes}
use vart.Fdt.Steps.{IsBuilt, length-write_be32}
use vart.Fdt.Calls.{apply, keep, run, accepted, HasString, Extends}
use vart.Fdt.Node.{begin_node-Extends, end_node-Extends}
use vart.Fdt.Property.{property-Extends}

apply-IsBuilt :
    (fdt : Fdt) (events : List Event) (e : Event)
    → IsBuilt fdt events
    → HasString e
    → Extends events e (apply e fdt)
unfolding apply
apply-IsBuilt fdt events (begins name) b s = begin_node-Extends fdt events name b s
apply-IsBuilt fdt events ends b s = end_node-Extends fdt events b
apply-IsBuilt fdt events (sets name value) b s = property-Extends fdt events name value b s

run-IsBuilt :
    (calls : List Event) (fdt : Fdt) (events : List Event)
    → IsBuilt fdt events
    → All HasString calls
    → IsBuilt (run calls fdt) (events ++ accepted calls fdt)
unfolding run accepted
run-IsBuilt [] fdt events b all = subst (IsBuilt fdt) (sym (append-nil events)) b
run-IsBuilt (e ∷ calls) fdt events b (s, all) =
    subst (IsBuilt (run calls (apply e fdt).0))
      (append_assoc events (keep (apply e fdt).1 e) (accepted calls (apply e fdt).0))
      (run-IsBuilt calls (apply e fdt).0 (events ++ keep (apply e fdt).1 e)
        (apply-IsBuilt fdt events e b s) all)

name_offset-capacities :
    (fdt : Fdt) (name bytes : List ℕ)
    → ((property_finish bytes (name_offset fdt name)).0.structure_capacity ≡ fdt.structure_capacity)
      × ((property_finish bytes (name_offset fdt name)).0.strings_capacity ≡ fdt.strings_capacity)
unfolding name_offset property_finish append_padded append_u32
name_offset-capacities fdt name bytes = (ground arith, ground arith)

property-capacities :
    (fdt : Fdt) (name value : List ℕ)
    → ((fdt_property fdt name value).0.structure_capacity ≡ fdt.structure_capacity)
      × ((fdt_property fdt name value).0.strings_capacity ≡ fdt.strings_capacity)
unfolding fdt_property
property-capacities fdt name value =
    let (a, b) = name_offset-capacities fdt name value in (ground (arith, a), ground (arith, b))

apply-capacities :
    (e : Event) (fdt : Fdt)
    → ((apply e fdt).0.structure_capacity ≡ fdt.structure_capacity)
      × ((apply e fdt).0.strings_capacity ≡ fdt.strings_capacity)
unfolding apply fdt_begin_node begin_finish fdt_end_node append_padded append_u32
apply-capacities (begins name) fdt = (ground arith, ground arith)
apply-capacities ends fdt = (ground arith, ground arith)
apply-capacities (sets name value) fdt = property-capacities fdt name value

run-capacities :
    (calls : List Event) (fdt : Fdt)
    → ((run calls fdt).structure_capacity ≡ fdt.structure_capacity)
      × ((run calls fdt).strings_capacity ≡ fdt.strings_capacity)
unfolding run
run-capacities [] fdt = (refl, refl)
run-capacities (e ∷ calls) fdt =
    let (a, b) = apply-capacities e fdt in
    let (c, d) = run-capacities calls (apply e fdt).0 in (c ∙ a, d ∙ b)

-- The builder that `vart_fdt_init` leaves
abbrev pub fresh : ℕ → ℕ → Fdt
fresh structure_capacity strings_capacity = record zero_fdt {
  structure_capacity = structure_capacity;
  strings_capacity = strings_capacity;
  child_seen = replicate (structure_capacity / 8 + 1) false;
  depth_capacity = structure_capacity / 8 + 1;
}

pub init-fresh :
    (fdt after : Fdt) (structure_capacity strings_capacity : ℕ) (allocated : Bool)
    → fdt_init fdt structure_capacity strings_capacity allocated ≡ (after, done)
    → (fresh structure_capacity strings_capacity ≡ after)
      × (structure_capacity ≤ u32_max)
      × (strings_capacity ≤ u32_max)
unfolding fdt_init
init-fresh fdt after structure_capacity strings_capacity allocated e =
    elim (Bool-cases (structure_capacity == 0 || strings_capacity == 0)) [
      | inl nothing ↦ absurd (ground (arith, nothing, e))
      | inr something ↦
          elim (Bool-cases (ltb u32_max structure_capacity || ltb u32_max strings_capacity)) [
            | inl large ↦ absurd (ground (arith, something, large, e))
            | inr small ↦ elim (Bool-cases (not allocated)) [
              | inl missing ↦ absurd (ground (arith, something, small, missing, e))
              | inr there ↦ (
                ground (arith, something, small, there, e),
                ground (arith, small),
                ground (arith, small),
              )
            ]
          ]
    ]

init-IsBuilt :
    (fdt after : Fdt) (structure_capacity strings_capacity : ℕ) (allocated : Bool)
    → fdt_init fdt structure_capacity strings_capacity allocated ≡ (after, done)
    → IsBuilt after []
init-IsBuilt fdt after structure_capacity strings_capacity allocated e =
    let (same, p, q) = init-fresh fdt after structure_capacity strings_capacity allocated e in
    subst (λ x. IsBuilt x []) same
      (record {
        written = refl;
        aligned = refl;
        structure_fits = omega arith;
        strings_fit = omega arith;
        structure_bound = p;
        strings_bound = q;
        unfinished = refl;
      })

finish-blob :
    (fdt : Fdt) (allocated : Bool) (blob : List ℕ)
    → (fdt_finish fdt allocated).1 ≡ ok blob
    → (blob_bytes (fdt.structure ++ write_be32 9) fdt.strings ≡ blob)
      × (60 + length fdt.structure + length fdt.strings < 2 ^ 32)
unfolding fdt_finish append_u32
finish-blob fdt allocated blob e =
    elim (Bool-cases
      (fdt.finished || not fdt.root_seen || not fdt.root_closed || not (fdt.depth == 0))) [
        | inl bad ↦ absurd (ground (arith, bad, e))
        | inr good ↦ elim (Result-cases (reserve_structure fdt 4)) [
          | inr (code, full) ↦ absurd (ground (arith, good, full, e))
          | inl (padded, free) ↦
              elim (Bool-cases (
                ltb (u64_max - length fdt.structure - 4) 56
                || ltb u32_max (56 + length fdt.structure + 4)
                || ltb (u32_max - (56 + length fdt.structure + 4)) (length fdt.strings))) [
                  | inl large ↦ absurd (ground (arith, good, free, large, e))
                  | inr small ↦ elim (Bool-cases (not allocated)) [
                    | inl missing ↦ absurd (ground (arith, good, free, small, missing, e))
                    | inr there ↦
                        (ground (arith, good, free, small, there, e), ground (arith, small))
                  ]
                ]
        ]
      ]

finish-read_blob :
    (fdt : Fdt) (events : List Event) (allocated : Bool) (blob : List ℕ)
    → IsBuilt fdt events
    → (fdt_finish fdt allocated).1 ≡ ok blob
    → read_blob blob ≡ some events
finish-read_blob fdt events allocated blob b e =
    let (same, small) = finish-blob fdt allocated blob e in
    let whole = length-append fdt.structure (write_be32 9) in
    let last = length-write_be32 9 in
    let number = length-Written fdt.strings events fdt.structure b.written in
    ap read_blob (sym same)
    ∙ read_blob-blob_bytes (fdt.structure ++ write_be32 9) fdt.strings (omega arith)
    ∙ read_events-Written fdt.strings events fdt.structure _ b.written (omega arith)

-- Whatever nodes and properties are begun, ended and set on a builder that `vart_fdt_init` made, with
-- names that hold no NUL, a blob that `vart_fdt_finish` then returns is read back, by its header, its
-- structure block and its strings, as the calls that succeeded, in their order, with their names and
-- values.
pub read_blob-fdt_finish :
    (fdt after : Fdt) (structure_capacity strings_capacity : ℕ) (allocated room : Bool)
    (calls : List Event) (blob : List ℕ)
    → fdt_init fdt structure_capacity strings_capacity allocated ≡ (after, done)
    → All HasString calls
    → (fdt_finish (run calls after) room).1 ≡ ok blob
    → read_blob blob ≡ some (accepted calls after)
read_blob-fdt_finish fdt after structure_capacity strings_capacity allocated room calls blob e all
      f =
    finish-read_blob (run calls after) (accepted calls after) room blob
      (run-IsBuilt calls after []
        (init-IsBuilt fdt after structure_capacity strings_capacity allocated e) all)
      f

-- Whatever nodes and properties, with names that hold no NUL, are begun, ended and set on a builder that
-- `vart_fdt_init` made, both blocks stay within the capacities that it was given.
pub run-fits :
    (fdt after : Fdt) (structure_capacity strings_capacity : ℕ) (allocated : Bool)
    (calls : List Event)
    → fdt_init fdt structure_capacity strings_capacity allocated ≡ (after, done)
    → All HasString calls
    → (length (run calls after).structure ≤ structure_capacity)
      × (length (run calls after).strings ≤ strings_capacity)
run-fits fdt after structure_capacity strings_capacity allocated calls e all =
    let (same, p, q) = init-fresh fdt after structure_capacity strings_capacity allocated e in
    let b =
      run-IsBuilt calls after []
        (init-IsBuilt fdt after structure_capacity strings_capacity allocated e) all in
    let (c, d) = run-capacities calls after in
    (
      (let h = b.structure_fits in omega (arith, c, ap (λ (x : Fdt). x.structure_capacity) same)),
      (let h = b.strings_fit in omega (arith, d, ap (λ (x : Fdt). x.strings_capacity) same)),
    )
