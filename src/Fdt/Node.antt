-- ===== src/Fdt/Node.antt =====
-- Nodes that begin and end add their events.
use vart.Common.{
  ℕ, ◌+◌, ◌-◌, ◌*◌, ◌/◌, ◌≤◌, refl, ap, inl, inr, not, ◌&&◌, ◌||◌, List, [], ◌∷◌, ◌++◌, arith, ltb,
  leb, ◌==◌, Bool-cases, length, length-append, Errno, Result-cases,
}
use vart.AddressSpace.Defs.{u64_max}
use vart.Fdt.Defs.{Fdt, write_be32, reserve_structure, padding, append_u32, append_padded}
use vart.Fdt.Builder.{fdt_begin_node, begin_finish, fdt_end_node, is_empty, has_slash}
use vart.Fdt.Reader.{Event, begins, ends}
use vart.Fdt.Encode.{IsString}
use vart.Fdt.Steps.{
  IsBuilt, reserve_structure-ok, append_padded-structure, length-padded, length-write_be32,
  extend-IsBuilt,
}
use vart.Fdt.Calls.{Extends, refused}

begin_finish-IsBuilt :
    (fdt : Fdt) (events : List Event) (name : List ℕ)
    → IsBuilt fdt events
    → IsString name
    → length fdt.structure + (4 + (length name + 1) + 3) / 4 * 4 ≤ fdt.structure_capacity
    → IsBuilt (begin_finish fdt name) (events ++ begins name ∷ [])
unfolding begin_finish append_padded append_u32
begin_finish-IsBuilt fdt events name b s fits =
    let size = length-padded (write_be32 1) (name ++ 0 ∷ []) 4 (length-write_be32 1) refl in
    let named = length-append name (0 ∷ []) in
    extend-IsBuilt fdt (begin_finish fdt name) events (begins name)
      (write_be32 1 ++ ((name ++ 0 ∷ []) ++ padding (length (name ++ 0 ∷ [])))) b b.written
      (s, ap (λ n. write_be32 1 ++ ((name ++ 0 ∷ []) ++ padding n)) (length-append name (0 ∷ [])))
      (append_padded-structure fdt.structure (write_be32 1) (name ++ 0 ∷ []) 4 b.aligned
        (length-write_be32 1) refl)
      (omega arith) (omega arith) b.strings_fit b.structure_bound b.strings_bound b.unfinished

pub begin_node-Extends :
    (fdt : Fdt) (events : List Event) (name : List ℕ)
    → IsBuilt fdt events
    → IsString name
    → Extends events (begins name) (fdt_begin_node fdt name)
unfolding fdt_begin_node
begin_node-Extends fdt events name b s =
    elim (Bool-cases (
      fdt.finished
      || fdt.root_closed
      || (not fdt.root_seen && not (is_empty name))
      || (fdt.root_seen && is_empty name)
      || has_slash name)) [
        | inl bad ↦ rw bad (refused fdt events (begins name) Errno.einval b)
        | inr good ↦
            elim (Bool-cases
              (leb fdt.depth_capacity fdt.depth || ltb (u64_max - 4) (length name + 1))) [
                | inl deep ↦ rw (good, deep) (refused fdt events (begins name) Errno.eoverflow b)
                | inr shallow ↦
                    elim (Result-cases (reserve_structure fdt (4 + (length name + 1)))) [
                      | inr (e, full) ↦
                          rw (good, shallow, full) (refused fdt events (begins name) e b)
                      | inl (padded, free) ↦
                          let fits =
                            reserve_structure-ok fdt (4 + (length name + 1)) padded b.structure_fits
                              b.structure_bound free in
                          rw (good, shallow, free) (begin_finish-IsBuilt fdt events name b s fits)
                    ]
              ]
      ]

pub end_node-Extends :
    (fdt : Fdt) (events : List Event) → IsBuilt fdt events → Extends events ends (fdt_end_node fdt)
unfolding fdt_end_node append_u32
end_node-Extends fdt events b = elim (Bool-cases (fdt.finished || fdt.depth == 0)) [
  | inl bad ↦ rw bad (refused fdt events ends Errno.einval b)
  | inr good ↦ elim (Result-cases (reserve_structure fdt 4)) [
    | inr (e, full) ↦ rw (good, full) (refused fdt events ends e b)
    | inl (padded, free) ↦
        let fits = reserve_structure-ok fdt 4 padded b.structure_fits b.structure_bound free in
        let size = length-write_be32 2 in
        rw (good, free)
          (extend-IsBuilt fdt _ events ends (write_be32 2) b b.written refl refl (omega arith)
            (omega arith) b.strings_fit b.structure_bound b.strings_bound b.unfinished)
  ]
]
