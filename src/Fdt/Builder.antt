-- ===== src/Fdt/Builder.antt =====
-- The functions of fdt.h, on a builder that is there. A C string is given without its NUL.
use vart.Common.{
  ℕ, ◌+◌, ◌-◌, ◌/◌, ◌%◌, ◌^◌, Bool, true, false, not, ◌&&◌, ◌||◌, none, some, List, [], ◌∷◌, ◌++◌,
  ltb, leb, ◌==◌, if◌then◌else◌, ok, err, length, get_or, set, replicate, Errno, Result, Status,
  done,
}
use vart.AddressSpace.Defs.{u64_max, sub64}
use vart.Fdt.Defs.{
  Fdt, u32_max, begin_token, end_node_token, prop_token, end_token, zero_fdt, write_be32,
  write_be64, reserve_structure, append_u32, append_padded, find_string,
}

-- `vart_fdt_init`; `allocated` says whether the three `calloc` succeed.
unfoldable pub fdt_init : Fdt → ℕ → ℕ → Bool → Fdt × Status
fdt_init fdt structure_capacity strings_capacity allocated =
    if structure_capacity == 0 || strings_capacity == 0
    then (fdt, err Errno.einval)
    else if ltb u32_max structure_capacity || ltb u32_max strings_capacity
    then (fdt, err Errno.eoverflow)
    else if not allocated
    then (zero_fdt, err Errno.enomem)
    else (
      record zero_fdt {
        structure_capacity = structure_capacity;
        strings_capacity = strings_capacity;
        child_seen = replicate (structure_capacity / 8 + 1) false;
        depth_capacity = structure_capacity / 8 + 1;
      },
      done,
    )

-- `vart_fdt_destroy`
unfoldable pub fdt_destroy : Fdt → Fdt
fdt_destroy fdt = zero_fdt

abbrev pub is_empty : List ℕ → Bool
is_empty [] = true
is_empty (b ∷ bs) = false

-- `strchr(name, '/') != NULL`
unfoldable pub has_slash : List ℕ → Bool
has_slash [] = false
has_slash (b ∷ bs) = let rest = has_slash bs in b == 47 || rest

-- The end of `vart_fdt_begin_node`, after the space is reserved
unfoldable pub begin_finish : Fdt → List ℕ → Fdt
begin_finish fdt name =
    let child_seen =
      if fdt.depth == 0 then fdt.child_seen else set fdt.child_seen (fdt.depth - 1) true in
    record (append_padded (append_u32 fdt begin_token) (name ++ 0 ∷ [])) {
      child_seen = set child_seen fdt.depth false;
      depth = (fdt.depth + 1) % 2 ^ 32;
      root_seen = true;
    }

-- `vart_fdt_begin_node`
unfoldable pub fdt_begin_node : Fdt → List ℕ → Fdt × Status
fdt_begin_node fdt name =
    let name_size = length name + 1 in
    if fdt.finished
      || fdt.root_closed
      || (not fdt.root_seen && not (is_empty name))
      || (fdt.root_seen && is_empty name)
      || has_slash name
    then (fdt, err Errno.einval)
    else if leb fdt.depth_capacity fdt.depth || ltb (u64_max - 4) name_size
    then (fdt, err Errno.eoverflow)
    else elim (reserve_structure fdt (4 + name_size)) [
      | err e ↦ (fdt, err e)
      | ok _ ↦ (begin_finish fdt name, done)
    ]

-- `vart_fdt_end_node`
unfoldable pub fdt_end_node : Fdt → Fdt × Status
fdt_end_node fdt =
    if fdt.finished || fdt.depth == 0
    then (fdt, err Errno.einval)
    else elim (reserve_structure fdt 4) [
      | err e ↦ (fdt, err e)
      | ok _ ↦ (
        record (append_u32 fdt end_node_token) {
          depth = fdt.depth - 1;
          root_closed = fdt.root_closed || fdt.depth - 1 == 0;
        },
        done,
      )
    ]

-- `vart_fdt_property` from the search for the name on: the offset of the name, which is added to the
-- strings where it is not there yet
unfoldable pub name_offset : Fdt → List ℕ → Fdt × Result ℕ
name_offset fdt name = elim (find_string fdt name) [
  | some offset ↦ (fdt, ok offset)
  | none ↦
      if ltb (sub64 fdt.strings_capacity (length fdt.strings)) (length name + 1)
      then (fdt, err Errno.enospc)
      else (
        record fdt { strings = fdt.strings ++ (name ++ 0 ∷ []) },
        ok (length fdt.strings % 2 ^ 32),
      )
]

-- The end of `vart_fdt_property`
unfoldable pub property_finish : List ℕ → Fdt × Result ℕ → Fdt × Status
property_finish bytes (fdt, err e) = (fdt, err e)
property_finish bytes (fdt, ok offset) = (
  append_padded (append_u32 (append_u32 (append_u32 fdt prop_token) (length bytes % 2 ^ 32)) offset)
      bytes,
  done,
)

-- `vart_fdt_property`; `bytes` are the `size` ones at `data`.
unfoldable pub fdt_property : Fdt → List ℕ → List ℕ → Fdt × Status
fdt_property fdt name bytes =
    if is_empty name
      || fdt.finished
      || fdt.depth == 0
      || get_or fdt.child_seen (fdt.depth - 1) false
    then (fdt, err Errno.einval)
    else if ltb u32_max (length bytes) || ltb (u64_max - 12) (length bytes)
    then (fdt, err Errno.eoverflow)
    else elim (reserve_structure fdt (12 + length bytes)) [
      | err e ↦ (fdt, err e)
      | ok _ ↦ property_finish bytes (name_offset fdt name)
    ]

-- `vart_fdt_property_string`, `vart_fdt_property_u32` and `vart_fdt_property_u64`
unfoldable pub fdt_property_string : Fdt → List ℕ → List ℕ → Fdt × Status
fdt_property_string fdt name value = fdt_property fdt name (value ++ 0 ∷ [])

unfoldable pub fdt_property_u32 : Fdt → List ℕ → ℕ → Fdt × Status
fdt_property_u32 fdt name value = fdt_property fdt name (write_be32 value)

unfoldable pub fdt_property_u64 : Fdt → List ℕ → ℕ → Fdt × Status
fdt_property_u64 fdt name value = fdt_property fdt name (write_be64 value)

-- The loop of `vart_fdt_property_cells`
unfoldable pub cell_bytes : List ℕ → List ℕ
cell_bytes [] = []
cell_bytes (c ∷ cells) = write_be32 c ++ cell_bytes cells

-- `vart_fdt_property_cells`; `allocated` says whether `malloc` succeeds.
unfoldable pub fdt_property_cells : Fdt → List ℕ → List ℕ → Bool → Fdt × Status
fdt_property_cells fdt name cells allocated =
    if ltb (u32_max / 4) (length cells)
    then (fdt, err Errno.eoverflow)
    else if length cells == 0
    then fdt_property fdt name []
    else if not allocated
    then (fdt, err Errno.enomem)
    else fdt_property fdt name (cell_bytes cells)

-- The offset of the structure block: the header, and a reserve map of one entry that is zero
abbrev pub structure_offset : ℕ
structure_offset = 56

-- The bytes of the blob at the end of `vart_fdt_finish`
unfoldable pub blob_bytes : List ℕ → List ℕ → List ℕ
blob_bytes structure strings =
    let strings_offset = structure_offset + length structure in
    write_be32 0xd00dfeed
    ++ write_be32 (strings_offset + length strings)
    ++ write_be32 structure_offset
    ++ write_be32 strings_offset
    ++ write_be32 40
    ++ write_be32 17
    ++ write_be32 16
    ++ write_be32 0
    ++ write_be32 (length strings)
    ++ write_be32 (length structure)
    ++ replicate 16 0
    ++ structure
    ++ strings

-- `vart_fdt_finish`; `allocated` says whether `calloc` succeeds.
unfoldable pub fdt_finish : Fdt → Bool → Fdt × Result (List ℕ)
fdt_finish fdt allocated =
    let strings_offset = structure_offset + length fdt.structure + 4 in
    if fdt.finished || not fdt.root_seen || not fdt.root_closed || not (fdt.depth == 0)
    then (fdt, err Errno.einval)
    else elim (reserve_structure fdt 4) [
      | err e ↦ (fdt, err e)
      | ok _ ↦
          if ltb (u64_max - length fdt.structure - 4) structure_offset
            || ltb u32_max strings_offset
            || ltb (u32_max - strings_offset) (length fdt.strings)
          then (fdt, err Errno.eoverflow)
          else if not allocated
          then (fdt, err Errno.enomem)
          else let closed = append_u32 fdt end_token in
            (record closed { finished = true }, ok (blob_bytes closed.structure closed.strings))
    ]
