-- ===== src/Fdt/Tests.antt =====
-- A small tree, built and read back, and the theorems at concrete inputs.
use vart.Common.{
  ℕ, ◌≤◌, ◌≡◌, refl, true, false, some, List, [], ◌∷◌, ◌++◌, arith, ok, err, length, replicate,
  Errno, done,
}
use vart.Fdt.Defs.{
  Fdt, zero_fdt, write_be32, aligned_size, reserve_structure, padding, append_u32, append_padded,
  string_matches, strlen, find_from, find_string,
}
use vart.Fdt.Builder.{
  fdt_init, fdt_begin_node, begin_finish, fdt_end_node, name_offset, property_finish, fdt_property,
  fdt_finish, blob_bytes, has_slash,
}
use vart.Fdt.Reader.{Event, begins, ends, sets, read_blob}
use vart.Fdt.Calls.{apply, run, accepted}
use vart.Fdt.Trip.{read_blob-fdt_finish, run-fits}
use vart.Fdt.Errors.{apply-Kept}
use vart.Fdt.Tree.{Forest, node, spell}
use vart.Fdt.Whole.{read_blob-whole}

-- A root with a node `a`; both have the property `x`. The last one is refused, since it follows a node.
abbrev calls : List Event
calls =
    begins []
    ∷ sets (120 ∷ []) (1 ∷ 2 ∷ 3 ∷ [])
    ∷ begins (97 ∷ [])
    ∷ sets (120 ∷ []) []
    ∷ ends
    ∷ sets (121 ∷ []) []
    ∷ ends
    ∷ []

abbrev empty : Fdt
empty = record zero_fdt {
  structure_capacity = 128;
  strings_capacity = 16;
  child_seen = replicate 17 false;
  depth_capacity = 17;
}

init_empty : fdt_init zero_fdt 128 16 true ≡ (empty, done)
unfolding fdt_init
init_empty = refl

-- The blocks of the tree
abbrev built : Fdt
built = run calls empty

accepted-calls :
    accepted calls empty
    ≡ begins []
      ∷ sets (120 ∷ []) (1 ∷ 2 ∷ 3 ∷ [])
      ∷ begins (97 ∷ [])
      ∷ sets (120 ∷ []) []
      ∷ ends
      ∷ ends
      ∷ []
unfolding accepted apply fdt_begin_node begin_finish fdt_end_node name_offset property_finish
    fdt_property has_slash write_be32 aligned_size reserve_structure padding append_u32
    append_padded string_matches strlen find_from find_string
accepted-calls = refl

abbrev blob : List ℕ
blob = blob_bytes (built.structure ++ write_be32 9) built.strings

finish-built : (fdt_finish built true).1 ≡ ok blob
unfolding run apply fdt_begin_node begin_finish fdt_end_node name_offset property_finish fdt_finish
    fdt_property has_slash write_be32 aligned_size reserve_structure padding append_u32
    append_padded string_matches strlen find_from find_string blob_bytes
finish-built = refl

read_blob-fdt_finish_example : read_blob blob ≡ some (accepted calls empty)
read_blob-fdt_finish_example =
    read_blob-fdt_finish zero_fdt empty 128 16 true true calls blob init_empty
      (
        tt,
        (
          (omega arith, tt),
          ((omega arith, tt), ((omega arith, tt), (tt, ((omega arith, tt), (tt, tt))))),
        ),
      )
      finish-built

run-fits_example :
    (length (run calls empty).structure ≤ 128) × (length (run calls empty).strings ≤ 16)
run-fits_example = run-fits zero_fdt empty 128 16 true calls init_empty (
  tt,
  (
    (omega arith, tt),
    ((omega arith, tt), ((omega arith, tt), (tt, ((omega arith, tt), (tt, tt))))),
  ),
)

end_empty : (apply ends empty).1 ≡ err Errno.einval
unfolding apply fdt_end_node
end_empty = refl

apply-Kept_example : (apply ends empty).0 ≡ empty
apply-Kept_example = apply-Kept ends empty Errno.einval end_empty

read_blob-whole_example :
    (ps : List (List ℕ × List ℕ)) × (ts : Forest) × (read_blob blob ≡ some (spell (node [] ps ts)))
read_blob-whole_example =
    read_blob-whole zero_fdt empty 128 16 true true calls blob init_empty
      (
        tt,
        (
          (omega arith, tt),
          ((omega arith, tt), ((omega arith, tt), (tt, ((omega arith, tt), (tt, tt))))),
        ),
      )
      finish-built
