-- ===== src/Fdt/Defs.antt =====
-- The data of fdt.h, big-endian numbers and the blocks that the builder fills.
use vart.Common.{
  ℕ, zero, suc, ◌+◌, ◌-◌, ◌*◌, ◌/◌, ◌%◌, ◌^◌, Bool, false, ◌&&◌, Option, none, some, List, [], ◌∷◌,
  ◌++◌, ltb, ◌==◌, if◌then◌else◌, ok, err, length, replicate, Errno, Result,
}
use vart.AddressSpace.Defs.{u64_max, sub64}

-- `VartFdt`. `structure` and `strings` hold the first `structure_size` and `strings_size` bytes of
-- the two arrays; the rest of both is zero, since `calloc` clears them and every write goes to the end
-- of what is there.
pub record Fdt : Type 0 where
  pub structure : List ℕ
  pub structure_capacity : ℕ
  pub strings : List ℕ
  pub strings_capacity : ℕ
  pub child_seen : List Bool
  pub depth_capacity : ℕ
  pub depth : ℕ
  pub root_seen : Bool
  pub root_closed : Bool
  pub finished : Bool

abbrev pub u32_max : ℕ
u32_max = 0xffffffff

-- `FDT_BEGIN_NODE` and its like
abbrev pub begin_token : ℕ
begin_token = 1

abbrev pub end_node_token : ℕ
end_node_token = 2

abbrev pub prop_token : ℕ
prop_token = 3

abbrev pub end_token : ℕ
end_token = 9

-- The structure after `memset`
abbrev pub zero_fdt : Fdt
zero_fdt = record {
  structure = [];
  structure_capacity = 0;
  strings = [];
  strings_capacity = 0;
  child_seen = [];
  depth_capacity = 0;
  depth = 0;
  root_seen = false;
  root_closed = false;
  finished = false;
}

-- The bytes that `write_be32` and `write_be64` store
unfoldable pub write_be32 : ℕ → List ℕ
write_be32 value =
    value / 2 ^ 24 % 256 ∷ value / 2 ^ 16 % 256 ∷ value / 2 ^ 8 % 256 ∷ value % 256 ∷ []

unfoldable pub write_be64 : ℕ → List ℕ
write_be64 value = write_be32 (value / 2 ^ 32) ++ write_be32 (value % 2 ^ 32)

-- `aligned_size`
unfoldable pub aligned_size : ℕ → ℕ → Result ℕ
aligned_size size alignment =
    let mask = alignment - 1 in
    if ltb (u64_max - mask) size
    then err Errno.eoverflow
    else ok ((size + mask) / alignment * alignment)

-- `reserve_structure`
unfoldable pub reserve_structure : Fdt → ℕ → Result ℕ
reserve_structure fdt size = elim (aligned_size size 4) [
  | err e ↦ err e
  | ok padded ↦
      if ltb (sub64 fdt.structure_capacity (length fdt.structure)) padded
      then err Errno.enospc
      else ok padded
]

-- The bytes up to the next multiple of 4 after `size` ones: `(structure_size + 3) & ~3`
unfoldable pub padding : ℕ → List ℕ
padding size = replicate ((size + 3) / 4 * 4 - size) 0

-- `append_u32`
unfoldable pub append_u32 : Fdt → ℕ → Fdt
append_u32 fdt value = record fdt { structure = fdt.structure ++ write_be32 value }

-- `memcpy` to the end of the structure block, and the rounding of its size
unfoldable pub append_padded : Fdt → List ℕ → Fdt
append_padded fdt bytes =
    let filled = fdt.structure ++ bytes in
    record fdt { structure = filled ++ padding (length filled) }

-- `strcmp` of what is left of the strings block with a C string, given without its NUL
unfoldable pub string_matches : List ℕ → List ℕ → Bool
string_matches [] name = false
string_matches (b ∷ bs) [] = b == 0
string_matches (b ∷ bs) (c ∷ cs) = let rest = string_matches bs cs in b == c && rest

unfoldable pub strlen : List ℕ → ℕ
strlen [] = 0
strlen (b ∷ bs) = let rest = strlen bs in if b == 0 then 0 else suc rest

-- The loop of `find_string` at `cursor`, after the next `skipped` bytes, which belong to a string that
-- does not match
unfoldable pub find_from : List ℕ → ℕ → ℕ → List ℕ → Option ℕ
find_from [] cursor skipped name = none
find_from (b ∷ bs) cursor (suc skipped) name = find_from bs (cursor + 1) skipped name
find_from (b ∷ bs) cursor zero name =
    let rest = find_from bs (cursor + 1) (strlen (b ∷ bs)) name in
    if string_matches (b ∷ bs) name then some cursor else rest

-- `find_string`
unfoldable pub find_string : Fdt → List ℕ → Option ℕ
find_string fdt name = find_from fdt.strings 0 0 name
