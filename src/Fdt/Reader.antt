-- ===== src/Fdt/Reader.antt =====
-- An independent reader of flattened device trees, after the layout that the specification gives:
-- big-endian numbers, NUL-terminated names, and tokens at multiples of 4 bytes.
use vart.Common.{
  ℕ, zero, suc, ◌+◌, ◌-◌, ◌*◌, ◌%◌, ◌^◌, ◌&&◌, Option, none, some, List, [], ◌∷◌, ◌==◌,
  if◌then◌else◌, length, drop,
}

-- What a structure block says, in order: a node begins, a node ends, a property has a value.
pub data Event : Type 0 where
  begins : List ℕ → Event
  ends : Event
  sets : List ℕ → List ℕ → Event

-- The first `n` bytes and the others, if there are so many
unfoldable pub take_bytes : ℕ → List ℕ → Option (List ℕ × List ℕ)
take_bytes zero bs = some ([], bs)
take_bytes (suc n) [] = none
take_bytes (suc n) (b ∷ bs) = elim (take_bytes n bs) [
  | none ↦ none
  | some (xs, rest) ↦ some (b ∷ xs, rest)
]

unfoldable pub take_be32 : List ℕ → Option (ℕ × List ℕ)
take_be32 (a ∷ b ∷ c ∷ d ∷ rest) = some (a * 2 ^ 24 + b * 2 ^ 16 + c * 2 ^ 8 + d, rest)
take_be32 _ = none

-- A name without its NUL, and what follows that
unfoldable pub take_string : List ℕ → Option (List ℕ × List ℕ)
take_string [] = none
take_string (b ∷ bs) =
    let rest = take_string bs in
    if b == 0
    then some ([], bs)
    else elim rest [ none ↦ none | some (name, left) ↦ some (b ∷ name, left) ]

-- The number of bytes from `size` to the next multiple of 4
abbrev pub gap : ℕ → ℕ
gap size = (4 - size % 4) % 4

unfoldable pub skip_gap : ℕ → Event → List ℕ → Option (Option Event × List ℕ)
skip_gap size event bs = elim (take_bytes (gap size) bs) [
  | none ↦ none
  | some (_, rest) ↦ some (some event, rest)
]

unfoldable pub read_begin : List ℕ → Option (Option Event × List ℕ)
read_begin bs = elim (take_string bs) [
  | none ↦ none
  | some (name, rest) ↦ skip_gap (length name + 1) (begins name) rest
]

unfoldable pub read_value : List ℕ → ℕ → List ℕ → Option (Option Event × List ℕ)
read_value name size bs = elim (take_bytes size bs) [
  | none ↦ none
  | some (value, rest) ↦ skip_gap size (sets name value) rest
]

unfoldable pub read_property : List ℕ → List ℕ → Option (Option Event × List ℕ)
read_property strings bs = elim (take_be32 bs) [
  | none ↦ none
  | some (size, bs) ↦ elim (take_be32 bs) [
    | none ↦ none
    | some (offset, bs) ↦ elim (take_string (drop offset strings)) [
      | none ↦ none
      | some (name, _) ↦ read_value name size bs
    ]
  ]
]

unfoldable pub read_token : List ℕ → ℕ → List ℕ → Option (Option Event × List ℕ)
read_token strings token bs =
    if token == 1
    then read_begin bs
    else if token == 2
    then some (some ends, bs)
    else if token == 3
    then read_property strings bs
    else if token == 9
    then some (none, bs)
    else none

-- The next token, `none` at the end of the block
unfoldable pub read_event : List ℕ → List ℕ → Option (Option Event × List ℕ)
read_event strings bs = elim (take_be32 bs) [
  | none ↦ none
  | some (token, rest) ↦ read_token strings token rest
]

-- At most `limit` tokens, with the last at the end of the bytes
unfoldable pub read_events : ℕ → List ℕ → List ℕ → Option (List Event)
read_events zero strings bs = none
read_events (suc limit) strings bs = elim (read_event strings bs) [
  | none ↦ none
  | some (none, []) ↦ some []
  | some (none, b ∷ left) ↦ none
  | some (some event, left) ↦ elim (read_events limit strings left) [
    | none ↦ none
    | some events ↦ some (event ∷ events)
  ]
]

unfoldable pub be32_at : ℕ → List ℕ → ℕ
be32_at offset blob = elim (take_be32 (drop offset blob)) [ none ↦ 0 | some (value, _) ↦ value ]

-- `size` bytes at `offset`, or none where there are not so many
unfoldable pub block_at : ℕ → ℕ → List ℕ → List ℕ
block_at offset size blob = elim (take_bytes size (drop offset blob)) [
  | none ↦ []
  | some (bytes, _) ↦ bytes
]

-- What a blob says, if its header has the magic number, its size, and a version to be read
unfoldable pub read_blob : List ℕ → Option (List Event)
read_blob blob =
    if be32_at 0 blob == 0xd00dfeed && be32_at 4 blob == length blob && be32_at 24 blob == 16
    then read_events (length blob) (block_at (be32_at 12 blob) (be32_at 32 blob) blob)
        (block_at (be32_at 8 blob) (be32_at 36 blob) blob)
    else none
