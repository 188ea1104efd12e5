-- ===== src/Fdt/Property.antt =====
-- Properties add their events, and the names that are not there yet.
use vart.Common.{
  ℕ, ◌+◌, ◌-◌, ◌*◌, ◌/◌, ◌%◌, ◌^◌, ◌≤◌, ◌<◌, ◌≡◌, refl, sym, ap, ◌∙◌, subst, ◌⊎◌, inl, inr, false,
  ◌||◌, List, [], ◌∷◌, ◌++◌, arith, ltb, ◌==◌, Bool-cases, Option-cases, ok, err, length, get_or,
  length-append, Errno, Result, Result-cases,
}
use vart.AddressSpace.Defs.{u64_max, sub64}
use vart.Fdt.Defs.{
  Fdt, u32_max, write_be32, reserve_structure, padding, append_u32, append_padded, find_string,
}
use vart.Fdt.Builder.{name_offset, property_finish, fdt_property, is_empty}
use vart.Fdt.Reader.{Event, sets}
use vart.Fdt.Encode.{IsString, NameAt, append_assoc, Written-strings, append-nil}
use vart.Fdt.Steps.{
  IsBuilt, reserve_structure-ok, append_padded-structure, length-padded, find_string-NameAt,
  length-write_be32, extend-IsBuilt,
}
use vart.Fdt.Calls.{Extends, refused}

NameAt-bound :
    (strings : List ℕ) (offset : ℕ) (name : List ℕ)
    → NameAt strings offset name
    → offset + 1 ≤ length strings
NameAt-bound strings offset name (before, after, same, at) = omega (
  arith,
  ap length same,
  length-append before (name ++ 0 ∷ after),
  length-append name (0 ∷ after),
)

abbrev with_strings : Fdt → List ℕ → Fdt
with_strings fdt more = record fdt { strings = fdt.strings ++ more }

answers : (fdt : Fdt) (n k : ℕ) → n ≡ k → ◌≡◌ {A = Fdt × Result ℕ} (fdt, ok n) (fdt, ok k)
answers fdt n k e = ap (λ i. (fdt, ok i)) e

-- Either there is no room for the name, or it is at its offset then.
name_offset-ways :
    (fdt : Fdt) (name : List ℕ)
    → length fdt.strings ≤ fdt.strings_capacity
    → fdt.strings_capacity ≤ u32_max
    → ((code : Errno) × (name_offset fdt name ≡ (fdt, err code)))
      ⊎ ((more : List ℕ) × (offset : ℕ) × (name_offset fdt name
            ≡ (with_strings fdt more, ok offset))
          × NameAt (fdt.strings ++ more) offset name
          × (offset < 2 ^ 32)
          × (length (fdt.strings ++ more) ≤ fdt.strings_capacity))
unfolding name_offset
name_offset-ways fdt name fits bound = elim (Option-cases (find_string fdt name)) [
  | inr (offset, found) ↦
      let at = find_string-NameAt fdt name offset found in
      let inside = NameAt-bound fdt.strings offset name at in
      let same : fdt.strings ++ [] ≡ fdt.strings = append-nil fdt.strings in
      inr (
        [],
        offset,
        rw (found, name_offset) (ap (λ l. (record fdt { strings = l }, ok offset)) (sym same)),
        subst (λ l. NameAt l offset name) (sym same) at,
        omega arith,
        omega (arith, ap length same),
      )
  | inl missing ↦
      elim (Bool-cases (ltb (sub64 fdt.strings_capacity (length fdt.strings)) (length name + 1))) [
        | inl full ↦ inl (Errno.enospc, rw (missing, full, name_offset) refl)
        | inr free ↦ inr (
          name ++ 0 ∷ [],
          length fdt.strings,
          rw (missing, free, name_offset)
              (answers (with_strings fdt (name ++ 0 ∷ [])) (length fdt.strings % 2 ^ 32)
                (length fdt.strings) (omega arith)),
          (fdt.strings, [], refl, refl),
          omega arith,
          ground (
            arith,
            free,
            length-append fdt.strings (name ++ 0 ∷ []),
            length-append name (0 ∷ []),
          ),
        )
      ]
]

property_finish-IsBuilt :
    (fdt : Fdt) (events : List Event) (name value more : List ℕ) (offset : ℕ)
    → IsBuilt fdt events
    → IsString name
    → NameAt (fdt.strings ++ more) offset name
    → offset < 2 ^ 32
    → length (fdt.strings ++ more) ≤ fdt.strings_capacity
    → length value ≤ u32_max
    → length fdt.structure + (12 + length value + 3) / 4 * 4 ≤ fdt.structure_capacity
    → Extends events (sets name value) (property_finish value (with_strings fdt more, ok offset))
unfolding property_finish append_padded append_u32
property_finish-IsBuilt fdt events name value more offset b s at small strings short fits =
    let head = write_be32 3 ++ (write_be32 (length value % 2 ^ 32) ++ write_be32 offset) in
    let body = write_be32 offset ++ (value ++ padding (length value)) in
    let size : length head ≡ 12 = twelve (length value % 2 ^ 32) offset in
    let total = length-padded head value 12 size refl in
    let size_kept : length value % 2 ^ 32 ≡ length value = omega arith in
    extend-IsBuilt fdt (property_finish value (with_strings fdt more, ok offset)).0 events
      (sets name value) (head ++ (value ++ padding (length value))) b
      (Written-strings fdt.strings more events fdt.structure b.written)
      (
        offset,
        s,
        at,
        small,
        omega arith,
        ap
              (λ n.
                (write_be32 3 ++ (write_be32 n ++ write_be32 offset))
                ++ (value ++ padding (length value)))
              size_kept
            ∙ tokens (length value) offset (value ++ padding (length value)),
      )
      (ap (λ l. (l ++ value) ++ padding (length (l ++ value)))
          (joined fdt.structure (length value % 2 ^ 32) offset)
        ∙ append_padded-structure fdt.structure head value 12 b.aligned size refl)
      (omega arith) (omega arith) strings b.structure_bound b.strings_bound b.unfinished
  where
    twelve : (n o : ℕ) → length (write_be32 3 ++ (write_be32 n ++ write_be32 o)) ≡ 12
    twelve n o = omega (
      arith,
      length-append (write_be32 3) (write_be32 n ++ write_be32 o),
      length-append (write_be32 n) (write_be32 o),
      length-write_be32 3,
      length-write_be32 n,
      length-write_be32 o,
    )

    tokens :
        (n o : ℕ) (l : List ℕ)
        → (write_be32 3 ++ (write_be32 n ++ write_be32 o)) ++ l
          ≡ write_be32 3 ++ (write_be32 n ++ (write_be32 o ++ l))
    tokens n o l =
        append_assoc (write_be32 3) (write_be32 n ++ write_be32 o) l
        ∙ ap (λ r. write_be32 3 ++ r) (append_assoc (write_be32 n) (write_be32 o) l)

    joined :
        (before : List ℕ) (n o : ℕ)
        → ((before ++ write_be32 3) ++ write_be32 n) ++ write_be32 o
          ≡ before ++ (write_be32 3 ++ (write_be32 n ++ write_be32 o))
    joined before n o =
        append_assoc (before ++ write_be32 3) (write_be32 n) (write_be32 o)
        ∙ append_assoc before (write_be32 3) (write_be32 n ++ write_be32 o)

no_room :
    (fdt : Fdt) (events : List Event) (name value : List ℕ) (code : Errno)
    → IsBuilt fdt events
    → Extends events (sets name value) (property_finish value (fdt, err code))
unfolding property_finish
no_room fdt events name value code b = refused fdt events (sets name value) code b

pub property-Extends :
    (fdt : Fdt) (events : List Event) (name value : List ℕ)
    → IsBuilt fdt events
    → IsString name
    → Extends events (sets name value) (fdt_property fdt name value)
unfolding fdt_property
property-Extends fdt events name value b s =
    elim (Bool-cases (
      is_empty name
      || fdt.finished
      || fdt.depth == 0
      || get_or fdt.child_seen (fdt.depth - 1) false)) [
        | inl bad ↦ rw bad (refused fdt events (sets name value) Errno.einval b)
        | inr good ↦
            elim (Bool-cases (ltb u32_max (length value) || ltb (u64_max - 12) (length value))) [
              | inl long ↦ rw (good, long) (refused fdt events (sets name value) Errno.eoverflow b)
              | inr short ↦ elim (Result-cases (reserve_structure fdt (12 + length value))) [
                | inr (e, full) ↦ rw (good, short, full) (refused fdt events (sets name value) e b)
                | inl (padded, free) ↦
                    let fits =
                      reserve_structure-ok fdt (12 + length value) padded b.structure_fits
                        b.structure_bound free in
                    rw (good, short, free)
                      (elim (name_offset-ways fdt name b.strings_fit b.strings_bound) [
                        | inl (code, full) ↦
                            subst (λ r. Extends events (sets name value) (property_finish value r))
                              (sym full) (no_room fdt events name value code b)
                        | inr (more, offset, same, at, small, room) ↦
                            subst (λ r. Extends events (sets name value) (property_finish value r))
                              (sym same)
                              (property_finish-IsBuilt fdt events name value more offset b s at
                                small room (ground (arith, short)) fits)
                      ])
              ]
            ]
      ]
