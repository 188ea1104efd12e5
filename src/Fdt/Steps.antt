-- ===== src/Fdt/Steps.antt =====
-- What each call of the builder adds to the two blocks.
use vart.Common.{
  ℕ, zero, suc, ◌+◌, ◌-◌, ◌*◌, ◌/◌, ◌%◌, ◌≤◌, ◌≡◌, refl, sym, ap, ◌∙◌, subst, inl, inr, true, false,
  some, List, [], ◌∷◌, ◌++◌, arith, Bool-cases, ok, length, length-append, replicate,
}
use vart.Fdt.Defs.{
  Fdt, u32_max, write_be32, aligned_size, reserve_structure, padding, string_matches, strlen,
  find_from, find_string,
}
use vart.Fdt.Reader.{Event}
use vart.Fdt.Encode.{Encodes, Written, NameAt, append_assoc, Written-append}

-- The blocks hold the events, in the arrays, and the tree is not finished.
pub record IsBuilt (fdt : Fdt) (events : List Event) : Type 0 where
  pub written : Written fdt.strings events fdt.structure
  pub aligned : length fdt.structure % 4 ≡ 0
  pub structure_fits : length fdt.structure ≤ fdt.structure_capacity
  pub strings_fit : length fdt.strings ≤ fdt.strings_capacity
  pub structure_bound : fdt.structure_capacity ≤ u32_max
  pub strings_bound : fdt.strings_capacity ≤ u32_max
  pub unfinished : fdt.finished ≡ false

-- The space that is reserved is there.
pub reserve_structure-ok :
    (fdt : Fdt) (size padded : ℕ)
    → length fdt.structure ≤ fdt.structure_capacity
    → fdt.structure_capacity ≤ u32_max
    → reserve_structure fdt size ≡ ok padded
    → length fdt.structure + (size + 3) / 4 * 4 ≤ fdt.structure_capacity
unfolding reserve_structure aligned_size
reserve_structure-ok fdt size padded h k e = ground (arith, e)

length-padding : (size : ℕ) → length (padding size) ≡ (size + 3) / 4 * 4 - size
unfolding padding
length-padding size = zeros ((size + 3) / 4 * 4 - size)
  where
    zeros : (n : ℕ) → length (replicate {A = ℕ} n 0) ≡ n
    zeros zero = refl
    zeros (suc n) = ap suc (zeros n)

padding-aligned : (n k : ℕ) → n % 4 ≡ 0 → padding (n + k) ≡ padding k
unfolding padding
padding-aligned n k h = ap (λ i. replicate i 0) (omega arith)

pub length-write_be32 : (value : ℕ) → length (write_be32 value) ≡ 4
unfolding write_be32
length-write_be32 value = refl

-- Bytes that follow an aligned head, and the padding behind them
pub append_padded-structure :
    (before head bytes : List ℕ) (n : ℕ)
    → length before % 4 ≡ 0
    → length head ≡ n
    → n % 4 ≡ 0
    → ((before ++ head) ++ bytes) ++ padding (length ((before ++ head) ++ bytes))
      ≡ before ++ (head ++ (bytes ++ padding (length bytes)))
append_padded-structure before head bytes n p q r =
    ap (λ n. ((before ++ head) ++ bytes) ++ padding n)
      (length-append (before ++ head) bytes
        ∙ ap (λ n. n + length bytes) (length-append before head))
    ∙ ap (λ l. ((before ++ head) ++ bytes) ++ l)
        (padding-aligned (length before + length head) (length bytes) (omega arith))
    ∙ append_assoc (before ++ head) bytes (padding (length bytes))
    ∙ append_assoc before head (bytes ++ padding (length bytes))

pub length-padded :
    (head bytes : List ℕ) (n : ℕ)
    → length head ≡ n
    → n % 4 ≡ 0
    → length (head ++ (bytes ++ padding (length bytes))) ≡ (n + length bytes + 3) / 4 * 4
length-padded head bytes n q r = omega (
  arith,
  length-append head (bytes ++ padding (length bytes)),
  length-append bytes (padding (length bytes)),
  length-padding (length bytes),
)

-- A call that adds bytes for an event to the structure, and perhaps names to the strings
pub extend-IsBuilt :
    (fdt after : Fdt) (events : List Event) (e : Event) (more : List ℕ)
    → IsBuilt fdt events
    → Written after.strings events fdt.structure
    → Encodes after.strings e more
    → after.structure ≡ fdt.structure ++ more
    → length more % 4 ≡ 0
    → length fdt.structure + length more ≤ after.structure_capacity
    → length after.strings ≤ after.strings_capacity
    → after.structure_capacity ≤ u32_max
    → after.strings_capacity ≤ u32_max
    → after.finished ≡ false
    → IsBuilt after (events ++ e ∷ [])
extend-IsBuilt fdt after events e more b w k same whole fits strings bound bound' open_ = record {
  written =
      subst (Written after.strings (events ++ e ∷ [])) (sym same)
        (Written-append after.strings events e fdt.structure more w k);
  aligned = (let a = b.aligned in omega (arith, ap length same, length-append fdt.structure more));
  structure_fits = omega (arith, ap length same, length-append fdt.structure more);
  strings_fit = strings;
  structure_bound = bound;
  strings_bound = bound';
  unfinished = open_;
}

-- `strcmp` finds a name with its NUL.
string_matches-name :
    (bs name : List ℕ) → string_matches bs name ≡ true → (after : List ℕ) × (bs ≡ name ++ 0 ∷ after)
unfolding string_matches
string_matches-name [] name e = absurd (ground (arith, e))
string_matches-name (b ∷ bs) [] e = (bs, ap (λ x. x ∷ bs) (ground (arith, e)))
string_matches-name (b ∷ bs) (c ∷ cs) e =
    let (after, same) = string_matches-name bs cs (ground (arith, e)) in
    let head : b ≡ c = ground (arith, e) in (after, ap (λ x. x ∷ bs) head ∙ ap (λ l. c ∷ l) same)

find_from-NameAt :
    (bs : List ℕ) (cursor skipped : ℕ) (name : List ℕ) (offset : ℕ)
    → find_from bs cursor skipped name ≡ some offset
    → (before after : List ℕ) × (bs ≡ before ++ (name ++ 0 ∷ after))
      × (cursor + length before ≡ offset)
unfolding find_from
find_from-NameAt [] cursor skipped name offset e = absurd (ground (arith, e))
find_from-NameAt (b ∷ bs) cursor (suc skipped) name offset e =
    let (before, after, same, at) = find_from-NameAt bs (cursor + 1) skipped name offset e in
    (b ∷ before, after, ap (λ l. b ∷ l) same, omega arith)
find_from-NameAt (b ∷ bs) cursor zero name offset e =
    elim (Bool-cases (string_matches (b ∷ bs) name)) [
      | inl hit ↦
          let (after, same) = string_matches-name (b ∷ bs) name hit in
          ([], after, same, ground (arith, hit, e))
      | inr miss ↦
          let (before, after, same, at) =
            find_from-NameAt bs (cursor + 1) (strlen (b ∷ bs)) name offset
              (ground (arith, miss, e)) in
          (b ∷ before, after, ap (λ l. b ∷ l) same, omega arith)
    ]

pub find_string-NameAt :
    (fdt : Fdt) (name : List ℕ) (offset : ℕ)
    → find_string fdt name ≡ some offset
    → NameAt fdt.strings offset name
unfolding find_string
find_string-NameAt fdt name offset e =
    let (before, after, same, at) = find_from-NameAt fdt.strings 0 0 name offset e in
    (before, after, same, omega arith)
