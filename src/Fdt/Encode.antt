-- ===== src/Fdt/Encode.antt =====
-- What the bytes of a structure block stand for, and that the reader finds it.
use vart.Common.{
  ℕ, zero, suc, ◌+◌, ◌-◌, ◌*◌, ◌/◌, ◌^◌, ◌≤◌, ◌<◌, ◌≡◌, refl, sym, ap, ◌∙◌, subst, some, List, [],
  ◌∷◌, ◌++◌, arith, length, length-append, All, replicate, drop,
}
use vart.Fdt.Defs.{write_be32, padding}
use vart.Fdt.Reader.{
  Event, begins, ends, sets, take_bytes, take_be32, take_string, gap, skip_gap, read_begin,
  read_value, read_property, read_token, read_event, read_events,
}

-- The bytes of a C string
abbrev pub IsString : List ℕ → Type 0
IsString name = All (λ b. 0 < b) name

-- The strings block has the name, with its NUL, at the offset.
abbrev pub NameAt : List ℕ → ℕ → List ℕ → Type 0
NameAt strings offset name =
    (before after : List ℕ) × (strings ≡ before ++ (name ++ 0 ∷ after)) × (length before ≡ offset)

abbrev pub Encodes : List ℕ → Event → List ℕ → Type 0
Encodes strings (begins name) bytes =
    IsString name × (bytes ≡ write_be32 1 ++ ((name ++ 0 ∷ []) ++ padding (length name + 1)))
Encodes strings ends bytes = bytes ≡ write_be32 2
Encodes strings (sets name value) bytes =
    (offset : ℕ) × IsString name
    × NameAt strings offset name
    × (offset < 2 ^ 32)
    × (length value < 2 ^ 32)
    × (bytes
        ≡ write_be32 3
          ++ (write_be32 (length value)
              ++ (write_be32 offset ++ (value ++ padding (length value)))))

-- The bytes are those of the events, one after another.
abbrev pub Written : List ℕ → List Event → List ℕ → Type 0
Written strings [] bytes = bytes ≡ []
Written strings (e ∷ es) bytes =
    (here rest : List ℕ) × Encodes strings e here × Written strings es rest × (bytes ≡ here ++ rest)

pub append_assoc {ℓ} : {A : Type ℓ} (xs ys zs : List A) → (xs ++ ys) ++ zs ≡ xs ++ (ys ++ zs)
append_assoc [] ys zs = refl
append_assoc (x ∷ xs) ys zs = ap (λ l. x ∷ l) (append_assoc xs ys zs)

pub append-nil {ℓ} : {A : Type ℓ} (xs : List A) → xs ++ [] ≡ xs
append-nil [] = refl
append-nil (x ∷ xs) = ap (λ l. x ∷ l) (append-nil xs)

pub Written-append :
    (strings : List ℕ) (es : List Event) (e : Event) (bytes more : List ℕ)
    → Written strings es bytes
    → Encodes strings e more
    → Written strings (es ++ e ∷ []) (bytes ++ more)
Written-append strings [] e bytes more h k =
    (more, [], k, refl, ap (λ l. l ++ more) h ∙ sym (append-nil more))
Written-append strings (f ∷ es) e bytes more (here, rest, k', h, eq) k = (
  here,
  rest ++ more,
  k',
  Written-append strings es e rest more h k,
  ap (λ l. l ++ more) eq ∙ append_assoc here rest more,
)

-- Names that are added to the strings block leave the others where they are.
Encodes-strings :
    (strings more : List ℕ) (e : Event) (bytes : List ℕ)
    → Encodes strings e bytes
    → Encodes (strings ++ more) e bytes
Encodes-strings strings more (begins name) bytes h = h
Encodes-strings strings more ends bytes h = h
Encodes-strings strings more (sets name value) bytes (offset, s, (before, after, eq, at), p, q, r) =
    (
      offset,
      s,
      (
        before,
        after ++ more,
        ap (λ l. l ++ more) eq
            ∙ append_assoc before (name ++ 0 ∷ after) more
            ∙ ap (λ l. before ++ l) (append_assoc name (0 ∷ after) more),
        at,
      ),
      p,
      q,
      r,
    )

pub Written-strings :
    (strings more : List ℕ) (es : List Event) (bytes : List ℕ)
    → Written strings es bytes
    → Written (strings ++ more) es bytes
Written-strings strings more [] bytes h = h
Written-strings strings more (e ∷ es) bytes (here, rest, k, h, eq) =
    (here, rest, Encodes-strings strings more e here k, Written-strings strings more es rest h, eq)

pub take_be32-write_be32 :
    (value : ℕ) (rest : List ℕ)
    → value < 2 ^ 32
    → take_be32 (write_be32 value ++ rest) ≡ some (value, rest)
unfolding take_be32 write_be32
take_be32-write_be32 value rest p = ap (λ v. some (v, rest)) (omega arith)

pub take_bytes-append : (xs rest : List ℕ) → take_bytes (length xs) (xs ++ rest) ≡ some (xs, rest)
unfolding take_bytes
take_bytes-append [] rest = refl
take_bytes-append (x ∷ xs) rest = rw (take_bytes-append xs rest) refl

pub drop-append {ℓ} : {A : Type ℓ} (xs ys : List A) → drop (length xs) (xs ++ ys) ≡ ys
drop-append [] ys = refl
drop-append (x ∷ xs) ys = drop-append xs ys

take_string-append :
    (name rest : List ℕ) → IsString name → take_string (name ++ 0 ∷ rest) ≡ some (name, rest)
unfolding take_string
take_string-append [] rest h = refl
take_string-append (b ∷ name) rest (p, h) = ground (arith, take_string-append name rest h, p)

length-replicate : (n : ℕ) → length (replicate {A = ℕ} n 0) ≡ n
length-replicate zero = refl
length-replicate (suc n) = ap suc (length-replicate n)

length-padding : (size : ℕ) → length (padding size) ≡ gap size
unfolding padding
length-padding size = length-replicate ((size + 3) / 4 * 4 - size) ∙ omega arith

skip_gap-padding :
    (size : ℕ) (e : Event) (rest : List ℕ)
    → skip_gap size e (padding size ++ rest) ≡ some (some e, rest)
unfolding skip_gap
skip_gap-padding size e rest =
    let taken =
      subst (λ n. take_bytes n (padding size ++ rest) ≡ some (padding size, rest))
        (length-padding size) (take_bytes-append (padding size) rest) in
    rw (taken, skip_gap) refl

read_begin-name :
    (name rest : List ℕ)
    → IsString name
    → read_begin (name ++ 0 ∷ (padding (length name + 1) ++ rest)) ≡ some (some (begins name), rest)
unfolding read_begin
read_begin-name name rest s =
    rw (take_string-append name (padding (length name + 1) ++ rest) s, read_begin)
      (skip_gap-padding (length name + 1) (begins name) rest)

read_value-append :
    (name value rest : List ℕ)
    → read_value name (length value) (value ++ (padding (length value) ++ rest))
      ≡ some (some (sets name value), rest)
unfolding read_value
read_value-append name value rest =
    rw (take_bytes-append value (padding (length value) ++ rest), read_value)
      (skip_gap-padding (length value) (sets name value) rest)

name-NameAt :
    (strings : List ℕ) (offset : ℕ) (name : List ℕ)
    → IsString name
    → NameAt strings offset name
    → (after : List ℕ) × (take_string (drop offset strings) ≡ some (name, after))
name-NameAt strings offset name s (before, after, eq, at) = (
  after,
  ap (λ l. take_string (drop offset l)) eq
      ∙ ap (λ n. take_string (drop n (before ++ (name ++ 0 ∷ after)))) (sym at)
      ∙ ap take_string (drop-append before (name ++ 0 ∷ after))
      ∙ take_string-append name after s,
)

read_property-value :
    (strings name value rest : List ℕ) (offset : ℕ)
    → IsString name
    → NameAt strings offset name
    → offset < 2 ^ 32
    → length value < 2 ^ 32
    → read_property strings (
        write_be32 (length value)
        ++ (write_be32 offset ++ (value ++ (padding (length value) ++ rest))))
      ≡ some (some (sets name value), rest)
unfolding read_property
read_property-value strings name value rest offset s at p q =
    let left = value ++ (padding (length value) ++ rest) in
    let (after, found) = name-NameAt strings offset name s at in
    rw
      (
        take_be32-write_be32 (length value) (write_be32 offset ++ left) q,
        take_be32-write_be32 offset left p,
        found,
        read_property,
      )
      (read_value-append name value rest)

-- The reader takes the bytes of one event.
read_event-Encodes :
    (strings : List ℕ) (e : Event) (bytes rest : List ℕ)
    → Encodes strings e bytes
    → read_event strings (bytes ++ rest) ≡ some (some e, rest)
unfolding read_event read_token take_be32 write_be32
read_event-Encodes strings (begins name) bytes rest (s, eq) =
    ap (λ l. read_event strings (l ++ rest)) eq
    ∙ ap read_begin (
        append_assoc (name ++ 0 ∷ []) (padding (length name + 1)) rest
        ∙ append_assoc name (0 ∷ []) (padding (length name + 1) ++ rest))
    ∙ read_begin-name name rest s
read_event-Encodes strings ends bytes rest eq = ap (λ l. read_event strings (l ++ rest)) eq
read_event-Encodes strings (sets name value) bytes rest (offset, s, at, p, q, eq) =
    ap (λ l. read_event strings (l ++ rest)) eq
    ∙ ap (λ l. read_property strings (write_be32 (length value) ++ (write_be32 offset ++ l)))
        (append_assoc value (padding (length value)) rest)
    ∙ read_property-value strings name value rest offset s at p q

read_events-end :
    (strings : List ℕ) (limit : ℕ) → read_events (suc limit) strings (write_be32 9) ≡ some []
unfolding read_events read_event read_token take_be32 write_be32
read_events-end strings limit = refl

-- The reader finds all events, with a limit above their number.
pub read_events-Written :
    (strings : List ℕ) (es : List Event) (bytes : List ℕ) (limit : ℕ)
    → Written strings es bytes
    → length es < limit
    → read_events limit strings (bytes ++ write_be32 9) ≡ some es
unfolding read_events
read_events-Written strings es bytes zero h p = absurd (omega arith)
read_events-Written strings [] bytes (suc limit) h p =
    ap (λ l. read_events (suc limit) strings (l ++ write_be32 9)) h ∙ read_events-end strings limit
read_events-Written strings (e ∷ es) bytes (suc limit) (here, rest, k, h, eq) p =
    ap (λ l. read_events (suc limit) strings l)
      (ap (λ l. l ++ write_be32 9) eq ∙ append_assoc here rest (write_be32 9))
    ∙ rw
        (
          read_event-Encodes strings e here (rest ++ write_be32 9) k,
          read_events-Written strings es rest limit h (omega arith),
          read_events,
        )
        refl

length-Encodes :
    (strings : List ℕ) (e : Event) (bytes : List ℕ) → Encodes strings e bytes → 1 ≤ length bytes
unfolding write_be32
length-Encodes strings (begins name) bytes (s, eq) = omega (arith, ap length eq)
length-Encodes strings ends bytes eq = omega (arith, ap length eq)
length-Encodes strings (sets name value) bytes (offset, s, at, p, q, eq) =
    omega (arith, ap length eq)

pub length-Written :
    (strings : List ℕ) (es : List Event) (bytes : List ℕ)
    → Written strings es bytes
    → length es ≤ length bytes
length-Written strings [] bytes h = omega arith
length-Written strings (e ∷ es) bytes (here, rest, k, h, eq) = omega (
  arith,
  ap length eq,
  length-append here rest,
  length-Encodes strings e here k,
  length-Written strings es rest h,
)
