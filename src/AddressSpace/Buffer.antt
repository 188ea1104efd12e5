-- ===== src/AddressSpace/Buffer.antt =====
-- Buffer accesses: what they write, what they read back, and that chains of translators end.
use vart.Common.{
  ℕ, zero, suc, ◌+◌, ◌^◌, ◌≤◌, ◌<◌, ◌≡◌, refl, ap, ◌∙◌, subst, ◌≢◌, ◌⊎◌, inl, inr, Bool, true,
  Option, none, some, List, [], ◌∷◌, arith, ◌==◌, Bool-cases, Option-cases, ==_ne, ok, err, length,
  All-In, Errno, Result,
}
use vart.AddressSpace.Defs.{RegionType, AddressSpace, World, Callbacks, sub64}
use vart.AddressSpace.Ranges.{IsRegion}
use vart.AddressSpace.Access.{
  find, copy_in, copy_out, is_ram, ram_copy, ram_access, buffer_access, follow,
}
use vart.AddressSpace.Find.{Serves, IsAnswer, find-IsAnswer}
use vart.AddressSpace.Invariant.{IsWell}

pub copy_in-outside :
    (memory : ℕ → ℕ) (at : ℕ) (bytes : List ℕ) (j : ℕ)
    → (j < at) ⊎ (at + length bytes ≤ j)
    → copy_in memory at bytes j ≡ memory j
unfolding copy_in
copy_in-outside memory at [] j h = refl
copy_in-outside memory at (b ∷ bs) j h =
    ground (arith, copy_in-outside memory (at + 1) bs j (omega arith))

pub copy_out_agree :
    (f g : ℕ → ℕ) (at n : ℕ) → ((j : ℕ) → at ≤ j → f j ≡ g j) → copy_out f at n ≡ copy_out g at n
unfolding copy_out
copy_out_agree f g at zero h = refl
copy_out_agree f g at (suc n) h =
    ground (arith, h at (omega arith), copy_out_agree f g (at + 1) n (λ j l. h j (omega arith)))

pub copy_out-copy_in :
    (memory : ℕ → ℕ) (at : ℕ) (bytes : List ℕ)
    → copy_out (copy_in memory at bytes) at (length bytes) ≡ bytes
unfolding copy_out copy_in
copy_out-copy_in memory at [] = refl
copy_out-copy_in memory at (b ∷ bs) = ground (
  arith,
  copy_out-copy_in memory (at + 1) bs,
  copy_out_agree (copy_in memory at (b ∷ bs)) (copy_in memory (at + 1) bs) (at + 1) (length bs)
      (λ j l. ground arith),
)

pub is_ram-kind : (kind : RegionType) → is_ram kind ≡ true → kind ≡ RegionType.ram
unfolding is_ram
is_ram-kind RegionType.ram e = refl
is_ram-kind RegionType.mmio e = absurd (ground (arith, e))
is_ram-kind RegionType.rom e = absurd (ground (arith, e))
is_ram-kind RegionType.alias e = absurd (ground (arith, e))

module _ {D : Type 0} (w : World D) (s address : ℕ) where
  -- The RAM access of `size` bytes lands in region `r`, which maps host memory at `host`.
  pub record Lands (size r host offset : ℕ) : Type 0 where
    pub serves : Serves w s address size r
    pub ram : is_ram (w.region r).kind ≡ true
    pub mapped : (w.region r).ram_addr ≡ some host
    pub at : (w.region r).base + offset ≡ address
    pub inside : offset + size ≤ (w.region r).size

  -- An access to a space with no translator fails and changes nothing, or copies to or from one
  -- region's host memory.
  ram_access-cases :
      (size : ℕ) (stored : Option (List ℕ))
      → IsWell w
      → address < 2 ^ 64
      → size < 2 ^ 64
      → ((e : Errno) × (ram_access w s address size stored ≡ (w, err e)))
        ⊎ ((r host offset : ℕ) × Lands size r host offset
            × (ram_access w s address size stored ≡ ram_copy w (host + offset) size stored))
  unfolding ram_access
  ram_access-cases size stored v ha hs = elim (Option-cases (find w (some s) address size)) [
    | inl missing ↦ inl (Errno.enoent, rw (missing, ram_access))
    | inr (r, found) ↦ elim (Bool-cases (is_ram (w.region r).kind)) [
      | inr other ↦ inl (Errno.eacces, rw (found, ram_access, other))
      | inl ram ↦ elim (Option-cases (w.region r).ram_addr) [
        | inl absent ↦ inl (Errno.eacces, rw (found, ram_access, ram, absent))
        | inr (host, mapped) ↦ inr (
          r,
          host,
          sub64 address (w.region r).base,
          lands r host found ram mapped,
          rw (found, ram_access, ram, mapped),
        )
      ]
    ]
  ]
    where
      lands :
          (r host : ℕ)
          → find w (some s) address size ≡ some r
          → is_ram (w.region r).kind ≡ true
          → (w.region r).ram_addr ≡ some host
          → Lands size r host (sub64 address (w.region r).base)
      lands r host found ram mapped =
          let answer : IsAnswer w s address size (some r) =
            subst (IsAnswer w s address size) found
              (find-IsAnswer w s address size (v.mapped s).valid ha hs) in
          let fits = All-In (λ q. IsRegion (w.region q)) _ r (v.mapped s).valid answer.0.mapped in
          record {
            serves = answer.0;
            ram = ram;
            mapped = mapped;
            at = (let l = answer.0.above in omega arith);
            inside = (let l = answer.0.above in let m = answer.0.below in omega arith);
          }

module _ {D : Type 0} (w : World D) (s address size : ℕ) where
  -- A successful access found a RAM region, and is the copy.
  ram_access-ok :
      (stored : Option (List ℕ)) (v : World D) (out : List ℕ)
      → ram_access w s address size stored ≡ (v, ok out)
      → (r host : ℕ) × (find w (some s) address size ≡ some r)
        × (is_ram (w.region r).kind ≡ true)
        × ((w.region r).ram_addr ≡ some host)
        × (ram_copy w (host + sub64 address (w.region r).base) size stored ≡ (v, ok out))
  unfolding ram_access
  ram_access-ok stored v out h = elim (Option-cases (find w (some s) address size)) [
    | inl missing ↦ absurd (ground arith)
    | inr (r, found) ↦ elim (Bool-cases (is_ram (w.region r).kind)) [
      | inr other ↦ absurd (ground arith)
      | inl ram ↦ elim (Option-cases (w.region r).ram_addr) [
        | inl absent ↦ absurd (ground arith)
        | inr (host, mapped) ↦ (r, host, found, ram, mapped, ground arith)
      ]
    ]
  ]

module _ {D : Type 0} (w : World D) (s address : ℕ) where
  ram_access-readback :
      (bytes out : List ℕ) (v : World D)
      → ram_access w s address (length bytes) (some bytes) ≡ (v, ok out)
      → (ram_access v s address (length bytes) none ≡ (v, ok bytes)) × (v.space ≡ w.space)
  unfolding ram_access ram_copy find
  ram_access-readback bytes out v h =
      let (r, host, found, ram, mapped, copied) =
        ram_access-ok w s address (length bytes) (some bytes) v out h in
      let at : ℕ = host + sub64 address (w.region r).base in
      let e : v ≡ record w { memory = copy_in w.memory at bytes } = ground arith in
      rw e (
        rw (found, ram_access, ram, mapped)
            (ap (λ (o : List ℕ). (record w { memory = copy_in w.memory at bytes }, ok o))
              (copy_out-copy_in w.memory at bytes)),
        refl,
      )

module _ {D : Type 0} (c : Callbacks D) (w : World D) (s address : ℕ) where
  -- At a space with no translator one unit of fuel is enough.
  buffer_access-ram :
      (fuel size : ℕ) (stored : Option (List ℕ))
      → size ≢ 0
      → (w.space s).translate ≡ none
      → buffer_access c (suc fuel) w s address size stored
        ≡ some (ram_access w s address size stored)
  unfolding buffer_access
  buffer_access-ram fuel size stored n e = rw (==_ne size 0 n, e)

module _ {D : Type 0} (c : Callbacks D) (w : World D) (s address : ℕ) where
  -- What `vart_address_space_write_buffer` stored at an address of a space with no translator,
  -- `vart_address_space_read_buffer` reads back from there, if the write succeeded.
  pub read_buffer-write_buffer :
      (fuel : ℕ) (bytes out : List ℕ) (v : World D)
      → (w.space s).translate ≡ none
      → buffer_access c (suc fuel) w s address (length bytes) (some bytes) ≡ some (v, ok out)
      → buffer_access c (suc fuel) v s address (length bytes) none ≡ some (v, ok bytes)
  unfolding buffer_access
  read_buffer-write_buffer fuel [] out v e h = ground arith
  read_buffer-write_buffer fuel (b ∷ bs) out v e h =
      let stored : ram_access w s address (length (b ∷ bs)) (some (b ∷ bs)) ≡ (v, ok out) =
        cc (
          buffer_access-ram c w s address fuel (suc (length bs)) (some (b ∷ bs)) (omega arith) e) in
      let (back, same) = ram_access-readback w s address (b ∷ bs) out v stored in
      let unmapped : (v.space s).translate ≡ none =
        ap (λ (f : ℕ → AddressSpace). (f s).translate) same ∙ e in
      buffer_access-ram c v s address fuel (suc (length bs)) none (omega arith) unmapped
      ∙ ap some back

  -- A successful, non-empty write to a well-formed space with no translator changes only host memory
  -- that one enabled RAM region serving the access maps; all else in the world stays.
  pub write_buffer_confined :
      (fuel : ℕ) (bytes out : List ℕ) (v : World D)
      → IsWell w
      → address < 2 ^ 64
      → length bytes < 2 ^ 64
      → bytes ≢ []
      → (w.space s).translate ≡ none
      → buffer_access c (suc fuel) w s address (length bytes) (some bytes) ≡ some (v, ok out)
      → (r host : ℕ) × Serves w s address (length bytes) r
        × ((w.region r).kind ≡ RegionType.ram)
        × ((w.region r).ram_addr ≡ some host)
        × (v.region ≡ w.region)
        × (v.space ≡ w.space)
        × (v.devices ≡ w.devices)
        × ((j : ℕ) → (j < host) ⊎ (host + (w.region r).size ≤ j) → v.memory j ≡ w.memory j)
  unfolding ram_copy
  write_buffer_confined fuel [] out v well ha hs n e h = absurd (n refl)
  write_buffer_confined fuel (b ∷ bs) out v well ha hs n e h =
      elim (ram_access-cases w s address (suc (length bs)) (some (b ∷ bs)) well ha hs) [
        | inl (_, failed) ↦ absurd (ground (arith, stored))
        | inr (r, host, offset, lands, copied) ↦
            let l = lands.inside in
            let same : v ≡ record w { memory = copy_in w.memory (host + offset) (b ∷ bs) } =
              cc (stored, copied) in
            (
              r,
              host,
              lands.serves,
              is_ram-kind (w.region r).kind lands.ram,
              lands.mapped,
              ap (λ (x : World D). x.region) same,
              ap (λ (x : World D). x.space) same,
              ap (λ (x : World D). x.devices) same,
              λ j outside.
                  ap (λ (x : World D). x.memory j) same
                  ∙ copy_in-outside w.memory (host + offset) (b ∷ bs) j (omega arith),
            )
      ]
    where
      stored : ram_access w s address (suc (length bs)) (some (b ∷ bs)) ≡ (v, ok out)
      stored =
          cc
            (buffer_access-ram c w s address fuel (suc (length bs)) (some (b ∷ bs)) (omega arith) e)

module _ {D : Type 0} (rank : ℕ → ℕ) (Good : World D → Type 0) where
  follow-ends :
      (s : ℕ) (next : World D → ℕ → ℕ → Option (World D × Result (List ℕ)))
      (ret : World D × Result (Option ℕ × ℕ))
      → ((v : World D) (t translated : ℕ)
          → ret ≡ (v, ok (some t, translated))
          → Good v × ((t ≡ s) ⊎ (rank t < rank s)))
      → ((v : World D) (t translated : ℕ)
          → Good v
          → rank t < rank s
          → (answer : World D × Result (List ℕ)) × (next v t translated ≡ some answer))
      → (answer : World D × Result (List ℕ)) × (follow s next ret ≡ some answer)
  unfolding follow
  follow-ends s next (v, err e) lower ends = ((v, err e), refl)
  follow-ends s next (v, ok (none, x)) lower ends = ((v, err Errno.einval), refl)
  follow-ends s next (v, ok (some t, x)) lower ends = elim (Bool-cases (t == s)) [
    | inl self ↦ ((v, err Errno.einval), rw self)
    | inr other ↦ elim (lower v t x refl).1 [
      | inl same ↦ absurd (ground (arith, other, same))
      | inr below ↦ rw other (ends v t x (lower v t x refl).0 below)
    ]
  ]

module _ {D : Type 0} (c : Callbacks D) (rank : ℕ → ℕ) (Good : World D → Type 0)
    (descends : (w v : World D) (s t f address size translated : ℕ) (is_write : Bool)
      → Good w
      → (w.space s).translate ≡ some f
      → c.translator f (w.space s).translate_opaque address size is_write w
        ≡ (v, ok (some t, translated))
      → Good v × ((t ≡ s) ⊎ (rank t < rank s))) where
  -- A buffer access ends where every translator leads back to its space, which is refused, or to a
  -- space of lower rank, in all worlds of a set that translators do not leave.
  pub buffer_access-descends :
      (fuel : ℕ) (w : World D) (s address size : ℕ) (stored : Option (List ℕ))
      → Good w
      → rank s < fuel
      → (answer : World D × Result (List ℕ)) × (buffer_access c fuel w s address size stored
          ≡ some answer)
  unfolding buffer_access
  buffer_access-descends zero w s address size stored good enough = absurd (omega arith)
  buffer_access-descends (suc fuel) w s address size stored good enough =
      elim (Bool-cases (size == 0)) [
        | inl nothing ↦ ((w, ok []), rw nothing)
        | inr something ↦ elim (Option-cases (w.space s).translate) [
          | inl direct ↦ (ram_access w s address size stored, rw (something, direct))
          | inr (f, translate) ↦
              rw (something, translate)
                (follow-ends rank Good s (λ v t x. buffer_access c fuel v t x size stored) _
                  (λ v t x e. descends w v s t f address size x _ good translate e)
                  (λ v t x kept below.
                    buffer_access-descends fuel v t x size stored kept (omega arith)))
        ]
      ]
