-- ===== src/AddressSpace/Dispatch.antt =====
-- What an MMIO access does, on every branch, and that a handler sees only offsets of its region.
use vart.Common.{
  ℕ, ◌+◌, ◌*◌, ◌%◌, ◌^◌, ◌≤◌, ◌<◌, ◌≡◌, refl, subst, ◌⊎◌, inl, inr, true, some, arith, Bool-cases,
  Option-cases, ok, err, All-In, ◌≤ℤ◌, Errno, Result,
}
use vart.AddressSpace.Defs.{World, Callbacks, RegionType, sub64}
use vart.AddressSpace.Ranges.{IsRegion}
use vart.AddressSpace.Access.{
  find, read, write, mmio_access_size_valid, mmio_masked, masked_result, is_mmio, read_handler,
  write_handler,
}
use vart.AddressSpace.Find.{Serves, IsAnswer, find-IsAnswer}
use vart.AddressSpace.Invariant.{IsWell}

abbrev IsWidth : ℕ → Type 0
IsWidth size = (size ≡ 1) ⊎ (size ≡ 2) ⊎ (size ≡ 4) ⊎ (size ≡ 8)

IsWidth-valid : (size : ℕ) → mmio_access_size_valid size ≡ true → IsWidth size
unfolding mmio_access_size_valid
IsWidth-valid size h = ground arith

mmio_masked-mod :
    (size value : ℕ)
    → mmio_access_size_valid size ≡ true
    → mmio_masked size value ≡ value % 2 ^ (8 * size)
unfolding mmio_masked
mmio_masked-mod size value h = elim (IsWidth-valid size h) [
  | inl e ↦ rw e
  | inr (inl e) ↦ rw e
  | inr (inr (inl e)) ↦ rw e
  | inr (inr (inr e)) ↦ rw e
]

is_mmio-mmio : (k : RegionType) → is_mmio k ≡ true → k ≡ RegionType.mmio
unfolding is_mmio
is_mmio-mmio RegionType.mmio h = refl
is_mmio-mmio RegionType.ram h = cc
is_mmio-mmio _ h = cc

module _ {D : Type 0} where
  -- A handler's answer with its value cut to `size` bytes.
  abbrev pub cut_result : ℕ → World D × Result ℕ → World D × Result ℕ
  cut_result size (v, err e) = (v, err e)
  cut_result size (v, ok value) = (v, ok (value % 2 ^ (8 * size)))

  masked_result-cut :
      (size : ℕ) (a : World D × Result ℕ)
      → mmio_access_size_valid size ≡ true
      → masked_result size a ≡ cut_result size a
  unfolding masked_result
  masked_result-cut size (v, err e) h = refl
  masked_result-cut size (v, ok value) h = rw (mmio_masked-mod size value h)

module _ {D : Type 0} (c : Callbacks D) (w : World D) (s address size : ℕ) where
  -- The region `r` answers the access with its handler at the offset `offset`: the access lies
  -- inside the region, and no region that serves it has a higher priority.
  pub record Reaches (r offset : ℕ) : Type 0 where
    pub width : IsWidth size
    pub serves : Serves w s address size r
    pub highest :
        (q : ℕ) → Serves w s address size q → (w.region q).priority ≤ℤ (w.region r).priority
    pub at : (w.region r).base + offset ≡ address
    pub inside : offset + size ≤ (w.region r).size

  Reaches-found :
      (r : ℕ)
      → IsWell w
      → address < 2 ^ 64
      → mmio_access_size_valid size ≡ true
      → find w (some s) address size ≡ some r
      → Reaches r (sub64 address (w.region r).base)
  Reaches-found r v ha hw e =
      let answer : IsAnswer w s address size (some r) =
        subst (IsAnswer w s address size) e
          (find-IsAnswer w s address size (v.mapped s).valid ha small) in
      let fits = All-In (λ q. IsRegion (w.region q)) _ r (v.mapped s).valid answer.0.mapped in
      record {
        width = IsWidth-valid size hw;
        serves = answer.0;
        highest = answer.1;
        at = (let l = answer.0.above in omega arith);
        inside = (let l = answer.0.above in let m = answer.0.below in omega arith);
      }
    where
      small : size < 2 ^ 64
      small = ground (arith, IsWidth-valid size hw)

  -- `vart_address_space_read` either fails and leaves the world as it was, or it is the read handler
  -- of the region of highest priority that serves the access, which is an MMIO region, called at the
  -- offset of the address in that region, with the whole access inside the region; the width is 1, 2,
  -- 4 or 8, and a value that the handler returns is cut to that width.
  pub read_lem :
      IsWell w
      → address < 2 ^ 64
      → ((e : Errno) × (read c w (some s) address size ≡ (w, err e)))
        ⊎ ((r f offset : ℕ) × Reaches r offset
            × ((w.region r).kind ≡ RegionType.mmio)
            × (read c w (some s) address size ≡ (
                let (v, ret) = c.mmio_read f (w.region r).mmio_opaque offset size w in
                elim ret [ err e ↦ (v, err e) | ok x ↦ (v, ok (x % 2 ^ (8 * size))) ])))
  unfolding read
  read_lem v ha = elim (Bool-cases (mmio_access_size_valid size)) [
    | inr bad ↦ inl (Errno.einval, rw bad)
    | inl width ↦ elim (Option-cases (find w (some s) address size)) [
      | inl none_found ↦ inl (Errno.enoent, rw (width, none_found))
      | inr (r, found) ↦ elim (Bool-cases (is_mmio (w.region r).kind)) [
        | inr other ↦ inl (Errno.eacces, rw (width, found, other))
        | inl device ↦ elim (Option-cases (read_handler (w.region r))) [
          | inl absent ↦ inl (Errno.enosys, rw (width, found, device, absent))
          | inr (f, handler) ↦ inr (
            r,
            f,
            sub64 address (w.region r).base,
            Reaches-found r v ha width found,
            is_mmio-mmio _ device,
            rw (width, found, device, handler) (masked_result-cut size _ width),
          )
        ]
      ]
    ]
  ]

  -- `vart_address_space_write` either fails and leaves the world as it was, or it is the write
  -- handler of the region of highest priority that serves the access, which is an MMIO region,
  -- called at the offset of the address in that region, with the value cut to the access's width,
  -- which is 1, 2, 4 or 8; the whole access lies inside the region.
  pub write_lem :
      (value : ℕ)
      → IsWell w
      → address < 2 ^ 64
      → ((e : Errno) × (write c w (some s) address size value ≡ (w, err e)))
        ⊎ ((r f offset : ℕ) × Reaches r offset
            × ((w.region r).kind ≡ RegionType.mmio)
            × (write c w (some s) address size value
                ≡ c.mmio_write f (w.region r).mmio_opaque offset size (value % 2 ^ (8 * size)) w))
  unfolding write
  write_lem value v ha = elim (Bool-cases (mmio_access_size_valid size)) [
    | inr bad ↦ inl (Errno.einval, rw bad)
    | inl width ↦ elim (Option-cases (find w (some s) address size)) [
      | inl none_found ↦ inl (Errno.enoent, rw (width, none_found))
      | inr (r, found) ↦ elim (Bool-cases (is_mmio (w.region r).kind)) [
        | inr other ↦ inl (Errno.eacces, rw (width, found, other))
        | inl device ↦ elim (Option-cases (write_handler (w.region r))) [
          | inl absent ↦ inl (Errno.enosys, rw (width, found, device, absent))
          | inr (f, handler) ↦ inr (
            r,
            f,
            sub64 address (w.region r).base,
            Reaches-found r v ha width found,
            is_mmio-mmio _ device,
            rw (width, found, device, handler, mmio_masked-mod size value width) refl,
          )
        ]
      ]
    ]
  ]
