-- ===== src/Memory/Access.antt =====
-- What the host reads and writes of guest memory through a region.
use vart.Common.{
  ℕ, suc, ◌+◌, ◌-◌, ◌≤◌, ◌<◌, ◌≡◌, refl, ap, ◌∙◌, ◌⊎◌, inl, inr, Bool, true, ◌||◌, Option, none,
  some, List, [], ◌∷◌, arith, ltb, Bool-cases, Option-cases, ok, err, length, Errno,
}
use vart.AddressSpace.Defs.{World}
use vart.AddressSpace.Access.{copy_in, ram_copy}
use vart.AddressSpace.Buffer.{copy_in-outside, copy_out-copy_in}
use vart.Memory.{MemoryRegion, memory_region_access}

module _ {D : Type 0} (w : World D) (region : MemoryRegion) (guest_addr : ℕ) where
  -- The access lies in the region, whose host memory is at `host`.
  pub record Inside (size host : ℕ) : Type 0 where
    pub mapped : region.host_addr ≡ some host
    pub above : region.guest_addr ≤ guest_addr
    pub below : guest_addr + size ≤ region.guest_addr + region.size

  access-copy :
      (size host : ℕ) (stored : Option (List ℕ))
      → Inside (suc size) host
      → memory_region_access w region guest_addr (suc size) stored true
        ≡ ram_copy w (host + (guest_addr - region.guest_addr)) (suc size) stored
  unfolding memory_region_access
  access-copy size host stored i =
      let m = i.mapped in let a = i.above in let b = i.below in ground arith

  access-empty :
      (stored : Option (List ℕ)) (present : Bool)
      → ((e : Errno) × (memory_region_access w region guest_addr 0 stored present ≡ (w, err e)))
        ⊎ ((host : ℕ) × Inside 0 host
            × (memory_region_access w region guest_addr 0 stored present ≡ (w, ok [])))
  unfolding memory_region_access
  access-empty stored present = elim (Option-cases region.host_addr) [
    | inl absent ↦ inl (Errno.erange, ground arith)
    | inr (host, mapped) ↦ elim (Bool-cases (ltb guest_addr region.guest_addr)) [
      | inl low ↦ inl (Errno.erange, ground arith)
      | inr above ↦ elim (Bool-cases (ltb region.size (guest_addr - region.guest_addr))) [
        | inl high ↦ inl (Errno.erange, ground arith)
        | inr below ↦ inr (
          host,
          record { mapped = mapped; above = ground arith; below = ground arith },
          ground arith,
        )
      ]
    ]
  ]

  access-some :
      (size : ℕ) (stored : Option (List ℕ)) (present : Bool)
      → ((e : Errno) × (memory_region_access w region guest_addr (suc size) stored present
            ≡ (w, err e)))
        ⊎ ((host : ℕ) × Inside (suc size) host
            × (memory_region_access w region guest_addr (suc size) stored present
                ≡ ram_copy w (host + (guest_addr - region.guest_addr)) (suc size) stored))
  unfolding memory_region_access
  access-some size stored present = elim (Option-cases region.host_addr) [
    | inl absent ↦ inl (Errno.erange, ground arith)
    | inr (host, mapped) ↦ elim (Bool-cases (ltb guest_addr region.guest_addr)) [
      | inl low ↦ inl (Errno.erange, ground arith)
      | inr above ↦
          elim (Bool-cases (
            ltb region.size (guest_addr - region.guest_addr)
            || ltb (region.size - (guest_addr - region.guest_addr)) (suc size))) [
              | inl high ↦ inl (Errno.erange, ground arith)
              | inr below ↦ elim (Bool-cases present) [
                | inr missing ↦ inl (Errno.einval, ground arith)
                | inl there ↦ inr (
                  host,
                  record { mapped = mapped; above = ground arith; below = ground arith },
                  ground arith,
                )
              ]
            ]
    ]
  ]

module _ {D : Type 0} (w : World D) (region : MemoryRegion) (guest_addr : ℕ) where
  -- What a write of the bytes through the region left: they lie inside of it, its host memory holds
  -- them where a read of the same range finds them, and no other memory changed.
  pub record Written (bytes : List ℕ) (v : World D) : Type 0 where
    pub host : ℕ
    pub inside : Inside w region guest_addr (length bytes) host
    pub back : memory_region_access v region guest_addr (length bytes) none true ≡ (v, ok bytes)
    pub outside : (j : ℕ) → (j < host) ⊎ (host + region.size ≤ j) → v.memory j ≡ w.memory j

  -- A write through a guest memory region fails and changes nothing, or succeeds, the bytes lying
  -- inside of the region: a read of the same range yields them, and no memory outside of the
  -- region's host memory changed.
  pub memory_region_access-write :
      (bytes : List ℕ) (present : Bool)
      → ((e : Errno) × (memory_region_access w region guest_addr (length bytes) (some bytes) present
            ≡ (w, err e)))
        ⊎ ((v : World D) × (memory_region_access w region guest_addr
                (length bytes)
                (some bytes)
                present
              ≡ (v, ok []))
            × Written bytes v)
  unfolding memory_region_access ram_copy
  memory_region_access-write [] present =
      elim (access-empty w region guest_addr (some []) present) [
        | inl failed ↦ inl failed
        | inr (host, inside, done_nothing) ↦ inr (
          w,
          done_nothing,
          record {
            host = host;
            inside = inside;
            back =
                (let m = inside.mapped in
                  let a = inside.above in let b = inside.below in ground arith);
            outside = λ j h. refl;
          },
        )
      ]
  memory_region_access-write (b ∷ bs) present =
      elim (access-some w region guest_addr (length bs) (some (b ∷ bs)) present) [
        | inl failed ↦ inl failed
        | inr (host, inside, copied) ↦
            let at = host + (guest_addr - region.guest_addr) in
            let v : World D = record w { memory = copy_in w.memory at (b ∷ bs) } in
            let a = inside.above in
            let c = inside.below in
            inr (
              v,
              copied,
              record {
                host = host;
                inside = inside;
                back =
                    access-copy v region guest_addr (length bs) host none
                      (record { mapped = inside.mapped; above = a; below = c })
                    ∙ ap (λ (o : List ℕ). (v, ok o)) (copy_out-copy_in w.memory at (b ∷ bs));
                outside = λ j h. copy_in-outside w.memory at (b ∷ bs) j (omega arith);
              },
            )
      ]
