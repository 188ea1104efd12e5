-- ===== src/Memory/Mapping.antt =====
-- Mapping a guest memory region into an address space, and unmapping it.
use vart.Common.{
  ℕ, ◌≡◌, refl, sym, ap, ◌∙◌, subst, ◌≢◌, inl, inr, Bool, true, false, ◌||◌, Option, none, some,
  arith, ltb, ◌==◌, Bool-cases, Option-cases, negsuc, ok, err, In, ℤ, Status, done,
}
use vart.AddressSpace.Defs.{World, AddressSpace, zero_region, sub64, u64_max}
use vart.AddressSpace.Ops.{set_region, region_init, region_init_ram, add, remove}
use vart.AddressSpace.Invariant.{IsWell}
use vart.AddressSpace.Lifecycle.{remove-added}
use vart.Memory.{
  MemoryRegion, memory_region_map, memory_region_unmap, map_added, map_finish, unmap_finish,
}

module _ {D : Type 0} where
  map_finish-done :
      (region next : MemoryRegion) (r : World D × Status) (v : World D)
      → map_finish region r ≡ (v, next, done)
      → (r ≡ (v, done)) × (next ≡ record region { address_space_mapped = true })
  unfolding map_finish
  map_finish-done region next (w, ok _) v h = (ground (arith, h), ground (arith, h))
  map_finish-done region next (w, err e) v h = absurd (ground (arith, h))

  map_added-done :
      (region next : MemoryRegion) (s : ℕ) (allocated : Bool) (r : World D × Status) (v : World D)
      → map_added region s allocated r ≡ (v, next, done)
      → (add r.0 (some s) (some region.address_region) allocated ≡ (v, done))
        × (next ≡ record region { address_space_mapped = true })
  unfolding map_added
  map_added-done region next s allocated (w, ok _) v h = map_finish-done region next _ v h
  map_added-done region next s allocated (w, err e) v h = absurd (ground (arith, h))

  -- Initialising a region leaves the spaces as they are.
  init-space :
      (w : World D) (r base size : ℕ) (priority : ℤ) (owner host : Option ℕ)
      → (region_init_ram w (some r) base size priority owner host).0.space ≡ w.space
  unfolding region_init_ram region_init
  init-space w r base size priority owner none = refl
  init-space w r base size priority owner (some h) =
      elim (Bool-cases (size == 0 || ltb (sub64 u64_max (sub64 size 1)) base)) [
        | inl bad ↦ ground (arith, bad)
        | inr good ↦ ground (arith, good)
      ]

  memory_region_map-done :
      (w : World D) (region next : MemoryRegion) (s : ℕ) (allocated : Bool) (v : World D)
      → memory_region_map w region (some s) allocated ≡ (v, next, done)
      → (u : World D) × (u.space ≡ w.space)
        × (add u (some s) (some region.address_region) allocated ≡ (v, done))
        × (next ≡ record region { address_space_mapped = true })
  unfolding memory_region_map
  memory_region_map-done w region next s allocated v h = elim (Option-cases region.host_addr) [
    | inl absent ↦ absurd (ground (arith, h))
    | inr (host, present) ↦ elim (Bool-cases region.address_space_mapped) [
      | inl on ↦ absurd (ground (arith, h))
      | inr off ↦
          let r =
            region_init_ram w (some region.address_region) region.guest_addr region.size (negsuc 0)
              (some region.address_region) region.host_addr in
          let (added, noted) = map_added-done region next s allocated r v (ground (arith, h)) in
          (
            r.0,
            init-space w region.address_region region.guest_addr region.size (negsuc 0)
                (some region.address_region) region.host_addr,
            added,
            noted,
          )
    ]
  ]

  unmap_linked :
      (w : World D) (region : MemoryRegion) (s : ℕ) (u : World D)
      → region.address_space_mapped ≡ true
      → (w.region region.address_region).address_space ≡ some s
      → remove w (some s) (some region.address_region) ≡ (u, done)
      → memory_region_unmap w region ≡ (
        set_region u region.address_region zero_region,
        record region { address_space_mapped = false },
        done,
      )
  unfolding memory_region_unmap unmap_finish
  unmap_linked w region s u on link gone = ground (arith, on, link, gone)

module _ {D : Type 0} (w : World D) (region next : MemoryRegion) (s : ℕ) (allocated : Bool)
    (v : World D) where
  -- In well-formed spaces, a guest memory region that was mapped with success, its address region
  -- free before, can be unmapped again: the space holds the regions that it held, in their order,
  -- and the address region is cleared.
  pub memory_region_unmap-map :
      IsWell w
      → (w.region region.address_region).address_space ≡ none
      → memory_region_map w region (some s) allocated ≡ (v, next, done)
      → (u : World D) × (memory_region_unmap v next
          ≡ (u, record next { address_space_mapped = false }, done))
        × ((u.space s).regions ≡ (w.space s).regions)
        × (u.region region.address_region ≡ zero_region)
  memory_region_unmap-map well free h =
      let (x, spaces, added, noted) = memory_region_map-done w region next s allocated v h in
      let held : (x.space s).regions ≡ (w.space s).regions =
        ap (λ (f : ℕ → AddressSpace). (f s).regions) spaces in
      let absent : ¬ In region.address_region (x.space s).regions = λ m. unlinked (
        ((well.mapped s).linked region.address_region).0
          (subst (In region.address_region) held m)) in
      let (u, gone, kept, link, _) =
        remove-added x s region.address_region allocated absent added in
      let same : next.address_region ≡ region.address_region =
        ap (λ (q : MemoryRegion). q.address_region) noted in
      (
        set_region u region.address_region zero_region,
        subst
            (λ q. memory_region_unmap v q ≡ (
              set_region u region.address_region zero_region,
              record q { address_space_mapped = false },
              done,
            ))
            (sym noted)
            (unmap_linked v (record region { address_space_mapped = true }) s u refl link gone),
        kept ∙ held,
        ground arith,
      )
    where
      unlinked : (w.region region.address_region).address_space ≢ some s
      unlinked l = ground arith
