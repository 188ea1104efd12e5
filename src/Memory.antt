-- ===== src/Memory.antt =====
-- src/core/memory.c and include/vart/memory.h: guest memory regions.
pub mod Access
pub mod Mapping
mod Tests
use vart.Common.{
  ℕ, ◌+◌, ◌-◌, ◌%◌, Bool, true, false, not, ◌||◌, Option, none, some, List, [], ltb, leb, ◌==◌,
  if◌then◌else◌, is_null, negsuc, ok, err, Errno, Result, Status, done,
}
use vart.AddressSpace.Defs.{World, zero_region, u64_max}
use vart.AddressSpace.Ops.{set_region, region_init_ram, add, remove}
use vart.AddressSpace.Access.{ram_copy}

-- `VartMemoryRegion`; `address_region` is the pointer to the region inside of it, which the store of
-- address spaces holds.
pub record MemoryRegion : Type 0 where
  pub host_addr : Option ℕ
  pub guest_addr : ℕ
  pub size : ℕ
  pub slot : ℕ
  pub registered : Bool
  pub address_region : ℕ
  pub address_space_mapped : Bool

-- The structure after `memset`
abbrev pub zero_memory : ℕ → MemoryRegion
zero_memory embedded = record {
  host_addr = none;
  guest_addr = 0;
  size = 0;
  slot = 0;
  registered = false;
  address_region = embedded;
  address_space_mapped = false;
}

-- `memory_region_is_valid`; a page size of 0 stands for all that `sysconf` returns and is not
-- positive.
unfoldable pub memory_region_is_valid : ℕ → ℕ → ℕ → Bool
memory_region_is_valid page_size guest_addr size =
    if page_size == 0 || size == 0
    then false
    else if not (guest_addr % page_size == 0) || not (size % page_size == 0)
    then false
    else leb guest_addr (u64_max - size)

-- The ioctl that sets a memory slot: slot, guest address, size and host address
abbrev pub SetSlot : Type 0 → Type 0
SetSlot K = ℕ → ℕ → ℕ → Option ℕ → K → K × Status

module _ {D : Type 0} where
  -- `vart_memory_region_create`; `mapping` is what `mmap` returns.
  unfoldable pub memory_region_create :
      World D → MemoryRegion → ℕ → Result ℕ → ℕ → ℕ → ℕ → World D × MemoryRegion × Status
  memory_region_create w region page_size mapping guest_addr size slot =
      let cleared = set_region w region.address_region zero_region in
      if not (memory_region_is_valid page_size guest_addr size)
      then (cleared, zero_memory region.address_region, err Errno.einval)
      else elim mapping [
        | err e ↦ (cleared, zero_memory region.address_region, err e)
        | ok host ↦ (
          cleared,
          record (zero_memory region.address_region) {
            host_addr = some host;
            guest_addr = guest_addr;
            size = size;
            slot = slot;
          },
          done,
        )
      ]

  -- The end of `vart_memory_region_map`
  unfoldable pub map_finish : MemoryRegion → World D × Status → World D × MemoryRegion × Status
  map_finish region (w, err e) = (set_region w region.address_region zero_region, region, err e)
  map_finish region (w, ok _) = (w, record region { address_space_mapped = true }, done)

  -- What follows `vart_address_region_init_ram` in it
  unfoldable pub map_added :
      MemoryRegion → ℕ → Bool → World D × Status → World D × MemoryRegion × Status
  map_added region s allocated (w, err e) = (w, region, err e)
  map_added region s allocated (w, ok _) =
      map_finish region (add w (some s) (some region.address_region) allocated)

  -- `vart_memory_region_map`, on a region that is there. The owner noted in the address region, which
  -- is the structure around it, goes by the same pointer.
  unfoldable pub memory_region_map :
      World D → MemoryRegion → Option ℕ → Bool → World D × MemoryRegion × Status
  memory_region_map w region none allocated = (w, region, err Errno.einval)
  memory_region_map w region (some s) allocated =
      if is_null region.host_addr
      then (w, region, err Errno.einval)
      else if region.address_space_mapped
      then (w, region, err Errno.ealready)
      else map_added region s allocated (
          region_init_ram w (some region.address_region) region.guest_addr region.size (negsuc 0)
            (some region.address_region) region.host_addr)

  -- The end of `vart_memory_region_unmap`
  unfoldable pub unmap_finish : MemoryRegion → World D × Status → World D × MemoryRegion × Status
  unmap_finish region (w, err e) = (w, region, err e)
  unmap_finish region (w, ok _) = (
    set_region w region.address_region zero_region,
    record region { address_space_mapped = false },
    done,
  )

  -- `vart_memory_region_unmap`, on a region that is there
  unfoldable pub memory_region_unmap : World D → MemoryRegion → World D × MemoryRegion × Status
  memory_region_unmap w region =
      if not region.address_space_mapped
      then (w, region, done)
      else elim (w.region region.address_region).address_space [
        | none ↦ unmap_finish region (w, done)
        | some s ↦ unmap_finish region (remove w (some s) (some region.address_region))
      ]

  -- `memory_region_access`, on a region that is there; what is stored is given for a write
  -- (`vart_memory_region_write`) and a read (`vart_memory_region_read`) returns the bytes. `present`
  -- says whether the data pointer is not NULL.
  unfoldable pub memory_region_access :
      World D → MemoryRegion → ℕ → ℕ → Option (List ℕ) → Bool → World D × Result (List ℕ)
  memory_region_access w region guest_addr size stored present = elim region.host_addr [
    | none ↦ (w, err Errno.erange)
    | some host ↦
        let offset = guest_addr - region.guest_addr in
        if ltb guest_addr region.guest_addr
        then (w, err Errno.erange)
        else if ltb region.size offset || ltb (region.size - offset) size
        then (w, err Errno.erange)
        else if size == 0
        then (w, ok [])
        else if not present
        then (w, err Errno.einval)
        else ram_copy w (host + offset) size stored
  ]

  -- The end of `vart_memory_region_destroy`, whatever unmapping returned
  unfoldable pub destroy_finish :
      (ℕ → ℕ → World D → World D) → World D × MemoryRegion × Status → World D × MemoryRegion
  destroy_finish munmap (w, region, status) = (
    set_region (elim region.host_addr [ none ↦ w | some host ↦ munmap host region.size w ])
        region.address_region zero_region,
    zero_memory region.address_region,
  )

  -- `vart_memory_region_destroy`; `munmap` is a parameter.
  unfoldable pub memory_region_destroy :
      (ℕ → ℕ → World D → World D) → World D → MemoryRegion → World D × MemoryRegion
  memory_region_destroy munmap w region = destroy_finish munmap (memory_region_unmap w region)

module _ {K : Type 0} where
  unfoldable pub note_registered : MemoryRegion → Bool → K × Status → K × MemoryRegion × Status
  note_registered region now (k, err e) = (k, region, err e)
  note_registered region now (k, ok _) = (k, record region { registered = now }, done)

module _ {K : Type 0} (set_slot : SetSlot K) where
  -- `vart_memory_region_register`
  unfoldable pub memory_region_register : MemoryRegion → K → K × MemoryRegion × Status
  memory_region_register region k =
      if is_null region.host_addr || region.registered
      then (k, region, err Errno.einval)
      else note_registered region true
          (set_slot region.slot region.guest_addr region.size region.host_addr k)

  -- `vart_memory_region_unregister`: a slot of size 0 is taken away.
  unfoldable pub memory_region_unregister : MemoryRegion → K → K × MemoryRegion × Status
  memory_region_unregister region k =
      if not region.registered
      then (k, region, done)
      else note_registered region false
          (set_slot region.slot region.guest_addr 0 region.host_addr k)
