-- ===== src/Memory/Tests.antt =====
-- Runs of guest memory regions, and the theorems at concrete inputs.
use vart.Common.{◌≡◌, refl, ◌⊎◌, true, some, [], ◌∷◌, arith, ok, err, Errno, done}
use vart.AddressSpace.Defs.{World, zero_region, zero_space}
use vart.AddressSpace.Ops.{region_init, region_init_ram, add, grow, clashes}
use vart.AddressSpace.Invariant.{IsWell}
use vart.Memory.{
  MemoryRegion, zero_memory, memory_region_access, memory_region_map, memory_region_unmap,
  map_added, map_finish,
}
use vart.Memory.Access.{Written, memory_region_access-write}
use vart.Memory.Mapping.{memory_region_unmap-map}

abbrev ram : MemoryRegion
ram = record (zero_memory 1) { host_addr = some 5000; guest_addr = 0x1000; size = 0x1000 }

-- No region is mapped, and the space has room for 8.
abbrev board : World (Unit {0})
board = record {
  region = λ _. zero_region;
  space = λ _. record zero_space { capacity = 8 };
  memory = λ _. 0;
  devices = tt;
}

board-IsWell : IsWell board
board-IsWell = record {
  mapped = λ s. record { valid = tt; apart = tt; once = tt; linked = λ r. ground arith };
}

memory_region_access-write_example :
    ((e : Errno) × (memory_region_access board ram 0x1004 3 (some (7 ∷ 8 ∷ 9 ∷ [])) true
        ≡ (board, err e)))
    ⊎ ((v : World (Unit {0})) × (memory_region_access board ram 0x1004 3
            (some (7 ∷ 8 ∷ 9 ∷ []))
            true
          ≡ (v, ok []))
        × Written board ram 0x1004 (7 ∷ 8 ∷ 9 ∷ []) v)
memory_region_access-write_example =
    memory_region_access-write board ram 0x1004 (7 ∷ 8 ∷ 9 ∷ []) true

abbrev mapped : World (Unit {0})
mapped = (memory_region_map board ram (some 0) true).0

memory_region_unmap-map_example :
    (u : World (Unit {0})) × (memory_region_unmap mapped
        (record ram { address_space_mapped = true })
      ≡ (u, ram, done))
    × ((u.space 0).regions ≡ [])
    × (u.region 1 ≡ zero_region)
unfolding memory_region_map map_added map_finish region_init_ram region_init add grow clashes
memory_region_unmap-map_example =
    memory_region_unmap-map board ram (record ram { address_space_mapped = true }) 0 true mapped
      board-IsWell refl refl
