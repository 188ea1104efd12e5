-- ===== src/AddressSpace/Tests.antt =====
-- Runs of the address-space model, and the theorems at concrete inputs.
use vart.Common.{
  ℕ, ◌+◌, ◌≤◌, ◌<◌, ◌≡◌, refl, sym, ◌≢◌, ◌↔◌, ◌⊎◌, true, false, none, some, List, [], ◌∷◌, arith,
  ℕ_discrete, ==_ne, pos, ok, err, In, Errno, done, update,
}
use vart.AddressSpace.Defs.{
  Region, RegionType, AddressSpace, World, Callbacks, zero_region, zero_space, region_contains,
  regions_overlap,
}
use vart.AddressSpace.Ranges.{IsRegion, Covers, region_contains_iff, regions_overlap_iff}
use vart.AddressSpace.Ops.{add, remove, clashes, grow}
use vart.AddressSpace.Access.{
  find, find_from, beats, read, write, buffer_access, ram_access, ram_copy, mmio_access_size_valid,
  mmio_masked, copy_in, is_ram, is_mmio, masked_result, read_handler,
}
use vart.AddressSpace.Find.{IsAnswer, Serves, find-IsAnswer}
use vart.AddressSpace.Invariant.{IsWell}
use vart.AddressSpace.Preserve.{remove-succeeds}
use vart.AddressSpace.Lifecycle.{remove-add}
use vart.AddressSpace.Order.{find-order}
use vart.AddressSpace.Dispatch.{Reaches, cut_result, read_lem, write_lem}
use vart.AddressSpace.Buffer.{read_buffer-write_buffer, write_buffer_confined}
use vart.AddressSpace.History.{run, run-IsWell, Call}

-- RAM of 64 bytes at 0x1000, backed by host memory at 5000, and a device of 16 bytes over its middle.
abbrev ram : Region
ram = record zero_region {
  base = 0x1000;
  size = 64;
  enabled = true;
  address_space = some 0;
  ram_addr = some 5000;
}

abbrev device : Region
device = record zero_region {
  base = 0x1010;
  size = 16;
  priority = pos 1;
  kind = RegionType.mmio;
  enabled = true;
  address_space = some 0;
  mmio_ops = some (record { read = some 1; write = some 2 });
}

-- Region 3 is initialised and not mapped.
abbrev spare : Region
spare = record zero_region { base = 0x2000; size = 64; enabled = true; ram_addr = some 6000 }

abbrev regions : ℕ → Region
regions = update (update (update (λ _. zero_region) 1 ram) 2 device) 3 spare

abbrev spaces : ℕ → AddressSpace
spaces = update (λ _. zero_space) 0 (record zero_space { regions = 1 ∷ 2 ∷ []; capacity = 8 })

abbrev board : World (Unit {0})
board = record { region = regions; space = spaces; memory = λ _. 0; devices = tt }

-- Reads answer with the offset and a high byte too many; writes are refused.
abbrev handlers : Callbacks (Unit {0})
handlers = record {
  mmio_read = λ f opaque offset size w. (w, ok (offset + 0x700));
  mmio_write = λ f opaque offset size value w. (w, err Errno.eio);
  translator = λ f opaque address size is_write w. (w, ok (some 0, address));
}

overlay_wins : (find board (some 0) 0x1010 4 ≡ some 2) × (find board (some 0) 0x1000 4 ≡ some 1)
unfolding find find_from beats region_contains
overlay_wins = (refl, refl)

ram-IsRegion : IsRegion ram
ram-IsRegion = omega arith

device-IsRegion : IsRegion device
device-IsRegion = omega arith

board-linked : (r : ℕ) → In r (1 ∷ 2 ∷ []) ↔ ((regions r).address_space ≡ some 0)
board-linked r = ground arith

other-linked : (s : ℕ) → s ≢ 0 → (r : ℕ) → In r [] ↔ ((regions r).address_space ≡ some s)
other-linked s n r = ground arith

board-IsWell : IsWell board
board-IsWell = record {
  mapped = λ s. elim (ℕ_discrete s 0) [
    | yes e ↦ rw e (record {
      valid = (ram-IsRegion, (device-IsRegion, tt));
      apart = (((λ e. absurd (ground arith)), tt), (tt, tt));
      once = ((λ m. ground arith), ((λ m. m), tt));
      linked = board-linked;
    })
    | no d ↦
        rw (==_ne 0 s (λ h. d (sym h)))
          (record { valid = tt; apart = tt; once = tt; linked = other-linked s d })
  ];
}

find-IsAnswer_example : IsAnswer board 0 0x1010 4 (find board (some 0) 0x1010 4)
find-IsAnswer_example =
    find-IsAnswer board 0 0x1010 4 (ram-IsRegion, (device-IsRegion, tt)) (omega arith) (omega arith)

abbrev reordered : World (Unit {0})
reordered = record board {
  space = update (λ _. zero_space) 0 (record zero_space { regions = 2 ∷ 1 ∷ []; capacity = 8 });
}

find-order_example : find reordered (some 0) 0x1010 4 ≡ find board (some 0) 0x1010 4
find-order_example =
    find-order board reordered 0 0x1010 4 board-IsWell refl (λ q. ground arith) (omega arith)
      (omega arith) (omega arith)

abbrev calls : List Call
calls =
    Call.adds 0 3 true
    ∷ Call.enables 0 2 false
    ∷ Call.removes 0 2
    ∷ Call.translates 1 (some 7) none
    ∷ Call.destroys 0
    ∷ []

run-IsWell_example : IsWell (run board calls)
run-IsWell_example = run-IsWell board calls (omega arith, (tt, (tt, (tt, (tt, tt))))) board-IsWell

remove-succeeds_example :
    ((remove board (some 0) (some 1)).1 ≡ done) ↔ ((board.region 1).address_space ≡ some 0)
remove-succeeds_example = remove-succeeds board 0 1 board-IsWell

abbrev with_spare : World (Unit {0})
with_spare = record board {
  region = update regions 3 (record spare { address_space = some 0 });
  space = update spaces 0 (record zero_space { regions = 1 ∷ 2 ∷ 3 ∷ []; capacity = 8 });
}

remove-add_example :
    (u : World (Unit {0})) × (remove with_spare (some 0) (some 3) ≡ (u, done))
    × ((u.space 0).regions ≡ 1 ∷ 2 ∷ [])
    × ((u.region 3).address_space ≡ none)
unfolding add clashes grow regions_overlap
remove-add_example = remove-add board 0 3 true board-IsWell refl

read_lem_example :
    ((e : Errno) × (read handlers board (some 0) 0x1012 1 ≡ (board, err e)))
    ⊎ ((r f offset : ℕ) × Reaches handlers board 0 0x1012 1 r offset
        × ((board.region r).kind ≡ RegionType.mmio)
        × (read handlers board (some 0) 0x1012 1
            ≡ cut_result 1 (handlers.mmio_read f (board.region r).mmio_opaque offset 1 board)))
read_lem_example = read_lem handlers board 0 0x1012 1 board-IsWell (omega arith)

read_cuts : read handlers board (some 0) 0x1012 1 ≡ (board, ok 2)
unfolding read find find_from beats region_contains mmio_access_size_valid mmio_masked is_mmio
    masked_result read_handler
read_cuts = refl

write_lem_example :
    ((e : Errno) × (write handlers board (some 0) 0x1012 1 0x3ff ≡ (board, err e)))
    ⊎ ((r f offset : ℕ) × Reaches handlers board 0 0x1012 1 r offset
        × ((board.region r).kind ≡ RegionType.mmio)
        × (write handlers board (some 0) 0x1012 1 0x3ff
            ≡ handlers.mmio_write f (board.region r).mmio_opaque offset 1 0xff board))
write_lem_example = write_lem handlers board 0 0x1012 1 0x3ff board-IsWell (omega arith)

abbrev bytes : List ℕ
bytes = 7 ∷ 8 ∷ 9 ∷ []

abbrev stored : World (Unit {0})
stored = record board { memory = copy_in (λ _. 0) 5004 bytes }

stored_lem : buffer_access handlers 1 board 0 0x1004 3 (some bytes) ≡ some (stored, ok [])
unfolding buffer_access ram_access ram_copy find find_from beats region_contains is_ram
stored_lem = refl

read_buffer-write_buffer_example :
    buffer_access handlers 1 stored 0 0x1004 3 none ≡ some (stored, ok bytes)
read_buffer-write_buffer_example =
    read_buffer-write_buffer handlers board 0 0x1004 0 bytes [] stored refl stored_lem

write_buffer_confined_example :
    (r host : ℕ) × Serves board 0 0x1004 3 r
    × ((board.region r).kind ≡ RegionType.ram)
    × ((board.region r).ram_addr ≡ some host)
    × (stored.region ≡ board.region)
    × (stored.space ≡ board.space)
    × (stored.devices ≡ board.devices)
    × ((j : ℕ) → (j < host) ⊎ (host + (board.region r).size ≤ j) → stored.memory j ≡ board.memory j)
write_buffer_confined_example =
    write_buffer_confined handlers board 0 0x1004 0 bytes [] stored board-IsWell (omega arith)
      (omega arith) (λ e. ground arith) refl stored_lem

region_contains_iff_example :
    (region_contains device 0x101c 4 ≡ true)
    ↔ ((device.enabled ≡ true) × (device.base ≤ 0x101c) × (0x101c + 4 ≤ device.base + device.size))
region_contains_iff_example =
    region_contains_iff device 0x101c 4 device-IsRegion (omega arith) (omega arith)

regions_overlap_iff_example :
    (regions_overlap ram device ≡ true) ↔ ((x : ℕ) × Covers ram x × Covers device x)
regions_overlap_iff_example = regions_overlap_iff ram device ram-IsRegion device-IsRegion
