-- ===== src/AddressSpace/Defs.antt =====
-- The data of address-space.h: regions, address spaces, and the world that holds them.
-- An object is named by its address, a number; a pointer is an option, `none` for NULL. A function
-- pointer is a number too: what it does is a parameter of the functions that call it.
use vart.Common.{
  ℕ, ◌+◌, ◌-◌, ◌%◌, ◌^◌, Bool, false, not, ◌&&◌, ◌||◌, Option, none, List, [], ltb, leb,
  if◌then◌else◌, pos, ℤ, Result,
}

-- `VartAddressRegionType`
pub data RegionType : Type 0 where
  ram rom mmio alias : RegionType

-- `VartMmioOps`
pub record MmioOps : Type 0 where
  pub read : Option ℕ
  pub write : Option ℕ

-- `VartAddressRegion`
pub record Region : Type 0 where
  pub base : ℕ
  pub size : ℕ
  pub priority : ℤ
  pub kind : RegionType
  pub enabled : Bool
  pub owner : Option ℕ
  pub address_space : Option ℕ
  pub mmio_ops : Option MmioOps
  pub mmio_opaque : ℕ
  pub ram_addr : Option ℕ

-- `VartAddressSpace`: `regions` holds the first `count` entries of the array.
pub record AddressSpace : Type 0 where
  pub regions : List ℕ
  pub capacity : ℕ
  pub translate : Option ℕ
  pub translate_opaque : Option ℕ

-- The objects in memory, the host memory that RAM regions map, and the devices' own state.
pub record World (D : Type 0) : Type 0 where
  pub region : ℕ → Region
  pub space : ℕ → AddressSpace
  pub memory : ℕ → ℕ
  pub devices : D

-- What the function pointers do: each takes the pointer, its opaque value, the call's arguments
-- and the world.
pub record Callbacks (D : Type 0) : Type 0 where
  pub mmio_read : ℕ → ℕ → ℕ → ℕ → World D → World D × Result ℕ
  pub mmio_write : ℕ → ℕ → ℕ → ℕ → ℕ → World D → World D × Result (Unit {0})
  pub translator : ℕ → Option ℕ → ℕ → ℕ → Bool → World D → World D × Result (Option ℕ × ℕ)

-- `UINT64_MAX + 1`, and `UINT64_MAX`
abbrev pub u64_mod : ℕ
u64_mod = 2 ^ 64

abbrev pub u64_max : ℕ
u64_max = 2 ^ 64 - 1

-- `memset(region, 0, sizeof(*region))`
abbrev pub zero_region : Region
zero_region = record {
  base = 0;
  size = 0;
  priority = pos 0;
  kind = RegionType.ram;
  enabled = false;
  owner = none;
  address_space = none;
  mmio_ops = none;
  mmio_opaque = 0;
  ram_addr = none;
}

-- `memset(address_space, 0, sizeof(*address_space))`
abbrev pub zero_space : AddressSpace
zero_space = record { regions = []; capacity = 0; translate = none; translate_opaque = none }

-- `UINT64_MAX - x` and `x - y` on uint64_t, with their wrap
abbrev pub sub64 : ℕ → ℕ → ℕ
sub64 a b = (a + u64_mod - b) % u64_mod

abbrev pub add64 : ℕ → ℕ → ℕ
add64 a b = (a + b) % u64_mod

-- `vart_address_region_contains`, on a region that is there
unfoldable pub region_contains : Region → ℕ → ℕ → Bool
region_contains r address size =
    if not r.enabled || ltb address r.base
    then false
    else let offset = sub64 address r.base in
      if ltb r.size offset then false else leb size (sub64 r.size offset)

-- `address_regions_overlap`
unfoldable pub regions_overlap : Region → Region → Bool
regions_overlap a b =
    let a_last = sub64 (add64 a.base a.size) 1 in
    let b_last = sub64 (add64 b.base b.size) 1 in leb a.base b_last && leb b.base a_last
