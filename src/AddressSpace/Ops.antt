-- ===== src/AddressSpace/Ops.antt =====
-- The functions of address-space.c that set up regions and change address spaces.
use vart.Common.{
  ℕ, ◌*◌, ◌/◌, ◌%◌, Bool, true, false, not, ◌&&◌, ◌||◌, Option, none, some, List, [], ◌∷◌, ◌++◌,
  ltb, ◌==◌, if◌then◌else◌, is_null, ok, err, length, ℤ, eqb_ℤ, Errno, Result, Status, done, update,
  remove_first,
}
use vart.AddressSpace.Defs.{
  RegionType, MmioOps, Region, AddressSpace, World, u64_mod, u64_max, zero_region, zero_space,
  sub64, regions_overlap,
}

-- Equality of pointers.
abbrev pub same_pointer : Option ℕ → Option ℕ → Bool
same_pointer none none = true
same_pointer none (some j) = false
same_pointer (some i) none = false
same_pointer (some i) (some j) = i == j

-- Is there an equal-priority overlap of `region` with a region of the list?
unfoldable pub clashes : (ℕ → Region) → Region → List ℕ → Bool
clashes regions region [] = false
clashes regions region (q ∷ qs) =
    (eqb_ℤ region.priority (regions q).priority && regions_overlap region (regions q))
    || clashes regions region qs

-- The loop of `vart_address_space_destroy`.
unfoldable pub unlink_all : (ℕ → Region) → List ℕ → ℕ → Region
unlink_all regions [] = regions
unlink_all regions (r ∷ rs) =
    unlink_all (update regions r (record (regions r) { address_space = none })) rs

-- The array's next capacity, or the error of growing it; `allocated` says whether `realloc`
-- succeeds. A `size_t` and a pointer are 8 bytes.
unfoldable pub grow : ℕ → ℕ → Bool → ℕ → Result ℕ
grow count capacity allocated initial =
    if count == capacity
    then enlarge (if capacity == 0 then initial else capacity * 2 % u64_mod)
    else ok capacity
  where
    enlarge : ℕ → Result ℕ
    enlarge bigger =
        if ltb bigger capacity || ltb (u64_max / 8) bigger
        then err Errno.eoverflow
        else if allocated
        then ok bigger
        else err Errno.enomem

module _ {D : Type 0} where
  abbrev pub set_region : World D → ℕ → Region → World D
  set_region w r v = record w { region = update w.region r v }

  abbrev pub set_space : World D → ℕ → AddressSpace → World D
  set_space w s v = record w { space = update w.space s v }

  -- `vart_address_region_init`; the type is `none` if it is above `VART_REGION_ALIAS`.
  unfoldable pub region_init :
      World D → Option ℕ → Option RegionType → ℕ → ℕ → ℤ → Option ℕ → World D × Status
  region_init w none kind base size priority owner = (w, err Errno.einval)
  region_init w (some r) none base size priority owner = (w, err Errno.einval)
  region_init w (some r) (some kind) base size priority owner =
      if size == 0 || ltb (sub64 u64_max (sub64 size 1)) base then (w, err Errno.einval) else (
        set_region w r (record zero_region {
          base = base;
          size = size;
          priority = priority;
          kind = kind;
          enabled = true;
          owner = owner;
        }),
        done,
      )

  -- `vart_address_region_init_mmio`
  unfoldable pub region_init_mmio :
      World D → Option ℕ → ℕ → ℕ → ℤ → Option ℕ → Option MmioOps → ℕ → World D × Status
  region_init_mmio w region base size priority owner none opaque = (w, err Errno.einval)
  region_init_mmio w none base size priority owner (some ops) opaque = (w, err Errno.einval)
  region_init_mmio w (some r) base size priority owner (some ops) opaque =
      if is_null ops.read && is_null ops.write
      then (w, err Errno.einval)
      else let (v, ret) = region_init w (some r) (some RegionType.mmio) base size priority owner in
        elim ret [
          | err e ↦ (v, err e)
          | ok _ ↦ (
            set_region v r (record (v.region r) { mmio_ops = some ops; mmio_opaque = opaque }),
            done,
          )
        ]

  -- `vart_address_region_init_ram`
  unfoldable pub region_init_ram :
      World D → Option ℕ → ℕ → ℕ → ℤ → Option ℕ → Option ℕ → World D × Status
  region_init_ram w region base size priority owner none = (w, err Errno.einval)
  region_init_ram w none base size priority owner (some host) = (w, err Errno.einval)
  region_init_ram w (some r) base size priority owner (some host) =
      let (v, ret) = region_init w (some r) (some RegionType.ram) base size priority owner in
      elim ret [
        | err e ↦ (v, err e)
        | ok _ ↦ (set_region v r (record (v.region r) { ram_addr = some host }), done)
      ]

  -- `vart_address_region_set_enabled`
  unfoldable pub region_set_enabled : World D → Option ℕ → Bool → World D × Status
  region_set_enabled w none enabled = (w, err Errno.ebusy)
  region_set_enabled w (some r) enabled =
      if is_null (w.region r).address_space
      then (set_region w r (record (w.region r) { enabled = enabled }), done)
      else (w, err Errno.ebusy)

  -- `vart_address_space_init`
  unfoldable pub space_init : World D → ℕ → World D
  space_init w s = set_space w s zero_space

  -- `vart_address_space_destroy`
  unfoldable pub space_destroy : World D → ℕ → World D
  space_destroy w s = record w {
    region = unlink_all w.region (w.space s).regions;
    space = update w.space s zero_space;
  }

  -- `vart_address_space_set_translator`
  unfoldable pub set_translator : World D → Option ℕ → Option ℕ → Option ℕ → World D × Status
  set_translator w none translate opaque = (w, err Errno.einval)
  set_translator w (some s) translate opaque =
      if is_null translate && not (is_null opaque)
      then (w, err Errno.einval)
      else if not (length (w.space s).regions == 0) || not (is_null (w.space s).translate)
      then (w, err Errno.ebusy)
      else (
        set_space w s (record (w.space s) { translate = translate; translate_opaque = opaque }),
        done,
      )

  -- `vart_address_space_add`
  unfoldable pub add : World D → Option ℕ → Option ℕ → Bool → World D × Status
  add w none region allocated = (w, err Errno.einval)
  add w (some s) none allocated = (w, err Errno.einval)
  add w (some s) (some r) allocated =
      if not (is_null (w.region r).address_space)
      then (w, err Errno.ealready)
      else if clashes w.region (w.region r) (w.space s).regions
      then (w, err Errno.eexist)
      else elim (grow (length (w.space s).regions) (w.space s).capacity allocated 8) [
        | err e ↦ (w, err e)
        | ok capacity ↦ (
          record w {
            region = update w.region r (record (w.region r) { address_space = some s });
            space = update w.space s (record (w.space s) {
              regions = (w.space s).regions ++ r ∷ [];
              capacity = capacity;
            });
          },
          done,
        )
      ]

  -- `vart_address_space_remove`
  unfoldable pub remove : World D → Option ℕ → Option ℕ → World D × Status
  remove w none region = (w, err Errno.enoent)
  remove w (some s) none = (w, err Errno.enoent)
  remove w (some s) (some r) =
      if same_pointer (w.region r).address_space (some s)
      then elim (remove_first r (w.space s).regions) [
        | none ↦ (w, err Errno.enoent)
        | some rest ↦ (
          record w {
            region = update w.region r (record (w.region r) { address_space = none });
            space = update w.space s (record (w.space s) { regions = rest });
          },
          done,
        )
      ]
      else (w, err Errno.enoent)

  -- `vart_address_space_set_enabled`
  unfoldable pub set_enabled : World D → Option ℕ → Option ℕ → Bool → World D × Status
  set_enabled w none region enabled = (w, err Errno.enoent)
  set_enabled w (some s) none enabled = (w, err Errno.enoent)
  set_enabled w (some s) (some r) enabled =
      if same_pointer (w.region r).address_space (some s)
      then (set_region w r (record (w.region r) { enabled = enabled }), done)
      else (w, err Errno.enoent)
