-- ===== src/AddressSpace/Access.antt =====
-- The functions of address-space.c that look a region up and access it.
use vart.Common.{
  ℕ, zero, suc, ◌+◌, ◌*◌, ◌%◌, ◌^◌, Bool, true, false, not, ◌&&◌, ◌||◌, Option, none, some, List,
  [], ◌∷◌, ◌==◌, if◌then◌else◌, is_null, ok, err, ltb_ℤ, Errno, Result, Status,
}
use vart.AddressSpace.Defs.{RegionType, Region, World, Callbacks, sub64, region_contains}

-- `best == NULL || region->priority > best->priority`
unfoldable pub beats : (ℕ → Region) → Option ℕ → Region → Bool
beats regions none r = true
beats regions (some b) r = ltb_ℤ (regions b).priority r.priority

-- The loop of `vart_address_space_find`, over the regions that are left.
unfoldable pub find_from : (ℕ → Region) → ℕ → ℕ → Option ℕ → List ℕ → Option ℕ
find_from regions address size best [] = best
find_from regions address size best (r ∷ rs) =
    find_from regions address size
      (if region_contains (regions r) address size && beats regions best (regions r)
        then some r
        else best)
      rs

-- `mmio_access_size_valid`
unfoldable pub mmio_access_size_valid : ℕ → Bool
mmio_access_size_valid size = size == 1 || size == 2 || size == 4 || size == 8

-- `value & mmio_value_mask(size)`: the mask has the low `size * 8` bits set, all 64 at size 8.
unfoldable pub mmio_masked : ℕ → ℕ → ℕ
mmio_masked size value = if size == 8 then value % 2 ^ 64 else value % 2 ^ (size * 8)

-- `memcpy` out of and into the host memory.
unfoldable pub copy_out : (ℕ → ℕ) → ℕ → ℕ → List ℕ
copy_out memory at zero = []
copy_out memory at (suc n) = memory at ∷ copy_out memory (at + 1) n

unfoldable pub copy_in : (ℕ → ℕ) → ℕ → List ℕ → ℕ → ℕ
copy_in memory at [] j = memory j
copy_in memory at (b ∷ bs) j = if j == at then b else copy_in memory (at + 1) bs j

-- `region->mmio_ops == NULL || region->mmio_ops->read == NULL`, and likewise for `write`
unfoldable pub read_handler : Region → Option ℕ
read_handler r = elim r.mmio_ops [ none ↦ none | some ops ↦ ops.read ]

unfoldable pub write_handler : Region → Option ℕ
write_handler r = elim r.mmio_ops [ none ↦ none | some ops ↦ ops.write ]

unfoldable pub is_mmio : RegionType → Bool
is_mmio RegionType.mmio = true
is_mmio _ = false

unfoldable pub is_ram : RegionType → Bool
is_ram RegionType.ram = true
is_ram _ = false

module _ {D : Type 0} where
  -- `vart_address_space_find`
  unfoldable pub find : World D → Option ℕ → ℕ → ℕ → Option ℕ
  find w none address size = none
  find w (some s) address size = find_from w.region address size none (w.space s).regions

  -- `if (ret < 0) return ret; *value &= mmio_value_mask(size);`
  unfoldable pub masked_result : ℕ → World D × Result ℕ → World D × Result ℕ
  masked_result size (v, err e) = (v, err e)
  masked_result size (v, ok value) = (v, ok (mmio_masked size value))

  -- The two `memcpy` calls of `address_space_buffer_access`. What is stored is given (`some bytes`)
  -- for a write; a read returns the bytes.
  unfoldable pub ram_copy : World D → ℕ → ℕ → Option (List ℕ) → World D × Result (List ℕ)
  ram_copy w at size (some bytes) = (record w { memory = copy_in w.memory at bytes }, ok [])
  ram_copy w at size none = (w, ok (copy_out w.memory at size))

  -- The end of `address_space_buffer_access`, at a space with no translator.
  unfoldable pub ram_access : World D → ℕ → ℕ → ℕ → Option (List ℕ) → World D × Result (List ℕ)
  ram_access w s address size stored = elim (find w (some s) address size) [
    | none ↦ (w, err Errno.enoent)
    | some r ↦
        if not (is_ram (w.region r).kind)
        then (w, err Errno.eacces)
        else elim (w.region r).ram_addr [
          | none ↦ (w, err Errno.eacces)
          | some host ↦ ram_copy w (host + sub64 address (w.region r).base) size stored
        ]
  ]

  -- What follows the translator's call: a failure is passed on, NULL and the space itself are
  -- refused, and else the access goes on at the target by `next`.
  unfoldable pub follow :
      ℕ
      → (World D → ℕ → ℕ → Option (World D × Result (List ℕ)))
      → World D × Result (Option ℕ × ℕ)
      → Option (World D × Result (List ℕ))
  follow s next (v, err e) = some (v, err e)
  follow s next (v, ok (none, translated)) = some (v, err Errno.einval)
  follow s next (v, ok (some t, translated)) =
      if t == s then some (v, err Errno.einval) else next v t translated

module _ {D : Type 0} (c : Callbacks D) where
  -- `vart_address_space_read`; the value is the result.
  unfoldable pub read : World D → Option ℕ → ℕ → ℕ → World D × Result ℕ
  read w space address size =
      if not (mmio_access_size_valid size)
      then (w, err Errno.einval)
      else elim (find w space address size) [
        | none ↦ (w, err Errno.enoent)
        | some r ↦
            if not (is_mmio (w.region r).kind)
            then (w, err Errno.eacces)
            else elim (read_handler (w.region r)) [
              | none ↦ (w, err Errno.enosys)
              | some f ↦
                  masked_result size (
                    c.mmio_read f (w.region r).mmio_opaque (sub64 address (w.region r).base) size w)
            ]
      ]

  -- `vart_address_space_write`
  unfoldable pub write : World D → Option ℕ → ℕ → ℕ → ℕ → World D × Status
  write w space address size value =
      if not (mmio_access_size_valid size)
      then (w, err Errno.einval)
      else elim (find w space address size) [
        | none ↦ (w, err Errno.enoent)
        | some r ↦
            if not (is_mmio (w.region r).kind)
            then (w, err Errno.eacces)
            else elim (write_handler (w.region r)) [
              | none ↦ (w, err Errno.enosys)
              | some f ↦
                  c.mmio_write f (w.region r).mmio_opaque (sub64 address (w.region r).base) size
                    (mmio_masked size value) w
            ]
      ]

  -- `address_space_buffer_access` on a buffer of `size` bytes that is not NULL. A chain of
  -- translators takes one unit of fuel a link; `none` says that the fuel ran out.
  unfoldable pub buffer_access :
      ℕ → World D → ℕ → ℕ → ℕ → Option (List ℕ) → Option (World D × Result (List ℕ))
  buffer_access zero w s address size stored = none
  buffer_access (suc fuel) w s address size stored =
      if size == 0 then some (w, ok []) else elim (w.space s).translate [
        | none ↦ some (ram_access w s address size stored)
        | some f ↦
            follow s (λ v t translated. buffer_access fuel v t translated size stored)
              (c.translator f (w.space s).translate_opaque address size (not (is_null stored)) w)
      ]
