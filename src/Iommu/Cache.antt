-- ===== src/Iommu/Cache.antt =====
-- The translation cache of a context.
use vart.Common.{
  ℕ, ◌+◌, ◌-◌, ◌%◌, ◌^◌, Bool, true, not, ◌&&◌, ◌||◌, Option, none, some, List, [], ◌∷◌, ◌++◌, ltb,
  ◌==◌, if◌then◌else◌, length, set,
}
use vart.AddressSpace.Defs.{u64_max, sub64, add64}
use vart.Iommu.Defs.{CacheEntry, Translation, Context, cache_entries, pte_read, pte_write}

-- The test of `iommu_cache_lookup` that lets the loop pass an entry over, negated
unfoldable pub serves : CacheEntry → ℕ → ℕ → Bool → Bool
serves e address size write = not (
    not e.valid
    || ltb address e.iova_base
    || ltb (u64_max - sub64 size 1) address
    || ltb (add64 e.iova_base e.size) (add64 address size)
    || not (pte_read e.permissions)
    || (write && not (pte_write e.permissions)))

-- The rest of that loop's body
unfoldable pub hit : CacheEntry → ℕ → ℕ → Option ℕ
hit e address size =
    if ltb (u64_max - (address - e.iova_base)) e.translated_base
    then none
    else let translated = e.translated_base + (address - e.iova_base) in
      if ltb (u64_max - sub64 size 1) translated then none else some translated

unfoldable pub lookup_from : List CacheEntry → ℕ → ℕ → Bool → Option ℕ
lookup_from [] address size write = none
lookup_from (e ∷ es) address size write =
    let rest = lookup_from es address size write in
    if serves e address size write then hit e address size else rest

-- `iommu_cache_lookup`: the translated address, if it returns true
unfoldable pub cache_lookup : Context → ℕ → ℕ → Bool → Option ℕ
cache_lookup context address size write =
    if context.update_ad then none else lookup_from context.cache address size write

-- `iommu_cache_flush`
unfoldable pub cache_flush : Context → Context
cache_flush context = record context { cache = []; cache_next = 0 }

unfoldable pub new_entry : Translation → CacheEntry
new_entry t = record {
  iova_base = t.iova_base;
  translated_base = t.translated_base;
  size = t.size;
  permissions = t.permissions;
  valid = true;
}

-- `iommu_cache_insert`
unfoldable pub cache_insert : Context → Translation → Context
cache_insert context t =
    if ltb (length context.cache) cache_entries
    then record context { cache = context.cache ++ new_entry t ∷ [] }
    else record context {
      cache = set context.cache (context.cache_next % cache_entries) (new_entry t);
      cache_next = (context.cache_next + 1) % 2 ^ 64;
    }

-- `iommu_cache_ranges_overlap`
unfoldable pub cache_ranges_overlap : CacheEntry → ℕ → ℕ → Bool
cache_ranges_overlap e address size =
    ltb address (add64 e.iova_base e.size) && ltb e.iova_base (add64 address size)

-- The loop of `iommu_cache_invalidate`, over the entries that are left; `memmove` closes the gaps.
unfoldable pub drop_overlapping : List CacheEntry → ℕ → ℕ → List CacheEntry
drop_overlapping [] address size = []
drop_overlapping (e ∷ es) address size =
    let rest = drop_overlapping es address size in
    if cache_ranges_overlap e address size then rest else e ∷ rest

-- `iommu_cache_invalidate`
unfoldable pub cache_invalidate : Context → ℕ → ℕ → Context
cache_invalidate context address size =
    let left = drop_overlapping context.cache address size in
    record context {
      cache = left;
      cache_next = if length left == 0 then 0 else context.cache_next % length left;
    }
