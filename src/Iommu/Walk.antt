-- ===== src/Iommu/Walk.antt =====
-- The walk of a page table: `iommu_translate_sv39_mode`.
use vart.Common.{
  ℕ, zero, suc, ◌+◌, ◌-◌, ◌*◌, ◌/◌, ◌%◌, ◌^◌, Bool, not, ◌&&◌, ◌||◌, Option, none, some, List, ltb,
  ◌==◌, if◌then◌else◌, ok, err, Errno, Result, Status,
}
use vart.AddressSpace.Defs.{u64_max, sub64, add64}
use vart.Virtio.Defs.{load_le64, store_le}
use vart.Iommu.Defs.{
  Translation, Context, pte_valid, pte_read, pte_write, pte_user, pte_accessed, pte_dirty,
  pte_reserved, pte_permissions, pte_ppn, set_bit, canonical_iova,
}

-- The downstream address space, as the context uses it: `vart_address_space_read_buffer` and
-- `vart_address_space_write_buffer`, by space, address, and size or bytes.
pub record Downstream (W : Type 0) : Type 0 where
  pub read_buffer : ℕ → ℕ → ℕ → W → W × Result (List ℕ)
  pub write_buffer : ℕ → ℕ → List ℕ → W → W × Status

module _ {W : Type 0} where
  -- The end of `iommu_read_pte`
  unfoldable pub loaded_pte : W × Result (List ℕ) → W × Result ℕ
  loaded_pte (w, err e) = (w, err e)
  loaded_pte (w, ok bytes) = (w, ok (load_le64 bytes 0))

module _ {W : Type 0} (m : Downstream W) (space : ℕ) where
  -- `iommu_read_pte`
  unfoldable pub iommu_read_pte : ℕ → W → W × Result ℕ
  iommu_read_pte address w = loaded_pte (m.read_buffer space address 8 w)

  -- `iommu_write_pte`
  unfoldable pub iommu_write_pte : ℕ → ℕ → W → W × Status
  iommu_write_pte address pte w = m.write_buffer space address (store_le 8 pte) w

-- What a page-table entry means for an access: a failure, the next table, or a leaf, with the entry to
-- store first where the A or D bit has to be set.
pub data Verdict : Type 0 where
  fails : Errno → Verdict
  descends : ℕ → Verdict
  leaf : Option ℕ → Verdict

-- `permissions == W`, `W | X`, no U, or the permission that the access needs is missing
unfoldable pub denied : ℕ → Bool → Bool
denied pte write =
    (not (pte_read pte) && pte_write pte)
    || not (pte_user pte)
    || (if write then not (pte_write pte) else not (pte_read pte))

unfoldable pub needs_update : ℕ → Bool → Bool
needs_update pte write = not (pte_accessed pte) || (write && not (pte_dirty pte))

unfoldable pub with_updates : ℕ → Bool → ℕ
with_updates pte write =
    let accessed = set_bit pte 6 in if write then set_bit accessed 7 else accessed

-- One level of the loop after the entry is read, `left` levels below this one
unfoldable pub judge : Bool → Bool → ℕ → ℕ → Verdict
judge write update_ad left pte =
    if not (pte_valid pte) || pte_reserved pte
    then fails Errno.efault
    else if pte_permissions pte == 0
    then (if left == 0 || ltb (u64_max / 2 ^ 12) (pte_ppn pte)
        then fails Errno.efault
        else descends (pte_ppn pte * 2 ^ 12))
    else if denied pte write
    then fails Errno.eacces
    else if needs_update pte write
    then (if update_ad then leaf (some (with_updates pte write)) else fails Errno.efault)
    else leaf none

-- The rest of the loop's body at a leaf, `left` levels below it
unfoldable pub leaf_translation : ℕ → ℕ → ℕ → ℕ → Result Translation
leaf_translation left pte iova size =
    let page = 2 ^ (12 + 9 * left) in
    let offset = iova % page in
    if ltb (u64_max / 2 ^ 12) (pte_ppn pte) || not (pte_ppn pte % 2 ^ (9 * left) == 0)
    then err Errno.efault
    else if ltb (u64_max - sub64 size 1) offset || ltb page (add64 offset size)
    then err Errno.erange
    else if ltb (u64_max - offset) (pte_ppn pte * 2 ^ 12)
    then err Errno.efault
    else ok (record {
      iova_base = iova - offset;
      translated_base = pte_ppn pte * 2 ^ 12;
      size = page;
      permissions = pte_permissions pte;
    })

module _ {W : Type 0} where
  unfoldable pub leaf_finish : ℕ → ℕ → ℕ → ℕ → W × Status → W × Result Translation
  leaf_finish left pte iova size (w, err e) = (w, err e)
  leaf_finish left pte iova size (w, ok _) = (w, leaf_translation left pte iova size)

module _ {W : Type 0} (m : Downstream W) (space : ℕ) (iova size : ℕ) (write update_ad : Bool) where
  -- A level after the entry at `address` is read; `next` goes on at the next table.
  unfoldable pub walk_step :
      ℕ → ℕ → (ℕ → W → W × Result Translation) → W × Result ℕ → W × Result Translation
  walk_step left address next (w, err e) = (w, err e)
  walk_step left address next (w, ok pte) = elim (judge write update_ad left pte) [
    | fails e ↦ (w, err e)
    | descends table ↦ next table w
    | leaf none ↦ (w, leaf_translation left pte iova size)
    | leaf (some updated) ↦
        leaf_finish left pte iova size (iommu_write_pte m space address updated w)
  ]

  -- The loop, with the levels that are left, and the width of the first one's index
  unfoldable pub walk : ℕ → ℕ → ℕ → W → W × Result Translation
  walk zero bits table w = (w, err Errno.efault)
  walk (suc left) bits table w =
      let index = iova / 2 ^ (12 + 9 * left) % 2 ^ bits in
      if ltb (u64_max - index * 8) table
      then (w, err Errno.efault)
      else walk_step left (table + index * 8) (walk left 9)
          (iommu_read_pte m space (table + index * 8) w)

module _ {W : Type 0} (m : Downstream W) where
  -- `iommu_translate_sv39_mode`, at the root of a context
  unfoldable pub translate_sv39_mode :
      ℕ → Context → ℕ → ℕ → Bool → ℕ → ℕ → W → W × Result Translation
  translate_sv39_mode space context address size write root_bits va_bits w =
      elim (canonical_iova address va_bits) [
        | err e ↦ (w, err e)
        | ok iova ↦
            walk m space iova size write context.update_ad 3 root_bits
              (context.root_ppn * 2 ^ 12 % 2 ^ 64) w
      ]
