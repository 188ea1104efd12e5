-- ===== src/Iommu/Agree.antt =====
-- Two downstream spaces that answer alike give one translation.
use vart.Common.{
  ℕ, zero, suc, ◌+◌, ◌-◌, ◌*◌, ◌/◌, ◌%◌, ◌^◌, ◌≡◌, refl, ap, ◌∙◌, inl, inr, Bool, true, not, Option,
  none, some, List, ltb, ◌==◌, if◌then◌else◌, Bool-cases, ok, err, Errno, Result, Result-cases,
}
use vart.AddressSpace.Defs.{u64_max}
use vart.Virtio.Defs.{store_le}
use vart.Iommu.Defs.{Context, Translation, canonical_iova, walks, faults, va_bits, root_bits}
use vart.Iommu.Walk.{
  Downstream, judge, loaded_pte, iommu_read_pte, iommu_write_pte, leaf_finish, walk_step, walk,
  translate_sv39_mode,
}
use vart.Iommu.Cache.{cache_lookup}
use vart.Iommu.Context.{
  FaultHandler, translate_finish, translate_iova, translate_mode, translate_locked, report,
  context_translate,
}
use vart.Iommu.Level.{Verdict-cases}
use vart.Iommu.Keeps.{loaded_pte-keeps}

-- In worlds with the property, both answer accesses to the space `t` alike.
pub record Agrees {W : Type 0} (P : W → Type 0) (m n : Downstream W) (t : ℕ) : Type 0 where
  pub reads :
      (address size : ℕ) (w : W)
      → P w
      → m.read_buffer t address size w ≡ n.read_buffer t address size w
  pub writes :
      (address : ℕ) (bytes : List ℕ) (w : W)
      → P w
      → m.write_buffer t address bytes w ≡ n.write_buffer t address bytes w

module _ {W : Type 0} (P : W → Type 0) (m n : Downstream W) (t : ℕ) (agrees : Agrees P m n t)
    (keeps : (address size : ℕ) (w : W) → P w → P (m.read_buffer t address size w).0) where
  walk_step-agree :
      (iova size : ℕ) (write update_ad : Bool) (left address : ℕ)
      (on on' : ℕ → W → W × Result Translation) (r : W × Result ℕ)
      → ((table : ℕ) (w : W) → P w → on table w ≡ on' table w)
      → P r.0
      → walk_step m t iova size write update_ad left address on r
        ≡ walk_step n t iova size write update_ad left address on' r
  unfolding walk_step iommu_write_pte
  walk_step-agree iova size write update_ad left address on on' (w, err e) same h = refl
  walk_step-agree iova size write update_ad left address on on' (w, ok pte) same h =
      elim (Verdict-cases (judge write update_ad left pte)) [
        | inl (x, failed) ↦ rw (failed, walk_step) refl
        | inr (inl (table, down)) ↦ rw (down, walk_step) (same table w h)
        | inr (inr (inl here)) ↦ rw (here, walk_step) refl
        | inr (inr (inr (updated, stored))) ↦
            rw (stored, walk_step)
              (ap (leaf_finish left pte iova size) (agrees.writes address (store_le 8 updated) w h))
      ]

  walk-agree :
      (iova size : ℕ) (write update_ad : Bool) (left bits table : ℕ) (w : W)
      → P w
      → walk m t iova size write update_ad left bits table w
        ≡ walk n t iova size write update_ad left bits table w
  unfolding walk iommu_read_pte
  walk-agree iova size write update_ad zero bits table w h = refl
  walk-agree iova size write update_ad (suc left) bits table w h =
      let index = iova / 2 ^ (12 + 9 * left) % 2 ^ bits in
      elim (Bool-cases (ltb (u64_max - index * 8) table)) [
        | inl past ↦ rw past refl
        | inr inside ↦ rw inside (
            walk_step-agree iova size write update_ad left (table + index * 8)
              (walk m t iova size write update_ad left 9)
              (walk n t iova size write update_ad left 9) _
              (walk-agree iova size write update_ad left 9)
              (loaded_pte-keeps P _ (keeps (table + index * 8) 8 w h))
            ∙ ap
                (λ r.
                  walk_step n t iova size write update_ad left (table + index * 8)
                    (walk n t iova size write update_ad left 9) (loaded_pte r))
                (agrees.reads (table + index * 8) 8 w h))
      ]

  translate_sv39_mode-agree :
      (c : Context) (address size : ℕ) (write : Bool) (root va : ℕ) (w : W)
      → P w
      → translate_sv39_mode m t c address size write root va w
        ≡ translate_sv39_mode n t c address size write root va w
  unfolding translate_sv39_mode
  translate_sv39_mode-agree c address size write root va w h =
      elim (Result-cases (canonical_iova address va)) [
        | inr (e, bad) ↦ rw (bad, translate_sv39_mode) refl
        | inl (iova, good) ↦
            rw (good, translate_sv39_mode)
              (walk-agree iova size write c.update_ad 3 root (c.root_ppn * 2 ^ 12 % 2 ^ 64) w h)
      ]

  translate_iova-agree :
      (c : Context) (iova address size : ℕ) (write : Bool) (w : W)
      → P w
      → translate_iova m t c iova address size write w
        ≡ translate_iova n t c iova address size write w
  unfolding translate_iova
  translate_iova-agree c iova address size write w h =
      ap
        (λ r. elim (cache_lookup c iova size write) as (λ _. W × Context × Result ℕ) [
          | some translated ↦ (w, c, ok translated)
          | none ↦ translate_finish c iova r
        ])
        (translate_sv39_mode-agree c address size write (root_bits c.mode) (va_bits c.mode) w h)

module _ {W : Type 0} (P : W → Type 0) (m n : Downstream W) (on_fault : FaultHandler W)
    (c : Context) (agrees : (t : ℕ) → c.downstream ≡ some t → walks c.mode ≡ true → Agrees P m n t)
    (keeps : (t address size : ℕ) (w : W) → P w → P (m.read_buffer t address size w).0) where
  translate_mode-agree :
      (t address size : ℕ) (write : Bool) (w : W)
      → c.downstream ≡ some t
      → P w
      → translate_mode m t c address size write w ≡ translate_mode n t c address size write w
  unfolding translate_mode
  translate_mode-agree t address size write w leads h = elim (Bool-cases (walks c.mode)) [
    | inr direct ↦ rw direct refl
    | inl tables ↦ elim (Result-cases (canonical_iova address (va_bits c.mode))) [
      | inr (e, bad) ↦ rw (tables, bad) refl
      | inl (iova, good) ↦
          rw (tables, good)
            (ap (λ r. if not c.root_valid then (w, c, err Errno.enodev) else r)
              (translate_iova-agree P m n t (agrees t leads tables) (keeps t) c iova address size
                write w h))
    ]
  ]

  -- A translation is the same over both, if they agree on the space that the tables are read from.
  pub context_translate-agree :
      (address size : ℕ) (write : Bool) (w : W)
      → P w
      → context_translate m on_fault c address size write w
        ≡ context_translate n on_fault c address size write w
  unfolding context_translate translate_locked
  context_translate-agree address size write w h =
      ap
        (λ r.
          if size == 0
          then (w, c, err Errno.einval)
          else report on_fault address size write
              (if faults c.mode then (w, c, err Errno.eacces) else r))
        (leads_to c.downstream refl)
    where
      leads_to :
          (target : Option ℕ)
          → c.downstream ≡ target
          → (elim target as (λ _. W × Context × Result ℕ) [
            | none ↦ (w, c, err Errno.enodev)
            | some space ↦ translate_mode m space c address size write w
          ])
            ≡ (elim target as (λ _. W × Context × Result ℕ) [
              | none ↦ (w, c, err Errno.enodev)
              | some space ↦ translate_mode n space c address size write w
            ])
      leads_to none leads = refl
      leads_to (some t) leads = translate_mode-agree t address size write w leads h
