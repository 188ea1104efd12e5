-- ===== src/Iommu/Keeps.antt =====
-- What a translation keeps: where its context leads to, and what page-table accesses and the fault
-- handler keep.
use vart.Common.{
  ℕ, zero, suc, ◌+◌, ◌-◌, ◌*◌, ◌/◌, ◌%◌, ◌^◌, ◌≡◌, refl, sym, subst, inl, inr, Bool, not, Option,
  List, ltb, ◌==◌, Bool-cases, Option-cases, ok, err, length, Errno, Result, Status, Result-cases,
}
use vart.Iommu.Defs.{Mode, Context, Translation, canonical_iova, walks, va_bits, root_bits}
use vart.Iommu.Walk.{
  Downstream, judge, loaded_pte, iommu_read_pte, iommu_write_pte, leaf_finish, walk_step, walk,
  translate_sv39_mode,
}
use vart.Iommu.Cache.{cache_lookup, cache_insert}
use vart.Iommu.Ranges.{translate_locked-at}
use vart.Virtio.Defs.{store_le}
use vart.AddressSpace.Defs.{u64_max}
use vart.Iommu.Level.{Verdict-cases}
use vart.Iommu.Context.{
  FaultHandler, translate_finish, translate_iova, translate_mode, translate_locked, report,
  context_translate,
}

-- Where a context leads to, and whether it walks tables on the way
abbrev pub link : Context → Option ℕ × Mode
link c = (c.downstream, c.mode)

cache_insert-link : (c : Context) (t : Translation) → link (cache_insert c t) ≡ link c
unfolding cache_insert
cache_insert-link c t = elim (Bool-cases (ltb (length c.cache) 64)) [
  | inl room ↦ rw room refl
  | inr full ↦ rw full refl
]

module _ {W : Type 0} (P : W → Type 0) where
  pub loaded_pte-keeps : (r : W × Result (List ℕ)) → P r.0 → P (loaded_pte r).0
  unfolding loaded_pte
  loaded_pte-keeps (w, err e) h = h
  loaded_pte-keeps (w, ok bytes) h = h

  leaf_finish-keeps :
      (left pte iova size : ℕ) (r : W × Status) → P r.0 → P (leaf_finish left pte iova size r).0
  unfolding leaf_finish
  leaf_finish-keeps left pte iova size (w, err e) h = h
  leaf_finish-keeps left pte iova size (w, ok _) h = h

  -- The world has the property, and the context has the link `target`.
  abbrev pub Keeps : Option ℕ × Mode → W × Context × Result ℕ → Type 0
  Keeps target r = P r.0 × (link r.1 ≡ target)

  translate_finish-Keeps :
      (c : Context) (iova : ℕ) (r : W × Result Translation)
      → P r.0
      → Keeps (link c) (translate_finish c iova r)
  unfolding translate_finish
  translate_finish-Keeps c iova (w, err e) h = (h, refl)
  translate_finish-Keeps c iova (w, ok t) h = (h, cache_insert-link c t)

  report-Keeps :
      (on_fault : FaultHandler W)
      → ((f opaque address size : ℕ) (write : Bool) (e : Errno) (w : W)
          → P w
          → P (on_fault f opaque address size write e w))
      → (target : Option ℕ × Mode) (address size : ℕ) (write : Bool) (r : W × Context × Result ℕ)
      → Keeps target r
      → Keeps target (report on_fault address size write r)
  unfolding report
  report-Keeps on_fault handled target address size write (w, c, ok x) h = h
  report-Keeps on_fault handled target address size write (w, c, err e) h =
      elim (Option-cases c.fault_handler) [
        | inl absent ↦ rw absent h
        | inr (f, here) ↦ rw here (handled f c.fault_opaque address size write e w h.0, h.1)
      ]

module _ {W : Type 0} (P : W → Type 0) (m : Downstream W)
    (reads : (space address size : ℕ) (w : W) → P w → P (m.read_buffer space address size w).0)
    (writes : (space address : ℕ) (bytes : List ℕ) (w : W)
      → P w
      → P (m.write_buffer space address bytes w).0) where
  walk_step-keeps :
      (space iova size : ℕ) (write update_ad : Bool) (left address : ℕ)
      (next : ℕ → W → W × Result Translation) (r : W × Result ℕ)
      → ((table : ℕ) (w : W) → P w → P (next table w).0)
      → P r.0
      → P (walk_step m space iova size write update_ad left address next r).0
  unfolding walk_step iommu_write_pte
  walk_step-keeps space iova size write update_ad left address next (w, err e) on h = h
  walk_step-keeps space iova size write update_ad left address next (w, ok pte) on h =
      elim (Verdict-cases (judge write update_ad left pte)) [
        | inl (x, failed) ↦ rw (failed, walk_step) h
        | inr (inl (table, down)) ↦ rw (down, walk_step) (on table w h)
        | inr (inr (inl here)) ↦ rw (here, walk_step) h
        | inr (inr (inr (updated, stored))) ↦
            rw (stored, walk_step)
              (leaf_finish-keeps P left pte iova size _
                (writes space address (store_le 8 updated) w h))
      ]

  walk-keeps :
      (space iova size : ℕ) (write update_ad : Bool) (left bits table : ℕ) (w : W)
      → P w
      → P (walk m space iova size write update_ad left bits table w).0
  unfolding walk iommu_read_pte
  walk-keeps space iova size write update_ad zero bits table w h = h
  walk-keeps space iova size write update_ad (suc left) bits table w h =
      let index = iova / 2 ^ (12 + 9 * left) % 2 ^ bits in
      elim (Bool-cases (ltb (u64_max - index * 8) table)) [
        | inl past ↦ rw past h
        | inr inside ↦ rw inside (
            walk_step-keeps space iova size write update_ad left (table + index * 8)
              (walk m space iova size write update_ad left 9) _
              (walk-keeps space iova size write update_ad left 9)
              (loaded_pte-keeps P _ (reads space (table + index * 8) 8 w h)))
      ]

  translate_sv39_mode-keeps :
      (space : ℕ) (c : Context) (address size : ℕ) (write : Bool) (root va : ℕ) (w : W)
      → P w
      → P (translate_sv39_mode m space c address size write root va w).0
  unfolding translate_sv39_mode
  translate_sv39_mode-keeps space c address size write root va w h =
      elim (Result-cases (canonical_iova address va)) [
        | inr (e, bad) ↦ rw (bad, translate_sv39_mode) h
        | inl (iova, good) ↦
            rw (good, translate_sv39_mode)
              (walk-keeps space iova size write c.update_ad 3 root (c.root_ppn * 2 ^ 12 % 2 ^ 64) w
                h)
      ]

  translate_iova-Keeps :
      (space : ℕ) (c : Context) (iova address size : ℕ) (write : Bool) (w : W)
      → P w
      → Keeps P (link c) (translate_iova m space c iova address size write w)
  unfolding translate_iova
  translate_iova-Keeps space c iova address size write w h =
      elim (Option-cases (cache_lookup c iova size write)) [
        | inr (x, found) ↦ rw (found, translate_iova) (h, refl)
        | inl missing ↦
            rw (missing, translate_iova)
              (translate_finish-Keeps P c iova _ (
                translate_sv39_mode-keeps space c address size write (root_bits c.mode)
                  (va_bits c.mode) w h))
      ]

  translate_mode-Keeps :
      (space : ℕ) (c : Context) (address size : ℕ) (write : Bool) (w : W)
      → P w
      → Keeps P (link c) (translate_mode m space c address size write w)
  unfolding translate_mode
  translate_mode-Keeps space c address size write w h = elim (Bool-cases (walks c.mode)) [
    | inr direct ↦ rw direct (h, refl)
    | inl tables ↦ elim (Bool-cases (not c.root_valid)) [
      | inl rootless ↦ rw (tables, rootless) (h, refl)
      | inr rooted ↦ elim (Result-cases (canonical_iova address (va_bits c.mode))) [
        | inr (e, bad) ↦ rw (tables, rooted, bad) (h, refl)
        | inl (iova, good) ↦
            rw (tables, rooted, good) (translate_iova-Keeps space c iova address size write w h)
      ]
    ]
  ]

  translate_locked-Keeps :
      (c : Context) (address size : ℕ) (write : Bool) (w : W)
      → P w
      → Keeps P (link c) (translate_locked m c address size write w)
  translate_locked-Keeps c address size write w h =
      elim (translate_locked-at m c address size write w) [
        | inl (e, same) ↦ subst (Keeps P (link c)) (sym same) (h, refl)
        | inr (space, same) ↦
            subst (Keeps P (link c)) (sym same)
              (translate_mode-Keeps space c address size write w h)
      ]

  -- A translation keeps its context's link, and a property of the world that page-table
  -- accesses and the fault handler keep.
  pub context_translate-Keeps :
      (on_fault : FaultHandler W)
      → ((f opaque address size : ℕ) (write : Bool) (e : Errno) (w : W)
          → P w
          → P (on_fault f opaque address size write e w))
      → (c : Context) (address size : ℕ) (write : Bool) (w : W) → P w
      → Keeps P (link c) (context_translate m on_fault c address size write w)
  unfolding context_translate
  context_translate-Keeps on_fault handled c address size write w h =
      elim (Bool-cases (size == 0)) [
        | inl nothing ↦ rw nothing (h, refl)
        | inr something ↦ rw something (
            report-Keeps P on_fault handled (link c) address size write _
              (translate_locked-Keeps c address size write w h))
      ]
