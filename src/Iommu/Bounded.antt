-- ===== src/Iommu/Bounded.antt =====
-- Every call on a context keeps the cache within its array, and its entries within the translated
-- addresses.
use vart.Common.{
  ℕ, ◌-◌, ◌/◌, ◌%◌, ◌^◌, ◌≡◌, refl, sym, subst, inl, inr, Bool, true, false, not, ◌&&◌, ◌||◌,
  Option, none, some, List, [], ◌∷◌, arith, ltb, leb, ◌==◌, Bool-cases, is_null, ok, err, Result,
  Status, Result-cases,
}
use vart.Iommu.Defs.{Mode, Context, canonical_iova, walks, va_bits}
use vart.Iommu.Walk.{Downstream}
use vart.Iommu.Cache.{cache_invalidate}
use vart.Iommu.Context.{
  zero_context, init_finish, context_init, context_destroy, FaultHandler, translate_locked, report,
  context_translate, set_mode, set_sv39_mode, set_sv39, set_sv39x4, next_generation,
  invalidate_iova, invalidate, set_fault_handler,
}
use vart.AddressSpace.Defs.{World, u64_max}
use vart.AddressSpace.Ops.{space_init, space_destroy, set_translator}
use vart.Iommu.Attach.{PciDevice, attach_finish, context_attach, context_detach, same_device}
use vart.Iommu.Ranges.{
  drop_overlapping-All, IsContext, cache_flush-IsContext, translate_locked-IsContext,
}

report-context :
    {W : Type 0} (on_fault : FaultHandler W) (address size : ℕ) (write : Bool)
    (r : W × Context × Result ℕ)
    → (report on_fault address size write r).1 ≡ r.1
unfolding report
report-context on_fault address size write (w, c, ok x) = refl
report-context on_fault address size write (w, c, err e) = ground arith

-- The calls that change a context, which is all of iommu.c that does
pub data Call : Type 0 where
  translates : ℕ → ℕ → Bool → Call
  sets_mode : Option Mode → Call
  roots : ℕ → Bool → Bool → Call
  invalidates : ℕ → ℕ → Call
  handles : Option ℕ → ℕ → Call
  inits : Option ℕ → Option Mode → Status → ℕ → ℕ → Call
  destroys : Call
  attaches : ℕ → Call
  detaches : ℕ → Call

-- Address spaces and PCI devices, on which a context works
abbrev pub State : Type 0 → Type 0
State D = World D × (ℕ → PciDevice)

module _ {D : Type 0} (m : Downstream (State D)) (on_fault : FaultHandler (State D)) where
  -- `roots` is `vart_iommu_context_set_sv39x4` if its last argument is true, and else `_set_sv39`.
  unfoldable pub step : Call → Context → State D → State D × Context
  step (translates address size write) c w =
      let r = context_translate m on_fault c address size write w in (r.0, r.1)
  step (sets_mode mode) c w = (w, (set_mode c mode).0)
  step (roots root_ppn update_ad true) c w = (w, (set_sv39x4 c root_ppn update_ad).0)
  step (roots root_ppn update_ad false) c w = (w, (set_sv39 c root_ppn update_ad).0)
  step (invalidates address size) c w = (w, (invalidate c address size).0)
  step (handles handler opaque) c w = (w, (set_fault_handler c handler opaque).0)
  step (inits downstream mode lock translator self) c (w, devices) =
      let r = context_init w c downstream mode lock translator self in ((r.0, devices), r.1)
  step destroys c (w, devices) = let r = context_destroy w c in ((r.0, devices), r.1)
  step (attaches d) c (w, devices) = let r = context_attach devices c d in ((w, r.0), r.1)
  step (detaches d) c (w, devices) = let r = context_detach devices c d in ((w, r.0), r.1)

  unfoldable pub run : List Call → Context → State D → State D × Context
  run [] c w = (w, c)
  run (call ∷ calls) c w = run calls (step call c w).1 (step call c w).0

set_mode-IsContext :
    (c : Context) (mode : Option Mode) → IsContext c → IsContext (set_mode c mode).0
unfolding set_mode
set_mode-IsContext c none v = v
set_mode-IsContext c (some mode) v =
    elim (Bool-cases (is_null c.downstream || (walks mode && not c.root_valid))) [
      | inl bad ↦ rw bad v
      | inr good ↦ rw good (cache_flush-IsContext _)
    ]

set_sv39_mode-IsContext :
    (c : Context) (root_ppn : ℕ) (update_ad : Bool) (mode : Mode) (aligned : Bool)
    → IsContext c
    → IsContext (set_sv39_mode c root_ppn update_ad mode aligned).0
unfolding set_sv39_mode
set_sv39_mode-IsContext c root_ppn update_ad mode aligned v =
    elim (Bool-cases (
      is_null c.downstream
      || ltb (u64_max / 2 ^ 12) root_ppn
      || (aligned && not (root_ppn % 4 == 0)))) [
        | inl bad ↦ rw bad v
        | inr good ↦ rw good (cache_flush-IsContext _)
      ]

next_generation-IsContext : (c : Context) → IsContext c → IsContext (next_generation c)
unfolding next_generation
next_generation-IsContext c v = record { count = v.count; small = v.small }

invalidate_iova-IsContext :
    (c : Context) (iova size : ℕ) → IsContext c → IsContext (invalidate_iova c iova size).0
unfolding invalidate_iova cache_invalidate
invalidate_iova-IsContext c iova size v = elim (Bool-cases (leb (2 ^ va_bits c.mode) size)) [
  | inl whole ↦ rw whole (next_generation-IsContext _ (cache_flush-IsContext c))
  | inr part ↦ elim (Bool-cases (ltb (2 ^ va_bits c.mode - size) iova)) [
    | inl beyond ↦ rw (part, beyond) v
    | inr inside ↦
        let (n, all) = drop_overlapping-All c.cache iova size v.small in
        rw (part, inside)
          (next_generation-IsContext (cache_invalidate c iova size)
            (record { count = (let k = v.count in omega arith); small = all }))
  ]
]

invalidate-IsContext :
    (c : Context) (address size : ℕ) → IsContext c → IsContext (invalidate c address size).0
unfolding invalidate
invalidate-IsContext c address size v =
    elim (Bool-cases (size == 0 || ltb (u64_max - (size - 1)) address)) [
      | inl bad ↦ rw bad v
      | inr good ↦ elim (Bool-cases (walks c.mode)) [
        | inr direct ↦ rw (good, direct) (next_generation-IsContext _ (cache_flush-IsContext c))
        | inl tables ↦ elim (Result-cases (canonical_iova address (va_bits c.mode))) [
          | inr (e, far) ↦ rw (good, tables, far) v
          | inl (iova, near) ↦ rw (good, tables, near) (invalidate_iova-IsContext c iova size v)
        ]
      ]
    ]

set_fault_handler-IsContext :
    (c : Context) (handler : Option ℕ) (opaque : ℕ)
    → IsContext c
    → IsContext (set_fault_handler c handler opaque).0
unfolding set_fault_handler
set_fault_handler-IsContext c handler opaque v = elim (Bool-cases (not c.cache_lock_initialized)) [
  | inl bad ↦ rw bad v
  | inr good ↦ rw good (record { count = v.count; small = v.small })
]

zero_context-IsContext : (embedded : ℕ) → IsContext (zero_context embedded)
zero_context-IsContext embedded = record { count = omega arith; small = tt }

init_finish-IsContext :
    {D : Type 0} (embedded downstream : ℕ) (mode : Mode) (r : World D × Status)
    → IsContext (init_finish embedded downstream mode r).1
unfolding init_finish
init_finish-IsContext embedded downstream mode (w, ok _) = record {
  count = omega arith;
  small = tt;
}
init_finish-IsContext embedded downstream mode (w, err e) = zero_context-IsContext embedded

context_init-IsContext :
    {D : Type 0} (w : World D) (c : Context) (downstream : Option ℕ) (mode : Option Mode)
    (lock : Status) (translator self : ℕ)
    → IsContext c
    → IsContext (context_init w c downstream mode lock translator self).1
unfolding context_init
context_init-IsContext w c none mode lock translator self v = v
context_init-IsContext w c (some downstream) none lock translator self v = v
context_init-IsContext {D} w c (some downstream) (some mode) lock translator self v =
    elim (Bool-cases (downstream == c.address_space)) [
      | inl itself ↦ rw itself v
      | inr other ↦ rw other (locked lock)
    ]
  where
    locked :
        (lock : Status)
        → IsContext
            (elim lock as (λ _. World D × Context × Status) [
              | err e ↦ (
                space_destroy (space_init w c.address_space) c.address_space,
                zero_context c.address_space,
                err e,
              )
              | ok _ ↦ init_finish c.address_space downstream mode (
                  set_translator
                    (space_init w c.address_space)
                    (some c.address_space)
                    (some translator)
                    (some self))
            ]).1
    locked (err e) = zero_context-IsContext c.address_space
    locked (ok _) = init_finish-IsContext c.address_space downstream mode _

context_destroy-IsContext :
    {D : Type 0} (w : World D) (c : Context) → IsContext c → IsContext (context_destroy w c).1
unfolding context_destroy
context_destroy-IsContext w c v = elim (Bool-cases (not (is_null c.attached_device))) [
  | inl used ↦ rw used v
  | inr free ↦ rw free (zero_context-IsContext c.address_space)
]

attach_finish-IsContext :
    (devices : ℕ → PciDevice) (c : Context) (d : ℕ) (r : PciDevice × Status)
    → IsContext c
    → IsContext (attach_finish devices c d r).1
unfolding attach_finish
attach_finish-IsContext devices c d (device, ok _) v = record { count = v.count; small = v.small }
attach_finish-IsContext devices c d (device, err e) v = v

context_attach-IsContext :
    (devices : ℕ → PciDevice) (c : Context) (d : ℕ)
    → IsContext c
    → IsContext (context_attach devices c d).1
unfolding context_attach
context_attach-IsContext devices c d v =
    elim (Bool-cases (not (is_null c.attached_device) || (devices d).realized)) [
      | inl bad ↦ rw bad v
      | inr good ↦
          rw good
            (attach_finish-IsContext devices _ d _ (record { count = v.count; small = v.small }))
    ]

context_detach-IsContext :
    (devices : ℕ → PciDevice) (c : Context) (d : ℕ)
    → IsContext c
    → IsContext (context_detach devices c d).1
unfolding context_detach
context_detach-IsContext devices c d v =
    elim (Bool-cases (not (same_device c.attached_device d) || (devices d).realized)) [
      | inl bad ↦ rw bad v
      | inr good ↦ rw good (record { count = v.count; small = v.small })
    ]

module _ {W : Type 0} (m : Downstream W) (on_fault : FaultHandler W) where
  context_translate-IsContext :
      (c : Context) (address size : ℕ) (write : Bool) (w : W)
      → IsContext c
      → IsContext (context_translate m on_fault c address size write w).1
  unfolding context_translate
  context_translate-IsContext c address size write w v = elim (Bool-cases (size == 0)) [
    | inl nothing ↦ rw nothing v
    | inr something ↦ rw something (
        subst IsContext
          (sym (
            report-context on_fault address size write (translate_locked m c address size write w)))
          (translate_locked-IsContext m c v address size write w))
  ]

module _ {D : Type 0} (m : Downstream (State D)) (on_fault : FaultHandler (State D)) where
  step-IsContext :
      (call : Call) (c : Context) (w : State D)
      → IsContext c
      → IsContext (step m on_fault call c w).1
  unfolding step set_sv39 set_sv39x4
  step-IsContext (translates address size write) c w v =
      context_translate-IsContext m on_fault c address size write w v
  step-IsContext (sets_mode mode) c w v = set_mode-IsContext c mode v
  step-IsContext (roots root_ppn update_ad true) c w v =
      set_sv39_mode-IsContext c root_ppn update_ad Mode.sv39x4 true v
  step-IsContext (roots root_ppn update_ad false) c w v =
      set_sv39_mode-IsContext c root_ppn update_ad Mode.sv39 false v
  step-IsContext (invalidates address size) c w v = invalidate-IsContext c address size v
  step-IsContext (handles handler opaque) c w v = set_fault_handler-IsContext c handler opaque v
  step-IsContext (inits downstream mode lock translator self) c (w, devices) v =
      context_init-IsContext w c downstream mode lock translator self v
  step-IsContext destroys c (w, devices) v = context_destroy-IsContext w c v
  step-IsContext (attaches d) c (w, devices) v = context_attach-IsContext devices c d v
  step-IsContext (detaches d) c (w, devices) v = context_detach-IsContext devices c d v

  -- Whatever calls are made on a context, its set-up, tear-down, attachment and detachment among them,
  -- whatever page tables hold and whatever downstream accesses return, its cache never has more than
  -- 64 entries, and each covers a range that ends at 2^42 or below.
  pub run-IsContext :
      (calls : List Call) (c : Context) (w : State D)
      → IsContext c
      → IsContext (run m on_fault calls c w).1
  unfolding run
  run-IsContext [] c w v = v
  run-IsContext (call ∷ calls) c w v =
      run-IsContext calls (step m on_fault call c w).1 (step m on_fault call c w).0
        (step-IsContext call c w v)
