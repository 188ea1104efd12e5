-- ===== src/Iommu/Context.antt =====
-- The operations of a context. The lock is not modelled: each function that takes it is one step.
use vart.Common.{
  ℕ, ◌+◌, ◌-◌, ◌/◌, ◌%◌, ◌^◌, Bool, true, false, not, ◌&&◌, ◌||◌, Option, none, some, [], ltb, leb,
  ◌==◌, if◌then◌else◌, is_null, ok, err, Errno, Result, Status, done,
}
use vart.AddressSpace.Defs.{World, u64_max, sub64}
use vart.AddressSpace.Ops.{set_translator, space_init, space_destroy}
use vart.Iommu.Defs.{Mode, Context, Translation, canonical_iova, faults, walks, va_bits, root_bits}
use vart.Iommu.Walk.{Downstream, translate_sv39_mode}
use vart.Iommu.Cache.{cache_lookup, cache_flush, cache_insert, cache_invalidate}

-- What a fault handler does: pointer, opaque value, address, size, access and error
abbrev pub FaultHandler : Type 0 → Type 0
FaultHandler W = ℕ → ℕ → ℕ → ℕ → Bool → Errno → W → W

module _ {W : Type 0} where
  -- What follows the walk in `iommu_context_translate`
  unfoldable pub translate_finish : Context → ℕ → W × Result Translation → W × Context × Result ℕ
  translate_finish context iova (w, err e) = (w, context, err e)
  translate_finish context iova (w, ok t) =
      (w, cache_insert context t, ok ((t.translated_base + sub64 iova t.iova_base) % 2 ^ 64))

module _ {W : Type 0} (m : Downstream W) where
  -- `iommu_context_translate` in the Sv39 modes, from the address to look up
  unfoldable pub translate_iova : ℕ → Context → ℕ → ℕ → ℕ → Bool → W → W × Context × Result ℕ
  translate_iova space context iova address size write w =
      elim (cache_lookup context iova size write) [
        | some translated ↦ (w, context, ok translated)
        | none ↦ translate_finish context iova (
            translate_sv39_mode m space context address size write (root_bits context.mode)
              (va_bits context.mode) w)
      ]

  -- `iommu_context_translate` up to the label `out`, with a downstream space
  unfoldable pub translate_mode : ℕ → Context → ℕ → ℕ → Bool → W → W × Context × Result ℕ
  translate_mode space context address size write w =
      if walks context.mode
      then (if not context.root_valid
          then (w, context, err Errno.enodev)
          else elim (canonical_iova address (va_bits context.mode)) [
            | err e ↦ (w, context, err e)
            | ok iova ↦ translate_iova space context iova address size write w
          ])
      else (w, context, ok address)

  -- `iommu_context_translate` up to the label `out`; the target is `downstream`.
  unfoldable pub translate_locked : Context → ℕ → ℕ → Bool → W → W × Context × Result ℕ
  translate_locked context address size write w =
      if faults context.mode then (w, context, err Errno.eacces) else elim context.downstream [
        | none ↦ (w, context, err Errno.enodev)
        | some space ↦ translate_mode space context address size write w
      ]

module _ {W : Type 0} (on_fault : FaultHandler W) where
  -- From the label `out` on: the fault handler is called after the lock is released.
  unfoldable pub report : ℕ → ℕ → Bool → W × Context × Result ℕ → W × Context × Result ℕ
  report address size write (w, context, ok translated) = (w, context, ok translated)
  report address size write (w, context, err e) = elim context.fault_handler [
    | none ↦ (w, context, err e)
    | some f ↦ (on_fault f context.fault_opaque address size write e w, context, err e)
  ]

module _ {W : Type 0} (m : Downstream W) (on_fault : FaultHandler W) where
  -- `iommu_context_translate` and `vart_iommu_context_translate_address`, on a context that is there;
  -- a success has the translated address, and leads to the space `downstream`.
  unfoldable pub context_translate : Context → ℕ → ℕ → Bool → W → W × Context × Result ℕ
  context_translate context address size write w =
      if size == 0
      then (w, context, err Errno.einval)
      else report on_fault address size write (translate_locked m context address size write w)

-- `vart_iommu_context_set_mode`, on a context that is there; the mode is `none` if it is above
-- `VART_IOMMU_CONTEXT_SV39X4`.
unfoldable pub set_mode : Context → Option Mode → Context × Status
set_mode context none = (context, err Errno.einval)
set_mode context (some mode) =
    if is_null context.downstream || (walks mode && not context.root_valid)
    then (context, err Errno.einval)
    else (cache_flush (record context { mode = mode }), done)

-- `iommu_context_set_sv39_mode`, on a context that is there
unfoldable pub set_sv39_mode : Context → ℕ → Bool → Mode → Bool → Context × Status
set_sv39_mode context root_ppn update_ad mode require_root_alignment =
    if is_null context.downstream
      || ltb (u64_max / 2 ^ 12) root_ppn
      || (require_root_alignment && not (root_ppn % 4 == 0))
    then (context, err Errno.einval)
    else (
      cache_flush (record context {
        root_ppn = root_ppn;
        root_valid = true;
        update_ad = update_ad;
        mode = mode;
      }),
      done,
    )

-- `vart_iommu_context_set_sv39` and `vart_iommu_context_set_sv39x4`
unfoldable pub set_sv39 : Context → ℕ → Bool → Context × Status
set_sv39 context root_ppn update_ad = set_sv39_mode context root_ppn update_ad Mode.sv39 false

unfoldable pub set_sv39x4 : Context → ℕ → Bool → Context × Status
set_sv39x4 context root_ppn update_ad = set_sv39_mode context root_ppn update_ad Mode.sv39x4 true

-- `context->invalidation_generation++`
unfoldable pub next_generation : Context → Context
next_generation context = record context {
  invalidation_generation = (context.invalidation_generation + 1) % 2 ^ 64;
}

-- `vart_iommu_context_invalidate` in the Sv39 modes, from the canonical address
unfoldable pub invalidate_iova : Context → ℕ → ℕ → Context × Status
invalidate_iova context iova size =
    let limit = 2 ^ va_bits context.mode in
    if leb limit size
    then (next_generation (cache_flush context), done)
    else if ltb (limit - size) iova
    then (context, err Errno.erange)
    else (next_generation (cache_invalidate context iova size), done)

-- `vart_iommu_context_invalidate`, on a context that is there
unfoldable pub invalidate : Context → ℕ → ℕ → Context × Status
invalidate context address size =
    if size == 0 || ltb (u64_max - (size - 1)) address
    then (context, err Errno.einval)
    else if walks context.mode
    then elim (canonical_iova address (va_bits context.mode)) [
      | err e ↦ (context, err Errno.efault)
      | ok iova ↦ invalidate_iova context iova size
    ]
    else (next_generation (cache_flush context), done)

-- `vart_iommu_context_set_fault_handler`, on a context that is there
unfoldable pub set_fault_handler : Context → Option ℕ → ℕ → Context × Status
set_fault_handler context handler opaque =
    if not context.cache_lock_initialized
    then (context, err Errno.einval)
    else (record context { fault_handler = handler; fault_opaque = opaque }, done)

-- The structure after `memset`
abbrev pub zero_context : ℕ → Context
zero_context embedded = record {
  address_space = embedded;
  downstream = none;
  attached_device = none;
  saved_dma_as = none;
  saved_dma_as_from_bus = false;
  requester_id = 0;
  mode = Mode.identity;
  root_ppn = 0;
  invalidation_generation = 0;
  root_valid = false;
  update_ad = false;
  fault_handler = none;
  fault_opaque = 0;
  cache = [];
  cache_next = 0;
  cache_lock_initialized = false;
}

module _ {D : Type 0} where
  -- The end of `vart_iommu_context_init`, after the translator is set
  unfoldable pub init_finish : ℕ → ℕ → Mode → World D × Status → World D × Context × Status
  init_finish embedded downstream mode (w, err e) =
      (space_destroy w embedded, zero_context embedded, err e)
  init_finish embedded downstream mode (w, ok _) = (
    w,
    record (zero_context embedded) {
      downstream = some downstream;
      mode = mode;
      cache_lock_initialized = true;
    },
    done,
  )

  -- `vart_iommu_context_init`, on a context that is there; `lock` is what `pthread_mutex_init`
  -- returns, the mode is `none` if it is out of range, `translator` points to
  -- `iommu_context_translate` and `self` to the context.
  unfoldable pub context_init :
      World D → Context → Option ℕ → Option Mode → Status → ℕ → ℕ → World D × Context × Status
  context_init w context none mode lock translator self = (w, context, err Errno.einval)
  context_init w context (some downstream) none lock translator self =
      (w, context, err Errno.einval)
  context_init w context (some downstream) (some mode) lock translator self =
      if downstream == context.address_space then (w, context, err Errno.einval) else elim lock [
        | err e ↦ (
          space_destroy (space_init w context.address_space) context.address_space,
          zero_context context.address_space,
          err e,
        )
        | ok _ ↦ init_finish context.address_space downstream mode (
            set_translator (space_init w context.address_space) (some context.address_space)
              (some translator) (some self))
      ]

  -- `vart_iommu_context_destroy`, on a context that is there
  unfoldable pub context_destroy : World D → Context → World D × Context
  context_destroy w context =
      if not (is_null context.attached_device)
      then (w, context)
      else (space_destroy w context.address_space, zero_context context.address_space)
