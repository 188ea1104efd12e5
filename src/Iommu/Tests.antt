-- ===== src/Iommu/Tests.antt =====
-- Runs of a context, and the theorems at concrete inputs.
use vart.Common.{
  ℕ, zero, suc, ◌*◌, ◌^◌, ◌<◌, ◌≡◌, refl, ap, ◌↔◌, true, false, none, some, List, [], ◌∷◌, arith,
  ok, err, Errno, Status, done,
}
use vart.AddressSpace.Access.{copy_out, copy_in}
use vart.Virtio.Defs.{store_le, load_le}
use vart.Iommu.Defs.{Mode, Context, canonical_iova}
use vart.Iommu.Walk.{
  Downstream, walk, walk_step, leaf_translation, judge, denied, needs_update, translate_sv39_mode,
  loaded_pte, iommu_read_pte,
}
use vart.Iommu.Cache.{serves, hit, lookup_from, cache_lookup, cache_insert, new_entry, cache_flush}
use vart.Iommu.Context.{
  translate_finish, translate_iova, translate_mode, translate_locked, invalidate, invalidate_iova,
  zero_context,
}
use vart.Iommu.Canonical.{canonical_iova_iff, sign_extend}
use vart.Iommu.Ranges.{IsContext}
use vart.Iommu.Bounded.{
  Call, State, inits, destroys, attaches, detaches, sets_mode, roots, translates, invalidates, run,
  run-IsContext,
}
use vart.AddressSpace.Defs.{AddressSpace, World, Callbacks, zero_region, zero_space}
use vart.Iommu.Invalidate.{cache_lookup-invalidate}
use vart.Iommu.Attach.{
  PciDevice, context_attach, context_detach, attach_finish, set_dma_as, detach-attach,
}
use vart.Iommu.Translate.{Access, reads, writes, answers, answers-cache_flush}

canonical_iova_iff_example :
    (canonical_iova 0xffffffc000000000 39 ≡ ok 0x4000000000)
    ↔ ((0x4000000000 < 2 ^ 39) × (0xffffffc000000000 ≡ sign_extend 0x4000000000 39))
canonical_iova_iff_example =
    canonical_iova_iff Mode.sv39 0xffffffc000000000 0x4000000000 (omega arith)

-- Memory is the downstream space.
abbrev memory : Downstream (ℕ → ℕ)
memory = record {
  read_buffer = λ space address size m. (m, ok (copy_out m address size));
  write_buffer = λ space address bytes m. (copy_in m address bytes, done);
}

-- Tables at 0x1000, 0x2000 and 0x3000 lead from the page 0x1000 to 0x20000; the leaf has R, W, U and
-- A, but not D.
abbrev tables : ℕ → ℕ
tables =
    copy_in (copy_in (copy_in (λ a. 0) 0x1000 (store_le 8 0x801)) 0x2000 (store_le 8 0xc01)) 0x3008
      (store_le 8 0x8057)

abbrev context : Context
context = record (zero_context 1) {
  downstream = some 0;
  mode = Mode.sv39;
  root_ppn = 1;
  root_valid = true;
  cache_lock_initialized = true;
}

abbrev filled : Context
filled = record context {
  cache =
      record {
        iova_base = 0x1000;
        translated_base = 0x20000;
        size = 0x1000;
        permissions = 6;
        valid = true;
      }
      ∷ [];
}

translate_read :
    translate_locked memory context 0x1234 4 false tables ≡ (tables, filled, ok 0x20234)
unfolding translate_locked translate_mode translate_iova translate_finish cache_lookup lookup_from
    translate_sv39_mode walk walk_step judge denied needs_update leaf_translation iommu_read_pte
    loaded_pte cache_insert new_entry canonical_iova load_le store_le copy_in copy_out
translate_read = refl

-- The leaf's D bit is clear: a write fails on a fresh context, but succeeds after a read.
translate_write :
    translate_locked memory context 0x1234 4 true tables ≡ (tables, context, err Errno.efault)
unfolding translate_locked translate_mode translate_iova translate_finish cache_lookup lookup_from
    translate_sv39_mode walk walk_step judge denied needs_update iommu_read_pte loaded_pte
    canonical_iova load_le store_le copy_in copy_out
translate_write = refl

translate_write_cached :
    translate_locked memory filled 0x1234 4 true tables ≡ (tables, filled, ok 0x20234)
unfolding translate_locked translate_mode translate_iova cache_lookup lookup_from serves hit
    canonical_iova
translate_write_cached = refl

abbrev accesses : List Access
accesses = reads 0x1234 4 ∷ writes 0x1234 4 ∷ reads 0x1ffe 4 ∷ reads 0x1238 8 ∷ reads 0x5000 1 ∷ []

answers-cache_flush_example :
    answers memory (λ c. c) context accesses tables
    ≡ answers memory cache_flush context accesses tables
answers-cache_flush_example =
    answers-cache_flush memory 0 tables (λ a. ok (copy_out tables a 8)) (λ a. refl) context accesses
      refl refl refl
      (
        (omega arith, omega arith),
        (
          tt,
          (
            (omega arith, omega arith),
            ((omega arith, omega arith), ((omega arith, omega arith), tt)),
          ),
        ),
      )

-- Devices with one address space for DMA, which they have from their bus
abbrev pci_devices : ℕ → PciDevice
pci_devices d = record {
  dma_as = some 7;
  dma_as_from_bus = true;
  realized = false;
  requester_id = 8 * d;
}

-- The world's memory is the downstream space.
abbrev world_memory : Downstream (State (Unit {0}))
world_memory = record {
  read_buffer = λ space address size w. (w, ok (copy_out w.0.memory address size));
  write_buffer = λ space address bytes w.
      ((record w.0 { memory = copy_in w.0.memory address bytes }, w.1), done);
}

abbrev world : World (Unit {0})
world = record { region = λ r. zero_region; space = λ s. zero_space; memory = tables; devices = tt }

abbrev calls : List Call
calls =
    inits (some 0) (some Mode.identity) done 9 3
    ∷ roots 1 true false
    ∷ translates 0x1234 4 true
    ∷ attaches 2
    ∷ destroys
    ∷ invalidates 0x1000 16
    ∷ detaches 2
    ∷ sets_mode none
    ∷ destroys
    ∷ []

run-IsContext_example :
    IsContext
      (run world_memory
        (λ f opaque address size write e w. w)
        calls
        (zero_context 1)
        (world, pci_devices)).1
run-IsContext_example =
    run-IsContext world_memory (λ f opaque address size write e w. w) calls (zero_context 1)
      (world, pci_devices) (record { count = omega arith; small = tt })

filled_canonical : canonical_iova 0x1ff0 39 ≡ ok 0x1ff0
unfolding canonical_iova
filled_canonical = refl

invalidate-filled : (invalidate filled 0x1ff0 32).1 ≡ done
unfolding invalidate invalidate_iova canonical_iova
invalidate-filled = refl

cache_lookup-invalidate_example : cache_lookup (invalidate filled 0x1ff0 32).0 0x1ffc 4 false ≡ none
cache_lookup-invalidate_example =
    cache_lookup-invalidate filled (invalidate filled 0x1ff0 32).0 0x1ff0 0x1ff0 32 0x1ffc 4 false
      (omega arith, tt) (omega arith) (omega arith)
      (0x1ffc, omega arith, omega arith, omega arith, omega arith) refl filled_canonical
      (ap (λ r. ((invalidate filled 0x1ff0 32).0, r)) invalidate-filled)

abbrev attachment : (ℕ → PciDevice) × Context × Status
attachment = context_attach pci_devices context 2

attachment-done : attachment.2 ≡ done
unfolding context_attach attach_finish set_dma_as
attachment-done = refl

detach-attach_example :
    ((context_detach attachment.0 attachment.1 2).2 ≡ done)
    × ((e : ℕ) → (context_detach attachment.0 attachment.1 2).0 e ≡ pci_devices e)
detach-attach_example =
    detach-attach pci_devices attachment.0 context attachment.1 2
      (ap (λ r. (attachment.0, attachment.1, r)) attachment-done)

-- Space 2 is translated by context 3, which leads to space 1, and that by context 4, which leads to
-- space 0; context 5 leads back to its space 4, but walks no
-- tables.
abbrev chain_space : ℕ → AddressSpace
chain_space (suc zero) = record zero_space { translate = some 9; translate_opaque = some 4 }
chain_space (suc (suc zero)) = record zero_space { translate = some 9; translate_opaque = some 3 }
chain_space (suc (suc (suc (suc zero)))) = record zero_space {
  translate = some 9;
  translate_opaque = some 5;
}
chain_space _ = zero_space

abbrev chain_context : ℕ → Context
chain_context (suc (suc (suc zero))) = record context { downstream = some 1 }
chain_context (suc (suc (suc (suc zero)))) = context
chain_context (suc (suc (suc (suc (suc zero))))) = record context {
  downstream = some 4;
  mode = Mode.identity;
}
chain_context k = zero_context k

abbrev chain : World (ℕ → Context)
chain = record {
  region = λ r. zero_region;
  space = chain_space;
  memory = tables;
  devices = chain_context;
}

abbrev no_handlers : Callbacks (ℕ → Context)
no_handlers = record {
  mmio_read = λ f opaque offset size w. (w, err Errno.enosys);
  mmio_write = λ f opaque offset size value w. (w, err Errno.enosys);
  translator = λ f opaque address size write w. (w, err Errno.enosys);
}
