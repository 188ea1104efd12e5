-- ===== src/Virtio/Tests.antt =====
-- Runs of the virtio model, and the theorems at concrete inputs.
use vart.Common.{
  ℕ, ◌+◌, ◌≤◌, ◌<◌, ◌≡◌, refl, ◌⊎◌, true, some, List, [], ◌∷◌, ◌++◌, arith, ltb, if◌then◌else◌, ok,
  get_elem?, done,
}
use vart.AddressSpace.Access.{copy_in, copy_out}
use vart.Virtio.Defs.{
  DmaCallbacks, DmaOps, Queue, Device, zero_device, load_le, store_le, has_next, is_indirect,
  has_unknown,
}
use vart.Virtio.Queue.{
  set_queue, queue_get, queue_pop, queue_push_used, pop_index, pop_head, pop_finish, queue_read,
  walk, chain_step, decode, judge, visited_at, then_cons,
}
use vart.Virtio.Invariant.{IsDevice}
use vart.Virtio.Pop.{IsPop, queue_pop_lem}
use vart.Virtio.Confined.{queue_pop_confined, InDriverArea}
use vart.Virtio.Used.{load_le-store_le, plain_memory, queue_push_used_lem}
use vart.Virtio.History.{run, run-IsDevice, Call}

abbrev dma : DmaOps
dma = record { read = some 1; write = some 2; opaque = 0 }

abbrev queue : Queue
queue = record {
  size = 4;
  last_avail = 0;
  next_used = 0xffff;
  descriptor_address = 0x1000;
  available_address = 0x2000;
  used_address = 0x3000;
  dma = dma;
  ready = true;
}

abbrev device : Device
device = record zero_device { device_id = 1; device_features = 0xff; queues = queue ∷ [] }

-- The available ring offers head 2; descriptor 2 (8 bytes at 0x50) leads on to the last, 0.
abbrev memory : ℕ → ℕ
memory =
    copy_in
      (copy_in
        (copy_in (λ _. 0) 0x1000
          (0x60 ∷ 0 ∷ 0 ∷ 0 ∷ 0 ∷ 0 ∷ 0 ∷ 0 ∷ 9 ∷ 0 ∷ 0 ∷ 0 ∷ 2 ∷ 0 ∷ 0 ∷ 0 ∷ []))
        0x1020 (0x50 ∷ 0 ∷ 0 ∷ 0 ∷ 0 ∷ 0 ∷ 0 ∷ 0 ∷ 8 ∷ 0 ∷ 0 ∷ 0 ∷ 1 ∷ 0 ∷ 0 ∷ 0 ∷ []))
      0x2000 (0 ∷ 0 ∷ 1 ∷ 0 ∷ 2 ∷ 0 ∷ [])

device-IsDevice : IsDevice device
device-IsDevice = (
  (
    record {
      last_avail_16 = omega arith;
      next_used_16 = omega arith;
      ring = λ _. record {
        nonempty = omega arith;
        small = omega arith;
        power = refl;
        descriptors_aligned = refl;
        available_aligned = refl;
        used_aligned = refl;
        descriptors_fit = omega arith;
        available_fits = omega arith;
        used_fits = omega arith;
      };
    },
    tt,
  ),
  omega arith,
)

pop_two :
    queue_pop plain_memory device 0 memory
    ≡ some (
      memory,
      set_queue device 0 (record queue { last_avail = 1 }),
      ok (record {
        head = 2;
        count = 2;
        descriptors =
            record { address = 0x50; length = 8; flags = 1; next = 0 }
            ∷ record { address = 0x60; length = 9; flags = 2; next = 0 }
            ∷ [];
      }),
    )
unfolding queue_pop queue_get pop_index pop_head pop_finish queue_read walk chain_step decode judge
    visited_at then_cons plain_memory load_le copy_out copy_in has_next is_indirect has_unknown
pop_two = refl

queue_pop_lem_example : IsPop device 0 (queue_pop plain_memory device 0 memory)
queue_pop_lem_example = queue_pop_lem plain_memory device 0 memory device-IsDevice

-- A memory that answers with zeros outside of the rings.
abbrev elsewhere : DmaCallbacks (ℕ → ℕ)
elsewhere = record {
  dma_read = λ f opaque address size m.
      if ltb address 0x1000 then (m, ok []) else plain_memory.dma_read f opaque address size m;
  dma_write = plain_memory.dma_write;
}

elsewhere_agrees :
    (q : Queue) (f opaque address size : ℕ) (m : ℕ → ℕ)
    → get_elem? device.queues 0 ≡ some q
    → InDriverArea q address size
    → plain_memory.dma_read f opaque address size m ≡ elsewhere.dma_read f opaque address size m
elsewhere_agrees q f opaque address size m found inside = ground arith

queue_pop_confined_example :
    queue_pop plain_memory device 0 memory ≡ queue_pop elsewhere device 0 memory
queue_pop_confined_example =
    queue_pop_confined plain_memory elsewhere device 0 memory device-IsDevice elsewhere_agrees

load_le-store_le_example : load_le (store_le 4 0xdeadbeef ++ 5 ∷ []) 0 4 ≡ 0xdeadbeef
load_le-store_le_example = load_le-store_le 4 0xdeadbeef (5 ∷ []) (omega arith)

queue_push_used_lem_example :
    (v : ℕ → ℕ) × (queue_push_used plain_memory device 0 2 17 memory
      ≡ (v, set_queue device 0 (record queue { next_used = 0 }), done))
    × (load_le (copy_out v 0x301c 8) 0 4 ≡ 2)
    × (load_le (copy_out v 0x301c 8) 4 4 ≡ 17)
    × (load_le (copy_out v 0x3002 2) 0 2 ≡ 0)
    × ((j : ℕ) → (j < 0x3002) ⊎ (0x3002 + 2 ≤ j) → (j < 0x301c) ⊎ (0x301c + 8 ≤ j) → v j ≡ memory j)
unfolding queue_get
queue_push_used_lem_example =
    queue_push_used_lem device 0 2 17 queue 2 memory device-IsDevice refl refl (omega arith)
      (omega arith)

abbrev calls : List Call
calls =
    Call.pop 0
    ∷ Call.push 0 2 17
    ∷ Call.status 0
    ∷ Call.configure 0 8 0x100 0x201 0x300
    ∷ Call.configure 0 8 0x100 0x200 0x300
    ∷ Call.reset 0
    ∷ []

run-IsDevice_example : IsDevice (run plain_memory memory device calls).1
run-IsDevice_example = run-IsDevice plain_memory memory device calls (omega arith) device-IsDevice
