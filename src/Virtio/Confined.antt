-- ===== src/Virtio/Confined.antt =====
-- The device touches nothing of guest memory but the rings that the guest configured.
use vart.Common.{
  ℕ, zero, suc, ◌+◌, ◌-◌, ◌*◌, ◌%◌, ◌^◌, ◌≤◌, ◌<◌, ◌≡◌, refl, ap, ◌⊎◌, inl, inr, Option, some, List,
  [], ◌∷◌, arith, ltb, leb, ◌==◌, Bool-cases, Option-cases, ok, err, get_elem?, Result,
  Result-cases,
}
use native.Mathlib.Nat.{mod-eq_of_lt, mod-lt}
use vart.Virtio.Defs.{DmaCallbacks, Descriptor, Queue, Device, max_queue_size, load_le16}
use vart.Virtio.Queue.{
  queue_get, queue_read, walk, decode, visited_at, chain_step, judge, then_cons, pop_finish,
  pop_head, pop_index, queue_pop,
}
use vart.Virtio.Invariant.{IsRing, IsDevice, queue_get-IsRing}
use vart.Virtio.Pop.{judge-goes_on, Verdict-cases}

-- The bytes `address .. address + size` lie in the range `first .. first + room`.
abbrev Within : ℕ → ℕ → ℕ → ℕ → Type 0
Within address size first room = (first ≤ address) × (address + size ≤ first + room)

-- An access to the descriptor table or to the available ring.
abbrev pub InDriverArea : Queue → ℕ → ℕ → Type 0
InDriverArea q address size =
    Within address size q.descriptor_address (q.size * 16)
    ⊎ Within address size q.available_address (4 + q.size * 2)

-- An access to the used ring.
abbrev pub InDeviceArea : Queue → ℕ → ℕ → Type 0
InDeviceArea q address size = Within address size q.used_address (4 + q.size * 8)

module _ {W : Type 0} (c e : DmaCallbacks W) (q : Queue) (ring : IsRing q) where
  module _
      (agree : (f opaque address size : ℕ) (w : W)
        → InDriverArea q address size
        → c.dma_read f opaque address size w ≡ e.dma_read f opaque address size w) where
    read-agree :
        (address size : ℕ) (w : W)
        → InDriverArea q address size
        → address < 2 ^ 64
        → queue_read c q address size w ≡ queue_read e q address size w
    unfolding queue_read
    read-agree address size w inside small = elim (Option-cases q.dma.read) [
      | inl absent ↦ ground arith
      | inr (f, present) ↦
          ground (arith, mod-eq_of_lt small, agree f q.dma.opaque address size w inside)
    ]

    step-agree :
        (count : ℕ) (next other : ℕ → W → Option (W × Result (List Descriptor)))
        (ret : W × Result (List ℕ))
        → ((i : ℕ) (v : W) → i < q.size → next i v ≡ other i v)
        → chain_step q count next ret ≡ chain_step q count other ret
    unfolding chain_step
    step-agree count next other (v, err x) same = refl
    step-agree count next other (v, ok bytes) same =
        elim (Verdict-cases (judge q count (decode bytes))) [
          | inl (x, bad) ↦ rw (bad, chain_step)
          | inr (inl end) ↦ rw (end, chain_step)
          | inr (inr on) ↦
              rw (on, chain_step)
                (ap (then_cons (decode bytes))
                  (same (decode bytes).next v (judge-goes_on q count (decode bytes) on).3))
        ]

    walk-agree :
        (fuel index count : ℕ) (visited : List ℕ) (w : W)
        → index < q.size
        → walk c fuel q index count visited w ≡ walk e fuel q index count visited w
    unfolding walk
    walk-agree zero index count visited w inside = refl
    walk-agree (suc fuel) index count visited w inside =
        let reads =
          read-agree (q.descriptor_address + index * 16) 16 w (inl (omega arith))
            (let f = ring.descriptors_fit in omega arith) in
        elim (Bool-cases (visited_at visited index)) [
          | inl again ↦ rw again
          | inr first ↦
              rw (first, reads)
                (step-agree (count + 1) _ _ _
                  (λ i v below. walk-agree fuel i (count + 1) (index ∷ visited) v below))
        ]

    head-agree :
        (d : Device) (i : ℕ) (ret : W × Result (List ℕ))
        → pop_head c d i q ret ≡ pop_head e d i q ret
    unfolding pop_head
    head-agree d i (v, err x) = refl
    head-agree d i (v, ok raw) = elim (Bool-cases (leb q.size (load_le16 raw 0))) [
      | inl bad ↦ rw bad
      | inr good ↦ rw good (
          ap (pop_finish d i q (load_le16 raw 0))
            (walk-agree max_queue_size (load_le16 raw 0) 0 [] v (ground arith)))
    ]

    index-agree :
        (d : Device) (i : ℕ) (ret : W × Result (List ℕ))
        → pop_index c d i q ret ≡ pop_index e d i q ret
    unfolding pop_index
    index-agree d i (v, err x) = refl
    index-agree d i (v, ok raw) =
        let reads =
          read-agree (q.available_address + 4 + q.last_avail % q.size * 2) 2 v
            (inr (let lt = mod-lt q.last_avail ring.nonempty in omega arith))
            (let lt = mod-lt q.last_avail ring.nonempty in
              let f = ring.available_fits in omega arith) in
        elim (Bool-cases (load_le16 raw 0 == q.last_avail)) [
          | inl empty ↦ rw empty
          | inr pending ↦
              elim (Bool-cases (ltb q.size ((load_le16 raw 0 + 2 ^ 16 - q.last_avail) % 2 ^ 16))) [
                | inl too_many ↦ rw (pending, too_many)
                | inr fits ↦ rw (pending, fits, reads) (head-agree d i _)
              ]
        ]

    first-agree :
        (d : Device) (i : ℕ) (w : W)
        → pop_index c d i q (queue_read c q (q.available_address + 2) 2 w)
          ≡ pop_index e d i q (queue_read e q (q.available_address + 2) 2 w)
    first-agree d i w =
        rw
          (read-agree (q.available_address + 2) 2 w (inr (let p = ring.nonempty in omega arith))
            (let f = ring.available_fits in omega arith))
          (index-agree d i _)

-- `vart_virtio_queue_pop` depends on guest memory only through the descriptor table and the
-- available ring of its queue: two memories that answer alike there give one result, on every branch.
pub queue_pop_confined :
    {W : Type 0} (c e : DmaCallbacks W) (d : Device) (i : ℕ) (w : W)
    → IsDevice d
    → ((q : Queue) (f opaque address size : ℕ) (v : W)
        → get_elem? d.queues i ≡ some q
        → InDriverArea q address size
        → c.dma_read f opaque address size v ≡ e.dma_read f opaque address size v)
    → queue_pop c d i w ≡ queue_pop e d i w
unfolding queue_pop
queue_pop_confined c e d i w valid agree = elim (Result-cases (queue_get d i)) [
  | inr (x, failed) ↦ rw (failed, queue_pop)
  | inl (q, got) ↦
      rw (got, queue_pop)
        (let (_, ring, found) = queue_get-IsRing d i q valid got in
          first-agree c e q ring (λ f opaque address size v. agree q f opaque address size v found)
            d i w)
]
