-- ===== src/Virtio/Invariant.antt =====
-- The invariant of a virtio device: the guest's queue settings are within bounds whatever the guest
-- wrote, and every operation keeps it.
use vart.Common.{
  ℕ, zero, suc, ◌+◌, ◌-◌, ◌*◌, ◌%◌, ◌^◌, ◌≤◌, ◌<◌, bit_and, ◌≡◌, refl, ap, ◌∙◌, subst, inl, inr,
  Bool, true, false, Option, none, some, List, [], ◌∷◌, map, arith, leb, Bool-cases, Option-cases,
  ok, err, length, get_elem?, length-set, All, replicate, All-set, All-get_elem?, Status, done,
  Result-cases,
}
use vart.Virtio.Defs.{
  DmaOps, DmaCallbacks, Queue, Device, max_queue_size, max_queues, fresh_queue, address_range_valid,
}
use vart.Virtio.Queue.{
  device_init, set_status, clear_queue, set_queue, configure_invalid, queue_configure, queue_reset,
  queue_get, push_index, queue_push_used,
}

-- The rings of a ready queue: a size that is a power of two, aligned, and inside of the 64-bit
-- addresses.
pub record IsRing (q : Queue) : Type 0 where
  pub nonempty : 0 < q.size
  pub small : q.size ≤ max_queue_size
  pub power : bit_and q.size (q.size - 1) ≡ 0
  pub descriptors_aligned : q.descriptor_address % 16 ≡ 0
  pub available_aligned : q.available_address % 2 ≡ 0
  pub used_aligned : q.used_address % 4 ≡ 0
  pub descriptors_fit : q.descriptor_address + q.size * 16 ≤ 2 ^ 64
  pub available_fits : q.available_address + 4 + q.size * 2 ≤ 2 ^ 64
  pub used_fits : q.used_address + 4 + q.size * 8 ≤ 2 ^ 64

pub record IsQueue (q : Queue) : Type 0 where
  pub last_avail_16 : q.last_avail < 2 ^ 16
  pub next_used_16 : q.next_used < 2 ^ 16
  pub ring : q.ready ≡ true → IsRing q

abbrev pub IsDevice : Device → Type 0
IsDevice d = All IsQueue d.queues × (length d.queues ≤ max_queues)

fresh_queue-IsQueue : (dma : DmaOps) → IsQueue (fresh_queue dma)
fresh_queue-IsQueue dma = record {
  last_avail_16 = omega arith;
  next_used_16 = omega arith;
  ring = λ h. cc;
}

replicate-All :
    (n : ℕ) (q : Queue) → IsQueue q → All IsQueue (replicate n q) × (length (replicate n q) ≡ n)
replicate-All zero q v = (tt, refl)
replicate-All (suc n) q v = let (a, l) = replicate-All n q v in ((v, a), ap suc l)

clear-All :
    (qs : List Queue)
    → All IsQueue qs
    → All IsQueue (map clear_queue qs) × (length (map clear_queue qs) ≡ length qs)
clear-All [] v = (tt, refl)
clear-All (q ∷ qs) v =
    let (a, l) = clear-All qs v.1 in
    (
      (record { last_avail_16 = omega arith; next_used_16 = omega arith; ring = λ h. cc }, a),
      ap suc l,
    )

-- `vart_virtio_device_init`, where it succeeds, makes a well-formed device with as many queues as
-- were asked for.
pub device_init-IsDevice :
    (d : Device) (id features count : ℕ) (dma : Option DmaOps) (allocated : Bool) {e : Device}
    → device_init d id features count dma allocated ≡ (e, done)
    → IsDevice e × (length e.queues ≡ count)
unfolding device_init
device_init-IsDevice d id features count none allocated h = absurd (ground arith)
device_init-IsDevice d id features count (some dma) allocated h =
    ground (arith, replicate-All count (fresh_queue dma) (fresh_queue-IsQueue dma))

pub set_status-IsDevice : (d : Device) (status : ℕ) → IsDevice d → IsDevice (set_status d status).0
unfolding set_status
set_status-IsDevice d status v = ground (arith, clear-All d.queues v.0)

pub set_queue-IsDevice :
    (d : Device) (i : ℕ) (q : Queue) → IsDevice d → IsQueue q → IsDevice (set_queue d i q)
set_queue-IsDevice d i q v h =
    (All-set IsQueue d.queues i q v.0 h, omega (arith, length-set d.queues i q))

range_fits :
    (address size : ℕ)
    → address < 2 ^ 64
    → size < 2 ^ 64
    → 0 < size
    → address_range_valid address size ≡ true
    → address + size ≤ 2 ^ 64
unfolding address_range_valid
range_fits address size ha hs p h = ground arith

configure-IsRing :
    (q : Queue) (size descriptors available used : ℕ)
    → descriptors < 2 ^ 64
    → available < 2 ^ 64
    → used < 2 ^ 64
    → configure_invalid size descriptors available used ≡ false
    → address_range_valid descriptors (size * 16) ≡ true
    → address_range_valid available (4 + size * 2) ≡ true
    → address_range_valid used (4 + size * 8) ≡ true
    → IsRing (record q {
      size = size;
      last_avail = 0;
      next_used = 0;
      descriptor_address = descriptors;
      available_address = available;
      used_address = used;
      ready = true;
    })
unfolding configure_invalid
configure-IsRing q size descriptors available used hd ha hu ok_args rd ra ru = ground (
  arith,
  range_fits descriptors (size * 16) hd,
  range_fits available (4 + size * 2) ha,
  range_fits used (4 + size * 8) hu,
)

-- `vart_virtio_queue_configure` keeps the invariant for any 64-bit addresses that the guest gives.
pub queue_configure-IsDevice :
    (d : Device) (i size descriptors available used : ℕ)
    → descriptors < 2 ^ 64
    → available < 2 ^ 64
    → used < 2 ^ 64
    → IsDevice d
    → IsDevice (queue_configure d i size descriptors available used).0
unfolding queue_configure
queue_configure-IsDevice d i size descriptors available used hd ha hu v =
    elim (Option-cases (get_elem? d.queues i)) [
      | inl missing ↦ rw (missing, queue_configure) v
      | inr (q, found) ↦ ground (
        arith,
        set_queue-IsDevice d i (record q {
          size = size;
          last_avail = 0;
          next_used = 0;
          descriptor_address = descriptors;
          available_address = available;
          used_address = used;
          ready = true;
        }),
        configure-IsRing q size descriptors available used hd ha hu,
      )
    ]

pub queue_reset-IsDevice : (d : Device) (i : ℕ) → IsDevice d → IsDevice (queue_reset d i).0
unfolding queue_reset
queue_reset-IsDevice d i v = elim (Option-cases (get_elem? d.queues i)) [
  | inl missing ↦ rw (missing, queue_reset) v
  | inr (q, found) ↦
      rw (found, queue_reset)
        (set_queue-IsDevice d i _ v
          (record { last_avail_16 = omega arith; next_used_16 = omega arith; ring = λ h. cc }))
]

-- A queue that `virtio_queue_get` hands out is ready and well formed.
pub queue_get-IsRing :
    (d : Device) (i : ℕ) (q : Queue)
    → IsDevice d
    → queue_get d i ≡ ok q
    → IsQueue q × IsRing q × (get_elem? d.queues i ≡ some q)
unfolding queue_get
queue_get-IsRing d i q v h = elim (Option-cases (get_elem? d.queues i)) [
  | inl missing ↦ absurd (ground arith)
  | inr (p, found) ↦ elim (Bool-cases p.ready) [
    | inr idle ↦ absurd (ground arith)
    | inl ready ↦
        let same : p ≡ q = ground arith in
        let good : IsQueue p = All-get_elem? IsQueue d.queues i p v.0 found in
        (subst IsQueue same good, subst IsRing same (good.ring ready), found ∙ ap some same)
  ]
]

-- Only the consumption index moves.
abbrev pub advanced : Queue → Queue
advanced q = record q { last_avail = (q.last_avail + 1) % 2 ^ 16 }

pub advanced-IsQueue : (q : Queue) → IsQueue q → IsQueue (advanced q)
advanced-IsQueue q v = record {
  last_avail_16 = omega arith;
  next_used_16 = v.next_used_16;
  ring = λ h.
      let r = v.ring h in
      record {
        nonempty = r.nonempty;
        small = r.small;
        power = r.power;
        descriptors_aligned = r.descriptors_aligned;
        available_aligned = r.available_aligned;
        used_aligned = r.used_aligned;
        descriptors_fit = r.descriptors_fit;
        available_fits = r.available_fits;
        used_fits = r.used_fits;
      };
}

used_up-IsQueue :
    (q : Queue) → IsQueue q → IsQueue (record q { next_used = (q.next_used + 1) % 2 ^ 16 })
used_up-IsQueue q v = record {
  last_avail_16 = v.last_avail_16;
  next_used_16 = omega arith;
  ring = λ h.
      let r = v.ring h in
      record {
        nonempty = r.nonempty;
        small = r.small;
        power = r.power;
        descriptors_aligned = r.descriptors_aligned;
        available_aligned = r.available_aligned;
        used_aligned = r.used_aligned;
        descriptors_fit = r.descriptors_fit;
        available_fits = r.available_fits;
        used_fits = r.used_fits;
      };
}

push_index-IsDevice :
    {W : Type 0} (c : DmaCallbacks W) (d : Device) (i : ℕ) (q : Queue) (ret : W × Status)
    → IsDevice d
    → IsQueue q
    → IsRing q
    → IsDevice (push_index c d i q ret).1
unfolding push_index
push_index-IsDevice c d i q (v, err e) good a b = good
push_index-IsDevice c d i q (v, ok _) good a b = set_queue-IsDevice d i _ good (used_up-IsQueue q a)

module _ {W : Type 0} (c : DmaCallbacks W) (d : Device) (i : ℕ) where
  -- `vart_virtio_queue_push_used` keeps the invariant on every branch.
  pub queue_push_used-IsDevice :
      (head written : ℕ) (w : W) → IsDevice d → IsDevice (queue_push_used c d i head written w).1
  unfolding queue_push_used
  queue_push_used-IsDevice head written w v = elim (Result-cases (queue_get d i)) [
    | inr (e, failed) ↦ rw (failed, queue_push_used) v
    | inl (q, got) ↦
        rw (got, queue_push_used)
          (elim (Bool-cases (leb q.size head)) [
            | inl bad ↦ rw bad v
            | inr good ↦ rw good (
                push_index-IsDevice c d i q _ v (queue_get-IsRing d i q v got).0
                  (queue_get-IsRing d i q v got).1)
          ])
  ]
