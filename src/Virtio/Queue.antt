-- ===== src/Virtio/Queue.antt =====
-- The operations of virtio.c.
use vart.Common.{
  ℕ, zero, suc, ◌+◌, ◌-◌, ◌*◌, ◌%◌, ◌^◌, bit_and, Bool, true, false, not, ◌||◌, Option, none, some,
  List, [], ◌∷◌, ◌++◌, map, ltb, leb, ◌==◌, if◌then◌else◌, is_null, ok, err, length, get_elem?, set,
  replicate, Errno, Result, Status, done,
}
use vart.Virtio.Defs.{
  DmaOps, DmaCallbacks, Descriptor, Chain, Queue, Device, max_queue_size, max_queues, status_mask,
  descriptor_size, available_header_size, used_header_size, used_element_size, fresh_queue,
  zero_device, load_le16, load_le32, load_le64, store_le16, store_le32, address_range_valid,
  has_next, is_indirect, has_unknown,
}

-- `vart_virtio_device_init`; `allocated` says whether `calloc` succeeds. `dma` is `none` for NULL.
unfoldable pub device_init : Device → ℕ → ℕ → ℕ → Option DmaOps → Bool → Device × Status
device_init device device_id device_features queue_count none allocated = (device, err Errno.einval)
device_init device device_id device_features queue_count (some dma) allocated =
    if queue_count == 0 || ltb max_queues queue_count || is_null dma.read || is_null dma.write
    then (device, err Errno.einval)
    else if not allocated
    then (zero_device, err Errno.enomem)
    else (
      record zero_device {
        device_id = device_id;
        device_features = device_features;
        queues = replicate queue_count (fresh_queue dma);
      },
      done,
    )

-- `vart_virtio_device_destroy`
unfoldable pub device_destroy : Device → Device
device_destroy device = zero_device

-- `vart_virtio_device_set_features`: on 64-bit masks `x & ~y` is 0 exactly when `x & y` is `x`.
unfoldable pub set_features : Device → ℕ → Device × Status
set_features device driver_features =
    if bit_and driver_features device.device_features == driver_features
    then (record device { driver_features = driver_features }, done)
    else (device, err Errno.einval)

-- The reset of one queue in `vart_virtio_device_set_status`
abbrev pub clear_queue : Queue → Queue
clear_queue q = record q { ready = false; last_avail = 0; next_used = 0 }

-- `vart_virtio_device_set_status`
unfoldable pub set_status : Device → ℕ → Device × Status
set_status device status =
    if not (bit_and status status_mask == status)
    then (device, err Errno.einval)
    else if status == 0
    then (
      record device {
        queues = map clear_queue device.queues;
        driver_features = 0;
        status = status;
      },
      done,
    )
    else (record device { status = status }, done)

abbrev pub set_queue : Device → ℕ → Queue → Device
set_queue device i q = record device { queues = set device.queues i q }

-- The tests of `vart_virtio_queue_configure` on its arguments
unfoldable pub configure_invalid : ℕ → ℕ → ℕ → ℕ → Bool
configure_invalid size descriptors available used =
    size == 0
    || ltb max_queue_size size
    || not (bit_and size (size - 1) == 0)
    || not (descriptors % 16 == 0)
    || not (available % 2 == 0)
    || not (used % 4 == 0)

-- `vart_virtio_queue_configure`
unfoldable pub queue_configure : Device → ℕ → ℕ → ℕ → ℕ → ℕ → Device × Status
queue_configure device i size descriptors available used = elim (get_elem? device.queues i) [
  | none ↦ (device, err Errno.einval)
  | some q ↦
      if configure_invalid size descriptors available used
      then (device, err Errno.einval)
      else if q.ready
      then (device, err Errno.ebusy)
      else if not (address_range_valid descriptors (size * descriptor_size))
          || not (address_range_valid available (available_header_size + size * 2))
          || not (address_range_valid used (used_header_size + size * used_element_size))
      then (device, err Errno.eoverflow)
      else (
        set_queue device i (record q {
          size = size;
          last_avail = 0;
          next_used = 0;
          descriptor_address = descriptors;
          available_address = available;
          used_address = used;
          ready = true;
        }),
        done,
      )
]

-- `vart_virtio_queue_reset`
unfoldable pub queue_reset : Device → ℕ → Device × Status
queue_reset device i = elim (get_elem? device.queues i) [
  | none ↦ (device, err Errno.einval)
  | some q ↦ (
    set_queue device i (record q { ready = false; size = 0; last_avail = 0; next_used = 0 }),
    done,
  )
]

-- `virtio_queue_get`
unfoldable pub queue_get : Device → ℕ → Result Queue
queue_get device i = elim (get_elem? device.queues i) [
  | none ↦ err Errno.einval
  | some q ↦ if q.ready then ok q else err Errno.enodev
]

-- The fields of a raw descriptor
unfoldable pub decode : List ℕ → Descriptor
decode raw = record {
  address = load_le64 raw 0;
  length = load_le32 raw 8;
  flags = load_le16 raw 12;
  next = load_le16 raw 14;
}

-- `visited[index]`
unfoldable pub visited_at : List ℕ → ℕ → Bool
visited_at [] i = false
visited_at (v ∷ vs) i = v == i || visited_at vs i

-- What a descriptor that was read means for the loop.
pub data Verdict : Type 0 where
  fails : Errno → Verdict
  last : Verdict
  goes_on : Verdict

unfoldable pub judge : Queue → ℕ → Descriptor → Verdict
judge q count d =
    if is_indirect d.flags
    then fails Errno.enotsup
    else if has_unknown d.flags
    then fails Errno.eproto
    else if not (has_next d.flags)
    then last
    else if leb q.size d.next || count == max_queue_size
    then fails Errno.eproto
    else goes_on

unfoldable pub then_cons {ℓ} :
    {W : Type ℓ}
    → Descriptor
    → Option (W × Result (List Descriptor))
    → Option (W × Result (List Descriptor))
then_cons d none = none
then_cons d (some (v, err e)) = some (v, err e)
then_cons d (some (v, ok ds)) = some (v, ok (d ∷ ds))

module _ {W : Type 0} where
  -- One round of the loop of `vart_virtio_queue_pop` after the read, with `count` descriptors read:
  -- the descriptor is judged, and the loop goes on at the next index by `next`.
  unfoldable pub chain_step :
      Queue
      → ℕ
      → (ℕ → W → Option (W × Result (List Descriptor)))
      → W × Result (List ℕ)
      → Option (W × Result (List Descriptor))
  chain_step q count next (v, err e) = some (v, err e)
  chain_step q count next (v, ok bytes) = elim (judge q count (decode bytes)) [
    | fails e ↦ some (v, err e)
    | last ↦ some (v, ok (decode bytes ∷ []))
    | goes_on ↦ then_cons (decode bytes) (next (decode bytes).next v)
  ]

  -- The end of `vart_virtio_queue_pop`: `chain->count = count; queue->last_avail++`
  unfoldable pub pop_finish :
      Device
      → ℕ
      → Queue
      → ℕ
      → Option (W × Result (List Descriptor))
      → Option (W × Device × Result Chain)
  pop_finish device i q head none = none
  pop_finish device i q head (some (v, err e)) = some (v, device, err e)
  pop_finish device i q head (some (v, ok ds)) = some (
    v,
    set_queue device i (record q { last_avail = (q.last_avail + 1) % 2 ^ 16 }),
    ok (record { head = head; count = length ds; descriptors = ds }),
  )

module _ {W : Type 0} (c : DmaCallbacks W) where
  -- `virtio_queue_read` and `virtio_queue_write`
  unfoldable pub queue_read : Queue → ℕ → ℕ → W → W × Result (List ℕ)
  queue_read q address size w = elim q.dma.read [
    | none ↦ (w, err Errno.enosys)
    | some f ↦ c.dma_read f q.dma.opaque (address % 2 ^ 64) size w
  ]

  unfoldable pub queue_write : Queue → ℕ → List ℕ → W → W × Status
  queue_write q address bytes w = elim q.dma.write [
    | none ↦ (w, err Errno.enosys)
    | some f ↦ c.dma_write f q.dma.opaque (address % 2 ^ 64) bytes w
  ]

  -- The loop of `vart_virtio_queue_pop`: `count` descriptors are read, `index` is next; the answer is
  -- those from here on. `none` says that the fuel ran out.
  unfoldable pub walk : ℕ → Queue → ℕ → ℕ → List ℕ → W → Option (W × Result (List Descriptor))
  walk zero q index count visited w = none
  walk (suc fuel) q index count visited w =
      if visited_at visited index
      then some (w, err Errno.eloop)
      else chain_step q (count + 1) (λ i v. walk fuel q i (count + 1) (index ∷ visited) v)
          (queue_read q (q.descriptor_address + index * descriptor_size) descriptor_size w)

  -- The middle of `vart_virtio_queue_pop`: the raw head of the chain is read.
  unfoldable pub pop_head :
      Device → ℕ → Queue → W × Result (List ℕ) → Option (W × Device × Result Chain)
  pop_head device i q (v, err e) = some (v, device, err e)
  pop_head device i q (v, ok raw) =
      let head = load_le16 raw 0 in
      if leb q.size head
      then some (v, device, err Errno.eproto)
      else pop_finish device i q head (walk max_queue_size q head 0 [] v)

  -- The available index is read.
  unfoldable pub pop_index :
      Device → ℕ → Queue → W × Result (List ℕ) → Option (W × Device × Result Chain)
  pop_index device i q (v, err e) = some (v, device, err e)
  pop_index device i q (v, ok raw) =
      let available = load_le16 raw 0 in
      if available == q.last_avail
      then some (v, device, err Errno.eagain)
      else if ltb q.size ((available + 2 ^ 16 - q.last_avail) % 2 ^ 16)
      then some (v, device, err Errno.eproto)
      else pop_head device i q (
          queue_read q (q.available_address + available_header_size + q.last_avail % q.size * 2) 2
            v)

  -- `vart_virtio_queue_pop`; `none` says that the fuel of the loop ran out.
  unfoldable pub queue_pop : Device → ℕ → W → Option (W × Device × Result Chain)
  queue_pop device i w = elim (queue_get device i) [
    | err e ↦ some (w, device, err e)
    | ok q ↦ pop_index device i q (queue_read q (q.available_address + 2) 2 w)
  ]

  -- The end of `vart_virtio_queue_push_used`: the used index is written.
  unfoldable pub push_index : Device → ℕ → Queue → W × Status → W × Device × Status
  push_index device i q (v, err e) = (v, device, err e)
  push_index device i q (v, ok _) =
      let used_index = (q.next_used + 1) % 2 ^ 16 in
      let (u, ret) = queue_write q (q.used_address + 2) (store_le16 used_index) v in
      (u, set_queue device i (record q { next_used = used_index }), ret)

  -- `vart_virtio_queue_push_used`
  unfoldable pub queue_push_used : Device → ℕ → ℕ → ℕ → W → W × Device × Status
  queue_push_used device i head written w = elim (queue_get device i) [
    | err e ↦ (w, device, err e)
    | ok q ↦
        if leb q.size head
        then (w, device, err Errno.einval)
        else push_index device i q (
            queue_write q
              (q.used_address + used_header_size + q.next_used % q.size * used_element_size)
              (store_le32 head ++ store_le32 written) w)
  ]
