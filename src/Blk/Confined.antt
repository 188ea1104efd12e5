-- ===== src/Blk/Confined.antt =====
-- The block device reaches its file only within its capacity.
use vart.Common.{
  ℕ, zero, suc, ◌+◌, ◌*◌, ◌%◌, ◌≤◌, ◌≡◌, refl, sym, ap, ◌∙◌, inl, inr, Bool, true, false, not, ◌&&◌,
  ◌||◌, Option, none, some, List, [], ◌∷◌, arith, ltb, ◌==◌, Bool-cases, Option-cases, ok, err,
  length, Result, Status, Result-cases,
}
use vart.Virtio.Defs.{Device, Descriptor, Chain, load_le32, load_le64}
use vart.Virtio.Queue.{queue_pop}
use vart.Blk.Defs.{BlkDevice, Host, callbacks, sector_size, offset_valid, u32_max}
use vart.Blk.Transfer.{segments, segment_invalid, measure, blk_io}
use vart.Blk.Request.{
  status_of, last_of, request_invalid, execute, complete, process_header, process_descriptors,
  process_request, notify_end, notify_processed, notify_step, notify_loop, notify,
}
use vart.Blk.Loops.{IsHost}
use vart.Blk.Segments.{with_file, total_length, transfer_all-agree}

pub measure-total_length :
    (to_guest : Bool) (start : ℕ) (ds : List Descriptor) (total : ℕ)
    → measure to_guest start ds ≡ ok total
    → total ≡ start + total_length ds
unfolding measure
measure-total_length to_guest start [] total e = ground (arith, e)
measure-total_length to_guest start (d ∷ ds) total e =
    elim (Bool-cases (segment_invalid to_guest start d)) [
      | inl bad ↦ absurd (ground (arith, bad, e))
      | inr good ↦
          let h =
            measure-total_length to_guest (start + d.length) ds total (ground (arith, good, e)) in
          omega arith
    ]

offset_valid-bound :
    (device : BlkDevice) (sector bytes offset : ℕ)
    → offset_valid device sector bytes ≡ some offset
    → offset + bytes ≤ device.capacity_sectors * sector_size
unfolding offset_valid
offset_valid-bound device sector bytes offset e = ground (arith, e)

module _ {W : Type 0} (host : Host W) (laws : IsHost host) (pread : ℕ → ℕ → W → W × Result (List ℕ))
    (pwrite : List ℕ → ℕ → W → W × Result ℕ) (sectors : ℕ) (readonly : Bool)
    (same_read : (n offset : ℕ) (w : W)
      → offset + n ≤ sectors * sector_size
      → host.pread n offset w ≡ pread n offset w)
    (same_write : (bytes : List ℕ) (offset : ℕ) (w : W)
      → readonly ≡ false
      → offset + length bytes ≤ sectors * sector_size
      → host.pwrite bytes offset w ≡ pwrite bytes offset w) where
  abbrev changed : Host W
  changed = with_file host pread pwrite

  -- The device has that capacity and is read-only or not.
  abbrev IsSame : BlkDevice → Type 0
  IsSame device = (device.capacity_sectors ≡ sectors) × (device.readonly ≡ readonly)

  blk_io-agree :
      (device : BlkDevice) (chain : Chain) (to_guest : Bool) (sector : ℕ) (w : W)
      → IsSame device
      → (to_guest ≡ false → readonly ≡ false)
      → blk_io host device chain to_guest sector w ≡ blk_io changed device chain to_guest sector w
  unfolding blk_io
  blk_io-agree device chain to_guest sector w same may =
      elim (Result-cases (measure to_guest 0 (segments chain.descriptors))) [
        | inr (e, bad) ↦ rw (bad, blk_io) refl
        | inl (total, measured) ↦
            elim (Bool-cases (total == 0 || not (total % sector_size == 0) || ltb u32_max total)) [
              | inl odd ↦ rw (measured, odd, blk_io) refl
              | inr even ↦ elim (Option-cases (offset_valid device sector total)) [
                | inl out ↦ rw (measured, even, out, blk_io) refl
                | inr (offset, inside) ↦
                    let sum =
                      measure-total_length to_guest 0 (segments chain.descriptors) total measured in
                    let bound = offset_valid-bound device sector total offset inside in
                    let cap : device.capacity_sectors * sector_size ≡ sectors * sector_size =
                      ap (λ n. n * sector_size) same.0 in
                    rw (measured, even, inside, blk_io)
                      (transfer_all-agree host laws pread pwrite (sectors * sector_size) to_guest
                        same_read (λ bytes offset w out. same_write bytes offset w (may out))
                        (segments chain.descriptors) offset 0 w (omega arith))
              ]
            ]
      ]

  execute-agree :
      (device : BlkDevice) (chain : Chain) (type sector : ℕ) (w : W)
      → IsSame device
      → execute host device chain type sector w ≡ execute changed device chain type sector w
  unfolding execute
  execute-agree device chain type sector w same = elim (Bool-cases (type == 0 || type == 1)) [
    | inr neither ↦ rw neither refl
    | inl data_ ↦ elim (Bool-cases (type == 1 && device.readonly)) [
      | inl refused ↦ rw (data_, refused) refl
      | inr allowed ↦
          rw (data_, allowed)
            (ap (λ r. (r.0, r.1, status_of r.2))
              (blk_io-agree device chain (type == 0) sector w same
                (λ out. sym same.1 ∙ ground (arith, data_, allowed, out))))
    ]
  ]

  process_request-agree :
      (device : BlkDevice) (chain : Chain) (w : W)
      → IsSame device
      → process_request host device chain w ≡ process_request changed device chain w
  unfolding process_request process_descriptors process_header complete callbacks
  process_request-agree device chain w same = descriptors chain.descriptors
    where
      header :
          (status_desc : Descriptor) (r : W × Result (List ℕ))
          → process_header host device chain status_desc r
            ≡ process_header changed device chain status_desc r
      header status_desc (v, err e) = refl
      header status_desc (v, ok bytes) =
          ap (complete host device chain status_desc)
            (execute-agree device chain (load_le32 bytes 0) (load_le64 bytes 8) v same)

      descriptors :
          (ds : List Descriptor)
          → process_descriptors host device chain ds w
            ≡ process_descriptors changed device chain ds w
      descriptors [] = refl
      descriptors (d ∷ []) = refl
      descriptors (d ∷ e ∷ ds) = elim (Bool-cases (request_invalid d (last_of e ds))) [
        | inl bad ↦ rw bad refl
        | inr good ↦ rw good (header (last_of e ds) (host.dma_read d.address 16 w))
      ]

  complete-IsSame :
      (device : BlkDevice) (chain : Chain) (status_desc : Descriptor) (r : W × ℕ × ℕ)
      → IsSame device
      → IsSame (complete host device chain status_desc r).1
  unfolding complete
  complete-IsSame device chain status_desc (w, used, status) same =
      elim (Result-cases (host.dma_write status_desc.address (status ∷ []) w).1) [
        | inl (_, fine) ↦ rw (fine, complete) same
        | inr (e, bad) ↦ rw (bad, complete) same
      ]

  process_request-IsSame :
      (device : BlkDevice) (chain : Chain) (w : W)
      → IsSame device
      → IsSame (process_request host device chain w).1
  unfolding process_request process_descriptors process_header
  process_request-IsSame device chain w same = descriptors chain.descriptors
    where
      header :
          (status_desc : Descriptor) (r : W × Result (List ℕ))
          → IsSame (process_header host device chain status_desc r).1
      header status_desc (v, err e) = same
      header status_desc (v, ok bytes) =
          complete-IsSame device chain status_desc
            (execute host device chain (load_le32 bytes 0) (load_le64 bytes 8) v) same

      descriptors : (ds : List Descriptor) → IsSame (process_descriptors host device chain ds w).1
      descriptors [] = same
      descriptors (d ∷ []) = same
      descriptors (d ∷ e ∷ ds) = elim (Bool-cases (request_invalid d (last_of e ds))) [
        | inl bad ↦ rw bad same
        | inr good ↦ rw good (header (last_of e ds) (host.dma_read d.address 16 w))
      ]

  -- One round of the loop, given the rest of it
  notify_step-agree :
      (completed : Bool) (device : BlkDevice)
      (next next' : BlkDevice → W → Option (W × BlkDevice × Status))
      (r : Option (W × Device × Result Chain))
      → IsSame device
      → ((device : BlkDevice) (w : W) → IsSame device → next device w ≡ next' device w)
      → notify_step host completed device next r ≡ notify_step changed completed device next' r
  unfolding notify_step notify_processed notify_end
  notify_step-agree completed device next next' none same rest = refl
  notify_step-agree completed device next next' (some (w, virtio, ok chain)) same rest =
      step (process_request host (record device { virtio = virtio }) chain w)
        (process_request-IsSame (record device { virtio = virtio }) chain w same)
      ∙ ap (notify_processed next')
          (process_request-agree (record device { virtio = virtio }) chain w same)
    where
      step :
          (r : W × BlkDevice × Status)
          → IsSame r.1
          → notify_processed next r ≡ notify_processed next' r
      step (v, d, err e) s = refl
      step (v, d, ok _) s = rest d v s
  notify_step-agree completed device next next' (some (w, virtio, err e)) same rest = refl

  notify_loop-agree :
      (fuel : ℕ) (completed : Bool) (device : BlkDevice) (w : W)
      → IsSame device
      → notify_loop host fuel completed device w ≡ notify_loop changed fuel completed device w
  unfolding notify_loop callbacks
  notify_loop-agree zero completed device w same = refl
  notify_loop-agree (suc fuel) completed device w same =
      notify_step-agree completed device (notify_loop host fuel true)
        (notify_loop changed fuel true) (queue_pop (callbacks host) device.virtio 0 w) same
        (notify_loop-agree fuel true)

-- Whatever requests a guest offers, a notification of the queue has the same effects, in as many rounds,
-- on two files on which the calls of `pread` within the capacity of the device yield the same, and so do
-- the calls of `pwrite` within it if the device is not read-only: it calls neither beyond the capacity,
-- nor `pwrite` on a read-only device. The host's calls keep to their bounds.
pub notify_confined :
    {W : Type 0} (host : Host W) (pread : ℕ → ℕ → W → W × Result (List ℕ))
    (pwrite : List ℕ → ℕ → W → W × Result ℕ) (fuel : ℕ) (device : BlkDevice) (queue_index : ℕ)
    (w : W)
    → IsHost host
    → ((n offset : ℕ) (v : W)
        → offset + n ≤ device.capacity_sectors * sector_size
        → host.pread n offset v ≡ pread n offset v)
    → ((bytes : List ℕ) (offset : ℕ) (v : W)
        → device.readonly ≡ false
        → offset + length bytes ≤ device.capacity_sectors * sector_size
        → host.pwrite bytes offset v ≡ pwrite bytes offset v)
    → notify host fuel device queue_index w
      ≡ notify (with_file host pread pwrite) fuel device queue_index w
unfolding notify
notify_confined host pread pwrite fuel device queue_index w laws same_read same_write =
    elim (Bool-cases (not (queue_index == 0))) [
      | inl other ↦ rw other refl
      | inr first ↦ rw first (
          notify_loop-agree host laws pread pwrite device.capacity_sectors device.readonly same_read
            same_write fuel false device w (refl, refl))
    ]
