-- ===== src/Blk/Request.antt =====
-- Requests of the block device, and the notification of its queue.
use vart.Common.{
  ℕ, zero, suc, Bool, true, false, not, ◌&&◌, ◌||◌, Option, none, some, List, [], ◌∷◌, ltb, ◌==◌,
  if◌then◌else◌, has_bit, ok, err, Errno, Result, Status, done,
}
use vart.Virtio.Defs.{Device, Descriptor, Chain, load_le32, load_le64}
use vart.Virtio.Queue.{queue_pop, queue_push_used}
use vart.Blk.Defs.{BlkDevice, Host, callbacks}
use vart.Blk.Transfer.{blk_io}

-- `VIRTIO_BLK_S_OK`, `VIRTIO_BLK_S_IOERR` and `VIRTIO_BLK_S_UNSUPP`
abbrev pub status_ok : ℕ
status_ok = 0

abbrev pub status_ioerr : ℕ
status_ioerr = 1

abbrev pub status_unsupp : ℕ
status_unsupp = 2

abbrev pub status_of : Status → ℕ
status_of (ok _) = status_ok
status_of (err e) = status_ioerr

abbrev pub is_eagain : Errno → Bool
is_eagain Errno.eagain = true
is_eagain e = false

abbrev pub last_of : Descriptor → List Descriptor → Descriptor
last_of d [] = d
last_of d (e ∷ ds) = last_of e ds

-- The header is too short or to be written, or the status is empty or not to be written.
unfoldable pub request_invalid : Descriptor → Descriptor → Bool
request_invalid header_desc status_desc =
    ltb header_desc.length 16
    || has_bit header_desc.flags 1
    || status_desc.length == 0
    || not (has_bit status_desc.flags 1)

module _ {W : Type 0} where
  -- After a request is processed; `next` goes on with the loop.
  unfoldable pub notify_processed :
      (BlkDevice → W → Option (W × BlkDevice × Status))
      → W × BlkDevice × Status
      → Option (W × BlkDevice × Status)
  notify_processed next (w, device, err e) = some (w, device, err e)
  notify_processed next (w, device, ok _) = next device w

module _ {W : Type 0} (host : Host W) where
  -- The part of `virtio_blk_process_request` that depends on the type: the used length, and the status
  unfoldable pub execute : BlkDevice → Chain → ℕ → ℕ → W → W × ℕ × ℕ
  execute device chain type sector w =
      if type == 0 || type == 1
      then (if type == 1 && device.readonly
          then (w, 0, status_ioerr)
          else let (v, used, ret) = blk_io host device chain (type == 0) sector w in
            (v, used, status_of ret))
      else if type == 4 && has_bit device.virtio.driver_features 9
      then (let (v, ret) = host.fsync w in (v, 0, status_of ret))
      else (w, 0, status_unsupp)

  -- `virtio_blk_write_status` and the end of `virtio_blk_process_request`
  unfoldable pub complete : BlkDevice → Chain → Descriptor → W × ℕ × ℕ → W × BlkDevice × Status
  complete device chain status_desc (w, used, status) =
      let (v, ret) = host.dma_write status_desc.address (status ∷ []) w in
      elim ret [
        | err e ↦ (v, device, err e)
        | ok _ ↦
            let (u, virtio, pushed) =
              queue_push_used (callbacks host) device.virtio 0 chain.head used v in
            (u, record device { virtio = virtio }, pushed)
      ]

  unfoldable pub process_header :
      BlkDevice → Chain → Descriptor → W × Result (List ℕ) → W × BlkDevice × Status
  process_header device chain status_desc (w, err e) = (w, device, err e)
  process_header device chain status_desc (w, ok header) =
      complete device chain status_desc
        (execute device chain (load_le32 header 0) (load_le64 header 8) w)

  -- `virtio_blk_process_request`
  unfoldable pub process_descriptors :
      BlkDevice → Chain → List Descriptor → W → W × BlkDevice × Status
  process_descriptors device chain [] w = (w, device, err Errno.eproto)
  process_descriptors device chain (header_desc ∷ []) w = (w, device, err Errno.eproto)
  process_descriptors device chain (header_desc ∷ d ∷ ds) w =
      if request_invalid header_desc (last_of d ds)
      then (w, device, err Errno.eproto)
      else process_header device chain (last_of d ds) (host.dma_read header_desc.address 16 w)

  unfoldable pub process_request : BlkDevice → Chain → W → W × BlkDevice × Status
  process_request device chain w = process_descriptors device chain chain.descriptors w

  -- The end of `virtio_blk_notify`
  unfoldable pub notify_end : Bool → BlkDevice → W → W × BlkDevice × Status
  notify_end completed device w =
      if completed
      then (let (v, ret) = host.raise_queue_interrupt w in (v, device, ret))
      else (w, device, done)

  -- After the queue is asked for a request
  unfoldable pub notify_step :
      Bool
      → BlkDevice
      → (BlkDevice → W → Option (W × BlkDevice × Status))
      → Option (W × Device × Result Chain)
      → Option (W × BlkDevice × Status)
  notify_step completed device next none = none
  notify_step completed device next (some (w, virtio, ok chain)) =
      notify_processed next (process_request (record device { virtio = virtio }) chain w)
  notify_step completed device next (some (w, virtio, err e)) =
      if is_eagain e
      then some (notify_end completed (record device { virtio = virtio }) w)
      else some (w, record device { virtio = virtio }, err e)

  -- The loop of `virtio_blk_notify`, for at most `fuel` rounds; `none` where they are not enough, as
  -- when the guest offers requests without end.
  unfoldable pub notify_loop : ℕ → Bool → BlkDevice → W → Option (W × BlkDevice × Status)
  notify_loop zero completed device w = none
  notify_loop (suc fuel) completed device w =
      notify_step completed device (notify_loop fuel true)
        (queue_pop (callbacks host) device.virtio 0 w)

  -- `virtio_blk_notify`
  unfoldable pub notify : ℕ → BlkDevice → ℕ → W → Option (W × BlkDevice × Status)
  notify fuel device queue_index w =
      if not (queue_index == 0)
      then some (w, device, err Errno.einval)
      else notify_loop fuel false device w
