-- ===== src/Blk/Transfer.antt =====
-- `virtio_blk_io`: data between the file and the buffers of a request.
use vart.Common.{
  ℕ, zero, suc, ◌+◌, ◌-◌, ◌%◌, ◌^◌, Bool, not, ◌||◌, none, some, List, [], ◌∷◌, ◌++◌, ltb, ◌==◌,
  if◌then◌else◌, has_bit, ok, err, length, drop, Errno, Result, Status, done,
}
use vart.AddressSpace.Defs.{u64_max}
use vart.Virtio.Defs.{Descriptor, Chain}
use vart.Blk.Defs.{BlkDevice, Host, max_segment, sector_size, u32_max, offset_valid}

-- `chain->descriptors[1]` to `chain->descriptors[chain->count - 2]`
unfoldable pub but_last : List Descriptor → List Descriptor
but_last [] = []
but_last (d ∷ []) = []
but_last (d ∷ e ∷ ds) = d ∷ but_last (e ∷ ds)

unfoldable pub segments : List Descriptor → List Descriptor
segments [] = []
segments (d ∷ ds) = but_last ds

-- A segment is empty or too long, goes the wrong way, or makes the total wrap.
unfoldable pub segment_invalid : Bool → ℕ → Descriptor → Bool
segment_invalid to_guest total d =
    d.length == 0
    || ltb max_segment d.length
    || (if has_bit d.flags 1 then not to_guest else to_guest)
    || ltb (u64_max - d.length) total

-- The first loop: the total length
unfoldable pub measure : Bool → ℕ → List Descriptor → Result ℕ
measure to_guest total [] = ok total
measure to_guest total (d ∷ ds) =
    let rest = measure to_guest (total + d.length) ds in
    if segment_invalid to_guest total d then err Errno.einval else rest

module _ {W : Type 0} where
  abbrev pub prepend : List ℕ → W × Result (List ℕ × ℕ) → W × Result (List ℕ × ℕ)
  prepend bytes (w, err e) = (w, err e)
  prepend bytes (w, ok (more, offset)) = (w, ok (bytes ++ more, offset))

  -- What follows a `pread`; `next` goes on with the bytes that are left, at an offset.
  unfoldable pub fill_step :
      ℕ → ℕ → (ℕ → ℕ → W → W × Result (List ℕ × ℕ)) → W × Result (List ℕ) → W × Result (List ℕ × ℕ)
  fill_step left offset next (w, err e) = (w, err e)
  fill_step left offset next (w, ok []) = (w, err Errno.eio)
  fill_step left offset next (w, ok (b ∷ bs)) =
      prepend (b ∷ bs) (next (left - length (b ∷ bs)) (offset + length (b ∷ bs)) w)

  -- What follows a `pwrite`
  unfoldable pub drain_step :
      List ℕ → ℕ → (List ℕ → ℕ → W → W × Result ℕ) → W × Result ℕ → W × Result ℕ
  drain_step bytes offset next (w, err e) = (w, err e)
  drain_step bytes offset next (w, ok zero) = (w, err Errno.eio)
  drain_step bytes offset next (w, ok (suc n)) = next (drop (suc n) bytes) (offset + suc n) w

  -- After a round of the second loop
  unfoldable pub transfer_step :
      ℕ → ℕ → (ℕ → ℕ → W → W × ℕ × Status) → W × Result ℕ → W × ℕ × Status
  transfer_step size used next (w, err e) = (w, used, err e)
  transfer_step size used next (w, ok offset) = next offset ((used + size) % 2 ^ 32) w

module _ {W : Type 0} (host : Host W) where
  -- The loop of `pread`: the bytes, and the offset behind them. Each round reads a byte at least, so
  -- that as many rounds as there are bytes to read are enough.
  unfoldable pub fill : ℕ → ℕ → ℕ → W → W × Result (List ℕ × ℕ)
  fill zero left offset w = (w, ok ([], offset))
  fill (suc rounds) left offset w =
      if left == 0
      then (w, ok ([], offset))
      else fill_step left offset (fill rounds) (host.pread left offset w)

  -- The loop of `pwrite`, in the same way: the offset behind the bytes
  unfoldable pub drain : ℕ → List ℕ → ℕ → W → W × Result ℕ
  drain zero bytes offset w = (w, ok offset)
  drain (suc rounds) bytes offset w =
      if length bytes == 0
      then (w, ok offset)
      else drain_step bytes offset (drain rounds) (host.pwrite bytes offset w)

  unfoldable pub deliver : Descriptor → W × Result (List ℕ × ℕ) → W × Result ℕ
  deliver d (w, err e) = (w, err e)
  deliver d (w, ok (bytes, offset)) =
      let (v, ret) = host.dma_write d.address bytes w in
      elim ret [ err e ↦ (v, err Errno.eio) | ok _ ↦ (v, ok offset) ]

  unfoldable pub save : ℕ → ℕ → W × Result (List ℕ) → W × Result ℕ
  save size offset (w, err e) = (w, err Errno.eio)
  save size offset (w, ok bytes) = drain size bytes offset w

  -- A round of the second loop: the offset behind the segment
  unfoldable pub transfer : Bool → Descriptor → ℕ → W → W × Result ℕ
  transfer to_guest d offset w =
      if not (host.allocates d.length w)
      then (w, err Errno.enomem)
      else if to_guest
      then deliver d (fill d.length d.length offset w)
      else save d.length offset (host.dma_read d.address d.length w)

  -- The second loop, with `*used_length` before and after
  unfoldable pub transfer_all : Bool → List Descriptor → ℕ → ℕ → W → W × ℕ × Status
  transfer_all to_guest [] offset used w = (w, used, done)
  transfer_all to_guest (d ∷ ds) offset used w =
      transfer_step d.length used (transfer_all to_guest ds) (transfer to_guest d offset w)

  -- `virtio_blk_io`, with `*used_length` in front of the status; it is 0 before.
  unfoldable pub blk_io : BlkDevice → Chain → Bool → ℕ → W → W × ℕ × Status
  blk_io device chain to_guest sector w = elim (measure to_guest 0 (segments chain.descriptors)) [
    | err e ↦ (w, 0, err e)
    | ok total ↦
        if total == 0 || not (total % sector_size == 0) || ltb u32_max total
        then (w, 0, err Errno.einval)
        else elim (offset_valid device sector total) [
          | none ↦ (w, 0, err Errno.einval)
          | some offset ↦ transfer_all to_guest (segments chain.descriptors) offset 0 w
        ]
  ]
