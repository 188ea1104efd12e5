-- ===== src/Blk/Reads.antt =====
-- A read request puts the bytes of the file into the guest's buffers.
use vart.Common.{ℕ, ◌+◌, ◌^◌, ◌≤◌, ◌<◌, ◌≡◌, true, List, [], ◌∷◌, has_bit, ok, length, Result, done}
use vart.AddressSpace.Access.{copy_in, copy_out}
use vart.Virtio.Defs.{Descriptor}
use vart.Blk.Defs.{Host}

-- A host with a regular file that holds `file`: `pread` yields some of the bytes that it is asked for, but
-- none only at the end. The world is guest memory, which DMA writes reach, and memory for buffers is
-- there.
pub record Serves (host : Host (ℕ → ℕ)) (file : ℕ → ℕ) : Type 0 where
  pub preads :
      (n offset : ℕ) (w : ℕ → ℕ)
      → 0 < n
      → (k : ℕ) × (0 < k) × (k ≤ n) × (host.pread n offset w ≡ (w, ok (copy_out file offset k)))
  pub writes :
      (address : ℕ) (bytes : List ℕ) (w : ℕ → ℕ)
      → host.dma_write address bytes w ≡ (copy_in w address bytes, done)
  pub has_memory : (n : ℕ) (w : ℕ → ℕ) → host.allocates n w ≡ true

-- Guest memory after the segments, one after another, have the bytes of the file from an offset on
abbrev pub scatter : (ℕ → ℕ) → List Descriptor → ℕ → (ℕ → ℕ) → ℕ → ℕ
scatter file [] offset w = w
scatter file (d ∷ ds) offset w =
    scatter file ds (offset + d.length) (copy_in w d.address (copy_out file offset d.length))

-- A segment that the device may fill: 1 to 2^20 bytes, that it may write
abbrev pub IsBuffer : Descriptor → Type 0
IsBuffer d = (0 < d.length) × (d.length ≤ 2 ^ 20) × (has_bit d.flags 1 ≡ true)

-- The answer of a loop that has the bytes from an offset on, `n` of them
abbrev filled : (ℕ → ℕ) → ℕ → ℕ → (ℕ → ℕ) → (ℕ → ℕ) × Result (List ℕ × ℕ)
filled file offset n w = (w, ok (copy_out file offset n, offset + n))
