-- ===== src/Blk/Tests.antt =====
-- A disk of two sectors, and the theorems at concrete inputs.
use vart.Common.{
  ℕ, zero, suc, ◌+◌, ◌*◌, ◌%◌, ◌≤◌, ◌≡◌, refl, ap, true, some, List, [], ◌∷◌, ◌++◌, arith, leb,
  if◌then◌else◌, ok, err, length, Errno, Result, done,
}
use vart.AddressSpace.Access.{copy_in, copy_out}
use vart.Virtio.Defs.{zero_device, Chain, Descriptor, store_le}
use vart.Blk.Defs.{BlkDevice, Host}
use vart.Blk.Request.{notify}
use vart.Blk.Loops.{IsHost}
use vart.Blk.Segments.{with_file}
use vart.Blk.Confined.{notify_confined}

abbrev device : BlkDevice
device = record { virtio = zero_device; capacity_sectors = 2; block_size = 512; readonly = true }

-- A header, two buffers that share a sector, and a status
abbrev chain : Chain
chain = record {
  head = 0;
  count = 4;
  descriptors =
      record { address = 0x1000; length = 16; flags = 1; next = 1 }
      ∷ record { address = 0x2000; length = 500; flags = 3; next = 2 }
      ∷ record { address = 0x3000; length = 12; flags = 3; next = 3 }
      ∷ record { address = 0x4000; length = 1; flags = 2; next = 0 }
      ∷ [];
}

-- Bytes of the file
abbrev file : ℕ → ℕ
file offset = offset % 256

-- A host whose `pread` yields one byte at a time
abbrev slow_host : Host (ℕ → ℕ)
slow_host = record {
  dma_read = λ address size w. (w, ok (copy_out w address size));
  dma_write = λ address bytes w. (copy_in w address bytes, done);
  pread = λ n offset w. (w, ok (copy_out file offset 1));
  pwrite = λ bytes offset w. (w, err Errno.eperm);
  fsync = λ w. (w, done);
  allocates = λ n w. true;
  raise_queue_interrupt = λ w. (w, done);
}

-- A host that promises what its calls handle
abbrev careful_host : Host (ℕ → ℕ)
careful_host = record slow_host { pread = λ n offset w. (w, ok (copy_out file offset n)) }

length-copy_out : (w : ℕ → ℕ) (at n : ℕ) → length (copy_out w at n) ≡ n
unfolding copy_out
length-copy_out w at zero = refl
length-copy_out w at (suc n) = ap suc (length-copy_out w (at + 1) n)

careful_host-IsHost : IsHost careful_host
careful_host-IsHost = record {
  short_read = λ n offset w. let e = length-copy_out file offset n in omega arith;
  short_write = λ bytes offset w. tt;
  whole_dma = λ address n w. length-copy_out w address n;
}

-- The file that ends with the second sector
abbrev short_pread : ℕ → ℕ → (ℕ → ℕ) → (ℕ → ℕ) × Result (List ℕ)
short_pread n offset w =
    if leb (offset + n) 1024 then (w, ok (copy_out file offset n)) else (w, ok [])

short_pread-same :
    (n offset : ℕ) (w : ℕ → ℕ)
    → offset + n ≤ 2 * 512
    → (w, ok (copy_out file offset n)) ≡ short_pread n offset w
short_pread-same n offset w p =
    let inside : leb (offset + n) 1024 ≡ true = ground arith in rw inside refl

-- The device with a queue of four descriptors
abbrev live_device : BlkDevice
live_device = record device {
  virtio = record zero_device {
    status = 4;
    queues =
        record {
          size = 4;
          last_avail = 0;
          next_used = 0;
          descriptor_address = 0x5000;
          available_address = 0x6000;
          used_address = 0x7000;
          dma = record { read = some 1; write = some 2; opaque = 0 };
          ready = true;
        }
        ∷ [];
  };
}

-- A descriptor in the table
abbrev with_descriptor : ℕ → Descriptor → (ℕ → ℕ) → ℕ → ℕ
with_descriptor at d w =
    copy_in w at
      (store_le 8 d.address ++ store_le 4 d.length ++ store_le 2 d.flags ++ store_le 2 d.next)

-- The ring offers one request: a read of sector 1, into the buffers of the chain.
abbrev request_memory : ℕ → ℕ
request_memory =
    copy_in
      (copy_in
        (with_descriptor 0x5000 (record { address = 0x1000; length = 16; flags = 1; next = 1 })
          (with_descriptor 0x5010 (record { address = 0x2000; length = 500; flags = 3; next = 2 })
            (with_descriptor 0x5020 (record { address = 0x3000; length = 12; flags = 3; next = 3 })
              (with_descriptor 0x5030 (record { address = 0x4000; length = 1; flags = 2; next = 0 })
                (λ a. 0)))))
        0x6000 (0 ∷ 0 ∷ 1 ∷ 0 ∷ 0 ∷ 0 ∷ []))
      0x1000 (store_le 8 0 ++ store_le 8 1)

notify_confined_example :
    notify careful_host 8 live_device 0 request_memory
    ≡ notify
        (with_file careful_host short_pread (λ bytes offset w. (w, ok 0)))
        8
        live_device
        0
        request_memory
notify_confined_example =
    notify_confined careful_host short_pread (λ bytes offset w. (w, ok 0)) 8 live_device 0
      request_memory careful_host-IsHost short_pread-same
      (λ bytes offset w e p. absurd (ground (arith, e)))
