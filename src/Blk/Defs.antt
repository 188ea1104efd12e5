-- ===== src/Blk/Defs.antt =====
-- The data of virtio-blk.h, what the device asks of its host, and its configuration space.
use vart.Common.{
  ℕ, ◌+◌, ◌-◌, ◌*◌, ◌/◌, ◌%◌, ◌^◌, Bool, ◌&&◌, ◌||◌, Option, none, some, List, ltb, ◌==◌,
  if◌then◌else◌, ok, err, Errno, Result, Status,
}
use vart.AddressSpace.Defs.{u64_max}
use vart.Virtio.Defs.{Device, DmaCallbacks}

-- `VartVirtioBlkDevice`; of `pci` only the virtio device inside of it is here.
pub record BlkDevice : Type 0 where
  pub virtio : Device
  pub capacity_sectors : ℕ
  pub block_size : ℕ
  pub readonly : Bool

-- Calls of the host on a world `W`: DMA through the PCI device by address, `pread`, `pwrite` and
-- `fsync` on the file with what they return, `malloc`, and the interrupt of the queue.
pub record Host (W : Type 0) : Type 0 where
  pub dma_read : ℕ → ℕ → W → W × Result (List ℕ)
  pub dma_write : ℕ → List ℕ → W → W × Status
  pub pread : ℕ → ℕ → W → W × Result (List ℕ)
  pub pwrite : List ℕ → ℕ → W → W × Result ℕ
  pub fsync : W → W × Status
  pub allocates : ℕ → W → Bool
  pub raise_queue_interrupt : W → W × Status

-- The callbacks of the queue: `virtio_blk_dma_read` and `virtio_blk_dma_write`
unfoldable pub callbacks : {W : Type 0} → Host W → DmaCallbacks W
callbacks host = record {
  dma_read = λ f opaque address size w. host.dma_read address size w;
  dma_write = λ f opaque address bytes w. host.dma_write address bytes w;
}

-- `VART_VIRTIO_BLK_SECTOR_SIZE` and `VART_VIRTIO_BLK_MAX_SEGMENT`
abbrev pub sector_size : ℕ
sector_size = 512

abbrev pub max_segment : ℕ
max_segment = 0x100000

abbrev pub u32_max : ℕ
u32_max = 0xffffffff

-- `virtio_blk_config_read`
unfoldable pub config_read : BlkDevice → ℕ → ℕ → Result ℕ
config_read device offset size =
    if offset == 0 && size == 8
    then ok device.capacity_sectors
    else if size == 4 && (offset == 0 || offset == 4)
    then ok (device.capacity_sectors / 2 ^ (offset * 8) % 2 ^ 32)
    else if offset == 8 && size == 4
    then ok max_segment
    else if offset == 12 && size == 4
    then ok 128
    else if offset == 20 && size == 4
    then ok device.block_size
    else err Errno.einval

-- `virtio_blk_config_write`
unfoldable pub config_write : BlkDevice → ℕ → ℕ → ℕ → Status
config_write device offset size value = err Errno.eperm

-- `virtio_blk_offset_valid`: the offset, if it returns true. The conversion to `off_t` and back is the
-- identity.
unfoldable pub offset_valid : BlkDevice → ℕ → ℕ → Option ℕ
offset_valid device sector bytes =
    let byte_offset = sector * sector_size in
    if ltb (u64_max / sector_size) sector || ltb (u64_max / sector_size) device.capacity_sectors
    then none
    else if ltb (u64_max - bytes) byte_offset
        || ltb (device.capacity_sectors * sector_size) (byte_offset + bytes)
    then none
    else some byte_offset
