-- ===== src/Virtio/Defs.antt =====
-- The data of virtio.h, and the loads and stores of little-endian numbers in virtio.c. The device
-- that a function is given is not NULL.
-- A byte is a number below 256; bytes at different shifts do not meet, so `|` of them is a sum.
use vart.Common.{
  ℕ, zero, suc, ◌+◌, ◌-◌, ◌*◌, ◌/◌, ◌%◌, ◌^◌, Bool, false, not, ◌||◌, Option, List, [], ◌∷◌, leb,
  ◌==◌, has_bit, get_or, Result, Status,
}

-- `VartVirtioDmaOps`: function pointers and their opaque value.
pub record DmaOps : Type 0 where
  pub read : Option ℕ
  pub write : Option ℕ
  pub opaque : ℕ

-- What the function pointers do on a world `W`: pointer, opaque value, address, then the size to
-- read or the bytes to write.
pub record DmaCallbacks (W : Type 0) : Type 0 where
  pub dma_read : ℕ → ℕ → ℕ → ℕ → W → W × Result (List ℕ)
  pub dma_write : ℕ → ℕ → ℕ → List ℕ → W → W × Status

-- `VartVirtioDescriptor`
pub record Descriptor : Type 0 where
  pub address : ℕ
  pub length : ℕ
  pub flags : ℕ
  pub next : ℕ

-- `VartVirtioChain`
pub record Chain : Type 0 where
  pub head : ℕ
  pub count : ℕ
  pub descriptors : List Descriptor

-- `VartVirtioQueue`
pub record Queue : Type 0 where
  pub size : ℕ
  pub last_avail : ℕ
  pub next_used : ℕ
  pub descriptor_address : ℕ
  pub available_address : ℕ
  pub used_address : ℕ
  pub dma : DmaOps
  pub ready : Bool

-- `VartVirtioDevice`: the queues are `queue_count` in number.
pub record Device : Type 0 where
  pub device_id : ℕ
  pub device_features : ℕ
  pub driver_features : ℕ
  pub status : ℕ
  pub queues : List Queue

abbrev pub max_queue_size : ℕ
max_queue_size = 1024

abbrev pub max_queues : ℕ
max_queues = 256

-- `VART_VIRTIO_STATUS_MASK`: 1, 2, 4, 8, 0x40 and 0x80
abbrev pub status_mask : ℕ
status_mask = 0xcf

abbrev pub descriptor_size : ℕ
descriptor_size = 16

abbrev pub available_header_size : ℕ
available_header_size = 4

abbrev pub used_header_size : ℕ
used_header_size = 4

abbrev pub used_element_size : ℕ
used_element_size = 8

-- `memset(&queue, 0, sizeof(queue))` with the callbacks filled in
abbrev pub fresh_queue : DmaOps → Queue
fresh_queue dma = record {
  size = 0;
  last_avail = 0;
  next_used = 0;
  descriptor_address = 0;
  available_address = 0;
  used_address = 0;
  dma = dma;
  ready = false;
}

abbrev pub zero_device : Device
zero_device = record {
  device_id = 0;
  device_features = 0;
  driver_features = 0;
  status = 0;
  queues = [];
}

-- A field of `n` bytes at an offset, the least significant byte first.
unfoldable pub load_le : List ℕ → ℕ → ℕ → ℕ
load_le bytes offset zero = 0
load_le bytes offset (suc n) = get_or bytes offset 0 + 256 * load_le bytes (offset + 1) n

-- `virtio_load_le16`, `virtio_load_le32` and `virtio_load_le64` at `data + offset`
abbrev pub load_le16 : List ℕ → ℕ → ℕ
load_le16 bytes offset = load_le bytes offset 2

abbrev pub load_le32 : List ℕ → ℕ → ℕ
load_le32 bytes offset = load_le bytes offset 4

abbrev pub load_le64 : List ℕ → ℕ → ℕ
load_le64 bytes offset = load_le bytes offset 8

unfoldable pub store_le : ℕ → ℕ → List ℕ
store_le zero value = []
store_le (suc n) value = value % 256 ∷ store_le n (value / 256)

-- `virtio_store_le16` and `virtio_store_le32`
abbrev pub store_le16 : ℕ → List ℕ
store_le16 value = store_le 2 value

abbrev pub store_le32 : ℕ → List ℕ
store_le32 value = store_le 4 value

-- `virtio_address_range_valid`
unfoldable pub address_range_valid : ℕ → ℕ → Bool
address_range_valid address size =
    size == 0 || leb address ((2 ^ 64 - 1 + 2 ^ 64 - (size - 1)) % 2 ^ 64)

-- `VART_VIRTIO_DESC_F_NEXT`, `_INDIRECT`, and bits outside of `VART_VIRTIO_DESC_F_MASK`
unfoldable pub has_next : ℕ → Bool
has_next flags = has_bit flags 0

unfoldable pub is_indirect : ℕ → Bool
is_indirect flags = has_bit flags 2

unfoldable pub has_unknown : ℕ → Bool
has_unknown flags = not (flags / 8 == 0)
