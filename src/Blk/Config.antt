-- ===== src/Blk/Config.antt =====
-- The capacity in the configuration space.
use vart.Common.{ℕ, ◌+◌, ◌*◌, ◌/◌, ◌%◌, ◌^◌, ◌<◌, ◌≡◌, refl, ap, arith, ok}
use vart.Blk.Defs.{BlkDevice, config_read}

-- A driver that reads a 64-bit capacity in two halves of 32 bits gets the number that one read of 8 bytes
-- yields.
pub config_read-halves :
    (device : BlkDevice)
    → device.capacity_sectors < 2 ^ 64
    → (low high : ℕ) × (config_read device 0 4 ≡ ok low)
      × (config_read device 4 4 ≡ ok high)
      × (config_read device 0 8 ≡ ok (low + 2 ^ 32 * high))
unfolding config_read
config_read-halves device p =
    let c = device.capacity_sectors in
    let whole : c ≡ c / 2 ^ 0 % 2 ^ 32 + 2 ^ 32 * (c / 2 ^ 32 % 2 ^ 32) = omega arith in
    (c / 2 ^ 0 % 2 ^ 32, c / 2 ^ 32 % 2 ^ 32, refl, refl, ap ok whole)
