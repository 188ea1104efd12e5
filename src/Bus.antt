-- ===== src/Bus.antt =====
-- src/core/bus.c and src/core/device.c, with include/vart/bus.h and include/vart/device.h: buses,
-- the devices on them, and the devices' life cycle.
pub mod Invariant
pub mod History
mod Tests
use vart.Common.{
  ℕ, Bool, true, false, not, ◌&&◌, Option, none, some, List, [], ◌∷◌, ◌++◌, ◌==◌, if◌then◌else◌,
  is_null, ok, err, length, Errno, Status, done, update, remove_first,
}
use vart.AddressSpace.Ops.{grow, same_pointer}

-- `VartDeviceOps`: function pointers.
pub record DeviceOps : Type 0 where
  pub realize : Option ℕ
  pub unrealize : Option ℕ
  pub reset : Option ℕ

-- `VartDevice`; the name is a pointer.
pub record Device : Type 0 where
  pub name : ℕ
  pub bus : Option ℕ
  pub dma_as : Option ℕ
  pub dma_as_from_bus : Bool
  pub ops : Option DeviceOps
  pub opaque : ℕ
  pub realized : Bool

-- `VartBus`; `devices` holds the entries of the array that are in use, so that its length is
-- `device_count`.
pub record Bus : Type 0 where
  pub name : ℕ
  pub parent : Option ℕ
  pub address_space : Option ℕ
  pub devices : List ℕ
  pub device_capacity : ℕ

-- The store: devices and buses by pointer, and what else callbacks work on.
pub record Tree (D : Type 0) : Type 0 where
  pub device : ℕ → Device
  pub bus : ℕ → Bus
  pub rest : D

-- What the devices' function pointers do: pointer and device.
pub record DeviceCallbacks (D : Type 0) : Type 0 where
  pub realize : ℕ → ℕ → Tree D → Tree D × Status
  pub unrealize : ℕ → ℕ → Tree D → Tree D
  pub reset : ℕ → ℕ → Tree D → Tree D

abbrev pub zero_bus : Bus
zero_bus = record {
  name = 0;
  parent = none;
  address_space = none;
  devices = [];
  device_capacity = 0;
}

-- `device->ops != NULL && device->ops->realize != NULL`, and so for the others: the function
unfoldable pub realize_op : Device → Option ℕ
realize_op device = elim device.ops [ none ↦ none | some ops ↦ ops.realize ]

unfoldable pub unrealize_op : Device → Option ℕ
unrealize_op device = elim device.ops [ none ↦ none | some ops ↦ ops.unrealize ]

unfoldable pub reset_op : Device → Option ℕ
reset_op device = elim device.ops [ none ↦ none | some ops ↦ ops.reset ]

abbrev pub set_link : ℕ → Option ℕ → (ℕ → Device) → ℕ → Device
set_link d link devices = update devices d (record (devices d) { bus = link })

module _ {D : Type 0} where
  abbrev pub set_realized : ℕ → Bool → Tree D → Tree D
  set_realized d realized w = record w {
    device = update w.device d (record (w.device d) { realized = realized });
  }

  -- `vart_device_init`
  unfoldable pub device_init : Tree D → ℕ → ℕ → Option DeviceOps → ℕ → Option ℕ → Tree D
  device_init w d name ops opaque dma_as = record w {
    device = update w.device d (record {
      name = name;
      bus = none;
      dma_as = dma_as;
      dma_as_from_bus = false;
      ops = ops;
      opaque = opaque;
      realized = false;
    });
  }

  -- The end of `vart_device_realize`
  unfoldable pub realize_finish : ℕ → Tree D × Status → Tree D × Status
  realize_finish d (w, err e) = (w, err e)
  realize_finish d (w, ok _) = (set_realized d true w, done)

  -- `vart_bus_init`
  unfoldable pub bus_init : Tree D → ℕ → ℕ → Option ℕ → Option ℕ → Tree D
  bus_init w b name parent address_space = record w {
    bus =
        update w.bus b
          (record zero_bus { name = name; parent = parent; address_space = address_space });
  }

  -- `vart_bus_destroy`
  unfoldable pub bus_destroy : Tree D → Option ℕ → Tree D × Status
  bus_destroy w none = (w, err Errno.einval)
  bus_destroy w (some b) =
      if length (w.bus b).devices == 0
      then (record w { bus = update w.bus b zero_bus }, done)
      else (w, err Errno.ebusy)

  -- `vart_bus_add_device`; the array grows as an address space's does, from 4 entries, and
  -- `allocated` says whether `realloc` succeeds.
  unfoldable pub bus_add_device : Tree D → Option ℕ → Option ℕ → Bool → Tree D × Status
  bus_add_device w none device allocated = (w, err Errno.einval)
  bus_add_device w (some b) none allocated = (w, err Errno.einval)
  bus_add_device w (some b) (some d) allocated =
      if not (is_null (w.device d).bus)
      then (w, err Errno.ealready)
      else if (w.device d).realized
      then (w, err Errno.ebusy)
      else elim (grow (length (w.bus b).devices) (w.bus b).device_capacity allocated 4) [
        | err e ↦ (w, err e)
        | ok capacity ↦ (
          record w {
            device = set_link d (some b) w.device;
            bus = update w.bus b (record (w.bus b) {
              devices = (w.bus b).devices ++ d ∷ [];
              device_capacity = capacity;
            });
          },
          done,
        )
      ]

  -- `vart_bus_remove_device`
  unfoldable pub bus_remove_device : Tree D → Option ℕ → Option ℕ → Tree D × Status
  bus_remove_device w none device = (w, err Errno.enoent)
  bus_remove_device w (some b) none = (w, err Errno.enoent)
  bus_remove_device w (some b) (some d) =
      if not (same_pointer (w.device d).bus (some b))
      then (w, err Errno.enoent)
      else if (w.device d).realized
      then (w, err Errno.ebusy)
      else elim (remove_first d (w.bus b).devices) [
        | none ↦ (w, err Errno.enoent)
        | some rest ↦ (
          record w {
            device = set_link d none w.device;
            bus = update w.bus b (record (w.bus b) { devices = rest });
          },
          done,
        )
      ]

module _ {D : Type 0} (c : DeviceCallbacks D) where
  -- `vart_device_realize`
  unfoldable pub device_realize : Option ℕ → Tree D → Tree D × Status
  device_realize none w = (w, err Errno.ealready)
  device_realize (some d) w =
      if (w.device d).realized then (w, err Errno.ealready) else elim (realize_op (w.device d)) [
        | none ↦ realize_finish d (w, done)
        | some f ↦ realize_finish d (c.realize f d w)
      ]

  -- `vart_device_unrealize`
  unfoldable pub device_unrealize : Option ℕ → Tree D → Tree D
  device_unrealize none w = w
  device_unrealize (some d) w =
      if not (w.device d).realized then w else elim (unrealize_op (w.device d)) [
        | none ↦ set_realized d false w
        | some f ↦ set_realized d false (c.unrealize f d w)
      ]

  -- `vart_device_reset`
  unfoldable pub device_reset : Option ℕ → Tree D → Tree D × Status
  device_reset none w = (w, err Errno.einval)
  device_reset (some d) w =
      if not (w.device d).realized
      then (w, err Errno.einval)
      else elim (reset_op (w.device d)) [ none ↦ (w, done) | some f ↦ (c.reset f d w, done) ]
