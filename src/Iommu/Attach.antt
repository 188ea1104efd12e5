-- ===== src/Iommu/Attach.antt =====
-- Contexts and the PCI devices that they are attached to: `vart_iommu_context_attach`, `_detach` and
-- `_matches_requester`, with the two functions of src/hw/pci/pci.c that they call.
use vart.Common.{
  ℕ, ◌≡◌, refl, ap, ◌∙◌, subst, inl, inr, Bool, false, not, ◌&&◌, ◌||◌, Option, none, some, arith,
  ◌==◌, if◌then◌else◌, Bool-cases, ==_refl, is_null, ok, err, Errno, Status, done, update,
}
use vart.Iommu.Defs.{Context}

-- Of `VartPciDevice`: `parent.dma_as`, `parent.dma_as_from_bus`, `parent.realized` and `requester_id`
pub record PciDevice : Type 0 where
  pub dma_as : Option ℕ
  pub dma_as_from_bus : Bool
  pub realized : Bool
  pub requester_id : ℕ

-- `vart_pci_device_set_dma_as`, on a device that is there
unfoldable pub set_dma_as : PciDevice → Option ℕ → PciDevice × Status
set_dma_as device address_space =
    if device.realized
    then (device, err Errno.ebusy)
    else (record device { dma_as = address_space; dma_as_from_bus = false }, done)

-- `vart_pci_device_requester_id`
unfoldable pub device_requester_id : (ℕ → PciDevice) → Option ℕ → ℕ
device_requester_id devices none = 0
device_requester_id devices (some d) = (devices d).requester_id

-- The end of `vart_iommu_context_attach`, where the device is changed
unfoldable pub attach_finish :
    (ℕ → PciDevice) → Context → ℕ → PciDevice × Status → (ℕ → PciDevice) × Context × Status
attach_finish devices context d (device, err e) = (update devices d device, context, err e)
attach_finish devices context d (device, ok _) =
    let changed = update devices d device in
    (
      changed,
      record context {
        attached_device = some d;
        requester_id = device_requester_id changed (some d);
      },
      done,
    )

-- `vart_iommu_context_attach`, on a context and a device that are there
unfoldable pub context_attach : (ℕ → PciDevice) → Context → ℕ → (ℕ → PciDevice) × Context × Status
context_attach devices context d =
    if not (is_null context.attached_device) || (devices d).realized
    then (devices, context, err Errno.einval)
    else attach_finish devices
        (record context {
          saved_dma_as = (devices d).dma_as;
          saved_dma_as_from_bus = (devices d).dma_as_from_bus;
        })
        d (set_dma_as (devices d) (some context.address_space))

abbrev pub same_device : Option ℕ → ℕ → Bool
same_device none d = false
same_device (some e) d = e == d

-- `vart_iommu_context_detach`, on a context and a device that are there
unfoldable pub context_detach : (ℕ → PciDevice) → Context → ℕ → (ℕ → PciDevice) × Context × Status
context_detach devices context d =
    if not (same_device context.attached_device d) || (devices d).realized
    then (devices, context, err Errno.einval)
    else (
      update devices d (record (devices d) {
        dma_as = context.saved_dma_as;
        dma_as_from_bus = context.saved_dma_as_from_bus;
      }),
      record context { attached_device = none; saved_dma_as = none; saved_dma_as_from_bus = false },
      done,
    )

-- `vart_iommu_context_matches_requester`, on a context that is there
unfoldable pub matches_requester : (ℕ → PciDevice) → Context → ℕ → Bool
matches_requester devices context requester_id =
    not (is_null context.attached_device)
    && context.requester_id == requester_id
    && device_requester_id devices context.attached_device == requester_id

-- The device and the context after a success
abbrev owned : PciDevice → Context → PciDevice
owned device context = record device {
  dma_as = some context.address_space;
  dma_as_from_bus = false;
}

abbrev holding : (ℕ → PciDevice) → Context → ℕ → Context
holding devices context d = record context {
  saved_dma_as = (devices d).dma_as;
  saved_dma_as_from_bus = (devices d).dma_as_from_bus;
  attached_device = some d;
  requester_id = (devices d).requester_id;
}

attach-owned :
    (devices after : ℕ → PciDevice) (context attached : Context) (d : ℕ)
    → context_attach devices context d ≡ (after, attached, done)
    → ((devices d).realized ≡ false)
      × (update devices d (owned (devices d) context) ≡ after)
      × (holding devices context d ≡ attached)
unfolding context_attach attach_finish set_dma_as device_requester_id
attach-owned devices after context attached d e =
    let free : (devices d).realized ≡ false = ground (arith, e) in
    (free, ground (arith, e, free), ground (arith, e, free))

restored :
    (device : PciDevice) → device.realized ≡ false → record device { realized = false } ≡ device
restored device free = subst (λ b. record device { realized = b } ≡ device) free refl

update-update :
    (devices : ℕ → PciDevice) (d e : ℕ) (first second : PciDevice)
    → second ≡ devices d
    → update (update devices d first) d second e ≡ devices e
update-update devices d e first second h = elim (Bool-cases (d == e)) [
  | inl same ↦ rw same (h ∙ ap devices (ground (arith, same)))
  | inr other ↦ rw other refl
]

detach-owned :
    (devices : ℕ → PciDevice) (context : Context) (d : ℕ)
    → (devices d).realized ≡ false
    → ((context_detach
          (update devices d (owned (devices d) context))
          (holding devices context d)
          d).2
        ≡ done)
      × ((e : ℕ)
          → (context_detach
                (update devices d (owned (devices d) context))
                (holding devices context d)
                d).0
              e
            ≡ devices e)
unfolding context_detach
detach-owned devices context d free = (
  ground (arith, free),
  λ e. rw (==_refl d, free) (update-update devices d e _ _ (restored (devices d) free)),
)

-- A device that is attached with success, to a context that is not, can be detached again: it then has
-- the address space for DMA that it had, and no device has changed.
pub detach-attach :
    (devices after : ℕ → PciDevice) (context attached : Context) (d : ℕ)
    → context_attach devices context d ≡ (after, attached, done)
    → ((context_detach after attached d).2 ≡ done)
      × ((e : ℕ) → (context_detach after attached d).0 e ≡ devices e)
detach-attach devices after context attached d e =
    let (free, same, held) = attach-owned devices after context attached d e in
    subst
      (λ x.
        ((context_detach x attached d).2 ≡ done)
        × ((e : ℕ) → (context_detach x attached d).0 e ≡ devices e))
      same
      (subst
        (λ x.
          ((context_detach (update devices d (owned (devices d) context)) x d).2 ≡ done)
          × ((e : ℕ)
              → (context_detach (update devices d (owned (devices d) context)) x d).0 e
                ≡ devices e))
        held (detach-owned devices context d free))
