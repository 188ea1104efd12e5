-- ===== src/Bus/History.antt =====
-- Any sequence of calls keeps buses and devices in agreement.
use vart.Common.{
  ℕ, ◌≡◌, refl, sym, ap, ◌∙◌, subst, inl, inr, Bool, true, false, Option, none, some, List, [], ◌∷◌,
  arith, ℕ_discrete, Bool-cases, Option-cases, ok, err, Status, done,
}
use vart.Bus.{
  DeviceOps, Tree, bus_init, device_init, DeviceCallbacks, set_realized, bus_add_device,
  bus_remove_device, bus_destroy, device_realize, device_unrealize, device_reset, realize_finish,
  realize_op, unrealize_op, reset_op,
}
use vart.Bus.Invariant.{
  IsTree, IsBus, bus_add_device-IsTree, bus_remove_device-IsTree, bus_destroy-IsTree,
}

-- A call that uses a bus or a device, or initialises one
pub data Call : Type 0 where
  adds : ℕ → ℕ → Bool → Call
  removes : ℕ → ℕ → Call
  destroys : ℕ → Call
  realizes : ℕ → Call
  unrealizes : ℕ → Call
  resets : ℕ → Call
  inits_bus : ℕ → ℕ → Option ℕ → Option ℕ → Call
  inits_device : ℕ → ℕ → Option DeviceOps → ℕ → Option ℕ → Call

module _ {D : Type 0} where
  -- In the second world each bus holds the devices that it holds in the first, and each device is on
  -- the bus that it is on there.
  abbrev pub SameLinks : Tree D → Tree D → Type 0
  SameLinks w v =
      ((b : ℕ) → (v.bus b).devices ≡ (w.bus b).devices)
      × ((q : ℕ) → (v.device q).bus ≡ (w.device q).bus)

  pub SameLinks-IsTree : (w v : Tree D) → SameLinks w v → IsTree w → IsTree v
  SameLinks-IsTree w v (same, links) t = record {
    buses = λ b. subst (IsBus v.device b) (sym (same b)) record {
      once = (t.buses b).once;
      linked = λ q. (
        (λ i. links q ∙ ((t.buses b).linked q).0 i),
        (λ l. ((t.buses b).linked q).1 (sym (links q) ∙ l)),
      );
    };
  }

  -- A device's functions do not move devices between buses.
  pub record IsSteady (c : DeviceCallbacks D) : Type 0 where
    pub realize : (f d : ℕ) (w : Tree D) → SameLinks w (c.realize f d w).0
    pub unrealize : (f d : ℕ) (w : Tree D) → SameLinks w (c.unrealize f d w)
    pub reset : (f d : ℕ) (w : Tree D) → SameLinks w (c.reset f d w)

  realized-SameLinks :
      (w v : Tree D) (d : ℕ) (on : Bool) → SameLinks w v → SameLinks w (set_realized d on v)
  realized-SameLinks w v d on (same, links) = (same, λ q. ground (arith, links q, links d))

  realize_finish-SameLinks :
      (w : Tree D) (d : ℕ) (r : Tree D × Status)
      → SameLinks w r.0
      → SameLinks w (realize_finish d r).0
  unfolding realize_finish
  realize_finish-SameLinks w d (v, ok _) s = realized-SameLinks w v d true s
  realize_finish-SameLinks w d (v, err e) s = s

module _ {D : Type 0} (c : DeviceCallbacks D) (steady : IsSteady c) (d : ℕ) (w : Tree D) where
  same : SameLinks w w
  same = (λ b. refl, λ q. refl)

  device_realize-SameLinks : SameLinks w (device_realize c (some d) w).0
  unfolding device_realize realize_op
  device_realize-SameLinks = elim (Bool-cases (w.device d).realized) [
    | inl on ↦ rw on same
    | inr off ↦ elim (Option-cases (realize_op (w.device d))) [
      | inl absent ↦ rw (off, absent) (realize_finish-SameLinks w d (w, done) same)
      | inr (f, present) ↦
          rw (off, present) (realize_finish-SameLinks w d (c.realize f d w) (steady.realize f d w))
    ]
  ]

  device_unrealize-SameLinks : SameLinks w (device_unrealize c (some d) w)
  unfolding device_unrealize unrealize_op
  device_unrealize-SameLinks = elim (Bool-cases (w.device d).realized) [
    | inr off ↦ rw off same
    | inl on ↦ elim (Option-cases (unrealize_op (w.device d))) [
      | inl absent ↦ rw (on, absent) (realized-SameLinks w w d false same)
      | inr (f, present) ↦
          rw (on, present)
            (realized-SameLinks w (c.unrealize f d w) d false (steady.unrealize f d w))
    ]
  ]

  device_reset-SameLinks : SameLinks w (device_reset c (some d) w).0
  unfolding device_reset reset_op
  device_reset-SameLinks = elim (Bool-cases (w.device d).realized) [
    | inr off ↦ rw off same
    | inl on ↦ elim (Option-cases (reset_op (w.device d))) [
      | inl absent ↦ rw (on, absent) same
      | inr (f, present) ↦ rw (on, present) (steady.reset f d w)
    ]
  ]

module _ {D : Type 0} (w : Tree D) where
  bus_init-SameLinks :
      (b name : ℕ) (parent address_space : Option ℕ)
      → (w.bus b).devices ≡ []
      → SameLinks w (bus_init w b name parent address_space)
  unfolding bus_init
  bus_init-SameLinks b name parent address_space empty = (
    (λ q. elim (ℕ_discrete b q) [
      | yes e ↦ ground (arith, sym empty ∙ ap (λ i. (w.bus i).devices) e, e)
      | no n ↦ ground (arith, n)
    ]),
    λ q. refl,
  )

  device_init-SameLinks :
      (d name : ℕ) (ops : Option DeviceOps) (opaque : ℕ) (dma_as : Option ℕ)
      → (w.device d).bus ≡ none
      → SameLinks w (device_init w d name ops opaque dma_as)
  unfolding device_init
  device_init-SameLinks d name ops opaque dma_as free = (
    (λ b. refl),
    λ q. elim (ℕ_discrete d q) [
      | yes e ↦ ground (arith, sym free ∙ ap (λ i. (w.device i).bus) e, e)
      | no n ↦ ground (arith, n)
    ],
  )

module _ {D : Type 0} (c : DeviceCallbacks D) where
  unfoldable pub step : Tree D → Call → Tree D
  step w (adds b d allocated) = (bus_add_device w (some b) (some d) allocated).0
  step w (removes b d) = (bus_remove_device w (some b) (some d)).0
  step w (destroys b) = (bus_destroy w (some b)).0
  step w (realizes d) = (device_realize c (some d) w).0
  step w (unrealizes d) = device_unrealize c (some d) w
  step w (resets d) = (device_reset c (some d) w).0
  step w (inits_bus b name parent address_space) = bus_init w b name parent address_space
  step w (inits_device d name ops opaque dma_as) = device_init w d name ops opaque dma_as

  -- Only a bus that holds no devices and a device that is on no bus are initialised.
  abbrev pub IsAllowed : Tree D → Call → Type 0
  IsAllowed w (inits_bus b name parent address_space) = (w.bus b).devices ≡ []
  IsAllowed w (inits_device d name ops opaque dma_as) = (w.device d).bus ≡ none
  IsAllowed w (adds b d allocated) = Unit {0}
  IsAllowed w (removes b d) = Unit {0}
  IsAllowed w (destroys b) = Unit {0}
  IsAllowed w (realizes d) = Unit {0}
  IsAllowed w (unrealizes d) = Unit {0}
  IsAllowed w (resets d) = Unit {0}

  -- So it is with each call of a sequence, where it is made.
  abbrev pub AreAllowed : Tree D → List Call → Type 0
  AreAllowed w [] = Unit {0}
  AreAllowed w (call ∷ calls) = IsAllowed w call × AreAllowed (step w call) calls

  unfoldable pub run : Tree D → List Call → Tree D
  run w [] = w
  run w (call ∷ calls) = run (step w call) calls

module _ {D : Type 0} (c : DeviceCallbacks D) (steady : IsSteady c) where
  step-IsTree : (w : Tree D) (call : Call) → IsAllowed c w call → IsTree w → IsTree (step c w call)
  unfolding step
  step-IsTree w (adds b d allocated) allowed v = bus_add_device-IsTree w b d allocated v
  step-IsTree w (removes b d) allowed v = bus_remove_device-IsTree w b d v
  step-IsTree w (destroys b) allowed v = bus_destroy-IsTree w b v
  step-IsTree w (realizes d) allowed v =
      SameLinks-IsTree w (device_realize c (some d) w).0 (device_realize-SameLinks c steady d w) v
  step-IsTree w (unrealizes d) allowed v =
      SameLinks-IsTree w (device_unrealize c (some d) w) (device_unrealize-SameLinks c steady d w) v
  step-IsTree w (resets d) allowed v =
      SameLinks-IsTree w (device_reset c (some d) w).0 (device_reset-SameLinks c steady d w) v
  step-IsTree w (inits_bus b name parent address_space) allowed v =
      SameLinks-IsTree w (bus_init w b name parent address_space)
        (bus_init-SameLinks w b name parent address_space allowed) v
  step-IsTree w (inits_device d name ops opaque dma_as) allowed v =
      SameLinks-IsTree w (device_init w d name ops opaque dma_as)
        (device_init-SameLinks w d name ops opaque dma_as allowed) v

  -- No sequence of calls, failing or not, makes buses and devices disagree, if the devices' own
  -- functions do not move devices between buses, and a bus is initialised only while it holds no
  -- devices, a device only while it is on no bus: each bus holds exactly the devices that name it,
  -- each once.
  pub run-IsTree :
      (w : Tree D) (calls : List Call) → AreAllowed c w calls → IsTree w → IsTree (run c w calls)
  unfolding run
  run-IsTree w [] allowed v = v
  run-IsTree w (call ∷ calls) (now, later) v =
      run-IsTree (step c w call) calls later (step-IsTree w call now v)
