-- ===== src/Bus/Tests.antt =====
-- Runs of buses and devices, and the theorems at concrete inputs.
use vart.Common.{
  ℕ, ◌+◌, ◌≡◌, refl, sym, ◌↔◌, true, false, none, some, List, [], ◌∷◌, arith, ℕ_discrete, ==_ne,
  done, update,
}
use vart.Bus.{
  Device, Tree, DeviceCallbacks, zero_bus, bus_init, bus_remove_device, device_realize, realize_op,
  realize_finish,
}
use vart.Bus.Invariant.{IsTree, bus_remove_device-succeeds}
use vart.Bus.History.{Call, IsSteady, AreAllowed, step, run, run-IsTree}

abbrev device : Device
device = record {
  name = 0;
  bus = none;
  dma_as = none;
  dma_as_from_bus = false;
  ops = some (record { realize = some 1; unrealize = none; reset = none });
  opaque = 0;
  realized = false;
}

-- Device 1 is on bus 0, and the others are on none. The devices' functions count their calls.
abbrev tree : Tree ℕ
tree = record {
  device = update (λ _. device) 1 (record device { bus = some 0 });
  bus = update (λ _. zero_bus) 0 (record zero_bus { devices = 1 ∷ []; device_capacity = 4 });
  rest = 0;
}

abbrev callbacks : DeviceCallbacks ℕ
callbacks = record {
  realize = λ f d w. (record w { rest = w.rest + 1 }, done);
  unrealize = λ f d w. record w { rest = w.rest + 1 };
  reset = λ f d w. record w { rest = w.rest + 1 };
}

tree-IsTree : IsTree tree
tree-IsTree = record {
  buses = λ b. elim (ℕ_discrete b 0) [
    | yes e ↦ rw e (record { once = ((λ m. m), tt); linked = λ d. ground arith })
    | no x ↦ rw (==_ne 0 b (λ h. x (sym h))) (record { once = tt; linked = λ d. ground arith })
  ];
}

callbacks-IsSteady : IsSteady callbacks
callbacks-IsSteady = record {
  realize = λ f d w. (λ b. refl, λ q. refl);
  unrealize = λ f d w. (λ b. refl, λ q. refl);
  reset = λ f d w. (λ b. refl, λ q. refl);
}

realize_once : (device_realize callbacks (some 1) tree).0.rest ≡ 1
unfolding device_realize realize_op realize_finish
realize_once = refl

-- A second bus and a device are initialised, and the device is added to the first bus.
abbrev calls : List Call
calls =
    Call.inits_bus 3 9 (some 0) none
    ∷ Call.inits_device 2 5 none 0 none
    ∷ Call.adds 0 2 true
    ∷ Call.realizes 2
    ∷ Call.removes 0 1
    ∷ []

calls-AreAllowed : AreAllowed callbacks tree calls
unfolding step bus_init
calls-AreAllowed = (refl, (refl, (tt, (tt, (tt, tt)))))

run-IsTree_example : IsTree (run callbacks tree calls)
run-IsTree_example = run-IsTree callbacks callbacks-IsSteady tree calls calls-AreAllowed tree-IsTree

bus_remove_device-succeeds_example :
    ((bus_remove_device tree (some 0) (some 1)).1 ≡ done)
    ↔ (((tree.device 1).bus ≡ some 0) × ((tree.device 1).realized ≡ false))
bus_remove_device-succeeds_example = bus_remove_device-succeeds tree 0 1 tree-IsTree
