-- ===== src/Virtio/History.antt =====
-- Any sequence of operations of virtio.c on a device.
use vart.Common.{
  ℕ, ◌^◌, ◌<◌, Option, none, some, List, [], ◌∷◌, arith, ok, err, All, All-get_elem?, Result,
}
use vart.Virtio.Defs.{DmaCallbacks, Device, Chain}
use vart.Virtio.Queue.{
  set_features, set_status, queue_configure, queue_reset, queue_pop, queue_push_used,
}
use vart.Virtio.Pop.{IsPop, queue_pop_lem}
use vart.Virtio.Invariant.{
  advanced, advanced-IsQueue, IsDevice, IsQueue, set_status-IsDevice, queue_configure-IsDevice,
  queue_reset-IsDevice, queue_push_used-IsDevice, set_queue-IsDevice,
}

pub data Call : Type 0 where
  features : ℕ → Call
  status : ℕ → Call
  configure : ℕ → ℕ → ℕ → ℕ → ℕ → Call
  reset : ℕ → Call
  pop : ℕ → Call
  push : ℕ → ℕ → ℕ → Call

-- The addresses that a driver writes are 64-bit numbers.
abbrev pub Fits : Call → Type 0
Fits (configure i size descriptors available used) =
    (descriptors < 2 ^ 64) × (available < 2 ^ 64) × (used < 2 ^ 64)
Fits _ = Unit {0}

module _ {W : Type 0} where
  -- A pop that did not end would leave all as it was.
  abbrev kept : W → Device → Option (W × Device × Result Chain) → W × Device
  kept w d none = (w, d)
  kept w d (some (v, e, ret)) = (v, e)

popped-IsDevice :
    {W : Type 0} (w : W) (d : Device) (i : ℕ) (ret : Option (W × Device × Result Chain))
    → IsDevice d
    → IsPop d i ret
    → IsDevice (kept w d ret).1
popped-IsDevice w d i none v h = v
popped-IsDevice w d i (some (u, e, err x)) v h = rw h v
popped-IsDevice w d i (some (u, e, ok chain)) v (q, found, moved, _, _, _) = rw moved (
    set_queue-IsDevice d i (advanced q) v
      (advanced-IsQueue q (All-get_elem? IsQueue d.queues i q v.0 found)))

module _ {W : Type 0} (c : DmaCallbacks W) where
  unfoldable pub step : W → Device → Call → W × Device
  step w d (features f) = (w, (set_features d f).0)
  step w d (status s) = (w, (set_status d s).0)
  step w d (configure i size descriptors available used) =
      (w, (queue_configure d i size descriptors available used).0)
  step w d (reset i) = (w, (queue_reset d i).0)
  step w d (pop i) = kept w d (queue_pop c d i w)
  step w d (push i head written) = let (v, e, ret) = queue_push_used c d i head written w in (v, e)

  unfoldable pub run : W → Device → List Call → W × Device
  run w d [] = (w, d)
  run w d (call ∷ calls) = let (v, e) = step w d call in run v e calls

  step-IsDevice :
      (w : W) (d : Device) (call : Call) → Fits call → IsDevice d → IsDevice (step w d call).1
  unfolding step set_features
  step-IsDevice w d (features f) h v = ground arith
  step-IsDevice w d (status s) h v = set_status-IsDevice d s v
  step-IsDevice w d (configure i size a b e) h v =
      queue_configure-IsDevice d i size a b e h.0 h.1 h.2 v
  step-IsDevice w d (reset i) h v = queue_reset-IsDevice d i v
  step-IsDevice w d (pop i) h v = popped-IsDevice w d i _ v (queue_pop_lem c d i w v)
  step-IsDevice w d (push i head written) h v = queue_push_used-IsDevice c d i head written w v

  -- Whatever calls a driver causes, in whatever order, and whatever they return, a device stays well
  -- formed: it has at most 256 queues, and a queue that is ready has a power of two of 1 to 1024
  -- entries and aligned rings that lie inside of the 64-bit addresses.
  pub run-IsDevice :
      (w : W) (d : Device) (calls : List Call)
      → All Fits calls
      → IsDevice d
      → IsDevice (run w d calls).1
  unfolding run
  run-IsDevice w d [] h v = v
  run-IsDevice w d (call ∷ calls) h v =
      run-IsDevice (step w d call).0 (step w d call).1 calls h.1 (step-IsDevice w d call h.0 v)
