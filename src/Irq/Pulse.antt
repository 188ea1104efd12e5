-- ===== src/Irq/Pulse.antt =====
-- A pulse of an interrupt line.
use vart.Common.{ℕ, ◌≡◌, refl, Bool, true, false, some, ok, err, Status, done}
use vart.Irq.{Irq, IrqSet, irq_note, irq_set, irq_raise, irq_lower, pulse_lower, irq_pulse}

-- A line as `vart_irq_init` makes it, at a level
abbrev pub line_at : ℕ → ℕ → ℕ → Bool → Irq
line_at f opaque line level = record { set = some f; opaque = opaque; line = line; level = level }

module _ {W : Type 0} (drive : IrqSet W) (f opaque line : ℕ) where
  -- A pulse of a low line drives its function high and then low. It succeeds, and the line is low,
  -- if both calls do; if the first fails the line stays low and is not driven again, and if the
  -- second fails it stays high.
  pub irq_pulse_lem :
      (w v x : W) (raised lowered : Status)
      → drive f opaque line true w ≡ (v, raised)
      → drive f opaque line false v ≡ (x, lowered)
      → irq_pulse drive (line_at f opaque line false) w ≡ elim raised [
        | err e ↦ (v, line_at f opaque line false, err e)
        | ok _ ↦ elim lowered [
          | err e ↦ (x, line_at f opaque line true, err e)
          | ok _ ↦ (x, line_at f opaque line false, done)
        ]
      ]
  unfolding irq_pulse irq_raise irq_lower irq_set pulse_lower irq_note
  irq_pulse_lem w v x (err e) lowered up down = rw up refl
  irq_pulse_lem w v x (ok _) (err e) up down = rw (up, down) refl
  irq_pulse_lem w v x (ok _) (ok _) up down = rw (up, down) refl
