-- ===== src/Irq/Tests.antt =====
-- Runs of interrupt lines, and the theorems at concrete inputs.
use vart.Common.{◌≡◌, refl, Bool, true, false, List, [], ◌∷◌, ◌==◌, if◌then◌else◌, err, Errno, done}
use vart.Irq.{IrqSet, irq_pulse, irq_set, irq_raise, irq_lower, pulse_lower, irq_note}
use vart.Irq.Pulse.{line_at, irq_pulse_lem}

-- A driver that logs levels, and refuses the line 9.
abbrev logged : IrqSet (List Bool)
logged f opaque line level w = if line == 9 then (w, err Errno.eio) else (level ∷ w, done)

pulse_refused :
    irq_pulse logged (line_at 1 2 3 false) [] ≡ (false ∷ true ∷ [], line_at 1 2 3 false, done)
unfolding irq_pulse irq_raise irq_lower irq_set pulse_lower irq_note
pulse_refused = refl

irq_pulse_lem_example :
    irq_pulse logged (line_at 1 2 3 false) [] ≡ (false ∷ true ∷ [], line_at 1 2 3 false, done)
irq_pulse_lem_example =
    irq_pulse_lem logged 1 2 3 [] (true ∷ []) (false ∷ true ∷ []) done done refl refl
