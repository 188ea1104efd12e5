-- ===== src/Irq.antt =====
-- src/core/irq.c and include/vart/irq.h: interrupt lines.
pub mod Line
pub mod Pulse
mod Tests
use vart.Common.{
  ℕ, Bool, true, false, not, ◌||◌, Option, none, some, if◌then◌else◌, is_null, ok, err, Errno,
  Status, done,
}

-- `VartIrq`: the function pointer that drives the line, its arguments, and the level last set.
pub record Irq : Type 0 where
  pub set : Option ℕ
  pub opaque : ℕ
  pub line : ℕ
  pub level : Bool

-- What the function pointers do on a world `W`: pointer, opaque value, line and level.
abbrev pub IrqSet : Type 0 → Type 0
IrqSet W = ℕ → ℕ → ℕ → Bool → W → W × Status

abbrev pub same_level : Bool → Bool → Bool
same_level true level = level
same_level false level = not level

-- `vart_irq_init`; the line that is returned is the one that the pointer names, `none` for NULL.
unfoldable pub irq_init : Option Irq → Option ℕ → ℕ → ℕ → Option Irq × Status
irq_init none set opaque line = (none, err Errno.einval)
irq_init (some irq) none opaque line = (some irq, err Errno.einval)
irq_init (some irq) (some f) opaque line =
    (some (record { set = some f; opaque = opaque; line = line; level = false }), done)

module _ {W : Type 0} where
  -- The end of `vart_irq_set`: the level is noted if the call succeeded.
  unfoldable pub irq_note : Irq → Bool → W × Status → W × Irq × Status
  irq_note irq level (v, err e) = (v, irq, err e)
  irq_note irq level (v, ok _) = (v, record irq { level = level }, done)

module _ {W : Type 0} (drive : IrqSet W) where
  -- `vart_irq_set`, on a line that is there
  unfoldable pub irq_set : Irq → Bool → W → W × Irq × Status
  irq_set irq level w = elim irq.set [
    | none ↦ (w, irq, err Errno.einval)
    | some f ↦
        if same_level irq.level level
        then (w, irq, done)
        else irq_note irq level (drive f irq.opaque irq.line level w)
  ]

  -- `vart_irq_raise` and `vart_irq_lower`
  unfoldable pub irq_raise : Irq → W → W × Irq × Status
  irq_raise irq w = irq_set irq true w

  unfoldable pub irq_lower : Irq → W → W × Irq × Status
  irq_lower irq w = irq_set irq false w

  -- The end of `vart_irq_pulse`
  unfoldable pub pulse_lower : W × Irq × Status → W × Irq × Status
  pulse_lower (v, irq, err e) = (v, irq, err e)
  pulse_lower (v, irq, ok _) = irq_lower irq v

  -- `vart_irq_pulse`
  unfoldable pub irq_pulse : Irq → W → W × Irq × Status
  irq_pulse irq w =
      if is_null irq.set || irq.level
      then (w, irq, err Errno.einval)
      else pulse_lower (irq_raise irq w)
