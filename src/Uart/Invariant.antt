-- ===== src/Uart/Invariant.antt =====
-- What holds of the serial port between accesses.
use vart.Common.{
  ℕ, ◌^◌, ◌<◌, ◌≡◌, refl, sym, ap, ◌∙◌, ◌⊎◌, inl, inr, Bool, Option, none, some, arith,
  Option-cases, ok, err, Errno, Status, done,
}
use vart.Irq.{Irq, IrqSet, irq_set}
use vart.Irq.Line.{irq_set-cases, irq_set-same, with_level}
use vart.Uart.{Uart, update_irq, cause, pending, receive_due, transmit_due, data_ready, note_cause}

-- A connected line has a function, and was set to `level` last.
abbrev pub IsAt : Option Irq → Bool → Type 0
IsAt line level = (irq : Irq) → line ≡ some irq → (f : ℕ) × (irq.set ≡ some f) × (irq.level ≡ level)

-- Each register holds what its type and the masks of the writes leave of it.
pub record InRange (uart : Uart) : Type 0 where
  pub ier_4 : uart.ier < 2 ^ 4
  pub lcr_8 : uart.lcr < 2 ^ 8
  pub mcr_5 : uart.mcr < 2 ^ 5
  pub scr_8 : uart.scr < 2 ^ 8
  pub rbr_8 : uart.rbr < 2 ^ 8
  pub divisor_16 : uart.divisor < 2 ^ 16
  pub status : (uart.lsr ≡ 0x60) ⊎ (uart.lsr ≡ 0x61)

-- The noted cause and the line's level are those that the enable and the status register call for.
pub record IsUart (uart : Uart) : Type 0 where
  pub range : InRange uart
  pub caused : uart.iir ≡ cause uart
  pub follows : IsAt uart.irq (pending uart)

abbrev pub with_irq : Uart → Option Irq → Uart
with_irq uart line = record uart { irq = line }

-- The device after a successful `uart_update_irq`
abbrev pub updated : Uart → Option Irq → Uart
updated uart line = record uart { irq = line; iir = cause uart }

IsAt-with_level :
    (irq next : Irq) (level : Bool) (f : ℕ)
    → irq.set ≡ some f
    → next ≡ with_level irq level
    → IsAt (some next) level
IsAt-with_level irq next level f has e other same =
    let at : other ≡ with_level irq level = cc (same, e) in
    (f, ap (λ (i : Irq). i.set) at ∙ has, ap (λ (i : Irq). i.level) at)

note_cause-ok :
    {W : Type 0} (uart : Uart) (r : W × Irq × Status)
    → r.2 ≡ done
    → ((note_cause uart r).1 ≡ updated uart (some r.1)) × ((note_cause uart r).2 ≡ done)
unfolding note_cause
note_cause-ok uart (v, irq, ok _) h = (refl, refl)
note_cause-ok uart (v, irq, err e) h = absurd (ground arith)

note_cause-err :
    {W : Type 0} (uart : Uart) (r : W × Irq × Status) (e : Errno)
    → r.2 ≡ err e
    → ((note_cause uart r).1 ≡ with_irq uart (some r.1)) × ((note_cause uart r).2 ≡ err e)
unfolding note_cause
note_cause-err uart (v, irq, ok _) e h = absurd (ground arith)
note_cause-err uart (v, irq, err e) f h = (refl, h)

module _ {W : Type 0} (drive : IrqSet W) (uart : Uart) (w : W) where
  -- `uart_update_irq` notes the cause and sets the line to it, or fails and changes nothing.
  pub update_irq-cases :
      ((line : Option Irq) × ((update_irq drive uart w).1 ≡ updated uart line)
        × ((update_irq drive uart w).2 ≡ done)
        × IsAt line (pending uart))
      ⊎ ((e : Errno) × ((update_irq drive uart w).1 ≡ uart) × ((update_irq drive uart w).2 ≡ err e))
  unfolding update_irq cause pending receive_due transmit_due data_ready
  update_irq-cases = elim (Option-cases uart.irq) [
    | inl absent ↦ inl (none, ground arith, ground arith, λ irq h. absurd (ground arith))
    | inr (irq, present) ↦ elim (irq_set-cases drive irq (pending uart) w) [
      | inl (f, has, status, next) ↦
          let (after, noted) = note_cause-ok uart (irq_set drive irq (pending uart) w) status in
          inl (
            some (irq_set drive irq (pending uart) w).1,
            rw (present, update_irq) after,
            rw (present, update_irq) noted,
            IsAt-with_level irq _ (pending uart) f has next,
          )
      | inr (e, status, next) ↦
          let (after, noted) = note_cause-err uart (irq_set drive irq (pending uart) w) e status in
          inr (
            e,
            rw (present, update_irq) (after ∙ ap (λ i. with_irq uart (some i)) next),
            rw (present, update_irq) noted,
          )
    ]
  ]

pub updated-IsUart :
    (uart : Uart) (line : Option Irq)
    → InRange uart
    → IsAt line (pending uart)
    → IsUart (updated uart line)
unfolding cause pending receive_due transmit_due data_ready
updated-IsUart uart line range at = record {
  range = record {
    ier_4 = range.ier_4;
    lcr_8 = range.lcr_8;
    mcr_5 = range.mcr_5;
    scr_8 = range.scr_8;
    rbr_8 = range.rbr_8;
    divisor_16 = range.divisor_16;
    status = range.status;
  };
  caused = refl;
  follows = at;
}

-- Nothing is driven where the line is at its level.
pub update_irq-same :
    {W : Type 0} (drive : IrqSet W) (uart : Uart) (w : W)
    → IsUart uart
    → update_irq drive uart w ≡ (w, uart, done)
unfolding update_irq cause pending receive_due transmit_due data_ready note_cause
update_irq-same drive uart w v = elim (Option-cases uart.irq) [
  | inl absent ↦
      rw (absent, update_irq)
        (ap (λ c. (w, record uart { iir = c }, done)) (sym v.caused)
          ∙ ap (λ l. (w, with_irq uart l, done)) absent)
  | inr (irq, present) ↦
      let (f, has, at) = v.follows irq present in
      rw (present, update_irq)
        (ap (note_cause uart) (irq_set-same drive irq (pending uart) w f has at)
          ∙ ap (λ c. (w, record uart { irq = some irq; iir = c }, done)) (sym v.caused))
]
