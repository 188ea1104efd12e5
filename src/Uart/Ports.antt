-- ===== src/Uart/Ports.antt =====
-- Reads and writes of the serial port's registers, by offset.
use vart.Common.{
  ℕ, ◌%◌, ◌^◌, ◌<◌, bit_and, refl, inl, inr, not, ◌||◌, arith, leb, ◌==◌, Bool-cases, Option-cases,
  Errno,
}
use vart.Irq.{IrqSet}
use vart.Uart.{
  Uart, Output, latch_access, store_register, write_data, write_enable, uart_read, uart_write,
}
use vart.Uart.Invariant.{IsUart}
use vart.Uart.Accesses.{Kept, ports-IsUart, write_enable-Kept, read_data-Kept}

module _ {W : Type 0} (drive : IrqSet W) (uart : Uart) (w : W) (v : IsUart uart) where
  -- A read of the serial port succeeds and keeps it well formed, or fails, the driver of the line
  -- included, and leaves it as it was.
  pub uart_read-Kept : (offset size : ℕ) → Kept uart (uart_read drive uart offset size w)
  unfolding uart_read
  uart_read-Kept offset size = elim (Bool-cases (not (size == 1) || leb 8 offset)) [
    | inl bad ↦ rw bad (inr (Errno.einval, refl, refl))
    | inr valid ↦ elim (Bool-cases (offset == 0)) [
      | inl first ↦ elim (Bool-cases (latch_access uart)) [
        | inl latch ↦ rw (valid, first, latch) (inl (_, refl, v))
        | inr plain ↦ rw (valid, first, plain) (read_data-Kept drive uart w v)
      ]
      | inr other ↦ elim (Bool-cases (offset == 1)) [
        | inl enable ↦ rw (valid, other, enable) (inl (_, refl, v))
        | inr rest ↦ rw (valid, other, rest) (inl (_, refl, v))
      ]
    ]
  ]

store_register-IsUart :
    (uart : Uart) (offset value : ℕ) → IsUart uart → IsUart (store_register uart offset value)
unfolding store_register
store_register-IsUart uart offset value v = elim (Bool-cases (offset == 2)) [
  | inl e ↦ rw e (
      ports-IsUart uart (bit_and value 0xc9) uart.lcr uart.mcr uart.scr uart.divisor v v.range.lcr_8
        v.range.mcr_5 v.range.scr_8 v.range.divisor_16)
  | inr n2 ↦ elim (Bool-cases (offset == 3)) [
    | inl e ↦
        rw (n2, e)
          (ports-IsUart uart uart.fcr (value % 2 ^ 8) uart.mcr uart.scr uart.divisor v (omega arith)
            v.range.mcr_5 v.range.scr_8 v.range.divisor_16)
    | inr n3 ↦ elim (Bool-cases (offset == 4)) [
      | inl e ↦
          rw (n2, n3, e)
            (ports-IsUart uart uart.fcr uart.lcr (value % 2 ^ 5) uart.scr uart.divisor v
              v.range.lcr_8 (omega arith) v.range.scr_8 v.range.divisor_16)
      | inr n4 ↦ elim (Bool-cases (offset == 7)) [
        | inl e ↦
            rw (n2, n3, n4, e)
              (ports-IsUart uart uart.fcr uart.lcr uart.mcr (value % 2 ^ 8) uart.divisor v
                v.range.lcr_8 v.range.mcr_5 (omega arith) v.range.divisor_16)
        | inr n7 ↦ rw (n2, n3, n4, n7) v
      ]
    ]
  ]
]

module _ {W : Type 0} (drive : IrqSet W) (emit : Output W) (uart : Uart) (w : W) (v : IsUart uart)
    (value : ℕ) (small : value < 2 ^ 8) where
  with_divisor : (d : ℕ) → d < 2 ^ 16 → IsUart (record uart { divisor = d })
  with_divisor d h =
      ports-IsUart uart uart.fcr uart.lcr uart.mcr uart.scr d v v.range.lcr_8 v.range.mcr_5
        v.range.scr_8 h

  write_data-Kept : Kept uart (write_data emit uart value w)
  unfolding write_data
  write_data-Kept = elim (Bool-cases (latch_access uart)) [
    | inl latch ↦
        rw latch (inl (tt, refl, with_divisor _ (let d = v.range.divisor_16 in omega arith)))
    | inr plain ↦ elim (Option-cases uart.output) [
      | inl absent ↦ rw (plain, absent) (inl (tt, refl, v))
      | inr (f, present) ↦ rw (plain, present) (inl (tt, refl, v))
    ]
  ]

  write_second-Kept : Kept uart (write_enable drive uart value w)
  unfolding write_enable
  write_second-Kept = elim (Bool-cases (latch_access uart)) [
    | inl latch ↦ rw latch (inl (tt, refl, with_divisor _ (omega arith)))
    | inr plain ↦ rw plain (write_enable-Kept drive uart w v value)
  ]

  -- A write of the serial port succeeds and keeps it well formed, or fails, the driver of the line
  -- included, and leaves it as it was.
  pub uart_write-Kept :
      (offset size : ℕ) → Kept uart (uart_write drive emit uart offset size value w)
  unfolding uart_write
  uart_write-Kept offset size = elim (Bool-cases (not (size == 1) || leb 8 offset)) [
    | inl bad ↦ rw bad (inr (Errno.einval, refl, refl))
    | inr valid ↦ elim (Bool-cases (offset == 0)) [
      | inl first ↦ rw (valid, first) write_data-Kept
      | inr other ↦ elim (Bool-cases (offset == 1)) [
        | inl enable ↦ rw (valid, other, enable) write_second-Kept
        | inr rest ↦
            rw (valid, other, rest) (inl (tt, refl, store_register-IsUart uart offset value v))
      ]
    ]
  ]
