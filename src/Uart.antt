-- ===== src/Uart.antt =====
-- src/hw/char/uart16550.c and include/vart/devices/uart16550.h: the serial port's registers.
pub mod Invariant
pub mod Accesses
pub mod Ports
pub mod Receive
pub mod History
mod Tests
use vart.Common.{
  ℕ, ◌+◌, ◌-◌, ◌*◌, ◌/◌, ◌%◌, ◌^◌, bit_and, Bool, not, ◌&&◌, ◌||◌, Option, none, some, leb, ◌==◌,
  if◌then◌else◌, has_bit, ok, err, set, Errno, Result, Status, done,
}
use vart.Irq.{Irq, IrqSet, irq_set, irq_lower}

-- `VartUart16550`, less its device and its region: the registers, the line, NULL before one is
-- connected, and the output function, if there is one, with its argument.
pub record Uart : Type 0 where
  pub ier : ℕ
  pub iir : ℕ
  pub fcr : ℕ
  pub lcr : ℕ
  pub mcr : ℕ
  pub lsr : ℕ
  pub msr : ℕ
  pub scr : ℕ
  pub rbr : ℕ
  pub divisor : ℕ
  pub irq : Option Irq
  pub output : Option ℕ
  pub output_opaque : ℕ

-- What the output function pointers do on a world `W`: pointer, opaque value and character.
abbrev pub Output : Type 0 → Type 0
Output W = ℕ → ℕ → ℕ → W → W

-- `uart->lsr & VART_UART16550_LSR_DR`, and the line status with that bit cleared and set
unfoldable pub data_ready : Uart → Bool
data_ready uart = has_bit uart.lsr 0

unfoldable pub clear_ready : Uart → Uart
clear_ready uart = record uart { lsr = uart.lsr - uart.lsr % 2 }

unfoldable pub set_ready : Uart → Uart
set_ready uart = record uart { lsr = uart.lsr - uart.lsr % 2 + 1 }

-- `uart->lcr & UART_LCR_DLAB`
unfoldable pub latch_access : Uart → Bool
latch_access uart = has_bit uart.lcr 7

-- `receive`, `transmit` and `pending` of `uart_update_irq`, and the cause it notes
unfoldable pub receive_due : Uart → Bool
receive_due uart = has_bit uart.ier 0 && data_ready uart

unfoldable pub transmit_due : Uart → Bool
transmit_due uart = has_bit uart.ier 1

unfoldable pub pending : Uart → Bool
pending uart = receive_due uart || transmit_due uart

unfoldable pub cause : Uart → ℕ
cause uart = if receive_due uart then 4 else if transmit_due uart then 2 else 1

-- The registers as `vart_uart16550_reset` leaves them
unfoldable pub reset_registers : Uart → Uart
reset_registers uart = record uart {
  ier = 0;
  iir = 1;
  fcr = 0;
  lcr = 0;
  mcr = 0;
  lsr = 0x60;
  msr = 0;
  scr = 0;
  rbr = 0;
  divisor = 0;
}

-- The registers that `uart_read` only returns, by offset
unfoldable pub plain_register : Uart → ℕ → ℕ
plain_register uart offset =
    if offset == 2
    then uart.iir
    else if offset == 3
    then uart.lcr
    else if offset == 4
    then uart.mcr
    else if offset == 5
    then uart.lsr
    else if offset == 6
    then uart.msr
    else uart.scr

-- The registers that `uart_write` only stores, by offset, 5 and 6 ignored
unfoldable pub store_register : Uart → ℕ → ℕ → Uart
store_register uart offset value =
    if offset == 2
    then record uart { fcr = bit_and value 0xc9 }
    else if offset == 3
    then record uart { lcr = value % 2 ^ 8 }
    else if offset == 4
    then record uart { mcr = value % 2 ^ 5 }
    else if offset == 7
    then record uart { scr = value % 2 ^ 8 }
    else uart

module _ {W : Type 0} where
  -- The end of `uart_update_irq`: the cause is noted if the line took the level.
  unfoldable pub note_cause : Uart → W × Irq × Status → W × Uart × Status
  note_cause uart (v, irq, ok _) = (v, record uart { irq = some irq; iir = cause uart }, done)
  note_cause uart (v, irq, err e) = (v, record uart { irq = some irq }, err e)

  -- The end of a read of the receive buffer, of a write of the interrupt enable register, of
  -- `vart_uart16550_connect_irq` and of `vart_uart16550_receive`: what each takes back on failure.
  unfoldable pub read_finish : ℕ → W × Uart × Status → W × Uart × Result ℕ
  read_finish value (v, uart, ok _) = (v, uart, ok value)
  read_finish value (v, uart, err e) = (v, set_ready uart, err e)

  unfoldable pub enable_finish : ℕ → W × Uart × Status → W × Uart × Status
  enable_finish old_ier (v, uart, ok _) = (v, uart, done)
  enable_finish old_ier (v, uart, err e) = (v, record uart { ier = old_ier }, err e)

  unfoldable pub connect_finish : W × Uart × Status → W × Uart × Status
  connect_finish (v, uart, ok _) = (v, uart, done)
  connect_finish (v, uart, err e) = (v, record uart { irq = none }, err e)

  unfoldable pub receive_finish : ℕ → W × Uart × Status → W × Uart × Status
  receive_finish old_rbr (v, uart, ok _) = (v, uart, done)
  receive_finish old_rbr (v, uart, err e) = (v, record (clear_ready uart) { rbr = old_rbr }, err e)

  -- The end of `vart_uart16550_reset`, which drops what `vart_irq_lower` returns.
  unfoldable pub reset_finish : Uart → W × Irq × Status → W × Uart
  reset_finish uart (v, irq, status) = (v, reset_registers (record uart { irq = some irq }))

module _ {W : Type 0} (drive : IrqSet W) where
  -- `uart_update_irq`
  unfoldable pub update_irq : Uart → W → W × Uart × Status
  update_irq uart w = elim uart.irq [
    | none ↦ (w, record uart { iir = cause uart }, done)
    | some irq ↦ note_cause uart (irq_set drive irq (pending uart) w)
  ]

  -- `uart_read`
  unfoldable pub uart_read : Uart → ℕ → ℕ → W → W × Uart × Result ℕ
  uart_read uart offset size w =
      if not (size == 1) || leb 8 offset
      then (w, uart, err Errno.einval)
      else if offset == 0
      then (if latch_access uart
          then (w, uart, ok (uart.divisor % 2 ^ 8))
          else read_finish uart.rbr (update_irq (clear_ready uart) w))
      else if offset == 1
      then (w, uart, ok (if latch_access uart then uart.divisor / 2 ^ 8 else uart.ier))
      else (w, uart, ok (plain_register uart offset))

  -- `vart_uart16550_reset`
  unfoldable pub reset : Uart → W → W × Uart
  reset uart w = elim uart.irq [
    | none ↦ (w, reset_registers uart)
    | some irq ↦ reset_finish uart (irq_lower drive irq w)
  ]

  -- `vart_uart16550_connect_irq`, with the line that `irq` points to
  unfoldable pub connect_irq : Uart → Option Irq → W → W × Uart × Status
  connect_irq uart none w = (w, uart, err Errno.einval)
  connect_irq uart (some irq) w = connect_finish (update_irq (record uart { irq = some irq }) w)

  -- `vart_uart16550_receive`; `value` is an `unsigned char`
  unfoldable pub receive : Uart → ℕ → W → W × Uart × Status
  receive uart value w =
      if data_ready uart
      then (w, uart, err Errno.eagain)
      else receive_finish uart.rbr (update_irq (set_ready (record uart { rbr = value })) w)

module _ {W : Type 0} (emit : Output W) where
  -- A write of offset 0: the low byte of the divisor latch, or a character for the output function.
  -- The value of a write is one byte, as `vart_address_space_write` masks it.
  unfoldable pub write_data : Uart → ℕ → W → W × Uart × Status
  write_data uart value w =
      if latch_access uart
      then (w, record uart { divisor = uart.divisor / 2 ^ 8 * 2 ^ 8 + value }, done)
      else elim uart.output [
        | none ↦ (w, uart, done)
        | some f ↦ (emit f uart.output_opaque value w, uart, done)
      ]

module _ {W : Type 0} (drive : IrqSet W) where
  -- A write of offset 1: the high byte of the divisor latch, or the interrupt enable register.
  unfoldable pub write_enable : Uart → ℕ → W → W × Uart × Status
  write_enable uart value w =
      if latch_access uart
      then (w, record uart { divisor = uart.divisor % 2 ^ 8 + value * 2 ^ 8 }, done)
      else enable_finish uart.ier (update_irq drive (record uart { ier = value % 2 ^ 4 }) w)

module _ {W : Type 0} (drive : IrqSet W) (emit : Output W) where
  -- `uart_write`
  unfoldable pub uart_write : Uart → ℕ → ℕ → ℕ → W → W × Uart × Status
  uart_write uart offset size value w =
      if not (size == 1) || leb 8 offset
      then (w, uart, err Errno.einval)
      else if offset == 0
      then write_data emit uart value w
      else if offset == 1
      then write_enable drive uart value w
      else (w, store_register uart offset value, done)
