-- ===== src/Uart/History.antt =====
-- Runs of the serial port: accesses, characters received and lines connected.
use vart.Common.{
  ℕ, ◌^◌, ◌<◌, sym, subst, inl, inr, Option, none, some, List, [], ◌∷◌, arith, ok, err, All, Result,
  Status,
}
use vart.Irq.{Irq, IrqSet}
use vart.Uart.{
  Uart, Output, cause, pending, receive_due, transmit_due, data_ready, connect_finish, uart_read,
  uart_write, connect_irq, receive,
}
use vart.Uart.Invariant.{InRange, IsUart, with_irq}
use vart.Uart.Accesses.{Kept, receive-Kept, update_irq-Kept}
use vart.Uart.Ports.{uart_read-Kept, uart_write-Kept}

pub data Call : Type 0 where
  read : ℕ → ℕ → Call
  write : ℕ → ℕ → ℕ → Call
  character : ℕ → Call
  connect : Option Irq → Call

-- A written value and a received character are one byte.
abbrev pub IsCall : Call → Type 0
IsCall (read offset size) = Unit {0}
IsCall (write offset size value) = value < 2 ^ 8
IsCall (character value) = value < 2 ^ 8
IsCall (connect irq) = Unit {0}

with_irq-InRange : (uart : Uart) (line : Option Irq) → InRange uart → InRange (with_irq uart line)
with_irq-InRange uart line v = record {
  ier_4 = v.ier_4;
  lcr_8 = v.lcr_8;
  mcr_5 = v.mcr_5;
  scr_8 = v.scr_8;
  rbr_8 = v.rbr_8;
  divisor_16 = v.divisor_16;
  status = v.status;
}

connect_finish-IsUart :
    {W : Type 0} (uart : Uart) (line : Option Irq) (r : W × Uart × Status)
    → IsUart uart
    → Kept (with_irq uart line) r
    → IsUart (connect_finish r).1
unfolding connect_finish cause pending receive_due transmit_due data_ready
connect_finish-IsUart uart line (w, u, ok _) v (inl (_, _, good)) = good
connect_finish-IsUart uart line (w, u, ok _) v (inr (_, failed, _)) = absurd (ground arith)
connect_finish-IsUart uart line (w, u, err e) v (inl (_, failed, _)) = absurd (ground arith)
connect_finish-IsUart uart line (w, u, err e) v (inr (_, _, same)) =
    subst (λ x. IsUart (with_irq x none)) (sym same)
      record {
        range = with_irq-InRange uart none v.range;
        caused = v.caused;
        follows = λ irq h. absurd (ground arith);
      }

connect_irq-IsUart :
    {W : Type 0} (drive : IrqSet W) (uart : Uart) (irq : Option Irq) (w : W)
    → IsUart uart
    → IsUart (connect_irq drive uart irq w).1
unfolding connect_irq
connect_irq-IsUart drive uart none w v = v
connect_irq-IsUart drive uart (some irq) w v =
    connect_finish-IsUart uart (some irq) _ v (
      update_irq-Kept drive (with_irq uart (some irq)) w (with_irq-InRange uart (some irq) v.range))

module _ {W : Type 0} (drive : IrqSet W) (emit : Output W) where
  unfoldable pub perform : Call → Uart → W → W × Uart
  perform (read offset size) uart w = let r = uart_read drive uart offset size w in (r.0, r.1)
  perform (write offset size value) uart w =
      let r = uart_write drive emit uart offset size value w in (r.0, r.1)
  perform (character value) uart w = let r = receive drive uart value w in (r.0, r.1)
  perform (connect irq) uart w = let r = connect_irq drive uart irq w in (r.0, r.1)

  unfoldable pub run : List Call → Uart → W → W × Uart
  run [] uart w = (w, uart)
  run (c ∷ cs) uart w = run cs (perform c uart w).1 (perform c uart w).0

Kept-IsUart :
    {W A : Type 0} (uart : Uart) (r : W × Uart × Result A) → IsUart uart → Kept uart r → IsUart r.1
Kept-IsUart uart r v (inl (_, _, good)) = good
Kept-IsUart uart r v (inr (_, _, same)) = subst IsUart (sym same) v

module _ {W : Type 0} (drive : IrqSet W) (emit : Output W) where
  perform-IsUart :
      (c : Call) (uart : Uart) (w : W)
      → IsCall c
      → IsUart uart
      → IsUart (perform drive emit c uart w).1
  unfolding perform
  perform-IsUart (read offset size) uart w i v =
      Kept-IsUart {W = W} uart (uart_read drive uart offset size w) v
        (uart_read-Kept drive uart w v offset size)
  perform-IsUart (write offset size value) uart w i v =
      Kept-IsUart {W = W} uart (uart_write drive emit uart offset size value w) v
        (uart_write-Kept drive emit uart w v value i offset size)
  perform-IsUart (character value) uart w i v =
      Kept-IsUart {W = W} uart (receive drive uart value w) v (receive-Kept drive uart w v value i)
  perform-IsUart (connect irq) uart w i v = connect_irq-IsUart drive uart irq w v

  -- Any run of reads, writes of bytes, received bytes and connected lines, the driver of a line
  -- failing at any of its calls or not, keeps the serial port well formed.
  pub run-IsUart :
      (cs : List Call) (uart : Uart) (w : W)
      → All IsCall cs
      → IsUart uart
      → IsUart (run drive emit cs uart w).1
  unfolding run
  run-IsUart [] uart w all v = v
  run-IsUart (c ∷ cs) uart w (i, all) v =
      run-IsUart cs (perform drive emit c uart w).1 (perform drive emit c uart w).0 all
        (perform-IsUart c uart w i v)
