-- ===== src/Uart/Tests.antt =====
-- Runs of the serial port, and the theorems at concrete inputs.
use vart.Common.{
  ℕ, ◌≡◌, refl, inl, false, none, some, List, [], ◌∷◌, arith, if◌then◌else◌, ok, err, Errno, done,
}
use vart.Irq.{Irq, IrqSet}
use vart.Uart.{
  Uart, Output, data_ready, latch_access, set_ready, update_irq, receive_finish, pending,
  receive_due, transmit_due, cause, uart_read, uart_write, receive,
}
use vart.Uart.Invariant.{IsUart}
use vart.Uart.Receive.{Taken, programmed, uart_read-receive, uart_read-programmed}
use vart.Uart.Accesses.{Kept, receive-Kept}
use vart.Uart.Ports.{uart_read-Kept, uart_write-Kept}
use vart.Uart.History.{Call, run, run-IsUart}

abbrev zero_uart : Uart
zero_uart = record {
  ier = 0;
  iir = 1;
  fcr = 0;
  lcr = 0;
  mcr = 0;
  lsr = 0x60;
  msr = 0;
  scr = 0;
  rbr = 0;
  divisor = 0;
  irq = none;
  output = some 7;
  output_opaque = 0;
}

-- The world is the list of characters put out and of levels driven.
abbrev drive : IrqSet (List ℕ)
drive f opaque line level w = ((if level then 1 else 0) ∷ w, done)

abbrev emit : Output (List ℕ)
emit f opaque c w = c ∷ w

zero_uart-IsUart : IsUart zero_uart
unfolding cause pending receive_due transmit_due data_ready
zero_uart-IsUart = record {
  range = record {
    ier_4 = omega arith;
    lcr_8 = omega arith;
    mcr_5 = omega arith;
    scr_8 = omega arith;
    rbr_8 = omega arith;
    divisor_16 = omega arith;
    status = inl refl;
  };
  caused = refl;
  follows = λ irq h. absurd (ground arith);
}

abbrev line : Irq
line = record { set = some 1; opaque = 0; line = 4; level = false }

abbrev session : List Call
session =
    Call.connect (some line)
    ∷ Call.write 1 1 1
    ∷ Call.character 65
    ∷ Call.read 0 1
    ∷ Call.write 0 1 66
    ∷ []

run-IsUart_example : IsUart (run drive emit session zero_uart []).1
run-IsUart_example =
    run-IsUart drive emit session zero_uart []
      (tt, (omega arith, (omega arith, (tt, (omega arith, tt))))) zero_uart-IsUart

abbrev latched : Uart
latched = record zero_uart { lcr = 0x83 }

uart_read-programmed_example :
    ((programmed drive emit latched 0x34 0x12 []).divisor ≡ 0x1234)
    × ((uart_read drive (programmed drive emit latched 0x34 0x12 []) 0 1 []).2 ≡ ok 0x34)
    × ((uart_read drive (programmed drive emit latched 0x34 0x12 []) 1 1 []).2 ≡ ok 0x12)
unfolding latch_access
uart_read-programmed_example =
    uart_read-programmed drive emit latched 0x34 0x12 [] (omega arith) (omega arith) refl

abbrev holding : Uart
holding = record zero_uart { lsr = 0x61; rbr = 65 }

uart_read-receive_example :
    (receive drive holding 66 [] ≡ ([], holding, err Errno.eagain))
    × Taken holding 65 (uart_read drive holding 0 1 [])
unfolding receive data_ready latch_access update_irq receive_finish set_ready cause receive_due
    transmit_due
uart_read-receive_example =
    uart_read-receive drive zero_uart 65 [] [] holding 66 zero_uart-IsUart (omega arith) refl refl

uart_write-Kept_example : Kept zero_uart (uart_write drive emit zero_uart 1 1 3 [])
uart_write-Kept_example =
    uart_write-Kept drive emit zero_uart [] zero_uart-IsUart 3 (omega arith) 1 1

uart_read-Kept_example : Kept zero_uart (uart_read drive zero_uart 0 1 [])
uart_read-Kept_example = uart_read-Kept drive zero_uart [] zero_uart-IsUart 0 1

receive-Kept_example : Kept zero_uart (receive drive zero_uart 65 [])
receive-Kept_example = receive-Kept drive zero_uart [] zero_uart-IsUart 65 (omega arith)
