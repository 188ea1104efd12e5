-- ===== src/Uart/Accesses.antt =====
-- Each access of the serial port succeeds and keeps the invariant, or fails and changes nothing.
use vart.Common.{
  ℕ, ◌%◌, ◌^◌, ◌<◌, ◌≡◌, refl, sym, ap, ◌∙◌, subst, ◌⊎◌, inl, inr, true, false, arith, Bool-cases,
  ok, err, Errno, Result, Status,
}
use vart.Irq.{IrqSet}
use vart.Uart.{
  Uart, update_irq, cause, pending, receive_due, transmit_due, data_ready, clear_ready, set_ready,
  read_finish, enable_finish, receive_finish, receive,
}
use vart.Uart.Invariant.{InRange, IsUart, update_irq-cases, updated-IsUart, update_irq-same}

-- After a call: it succeeded and the device is well formed, or it failed and the device is as before.
abbrev pub Kept : {W A : Type 0} → Uart → W × Uart × Result A → Type 0
Kept {A = A} uart r =
    ((a : A) × (r.2 ≡ ok a) × IsUart r.1) ⊎ ((e : Errno) × (r.2 ≡ err e) × (r.1 ≡ uart))

module _ {W : Type 0} (start uart : Uart) where
  enable_finish-Kept :
      (old : ℕ) (r : W × Uart × Status)
      → Kept start r
      → record start { ier = old } ≡ uart
      → Kept uart (enable_finish old r)
  unfolding enable_finish
  enable_finish-Kept old (v, u, ok _) (inl (_, _, good)) e = inl (tt, refl, good)
  enable_finish-Kept old (v, u, ok _) (inr (_, failed, _)) e = absurd (ground arith)
  enable_finish-Kept old (v, u, err x) (inl (_, failed, _)) e = absurd (ground arith)
  enable_finish-Kept old (v, u, err x) (inr (_, _, same)) e =
      inr (x, refl, ap (λ (y : Uart). record y { ier = old }) same ∙ e)

  receive_finish-Kept :
      (old : ℕ) (r : W × Uart × Status)
      → Kept start r
      → record (clear_ready start) { rbr = old } ≡ uart
      → Kept uart (receive_finish old r)
  unfolding receive_finish
  receive_finish-Kept old (v, u, ok _) (inl (_, _, good)) e = inl (tt, refl, good)
  receive_finish-Kept old (v, u, ok _) (inr (_, failed, _)) e = absurd (ground arith)
  receive_finish-Kept old (v, u, err x) (inl (_, failed, _)) e = absurd (ground arith)
  receive_finish-Kept old (v, u, err x) (inr (_, _, same)) e =
      inr (x, refl, ap (λ (y : Uart). record (clear_ready y) { rbr = old }) same ∙ e)

  read_finish-Kept :
      (value : ℕ) (r : W × Uart × Status)
      → Kept start r
      → set_ready start ≡ uart
      → Kept uart (read_finish value r)
  unfolding read_finish
  read_finish-Kept value (v, u, ok _) (inl (_, _, good)) e = inl (value, refl, good)
  read_finish-Kept value (v, u, ok _) (inr (_, failed, _)) e = absurd (ground arith)
  read_finish-Kept value (v, u, err x) (inl (_, failed, _)) e = absurd (ground arith)
  read_finish-Kept value (v, u, err x) (inr (_, _, same)) e = inr (x, refl, ap set_ready same ∙ e)

module _ {W : Type 0} (drive : IrqSet W) (uart : Uart) (w : W) where
  pub update_irq-Kept : InRange uart → Kept uart (update_irq drive uart w)
  update_irq-Kept range = elim (update_irq-cases drive uart w) [
    | inl (line, after, status, at) ↦
        inl (tt, status, subst IsUart (sym after) (updated-IsUart uart line range at))
    | inr (e, after, status) ↦ inr (e, status, after)
  ]

-- The registers that neither the enable nor the status register is may change within their ranges.
pub ports-IsUart :
    (uart : Uart) (fcr lcr mcr scr divisor : ℕ)
    → IsUart uart
    → lcr < 2 ^ 8
    → mcr < 2 ^ 5
    → scr < 2 ^ 8
    → divisor < 2 ^ 16
    → IsUart (record uart { fcr = fcr; lcr = lcr; mcr = mcr; scr = scr; divisor = divisor })
unfolding cause pending receive_due transmit_due data_ready
ports-IsUart uart fcr lcr mcr scr divisor v l m s d = record {
  range = record {
    ier_4 = v.range.ier_4;
    lcr_8 = l;
    mcr_5 = m;
    scr_8 = s;
    rbr_8 = v.range.rbr_8;
    divisor_16 = d;
    status = v.range.status;
  };
  caused = v.caused;
  follows = v.follows;
}

pub ready-lsr : (uart : Uart) → InRange uart → data_ready uart ≡ true → uart.lsr ≡ 0x61
unfolding data_ready
ready-lsr uart v h = elim v.status [ inl empty ↦ absurd (ground (arith, h)) | inr full ↦ full ]

pub empty-lsr : (uart : Uart) → InRange uart → data_ready uart ≡ false → uart.lsr ≡ 0x60
unfolding data_ready
empty-lsr uart v h = elim v.status [ inl empty ↦ empty | inr full ↦ absurd (ground (arith, h)) ]

set_ready-InRange : (uart : Uart) → InRange uart → InRange (set_ready uart)
unfolding set_ready
set_ready-InRange uart v = record {
  ier_4 = v.ier_4;
  lcr_8 = v.lcr_8;
  mcr_5 = v.mcr_5;
  scr_8 = v.scr_8;
  rbr_8 = v.rbr_8;
  divisor_16 = v.divisor_16;
  status = inr (elim v.status [ inl e ↦ rw e refl | inr e ↦ rw e refl ]);
}

clear_ready-InRange : (uart : Uart) → InRange uart → InRange (clear_ready uart)
unfolding clear_ready
clear_ready-InRange uart v = record {
  ier_4 = v.ier_4;
  lcr_8 = v.lcr_8;
  mcr_5 = v.mcr_5;
  scr_8 = v.scr_8;
  rbr_8 = v.rbr_8;
  divisor_16 = v.divisor_16;
  status = inl (elim v.status [ inl e ↦ rw e refl | inr e ↦ rw e refl ]);
}

abbrev with_lsr : Uart → ℕ → Uart
with_lsr uart lsr = record uart { lsr = lsr }

module _ (uart : Uart) where
  undone :
      (value : ℕ)
      → uart.lsr ≡ 0x60
      → record (clear_ready (set_ready (record uart { rbr = value }))) { rbr = uart.rbr } ≡ uart
  unfolding clear_ready set_ready
  undone value e = ap (with_lsr uart) (omega arith)

  restored : uart.lsr ≡ 0x61 → set_ready (clear_ready uart) ≡ uart
  unfolding set_ready clear_ready
  restored e = ap (with_lsr uart) (omega arith)

module _ {W : Type 0} (drive : IrqSet W) (uart : Uart) (w : W) (v : IsUart uart) where
  idle :
      uart.lsr ≡ 0x60
      → read_finish uart.rbr (update_irq drive (clear_ready uart) w) ≡ (w, uart, ok uart.rbr)
  unfolding clear_ready read_finish
  idle e =
      ap (λ l. read_finish uart.rbr (update_irq drive (with_lsr uart l) w)) (omega arith)
      ∙ ap (read_finish uart.rbr) (update_irq-same drive uart w v)

module _ {W : Type 0} (drive : IrqSet W) (uart : Uart) (w : W) (v : IsUart uart) where
  -- Receiving a byte succeeds and keeps the serial port well formed, or fails, with a character still
  -- unread or with the driver of the line, and leaves it as it was.
  pub receive-Kept : (value : ℕ) → value < 2 ^ 8 → Kept uart (receive drive uart value w)
  unfolding receive
  receive-Kept value small = elim (Bool-cases (data_ready uart)) [
    | inl full ↦ rw full (inr (Errno.eagain, refl, refl))
    | inr empty ↦ rw empty (
        receive_finish-Kept _ uart uart.rbr _
          (update_irq-Kept drive (set_ready (record uart { rbr = value })) w
            (set_ready-InRange (record uart { rbr = value }) range))
          (undone uart value (empty-lsr uart v.range empty)))
  ]
    where
      range : InRange (record uart { rbr = value })
      range = record {
        ier_4 = v.range.ier_4;
        lcr_8 = v.range.lcr_8;
        mcr_5 = v.range.mcr_5;
        scr_8 = v.range.scr_8;
        rbr_8 = small;
        divisor_16 = v.range.divisor_16;
        status = v.range.status;
      }

  pub write_enable-Kept :
      (value : ℕ)
      → Kept uart
          (enable_finish uart.ier (update_irq drive (record uart { ier = value % 2 ^ 4 }) w))
  write_enable-Kept value =
      enable_finish-Kept _ uart uart.ier _
        (update_irq-Kept drive _ w record {
          ier_4 = omega arith;
          lcr_8 = v.range.lcr_8;
          mcr_5 = v.range.mcr_5;
          scr_8 = v.range.scr_8;
          rbr_8 = v.range.rbr_8;
          divisor_16 = v.range.divisor_16;
          status = v.range.status;
        })
        refl

  pub read_data-Kept : Kept uart (read_finish uart.rbr (update_irq drive (clear_ready uart) w))
  read_data-Kept = elim (Bool-cases (data_ready uart)) [
    | inl full ↦
        read_finish-Kept _ uart uart.rbr _
          (update_irq-Kept drive (clear_ready uart) w (clear_ready-InRange uart v.range))
          (restored uart (ready-lsr uart v.range full))
    | inr empty ↦
        (let same = idle drive uart w v (empty-lsr uart v.range empty) in
          inl (uart.rbr, ap (λ r. r.2) same, subst IsUart (sym (ap (λ r. r.1) same)) v))
  ]
