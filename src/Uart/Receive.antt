-- ===== src/Uart/Receive.antt =====
-- What a received character and a programmed divisor read back as.
use vart.Common.{
  ℕ, ◌+◌, ◌*◌, ◌/◌, ◌%◌, ◌^◌, ◌<◌, ◌≡◌, refl, sym, ap, ◌∙◌, subst, ◌⊎◌, inl, inr, true, false,
  Option, arith, Bool-cases, ok, err, Errno, Result, Status, done,
}
use vart.Irq.{Irq, IrqSet}
use vart.Uart.{
  Uart, Output, update_irq, data_ready, clear_ready, set_ready, latch_access, read_finish,
  receive_finish, write_data, write_enable, uart_read, uart_write, receive,
}
use vart.Uart.Invariant.{IsUart, updated, update_irq-cases}
use vart.Uart.Accesses.{Kept, receive-Kept, ready-lsr}

abbrev loaded : Uart → ℕ → Uart
loaded uart value = set_ready (record uart { rbr = value })

receive_finish-ok :
    {W : Type 0} (old : ℕ) (r : W × Uart × Status) (v : W) (u : Uart)
    → receive_finish old r ≡ (v, u, done)
    → (r.1 ≡ u) × (r.2 ≡ done)
unfolding receive_finish
receive_finish-ok old (v, u, ok _) x y h = (ap (λ r. r.1) h, refl)
receive_finish-ok old (v, u, err e) x y h = absurd (ground arith)

module _ {W : Type 0} (drive : IrqSet W) (uart : Uart) (value : ℕ) (w v : W) (u : Uart) where
  receive-loaded :
      receive drive uart value w ≡ (v, u, done)
      → (line : Option Irq) × (u ≡ updated (loaded uart value) line)
  unfolding receive
  receive-loaded h = elim (Bool-cases (data_ready uart)) [
    | inl full ↦ absurd (ground (arith, h))
    | inr empty ↦
        let (after, status) =
          receive_finish-ok uart.rbr (update_irq drive (loaded uart value) w) v u
            (ground (arith, h)) in
        elim (update_irq-cases drive (loaded uart value) w) [
          | inl (line, now, _, _) ↦ (line, sym after ∙ now)
          | inr (e, _, failed) ↦ absurd (ground (arith, status, failed))
        ]
  ]

updated-loaded :
    (uart : Uart) (value : ℕ) (line : Option Irq)
    → ((updated (loaded uart value) line).rbr ≡ value)
      × (latch_access (updated (loaded uart value) line) ≡ latch_access uart)
      × (data_ready (updated (loaded uart value) line) ≡ true)
unfolding latch_access data_ready set_ready
updated-loaded uart value line = (refl, refl, ground arith)

emptied : (u : Uart) (line : Option Irq) → data_ready (updated (clear_ready u) line) ≡ false
unfolding data_ready clear_ready
emptied u line = ground arith

refilled : (u : Uart) → u.lsr ≡ 0x61 → set_ready (clear_ready u) ≡ u
unfolding clear_ready set_ready
refilled u full = ap (λ l. record u { lsr = l }) (omega arith)

-- After a read of the receive buffer of a device `u`: the character, and room for the next; or the
-- line's driver failed, and nothing changed.
abbrev pub Taken : {W : Type 0} → Uart → ℕ → W × Uart × Result ℕ → Type 0
Taken u value r =
    ((r.2 ≡ ok value) × (data_ready r.1 ≡ false)) ⊎ ((e : Errno) × (r.2 ≡ err e) × (r.1 ≡ u))

read_finish-Taken :
    {W : Type 0} (u : Uart) (value : ℕ) (r : W × Uart × Status)
    → u.lsr ≡ 0x61
    → ((line : Option Irq) × (r.1 ≡ updated (clear_ready u) line) × (r.2 ≡ done))
      ⊎ ((e : Errno) × (r.1 ≡ clear_ready u) × (r.2 ≡ err e))
    → Taken u value (read_finish value r)
unfolding read_finish
read_finish-Taken u value (v, x, ok _) full (inl (line, now, _)) =
    inl (refl, ap data_ready now ∙ emptied u line)
read_finish-Taken u value (v, x, ok _) full (inr (e, now, h)) = absurd (ground arith)
read_finish-Taken u value (v, x, err y) full (inl (line, now, h)) = absurd (ground arith)
read_finish-Taken u value (v, x, err y) full (inr (e, now, h)) =
    inr (y, refl, ap set_ready now ∙ refilled u full)

module _ {W : Type 0} (drive : IrqSet W) (u : Uart) (v : W) where
  read-Taken :
      (value : ℕ)
      → u.rbr ≡ value
      → u.lsr ≡ 0x61
      → latch_access u ≡ false
      → Taken u value (uart_read drive u 0 1 v)
  unfolding uart_read
  read-Taken value held full plain = rw plain (
      subst (λ x. Taken u value (read_finish x (update_irq drive (clear_ready u) v))) (sym held)
        (read_finish-Taken u value (update_irq drive (clear_ready u) v) full
          (elim (update_irq-cases drive (clear_ready u) v) [
            | inl (line, now, status, _) ↦ inl (line, now, status)
            | inr failed ↦ inr failed
          ])))

receive-full :
    {W : Type 0} (drive : IrqSet W) (u : Uart) (v : W) (next : ℕ)
    → data_ready u ≡ true
    → receive drive u next v ≡ (v, u, err Errno.eagain)
unfolding receive
receive-full drive u v next full = rw full refl

module _ {W : Type 0} (drive : IrqSet W) (uart : Uart) (value : ℕ) (w v : W) (u : Uart) where
  -- After a byte is received with success, a further one is refused with EAGAIN and changes
  -- nothing until the first is read; and a read of the receive buffer, the divisor latch not
  -- selected, yields the byte and makes room, or fails with the line's driver and changes nothing.
  pub uart_read-receive :
      (next : ℕ)
      → IsUart uart
      → value < 2 ^ 8
      → latch_access uart ≡ false
      → receive drive uart value w ≡ (v, u, done)
      → (receive drive u next v ≡ (v, u, err Errno.eagain))
        × Taken u value (uart_read drive u 0 1 v)
  uart_read-receive next well small plain h =
      let (line, e) = receive-loaded drive uart value w v u h in
      let (held, latch, ready) = updated-loaded uart value line in
      let full : data_ready u ≡ true = ap data_ready e ∙ ready in
      let good : IsUart u =
        received (receive drive uart value w) h (receive-Kept drive uart w well value small) in
      (
        receive-full drive u v next full,
        read-Taken drive u v value (ap (λ (x : Uart). x.rbr) e ∙ held) (ready-lsr u good.range full)
            (ap latch_access e ∙ latch ∙ plain),
      )
    where
      received : (r : W × Uart × Status) → r ≡ (v, u, done) → Kept uart r → IsUart u
      received r same (inl (_, _, good)) = subst IsUart (ap (λ r. r.1) same) good
      received r same (inr (_, failed, _)) = absurd (ground (arith, same, failed))

-- The device after both bytes of a divisor are written, the latch selected
abbrev pub programmed : {W : Type 0} → IrqSet W → Output W → Uart → ℕ → ℕ → W → Uart
programmed drive emit uart low high w =
    (uart_write drive emit (uart_write drive emit uart 0 1 low w).1 1 1 high w).1

abbrev with_divisor : Uart → ℕ → Uart
with_divisor uart divisor = record uart { divisor = divisor }

module _ {W : Type 0} (drive : IrqSet W) (u : Uart) (w : W) where
  uart_read-low : latch_access u ≡ true → (uart_read drive u 0 1 w).2 ≡ ok (u.divisor % 2 ^ 8)
  unfolding uart_read
  uart_read-low latch = rw latch refl

  uart_read-high : latch_access u ≡ true → (uart_read drive u 1 1 w).2 ≡ ok (u.divisor / 2 ^ 8)
  unfolding uart_read
  uart_read-high latch = rw latch refl

module _ {W : Type 0} (drive : IrqSet W) (emit : Output W) (uart : Uart) (low high : ℕ)
    (w : W) where
  write_low :
      latch_access uart ≡ true
      → (uart_write drive emit uart 0 1 low w).1
        ≡ with_divisor uart (uart.divisor / 2 ^ 8 * 2 ^ 8 + low)
  unfolding uart_write write_data
  write_low latch = rw latch refl

  write_high :
      latch_access uart ≡ true
      → (uart_write drive emit uart 1 1 high w).1
        ≡ with_divisor uart (uart.divisor % 2 ^ 8 + high * 2 ^ 8)
  unfolding uart_write write_enable
  write_high latch = rw latch refl

module _ {W : Type 0} (drive : IrqSet W) (emit : Output W) (uart : Uart) (low high : ℕ)
    (w : W) where
  programmed_lem :
      low < 2 ^ 8
      → latch_access uart ≡ true
      → programmed drive emit uart low high w ≡ with_divisor uart (high * 2 ^ 8 + low)
  unfolding latch_access
  programmed_lem small latch =
      ap (λ u. (uart_write drive emit u 1 1 high w).1) (write_low drive emit uart low high w latch)
      ∙ write_high drive emit (with_divisor uart (uart.divisor / 2 ^ 8 * 2 ^ 8 + low)) low high w
          latch
      ∙ ap (with_divisor uart) (omega arith)

module _ {W : Type 0} (drive : IrqSet W) (emit : Output W) (uart : Uart) (low high : ℕ)
    (w : W) where
  -- Where the divisor latch is selected, the two bytes written at offsets 0 and 1 are the divisor,
  -- whatever it was, and a read of each offset yields its byte.
  pub uart_read-programmed :
      low < 2 ^ 8
      → high < 2 ^ 8
      → latch_access uart ≡ true
      → ((programmed drive emit uart low high w).divisor ≡ high * 2 ^ 8 + low)
        × ((uart_read drive (programmed drive emit uart low high w) 0 1 w).2 ≡ ok low)
        × ((uart_read drive (programmed drive emit uart low high w) 1 1 w).2 ≡ ok high)
  unfolding latch_access
  uart_read-programmed l h latch =
      let e = programmed_lem drive emit uart low high w l latch in
      let d = high * 2 ^ 8 + low in
      (
        ap (λ (u : Uart). u.divisor) e,
        ap (λ u. (uart_read drive u 0 1 w).2) e
            ∙ uart_read-low drive (with_divisor uart d) w latch
            ∙ ap ok (omega arith),
        ap (λ u. (uart_read drive u 1 1 w).2) e
            ∙ uart_read-high drive (with_divisor uart d) w latch
            ∙ ap ok (omega arith),
      )
