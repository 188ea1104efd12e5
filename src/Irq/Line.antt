-- ===== src/Irq/Line.antt =====
-- What a caller knows of an interrupt line.
use vart.Common.{
  ℕ, ◌≡◌, refl, sym, ◌⊎◌, inl, inr, Bool, true, false, some, arith, Bool-cases, Option-cases, ok,
  err, Errno, Status, done,
}
use vart.Irq.{Irq, IrqSet, same_level, irq_note, irq_set}

abbrev pub with_level : Irq → Bool → Irq
with_level irq level = record irq { level = level }

same_level-eq : (a b : Bool) → same_level a b ≡ true → a ≡ b
same_level-eq true b h = sym h
same_level-eq false true h = cc
same_level-eq false false h = refl

irq_note-cases :
    {W : Type 0} (irq : Irq) (level : Bool) (r : W × Status)
    → (((irq_note irq level r).2 ≡ done) × ((irq_note irq level r).1 ≡ with_level irq level))
      ⊎ ((e : Errno) × ((irq_note irq level r).2 ≡ err e) × ((irq_note irq level r).1 ≡ irq))
unfolding irq_note
irq_note-cases irq level (v, ok _) = inl (refl, refl)
irq_note-cases irq level (v, err e) = inr (e, refl, refl)

module _ {W : Type 0} (drive : IrqSet W) (irq : Irq) (level : Bool) (w : W) where
  -- `vart_irq_set` succeeds, on a line with a function, and leaves the line at the level asked for, or fails and leaves the line
  -- as it was.
  pub irq_set-cases :
      ((f : ℕ) × (irq.set ≡ some f)
        × ((irq_set drive irq level w).2 ≡ done)
        × ((irq_set drive irq level w).1 ≡ with_level irq level))
      ⊎ ((e : Errno) × ((irq_set drive irq level w).2 ≡ err e)
          × ((irq_set drive irq level w).1 ≡ irq))
  unfolding irq_set
  irq_set-cases = elim (Option-cases irq.set) [
    | inl absent ↦ inr (Errno.einval, ground arith, ground arith)
    | inr (f, present) ↦ elim (Bool-cases (same_level irq.level level)) [
      | inl same ↦
          inl (f, present, ground arith, ground (arith, same_level-eq irq.level level same))
      | inr differs ↦ ground (arith, irq_note-cases irq level (drive f irq.opaque irq.line level w))
    ]
  ]

  -- A line that is at the level already is not driven, and the call cannot fail.
  pub irq_set-same :
      (f : ℕ) → irq.set ≡ some f → irq.level ≡ level → irq_set drive irq level w ≡ (w, irq, done)
  unfolding irq_set
  irq_set-same f present same = elim (Bool-cases level) [
    | inl e ↦ ground arith
    | inr e ↦ ground arith
  ]
