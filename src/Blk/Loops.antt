-- ===== src/Blk/Loops.antt =====
-- The loops of `pread` and `pwrite` reach the file only where they are to, and end where they are to.
use vart.Common.{
  ℕ, zero, suc, ◌+◌, ◌-◌, ◌≤◌, ◌<◌, ◌≡◌, refl, ap, ◌∙◌, subst, inl, inr, List, [], ◌∷◌, arith, ◌==◌,
  Bool-cases, ok, err, length, drop, length-drop, Result,
}
use vart.Blk.Defs.{Host}
use vart.Blk.Transfer.{fill_step, fill, drain_step, drain, prepend}

-- Bounds on what a call yields, where it succeeds
abbrev pub AtMost : {W : Type 0} → ℕ → W × Result (List ℕ) → Type 0
AtMost n (w, err e) = Unit {0}
AtMost n (w, ok bytes) = length bytes ≤ n

abbrev pub Counts : {W : Type 0} → ℕ → W × Result ℕ → Type 0
Counts n (w, err e) = Unit {0}
Counts n (w, ok count) = count ≤ n

abbrev pub Whole : {W : Type 0} → ℕ → W × Result (List ℕ) → Type 0
Whole n (w, err e) = Unit {0}
Whole n (w, ok bytes) = length bytes ≡ n

-- What the calls of the host promise: `pread` and `pwrite` handle no more bytes than they are asked to,
-- and a DMA read that succeeds yields as many bytes as it is asked for.
pub record IsHost {W : Type 0} (host : Host W) : Type 0 where
  pub short_read : (n offset : ℕ) (w : W) → AtMost n (host.pread n offset w)
  pub short_write :
      (bytes : List ℕ) (offset : ℕ) (w : W) → Counts (length bytes) (host.pwrite bytes offset w)
  pub whole_dma : (address n : ℕ) (w : W) → Whole n (host.dma_read address n w)

-- Where a loop ends, if it succeeds
abbrev pub Fills : {W : Type 0} → ℕ → W × Result (List ℕ × ℕ) → Type 0
Fills end (w, err e) = Unit {0}
Fills end (w, ok (bytes, offset)) = offset ≡ end

abbrev pub Lands : {W : Type 0} → ℕ → W × Result ℕ → Type 0
Lands end (w, err e) = Unit {0}
Lands end (w, ok offset) = offset ≡ end

prepend-Fills :
    {W : Type 0} (bytes : List ℕ) (end : ℕ) (r : W × Result (List ℕ × ℕ))
    → Fills end r
    → Fills end (prepend bytes r)
prepend-Fills bytes end (w, err e) h = h
prepend-Fills bytes end (w, ok (more, offset)) h = h

module _ {W : Type 0} (host other : Host W) (laws : IsHost host) (cap : ℕ)
    (same_read : (n offset : ℕ) (w : W)
      → offset + n ≤ cap
      → host.pread n offset w ≡ other.pread n offset w) where
  pub fill-agree :
      (rounds left offset : ℕ) (w : W)
      → left ≤ rounds
      → offset + left ≤ cap
      → (fill host rounds left offset w ≡ fill other rounds left offset w)
        × Fills (offset + left) (fill host rounds left offset w)
  unfolding fill fill_step
  fill-agree zero left offset w p q = (refl, omega arith)
  fill-agree (suc rounds) left offset w p q = elim (Bool-cases (left == 0)) [
    | inl whole ↦ rw whole (refl, ground (arith, whole))
    | inr more ↦
        let (a, b) =
          step (fill-agree rounds) (host.pread left offset w) (laws.short_read left offset w)
            (ground (arith, more)) in
        rw more
          (a ∙ ap (λ r. fill_step left offset (fill other rounds) r) (same_read left offset w q), b)
  ]
    where
      step :
          ((left offset : ℕ) (w : W)
            → left ≤ rounds
            → offset + left ≤ cap
            → (fill host rounds left offset w ≡ fill other rounds left offset w)
              × Fills (offset + left) (fill host rounds left offset w))
          → (r : W × Result (List ℕ)) → AtMost left r
          → 0 < left
          → (fill_step left offset (fill host rounds) r
              ≡ fill_step left offset (fill other rounds) r)
            × Fills (offset + left) (fill_step left offset (fill host rounds) r)
      step again (u, err code) short l = (refl, tt)
      step again (u, ok []) short l = (refl, tt)
      step again (u, ok (b ∷ bs)) short l =
          let (a, f) =
            again (left - length (b ∷ bs)) (offset + length (b ∷ bs)) u (omega arith)
              (omega arith) in
          let end : offset + length (b ∷ bs) + (left - length (b ∷ bs)) ≡ offset + left =
            omega arith in
          (
            ap (prepend (b ∷ bs)) a,
            prepend-Fills (b ∷ bs) (offset + left)
                (fill host rounds (left - length (b ∷ bs)) (offset + length (b ∷ bs)) u)
                (subst
                  (λ e.
                    Fills e
                      (fill host rounds (left - length (b ∷ bs)) (offset + length (b ∷ bs)) u))
                  end f),
          )

module _ {W : Type 0} (host other : Host W) (laws : IsHost host) (cap : ℕ)
    (same_write : (bytes : List ℕ) (offset : ℕ) (w : W)
      → offset + length bytes ≤ cap
      → host.pwrite bytes offset w ≡ other.pwrite bytes offset w) where
  pub drain-agree :
      (rounds : ℕ) (bytes : List ℕ) (offset : ℕ) (w : W)
      → length bytes ≤ rounds
      → offset + length bytes ≤ cap
      → (drain host rounds bytes offset w ≡ drain other rounds bytes offset w)
        × Lands (offset + length bytes) (drain host rounds bytes offset w)
  unfolding drain drain_step
  drain-agree zero bytes offset w p q = (refl, omega arith)
  drain-agree (suc rounds) bytes offset w p q = elim (Bool-cases (length bytes == 0)) [
    | inl whole ↦ rw whole (refl, ground (arith, whole))
    | inr more ↦
        let (a, b) =
          step (drain-agree rounds) (host.pwrite bytes offset w)
            (laws.short_write bytes offset w) in
        rw more (
          a
              ∙ ap (λ r. drain_step bytes offset (drain other rounds) r)
                  (same_write bytes offset w q),
          b,
        )
  ]
    where
      step :
          ((bytes : List ℕ) (offset : ℕ) (w : W)
            → length bytes ≤ rounds
            → offset + length bytes ≤ cap
            → (drain host rounds bytes offset w ≡ drain other rounds bytes offset w)
              × Lands (offset + length bytes) (drain host rounds bytes offset w))
          → (r : W × Result ℕ) → Counts (length bytes) r
          → (drain_step bytes offset (drain host rounds) r
              ≡ drain_step bytes offset (drain other rounds) r)
            × Lands (offset + length bytes) (drain_step bytes offset (drain host rounds) r)
      step again (u, err code) short = (refl, tt)
      step again (u, ok zero) short = (refl, tt)
      step again (u, ok (suc n)) short =
          let size = length-drop (suc n) bytes in
          let (a, f) = again (drop (suc n) bytes) (offset + suc n) u (omega arith) (omega arith) in
          let end : offset + suc n + length (drop (suc n) bytes) ≡ offset + length bytes =
            omega arith in
          (
            a,
            subst (λ e. Lands e (drain host rounds (drop (suc n) bytes) (offset + suc n) u)) end f,
          )
