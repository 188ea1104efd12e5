-- ===== src/Iommu/Levels.antt =====
-- Buffer accesses through a chain of IOMMU contexts, the accesses to page tables among them.
use vart.Common.{
  ℕ, zero, suc, ◌<◌, ◌≡◌, refl, sym, ap, ◌∙◌, ◌≢◌, ◌⊎◌, inl, inr, false, Option, none, some, List,
  arith, ◌==◌, Bool-cases, ok, err, length, Errno, Result, Status, done,
}
use vart.AddressSpace.Defs.{AddressSpace, Callbacks}
use vart.AddressSpace.Access.{buffer_access, follow}
use vart.Iommu.Defs.{Mode, Context, walks}
use vart.Iommu.Walk.{Downstream}
use vart.Iommu.Context.{FaultHandler}
use vart.Iommu.Chain.{
  Contexts, SameChain, IsDownstream, IsHandler, Ended, iommu_callbacks, buffer_access-Ended,
}

-- The answer of `vart_address_space_read_buffer`; out of fuel, an error.
unfoldable pub read_answer :
    Contexts → Option (Contexts × Result (List ℕ)) → Contexts × Result (List ℕ)
read_answer w none = (w, err Errno.efault)
read_answer w (some r) = r

-- The answer of `vart_address_space_write_buffer`; out of fuel, an error.
unfoldable pub write_answer : Contexts → Option (Contexts × Result (List ℕ)) → Contexts × Status
write_answer w none = (w, err Errno.efault)
write_answer w (some (v, ok bytes)) = (v, done)
write_answer w (some (v, err e)) = (v, err e)

module _ (on_fault : FaultHandler Contexts) (c : Callbacks (ℕ → Context)) where
  -- The calls of `vart_address_space_read_buffer` and `_write_buffer` in `iommu_read_pte` and
  -- `iommu_write_pte`, nested as deep as the fuel allows.
  unfoldable pub downstream_at : ℕ → Downstream Contexts
  downstream_at zero = record {
    read_buffer = λ space address size w. read_answer w none;
    write_buffer = λ space address bytes w. write_answer w none;
  }
  downstream_at (suc fuel) =
      let callbacks = iommu_callbacks (downstream_at fuel) on_fault c in
      record {
        read_buffer = λ space address size w.
            read_answer w (buffer_access callbacks (suc fuel) w space address size none);
        write_buffer = λ space address bytes w.
            write_answer w
              (buffer_access callbacks (suc fuel) w space address (length bytes) (some bytes));
      }

  -- `address_space_buffer_access` where contexts translate spaces
  unfoldable pub iommu_access :
      ℕ → Contexts → ℕ → ℕ → ℕ → Option (List ℕ) → Option (Contexts × Result (List ℕ))
  iommu_access fuel = buffer_access (iommu_callbacks (downstream_at fuel) on_fault c) fuel

read_answer-keeps :
    (w : Contexts) (o : Option (Contexts × Result (List ℕ)))
    → Ended w o
    → SameChain w (read_answer w o).0
unfolding read_answer
read_answer-keeps w none h = (refl, λ k. refl)
read_answer-keeps w (some r) h = h

write_answer-keeps :
    (w : Contexts) (o : Option (Contexts × Result (List ℕ)))
    → Ended w o
    → SameChain w (write_answer w o).0
unfolding write_answer
write_answer-keeps w none h = (refl, λ k. refl)
write_answer-keeps w (some (v, ok bytes)) h = h
write_answer-keeps w (some (v, err e)) h = h

pub follow-agree :
    (s : ℕ) (on on' : Contexts → ℕ → ℕ → Option (Contexts × Result (List ℕ)))
    (r : Contexts × Result (Option ℕ × ℕ))
    → ((v : Contexts) (t x : ℕ) → r ≡ (v, ok (some t, x)) → t ≢ s → on v t x ≡ on' v t x)
    → follow s on r ≡ follow s on' r
unfolding follow
follow-agree s on on' (v, err e) same = refl
follow-agree s on on' (v, ok (none, x)) same = refl
follow-agree s on on' (v, ok (some t, x)) same = elim (Bool-cases (t == s)) [
  | inl self ↦ rw self refl
  | inr other ↦ rw other (same v t x refl (λ e. ground (arith, other, e)))
]

-- A context that translates a space leads nowhere, to a space of lower rank, or, without walking
-- tables, back to the space.
abbrev pub IsAcyclic : (ℕ → ℕ) → Contexts → Type 0
IsAcyclic rank w =
    (s self t : ℕ)
    → (w.space s).translate_opaque ≡ some self
    → (w.devices self).downstream ≡ some t
    → ((t ≡ s) × (walks (w.devices self).mode ≡ false)) ⊎ (rank t < rank s)

pub SameChain-IsAcyclic :
    (rank : ℕ → ℕ) (w v : Contexts) → SameChain w v → IsAcyclic rank w → IsAcyclic rank v
SameChain-IsAcyclic rank w v (space, links) acyclic s self t here leads =
    let mode : (w.devices self).mode ≡ (v.devices self).mode =
      ap (λ (l : Option ℕ × Mode). l.1) (sym (links self)) in
    let before : (w.space s).translate_opaque ≡ some self =
      ap (λ (g : ℕ → AddressSpace). (g s).translate_opaque) (sym space) ∙ here in
    let led : (w.devices self).downstream ≡ some t =
      ap (λ (l : Option ℕ × Mode). l.0) (sym (links self)) ∙ leads in
    elim (acyclic s self t before led) [
      | inl (same, direct) ↦ inl (same, ap walks (sym mode) ∙ direct)
      | inr below ↦ inr below
    ]

module _ (on_fault : FaultHandler Contexts) (c : Callbacks (ℕ → Context))
    (handler : IsHandler on_fault) where
  pub downstream_at-IsDownstream : (fuel : ℕ) → IsDownstream (downstream_at on_fault c fuel)
  unfolding downstream_at
  downstream_at-IsDownstream zero = record {
    reads = λ space address size w. read_answer-keeps w none tt;
    writes = λ space address bytes w. write_answer-keeps w none tt;
  }
  downstream_at-IsDownstream (suc fuel) =
      let ended =
        buffer_access-Ended (downstream_at on_fault c fuel) on_fault
          (downstream_at-IsDownstream fuel) handler c (suc fuel) in
      record {
        reads = λ space address size w. read_answer-keeps w _ (ended w space address size none);
        writes = λ space address bytes w.
            write_answer-keeps w _ (ended w space address (length bytes) (some bytes));
      }
