-- ===== src/Iommu/Chain.antt =====
-- Address spaces that IOMMU contexts translate: buffer accesses through a chain of contexts.
use vart.Common.{
  ℕ, zero, suc, ◌+◌, ◌≡◌, refl, sym, ap, ◌∙◌, inl, inr, Bool, Option, none, some, List, arith, ◌==◌,
  ==_iff, Bool-cases, Option-cases, ok, err, Errno, Result, update,
}
use vart.AddressSpace.Defs.{sub64, World, Callbacks}
use vart.AddressSpace.Access.{find, is_ram, ram_copy, ram_access, follow, buffer_access}
use vart.Iommu.Defs.{Mode, Context}
use vart.Iommu.Walk.{Downstream}
use vart.Iommu.Context.{FaultHandler, context_translate}
use vart.Iommu.Keeps.{link, Keeps, context_translate-Keeps}

-- The end of `iommu_context_translate` for the context `self`, which is stored; the target is its
-- downstream space.
unfoldable pub translator_finish :
    ℕ → World (ℕ → Context) × Context × Result ℕ → World (ℕ → Context) × Result (Option ℕ × ℕ)
translator_finish self (w, context, err e) =
    (record w { devices = update w.devices self context }, err e)
translator_finish self (w, context, ok translated) =
    (record w { devices = update w.devices self context }, ok (context.downstream, translated))

module _ (m : Downstream (World (ℕ → Context)))
    (on_fault : FaultHandler (World (ℕ → Context))) where
  -- `iommu_context_translate`, on an opaque value that is a context's, or NULL
  unfoldable pub iommu_translator :
      Option ℕ → ℕ → ℕ → Bool → World (ℕ → Context) → World (ℕ → Context) × Result (Option ℕ × ℕ)
  iommu_translator none address size is_write w = (w, err Errno.einval)
  iommu_translator (some self) address size is_write w =
      translator_finish self (context_translate m on_fault (w.devices self) address size is_write w)

  -- Every translator of a space is that of a context.
  unfoldable pub iommu_callbacks : Callbacks (ℕ → Context) → Callbacks (ℕ → Context)
  iommu_callbacks c = record c {
    translator =
        λ f opaque address size is_write w. iommu_translator opaque address size is_write w;
  }

-- The store, with the contexts by the pointers to them
abbrev pub Contexts : Type 0
Contexts = World (ℕ → Context)

-- The spaces have the same translators, and the contexts the same modes and downstream spaces.
abbrev pub SameChain : Contexts → Contexts → Type 0
SameChain w v = (v.space ≡ w.space) × ((k : ℕ) → link (v.devices k) ≡ link (w.devices k))

pub SameChain-trans : (u v w : Contexts) → SameChain u v → SameChain v w → SameChain u w
SameChain-trans u v w (space, links) (space', links') = (space' ∙ space, λ k. links' k ∙ links k)

update-chain :
    (devices : ℕ → Context) (self : ℕ) (c : Context) (links : ℕ → Option ℕ × Mode)
    → ((k : ℕ) → link (devices k) ≡ links k)
    → link c ≡ links self
    → (k : ℕ) → link (update devices self c k) ≡ links k
update-chain devices self c links h own k = elim (Bool-cases (self == k)) [
  | inl here ↦ rw here (own ∙ ap links ((==_iff self k).0 here))
  | inr other ↦ rw other (h k)
]

translator_finish-SameChain :
    (w : Contexts) (self : ℕ) (r : Contexts × Context × Result ℕ)
    → Keeps (SameChain w) (link (w.devices self)) r
    → SameChain w (translator_finish self r).0
unfolding translator_finish
translator_finish-SameChain w self (x, c, err e) ((space, links), own) =
    (space, update-chain x.devices self c (λ k. link (w.devices k)) links own)
translator_finish-SameChain w self (x, c, ok y) ((space, links), own) =
    (space, update-chain x.devices self c (λ k. link (w.devices k)) links own)

translator_finish-leads :
    (w v : Contexts) (self : ℕ) (r : Contexts × Context × Result ℕ) (target : Option ℕ)
    (translated : ℕ)
    → Keeps (SameChain w) (link (w.devices self)) r
    → translator_finish self r ≡ (v, ok (target, translated))
    → (w.devices self).downstream ≡ target
unfolding translator_finish
translator_finish-leads w v self (x, c, err e) target translated kept h = absurd (ground (arith, h))
translator_finish-leads w v self (x, c, ok y) target translated (same, own) h =
    let leads : c.downstream ≡ target = cc h in sym (ap (λ (l : Option ℕ × Mode). l.0) own) ∙ leads

ram_copy-chain :
    (w : Contexts) (at size : ℕ) (stored : Option (List ℕ))
    → SameChain w (ram_copy w at size stored).0
unfolding ram_copy
ram_copy-chain w at size none = (refl, λ k. refl)
ram_copy-chain w at size (some bytes) = (refl, λ k. refl)

ram_access-chain :
    (w : Contexts) (s address size : ℕ) (stored : Option (List ℕ))
    → SameChain w (ram_access w s address size stored).0
unfolding ram_access
ram_access-chain w s address size stored = elim (Option-cases (find w (some s) address size)) [
  | inl missing ↦ rw (missing, ram_access) (refl, λ k. refl)
  | inr (r, found) ↦ elim (Bool-cases (is_ram (w.region r).kind)) [
    | inr other ↦ rw (found, ram_access, other) (refl, λ k. refl)
    | inl ram ↦ elim (Option-cases (w.region r).ram_addr) [
      | inl absent ↦ rw (found, ram_access, ram, absent) (refl, λ k. refl)
      | inr (host, mapped) ↦
          rw (found, ram_access, ram, mapped)
            (ram_copy-chain w (host + sub64 address (w.region r).base) size stored)
    ]
  ]
]

-- Page-table accesses leave the chain alone.
pub record IsDownstream (m : Downstream Contexts) : Type 0 where
  pub reads :
      (space address size : ℕ) (w : Contexts) → SameChain w (m.read_buffer space address size w).0
  pub writes :
      (space address : ℕ) (bytes : List ℕ) (w : Contexts)
      → SameChain w (m.write_buffer space address bytes w).0

-- A fault handler leaves the chain alone.
abbrev pub IsHandler : FaultHandler Contexts → Type 0
IsHandler on_fault =
    (f opaque address size : ℕ) (write : Bool) (e : Errno) (w : Contexts)
    → SameChain w (on_fault f opaque address size write e w)

-- What an access comes to, if it ends, is a world with the same chain.
abbrev pub Ended : Contexts → Option (Contexts × Result (List ℕ)) → Type 0
Ended w none = Unit
Ended w (some r) = SameChain w r.0

Ended-trans :
    (u v : Contexts) (o : Option (Contexts × Result (List ℕ)))
    → SameChain u v
    → Ended v o
    → Ended u o
Ended-trans u v none h e = tt
Ended-trans u v (some r) h e = SameChain-trans u v r.0 h e

follow-Ended :
    (w : Contexts) (s : ℕ) (next : Contexts → ℕ → ℕ → Option (Contexts × Result (List ℕ)))
    (r : Contexts × Result (Option ℕ × ℕ))
    → ((v : Contexts) (t x : ℕ) → Ended v (next v t x))
    → SameChain w r.0
    → Ended w (follow s next r)
unfolding follow
follow-Ended w s next (v, err e) on h = h
follow-Ended w s next (v, ok (none, x)) on h = h
follow-Ended w s next (v, ok (some t, x)) on h = elim (Bool-cases (t == s)) [
  | inl self ↦ rw self h
  | inr other ↦ rw other (Ended-trans w v (next v t x) h (on v t x))
]

module _ (m : Downstream Contexts) (on_fault : FaultHandler Contexts) (down : IsDownstream m)
    (handler : IsHandler on_fault) where
  context_translate-chain :
      (w : Contexts) (self address size : ℕ) (write : Bool)
      → Keeps
          (SameChain w)
          (link (w.devices self))
          (context_translate m on_fault (w.devices self) address size write w)
  context_translate-chain w self address size write =
      context_translate-Keeps (SameChain w) m
        (λ space a n x h.
          SameChain-trans w x (m.read_buffer space a n x).0 h (down.reads space a n x))
        (λ space a bytes x h.
          SameChain-trans w x (m.write_buffer space a bytes x).0 h (down.writes space a bytes x))
        on_fault
        (λ f o a n k x y h. SameChain-trans w y (on_fault f o a n k x y) h (handler f o a n k x y))
        (w.devices self) address size write w (refl, λ k. refl)

  pub iommu_translator-keeps :
      (w : Contexts) (opaque : Option ℕ) (address size : ℕ) (is_write : Bool)
      → SameChain w (iommu_translator m on_fault opaque address size is_write w).0
  unfolding iommu_translator
  iommu_translator-keeps w none address size is_write = (refl, λ k. refl)
  iommu_translator-keeps w (some self) address size is_write =
      translator_finish-SameChain w self _ (context_translate-chain w self address size is_write)

  -- A success leads to where the context leads.
  pub iommu_translator-leads :
      (w v : Contexts) (opaque : Option ℕ) (address size : ℕ) (is_write : Bool) (target : Option ℕ)
      (translated : ℕ)
      → iommu_translator m on_fault opaque address size is_write w ≡ (v, ok (target, translated))
      → (self : ℕ) × (opaque ≡ some self) × ((w.devices self).downstream ≡ target)
  unfolding iommu_translator
  iommu_translator-leads w v none address size is_write target translated e =
      absurd (ground (arith, e))
  iommu_translator-leads w v (some self) address size is_write target translated e = (
    self,
    refl,
    translator_finish-leads w v self _ target translated
        (context_translate-chain w self address size is_write) e,
  )

  -- A buffer access changes no translator, and no context's mode or downstream space.
  pub buffer_access-Ended :
      (c : Callbacks (ℕ → Context)) (fuel : ℕ) (w : Contexts) (s address size : ℕ)
      (stored : Option (List ℕ))
      → Ended w (buffer_access (iommu_callbacks m on_fault c) fuel w s address size stored)
  unfolding buffer_access iommu_callbacks
  buffer_access-Ended c zero w s address size stored = tt
  buffer_access-Ended c (suc fuel) w s address size stored = elim (Bool-cases (size == 0)) [
    | inl nothing ↦ rw nothing (refl, λ k. refl)
    | inr something ↦ elim (Option-cases (w.space s).translate) [
      | inl direct ↦ rw (something, direct) (ram_access-chain w s address size stored)
      | inr (f, translate) ↦
          rw (something, translate)
            (follow-Ended w s
              (λ v t x. buffer_access (iommu_callbacks m on_fault c) fuel v t x size stored) _
              (λ v t x. buffer_access-Ended c fuel v t x size stored)
              (iommu_translator-keeps w (w.space s).translate_opaque address size _))
    ]
  ]
