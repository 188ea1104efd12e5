-- ===== src/AddressSpace/History.antt =====
-- Any sequence of calls of address-space.c on regions and spaces.
use vart.Common.{
  ℕ, sym, inl, inr, Bool, not, ◌&&◌, ◌||◌, Option, some, List, [], ◌∷◌, ℕ_discrete, ◌==◌,
  Bool-cases, ==_refl, ==_ne, is_null, length,
}
use vart.AddressSpace.Defs.{World}
use vart.AddressSpace.Ranges.{IsRegion}
use vart.AddressSpace.Ops.{add, remove, set_enabled, space_destroy, set_translator}
use vart.AddressSpace.Invariant.{IsWell}
use vart.AddressSpace.Preserve.{add-IsWell, remove-IsWell}
use vart.AddressSpace.Lifecycle.{set_enabled-IsWell, space_destroy-IsWell}

-- A call, with its space, its region, and what else it takes.
pub data Call : Type 0 where
  adds : ℕ → ℕ → Bool → Call
  removes : ℕ → ℕ → Call
  enables : ℕ → ℕ → Bool → Call
  destroys : ℕ → Call
  translates : ℕ → Option ℕ → Option ℕ → Call

module _ {D : Type 0} where
  unfoldable pub step : World D → Call → World D
  step w (adds s r allocated) = (add w (some s) (some r) allocated).0
  step w (removes s r) = (remove w (some s) (some r)).0
  step w (enables s r enabled) = (set_enabled w (some s) (some r) enabled).0
  step w (destroys s) = space_destroy w s
  step w (translates s translate opaque) = (set_translator w (some s) translate opaque).0

  unfoldable pub run : World D → List Call → World D
  run w [] = w
  run w (call ∷ calls) = run (step w call) calls

  -- A region that is added passed `vart_address_region_init` before.
  abbrev pub Ready : World D → Call → Type 0
  Ready w (adds s r allocated) = IsRegion (w.region r)
  Ready w _ = Unit {0}

  abbrev pub Initialised : World D → List Call → Type 0
  Initialised w [] = Unit {0}
  Initialised w (call ∷ calls) = Ready w call × Initialised (step w call) calls

  set_translator-IsWell :
      (w : World D) (s : ℕ) (translate opaque : Option ℕ)
      → IsWell w
      → IsWell (set_translator w (some s) translate opaque).0
  unfolding set_translator
  set_translator-IsWell w s translate opaque v =
      elim (Bool-cases (is_null translate && not (is_null opaque))) [
        | inl bad ↦ rw bad v
        | inr good ↦
            elim (Bool-cases
              (not (length (w.space s).regions == 0) || not (is_null (w.space s).translate))) [
                | inl busy ↦ rw (good, busy) v
                | inr free ↦
                    rw (good, free)
                      (record {
                        mapped = λ t. elim (ℕ_discrete t s) [
                          | yes e ↦ rw (e, ==_refl) (v.mapped s)
                          | no d ↦ rw (==_ne s t (λ h. d (sym h))) (v.mapped t)
                        ];
                      })
              ]
      ]

  step-IsWell : (w : World D) (call : Call) → Ready w call → IsWell w → IsWell (step w call)
  unfolding step
  step-IsWell w (adds s r allocated) h v = add-IsWell w s r allocated h v
  step-IsWell w (removes s r) h v = remove-IsWell w s r v
  step-IsWell w (enables s r enabled) h v = set_enabled-IsWell w (some s) (some r) enabled v
  step-IsWell w (destroys s) h v = (space_destroy-IsWell w s v).0
  step-IsWell w (translates s t o) h v = set_translator-IsWell w s t o v

  -- No sequence of calls, whatever they return, makes an address space ambiguous: if every region was
  -- initialised when it was added, all spaces stay well formed, so that mapped regions have valid
  -- ranges, point back at their space, are mapped once, and share no address within a priority.
  pub run-IsWell :
      (w : World D) (calls : List Call) → Initialised w calls → IsWell w → IsWell (run w calls)
  unfolding run
  run-IsWell w [] h v = v
  run-IsWell w (call ∷ calls) h v = run-IsWell (step w call) calls h.1 (step-IsWell w call h.0 v)
