-- ===== src/Bus/Invariant.antt =====
-- Buses and devices agree, and the operations of bus.c keep it so.
use vart.Common.{
  ℕ, ◌≡◌, refl, sym, ◌∙◌, subst, ◌≢◌, ◌↔◌, ◌⊎◌, inl, inr, Bool, true, false, Option, none, some,
  List, [], ◌∷◌, ◌++◌, arith, ℕ_discrete, ◌==◌, Bool-cases, Option-cases, ==_refl, ==_ne, err,
  length, In, Errno, done, Result-cases, update, Once, remove_first, In-append, Once-append,
  remove_first-In, remove_first-Once, remove_first-some,
}
use vart.AddressSpace.Ops.{grow}
use vart.Bus.{Device, Tree, set_link, bus_add_device, bus_remove_device, bus_destroy}

-- The array of bus `b` holds exactly the devices that name it, each once.
pub record IsBus (devices : ℕ → Device) (b : ℕ) (held : List ℕ) : Type 0 where
  pub once : Once held
  pub linked : (d : ℕ) → In d held ↔ ((devices d).bus ≡ some b)

pub record IsTree {D : Type 0} (w : Tree D) : Type 0 where
  pub buses : (b : ℕ) → IsBus w.device b (w.bus b).devices

module _ (devices : ℕ → Device) (d : ℕ) where
  link_self : (link : Option ℕ) → (set_link d link devices d).bus ≡ link
  link_self link = ground arith

  link_ne : (link : Option ℕ) (q : ℕ) → q ≢ d → (set_link d link devices q).bus ≡ (devices q).bus
  link_ne link q n = ground arith

  IsBus-other :
      (t : ℕ) (held : List ℕ) (link : Option ℕ)
      → (devices d).bus ≢ some t
      → link ≢ some t
      → IsBus devices t held
      → IsBus (set_link d link devices) t held
  IsBus-other t held link n m v = record {
    once = v.once;
    linked = λ q. elim (ℕ_discrete q d) [
      | yes e ↦
          rw e ((λ i. absurd (n ((v.linked d).0 i))), (λ l. absurd (m (sym (link_self link) ∙ l))))
      | no x ↦ (
        (λ i. link_ne link q x ∙ (v.linked q).0 i),
        (λ l. (v.linked q).1 (sym (link_ne link q x) ∙ l)),
      )
    ];
  }

  IsBus-add :
      (b : ℕ) (held : List ℕ)
      → (devices d).bus ≡ none
      → IsBus devices b held
      → IsBus (set_link d (some b) devices) b (held ++ d ∷ [])
  IsBus-add b held free v = record {
    once = Once-append held d v.once absent;
    linked = λ q. elim (ℕ_discrete q d) [
      | yes e ↦ rw e ((λ i. link_self (some b)), (λ l. (In-append held d d).1 (inr refl)))
      | no x ↦ (
        (λ i. link_ne (some b) q x ∙ (v.linked q).0 (earlier q x ((In-append held d q).0 i))),
        (λ l. (In-append held d q).1 (inl ((v.linked q).1 (sym (link_ne (some b) q x) ∙ l)))),
      )
    ];
  }
    where
      absent : ¬ In d held
      absent i = let e : (devices d).bus ≡ some b = (v.linked d).0 i in cc

      earlier : (q : ℕ) → q ≢ d → In q held ⊎ (q ≡ d) → In q held
      earlier q x (inl i) = i
      earlier q x (inr e) = absurd (x e)

  IsBus-remove :
      (b : ℕ) (held rest : List ℕ)
      → remove_first d held ≡ some rest
      → IsBus devices b held
      → IsBus (set_link d none devices) b rest
  IsBus-remove b held rest e v = record {
    once = remove_first-Once d held rest e v.once;
    linked = λ q. elim (ℕ_discrete q d) [
      | yes x ↦ (
        (λ i. absurd (((remove_first-In d held rest e v.once q).0 i).1 x)),
        (λ l. absurd (unlinked (subst (λ p. (set_link d none devices p).bus ≡ some b) x l))),
      )
      | no x ↦ (
        (λ i. link_ne none q x ∙ (v.linked q).0 ((remove_first-In d held rest e v.once q).0 i).0),
        (λ l.
            (remove_first-In d held rest e v.once q).1
              ((v.linked q).1 (sym (link_ne none q x) ∙ l), x)),
      )
    ];
  }
    where
      unlinked : (set_link d none devices d).bus ≡ some b → ⊥
      unlinked z = let h : (set_link d none devices d).bus ≡ none = link_self none in cc

module _ {D : Type 0} (w : Tree D) (b d : ℕ) where
  abbrev attached : ℕ → Tree D
  attached capacity = record w {
    device = set_link d (some b) w.device;
    bus =
        update w.bus b
          (record (w.bus b) { devices = (w.bus b).devices ++ d ∷ []; device_capacity = capacity });
  }

  abbrev detached : List ℕ → Tree D
  detached rest = record w {
    device = set_link d none w.device;
    bus = update w.bus b (record (w.bus b) { devices = rest });
  }

  -- Adding fails and changes nothing, or attaches a device that was on no bus and not realized.
  pub bus_add_device-cases :
      (allocated : Bool)
      → ((e : Errno) × (bus_add_device w (some b) (some d) allocated ≡ (w, err e)))
        ⊎ ((capacity : ℕ) × ((w.device d).bus ≡ none)
            × ((w.device d).realized ≡ false)
            × (bus_add_device w (some b) (some d) allocated ≡ (attached capacity, done)))
  unfolding bus_add_device
  bus_add_device-cases allocated = elim (Option-cases (w.device d).bus) [
    | inr (t, e) ↦ inl (Errno.ealready, ground arith)
    | inl free ↦ elim (Bool-cases (w.device d).realized) [
      | inl on ↦ inl (Errno.ebusy, ground arith)
      | inr off ↦
          elim (Result-cases
            (grow (length (w.bus b).devices) (w.bus b).device_capacity allocated 4)) [
              | inl (capacity, g) ↦ inr (capacity, free, off, ground arith)
              | inr (e, g) ↦ inl (e, ground arith)
            ]
    ]
  ]

  -- Removing fails and changes nothing, or detaches a device of the bus that is not realized.
  pub bus_remove_device-cases :
      ((e : Errno) × (bus_remove_device w (some b) (some d) ≡ (w, err e)))
      ⊎ ((rest : List ℕ) × ((w.device d).bus ≡ some b)
          × ((w.device d).realized ≡ false)
          × (remove_first d (w.bus b).devices ≡ some rest)
          × (bus_remove_device w (some b) (some d) ≡ (detached rest, done)))
  unfolding bus_remove_device
  bus_remove_device-cases = elim (Option-cases (w.device d).bus) [
    | inl free ↦ inl (Errno.enoent, ground arith)
    | inr (t, l) ↦ elim (Bool-cases (t == b)) [
      | inr ne ↦ inl (Errno.enoent, ground arith)
      | inl hit ↦ elim (Bool-cases (w.device d).realized) [
        | inl on ↦ inl (Errno.ebusy, ground arith)
        | inr off ↦ elim (Option-cases (remove_first d (w.bus b).devices)) [
          | inl n ↦ inl (Errno.enoent, ground arith)
          | inr (rest, e) ↦ inr (rest, ground arith, off, e, ground arith)
        ]
      ]
    ]
  ]

  added-IsTree : (capacity : ℕ) → (w.device d).bus ≡ none → IsTree w → IsTree (attached capacity)
  added-IsTree capacity free v = record {
    buses = λ t. elim (ℕ_discrete t b) [
      | yes e ↦ rw (e, ==_refl) (IsBus-add w.device d b _ free (v.buses b))
      | no x ↦
          rw (==_ne b t (λ e. x (sym e)))
            (IsBus-other w.device d t _ (some b) (λ l. cc) (λ l. x (ground arith)) (v.buses t))
    ];
  }

  removed-IsTree :
      (rest : List ℕ)
      → (w.device d).bus ≡ some b
      → remove_first d (w.bus b).devices ≡ some rest
      → IsTree w
      → IsTree (detached rest)
  removed-IsTree rest l e v = record {
    buses = λ t. elim (ℕ_discrete t b) [
      | yes h ↦ rw (h, ==_refl) (IsBus-remove w.device d b _ rest e (v.buses b))
      | no x ↦
          rw (==_ne b t (λ h. x (sym h)))
            (IsBus-other w.device d t _ none (λ h. x (ground arith)) (λ h. cc) (v.buses t))
    ];
  }

  pub bus_add_device-IsTree :
      (allocated : Bool) → IsTree w → IsTree (bus_add_device w (some b) (some d) allocated).0
  bus_add_device-IsTree allocated v = elim (bus_add_device-cases allocated) [
    | inl (e, h) ↦ rw h v
    | inr (capacity, free, off, h) ↦ rw h (added-IsTree capacity free v)
  ]

  pub bus_remove_device-IsTree : IsTree w → IsTree (bus_remove_device w (some b) (some d)).0
  bus_remove_device-IsTree v = elim bus_remove_device-cases [
    | inl (e, h) ↦ rw h v
    | inr (rest, l, off, e, h) ↦ rw h (removed-IsTree rest l e v)
  ]

  -- Where buses and devices agree, removing a device succeeds exactly when it is on the bus and not
  -- realized.
  pub bus_remove_device-succeeds :
      IsTree w
      → ((bus_remove_device w (some b) (some d)).1 ≡ done)
        ↔ (((w.device d).bus ≡ some b) × ((w.device d).realized ≡ false))
  unfolding bus_remove_device
  bus_remove_device-succeeds v = (
    (λ h. elim bus_remove_device-cases [
      | inl (e, f) ↦ absurd (ground (arith, h, f))
      | inr (rest, l, off, _, _) ↦ (l, off)
    ]),
    λ (l, off). let (rest, f) = remove_first-some d _ (((v.buses b).linked d).1 l) in ground arith,
  )

module _ {D : Type 0} (w : Tree D) (b : ℕ) where
  pub bus_destroy-IsTree : IsTree w → IsTree (bus_destroy w (some b)).0
  unfolding bus_destroy
  bus_destroy-IsTree v = elim (Bool-cases (length (w.bus b).devices == 0)) [
    | inr full ↦ rw full v
    | inl empty ↦ rw empty (record {
      buses = λ t. elim (ℕ_discrete t b) [
        | yes e ↦
            rw (e, ==_refl)
              (subst (IsBus w.device b) (no_entries (w.bus b).devices empty) (v.buses b))
        | no x ↦ rw (==_ne b t (λ e. x (sym e))) (v.buses t)
      ];
    })
  ]
    where
      no_entries : (held : List ℕ) → (length held == 0) ≡ true → held ≡ []
      no_entries [] h = refl
      no_entries (q ∷ qs) h = absurd (ground arith)
