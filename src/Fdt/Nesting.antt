-- ===== src/Fdt/Nesting.antt =====
-- The calls that succeed begin and end nodes as a tree has them.
use vart.Common.{
  ℕ, suc, ◌+◌, ◌-◌, ◌%◌, ◌^◌, ◌≤◌, ◌<◌, ◌≡◌, refl, sym, ap, ◌∙◌, subst, ◌⊎◌, inl, inr, Bool, true,
  false, ◌||◌, List, [], ◌∷◌, ◌++◌, arith, ◌==◌, if◌then◌else◌, Bool-cases, length, get_or, set,
  length-set,
}
use vart.Fdt.Reader.{Event, begins, ends, sets}
use vart.Fdt.Tree.{
  Forest, leaf, node, graft, spell, spell_all, Frame, spell_open, with_property, close,
  spell_open-property, spell_open-root, spell_open-child, get_or-set-here, get_or-set-there,
}

-- Nodes around others are marked to have a child.
abbrev Outer : List Bool → List Frame → Type 0
Outer child_seen [] = Unit {0}
Outer child_seen (g ∷ gs) = (get_or child_seen (length gs) false ≡ true) × Outer child_seen gs

-- The outermost node has the empty name.
abbrev Rooted : List Frame → Type 0
Rooted [] = Unit {0}
Rooted (f ∷ []) = f.name ≡ []
Rooted (f ∷ g ∷ fs) = Rooted (g ∷ fs)

-- Nodes are open: what the builder's fields say of them
abbrev IsOpen : List Bool → ℕ → Bool → Bool → List Event → Frame → List Frame → Type 0
IsOpen child_seen depth root_seen root_closed events f fs =
    (events ≡ spell_open (f ∷ fs))
    × (depth ≡ suc (length fs))
    × (root_seen ≡ true)
    × (root_closed ≡ false)
    × (get_or child_seen (length fs) false ≡ false → f.children ≡ leaf)
    × Outer child_seen fs
    × Rooted (f ∷ fs)

-- No node is begun yet, some are open, or the root has ended.
abbrev pub Nested : List Bool → ℕ → ℕ → Bool → Bool → List Event → Type 0
Nested child_seen capacity depth root_seen root_closed events =
    (length child_seen ≡ capacity)
    × (capacity ≤ 2 ^ 30)
    × (((events ≡ []) × (depth ≡ 0) × (root_seen ≡ false) × (root_closed ≡ false))
        ⊎ (((f : Frame) × (fs : List Frame) × IsOpen child_seen depth root_seen root_closed events f
                fs)
            ⊎ ((ps : List (List ℕ × List ℕ)) × (ts : Forest) × (events ≡ spell (node [] ps ts))
                × (depth ≡ 0)
                × (root_closed ≡ true))))

Outer-set :
    (child_seen : List Bool) (fs : List Frame) (i : ℕ) (v : Bool)
    → length fs ≤ i
    → Outer child_seen fs
    → Outer (set child_seen i v) fs
Outer-set child_seen [] i v p h = tt
Outer-set child_seen (f ∷ fs) i v p (h, rest) = (
  get_or-set-there child_seen (length fs) i v false (omega arith) ∙ h,
  Outer-set child_seen fs i v (omega arith) rest,
)

with_property-Rooted :
    (f : Frame) (fs : List Frame) (name value : List ℕ)
    → Rooted (f ∷ fs)
    → Rooted (with_property f name value ∷ fs)
with_property-Rooted f [] name value h = h
with_property-Rooted f (g ∷ fs) name value h = h

abbrev with_child : Frame → Frame → Frame
with_child g f = record g { children = graft g.children (close f) }

with_child-Rooted : (f g : Frame) (fs : List Frame) → Rooted (g ∷ fs) → Rooted (with_child g f ∷ fs)
with_child-Rooted f g [] h = h
with_child-Rooted f g (k ∷ fs) h = h

pub set-Nested :
    (child_seen : List Bool) (capacity depth : ℕ) (root_seen root_closed : Bool)
    (events : List Event) (name value : List ℕ)
    → Nested child_seen capacity depth root_seen root_closed events
    → 0 < depth
    → get_or child_seen (depth - 1) false ≡ false
    → Nested child_seen capacity depth root_seen root_closed (events ++ sets name value ∷ [])
set-Nested child_seen capacity depth root_seen root_closed events name value (room, small, state) p
      none_seen =
    elim state [
      | inl (e, zero_, s, c) ↦ absurd (omega arith)
      | inr (inr (ps, ts, e, zero_, c)) ↦ absurd (omega arith)
      | inr (inl (f, fs, (says, deep, s, c, childless, outer, rooted))) ↦
          let here : depth - 1 ≡ length fs = omega arith in
          let empty = childless (subst (λ i. get_or child_seen i false ≡ false) here none_seen) in
          (
            room,
            small,
            inr (
                inl (
                  with_property f name value,
                  fs,
                  (
                    ap (λ l. l ++ sets name value ∷ []) says
                        ∙ spell_open-property f fs name value empty,
                    deep,
                    s,
                    c,
                    childless,
                    outer,
                    with_property-Rooted f fs name value rooted,
                  ),
                )),
          )
    ]

-- The innermost node ends: it was the root, or the child of another.
end-open :
    (child_seen : List Bool) (capacity depth : ℕ) (root_seen root_closed : Bool)
    (events : List Event) (f : Frame) (fs : List Frame)
    → length child_seen ≡ capacity
    → capacity ≤ 2 ^ 30
    → IsOpen child_seen depth root_seen root_closed events f fs
    → Nested child_seen capacity
        (depth - 1)
        root_seen
        (root_closed || depth - 1 == 0)
        (events ++ ends ∷ [])
end-open child_seen capacity depth root_seen root_closed events f [] room small
      (says, deep, s, c, childless, outer, rooted) =
    (
      room,
      small,
      inr (
          inr (
            f.properties,
            f.children,
            ap (λ l. l ++ ends ∷ []) says
                ∙ spell_open-root f
                ∙ ap (λ n. spell (node n f.properties f.children)) rooted,
            omega arith,
            ground arith,
          )),
    )
end-open child_seen capacity depth root_seen root_closed events f (g ∷ fs) room small
      (says, deep, s, c, childless, (seen, outer), rooted) =
    (
      room,
      small,
      inr (
          inl (
            with_child g f,
            fs,
            (
              ap (λ l. l ++ ends ∷ []) says ∙ spell_open-child f g fs,
              omega arith,
              s,
              ground arith,
              (λ unseen. absurd (ground (arith, seen, unseen))),
              outer,
              with_child-Rooted f g fs rooted,
            ),
          )),
    )

pub end-Nested :
    (child_seen : List Bool) (capacity depth : ℕ) (root_seen root_closed : Bool)
    (events : List Event)
    → Nested child_seen capacity depth root_seen root_closed events
    → 0 < depth
    → Nested child_seen capacity
        (depth - 1)
        root_seen
        (root_closed || depth - 1 == 0)
        (events ++ ends ∷ [])
end-Nested child_seen capacity depth root_seen root_closed events (room, small, state) p =
    elim state [
      | inl (e, zero_, s, c) ↦ absurd (omega arith)
      | inr (inr (ps, ts, e, zero_, c)) ↦ absurd (omega arith)
      | inr (inl (f, fs, open_)) ↦
          end-open child_seen capacity depth root_seen root_closed events f fs room small open_
    ]

abbrev new_frame : List ℕ → Frame
new_frame name = record { name = name; properties = []; children = leaf }

-- `child_seen` while a node begins
abbrev pub marked : List Bool → ℕ → List Bool
marked child_seen depth = if depth == 0 then child_seen else set child_seen (depth - 1) true

length-marked :
    (child_seen : List Bool) (depth : ℕ) → length (marked child_seen depth) ≡ length child_seen
length-marked child_seen depth = elim (Bool-cases (depth == 0)) [
  | inl none_ ↦ rw none_ refl
  | inr some_ ↦ rw some_ (length-set child_seen (depth - 1) true)
]

marked-deep :
    (child_seen : List Bool) (depth k : ℕ)
    → depth ≡ suc k
    → marked child_seen depth ≡ set child_seen k true
marked-deep child_seen depth k e =
    let some_ : (depth == 0) ≡ false = ground (arith, e) in
    let here : depth - 1 ≡ k = omega arith in rw some_ (ap (λ i. set child_seen i true) here)

pub begin-Nested :
    (child_seen : List Bool) (capacity depth : ℕ) (root_seen root_closed : Bool)
    (events : List Event) (name : List ℕ)
    → Nested child_seen capacity depth root_seen root_closed events
    → root_closed ≡ false
    → depth < capacity
    → (root_seen ≡ false → name ≡ [])
    → Nested
        (set (marked child_seen depth) depth false)
        capacity
        ((depth + 1) % 2 ^ 32)
        true
        root_closed
        (events ++ begins name ∷ [])
unfolding spell_all
begin-Nested child_seen capacity depth root_seen root_closed events name (room, small, state) open_
      deep unnamed =
    let whole =
      length-set (marked child_seen depth) depth false ∙ length-marked child_seen depth ∙ room in
    elim state [
      | inl (e, zero_, s, c) ↦ (
        whole,
        small,
        inr (
            inl (
              new_frame name,
              [],
              (
                ap (λ l. l ++ begins name ∷ []) e,
                omega arith,
                refl,
                open_,
                (λ h. refl),
                tt,
                unnamed s,
              ),
            )),
      )
      | inr (inr (ps, ts, e, zero_, c)) ↦ absurd (ground (arith, open_, c))
      | inr (inl (f, fs, (says, level, s, c, childless, outer, rooted))) ↦
          let seen : get_or (set child_seen (length fs) true) (length fs) false ≡ true =
            get_or-set-here child_seen (length fs) true false (omega arith) in
          (
            whole,
            small,
            inr (
                inl (
                  new_frame name,
                  f ∷ fs,
                  (
                    ap (λ l. l ++ begins name ∷ []) says,
                    omega arith,
                    refl,
                    open_,
                    (λ h. refl),
                    Outer-set (marked child_seen depth) (f ∷ fs) depth false (omega arith) (
                        subst (λ x. Outer x (f ∷ fs))
                          (sym (marked-deep child_seen depth (length fs) level))
                          (seen, Outer-set child_seen fs (length fs) true (omega arith) outer)),
                    rooted,
                  ),
                )),
          )
    ]
