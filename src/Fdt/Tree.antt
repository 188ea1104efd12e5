-- ===== src/Fdt/Tree.antt =====
-- Trees of nodes, what a blob says of them, and trees of which some nodes are still open.
use vart.Common.{
  ℕ, zero, suc, ◌<◌, ◌≡◌, refl, sym, ap, ◌∙◌, Bool, List, [], ◌∷◌, ◌++◌, arith, length, get_or, set,
}
use vart.Fdt.Reader.{Event, begins, ends, sets}
use vart.Fdt.Encode.{append_assoc, append-nil}

mutual
  -- A node has a name, properties, and then its children.
  pub data Tree : Type 0 where
    node : List ℕ → List (List ℕ × List ℕ) → Forest → Tree

  pub data Forest : Type 0 where
    leaf : Forest
    graft : Forest → Tree → Forest

abbrev pub spell_properties : List (List ℕ × List ℕ) → List Event
spell_properties [] = []
spell_properties ((name, value) ∷ ps) = sets name value ∷ spell_properties ps

unfoldable mutual
  pub spell : Tree → List Event
  spell (node name ps ts) = begins name ∷ (spell_properties ps ++ (spell_all ts ++ ends ∷ []))

  pub spell_all : Forest → List Event
  spell_all leaf = []
  spell_all (graft ts t) = spell_all ts ++ spell t

-- An open node: its name, its properties, and its children that have ended
pub record Frame : Type 0 where
  pub name : List ℕ
  pub properties : List (List ℕ × List ℕ)
  pub children : Forest

abbrev pub spell_frame : Frame → List Event
spell_frame f = begins f.name ∷ (spell_properties f.properties ++ spell_all f.children)

-- Open nodes, the innermost first
abbrev pub spell_open : List Frame → List Event
spell_open [] = []
spell_open (f ∷ fs) = spell_open fs ++ spell_frame f

abbrev pub with_property : Frame → List ℕ → List ℕ → Frame
with_property f name value = record f { properties = f.properties ++ (name, value) ∷ [] }

abbrev pub close : Frame → Tree
close f = node f.name f.properties f.children

spell_properties-append :
    (ps : List (List ℕ × List ℕ)) (name value : List ℕ)
    → spell_properties (ps ++ (name, value) ∷ []) ≡ spell_properties ps ++ sets name value ∷ []
spell_properties-append [] name value = refl
spell_properties-append ((n, v) ∷ ps) name value =
    ap (λ l. sets n v ∷ l) (spell_properties-append ps name value)

-- A property that is set on an open node with no children yet
pub spell_open-property :
    (f : Frame) (fs : List Frame) (name value : List ℕ)
    → f.children ≡ leaf
    → spell_open (f ∷ fs) ++ sets name value ∷ [] ≡ spell_open (with_property f name value ∷ fs)
unfolding spell_all
spell_open-property f fs name value e =
    append_assoc (spell_open fs) (spell_frame f) (sets name value ∷ [])
    ∙ ap (λ l. spell_open fs ++ (begins f.name ∷ l))
        (ap (λ t. (spell_properties f.properties ++ spell_all t) ++ sets name value ∷ []) e
          ∙ ap (λ l. l ++ sets name value ∷ []) (append-nil (spell_properties f.properties))
          ∙ sym (spell_properties-append f.properties name value)
          ∙ sym (append-nil (spell_properties (f.properties ++ (name, value) ∷ [])))
          ∙ ap (λ t. spell_properties (f.properties ++ (name, value) ∷ []) ++ spell_all t) (sym e))

spell-close : (f : Frame) → spell_frame f ++ ends ∷ [] ≡ spell (close f)
unfolding spell
spell-close f =
    ap (λ l. begins f.name ∷ l)
      (append_assoc (spell_properties f.properties) (spell_all f.children) (ends ∷ []))

-- The outermost node ends.
pub spell_open-root : (f : Frame) → spell_open (f ∷ []) ++ ends ∷ [] ≡ spell (close f)
spell_open-root f = spell-close f

-- Another node ends, and is a child of the one around it.
pub spell_open-child :
    (f g : Frame) (fs : List Frame)
    → spell_open (f ∷ g ∷ fs) ++ ends ∷ []
      ≡ spell_open (record g { children = graft g.children (close f) } ∷ fs)
unfolding spell_all
spell_open-child f g fs =
    append_assoc (spell_open fs ++ spell_frame g) (spell_frame f) (ends ∷ [])
    ∙ ap (λ l. (spell_open fs ++ spell_frame g) ++ l) (spell-close f)
    ∙ append_assoc (spell_open fs) (spell_frame g) (spell (close f))
    ∙ ap (λ l. spell_open fs ++ (begins g.name ∷ l))
        (append_assoc (spell_properties g.properties) (spell_all g.children) (spell (close f)))

pub get_or-set-here :
    (xs : List Bool) (i : ℕ) (v d : Bool) → i < length xs → get_or (set xs i v) i d ≡ v
get_or-set-here [] i v d p = absurd (omega arith)
get_or-set-here (x ∷ xs) zero v d p = refl
get_or-set-here (x ∷ xs) (suc i) v d p = get_or-set-here xs i v d (omega arith)

pub get_or-set-there :
    (xs : List Bool) (i j : ℕ) (v d : Bool) → i < j → get_or (set xs j v) i d ≡ get_or xs i d
get_or-set-there [] i j v d p = refl
get_or-set-there (x ∷ xs) i zero v d p = absurd (omega arith)
get_or-set-there (x ∷ xs) zero (suc j) v d p = refl
get_or-set-there (x ∷ xs) (suc i) (suc j) v d p = get_or-set-there xs i j v d (omega arith)
