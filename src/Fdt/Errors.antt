-- ===== src/Fdt/Errors.antt =====
-- Calls of the builder that fail.
use vart.Common.{ℕ, ◌≡◌, List, arith, err, Errno, Status}
use vart.Fdt.Defs.{Fdt}
use vart.Fdt.Builder.{fdt_begin_node, fdt_end_node, name_offset, property_finish, fdt_property}
use vart.Fdt.Reader.{Event, begins, ends, sets}
use vart.Fdt.Calls.{apply}

-- A pair of a builder and a status that is no failure, or leaves the builder as it was
abbrev Kept : Fdt → Fdt × Status → Type 0
Kept fdt r = (code : Errno) → r.1 ≡ err code → r.0 ≡ fdt

pub begin_node-Kept : (fdt : Fdt) (name : List ℕ) → Kept fdt (fdt_begin_node fdt name)
unfolding fdt_begin_node
begin_node-Kept fdt name code e = ground (arith, e)

end_node-Kept : (fdt : Fdt) → Kept fdt (fdt_end_node fdt)
unfolding fdt_end_node
end_node-Kept fdt code e = ground (arith, e)

name_offset-Kept :
    (fdt : Fdt) (name bytes : List ℕ) → Kept fdt (property_finish bytes (name_offset fdt name))
unfolding name_offset property_finish
name_offset-Kept fdt name bytes code e = ground (arith, e)

property-Kept : (fdt : Fdt) (name value : List ℕ) → Kept fdt (fdt_property fdt name value)
unfolding fdt_property
property-Kept fdt name value code e = ground (arith, e, name_offset-Kept fdt name value code)

-- A node that is not begun, a node that is not ended and a property that is not set, for whatever
-- reason, leave the builder as it was, its strings included.
pub apply-Kept :
    (e : Event) (fdt : Fdt) (code : Errno) → (apply e fdt).1 ≡ err code → (apply e fdt).0 ≡ fdt
unfolding apply
apply-Kept (begins name) fdt = begin_node-Kept fdt name
apply-Kept ends fdt = end_node-Kept fdt
apply-Kept (sets name value) fdt = property-Kept fdt name value
