-- ===== src/Fdt/Calls.antt =====
-- Calls of the builder that make events, one after another.
use vart.Common.{sym, subst, List, [], ◌∷◌, ◌++◌, ok, err, Errno, Status}
use vart.Fdt.Defs.{Fdt}
use vart.Fdt.Builder.{fdt_begin_node, fdt_end_node, fdt_property}
use vart.Fdt.Reader.{Event, begins, ends, sets}
use vart.Fdt.Encode.{IsString, append-nil}
use vart.Fdt.Steps.{IsBuilt}

-- A call that makes an event
unfoldable pub apply : Event → Fdt → Fdt × Status
apply (begins name) fdt = fdt_begin_node fdt name
apply ends fdt = fdt_end_node fdt
apply (sets name value) fdt = fdt_property fdt name value

abbrev pub keep : Status → Event → List Event
keep (ok _) e = e ∷ []
keep (err _) e = []

unfoldable pub run : List Event → Fdt → Fdt
run [] fdt = fdt
run (e ∷ es) fdt = run es (apply e fdt).0

-- The calls that succeed
unfoldable pub accepted : List Event → Fdt → List Event
accepted [] fdt = []
accepted (e ∷ es) fdt = keep (apply e fdt).1 e ++ accepted es (apply e fdt).0

-- Names that are C strings
abbrev pub HasString : Event → Type 0
HasString (begins name) = IsString name
HasString ends = Unit {0}
HasString (sets name value) = IsString name

-- A failure that changes nothing, or a success that adds the event
abbrev pub Extends : List Event → Event → Fdt × Status → Type 0
Extends events e r = IsBuilt r.0 (events ++ keep r.1 e)

pub refused :
    (fdt : Fdt) (events : List Event) (e : Event) (code : Errno)
    → IsBuilt fdt events
    → Extends events e (fdt, err code)
refused fdt events e code b = subst (λ l. IsBuilt fdt l) (sym (append-nil events)) b
