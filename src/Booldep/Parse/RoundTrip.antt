-- ===== src/Booldep/Parse/RoundTrip.antt =====
-- `booldep_parse` reads the printed text of a boolean dependency.
use poldek.Base.{ℕ, ◌+◌}
use poldek.Base.Bytes.{Bytes}
use poldek.Booldep.Parse.Printed.{Dep, atom, binary, chosen}

-- The calls of `parse_dep` inside each other that a dependency takes, at most.
abbrev pub calls : Dep → ℕ
calls (atom a) = 0
calls (binary o a b) = 2 + (calls a + calls b)
calls (chosen o a b c) = 3 + (calls a + calls b + calls c)

-- A dependency that is printed in brackets.
abbrev pub IsBracketed : Dep → Type 0
IsBracketed (atom a) = ⊥
IsBracketed (binary o a b) = Unit
IsBracketed (chosen o a b c) = Unit
