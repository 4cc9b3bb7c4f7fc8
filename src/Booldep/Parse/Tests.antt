-- ===== src/Booldep/Parse/Tests.antt =====
-- Instances of the theorems about the parser of boolean dependencies.
use poldek.Base.{◌≡◌, refl, true, false, [], arith}
use poldek.Base.Bytes.{Bytes, codes}
use poldek.Booldep.Parse.Tree.{and, if_}
use poldek.Booldep.Parse.Dep.{booldep_parse}
use poldek.Booldep.Parse.Ends.{IsParsed, booldep_parse-IsParsed}
use poldek.Booldep.Parse.Printed.{Dep, atom, binary, chosen, print_dep}

booldep_parse-IsParsed_example : IsParsed (booldep_parse 60 (codes "(foo if bar else (a or b))"))
booldep_parse-IsParsed_example =
    booldep_parse-IsParsed 60 (codes "(foo if bar else (a or b))") (ground arith)

abbrev plain : Bytes → Dep
plain name = atom (record { name = name; lt = false; gt = false; eq = false; evr = [] })

-- foo >= 1
abbrev foo : Dep
foo = atom (record { name = codes "foo"; lt = false; gt = true; eq = true; evr = codes "1" })

-- (foo >= 1 if (a and b) else c)
abbrev choice : Dep
choice = chosen if_ foo (binary and (plain (codes "a")) (plain (codes "b"))) (plain (codes "c"))

choice_text : print_dep choice ≡ codes "(foo >= 1 if (a and b) else c)"
unfolding print_dep
choice_text = refl
