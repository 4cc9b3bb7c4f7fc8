-- ===== src/Booldep/Tests.antt =====
-- Instances of the theorems about boolean dependencies.
use poldek.Base.{
  ℕ, ◌≤◌, ◌≡◌, refl, ◌⊎◌, Bool, false, ◌||◌, ◌==◌, Option, none, some, List, [], ◌∷◌, if◌then◌else◌,
}
use poldek.Base.Int.{ℤ, pos}
use poldek.Base.Bytes.{Bytes, codes, str_eq, strcmp}
use poldek.Capreq.{Capreq, no_flags, no_rel, c_str}
use poldek.Capreq.New.{capreq_fill}
use poldek.Capreq.Clone.{capreq_clone}
use poldek.Pkg.{Pkg, plain_pkg}
use poldek.Booldep.{Node, req, op_or, op_with, Dvalue, Value, chain, dvalue_cost, eval}
use poldek.Booldep.Safe.{IsChain, IsPlain, eval-IsChain, eval_cheapest, eval_or_fault}

abbrev cap : Bytes → Capreq
cap name = capreq_fill false name (pos 0) none none no_rel no_flags

abbrev foo : Node
foo = req (cap (codes "foo"))

abbrev bar : Node
bar = req (cap (codes "bar"))

-- A requirement costs nothing, and no package provides it.
abbrev costs_nothing : Capreq → ℤ × Option (List ℕ)
costs_nothing r = (pos 0, none)

abbrev pkg_at : ℕ → Pkg
pkg_at p = plain_pkg (codes "foo") (pos 0) (codes "1") (codes "1")

abbrev found : List ℕ → ℕ → Bool
found ps p = false

abbrev unchanged : List ℕ → ℕ → List ℕ
unchanged ps p = ps

abbrev value_of : Capreq → Dvalue
value_of r = record { req = some r; cost = pos 0; providers = none }

either-IsPlain : IsPlain 16 (op_or foo bar)
unfolding capreq_clone capreq_fill c_str
either-IsPlain = ((cap (codes "foo"), refl), (cap (codes "bar"), refl))

eval-IsChain_example : IsChain (eval 16 pkg_at costs_nothing found unchanged (op_or foo bar))
eval-IsChain_example =
    eval-IsChain 16 pkg_at costs_nothing found unchanged (op_or foo bar) either-IsPlain

eval_cheapest_example :
    (v : Value) × (eval 16 pkg_at costs_nothing found unchanged (op_or foo bar) ≡ some v)
    × ((v ≡ chain (value_of (cap (codes "foo"))) [])
        ⊎ (v ≡ chain (value_of (cap (codes "bar"))) []))
    × (dvalue_cost v ≤ dvalue_cost (chain (value_of (cap (codes "foo"))) []))
    × (dvalue_cost v ≤ dvalue_cost (chain (value_of (cap (codes "bar"))) []))
unfolding eval capreq_clone capreq_fill c_str
eval_cheapest_example =
    eval_cheapest 16 pkg_at costs_nothing found unchanged foo bar (value_of (cap (codes "foo")))
      (value_of (cap (codes "bar"))) [] [] refl refl

-- foo is provided by the package 1, every other requirement by the package 2.
abbrev provided : Capreq → ℤ × Option (List ℕ)
provided r = (pos 0, some ((if str_eq r.name (codes "foo") then 1 else 2) ∷ []))

abbrev listed : List ℕ → ℕ → Bool
listed [] p = false
listed (q ∷ qs) p = p == q || listed qs p

abbrev provided_by : ℕ → Capreq → Dvalue
provided_by p r = record { req = some r; cost = pos 0; providers = some (p ∷ []) }

eval_or_fault_example :
    eval 16 pkg_at provided listed unchanged (op_or foo (op_with foo bar)) ≡ none
unfolding eval capreq_clone capreq_fill c_str dvalue_cost strcmp
eval_or_fault_example =
    eval_or_fault 16 pkg_at provided listed unchanged foo foo bar
      (chain (provided_by 1 (cap (codes "foo"))) []) (provided_by 1 (cap (codes "foo")))
      (provided_by 2 (cap (codes "bar"))) [] [] 1 2 [] [] refl refl refl refl refl (refl, tt)
