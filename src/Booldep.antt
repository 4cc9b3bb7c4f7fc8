-- ===== src/Booldep.antt =====
-- booldep_eval.c: the requirements that a boolean dependency comes down to. A package is a number
-- for its address, `pkg_at` the package there. The callback `req_cost` is a function of the
-- requirement that gives the cost and the providers, NULL being `none`. Trurlib's search in the
-- array of providers (`bsearch`) and its removal of a package (`remove_eq`) are parameters. An
-- evaluation ends in `none` where the C code dereferences NULL or `capreq_clone` does not return
-- a requirement. Traces are left out.
pub mod Safe
pub mod Parse
mod Tests
use poldek.Base.{
  ℕ, zero, suc, ◌+◌, ◌≡◌, refl, Bool, true, false, not, ◌&&◌, ◌||◌, Option, none, some, List, [],
  ◌∷◌, ◌++◌, ltb, if◌then◌else◌,
}
use poldek.Base.Int.{ℤ, pos, negsuc}
use poldek.Capreq.{Capreq, CapFlags, no_flags, rel_eq}
use poldek.Capreq.New.{capreq_new}
use poldek.Capreq.Clone.{CloneResult, capreq_clone, returned, died, cut}
use poldek.Pkg.{Pkg}

-- `struct node` with its arguments; `null` is the NULL pointer, as for a missing else. The
-- arguments of `if` and `unless` are what holds, the condition, and the else.
pub data Node : Type 0 where
  null : Node
  req : Capreq → Node
  op_and op_or op_with op_without : Node → Node → Node
  op_if op_unless : Node → Node → Node → Node

-- `struct dvalue`, less `next`.
pub record Dvalue : Type 0 where
  pub req : Option Capreq
  pub cost : ℤ
  pub providers : Option (List ℕ)

-- A pointer to a chain of them, or NULL.
pub data Value : Type 0 where
  no_value : Value
  chain : Dvalue → List Dvalue → Value

abbrev pub empty_dvalue : Dvalue
empty_dvalue = record { req = none; cost = pos 0; providers = none }

abbrev pub cost_of : ℤ → ℕ
cost_of (pos n) = n
cost_of (negsuc n) = 99

abbrev pub sum_costs : List Dvalue → ℕ
sum_costs [] = 0
sum_costs (dv ∷ dvs) = cost_of dv.cost + sum_costs dvs

abbrev pub is_none {ℓ} : {A : Type ℓ} → Option A → Bool
is_none none = true
is_none (some a) = false

-- `dvalue_cost`; that the sum may pass the range of `int` is left out.
unfoldable pub dvalue_cost : Value → ℕ
dvalue_cost no_value = 99
dvalue_cost (chain dv dvs) = if is_none dv.req then 99 else sum_costs (dv ∷ dvs)

-- `dvalue_free(x)`, which reads `x->next`, and then the result.
abbrev pub freed : Value → Option Value → Option Value
freed no_value result = none
freed (chain dv dvs) result = result

-- The chain of `left` with that of `right` behind it.
abbrev pub joined : Value → Value → Option Value
joined no_value right = none
joined (chain dv dvs) no_value = some (chain dv dvs)
joined (chain dv dvs) (chain ev evs) = some (chain dv (dvs ++ ev ∷ evs))

unfoldable pub cheaper : Value → Value → Option Value
cheaper left right =
    if ltb (dvalue_cost right) (dvalue_cost left)
    then freed left (some right)
    else freed right (some left)

abbrev pub both : Option Value → Option Value → (Value → Value → Option Value) → Option Value
both none right f = none
both (some left) none f = none
both (some left) (some right) f = f left right

-- The branch that a condition selects, which alone is evaluated in the C code; the evaluation of
-- the other one has no effect.
abbrev pub branch : Option Value → (ℕ → Bool) → Option Value → Option Value → Option Value
branch none test then_ else_ = none
branch (some cond) test then_ else_ = freed cond (if test (dvalue_cost cond) then then_ else else_)

abbrev pub is_zero_cost : ℕ → Bool
is_zero_cost zero = true
is_zero_cost (suc n) = false

abbrev pub is_other_cost : ℕ → Bool
is_other_cost n = not (is_zero_cost n)

module _ (sizeof_capreq : ℕ) (pkg_at : ℕ → Pkg) (req_cost : Capreq → ℤ × Option (List ℕ))
    (bsearch : List ℕ → ℕ → Bool) (remove_eq : List ℕ → ℕ → List ℕ) where
  pub cloned_req : CloneResult → Option Value
  cloned_req (returned (some r)) =
      some (chain (record { req = some r; cost = (req_cost r).0; providers = (req_cost r).1 }) [])
  cloned_req (returned none) = none
  cloned_req died = none
  cloned_req (cut size) = none

  pub eval_req : Capreq → Option Value
  unfolding cloned_req
  eval_req cap = cloned_req (capreq_clone sizeof_capreq false cap)

  -- The requirement `NAME = EPOCH:VER-REL` of a package, made by poldek.
  pkg_req : ℕ → Option Capreq
  pkg_req p =
      let pkg = pkg_at p in
      capreq_new false pkg.name pkg.epoch (some pkg.ver) (some pkg.rel) rel_eq
        (record no_flags { bastard = true })

  -- The cost of a requirement, if it is at least 0 and below `min_cost`.
  lower_cost : ℤ → ℕ → Bool
  lower_cost (pos n) min_cost = ltb n min_cost
  lower_cost (negsuc n) min_cost = false

  best_of : List ℕ → Option Capreq → ℕ → Option Capreq
  best_of [] best min_cost = best
  best_of (p ∷ ps) best min_cost = elim (pkg_req p) [
    | none ↦ none
    | some r ↦
        let cost = (req_cost r).0 in
        let taken = best_of ps (some r) (cost_of cost) in
        let left = best_of ps best min_cost in if lower_cost cost min_cost then taken else left
  ]

  take_best : List ℕ → Option Capreq
  unfolding pkg_req best_of lower_cost
  take_best [] = none
  take_best (p ∷ []) = pkg_req p
  take_best (p ∷ q ∷ qs) = best_of (p ∷ q ∷ qs) none 99

  pub common : List ℕ → List ℕ → List ℕ
  common [] right = []
  common (p ∷ ps) right = let rest = common ps right in if bsearch right p then p ∷ rest else rest

  -- The loop that removes the packages of `right`, up to an empty rest.
  pub removed : List ℕ → List ℕ → List ℕ
  removed [] left = left
  removed (p ∷ ps) [] = []
  removed (p ∷ ps) (l ∷ ls) = removed ps (remove_eq (l ∷ ls) p)

  -- The left value with the packages that are left, NULL if there is none.
  narrowed : Dvalue → List Dvalue → List ℕ → Value
  narrowed dv dvs [] = no_value
  narrowed dv dvs (p ∷ ps) =
      chain (record dv { req = take_best (p ∷ ps); providers = some (p ∷ ps) }) dvs

  -- `eval_with` and `eval_without`: `right` is not evaluated without packages on the left.
  pub restrict : (List ℕ → List ℕ → List ℕ) → Option Value → Option Value → Option Value
  restrict keep none right = none
  restrict keep (some no_value) right = some no_value
  restrict keep (some (chain dv dvs)) right = elim dv.providers [
    | none ↦ some no_value
    | some [] ↦ some no_value
    | some (l ∷ ls) ↦ elim right [
      | none ↦ none
      | some no_value ↦ some no_value
      | some (chain ev evs) ↦ elim ev.providers [
        | none ↦ some no_value
        | some [] ↦ some no_value
        | some (r ∷ rs) ↦ some (narrowed dv dvs (keep (l ∷ ls) (r ∷ rs)))
      ]
    ]
  ]

  unfoldable pub eval : Node → Option Value
  unfolding eval_req restrict common removed narrowed take_best
  eval null = some (chain empty_dvalue [])
  eval (req cap) = eval_req cap
  eval (op_and left right) = both (eval left) (eval right) joined
  eval (op_or left right) = both (eval left) (eval right) cheaper
  eval (op_if then_ cond else_) = branch (eval cond) is_zero_cost (eval then_) (eval else_)
  eval (op_unless then_ cond else_) = branch (eval cond) is_other_cost (eval then_) (eval else_)
  eval (op_with left right) = restrict common (eval left) (eval right)
  eval (op_without left right) =
      restrict (λ left right. removed right left) (eval left) (eval right)

  -- The clones of the requirements in the chain.
  pub clones : List Dvalue → Option (List Capreq)
  clones [] = some []
  clones (dv ∷ dvs) =
      let rest = clones dvs in
      elim dv.req [
        | none ↦ rest
        | some r ↦ elim (capreq_clone sizeof_capreq false r) [
          | returned o ↦ elim o [
            | none ↦ none
            | some c ↦ elim rest [ none ↦ none | some cs ↦ some (c ∷ cs) ]
          ]
          | died ↦ none
          | cut size ↦ none
        ]
      ]

  result : Value → Option (Option (List Capreq))
  result no_value = some none
  result (chain dv dvs) = elim (clones (dv ∷ dvs)) [ none ↦ none | some cs ↦ some (some cs) ]

  -- `booldep_eval`; the inner `none` is NULL.
  unfoldable pub booldep_eval : Node → Option (Option (List Capreq))
  unfolding eval clones result
  booldep_eval node = elim (eval node) [ none ↦ none | some v ↦ result v ]
