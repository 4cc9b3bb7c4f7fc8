-- ===== src/Booldep/Safe.antt =====
-- Which evaluations of boolean dependencies end, and what `or` chooses.
use poldek.Base.{
  ℕ, ◌≤◌, ◌≡◌, refl, ap₂, ◌∙◌, ◌⊎◌, inl, inr, Bool, false, Option, none, some, List, [], ◌∷◌, All,
  arith, ltb, if◌then◌else◌, Bool-cases,
}
use poldek.Base.Int.{ℤ}
use poldek.Capreq.{Capreq}
use poldek.Capreq.Clone.{capreq_clone, returned}
use poldek.Pkg.{Pkg}
use poldek.Booldep.{
  Node, null, req, op_and, op_or, op_with, op_without, op_if, op_unless, Dvalue, Value, no_value,
  chain, dvalue_cost, joined, both, cheaper, branch, is_zero_cost, is_other_cost, cloned_req,
  eval_req, common, narrowed, restrict, eval,
}

-- A chain of values, neither NULL nor a fault.
abbrev pub IsChain : Option Value → Type 0
IsChain none = ⊥
IsChain (some no_value) = ⊥
IsChain (some (chain dv dvs)) = Unit

cheaper-IsChain : (v w : Option Value) → IsChain v → IsChain w → IsChain (both v w cheaper)
unfolding cheaper
cheaper-IsChain none w h k = absurd h
cheaper-IsChain (some no_value) w h k = absurd h
cheaper-IsChain (some (chain a more)) none h k = absurd k
cheaper-IsChain (some (chain a more)) (some no_value) h k = absurd k
cheaper-IsChain (some (chain a more)) (some (chain b bs)) h k =
    elim (Bool-cases (ltb (dvalue_cost (chain b bs)) (dvalue_cost (chain a more)))) [
      | inl less ↦ rw (cheaper, less) tt
      | inr not_less ↦ rw (cheaper, not_less) tt
    ]

joined-IsChain : (v w : Option Value) → IsChain v → IsChain w → IsChain (both v w joined)
joined-IsChain none w h k = absurd h
joined-IsChain (some no_value) w h k = absurd h
joined-IsChain (some (chain a more)) none h k = absurd k
joined-IsChain (some (chain a more)) (some no_value) h k = absurd k
joined-IsChain (some (chain a more)) (some (chain b bs)) h k = tt

branch-IsChain :
    (c : Option Value) (test : ℕ → Bool) (v w : Option Value)
    → IsChain c
    → IsChain v
    → IsChain w
    → IsChain (branch c test v w)
branch-IsChain none test v w h k l = absurd h
branch-IsChain (some no_value) test v w h k l = absurd h
branch-IsChain (some (chain a more)) test v w h k l =
    elim (Bool-cases (test (dvalue_cost (chain a more)))) [
      | inl met ↦ rw met k
      | inr unmet ↦ rw unmet l
    ]

-- Requirements that can be cloned, under no `with` or `without`.
abbrev pub IsPlain : ℕ → Node → Type 0
IsPlain sizeof_capreq null = Unit
IsPlain sizeof_capreq (req cap) =
    (c : Capreq) × (capreq_clone sizeof_capreq false cap ≡ returned (some c))
IsPlain sizeof_capreq (op_and l r) = IsPlain sizeof_capreq l × IsPlain sizeof_capreq r
IsPlain sizeof_capreq (op_or l r) = IsPlain sizeof_capreq l × IsPlain sizeof_capreq r
IsPlain sizeof_capreq (op_with l r) = ⊥
IsPlain sizeof_capreq (op_without l r) = ⊥
IsPlain sizeof_capreq (op_if t c e) =
    IsPlain sizeof_capreq t × (IsPlain sizeof_capreq c × IsPlain sizeof_capreq e)
IsPlain sizeof_capreq (op_unless t c e) =
    IsPlain sizeof_capreq t × (IsPlain sizeof_capreq c × IsPlain sizeof_capreq e)

module _ (sizeof_capreq : ℕ) (pkg_at : ℕ → Pkg) (req_cost : Capreq → ℤ × Option (List ℕ))
    (bsearch : List ℕ → ℕ → Bool) (remove_eq : List ℕ → ℕ → List ℕ) where
  abbrev evaluate : Node → Option Value
  evaluate = eval sizeof_capreq pkg_at req_cost bsearch remove_eq

  -- A dependency of requirements that can be cloned, with `and`, `or`, `if` and `unless` only, is
  -- evaluated to a chain of values: no NULL is dereferenced or returned.
  pub eval-IsChain :
      (node : Node)
      → IsPlain sizeof_capreq node
      → IsChain (eval sizeof_capreq pkg_at req_cost bsearch remove_eq node)
  unfolding eval eval_req cloned_req
  eval-IsChain null h = tt
  eval-IsChain (req cap) h = rw h.1 tt
  eval-IsChain (op_and l r) h =
      joined-IsChain (evaluate l) (evaluate r) (eval-IsChain l h.0) (eval-IsChain r h.1)
  eval-IsChain (op_or l r) h =
      cheaper-IsChain (evaluate l) (evaluate r) (eval-IsChain l h.0) (eval-IsChain r h.1)
  eval-IsChain (op_if t c e) h =
      branch-IsChain (evaluate c) is_zero_cost (evaluate t) (evaluate e) (eval-IsChain c h.1.0)
        (eval-IsChain t h.0) (eval-IsChain e h.1.1)
  eval-IsChain (op_unless t c e) h =
      branch-IsChain (evaluate c) is_other_cost (evaluate t) (evaluate e) (eval-IsChain c h.1.0)
        (eval-IsChain t h.0) (eval-IsChain e h.1.1)
  eval-IsChain (op_with l r) h = absurd h
  eval-IsChain (op_without l r) h = absurd h

  -- Where both sides of an `or` are evaluated to chains, the result is one of the two, and it
  -- costs no more than either.
  pub eval_cheapest :
      (left right : Node) (a b : Dvalue) (more bs : List Dvalue)
      → eval sizeof_capreq pkg_at req_cost bsearch remove_eq left ≡ some (chain a more)
      → eval sizeof_capreq pkg_at req_cost bsearch remove_eq right ≡ some (chain b bs)
      → (v : Value) × (eval sizeof_capreq pkg_at req_cost bsearch remove_eq (op_or left right)
          ≡ some v)
        × ((v ≡ chain a more) ⊎ (v ≡ chain b bs))
        × (dvalue_cost v ≤ dvalue_cost (chain a more))
        × (dvalue_cost v ≤ dvalue_cost (chain b bs))
  unfolding eval cheaper
  eval_cheapest left right a b more bs h k =
      elim (Bool-cases (ltb (dvalue_cost (chain b bs)) (dvalue_cost (chain a more)))) [
        | inl less ↦ (chain b bs, rw (eval, h, k, less) refl, inr refl, ground arith, ground arith)
        | inr not_less ↦
            (chain a more, rw (eval, h, k, not_less) refl, inl refl, ground arith, ground arith)
      ]

  common_none :
      (ps rs : List ℕ)
      → All (λ p. bsearch rs p ≡ false) ps
      → common sizeof_capreq pkg_at req_cost bsearch remove_eq ps rs ≡ []
  unfolding common
  common_none [] rs h = refl
  common_none (p ∷ ps) rs h = rw (h.0) (common_none ps rs h.1)

  -- A `with` whose sides have providers, but none in common, is evaluated to NULL.
  with_none :
      (b c : Node) (dv ev : Dvalue) (dvs evs : List Dvalue) (p q : ℕ) (ps qs : List ℕ)
      → evaluate b ≡ some (chain dv dvs)
      → dv.providers ≡ some (p ∷ ps)
      → evaluate c ≡ some (chain ev evs)
      → ev.providers ≡ some (q ∷ qs)
      → All (λ x. bsearch (q ∷ qs) x ≡ false) (p ∷ ps)
      → evaluate (op_with b c) ≡ some no_value
  unfolding eval restrict narrowed
  with_none b c dv ev dvs evs p q ps qs hb hp hc hq apart =
      ap₂ kept hb hc ∙ rw (restrict, hp, hq, common_none (p ∷ ps) (q ∷ qs) apart) refl
    where
      kept : Option Value → Option Value → Option Value
      kept v w =
          restrict sizeof_capreq pkg_at req_cost bsearch remove_eq
            (common sizeof_capreq pkg_at req_cost bsearch remove_eq) v w

  or_null :
      (v : Value) → cheaper v no_value ≡ (if ltb 99 (dvalue_cost v) then some no_value else none)
  unfolding cheaper dvalue_cost
  or_null no_value = refl
  or_null (chain dv dvs) = refl

  -- An `or` never gives its left alternative when the right one is a `with` whose sides have
  -- providers, but none in common, whatever the left is evaluated to: it gives NULL if the left
  -- costs more than 99, and else dereferences NULL.
  pub eval_or_fault :
      (left b c : Node) (v : Value) (dv ev : Dvalue) (dvs evs : List Dvalue) (p q : ℕ)
      (ps qs : List ℕ)
      → eval sizeof_capreq pkg_at req_cost bsearch remove_eq left ≡ some v
      → eval sizeof_capreq pkg_at req_cost bsearch remove_eq b ≡ some (chain dv dvs)
      → dv.providers ≡ some (p ∷ ps)
      → eval sizeof_capreq pkg_at req_cost bsearch remove_eq c ≡ some (chain ev evs)
      → ev.providers ≡ some (q ∷ qs)
      → All (λ x. bsearch (q ∷ qs) x ≡ false) (p ∷ ps)
      → eval sizeof_capreq pkg_at req_cost bsearch remove_eq (op_or left (op_with b c))
        ≡ (if ltb 99 (dvalue_cost v) then some no_value else none)
  unfolding eval
  eval_or_fault left b c v dv ev dvs evs p q ps qs h hb hp hc hq apart =
      ap₂ (λ x y. both x y cheaper) h (with_none b c dv ev dvs evs p q ps qs hb hp hc hq apart)
      ∙ or_null v
