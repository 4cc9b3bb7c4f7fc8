-- ===== src/Order.antt =====
-- pkgset-order.c: sorting packages so that each follows those that it requires. A package is a
-- number that stands for its address; colours and the `prereqed` bit, members of the packages'
-- `flags`, are maps of the state. What `pkgset_get_required_packages` (pkgset-dep.c) returns is the
-- parameter `required`, an empty list for NULL. Messages are left out; a reported loop is counted.
-- `ordered_pkgs` and `stack` have their last element first. The recursion takes fuel; `none` means
-- that it ran out.

pub mod Colors
pub mod Advance
pub mod Edges
pub mod Total
pub mod Start
pub mod Sorted
pub mod Passes
pub mod Size
mod Tests
use mathlib.Core.List.{reverse}
use poldek.Base.{
  ℕ, zero, suc, ◌+◌, Bool, true, false, not, ◌&&◌, ◌||◌, Option, none, some, List, [], ◌∷◌, ◌++◌,
  length, ltb, ◌==◌, if◌then◌else◌,
}

-- `none_of_pool` is no colour bit at all: the package is not among those to be ordered.
pub data Color : Type 0 where
  none_of_pool white gray black : Color

-- REQPKG_PREREQ and REQPKG_PREREQ_UN of a required package.
pub record Rp : Type 0 where
  pub pkg : ℕ
  pub prereq : Bool
  pub prereq_un : Bool

-- `struct reqpkg`: with REQPKG_MULTI, `adds` are the alternatives.
pub record Reqpkg : Type 0 where
  pub rp : Rp
  pub multi : Bool
  pub adds : List Rp

-- The values of `reqpkg_flag`: 0, REQPKG_PREREQ, REQPKG_PREREQ_UN.
pub data ReqpkgFlag : Type 0 where
  no_flag of_prereq of_prereq_un : ReqpkgFlag

-- `rp->flags & reqpkg_flag`
abbrev pub has_flag : ReqpkgFlag → Rp → Bool
has_flag no_flag rp = false
has_flag of_prereq rp = rp.prereq
has_flag of_prereq_un rp = rp.prereq_un

-- `reqpkg_flag == 0 || (rp->flags & reqpkg_flag)`
abbrev pub is_followed : ReqpkgFlag → Rp → Bool
is_followed no_flag rp = true
is_followed of_prereq rp = rp.prereq
is_followed of_prereq_un rp = rp.prereq_un

-- `struct visit_install_order_s` and what the visit changes of the packages.
pub record Visit : Type 0 where
  pub colors : ℕ → Color
  pub prereqed : ℕ → Bool
  pub ordered : List ℕ
  pub stack : List ℕ
  pub nerrors : ℕ

abbrev pub put {ℓ} : {A : Type ℓ} → (ℕ → A) → ℕ → A → ℕ → A
put f p a q = if q == p then a else f q

-- The packages that a package requires, in the order in which the two loops take them.
abbrev pub alternatives : Reqpkg → List Rp
alternatives r = r.rp ∷ (if r.multi then r.adds else [])

unfoldable pub edges : List Reqpkg → List Rp
edges [] = []
edges (r ∷ rs) = alternatives r ++ edges rs

-- The walk down the stack from a package that is met again: how many packages stand above it, and
-- how many of them are `prereqed`, up to the first that is not.
pub loop_counts : (ℕ → Bool) → ℕ → List ℕ → ℕ → ℕ → ℕ × ℕ
loop_counts prereqed target [] nn nprereqs = (nn, nprereqs)
loop_counts prereqed target (p ∷ ps) nn nprereqs =
    let further = loop_counts prereqed target ps (nn + 1) (nprereqs + 1) in
    if p == target then (nn, nprereqs) else if not (prereqed p) then (nn + 1, nprereqs) else further

pub is_loop : ReqpkgFlag → Visit → Rp → Bool
unfolding loop_counts
is_loop flag s rp =
    let (nn, nprereqs) = loop_counts s.prereqed rp.pkg s.stack 0 0 in
    has_flag flag rp && (ltb 0 nn && nn == nprereqs)

-- One required package, by its colour; `visit` is the recursive call.
pub edge_step : (Visit → ℕ → Option Visit) → ReqpkgFlag → Visit → Rp → Color → Option Visit
edge_step visit flag s rp none_of_pool = some s
edge_step visit flag s rp white =
    let marked = record s { prereqed = put s.prereqed rp.pkg (has_flag flag rp) } in
    if is_followed flag rp then visit marked rp.pkg else some marked
edge_step visit flag s rp gray =
    some (if is_loop flag s rp then record s { nerrors = suc s.nerrors } else s)
edge_step visit flag s rp black = some s

pub edges_loop : (Visit → ℕ → Option Visit) → ReqpkgFlag → List Rp → Visit → Option Visit
edges_loop visit flag [] s = some s
edges_loop visit flag (rp ∷ rps) s = elim (edge_step visit flag s rp (s.colors rp.pkg)) [
  | none ↦ none
  | some t ↦ edges_loop visit flag rps t
]

-- `for (i = last_stack_i; i < n_array_size(stack); i++) pop`, with the bit of what is popped.
pub pop_from : ℕ → List ℕ → (ℕ → Bool) → List ℕ × (ℕ → Bool)
pop_from i [] prereqed = ([], prereqed)
pop_from i (p ∷ ps) prereqed =
    let rest = pop_from (suc i) ps (put prereqed p false) in
    if ltb i (length (p ∷ ps)) then rest else (p ∷ ps, prereqed)

-- The label `l_end`; `last_stack_i` is `none` for -1.
pub finish : ℕ → Option ℕ → Visit → Visit
finish p none s = record s {
  colors = put s.colors p black;
  prereqed = put s.prereqed p false;
  ordered = p ∷ s.ordered;
}
finish p (some last_stack_i) s =
    let popped = pop_from last_stack_i s.stack (put s.prereqed p false) in
    record s {
      colors = put s.colors p black;
      prereqed = popped.1;
      ordered = p ∷ s.ordered;
      stack = popped.0;
    }

-- The visit of a package that has been coloured gray, with what it requires.
pub visit_gray : (Visit → ℕ → Option Visit) → ReqpkgFlag → ℕ → List Reqpkg → Visit → Option Visit
visit_gray visit flag p [] s = some (finish p none s)
visit_gray visit flag p (r ∷ rs) s =
    elim (edges_loop visit flag (edges (r ∷ rs)) (record s { stack = p ∷ s.stack })) [
      | none ↦ none
      | some t ↦ some (finish p (some (length s.stack)) t)
    ]

-- `n_array_map(pkgs, mapfn_clean_pkg_color)`
abbrev pub clean : List ℕ → (ℕ → Color) → ℕ → Color
clean [] colors = colors
clean (p ∷ ps) colors = clean ps (put colors p white)

abbrev pub unmarked : List ℕ → (ℕ → Bool) → ℕ → Bool
unmarked [] prereqed = prereqed
unmarked (p ∷ ps) prereqed = unmarked ps (put prereqed p false)

abbrev pub start : List ℕ → (ℕ → Color) → (ℕ → Bool) → Visit
start pkgs colors prereqed = record {
  colors = clean pkgs colors;
  prereqed = unmarked pkgs prereqed;
  ordered = [];
  stack = [];
  nerrors = 0;
}

module _ (required : ℕ → List Reqpkg) (flag : ReqpkgFlag) where
  -- `visit_install_order`
  pub visit : ℕ → Visit → ℕ → Option Visit
  visit zero s p = none
  visit (suc fuel) s p =
      visit_gray (visit fuel) flag p (required p) (record s { colors = put s.colors p gray })

  -- The loop of `do_order`, which visits what is still white and empties the stack.
  pub order_loop : ℕ → List ℕ → Visit → Option Visit
  order_loop fuel [] s = some s
  order_loop fuel (p ∷ ps) s = elim (s.colors p) [
    | white ↦ elim (visit fuel s p) [
      | none ↦ none
      | some t ↦ order_loop fuel ps (record t { stack = [] })
    ]
    | _ ↦ order_loop fuel ps s
  ]

  -- `do_order`: as much fuel as there are packages. Its closing assertion, that the result has as
  -- many packages, is not part of the result here.
  unfoldable pub do_order : List ℕ → (ℕ → Color) → (ℕ → Bool) → Option Visit
  unfolding visit visit_gray edges_loop edge_step is_loop pop_from finish order_loop edges
  do_order pkgs colors prereqed = order_loop (length pkgs) pkgs (start pkgs colors prereqed)

-- PKGORDER_INSTALL and PKGORDER_UNINSTALL.
pub data OrderType : Type 0 where
  install uninstall : OrderType

abbrev pub flag_of : OrderType → ReqpkgFlag
flag_of install = of_prereq
flag_of uninstall = of_prereq_un

-- The array that a visit leaves.
abbrev pub packages : Visit → List ℕ
packages s = reverse s.ordered

-- `do_packages_order`: a pass over all requirements, and one over the prerequirements of its
-- result. The opening assertion, that there are packages, and the one on the order of their array are
-- left to the caller. `presort` is trurlib's insertion sort by `pkg_cmp_pri_name_evr_rev`. The result is the
-- order and the number of loops.
unfoldable pub do_packages_order :
    (ℕ → List Reqpkg)
    → (List ℕ → List ℕ)
    → List ℕ
    → (ℕ → Color)
    → (ℕ → Bool)
    → OrderType
    → Option (List ℕ × ℕ)
unfolding do_order
do_packages_order required presort pkgs colors prereqed ordertype =
    elim (do_order required no_flag (presort pkgs) colors prereqed) [
      | none ↦ none
      | some first ↦
          elim (do_order required (flag_of ordertype) (packages first) first.colors
            first.prereqed) [ none ↦ none | some second ↦ some (packages second, second.nerrors) ]
    ]
