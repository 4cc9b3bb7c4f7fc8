-- ===== src/Mark/Visit.antt =====
-- pkgmark.c: the marking of packages with what they require. The recursion of `visit_mark_reqs`
-- takes fuel, and `none` means that it ran out. Counts of packages stay far below INT_MAX.
pub mod Marked
pub mod Step
pub mod Closure
pub mod Whole
use poldek.Base.{
  ℕ, zero, suc, ◌+◌, ◌-◌, ◌^◌, Bool, true, false, not, ◌&&◌, ◌||◌, Option, none, some, List, [],
  ◌∷◌, length, ltb, if◌then◌else◌,
}
use poldek.Base.Bytes.{Bytes}
use poldek.Pkg.{Pkg}
use poldek.Order.{Rp, Reqpkg}
use poldek.Mark.{PkgmarkSet, pkgmark_mark, pkgmark_dep, pkgmark_any, pkgmark_set, pkgmark_isset}

-- The alternatives of a requirement behind the first one.
abbrev pub others : Reqpkg → List Rp
others r = if r.multi then r.adds else []

abbrev pub pkgs_of : List Rp → List ℕ
pkgs_of [] = []
pkgs_of (rp ∷ rps) = rp.pkg ∷ pkgs_of rps

module _ (pkg_at : ℕ → Pkg) (printed : ℕ → Bytes) (required : ℕ → List Reqpkg) where
  -- `pkg_is_marked`, `pkg_is_dep_marked`, `pkg_dep_mark` and `pkg_hand_mark`
  abbrev pub is_marked : PkgmarkSet → ℕ → Bool
  is_marked pms p = pkgmark_isset pkg_at printed pms p pkgmark_any

  abbrev pub is_dep_marked : PkgmarkSet → ℕ → Bool
  is_dep_marked pms p = pkgmark_isset pkg_at printed pms p pkgmark_dep

  abbrev pub dep_mark : PkgmarkSet → ℕ → PkgmarkSet
  dep_mark pms p = pkgmark_set pkg_at printed pms p true pkgmark_dep

  abbrev pub hand_mark : PkgmarkSet → ℕ → PkgmarkSet
  hand_mark pms p = pkgmark_set pkg_at printed pms p true pkgmark_mark

  pub any_marked : PkgmarkSet → List ℕ → Bool
  any_marked pms [] = false
  any_marked pms (p ∷ ps) = is_marked pms p || any_marked pms ps

  -- The loop of `pkgmark_pkg_drags`; `drags` is the recursive call.
  drags_loop : (ℕ → ℕ) → PkgmarkSet → List Reqpkg → ℕ
  drags_loop drags pms [] = 0
  drags_loop drags pms (r ∷ rs) =
      let further = drags_loop drags pms rs in
      if is_marked pms r.rp.pkg || any_marked pms (pkgs_of (others r))
      then further
      else drags r.rp.pkg + 1 + further

  pub pkgmark_pkg_drags : PkgmarkSet → ℕ → ℕ → ℕ
  pkgmark_pkg_drags pms zero p = 0
  pkgmark_pkg_drags pms (suc deep) p = drags_loop (pkgmark_pkg_drags pms deep) pms (required p)

  -- The equivalent that drags fewest packages, the first of these.
  pub fewest : PkgmarkSet → ℕ → ℕ → List ℕ → ℕ
  fewest pms tomark ndragged_min [] = tomark
  fewest pms tomark ndragged_min (p ∷ ps) =
      let ndragged = pkgmark_pkg_drags pms 2 p in
      let taken = fewest pms p ndragged ps in
      let left = fewest pms tomark ndragged_min ps in
      if ltb ndragged ndragged_min then taken else left

  -- The package to mark for a requirement, `INT_MAX - 1` being the first minimum.
  pub tomark_of : PkgmarkSet → ℕ → List ℕ → ℕ
  tomark_of pms p [] = p
  tomark_of pms p (q ∷ qs) = fewest pms p (2 ^ 31 - 2) (p ∷ q ∷ qs)

  -- One requirement; `visit` is the recursive call.
  pub visit_req : (PkgmarkSet → ℕ → Option PkgmarkSet) → Reqpkg → PkgmarkSet → Option PkgmarkSet
  visit_req visit r pms =
      if is_marked pms r.rp.pkg || any_marked pms (pkgs_of (others r))
      then some pms
      else visit pms (tomark_of pms r.rp.pkg (pkgs_of (others r)))

  pub visit_reqs :
      (PkgmarkSet → ℕ → Option PkgmarkSet) → List Reqpkg → PkgmarkSet → Option PkgmarkSet
  visit_reqs visit [] pms = some pms
  visit_reqs visit (r ∷ rs) pms = elim (visit_req visit r pms) [
    | none ↦ none
    | some t ↦ visit_reqs visit rs t
  ]

  -- `visit_mark_reqs`
  pub visit_mark_reqs : ℕ → PkgmarkSet → ℕ → Option PkgmarkSet
  visit_mark_reqs zero pms p = none
  visit_mark_reqs (suc fuel) pms p =
      if is_dep_marked pms p
      then some pms
      else visit_reqs (visit_mark_reqs fuel) (required p)
          (if is_marked pms p then pms else dep_mark pms p)

  abbrev pub hand_mark_all : List ℕ → PkgmarkSet → PkgmarkSet
  hand_mark_all [] pms = pms
  hand_mark_all (p ∷ ps) pms = hand_mark_all ps (hand_mark pms p)

  pub visit_all : ℕ → List ℕ → PkgmarkSet → Option PkgmarkSet
  visit_all fuel [] pms = some pms
  visit_all fuel (p ∷ ps) pms = elim (visit_mark_reqs fuel pms p) [
    | none ↦ none
    | some t ↦ visit_all fuel ps t
  ]

  -- `depmark_packages` and `packages_mark`, with the fuel that the visits get.
  unfoldable pub depmark_packages : ℕ → Bool → List ℕ → PkgmarkSet → Option PkgmarkSet
  unfolding visit_mark_reqs visit_reqs visit_req visit_all tomark_of fewest pkgmark_pkg_drags
      drags_loop any_marked
  depmark_packages fuel withdeps pkgs pms =
      if withdeps
      then visit_all fuel pkgs (hand_mark_all pkgs pms)
      else some (hand_mark_all pkgs pms)
