-- ===== src/Pkg/Selfcap.antt =====
-- `pkg_add_selfcap` of pkg.c and `capreq_arr_find` of capreq.c. A package is given the capability
-- of its own name, version and release. Trurlib's arrays of capabilities are parameters.
use poldek.Base.{ℕ, Bool, true, false, not, Option, none, some, List, [], ◌∷◌, drop, if◌then◌else◌}
use poldek.Base.Bytes.{Bytes, str_eq}
use poldek.Capreq.{Capreq, no_flags, rel_eq}
use poldek.Capreq.New.{capreq_new}
use poldek.Pkg.{Pkg}
use poldek.Pkg.Cmp.{pkg_eq_capreq}

-- The arrays of trurlib, and whether a package is in an allocator.
pub record CapArrays : Type 0 where
  pub is_sorted : List Capreq → Bool
  pub sort : List Capreq → List Capreq
  pub isort : List Capreq → List Capreq
  pub uniq : List Capreq → List Capreq
  pub push : List Capreq → Capreq → List Capreq
  pub bsearch_idx : List Capreq → Bytes → Option ℕ
  pub in_na : Pkg → Bool

-- The loop from the capability that was found, up to one of another name.
has_self : Pkg → List Capreq → Bool
has_self pkg [] = false
has_self pkg (cap ∷ caps) =
    let later = has_self pkg caps in
    if not (str_eq cap.name pkg.name) then false else if pkg_eq_capreq pkg cap then true else later

-- What the search says of the array behind it.
has_found : Pkg → List Capreq → Option ℕ → Bool
unfolding has_self
has_found pkg arr none = false
has_found pkg arr (some i) = has_self pkg (drop i arr)

module _ (arrays : CapArrays) where
  -- `capreq_arr_find`, with the array that it may have sorted.
  unfoldable pub capreq_arr_find : List Capreq → Bytes → List Capreq × Option ℕ
  capreq_arr_find arr name =
      let at_hand = if arrays.is_sorted arr then arr else arrays.sort arr in
      (at_hand, arrays.bsearch_idx at_hand name)

  with_found : Pkg → List Capreq × Option ℕ → List Capreq × Bool
  unfolding has_found
  with_found pkg (arr, at) = (arr, has_found pkg arr at)

  -- The array, an empty one if there was none, and whether the capability is in it.
  looked_for : Pkg → Option (List Capreq) → List Capreq × Bool
  unfolding capreq_arr_find with_found
  looked_for pkg none = ([], false)
  looked_for pkg (some caps) = with_found pkg (capreq_arr_find caps pkg.name)

  -- `capreq_new` refuses no version that comes with a relation, so that NULL is never pushed.
  with_new : List Capreq → Option Capreq → List Capreq
  with_new arr none = arr
  with_new arr (some cap) = arrays.uniq (arrays.isort (arrays.push arr cap))

  selfcap_in : Pkg → List Capreq × Bool → List Capreq
  unfolding with_new
  selfcap_in pkg (arr, true) = arrays.uniq arr
  selfcap_in pkg (arr, false) = with_new arr (
      capreq_new (arrays.in_na pkg) pkg.name pkg.epoch (some pkg.ver) (some pkg.rel) rel_eq
        no_flags)

  unfoldable pub pkg_add_selfcap : Pkg → Pkg
  unfolding looked_for selfcap_in
  pkg_add_selfcap pkg = if pkg.flags.has_selfcap then pkg else record pkg {
    flags = record pkg.flags { has_selfcap = true };
    caps = some (selfcap_in pkg (looked_for pkg pkg.caps));
  }
