-- ===== src/Conflicts.antt =====
-- pkgset-dep.c: the packages that a package conflicts with, and those that require it. A package is
-- the number that stands for its address, and `pkg_at` is what is stored there. The arrays are
-- AUTOSORTED: where `n_array_push` puts an element and which of several equal ones
-- `n_array_bsearch` finds are parameters. `none` is an array that is NULL.
pub mod Collected
pub mod Gathered
pub mod Whole
mod Tests
use poldek.Base.{
  ℕ, zero, suc, Bool, true, false, not, ◌&&◌, ◌||◌, Option, none, some, List, [], ◌∷◌, ◌==◌,
  if◌then◌else◌,
}
use poldek.Base.Int.{ℤ, is_zero}
use poldek.Base.Bytes.{Bytes}
use poldek.Capreq.{Capreq, capreq_has_ver}
use poldek.Pkg.{Pkg}
use poldek.Pkg.Registry.{Registry}
use poldek.Pkg.Cmp.{pkg_cmp_name, pkg_cmp_name_evr, pkg_cmp_arch}
use poldek.Match.{pkg_match_req}
use poldek.Arrays.{change_at}
use poldek.CapreqIdx.{Ent, capreq_idx_lookup}

-- A `struct reqpkg` with REQPKG_CONFLICT; `obsolete` is REQPKG_OBSOLETE.
pub record Cnflpkg : Type 0 where
  pub pkg : ℕ
  pub obsolete : Bool

-- CAPREQ_OBCNFL is the bit of CAPREQ_PREREQ.
abbrev pub touch_cnfl : Capreq → Cnflpkg → Cnflpkg
touch_cnfl cnfl c = record c { obsolete = c.obsolete || cnfl.flags.prereq }

abbrev pub new_cnfl : Capreq → ℕ → Cnflpkg
new_cnfl cnfl spkg = record { pkg = spkg; obsolete = cnfl.flags.prereq }

-- The loop that `get_conflicted` and `get_reqby` share: the suspects that pass the tests are put
-- into the array, made on demand, unless an element for them is found, which is touched.
module _ {E : Type 0} (push : List E → E → List E) (bsearch : List E → ℕ → Option ℕ) (new : ℕ → E)
    (touch : E → E) (test : ℕ → Bool) where
  abbrev pub put_found : Option ℕ → List E → ℕ → List E
  put_found none es spkg = push es (new spkg)
  put_found (some i) es spkg = change_at i touch es

  abbrev pub put : Option (List E) → ℕ → Option (List E)
  put none spkg = some (push [] (new spkg))
  put (some es) spkg = some (put_found (bsearch es spkg) es spkg)

  unfoldable pub collect : List ℕ → Option (List E) → Option (List E)
  collect [] re = re
  collect (spkg ∷ suspkgs) re =
      let next = if test spkg then put re spkg else re in collect suspkgs next

  unfoldable pub collect_found : Option (List ℕ) → Option (List E) → Option (List E)
  unfolding collect
  collect_found none re = re
  collect_found (some suspkgs) re = collect suspkgs re

-- `if (re && n_array_size(re) == 0) n_array_cfree(&re)`
abbrev pub no_empty {ℓ} : {E : Type ℓ} → Option (List E) → Option (List E)
no_empty none = none
no_empty (some []) = none
no_empty (some (e ∷ es)) = some (e ∷ es)

module _ (pkg_at : ℕ → Pkg) (vercmp : Bytes → Bytes → ℤ) (promote_epoch : Bool)
    (find : List Capreq → Bytes → Option ℕ) (registry : Registry) where
  -- One name, version and release, but two architectures.
  abbrev is_multilib : ℕ → ℕ → Bool
  is_multilib spkg pkg =
      is_zero (pkg_cmp_name_evr vercmp (pkg_at spkg) (pkg_at pkg))
      && not (is_zero (pkg_cmp_arch registry (pkg_at spkg) (pkg_at pkg)))

  -- The tests of `get_conflicted` on a suspect.
  abbrev pub is_conflicting : ℕ → Capreq → ℕ → Bool
  is_conflicting pkg cnfl spkg =
      if cnfl.flags.bastard && not (is_zero (pkg_cmp_name (pkg_at pkg) (pkg_at spkg)))
      then false
      else if capreq_has_ver cnfl
          && not (pkg_match_req vercmp promote_epoch find (pkg_at spkg) cnfl true)
      then false
      else not (spkg == pkg) && not (is_multilib spkg pkg)

  -- The tests of `get_reqby`; the version is tested of the package itself.
  abbrev pub is_requiring : ℕ → Capreq → ℕ → Bool
  is_requiring pkg cap spkg =
      if capreq_has_ver cap && not (pkg_match_req vercmp promote_epoch find (pkg_at pkg) cap true)
      then false
      else not (spkg == pkg) && not (is_multilib spkg pkg)

  module _ (cap_idx : List Ent) (push : List Cnflpkg → Cnflpkg → List Cnflpkg)
      (bsearch : List Cnflpkg → ℕ → Option ℕ) where
    unfoldable pub get_conflicted : ℕ → Capreq → Option (List Cnflpkg) → Option (List Cnflpkg)
    unfolding collect_found
    get_conflicted pkg cnfl re =
        collect_found push bsearch (new_cnfl cnfl) (touch_cnfl cnfl) (is_conflicting pkg cnfl)
          (capreq_idx_lookup cnfl.name cap_idx) re

    unfoldable pub conflicted_loop : ℕ → List Capreq → Option (List Cnflpkg) → Option (List Cnflpkg)
    unfolding get_conflicted
    conflicted_loop pkg [] re = re
    conflicted_loop pkg (cnfl ∷ cnfls) re = conflicted_loop pkg cnfls (get_conflicted pkg cnfl re)

    unfoldable pub pkgset_get_conflicted_packages : ℕ → Option (List Capreq) → Option (List Cnflpkg)
    unfolding conflicted_loop
    pkgset_get_conflicted_packages pkg none = none
    pkgset_get_conflicted_packages pkg (some cnfls) = no_empty (conflicted_loop pkg cnfls none)

  module _ (req_idx : List Ent) (push : List ℕ → ℕ → List ℕ) (bsearch : List ℕ → ℕ → Option ℕ) where
    unfoldable pub get_reqby : ℕ → Capreq → Option (List ℕ) → Option (List ℕ)
    unfolding collect_found
    get_reqby pkg cap re =
        collect_found push bsearch (λ spkg. spkg) (λ spkg. spkg) (is_requiring pkg cap)
          (capreq_idx_lookup cap.name req_idx) re

    unfoldable pub reqby_loop : ℕ → List Capreq → Option (List ℕ) → Option (List ℕ)
    unfolding get_reqby
    reqby_loop pkg [] re = re
    reqby_loop pkg (cap ∷ caps) re = reqby_loop pkg caps (get_reqby pkg cap re)

    -- `caps` are those of the package, its self-capability included.
    unfoldable pub pkgset_get_requiredby_packages : ℕ → List Capreq → Option (List ℕ)
    unfolding reqby_loop
    pkgset_get_requiredby_packages pkg caps = no_empty (reqby_loop pkg caps none)
