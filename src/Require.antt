-- ===== src/Require.antt =====
-- pkgset-req.c: the packages of a set that satisfy a requirement. A package is the number that
-- stands for its address, and `pkg_at` is what is stored there. The index of files, the search of
-- the directories of packages and the package manager are parameters. The result of `psreq_lookup`
-- is `none` where it returns 0, else the packages it points to.
pub mod Sorted
pub mod Providers
mod Tests
use poldek.Base.{
  ℕ, zero, suc, ◌+◌, ◌-◌, Bool, true, false, not, ◌&&◌, ◌||◌, Option, none, some, List, [], ◌∷◌,
  ◌++◌, take, length, ltb, ◌==◌, if◌then◌else◌,
}
use poldek.Base.Int.{ℤ, is_negative}
use poldek.Base.Bytes.{Bytes, codes, str_eq}
use poldek.Capreq.{Capreq, capreq_has_ver, capreq_is_file}
use poldek.Pkg.{Pkg}
use poldek.Pkg.Registry.{Registry}
use poldek.Pkg.Cmp.{pkg_cmp_name_evr_rev}
use poldek.Match.{pkg_match_req}
use poldek.Isort.{isort}
use poldek.CapreqIdx.{Ent, capreq_idx_lookup}

-- `isort_pkgs`
unfoldable pub isort_pkgs : (ℕ → ℕ → ℤ) → List ℕ → List ℕ
isort_pkgs cmp pkgs = isort (λ tmp p. is_negative (cmp tmp p)) pkgs

-- `if (n > 1) isort_pkgs(matches, n)`
unfoldable pub isort_many : (ℕ → ℕ → ℤ) → List ℕ → List ℕ
isort_many cmp matches = if ltb 1 (length matches) then isort_pkgs cmp matches else matches

-- The two results of `psreq_match_pkgs`.
pub record Matched : Type 0 where
  pub nmatch : ℕ
  pub matches : List ℕ

-- `pkg && spkg != pkg`
abbrev pub is_other : Option ℕ → ℕ → Bool
is_other none spkg = false
is_other (some p) spkg = not (spkg == p)

-- The pointer `*packages` after the matches have been pushed.
abbrev pub pushed : Option (List ℕ) → List ℕ → Option (List ℕ)
pushed packages [] = packages
pushed none (m ∷ ms) = some (m ∷ ms)
pushed (some old) (m ∷ ms) = some (old ++ m ∷ ms)

pub record Found : Type 0 where
  pub found : Bool
  pub packages : Option (List ℕ)

module _ (pkg_at : ℕ → Pkg) (vercmp : Bytes → Bytes → ℤ) where
  abbrev pub cmp_at : Registry → Bool → ℕ → ℕ → ℤ
  cmp_at registry multilib p q = pkg_cmp_name_evr_rev vercmp registry multilib (pkg_at p) (pkg_at q)

  module _ (promote_epoch : Bool) (find : List Capreq → Bytes → Option ℕ) where
    -- The test in the loop of `psreq_match_pkgs`.
    abbrev pub is_match : Capreq → Bool → ℕ → Bool
    is_match req strict spkg =
        not (capreq_has_ver req) || pkg_match_req vercmp promote_epoch find (pkg_at spkg) req strict

    -- The loop; it ends at the package itself.
    match_loop : Option ℕ → Capreq → Bool → List ℕ → List ℕ → ℕ → Matched
    match_loop pkg req strict [] matches nmatch = record { nmatch = nmatch; matches = matches }
    match_loop pkg req strict (spkg ∷ suspkgs) matches nmatch =
        let skipped = match_loop pkg req strict suspkgs matches nmatch in
        let added = match_loop pkg req strict suspkgs (matches ++ spkg ∷ []) (suc nmatch) in
        if not (is_match req strict spkg)
        then skipped
        else if is_other pkg spkg
        then added
        else record { nmatch = suc nmatch; matches = [] }

    module _ (registry : Registry) (multilib : Bool) where
      unfoldable pub psreq_match_pkgs : Option ℕ → Capreq → Bool → List ℕ → Matched
      unfolding match_loop isort_many
      psreq_match_pkgs pkg req strict suspkgs =
          let r = match_loop pkg req strict suspkgs [] 0 in
          record r { matches = isort_many (cmp_at registry multilib) r.matches }

      module _ (cap_idx : List Ent) (file_index_lookup : Bytes → ℕ → List ℕ)
          (search_provdir : Bytes → Option (List ℕ)) (pm_satisfies : Capreq → Bool) where
        matched : List ℕ → Option (List ℕ)
        matched [] = none
        matched (p ∷ ps) = some (p ∷ ps)

        -- The size of `pkgsbuf`.
        abbrev pkgsbuf_size : ℕ
        pkgsbuf_size = 1024

        abbrev from_provdir : Option (List ℕ) → List ℕ
        from_provdir none = []
        from_provdir (some ps) = take pkgsbuf_size ps

        abbrev by_file : List ℕ → Bytes → Option (List ℕ)
        by_file [] reqname = matched (from_provdir (search_provdir reqname))
        by_file (p ∷ ps) reqname = some (p ∷ ps)

        abbrev suspects : Option (List ℕ) → Capreq → Option (List ℕ)
        suspects (some ps) req = some ps
        suspects none req =
            if capreq_is_file req
            then by_file (file_index_lookup req.name pkgsbuf_size) req.name
            else none

        -- All the packages are named rpm.
        all_rpm : List ℕ → Bool
        all_rpm [] = true
        all_rpm (p ∷ ps) = str_eq (pkg_at p).name (codes "rpm") && all_rpm ps

        abbrev rpmlib_checked : Bool → Option (List ℕ) → Option (List ℕ)
        rpmlib_checked false found = found
        rpmlib_checked true none = none
        rpmlib_checked true (some ps) = if all_rpm ps then some [] else none

        abbrev or_pm : Option (List ℕ) → Capreq → Option (List ℕ)
        or_pm (some ps) req = some ps
        or_pm none req = if pm_satisfies req then some [] else none

        unfoldable pub psreq_lookup : Capreq → Option (List ℕ)
        unfolding matched all_rpm
        psreq_lookup req =
            or_pm
              (rpmlib_checked req.flags.rpmlib (suspects (capreq_idx_lookup req.name cap_idx) req))
              req

        -- What `pkgset_find_match_packages` does with the packages that it finds.
        abbrev pub found_among :
            Option ℕ → Capreq → Option (List ℕ) → Bool → Option (List ℕ) → Found
        found_among pkg req packages strict none = record { found = false; packages = packages }
        found_among pkg req packages strict (some []) = record { found = true; packages = packages }
        found_among pkg req packages strict (some (p ∷ ps)) =
            let r = psreq_match_pkgs pkg req strict (p ∷ ps) in
            if r.nmatch == 0
            then record { found = false; packages = packages }
            else record { found = true; packages = pushed packages r.matches }

        unfoldable pub pkgset_find_match_packages :
            Option ℕ → Capreq → Option (List ℕ) → Bool → Found
        unfolding psreq_lookup
        pkgset_find_match_packages pkg req packages strict =
            found_among pkg req packages strict (psreq_lookup req)
