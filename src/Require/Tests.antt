-- ===== src/Require/Tests.antt =====
-- Instances of the theorems about the search for the packages of a requirement.
use poldek.Base.{ℕ, ◌≡◌, refl, true, false, not, ltb, if◌then◌else◌, none, some, [], ◌∷◌, arith}
use poldek.Base.Int.{pos, diff_i32}
use poldek.Base.Bytes.{codes, strcmp, strcmp-IsPreorder}
use poldek.Capreq.{Capreq, no_flags, no_rel}
use poldek.Pkg.{Pkg, plain_pkg}
use poldek.Pkg.Registry.{empty}
use poldek.Pkg.Cmp.{pkg_cmp_name_evr_rev}
use poldek.Match.Search.{linear_find}
use poldek.Order.Advance.{count}
use poldek.Isort.{isort, IsOrdered}
use poldek.CapreqIdx.{capreq_idx_lookup, answer}
use poldek.Require.{
  psreq_match_pkgs, psreq_lookup, pkgset_find_match_packages, isort_pkgs, isort_many,
}
use poldek.Require.Sorted.{IsBefore}
use poldek.Require.Providers.{providers, is_self, is_nil, psreq_match_pkgs-providers}

abbrev pkg_at : ℕ → Pkg
pkg_at p = plain_pkg (codes "foo") (pos 0) (p ∷ []) (codes "1")

abbrev virtual : Capreq
virtual = record {
  flags = no_flags;
  relflags = no_rel;
  name = codes "virtual";
  ep_ofs = 0;
  ver_ofs = 0;
  rel_ofs = 0;
  buff = 0 ∷ [];
}

psreq_match_pkgs-providers_example :
    (ltb 0
        (psreq_match_pkgs pkg_at strcmp false linear_find empty false
          (some 9)
          virtual
          true
          (1 ∷ 3 ∷ 2 ∷ [])).nmatch
      ≡ not (is_nil (providers pkg_at strcmp false linear_find virtual true (1 ∷ 3 ∷ 2 ∷ []))))
    × (((q : ℕ)
          → count q
              (psreq_match_pkgs pkg_at strcmp false linear_find empty false
                (some 9)
                virtual
                true
                (1 ∷ 3 ∷ 2 ∷ [])).matches
            ≡ (if is_self
                  (some 9)
                  (providers pkg_at strcmp false linear_find virtual true (1 ∷ 3 ∷ 2 ∷ []))
                then 0
                else count q
                    (providers pkg_at strcmp false linear_find virtual true (1 ∷ 3 ∷ 2 ∷ []))))
        × IsOrdered
            (IsBefore pkg_at strcmp empty false)
            (psreq_match_pkgs pkg_at strcmp false linear_find empty false
              (some 9)
              virtual
              true
              (1 ∷ 3 ∷ 2 ∷ [])).matches)
psreq_match_pkgs-providers_example =
    psreq_match_pkgs-providers pkg_at strcmp false linear_find empty false (some 9) virtual true
      (1 ∷ 3 ∷ 2 ∷ []) strcmp-IsPreorder (λ p. (omega arith, omega arith))

-- The newer version comes first.
newer_first :
    (psreq_match_pkgs pkg_at strcmp false linear_find empty false
      (some 9)
      virtual
      true
      (1 ∷ 3 ∷ 2 ∷ [])).matches
    ≡ 3 ∷ 2 ∷ 1 ∷ []
unfolding psreq_match_pkgs isort_many isort_pkgs isort pkg_cmp_name_evr_rev strcmp diff_i32
newer_first = refl

-- Package 3 has the capability itself.
self_match :
    (pkgset_find_match_packages pkg_at strcmp false linear_find empty false
      (record { capname = codes "virtual"; pkgs = 1 ∷ 3 ∷ [] } ∷ [])
      (λ name n. [])
      (λ dir. none)
      (λ req. false)
      (some 3)
      virtual
      none
      true)
    ≡ record { found = true; packages = none }
unfolding pkgset_find_match_packages psreq_lookup capreq_idx_lookup answer psreq_match_pkgs
    isort_many strcmp
self_match = refl
