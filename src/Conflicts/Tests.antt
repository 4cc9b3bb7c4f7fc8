-- ===== src/Conflicts/Tests.antt =====
-- Instances of the theorems about conflicts, on three versions of one package.
use poldek.Base.{ℕ, ◌≡◌, refl, Bool, true, false, some, List, [], ◌∷◌, ◌==◌, arith}
use poldek.Base.Int.{pos, diff_i32}
use poldek.Base.Bytes.{codes, strcmp}
use poldek.Capreq.{Capreq, no_flags, no_rel}
use poldek.Pkg.{Pkg, plain_pkg}
use poldek.Pkg.Cmp.{pkg_cmp_name, pkg_cmp_name_evr}
use poldek.Pkg.Registry.{empty}
use poldek.Match.Search.{linear_find}
use poldek.Arrays.Linear.{push_front, linear, push_front-IsPush, linear-IsBsearch}
use poldek.CapreqIdx.{Ent, capreq_idx_lookup, answer}
use poldek.Conflicts.{
  Cnflpkg, collect, collect_found, get_conflicted, conflicted_loop, pkgset_get_conflicted_packages,
  pkgset_get_requiredby_packages,
}
use poldek.Conflicts.Collected.{items}
use poldek.Conflicts.Whole.{
  IsCollected, conflicts_with, requires_it, listed, pkgset_get_conflicted_packages-IsCollected,
  pkgset_get_requiredby_packages-IsCollected,
}

abbrev pkg_at : ℕ → Pkg
pkg_at p = plain_pkg (codes "foo") (pos 0) (p ∷ []) (codes "1")

abbrev virtual : Capreq
virtual = record {
  flags = record no_flags { cnfl = true; prereq = true };
  relflags = no_rel;
  name = codes "v";
  ep_ofs = 0;
  ver_ofs = 0;
  rel_ofs = 0;
  buff = 0 ∷ [];
}

abbrev idx : List Ent
idx = record { capname = codes "v"; pkgs = 1 ∷ 2 ∷ 3 ∷ [] } ∷ []

abbrev same : ℕ → ℕ → Bool
same p q = p == q

same_refl : (p : ℕ) → same p p ≡ true
same_refl p = ground arith

abbrev of_pkg : Cnflpkg → ℕ → Bool
of_pkg c p = same c.pkg p

abbrev conflicts : List Cnflpkg
conflicts = items (
    pkgset_get_conflicted_packages pkg_at strcmp false linear_find empty idx push_front
      (linear of_pkg) 2 (some (virtual ∷ [])))

pkgset_get_conflicted_packages-IsCollected_example :
    IsCollected
      (λ c. c.pkg)
      same
      (conflicts_with pkg_at strcmp false linear_find empty same same_refl idx 2)
      (listed pkg_at strcmp false linear_find empty same same_refl idx 2)
      (virtual ∷ [])
      conflicts
pkgset_get_conflicted_packages-IsCollected_example =
    pkgset_get_conflicted_packages-IsCollected pkg_at strcmp false linear_find empty same same_refl
      idx 2 push_front (linear of_pkg) push_front-IsPush (linear-IsBsearch of_pkg) (virtual ∷ [])

pkgset_get_requiredby_packages-IsCollected_example :
    IsCollected
      (λ p. p)
      same
      (requires_it pkg_at strcmp false linear_find empty same same_refl idx 2)
      (listed pkg_at strcmp false linear_find empty same same_refl idx 2)
      (virtual ∷ [])
      (items (
        pkgset_get_requiredby_packages pkg_at strcmp false linear_find empty idx push_front
          (linear same)
          2
          (virtual ∷ [])))
pkgset_get_requiredby_packages-IsCollected_example =
    pkgset_get_requiredby_packages-IsCollected pkg_at strcmp false linear_find empty same same_refl
      idx 2 push_front (linear same) push_front-IsPush (linear-IsBsearch same) (virtual ∷ [])

-- The package itself is left out; the others are marked as obsoleted.
others_conflict :
    conflicts ≡ record { pkg = 3; obsolete = true } ∷ record { pkg = 1; obsolete = true } ∷ []
unfolding pkgset_get_conflicted_packages conflicted_loop get_conflicted collect_found collect
    capreq_idx_lookup answer strcmp pkg_cmp_name pkg_cmp_name_evr diff_i32
others_conflict = refl
