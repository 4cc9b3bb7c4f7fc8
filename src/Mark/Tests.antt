-- ===== src/Mark/Tests.antt =====
-- Instances of the theorems about marks, on three packages of which 1 needs 2 or 3.
use poldek.Base.{
  ℕ, ◌==◌, ◌≡◌, refl, if◌then◌else◌, inl, inr, Bool, true, false, none, some, List, [], ◌∷◌, arith,
}
use poldek.Base.Int.{pos}
use poldek.Base.Bytes.{Bytes, codes, strcmp}
use poldek.Pkg.{Pkg, plain_pkg}
use poldek.Order.{Reqpkg, edges}
use poldek.Order.Colors.{IsAmong}
use poldek.Mark.{PkgmarkSet, get, pkgmark_set_new, pkgmark_mark, pkgmark_dep}
use poldek.Mark.Refine.{MarkOp, set_op, massset_op, view, run, replay, run-refines}
use poldek.Mark.Visit.{pkgs_of, depmark_packages}
use poldek.Mark.Visit.Marked.{IsIdentified}
use poldek.Mark.Visit.Closure.Packages.{IsPool}
use poldek.Mark.Closed.{MarksAll, IsClosedSet, IsNeeded, packages_mark-IsClosedSet}

abbrev pkg_at : ℕ → Pkg
pkg_at p = plain_pkg (codes "foo") (pos 0) (codes "1") (codes "1")

abbrev printed : ℕ → Bytes
printed p = p ∷ []

abbrev need_either : List Reqpkg
need_either =
    record {
      rp = record { pkg = 2; prereq = false; prereq_un = false };
      multi = true;
      adds = record { pkg = 3; prereq = false; prereq_un = false } ∷ [];
    }
    ∷ []

abbrev required : ℕ → List Reqpkg
required p = if p == 1 then need_either else []

abbrev pool : List ℕ
pool = 1 ∷ 2 ∷ 3 ∷ []

identified : IsIdentified pkg_at printed false
unfolding strcmp
identified p q = ground arith

inside :
    (x : ℕ) (b : Bool)
    → IsAmong x (pkgs_of (edges (if b then need_either else [])))
    → IsAmong x pool
unfolding edges
inside x true (inl two) = inr (inl two)
inside x true (inr (inl three)) = inr (inr (inl three))
inside x true (inr (inr never)) = absurd never
inside x false never = absurd never

pooled : IsPool pkg_at printed required pool false identified
unfolding edges
pooled p x h = inside x (p == 1) h

abbrev calls : List MarkOp
calls = set_op 1 true pkgmark_mark ∷ set_op 2 true pkgmark_dep ∷ massset_op false pkgmark_mark ∷ []

run-refines_example :
    view (run pkg_at printed calls (pkgmark_set_new false)).ht (1 ∷ [])
    ≡ replay pkg_at printed false calls (λ id. none) (1 ∷ [])
unfolding get
run-refines_example = run-refines pkg_at printed calls (pkgmark_set_new false) (1 ∷ [])

packages_mark-IsClosedSet_example :
    (t : PkgmarkSet) × (depmark_packages pkg_at printed required 4 true
        (1 ∷ [])
        (pkgmark_set_new false)
      ≡ some t)
    × (MarksAll pkg_at printed required false identified (1 ∷ []) t
        × (IsClosedSet pkg_at printed required false identified t
            × IsNeeded pkg_at printed required false identified (1 ∷ []) t))
packages_mark-IsClosedSet_example =
    packages_mark-IsClosedSet pkg_at printed required false pool (1 ∷ []) identified pooled
      (inl refl, tt)
