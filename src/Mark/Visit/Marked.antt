-- ===== src/Mark/Visit/Marked.antt =====
-- What setting a mark does to the tests for marks, where identifiers tell packages apart.
use poldek.Base.{
  ℕ, ◌≡◌, refl, sym, ap, ◌∙◌, Bool, true, false, ◌||◌, Option, none, some, arith, ◌==◌,
  if◌then◌else◌,
}
use poldek.Base.Bytes.{Bytes, str_eq}
use poldek.Pkg.{Pkg}
use poldek.Mark.{
  MarkFlags, PkgmarkSet, no_marks, pkgmark_mark, pkgmark_dep, pkgmark_any, package_id, pkgmark_set,
  pkgmark_isset, has_any, with_flag,
}
use poldek.Mark.Refine.{view, has_any?, changed?, isset-view, view-pkgmark_set, idnevr-pkgmark_set}

has_any-with_flag : (a b g : MarkFlags) → has_any (with_flag a b) g ≡ (has_any a g || has_any b g)
has_any-with_flag a b g = ground arith

has_any-changed :
    (b : Bool) (v : Option MarkFlags) (f g : MarkFlags)
    → has_any? (if b then changed? true f v else v) g
      ≡ (if b then has_any? v g || has_any f g else has_any? v g)
has_any-changed false v f g = refl
has_any-changed true none f g = has_any-with_flag no_marks f g
has_any-changed true (some flags) f g = has_any-with_flag flags f g

module _ (pkg_at : ℕ → Pkg) (printed : ℕ → Bytes) where
  -- Different packages have different identifiers.
  abbrev pub IsIdentified : Bool → Type 0
  IsIdentified idnevr =
      (p q : ℕ)
      → str_eq (package_id pkg_at printed idnevr p) (package_id pkg_at printed idnevr q) ≡ (q == p)

  pub isset-pkgmark_set :
      (pms : PkgmarkSet) (p q : ℕ) (f g : MarkFlags)
      → IsIdentified pms.idnevr
      → pkgmark_isset pkg_at printed (pkgmark_set pkg_at printed pms p true f) q g ≡ (
          if q == p
          then pkgmark_isset pkg_at printed pms q g || has_any f g
          else pkgmark_isset pkg_at printed pms q g)
  isset-pkgmark_set pms p q f g ids =
      let after = pkgmark_set pkg_at printed pms p true f in
      let id = package_id pkg_at printed pms.idnevr q in
      isset-view pkg_at printed after q g
      ∙ ap (λ b. has_any? (view after.ht (package_id pkg_at printed b q)) g)
          (idnevr-pkgmark_set pkg_at printed pms p true f)
      ∙ ap (λ o. has_any? o g) (view-pkgmark_set pkg_at printed pms p true f id)
      ∙ ap (λ b. has_any? (if b then changed? true f (view pms.ht id) else view pms.ht id) g)
          (ids p q)
      ∙ has_any-changed (q == p) (view pms.ht id) f g
      ∙ ap (λ b. if q == p then b || has_any f g else b) (sym (isset-view pkg_at printed pms q g))

  -- The visit looks at marks only: three facts on marking a package.
  pub marked_after_dep :
      (pms : PkgmarkSet) (p q : ℕ)
      → IsIdentified pms.idnevr
      → pkgmark_isset pkg_at printed
          (pkgmark_set pkg_at printed pms p true pkgmark_dep)
          q
          pkgmark_any
        ≡ (q == p || pkgmark_isset pkg_at printed pms q pkgmark_any)
  marked_after_dep pms p q ids =
      isset-pkgmark_set pms p q pkgmark_dep pkgmark_any ids ∙ ground arith

  pub marked_after_hand :
      (pms : PkgmarkSet) (p q : ℕ)
      → IsIdentified pms.idnevr
      → pkgmark_isset pkg_at printed
          (pkgmark_set pkg_at printed pms p true pkgmark_mark)
          q
          pkgmark_any
        ≡ (q == p || pkgmark_isset pkg_at printed pms q pkgmark_any)
  marked_after_hand pms p q ids =
      isset-pkgmark_set pms p q pkgmark_mark pkgmark_any ids ∙ ground arith

  pub dep_after_hand :
      (pms : PkgmarkSet) (p q : ℕ)
      → IsIdentified pms.idnevr
      → pkgmark_isset pkg_at printed
          (pkgmark_set pkg_at printed pms p true pkgmark_mark)
          q
          pkgmark_dep
        ≡ pkgmark_isset pkg_at printed pms q pkgmark_dep
  dep_after_hand pms p q ids = isset-pkgmark_set pms p q pkgmark_mark pkgmark_dep ids ∙ ground arith

  pub dep_after_dep :
      (pms : PkgmarkSet) (p q : ℕ)
      → IsIdentified pms.idnevr
      → pkgmark_isset pkg_at printed
          (pkgmark_set pkg_at printed pms p true pkgmark_dep)
          q
          pkgmark_dep
        ≡ (q == p || pkgmark_isset pkg_at printed pms q pkgmark_dep)
  dep_after_dep pms p q ids = isset-pkgmark_set pms p q pkgmark_dep pkgmark_dep ids ∙ ground arith

  pub idnevr-dep :
      (pms : PkgmarkSet) (p : ℕ) (f : MarkFlags)
      → (pkgmark_set pkg_at printed pms p true f).idnevr ≡ pms.idnevr
  idnevr-dep pms p f = idnevr-pkgmark_set pkg_at printed pms p true f
