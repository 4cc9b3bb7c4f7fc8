-- ===== src/Pkg/Cmp.antt =====
-- pkgcmp.c. `rpmvercmp` and `poldek_conf_MULTILIB` are parameters of a section, and so are the tables
-- of registered names. A comparison returns the sign of its `int`; `uint32_t` members are subtracted
-- with wrap-around, as the source does. The log messages of the `uniq` comparisons are left out.
pub mod Laws
pub mod Deep
use Prim.Native.Nat.{bit_and}
use poldek.Base.{
  ℕ, zero, suc, ◌+◌, Bool, true, false, not, ◌&&◌, ◌||◌, Option, none, some, List, [], ◌∷◌, take,
  length, ltb, ◌==◌, if◌then◌else◌,
}
use poldek.Base.Int.{
  ℤ, pos, negsuc, is_zero, is_positive, neg, sub_ℕ, first_nonzero, diff_u32, diff_i32,
}
use poldek.Base.Bytes.{Bytes, codes, strcmp, str_eq, index_of}
use poldek.Capreq.{Capreq, capreq_epoch, capreq_ver, capreq_rel}
use poldek.Pkg.{Pkg, Pkgdir}
use poldek.Pkg.Registry.{Registry, name_at, score_at}

unfoldable pub pkg_cmp_name : Pkg → Pkg → ℤ
pkg_cmp_name p1 p2 = strcmp p1.name p2.name

-- `strncmp(p1->name, p2->name, strlen(p2->name))`
pub pkg_ncmp_name : Pkg → Pkg → ℤ
unfolding strcmp
pkg_ncmp_name p1 p2 = strcmp (take (length p2.name) p1.name) p2.name

pub pkg_cmp_id : Pkg → Pkg → ℤ
pkg_cmp_id p1 p2 = strcmp p1.nvr p2.nvr

pub pkg_nvr_strcmp : Pkg → Pkg → ℤ
pkg_nvr_strcmp p1 p2 = strcmp p1.nvr p2.nvr

pub pkg_cmp_recno : Pkg → Pkg → ℤ
pkg_cmp_recno p1 p2 = diff_u32 p1.recno p2.recno

pub pkg_cmp_seqno : Pkg → Pkg → ℤ
pkg_cmp_seqno p1 p2 = diff_u32 p1.seqno p2.seqno

-- The part of a name before its first dash, and the comparison of these parts.
abbrev prefix_length : Bytes → ℕ
prefix_length s = elim (index_of b'-' s) [ none ↦ length s | some n ↦ n ]

pub pkg_eq_name_prefix : Pkg → Pkg → Bool
unfolding index_of strcmp
pkg_eq_name_prefix pkg1 pkg2 =
    let n = prefix_length pkg1.name in
    if not (n == prefix_length pkg2.name)
    then false
    else str_eq (take n pkg1.name) (take n pkg2.name)

unfoldable pub pkg_eq_capreq : Pkg → Capreq → Bool
unfolding strcmp
pkg_eq_capreq pkg cr =
    str_eq pkg.name cr.name
    && (str_eq pkg.ver (capreq_ver cr)
        && (str_eq pkg.rel (capreq_rel cr)
            && (is_zero (diff_i32 pkg.epoch (capreq_epoch cr)) && cr.relflags.eq)))

-- `_arch` is a `uint16_t`, so the difference of two fits; `registry` has the scores.
unfoldable pub pkg_cmp_arch : Registry → Pkg → Pkg → ℤ
pkg_cmp_arch registry p1 p2 =
    let diff = sub_ℕ p1.arch p2.arch in
    if is_zero diff
    then pos 0
    else if not (p1.arch == 0) && not (p2.arch == 0)
    then sub_ℕ (score_at registry p2.arch) (score_at registry p1.arch)
    else diff

abbrev pkg_cmp_same_arch : Registry → Pkg → Pkg → Bool
pkg_cmp_same_arch registry p1 p2 = is_zero (pkg_cmp_arch registry p1 p2)

-- `none` is `strcmp` on the NULL that `pkg_arch` returns for a package without architecture.
pkg_is_noarch : Registry → Pkg → Option Bool
unfolding strcmp
pkg_is_noarch registry pkg = elim (name_at registry pkg.arch) [
  | none ↦ none
  | some arch ↦ some (str_eq arch (codes "noarch"))
]

-- `a || b`, where `b` is computed only if `a` does not hold.
abbrev or_else : Option Bool → Option Bool → Option Bool
or_else none b = none
or_else (some true) b = some true
or_else (some false) b = b

unfoldable pub pkg_is_arch_compat : Registry → Pkg → Pkg → Option Bool
unfolding pkg_is_noarch pkg_cmp_arch
pkg_is_arch_compat registry candidate pkg =
    or_else (some (pkg_cmp_same_arch registry candidate pkg))
      (or_else (pkg_is_noarch registry candidate) (pkg_is_noarch registry pkg))

module _ (multilib : Bool) where
  unfoldable pub pkg_is_colored_like : Pkg → Pkg → Bool
  pkg_is_colored_like candidate pkg =
      if not multilib
      then true
      else if not (pkg.color == 0) && not (candidate.color == 0)
      then ltb 0 (bit_and pkg.color candidate.color)
      else true

  unfoldable pub pkg_is_kind_of : Pkg → Pkg → Bool
  unfolding pkg_is_colored_like strcmp
  pkg_is_kind_of candidate pkg =
      str_eq pkg.name candidate.name && (not multilib || pkg_is_colored_like candidate pkg)

module _ (vercmp : Bytes → Bytes → ℤ) where
  unfoldable pub pkg_cmp_ver : Pkg → Pkg → ℤ
  pkg_cmp_ver p1 p2 = first_nonzero (diff_i32 p1.epoch p2.epoch) (vercmp p1.ver p2.ver)

  unfoldable pub pkg_cmp_evr : Pkg → Pkg → ℤ
  pkg_cmp_evr p1 p2 =
      first_nonzero (diff_i32 p1.epoch p2.epoch)
        (first_nonzero (vercmp p1.ver p2.ver) (vercmp p1.rel p2.rel))

  unfoldable pub pkg_cmp_name_evr : Pkg → Pkg → ℤ
  unfolding pkg_cmp_name pkg_cmp_evr
  pkg_cmp_name_evr p1 p2 = first_nonzero (pkg_cmp_name p1 p2) (pkg_cmp_evr p1 p2)

  -- `same` is the comparison of the two pointers.
  unfoldable pub pkg_eq_name_evr : Bool → Pkg → Pkg → ℤ
  unfolding pkg_cmp_name_evr
  pkg_eq_name_evr same p1 p2 = if same then pos 1 else pkg_cmp_name_evr p1 p2

  module _ (registry : Registry) (multilib : Bool) where
    unfoldable pub pkg_cmp_name_evr_rev : Pkg → Pkg → ℤ
    unfolding pkg_cmp_name pkg_cmp_evr
    pkg_cmp_name_evr_rev p1 p2 = first_nonzero (pkg_cmp_name p1 p2) (
        first_nonzero (neg (pkg_cmp_evr p1 p2))
          (if multilib then neg (pkg_cmp_arch registry p1 p2) else pos 0))

    pub pkg_cmp_pri_name_evr_rev : Pkg → Pkg → ℤ
    pkg_cmp_pri_name_evr_rev p1 p2 =
        first_nonzero (diff_i32 p1.pri p2.pri) (pkg_cmp_name_evr_rev p1 p2)

    pub pkg_cmp_uniq_name_evr : Pkg → Pkg → ℤ
    pkg_cmp_uniq_name_evr p1 p2 =
        first_nonzero (pkg_cmp_name_evr_rev p1 p2)
          (if multilib then sub_ℕ p1.arch p2.arch else pos 0)

    -- The member `pri` of the two directories, if they are not one; `none` reads through NULL.
    abbrev cmp_pkgdir : Option Pkgdir → Option Pkgdir → Option ℤ
    cmp_pkgdir none none = some (pos 0)
    cmp_pkgdir (some d1) (some d2) = some (if d1.id == d2.id then pos 0 else diff_i32 d1.pri d2.pri)
    cmp_pkgdir none (some d2) = none
    cmp_pkgdir (some d1) none = none

    pub pkg_cmp_name_evr_arch_rev_srcpri : Pkg → Pkg → Option ℤ
    pkg_cmp_name_evr_arch_rev_srcpri p1 p2 =
        let rc = first_nonzero (pkg_cmp_name_evr_rev p1 p2) (neg (pkg_cmp_arch registry p1 p2)) in
        if is_zero rc then cmp_pkgdir p1.pkgdir p2.pkgdir else some rc
