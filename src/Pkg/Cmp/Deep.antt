-- ===== src/Pkg/Cmp/Deep.antt =====
-- The comparisons of pkgcmp.c that look at most of a package: `pkg_deepcmp_` and those built on it.
pub mod Laws
use poldek.Base.{
  ℕ, zero, suc, ◌+◌, ◌≤◌, ◌<◌, ◌^◌, ◌≡◌, refl, Bool, true, false, not, ◌&&◌, Option, none, some,
  List, [], arith, ◌==◌, if◌then◌else◌,
}
use poldek.Base.Int.{
  ℤ, pos, negsuc, is_zero, is_negative, neg, sub_ℕ, first_nonzero, diff_u32, diff_u32_small,
  diff_i32, IsSmall, IsEpoch,
}
use poldek.Base.Bytes.{Bytes, strcmp, strcmp-IsPreorder, IsAny}
use poldek.Base.Preorder.{
  IsPreorder, neg-IsPreorder, first_nonzero-IsPreorder, sub_ℕ-IsPreorder, key-IsPreorder,
  agree-IsPreorder,
}
use poldek.Capreq.Compare.{IsVercmp}
use poldek.Pkg.{Pkg}
use poldek.Pkg.Registry.{Registry, name_at}
use poldek.Pkg.Cmp.{pkg_cmp_name, pkg_cmp_arch, pkg_cmp_evr, pkg_cmp_name_evr_rev}

-- `p1->fn && p2->fn == NULL` and the converse, then the texts, "" for NULL; `present` is the
-- value for a text against NULL.
cmp_text? : ℕ → Option Bytes → Option Bytes → ℤ
unfolding strcmp
cmp_text? present none none = strcmp [] []
cmp_text? present (some s) none = pos present
cmp_text? present none (some t) = neg (pos present)
cmp_text? present (some s) (some t) = strcmp s t

-- The name of an operating system; NULL exactly for the index 0.
abbrev os_name : Registry → ℕ → Option Bytes
os_name systems zero = none
os_name systems (suc i) = elim (name_at systems (suc i)) [ none ↦ some [] | some s ↦ some s ]

module _ (registry systems : Registry) where
  unfoldable pub pkg_deepcmp_ : Pkg → Pkg → ℤ
  unfolding cmp_text?
  pkg_deepcmp_ p1 p2 = first_nonzero (pkg_cmp_arch registry p1 p2) (
      first_nonzero (diff_u32 p1.color p2.color) (
        first_nonzero (diff_u32 p1.btime p2.btime) (
          first_nonzero (diff_u32 p1.size p2.size) (
            first_nonzero (diff_u32 p1.fsize p2.fsize) (
              first_nonzero (cmp_text? 11 (os_name systems p1.os) (os_name systems p2.os))
                (cmp_text? 12 p1.fn p2.fn))))))

  -- `none` is `strcmp` on the NULL name of a missing architecture.
  pub pkg_strcmp_name_evr_rev : Pkg → Pkg → Option ℤ
  unfolding strcmp
  pkg_strcmp_name_evr_rev p1 p2 =
      let rc = first_nonzero (strcmp p1.name p2.name) (
        first_nonzero (diff_i32 p2.epoch p1.epoch)
          (first_nonzero (strcmp p2.ver p1.ver) (strcmp p2.rel p1.rel))) in
      if is_zero rc && not (p1.arch == p2.arch)
      then (elim (name_at registry p1.arch) [
        | none ↦ none
        | some a1 ↦ elim (name_at registry p2.arch) [ none ↦ none | some a2 ↦ some (strcmp a1 a2) ]
      ])
      else some rc

  pub pkg_deepstrcmp_name_evr : Pkg → Pkg → Option ℤ
  unfolding pkg_strcmp_name_evr_rev pkg_deepcmp_
  pkg_deepstrcmp_name_evr p1 p2 = elim (pkg_strcmp_name_evr_rev p1 p2) [
    | none ↦ none
    | some rc ↦ some (first_nonzero rc (pkg_deepcmp_ p1 p2))
  ]

  module _ (vercmp : Bytes → Bytes → ℤ) (multilib : Bool) where
    unfoldable pub pkg_deepcmp_name_evr_rev : Pkg → Pkg → ℤ
    pkg_deepcmp_name_evr_rev p1 p2 =
        first_nonzero (pkg_cmp_name_evr_rev vercmp registry multilib p1 p2)
          (neg (pkg_deepcmp_ p1 p2))

    -- `if (a == NULL) a = ""`
    abbrev arch_or_empty : Pkg → Bytes
    arch_or_empty p = elim (name_at registry p.arch) [ none ↦ [] | some a ↦ a ]

    pub pkg_cmp_uniq_name_evr_arch : Pkg → Pkg → ℤ
    unfolding strcmp
    pkg_cmp_uniq_name_evr_arch p1 p2 =
        first_nonzero (pkg_cmp_name_evr_rev vercmp registry multilib p1 p2)
          (strcmp (arch_or_empty p1) (arch_or_empty p2))
