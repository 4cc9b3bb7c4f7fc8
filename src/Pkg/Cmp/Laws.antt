-- ===== src/Pkg/Cmp/Laws.antt =====
-- The orders of pkgcmp.c by name, version and architecture are fit for sorting and searching.
use poldek.Base.{
  ℕ, ◌≤◌, ◌<◌, ◌≡◌, ap, ◌⊎◌, inl, inr, Bool, true, false, not, ◌&&◌, arith, ◌==◌, if◌then◌else◌,
}
use poldek.Base.Int.{ℤ, pos, pos_part, is_zero, sub_ℕ, diff_i32, diff_i32_epoch, IsEpoch, IsNonPos}
use poldek.Base.Bytes.{Bytes, strcmp-IsPreorder}
use poldek.Base.Preorder.{
  IsPreorder, neg-IsPreorder, first_nonzero-IsPreorder, sub_ℕ-IsPreorder, key-IsPreorder,
  agree-IsPreorder,
}
use poldek.Capreq.Compare.{IsVercmp}
use poldek.Pkg.{Pkg}
use poldek.Pkg.Registry.{Registry, score_at}
use poldek.Pkg.Cmp.{pkg_cmp_name, pkg_cmp_arch, pkg_cmp_evr, pkg_cmp_name_evr_rev}

-- The epoch is not negative, so that differences of epochs fit into an `int`.
abbrev pub HasEpoch : Pkg → Type 0
HasEpoch p = IsEpoch p.epoch

pub epoch-IsPreorder : IsPreorder HasEpoch (λ a b. diff_i32 a.epoch b.epoch)
epoch-IsPreorder =
    agree-IsPreorder (λ a b pa pb. diff_i32_epoch a.epoch b.epoch pa pb)
      (sub_ℕ-IsPreorder (λ a. pos_part a.epoch))

pub name-IsPreorder : IsPreorder HasEpoch pkg_cmp_name
unfolding pkg_cmp_name
name-IsPreorder = key-IsPreorder (λ (p : Pkg). p.name) (λ p h. tt) strcmp-IsPreorder

-- `pkg_cmp_arch` on the indices and the scores.
abbrev by_arch : ℕ → ℕ → ℕ → ℕ → ℤ
by_arch a sa b sb =
    let diff = sub_ℕ a b in
    if is_zero diff then pos 0 else if not (a == 0) && not (b == 0) then sub_ℕ sb sa else diff

abbrev Below : ℕ → ℕ → ℕ → ℕ → Type 0
Below a sa b sb = (a ≡ b) ⊎ ((a ≡ 0) ⊎ ((0 < b) × (sb ≤ sa)))

by_arch-Below : (a sa b sb : ℕ) → IsNonPos (by_arch a sa b sb) → Below a sa b sb
by_arch-Below a sa b sb h = ground arith

Below-by_arch : (a sa b sb : ℕ) → Below a sa b sb → IsNonPos (by_arch a sa b sb)
Below-by_arch a sa b sb (inl e) = ground arith
Below-by_arch a sa b sb (inr (inl e)) = ground arith
Below-by_arch a sa b sb (inr (inr e)) = ground arith

-- One index has one score.
Below-trans :
    (a sa b sb c sc : ℕ)
    → (a ≡ b → sa ≡ sb)
    → (b ≡ c → sb ≡ sc)
    → Below a sa b sb
    → Below b sb c sc
    → Below a sa c sc
Below-trans a sa b sb c sc eab ebc p q = ground arith

-- The architectures: none is below all, and the others go by their scores, the lower the better.
pub pkg_cmp_arch-IsPreorder : (registry : Registry) → IsPreorder HasEpoch (pkg_cmp_arch registry)
unfolding pkg_cmp_arch
pkg_cmp_arch-IsPreorder registry = record {
  flips = λ a b pa pb q. ground arith;
  flips_back = λ a b pa pb q. ground arith;
  transitive = λ a b c pa pb pc q r.
      Below-by_arch a.arch (score_at registry a.arch) c.arch (score_at registry c.arch) (
        Below-trans a.arch (score_at registry a.arch) b.arch (score_at registry b.arch) c.arch
          (score_at registry c.arch) (λ e. ap (score_at registry) e) (λ e. ap (score_at registry) e)
          (by_arch-Below a.arch _ b.arch _ q) (by_arch-Below b.arch _ c.arch _ r));
}

module _ (vercmp : Bytes → Bytes → ℤ) (h : IsVercmp vercmp) where
  -- The order by epoch, version and release.
  pub pkg_cmp_evr-IsPreorder : IsPreorder HasEpoch (pkg_cmp_evr vercmp)
  unfolding pkg_cmp_evr
  pkg_cmp_evr-IsPreorder = first_nonzero-IsPreorder epoch-IsPreorder (
      first_nonzero-IsPreorder (key-IsPreorder (λ (p : Pkg). p.ver) (λ p k. tt) h)
        (key-IsPreorder (λ (p : Pkg). p.rel) (λ p k. tt) h))

  equal-IsPreorder : IsPreorder HasEpoch (λ a b. pos 0)
  equal-IsPreorder = sub_ℕ-IsPreorder (λ a. 0)

-- `pkg_cmp_name_evr_rev`, by which arrays of packages are sorted and searched, flips its sign with
-- its arguments and is transitive on packages whose epochs are not negative, with and without
-- multilib, if `rpmvercmp` is an order of version strings.
pub pkg_cmp_name_evr_rev-IsPreorder :
    (vercmp : Bytes → Bytes → ℤ) (registry : Registry) (multilib : Bool)
    → IsVercmp vercmp
    → IsPreorder HasEpoch (pkg_cmp_name_evr_rev vercmp registry multilib)
unfolding pkg_cmp_name_evr_rev
pkg_cmp_name_evr_rev-IsPreorder vercmp registry false h = first_nonzero-IsPreorder name-IsPreorder (
    first_nonzero-IsPreorder (neg-IsPreorder (pkg_cmp_evr-IsPreorder vercmp h))
      (equal-IsPreorder vercmp h))
pkg_cmp_name_evr_rev-IsPreorder vercmp registry true h = first_nonzero-IsPreorder name-IsPreorder (
    first_nonzero-IsPreorder (neg-IsPreorder (pkg_cmp_evr-IsPreorder vercmp h))
      (neg-IsPreorder (pkg_cmp_arch-IsPreorder registry)))
