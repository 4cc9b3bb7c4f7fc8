-- ===== src/Require/Sorted.antt =====
-- The order in which `isort_pkgs` leaves the packages: by name, and of one name the newer first.
use poldek.Base.{ℕ, ◌≡◌, Bool, true, false, List, arith}
use poldek.Base.Int.{ℤ, is_negative, IsNonPos, IsNonNeg}
use poldek.Base.Bytes.{Bytes}
use poldek.Pkg.{Pkg}
use poldek.Pkg.Registry.{Registry}
use poldek.Capreq.Compare.{IsVercmp}
use poldek.Pkg.Cmp.Laws.{HasEpoch, pkg_cmp_name_evr_rev-IsPreorder}
use poldek.Order.Advance.{count}
use poldek.Isort.{IsOrdered, IsOrdered-isort, count-isort}
use poldek.Require.{isort_pkgs, cmp_at}

IsNonPos-of_negative : (z : ℤ) → is_negative z ≡ true → IsNonPos z
IsNonPos-of_negative z h = ground arith

IsNonNeg-of_not : (z : ℤ) → is_negative z ≡ false → IsNonNeg z
IsNonNeg-of_not z h = ground arith

pub count-isort_pkgs :
    (cmp : ℕ → ℕ → ℤ) (q : ℕ) (ps : List ℕ) → count q (isort_pkgs cmp ps) ≡ count q ps
unfolding isort_pkgs
count-isort_pkgs cmp q ps = count-isort (λ a b. is_negative (cmp a b)) q ps

module _ (pkg_at : ℕ → Pkg) (vercmp : Bytes → Bytes → ℤ) (registry : Registry)
    (multilib : Bool) where
  -- `p` does not come behind `q`.
  abbrev pub IsBefore : ℕ → ℕ → Type 0
  IsBefore p q = IsNonPos (cmp_at pkg_at vercmp registry multilib p q)

  pub IsOrdered-isort_pkgs :
      IsVercmp vercmp
      → ((p : ℕ) → HasEpoch (pkg_at p))
      → (ps : List ℕ) → IsOrdered IsBefore (isort_pkgs (cmp_at pkg_at vercmp registry multilib) ps)
  unfolding isort_pkgs
  IsOrdered-isort_pkgs h epochs ps =
      let order = pkg_cmp_name_evr_rev-IsPreorder vercmp registry multilib h in
      let cmp = cmp_at pkg_at vercmp registry multilib in
      IsOrdered-isort (λ a b. is_negative (cmp a b)) IsBefore
        (λ a b e. IsNonPos-of_negative (cmp a b) e)
        (λ a b e.
          order.flips_back (pkg_at a) (pkg_at b) (epochs a) (epochs b)
            (IsNonNeg-of_not (cmp a b) e))
        (λ a b c i j.
          order.transitive (pkg_at a) (pkg_at b) (pkg_at c) (epochs a) (epochs b) (epochs c) i j)
        ps
