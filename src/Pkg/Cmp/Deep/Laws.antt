-- ===== src/Pkg/Cmp/Deep/Laws.antt =====
-- Where `pkg_deepcmp_name_evr_rev` is an order, and where the wrap-around of its subtractions breaks
-- it.
use poldek.Base.{ℕ, suc, ◌+◌, ◌<◌, ◌^◌, ◌≡◌, Bool, true, Option, none, some, [], arith}
use poldek.Base.Int.{ℤ, is_negative, diff_u32, diff_u32_small, IsSmall, IsEpoch, IsNonPos, IsNonNeg}
use poldek.Base.Bytes.{Bytes, strcmp-IsPreorder}
use poldek.Base.Preorder.{
  IsPreorder, neg-IsPreorder, first_nonzero-IsPreorder, sub_ℕ-IsPreorder, key-IsPreorder,
  agree-IsPreorder,
}
use poldek.Capreq.Compare.{IsVercmp}
use poldek.Pkg.{Pkg}
use poldek.Pkg.Registry.{Registry}
use poldek.Pkg.Cmp.{pkg_cmp_arch}
use poldek.Pkg.Cmp.Laws.{HasEpoch, pkg_cmp_arch-IsPreorder, pkg_cmp_name_evr_rev-IsPreorder}
use poldek.Pkg.Cmp.Deep.{cmp_text?, os_name, pkg_deepcmp_, pkg_deepcmp_name_evr_rev}

-- The numbers of a package whose differences fit into an `int`.
pub record IsMeasured (p : Pkg) : Type 0 where
  pub epoch : IsEpoch p.epoch
  pub color : IsSmall p.color
  pub btime : IsSmall p.btime
  pub size : IsSmall p.size
  pub fsize : IsSmall p.fsize

u32-IsPreorder :
    (key : Pkg → ℕ)
    → ((p : Pkg) → IsMeasured p → IsSmall (key p))
    → IsPreorder IsMeasured (λ a b. diff_u32 (key a) (key b))
u32-IsPreorder key small =
    agree-IsPreorder (λ a b pa pb. diff_u32_small (key a) (key b) (small a pa) (small b pb))
      (sub_ℕ-IsPreorder key)

abbrev IsText : Option Bytes → Type 0
IsText t = Unit

cmp_text?-IsPreorder : (n : ℕ) → IsPreorder IsText (cmp_text? (suc n))
unfolding cmp_text?
cmp_text?-IsPreorder n = record { flips = flips; flips_back = flips_back; transitive = transitive }
  where
    open strcmp-IsPreorder use {flips as f, flips_back as g, transitive as t}

    flips :
        (a b : Option Bytes)
        → IsText a
        → IsText b
        → IsNonPos (cmp_text? (suc n) a b)
        → IsNonNeg (cmp_text? (suc n) b a)
    flips none none _ _ q = f [] [] tt tt q
    flips (some s) none _ _ q = absurd (omega arith)
    flips none (some s) _ _ q = omega arith
    flips (some s) (some u) _ _ q = f s u tt tt q

    flips_back :
        (a b : Option Bytes)
        → IsText a
        → IsText b
        → IsNonNeg (cmp_text? (suc n) a b)
        → IsNonPos (cmp_text? (suc n) b a)
    flips_back none none _ _ q = g [] [] tt tt q
    flips_back (some s) none _ _ q = omega arith
    flips_back none (some s) _ _ q = absurd (omega arith)
    flips_back (some s) (some u) _ _ q = g s u tt tt q

    transitive :
        (a b c : Option Bytes)
        → IsText a
        → IsText b
        → IsText c
        → IsNonPos (cmp_text? (suc n) a b)
        → IsNonPos (cmp_text? (suc n) b c)
        → IsNonPos (cmp_text? (suc n) a c)
    transitive none none none _ _ _ q r = q
    transitive none none (some u) _ _ _ q r = r
    transitive none (some s) none _ _ _ q r = absurd (omega arith)
    transitive none (some s) (some u) _ _ _ q r = omega arith
    transitive (some s) none none _ _ _ q r = absurd (omega arith)
    transitive (some s) none (some u) _ _ _ q r = absurd (omega arith)
    transitive (some s) (some u) none _ _ _ q r = absurd (omega arith)
    transitive (some s) (some u) (some v) _ _ _ q r = t s u v tt tt tt q r

-- Weakening what a comparison is known to be an order on.
on_IsMeasured : (cmp : Pkg → Pkg → ℤ) → IsPreorder HasEpoch cmp → IsPreorder IsMeasured cmp
on_IsMeasured cmp h = record {
  flips = λ a b pa pb. h.flips a b pa.epoch pb.epoch;
  flips_back = λ a b pa pb. h.flips_back a b pa.epoch pb.epoch;
  transitive = λ a b c pa pb pc. h.transitive a b c pa.epoch pb.epoch pc.epoch;
}

pub pkg_deepcmp_-IsPreorder :
    (registry systems : Registry) → IsPreorder IsMeasured (pkg_deepcmp_ registry systems)
unfolding pkg_deepcmp_
pkg_deepcmp_-IsPreorder registry systems =
    first_nonzero-IsPreorder (on_IsMeasured _ (pkg_cmp_arch-IsPreorder registry)) (
      first_nonzero-IsPreorder (u32-IsPreorder (λ p. p.color) (λ p m. m.color)) (
        first_nonzero-IsPreorder (u32-IsPreorder (λ p. p.btime) (λ p m. m.btime)) (
          first_nonzero-IsPreorder (u32-IsPreorder (λ p. p.size) (λ p m. m.size)) (
            first_nonzero-IsPreorder (u32-IsPreorder (λ p. p.fsize) (λ p m. m.fsize)) (
              first_nonzero-IsPreorder
                (key-IsPreorder (λ (p : Pkg). os_name systems p.os) (λ p m. tt)
                  (cmp_text?-IsPreorder 10))
                (key-IsPreorder (λ (p : Pkg). p.fn) (λ p m. tt) (cmp_text?-IsPreorder 11)))))))

-- `pkg_deepcmp_name_evr_rev` flips its sign with its arguments and is transitive on packages whose
-- epoch is not negative and whose colour, build time and sizes are below 2^31, if `rpmvercmp` is
-- an order of version strings.
pub pkg_deepcmp_name_evr_rev-IsPreorder :
    (registry systems : Registry) (vercmp : Bytes → Bytes → ℤ) (multilib : Bool)
    → IsVercmp vercmp
    → IsPreorder IsMeasured (pkg_deepcmp_name_evr_rev registry systems vercmp multilib)
unfolding pkg_deepcmp_name_evr_rev
pkg_deepcmp_name_evr_rev-IsPreorder registry systems vercmp multilib h =
    first_nonzero-IsPreorder
      (on_IsMeasured _ (pkg_cmp_name_evr_rev-IsPreorder vercmp registry multilib h))
      (neg-IsPreorder (pkg_deepcmp_-IsPreorder registry systems))

-- Two packages that differ only in their build times, of which one is below 2^31 and the other
-- 2^31 seconds later, are each below the other.
pub pkg_deepcmp_-wraps :
    (registry systems : Registry) (p : Pkg)
    → p.btime < 2 ^ 31
    → (is_negative (pkg_deepcmp_ registry systems p (record p { btime = p.btime + 2 ^ 31 })) ≡ true)
      × (is_negative (pkg_deepcmp_ registry systems (record p { btime = p.btime + 2 ^ 31 }) p)
          ≡ true)
unfolding pkg_deepcmp_ pkg_cmp_arch diff_u32
pkg_deepcmp_-wraps registry systems p h = (ground arith, ground arith)
