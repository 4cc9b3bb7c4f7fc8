-- ===== src/Pkg/Tests.antt =====
-- Instances of the theorems about packages.
use poldek.Base.{ℕ, ◌^◌, ◌≡◌, refl, true, false, arith}
use poldek.Base.Int.{pos, negsuc, diff_i32, is_negative, IsNonNeg, IsNonPos}
use poldek.Base.Bytes.{Bytes, codes, strcmp, strcmp-IsPreorder}
use poldek.Pkg.{Pkg, plain_pkg}
use poldek.Pkg.Registry.{empty, register_arch}
use poldek.Pkg.Registry.Laws.{IsRegistry, Registers, register_arch-Registers}
use poldek.Pkg.Cmp.{pkg_cmp_name_evr_rev}
use poldek.Pkg.Cmp.Laws.{pkg_cmp_name_evr_rev-IsPreorder}
use poldek.Pkg.Cmp.Deep.{pkg_deepcmp_, pkg_deepcmp_name_evr_rev}
use poldek.Pkg.Cmp.Deep.Laws.{IsMeasured, pkg_deepcmp_name_evr_rev-IsPreorder, pkg_deepcmp_-wraps}

abbrev no_score : Bytes → ℕ
no_score a = 0

abbrev i686 : Bytes
i686 = codes "i686"

empty-IsRegistry : IsRegistry empty
empty-IsRegistry = record { placed = λ i e h. ground arith; cached_placed = λ e h. ground arith }

register_arch-Registers_example : Registers empty i686 (register_arch no_score empty i686)
register_arch-Registers_example = register_arch-Registers no_score empty i686 empty-IsRegistry

abbrev foo_1 : Pkg
foo_1 = plain_pkg (codes "foo") (pos 0) (codes "1") (codes "1")

abbrev foo_2 : Pkg
foo_2 = plain_pkg (codes "foo") (pos 0) (codes "2") (codes "1")

newer_value : pkg_cmp_name_evr_rev strcmp empty false foo_2 foo_1 ≡ negsuc 0
unfolding pkg_cmp_name_evr_rev strcmp diff_i32
newer_value = refl

newer_first : IsNonPos (pkg_cmp_name_evr_rev strcmp empty false foo_2 foo_1)
newer_first = rw newer_value (ground arith)

pkg_cmp_name_evr_rev-IsPreorder_example :
    IsNonNeg (pkg_cmp_name_evr_rev strcmp empty false foo_1 foo_2)
pkg_cmp_name_evr_rev-IsPreorder_example =
    (pkg_cmp_name_evr_rev-IsPreorder strcmp empty false strcmp-IsPreorder).flips foo_2 foo_1
      (ground arith) (ground arith) newer_first

plain-IsMeasured : (ver : Bytes) → IsMeasured (plain_pkg (codes "foo") (pos 0) ver (codes "1"))
plain-IsMeasured ver = record {
  epoch = ground arith;
  color = ground arith;
  btime = ground arith;
  size = ground arith;
  fsize = ground arith;
}

deep_value : pkg_deepcmp_name_evr_rev empty empty strcmp false foo_2 foo_1 ≡ negsuc 0
unfolding pkg_deepcmp_name_evr_rev pkg_cmp_name_evr_rev strcmp diff_i32
deep_value = refl

deep_newer_first : IsNonPos (pkg_deepcmp_name_evr_rev empty empty strcmp false foo_2 foo_1)
deep_newer_first = rw deep_value (ground arith)

pkg_deepcmp_name_evr_rev-IsPreorder_example :
    IsNonNeg (pkg_deepcmp_name_evr_rev empty empty strcmp false foo_1 foo_2)
pkg_deepcmp_name_evr_rev-IsPreorder_example =
    (pkg_deepcmp_name_evr_rev-IsPreorder empty empty strcmp false strcmp-IsPreorder).flips foo_2
      foo_1 (plain-IsMeasured (codes "2")) (plain-IsMeasured (codes "1")) deep_newer_first

pkg_deepcmp_-wraps_example :
    (is_negative (pkg_deepcmp_ empty empty foo_1 (record foo_1 { btime = 2 ^ 31 })) ≡ true)
    × (is_negative (pkg_deepcmp_ empty empty (record foo_1 { btime = 2 ^ 31 }) foo_1) ≡ true)
pkg_deepcmp_-wraps_example = pkg_deepcmp_-wraps empty empty foo_1 (ground arith)
