-- ===== src/Capreq/Tests.antt =====
-- Instances of the theorems about `capreq`s.
use poldek.Base.{◌≡◌, refl, true, false, none, some, [], arith}
use poldek.Base.Int.{pos, negsuc, diff_i32, IsNonNeg, IsNonPos}
use poldek.Base.Bytes.{Bytes, codes, strcmp, strcmp-IsPreorder}
use poldek.Capreq.{
  Capreq, no_flags, rel_eq, bytes_of_i32, capreq_epoch, capreq_ver, capreq_rel, capreq_has_rel,
  c_str,
}
use poldek.Capreq.New.{capreq_new, capreq_fill}
use poldek.Capreq.New.Fields.{IsCStr, capreq_new-reads}
use poldek.Evr.RoundTrip.{IsVersion, print_evr}
use poldek.Capreq.Evr.{capreq_new_evr, capreq_new_evr-print}
use poldek.Capreq.Clone.{capreq_clone, returned, capreq_clone-reads}
use poldek.Capreq.Compare.{capreq_cmp_name_evr, capreq_cmp_evr}
use poldek.Capreq.Compare.Laws.{IsComparable, capreq_cmp_name_evr-IsPreorder}

abbrev foo : Bytes
foo = codes "foo"

abbrev version : Bytes
version = codes "1.0"

version-IsCStr : IsCStr version
version-IsCStr = ground arith

-- foo = 2:1.0
abbrev versioned : Capreq
versioned = capreq_fill false foo (pos 2) (some version) none rel_eq no_flags

abbrev older : Capreq
older = capreq_fill false foo (pos 1) (some version) none rel_eq no_flags

versioned_epoch : capreq_epoch versioned ≡ pos 2
unfolding capreq_epoch capreq_fill bytes_of_i32
versioned_epoch = refl

versioned_ver : capreq_ver versioned ≡ version
unfolding capreq_ver capreq_fill bytes_of_i32 c_str
versioned_ver = refl

older_epoch : capreq_epoch older ≡ pos 1
unfolding capreq_epoch capreq_fill bytes_of_i32
older_epoch = refl

capreq_new-reads_example :
    (cr : Capreq) × (capreq_new false foo (pos 2) (some version) none rel_eq no_flags ≡ some cr)
    × (capreq_epoch cr ≡ pos 2)
    × (capreq_ver cr ≡ version)
    × (capreq_rel cr ≡ [])
    × (capreq_has_rel cr ≡ false)
capreq_new-reads_example =
    capreq_new-reads false foo (pos 2) version none rel_eq no_flags refl (ground arith)
      version-IsCStr (ground arith) tt

capreq_clone-reads_example :
    (new : Capreq) × (capreq_clone 16 true versioned ≡ returned (some new))
    × (capreq_epoch new ≡ capreq_epoch versioned)
    × (capreq_ver new ≡ capreq_ver versioned)
    × (capreq_rel new ≡ capreq_rel versioned)
    × (capreq_has_rel new ≡ true)
unfolding capreq_fill
capreq_clone-reads_example =
    capreq_clone-reads 16 true versioned refl refl (rw versioned_epoch (ground arith))
      (rw versioned_ver (ground arith))

versioned-IsComparable : IsComparable strcmp versioned
unfolding capreq_rel capreq_fill
versioned-IsComparable = record {
  epoch = rw versioned_epoch (ground arith);
  release = λ h. absurd (ground arith);
}

older-IsComparable : IsComparable strcmp older
unfolding capreq_rel capreq_fill
older-IsComparable = record {
  epoch = rw older_epoch (ground arith);
  release = λ h. absurd (ground arith);
}

older_value : capreq_cmp_name_evr strcmp older versioned ≡ negsuc 0
unfolding capreq_cmp_name_evr capreq_cmp_evr capreq_fill bytes_of_i32 strcmp diff_i32 capreq_ver
    capreq_rel capreq_epoch c_str
older_value = refl

older-before : IsNonPos (capreq_cmp_name_evr strcmp older versioned)
older-before = rw older_value (ground arith)

capreq_cmp_name_evr-IsPreorder_example : IsNonNeg (capreq_cmp_name_evr strcmp versioned older)
capreq_cmp_name_evr-IsPreorder_example =
    (capreq_cmp_name_evr-IsPreorder strcmp strcmp-IsPreorder).flips older versioned
      older-IsComparable versioned-IsComparable older-before

version-IsVersion : IsVersion version
version-IsVersion = record { some_byte = λ e. ground arith; plain = ground arith }

capreq_new_evr-print_example :
    (cr : Capreq) × (capreq_new_evr true foo
        (some (print_evr 3 version (some (codes "2"))))
        rel_eq
        no_flags
      ≡ some cr)
    × (capreq_epoch cr ≡ pos 3)
    × (capreq_ver cr ≡ version)
    × (capreq_rel cr ≡ codes "2")
    × (capreq_has_rel cr ≡ true)
capreq_new_evr-print_example =
    capreq_new_evr-print true foo 3 version (some (codes "2")) rel_eq no_flags refl (omega arith)
      version-IsVersion ((λ e. ground arith), ground arith) version-IsCStr (ground arith)
      (ground arith)
