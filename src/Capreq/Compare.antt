-- ===== src/Capreq/Compare.antt =====
-- The comparisons of capreq.c, by which arrays of capabilities are sorted, searched and made
-- unique. `pkg_version_compare` is librpm's `rpmvercmp`, a parameter; `IsVercmp` has what rpm
-- documents of it.
pub mod Laws
use poldek.Base.{
  ℕ, zero, suc, ◌+◌, ◌≤◌, ◌<◌, ◌^◌, ◌%◌, ◌≡◌, refl, Bool, true, false, not, ◌&&◌, ◌||◌, List, [],
  ◌∷◌, arith, take, length, ltb, if◌then◌else◌,
}
use poldek.Base.Int.{
  ℤ, pos, negsuc, pos_part, is_zero, neg, sub_ℕ, first_nonzero, diff_i32, diff_i32_epoch, IsEpoch,
  IsNonPos, IsNonNeg,
}
use poldek.Base.Bytes.{Bytes, strcmp, strcmp-IsPreorder, IsAny}
use poldek.Base.Preorder.{
  IsPreorder, neg-IsPreorder, first_nonzero-IsPreorder, sub_ℕ-IsPreorder, key-IsPreorder,
  agree-IsPreorder,
}
use poldek.Capreq.{
  Capreq, capreq_relflags, cr_flags_value, capreq_versioned, capreq_epoch, capreq_ver, capreq_rel,
}

pub capreq_cmp_name : Capreq → Capreq → ℤ
capreq_cmp_name cr1 cr2 = strcmp cr1.name cr2.name

-- `strcmp` of the C library for `strncmp(name1, name2, maxlen)`: at most `maxlen` bytes count.
strncmp : Bytes → Bytes → ℕ → ℤ
unfolding strcmp
strncmp a b n = strcmp (take n a) (take n b)

abbrev is_empty : Bytes → Bool
is_empty [] = true
is_empty (c ∷ cs) = false

pub capreq_strcmp_evr : Capreq → Capreq → ℤ
capreq_strcmp_evr cr1 cr2 = first_nonzero (diff_i32 (capreq_epoch cr1) (capreq_epoch cr2)) (
    first_nonzero (strcmp (capreq_ver cr1) (capreq_ver cr2)) (
      first_nonzero (strcmp (capreq_rel cr1) (capreq_rel cr2)) (
        sub_ℕ (capreq_relflags cr1 + cr_flags_value cr1.flags)
          (capreq_relflags cr2 + cr_flags_value cr2.flags))))

-- `namelen` is a `uint16_t`.
pub capreq_strcmp_name_evr : Capreq → Capreq → ℤ
capreq_strcmp_name_evr cr1 cr2 =
    let len1 = length cr1.name % 2 ^ 16 in
    let len2 = length cr2.name % 2 ^ 16 in
    first_nonzero (strncmp cr1.name cr2.name (if ltb len1 len2 then len2 else len1))
      (capreq_strcmp_evr cr1 cr2)

module _ (vercmp : Bytes → Bytes → ℤ) where
  -- The part of `capreq_cmp_evr` behind the versions: two absent releases are equal whatever the
  -- relations are.
  cmp_release : Capreq → Capreq → ℤ
  cmp_release cr1 cr2 =
      if is_empty (capreq_rel cr1) && is_empty (capreq_rel cr2)
      then pos 0
      else first_nonzero (vercmp (capreq_rel cr1) (capreq_rel cr2))
          (sub_ℕ (capreq_relflags cr1) (capreq_relflags cr2))

  unfoldable pub capreq_cmp_evr : Capreq → Capreq → ℤ
  unfolding cmp_release
  capreq_cmp_evr cr1 cr2 =
      if not (capreq_versioned cr1) && not (capreq_versioned cr2)
      then pos 0
      else if capreq_versioned cr1 && not (capreq_versioned cr2)
      then pos 1
      else if not (capreq_versioned cr1) && capreq_versioned cr2
      then negsuc 0
      else first_nonzero (diff_i32 (capreq_epoch cr1) (capreq_epoch cr2))
          (first_nonzero (vercmp (capreq_ver cr1) (capreq_ver cr2)) (cmp_release cr1 cr2))

  unfoldable pub capreq_cmp_name_evr : Capreq → Capreq → ℤ
  capreq_cmp_name_evr cr1 cr2 = first_nonzero (strcmp cr1.name cr2.name) (capreq_cmp_evr cr1 cr2)

-- What rpm documents of `rpmvercmp`: it orders all version strings.
abbrev pub IsVercmp : (Bytes → Bytes → ℤ) → Type 0
IsVercmp vercmp = IsPreorder IsAny vercmp
