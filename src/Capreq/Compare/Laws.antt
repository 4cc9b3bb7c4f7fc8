-- ===== src/Capreq/Compare/Laws.antt =====
-- `capreq_cmp_name_evr` is fit for sorting and searching.
use poldek.Base.{ℕ, ◌≡◌, false, ◌&&◌, [], arith, if◌then◌else◌}
use poldek.Base.Int.{
  ℤ, pos, pos_part, is_zero, sub_ℕ, first_nonzero, diff_i32, diff_i32_epoch, IsEpoch, IsNonPos,
  IsNonNeg,
}
use poldek.Base.Bytes.{Bytes, strcmp-IsPreorder}
use poldek.Base.Preorder.{
  IsPreorder, first_nonzero-IsPreorder, sub_ℕ-IsPreorder, key-IsPreorder, agree-IsPreorder,
}
use poldek.Capreq.{Capreq, capreq_relflags, capreq_epoch, capreq_ver, capreq_rel}
use poldek.Capreq.Compare.{is_empty, cmp_release, capreq_cmp_evr, capreq_cmp_name_evr, IsVercmp}

module _ (vercmp : Bytes → Bytes → ℤ) where
  -- The epoch is not negative, and only the empty release is equal to no release.
  pub record IsComparable (cr : Capreq) : Type 0 where
    pub epoch : IsEpoch (capreq_epoch cr)
    pub release : is_empty (capreq_rel cr) ≡ false → is_zero (vercmp [] (capreq_rel cr)) ≡ false

  -- `cmp_release` on the releases and the relations.
  abbrev by_release : Bytes → ℕ → Bytes → ℕ → ℤ
  by_release r f s g =
      if is_empty r && is_empty s then pos 0 else first_nonzero (vercmp r s) (sub_ℕ f g)

  abbrev IsTold : Bytes → Type 0
  IsTold r = is_empty r ≡ false → is_zero (vercmp [] r) ≡ false

  module _ (h : IsVercmp vercmp) where
    by_release-flips :
        (r : Bytes) (f : ℕ) (s : Bytes) (g : ℕ)
        → IsNonPos (by_release r f s g)
        → IsNonNeg (by_release s g r f)
    by_release-flips r f s g q = ground (
      arith,
      h.flips r s tt tt,
      h.flips_back r s tt tt,
      h.flips s r tt tt,
      h.flips_back s r tt tt,
    )

    by_release-flips_back :
        (r : Bytes) (f : ℕ) (s : Bytes) (g : ℕ)
        → IsNonNeg (by_release r f s g)
        → IsNonPos (by_release s g r f)
    by_release-flips_back r f s g q = ground (
      arith,
      h.flips r s tt tt,
      h.flips_back r s tt tt,
      h.flips s r tt tt,
      h.flips_back s r tt tt,
    )

    by_release_trans :
        (r : Bytes) (f : ℕ) (s : Bytes) (g : ℕ) (t : Bytes) (k : ℕ)
        → IsTold r
        → IsTold s
        → IsTold t
        → IsNonPos (by_release r f s g)
        → IsNonPos (by_release s g t k)
        → IsNonPos (by_release r f t k)
    by_release_trans [] f s g [] k tr ts tt' p q = omega arith
    by_release_trans [] f [] g t k tr ts tt' p q = ground (
      arith,
      h.flips [] t tt tt,
      h.flips_back [] t tt tt,
      h.flips t [] tt tt,
      h.flips_back t [] tt tt,
    )
    by_release_trans r f [] g [] k tr ts tt' p q = ground (
      arith,
      h.flips r [] tt tt,
      h.flips_back r [] tt tt,
      h.flips [] r tt tt,
      h.flips_back [] r tt tt,
    )
    by_release_trans r f s g t k tr ts tt' p q = ground (
      arith,
      h.flips r s tt tt,
      h.flips_back r s tt tt,
      h.flips s r tt tt,
      h.flips_back s r tt tt,
      h.flips s t tt tt,
      h.flips_back s t tt tt,
      h.flips t s tt tt,
      h.flips_back t s tt tt,
      h.flips r t tt tt,
      h.flips_back r t tt tt,
      h.flips t r tt tt,
      h.flips_back t r tt tt,
      h.transitive r s t tt tt tt,
      h.transitive t r s tt tt tt,
      h.transitive s t r tt tt tt,
    )

    cmp_release-IsPreorder : IsPreorder IsComparable (cmp_release vercmp)
    unfolding cmp_release
    cmp_release-IsPreorder = record {
      flips = λ a b pa pb.
          by_release-flips (capreq_rel a) (capreq_relflags a) (capreq_rel b) (capreq_relflags b);
      flips_back = λ a b pa pb.
          by_release-flips_back (capreq_rel a) (capreq_relflags a) (capreq_rel b)
            (capreq_relflags b);
      transitive = λ a b c pa pb pc.
          by_release_trans (capreq_rel a) (capreq_relflags a) (capreq_rel b) (capreq_relflags b)
            (capreq_rel c) (capreq_relflags c) pa.release pb.release pc.release;
    }

    epoch-IsPreorder : IsPreorder IsComparable (λ a b. diff_i32 (capreq_epoch a) (capreq_epoch b))
    epoch-IsPreorder =
        agree-IsPreorder
          (λ a b pa pb. diff_i32_epoch (capreq_epoch a) (capreq_epoch b) pa.epoch pb.epoch)
          (sub_ℕ-IsPreorder (λ a. pos_part (capreq_epoch a)))

    versioned-IsPreorder : IsPreorder IsComparable (λ a b.
        first_nonzero
          (diff_i32 (capreq_epoch a) (capreq_epoch b))
          (first_nonzero (vercmp (capreq_ver a) (capreq_ver b)) (cmp_release vercmp a b)))
    versioned-IsPreorder =
        first_nonzero-IsPreorder epoch-IsPreorder (
          first_nonzero-IsPreorder (key-IsPreorder capreq_ver (λ a pa. tt) h)
            cmp_release-IsPreorder)

    -- An unversioned `capreq` is below a versioned one.
    by_version-IsPreorder : IsPreorder IsComparable (capreq_cmp_evr vercmp)
    unfolding capreq_cmp_evr
    by_version-IsPreorder = record {
      flips = λ a b pa pb q. ground (arith, versioned-IsPreorder.flips a b pa pb);
      flips_back = λ a b pa pb q. ground (arith, versioned-IsPreorder.flips_back a b pa pb);
      transitive =
          λ a b c pa pb pc q r. ground (arith, versioned-IsPreorder.transitive a b c pa pb pc);
    }

-- `capreq_cmp_name_evr` is a total preorder of the `capreq`s with epochs that are not negative and
-- releases that differ from no release: it flips its sign with its arguments and is transitive, if
-- `rpmvercmp` is one of version strings.
pub capreq_cmp_name_evr-IsPreorder :
    (vercmp : Bytes → Bytes → ℤ)
    → IsVercmp vercmp
    → IsPreorder (IsComparable vercmp) (capreq_cmp_name_evr vercmp)
unfolding capreq_cmp_name_evr
capreq_cmp_name_evr-IsPreorder vercmp h =
    first_nonzero-IsPreorder
      (key-IsPreorder (λ (a : Capreq). a.name) (λ a pa. tt) strcmp-IsPreorder)
      (by_version-IsPreorder vercmp h)
