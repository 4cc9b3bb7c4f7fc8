-- ===== src/Capreq/Evr.antt =====
-- `capreq_new_evr` of capreq.c: a `capreq` from the text of a version.
use poldek.Base.{ℕ, ◌<◌, ◌^◌, ◌≡◌, Bool, true, Option, none, some, arith, length}
use poldek.Base.Int.{pos}
use poldek.Base.Bytes.{Bytes}
use poldek.Capreq.{
  Capreq, RelFlags, CapFlags, has_relation, capreq_epoch, capreq_ver, capreq_rel, capreq_has_rel,
}
use poldek.Capreq.New.{capreq_new, is_some}
use poldek.Capreq.New.Fields.{IsCStr, IsCStr?, or_empty, capreq_new-reads}
use poldek.Evr.{parse_evr}
use poldek.Evr.RoundTrip.{print_evr, IsVersion, IsRelease?, parse_evr-print}

-- NULL for `evr` is `none`.
unfoldable pub capreq_new_evr : Bool → Bytes → Option Bytes → RelFlags → CapFlags → Option Capreq
capreq_new_evr na name none relflags flags = capreq_new na name (pos 0) none none relflags flags
capreq_new_evr na name (some evr) relflags flags = elim (parse_evr evr) [
  | none ↦ none
  | some (epoch, version, release) ↦ capreq_new na name epoch (some version) release relflags flags
]

-- With a relation, and with the text that is printed for an epoch below 2^31, for a version
-- shorter than 250 bytes that is not empty and has no NUL, blank, colon or dash, and for no release
-- or one that is not empty and has no NUL or colon, `capreq_new_evr` succeeds; the epoch, the
-- version and the release are then read back, the release as the empty string if there is none,
-- and the `capreq` has a release exactly if the text has one.
pub capreq_new_evr-print :
    (na : Bool) (name : Bytes) (n : ℕ) (v : Bytes) (r : Option Bytes) (rf : RelFlags)
    (fl : CapFlags)
    → has_relation rf ≡ true
    → n < 2 ^ 31
    → IsVersion v
    → IsRelease? r
    → IsCStr v
    → length v < 250
    → IsCStr? r
    → (cr : Capreq) × (capreq_new_evr na name (some (print_evr n v r)) rf fl ≡ some cr)
      × (capreq_epoch cr ≡ pos n)
      × (capreq_ver cr ≡ v)
      × (capreq_rel cr ≡ or_empty r)
      × (capreq_has_rel cr ≡ is_some r)
unfolding capreq_new_evr
capreq_new_evr-print na name n v r rf fl related small hv hr cv fits cr =
    let (c, made, epoch, ver, rel, has_rel) =
      capreq_new-reads na name (pos n) v r rf fl related (ground arith) cv fits cr in
    (c, rw (capreq_new_evr, parse_evr-print n v r small hv hr) made, epoch, ver, rel, has_rel)
