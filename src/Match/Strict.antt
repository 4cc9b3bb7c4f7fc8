-- ===== src/Match/Strict.antt =====
-- A requirement that is met strictly is met: giving up strictness only adds matches.
use poldek.Base.{
  ℕ, ◌≡◌, inl, inr, Bool, true, false, Option, none, some, List, [], ◌∷◌, arith, drop, Option-cases,
}
use poldek.Base.Int.{ℤ}
use poldek.Base.Bytes.{Bytes}
use poldek.Capreq.{Capreq}
use poldek.Pkg.{Pkg}
use poldek.Match.{
  MaFlags, strictly, promote_version, with_conf, match_release, match_version, match_epoch,
  cap_xmatch_req, pkg_evr_match_req, do_pkg_evr_match_req, scan_caps, scan_found, match_caps,
  pkg_caps_match_req, pkg_match_req, evr_match, self_cap,
}

-- The flags with a missing version or release let through.
abbrev weakened : MaFlags → MaFlags
weakened flags = record flags { version = true }

module _ (vercmp : Bytes → Bytes → ℤ) where
  match_release_weaken :
      (evr : Bool) (c req : Capreq) (flags : MaFlags)
      → match_release vercmp evr c req flags ≡ true
      → match_release vercmp evr c req (weakened flags) ≡ true
  unfolding match_release
  match_release_weaken evr c req flags h = ground arith

  match_version_weaken :
      (evr : Bool) (c req : Capreq) (flags : MaFlags)
      → match_version vercmp evr c req flags ≡ true
      → match_version vercmp evr c req (weakened flags) ≡ true
  unfolding match_version
  match_version_weaken evr c req flags h =
      ground (arith, match_release_weaken evr c req flags, match_release_weaken true c req flags)

  match_epoch_weaken :
      (c req : Capreq) (flags : MaFlags)
      → match_epoch vercmp c req flags ≡ true
      → match_epoch vercmp c req (weakened flags) ≡ true
  unfolding match_epoch
  match_epoch_weaken c req flags h =
      ground (arith, match_version_weaken false c req flags, match_version_weaken true c req flags)

  module _ (promote_epoch : Bool) where
    cap_xmatch_req_weaken :
        (c req : Capreq) (flags : MaFlags)
        → cap_xmatch_req vercmp promote_epoch c req flags ≡ true
        → cap_xmatch_req vercmp promote_epoch c req (weakened flags) ≡ true
    unfolding cap_xmatch_req
    cap_xmatch_req_weaken c req flags h =
        ground (arith, match_epoch_weaken c req (with_conf promote_epoch flags))

    scan_caps_weaken :
        (start : Bool) (caps : List Capreq) (req : Capreq) (flags : MaFlags)
        → scan_caps vercmp promote_epoch start caps req flags ≡ true
        → scan_caps vercmp promote_epoch start caps req (weakened flags) ≡ true
    unfolding scan_caps
    scan_caps_weaken start [] req flags h = h
    scan_caps_weaken start (c ∷ caps) req flags h =
        ground (arith, scan_caps_weaken false caps req flags, cap_xmatch_req_weaken c req flags)

    scan_found_weaken :
        (find : List Capreq → Bytes → Option ℕ) (o : Option ℕ) (caps : List Capreq) (req : Capreq)
        (flags : MaFlags)
        → scan_found vercmp promote_epoch find o caps req flags ≡ true
        → scan_found vercmp promote_epoch find o caps req (weakened flags) ≡ true
    unfolding scan_found
    scan_found_weaken find none caps req flags h = h
    scan_found_weaken find (some n) caps req flags h =
        scan_caps_weaken true (drop n caps) req flags h

    match_caps_weaken :
        (find : List Capreq → Bytes → Option ℕ) (caps : Option (List Capreq)) (req : Capreq)
        (flags : MaFlags)
        → match_caps vercmp promote_epoch find caps req flags ≡ true
        → match_caps vercmp promote_epoch find caps req (weakened flags) ≡ true
    unfolding match_caps
    match_caps_weaken find none req flags h = h
    match_caps_weaken find (some caps) req flags h =
        scan_found_weaken find (find caps req.name) caps req flags h

evr_match_weaken :
    (vercmp : Bytes → Bytes → ℤ) (promote_epoch : Bool) (pkg : Pkg) (req cap : Capreq)
    → evr_match vercmp promote_epoch pkg req strictly cap ≡ true
    → evr_match vercmp promote_epoch pkg req promote_version cap ≡ true
unfolding do_pkg_evr_match_req cap_xmatch_req
evr_match_weaken vercmp true pkg req cap h = ground arith
evr_match_weaken vercmp false pkg req cap h = ground arith

pkg_evr_match_req_weaken :
    (vercmp : Bytes → Bytes → ℤ) (promote_epoch : Bool) (pkg : Pkg) (req : Capreq)
    → pkg_evr_match_req vercmp promote_epoch pkg req strictly ≡ true
    → pkg_evr_match_req vercmp promote_epoch pkg req promote_version ≡ true
unfolding pkg_evr_match_req
pkg_evr_match_req_weaken vercmp promote_epoch pkg req h =
    elim (Option-cases (self_cap vercmp promote_epoch pkg)) [
      | inl absent ↦ ground arith
      | inr (cap, present) ↦ ground (arith, evr_match_weaken vercmp promote_epoch pkg req cap)
    ]

-- A package that meets a requirement when missing versions and releases are not let through also
-- meets it when they are, with either setting of epoch promotion.
pub pkg_match_req_weaken :
    (vercmp : Bytes → Bytes → ℤ) (promote_epoch : Bool) (find : List Capreq → Bytes → Option ℕ)
    (pkg : Pkg) (req : Capreq)
    → pkg_match_req vercmp promote_epoch find pkg req true ≡ true
    → pkg_match_req vercmp promote_epoch find pkg req false ≡ true
unfolding pkg_match_req pkg_caps_match_req
pkg_match_req_weaken vercmp promote_epoch find pkg req h = ground (
  arith,
  pkg_evr_match_req_weaken vercmp promote_epoch pkg req,
  match_caps_weaken vercmp promote_epoch find pkg.caps req strictly,
)
