-- ===== src/Match.antt =====
-- pkg.c: whether a capability or a package satisfies a requirement. Parameters of the model are
-- librpm's `rpmvercmp`, the setting `poldek_conf_PROMOTE_EPOCH`, and the search of trurlib's sorted
-- arrays, `n_array_bsearch_idx_ex` by name (`Match.Search`). Warnings and traces are left out.
pub mod Range
pub mod Search
pub mod Caps
pub mod Requires
pub mod Obsoletes
pub mod Strict
mod Tests
use poldek.Base.{
  ℕ, zero, suc, ◌≡◌, refl, Bool, true, false, not, ◌&&◌, ◌||◌, Option, none, some, List, [], ◌∷◌,
  drop, ◌==◌, if◌then◌else◌,
}
use poldek.Base.Int.{ℤ, pos, is_zero, is_positive, diff_i32}
use poldek.Base.Bytes.{Bytes, strcmp, str_eq}
use poldek.Capreq.{
  Capreq, RelFlags, no_flags, rel_eq, capreq_versioned, capreq_epoch, capreq_ver, capreq_rel,
  capreq_has_epoch, capreq_has_ver, capreq_has_rel,
}
use poldek.Capreq.New.{capreq_new}
use poldek.Pkg.{Pkg}

-- POLDEK_MA_PROMOTE_VERSION, _REQEPOCH and _CAPEPOCH; _EPOCH is the last two.
pub record MaFlags : Type 0 where
  pub version : Bool
  pub reqepoch : Bool
  pub capepoch : Bool

abbrev pub strictly : MaFlags
strictly = record { version = false; reqepoch = false; capepoch = false }

abbrev pub promote_version : MaFlags
promote_version = record { version = true; reqepoch = false; capepoch = false }

-- `strict ? 0 : POLDEK_MA_PROMOTE_VERSION`
abbrev pub ma_flags_of : Bool → MaFlags
ma_flags_of true = strictly
ma_flags_of false = promote_version

abbrev pub rel_match : ℤ → Capreq → Bool
rel_match cmprc req =
    if is_zero cmprc
    then req.relflags.eq
    else if is_positive cmprc
    then req.relflags.gt
    else req.relflags.lt

-- Whether a missing epoch is taken to be that of the other side.
abbrev pub do_promote : MaFlags → Capreq → Capreq → Bool
do_promote flags cap req =
    (flags.reqepoch || flags.capepoch)
    && ((not (capreq_has_epoch req) && flags.reqepoch)
        || (not (capreq_has_epoch cap) && flags.capepoch))

-- `if (poldek_conf_PROMOTE_EPOCH) flags |= POLDEK_MA_PROMOTE_EPOCH`
abbrev pub with_conf : Bool → MaFlags → MaFlags
with_conf promote_epoch flags = record flags {
  reqepoch = flags.reqepoch || promote_epoch;
  capepoch = flags.capepoch || promote_epoch;
}

module _ (vercmp : Bytes → Bytes → ℤ) where
  -- The steps of `cap_xmatch_req` from the last to the first; `evr` says that a part was compared.
  match_release : Bool → Capreq → Capreq → MaFlags → Bool
  match_release evr cap req flags =
      if not (capreq_has_rel req)
      then (if evr then rel_match (pos 0) req else true)
      else if not (capreq_has_rel cap)
      then flags.version
      else rel_match (vercmp (capreq_rel cap) (capreq_rel req)) req

  match_version : Bool → Capreq → Capreq → MaFlags → Bool
  match_version evr cap req flags =
      let cmprc = vercmp (capreq_ver cap) (capreq_ver req) in
      if not (capreq_has_ver req)
      then match_release evr cap req flags
      else if not (capreq_has_ver cap)
      then flags.version
      else if not (is_zero cmprc)
      then rel_match cmprc req
      else match_release true cap req flags

  match_epoch : Capreq → Capreq → MaFlags → Bool
  match_epoch cap req flags =
      let cmprc = diff_i32 (capreq_epoch cap) (capreq_epoch req) in
      if not (capreq_has_epoch cap || capreq_has_epoch req)
      then match_version false cap req flags
      else if do_promote flags cap req
      then match_version true cap req flags
      else if not (is_zero cmprc)
      then rel_match cmprc req
      else match_version true cap req flags

  module _ (promote_epoch : Bool) where
    unfoldable pub cap_xmatch_req : Capreq → Capreq → MaFlags → Bool
    unfolding match_epoch match_version match_release
    cap_xmatch_req cap req flags =
        if not (str_eq cap.name req.name)
        then false
        else if not (capreq_versioned req)
        then true
        else match_epoch cap req (with_conf promote_epoch flags)

    -- The tests of the name and of a version, with the rest shut.
    cap_xmatch_req_by :
        (cap req : Capreq) (flags : MaFlags)
        → str_eq cap.name req.name ≡ true
        → capreq_versioned req ≡ true
        → cap_xmatch_req cap req flags ≡ match_epoch cap req (with_conf promote_epoch flags)
    unfolding cap_xmatch_req
    cap_xmatch_req_by cap req flags named versioned = rw (named, versioned)

    unfoldable pub cap_match_req : Capreq → Capreq → Bool → Bool
    unfolding cap_xmatch_req
    cap_match_req cap req strict = cap_xmatch_req cap req (ma_flags_of strict)

    -- `do_pkg_evr_match_req`; rpm promotes the epoch of requirements only.
    pub do_pkg_evr_match_req : Capreq → Capreq → Bool → Bool
    do_pkg_evr_match_req pkgcap req promote =
        cap_xmatch_req pkgcap req (record { version = false; reqepoch = promote; capepoch = false })

    -- The capability `NAME = EPOCH:VER-REL` of the package itself.
    abbrev pub self_cap : Pkg → Option Capreq
    self_cap pkg = capreq_new false pkg.name pkg.epoch (some pkg.ver) (some pkg.rel) rel_eq no_flags

    abbrev pub evr_match : Pkg → Capreq → MaFlags → Capreq → Bool
    evr_match pkg req flags cap =
        if flags.version || (flags.reqepoch || flags.capepoch)
        then do_pkg_evr_match_req cap req false
          || (not (is_zero pkg.epoch) && do_pkg_evr_match_req cap req true)
        else do_pkg_evr_match_req cap req promote_epoch

    -- `capreq_new` does not return NULL here, as there is a version and a relation.
    unfoldable pub pkg_evr_match_req : Pkg → Capreq → MaFlags → Bool
    unfolding do_pkg_evr_match_req
    pkg_evr_match_req pkg req flags =
        if not (capreq_versioned req)
        then true
        else elim (self_cap pkg) [ none ↦ false | some cap ↦ evr_match pkg req flags cap ]

    -- The loop over the capabilities from the one that the search found; the first is not asked
    -- for its name.
    scan_caps : Bool → List Capreq → Capreq → MaFlags → Bool
    scan_caps first [] req flags = false
    scan_caps first (cap ∷ caps) req flags =
        let later = scan_caps false caps req flags in
        if not first && not (str_eq cap.name req.name)
        then false
        else if cap_xmatch_req cap req flags
        then true
        else later

    -- `capreq_arr_find`, by name, in an array that is sorted already.
    module _ (find : List Capreq → Bytes → Option ℕ) where
      -- What follows on the search in the array.
      scan_found : Option ℕ → List Capreq → Capreq → MaFlags → Bool
      scan_found none caps req flags = false
      scan_found (some n) caps req flags = scan_caps true (drop n caps) req flags

      -- The array may be NULL.
      match_caps : Option (List Capreq) → Capreq → MaFlags → Bool
      match_caps none req flags = false
      match_caps (some caps) req flags = scan_found (find caps req.name) caps req flags

      unfoldable pub pkg_caps_match_req : Pkg → Capreq → MaFlags → Bool
      unfolding scan_caps scan_found match_caps
      pkg_caps_match_req pkg req flags = match_caps pkg.caps req flags

      unfoldable pub pkg_xmatch_req : Pkg → Capreq → MaFlags → Bool
      unfolding pkg_evr_match_req pkg_caps_match_req
      pkg_xmatch_req pkg req flags =
          (str_eq pkg.name req.name && pkg_evr_match_req pkg req flags)
          || pkg_caps_match_req pkg req flags

      unfoldable pub pkg_match_req : Pkg → Capreq → Bool → Bool
      unfolding pkg_evr_match_req pkg_caps_match_req
      pkg_match_req pkg req strict =
          (str_eq pkg.name req.name && pkg_evr_match_req pkg req (ma_flags_of strict))
          || pkg_caps_match_req pkg req (ma_flags_of strict)
