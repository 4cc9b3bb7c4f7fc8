-- ===== src/Match/Range.antt =====
-- `cap_xmatch_req` and `pkg_evr_match_req` decide a relation of versions.
use poldek.Base.{
  ◌<◌, ◌≡◌, refl, ap, ◌∙◌, Bool, true, false, not, ◌||◌, some, arith, length, if◌then◌else◌,
}
use poldek.Base.Int.{ℤ, pos, first_nonzero, diff_i32, IsI32}
use poldek.Base.Bytes.{Bytes, str_eq, strcmp_refl}
use poldek.Capreq.{
  Capreq, RelFlags, CapFlags, no_flags, rel_eq, capreq_versioned, capreq_epoch, capreq_ver,
  capreq_rel, capreq_has_epoch, capreq_has_ver, capreq_has_rel, bytes_of_i32,
}
use poldek.Capreq.New.{capreq_new, capreq_fill, capreq_new_name}
use poldek.Capreq.New.Fields.{IsCStr, epoch-fill, ver-fill, rel-fill, has_rel-fill}
use poldek.Pkg.{Pkg}
use poldek.Pkg.Cmp.{pkg_cmp_evr}
use poldek.Match.{
  MaFlags, strictly, rel_match, do_promote, with_conf, match_release, match_version, match_epoch,
  cap_xmatch_req_by, cap_xmatch_req, pkg_evr_match_req,
}

epoch_absent : (cr : Capreq) → capreq_has_epoch cr ≡ false → capreq_epoch cr ≡ pos 0
unfolding capreq_epoch
epoch_absent cr h = ground arith

-- The comparison of a capability with a requirement, by the parts that the requirement has.
abbrev pub cmp_parts : (Bytes → Bytes → ℤ) → Capreq → Capreq → ℤ
cmp_parts vercmp c req = first_nonzero (diff_i32 (capreq_epoch c) (capreq_epoch req)) (
    first_nonzero (if capreq_has_ver req then vercmp (capreq_ver c) (capreq_ver req) else pos 0)
      (if capreq_has_rel req then vercmp (capreq_rel c) (capreq_rel req) else pos 0))

-- The capability has what the requirement compares, and the requirement compares something.
pub record IsAnswerable (c req : Capreq) : Type 0 where
  pub ver : (not (capreq_has_ver req) || capreq_has_ver c) ≡ true
  pub rel : (not (capreq_has_rel req) || capreq_has_rel c) ≡ true
  pub parts :
      (capreq_has_epoch c || (capreq_has_epoch req || (capreq_has_ver req || capreq_has_rel req)))
      ≡ true

module _ (vercmp : Bytes → Bytes → ℤ) (c req : Capreq) (flags : MaFlags)
    (h : IsAnswerable c req) where
  abbrev by_rel : ℤ
  by_rel = if capreq_has_rel req then vercmp (capreq_rel c) (capreq_rel req) else pos 0

  abbrev by_ver : ℤ
  by_ver = if capreq_has_ver req then vercmp (capreq_ver c) (capreq_ver req) else pos 0

  match_release-eq :
      (evr : Bool)
      → (evr || capreq_has_rel req) ≡ true
      → match_release vercmp evr c req flags ≡ rel_match by_rel req
  unfolding match_release
  match_release-eq evr compared = ground arith

  match_version-eq :
      (evr : Bool)
      → (evr || (capreq_has_ver req || capreq_has_rel req)) ≡ true
      → match_version vercmp evr c req flags ≡ rel_match (first_nonzero by_ver by_rel) req
  unfolding match_version
  match_version-eq evr compared = ground (arith, match_release-eq evr, match_release-eq true)

  match_epoch-eq :
      do_promote flags c req ≡ false
      → match_epoch vercmp c req flags ≡ rel_match (cmp_parts vercmp c req) req
  unfolding match_epoch
  match_epoch-eq keep =
      let no_epochs : diff_i32 (pos 0) (pos 0) ≡ pos 0 = unfold diff_i32 in refl in
      ground (
        arith,
        no_epochs,
        epoch_absent c,
        epoch_absent req,
        match_version-eq true,
        match_version-eq false,
      )

-- If the names are equal, the requirement is versioned, no epoch is promoted and the capability has
-- the version and the release if the requirement has them, then the requirement is met exactly if
-- its relation has the sign of the comparison of epochs, then versions, then releases; the parts
-- that the requirement lacks are not compared.
pub cap_xmatch_req-eq :
    (vercmp : Bytes → Bytes → ℤ) (promote_epoch : Bool) (c req : Capreq) (flags : MaFlags)
    → c.name ≡ req.name
    → capreq_versioned req ≡ true
    → IsAnswerable c req
    → do_promote (with_conf promote_epoch flags) c req ≡ false
    → cap_xmatch_req vercmp promote_epoch c req flags ≡ rel_match (cmp_parts vercmp c req) req
cap_xmatch_req-eq vercmp promote_epoch c req flags same versioned h keep =
    let met = match_epoch-eq vercmp c req (with_conf promote_epoch flags) h keep in
    let named : str_eq c.name req.name ≡ true = rw (same, strcmp_refl) in
    cap_xmatch_req_by vercmp promote_epoch c req flags named versioned ∙ met

-- The texts and the epoch of a package fit into a `capreq`.
pub record IsStorable (p : Pkg) : Type 0 where
  pub epoch : IsI32 p.epoch
  pub ver : IsCStr p.ver
  pub ver_length : length p.ver < 250
  pub rel : IsCStr p.rel

-- The requirement `NAME REL EPOCH:VER-REL` for the version of a package.
abbrev pub req_of : Bool → Pkg → RelFlags → CapFlags → Capreq
req_of na p rf fl = capreq_fill na p.name p.epoch (some p.ver) (some p.rel) rf fl

has_ver-fill :
    (na : Bool) (p : Pkg) (rf : RelFlags) (fl : CapFlags)
    → capreq_has_ver (req_of na p rf fl) ≡ true
unfolding capreq_fill bytes_of_i32
has_ver-fill na p rf fl = ground arith

versioned-fill :
    (na : Bool) (p : Pkg) (rf : RelFlags) (fl : CapFlags)
    → capreq_versioned (req_of na p rf fl) ≡ (rf.eq || (rf.gt || rf.lt))
unfolding capreq_fill
versioned-fill na p rf fl = refl

name-fill :
    (na na' : Bool) (p q : Pkg) (rf rf' : RelFlags) (fl fl' : CapFlags)
    → p.name ≡ q.name
    → (req_of na p rf fl).name ≡ (req_of na' q rf' fl').name
unfolding capreq_fill
name-fill na na' p q rf rf' fl fl' same = ap (λ n. (capreq_new_name n).0) same

module _ (vercmp : Bytes → Bytes → ℤ) (p q : Pkg) (na : Bool) (rf : RelFlags) (fl : CapFlags)
    (hp : IsStorable p) (hq : IsStorable q) where
  abbrev own : Capreq
  own = req_of false p rel_eq no_flags

  abbrev asked : Capreq
  asked = req_of na q rf fl

  answerable : IsAnswerable own asked
  answerable = ground (
    arith,
    has_ver-fill false p rel_eq no_flags,
    has_ver-fill na q rf fl,
    has_rel-fill false p.name rel_eq no_flags p.epoch p.ver (some p.rel) hp.ver_length,
    has_rel-fill na q.name rf fl q.epoch q.ver (some q.rel) hq.ver_length,
  )

  cmp_parts-eq : cmp_parts vercmp own asked ≡ pkg_cmp_evr vercmp p q
  unfolding pkg_cmp_evr
  cmp_parts-eq = simp (
    has_ver-fill na q rf fl,
    has_rel-fill na q.name rf fl q.epoch q.ver (some q.rel) hq.ver_length,
    epoch-fill false p.name rel_eq no_flags p.epoch p.ver (some p.rel) hp.epoch,
    epoch-fill na q.name rf fl q.epoch q.ver (some q.rel) hq.epoch,
    ver-fill false p.name rel_eq no_flags p.epoch p.ver (some p.rel) hp.ver,
    ver-fill na q.name rf fl q.epoch q.ver (some q.rel) hq.ver,
    rel-fill false p.name rel_eq no_flags p.epoch p.ver p.rel hp.rel hp.ver_length,
    rel-fill na q.name rf fl q.epoch q.ver q.rel hq.rel hq.ver_length,
  )

-- Without promotion a package `p` meets `NAME REL EPOCH:VER-REL`, written with some relation for
-- the version of a package `q` of its name, exactly if the relation has the sign of `pkg_cmp_evr p
-- q`. The epochs of both are in `int32_t`, their versions have less than 250 bytes, and versions
-- and releases have no NUL.
pub pkg_evr_match_req-eq :
    (vercmp : Bytes → Bytes → ℤ) (p q : Pkg) (na : Bool) (rf : RelFlags) (fl : CapFlags)
    → IsStorable p
    → IsStorable q
    → p.name ≡ q.name
    → (rf.eq || (rf.gt || rf.lt)) ≡ true
    → pkg_evr_match_req vercmp false p (req_of na q rf fl) strictly
      ≡ rel_match (pkg_cmp_evr vercmp p q) (req_of na q rf fl)
unfolding pkg_evr_match_req capreq_new
pkg_evr_match_req-eq vercmp p q na rf fl hp hq same related =
    let req = req_of na q rf fl in
    let versioned : capreq_versioned req ≡ true = versioned-fill na q rf fl ∙ related in
    let met =
      cap_xmatch_req-eq vercmp false (req_of false p rel_eq no_flags) req strictly
        (name-fill false na p q rel_eq rf no_flags fl same) versioned
        (answerable vercmp p q na rf fl hp hq) refl in
    let parts = cmp_parts-eq vercmp p q na rf fl hp hq in ground (arith, versioned, met, parts)
