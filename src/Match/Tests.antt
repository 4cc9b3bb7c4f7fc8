-- ===== src/Match/Tests.antt =====
-- Instances of the theorems about matching.
use poldek.Base.{◌≡◌, refl, true, false, not, ◌&&◌, ◌||◌, none, some, [], ◌∷◌, arith}
use poldek.Base.Int.{pos, diff_i32}
use poldek.Base.Bytes.{Bytes, codes, strcmp}
use poldek.Capreq.{
  Capreq, RelFlags, CapFlags, no_flags, no_rel, rel_eq, capreq_versioned, bytes_of_i32, c_str,
  i32_of_bytes, capreq_epoch, capreq_ver, capreq_rel,
}
use poldek.Capreq.New.{capreq_fill, capreq_new}
use poldek.Pkg.{Pkg, plain_pkg}
use poldek.Pkg.Cmp.{pkg_cmp_evr}
use poldek.Match.{
  strictly, rel_match, cap_xmatch_req, cap_match_req, pkg_evr_match_req, pkg_match_req,
  pkg_caps_match_req,
}
use poldek.Match.Range.{IsAnswerable, IsStorable, req_of, pkg_evr_match_req-eq}
use poldek.Match.Search.{linear_find, linear_find-IsFind}
use poldek.Match.Caps.{any_cap, pkg_caps_match_req-eq}
use poldek.Match.Requires.{IsIn, pkg_requires_cap, pkg_requires_cap_sound}
use poldek.Match.Strict.{pkg_match_req_weaken}
use poldek.Match.Obsoletes.{pkg_obsoletes_pkg, pkg_obsoletes_pkg-second}

abbrev foo : Bytes
foo = codes "foo"

abbrev ge : RelFlags
ge = record rel_eq { gt = true }

abbrev lt : RelFlags
lt = record no_rel { lt = true }

-- foo = 2-1
abbrev provided : Capreq
provided = capreq_fill false foo (pos 0) (some (codes "2")) (some (codes "1")) rel_eq no_flags

-- foo >= 1
abbrev asked : Capreq
asked = capreq_fill false foo (pos 0) (some (codes "1")) none ge no_flags

answerable : IsAnswerable provided asked
unfolding capreq_fill bytes_of_i32
answerable = record { ver = refl; rel = refl; parts = refl }

abbrev foo_1 : Pkg
foo_1 = plain_pkg foo (pos 0) (codes "1") (codes "1")

abbrev foo_2 : Pkg
foo_2 = plain_pkg foo (pos 0) (codes "2") (codes "1")

foo_1-IsStorable : IsStorable foo_1
foo_1-IsStorable = record {
  epoch = ground arith;
  ver = ground arith;
  ver_length = ground arith;
  rel = ground arith;
}

foo_2-IsStorable : IsStorable foo_2
foo_2-IsStorable = record {
  epoch = ground arith;
  ver = ground arith;
  ver_length = ground arith;
  rel = ground arith;
}

pkg_evr_match_req-eq_example :
    pkg_evr_match_req strcmp false foo_2 (req_of false foo_1 ge no_flags) strictly
    ≡ rel_match (pkg_cmp_evr strcmp foo_2 foo_1) (req_of false foo_1 ge no_flags)
pkg_evr_match_req-eq_example =
    pkg_evr_match_req-eq strcmp foo_2 foo_1 false ge no_flags foo_2-IsStorable foo_1-IsStorable refl
      refl

-- A package with the capability twice.
abbrev provider : Pkg
provider = record foo_2 { caps = some (asked ∷ provided ∷ []) }

pkg_caps_match_req-eq_example :
    pkg_caps_match_req strcmp false linear_find provider asked strictly
    ≡ any_cap (λ c. cap_xmatch_req strcmp false c asked strictly) (asked ∷ provided ∷ [])
unfolding strcmp capreq_fill
pkg_caps_match_req-eq_example =
    pkg_caps_match_req-eq strcmp false linear_find provider asked strictly linear_find-IsFind
      ((ground arith, tt), (tt, tt))

-- A package that requires `foo >= 1`.
abbrev needing : Pkg
needing = record (plain_pkg (codes "bar") (pos 0) (codes "1") (codes "1")) {
  reqs = some (asked ∷ []);
}

requires_provided : pkg_requires_cap strcmp false linear_find needing provided ≡ some asked
unfolding pkg_requires_cap linear_find cap_match_req cap_xmatch_req capreq_fill bytes_of_i32 strcmp
    diff_i32 c_str i32_of_bytes capreq_epoch capreq_ver capreq_rel
requires_provided = refl

pkg_requires_cap_sound_example :
    (asked.name ≡ provided.name)
    × IsIn asked (asked ∷ [])
    × ((not (capreq_versioned provided)
          || (capreq_versioned asked && cap_match_req strcmp false provided asked true))
        ≡ true)
pkg_requires_cap_sound_example =
    pkg_requires_cap_sound strcmp false linear_find needing provided asked linear_find-IsFind
      (tt, tt) requires_provided

abbrev obsolete : CapFlags
obsolete = record no_flags { cnfl = true; prereq = true }

-- foo < 1 and foo < 3
abbrev first : Capreq
first = capreq_fill false foo (pos 0) (some (codes "1")) none lt obsolete

abbrev second : Capreq
second = capreq_fill false foo (pos 0) (some (codes "3")) none lt obsolete

abbrev obsoleting : Pkg
obsoleting = record (plain_pkg (codes "bar") (pos 0) (codes "1") (codes "1")) {
  cnfls = some (first ∷ second ∷ []);
}

pkg_obsoletes_pkg-second_example :
    pkg_obsoletes_pkg strcmp false linear_find obsoleting foo_2 ≡ false
unfolding linear_find capreq_fill strcmp pkg_match_req capreq_new cap_xmatch_req capreq_ver
pkg_obsoletes_pkg-second_example =
    pkg_obsoletes_pkg-second strcmp false linear_find obsoleting foo_2 (first ∷ second ∷ []) 0 first
      second refl refl refl refl refl refl refl

met_strictly : pkg_match_req strcmp false linear_find foo_2 asked true ≡ true
unfolding linear_find capreq_fill strcmp pkg_match_req capreq_new cap_xmatch_req capreq_ver
    capreq_rel c_str bytes_of_i32
met_strictly = refl

pkg_match_req_weaken_example : pkg_match_req strcmp false linear_find foo_2 asked false ≡ true
pkg_match_req_weaken_example =
    pkg_match_req_weaken strcmp false linear_find foo_2 asked met_strictly
