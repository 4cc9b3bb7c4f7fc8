-- ===== src/Required/Tests.antt =====
-- Instances of the theorems about required packages. Packages 1 and 2 have the capability virtual,
-- which 1 requires itself; 1 alone has the capability only.
use poldek.Base.{
  ℕ, ◌≡◌, refl, Bool, true, false, Option, none, some, List, [], ◌∷◌, All, ◌==◌, arith,
}
use poldek.Base.Bytes.{Bytes, codes, str_eq, strcmp}
use poldek.Capreq.{Capreq, no_flags, no_rel}
use poldek.Order.{Reqpkg}
use poldek.Arrays.{change_at, IsPush, IsBsearch}
use poldek.Arrays.Linear.{push_front, linear, push_front-IsPush, linear-IsBsearch}
use poldek.Require.{Found}
use poldek.Required.{
  Deps, multi_group, add_flags, add_reqpkg, process_req, process_reqs, looked_up, cache_get, rps_of,
  process_loop, by_cache, with_matches,
}
use poldek.Required.Cache.{
  forget, plain, IsConsistent, IsRight, process_reqs-plain, process_reqs-self_reused,
}
use poldek.Required.Resolved.{IsMet, IsFrom, process_reqs-IsMet}

abbrev named : Bytes → Capreq
named name = record {
  flags = no_flags;
  relflags = no_rel;
  name = name;
  ep_ofs = 0;
  ver_ofs = 0;
  rel_ofs = 0;
  buff = 0 ∷ [];
}

abbrev virtual : Capreq
virtual = named (codes "v")

abbrev only : Capreq
only = named (codes "o")

abbrev printed : Capreq → Bytes
printed req = req.name

abbrev same : ℕ → ℕ → Bool
same p q = p == q

abbrev push : List Reqpkg → Reqpkg → List Reqpkg
push = push_front

abbrev of_pkg : Reqpkg → ℕ → Bool
of_pkg r p = same r.rp.pkg p

abbrev bsearch : List Reqpkg → ℕ → Option ℕ
bsearch = linear of_pkg

found_for : Bool → Bool → Found
found_for true true = record { found = true; packages = none }
found_for true false = record { found = true; packages = some (1 ∷ 2 ∷ []) }
found_for false self = record { found = true; packages = some (1 ∷ []) }

find_match : Option ℕ → Capreq → Option (List ℕ) → Bool → Found
find_match none req packages strict = record { found = false; packages = packages }
find_match (some p) req packages strict = found_for (str_eq req.name (codes "v")) (p == 1)

abbrev fresh : Deps
fresh = record { reqpkgs = []; cache = []; nerrors = 0; unreqs = none }

consistent : IsConsistent push bsearch printed find_match 9 true (virtual ∷ only ∷ [])
unfolding looked_up find_match found_for strcmp
consistent = ((λ e. absurd (ground (arith, e)), tt), (tt, tt))

right : IsRight push bsearch printed find_match 9 true (virtual ∷ only ∷ []) []
unfolding cache_get
right = ((λ c e. absurd (ground (arith, e))), ((λ c e. absurd (ground (arith, e))), tt))

process_reqs-plain_example :
    forget (process_reqs push bsearch printed find_match 9 true (some (virtual ∷ only ∷ [])) fresh)
    ≡ plain push bsearch printed find_match 9 true (virtual ∷ only ∷ []) fresh
process_reqs-plain_example =
    process_reqs-plain push bsearch printed find_match 9 true (virtual ∷ only ∷ []) fresh consistent
      right

pushes : IsPush push
pushes = push_front-IsPush

searches : IsBsearch of_pkg bsearch
searches = linear-IsBsearch of_pkg

same_refl : (p : ℕ) → same p p ≡ true
same_refl p = ground arith

process_reqs-IsMet_example :
    All
      (IsMet push bsearch same pushes searches same_refl printed find_match 9 true
        (process_reqs push bsearch printed find_match 9 true
          (some (virtual ∷ only ∷ []))
          fresh).reqpkgs)
      (virtual ∷ only ∷ [])
    × All
        (IsFrom push bsearch same pushes searches same_refl printed find_match 9 true
          (virtual ∷ only ∷ []))
        (process_reqs push bsearch printed find_match 9 true
          (some (virtual ∷ only ∷ []))
          fresh).reqpkgs
process_reqs-IsMet_example =
    process_reqs-IsMet push bsearch same pushes searches same_refl printed find_match 9 true
      (virtual ∷ only ∷ []) fresh consistent right refl

abbrev after_self : Deps
after_self = process_reqs push bsearch printed find_match 1 true (some (virtual ∷ [])) fresh

process_reqs-self_reused_example :
    (after_self.reqpkgs ≡ [])
    × (process_reqs push bsearch printed find_match 9 true (some (virtual ∷ [])) after_self
        ≡ after_self)
unfolding cache_get find_match found_for strcmp
process_reqs-self_reused_example =
    process_reqs-self_reused push bsearch printed find_match 1 9 true virtual fresh refl refl refl

abbrev either_pkg : List Reqpkg
either_pkg = multi_group virtual 1 (2 ∷ []) ∷ []

-- The requirement that 1 alone satisfies leaves 2 as an alternative.
still_either :
    (process_reqs push bsearch printed find_match 9 true (some (virtual ∷ only ∷ [])) fresh).reqpkgs
    ≡ multi_group virtual 1 (2 ∷ []) ∷ []
unfolding process_reqs process_loop by_cache with_matches process_req looked_up cache_get find_match
    found_for strcmp add_reqpkg change_at add_flags rps_of
still_either = refl
