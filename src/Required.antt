-- ===== src/Required.antt =====
-- pkgset-dep.c: the packages that a package requires. An array of `struct reqpkg` is a list; of a
-- `struct reqpkg` the requirement it is for is left out. The array is AUTOSORTED: where
-- `n_array_push` puts an element and which of several equal ones `n_array_bsearch` finds are
-- parameters, as are the text of `capreq_snprintf` and the search for the packages of a requirement,
-- `pkgset_find_match_packages` on the set. The cache `_req_cache` is an association list.
pub mod Cache
pub mod Groups
pub mod Merged
pub mod Resolved
mod Tests
use poldek.Base.{
  ℕ, zero, suc, ◌+◌, ◌-◌, Bool, true, false, not, ◌&&◌, ◌||◌, Option, none, some, List, [], ◌∷◌,
  ◌++◌, length, get_elem?, ◌==◌, if◌then◌else◌,
}
use poldek.Base.Bytes.{Bytes, str_eq}
use poldek.Capreq.{Capreq}
use poldek.Order.{Rp, Reqpkg}
use poldek.Arrays.{change_at}
use poldek.Require.{Found}

-- `rpkg->flags |= ...` by the flags of the requirement.
unfoldable pub add_flags : Capreq → Reqpkg → Reqpkg
add_flags req r = record r {
  rp = record {
    pkg = r.rp.pkg;
    prereq = r.rp.prereq || req.flags.prereq;
    prereq_un = r.rp.prereq_un || req.flags.prereq_un;
  };
}

abbrev pub rp_of : Capreq → ℕ → Rp
rp_of req pkg = record { pkg = pkg; prereq = req.flags.prereq; prereq_un = req.flags.prereq_un }

unfoldable pub rps_of : Capreq → List ℕ → List Rp
rps_of req [] = []
rps_of req (m ∷ ms) = rp_of req m ∷ rps_of req ms

-- `reqpkg_new(pkg, req, 0, 0)`, and that of `process_req` with REQPKG_MULTI.
abbrev pub single : ℕ → Reqpkg
single pkg = record {
  rp = record { pkg = pkg; prereq = false; prereq_un = false };
  multi = false;
  adds = [];
}

abbrev pub multi_group : Capreq → ℕ → List ℕ → Reqpkg
multi_group req m ms = record { rp = rp_of req m; multi = true; adds = rps_of req ms }

-- The loop of `process_req` that compares the list, which ends with the shorter `adds`.
unfoldable pub is_listed : List Rp → List ℕ → Bool
is_listed [] ms = true
is_listed (a ∷ adds) [] = false
is_listed (a ∷ adds) (m ∷ ms) = a.pkg == m && is_listed adds ms

-- The test `isneq`, of the element that the search found.
abbrev pub is_equal : Option Reqpkg → List ℕ → Bool
is_equal none ms = false
is_equal (some r) ms = r.multi && is_listed r.adds ms

abbrev pub at_index : List Reqpkg → Option ℕ → Option Reqpkg
at_index reqpkgs none = none
at_index reqpkgs (some i) = get_elem? reqpkgs i

-- An element of the cache; `none` is a NULL.
pub record Cached : Type 0 where
  pub key : Bytes
  pub matches : Option (List ℕ)

unfoldable pub cache_get : Bytes → List Cached → Option Cached
cache_get key [] = none
cache_get key (c ∷ cs) = let rest = cache_get key cs in if str_eq c.key key then some c else rest

-- An element of `_reqpkgs_cache`.
pub record Known : Type 0 where
  pub id : Bytes
  pub reqpkgs : List Reqpkg

unfoldable pub known_get : Bytes → List Known → Option Known
known_get id [] = none
known_get id (k ∷ ks) = let rest = known_get id ks in if str_eq k.id id then some k else rest

-- What `process_reqs` changes: the array, the cache, the number of errors and the texts of the
-- unmatched requirements of the package, if they are asked for.
pub record Deps : Type 0 where
  pub reqpkgs : List Reqpkg
  pub cache : List Cached
  pub nerrors : ℕ
  pub unreqs : Option (List Bytes)

abbrev noted : Option (List Bytes) → Bytes → Option (List Bytes)
noted none text = none
noted (some texts) text = some (texts ++ text ∷ [])

module _ (push : List Reqpkg → Reqpkg → List Reqpkg) (bsearch : List Reqpkg → ℕ → Option ℕ) where
  abbrev add_found : Option ℕ → List Reqpkg → Capreq → ℕ → List Reqpkg
  add_found none reqpkgs req pkg = push reqpkgs (add_flags req (single pkg))
  add_found (some i) reqpkgs req pkg = change_at i (add_flags req) reqpkgs

  unfoldable pub add_reqpkg : List Reqpkg → Capreq → ℕ → List Reqpkg
  unfolding add_flags change_at
  add_reqpkg reqpkgs req pkg = add_found (bsearch reqpkgs pkg) reqpkgs req pkg

  unfoldable pub process_req : List Reqpkg → Capreq → List ℕ → List Reqpkg
  unfolding add_reqpkg rps_of is_listed
  process_req reqpkgs req [] = reqpkgs
  process_req reqpkgs req (m ∷ []) = add_reqpkg reqpkgs req m
  process_req reqpkgs req (m ∷ n ∷ ms) =
      if is_equal (at_index reqpkgs (bsearch reqpkgs m)) (n ∷ ms)
      then reqpkgs
      else push reqpkgs (multi_group req m (n ∷ ms))

  module _ (printed : Capreq → Bytes)
      (find_match : Option ℕ → Capreq → Option (List ℕ) → Bool → Found) where
    abbrev or_new : Option (List ℕ) → Option (List ℕ)
    or_new none = some []
    or_new (some ms) = some ms

    -- The array that is put into the cache.
    unfoldable pub looked_up : ℕ → Bool → Capreq → Option (List ℕ)
    looked_up pkg strict req =
        let r = find_match (some pkg) req none strict in
        if r.found then or_new r.packages else r.packages

    -- The rest of the body, with the array of matches.
    unfoldable pub with_matches : Option (List ℕ) → Capreq → Deps → Deps
    with_matches none req s = record s {
      nerrors = suc s.nerrors;
      unreqs = noted s.unreqs (printed req);
    }
    with_matches (some ms) req s = record s { reqpkgs = process_req s.reqpkgs req ms }

    unfoldable pub by_cache : Option Cached → ℕ → Bool → Capreq → Deps → Deps
    unfolding with_matches
    by_cache (some c) pkg strict req s = with_matches c.matches req s
    by_cache none pkg strict req s =
        let ms = looked_up pkg strict req in
        with_matches ms req
          (record s { cache = record { key = printed req; matches = ms } ∷ s.cache })

    unfoldable pub process_loop : ℕ → Bool → List Capreq → Deps → Deps
    process_loop pkg strict [] s = s
    process_loop pkg strict (req ∷ reqs) s =
        let next =
          if req.flags.rpmlib
          then s
          else by_cache (cache_get (printed req) s.cache) pkg strict req s in
        process_loop pkg strict reqs next

    unfoldable pub process_reqs : ℕ → Bool → Option (List Capreq) → Deps → Deps
    process_reqs pkg strict none s = s
    process_reqs pkg strict (some reqs) s = process_loop pkg strict reqs s

    -- The array that `pkgset_get_required_packages_x` returns, with the cache and the unmatched.
    abbrev or_null : List Reqpkg → Option (List Reqpkg)
    or_null [] = none
    or_null (r ∷ rs) = some (r ∷ rs)

    unfoldable pub pkgset_get_required_packages_x :
        ℕ → Option (List Capreq) → List Cached → Option (List Bytes) → Option (List Reqpkg) × Deps
    pkgset_get_required_packages_x pkg reqs cache unreqs =
        let s =
          process_reqs pkg true reqs
            (record { reqpkgs = []; cache = cache; nerrors = 0; unreqs = unreqs }) in
        (or_null s.reqpkgs, s)

    abbrev noted_array : Option (List Reqpkg) → Bytes → List Known → List Known
    noted_array none id known = known
    noted_array (some reqpkgs) id known = record { id = id; reqpkgs = reqpkgs } ∷ known

    abbrev by_known :
        Option Known
        → Bytes
        → ℕ
        → Option (List Capreq)
        → List Known
        → List Cached
        → Option (List Reqpkg) × (List Known × List Cached)
    by_known (some k) id pkg reqs known cache = (some k.reqpkgs, (known, cache))
    by_known none id pkg reqs known cache =
        let r = pkgset_get_required_packages_x pkg reqs cache none in
        (r.0, (noted_array r.0 id known, r.1.cache))

    -- `pkgset_get_required_packages`; `id` is the `pkg_id` of the package. An array that is NULL is
    -- not kept.
    unfoldable pub pkgset_get_required_packages :
        Bytes
        → ℕ
        → Option (List Capreq)
        → List Known
        → List Cached
        → Option (List Reqpkg) × (List Known × List Cached)
    unfolding known_get pkgset_get_required_packages_x
    pkgset_get_required_packages id pkg reqs known cache =
        by_known (known_get id known) id pkg reqs known cache
