-- ===== src/Required/Cache.antt =====
-- `_req_cache`: what it leaves as it is, and what not.
use mathlib.Core.Path.{subst}
use poldek.Base.{
  ℕ, ◌≡◌, refl, sym, ap, ◌∙◌, inl, inr, Bool, true, false, Option, none, some, List, [], ◌∷◌, All,
  if◌then◌else◌, Bool-cases,
}
use poldek.Base.Int.{is_zero}
use poldek.Base.Bytes.{Bytes, str_eq, strcmp_eq, strcmp_refl}
use poldek.Capreq.{Capreq}
use poldek.Order.{Reqpkg}
use poldek.Require.{Found}
use poldek.Required.{
  Cached, Deps, cache_get, looked_up, with_matches, by_cache, process_loop, process_reqs,
  process_req,
}

-- A state without its cache.
abbrev pub forget : Deps → Deps
forget s = record s { cache = [] }

abbrev or_else : Cached → Option Cached → Cached
or_else d none = d
or_else d (some c) = c

cache_get-here :
    (c : Cached) (cs : List Cached) (key : Bytes)
    → str_eq c.key key ≡ true
    → cache_get key (c ∷ cs) ≡ some c
unfolding cache_get
cache_get-here c cs key h = rw (cache_get, h) refl

cache_get-below :
    (c : Cached) (cs : List Cached) (key : Bytes)
    → str_eq c.key key ≡ false
    → cache_get key (c ∷ cs) ≡ cache_get key cs
unfolding cache_get
cache_get-below c cs key h = rw (cache_get, h) refl

module _ (push : List Reqpkg → Reqpkg → List Reqpkg) (bsearch : List Reqpkg → ℕ → Option ℕ)
    (printed : Capreq → Bytes)
    (find_match : Option ℕ → Capreq → Option (List ℕ) → Bool → Found) where
  -- The requirements one by one, each with a search of its own.
  unfoldable pub plain : ℕ → Bool → List Capreq → Deps → Deps
  plain pkg strict [] s = s
  plain pkg strict (req ∷ reqs) s =
      let next =
        if req.flags.rpmlib
        then s
        else with_matches push bsearch printed find_match
            (looked_up push bsearch printed find_match pkg strict req) req s in
      plain pkg strict reqs next

  module _ (pkg : ℕ) (strict : Bool) where
    abbrev looks : Capreq → Option (List ℕ)
    looks req = looked_up push bsearch printed find_match pkg strict req

    -- Requirements with one text are searched for with one result.
    abbrev pub IsConsistent : List Capreq → Type 0
    IsConsistent [] = Unit
    IsConsistent (r ∷ rs) =
        All (λ q. printed r ≡ printed q → looks r ≡ looks q) rs × IsConsistent rs

    -- The cache holds what the search would find.
    abbrev pub IsRight : List Capreq → List Cached → Type 0
    IsRight reqs cs =
        All (λ r. (c : Cached) → cache_get (printed r) cs ≡ some c → c.matches ≡ looks r) reqs

    forget-with_matches :
        (ms : Option (List ℕ)) (req : Capreq) (s : Deps)
        → forget (with_matches push bsearch printed find_match ms req s)
          ≡ with_matches push bsearch printed find_match ms req (forget s)
    unfolding with_matches
    forget-with_matches none req s = refl
    forget-with_matches (some ms) req s = refl

    IsRight-cons :
        (req : Capreq) (reqs : List Capreq) (cs : List Cached)
        → All (λ q. printed req ≡ printed q → looks req ≡ looks q) reqs
        → IsRight reqs cs
        → IsRight reqs (record { key = printed req; matches = looks req } ∷ cs)
    IsRight-cons req [] cs h right = tt
    IsRight-cons req (q ∷ reqs) cs h right = (
      λ c e. elim (Bool-cases (str_eq (printed req) (printed q))) [
        | inl same ↦
            let new : Cached = record { key = printed req; matches = looks req } in
            let met : c ≡ new = ap (or_else new) (sym e ∙ cache_get-here new cs (printed q) same) in
            ap (λ d. d.matches) met ∙ h.0 (strcmp_eq (printed req) (printed q) same)
        | inr other ↦ right.0 c (
            sym (
              cache_get-below (record { key = printed req; matches = looks req }) cs (printed q)
                other)
            ∙ e)
      ],
      IsRight-cons req reqs cs h.1 right.1,
    )

    cache-with_matches :
        (ms : Option (List ℕ)) (req : Capreq) (s : Deps)
        → (with_matches push bsearch printed find_match ms req s).cache ≡ s.cache
    unfolding with_matches
    cache-with_matches none req s = refl
    cache-with_matches (some ms) req s = refl

    -- One requirement by the cache: the state is that of a search, and the cache stays right.
    by_cache-plain :
        (o : Option Cached) (req : Capreq) (reqs : List Capreq) (s : Deps)
        → cache_get (printed req) s.cache ≡ o
        → IsConsistent (req ∷ reqs)
        → IsRight (req ∷ reqs) s.cache
        → (forget (by_cache push bsearch printed find_match o pkg strict req s)
            ≡ with_matches push bsearch printed find_match (looks req) req (forget s))
          × IsRight reqs (by_cache push bsearch printed find_match o pkg strict req s).cache
    unfolding by_cache
    by_cache-plain (some c) req reqs s e consistent right = (
      forget-with_matches c.matches req s
          ∙ ap (λ ms. with_matches push bsearch printed find_match ms req (forget s)) (right.0 c e),
      subst (IsRight reqs) (sym (cache-with_matches c.matches req s)) right.1,
    )
    by_cache-plain none req reqs s e consistent right =
        let ms = looks req in
        let t : Deps = record s { cache = record { key = printed req; matches = ms } ∷ s.cache } in
        (
          forget-with_matches ms req t,
          subst (IsRight reqs) (sym (cache-with_matches ms req t))
              (IsRight-cons req reqs s.cache consistent.0 right.1),
        )

    process_loop-plain :
        (reqs : List Capreq) (s : Deps)
        → IsConsistent reqs
        → IsRight reqs s.cache
        → forget (process_loop push bsearch printed find_match pkg strict reqs s)
          ≡ plain pkg strict reqs (forget s)
    unfolding process_loop plain
    process_loop-plain [] s consistent right = refl
    process_loop-plain (req ∷ reqs) s consistent right = elim (Bool-cases req.flags.rpmlib) [
      | inl skipped ↦
          ap
            (λ b. forget (
              process_loop push bsearch printed find_match pkg strict reqs (
                if b
                then s
                else by_cache push bsearch printed find_match (cache_get (printed req) s.cache) pkg
                    strict req s)))
            skipped
          ∙ process_loop-plain reqs s consistent.1 right.1
          ∙ ap
              (λ b. plain pkg strict reqs (
                if b
                then forget s
                else with_matches push bsearch printed find_match (looks req) req (forget s)))
              (sym skipped)
      | inr taken ↦
          let o = cache_get (printed req) s.cache in
          let step = by_cache-plain o req reqs s refl consistent right in
          ap
            (λ b. forget (
              process_loop push bsearch printed find_match pkg strict reqs
                (if b then s else by_cache push bsearch printed find_match o pkg strict req s)))
            taken
          ∙ process_loop-plain reqs (by_cache push bsearch printed find_match o pkg strict req s)
              consistent.1 step.1
          ∙ ap (plain pkg strict reqs) step.0
          ∙ ap
              (λ b. plain pkg strict reqs (
                if b
                then forget s
                else with_matches push bsearch printed find_match (looks req) req (forget s)))
              (sym taken)
    ]

    -- When requirements of the package with one text are searched for with one result, and what the
    -- cache holds for their texts is that result, `process_reqs` leaves the array, the number of
    -- errors and the unmatched texts as searching anew for each requirement that is not an rpmlib
    -- one would.
    pub process_reqs-plain :
        (reqs : List Capreq) (s : Deps)
        → IsConsistent reqs
        → IsRight reqs s.cache
        → forget (process_reqs push bsearch printed find_match pkg strict (some reqs) s)
          ≡ plain pkg strict reqs (forget s)
    unfolding process_reqs
    process_reqs-plain = process_loop-plain

  process_one :
      (p : ℕ) (strict : Bool) (req : Capreq) (s : Deps) (o : Option Cached)
      → req.flags.rpmlib ≡ false
      → cache_get (printed req) s.cache ≡ o
      → process_reqs push bsearch printed find_match p strict (some (req ∷ [])) s
        ≡ by_cache push bsearch printed find_match o p strict req s
  unfolding process_reqs process_loop
  process_one p strict req s o library e =
      ap
        (λ b.
          if b
          then s
          else by_cache push bsearch printed find_match (cache_get (printed req) s.cache) p strict
              req s)
        library
      ∙ ap (λ o. by_cache push bsearch printed find_match o p strict req s) e

  -- The state after a package has been found to satisfy its own requirement.
  abbrev self_noted : Capreq → Deps → Deps
  self_noted req s = record s { cache = record { key = printed req; matches = some [] } ∷ s.cache }

  by_cache_self :
      (a : ℕ) (strict : Bool) (req : Capreq) (s : Deps)
      → find_match (some a) req none strict ≡ record { found = true; packages = none }
      → by_cache push bsearch printed find_match none a strict req s ≡ self_noted req s
  unfolding by_cache looked_up with_matches process_req
  by_cache_self a strict req s self =
      let found : looked_up push bsearch printed find_match a strict req ≡ some [] = rw self refl in
      ap
        (λ ms.
          with_matches push bsearch printed find_match ms req
            (record s { cache = record { key = printed req; matches = ms } ∷ s.cache }))
        found

  -- Once a package that satisfies its own requirement has been processed for it, with the text not
  -- in the cache before, any other package is processed for the requirement without a change of the
  -- state: it gains no required package and no error, whatever a search for that package finds.
  pub process_reqs-self_reused :
      (a b : ℕ) (strict : Bool) (req : Capreq) (s : Deps)
      → req.flags.rpmlib ≡ false
      → cache_get (printed req) s.cache ≡ none
      → find_match (some a) req none strict ≡ record { found = true; packages = none }
      → let t = process_reqs push bsearch printed find_match a strict (some (req ∷ [])) s in
        (t.reqpkgs ≡ s.reqpkgs)
        × (process_reqs push bsearch printed find_match b strict (some (req ∷ [])) t ≡ t)
  unfolding by_cache with_matches process_req
  process_reqs-self_reused a b strict req s library new self =
      let first = process_one a strict req s none library new ∙ by_cache_self a strict req s self in
      let c : Cached = record { key = printed req; matches = some [] } in
      let same : str_eq (printed req) (printed req) ≡ true =
        ap is_zero (strcmp_refl (printed req)) in
      let again : process_reqs push bsearch printed find_match b strict (some (req ∷ []))
            (self_noted req s)
          ≡ self_noted req s =
        process_one b strict req (self_noted req s) (some c) library
          (cache_get-here c s.cache (printed req) same) in
      (
        ap (λ u. u.reqpkgs) first,
        subst (λ u. process_reqs push bsearch printed find_match b strict (some (req ∷ [])) u ≡ u)
            (sym first) again,
      )
