-- ===== src/Match/Requires.antt =====
-- pkg.c: `find_req` and `pkg_requires_cap`, the requirement of a package that a capability meets.
use poldek.Base.{
  ℕ, zero, suc, ◌≡◌, refl, sym, ap, ◌∙◌, ◌⊎◌, inl, inr, Bool, true, false, not, ◌&&◌, ◌||◌, Option,
  none, some, List, [], ◌∷◌, arith, drop, if◌then◌else◌, Bool-cases,
}
use mathlib.Core.Path.{subst}
use poldek.Base.Int.{ℤ}
use poldek.Base.Bytes.{Bytes, str_eq, strcmp_eq}
use poldek.Capreq.{Capreq, capreq_versioned}
use poldek.Pkg.{Pkg}
use poldek.Match.{cap_match_req}
use poldek.Match.Search.{IsSorted, IsFirst, IsFind}
use poldek.Match.Caps.{list_of}

module _ (vercmp : Bytes → Bytes → ℤ) (promote_epoch : Bool) where
  -- The loop of `find_req`: a later requirement of the name that the best one so far matches
  -- takes its place.
  best_req : Capreq → List Capreq → Capreq → Capreq
  best_req rreq [] provided = rreq
  best_req rreq (req ∷ reqs) provided =
      let next = if cap_match_req vercmp promote_epoch req rreq true then req else rreq in
      let rest = best_req next reqs provided in
      if not (str_eq req.name provided.name) then rreq else rest

  from_first : List Capreq → Capreq → Option Capreq
  from_first [] provided = none
  from_first (req ∷ reqs) provided = some (best_req req reqs provided)

  module _ (find : List Capreq → Bytes → Option ℕ) where
    req_found : Option ℕ → List Capreq → Capreq → Option Capreq
    req_found none reqs provided = none
    req_found (some n) reqs provided = from_first (drop n reqs) provided

    find_req : Option (List Capreq) → Capreq → Option Capreq
    find_req none provided = none
    find_req (some reqs) provided = req_found (find reqs provided.name) reqs provided

    -- The tests on the requirement that was found.
    accept : Option Capreq → Capreq → Option Capreq
    accept none provided = none
    accept (some rreq) provided =
        if not (capreq_versioned provided)
        then some rreq
        else if not (capreq_versioned rreq)
        then none
        else if cap_match_req vercmp promote_epoch provided rreq true
        then some rreq
        else none

    unfoldable pub pkg_requires_cap : Pkg → Capreq → Option Capreq
    unfolding best_req from_first req_found find_req accept
    pkg_requires_cap pkg provided = accept (find_req pkg.reqs provided) provided

-- The requirement is one of the list.
abbrev pub IsIn : Capreq → List Capreq → Type 0
IsIn r [] = ⊥
IsIn r (c ∷ cs) = (r ≡ c) ⊎ IsIn r cs

-- A requirement of the list that has the name.
abbrev IsNamed : Bytes → List Capreq → Capreq → Type 0
IsNamed name cs r = (r.name ≡ name) × IsIn r cs

IsIn-skip : (r a b : Capreq) (cs : List Capreq) → IsIn r (a ∷ cs) → IsIn r (a ∷ b ∷ cs)
IsIn-skip r a b cs (inl e) = inl e
IsIn-skip r a b cs (inr h) = inr (inr h)

module _ (vercmp : Bytes → Bytes → ℤ) (promote_epoch : Bool) (provided : Capreq) where
  module _ (rreq req : Capreq) (reqs : List Capreq) where
    best_req-other :
        str_eq req.name provided.name ≡ false
        → best_req vercmp promote_epoch rreq (req ∷ reqs) provided ≡ rreq
    unfolding best_req
    best_req-other other = rw other

    best_req-better :
        str_eq req.name provided.name ≡ true
        → cap_match_req vercmp promote_epoch req rreq true ≡ true
        → best_req vercmp promote_epoch rreq (req ∷ reqs) provided
          ≡ best_req vercmp promote_epoch req reqs provided
    unfolding best_req
    best_req-better same better = rw (same, better)

    best_req-worse :
        str_eq req.name provided.name ≡ true
        → cap_match_req vercmp promote_epoch req rreq true ≡ false
        → best_req vercmp promote_epoch rreq (req ∷ reqs) provided
          ≡ best_req vercmp promote_epoch rreq reqs provided
    unfolding best_req
    best_req-worse same worse = rw (same, worse)

  best_req-IsNamed :
      (rreq : Capreq) (reqs : List Capreq)
      → rreq.name ≡ provided.name
      → IsNamed provided.name (rreq ∷ reqs) (best_req vercmp promote_epoch rreq reqs provided)
  unfolding best_req
  best_req-IsNamed rreq [] named = (named, inl refl)
  best_req-IsNamed rreq (req ∷ reqs) named =
      let Here = λ (x : Capreq). IsNamed provided.name (rreq ∷ req ∷ reqs) x in
      elim (Bool-cases (str_eq req.name provided.name)) [
        | inr other ↦ subst Here (sym (best_req-other rreq req reqs other)) (named, inl refl)
        | inl same ↦ elim (Bool-cases (cap_match_req vercmp promote_epoch req rreq true)) [
          | inl better ↦
              let (name, there) =
                best_req-IsNamed req reqs (strcmp_eq req.name provided.name same) in
              subst Here (sym (best_req-better rreq req reqs same better)) (name, inr there)
          | inr worse ↦
              let (name, there) = best_req-IsNamed rreq reqs named in
              subst Here (sym (best_req-worse rreq req reqs same worse)) (
                name,
                IsIn-skip (best_req vercmp promote_epoch rreq reqs provided) rreq req reqs there,
              )
        ]
      ]

  module _ (find : List Capreq → Bytes → Option ℕ) where
    abbrev Finds : List Capreq → Option Capreq → Type 0
    Finds reqs none = Unit
    Finds reqs (some r) = IsNamed provided.name reqs r

    Finds-skip :
        (req : Capreq) (reqs : List Capreq) (o : Option Capreq)
        → Finds reqs o
        → Finds (req ∷ reqs) o
    Finds-skip req reqs none h = tt
    Finds-skip req reqs (some r) h = (h.0, inr h.1)

    from_first-Finds :
        (n : ℕ) (reqs : List Capreq)
        → IsFirst provided.name reqs (some n)
        → Finds reqs (from_first vercmp promote_epoch (drop n reqs) provided)
    unfolding from_first
    from_first-Finds n [] h = absurd h
    from_first-Finds zero (req ∷ reqs) h =
        best_req-IsNamed req reqs (strcmp_eq req.name provided.name h)
    from_first-Finds (suc n) (req ∷ reqs) h =
        Finds-skip req reqs (from_first vercmp promote_epoch (drop n reqs) provided)
          (from_first-Finds n reqs h.1)

    req_found-Finds :
        (o : Option ℕ) (reqs : List Capreq)
        → IsFirst provided.name reqs o
        → Finds reqs (req_found vercmp promote_epoch find o reqs provided)
    unfolding req_found
    req_found-Finds none reqs h = tt
    req_found-Finds (some n) reqs h = from_first-Finds n reqs h

    accepted :
        (x r : Capreq)
        → accept vercmp promote_epoch find (some x) provided ≡ some r
        → (x ≡ r)
          × ((not (capreq_versioned provided)
                || (capreq_versioned r && cap_match_req vercmp promote_epoch provided r true))
              ≡ true)
    unfolding accept
    accepted x r h = ground arith

    accept_sound :
        (pkg : Pkg) (r : Capreq) (o : Option Capreq)
        → Finds (list_of pkg.reqs) o
        → accept vercmp promote_epoch find o provided ≡ some r
        → (r.name ≡ provided.name)
          × IsIn r (list_of pkg.reqs)
          × ((not (capreq_versioned provided)
                || (capreq_versioned r && cap_match_req vercmp promote_epoch provided r true))
              ≡ true)
    unfolding accept
    accept_sound pkg r none f h = cc
    accept_sound pkg r (some x) f h =
        let (same, met) = accepted x r h in
        (
          ap (λ (c : Capreq). c.name) (sym same) ∙ f.0,
          subst (λ c. IsIn c (list_of pkg.reqs)) same f.1,
          met,
        )

    find_req-Finds :
        (reqs : Option (List Capreq))
        → IsFind find
        → IsSorted (list_of reqs)
        → Finds (list_of reqs) (find_req vercmp promote_epoch find reqs provided)
    unfolding find_req
    find_req-Finds none law sorted = tt
    find_req-Finds (some reqs) law sorted =
        req_found-Finds (find reqs provided.name) reqs (law reqs provided.name sorted)

-- What `pkg_requires_cap` returns is a requirement of the package with the name of the capability;
-- if the capability is versioned, the requirement is versioned too and the capability meets it.
pub pkg_requires_cap_sound :
    (vercmp : Bytes → Bytes → ℤ) (promote_epoch : Bool) (find : List Capreq → Bytes → Option ℕ)
    (pkg : Pkg) (provided r : Capreq)
    → IsFind find
    → IsSorted (list_of pkg.reqs)
    → pkg_requires_cap vercmp promote_epoch find pkg provided ≡ some r
    → (r.name ≡ provided.name)
      × IsIn r (list_of pkg.reqs)
      × ((not (capreq_versioned provided)
            || (capreq_versioned r && cap_match_req vercmp promote_epoch provided r true))
          ≡ true)
pkg_requires_cap_sound vercmp promote_epoch find pkg provided r law sorted h =
    accept_sound vercmp promote_epoch provided find pkg r
      (find_req vercmp promote_epoch find pkg.reqs provided)
      (find_req-Finds vercmp promote_epoch provided find pkg.reqs law sorted)
      (unfold pkg_requires_cap in h)
