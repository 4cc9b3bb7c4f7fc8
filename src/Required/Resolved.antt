-- ===== src/Required/Resolved.antt =====
-- `process_reqs`: every requirement that packages satisfy has its element, and every element its
-- requirement.
use poldek.Base.{
  ℕ, ◌≡◌, refl, sym, ap, ◌∙◌, inl, inr, Bool, true, false, ◌&&◌, Option, none, some, List, [], ◌∷◌,
  All, arith, if◌then◌else◌, Bool-cases,
}
use mathlib.Core.Path.{subst}
use poldek.Base.Bytes.{Bytes}
use poldek.Capreq.{Capreq}
use poldek.Order.{Reqpkg}
use poldek.Arrays.{Some, IsPush, IsBsearch, Some-get_elem}
use poldek.Require.{Found}
use poldek.Required.{
  Deps, add_flags, single, multi_group, is_listed, is_equal, at_index, process_req, looked_up,
  with_matches, process_reqs,
}
use poldek.Required.Cache.{plain, forget, IsConsistent, IsRight, process_reqs-plain}
use poldek.Required.Groups.{
  Covers, Covers-add_flags, is_listed-rps_of, pkgs_of_rps-rps_of, pkgs_of, Some-add_reqpkg,
  All-add_reqpkg, Covers-add_reqpkg,
}

module _ (push : List Reqpkg → Reqpkg → List Reqpkg) (bsearch : List Reqpkg → ℕ → Option ℕ)
    (same : ℕ → ℕ → Bool) (pushes : IsPush push)
    (searches : IsBsearch (λ r p. same r.rp.pkg p) bsearch)
    (same_refl : (p : ℕ) → same p p ≡ true) where
  -- What held of some element holds of some after `process_req`.
  Some-process_req :
      (P : Reqpkg → Type 0) (rs : List Reqpkg) (req : Capreq) (ms : List ℕ)
      → ((r : Reqpkg) → P r → P (add_flags req r))
      → Some P rs
      → Some P (process_req push bsearch rs req ms)
  unfolding process_req
  Some-process_req P rs req [] keeps h = h
  Some-process_req P rs req (m ∷ []) keeps h =
      Some-add_reqpkg push bsearch same pushes searches same_refl P rs req m keeps h
  Some-process_req P rs req (m ∷ n ∷ ms) keeps h =
      elim (Bool-cases (is_equal (at_index rs (bsearch rs m)) (n ∷ ms))) [
        | inl equal ↦ rw (equal) h
        | inr new ↦ rw (new) ((pushes P rs (multi_group req m (n ∷ ms))).0 (inr h))
      ]

  All-process_req :
      (P : Reqpkg → Type 0) (rs : List Reqpkg) (req : Capreq) (ms : List ℕ)
      → ((r : Reqpkg) → P r → P (add_flags req r))
      → ((r : Reqpkg) → pkgs_of r ≡ ms → P r)
      → All P rs
      → All P (process_req push bsearch rs req ms)
  unfolding process_req add_flags
  All-process_req P rs req [] keeps made h = h
  All-process_req P rs req (m ∷ []) keeps made h =
      All-add_reqpkg push bsearch same pushes searches same_refl P rs req m keeps
        (made (add_flags req (single m)) refl) h
  All-process_req P rs req (m ∷ n ∷ ms) keeps made h =
      elim (Bool-cases (is_equal (at_index rs (bsearch rs m)) (n ∷ ms))) [
        | inl equal ↦ rw (equal) h
        | inr new ↦ rw (new) (
            (pushes P rs (multi_group req m (n ∷ ms))).1 (
              made (multi_group req m (n ∷ ms))
                  (ap (λ xs. m ∷ xs) (pkgs_of_rps-rps_of req (n ∷ ms))),
              h,
            ))
      ]

  -- The element that the search found, when its list is the one that is looked for.
  Covers-equal :
      (rs : List Reqpkg) (m n : ℕ) (ms : List ℕ) (o : Option ℕ)
      → bsearch rs m ≡ o
      → is_equal (at_index rs o) (n ∷ ms) ≡ true
      → Some (Covers same (m ∷ n ∷ ms)) rs
  Covers-equal rs m n ms none e h = absurd (ground (arith, h))
  Covers-equal rs m n ms (some i) e h =
      let (r, (at, equal)) = searches rs m i e in
      let listed : (r.multi && is_listed r.adds (n ∷ ms)) ≡ true =
        ap (λ o. is_equal o (n ∷ ms)) (sym at) ∙ h in
      Some-get_elem (Covers same (m ∷ n ∷ ms)) rs i r at
        (equal, (ground (arith, listed), ground (arith, listed)))

  Covers-process_req :
      (rs : List Reqpkg) (req : Capreq) (m : ℕ) (ms : List ℕ)
      → Some (Covers same (m ∷ ms)) (process_req push bsearch rs req (m ∷ ms))
  unfolding process_req
  Covers-process_req rs req m [] =
      Covers-add_reqpkg push bsearch same pushes searches same_refl rs req m
  Covers-process_req rs req m (n ∷ ms) =
      elim (Bool-cases (is_equal (at_index rs (bsearch rs m)) (n ∷ ms))) [
        | inl equal ↦ rw (equal) (Covers-equal rs m n ms (bsearch rs m) refl equal)
        | inr new ↦ rw (new) (
            (pushes (Covers same (m ∷ n ∷ ms)) rs (multi_group req m (n ∷ ms))).0
              (inl (same_refl m, (refl, is_listed-rps_of req (n ∷ ms)))))
      ]

  module _ (printed : Capreq → Bytes)
      (find_match : Option ℕ → Capreq → Option (List ℕ) → Bool → Found) (pkg : ℕ)
      (strict : Bool) where
    -- The packages that the search finds for a requirement.
    abbrev pub finds : Capreq → Option (List ℕ)
    finds req = looked_up push bsearch printed find_match pkg strict req

    abbrev IsMet? : Bool → Option (List ℕ) → List Reqpkg → Type 0
    IsMet? true ms rs = Unit
    IsMet? false none rs = Unit
    IsMet? false (some []) rs = Unit
    IsMet? false (some (m ∷ ms)) rs = Some (Covers same (m ∷ ms)) rs

    -- If packages were found for the requirement, and it is not an rpmlib one, an element does for
    -- them.
    abbrev pub IsMet : List Reqpkg → Capreq → Type 0
    IsMet rs req = IsMet? req.flags.rpmlib (finds req) rs

    -- The packages of the element are those that were found for a requirement.
    abbrev pub IsFrom : List Capreq → Reqpkg → Type 0
    IsFrom reqs r = Some (λ req. (req.flags.rpmlib ≡ false) × (finds req ≡ some (pkgs_of r))) reqs

    abbrev run : List Capreq → Deps → Deps
    run = plain push bsearch printed find_match pkg strict

    abbrev next : Capreq → Deps → Deps
    next req s = with_matches push bsearch printed find_match (finds req) req s

    module _ (P : Reqpkg → Type 0)
        (keeps : (req : Capreq) (r : Reqpkg) → P r → P (add_flags req r)) where
      Some-next :
          (ms : Option (List ℕ)) (req : Capreq) (s : Deps)
          → Some P s.reqpkgs
          → Some P (with_matches push bsearch printed find_match ms req s).reqpkgs
      unfolding with_matches
      Some-next none req s h = h
      Some-next (some ms) req s h = Some-process_req P s.reqpkgs req ms (keeps req) h

      Some-run : (reqs : List Capreq) (s : Deps) → Some P s.reqpkgs → Some P (run reqs s).reqpkgs
      unfolding plain
      Some-run [] s h = h
      Some-run (req ∷ reqs) s h =
          Some-run reqs (if req.flags.rpmlib then s else next req s) (either req.flags.rpmlib)
        where
          either : (b : Bool) → Some P (if b then s else next req s).reqpkgs
          either true = h
          either false = Some-next (finds req) req s h

      All-next :
          (ms : Option (List ℕ)) (req : Capreq) (s : Deps)
          → ((r : Reqpkg) → ms ≡ some (pkgs_of r) → P r)
          → All P s.reqpkgs
          → All P (with_matches push bsearch printed find_match ms req s).reqpkgs
      unfolding with_matches
      All-next none req s made h = h
      All-next (some ms) req s made h =
          All-process_req P s.reqpkgs req ms (keeps req) (λ r e. made r (ap some (sym e))) h

      All-run :
          (reqs : List Capreq) (s : Deps)
          → All
              (λ req. (r : Reqpkg) → req.flags.rpmlib ≡ false → finds req ≡ some (pkgs_of r) → P r)
              reqs
          → All P s.reqpkgs
          → All P (run reqs s).reqpkgs
      unfolding plain
      All-run [] s made h = h
      All-run (req ∷ reqs) s made h =
          All-run reqs (if req.flags.rpmlib then s else next req s) made.1
            (either req.flags.rpmlib refl)
        where
          either : (b : Bool) → req.flags.rpmlib ≡ b → All P (if b then s else next req s).reqpkgs
          either true e = h
          either false e = All-next (finds req) req s (λ r f. made.0 r e f) h

    IsMet?-now :
        (b : Bool) (ms : Option (List ℕ)) (req : Capreq) (s : Deps)
        → IsMet? b ms
            (if b then s else with_matches push bsearch printed find_match ms req s).reqpkgs
    unfolding with_matches
    IsMet?-now true ms req s = tt
    IsMet?-now false none req s = tt
    IsMet?-now false (some []) req s = tt
    IsMet?-now false (some (m ∷ ms)) req s = Covers-process_req s.reqpkgs req m ms

    IsMet?-run :
        (b : Bool) (ms : Option (List ℕ)) (reqs : List Capreq) (s : Deps)
        → IsMet? b ms s.reqpkgs
        → IsMet? b ms (run reqs s).reqpkgs
    IsMet?-run true ms reqs s h = tt
    IsMet?-run false none reqs s h = tt
    IsMet?-run false (some []) reqs s h = tt
    IsMet?-run false (some (m ∷ ms)) reqs s h =
        Some-run (Covers same (m ∷ ms)) (λ req r k. Covers-add_flags same (m ∷ ms) req r k) reqs s h

    IsMet-run : (reqs : List Capreq) (s : Deps) → All (IsMet (run reqs s).reqpkgs) reqs
    unfolding plain
    IsMet-run [] s = tt
    IsMet-run (req ∷ reqs) s =
        let t : Deps = if req.flags.rpmlib then s else next req s in
        (
          IsMet?-run req.flags.rpmlib (finds req) reqs t
              (IsMet?-now req.flags.rpmlib (finds req) req s),
          IsMet-run reqs t,
        )

    made-IsFrom :
        (all reqs : List Capreq)
        → ((r : Reqpkg) → IsFrom reqs r → IsFrom all r)
        → All
            (λ req.
              (r : Reqpkg) → req.flags.rpmlib ≡ false → finds req ≡ some (pkgs_of r) → IsFrom all r)
            reqs
    made-IsFrom all [] within = tt
    made-IsFrom all (req ∷ reqs) within =
        (λ r library e. within r (inl (library, e)), made-IsFrom all reqs (λ r k. within r (inr k)))

    IsFrom-add_flags :
        (reqs : List Capreq) (req : Capreq) (r : Reqpkg)
        → IsFrom reqs r
        → IsFrom reqs (add_flags req r)
    unfolding add_flags
    IsFrom-add_flags reqs req r h = h

    -- After `process_reqs` on an empty array, for every requirement that is not an rpmlib one and
    -- for which packages were found, some element has a first package with the `pkg_id` of the first
    -- of these packages and, when they are several, is a MULTI one whose alternatives are the next
    -- of them, not always all. The packages of every element are those that were found for a
    -- requirement that is not an rpmlib one. It is assumed that pushing onto the array keeps what it
    -- has, that its search finds only elements with the `pkg_id` asked for, that requirements with
    -- one text are searched for with one result, and that what the cache holds for their texts is
    -- that result.
    pub process_reqs-IsMet :
        (reqs : List Capreq) (s : Deps)
        → IsConsistent push bsearch printed find_match pkg strict reqs
        → IsRight push bsearch printed find_match pkg strict reqs s.cache
        → s.reqpkgs ≡ []
        → let rs =
            (process_reqs push bsearch printed find_match pkg strict (some reqs) s).reqpkgs in
          All (IsMet rs) reqs × All (IsFrom reqs) rs
    process_reqs-IsMet reqs s consistent right empty =
        let P : List Reqpkg → Type 0 = λ rs. All (IsMet rs) reqs × All (IsFrom reqs) rs in
        let begun : All (IsFrom reqs) s.reqpkgs = subst (All (IsFrom reqs)) (sym empty) tt in
        subst P
          (sym (
            ap (λ t. t.reqpkgs)
              (process_reqs-plain push bsearch printed find_match pkg strict reqs s consistent
                right)))
          (
            IsMet-run reqs (forget s),
            All-run (IsFrom reqs) (IsFrom-add_flags reqs) reqs (forget s)
                (made-IsFrom reqs reqs (λ r k. k)) begun,
          )
