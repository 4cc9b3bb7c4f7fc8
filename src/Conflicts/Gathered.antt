-- ===== src/Conflicts/Gathered.antt =====
-- What `pkgset_get_conflicted_packages` and `pkgset_get_requiredby_packages` return.
use mathlib.Core.Path.{subst}
use poldek.Base.{
  ℕ, ◌≡◌, refl, sym, ap, ◌∙◌, inl, inr, Bool, true, Option, none, some, List, [], ◌∷◌, All, arith,
}
use poldek.Capreq.{Capreq}
use poldek.Order.Start.{is_member}
use poldek.Arrays.{Some, IsPush, IsBsearch}
use poldek.Conflicts.{collect, collect_found, no_empty}
use poldek.Conflicts.Collected.{items, IsThere?, IsThere?-collect, All-collect, collect-IsThere}

pub items-no_empty : {E : Type 0} → (re : Option (List E)) → items (no_empty re) ≡ items re
items-no_empty none = refl
items-no_empty (some []) = refl
items-no_empty (some (e ∷ es)) = refl

-- Every suspect is one of the suspects.
All-is_member :
    (ss all : List ℕ)
    → ((s : ℕ) → is_member s ss ≡ true → is_member s all ≡ true)
    → All (λ s. is_member s all ≡ true) ss
All-is_member [] all h = tt
All-is_member (s ∷ ss) all h =
    (h s (ground arith), All-is_member ss all (λ t k. h t (ground (arith, k))))

-- The loop over the capabilities, each with its suspects and its tests.
module _ {E : Type 0} (pkg_of : E → ℕ) (same : ℕ → ℕ → Bool) (same_refl : (p : ℕ) → same p p ≡ true)
    (push : List E → E → List E) (bsearch : List E → ℕ → Option ℕ) (pushes : IsPush push)
    (searches : IsBsearch (λ e p. same (pkg_of e) p) bsearch) (new : Capreq → ℕ → E)
    (touch : Capreq → E → E) (of_new : (c : Capreq) (s : ℕ) → pkg_of (new c s) ≡ s)
    (of_touch : (c : Capreq) (e : E) → pkg_of (touch c e) ≡ pkg_of e) (test : Capreq → ℕ → Bool)
    (suspects : Capreq → Option (List ℕ)) where
  unfoldable pub gather : List Capreq → Option (List E) → Option (List E)
  gather [] re = re
  gather (c ∷ cs) re =
      gather cs (collect_found push bsearch (new c) (touch c) (test c) (suspects c) re)

  abbrev sames : E → ℕ → Bool
  sames e p = same (pkg_of e) p

  is_new : (c : Capreq) (s : ℕ) → sames (new c s) s ≡ true
  is_new c s = ap (λ p. same p s) (of_new c s) ∙ same_refl s

  same_touch : (c : Capreq) (e : E) (s : ℕ) → sames e s ≡ true → sames (touch c e) s ≡ true
  same_touch c e s h = ap (λ p. same p s) (of_touch c e) ∙ h

  collect_found-eq :
      (c : Capreq) (o : Option (List ℕ)) (re : Option (List E))
      → collect_found push bsearch (new c) (touch c) (test c) o re
        ≡ collect push bsearch (new c) (touch c) (test c) (items o) re
  unfolding collect_found collect
  collect_found-eq c none re = refl
  collect_found-eq c (some ss) re = refl

  abbrev IsThereAll : Capreq → List E → List ℕ → Type 0
  IsThereAll c es ss = All (λ s. IsThere? sames (test c s) s es) ss

  IsThere?-gather :
      (b : Bool) (s : ℕ) (cs : List Capreq) (re : Option (List E))
      → IsThere? sames b s (items re)
      → IsThere? sames b s (items (gather cs re))
  unfolding gather
  IsThere?-gather b s [] re h = h
  IsThere?-gather b s (c ∷ cs) re h =
      IsThere?-gather b s cs (collect_found push bsearch (new c) (touch c) (test c) (suspects c) re)
        (subst (λ t. IsThere? sames b s (items t)) (sym (collect_found-eq c (suspects c) re))
          (IsThere?-collect sames push bsearch pushes searches (new c) (touch c) (is_new c)
            (same_touch c) (test c) b s (items (suspects c)) re h))

  IsThereAll-gather :
      (c : Capreq) (ss : List ℕ) (cs : List Capreq) (re : Option (List E))
      → IsThereAll c (items re) ss
      → IsThereAll c (items (gather cs re)) ss
  IsThereAll-gather c [] cs re h = tt
  IsThereAll-gather c (s ∷ ss) cs re h =
      (IsThere?-gather (test c s) s cs re h.0, IsThereAll-gather c ss cs re h.1)

  gather-IsThere :
      (cs : List Capreq) (re : Option (List E))
      → All (λ c. IsThereAll c (items (gather cs re)) (items (suspects c))) cs
  unfolding gather
  gather-IsThere [] re = tt
  gather-IsThere (c ∷ cs) re =
      let t = collect_found push bsearch (new c) (touch c) (test c) (suspects c) re in
      (
        IsThereAll-gather c (items (suspects c)) cs t (
            subst (λ u. IsThereAll c (items u) (items (suspects c)))
              (sym (collect_found-eq c (suspects c) re))
              (collect-IsThere sames push bsearch pushes searches (new c) (touch c) (is_new c)
                (same_touch c) (test c) (items (suspects c)) re)),
        gather-IsThere cs t,
      )

  -- The element is for a suspect of a capability that passes the tests.
  abbrev pub IsCause : Capreq → ℕ → Type 0
  IsCause c p = (test c p ≡ true) × (is_member p (items (suspects c)) ≡ true)

  module _ (P : ℕ → Type 0) where
    abbrev Of : E → Type 0
    Of e = P (pkg_of e)

    suspects_made :
        (c : Capreq) (ss all : List ℕ)
        → All (λ s. is_member s all ≡ true) ss
        → ((p : ℕ) → test c p ≡ true → is_member p all ≡ true → P p)
        → All (λ s. test c s ≡ true → Of (new c s)) ss
    suspects_made c [] all within h = tt
    suspects_made c (s ∷ ss) all within h =
        ((λ hit. subst P (sym (of_new c s)) (h s hit within.0)), suspects_made c ss all within.1 h)

    All-gather :
        (cs : List Capreq) (re : Option (List E))
        → All (λ c. (p : ℕ) → test c p ≡ true → is_member p (items (suspects c)) ≡ true → P p) cs
        → All Of (items re)
        → All Of (items (gather cs re))
    unfolding gather
    All-gather [] re made h = h
    All-gather (c ∷ cs) re made h =
        All-gather cs (collect_found push bsearch (new c) (touch c) (test c) (suspects c) re) made.1
          (subst (λ u. All Of (items u)) (sym (collect_found-eq c (suspects c) re))
            (All-collect sames push bsearch pushes searches (new c) (touch c) (is_new c)
              (same_touch c) (test c) Of (λ e k. subst P (sym (of_touch c e)) k)
              (items (suspects c)) re
              (suspects_made c (items (suspects c)) (items (suspects c))
                (All-is_member (items (suspects c)) (items (suspects c)) (λ s k. k)) made.0)
              h))

  causes :
      (all cs : List Capreq)
      → ((p : ℕ) → Some (λ c. IsCause c p) cs → Some (λ c. IsCause c p) all)
      → All
          (λ c.
            (p : ℕ)
            → test c p ≡ true
            → is_member p (items (suspects c)) ≡ true
            → Some (λ c. IsCause c p) all)
          cs
  causes all [] within = tt
  causes all (c ∷ cs) within =
      ((λ p hit k. within p (inl (hit, k))), causes all cs (λ p k. within p (inr k)))

  -- From NULL, the suspects that pass the tests have elements, and the elements are for such.
  pub gathered :
      (cs : List Capreq)
      → All (λ c. IsThereAll c (items (gather cs none)) (items (suspects c))) cs
        × All (λ e. Some (λ c. IsCause c (pkg_of e)) cs) (items (gather cs none))
  gathered cs = (
    gather-IsThere cs none,
    All-gather (λ p. Some (λ c. IsCause c p) cs) cs none (causes cs cs (λ p k. k)) tt,
  )
