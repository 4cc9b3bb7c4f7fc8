-- ===== src/Required/Groups.antt =====
-- What stands in the array of required packages after the requirements have been processed.
use poldek.Base.{
  ℕ, ◌≡◌, refl, ap, inl, inr, Bool, true, Option, List, [], ◌∷◌, All, arith, Option-cases,
}
use poldek.Capreq.{Capreq}
use poldek.Order.{Rp, Reqpkg}
use poldek.Arrays.{Some, IsPush, IsBsearch, Some-change_at, All-change_at, Some-get_elem}
use poldek.Required.{add_flags, rps_of, single, is_listed, add_reqpkg}

-- The packages of an element: the first and the alternatives.
abbrev pub pkgs_of_rps : List Rp → List ℕ
pkgs_of_rps [] = []
pkgs_of_rps (rp ∷ rps) = rp.pkg ∷ pkgs_of_rps rps

-- An element does for the packages `ms`, of which any satisfies a requirement: it is for the first
-- of them by `same`, and when they are several it lists alternatives that are among them.
abbrev pub Covers : (ℕ → ℕ → Bool) → List ℕ → Reqpkg → Type 0
Covers same [] r = Unit
Covers same (m ∷ []) r = same r.rp.pkg m ≡ true
Covers same (m ∷ n ∷ ms) r =
    (same r.rp.pkg m ≡ true) × ((r.multi ≡ true) × (is_listed r.adds (n ∷ ms) ≡ true))

pub Covers-add_flags :
    (same : ℕ → ℕ → Bool) (ms : List ℕ) (req : Capreq) (r : Reqpkg)
    → Covers same ms r
    → Covers same ms (add_flags req r)
unfolding add_flags
Covers-add_flags same [] req r h = tt
Covers-add_flags same (m ∷ []) req r h = h
Covers-add_flags same (m ∷ n ∷ ms) req r h = h

pub is_listed-rps_of : (req : Capreq) (ms : List ℕ) → is_listed (rps_of req ms) ms ≡ true
unfolding is_listed rps_of
is_listed-rps_of req [] = refl
is_listed-rps_of req (m ∷ ms) = ground (arith, is_listed-rps_of req ms)

pub pkgs_of_rps-rps_of : (req : Capreq) (ms : List ℕ) → pkgs_of_rps (rps_of req ms) ≡ ms
unfolding rps_of
pkgs_of_rps-rps_of req [] = refl
pkgs_of_rps-rps_of req (m ∷ ms) = ap (λ xs. m ∷ xs) (pkgs_of_rps-rps_of req ms)

-- All the packages of an element.
abbrev pub pkgs_of : Reqpkg → List ℕ
pkgs_of r = r.rp.pkg ∷ pkgs_of_rps r.adds

module _ (push : List Reqpkg → Reqpkg → List Reqpkg) (bsearch : List Reqpkg → ℕ → Option ℕ)
    (same : ℕ → ℕ → Bool) (pushes : IsPush push)
    (searches : IsBsearch (λ r p. same r.rp.pkg p) bsearch)
    (same_refl : (p : ℕ) → same p p ≡ true) where
  -- The array after `add_reqpkg`: what held of some or of all elements, whatever their flags, does
  -- still, and some element is for the package.
  pub Some-add_reqpkg :
      (P : Reqpkg → Type 0) (rs : List Reqpkg) (req : Capreq) (m : ℕ)
      → ((r : Reqpkg) → P r → P (add_flags req r))
      → Some P rs
      → Some P (add_reqpkg push bsearch rs req m)
  unfolding add_reqpkg
  Some-add_reqpkg P rs req m keeps h = elim (Option-cases (bsearch rs m)) [
    | inl new ↦ rw (new) ((pushes P rs (add_flags req (single m))).0 (inr h))
    | inr (i, there) ↦ rw (there) (Some-change_at P (add_flags req) i rs keeps h)
  ]

  pub All-add_reqpkg :
      (P : Reqpkg → Type 0) (rs : List Reqpkg) (req : Capreq) (m : ℕ)
      → ((r : Reqpkg) → P r → P (add_flags req r))
      → P (add_flags req (single m))
      → All P rs
      → All P (add_reqpkg push bsearch rs req m)
  unfolding add_reqpkg
  All-add_reqpkg P rs req m keeps one h = elim (Option-cases (bsearch rs m)) [
    | inl new ↦ rw (new) ((pushes P rs (add_flags req (single m))).1 (one, h))
    | inr (i, there) ↦ rw (there) (All-change_at P (add_flags req) i rs keeps h)
  ]

  pub Covers-add_reqpkg :
      (rs : List Reqpkg) (req : Capreq) (m : ℕ)
      → Some (Covers same (m ∷ [])) (add_reqpkg push bsearch rs req m)
  unfolding add_reqpkg add_flags
  Covers-add_reqpkg rs req m = elim (Option-cases (bsearch rs m)) [
    | inl new ↦
        rw (new)
          ((pushes (Covers same (m ∷ [])) rs (add_flags req (single m))).0 (inl (same_refl m)))
    | inr (i, there) ↦
        let (r, (at, equal)) = searches rs m i there in
        rw (there) (
          Some-change_at (Covers same (m ∷ [])) (add_flags req) i rs (λ r k. k)
            (Some-get_elem (Covers same (m ∷ [])) rs i r at equal))
  ]
