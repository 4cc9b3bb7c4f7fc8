-- ===== src/Pkgset/Indexed.antt =====
-- The index of capabilities of a set lists the packages of the set, whatever the order of calls.
use poldek.Base.{
  ℕ, ◌≡◌, refl, ap, ◌∙◌, inl, inr, Bool, true, false, ◌&&◌, ◌||◌, Option, none, some, List, [], ◌∷◌,
  All, arith, ◌==◌, ==_iff, Bool-cases,
}
use poldek.Base.Int.{ℤ}
use poldek.Base.Bytes.{Bytes, str_eq}
use poldek.Capreq.{Capreq}
use poldek.Pkg.{Pkg}
use poldek.Pkg.Selfcap.{CapArrays}
use poldek.Order.Start.{is_member}
use poldek.CapreqIdx.{Ent, idx_cap, capreq_idx_lookup}
use poldek.CapreqIdx.Search.{IsTold}
use poldek.CapreqIdx.Found.{found, is_indexed, found-adds}
use poldek.CapreqIdx.Adds.{is_added, All_of_members, is_member-entry}
use poldek.Pkgset.{
  Pkgset, calls_of, list_of, index_package_caps, index_caps, caps_made, caps_indexed,
}

-- One of the capabilities has the name, and the index takes it.
abbrev pub provides : Bytes → List Capreq → Bool
provides name [] = false
provides name (cap ∷ caps) =
    provides name caps || str_eq cap.name name && is_indexed idx_cap cap.name

is_added-calls_of :
    (name : Bytes) (q p : ℕ) (caps : List Capreq)
    → is_added name q (calls_of p caps) ≡ (provides name caps && q == p)
unfolding calls_of
is_added-calls_of name q p [] = refl
is_added-calls_of name q p (cap ∷ caps) = ground (arith, is_added-calls_of name q p caps)

-- The capability names of the package that is stored at an address.
abbrev pub has_cap : (ℕ → Pkg) → Bytes → ℕ → Bool
has_cap pkg_at name q = provides name (list_of (pkg_at q).caps)

-- For each name the index has the packages of `mem` that provide it, and no others.
abbrev pub IsIndexOf : (ℕ → Pkg) → (ℕ → Bool) → List Ent → Type 0
IsIndexOf pkg_at mem idx =
    (name : Bytes) (q : ℕ) → is_member q (found name idx) ≡ (mem q && has_cap pkg_at name q)

abbrev pub IsIndexed? : (ℕ → Pkg) → List ℕ → Option (List Ent) → Type 0
IsIndexed? pkg_at pkgs none = Unit
IsIndexed? pkg_at pkgs (some idx) = IsIndexOf pkg_at (λ q. is_member q pkgs) idx

-- The index of capabilities, if it has been made, is that of the packages of the set with the
-- capabilities that they have.
abbrev pub IsIndexed : Pkgset → Type 0
IsIndexed ps = IsIndexed? ps.pkg_at ps.pkgs ps.cap_idx

module _ (ptr_sub : ℕ → ℕ → ℤ) (near : ℕ → Bool) (told : IsTold ptr_sub near) where
  module _ (pkg_at : ℕ → Pkg) where
    All-calls_of :
        (p : ℕ) (caps : List Capreq)
        → near p ≡ true
        → All (λ a. near a.pkg ≡ true) (calls_of p caps)
    unfolding calls_of
    All-calls_of p [] h = tt
    All-calls_of p (cap ∷ caps) h = (h, All-calls_of p caps h)

    abbrev IsNear : (ℕ → Bool) → Type 0
    IsNear mem = (q : ℕ) → mem q ≡ true → near q ≡ true

    IsIndexOf-ext :
        (f g : ℕ → Bool) (idx : List Ent)
        → ((q : ℕ) → f q ≡ g q)
        → IsIndexOf pkg_at f idx
        → IsIndexOf pkg_at g idx
    IsIndexOf-ext f g idx h k name q = k name q ∙ ap (λ b. b && has_cap pkg_at name q) (h q)

    grown_member :
        (mem : ℕ → Bool) (name : Bytes) (p q : ℕ)
        → (mem q && has_cap pkg_at name q || has_cap pkg_at name p && q == p)
          ≡ ((mem q || q == p) && has_cap pkg_at name q)
    grown_member mem name p q = elim (Bool-cases (q == p)) [
      | inl same ↦
          let eq : has_cap pkg_at name q ≡ has_cap pkg_at name p =
            ap (has_cap pkg_at name) ((==_iff q p).0 same) in
          ground (arith, eq, same)
      | inr other ↦ ground (arith, other)
    ]

    IsIndexOf-package :
        (mem : ℕ → Bool) (p : ℕ) (idx : List Ent)
        → IsNear mem
        → near p ≡ true
        → IsIndexOf pkg_at mem idx
        → IsIndexOf pkg_at (λ q. mem q || q == p) (index_package_caps ptr_sub pkg_at p idx)
    unfolding index_package_caps
    IsIndexOf-package mem p idx inside here h name q =
        let caps = list_of (pkg_at p).caps in
        let calls = calls_of p caps in
        let all =
          All_of_members near (found name idx) (λ x k. inside x (ground (arith, h name x, k))) in
        ap (is_member q) (found-adds ptr_sub idx_cap calls idx name)
        ∙ is_member-entry ptr_sub near told name calls (found name idx) q all
            (All-calls_of p caps here)
        ∙ ap (λ b. is_member q (found name idx) || b) (is_added-calls_of name q p caps)
        ∙ ap (λ b. b || has_cap pkg_at name p && q == p) (h name q)
        ∙ grown_member mem name p q

    or_assoc : (a b c : Bool) → ((a || b) || c) ≡ (a || (b || c))
    or_assoc a b c = ground arith

    IsNear-cons :
        (mem : ℕ → Bool) (p : ℕ) → IsNear mem → near p ≡ true → IsNear (λ q. mem q || q == p)
    IsNear-cons mem p inside here q h = elim (Bool-cases (mem q)) [
      | inl there ↦ inside q there
      | inr outside ↦ ap near ((==_iff q p).0 (ground (arith, h, outside))) ∙ here
    ]

    IsIndexOf-index_caps :
        (mem : ℕ → Bool) (ps : List ℕ) (idx : List Ent)
        → IsNear mem
        → All (λ p. near p ≡ true) ps
        → IsIndexOf pkg_at mem idx
        → IsIndexOf pkg_at (λ q. mem q || is_member q ps) (index_caps ptr_sub pkg_at ps idx)
    unfolding index_caps
    IsIndexOf-index_caps mem [] idx inside small h =
        IsIndexOf-ext mem (λ q. mem q || false) idx (λ q. ground arith) h
    IsIndexOf-index_caps mem (p ∷ ps) idx inside small h =
        let next = index_package_caps ptr_sub pkg_at p idx in
        IsIndexOf-ext (λ q. (mem q || q == p) || is_member q ps)
          (λ q. mem q || is_member q (p ∷ ps)) (index_caps ptr_sub pkg_at ps next)
          (λ q. or_assoc (mem q) (q == p) (is_member q ps))
          (IsIndexOf-index_caps (λ q. mem q || q == p) ps next (IsNear-cons mem p inside small.0)
            small.1 (IsIndexOf-package mem p idx inside small.0 h))

    IsNear-member : (ps : List ℕ) → All (λ p. near p ≡ true) ps → IsNear (λ q. is_member q ps)
    IsNear-member [] h q k = absurd (ground (arith, k))
    IsNear-member (p ∷ ps) h q k = elim (Bool-cases (q == p)) [
      | inl here ↦ ap near ((==_iff q p).0 here) ∙ h.0
      | inr below ↦ IsNear-member ps h.1 q (ground (arith, k, below))
    ]

    whole_index :
        (pkgs : List ℕ)
        → All (λ p. near p ≡ true) pkgs
        → IsIndexOf pkg_at (λ q. is_member q pkgs) (index_caps ptr_sub pkg_at pkgs [])
    unfolding capreq_idx_lookup
    whole_index pkgs all =
        IsIndexOf-index_caps (λ q. false) pkgs [] (λ q k. absurd (ground (arith, k))) all
          (λ name q. refl)

    pub IsIndexed-add :
        (push : List ℕ → ℕ → List ℕ) (pkgs : List ℕ) (p : ℕ) (o : Option (List Ent))
        → ((q : ℕ) → is_member q (push pkgs p) ≡ (q == p || is_member q pkgs))
        → All (λ x. near x ≡ true) pkgs
        → near p ≡ true
        → IsIndexed? pkg_at pkgs o
        → IsIndexed? pkg_at (push pkgs p) (caps_indexed ptr_sub pkg_at p o)
    IsIndexed-add push pkgs p none pushes all here h = tt
    IsIndexed-add push pkgs p (some idx) pushes all here h =
        IsIndexOf-ext (λ q. is_member q pkgs || q == p) (λ q. is_member q (push pkgs p))
          (index_package_caps ptr_sub pkg_at p idx) (λ q. ground (arith, pushes q))
          (IsIndexOf-package (λ q. is_member q pkgs) p idx (IsNear-member pkgs all) here h)

  pub IsIndexed-caps_made :
      (arrays : CapArrays) (o : Option (List Ent)) (ps : Pkgset)
      → All (λ p. near p ≡ true) ps.pkgs
      → ps.cap_idx ≡ o
      → IsIndexed ps
      → IsIndexed (caps_made ptr_sub arrays o ps)
  IsIndexed-caps_made arrays (some idx) ps all e h = h
  IsIndexed-caps_made arrays none ps all e h =
      whole_index (caps_made ptr_sub arrays none ps).pkg_at ps.pkgs all
