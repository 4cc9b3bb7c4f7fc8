-- ===== src/Mark/Visit/Step.antt =====
-- What a visit owes: it marks packages and removes no mark; what it marks has its requirements met
-- among marked packages, and is required by a marked package.
use poldek.Base.{
  ℕ, ◌≡◌, refl, ◌∙◌, ◌⊎◌, inl, inr, Bool, true, false, ◌||◌, List, [], ◌∷◌, arith, All, Bool-cases,
}
use poldek.Base.Bytes.{Bytes}
use poldek.Pkg.{Pkg}
use poldek.Order.{Reqpkg, edges}
use poldek.Order.Colors.{IsAmong}
use poldek.Mark.{PkgmarkSet}
use poldek.Mark.Visit.{others, pkgs_of, is_marked, is_dep_marked, any_marked}

module _ (pkg_at : ℕ → Pkg) (printed : ℕ → Bytes) (required : ℕ → List Reqpkg) where
  abbrev pub M : PkgmarkSet → ℕ → Bool
  M = is_marked pkg_at printed required

  abbrev pub D : PkgmarkSet → ℕ → Bool
  D = is_dep_marked pkg_at printed required

  abbrev pub is_met : PkgmarkSet → Reqpkg → Bool
  is_met t r = M t r.rp.pkg || any_marked pkg_at printed required t (pkgs_of (others r))

  -- Each requirement has a marked alternative.
  abbrev pub IsMet : PkgmarkSet → List Reqpkg → Type 0
  IsMet t rs = All (λ r. is_met t r ≡ true) rs

  -- Some marked package requires this one, alone or as an alternative.
  abbrev pub IsOffered : PkgmarkSet → ℕ → Type 0
  IsOffered t q = (p : ℕ) × (M t p ≡ true) × IsAmong q (pkgs_of (edges (required p)))

  abbrev pub Grows : PkgmarkSet → PkgmarkSet → Type 0
  Grows s t = (q : ℕ) → M s q ≡ true → M t q ≡ true

  any_marked-Grows :
      (s t : PkgmarkSet) (ps : List ℕ)
      → Grows s t
      → any_marked pkg_at printed required s ps ≡ true
      → any_marked pkg_at printed required t ps ≡ true
  unfolding any_marked
  any_marked-Grows s t [] g h = h
  any_marked-Grows s t (p ∷ ps) g h = ground (arith, g p, any_marked-Grows s t ps g)

  pub is_met-Grows :
      (s t : PkgmarkSet) (r : Reqpkg) → Grows s t → is_met s r ≡ true → is_met t r ≡ true
  is_met-Grows s t r g h = ground (arith, g r.rp.pkg, any_marked-Grows s t (pkgs_of (others r)) g)

  pub IsMet-grows : (s t : PkgmarkSet) (rs : List Reqpkg) → Grows s t → IsMet s rs → IsMet t rs
  IsMet-grows s t [] g h = tt
  IsMet-grows s t (r ∷ rs) g h = (is_met-Grows s t r g h.0, IsMet-grows s t rs g h.1)

  IsOffered-Grows : (s t : PkgmarkSet) (q : ℕ) → Grows s t → IsOffered s q → IsOffered t q
  IsOffered-Grows s t q g (p, marked, among) = (p, g p marked, among)

  -- What the visits of some packages owe, with an exception for what they started from.
  pub record Marking (start : ℕ → Type 0) (s t : PkgmarkSet) : Type 0 where
    pub kind : t.idnevr ≡ s.idnevr
    pub grows : Grows s t
    pub closed : (q : ℕ) → M t q ≡ true → (M s q ≡ true) ⊎ IsMet t (required q)
    pub offered : (q : ℕ) → M t q ≡ true → (M s q ≡ true) ⊎ (start q ⊎ IsOffered t q)
    pub deps : (q : ℕ) → D t q ≡ true → (D s q ≡ true) ⊎ (M s q ≡ false)

  pub Marking-refl : (start : ℕ → Type 0) (s : PkgmarkSet) → Marking start s s
  Marking-refl start s = record {
    kind = refl;
    grows = λ q h. h;
    closed = λ q h. inl h;
    offered = λ q h. inl h;
    deps = λ q h. inl h;
  }

  closed_trans :
      (s t u : PkgmarkSet) (q : ℕ)
      → Grows t u
      → ((M t q ≡ true) → (M s q ≡ true) ⊎ IsMet t (required q))
      → (M t q ≡ true) ⊎ IsMet u (required q)
      → (M s q ≡ true) ⊎ IsMet u (required q)
  closed_trans s t u q g h (inr met) = inr met
  closed_trans s t u q g h (inl before) = elim (h before) [
    | inl first ↦ inl first
    | inr met ↦ inr (IsMet-grows t u (required q) g met)
  ]

  IsOffered-trans :
      (start : ℕ → Type 0) (s t u : PkgmarkSet) (q : ℕ)
      → Grows t u
      → ((M t q ≡ true) → (M s q ≡ true) ⊎ (start q ⊎ IsOffered t q))
      → (M t q ≡ true) ⊎ (start q ⊎ IsOffered u q)
      → (M s q ≡ true) ⊎ (start q ⊎ IsOffered u q)
  IsOffered-trans start s t u q g h (inr later) = inr later
  IsOffered-trans start s t u q g h (inl before) = elim (h before) [
    | inl first ↦ inl first
    | inr (inl started) ↦ inr (inl started)
    | inr (inr offered) ↦ inr (inr (IsOffered-Grows t u q g offered))
  ]

  deps_trans :
      (s t : PkgmarkSet) (q : ℕ)
      → Grows s t
      → ((D t q ≡ true) → (D s q ≡ true) ⊎ (M s q ≡ false))
      → (D t q ≡ true) ⊎ (M t q ≡ false)
      → (D s q ≡ true) ⊎ (M s q ≡ false)
  deps_trans s t q g h (inl before) = h before
  deps_trans s t q g h (inr unmarked) = elim (Bool-cases (M s q)) [
    | inl marked ↦ absurd (let later = g q marked in ground arith)
    | inr earlier ↦ inr earlier
  ]

  pub Marking-trans :
      (start : ℕ → Type 0) (s t u : PkgmarkSet)
      → Marking start s t
      → Marking start t u
      → Marking start s u
  Marking-trans start s t u h k = record {
    kind = k.kind ∙ h.kind;
    grows = λ q m. k.grows q (h.grows q m);
    closed = λ q m. closed_trans s t u q k.grows (h.closed q) (k.closed q m);
    offered = λ q m. IsOffered-trans start s t u q k.grows (h.offered q) (k.offered q m);
    deps = λ q m. deps_trans s t q h.grows (h.deps q) (k.deps q m);
  }

  -- A start that a marked package requires needs no exception.
  pub Marking-offered :
      (start other : ℕ → Type 0) (s t : PkgmarkSet)
      → ((q : ℕ) → start q → IsOffered t q)
      → Marking start s t
      → Marking other s t
  Marking-offered start other s t f h = record {
    kind = h.kind;
    grows = h.grows;
    closed = h.closed;
    offered = λ q m. elim (h.offered q m) [
      | inl before ↦ inl before
      | inr (inl started) ↦ inr (inr (f q started))
      | inr (inr offered) ↦ inr (inr offered)
    ];
    deps = h.deps;
  }

  pub Marking-start :
      (start other : ℕ → Type 0) (s t : PkgmarkSet)
      → ((q : ℕ) → start q → other q)
      → Marking start s t
      → Marking other s t
  Marking-start start other s t f h = record {
    kind = h.kind;
    grows = h.grows;
    closed = h.closed;
    offered = λ q m. elim (h.offered q m) [
      | inl before ↦ inl before
      | inr (inl started) ↦ inr (inl (f q started))
      | inr (inr offered) ↦ inr (inr offered)
    ];
    deps = h.deps;
  }
