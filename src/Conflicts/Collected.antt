-- ===== src/Conflicts/Collected.antt =====
-- What `pkgset_get_conflicted_packages` and `pkgset_get_requiredby_packages` collect.
use poldek.Base.{
  ℕ, ◌≡◌, inl, inr, Bool, true, false, Option, none, some, List, [], ◌∷◌, All, if◌then◌else◌,
  Bool-cases, Option-cases,
}
use poldek.Arrays.{Some, IsPush, IsBsearch, Some-change_at, All-change_at, Some-get_elem}
use poldek.Conflicts.{put, collect}

-- The elements of an array, of which NULL has none.
abbrev pub items {ℓ} : {E : Type ℓ} → Option (List E) → List E
items none = []
items (some es) = es

module _ {E : Type 0} (same : E → ℕ → Bool) where
  -- A package that is wanted has an element.
  abbrev pub IsThere? : Bool → ℕ → List E → Type 0
  IsThere? true s es = Some (λ e. same e s ≡ true) es
  IsThere? false s es = Unit

  module _ (push : List E → E → List E) (bsearch : List E → ℕ → Option ℕ) (pushes : IsPush push)
      (searches : IsBsearch same bsearch) (new : ℕ → E) (touch : E → E)
      (is_new : (s : ℕ) → same (new s) s ≡ true)
      (same_touch : (e : E) (s : ℕ) → same e s ≡ true → same (touch e) s ≡ true)
      (test : ℕ → Bool) where
    abbrev puts : Option (List E) → ℕ → Option (List E)
    puts = put push bsearch new touch test

    module _ (P : E → Type 0) (keeps : (e : E) → P e → P (touch e)) where
      Some-put : (re : Option (List E)) (s : ℕ) → Some P (items re) → Some P (items (puts re s))
      Some-put none s h = absurd h
      Some-put (some es) s h = elim (Option-cases (bsearch es s)) [
        | inl fresh ↦ rw (fresh) ((pushes P es (new s)).0 (inr h))
        | inr (i, there) ↦ rw (there) (Some-change_at P touch i es keeps h)
      ]

      All-put :
          (re : Option (List E)) (s : ℕ) → P (new s) → All P (items re) → All P (items (puts re s))
      All-put none s k h = (pushes P [] (new s)).1 (k, tt)
      All-put (some es) s k h = elim (Option-cases (bsearch es s)) [
        | inl fresh ↦ rw (fresh) ((pushes P es (new s)).1 (k, h))
        | inr (i, there) ↦ rw (there) (All-change_at P touch i es keeps h)
      ]

    put-IsThere : (re : Option (List E)) (s : ℕ) → Some (λ e. same e s ≡ true) (items (puts re s))
    put-IsThere none s = (pushes (λ e. same e s ≡ true) [] (new s)).0 (inl (is_new s))
    put-IsThere (some es) s = elim (Option-cases (bsearch es s)) [
      | inl fresh ↦ rw (fresh) ((pushes (λ e. same e s ≡ true) es (new s)).0 (inl (is_new s)))
      | inr (i, there) ↦
          let (e, (at, equal)) = searches es s i there in
          rw (there) (
            Some-change_at (λ e. same e s ≡ true) touch i es (λ e k. same_touch e s k)
              (Some-get_elem (λ e. same e s ≡ true) es i e at equal))
    ]

    abbrev collects : List ℕ → Option (List E) → Option (List E)
    collects = collect push bsearch new touch test

    pub Some-collect :
        (P : E → Type 0)
        → ((e : E) → P e → P (touch e))
        → (ss : List ℕ) (re : Option (List E)) → Some P (items re)
        → Some P (items (collects ss re))
    unfolding collect
    Some-collect P keeps [] re h = h
    Some-collect P keeps (s ∷ ss) re h = elim (Bool-cases (test s)) [
      | inl hit ↦ rw (hit) (Some-collect P keeps ss (puts re s) (Some-put P keeps re s h))
      | inr miss ↦ rw (miss) (Some-collect P keeps ss re h)
    ]

    pub All-collect :
        (P : E → Type 0)
        → ((e : E) → P e → P (touch e))
        → (ss : List ℕ) (re : Option (List E)) → All (λ s. test s ≡ true → P (new s)) ss
        → All P (items re)
        → All P (items (collects ss re))
    unfolding collect
    All-collect P keeps [] re made h = h
    All-collect P keeps (s ∷ ss) re made h = elim (Bool-cases (test s)) [
      | inl hit ↦
          rw (hit) (All-collect P keeps ss (puts re s) made.1 (All-put P keeps re s (made.0 hit) h))
      | inr miss ↦ rw (miss) (All-collect P keeps ss re made.1 h)
    ]

    pub IsThere?-collect :
        (b : Bool) (s : ℕ) (ss : List ℕ) (re : Option (List E))
        → IsThere? b s (items re)
        → IsThere? b s (items (collects ss re))
    IsThere?-collect true s ss re h =
        Some-collect (λ e. same e s ≡ true) (λ e k. same_touch e s k) ss re h
    IsThere?-collect false s ss re h = tt

    IsThere?-put :
        (b : Bool) (s : ℕ) (re : Option (List E))
        → IsThere? b s (items (if b then puts re s else re))
    IsThere?-put true s re = put-IsThere re s
    IsThere?-put false s re = tt

    pub collect-IsThere :
        (ss : List ℕ) (re : Option (List E))
        → All (λ s. IsThere? (test s) s (items (collects ss re))) ss
    unfolding collect
    collect-IsThere [] re = tt
    collect-IsThere (s ∷ ss) re =
        let t : Option (List E) = if test s then puts re s else re in
        (IsThere?-collect (test s) s ss t (IsThere?-put (test s) s re), collect-IsThere ss t)
