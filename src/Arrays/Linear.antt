-- ===== src/Arrays/Linear.antt =====
-- The laws of arrays hold of pushing in front and of a search from the front.
use poldek.Base.{
  ℕ, zero, suc, ◌+◌, ◌≡◌, refl, ap, ◌∙◌, inl, inr, Bool, Option, none, some, List, [], ◌∷◌, arith,
  if◌then◌else◌, Bool-cases, Option-cases,
}
use poldek.Arrays.{IsPush, IsBsearch}

module _ {E : Type 0} where
  abbrev pub push_front : List E → E → List E
  push_front es e = e ∷ es

  pub push_front-IsPush : IsPush push_front
  push_front-IsPush P es e = ((λ h. h), (λ h. h))

  module _ (same : E → ℕ → Bool) where
    abbrev pub linear : List E → ℕ → Option ℕ
    linear [] p = none
    linear (e ∷ es) p =
        let later = linear es p in
        if same e p then some 0 else elim later [ none ↦ none | some i ↦ some (i + 1) ]

    pub linear-IsBsearch : IsBsearch same linear
    linear-IsBsearch [] p i h = absurd (ground (arith, h))
    linear-IsBsearch (e ∷ es) p zero h = elim (Bool-cases (same e p)) [
      | inl here ↦ (e, (refl, here))
      | inr below ↦ elim (Option-cases (linear es p)) [
        | inl nowhere ↦ absurd (ground (arith, h, below, nowhere))
        | inr (j, there) ↦ absurd (ground (arith, h, below, there))
      ]
    ]
    linear-IsBsearch (e ∷ es) p (suc i) h = elim (Bool-cases (same e p)) [
      | inl here ↦ absurd (ground (arith, h, here))
      | inr below ↦ elim (Option-cases (linear es p)) [
        | inl nowhere ↦ absurd (ground (arith, h, below, nowhere))
        | inr (j, there) ↦
            let next : j ≡ i = ground (arith, h, below, there) in
            linear-IsBsearch es p i (there ∙ ap some next)
      ]
    ]
