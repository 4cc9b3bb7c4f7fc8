-- ===== src/Arrays.antt =====
-- The arrays of the trurl library, as far as the program relies on them: `n_array_push` on an
-- AUTOSORTED array and `n_array_bsearch`, which are parameters, and the laws asked of them. A package
-- is the number that stands for its address.
pub mod Linear
use mathlib.Core.Path.{subst}
use poldek.Base.{
  ℕ, zero, suc, ◌≡◌, sym, ap, ◌⊎◌, inl, inr, Bool, true, false, Option, none, some, List, [], ◌∷◌,
  All, arith, get_elem?, if◌then◌else◌,
}

-- Some element.
abbrev pub Some {ℓ} : {A : Type ℓ} → (A → Type 0) → List A → Type 0
Some P [] = ⊥
Some P (x ∷ xs) = P x ⊎ Some P xs

or_first : {E : Type 0} → E → Option E → E
or_first e none = e
or_first e (some d) = d

some_eq : {E : Type 0} → (e d : E) → some e ≡ some d → e ≡ d
unfolding or_first
some_eq e d h = ap (or_first e) h

-- A change of the element at an index.
unfoldable pub change_at : {E : Type 0} → ℕ → (E → E) → List E → List E
change_at i f [] = []
change_at zero f (e ∷ es) = f e ∷ es
change_at (suc i) f (e ∷ es) = e ∷ change_at i f es

module _ {E : Type 0} where
  -- `n_array_push` adds the element and keeps the others.
  abbrev pub IsPush : (List E → E → List E) → Type 1
  IsPush push =
      (P : E → Type 0) (es : List E) (e : E)
      → (P e ⊎ Some P es → Some P (push es e)) × (P e × All P es → All P (push es e))

  -- `n_array_bsearch` finds an element that compares equal with one for the package.
  abbrev pub IsBsearch : (E → ℕ → Bool) → (List E → ℕ → Option ℕ) → Type 0
  IsBsearch same bsearch =
      (es : List E) (p i : ℕ)
      → bsearch es p ≡ some i
      → (e : E) × ((get_elem? es i ≡ some e) × (same e p ≡ true))

  pub Some-change_at :
      (P : E → Type 0) (f : E → E) (i : ℕ) (es : List E)
      → ((e : E) → P e → P (f e))
      → Some P es
      → Some P (change_at i f es)
  unfolding change_at
  Some-change_at P f i [] h k = k
  Some-change_at P f zero (e ∷ es) h (inl k) = inl (h e k)
  Some-change_at P f zero (e ∷ es) h (inr k) = inr k
  Some-change_at P f (suc i) (e ∷ es) h (inl k) = inl k
  Some-change_at P f (suc i) (e ∷ es) h (inr k) = inr (Some-change_at P f i es h k)

  pub All-change_at :
      (P : E → Type 0) (f : E → E) (i : ℕ) (es : List E)
      → ((e : E) → P e → P (f e))
      → All P es
      → All P (change_at i f es)
  unfolding change_at
  All-change_at P f i [] h k = tt
  All-change_at P f zero (e ∷ es) h k = (h e k.0, k.1)
  All-change_at P f (suc i) (e ∷ es) h k = (k.0, All-change_at P f i es h k.1)

  pub Some-get_elem :
      (P : E → Type 0) (es : List E) (i : ℕ) (e : E) → get_elem? es i ≡ some e → P e → Some P es
  Some-get_elem P [] i e h k = absurd (ground (arith, h))
  Some-get_elem P (d ∷ es) zero e h k = inl (subst P (sym (some_eq d e h)) k)
  Some-get_elem P (d ∷ es) (suc i) e h k = inr (Some-get_elem P es i e h k)
