-- ===== src/CapreqIdx/Search.antt =====
-- What `idx_ent_contains` finds is there.
use poldek.Base.{
  ℕ, zero, suc, ◌+◌, ◌/◌, ◌≤◌, ◌<◌, ◌≡◌, refl, inl, inr, Bool, true, false, List, [], ◌∷◌, arith,
  All, length, ltb, Bool-cases,
}
use poldek.Base.Int.{ℤ, is_zero, is_positive}
use poldek.Order.Start.{is_member}
use poldek.CapreqIdx.{ptr_diff, nth, search, idx_ent_contains}

nth-All :
    (mem : ℕ → Bool) (ps : List ℕ) (i : ℕ)
    → All (λ p. mem p ≡ true) ps
    → i < length ps
    → mem (nth ps i) ≡ true
nth-All mem [] i h k = absurd (omega arith)
nth-All mem (p ∷ ps) zero h k = h.0
nth-All mem (p ∷ ps) (suc i) h k = nth-All mem ps i h.1 (omega arith)

is_member-nth : (ps : List ℕ) (i x : ℕ) → i < length ps → nth ps i ≡ x → is_member x ps ≡ true
is_member-nth [] i x h e = absurd (omega arith)
is_member-nth (p ∷ ps) zero x h e = ground arith
is_member-nth (p ∷ ps) (suc i) x h e = ground (arith, is_member-nth ps i x (omega arith) e)

-- No two packages of `mem` have a difference that is cut to an `int` of zero.
abbrev pub IsTold : (ℕ → ℕ → ℤ) → (ℕ → Bool) → Type 0
IsTold ptr_sub mem =
    (a b : ℕ) → mem a ≡ true → mem b ≡ true → is_zero (ptr_diff ptr_sub a b) ≡ true → a ≡ b

module _ (ptr_sub : ℕ → ℕ → ℤ) (mem : ℕ → Bool) (told : IsTold ptr_sub mem) (ps : List ℕ) (x : ℕ)
    (inside : All (λ p. mem p ≡ true) ps) (here : mem x ≡ true) where
  search_sound :
      (fuel l r : ℕ) → r ≤ length ps → search ptr_sub fuel ps x l r ≡ true → is_member x ps ≡ true
  unfolding search
  search_sound zero l r h e = absurd (ground (arith, e))
  search_sound (suc fuel) l r h e = elim (Bool-cases (ltb l r)) [
    | inr empty ↦ absurd (ground (arith, empty, e))
    | inl some_left ↦
        let i = (l + r) / 2 in
        let high : i < length ps = ground arith in
        elim (Bool-cases (is_zero (ptr_diff ptr_sub (nth ps i) x))) [
          | inl zero_diff ↦
              is_member-nth ps i x high
                (told (nth ps i) x (nth-All mem ps i inside high) here zero_diff)
          | inr other ↦ elim (Bool-cases (is_positive (ptr_diff ptr_sub (nth ps i) x))) [
            | inl above ↦
                search_sound fuel l i (omega arith) (ground (arith, some_left, other, above, e))
            | inr below ↦ search_sound fuel (i + 1) r h (ground (arith, some_left, other, below, e))
          ]
        ]
  ]

  -- More fuel than the part of the array has elements changes nothing.
  search_enough :
      (fuel l r : ℕ)
      → r < l + fuel
      → search ptr_sub (suc fuel) ps x l r ≡ search ptr_sub fuel ps x l r
  unfolding search
  search_enough zero l r h = let empty : ltb l r ≡ false = ground arith in rw (search, empty) refl
  search_enough (suc fuel) l r h = elim (Bool-cases (ltb l r)) [
    | inr empty ↦ rw (search, empty) refl
    | inl some_left ↦
        let i = (l + r) / 2 in
        let low : i < l + fuel = ground arith in
        rw (search_enough fuel l i low, search_enough fuel (i + 1) r (ground arith)) refl
  ]

  -- What the search finds is in the array, in whatever order that is.
  pub idx_ent_contains_sound : idx_ent_contains ptr_sub ps x ≡ true → is_member x ps ≡ true
  unfolding idx_ent_contains
  idx_ent_contains_sound e = search_sound (suc (length ps)) 0 (length ps) (omega arith) e
