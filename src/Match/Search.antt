-- ===== src/Match/Search.antt =====
-- What the callers rely on of trurlib's binary search by name, `n_array_bsearch_idx_ex` with
-- `capreq_cmp2name`: in a sorted array it returns the first index at which the name stands, or none.
use poldek.Base.{
  ℕ, zero, suc, ◌≡◌, inl, inr, true, false, Option, none, some, List, [], ◌∷◌, All, if◌then◌else◌,
  Bool-cases,
}
use poldek.Base.Int.{IsNonPos}
use poldek.Base.Bytes.{Bytes, strcmp, str_eq}
use poldek.Capreq.{Capreq}

-- The array is sorted by name, as `n_array_sort` leaves it.
abbrev pub IsSorted : List Capreq → Type 0
IsSorted [] = Unit
IsSorted (c ∷ cs) = All (λ d. IsNonPos (strcmp c.name d.name)) cs × IsSorted cs

-- The answer is the first place of the name.
abbrev pub IsFirst : Bytes → List Capreq → Option ℕ → Type 0
IsFirst name [] none = Unit
IsFirst name [] (some n) = ⊥
IsFirst name (c ∷ cs) none = (str_eq c.name name ≡ false) × IsFirst name cs none
IsFirst name (c ∷ cs) (some zero) = str_eq c.name name ≡ true
IsFirst name (c ∷ cs) (some (suc n)) = (str_eq c.name name ≡ false) × IsFirst name cs (some n)

abbrev pub IsFind : (List Capreq → Bytes → Option ℕ) → Type 0
IsFind find = (cs : List Capreq) (name : Bytes) → IsSorted cs → IsFirst name cs (find cs name)

abbrev pub later_index : Option ℕ → Option ℕ
later_index none = none
later_index (some n) = some (suc n)

-- A linear search, which meets the law on every array.
unfoldable pub linear_find : List Capreq → Bytes → Option ℕ
linear_find [] name = none
linear_find (c ∷ cs) name = if str_eq c.name name then some 0 else later_index (linear_find cs name)

IsFirst-later :
    (name : Bytes) (c : Capreq) (cs : List Capreq) (o : Option ℕ)
    → str_eq c.name name ≡ false
    → IsFirst name cs o
    → IsFirst name (c ∷ cs) (later_index o)
IsFirst-later name c cs none other h = (other, h)
IsFirst-later name c cs (some n) other h = (other, h)

linear_find-IsFirst : (cs : List Capreq) (name : Bytes) → IsFirst name cs (linear_find cs name)
unfolding linear_find
linear_find-IsFirst [] name = tt
linear_find-IsFirst (c ∷ cs) name = elim (Bool-cases (str_eq c.name name)) [
  | inl same ↦ rw (linear_find, same) same
  | inr other ↦
      rw (linear_find, other)
        (IsFirst-later name c cs (linear_find cs name) other (linear_find-IsFirst cs name))
]

pub linear_find-IsFind : IsFind linear_find
linear_find-IsFind cs name sorted = linear_find-IsFirst cs name
