-- ===== src/Base/Bytes.antt =====
-- C strings as lists of bytes, without the closing NUL, and the functions of the C library on them
-- that the program calls.
use Prim.Native.Nat.{ℕ, suc}
use Prim.Native.Char.{code}
use Prim.Native.String.{String}
use mathlib.Core.Path.{◌≡◌, refl, sym, ap, ◌∙◌}
use mathlib.Core.Bool.{Bool, true, false, ◌||◌, ◌&&◌}
use mathlib.Core.List.{List, [], ◌∷◌, ◌++◌}
use mathlib.Core.Logic.{◌≢◌, inl, inr}
use poldek.Base.Lists.{length, All}
use mathlib.Core.Option.{Option, none, some}
use native.Mathlib.Omega.{arith}
use poldek.Base.Tests.{leb, ◌==◌, if◌then◌else◌, Bool-cases}
use poldek.Base.Int.{ℤ, pos, is_zero, sub_ℕ, first_nonzero, IsNonPos, IsNonNeg}
use poldek.Base.Preorder.{IsPreorder}

abbrev pub Bytes : Type 0
Bytes = List ℕ

-- A text literal as bytes.
abbrev pub codes : String → Bytes
codes String.[] = []
codes (String.◌∷◌ c s) = code c ∷ codes s

-- The sign is what the C standard documents; the value is that of glibc.
unfoldable pub strcmp : Bytes → Bytes → ℤ
strcmp [] [] = pos 0
strcmp [] (b ∷ ys) = sub_ℕ 0 (suc b)
strcmp (a ∷ xs) [] = pos (suc a)
strcmp (a ∷ xs) (b ∷ ys) = first_nonzero (sub_ℕ a b) (strcmp xs ys)

-- `strcmp(a, b) == 0`
abbrev pub str_eq : Bytes → Bytes → Bool
str_eq a b = is_zero (strcmp a b)

-- `isspace` in the C locale.
abbrev pub isspace : ℕ → Bool
isspace c = c == 32 || (leb 9 c && leb c 13)

-- `strncmp(name, prefix, strlen(prefix)) == 0`
unfoldable pub has_prefix : Bytes → Bytes → Bool
has_prefix [] s = true
has_prefix (p ∷ ps) [] = false
has_prefix (p ∷ ps) (c ∷ cs) = p == c && has_prefix ps cs

-- `strchr(s, c)` as the number of bytes before the first `c`.
unfoldable pub index_of : ℕ → Bytes → Option ℕ
index_of c [] = none
index_of c (x ∷ xs) =
    if x == c then some 0 else elim (index_of c xs) [ none ↦ none | some n ↦ some (suc n) ]

-- The bytes before and behind the first `c`.
pub index_of-append :
    (c : ℕ) (xs rest : Bytes) → All (λ x. x ≢ c) xs → index_of c (xs ++ c ∷ rest) ≡ some (length xs)
unfolding index_of
index_of-append c [] rest h = ground arith
index_of-append c (x ∷ xs) rest h = ground (arith, index_of-append c xs rest h.1)

pub index_of-none : (c : ℕ) (xs : Bytes) → All (λ x. x ≢ c) xs → index_of c xs ≡ none
unfolding index_of
index_of-none c [] h = refl
index_of-none c (x ∷ xs) h = ground (arith, index_of-none c xs h.1)

abbrev pub IsAny : Bytes → Type 0
IsAny s = Unit

strcmp-flips : (a b : Bytes) → IsNonPos (strcmp a b) → IsNonNeg (strcmp b a)
unfolding strcmp
strcmp-flips [] [] h = omega arith
strcmp-flips [] (b ∷ ys) h = omega arith
strcmp-flips (a ∷ xs) [] h = absurd (omega arith)
strcmp-flips (a ∷ xs) (b ∷ ys) h = ground (arith, strcmp-flips xs ys)

strcmp-flips_back : (a b : Bytes) → IsNonNeg (strcmp a b) → IsNonPos (strcmp b a)
unfolding strcmp
strcmp-flips_back [] [] h = omega arith
strcmp-flips_back [] (b ∷ ys) h = ground arith
strcmp-flips_back (a ∷ xs) [] h = ground arith
strcmp-flips_back (a ∷ xs) (b ∷ ys) h = ground (arith, strcmp-flips_back xs ys)

strcmp_trans :
    (a b c : Bytes) → IsNonPos (strcmp a b) → IsNonPos (strcmp b c) → IsNonPos (strcmp a c)
unfolding strcmp
strcmp_trans [] b [] h k = omega arith
strcmp_trans [] b (z ∷ c) h k = ground arith
strcmp_trans (x ∷ a) [] c h k = absurd (omega arith)
strcmp_trans (x ∷ a) (y ∷ b) [] h k = absurd (omega arith)
strcmp_trans (x ∷ a) (y ∷ b) (z ∷ c) h k = ground (arith, strcmp_trans a b c)

pub strcmp-IsPreorder : IsPreorder IsAny strcmp
strcmp-IsPreorder = record {
  flips = λ a b _ _. strcmp-flips a b;
  flips_back = λ a b _ _. strcmp-flips_back a b;
  transitive = λ a b c _ _ _. strcmp_trans a b c;
}

pub strcmp_eq : (a b : Bytes) → str_eq a b ≡ true → a ≡ b
unfolding strcmp
strcmp_eq [] [] h = refl
strcmp_eq [] (b ∷ ys) h = ground arith
strcmp_eq (a ∷ xs) [] h = ground arith
strcmp_eq (a ∷ xs) (b ∷ ys) h = ground (arith, strcmp_eq xs ys)

pub strcmp_refl : (a : Bytes) → strcmp a a ≡ pos 0
unfolding strcmp
strcmp_refl [] = refl
strcmp_refl (a ∷ xs) = ground (arith, strcmp_refl xs)

pub str_eq-left : (a b c : Bytes) → str_eq a b ≡ true → str_eq b c ≡ str_eq a c
str_eq-left a b c h = ap (λ x. str_eq x c) (sym (strcmp_eq a b h))

pub str_ne : (a b c : Bytes) → str_eq a b ≡ false → str_eq a c ≡ true → str_eq b c ≡ false
str_ne a b c h k = elim (Bool-cases (str_eq b c)) [
  | inr other ↦ other
  | inl same ↦
      let equal : a ≡ b = strcmp_eq a c k ∙ sym (strcmp_eq b c same) in
      let again : str_eq a b ≡ true = rw (equal, strcmp_refl b) refl in cc
]
