-- ===== src/Order/Start.antt =====
-- The state in which `do_order` starts, and the packages of a list by number.
use mathlib.Core.List.{reverse, reverse_aux}
use poldek.Base.{
  ℕ, ◌+◌, ◌≡◌, refl, ◌∙◌, ◌⊎◌, inl, inr, Bool, true, false, ◌||◌, List, [], ◌∷◌, arith, All, ◌==◌,
  if◌then◌else◌, Bool-cases,
}
use poldek.Order.{Color, none_of_pool, white, gray, black, put, clean, start}
use poldek.Order.Colors.{IsAmong, put_ne}
use poldek.Order.Advance.{is_black, count, IsCounted, IsPool}

abbrev pub is_member : ℕ → List ℕ → Bool
is_member q [] = false
is_member q (p ∷ ps) = q == p || is_member q ps

-- The packages `ps` are those of `pkgs`, each once.
abbrev pub IsOnce : List ℕ → List ℕ → Type 0
IsOnce pkgs ps = (q : ℕ) → count q ps ≡ (if is_member q pkgs then 1 else 0)

pub IsAmong-of_member : (q : ℕ) (ps : List ℕ) → is_member q ps ≡ true → IsAmong q ps
IsAmong-of_member q [] h = absurd (ground arith)
IsAmong-of_member q (p ∷ ps) h = elim (Bool-cases (q == p)) [
  | inl same ↦ inl (ground arith)
  | inr other ↦ inr (IsAmong-of_member q ps (ground arith))
]

pub member_of_among : (q : ℕ) (ps : List ℕ) → IsAmong q ps → is_member q ps ≡ true
member_of_among q [] h = absurd h
member_of_among q (p ∷ ps) (inl same) = ground arith
member_of_among q (p ∷ ps) (inr h) = ground (arith, member_of_among q ps h)

clean-white : (ps : List ℕ) (c : ℕ → Color) (q : ℕ) → c q ≡ white → clean ps c q ≡ white
clean-white [] c q e = e
clean-white (p ∷ ps) c q e = clean-white ps (put c p white) q (ground arith)

pub clean-among : (ps : List ℕ) (c : ℕ → Color) (q : ℕ) → IsAmong q ps → clean ps c q ≡ white
clean-among [] c q h = absurd h
clean-among (p ∷ ps) c q (inl same) = clean-white ps (put c p white) q (ground arith)
clean-among (p ∷ ps) c q (inr h) = clean-among ps (put c p white) q h

pub clean-other :
    (ps : List ℕ) (c : ℕ → Color) (q : ℕ) → is_member q ps ≡ false → clean ps c q ≡ c q
clean-other [] c q h = refl
clean-other (p ∷ ps) c q h =
    clean-other ps (put c p white) q (ground arith)
    ∙ put_ne c p q white (λ e. absurd (ground arith))

-- Outside the packages to be ordered nothing is coloured.
abbrev pub IsElsewhere : List ℕ → (ℕ → Color) → Type 0
IsElsewhere pkgs colors = (q : ℕ) → is_member q pkgs ≡ false → colors q ≡ none_of_pool

pub All-among : (P : ℕ → Type 0) (ps : List ℕ) (q : ℕ) → All P ps → IsAmong q ps → P q
All-among P [] q h k = absurd k
All-among P (p ∷ ps) q h (inl same) = rw same h.0
All-among P (p ∷ ps) q h (inr k) = All-among P ps q h.1 k

count-reverse_aux : (q : ℕ) (xs ys : List ℕ) → count q (reverse_aux xs ys) ≡ count q xs + count q ys
unfolding count
count-reverse_aux q [] ys = omega arith
count-reverse_aux q (x ∷ xs) ys = ground (arith, count-reverse_aux q xs (x ∷ ys))

pub count-reverse : (q : ℕ) (xs : List ℕ) → count q (reverse xs) ≡ count q xs
unfolding count
count-reverse q xs = count-reverse_aux q xs [] ∙ (omega arith)

pub start-IsPool :
    (pkgs : List ℕ) (colors : ℕ → Color) (prereqed : ℕ → Bool)
    → IsElsewhere pkgs colors
    → IsPool pkgs (start pkgs colors prereqed)
start-IsPool pkgs colors prereqed others = record {
  inside = λ q k. elim (Bool-cases (is_member q pkgs)) [
    | inl member ↦ IsAmong-of_member q pkgs member
    | inr other ↦ absurd (k (clean-other pkgs colors q other ∙ others q other))
  ];
  outside = λ q among e. let w = clean-among pkgs colors q among in cc;
}

not_black : (c : Color) → (c ≡ white) ⊎ (c ≡ none_of_pool) → 0 ≡ is_black c
not_black white h = refl
not_black none_of_pool h = refl
not_black gray h = ground arith
not_black black h = ground arith

pub start-colors :
    (pkgs : List ℕ) (colors : ℕ → Color)
    → IsElsewhere pkgs colors
    → (q : ℕ) → (clean pkgs colors q ≡ white) ⊎ (clean pkgs colors q ≡ none_of_pool)
start-colors pkgs colors others q = elim (Bool-cases (is_member q pkgs)) [
  | inl member ↦ inl (clean-among pkgs colors q (IsAmong-of_member q pkgs member))
  | inr other ↦ inr (clean-other pkgs colors q other ∙ others q other)
]

pub start-IsCounted :
    (pkgs : List ℕ) (colors : ℕ → Color) (prereqed : ℕ → Bool)
    → IsElsewhere pkgs colors
    → IsCounted (start pkgs colors prereqed)
unfolding count
start-IsCounted pkgs colors prereqed others q =
    not_black (clean pkgs colors q) (start-colors pkgs colors others q)
