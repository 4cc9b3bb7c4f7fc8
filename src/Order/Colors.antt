-- ===== src/Order/Colors.antt =====
-- How a visit changes colours, and what that does to the number of white packages.
use poldek.Base.{ℕ, ◌+◌, ◌≤◌, ◌<◌, ◌≡◌, ◌≢◌, refl, ◌⊎◌, inl, inr, List, [], ◌∷◌, arith, length}
use poldek.Order.{Color, none_of_pool, white, gray, black, put}

-- A white package may become black; no other colour changes over a whole visit.
abbrev pub Evolves : Color → Color → Type 0
Evolves white c = (c ≡ white) ⊎ (c ≡ black)
Evolves none_of_pool c = c ≡ none_of_pool
Evolves gray c = c ≡ gray
Evolves black c = c ≡ black

pub Evolves-refl : (c : Color) → Evolves c c
Evolves-refl white = inl refl
Evolves-refl none_of_pool = refl
Evolves-refl gray = refl
Evolves-refl black = refl

pub Evolves-trans : (a b c : Color) → Evolves a b → Evolves b c → Evolves a c
Evolves-trans white b c h k = ground arith
Evolves-trans none_of_pool b c h k = ground arith
Evolves-trans gray b c h k = ground arith
Evolves-trans black b c h k = ground arith

abbrev is_white : Color → ℕ
is_white white = 1
is_white none_of_pool = 0
is_white gray = 0
is_white black = 0

-- The white packages of a list.
abbrev pub whites : List ℕ → (ℕ → Color) → ℕ
whites [] colors = 0
whites (p ∷ ps) colors = is_white (colors p) + whites ps colors

is_white-le : (c d : Color) → Evolves c d → is_white d ≤ is_white c
is_white-le white d h = ground arith
is_white-le none_of_pool d h = ground arith
is_white-le gray d h = ground arith
is_white-le black d h = ground arith

pub whites-le :
    (ps : List ℕ) (c d : ℕ → Color) → ((q : ℕ) → Evolves (c q) (d q)) → whites ps d ≤ whites ps c
whites-le [] c d h = omega arith
whites-le (p ∷ ps) c d h = omega (arith, is_white-le (c p) (d p) (h p), whites-le ps c d h)

pub whites-le-length : (ps : List ℕ) (c : ℕ → Color) → whites ps c ≤ length ps
whites-le-length [] c = omega arith
whites-le-length (p ∷ ps) c = ground (arith, whites-le-length ps c)

pub put_self {ℓ} : {A : Type ℓ} (f : ℕ → A) (p : ℕ) (a : A) → put f p a p ≡ a
put_self f p a = ground arith

pub put_ne {ℓ} : {A : Type ℓ} (f : ℕ → A) (p q : ℕ) (a : A) → q ≢ p → put f p a q ≡ f q
put_ne f p q a h = ground arith

whites-put-le : (ps : List ℕ) (c : ℕ → Color) (p : ℕ) → whites ps (put c p gray) ≤ whites ps c
whites-put-le [] c p = omega arith
whites-put-le (q ∷ ps) c p = ground (arith, whites-put-le ps c p)

-- Membership by number.
abbrev pub IsAmong : ℕ → List ℕ → Type 0
IsAmong p [] = ⊥
IsAmong p (q ∷ qs) = (p ≡ q) ⊎ IsAmong p qs

-- Colouring a white package of the list gray leaves one white package less.
pub whites-put :
    (ps : List ℕ) (c : ℕ → Color) (p : ℕ)
    → IsAmong p ps
    → c p ≡ white
    → whites ps (put c p gray) < whites ps c
whites-put [] c p h e = absurd h
whites-put (q ∷ ps) c p (inl same) e = ground (arith, whites-put-le ps c p, same)
whites-put (q ∷ ps) c p (inr h) e = ground (arith, whites-put ps c p h e)
