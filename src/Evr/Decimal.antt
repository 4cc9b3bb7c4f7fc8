-- ===== src/Evr/Decimal.antt =====
-- The `%d` of `snprintf` for a number that is not negative, and that `strtol` reads it back.
use poldek.Base.{
  ℕ, zero, suc, ◌+◌, ◌/◌, ◌%◌, ◌≤◌, ◌<◌, ◌≡◌, refl, [], ◌∷◌, arith, All, ltb, if◌then◌else◌,
}
use poldek.Base.Bytes.{Bytes}
use poldek.Evr.{digits_value}

-- The digits of `n` in front of `acc`, with fuel above `n`.
decimal_fuel : ℕ → ℕ → Bytes → Bytes
decimal_fuel zero n acc = acc
decimal_fuel (suc f) n acc =
    let d = 48 + n % 10 in
    let rest = decimal_fuel f (n / 10) (d ∷ acc) in if ltb n 10 then d ∷ acc else rest

pub decimal : ℕ → Bytes
unfolding decimal_fuel
decimal n = decimal_fuel (suc n) n []

digits_value-decimal_fuel :
    (f n : ℕ) (acc : Bytes) → n < f → digits_value 0 (decimal_fuel f n acc) ≡ digits_value n acc
unfolding decimal_fuel digits_value
digits_value-decimal_fuel zero n acc h = absurd (omega arith)
digits_value-decimal_fuel (suc f) n acc h =
    ground (arith, digits_value-decimal_fuel f (n / 10) ((48 + n % 10) ∷ acc))

abbrev pub IsDigit : ℕ → Type 0
IsDigit c = (48 ≤ c) × (c ≤ 57)

-- The first byte is a digit, and so are the others.
All-decimal_fuel : (f n : ℕ) (acc : Bytes) → All IsDigit acc → All IsDigit (decimal_fuel f n acc)
unfolding decimal_fuel
All-decimal_fuel zero n acc h = h
All-decimal_fuel (suc f) n acc h = ground (arith, All-decimal_fuel f (n / 10) ((48 + n % 10) ∷ acc))

pub All-decimal : (n : ℕ) → All IsDigit (decimal n)
unfolding decimal
All-decimal n = All-decimal_fuel (suc n) n [] tt

pub digits_value-decimal : (n : ℕ) → digits_value 0 (decimal n) ≡ n
unfolding decimal
digits_value-decimal n =
    rw (digits_value-decimal_fuel (suc n) n [] (omega arith)) (unfold digits_value in refl)
