-- ===== src/Evr.antt =====
-- pkgmisc.c: `poldek_util_parse_evr` and `poldek_util_parse_nevr`, which cut `EPOCH:VERSION-RELEASE`
-- and `NAME-EPOCH:VERSION-RELEASE` into parts, in place. The model returns the parts; `none` is the
-- result 0. `strtol` is that of the C library, for base 10 and a `long` of 64 bits.
pub mod Decimal
pub mod RoundTrip
mod Tests
use poldek.Base.{
  ℕ, zero, suc, ◌+◌, ◌-◌, ◌*◌, ◌^◌, ◌≡◌, refl, Bool, true, false, not, ◌&&◌, ◌||◌, Option, none,
  some, List, [], ◌∷◌, ◌++◌, take, drop, length, ltb, leb, ◌==◌, if◌then◌else◌,
}
use poldek.Base.Int.{ℤ, pos, negsuc, is_zero, neg, u32_of_int, i32_of_u32}
use poldek.Base.Bytes.{Bytes, isspace, index_of}

unfoldable pub skip_space : Bytes → Bytes
skip_space [] = []
skip_space (c ∷ cs) = if isspace c then skip_space cs else c ∷ cs

abbrev pub is_digit : ℕ → Bool
is_digit c = leb b'0' c && leb c b'9'

-- The number that the digits at the start of a text spell, behind those that spelled `acc`.
unfoldable pub digits_value : ℕ → Bytes → ℕ
digits_value acc [] = acc
digits_value acc (c ∷ cs) =
    let more = digits_value (acc * 10 + (c - b'0')) cs in if is_digit c then more else acc

-- The sign and the digits behind it.
abbrev signed : Bytes → Bool × Bytes
signed [] = (false, [])
signed (c ∷ cs) =
    if c == b'-' then (true, cs) else if c == b'+' then (false, cs) else (false, c ∷ cs)

-- `strtol(s, NULL, 10)`; `none` sets `errno` to ERANGE.
unfoldable pub strtol : Bytes → Option ℤ
unfolding skip_space digits_value
strtol s =
    let (minus, digits) = signed (skip_space s) in
    let n = digits_value 0 digits in
    if minus
    then (if leb n (2 ^ 63) then some (neg (pos n)) else none)
    else if ltb n (2 ^ 63)
    then some (pos n)
    else none

abbrev pub is_nil : Bytes → Bool
is_nil [] = true
is_nil (c ∷ cs) = false

-- The text is the digit 0 alone.
abbrev is_zero_digit : Bytes → Bool
is_zero_digit [] = false
is_zero_digit (c ∷ cs) = c == b'0' && is_nil cs

-- The text before the colon as an epoch: `(uint32_t) strtol(...)`, put into an `int32_t`.
parse_epoch : Bytes → Option ℤ
parse_epoch [] = some (pos 0)
parse_epoch (c ∷ cs) = elim (strtol (c ∷ cs)) [
  | none ↦ none
  | some n ↦
      let epoch = i32_of_u32 (u32_of_int n) in
      if is_zero epoch && not (is_zero_digit (c ∷ cs)) then none else some epoch
]

-- `VERSION` or `VERSION-RELEASE`, behind the epoch.
parse_vr : ℤ → Bytes → Option (ℤ × Bytes × Option Bytes)
parse_vr epoch s = elim (index_of b'-' s) [
  | none ↦ some (epoch, s, none)
  | some n ↦
      if is_nil (take n s) || is_nil (drop (suc n) s)
      then none
      else some (epoch, take n s, some (drop (suc n) s))
]

-- The rest of the text behind the colon, once the epoch is known.
parse_after_epoch : Option ℤ → Bytes → Option (ℤ × Bytes × Option Bytes)
parse_after_epoch none s = none
parse_after_epoch (some epoch) s = if is_nil s then none else parse_vr epoch s

-- The text once its leading blanks are skipped.
parse_trimmed : Bytes → Option (ℤ × Bytes × Option Bytes)
parse_trimmed s = if is_nil s then none else elim (index_of b':' s) [
  | none ↦ parse_vr (pos 0) s
  | some n ↦ parse_after_epoch (parse_epoch (take n s)) (drop (suc n) s)
]

-- `poldek_util_parse_evr`
unfoldable pub parse_evr : Bytes → Option (ℤ × Bytes × Option Bytes)
unfolding skip_space strtol index_of parse_epoch parse_vr parse_after_epoch parse_trimmed
parse_evr evrstr = parse_trimmed (skip_space evrstr)

parse_evr_trimmed : (s : Bytes) → parse_evr s ≡ parse_trimmed (skip_space s)
unfolding parse_evr
parse_evr_trimmed s = refl

-- `strrchr(s, c)` as the number of bytes before the last `c`.
last_index_of : ℕ → Bytes → Option ℕ
last_index_of c [] = none
last_index_of c (x ∷ xs) = elim (last_index_of c xs) [
  | some n ↦ some (suc n)
  | none ↦ if x == c then some 0 else none
]

-- `poldek_util_parse_nevr`: the name ends at the last dash but one.
unfoldable pub parse_nevr : Bytes → Option (Bytes × ℤ × Bytes × Option Bytes)
unfolding skip_space last_index_of parse_evr
parse_nevr nevrstr =
    let s = skip_space nevrstr in
    if is_nil s then none else elim (last_index_of b'-' s) [
      | none ↦ none
      | some q ↦ elim (last_index_of b'-' (take q s)) [
        | none ↦ none
        | some p ↦ elim (parse_evr (drop (suc p) s)) [
          | none ↦ none
          | some (epoch, version, release) ↦ some (take p s, epoch, version, release)
        ]
      ]
    ]
