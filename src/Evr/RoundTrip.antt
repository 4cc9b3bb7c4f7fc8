-- ===== src/Evr/RoundTrip.antt =====
-- What `do_capreq_snprintf` of capreq.c prints behind the relation of a requirement is read back by
-- `poldek_util_parse_evr`.
use poldek.Base.{
  ℕ, zero, suc, ◌^◌, ◌<◌, ◌≡◌, ◌≢◌, refl, ap, ◌∙◌, false, Option, none, some, [], ◌∷◌, ◌++◌, arith,
  All, drop, length, take-append,
}
use mathlib.Core.List.{append-nil, append_assoc}
use poldek.Base.Int.{ℤ, pos}
use poldek.Base.Bytes.{Bytes, isspace, index_of-append, index_of-none}
use poldek.Evr.{
  parse_evr, parse_trimmed, parse_evr_trimmed, parse_epoch, parse_vr, parse_after_epoch, skip_space,
  strtol, digits_value, is_nil,
}
use poldek.Evr.Decimal.{decimal, IsDigit, All-decimal, digits_value-decimal}

abbrev print_epoch : ℕ → Bytes
print_epoch zero = []
print_epoch (suc n) = decimal (suc n) ++ b':' ∷ []

abbrev print_release : Option Bytes → Bytes
print_release none = []
print_release (some r) = b'-' ∷ r

-- `%d:` if there is an epoch, `%s`, and `-%s` if there is a release.
unfoldable pub print_evr : ℕ → Bytes → Option Bytes → Bytes
print_evr epoch v r = print_epoch epoch ++ (v ++ print_release r)

-- A version that can be told from what stands around it: some bytes, no blank, colon or dash.
pub record IsVersion (v : Bytes) : Type 0 where
  pub some_byte : v ≢ []
  pub plain : All (λ c. (c ≢ b':') × (c ≢ b'-') × (isspace c ≡ false)) v

abbrev pub IsRelease? : Option Bytes → Type 0
IsRelease? none = Unit
IsRelease? (some r) = (r ≢ []) × All (λ c. c ≢ b':') r

All-weaken : {P Q : ℕ → Type 0} (xs : Bytes) → ((c : ℕ) → P c → Q c) → All P xs → All Q xs
All-weaken [] f h = tt
All-weaken (x ∷ xs) f h = (f x h.0, All-weaken xs f h.1)

All-append : (P : ℕ → Type 0) (xs ys : Bytes) → All P xs → All P ys → All P (xs ++ ys)
All-append P [] ys h k = k
All-append P (x ∷ xs) ys h k = (h.0, All-append P xs ys h.1 k)

is_nil_ne : (xs : Bytes) → xs ≢ [] → is_nil xs ≡ false
is_nil_ne [] h = absurd (h refl)
is_nil_ne (x ∷ xs) h = refl

is_nil-append : (xs ys : Bytes) → xs ≢ [] → is_nil (xs ++ ys) ≡ false
is_nil-append [] ys h = absurd (h refl)
is_nil-append (x ∷ xs) ys h = refl

drop_behind : (c : ℕ) (xs rest : Bytes) → drop (suc (length xs)) (xs ++ c ∷ rest) ≡ rest
drop_behind c [] rest = refl
drop_behind c (x ∷ xs) rest = drop_behind c xs rest

parse_vr-print :
    (e : ℤ) (v : Bytes) (r : Option Bytes)
    → IsVersion v
    → IsRelease? r
    → parse_vr e (v ++ print_release r) ≡ some (e, v, r)
unfolding parse_vr
parse_vr-print e v none hv hr =
    rw append-nil (rw (parse_vr, index_of-none b'-' v (All-weaken v (λ c p. p.1) hv.plain)))
parse_vr-print e v (some r) hv hr = rw (
  parse_vr,
  index_of-append b'-' v r (All-weaken v (λ c p. p.1) hv.plain),
  take-append v (b'-' ∷ r),
  drop_behind b'-' v r,
  is_nil_ne v hv.some_byte,
  is_nil_ne r hr.0,
)

strtol-digits :
    (c : ℕ) (s : Bytes) (n : ℕ)
    → IsDigit c
    → digits_value 0 (c ∷ s) ≡ n
    → n < 2 ^ 31
    → strtol (c ∷ s) ≡ some (pos n)
unfolding strtol skip_space
strtol-digits c s n d e small = ground arith

parse_epoch-digits :
    (s : Bytes) (n : ℕ)
    → All IsDigit s
    → digits_value 0 s ≡ n
    → 0 < n
    → n < 2 ^ 31
    → parse_epoch s ≡ some (pos n)
parse_epoch-digits [] n d e positive small = unfold digits_value in absurd (omega arith)
parse_epoch-digits (c ∷ s) n d e positive small =
    let value = strtol-digits c s n d.0 e small in unfold parse_epoch in ground arith

-- A text that starts with no blank is not shortened.
skip_space-stays : (c : ℕ) (s : Bytes) → isspace c ≡ false → skip_space (c ∷ s) ≡ c ∷ s
unfolding skip_space
skip_space-stays c s h = rw h

colonless :
    (v : Bytes) (r : Option Bytes)
    → IsVersion v
    → IsRelease? r
    → All (λ c. c ≢ b':') (v ++ print_release r)
colonless v none hv hr = All-append _ v [] (All-weaken v (λ c p. p.0) hv.plain) tt
colonless v (some r) hv hr =
    All-append _ v (b'-' ∷ r) (All-weaken v (λ c p. p.0) hv.plain) ((λ e. omega arith), hr.1)

parse_epoch-decimal : (n : ℕ) → 0 < n → n < 2 ^ 31 → parse_epoch (decimal n) ≡ some (pos n)
parse_epoch-decimal n positive small =
    parse_epoch-digits (decimal n) n (All-decimal n) (digits_value-decimal n) positive small

-- The text behind `D:`, where `D` is read as the epoch.
parse_trimmed-epoch :
    (d rest : Bytes) (e : ℤ)
    → All IsDigit d
    → d ≢ []
    → parse_epoch d ≡ some e
    → rest ≢ []
    → parse_trimmed (d ++ b':' ∷ rest) ≡ parse_vr e rest
unfolding parse_trimmed parse_after_epoch
parse_trimmed-epoch d rest e digits some_digit h some_rest = rw (
  is_nil-append d (b':' ∷ rest) some_digit,
  index_of-append b':' d rest (All-weaken d (λ c p z. omega arith) digits),
  take-append d (b':' ∷ rest),
  drop_behind b':' d rest,
  h,
  parse_after_epoch,
  is_nil_ne rest some_rest,
)

parse_trimmed-plain :
    (s : Bytes) → s ≢ [] → All (λ c. c ≢ b':') s → parse_trimmed s ≡ parse_vr (pos 0) s
unfolding parse_trimmed
parse_trimmed-plain s some_byte h = rw (is_nil_ne s some_byte, index_of-none b':' s h)

skip_space-version : (v rest : Bytes) → IsVersion v → skip_space (v ++ rest) ≡ v ++ rest
skip_space-version [] rest h = absurd (h.some_byte refl)
skip_space-version (c ∷ v) rest h = skip_space-stays c (v ++ rest) h.plain.0.2

skip_space-digits : (d rest : Bytes) → All IsDigit d → d ≢ [] → skip_space (d ++ rest) ≡ d ++ rest
skip_space-digits [] rest h some_digit = absurd (some_digit refl)
skip_space-digits (c ∷ d) rest h some_digit = skip_space-stays c (d ++ rest) (ground arith)

decimal_ne : (n : ℕ) → 0 < n → decimal n ≢ []
decimal_ne n positive e =
    unfold digits_value in omega (arith, digits_value-decimal n, ap (digits_value 0) e)

print_ne : (v rest : Bytes) → v ≢ [] → v ++ rest ≢ []
print_ne [] rest h e = h refl
print_ne (c ∷ v) rest h e = cc

-- Leading blanks are skipped first.
parse_evr_of-skip : (s t : Bytes) → skip_space s ≡ t → parse_evr s ≡ parse_trimmed t
parse_evr_of-skip s t h = parse_evr_trimmed s ∙ ap parse_trimmed h

-- What is printed for an epoch below 2^31, a version that is not empty and has no blank, colon or
-- dash, and no release or one that is not empty and has no colon, is parsed into these three
-- parts.
pub parse_evr-print :
    (n : ℕ) (v : Bytes) (r : Option Bytes)
    → n < 2 ^ 31
    → IsVersion v
    → IsRelease? r
    → parse_evr (print_evr n v r) ≡ some (pos n, v, r)
unfolding print_evr
parse_evr-print zero v r small hv hr =
    parse_evr_of-skip _ _ (skip_space-version v (print_release r) hv)
    ∙ (parse_trimmed-plain _ (print_ne v _ hv.some_byte) (colonless v r hv hr)
        ∙ parse_vr-print (pos 0) v r hv hr)
parse_evr-print (suc n) v r small hv hr =
    let d = decimal (suc n) in
    let nonempty = decimal_ne (suc n) (omega arith) in
    rw append_assoc (
      parse_evr_of-skip _ _ (skip_space-digits d _ (All-decimal (suc n)) nonempty)
      ∙ (parse_trimmed-epoch d (v ++ print_release r) (pos (suc n)) (All-decimal (suc n)) nonempty
            (parse_epoch-decimal (suc n) (omega arith) small) (print_ne v _ hv.some_byte)
          ∙ parse_vr-print (pos (suc n)) v r hv hr))
