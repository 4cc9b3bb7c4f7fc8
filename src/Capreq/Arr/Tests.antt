-- ===== src/Capreq/Arr/Tests.antt =====
-- Instances of the theorems about stored capabilities.
use poldek.Base.{
  ℕ, zero, suc, ◌+◌, ◌*◌, ◌/◌, ◌%◌, ◌<◌, ◌≡◌, refl, sym, ap, ◌∙◌, Bool, true, false, Option, none,
  some, [], ◌∷◌, ◌++◌, arith, length, All,
}
use poldek.Base.Int.{pos}
use poldek.Base.Bytes.{Bytes, codes, has_prefix}
use poldek.Capreq.{Capreq, rel_eq, no_flags, c_str, bytes_of_i32}
use poldek.Capreq.New.{capreq_fill, capreq_new_name}
use poldek.Capreq.New.Fields.{IsCStr}
use poldek.Capreq.Clone.{capreq_bufsize}
use poldek.Capreq.Store.Store.{added, unfinished, capreq_store, store_record, split_name, room}
use poldek.Capreq.Store.Restore.{got, capreq_restore, restore_fields}
use poldek.Capreq.Store.Restores.{ReadsBytes}
use poldek.Capreq.Store.RoundTrip.{capreq_restore-capreq_store}
use poldek.Capreq.Store.Splits.{joined_pieces, capreq_store_stuck, capreq_store-added}
use poldek.Capreq.Arr.{capreq_arr_store, capreq_arr_restore}
use poldek.Capreq.Arr.Restores.{Rec, whole, IsRec, IsEnd, rec_capreq}
use poldek.Capreq.Arr.RoundTrip.{
  rec_own, IsStored, array_bytes, capreq_arr_restore-capreq_arr_store,
}
use poldek.Capreq.Arr.Parts.{IsKept, capreq_store-split}

-- An iterator on a list of bytes.
abbrev get_int8 : Bytes → Option (ℕ × Bytes)
get_int8 [] = none
get_int8 (c ∷ s) = some (c, s)

abbrev with_byte : ℕ → Option (Bytes × Bytes) → Option (Bytes × Bytes)
with_byte c none = none
with_byte c (some (xs, rest)) = some (c ∷ xs, rest)

abbrev get : ℕ → Bytes → Option (Bytes × Bytes)
get zero s = some ([], s)
get (suc n) [] = none
get (suc n) (c ∷ s) = with_byte c (get n s)

get-length : (xs rest : Bytes) → get (length xs) (xs ++ rest) ≡ some (xs, rest)
get-length [] rest = refl
get-length (c ∷ xs) rest = ap (with_byte c) (get-length xs rest)

get_short : (n : ℕ) (xs : Bytes) → length xs < n → get n xs ≡ none
get_short zero xs h = absurd (omega arith)
get_short (suc n) [] h = refl
get_short (suc n) (c ∷ xs) h = ap (with_byte c) (get_short n xs (omega arith))

get-ReadsBytes : ReadsBytes get_int8 get
get-ReadsBytes = record {
  int8 = λ c rest. refl;
  bytes = λ n xs rest h. ap (λ m. get m (xs ++ rest)) (sym h) ∙ get-length xs rest;
  short = get_short;
  nothing = refl;
}

abbrev foo : Bytes
foo = codes "foo"

abbrev one : Bytes
one = codes "1"

-- What is read behind `free`: blanks.
abbrev garbage : Bytes → Bytes
garbage [] = []
garbage (c ∷ s) = b' ' ∷ garbage s

-- foo = 7:1
abbrev foo_cr : Bool → Capreq
foo_cr na = capreq_fill na foo (pos 7) (some one) none rel_eq no_flags

foo-IsCStr : IsCStr (capreq_new_name foo).0
unfolding capreq_new_name has_prefix
foo-IsCStr = ground arith

capreq_restore-capreq_store_example :
    (bytes : Bytes) × (capreq_store garbage 1 (foo_cr false) ≡ added bytes)
    × (capreq_restore get_int8 get true (bytes ++ foo) ≡ got (foo_cr true) foo false)
unfolding capreq_new_name has_prefix bytes_of_i32
capreq_restore-capreq_store_example =
    capreq_restore-capreq_store get_int8 get get-ReadsBytes garbage 0 false true foo (pos 7)
      (some one) none rel_eq no_flags foo refl refl foo-IsCStr (ground arith) tt (ground arith)

-- A version of 248 letters, which leaves no place for a name.
abbrev letters : ℕ → Bytes
letters zero = []
letters (suc n) = b'a' ∷ letters n

capreq_store_stuck_example :
    capreq_store garbage 9 (capreq_fill false foo (pos 0) (some (letters 248)) none rel_eq no_flags)
    ≡ unfinished
unfolding capreq_fill
capreq_store_stuck_example =
    capreq_store_stuck garbage 9 250 b'f' (codes "oo")
      (capreq_fill false foo (pos 0) (some (letters 248)) none rel_eq no_flags)
      (unfold capreq_bufsize c_str in refl) (ground arith) refl

-- A name of 250 letters.
abbrev long_cr : Bool → Capreq
long_cr na = capreq_fill na (letters 250) (pos 0) (some one) none rel_eq no_flags

capreq_store-added_example :
    (bytes : Bytes) × (capreq_store garbage 252 (long_cr false) ≡ added bytes)
unfolding capreq_fill capreq_new_name has_prefix
capreq_store-added_example =
    capreq_store-added garbage 250 2 (long_cr false) (unfold capreq_bufsize c_str in refl)
      (ground arith) (ground arith)

letters-IsCStr : (n : ℕ) → IsCStr (letters n)
letters-IsCStr zero = tt
letters-IsCStr (suc n) = ((λ e. omega (arith, e)), letters-IsCStr n)

long_name : (capreq_new_name (letters 250)).0 ≡ letters 250
unfolding capreq_new_name has_prefix
long_name = refl

long_pieces : split_name 251 (room 2) (letters 250) ≡ some (letters 247 ∷ letters 3 ∷ [])
unfolding split_name
long_pieces = refl

pieces-IsKept : All IsKept (letters 247 ∷ letters 3 ∷ [])
unfolding capreq_new_name has_prefix
pieces-IsKept = (refl, (refl, tt))

garbage-IsCStr : (s : Bytes) → IsCStr (garbage s)
garbage-IsCStr [] = tt
garbage-IsCStr (c ∷ s) = ((λ e. omega (arith, e)), garbage-IsCStr s)

length-garbage : (s : Bytes) → length (garbage s) ≡ length s
length-garbage [] = refl
length-garbage (c ∷ s) = ap suc (length-garbage s)

capreq_store-split_example :
    (rec : Rec) × (capreq_store garbage 252 (long_cr false) ≡ added (rec_own rec))
    × IsRec (capreq_restore get_int8 get true) rec
    × (rec_capreq rec
        ≡ record (long_cr true) { name = garbage (letters 247) ++ joined_pieces (letters 3 ∷ []) })
    × (letters 247 ++ joined_pieces (letters 3 ∷ []) ≡ (capreq_new_name (letters 250)).0)
capreq_store-split_example =
    capreq_store-split get_int8 get get-ReadsBytes garbage 250 false (letters 250) (pos 0) one none
      rel_eq no_flags (letters 247) (letters 3 ∷ []) refl refl (rw long_name (letters-IsCStr 250))
      (ground arith) tt (ground arith) (omega (arith, ap length long_name))
      (omega (arith, ap length long_name)) (omega (arith, ap length long_name))
      (ap (split_name 251 (room 2)) long_name ∙ long_pieces) pieces-IsKept
      (garbage-IsCStr (letters 247)) (length-garbage (letters 247))

-- foo = 7:1 as a record.
abbrev foo_bytes : Bytes
foo_bytes = 15 ∷ 1 ∷ 0 ∷ 5 ∷ 9 ∷ 0 ∷ 0 ∷ (foo ++ 0 ∷ 0 ∷ 0 ∷ 0 ∷ 7 ∷ b'1' ∷ [])

foo-IsStored :
    IsStored
      (capreq_store garbage 1)
      (capreq_restore get_int8 get true)
      (foo_cr false, whole foo_bytes (foo_cr true))
unfolding capreq_store capreq_restore capreq_fill bytes_of_i32 store_record restore_fields
foo-IsStored = (refl, ((λ rest. refl), refl, refl))

abbrev word : ℕ → Bytes
word n = n / 256 ∷ n % 256 ∷ []

abbrev get_word : Bytes → Option (ℕ × Bytes)
get_word (a ∷ b ∷ rest) = some (a * 256 + b, rest)
get_word _ = none

word-read : (n : ℕ) (rest : Bytes) → n < 65536 → get_word (word n ++ rest) ≡ some (n, rest)
word-read n rest h = ground arith

newline-IsEnd : IsEnd (capreq_restore get_int8 get true) (b'\n' ∷ [])
unfolding capreq_restore
newline-IsEnd = ([], refl)

capreq_arr_restore-capreq_arr_store_example :
    (size : ℕ) × (capreq_arr_store
        (λ arr. arr)
        word
        (capreq_store garbage 1)
        (foo_cr false ∷ foo_cr false ∷ [])
        []
      ≡ added (
          word size
          ++ array_bytes word (whole foo_bytes (foo_cr true) ∷ whole foo_bytes (foo_cr true) ∷ [])))
    × (size < 65536)
    × (capreq_arr_restore get_word
          (capreq_restore get_int8 get true)
          3
          (array_bytes word (whole foo_bytes (foo_cr true) ∷ whole foo_bytes (foo_cr true) ∷ []))
        ≡ some (foo_cr true ∷ foo_cr true ∷ []))
capreq_arr_restore-capreq_arr_store_example =
    capreq_arr_restore-capreq_arr_store (capreq_store garbage 1) (capreq_restore get_int8 get true)
      (λ arr. arr) word get_word (foo_cr false ∷ foo_cr false ∷ []) []
      ((foo_cr false, whole foo_bytes (foo_cr true))
        ∷ (foo_cr false, whole foo_bytes (foo_cr true))
        ∷ [])
      3 refl refl (unfold capreq_fill in refl) (ground arith) (ground arith) (ground arith)
      (foo-IsStored, (foo-IsStored, tt)) word-read newline-IsEnd (ground arith)
