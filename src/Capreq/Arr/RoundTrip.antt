-- ===== src/Capreq/Arr/RoundTrip.antt =====
-- `capreq_arr_store` and `capreq_arr_restore` of capreq.c, one behind the other.
use poldek.Base.{
  ℕ, suc, ◌+◌, ◌<◌, ◌≤◌, ◌≡◌, refl, sym, ap, false, Option, some, List, [], ◌∷◌, ◌++◌, map, arith,
  length, length-append, All,
}
use mathlib.Core.List.{append_assoc}
use poldek.Base.Bytes.{Bytes}
use poldek.Capreq.{Capreq}
use poldek.Capreq.Store.Store.{StoreResult, added}
use poldek.Capreq.Store.Restore.{Restored}
use poldek.Capreq.Arr.{some_bastard, records, store_records, capreq_arr_store, capreq_arr_restore}
use poldek.Capreq.Arr.Restores.{
  Rec, whole, split, part_bytes, rec_bytes, rec_capreq, turns, IsRec, IsEnd, restore_array-next,
}

-- The records of one `capreq`.
abbrev pub rec_own : Rec → Bytes
rec_own (whole bytes cr) = bytes
rec_own (split bytes cr parts) = bytes ++ part_bytes parts

rec_bytes-own : (r : Rec) (recs : List Rec) → rec_bytes (r ∷ recs) ≡ rec_own r ++ rec_bytes recs
rec_bytes-own (whole bytes cr) recs = refl
rec_bytes-own (split bytes cr parts) recs =
    sym (append_assoc bytes (part_bytes parts) (rec_bytes recs))

-- The records of the `capreq`s of an array, and those alone.
abbrev pub recs_of : List (Capreq × Rec) → List Rec
recs_of [] = []
recs_of ((cr, r) ∷ stored) = r ∷ recs_of stored

abbrev pub capreqs_of : List (Capreq × Rec) → List Capreq
capreqs_of [] = []
capreqs_of ((cr, r) ∷ stored) = cr ∷ capreqs_of stored

length-recs_of : (stored : List (Capreq × Rec)) → length (recs_of stored) ≡ length stored
length-recs_of [] = refl
length-recs_of ((cr, r) ∷ stored) = ap suc (length-recs_of stored)

-- The words, records and the line feed behind the word of the size.
abbrev pub array_bytes : (ℕ → Bytes) → List Rec → Bytes
array_bytes n_buf_add_int16 recs = n_buf_add_int16 (length recs) ++ (rec_bytes recs ++ b'\n' ∷ [])

module _ (store : Capreq → StoreResult) (restore : Bytes → Restored) where
  -- The `capreq` is stored as the record, which is restored.
  abbrev pub IsStored : Capreq × Rec → Type 0
  IsStored (cr, r) = (store cr ≡ added (rec_own r)) × IsRec restore r

  store_records-fit :
      (size : ℕ) (stored : List (Capreq × Rec))
      → All IsStored stored
      → size + length (rec_bytes (recs_of stored)) ≤ 65534
      → store_records store size (capreqs_of stored)
        ≡ records (rec_bytes (recs_of stored)) (length (recs_of stored))
  unfolding store_records
  store_records-fit size [] h fits = refl
  store_records-fit size ((cr, r) ∷ stored) h fits =
      let own = rec_bytes-own r (recs_of stored) in
      let sum = length-append (rec_own r) (rec_bytes (recs_of stored)) in
      let rest =
        store_records-fit (size + length (rec_own r)) stored h.1
          (omega (arith, ap length own, sum)) in
      ground (arith, h.0.0, rest, own, ap length own, sum)

  IsStored-recs :
      (stored : List (Capreq × Rec)) → All IsStored stored → All (IsRec restore) (recs_of stored)
  IsStored-recs [] h = tt
  IsStored-recs ((cr, r) ∷ stored) h = (h.0.1, IsStored-recs stored h.1)

  -- An array of at least one and less than 65535 `capreq`s, none made by poldek, each of which is
  -- stored as records that are restored, and whose records take at most 65532 bytes, is stored: the
  -- word of the size, that of the number, the records in the order of the sort, and a line feed.
  -- From behind the word of the size `capreq_arr_restore` reads the sorted array back, split
  -- `capreq`s with their whole names, given more fuel than the loops take turns. A 16-bit word is
  -- read as it was written, and a line feed alone is no record.
  pub capreq_arr_restore-capreq_arr_store :
      (n_array_isort : List Capreq → List Capreq) (n_buf_add_int16 : ℕ → Bytes)
      (n_buf_it_get_int16 : Bytes → Option (ℕ × Bytes)) (arr : List Capreq) (nbuf : Bytes)
      (stored : List (Capreq × Rec)) (fuel : ℕ)
      → n_array_isort arr ≡ capreqs_of stored
      → length arr ≡ length stored
      → some_bastard arr ≡ false
      → 0 < length arr
      → length arr < 65535
      → 2 + length (rec_bytes (recs_of stored)) ≤ 65534
      → All IsStored stored
      → ((n : ℕ) (rest : Bytes)
          → n < 65536
          → n_buf_it_get_int16 (n_buf_add_int16 n ++ rest) ≡ some (n, rest))
      → IsEnd restore (b'\n' ∷ [])
      → turns (recs_of stored) < fuel
      → (size : ℕ) × (capreq_arr_store n_array_isort n_buf_add_int16 store arr nbuf
          ≡ added (nbuf ++ (n_buf_add_int16 size ++ array_bytes n_buf_add_int16 (recs_of stored))))
        × (size < 65536)
        × (capreq_arr_restore n_buf_it_get_int16 restore fuel
              (array_bytes n_buf_add_int16 (recs_of stored))
            ≡ some (map rec_capreq (recs_of stored)))
  unfolding capreq_arr_store capreq_arr_restore
  capreq_arr_restore-capreq_arr_store isort add_int16 get_int16 arr nbuf stored fuel sorted same
        plain some_capreq few fits h word ended enough =
      let recs = recs_of stored in
      let written = store_records-fit 2 stored h fits in
      let measured = length-recs_of stored in
      let count = word (length recs) (rec_bytes recs ++ b'\n' ∷ []) (omega (arith, measured)) in
      let read =
        restore_array-next restore (b'\n' ∷ []) ended fuel recs (IsStored-recs stored h) enough in
      (
        2 + length (rec_bytes recs) + 1,
        ground (arith, sorted, plain, written),
        omega arith,
        ground (arith, count, read),
      )
