-- ===== src/Capreq/Arr.antt =====
-- `capreq_arr_store_n`, `capreq_arr_store`, `restore_parts` and `capreq_arr_restore` of capreq.c. The
-- array's sort and the 16-bit words of a buffer are trurlib's and are parameters. The buffer is the
-- list of its bytes up to `n_buf_tell`; a seek back to where a record began drops the record.
pub mod Restores
pub mod RoundTrip
pub mod Parts
mod Tests
use poldek.Base.{
  ℕ, zero, suc, ◌+◌, ◌-◌, ◌^◌, Bool, true, false, Option, none, some, List, [], ◌∷◌, ◌++◌, length,
  ltb, ◌==◌, if◌then◌else◌,
}
use poldek.Base.Bytes.{Bytes}
use poldek.Capreq.{Capreq}
use poldek.Capreq.Store.Store.{StoreResult, added, died, unfinished}
use poldek.Capreq.Store.Restore.{Restored, null, asserted, outside, got}

-- `capreq_is_bastard`
abbrev pub capreq_is_bastard : Capreq → Bool
capreq_is_bastard cr = cr.flags.bastard

unfoldable pub capreq_arr_store_n : List Capreq → ℕ
capreq_arr_store_n [] = 0
capreq_arr_store_n (cr ∷ arr) =
    let n = capreq_arr_store_n arr in if capreq_is_bastard cr then n else n + 1

abbrev pub some_bastard : List Capreq → Bool
some_bastard [] = false
some_bastard (cr ∷ arr) = let rest = some_bastard arr in if capreq_is_bastard cr then true else rest

-- The records that are stored, and how many, up to the first one that takes the size over the limit
-- of 64K: `size` bytes precede them, behind the word of the size.
pub data Records : Type 0 where
  records : Bytes → ℕ → Records
  no_records : StoreResult → Records

abbrev pub record_before : Bytes → Records → Records
record_before bytes (records more n) = records (bytes ++ more) (n + 1)
record_before bytes (no_records r) = no_records r

-- One record, `rest` being the records behind it.
abbrev pub store_next : ℕ → StoreResult → Records → Records
store_next size (added bytes) rest =
    if ltb (2 ^ 16 - 2) (size + length bytes) then records [] 0 else record_before bytes rest
store_next size died rest = no_records died
store_next size unfinished rest = no_records unfinished

abbrev pub added_length : StoreResult → ℕ
added_length (added bytes) = length bytes
added_length died = 0
added_length unfinished = 0

unfoldable pub store_records : (Capreq → StoreResult) → ℕ → List Capreq → Records
store_records store size [] = records [] 0
store_records store size (cr ∷ arr) =
    let rest = store_records store (size + added_length (store cr)) arr in
    store_next size (store cr) rest

-- The words of the size and of the number of records, the records and a line feed.
abbrev pub with_sizes : (ℕ → Bytes) → Bytes → Records → StoreResult
with_sizes n_buf_add_int16 nbuf (records bytes n) = added (
    nbuf
    ++ (n_buf_add_int16 (2 + length bytes + 1) ++ (n_buf_add_int16 n ++ (bytes ++ b'\n' ∷ []))))
with_sizes n_buf_add_int16 nbuf (no_records r) = r

-- `capreq_arr_store`; `store` is `capreq_store`, and `added` has the whole buffer.
unfoldable pub capreq_arr_store :
    (List Capreq → List Capreq)
    → (ℕ → Bytes)
    → (Capreq → StoreResult)
    → List Capreq
    → Bytes
    → StoreResult
unfolding store_records
capreq_arr_store n_array_isort n_buf_add_int16 store arr nbuf =
    if ltb (length arr) (2 ^ 16 - 1)
    then (if some_bastard arr
        then died
        else if length arr == 0
        then added nbuf
        else with_sizes n_buf_add_int16 nbuf (store_records store 2 (n_array_isort arr)))
    else died

-- One turn of the loop in `restore_parts`: a part of the name, or what ends the loop.
pub data PartStep : Type 0 where
  name_part : Bytes → Bytes → PartStep
  ends : Restored → PartStep

abbrev pub part_step : Restored → PartStep
part_step (null rest) = ends (null rest)
part_step asserted = ends asserted
part_step outside = ends outside
part_step (got part rest splitted) =
    if part.relflags.part
    then (if splitted then ends asserted else name_part part.name rest)
    else ends (got part rest splitted)

-- The loop of `restore_parts`: the joined name, the number of parts, and what ended the loop.
-- `none`: out of fuel.
unfoldable pub restore_parts :
    (Bytes → Restored) → ℕ → Bytes → ℕ → Bytes → Option (Bytes × ℕ × Restored)
restore_parts restore zero name nparts bytes = none
restore_parts restore (suc fuel) name nparts bytes = elim (part_step (restore bytes)) [
  | name_part piece rest ↦ restore_parts restore fuel (name ++ piece) (nparts + 1) rest
  | ends r ↦ some (name, nparts, r)
]

-- Where the loops of `capreq_arr_restore` stand: at the next record of the array, or behind the
-- first record of a split `capreq`, in the inner loop.
pub data Place : Type 0 where
  next : Bytes → Place
  within : Capreq → Bytes → Place

-- A step: `capreq`s for the array, the place, and how many turns of the outer loop are left.
pub data ArrStep : Type 0 where
  go : List Capreq → Place → ℕ → ArrStep
  stop : ArrStep
  fails : ArrStep

-- A turn of the outer loop; `n` turns are left behind it.
abbrev pub outer_step : Restored → ℕ → ArrStep
outer_step (null rest) n = go [] (next rest) n
outer_step asserted n = fails
outer_step outside n = fails
outer_step (got cr rest splitted) n =
    if capreq_is_bastard cr
    then go [] (next rest) n
    else if splitted
    then go [] (within cr rest) n
    else go (cr ∷ []) (next rest) n

-- The rest of a turn of the inner loop, behind `restore_parts`. A `capreq` behind the parts takes a
-- turn of the outer loop; with none left it has no place in the array.
abbrev pub inner_step : Capreq → Restored → ℕ → ArrStep
inner_step cr (null rest) n = go (cr ∷ []) (next rest) n
inner_step cr asserted n = fails
inner_step cr outside n = fails
inner_step cr (got part rest splitted) zero = fails
inner_step cr (got part rest splitted) (suc n) =
    if splitted then go (cr ∷ []) (within part rest) n else go (cr ∷ part ∷ []) (next rest) n

abbrev pub with_parts : Capreq → Option (Bytes × ℕ × Restored) → ℕ → ArrStep
with_parts cr none n = fails
with_parts cr (some (name, zero, r)) n = fails
with_parts cr (some (name, suc nparts, r)) n = inner_step (record cr { name = name }) r n

unfoldable pub arr_step : (Bytes → Restored) → ℕ → Place → ℕ → ArrStep
unfolding restore_parts
arr_step restore fuel (next bytes) zero = stop
arr_step restore fuel (next bytes) (suc n) = outer_step (restore bytes) n
arr_step restore fuel (within cr bytes) n =
    with_parts cr (restore_parts restore fuel cr.name 0 bytes) n

abbrev pub before : List Capreq → Option (List Capreq) → Option (List Capreq)
before crs none = none
before crs (some more) = some (crs ++ more)

-- The loops; `none`: an assertion, a read or a write outside, or out of fuel.
unfoldable pub restore_array : (Bytes → Restored) → ℕ → Place → ℕ → Option (List Capreq)
unfolding arr_step
restore_array restore zero place n = none
restore_array restore (suc fuel) place n = elim (arr_step restore fuel place n) [
  | go crs place n ↦ before crs (restore_array restore fuel place n)
  | stop ↦ some []
  | fails ↦ none
]

-- `capreq_arr_restore` on a buffer behind the word of its size; an empty array stands for NULL.
unfoldable pub capreq_arr_restore :
    (Bytes → Option (ℕ × Bytes)) → (Bytes → Restored) → ℕ → Bytes → Option (List Capreq)
unfolding restore_array
capreq_arr_restore n_buf_it_get_int16 restore fuel bytes = elim (n_buf_it_get_int16 bytes) [
  | none ↦ restore_array restore fuel (next bytes) 0
  | some (arr_size, rest) ↦ restore_array restore fuel (next rest) arr_size
]
