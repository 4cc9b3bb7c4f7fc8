-- ===== src/Capreq/Arr/Restores.antt =====
-- What `capreq_arr_restore` reads back: records of whole and of split capabilities, in any order.
use poldek.Base.{
  ℕ, zero, suc, ◌+◌, ◌<◌, ◌≡◌, refl, ap, ◌∙◌, Bool, true, false, some, List, [], ◌∷◌, ◌++◌, map,
  arith, length, All,
}
use mathlib.Core.List.{append_assoc}
use poldek.Base.Bytes.{Bytes}
use poldek.Capreq.{Capreq}
use poldek.Capreq.Store.Restore.{Restored, null, got}
use poldek.Capreq.Arr.{
  capreq_is_bastard, ends, part_step, restore_parts, Place, next, within, go, inner_step,
  with_parts, arr_step, before, restore_array,
}

-- The bytes of a `capreq` with what they are restored to; a split one has the records of its parts.
pub data Rec : Type 0 where
  whole : Bytes → Capreq → Rec
  split : Bytes → Capreq → List (Bytes × Capreq) → Rec

abbrev pub part_bytes : List (Bytes × Capreq) → Bytes
part_bytes [] = []
part_bytes ((bytes, part) ∷ parts) = bytes ++ part_bytes parts

abbrev pub joined_name : Bytes → List (Bytes × Capreq) → Bytes
joined_name name [] = name
joined_name name ((bytes, part) ∷ parts) = joined_name (name ++ part.name) parts

abbrev pub rec_bytes : List Rec → Bytes
rec_bytes [] = []
rec_bytes (whole bytes cr ∷ recs) = bytes ++ rec_bytes recs
rec_bytes (split bytes cr parts ∷ recs) = bytes ++ (part_bytes parts ++ rec_bytes recs)

-- The `capreq` with its whole name.
abbrev pub rec_capreq : Rec → Capreq
rec_capreq (whole bytes cr) = cr
rec_capreq (split bytes cr parts) = record cr { name = joined_name cr.name parts }

-- The turns of the loops that records take, at most.
abbrev pub turns : List Rec → ℕ
turns [] = 0
turns (whole bytes cr ∷ recs) = 1 + turns recs
turns (split bytes cr parts ∷ recs) = 2 + length parts + turns recs

module _ (restore : Bytes → Restored) where
  -- The bytes are restored to `cr`, whatever stands behind them.
  abbrev pub IsRead : Bytes → Capreq → Bool → Type 0
  IsRead bytes cr splitted = (rest : Bytes) → restore (bytes ++ rest) ≡ got cr rest splitted

  abbrev pub IsPart : Bytes × Capreq → Type 0
  IsPart (bytes, part) = IsRead bytes part false × (part.relflags.part ≡ true)

  abbrev pub IsRec : Rec → Type 0
  IsRec (whole bytes cr) =
      IsRead bytes cr false × (cr.relflags.part ≡ false) × (capreq_is_bastard cr ≡ false)
  IsRec (split bytes cr parts) =
      IsRead bytes cr true
      × (cr.relflags.part ≡ false)
      × (capreq_is_bastard cr ≡ false)
      × (0 < length parts)
      × All IsPart parts

  restore_parts-part_bytes :
      (fuel : ℕ) (name : Bytes) (n : ℕ) (parts : List (Bytes × Capreq)) (s : Bytes) (r : Restored)
      → All IsPart parts
      → part_step (restore s) ≡ ends r
      → length parts < fuel
      → restore_parts restore fuel name n (part_bytes parts ++ s)
        ≡ some (joined_name name parts, n + length parts, r)
  unfolding restore_parts
  restore_parts-part_bytes zero name n parts s r h e enough = absurd (omega arith)
  restore_parts-part_bytes (suc fuel) name n [] s r h e enough = ground (arith, e)
  restore_parts-part_bytes (suc fuel) name n ((bytes, part) ∷ parts) s r h e enough =
      let ih =
        restore_parts-part_bytes fuel (name ++ part.name) (n + 1) parts s r h.1 e (omega arith) in
      ground
        (arith, append_assoc bytes (part_bytes parts) s, h.0.0 (part_bytes parts ++ s), h.0.1, ih)

  -- Behind the last record nothing is read.
  abbrev pub IsEnd : Bytes → Type 0
  IsEnd tail = (rest : Bytes) × (restore tail ≡ null rest)

  arr_step-whole :
      (fuel n : ℕ) (bytes : Bytes) (cr : Capreq) (recs : List Rec) (tail : Bytes)
      → IsRec (whole bytes cr)
      → arr_step restore fuel (next (rec_bytes (whole bytes cr ∷ recs) ++ tail)) (suc n)
        ≡ go (cr ∷ []) (next (rec_bytes recs ++ tail)) n
  unfolding arr_step
  arr_step-whole fuel n bytes cr recs tail h =
      ground (arith, append_assoc bytes (rec_bytes recs) tail, h.0 (rec_bytes recs ++ tail), h.2)

  arr_step-split :
      (fuel n : ℕ) (bytes : Bytes) (cr : Capreq) (parts : List (Bytes × Capreq)) (recs : List Rec)
      (tail : Bytes)
      → IsRec (split bytes cr parts)
      → arr_step restore fuel (next (rec_bytes (split bytes cr parts ∷ recs) ++ tail)) (suc n)
        ≡ go [] (within cr (part_bytes parts ++ (rec_bytes recs ++ tail))) n
  unfolding arr_step
  arr_step-split fuel n bytes cr parts recs tail h = ground (
    arith,
    append_assoc bytes (part_bytes parts ++ rec_bytes recs) tail,
    append_assoc (part_bytes parts) (rec_bytes recs) tail,
    h.0 (part_bytes parts ++ (rec_bytes recs ++ tail)),
    h.2,
  )

  arr_step-within :
      (fuel n : ℕ) (cr : Capreq) (parts : List (Bytes × Capreq)) (s : Bytes) (r : Restored)
      → 0 < length parts
      → All IsPart parts
      → length parts < fuel
      → part_step (restore s) ≡ ends r
      → arr_step restore fuel (within cr (part_bytes parts ++ s)) n
        ≡ inner_step (record cr { name = joined_name cr.name parts }) r n
  unfolding arr_step
  arr_step-within fuel n cr [] s r some_part h enough e = absurd (omega arith)
  arr_step-within fuel n cr (p ∷ parts) s r some_part h enough e =
      let count : 0 + length (p ∷ parts) ≡ suc (length parts) = omega arith in
      let read = restore_parts-part_bytes fuel cr.name 0 (p ∷ parts) s r h e enough in
      ap (λ t. with_parts cr t n)
        (read ∙ ap (λ k. some (joined_name cr.name (p ∷ parts), k, r)) count)

  restore_array-go :
      (fuel n m : ℕ) (place place2 : Place) (crs : List Capreq)
      → arr_step restore fuel place n ≡ go crs place2 m
      → restore_array restore (suc fuel) place n ≡ before crs (restore_array restore fuel place2 m)
  unfolding restore_array
  restore_array-go fuel n m place place2 crs e = ground (arith, e)

  restore_array-stop :
      (fuel : ℕ) (s : Bytes) → 0 < fuel → restore_array restore fuel (next s) 0 ≡ some []
  unfolding restore_array
  restore_array-stop zero s h = absurd (omega arith)
  restore_array-stop (suc fuel) s h = refl

  -- What ends the loop of `restore_parts` where a record of the array follows.
  part_step-whole :
      (bytes : Bytes) (cr : Capreq) (recs : List Rec) (tail : Bytes)
      → IsRec (whole bytes cr)
      → part_step (restore (rec_bytes (whole bytes cr ∷ recs) ++ tail))
        ≡ ends (got cr (rec_bytes recs ++ tail) false)
  part_step-whole bytes cr recs tail h =
      ground (arith, append_assoc bytes (rec_bytes recs) tail, h.0 (rec_bytes recs ++ tail), h.1)

  part_step-split :
      (bytes : Bytes) (cr : Capreq) (parts : List (Bytes × Capreq)) (recs : List Rec) (tail : Bytes)
      → IsRec (split bytes cr parts)
      → part_step (restore (rec_bytes (split bytes cr parts ∷ recs) ++ tail))
        ≡ ends (got cr (part_bytes parts ++ (rec_bytes recs ++ tail)) true)
  part_step-split bytes cr parts recs tail h = ground (
    arith,
    append_assoc bytes (part_bytes parts ++ rec_bytes recs) tail,
    append_assoc (part_bytes parts) (rec_bytes recs) tail,
    h.0 (part_bytes parts ++ (rec_bytes recs ++ tail)),
    h.1,
  )

  module _ (tail : Bytes) (ended : IsEnd tail) where
    mutual
      pub restore_array-next :
          (fuel : ℕ) (recs : List Rec)
          → All IsRec recs
          → turns recs < fuel
          → restore_array restore fuel (next (rec_bytes recs ++ tail)) (length recs)
            ≡ some (map rec_capreq recs)
      restore_array-next zero recs h enough = absurd (omega arith)
      restore_array-next (suc fuel) [] h enough =
          restore_array-stop (suc fuel) (rec_bytes [] ++ tail) (omega arith)
      restore_array-next (suc fuel) (whole bytes cr ∷ recs) h enough =
          restore_array-go fuel (suc (length recs)) (length recs) _ _ (cr ∷ [])
            (arr_step-whole fuel (length recs) bytes cr recs tail h.0)
          ∙ ap (before (cr ∷ [])) (restore_array-next fuel recs h.1 (omega arith))
      restore_array-next (suc fuel) (split bytes cr parts ∷ recs) h enough =
          restore_array-go fuel (suc (length recs)) (length recs) _ _ []
            (arr_step-split fuel (length recs) bytes cr parts recs tail h.0)
          ∙ ap (before []) (restore_array-within fuel cr parts recs h.0.3 h.0.4 h.1 (omega arith))

      restore_array-within :
          (fuel : ℕ) (cr : Capreq) (parts : List (Bytes × Capreq)) (recs : List Rec)
          → 0 < length parts
          → All IsPart parts
          → All IsRec recs
          → 1 + length parts + turns recs < fuel
          → restore_array restore fuel
              (within cr (part_bytes parts ++ (rec_bytes recs ++ tail)))
              (length recs)
            ≡ some (record cr { name = joined_name cr.name parts } ∷ map rec_capreq recs)
      restore_array-within zero cr parts recs some_part h k enough = absurd (omega arith)
      restore_array-within (suc fuel) cr parts [] some_part h k enough =
          let joined = record cr { name = joined_name cr.name parts } in
          restore_array-go fuel 0 0 _ _ (joined ∷ []) (
            arr_step-within fuel 0 cr parts tail (null ended.0) some_part h (omega arith)
              (ap part_step ended.1))
          ∙ ap (before (joined ∷ [])) (restore_array-stop fuel ended.0 (omega arith))
      restore_array-within (suc fuel) cr parts (whole bytes cr2 ∷ recs) some_part h k enough =
          let joined = record cr { name = joined_name cr.name parts } in
          restore_array-go fuel (suc (length recs)) (length recs) _ _ (joined ∷ cr2 ∷ []) (
            arr_step-within fuel (suc (length recs)) cr parts
              (rec_bytes (whole bytes cr2 ∷ recs) ++ tail) _ some_part h (omega arith)
              (part_step-whole bytes cr2 recs tail k.0))
          ∙ ap (before (joined ∷ cr2 ∷ [])) (restore_array-next fuel recs k.1 (omega arith))
      restore_array-within (suc fuel) cr parts (split bytes cr2 parts2 ∷ recs) some_part h k
            enough =
          let joined = record cr { name = joined_name cr.name parts } in
          restore_array-go fuel (suc (length recs)) (length recs) _ _ (joined ∷ []) (
            arr_step-within fuel (suc (length recs)) cr parts
              (rec_bytes (split bytes cr2 parts2 ∷ recs) ++ tail) _ some_part h (omega arith)
              (part_step-split bytes cr2 parts2 recs tail k.0))
          ∙ ap (before (joined ∷ []))
              (restore_array-within fuel cr2 parts2 recs k.0.3 k.0.4 k.1 (omega arith))
