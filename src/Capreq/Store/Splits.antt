-- ===== src/Capreq/Store/Splits.antt =====
-- When `capreq_store` of capreq.c ends: the loop of `split_capreq` and the parts it stores.
use poldek.Base.{
  ℕ, zero, suc, ◌+◌, ◌-◌, ◌%◌, ◌^◌, ◌<◌, ◌≤◌, ◌≡◌, refl, sym, ap, ◌∙◌, true, false, none, some,
  List, [], ◌∷◌, map, ◌++◌, arith, length, take, drop, All, ltb, Bool-cases, inl, inr,
}
use poldek.Base.Int.{pos}
use poldek.Base.Bytes.{Bytes}
use poldek.Capreq.{Capreq, no_rel, no_flags}
use poldek.Capreq.New.{capreq_new, capreq_fill, capreq_new_name}
use poldek.Capreq.Clone.{capreq_bufsize}
use poldek.Capreq.Store.Store.{
  split_name, new_parts, split_capreq, store_parts, store_splitted, capreq_store, capreq_name, room,
  added, unfinished, store_record, no_rt_relflags,
}
use poldek.Capreq.Store.Store.{add_before}
use poldek.Capreq.Store.Layout.{store-plain}

-- The pieces joined_pieces again.
abbrev pub joined_pieces : List Bytes → Bytes
joined_pieces [] = []
joined_pieces (piece ∷ pieces) = piece ++ joined_pieces pieces

take-drop : (n : ℕ) (xs : Bytes) → take n xs ++ drop n xs ≡ xs
take-drop zero xs = refl
take-drop (suc n) [] = refl
take-drop (suc n) (x ∷ xs) = ap (λ l. x ∷ l) (take-drop n xs)

length-take : (n : ℕ) (xs : Bytes) → length (take n xs) ≤ n
length-take zero xs = omega arith
length-take (suc n) [] = omega arith
length-take (suc n) (x ∷ xs) = omega (arith, length-take n xs)

length-take_le : (n : ℕ) (xs : Bytes) → length (take n xs) ≤ length xs
length-take_le zero xs = omega arith
length-take_le (suc n) [] = omega arith
length-take_le (suc n) (x ∷ xs) = omega (arith, length-take_le n xs)

length-drop : (n : ℕ) (xs : Bytes) → length (drop n xs) ≤ length xs
length-drop zero xs = omega arith
length-drop (suc n) [] = omega arith
length-drop (suc n) (x ∷ xs) = omega (arith, length-drop n xs)

-- A piece has at most `n` bytes.
abbrev pub IsShort : ℕ → Bytes → Type 0
IsShort n piece = length piece ≤ n

-- With a place for at least one byte in each record, as much fuel as the name has bytes is enough:
-- the pieces join to the name, and none is longer than the place.
pub split_name-joined_pieces :
    (fuel n : ℕ) (name : Bytes)
    → length name ≤ fuel
    → (pieces : List Bytes) × (split_name fuel (suc n) name ≡ some pieces)
      × (joined_pieces pieces ≡ name)
      × All (IsShort (suc n)) pieces
unfolding split_name
split_name-joined_pieces zero n [] h = ([], refl, refl, tt)
split_name-joined_pieces zero n (c ∷ name) h = absurd (omega arith)
split_name-joined_pieces (suc fuel) n [] h = ([], refl, refl, tt)
split_name-joined_pieces (suc fuel) n (c ∷ name) h =
    let (pieces, made, whole, short) =
      split_name-joined_pieces fuel n (drop n name) (omega (arith, length-drop n name)) in
    (
      (c ∷ take n name) ∷ pieces,
      ground (arith, made),
      ap (λ l. c ∷ (take n name ++ l)) whole ∙ ap (λ l. c ∷ l) (take-drop n name),
      (omega (arith, length-take n name), short),
    )

-- Without a place for the name its first byte is never passed.
split_name-stuck : (fuel : ℕ) (c : ℕ) (name : Bytes) → split_name fuel 0 (c ∷ name) ≡ none
unfolding split_name
split_name-stuck zero c name = refl
split_name-stuck (suc fuel) c name = ground (arith, split_name-stuck fuel c name)

-- A `capreq` whose name is not empty and whose buffer has 250 bytes or more up to its last NUL, but
-- not so many that `capreq_bufsize` ends the process, is never stored: `split_capreq` runs forever,
-- whatever the fuel.
pub capreq_store_stuck :
    (freed : Bytes → Bytes) (fuel size c : ℕ) (rest : Bytes) (cr : Capreq)
    → capreq_bufsize cr ≡ some size
    → 250 ≤ size
    → capreq_name cr ≡ c ∷ rest
    → capreq_store freed fuel cr ≡ unfinished
unfolding capreq_store split_capreq
capreq_store_stuck freed zero size c rest cr read large named = refl
capreq_store_stuck freed (suc fuel) size c rest cr read large named =
    let none_left : room (size - 1) ≡ 0 = omega arith in
    let stuck : split_name fuel (room (size - 1)) (capreq_name cr) ≡ none =
      rw (none_left, named) (split_name-stuck fuel c rest) in
    ground (arith, read, ap length named, stuck)

-- The `capreq` that is made of a piece, and it as a part.
abbrev pub part_of : Bytes → Capreq
part_of piece = capreq_fill false piece (pos 0) none none no_rel no_flags

pub new_parts-map : (pieces : List Bytes) → new_parts pieces ≡ some (map part_of pieces)
unfolding new_parts capreq_new
new_parts-map [] = refl
new_parts-map (piece ∷ pieces) = ground (arith, new_parts-map pieces)

pub length-capreq_new_name : (piece : Bytes) → length (capreq_new_name piece).0 ≤ length piece
unfolding capreq_new_name
length-capreq_new_name piece =
    let inside = length-drop 7 piece in grind (arith, length-take_le, inside)

store-part :
    (freed : Bytes → Bytes) (fuel : ℕ) (piece : Bytes)
    → length piece ≤ 249
    → let part = part_of piece in
      (bytes : Bytes) × (capreq_store freed
          (suc fuel)
          (record part { relflags = record part.relflags { part = true } })
        ≡ added bytes)
unfolding capreq_fill
store-part freed fuel piece short = (
  _,
  store-plain freed fuel 0 _ _ refl (unfold capreq_bufsize in ground arith)
      (omega (arith, length-capreq_new_name piece)),
)

store_parts-added :
    (freed : Bytes → Bytes) (fuel : ℕ) (pieces : List Bytes)
    → All (IsShort 249) pieces
    → (bytes : Bytes) × (store_parts (capreq_store freed (suc fuel)) (map part_of pieces)
        ≡ added bytes)
unfolding store_parts
store_parts-added freed fuel [] short = ([], refl)
store_parts-added freed fuel (piece ∷ pieces) short =
    let (bytes, one) = store-part freed fuel piece short.0 in
    let (more, others) = store_parts-added freed fuel pieces short.1 in
    (bytes ++ more, ground (arith, one, others))

pub IsShort-le :
    (n m : ℕ) (pieces : List Bytes) → n ≤ m → All (IsShort n) pieces → All (IsShort m) pieces
IsShort-le n m [] h short = tt
IsShort-le n m (piece ∷ pieces) h short = (omega (arith, short.0), IsShort-le n m pieces h short.1)

pub split_capreq-parts :
    (fuel b : ℕ) (cr : Capreq)
    → b < 249
    → length (capreq_name cr) ≤ fuel
    → (pieces : List Bytes) × (split_capreq fuel cr b ≡ some (map part_of pieces))
      × (joined_pieces pieces ≡ capreq_name cr)
      × All (IsShort (room b)) pieces
      × (split_name fuel (room b) (capreq_name cr) ≡ some pieces)
unfolding split_capreq
split_capreq-parts fuel b cr small enough =
    let some_room : suc (room b - 1) ≡ room b = omega arith in
    let (pieces, made, whole, short) =
      split_name-joined_pieces fuel (room b - 1) (capreq_name cr) enough in
    (
      pieces,
      ground (arith, some_room, made, new_parts-map pieces),
      whole,
      IsShort-le (suc (room b - 1)) (room b) pieces (omega arith) short,
      ap (λ n. split_name fuel n (capreq_name cr)) (sym some_room) ∙ made,
    )

store_splitted-added :
    (freed : Bytes → Bytes) (fuel b : ℕ) (cr : Capreq) (pieces : List Bytes)
    → b < 249
    → All (IsShort (room b)) pieces
    → 0 < length (joined_pieces pieces)
    → (bytes : Bytes) × (store_splitted freed
          (capreq_store freed (suc fuel))
          cr
          b
          (map part_of pieces)
        ≡ added bytes)
unfolding store_splitted add_before
store_splitted-added freed fuel b cr [] small short some_piece = absurd (omega arith)
store_splitted-added freed fuel b cr (piece ∷ pieces) small short some_piece =
    let (more, others) =
      store_parts-added freed fuel pieces (IsShort-le (room b) 249 pieces (omega arith) short.1) in
    let own : (part_of piece).name ≡ (capreq_new_name piece).0 = unfold capreq_fill in refl in
    let named = length-capreq_new_name piece in
    let first =
      store_record (record cr.relflags { naalloc = true }) (freed (part_of piece).name) b cr in
    (first ++ more, ground (arith, others, short.0, ap length own, named))

pub store-over :
    (freed : Bytes → Bytes) (fuel b : ℕ) (cr : Capreq) (parts : List Capreq)
    → capreq_bufsize cr ≡ some (1 + b)
    → ltb 255 (5 + b + (length (capreq_name cr) + 1)) ≡ true
    → split_capreq fuel cr b ≡ some parts
    → capreq_store freed (suc fuel) cr ≡ store_splitted freed (capreq_store freed fuel) cr b parts
unfolding capreq_store
store-over freed fuel b cr parts read over split =
    let less : 1 + b - 1 ≡ b = omega arith in ground (arith, read, less, over, split)

store-fits :
    (freed : Bytes → Bytes) (fuel b : ℕ) (cr : Capreq)
    → capreq_bufsize cr ≡ some (1 + b)
    → ltb 255 (5 + b + (length (capreq_name cr) + 1)) ≡ false
    → capreq_store freed (suc fuel) cr
      ≡ added (store_record (no_rt_relflags cr.relflags) (capreq_name cr) b cr)
unfolding capreq_store
store-fits freed fuel b cr read fits =
    let less : 1 + b - 1 ≡ b = omega arith in ground (arith, read, less, fits)

-- A `capreq` whose buffer has at most 249 bytes up to its last NUL is stored, however long its name
-- is and whatever is read where the freed name of a first part was: fuel for the bytes of the name
-- and two more calls is enough.
pub capreq_store-added :
    (freed : Bytes → Bytes) (fuel b : ℕ) (cr : Capreq)
    → capreq_bufsize cr ≡ some (1 + b)
    → b < 249
    → length cr.name ≤ fuel
    → (bytes : Bytes) × (capreq_store freed (suc (suc fuel)) cr ≡ added bytes)
capreq_store-added freed fuel b cr read small enough =
    let named = length-take_le (length cr.name % 2 ^ 16) cr.name in
    elim (Bool-cases (ltb 255 (5 + b + (length (capreq_name cr) + 1)))) [
      | inr fits ↦ (_, store-fits freed (suc fuel) b cr read fits)
      | inl over ↦
          let (pieces, split, whole, short, made) =
            split_capreq-parts (suc fuel) b cr small (omega arith) in
          let (bytes, stored) =
            store_splitted-added freed fuel b cr pieces small short
              (ground (arith, ap length whole)) in
          (bytes, store-over freed (suc fuel) b cr (map part_of pieces) read over split ∙ stored)
    ]
