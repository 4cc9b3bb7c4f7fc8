-- ===== src/Capreq/Arr/Parts.antt =====
-- A capability whose name does not fit one record, stored by `capreq_store` of capreq.c as the
-- records of its parts.
use poldek.Base.{
  ℕ, suc, ◌+◌, ◌^◌, ◌<◌, ◌≤◌, ◌≡◌, refl, sym, ap, ◌∙◌, Bool, true, false, Option, none, some, List,
  [], ◌∷◌, ◌++◌, map, arith, length, length-append, All,
}
use mathlib.Core.Path.{subst}
use mathlib.Core.List.{append_assoc, append-nil}
use poldek.Base.Int.{ℤ, pos}
use poldek.Base.Bytes.{Bytes}
use poldek.Capreq.{Capreq, RelFlags, CapFlags, no_rel, no_flags}
use poldek.Capreq.New.{capreq_fill, capreq_new_name}
use poldek.Capreq.New.Fields.{IsCStr, IsCStr?}
use poldek.Capreq.Store.Store.{
  added, store_parts, store_splitted, store_record, capreq_store, no_rt_flags, no_rt_relflags,
  add_before, split_name, room,
}
use poldek.Capreq.Store.Restore.{got, capreq_restore, rel_versioned}
use poldek.Capreq.Store.Filled.{bufsize-fill}
use poldek.Capreq.Store.Restores.{ReadsBytes, restored, behind}
use poldek.Capreq.Store.Layout.{bytes_behind, inner, restored-fill, capreq_name-whole}
use poldek.Capreq.Store.RoundTrip.{record-versioned, round_trip-bare}
use poldek.Capreq.Store.Splits.{
  joined_pieces, part_of, split_capreq-parts, store-over, IsShort, IsShort-le,
}
use poldek.Capreq.Arr.Restores.{Rec, split, part_bytes, joined_name, rec_capreq, IsRec, IsPart}
use poldek.Capreq.Arr.RoundTrip.{rec_own}

-- The name of the piece is the piece: it begins with no `rpmlib(`.
abbrev pub IsKept : Bytes → Type 0
IsKept piece = (capreq_new_name piece).0 ≡ piece

-- The flags of relation of a part.
abbrev part_rel : RelFlags
part_rel = record no_rel { part = true }

abbrev restored_part : Bytes → Capreq
restored_part piece = capreq_fill true piece (pos 0) none none part_rel no_flags

fill-part :
    (piece : Bytes)
    → record (part_of piece) { relflags = record (part_of piece).relflags { part = true } }
      ≡ capreq_fill false piece (pos 0) none none part_rel no_flags
unfolding capreq_fill
fill-part piece = refl

restored_part-part : (piece : Bytes) → (restored_part piece).relflags.part ≡ true
unfolding capreq_fill
restored_part-part piece = refl

restored_part-name : (piece : Bytes) → (restored_part piece).name ≡ (capreq_new_name piece).0
unfolding capreq_fill
restored_part-name piece = refl

abbrev pieces_or : List Bytes → Option (List Bytes) → List Bytes
pieces_or ps none = ps
pieces_or ps (some found) = found

joined-length : (pieces : List Bytes) → 0 < length (joined_pieces pieces) → 0 < length pieces
joined-length [] h = h
joined-length (piece ∷ pieces) h = omega arith

All-append : (xs ys : Bytes) → IsCStr (xs ++ ys) → IsCStr xs × IsCStr ys
All-append [] ys h = (tt, h)
All-append (x ∷ xs) ys h = let (p, q) = All-append xs ys h.1 in ((h.0, p), q)

module _ (n_buf_it_get_int8 : Bytes → Option (ℕ × Bytes))
    (n_buf_it_get : ℕ → Bytes → Option (Bytes × Bytes))
    (reads : ReadsBytes n_buf_it_get_int8 n_buf_it_get) where
  -- The parts behind the first: their records and what these are restored to.
  parts-stored :
      (freed : Bytes → Bytes) (fuel : ℕ) (pieces : List Bytes)
      → All (IsShort 249) pieces
      → All IsKept pieces
      → IsCStr (joined_pieces pieces)
      → (parts : List (Bytes × Capreq)) × (store_parts
            (capreq_store freed (suc fuel))
            (map part_of pieces)
          ≡ added (part_bytes parts))
        × All (IsPart (capreq_restore n_buf_it_get_int8 n_buf_it_get true)) parts
        × (length parts ≡ length pieces)
        × ((name : Bytes) → joined_name name parts ≡ name ++ joined_pieces pieces)
  unfolding store_parts
  parts-stored freed fuel [] short kept h = ([], refl, tt, refl, λ name. sym (append-nil name))
  parts-stored freed fuel (piece ∷ pieces) short kept h =
      let (own, others) = All-append piece (joined_pieces pieces) h in
      let (parts, stored, good, count, names) =
        parts-stored freed fuel pieces short.1 kept.1 others in
      let (bytes, one, read) =
        round_trip-bare n_buf_it_get_int8 n_buf_it_get reads freed fuel false true piece part_rel
          no_flags refl (rw kept.0 own) (omega (arith, short.0, ap length kept.0)) in
      (
        (bytes, restored_part piece) ∷ parts,
        ground (arith, fill-part piece, one, stored),
        ((read, restored_part-part piece), good),
        ap suc count,
        λ name.
            names (name ++ (restored_part piece).name)
            ∙ (ap (λ n. (name ++ n) ++ joined_pieces pieces) (restored_part-name piece ∙ kept.0)
                ∙ append_assoc name piece (joined_pieces pieces)),
      )

  -- The first piece under the marked record of `cr`, and the parts behind it.
  split-stored :
      (freed : Bytes → Bytes) (fuel : ℕ) (cr : Capreq) (b : ℕ) (piece : Bytes) (pieces : List Bytes)
      (cr0 : Capreq)
      → b < 249
      → All (IsShort (room b)) (piece ∷ pieces)
      → All IsKept (piece ∷ pieces)
      → IsCStr (joined_pieces (piece ∷ pieces))
      → room b < length (joined_pieces (piece ∷ pieces))
      → ((rest : Bytes)
          → capreq_restore n_buf_it_get_int8 n_buf_it_get true
              (store_record (record cr.relflags { naalloc = true }) (freed piece) b cr ++ rest)
            ≡ got cr0 rest true)
      → cr0.name ≡ freed piece
      → cr0.relflags.part ≡ false
      → cr0.flags.bastard ≡ false
      → (r : Rec) × (store_splitted freed
            (capreq_store freed (suc fuel))
            cr
            b
            (map part_of (piece ∷ pieces))
          ≡ added (rec_own r))
        × IsRec (capreq_restore n_buf_it_get_int8 n_buf_it_get true) r
        × (rec_capreq r ≡ record cr0 { name = freed piece ++ joined_pieces pieces })
  unfolding store_splitted add_before
  split-stored freed fuel cr b piece pieces cr0 small short kept h over read named plain made =
      let (own, others) = All-append piece (joined_pieces pieces) h in
      let (parts, stored, good, count, names) =
        parts-stored freed fuel pieces (IsShort-le (room b) 249 pieces (omega arith) short.1) kept.1
          others in
      let first : (part_of piece).name ≡ piece = unfold capreq_fill in kept.0 in
      let bytes = store_record (record cr.relflags { naalloc = true }) (freed piece) b cr in
      let some_part : 0 < length parts =
        omega (
          arith,
          count,
          short.0,
          length-append piece (joined_pieces pieces),
          joined-length pieces,
        ) in
      (
        split bytes cr0 parts,
        ground (arith, first, stored, ap length first, short.0),
        (read, plain, made, some_part, good),
        ap (λ n. record cr0 { name = n })
            (names cr0.name ∙ ap (λ n. n ++ joined_pieces pieces) named),
      )

  -- The restored record but for its name.
  renamed-fill :
      (na : Bool) (name : Bytes) (e : ℤ) (v : Bytes) (r : Option Bytes) (rf : RelFlags)
      (fl : CapFlags) (first new_name : Bytes)
      → let cr = capreq_fill na name e (some v) r rf fl in
        record (restored true
          (record cr.relflags { naalloc = true })
          first
          cr
          (0 ∷ (inner e v r ++ 0 ∷ behind true first))) { name = new_name }
        ≡ record (capreq_fill true name e (some v) r (no_rt_relflags rf) (no_rt_flags fl)) {
          name = new_name;
        }
  unfolding restored
  renamed-fill na name e v r rf fl first new_name =
      ap (λ (cr1 : Capreq). record cr1 { name = new_name }) (restored-fill na true name rf fl e v r)

  -- What a `capreq` is restored to when its name is stored as the pieces.
  split-fill :
      (freed : Bytes → Bytes) (fuel : ℕ) (na : Bool) (name : Bytes) (e : ℤ) (v : Bytes)
      (r : Option Bytes) (rf : RelFlags) (fl : CapFlags) (piece : Bytes) (pieces : List Bytes)
      → rel_versioned rf ≡ true
      → rf.part ≡ false
      → IsCStr (capreq_new_name name).0
      → bytes_behind e v r < 249
      → 255 < 6 + bytes_behind e v r + length (capreq_new_name name).0
      → joined_pieces (piece ∷ pieces) ≡ (capreq_new_name name).0
      → All (IsShort (room (bytes_behind e v r))) (piece ∷ pieces)
      → All IsKept (piece ∷ pieces)
      → IsCStr (freed piece)
      → length (freed piece) ≡ length piece
      → let cr = capreq_fill na name e (some v) r rf fl in
        (rec : Rec) × (store_splitted freed
            (capreq_store freed (suc fuel))
            cr
            (bytes_behind e v r)
            (map part_of (piece ∷ pieces))
          ≡ added (rec_own rec))
        × IsRec (capreq_restore n_buf_it_get_int8 n_buf_it_get true) rec
        × (rec_capreq rec
            ≡ record (capreq_fill true name e (some v) r (no_rt_relflags rf) (no_rt_flags fl)) {
              name = freed piece ++ joined_pieces pieces;
            })
  split-fill freed fuel na name e v r rf fl piece pieces versioned plain hn small over whole short
        kept hf same =
      let cr = capreq_fill na name e (some v) r rf fl in
      let b = bytes_behind e v r in
      let relflags = record cr.relflags { naalloc = true } in
      let cr0 =
        restored true relflags (freed piece) cr
          (0 ∷ (inner e v r ++ 0 ∷ behind true (freed piece))) in
      let cstr : IsCStr (joined_pieces (piece ∷ pieces)) = rw whole hn in
      let (rec, stored, good, named) =
        split-stored freed fuel cr b piece pieces cr0 small short kept cstr
          (omega (arith, ap length whole))
          (λ rest.
            record-versioned n_buf_it_get_int8 n_buf_it_get reads na true name rf fl e v r relflags
              (freed piece) rest (unfold capreq_fill in versioned) hf
              (omega (arith, short.0, same)))
          (unfold restored in refl) (unfold restored capreq_fill in plain)
          (unfold restored in refl) in
      (
        rec,
        stored,
        good,
        named
            ∙ renamed-fill na name e v r rf fl (freed piece) (freed piece ++ joined_pieces pieces),
      )

  -- A `capreq` with a version and a relation of versions, not marked as a part, whose buffer has at
  -- most 249 bytes up to its last NUL, and whose name does not fit its record, is stored as the
  -- records of its parts, given fuel for the bytes of the name and two more calls. With an allocator
  -- they are restored to that `capreq`, without the runtime flags, under the name that is joined of
  -- what is read for the first piece behind its `free` and of the other pieces. With the first piece
  -- itself they join to the name. The name has less than 2^16 bytes; name, version and release hold
  -- no NUL, nor does what is read for the first piece, which has the length of the piece; and
  -- `capreq_new` changes no piece, as it would one that begins with `rpmlib(`.
  pub capreq_store-split :
      (freed : Bytes → Bytes) (fuel : ℕ) (na : Bool) (name : Bytes) (e : ℤ) (v : Bytes)
      (r : Option Bytes) (rf : RelFlags) (fl : CapFlags) (piece : Bytes) (pieces : List Bytes)
      → rel_versioned rf ≡ true
      → rf.part ≡ false
      → IsCStr (capreq_new_name name).0
      → IsCStr v
      → IsCStr? r
      → bytes_behind e v r < 249
      → 255 < 6 + bytes_behind e v r + length (capreq_new_name name).0
      → length (capreq_new_name name).0 < 2 ^ 16
      → length (capreq_new_name name).0 ≤ fuel
      → split_name (suc fuel) (room (bytes_behind e v r)) (capreq_new_name name).0
        ≡ some (piece ∷ pieces)
      → All IsKept (piece ∷ pieces)
      → IsCStr (freed piece)
      → length (freed piece) ≡ length piece
      → (rec : Rec) × (capreq_store freed (suc (suc fuel)) (capreq_fill na name e (some v) r rf fl)
          ≡ added (rec_own rec))
        × IsRec (capreq_restore n_buf_it_get_int8 n_buf_it_get true) rec
        × (rec_capreq rec
            ≡ record (capreq_fill true name e (some v) r (no_rt_relflags rf) (no_rt_flags fl)) {
              name = freed piece ++ joined_pieces pieces;
            })
        × (piece ++ joined_pieces pieces ≡ (capreq_new_name name).0)
  capreq_store-split freed fuel na name e v r rf fl piece pieces versioned plain hn hv hr small over
        few enough cut kept hf length_kept =
      let cr = capreq_fill na name e (some v) r rf fl in
      let own = (capreq_new_name name).0 in
      let own_name : cr.name ≡ own = unfold capreq_fill in refl in
      let b = bytes_behind e v r in
      let size = bufsize-fill na name rf fl e v r hv hr (omega arith) in
      let same = capreq_name-whole cr (omega (arith, ap length own_name)) ∙ own_name in
      let (found_pieces, split_, whole, short, made) =
        split_capreq-parts (suc fuel) b cr small (omega (arith, ap length same)) in
      let eq : found_pieces ≡ piece ∷ pieces =
        ap (pieces_or []) (sym made ∙ (ap (split_name (suc fuel) (room b)) same ∙ cut)) in
      let joins = ap joined_pieces (sym eq) ∙ (whole ∙ same) in
      let (rec, stored, good, named) =
        split-fill freed fuel na name e v r rf fl piece pieces versioned plain hn small over joins
          (subst (All (IsShort (room b))) eq short) kept hf length_kept in
      (
        rec,
        store-over freed (suc fuel) b cr (map part_of (piece ∷ pieces)) size
              (ground (arith, ap length same)) (split_ ∙ ap (λ ps. some (map part_of ps)) eq)
            ∙ stored,
        good,
        named,
        joins,
      )
