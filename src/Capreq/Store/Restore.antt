-- ===== src/Capreq/Store/Restore.antt =====
-- `capreq_restore_na`, `capreq_restore_wo_na` and `capreq_restore` of capreq.c.
use poldek.Base.{
  ℕ, suc, ◌+◌, ◌-◌, ◌/◌, ◌%◌, Bool, true, false, ◌||◌, Option, none, some, [], ◌∷◌, ◌++◌, length,
  take, drop,
}
use poldek.Base.Bytes.{Bytes, index_of}
use poldek.Capreq.{Capreq, RelFlags}
use poldek.Capreq.Store.Store.{odd, relflags_of, cr_flags_of, swap_epoch, moved_back}

-- What a call of `capreq_restore` ends in: NULL, the end of the process by an assertion, a read
-- outside of the record, or a `capreq` with the bytes behind it and whether it is __SPLITTED.
pub data Restored : Type 0 where
  null : Bytes → Restored
  asserted outside : Restored
  got : Capreq → Bytes → Bool → Restored

-- The five bytes of flags and offsets, once the name is known.
unfoldable pub restore_fields : ℕ → ℕ → ℕ → ℕ → ℕ → Bool → Bytes → Bytes → Capreq
unfolding relflags_of cr_flags_of swap_epoch
restore_fields relflags flags ep ver rel naalloc name buff =
    let by = length name + 1 in
    record {
      flags = cr_flags_of flags;
      relflags = record (relflags_of relflags) { naalloc = naalloc };
      name = name;
      ep_ofs = moved_back by ep;
      ver_ofs = moved_back by ver;
      rel_ofs = moved_back by rel;
      buff = swap_epoch (moved_back by ep) buff;
    }

-- The name and the buffer of `capreq_restore_na`: the bytes up to the first NUL, or all of them.
abbrev pub name_and_buff_na : Bytes → Option ℕ → Bytes × Bytes
name_and_buff_na body none = (body, 0 ∷ [])
name_and_buff_na body (some n) = (take n body, 0 ∷ (drop (suc n) body ++ 0 ∷ []))

-- The name and the buffer of `capreq_restore_wo_na`, where the name follows in the buffer. `none`:
-- the assertion that a versioned `capreq` has a NUL behind its name.
abbrev pub name_and_buff_wo_na : Bool → Bytes → Option ℕ → Option (Bytes × Bytes)
name_and_buff_wo_na false body p = some (body, 0 ∷ (body ++ 0 ∷ []))
name_and_buff_wo_na true body none = none
name_and_buff_wo_na true body (some n) =
    some (take n body, 0 ∷ (drop (suc n) body ++ 0 ∷ (take n body ++ 0 ∷ [])))

-- `capreq_versioned` on the flags.
abbrev pub rel_versioned : RelFlags → Bool
rel_versioned r = r.eq || (r.gt || r.lt)

abbrev pub restored_if : (Bytes → Bytes → Capreq) → Bytes → Bool → Option (Bytes × Bytes) → Restored
restored_if fill rest splitted none = asserted
restored_if fill rest splitted (some (name, buff)) = got (fill name buff) rest splitted

-- The rest of `capreq_restore` behind the bytes of flags and offsets, with an allocator or without.
-- With an allocator one byte more is copied than the record has; it is overwritten by the closing
-- NUL, and is left out.
unfoldable pub restore_body : Bool → Bytes → Bytes → Bytes → Restored
unfolding restore_fields relflags_of index_of
restore_body true (relflags ∷ flags ∷ ep ∷ ver ∷ rel ∷ []) (nul ∷ body) rest =
    let (name, buff) = name_and_buff_na body (index_of 0 body) in
    got (restore_fields relflags flags ep ver rel true name buff) rest (odd (relflags / 128))
restore_body false (relflags ∷ flags ∷ ep ∷ ver ∷ rel ∷ []) (nul ∷ body) rest =
    restored_if (restore_fields relflags flags ep ver rel false) rest (odd (relflags / 128))
      (name_and_buff_wo_na (rel_versioned (relflags_of relflags)) body (index_of 0 body))
restore_body na fields body rest = outside

-- `n_buf_it_get_int8` and `n_buf_it_get` on the bytes in front of the iterator: none where there
-- are too few.
module _ (n_buf_it_get_int8 : Bytes → Option (ℕ × Bytes))
    (n_buf_it_get : ℕ → Bytes → Option (Bytes × Bytes)) where
  unfoldable pub capreq_restore_sized : Bool → ℕ → Bytes → Restored
  unfolding restore_body
  capreq_restore_sized na size bytes = elim (n_buf_it_get 5 bytes) [
    | none ↦ null bytes
    | some (fields, behind) ↦ (elim (n_buf_it_get ((size + 256 - 5) % 256) behind) [
      | none ↦ outside
      | some (body, rest) ↦ restore_body na fields body rest
    ])
  ]

  -- `capreq_restore`; the Boolean is "na != NULL".
  unfoldable pub capreq_restore : Bool → Bytes → Restored
  unfolding capreq_restore_sized
  capreq_restore na bytes = elim (n_buf_it_get_int8 bytes) [
    | none ↦ capreq_restore_sized na 0 bytes
    | some (size, behind) ↦ capreq_restore_sized na size behind
  ]
