-- ===== src/Capreq/Store/RoundTrip.antt =====
-- `capreq_store` and `capreq_restore` of capreq.c, one behind the other.
use poldek.Base.{
  ℕ, zero, suc, ◌+◌, ◌<◌, ◌≡◌, refl, ap, ◌∙◌, Bool, true, false, Option, none, some, ◌∷◌, ◌++◌,
  arith, length, take,
}
use mathlib.Core.List.{append-nil}
use poldek.Base.Int.{ℤ, pos, negsuc}
use poldek.Base.Bytes.{Bytes}
use poldek.Capreq.{RelFlags, CapFlags}
use poldek.Capreq.New.{capreq_fill, stored, stored_epoch, capreq_new_name, is_some, refused}
use poldek.Capreq.New.Fields.{IsCStr, IsCStr?}
use poldek.Capreq.Clone.{capreq_bufsize}
use poldek.Capreq.Store.Store.{
  store_record, capreq_store, added, swap_epoch, no_rt_flags, no_rt_relflags,
}
use poldek.Capreq.Store.Restore.{got, capreq_restore, rel_versioned, restore_body}
use poldek.Capreq.Store.Filled.{bufsize-fill}
use poldek.Capreq.Store.Restores.{
  ReadsBytes, restored, capreq_restore-record, restore_body-bare, restore_body-versioned, behind,
  fields_of,
}
use poldek.Capreq.Store.Layout.{
  store-plain, inner, bytes_behind, length-inner, offsets-fill, take-swap, restored-fill,
}

module _ (n_buf_it_get_int8 : Bytes → Option (ℕ × Bytes))
    (n_buf_it_get : ℕ → Bytes → Option (Bytes × Bytes))
    (reads : ReadsBytes n_buf_it_get_int8 n_buf_it_get) where
  -- A record of a `capreq` with a version, under any name and flags of relation.
  pub record-versioned :
      (na to_na : Bool) (name : Bytes) (rf : RelFlags) (fl : CapFlags) (e : ℤ) (v : Bytes)
      (r : Option Bytes) (relflags : RelFlags) (own : Bytes) (rest : Bytes)
      → rel_versioned relflags ≡ true
      → IsCStr own
      → 6 + bytes_behind e v r + length own < 256
      → let cr = capreq_fill na name e (some v) r rf fl in
        capreq_restore n_buf_it_get_int8 n_buf_it_get to_na
          (store_record relflags own (bytes_behind e v r) cr ++ rest)
        ≡ got
            (restored to_na relflags own cr (0 ∷ (inner e v r ++ 0 ∷ behind to_na own)))
            rest
            relflags.naalloc
  record-versioned na to_na name rf fl e v r relflags own rest versioned hn fits =
      let cr = capreq_fill na name e (some v) r rf fl in
      let b = bytes_behind e v r in
      let taken = take-swap na to_na name rf fl e v r in
      let whole : length (take b (swap_epoch cr.ep_ofs cr.buff)) ≡ b =
        ap length taken ∙ length-inner e v r in
      let (ep, ver, rel) = offsets-fill na to_na name rf fl e v r (omega arith) in
      capreq_restore-record n_buf_it_get_int8 n_buf_it_get reads to_na relflags own b cr rest
        (omega arith) whole
      ∙ (ap (λ t. restore_body to_na (fields_of relflags own cr) (0 ∷ (own ++ t)) rest) taken
          ∙ restore_body-versioned relflags own cr hn (omega arith) (omega arith) (omega arith)
              to_na (inner e v r) rest versioned)

  round_trip-versioned :
      (freed : Bytes → Bytes) (fuel : ℕ) (na to_na : Bool) (name : Bytes) (rf : RelFlags)
      (fl : CapFlags) (e : ℤ) (v : Bytes) (r : Option Bytes)
      → rel_versioned rf ≡ true
      → IsCStr (capreq_new_name name).0
      → IsCStr v
      → IsCStr? r
      → 6 + bytes_behind e v r + length (capreq_new_name name).0 < 256
      → (bytes : Bytes) × (capreq_store freed (suc fuel) (capreq_fill na name e (some v) r rf fl)
          ≡ added bytes)
        × ((rest : Bytes)
            → capreq_restore n_buf_it_get_int8 n_buf_it_get to_na (bytes ++ rest)
              ≡ got
                  (capreq_fill to_na name e (some v) r (no_rt_relflags rf) (no_rt_flags fl))
                  rest
                  false)
  round_trip-versioned freed fuel na to_na name rf fl e v r versioned hn hv hr fits =
      let cr = capreq_fill na name e (some v) r rf fl in
      let size = bufsize-fill na name rf fl e v r hv hr (omega arith) in
      let own_name : cr.name ≡ (capreq_new_name name).0 = unfold capreq_fill in refl in
      let same : rel_versioned (no_rt_relflags cr.relflags) ≡ true =
        unfold capreq_fill in versioned in
      let own = (capreq_new_name name).0 in
      let relflags = no_rt_relflags cr.relflags in
      (
        store_record relflags own (bytes_behind e v r) cr,
        store-plain freed fuel (bytes_behind e v r) cr own own_name size (omega arith),
        λ rest.
            record-versioned na to_na name rf fl e v r relflags own rest same hn fits
            ∙ ap (λ x. got x rest false) (restored-fill na to_na name rf fl e v r),
      )

  pub round_trip-bare :
      (freed : Bytes → Bytes) (fuel : ℕ) (na to_na : Bool) (name : Bytes) (rf : RelFlags)
      (fl : CapFlags)
      → rel_versioned rf ≡ false
      → IsCStr (capreq_new_name name).0
      → 6 + length (capreq_new_name name).0 < 256
      → (bytes : Bytes) × (capreq_store freed
            (suc fuel)
            (capreq_fill na name (pos 0) none none rf fl)
          ≡ added bytes)
        × ((rest : Bytes)
            → capreq_restore n_buf_it_get_int8 n_buf_it_get to_na (bytes ++ rest)
              ≡ got
                  (capreq_fill to_na name (pos 0) none none (no_rt_relflags rf) (no_rt_flags fl))
                  rest
                  false)
  unfolding capreq_fill
  round_trip-bare freed fuel na to_na name rf fl bare hn fits =
      let cr = capreq_fill na name (pos 0) none none rf fl in
      let own = (capreq_new_name name).0 in
      let relflags = no_rt_relflags cr.relflags in
      let size : capreq_bufsize cr ≡ some (1 + 0) = unfold capreq_bufsize in ground arith in
      let bytes = store_record relflags own 0 cr in
      (
        bytes,
        store-plain freed fuel 0 cr own refl size (omega arith),
        λ rest.
            capreq_restore-record n_buf_it_get_int8 n_buf_it_get reads to_na relflags own 0 cr rest
              (omega arith) refl
            ∙ (ap (λ t. restore_body to_na (fields_of relflags own cr) (0 ∷ t) rest)
                  (append-nil own)
                ∙ (restore_body-bare relflags own cr hn (omega arith) (omega arith) (omega arith)
                      to_na rest bare
                    ∙ unfold restored swap_epoch in refl)),
      )

  pub round_trip :
      (freed : Bytes → Bytes) (fuel : ℕ) (na to_na : Bool) (name : Bytes) (e : ℤ)
      (v r : Option Bytes) (rf : RelFlags) (fl : CapFlags)
      → refused e v r rf ≡ false
      → rel_versioned rf ≡ is_some v
      → IsCStr (capreq_new_name name).0
      → IsCStr? v
      → IsCStr? r
      → 6
          + (length (stored_epoch e) + length (stored v) + length (stored r))
          + length (capreq_new_name name).0
        < 256
      → (bytes : Bytes) × (capreq_store freed (suc fuel) (capreq_fill na name e v r rf fl)
          ≡ added bytes)
        × ((rest : Bytes)
            → capreq_restore n_buf_it_get_int8 n_buf_it_get to_na (bytes ++ rest)
              ≡ got (capreq_fill to_na name e v r (no_rt_relflags rf) (no_rt_flags fl)) rest false)
  round_trip freed fuel na to_na name e (some v) r rf fl ok versioned hn hv hr fits =
      round_trip-versioned freed fuel na to_na name rf fl e v r versioned hn hv hr (omega arith)
  round_trip freed fuel na to_na name (pos zero) none none rf fl ok bare hn hv hr fits =
      round_trip-bare freed fuel na to_na name rf fl bare hn (omega arith)
  round_trip freed fuel na to_na name (pos (suc n)) none none rf fl ok bare hn hv hr fits =
      absurd (ground arith)
  round_trip freed fuel na to_na name (negsuc n) none none rf fl ok bare hn hv hr fits =
      absurd (ground arith)
  round_trip freed fuel na to_na name e none (some r) rf fl ok bare hn hv hr fits =
      absurd (ground arith)

  -- A `capreq` that `capreq_new` accepts and that fits one record of at most 255 bytes is stored as
  -- one record. Whatever follows it, `capreq_restore` consumes that record and returns, with an
  -- allocator or without, what `capreq_new` makes there of the same name, epoch, version, release
  -- and flags, without the runtime flags. The relation is one of versions exactly if there is a
  -- version, and no part holds a NUL.
  pub capreq_restore-capreq_store :
      (freed : Bytes → Bytes) (fuel : ℕ) (na to_na : Bool) (name : Bytes) (e : ℤ)
      (v r : Option Bytes) (rf : RelFlags) (fl : CapFlags) (rest : Bytes)
      → refused e v r rf ≡ false
      → rel_versioned rf ≡ is_some v
      → IsCStr (capreq_new_name name).0
      → IsCStr? v
      → IsCStr? r
      → 6
          + (length (stored_epoch e) + length (stored v) + length (stored r))
          + length (capreq_new_name name).0
        < 256
      → (bytes : Bytes) × (capreq_store freed (suc fuel) (capreq_fill na name e v r rf fl)
          ≡ added bytes)
        × (capreq_restore n_buf_it_get_int8 n_buf_it_get to_na (bytes ++ rest)
            ≡ got (capreq_fill to_na name e v r (no_rt_relflags rf) (no_rt_flags fl)) rest false)
  capreq_restore-capreq_store freed fuel na to_na name e v r rf fl rest ok versioned hn hv hr fits =
      let (bytes, made, read) =
        round_trip freed fuel na to_na name e v r rf fl ok versioned hn hv hr fits in
      (bytes, made, read rest)
