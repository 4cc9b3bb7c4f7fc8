-- ===== src/Capreq/Store/Restores.antt =====
-- A stored capability is restored.
use poldek.Base.{
  ℕ, suc, ◌+◌, ◌-◌, ◌/◌, ◌%◌, ◌<◌, ◌≡◌, refl, ap, ◌∙◌, Bool, true, false, Option, none, some, [],
  ◌∷◌, ◌++◌, arith, length, take, drop, take-append, if◌then◌else◌, length-append,
}
use poldek.Base.Bytes.{Bytes, index_of, index_of-append, index_of-none}
use poldek.Capreq.{Capreq, RelFlags, cr_flags_value}
use poldek.Capreq.New.Fields.{IsCStr}
use poldek.Capreq.Store.Store.{
  relflags_value, store_record, odd, swap_epoch, moved, moved_back, no_rt_flags,
}
use poldek.Capreq.Store.Restore.{
  got, restore_body, capreq_restore, capreq_restore_sized, restore_fields, name_and_buff_na,
  name_and_buff_wo_na, rel_versioned, restored_if,
}
use poldek.Capreq.Store.Bits.{relflags_of-value, cr_flags_of-value, splitted_bit}

pub record ReadsBytes (n_buf_it_get_int8 : Bytes → Option (ℕ × Bytes))
    (n_buf_it_get : ℕ → Bytes → Option (Bytes × Bytes)) : Type 0 where
  pub int8 : (c : ℕ) (rest : Bytes) → n_buf_it_get_int8 (c ∷ rest) ≡ some (c, rest)
  pub bytes :
      (n : ℕ) (xs rest : Bytes) → length xs ≡ n → n_buf_it_get n (xs ++ rest) ≡ some (xs, rest)
  pub short : (n : ℕ) (xs : Bytes) → length xs < n → n_buf_it_get n xs ≡ none
  pub nothing : n_buf_it_get_int8 [] ≡ none

drop-suc : (name buff : Bytes) → drop (suc (length name)) (name ++ 0 ∷ buff) ≡ buff
drop-suc [] buff = refl
drop-suc (c ∷ name) buff = drop-suc name buff

moved-back : (by ofs : ℕ) → ofs + by < 256 → moved_back by (moved by ofs) ≡ ofs
moved-back by ofs h = ground arith

-- The name and the buffer are found again.
name_and_buff-bare :
    (name : Bytes) → IsCStr name → name_and_buff_na name (index_of 0 name) ≡ (name, 0 ∷ [])
name_and_buff-bare name h = ap (name_and_buff_na name) (index_of-none 0 name h)

name_and_buff-append :
    (name buff : Bytes)
    → IsCStr name
    → name_and_buff_na (name ++ 0 ∷ buff) (index_of 0 (name ++ 0 ∷ buff))
      ≡ (name, 0 ∷ (buff ++ 0 ∷ []))
name_and_buff-append name buff h =
    ap (name_and_buff_na (name ++ 0 ∷ buff)) (index_of-append 0 name buff h) ∙ λ i.
    (take-append name (0 ∷ buff) i, 0 ∷ (drop-suc name buff i ++ 0 ∷ []))

-- What a record of `cr` under a name is restored to.
unfoldable pub restored : Bool → RelFlags → Bytes → Capreq → Bytes → Capreq
unfolding swap_epoch
restored na relflags name cr buff = record {
  flags = no_rt_flags cr.flags;
  relflags = record relflags { naalloc = na };
  name = name;
  ep_ofs = cr.ep_ofs;
  ver_ofs = cr.ver_ofs;
  rel_ofs = cr.rel_ofs;
  buff = swap_epoch cr.ep_ofs buff;
}

-- The five bytes of flags and offsets of a record.
abbrev pub fields_of : RelFlags → Bytes → Capreq → Bytes
fields_of relflags name cr =
    relflags_value relflags
    ∷ cr_flags_value (no_rt_flags cr.flags)
    ∷ moved (length name + 1) cr.ep_ofs
    ∷ moved (length name + 1) cr.ver_ofs
    ∷ moved (length name + 1) cr.rel_ofs
    ∷ []

module _ (relflags : RelFlags) (name : Bytes) (cr : Capreq)
    (ep : cr.ep_ofs + (length name + 1) < 256) (ver : cr.ver_ofs + (length name + 1) < 256)
    (rel : cr.rel_ofs + (length name + 1) < 256) where
  -- The `capreq` that the fields of the record, a name and a buffer make.
  abbrev made : Bool → Bytes → Bytes → Capreq
  made na found buff =
      restore_fields (relflags_value relflags) (cr_flags_value (no_rt_flags cr.flags))
        (moved (length name + 1) cr.ep_ofs) (moved (length name + 1) cr.ver_ofs)
        (moved (length name + 1) cr.rel_ofs) na found buff

  restore_fields-record :
      (na : Bool) (buff : Bytes) → made na name buff ≡ restored na relflags name cr buff
  unfolding restore_fields restored
  restore_fields-record na buff i =
      let by = length name + 1 in
      record {
        flags = cr_flags_of-value cr.flags i;
        relflags = record (relflags_of-value relflags i) { naalloc = na };
        name = name;
        ep_ofs = moved-back by cr.ep_ofs ep i;
        ver_ofs = moved-back by cr.ver_ofs ver i;
        rel_ofs = moved-back by cr.rel_ofs rel i;
        buff = swap_epoch (moved-back by cr.ep_ofs ep i) buff;
      }

  restore_body-na :
      (body buff rest : Bytes)
      → name_and_buff_na body (index_of 0 body) ≡ (name, buff)
      → restore_body true (fields_of relflags name cr) (0 ∷ body) rest
        ≡ got (restored true relflags name cr buff) rest relflags.naalloc
  unfolding restore_body
  restore_body-na body buff rest h =
      let same : made true (name_and_buff_na body (index_of 0 body)).0
            (name_and_buff_na body (index_of 0 body)).1
          ≡ restored true relflags name cr buff =
        ap (λ nb. made true nb.0 nb.1) h ∙ restore_fields-record true buff in
      λ i. got (same i) rest (splitted_bit relflags i)

  restore_body-wo_na :
      (body buff rest : Bytes)
      → name_and_buff_wo_na (rel_versioned relflags) body (index_of 0 body) ≡ some (name, buff)
      → restore_body false (fields_of relflags name cr) (0 ∷ body) rest
        ≡ got (restored false relflags name cr buff) rest relflags.naalloc
  unfolding restore_body
  restore_body-wo_na body buff rest h =
      let found =
        ap (λ r. name_and_buff_wo_na (rel_versioned r) body (index_of 0 body))
          (relflags_of-value relflags)
        ∙ h in
      let splitted = odd (relflags_value relflags / 128) in
      ap (restored_if (made false) rest splitted) found ∙ λ i.
      got (restore_fields-record false buff i) rest (splitted_bit relflags i)

module _ (n_buf_it_get_int8 : Bytes → Option (ℕ × Bytes))
    (n_buf_it_get : ℕ → Bytes → Option (Bytes × Bytes))
    (reads : ReadsBytes n_buf_it_get_int8 n_buf_it_get) where
  pub capreq_restore-record :
      (na : Bool) (relflags : RelFlags) (name : Bytes) (bufsize : ℕ) (cr : Capreq) (rest : Bytes)
      → 5 + bufsize + (length name + 1) < 256
      → length (take bufsize (swap_epoch cr.ep_ofs cr.buff)) ≡ bufsize
      → capreq_restore n_buf_it_get_int8 n_buf_it_get na
          (store_record relflags name bufsize cr ++ rest)
        ≡ restore_body na
            (fields_of relflags name cr)
            (0 ∷ (name ++ take bufsize (swap_epoch cr.ep_ofs cr.buff)))
            rest
  unfolding capreq_restore capreq_restore_sized store_record
  capreq_restore-record na relflags name bufsize cr rest fits whole =
      let size : ((5 + bufsize + (length name + 1)) % 256 + 256 - 5) % 256
          ≡ bufsize + (length name + 1) =
        omega arith in
      let buff = take bufsize (swap_epoch cr.ep_ofs cr.buff) in
      let measured : length (0 ∷ (name ++ buff)) ≡ bufsize + (length name + 1) =
        omega (arith, length-append name buff, whole) in
      ground (
        arith,
        reads.int8 ((5 + bufsize + (length name + 1)) % 256)
            (fields_of relflags name cr ++ ((0 ∷ (name ++ buff)) ++ rest)),
        reads.bytes 5 (fields_of relflags name cr) ((0 ∷ (name ++ buff)) ++ rest) refl,
        reads.bytes (bufsize + (length name + 1)) (0 ∷ (name ++ buff)) rest measured,
        size,
      )

-- What stands behind the version and the release in the buffer of a restored `capreq`.
abbrev pub behind : Bool → Bytes → Bytes
behind na name = if na then [] else name ++ 0 ∷ []

name_and_buff_wo_na-append :
    (name buff : Bytes)
    → IsCStr name
    → name_and_buff_wo_na true (name ++ 0 ∷ buff) (index_of 0 (name ++ 0 ∷ buff))
      ≡ some (name, 0 ∷ (buff ++ 0 ∷ (name ++ 0 ∷ [])))
name_and_buff_wo_na-append name buff h =
    ap (name_and_buff_wo_na true (name ++ 0 ∷ buff)) (index_of-append 0 name buff h) ∙ λ i. some (
      take-append name (0 ∷ buff) i,
      0 ∷ (drop-suc name buff i ++ 0 ∷ (take-append name (0 ∷ buff) i ++ 0 ∷ [])),
    )

module _ (relflags : RelFlags) (name : Bytes) (cr : Capreq) (h : IsCStr name)
    (ep : cr.ep_ofs + (length name + 1) < 256) (ver : cr.ver_ofs + (length name + 1) < 256)
    (rel : cr.rel_ofs + (length name + 1) < 256) where
  pub restore_body-bare :
      (na : Bool) (rest : Bytes)
      → rel_versioned relflags ≡ false
      → restore_body na (fields_of relflags name cr) (0 ∷ name) rest
        ≡ got (restored na relflags name cr (0 ∷ behind na name)) rest relflags.naalloc
  restore_body-bare true rest bare =
      restore_body-na relflags name cr ep ver rel name (0 ∷ []) rest (name_and_buff-bare name h)
  restore_body-bare false rest bare =
      restore_body-wo_na relflags name cr ep ver rel name (0 ∷ (name ++ 0 ∷ [])) rest (rw bare refl)

  pub restore_body-versioned :
      (na : Bool) (mid rest : Bytes)
      → rel_versioned relflags ≡ true
      → restore_body na (fields_of relflags name cr) (0 ∷ (name ++ 0 ∷ mid)) rest
        ≡ got (restored na relflags name cr (0 ∷ (mid ++ 0 ∷ behind na name))) rest relflags.naalloc
  restore_body-versioned true mid rest versioned =
      restore_body-na relflags name cr ep ver rel (name ++ 0 ∷ mid) _ rest
        (name_and_buff-append name mid h)
  restore_body-versioned false mid rest versioned =
      restore_body-wo_na relflags name cr ep ver rel (name ++ 0 ∷ mid) _ rest
        (rw versioned (name_and_buff_wo_na-append name mid h))
