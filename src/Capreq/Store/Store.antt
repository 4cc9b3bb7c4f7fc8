-- ===== src/Capreq/Store/Store.antt =====
-- `split_capreq` and `capreq_store` of capreq.c: a capability as a record of at most 255 bytes behind
-- a length byte. A name that does not fit is cut into parts, which follow as records of their own.
-- `capreq_store` clears the runtime flags and turns the epoch around in place and puts both back, so
-- it leaves its argument as it was.
use poldek.Base.{
  ℕ, zero, suc, ◌+◌, ◌-◌, ◌/◌, ◌%◌, Bool, true, false, Option, none, some, List, [], ◌∷◌, ◌++◌,
  length, take, drop, ltb, ◌==◌, if◌then◌else◌,
}
use poldek.Base.Int.{pos}
use poldek.Base.Bytes.{Bytes}
use poldek.Capreq.{Capreq, CapFlags, RelFlags, no_flags, no_rel, bit, cr_flags_value}
use poldek.Capreq.New.{capreq_new}
use poldek.Capreq.Clone.{capreq_bufsize, namelen}

-- `cr_relflags` as a number; bit 7 is __SPLITTED in a record and __NAALLOC in a `capreq`.
abbrev pub relflags_value : RelFlags → ℕ
relflags_value r = bit r.eq 1 + bit r.gt 2 + bit r.lt 4 + bit r.part 64 + bit r.naalloc 128

abbrev pub odd : ℕ → Bool
odd n = n % 2 == 1

-- The bits of a flag byte.
unfoldable pub relflags_of : ℕ → RelFlags
relflags_of n = record {
  eq = odd n;
  gt = odd (n / 2);
  lt = odd (n / 4);
  part = odd (n / 64);
  naalloc = odd (n / 128);
}

unfoldable pub cr_flags_of : ℕ → CapFlags
cr_flags_of n = record {
  cnfl = odd (n / 4);
  prereq = odd (n / 8);
  prereq_un = odd (n / 16);
  rpmlib = odd (n / 32);
  isdir = odd (n / 64);
  bastard = odd (n / 128);
}

-- `& ~CAPREQ_RT_FLAGS` and `& ~REL_RT_FLAGS`
abbrev pub no_rt_flags : CapFlags → CapFlags
no_rt_flags f = record f { isdir = false; bastard = false }

abbrev pub no_rt_relflags : RelFlags → RelFlags
no_rt_relflags r = record r { naalloc = false }

-- `n_hton32` and `n_ntoh32` on the four bytes at an offset: network byte order has the most
-- significant byte first.
abbrev pub swap4 : Bytes → Bytes
swap4 (a ∷ b ∷ c ∷ d ∷ rest) = d ∷ c ∷ b ∷ a ∷ rest
swap4 s = s

unfoldable pub swap_epoch : ℕ → Bytes → Bytes
swap_epoch ep_ofs buff = if ep_ofs == 0 then buff else take ep_ofs buff ++ swap4 (drop ep_ofs buff)

-- `if (cr_buf[i]) cr_buf[i] += name_len + 1` in `uint8_t`, and back.
abbrev pub moved : ℕ → ℕ → ℕ
moved by ofs = if ofs == 0 then 0 else (ofs + by) % 256

abbrev pub moved_back : ℕ → ℕ → ℕ
moved_back by ofs = if ofs == 0 then 0 else (ofs + 256 - by % 256) % 256

-- One record: the length byte, the two flag bytes, the three offsets, a NUL, the name, and the
-- first `bufsize` bytes of the buffer with the epoch in network byte order.
unfoldable pub store_record : RelFlags → Bytes → ℕ → Capreq → Bytes
unfolding swap_epoch
store_record relflags name bufsize cr =
    (5 + bufsize + (length name + 1)) % 256
    ∷ relflags_value relflags
    ∷ cr_flags_value (no_rt_flags cr.flags)
    ∷ moved (length name + 1) cr.ep_ofs
    ∷ moved (length name + 1) cr.ver_ofs
    ∷ moved (length name + 1) cr.rel_ofs
    ∷ 0
    ∷ (name ++ take bufsize (swap_epoch cr.ep_ofs cr.buff))

-- The loop of `split_capreq`: the name is cut into pieces of `at` bytes. `none`: out of fuel.
unfoldable pub split_name : ℕ → ℕ → Bytes → Option (List Bytes)
split_name fuel at [] = some []
split_name zero at (c ∷ name) = none
split_name (suc fuel) at (c ∷ name) = elim (split_name fuel at (drop at (c ∷ name))) [
  | none ↦ none
  | some pieces ↦ some (take at (c ∷ name) ∷ pieces)
]

-- The `capreq`s that `capreq_new(NULL, piece, 0, NULL, NULL, 0, 0)` makes of the pieces.
unfoldable pub new_parts : List Bytes → Option (List Capreq)
new_parts [] = some []
new_parts (piece ∷ pieces) = elim (capreq_new false piece (pos 0) none none no_rel no_flags) [
  | none ↦ none
  | some part ↦ (elim (new_parts pieces) [ none ↦ none | some parts ↦ some (part ∷ parts) ])
]

-- `cr->namelen` bytes of the name.
abbrev pub capreq_name : Capreq → Bytes
capreq_name cr = take (namelen cr) cr.name

-- What is left of the 255 bytes for a name: `UINT8_MAX - base_size`, where a negative number cuts
-- nothing either.
abbrev pub room : ℕ → ℕ
room bufsize = 255 - (6 + bufsize)

unfoldable pub split_capreq : ℕ → Capreq → ℕ → Option (List Capreq)
unfolding split_name new_parts
split_capreq fuel cr bufsize = elim (split_name fuel (room bufsize) (capreq_name cr)) [
  | none ↦ none
  | some pieces ↦ new_parts pieces
]

-- What a call of `capreq_store` ends in: the bytes it has added, the end of the process by a
-- message or an assertion, or no end within the fuel.
pub data StoreResult : Type 0 where
  added : Bytes → StoreResult
  died unfinished : StoreResult

-- `cap->cr_relflags |= __PART; capreq_store(cap, nbuf)` for each of the parts behind the first.
unfoldable pub store_parts : (Capreq → StoreResult) → List Capreq → StoreResult
store_parts store [] = added []
store_parts store (part ∷ parts) =
    elim (store (record part { relflags = record part.relflags { part = true } })) [
      | added bytes ↦ (elim (store_parts store parts) [
        | added more ↦ added (bytes ++ more)
        | died ↦ died
        | unfinished ↦ unfinished
      ])
      | died ↦ died
      | unfinished ↦ unfinished
    ]

unfoldable pub add_before : Bytes → StoreResult → StoreResult
add_before bytes (added more) = added (bytes ++ more)
add_before bytes died = died
add_before bytes unfinished = unfinished

-- The parameter gives the bytes that stand where the name of a freed `capreq` was, as many as the
-- name has. `capreq_store` frees the first part before it copies that part's name, which is in the
-- block of the part.
module _ (freed : Bytes → Bytes) where
  -- The record under the name that is read for the first part, marked as __SPLITTED, and the other
  -- parts.
  unfoldable pub store_splitted : (Capreq → StoreResult) → Capreq → ℕ → List Capreq → StoreResult
  unfolding store_record add_before store_parts
  store_splitted store cr bufsize [] = died
  store_splitted store cr bufsize (first ∷ parts) =
      if ltb 255 (5 + bufsize + (length first.name + 1))
      then died
      else add_before
          (store_record (record cr.relflags { naalloc = true }) (freed first.name) bufsize cr)
          (store_parts store parts)

  unfoldable pub capreq_store : ℕ → Capreq → StoreResult
  unfolding capreq_bufsize store_record split_capreq store_splitted
  capreq_store zero cr = unfinished
  capreq_store (suc fuel) cr =
      let store = capreq_store fuel in
      elim (capreq_bufsize cr) [
        | none ↦ died
        | some size ↦
            let bufsize = size - 1 in
            if ltb 255 (5 + bufsize + (length (capreq_name cr) + 1))
            then (elim (split_capreq fuel cr bufsize) [
              | none ↦ unfinished
              | some parts ↦ store_splitted store cr bufsize parts
            ])
            else added (store_record (no_rt_relflags cr.relflags) (capreq_name cr) bufsize cr)
      ]
