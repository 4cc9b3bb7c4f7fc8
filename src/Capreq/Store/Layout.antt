-- ===== src/Capreq/Store/Layout.antt =====
-- The parts of the buffer that `capreq_store` of capreq.c writes for a capability with a version.
use poldek.Base.{
  ℕ, suc, ◌+◌, ◌-◌, ◌%◌, ◌^◌, ◌<◌, ◌≤◌, ◌≡◌, refl, sym, ap, ◌∙◌, Bool, not, Option, none, some, [],
  ◌∷◌, ◌++◌, arith, length, take, take-append, length-append,
}
use mathlib.Core.List.{append_assoc}
use poldek.Base.Int.{ℤ, is_zero}
use poldek.Base.Bytes.{Bytes}
use poldek.Capreq.{Capreq, RelFlags, CapFlags}
use poldek.Capreq.New.{capreq_fill, stored, stored_epoch, capreq_new_name, offset}
use poldek.Capreq.Clone.{capreq_bufsize}
use poldek.Capreq.Store.Store.{
  store_record, capreq_store, added, capreq_name, swap_epoch, no_rt_flags, no_rt_relflags,
}
use poldek.Capreq.Store.Filled.{
  swapped, swap_epoch-stored, swap_epoch-swapped, length-swapped, epoch_offset, text, stored-text,
  length-text,
}
use poldek.Capreq.Store.Restores.{restored, behind}

take-length : (xs : Bytes) → take (length xs) xs ≡ xs
take-length [] = refl
take-length (x ∷ xs) = ap (λ l. x ∷ l) (take-length xs)

-- A name of less than 2^16 bytes is stored whole.
pub capreq_name-whole : (cr : Capreq) → length cr.name < 2 ^ 16 → capreq_name cr ≡ cr.name
capreq_name-whole cr few =
    let small : length cr.name % 2 ^ 16 ≡ length cr.name = omega arith in
    ap (λ n. take n cr.name) small ∙ take-length cr.name

-- A `capreq` that fits is stored as one record under its own name.
pub store-plain :
    (freed : Bytes → Bytes) (fuel b : ℕ) (cr : Capreq) (name : Bytes)
    → cr.name ≡ name
    → capreq_bufsize cr ≡ some (1 + b)
    → 5 + b + (length name + 1) < 256
    → capreq_store freed (suc fuel) cr ≡ added (store_record (no_rt_relflags cr.relflags) name b cr)
unfolding capreq_store
store-plain freed fuel b cr name own size fits =
    let whole : capreq_name cr ≡ name = capreq_name-whole cr (omega (arith, ap length own)) ∙ own in
    let less : 1 + b - 1 ≡ b = omega arith in ground (arith, size, whole, less)

-- The version and the release behind the epoch in network byte order.
abbrev pub inner : ℤ → Bytes → Option Bytes → Bytes
inner e v r = swapped e ++ text v r

-- The bytes of the buffer that are stored.
abbrev pub bytes_behind : ℤ → Bytes → Option Bytes → ℕ
bytes_behind e v r = length (stored_epoch e) + length (stored (some v)) + length (stored r)

pub length-inner :
    (e : ℤ) (v : Bytes) (r : Option Bytes) → length (0 ∷ inner e v r) ≡ bytes_behind e v r
length-inner e v r =
    omega (arith, length-append (swapped e) (text v r), length-swapped e, length-text v r)

module _ (na to_na : Bool) (name : Bytes) (rf : RelFlags) (fl : CapFlags) where
  -- The `capreq` of a version.
  abbrev pub filled : ℤ → Bytes → Option Bytes → Capreq
  filled e v r = capreq_fill na name e (some v) r rf fl

  pub offsets-fill :
      (e : ℤ) (v : Bytes) (r : Option Bytes)
      → bytes_behind e v r < 250
      → ((filled e v r).ep_ofs ≤ bytes_behind e v r)
        × ((filled e v r).ver_ofs ≤ bytes_behind e v r)
        × ((filled e v r).rel_ofs ≤ bytes_behind e v r)
  unfolding capreq_fill
  offsets-fill e v none fits =
      let one = length-append v (0 ∷ []) in
      (omega (arith, epoch_offset e, one), omega (arith, one), omega arith)
  offsets-fill e v (some r) fits =
      let one = length-append v (0 ∷ []) in
      let last = length-append (0 ∷ stored_epoch e) (v ++ 0 ∷ []) in
      (
        omega (arith, epoch_offset e, one),
        omega (arith, one),
        omega (arith, last, length-append r (0 ∷ [])),
      )

  pub take-swap :
      (e : ℤ) (v : Bytes) (r : Option Bytes)
      → take (bytes_behind e v r) (swap_epoch (filled e v r).ep_ofs (filled e v r).buff)
        ≡ 0 ∷ inner e v r
  unfolding capreq_fill
  take-swap e v r =
      let tail = behind na (capreq_new_name name).0 in
      let turned = swap_epoch-stored e (stored (some v) ++ (stored r ++ tail)) in
      let whole : 0 ∷ (swapped e ++ (stored (some v) ++ (stored r ++ tail)))
          ≡ (0 ∷ inner e v r) ++ 0 ∷ tail =
        rw (stored-text v r tail) (sym (append_assoc (0 ∷ swapped e) (text v r) (0 ∷ tail))) in
      ap (take (bytes_behind e v r)) (turned ∙ whole)
      ∙ (ap (λ n. take n ((0 ∷ inner e v r) ++ 0 ∷ tail)) (sym (length-inner e v r))
          ∙ take-append (0 ∷ inner e v r) (0 ∷ tail))

  pub restored-fill :
      (e : ℤ) (v : Bytes) (r : Option Bytes)
      → restored to_na
          (no_rt_relflags (filled e v r).relflags)
          (capreq_new_name name).0
          (filled e v r)
          (0 ∷ (inner e v r ++ 0 ∷ behind to_na (capreq_new_name name).0))
        ≡ capreq_fill to_na name e (some v) r (no_rt_relflags rf) (no_rt_flags fl)
  unfolding capreq_fill restored
  restored-fill e v r =
      let tail = behind to_na (capreq_new_name name).0 in
      let ep = offset (not (is_zero e)) 1 in
      let buff =
        ap (λ t. swap_epoch ep (0 ∷ t)) (append_assoc (swapped e) (text v r) (0 ∷ tail))
        ∙ (swap_epoch-swapped e (text v r ++ 0 ∷ tail)
            ∙ ap (λ t. 0 ∷ (stored_epoch e ++ t)) (sym (stored-text v r tail))) in
      ap
        (λ b. record (capreq_fill to_na name e (some v) r (no_rt_relflags rf) (no_rt_flags fl)) {
          buff = b;
        })
        buff
