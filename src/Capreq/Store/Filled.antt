-- ===== src/Capreq/Store/Filled.antt =====
-- A capability that `capreq_new` has made, stored in one record, is restored.
use poldek.Base.{
  zero, suc, ◌+◌, ◌<◌, ◌≤◌, ◌≡◌, refl, ap, ◌∙◌, Bool, not, Option, none, some, [], ◌∷◌, ◌++◌, arith,
  length, drop, drop-append, if◌then◌else◌, length-append,
}
use mathlib.Core.List.{append_assoc}
use poldek.Base.Int.{ℤ, pos, negsuc, is_zero}
use poldek.Base.Bytes.{Bytes}
use poldek.Capreq.{Capreq, RelFlags, CapFlags, bytes_of_i32, c_str}
use poldek.Capreq.New.{capreq_fill, stored, stored_epoch, capreq_new_name, offset}
use poldek.Capreq.New.Fields.{IsCStr, IsCStr?, c_str-append, length-stored_epoch}
use poldek.Capreq.Clone.{capreq_bufsize, larger}
use poldek.Capreq.Store.Store.{swap4, swap_epoch}

-- `capreq_bufsize` measures up to the end of the part with the largest offset.
bufsize-append :
    (cr : Capreq) (head s tail : Bytes)
    → larger (larger (larger 0 cr.ep_ofs) cr.ver_ofs) cr.rel_ofs ≡ length head
    → 0 < length head
    → cr.buff ≡ head ++ (s ++ 0 ∷ tail)
    → IsCStr s
    → length head + length s + 1 < 255
    → capreq_bufsize cr ≡ some (length head + length s + 1)
unfolding capreq_bufsize
bufsize-append cr head s tail last some_head split h fits =
    let read : c_str (drop (length head) cr.buff) ≡ s =
      rw (split, drop-append head (s ++ 0 ∷ tail)) (c_str-append s tail h) in
    ground (arith, last, read)

-- The bytes of the epoch in network byte order.
abbrev pub swapped : ℤ → Bytes
swapped e = if is_zero e then [] else swap4 (bytes_of_i32 e)

pub swap_epoch-stored :
    (e : ℤ) (rest : Bytes)
    → swap_epoch (offset (not (is_zero e)) 1) (0 ∷ (stored_epoch e ++ rest))
      ≡ 0 ∷ (swapped e ++ rest)
unfolding swap_epoch bytes_of_i32
swap_epoch-stored (pos zero) rest = refl
swap_epoch-stored (pos (suc n)) rest = refl
swap_epoch-stored (negsuc n) rest = refl

pub swap_epoch-swapped :
    (e : ℤ) (rest : Bytes)
    → swap_epoch (offset (not (is_zero e)) 1) (0 ∷ (swapped e ++ rest))
      ≡ 0 ∷ (stored_epoch e ++ rest)
unfolding swap_epoch bytes_of_i32
swap_epoch-swapped (pos zero) rest = refl
swap_epoch-swapped (pos (suc n)) rest = refl
swap_epoch-swapped (negsuc n) rest = refl

pub length-swapped : (e : ℤ) → length (swapped e) ≡ length (stored_epoch e)
unfolding bytes_of_i32
length-swapped (pos zero) = refl
length-swapped (pos (suc n)) = refl
length-swapped (negsuc n) = refl

pub epoch_offset : (e : ℤ) → offset (not (is_zero e)) 1 ≤ 1
epoch_offset (pos zero) = omega arith
epoch_offset (pos (suc n)) = omega arith
epoch_offset (negsuc n) = omega arith

-- The version and the release, without the last NUL.
abbrev pub text : Bytes → Option Bytes → Bytes
text v none = v
text v (some r) = v ++ 0 ∷ r

pub stored-text :
    (v : Bytes) (r : Option Bytes) (tail : Bytes)
    → stored (some v) ++ (stored r ++ tail) ≡ text v r ++ 0 ∷ tail
stored-text v none tail = append_assoc v (0 ∷ []) tail
stored-text v (some r) tail = simp append_assoc refl

pub length-text :
    (v : Bytes) (r : Option Bytes)
    → 1 + length (text v r) ≡ length (stored (some v)) + length (stored r)
length-text v none = omega (arith, length-append v (0 ∷ []))
length-text v (some r) =
    omega (arith, length-append v (0 ∷ []), length-append r (0 ∷ []), length-append v (0 ∷ r))

module _ (na : Bool) (name : Bytes) (rf : RelFlags) (fl : CapFlags) where
  -- The buffer of a `capreq` with a version.
  pub bufsize-fill :
      (e : ℤ) (v : Bytes) (r : Option Bytes)
      → IsCStr v
      → IsCStr? r
      → length (stored_epoch e) + length (stored (some v)) + length (stored r) < 250
      → capreq_bufsize (capreq_fill na name e (some v) r rf fl)
        ≡ some (1 + (length (stored_epoch e) + length (stored (some v)) + length (stored r)))
  bufsize-fill e v none hv hr fits =
      let cr = capreq_fill na name e (some v) none rf fl in
      let last : larger (larger (larger 0 cr.ep_ofs) cr.ver_ofs) cr.rel_ofs
          ≡ length (0 ∷ stored_epoch e) =
        unfold capreq_fill in ground (arith, epoch_offset e, length-stored_epoch e) in
      let tail = if na then [] else (capreq_new_name name).0 ++ 0 ∷ [] in
      bufsize-append cr (0 ∷ stored_epoch e) v tail last (omega arith)
        (unfold capreq_fill in ap (λ t. (0 ∷ stored_epoch e) ++ t) (append_assoc v (0 ∷ []) tail))
        hv (omega (arith, length-append v (0 ∷ [])))
      ∙ ap some (omega (arith, length-append v (0 ∷ [])))
  bufsize-fill e v (some r) hv hr fits =
      let cr = capreq_fill na name e (some v) (some r) rf fl in
      let head = (0 ∷ stored_epoch e) ++ (v ++ 0 ∷ []) in
      let measured : length head ≡ 1 + length (stored_epoch e) + length (v ++ 0 ∷ []) =
        omega (arith, length-append (0 ∷ stored_epoch e) (v ++ 0 ∷ [])) in
      let last : larger (larger (larger 0 cr.ep_ofs) cr.ver_ofs) cr.rel_ofs ≡ length head =
        unfold capreq_fill in ground (arith, epoch_offset e, length-stored_epoch e, measured) in
      let tail = if na then [] else (capreq_new_name name).0 ++ 0 ∷ [] in
      bufsize-append cr head r tail last (omega arith)
        (unfold capreq_fill in simp append_assoc refl) hr (omega (arith, length-append r (0 ∷ [])))
      ∙ ap some (omega (arith, length-append r (0 ∷ [])))
