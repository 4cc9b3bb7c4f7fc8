-- ===== src/Capreq/New/Fields.antt =====
-- What the accessors of a `capreq` read back from the buffer that `capreq_new` has filled.
use poldek.Base.{
  ℕ, zero, suc, ◌+◌, ◌*◌, ◌/◌, ◌%◌, ◌^◌, ◌<◌, ◌≤◌, ◌≡◌, ◌≢◌, refl, ap, ◌∙◌, Bool, true, Option,
  none, some, [], ◌∷◌, ◌++◌, arith, length, drop, drop-append, All, length-append,
}
use mathlib.Core.List.{append_assoc}
use poldek.Base.Int.{
  ℤ, pos, negsuc, IsI32, u32_of_int, i32_of_u32, i32_of_u32-u32_of_int, u32_of_int-lt,
}
use poldek.Base.Bytes.{Bytes}
use poldek.Capreq.{
  Capreq, CapFlags, RelFlags, has_relation, c_str, bytes_of_i32, i32_of_bytes, capreq_epoch,
  capreq_ver, capreq_rel, capreq_has_rel,
}
use poldek.Capreq.New.{capreq_new, capreq_fill, is_some, stored_epoch}

-- A C string holds no NUL.
abbrev pub IsCStr : Bytes → Type 0
IsCStr s = All (λ c. c ≢ 0) s

pub c_str-append : (s rest : Bytes) → IsCStr s → c_str (s ++ 0 ∷ rest) ≡ s
unfolding c_str
c_str-append [] rest h = refl
c_str-append (c ∷ s) rest h = ground (arith, c_str-append s rest h.1)

u32_of_digits :
    (u : ℕ)
    → u < 2 ^ 32
    → u % 256
        + 256 * ((u / 256) % 256)
        + 65536 * ((u / 65536) % 256)
        + 16777216 * ((u / 16777216) % 256)
      ≡ u
u32_of_digits u h = omega arith

-- Four bytes hold an `int32_t`.
pub i32_of_bytes-append :
    (e : ℤ) (rest : Bytes) → IsI32 e → i32_of_bytes (bytes_of_i32 e ++ rest) ≡ e
unfolding i32_of_bytes bytes_of_i32
i32_of_bytes-append e rest h =
    ap i32_of_u32 (u32_of_digits (u32_of_int e) (u32_of_int-lt e)) ∙ i32_of_u32-u32_of_int e h

pub length-stored_epoch : (e : ℤ) → length (stored_epoch e) ≤ 4
unfolding bytes_of_i32
length-stored_epoch (pos zero) = omega arith
length-stored_epoch (pos (suc n)) = omega arith
length-stored_epoch (negsuc n) = omega arith

abbrev pub IsCStr? : Option Bytes → Type 0
IsCStr? none = Unit
IsCStr? (some s) = IsCStr s

-- The text of an absent part.
abbrev pub or_empty : Option Bytes → Bytes
or_empty none = []
or_empty (some s) = s

-- A string that was put behind `head` is read back from the offset `(uint8_t) length head`.
pub c_str-drop :
    (head s rest : Bytes)
    → IsCStr s
    → length head < 256
    → c_str (drop (length head % 256) (head ++ ((s ++ 0 ∷ []) ++ rest))) ≡ s
c_str-drop head s rest h fits =
    let small : length head % 256 ≡ length head = omega arith in
    rw (small, drop-append head ((s ++ 0 ∷ []) ++ rest), append_assoc) (c_str-append s rest h)

pub length-to_ver :
    (e : ℤ) (v : Bytes) → length v < 250 → length ((0 ∷ stored_epoch e) ++ (v ++ 0 ∷ [])) < 256
length-to_ver e v h = omega (
  arith,
  length-append (0 ∷ stored_epoch e) (v ++ 0 ∷ []),
  length-append v (0 ∷ []),
  length-stored_epoch e,
)

module _ (na : Bool) (name : Bytes) (rf : RelFlags) (fl : CapFlags) where
  pub epoch-fill :
      (e : ℤ) (v : Bytes) (r : Option Bytes)
      → IsI32 e
      → capreq_epoch (capreq_fill na name e (some v) r rf fl) ≡ e
  unfolding capreq_epoch capreq_fill
  epoch-fill (pos zero) v r h = refl
  epoch-fill (pos (suc n)) v r h = i32_of_bytes-append (pos (suc n)) _ h
  epoch-fill (negsuc n) v r h = i32_of_bytes-append (negsuc n) _ h

  pub ver-fill :
      (e : ℤ) (v : Bytes) (r : Option Bytes)
      → IsCStr v
      → capreq_ver (capreq_fill na name e (some v) r rf fl) ≡ v
  unfolding capreq_ver capreq_fill bytes_of_i32
  ver-fill (pos zero) v r h = rw append_assoc (c_str-append v _ h)
  ver-fill (pos (suc n)) v r h = rw append_assoc (c_str-append v _ h)
  ver-fill (negsuc n) v r h = rw append_assoc (c_str-append v _ h)

  pub rel-fill :
      (e : ℤ) (v r : Bytes)
      → IsCStr r
      → length v < 250
      → capreq_rel (capreq_fill na name e (some v) (some r) rf fl) ≡ r
  unfolding capreq_rel capreq_fill
  rel-fill e v r h fits =
      let head = 0 ∷ stored_epoch e in
      rw (← append_assoc head (v ++ 0 ∷ []) _)
        (c_str-drop (head ++ (v ++ 0 ∷ [])) r _ h (length-to_ver e v fits))

  pub has_rel-fill :
      (e : ℤ) (v : Bytes) (r : Option Bytes)
      → length v < 250
      → capreq_has_rel (capreq_fill na name e (some v) r rf fl) ≡ is_some r
  unfolding capreq_fill
  has_rel-fill e v none fits = refl
  has_rel-fill e v (some r) fits =
      let small = length-to_ver e v fits in
      let whole : (1 + length (stored_epoch e ++ (v ++ 0 ∷ []))) % 256
          ≡ 1 + length (stored_epoch e ++ (v ++ 0 ∷ [])) =
        omega arith in
      ground (arith, small, whole)

-- With a version and a relation `capreq_new` succeeds; the epoch, the version and the release are
-- then read back as they were given, the release as the empty string if there is none, and the
-- `capreq` has a release exactly if one was given. The epoch is any `int32_t`, the version is
-- shorter than 250 bytes, and version and release have no NUL.
pub capreq_new-reads :
    (na : Bool) (name : Bytes) (e : ℤ) (v : Bytes) (r : Option Bytes) (rf : RelFlags)
    (fl : CapFlags)
    → has_relation rf ≡ true
    → IsI32 e
    → IsCStr v
    → length v < 250
    → IsCStr? r
    → (cr : Capreq) × (capreq_new na name e (some v) r rf fl ≡ some cr)
      × (capreq_epoch cr ≡ e)
      × (capreq_ver cr ≡ v)
      × (capreq_rel cr ≡ or_empty r)
      × (capreq_has_rel cr ≡ is_some r)
unfolding capreq_new
capreq_new-reads na name e v none rf fl related he hv fits hr = (
  capreq_fill na name e (some v) none rf fl,
  ground arith,
  epoch-fill na name rf fl e v none he,
  ver-fill na name rf fl e v none hv,
  unfold capreq_rel capreq_fill in refl,
  has_rel-fill na name rf fl e v none fits,
)
capreq_new-reads na name e v (some r) rf fl related he hv fits hr = (
  capreq_fill na name e (some v) (some r) rf fl,
  ground arith,
  epoch-fill na name rf fl e v (some r) he,
  ver-fill na name rf fl e v (some r) hv,
  rel-fill na name rf fl e v r hr fits,
  has_rel-fill na name rf fl e v (some r) fits,
)
