-- ===== src/Capreq/New.antt =====
-- `capreq_new` and `capreq_clone` of capreq.c, and what the accessors read from their results.
pub mod Fields
use poldek.Base.{
  ℕ, zero, suc, ◌+◌, ◌-◌, ◌%◌, ◌<◌, ◌≡◌, ◌≢◌, refl, ap, Bool, true, false, not, ◌&&◌, ◌||◌, Option,
  none, some, List, [], ◌∷◌, ◌++◌, arith, length, take, drop, All, ◌==◌, if◌then◌else◌,
  length-append,
}
use poldek.Base.Int.{ℤ, pos, negsuc, is_zero}
use poldek.Base.Bytes.{Bytes, codes, has_prefix, index_of}
use poldek.Capreq.{
  Capreq, CapFlags, RelFlags, has_relation, c_str, bytes_of_i32, i32_of_bytes, capreq_epoch,
  capreq_ver, capreq_rel, capreq_versioned,
}

abbrev pub rpmlib_open : Bytes
rpmlib_open = codes "rpmlib("

-- The name that is stored, and whether it was an `rpmlib(...)`: with no closing bracket
-- `name_len` keeps its initial 0, so no byte of the name is copied.
unfoldable pub capreq_new_name : Bytes → Bytes × Bool
unfolding has_prefix index_of
capreq_new_name name =
    if has_prefix rpmlib_open name
    then (elim (index_of b')' (drop 7 name)) [
      | none ↦ ([], false)
      | some name_len ↦ (take name_len (drop 7 name), true)
    ])
    else (name, false)

-- `if (part) { memcpy(buf, part, len); *buf++ = 0 }`
abbrev pub stored : Option Bytes → Bytes
stored none = []
stored (some s) = s ++ 0 ∷ []

abbrev pub stored_epoch : ℤ → Bytes
stored_epoch epoch = if is_zero epoch then [] else bytes_of_i32 epoch

abbrev pub is_some {ℓ} : {A : Type ℓ} → Option A → Bool
is_some none = false
is_some (some a) = true

-- The offset at which a part was put, cut to `uint8_t`; 0 for an absent part.
abbrev pub offset : Bool → ℕ → ℕ
offset present at = if present then at % 256 else 0

-- The arguments that `capreq_new` refuses by returning NULL: an epoch or a release without a
-- version, a version without a relation.
abbrev pub refused : ℤ → Option Bytes → Option Bytes → RelFlags → Bool
refused epoch version release relflags =
    (not (is_zero epoch) && not (is_some version))
    || ((is_some version && not (has_relation relflags))
        || (is_some release && not (is_some version)))

-- The allocated `capreq` with its buffer filled, once the arguments are accepted.
unfoldable pub capreq_fill :
    Bool → Bytes → ℤ → Option Bytes → Option Bytes → RelFlags → CapFlags → Capreq
unfolding capreq_new_name
capreq_fill na name epoch version release relflags flags =
    let (stored_name, isrpmreq) = capreq_new_name name in
    let head = 0 ∷ stored_epoch epoch in
    let to_ver = head ++ stored version in
    record {
      flags = record flags { rpmlib = flags.rpmlib || isrpmreq };
      relflags = record relflags { naalloc = relflags.naalloc || na };
      name = stored_name;
      ep_ofs = offset (not (is_zero epoch)) 1;
      ver_ofs = offset (is_some version) (length head);
      rel_ofs = offset (is_some release) (length to_ver);
      buff =
          head
          ++ (stored version ++ (stored release ++ (if na then [] else stored_name ++ 0 ∷ [])));
    }

-- `capreq_new`
unfoldable pub capreq_new :
    Bool → Bytes → ℤ → Option Bytes → Option Bytes → RelFlags → CapFlags → Option Capreq
unfolding capreq_fill
capreq_new na name epoch version release relflags flags =
    if refused epoch version release relflags
    then none
    else some (capreq_fill na name epoch version release relflags flags)
