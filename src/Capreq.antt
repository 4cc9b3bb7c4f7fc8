-- ===== src/Capreq.antt =====
-- capreq.h and capreq.c: a capability, requirement, conflict or obsolete, `NAME REL EPOCH:VER-REL`.
-- The version, the release and the bytes of the epoch stand in one buffer, `_buff`, and are found
-- by `uint8_t` offsets into it; offset 0 is the leading NUL and means that the part is absent.
-- Flag words are records with a field for each bit that the program names. The pointer `na` of an
-- allocator is the Boolean "na != NULL". Comparing `name` pointers first is a shortcut that the
-- equality of the texts subsumes.
pub mod New
pub mod Clone
pub mod Compare
pub mod Evr
pub mod Store
pub mod Arr
mod Tests
use poldek.Base.{
  ℕ, zero, suc, ◌+◌, ◌-◌, ◌*◌, ◌/◌, ◌%◌, ◌^◌, Bool, true, false, not, ◌&&◌, ◌||◌, Option, none,
  some, List, [], ◌∷◌, ◌++◌, length, take, drop, ltb, leb, ◌==◌, if◌then◌else◌,
}
use poldek.Base.Int.{ℤ, pos, negsuc, is_zero, u32_of_int, i32_of_u32}
use poldek.Base.Bytes.{Bytes, codes, str_eq}

-- REL_EQ, REL_GT, REL_LT; bit 6 is __PART, bit 7 is both __NAALLOC and __SPLITTED.
pub record RelFlags : Type 0 where
  pub eq : Bool
  pub gt : Bool
  pub lt : Bool
  pub part : Bool
  pub naalloc : Bool

-- CAPREQ_CNFL to CAPREQ_BASTARD, bits 2 to 7; CAPREQ_OBCNFL and CAPREQ_VRYWEAK are `prereq`.
pub record CapFlags : Type 0 where
  pub cnfl : Bool
  pub prereq : Bool
  pub prereq_un : Bool
  pub rpmlib : Bool
  pub isdir : Bool
  pub bastard : Bool

pub record Capreq : Type 0 where
  pub flags : CapFlags
  pub relflags : RelFlags
  pub name : Bytes
  pub ep_ofs : ℕ
  pub ver_ofs : ℕ
  pub rel_ofs : ℕ
  pub buff : Bytes

abbrev pub no_flags : CapFlags
no_flags = record {
  cnfl = false;
  prereq = false;
  prereq_un = false;
  rpmlib = false;
  isdir = false;
  bastard = false;
}

abbrev pub no_rel : RelFlags
no_rel = record { eq = false; gt = false; lt = false; part = false; naalloc = false }

abbrev pub rel_eq : RelFlags
rel_eq = record { eq = true; gt = false; lt = false; part = false; naalloc = false }

-- The number that a bit of weight `w` adds to its word.
abbrev pub bit : Bool → ℕ → ℕ
bit true w = w
bit false w = 0

-- `cr_relflags & REL_ALL`, as a number.
abbrev pub capreq_relflags : Capreq → ℕ
capreq_relflags cr = bit cr.relflags.eq 1 + bit cr.relflags.gt 2 + bit cr.relflags.lt 4

-- `cr_flags`, as a number.
abbrev pub cr_flags_value : CapFlags → ℕ
cr_flags_value f =
    bit f.cnfl 4
    + bit f.prereq 8
    + bit f.prereq_un 16
    + bit f.rpmlib 32
    + bit f.isdir 64
    + bit f.bastard 128

-- `relflags != 0`
abbrev pub has_relation : RelFlags → Bool
has_relation r = r.eq || (r.gt || (r.lt || (r.part || r.naalloc)))

abbrev pub capreq_versioned : Capreq → Bool
capreq_versioned cr = cr.relflags.eq || (cr.relflags.gt || cr.relflags.lt)

-- The C string at the start of some bytes.
unfoldable pub c_str : Bytes → Bytes
c_str [] = []
c_str (c ∷ cs) = if c == 0 then [] else c ∷ c_str cs

-- `memcpy` of an `int32_t` to four bytes, the least significant first, and back.
unfoldable pub bytes_of_i32 : ℤ → Bytes
bytes_of_i32 e =
    let u = u32_of_int e in
    u % 256 ∷ (u / 256) % 256 ∷ (u / 65536) % 256 ∷ (u / 16777216) % 256 ∷ []

unfoldable pub i32_of_bytes : Bytes → ℤ
i32_of_bytes (a ∷ b ∷ c ∷ d ∷ rest) = i32_of_u32 (a + 256 * b + 65536 * c + 16777216 * d)
i32_of_bytes _ = pos 0

-- `capreq_epoch_` and the macro `capreq_epoch`.
unfoldable pub capreq_epoch : Capreq → ℤ
unfolding i32_of_bytes
capreq_epoch cr = if cr.ep_ofs == 0 then pos 0 else i32_of_bytes (drop cr.ep_ofs cr.buff)

unfoldable pub capreq_ver : Capreq → Bytes
unfolding c_str
capreq_ver cr = c_str (drop cr.ver_ofs cr.buff)

unfoldable pub capreq_rel : Capreq → Bytes
unfolding c_str
capreq_rel cr = c_str (drop cr.rel_ofs cr.buff)

abbrev pub capreq_has_epoch : Capreq → Bool
capreq_has_epoch cr = not (cr.ep_ofs == 0)

abbrev pub capreq_has_ver : Capreq → Bool
capreq_has_ver cr = not (cr.ver_ofs == 0)

abbrev pub capreq_has_rel : Capreq → Bool
capreq_has_rel cr = not (cr.rel_ofs == 0)

abbrev pub capreq_is_file : Capreq → Bool
capreq_is_file cr = elim cr.name [ [] ↦ false | c ∷ _ ↦ c == b'/' ]
