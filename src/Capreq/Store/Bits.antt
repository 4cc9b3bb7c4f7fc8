-- ===== src/Capreq/Store/Bits.antt =====
-- The flag bytes of a stored capability hold the flags.
use poldek.Base.{ℕ, ◌+◌, ◌/◌, ◌≡◌, Bool, false, arith}
use poldek.Capreq.{RelFlags, CapFlags, bit, cr_flags_value}
use poldek.Capreq.Store.Store.{relflags_value, relflags_of, cr_flags_of, odd, no_rt_flags}

-- The number of five flags.
abbrev rel_bits : Bool → Bool → Bool → Bool → Bool → ℕ
rel_bits a b c d e = bit a 1 + bit b 2 + bit c 4 + bit d 64 + bit e 128

rel_bit_eq : (a b c d e : Bool) → odd (rel_bits a b c d e) ≡ a
rel_bit_eq a b c d e = ground arith

rel_bit_gt : (a b c d e : Bool) → odd (rel_bits a b c d e / 2) ≡ b
rel_bit_gt a b c d e = ground arith

rel_bit_lt : (a b c d e : Bool) → odd (rel_bits a b c d e / 4) ≡ c
rel_bit_lt a b c d e = ground arith

rel_bit_part : (a b c d e : Bool) → odd (rel_bits a b c d e / 64) ≡ d
rel_bit_part a b c d e = ground arith

rel_bit_naalloc : (a b c d e : Bool) → odd (rel_bits a b c d e / 128) ≡ e
rel_bit_naalloc a b c d e = ground arith

-- The flags of a relation are read back.
pub relflags_of-value : (r : RelFlags) → relflags_of (relflags_value r) ≡ r
unfolding relflags_of
relflags_of-value r i = record {
  eq = rel_bit_eq r.eq r.gt r.lt r.part r.naalloc i;
  gt = rel_bit_gt r.eq r.gt r.lt r.part r.naalloc i;
  lt = rel_bit_lt r.eq r.gt r.lt r.part r.naalloc i;
  part = rel_bit_part r.eq r.gt r.lt r.part r.naalloc i;
  naalloc = rel_bit_naalloc r.eq r.gt r.lt r.part r.naalloc i;
}

-- Bit 7 of the flag byte.
pub splitted_bit : (r : RelFlags) → odd (relflags_value r / 128) ≡ r.naalloc
splitted_bit r = rel_bit_naalloc r.eq r.gt r.lt r.part r.naalloc

-- The number of four flags from bit 2 on.
abbrev cap_bits : Bool → Bool → Bool → Bool → ℕ
cap_bits a b c d = bit a 4 + bit b 8 + bit c 16 + bit d 32 + 0 + 0

cap_bit :
    (a b c d : Bool)
    → (odd (cap_bits a b c d / 4) ≡ a)
      × (odd (cap_bits a b c d / 8) ≡ b)
      × (odd (cap_bits a b c d / 16) ≡ c)
      × (odd (cap_bits a b c d / 32) ≡ d)
      × (odd (cap_bits a b c d / 64) ≡ false)
      × (odd (cap_bits a b c d / 128) ≡ false)
cap_bit a b c d =
    (ground arith, ground arith, ground arith, ground arith, ground arith, ground arith)

-- The flags of a capability without its runtime flags are read back.
pub cr_flags_of-value :
    (f : CapFlags) → cr_flags_of (cr_flags_value (no_rt_flags f)) ≡ no_rt_flags f
unfolding cr_flags_of
cr_flags_of-value f i =
    let (h2, h3, h4, h5, h6, h7) = cap_bit f.cnfl f.prereq f.prereq_un f.rpmlib in
    record {
      cnfl = h2 i;
      prereq = h3 i;
      prereq_un = h4 i;
      rpmlib = h5 i;
      isdir = h6 i;
      bastard = h7 i;
    }
