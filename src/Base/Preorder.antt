-- ===== src/Base/Preorder.antt =====
-- The laws that a three-way comparison must satisfy to serve `n_array_sort`, `n_array_bsearch` and
-- `n_array_uniq`, on the values that satisfy `P`, and the ways to build one from others.
use Prim.Native.Nat.{ℕ}
use mathlib.Core.Path.{◌≡◌}
use native.Mathlib.Omega.{arith}
use poldek.Base.Int.{ℤ, sub_ℕ, neg, first_nonzero, IsNonPos, IsNonNeg}

pub record IsPreorder {ℓ κ} {A : Type ℓ} (P : A → Type κ) (cmp : A → A → ℤ) : Type (ℓ ⊔ κ) where
  pub flips : (a b : A) → P a → P b → IsNonPos (cmp a b) → IsNonNeg (cmp b a)
  pub flips_back : (a b : A) → P a → P b → IsNonNeg (cmp a b) → IsNonPos (cmp b a)
  pub transitive :
      (a b c : A) → P a → P b → P c → IsNonPos (cmp a b) → IsNonPos (cmp b c) → IsNonPos (cmp a c)

module _ {ℓ κ} {A : Type ℓ} {P : A → Type κ} where
  -- Comparing in the reverse order: `-cmp(a, b)`.
  pub neg-IsPreorder : {cmp : A → A → ℤ} → IsPreorder P cmp → IsPreorder P (λ a b. neg (cmp a b))
  neg-IsPreorder {cmp} h = record {
    flips = λ a b pa pb q. ground (arith, h.flips a b pa pb, h.flips_back a b pa pb);
    flips_back = λ a b pa pb q. ground (arith, h.flips a b pa pb, h.flips_back a b pa pb);
    transitive = λ a b c pa pb pc q r. ground (
      arith,
      h.flips a b pa pb,
      h.flips_back a b pa pb,
      h.flips b c pb pc,
      h.flips_back b c pb pc,
      h.flips c a pc pa,
      h.flips_back c a pc pa,
      h.transitive c b a pc pb pa,
    );
  }

  -- Comparing by one key, then by the next.
  pub first_nonzero-IsPreorder :
      {f g : A → A → ℤ}
      → IsPreorder P f
      → IsPreorder P g
      → IsPreorder P (λ a b. first_nonzero (f a b) (g a b))
  first_nonzero-IsPreorder {f} {g} hf hg = record {
    flips = λ a b pa pb q. ground (
      arith,
      hf.flips a b pa pb,
      hf.flips_back a b pa pb,
      hf.flips b a pb pa,
      hf.flips_back b a pb pa,
      hg.flips a b pa pb,
    );
    flips_back = λ a b pa pb q. ground (
      arith,
      hf.flips a b pa pb,
      hf.flips_back a b pa pb,
      hf.flips b a pb pa,
      hf.flips_back b a pb pa,
      hg.flips_back a b pa pb,
    );
    transitive = λ a b c pa pb pc q r. ground (
      arith,
      hf.flips a b pa pb,
      hf.flips b c pb pc,
      hf.flips a c pa pc,
      hf.flips_back a b pa pb,
      hf.flips_back b c pb pc,
      hf.flips_back a c pa pc,
      hf.flips c a pc pa,
      hf.flips b a pb pa,
      hf.flips c b pc pb,
      hf.transitive a b c pa pb pc,
      hf.transitive c a b pc pa pb,
      hf.transitive b c a pb pc pa,
      hg.transitive a b c pa pb pc,
    );
  }

  -- Comparing by a number: `key(a) - key(b)` without overflow.
  pub sub_ℕ-IsPreorder : (key : A → ℕ) → IsPreorder P (λ a b. sub_ℕ (key a) (key b))
  sub_ℕ-IsPreorder key = record {
    flips = λ a b pa pb q. ground arith;
    flips_back = λ a b pa pb q. ground arith;
    transitive = λ a b c pa pb pc q r. ground arith;
  }

-- A comparison of keys is a comparison of the values that have them.
pub key-IsPreorder {ℓ κ μ ν} :
    {A : Type ℓ} {B : Type κ} {P : A → Type μ} {Q : B → Type ν} {cmp : B → B → ℤ} (key : A → B)
    → ((a : A) → P a → Q (key a))
    → IsPreorder Q cmp
    → IsPreorder P (λ a b. cmp (key a) (key b))
key-IsPreorder key ok h = record {
  flips = λ a b pa pb. h.flips (key a) (key b) (ok a pa) (ok b pb);
  flips_back = λ a b pa pb. h.flips_back (key a) (key b) (ok a pa) (ok b pb);
  transitive = λ a b c pa pb pc. h.transitive (key a) (key b) (key c) (ok a pa) (ok b pb) (ok c pc);
}

-- Two comparisons that agree where `P` holds satisfy the laws together.
pub agree-IsPreorder {ℓ κ} :
    {A : Type ℓ} {P : A → Type κ} {f g : A → A → ℤ}
    → ((a b : A) → P a → P b → g a b ≡ f a b)
    → IsPreorder P f
    → IsPreorder P g
agree-IsPreorder {f} {g} same h = record {
  flips = λ a b pa pb q. ground (arith, same a b pa pb, same b a pb pa, h.flips a b pa pb);
  flips_back =
      λ a b pa pb q. ground (arith, same a b pa pb, same b a pb pa, h.flips_back a b pa pb);
  transitive = λ a b c pa pb pc q r.
      ground (arith, same a b pa pb, same b c pb pc, same a c pa pc, h.transitive a b c pa pb pc);
}
