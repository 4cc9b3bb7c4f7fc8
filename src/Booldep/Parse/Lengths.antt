-- ===== src/Booldep/Parse/Lengths.antt =====
-- What the scanners of booldep_parse.c leave of a text.
use poldek.Base.{
  ℕ, ◌+◌, ◌<◌, ◌≤◌, ◌≡◌, refl, true, false, Option, none, some, [], ◌∷◌, arith, length, Bool-cases,
  inl, inr,
}
use poldek.Base.Bytes.{Bytes, isspace, strcmp}
use poldek.Capreq.{RelFlags, has_relation, no_rel}
use poldek.Booldep.Parse.Tree.{Op, Tree, ident, op0, op1, op2, op3, operator_of}
use poldek.Booldep.Parse.Ident.{
  skipwhite, open_brackets, skipnonwhite, parse_relflags, with_relflag, op_word, evr_ident,
  relation_ident, named_ident, parse_ident, new_ident,
}
use poldek.Booldep.Parse.Dep.{next_opnode}

pub length-skipwhite : (s : Bytes) → length (skipwhite s) ≤ length s
unfolding skipwhite
length-skipwhite [] = omega arith
length-skipwhite (c ∷ s) = ground (arith, length-skipwhite s)

length-skipnonwhite :
    (bl : ℕ) (s : Bytes) → length (skipnonwhite bl s).0 + length (skipnonwhite bl s).1 ≡ length s
unfolding skipnonwhite
length-skipnonwhite bl [] = omega arith
length-skipnonwhite bl (c ∷ s) = ground (arith, length-skipnonwhite (open_brackets bl c) s)

length-parse_relflags : (r : RelFlags) (s : Bytes) → length (parse_relflags r s).1 ≤ length s
unfolding parse_relflags
length-parse_relflags r [] = omega arith
length-parse_relflags r (c ∷ s) = ground (arith, length-parse_relflags (with_relflag r c) s)

pub length-op_word : (s : Bytes) → length (op_word s).0 + length (op_word s).1 ≡ length s
unfolding op_word
length-op_word [] = omega arith
length-op_word (c ∷ s) = ground (arith, length-op_word s)

pub op_word-less :
    (c : ℕ) (s : Bytes) → isspace c ≡ false → length (op_word (c ∷ s)).1 < length (c ∷ s)
unfolding op_word
op_word-less c s h = rw h (omega (arith, length-op_word s))

pub op_word-space : (c : ℕ) (s : Bytes) → isspace c ≡ true → op_word (c ∷ s) ≡ ([], c ∷ s)
unfolding op_word
op_word-space c s h = rw h refl

pub no_op :
    (ct : Option Op) (chain : Option Tree) (node : Tree)
    → next_opnode ct chain (operator_of []) node ≡ none
unfolding next_opnode operator_of strcmp
no_op ct chain node = refl

-- An identifier, if any, with less than `n` bytes behind it.
abbrev pub IsIdent : ℕ → Option (Tree × Bytes) → Type 0
IsIdent n none = Unit
IsIdent n (some (ident cap, p)) = length p < n
IsIdent n (some (op0 op, p)) = ⊥
IsIdent n (some (op1 op a, p)) = ⊥
IsIdent n (some (op2 op a b, p)) = ⊥
IsIdent n (some (op3 op a b c, p)) = ⊥

evr_ident-IsIdent :
    (n : ℕ) (name : Bytes) (r : RelFlags) (w p : Bytes)
    → length p < n
    → IsIdent n (evr_ident name r (w, p))
unfolding new_ident
evr_ident-IsIdent n name r [] p h = tt
evr_ident-IsIdent n name r (c ∷ w) p h = h

relation_ident-IsIdent :
    (n : ℕ) (name : Bytes) (r : RelFlags) (p : Bytes)
    → length p < n
    → IsIdent n (relation_ident name (r, p))
unfolding relation_ident new_ident
relation_ident-IsIdent n name r p h =
    let split = length-skipnonwhite 0 (skipwhite p) in
    let less = length-skipwhite p in
    elim (Bool-cases (has_relation r)) [
      | inl e ↦ rw e (
          evr_ident-IsIdent n name r (skipnonwhite 0 (skipwhite p)).0
            (skipnonwhite 0 (skipwhite p)).1 (omega arith))
      | inr e ↦ rw e h
    ]

named_ident-IsIdent :
    (n : ℕ) (name p : Bytes) → length name + length p ≤ n → IsIdent n (named_ident (name, p))
unfolding named_ident
named_ident-IsIdent n [] p h = tt
named_ident-IsIdent n (c ∷ cs) p h =
    let behind = skipwhite p in
    relation_ident-IsIdent n (c ∷ cs) (parse_relflags no_rel behind).0
      (parse_relflags no_rel behind).1
      (omega (arith, length-parse_relflags no_rel behind, length-skipwhite p))

pub parse_ident-IsIdent : (p : Bytes) → IsIdent (length p) (parse_ident p)
unfolding parse_ident
parse_ident-IsIdent p =
    named_ident-IsIdent (length p) (skipnonwhite 0 p).0 (skipnonwhite 0 p).1
      (omega (arith, length-skipnonwhite 0 p))
