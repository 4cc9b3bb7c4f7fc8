-- ===== src/Booldep/Parse/Complete.antt =====
-- Trees of booldep_parse.c whose operators have their arguments, and the operators that keep them so.
use poldek.Base.{
  ℕ, ◌<◌, ◌≤◌, ◌≡◌, refl, Bool, true, false, ◌&&◌, Option, none, some, arith, length, ltb,
  Bool-cases, inl, inr,
}
use poldek.Booldep.Parse.Tree.{
  Op, and, or_, if_, unless, else_, with_, without, same_op, is_conditional, ary, Tree, ident, op0,
  op1, op2, op3, type_of, node_set_arg, is_conditional_type,
}
use poldek.Booldep.Parse.Dep.{
  Parsed, failed, asserted, unfinished, parsed, opnode_of, allowed_opnode, next_opnode, finish_op,
  marked, ctype_allows, chain_allows,
}

-- Every operator has its arguments: two, or three at `if` and `unless`, and none is an `else`.
abbrev pub IsComplete : Tree → Type 0
IsComplete (ident cap) = Unit
IsComplete (op0 op) = ⊥
IsComplete (op1 op a) = ⊥
IsComplete (op2 op a b) = (same_op op else_ ≡ false) × IsComplete a × IsComplete b
IsComplete (op3 op a b c) = (is_conditional op ≡ true) × IsComplete a × IsComplete b × IsComplete c

-- The node of a chain and the operator behind which the parser stands.
abbrev IsChain : Op → Tree → Type 0
IsChain o (ident cap) = ⊥
IsChain o (op0 op) = ⊥
IsChain o (op1 op a) = (same_op op else_ ≡ false) × IsComplete a
IsChain o (op2 op a b) = (is_conditional op ≡ true) × IsComplete a × IsComplete b
IsChain o (op3 op a b c) = (is_conditional op ≡ true) × IsComplete a × IsComplete b × IsComplete c

abbrev pub IsCall : Option Op → Option Tree → Type 0
IsCall none none = Unit
IsCall none (some chain) = ⊥
IsCall (some o) none = ⊥
IsCall (some o) (some chain) = IsChain o chain

abbrev pub IsNext : Option (Op × Tree × Bool) → Type 0
IsNext none = Unit
IsNext (some (o, t, used)) = IsChain o t

ary-else : (op : Op) → ltb 0 (ary op) ≡ true → same_op op else_ ≡ false
ary-else and h = refl
ary-else or_ h = refl
ary-else if_ h = refl
ary-else unless h = refl
ary-else else_ h = cc
ary-else with_ h = refl
ary-else without h = refl

conditional-else : (op : Op) → is_conditional op ≡ true → same_op op else_ ≡ false
conditional-else op h = ground arith

allowed-IsNext :
    (ct : Option Op) (chain : Option Tree) (o : Op) (t : Tree) (used : Bool)
    → IsChain o t
    → IsNext (allowed_opnode ct chain o (some (t, used)))
unfolding allowed_opnode
allowed-IsNext ct chain o t used h = elim (Bool-cases (ctype_allows chain t && chain_allows ct o)) [
  | inl e ↦ rw e h
  | inr e ↦ rw e tt
]

abbrev IsArg : Op → Option Tree → Type 0
IsArg o none = Unit
IsArg o (some t) = IsChain o t

marked-IsNext :
    (ct : Option Op) (chain : Option Tree) (o : Op) (used : Bool) (r : Option Tree)
    → IsArg o r
    → IsNext (allowed_opnode ct chain o (marked used r))
marked-IsNext ct chain o used none h = unfold allowed_opnode in tt
marked-IsNext ct chain o used (some t) h = allowed-IsNext ct chain o t used h

fresh-IsArg : (o : Op) (node : Tree) → IsComplete node → IsArg o (node_set_arg (op0 o) node)
unfolding node_set_arg
fresh-IsArg o node h = elim (Bool-cases (ltb 0 (ary o))) [
  | inl e ↦ rw e (ary-else o e, h)
  | inr e ↦ rw e tt
]

-- The node of the chain with one more argument.
chain-IsArg :
    (ct o : Op) (chain node : Tree)
    → IsChain ct chain
    → IsComplete node
    → is_conditional_type (type_of chain) ≡ true
    → IsArg o (node_set_arg chain node)
unfolding node_set_arg
chain-IsArg ct o (ident cap) node h k c = absurd h
chain-IsArg ct o (op0 op) node h k c = absurd h
chain-IsArg ct o (op1 op a) node h k c = elim (Bool-cases (ltb 1 (ary op))) [
  | inl e ↦ rw e (c, h.1, k)
  | inr e ↦ rw e tt
]
chain-IsArg ct o (op2 op a b) node h k c = elim (Bool-cases (ltb 2 (ary op))) [
  | inl e ↦ rw e (c, h.1, h.2, k)
  | inr e ↦ rw e tt
]
chain-IsArg ct o (op3 op a b d) node h k c = tt

pub next_opnode-IsNext :
    (ct : Option Op) (chain : Option Tree) (o : Option Op) (node : Tree)
    → IsCall ct chain
    → IsComplete node
    → IsNext (next_opnode ct chain o node)
unfolding next_opnode opnode_of
next_opnode-IsNext ct chain none node h k = tt
next_opnode-IsNext ct none (some o) node h k =
    marked-IsNext ct none o false (node_set_arg (op0 o) node) (fresh-IsArg o node k)
next_opnode-IsNext none (some chain) (some o) node h k = absurd h
next_opnode-IsNext (some ct) (some chain) (some o) node h k =
    elim (Bool-cases (same_op o else_ && is_conditional_type (type_of chain))) [
      | inl e ↦ rw e (
          marked-IsNext (some ct) (some chain) o true (node_set_arg chain node)
            (chain-IsArg ct o chain node h k (ground arith)))
      | inr e ↦ rw e (
          marked-IsNext (some ct) (some chain) o false (node_set_arg (op0 o) node)
            (fresh-IsArg o node k))
    ]

-- A result for a text of `n` bytes: NULL, or a tree with all its arguments and a shorter rest.
abbrev pub IsGood : ℕ → Parsed → Type 0
IsGood n failed = Unit
IsGood n asserted = ⊥
IsGood n unfinished = ⊥
IsGood n (parsed t same p) = (length p < n) × IsComplete t

pub IsGood-le : (m n : ℕ) (r : Parsed) → m ≤ n → IsGood m r → IsGood n r
IsGood-le m n failed h k = tt
IsGood-le m n asserted h k = absurd k
IsGood-le m n unfinished h k = absurd k
IsGood-le m n (parsed t same p) h k = (omega (arith, k.0), k.1)

pub finish_op-IsGood :
    (n : ℕ) (o : Op) (opnode : Tree) (used : Bool) (r : Parsed)
    → IsChain o opnode
    → IsGood n r
    → IsGood n (finish_op opnode used r)
unfolding finish_op node_set_arg
finish_op-IsGood n o opnode used failed h k = tt
finish_op-IsGood n o opnode used asserted h k = absurd k
finish_op-IsGood n o opnode used unfinished h k = absurd k
finish_op-IsGood n o opnode used (parsed node true p) h k = k
finish_op-IsGood n o (ident cap) used (parsed node false p) h k = absurd h
finish_op-IsGood n o (op0 op) used (parsed node false p) h k = absurd h
finish_op-IsGood n o (op1 op a) used (parsed node false p) h k =
    elim (Bool-cases (ltb 1 (ary op))) [ inl e ↦ rw e (k.0, (h.0, h.1, k.1)) | inr e ↦ rw e tt ]
finish_op-IsGood n o (op2 op a b) used (parsed node false p) h k =
    elim (Bool-cases (ltb 2 (ary op))) [
      | inl e ↦ rw e (k.0, (h.0, h.1, h.2, k.1))
      | inr e ↦ rw e tt
    ]
finish_op-IsGood n o (op3 op a b c) used (parsed node false p) h k = tt
