-- ===== src/Booldep/Parse/Chains.antt =====
-- How `parse_dep` of booldep_parse.c reads an operator behind an operand.
use poldek.Base.{ℕ, suc, ◌≡◌, refl, ap, ◌∙◌, true, false, Option, none, some, ◌∷◌, ◌++◌, arith}
use mathlib.Core.List.{append_assoc}
use poldek.Base.Bytes.{Bytes, strcmp}
use poldek.Booldep.Parse.Tree.{
  Op, and, or_, if_, unless, else_, with_, without, same_op, is_conditional, op_name, Tree, op1,
  op2, op3, node_set_arg, operator_of,
}
use poldek.Booldep.Parse.Ident.{skipwhite, parse_relflags, op_word}
use poldek.Booldep.Parse.Dep.{
  parsed, opnode_of, allowed_opnode, next_opnode, finish_op, called, parse_rest, parse_dep,
}
use poldek.Booldep.Parse.Printed.{Dep, binary, chosen, print_dep, tree_of, IsDep}
use poldek.Booldep.Parse.Words.{IsStop}
use poldek.Booldep.Parse.Operands.{Parser, OperandAt, parse_dep-open, parse_dep-chain}

-- The operator is found behind the blank.
parse_rest-op :
    (rec : Parser) (ct : Option Op) (chain : Option Tree) (node : Tree) (o : Op) (s : Bytes)
    → parse_rest rec ct chain node (skipwhite (b' ' ∷ (op_name o ++ b' ' ∷ s)))
      ≡ called rec (b' ' ∷ s) (next_opnode ct chain (some o) node)
unfolding parse_rest op_word operator_of strcmp skipwhite
parse_rest-op rec ct chain node and s = refl
parse_rest-op rec ct chain node or_ s = refl
parse_rest-op rec ct chain node if_ s = refl
parse_rest-op rec ct chain node unless s = refl
parse_rest-op rec ct chain node else_ s = refl
parse_rest-op rec ct chain node with_ s = refl
parse_rest-op rec ct chain node without s = refl

IsStop-op : (o : Op) (s : Bytes) → IsStop (b' ' ∷ (op_name o ++ s))
unfolding skipwhite parse_relflags
IsStop-op and s = (refl, refl)
IsStop-op or_ s = (refl, refl)
IsStop-op if_ s = (refl, refl)
IsStop-op unless s = (refl, refl)
IsStop-op else_ s = (refl, refl)
IsStop-op with_ s = (refl, refl)
IsStop-op without s = (refl, refl)

IsStop-close : (s : Bytes) → IsStop (b')' ∷ s)
unfolding skipwhite parse_relflags
IsStop-close s = (refl, refl)

next_opnode-first :
    (o : Op) (a : Tree)
    → same_op o else_ ≡ false
    → next_opnode none none (some o) a ≡ some (o, op1 o a, false)
unfolding next_opnode opnode_of node_set_arg allowed_opnode
next_opnode-first and a h = refl
next_opnode-first or_ a h = refl
next_opnode-first if_ a h = refl
next_opnode-first unless a h = refl
next_opnode-first else_ a h = cc
next_opnode-first with_ a h = refl
next_opnode-first without a h = refl

next_opnode-else :
    (o : Op) (a b : Tree)
    → is_conditional o ≡ true
    → next_opnode (some o) (some (op1 o a)) (some else_) b ≡ some (else_, op2 o a b, true)
unfolding next_opnode opnode_of node_set_arg allowed_opnode
next_opnode-else and a b h = cc
next_opnode-else or_ a b h = cc
next_opnode-else if_ a b h = refl
next_opnode-else unless a b h = refl
next_opnode-else else_ a b h = cc
next_opnode-else with_ a b h = cc
next_opnode-else without a b h = cc

finish_op-second :
    (o : Op) (a b : Tree) (s : Bytes)
    → same_op o else_ ≡ false
    → finish_op (op1 o a) false (parsed b false s) ≡ parsed (op2 o a b) false s
unfolding finish_op node_set_arg
finish_op-second and a b s h = refl
finish_op-second or_ a b s h = refl
finish_op-second if_ a b s h = refl
finish_op-second unless a b s h = refl
finish_op-second else_ a b s h = cc
finish_op-second with_ a b s h = refl
finish_op-second without a b s h = refl

finish_op-third :
    (o : Op) (a b c : Tree) (s : Bytes)
    → is_conditional o ≡ true
    → finish_op (op2 o a b) true (parsed c false s) ≡ parsed (op3 o a b c) true s
unfolding finish_op node_set_arg
finish_op-third and a b c s h = cc
finish_op-third or_ a b c s h = cc
finish_op-third if_ a b c s h = refl
finish_op-third unless a b c s h = refl
finish_op-third else_ a b c s h = cc
finish_op-third with_ a b c s h = cc
finish_op-third without a b c s h = cc

parse_rest-close :
    (rec : Parser) (ct : Option Op) (chain : Option Tree) (node : Tree) (s : Bytes)
    → parse_rest rec ct chain node (skipwhite (b')' ∷ s)) ≡ parsed node false s
unfolding parse_rest skipwhite
parse_rest-close rec ct chain node s = refl

-- The last operand, up to the closing bracket.
parse_dep-last :
    (fuel : ℕ) (o : Op) (chain : Tree) (d : Dep) (rest : Bytes)
    → IsDep d
    → OperandAt d (parse_dep fuel)
    → parse_dep (suc fuel) (some o) (some chain) (b' ' ∷ (print_dep d ++ b')' ∷ rest))
      ≡ parsed (tree_of d) false rest
parse_dep-last fuel o chain d rest h operand =
    parse_dep-chain fuel o chain d (b')' ∷ rest) h (IsStop-close rest) operand
    ∙ parse_rest-close (parse_dep fuel) (some o) (some chain) (tree_of d) rest

-- A bracketed dependency up to its first operator.
parse_dep-first :
    (fuel : ℕ) (o : Op) (a : Dep) (s : Bytes)
    → IsDep a
    → same_op o else_ ≡ false
    → OperandAt a (parse_dep fuel)
    → parse_dep (suc fuel) none none (b'(' ∷ (print_dep a ++ b' ' ∷ (op_name o ++ b' ' ∷ s)))
      ≡ finish_op
          (op1 o (tree_of a))
          false
          (parse_dep fuel (some o) (some (op1 o (tree_of a))) (b' ' ∷ s))
unfolding called
parse_dep-first fuel o a s h other operand =
    let rec = parse_dep fuel in
    parse_dep-open fuel a (b' ' ∷ (op_name o ++ b' ' ∷ s)) h (IsStop-op o (b' ' ∷ s)) operand
    ∙ (parse_rest-op rec none none (tree_of a) o s
        ∙ ap (called rec (b' ' ∷ s)) (next_opnode-first o (tree_of a) other))

pub binary-parsed :
    (fuel : ℕ) (o : Op) (a b : Dep) (rest : Bytes)
    → IsDep (binary o a b)
    → OperandAt a (parse_dep (suc fuel))
    → OperandAt b (parse_dep fuel)
    → parse_dep (suc (suc fuel)) none none (print_dep (binary o a b) ++ rest)
      ≡ parsed (tree_of (binary o a b)) false rest
unfolding print_dep tree_of
binary-parsed fuel o a b rest h first second =
    let (other, ha, hb) = h in
    let opnode = op1 o (tree_of a) in
    let text : print_dep (binary o a b) ++ rest
        ≡ b'(' ∷ (print_dep a ++ b' ' ∷ (op_name o ++ b' ' ∷ (print_dep b ++ b')' ∷ rest))) =
      simp append_assoc refl in
    ap (parse_dep (suc (suc fuel)) none none) text
    ∙ (parse_dep-first (suc fuel) o a (print_dep b ++ b')' ∷ rest) ha other first
        ∙ (ap (finish_op opnode false) (parse_dep-last fuel o opnode b rest hb second)
            ∙ finish_op-second o (tree_of a) (tree_of b) rest other))

-- The operand before an `else`, the `else`, and the operand behind it.
parse_dep-else :
    (fuel : ℕ) (o : Op) (a : Tree) (b c : Dep) (rest : Bytes)
    → IsDep b
    → IsDep c
    → is_conditional o ≡ true
    → OperandAt b (parse_dep (suc fuel))
    → OperandAt c (parse_dep fuel)
    → parse_dep
        (suc (suc fuel))
        (some o)
        (some (op1 o a))
        (b' ' ∷ (print_dep b ++ b' ' ∷ (op_name else_ ++ b' ' ∷ (print_dep c ++ b')' ∷ rest))))
      ≡ parsed (op3 o a (tree_of b) (tree_of c)) true rest
unfolding called
parse_dep-else fuel o a b c rest hb hc conditional second third =
    let rec = parse_dep (suc fuel) in
    let opnode = op2 o a (tree_of b) in
    let behind = print_dep c ++ b')' ∷ rest in
    parse_dep-chain (suc fuel) o (op1 o a) b (b' ' ∷ (op_name else_ ++ b' ' ∷ behind)) hb
      (IsStop-op else_ (b' ' ∷ behind)) second
    ∙ (parse_rest-op rec (some o) (some (op1 o a)) (tree_of b) else_ behind
        ∙ (ap (called rec (b' ' ∷ behind)) (next_opnode-else o a (tree_of b) conditional)
            ∙ (ap (finish_op opnode true) (parse_dep-last fuel else_ opnode c rest hc third)
                ∙ finish_op-third o a (tree_of b) (tree_of c) rest conditional)))

pub chosen-parsed :
    (fuel : ℕ) (o : Op) (a b c : Dep) (rest : Bytes)
    → IsDep (chosen o a b c)
    → OperandAt a (parse_dep (suc (suc fuel)))
    → OperandAt b (parse_dep (suc fuel))
    → OperandAt c (parse_dep fuel)
    → parse_dep (suc (suc (suc fuel))) none none (print_dep (chosen o a b c) ++ rest)
      ≡ parsed (tree_of (chosen o a b c)) false rest
unfolding print_dep tree_of finish_op
chosen-parsed fuel o a b c rest h first second third =
    let (conditional, ha, hb, hc) = h in
    let opnode = op1 o (tree_of a) in
    let behind = print_dep b ++ b' ' ∷ (op_name else_ ++ b' ' ∷ (print_dep c ++ b')' ∷ rest)) in
    let text : print_dep (chosen o a b c) ++ rest
        ≡ b'(' ∷ (print_dep a ++ b' ' ∷ (op_name o ++ b' ' ∷ behind)) =
      simp append_assoc refl in
    let other : same_op o else_ ≡ false = ground arith in
    ap (parse_dep (suc (suc (suc fuel))) none none) text
    ∙ (parse_dep-first (suc (suc fuel)) o a behind ha other first
        ∙ ap (finish_op opnode false)
            (parse_dep-else fuel o (tree_of a) b c rest hb hc conditional second third))
