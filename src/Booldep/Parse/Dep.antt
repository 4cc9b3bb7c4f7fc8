-- ===== src/Booldep/Parse/Dep.antt =====
-- `parse_dep` and `booldep_parse` of booldep_parse.c. `parse_dep` may set an argument of its caller's
-- `chain_opnode` and return that very node: the Boolean of `parsed` says so, in place of comparing
-- pointers.
use poldek.Base.{
  ℕ, zero, suc, Bool, true, false, ◌&&◌, ◌||◌, Option, none, some, [], ◌∷◌, ◌==◌, if◌then◌else◌,
}
use poldek.Base.Bytes.{Bytes}
use poldek.Booldep.Parse.Tree.{
  else_, Op, same_op, is_conditional, is_conditional_type, operator_of, Tree, op0, type_of,
  node_set_arg,
}
use poldek.Booldep.Parse.Ident.{skipwhite, op_word, parse_ident}

-- What a call of `parse_dep` ends in: NULL, the assertion on the opening bracket, no end within the
-- fuel, or the node, whether it is the `chain_opnode` it was called with, and the text behind.
pub data Parsed : Type 0 where
  failed asserted unfinished : Parsed
  parsed : Tree → Bool → Bytes → Parsed

abbrev pub marked : Bool → Option Tree → Option (Tree × Bool)
marked used none = none
marked used (some t) = some (t, used)

-- The operator's node with `node` as its next argument, and whether it is `chain_opnode`.
unfoldable pub opnode_of : Op → Option Tree → Tree → Option (Tree × Bool)
unfolding node_set_arg
opnode_of op none node = marked false (node_set_arg (op0 op) node)
opnode_of op (some chain) node =
    if same_op op else_ && is_conditional_type (type_of chain)
    then marked true (node_set_arg chain node)
    else marked false (node_set_arg (op0 op) node)

-- `ctype != 0 && opnode->type != ctype` is an error.
abbrev pub ctype_allows : Option Tree → Tree → Bool
ctype_allows none opnode = true
ctype_allows (some chain) opnode = elim (type_of chain) [
  | none ↦ true
  | some ctype ↦ (elim (type_of opnode) [ none ↦ false | some op ↦ same_op op ctype ])
]

-- `chain_type && optype != chain_type` is an error, behind the reset for an else.
abbrev pub chain_allows : Option Op → Op → Bool
chain_allows none optype = true
chain_allows (some chain_type) optype =
    (is_conditional chain_type && same_op optype else_) || same_op optype chain_type

-- The node of an operator that may stand here.
unfoldable pub allowed_opnode :
    Option Op → Option Tree → Op → Option (Tree × Bool) → Option (Op × Tree × Bool)
allowed_opnode chain_type chain op none = none
allowed_opnode chain_type chain op (some (opnode, used)) =
    if ctype_allows chain opnode && chain_allows chain_type op
    then some (op, opnode, used)
    else none

unfoldable pub next_opnode : Option Op → Option Tree → Option Op → Tree → Option (Op × Tree × Bool)
unfolding opnode_of allowed_opnode
next_opnode chain_type chain none node = none
next_opnode chain_type chain (some op) node =
    allowed_opnode chain_type chain op (opnode_of op chain node)

abbrev pub parsed_arg : Bool → Bytes → Option Tree → Parsed
parsed_arg used p none = failed
parsed_arg used p (some t) = parsed t used p

-- Behind the call of `parse_dep` for the rest of a chain: its node becomes an argument, unless it
-- is `opnode` itself.
unfoldable pub finish_op : Tree → Bool → Parsed → Parsed
unfolding node_set_arg
finish_op opnode used failed = failed
finish_op opnode used asserted = asserted
finish_op opnode used unfinished = unfinished
finish_op opnode used (parsed node true p) = parsed node used p
finish_op opnode used (parsed node false p) = parsed_arg used p (node_set_arg opnode node)

-- The call for the rest of a chain, if its operator may stand there.
unfoldable pub called :
    (Option Op → Option Tree → Bytes → Parsed) → Bytes → Option (Op × Tree × Bool) → Parsed
unfolding finish_op
called parse_dep rest none = failed
called parse_dep rest (some (optype, opnode, used)) =
    finish_op opnode used (parse_dep (some optype) (some opnode) rest)

-- What `parse_dep` does behind its first operand.
unfoldable pub parse_rest :
    (Option Op → Option Tree → Bytes → Parsed) → Option Op → Option Tree → Tree → Bytes → Parsed
parse_rest parse_dep chain_type chain node [] = failed
parse_rest parse_dep chain_type chain node (c ∷ p) =
    if c == b')'
    then parsed node false p
    else (let (word, rest) = op_word (c ∷ p) in
        called parse_dep rest (next_opnode chain_type chain (operator_of word) node))

unfoldable pub after_operand :
    (Option Op → Option Tree → Bytes → Parsed) → Option Op → Option Tree → Parsed → Parsed
unfolding parse_rest skipwhite
after_operand parse_dep chain_type chain failed = failed
after_operand parse_dep chain_type chain asserted = asserted
after_operand parse_dep chain_type chain unfinished = unfinished
after_operand parse_dep chain_type chain (parsed node same p) =
    parse_rest parse_dep chain_type chain node (skipwhite p)

abbrev pub ident_parsed : Option (Tree × Bytes) → Parsed
ident_parsed none = failed
ident_parsed (some (node, p)) = parsed node false p

-- The first operand: a bracketed dependency or an identifier.
unfoldable pub parse_operand : (Option Op → Option Tree → Bytes → Parsed) → Bytes → Parsed
parse_operand parse_dep [] = ident_parsed (parse_ident [])
parse_operand parse_dep (c ∷ p) =
    if c == b')'
    then failed
    else if c == b'('
    then parse_dep none none (c ∷ p)
    else ident_parsed (parse_ident (c ∷ p))

-- `if (!chain_type && *p++ != '(')`; `none`: the assertion there.
unfoldable pub open_bracket : Option Op → Bytes → Option Bytes
open_bracket (some chain_type) p = some p
open_bracket none [] = none
open_bracket none (c ∷ p) = if c == b'(' then some p else none

unfoldable pub parse_opened :
    (Option Op → Option Tree → Bytes → Parsed) → Option Op → Option Tree → Option Bytes → Parsed
parse_opened parse_dep chain_type chain none = asserted
parse_opened parse_dep chain_type chain (some p) =
    after_operand parse_dep chain_type chain (parse_operand parse_dep (skipwhite p))

unfoldable pub parse_dep : ℕ → Option Op → Option Tree → Bytes → Parsed
parse_dep zero chain_type chain dep = unfinished
parse_dep (suc fuel) chain_type chain dep =
    parse_opened (parse_dep fuel) chain_type chain (open_bracket chain_type (skipwhite dep))

-- `booldep_parse`: the tree, and the text that is copied to `dep->expr`, which is what `parse_dep`
-- has left.
pub data Booldep : Type 0 where
  null died unfinished : Booldep
  dep : Tree → Bytes → Booldep

abbrev pub booldep_of : Parsed → Booldep
booldep_of failed = null
booldep_of asserted = died
booldep_of unfinished = unfinished
booldep_of (parsed node same expr) = dep node expr

unfoldable pub booldep_parse : ℕ → Bytes → Booldep
booldep_parse fuel [] = null
booldep_parse fuel (c ∷ expr) =
    if c == b'(' then booldep_of (parse_dep fuel none none (c ∷ expr)) else null
