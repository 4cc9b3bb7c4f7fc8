-- ===== src/Booldep/Parse/Tree.antt =====
-- The operators and the nodes of booldep_parse.c. `struct node` has a constructor for each number of
-- arguments that are set; `cap` is NULL where `capreq_new_evr` refuses the version, which the parser
-- does not test.
use poldek.Base.{ℕ, Bool, false, ◌||◌, Option, none, some, List, [], ◌∷◌, ltb, ◌==◌, if◌then◌else◌}
use poldek.Base.Bytes.{Bytes, codes, str_eq}
use poldek.Capreq.{Capreq}

pub data Op : Type 0 where
  and or_ if_ unless else_ with_ without : Op

-- OP_AND to OP_WITHOUT
abbrev pub op_value : Op → ℕ
op_value and = 1
op_value or_ = 2
op_value if_ = 4
op_value unless = 8
op_value else_ = 16
op_value with_ = 32
op_value without = 64

abbrev pub same_op : Op → Op → Bool
same_op a b = op_value a == op_value b

abbrev pub is_conditional : Op → Bool
is_conditional op = same_op op if_ || same_op op unless

abbrev pub is_conditional_type : Option Op → Bool
is_conditional_type none = false
is_conditional_type (some op) = is_conditional op

abbrev pub ary : Op → ℕ
ary and = 2
ary or_ = 2
ary if_ = 3
ary unless = 3
ary else_ = 0
ary with_ = 2
ary without = 2

-- `operators`
abbrev pub op_name : Op → Bytes
op_name and = codes "and"
op_name or_ = codes "or"
op_name if_ = codes "if"
op_name unless = codes "unless"
op_name else_ = codes "else"
op_name with_ = codes "with"
op_name without = codes "without"

abbrev operators : List Op
operators = and ∷ or_ ∷ if_ ∷ unless ∷ else_ ∷ with_ ∷ without ∷ []

-- The first operator of that name.
abbrev pub find_op : List Op → Bytes → Option Op
find_op [] word = none
find_op (op ∷ ops) word =
    let rest = find_op ops word in if str_eq word (op_name op) then some op else rest

unfoldable pub operator_of : Bytes → Option Op
operator_of word = find_op operators word

pub data Tree : Type 0 where
  ident : Option Capreq → Tree
  op0 : Op → Tree
  op1 : Op → Tree → Tree
  op2 : Op → Tree → Tree → Tree
  op3 : Op → Tree → Tree → Tree → Tree

-- `node->type`; `none` is the 0 of an identifier.
abbrev pub type_of : Tree → Option Op
type_of (ident cap) = none
type_of (op0 op) = some op
type_of (op1 op a) = some op
type_of (op2 op a b) = some op
type_of (op3 op a b c) = some op

-- `none`: -1, no place for one more argument.
unfoldable pub node_set_arg : Tree → Tree → Option Tree
node_set_arg (ident cap) arg = none
node_set_arg (op0 op) arg = if ltb 0 (ary op) then some (op1 op arg) else none
node_set_arg (op1 op a) arg = if ltb 1 (ary op) then some (op2 op a arg) else none
node_set_arg (op2 op a b) arg = if ltb 2 (ary op) then some (op3 op a b arg) else none
node_set_arg (op3 op a b c) arg = none
