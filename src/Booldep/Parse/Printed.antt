-- ===== src/Booldep/Parse/Printed.antt =====
-- The text of a boolean dependency in its fully bracketed form.
use poldek.Base.{ℕ, ◌≡◌, ◌≢◌, Bool, true, false, none, some, [], ◌∷◌, ◌++◌, All, if◌then◌else◌}
use poldek.Base.Bytes.{Bytes, isspace}
use poldek.Capreq.{RelFlags, has_relation}
use poldek.Booldep.Parse.Tree.{Op, else_, same_op, is_conditional, op_name, Tree, op2, op3}
use poldek.Booldep.Parse.Ident.{new_ident}

-- A requirement with a relation, if `relation` is one, and then a version.
pub record Atom : Type 0 where
  pub name : Bytes
  pub lt : Bool
  pub gt : Bool
  pub eq : Bool
  pub evr : Bytes

-- A boolean dependency; `chosen` is an `if` or an `unless` with an `else`.
pub data Dep : Type 0 where
  atom : Atom → Dep
  binary : Op → Dep → Dep → Dep
  chosen : Op → Dep → Dep → Dep → Dep

abbrev pub relation : Atom → RelFlags
relation a = record { eq = a.eq; gt = a.gt; lt = a.lt; part = false; naalloc = false }

abbrev pub print_flag : Bool → ℕ → Bytes
print_flag true c = c ∷ []
print_flag false c = []

abbrev pub print_relation : Bool → Bool → Bool → Bytes
print_relation lt gt eq = print_flag lt b'<' ++ (print_flag gt b'>' ++ print_flag eq b'=')

-- The relation and the version.
abbrev pub print_version : Atom → Bytes
print_version a =
    if has_relation (relation a) then b' ' ∷ (print_relation a.lt a.gt a.eq ++ b' ' ∷ a.evr) else []

abbrev pub print_atom : Atom → Bytes
print_atom a = a.name ++ print_version a

-- A dependency as an operand: in brackets, unless it is a requirement.
unfoldable pub print_dep : Dep → Bytes
print_dep (atom a) = print_atom a
print_dep (binary op a b) =
    b'(' ∷ (print_dep a ++ b' ' ∷ (op_name op ++ b' ' ∷ (print_dep b ++ b')' ∷ [])))
print_dep (chosen op a b c) =
    b'('
    ∷ (print_dep a
        ++ b' '
          ∷ (op_name op
              ++ b' '
                ∷ (print_dep b ++ b' ' ∷ (op_name else_ ++ b' ' ∷ (print_dep c ++ b')' ∷ [])))))

unfoldable pub tree_of : Dep → Tree
unfolding new_ident
tree_of (atom a) =
    new_ident a.name (if has_relation (relation a) then some a.evr else none) (relation a)
tree_of (binary op a b) = op2 op (tree_of a) (tree_of b)
tree_of (chosen op a b c) = op3 op (tree_of a) (tree_of b) (tree_of c)

-- A byte of a word: no white space, comma or bracket.
abbrev pub IsWordByte : ℕ → Type 0
IsWordByte c = (isspace c ≡ false) × (c ≢ b',') × (c ≢ b'(') × (c ≢ b')')

abbrev pub IsWord : Bytes → Type 0
IsWord [] = ⊥
IsWord (c ∷ w) = IsWordByte c × All IsWordByte w

-- Words where the text has words, binary operators at pairs, and `if` or `unless` before an `else`.
abbrev pub IsDep : Dep → Type 0
IsDep (atom a) = IsWord a.name × (has_relation (relation a) ≡ true → IsWord a.evr)
IsDep (binary op a b) = (same_op op else_ ≡ false) × IsDep a × IsDep b
IsDep (chosen op a b c) = (is_conditional op ≡ true) × IsDep a × IsDep b × IsDep c
