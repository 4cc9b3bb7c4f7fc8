-- ===== src/Booldep/Parse/Operands.antt =====
-- How `parse_dep` of booldep_parse.c reads the operands of a printed dependency.
use poldek.Base.{
  ℕ, suc, ◌≡◌, refl, sym, ap, ◌∙◌, true, false, Option, none, some, [], ◌∷◌, ◌++◌, arith,
  Bool-cases, inl, inr,
}
use mathlib.Core.List.{append_assoc, append-nil}
use poldek.Base.Bytes.{Bytes}
use poldek.Capreq.{has_relation, no_rel}
use poldek.Booldep.Parse.Tree.{Op, Tree}
use poldek.Booldep.Parse.Ident.{skipwhite, new_ident, parse_ident}
use poldek.Booldep.Parse.Dep.{
  Parsed, parse_rest, after_operand, ident_parsed, parse_operand, open_bracket, parse_opened,
  parse_dep,
}
use poldek.Booldep.Parse.Printed.{
  Atom, Dep, atom, binary, chosen, relation, print_atom, print_version, print_relation, print_dep,
  tree_of, IsWord, IsDep,
}
use poldek.Booldep.Parse.Words.{
  IsStop, skipwhite-word, skipwhite_idem, parse_ident-bare, parse_ident-versioned, no_relation,
  skipwhite-blank,
}

-- A parser of the levels below, and a call of it.
abbrev pub Parser : Type 0
Parser = Option Op → Option Tree → Bytes → Parsed

parse_operand-word :
    (rec : Parser) (w rest : Bytes)
    → IsWord w
    → parse_operand rec (w ++ rest) ≡ ident_parsed (parse_ident (w ++ rest))
unfolding parse_operand
parse_operand-word rec [] rest h = absurd h
parse_operand-word rec (c ∷ w) rest h =
    let letter = h.0 in ground (arith, letter.0, letter.1, letter.2, letter.3)

-- The operand of a printed dependency is found and the parser goes on behind it.
abbrev pub OperandAt : Dep → Parser → Type 0
OperandAt d rec =
    (outer : Parser) (ct : Option Op) (chain : Option Tree) (rest : Bytes)
    → IsStop rest
    → after_operand outer ct chain (parse_operand rec (print_dep d ++ rest))
      ≡ parse_rest outer ct chain (tree_of d) (skipwhite rest)

operand-bare :
    (a : Atom) (rec : Parser)
    → IsWord a.name
    → has_relation (relation a) ≡ false
    → OperandAt (atom a) rec
unfolding tree_of print_dep after_operand
operand-bare a rec h bare outer ct chain rest stop =
    let text : print_atom a ++ rest ≡ a.name ++ rest = rw (bare, append-nil a.name) refl in
    let tree : tree_of (atom a) ≡ new_ident a.name none no_rel =
      rw (bare, no_relation a.lt a.gt a.eq bare) refl in
    ap (λ t. after_operand outer ct chain (parse_operand rec t)) text
    ∙ (ap (after_operand outer ct chain) (
          parse_operand-word rec a.name rest h
          ∙ ap ident_parsed (parse_ident-bare a.name rest h stop))
        ∙ (ap (parse_rest outer ct chain (new_ident a.name none no_rel)) (skipwhite_idem rest)
            ∙ ap (λ t. parse_rest outer ct chain t (skipwhite rest)) (sym tree)))

operand-versioned :
    (a : Atom) (rec : Parser)
    → IsWord a.name
    → IsWord a.evr
    → has_relation (relation a) ≡ true
    → OperandAt (atom a) rec
unfolding tree_of print_dep after_operand
operand-versioned a rec h k versioned outer ct chain rest stop =
    let text : print_atom a ++ rest
        ≡ a.name ++ b' ' ∷ (print_relation a.lt a.gt a.eq ++ b' ' ∷ (a.evr ++ rest)) =
      rw versioned (simp append_assoc refl) in
    let tree : tree_of (atom a) ≡ new_ident a.name (some a.evr) (relation a) = rw versioned refl in
    ap (λ t. after_operand outer ct chain (parse_operand rec t)) text
    ∙ (ap (after_operand outer ct chain) (
          parse_operand-word rec a.name
            (b' ' ∷ (print_relation a.lt a.gt a.eq ++ b' ' ∷ (a.evr ++ rest))) h
          ∙ ap ident_parsed
              (parse_ident-versioned a.name a.lt a.gt a.eq a.evr rest versioned h k stop.0))
        ∙ ap (λ t. parse_rest outer ct chain t (skipwhite rest)) (sym tree))

pub operand-atom : (a : Atom) (rec : Parser) → IsDep (atom a) → OperandAt (atom a) rec
operand-atom a rec h outer ct chain rest stop = elim (Bool-cases (has_relation (relation a))) [
  | inl e ↦ operand-versioned a rec h.0 (h.1 e) e outer ct chain rest stop
  | inr e ↦ operand-bare a rec h.0 e outer ct chain rest stop
]

-- Printed dependencies begin with no white space.
skipwhite-print : (d : Dep) (s : Bytes) → IsDep d → skipwhite (print_dep d ++ s) ≡ print_dep d ++ s
unfolding print_dep
skipwhite-print (atom a) s h =
    let text = append_assoc a.name (print_version a) s in
    ap skipwhite text ∙ (skipwhite-word a.name (print_version a ++ s) h.0 ∙ sym text)
skipwhite-print (binary op a b) s h = unfold skipwhite in refl
skipwhite-print (chosen op a b c) s h = unfold skipwhite in refl

-- Behind an opening bracket.
pub parse_dep-open :
    (fuel : ℕ) (d : Dep) (s : Bytes)
    → IsDep d
    → IsStop s
    → OperandAt d (parse_dep fuel)
    → parse_dep (suc fuel) none none (b'(' ∷ (print_dep d ++ s))
      ≡ parse_rest (parse_dep fuel) none none (tree_of d) (skipwhite s)
unfolding parse_dep open_bracket parse_opened
parse_dep-open fuel d s h stop operand =
    unfold skipwhite in
    ap (λ t. after_operand (parse_dep fuel) none none (parse_operand (parse_dep fuel) t))
      (skipwhite-print d s h)
    ∙ operand (parse_dep fuel) none none s stop

-- Behind an operator.
pub parse_dep-chain :
    (fuel : ℕ) (o : Op) (chain : Tree) (d : Dep) (s : Bytes)
    → IsDep d
    → IsStop s
    → OperandAt d (parse_dep fuel)
    → parse_dep (suc fuel) (some o) (some chain) (b' ' ∷ (print_dep d ++ s))
      ≡ parse_rest (parse_dep fuel) (some o) (some chain) (tree_of d) (skipwhite s)
unfolding parse_dep open_bracket parse_opened
parse_dep-chain fuel o chain d s h stop operand =
    let rec = parse_dep fuel in
    let text : skipwhite (skipwhite (b' ' ∷ (print_dep d ++ s))) ≡ print_dep d ++ s =
      ap skipwhite (skipwhite-blank (print_dep d ++ s))
      ∙ (skipwhite_idem (print_dep d ++ s) ∙ skipwhite-print d s h) in
    ap (λ t. after_operand rec (some o) (some chain) (parse_operand rec t)) text
    ∙ operand rec (some o) (some chain) s stop
