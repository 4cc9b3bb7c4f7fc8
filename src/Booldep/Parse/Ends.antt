-- ===== src/Booldep/Parse/Ends.antt =====
-- `parse_dep` of booldep_parse.c ends, its assertion holds, and a parsed tree has all its arguments.
use poldek.Base.{
  ℕ, zero, suc, ◌+◌, ◌*◌, ◌<◌, ◌≤◌, ◌≡◌, refl, ap, Bool, true, Option, none, some, [], ◌∷◌, arith,
  length, ◌==◌, Bool-cases, inl, inr,
}
use poldek.Base.Bytes.{Bytes, isspace}
use poldek.Booldep.Parse.Tree.{Op, Tree, ident, op0, op1, op2, op3, operator_of}
use poldek.Booldep.Parse.Ident.{skipwhite, op_word, parse_ident}
use poldek.Booldep.Parse.Dep.{
  Parsed, failed, asserted, unfinished, parsed, next_opnode, parse_rest, after_operand,
  ident_parsed, parse_operand, open_bracket, parse_dep, parse_opened, Booldep, null, died, dep,
  booldep_of, booldep_parse, called,
}
use poldek.Booldep.Parse.Lengths.{
  length-skipwhite, length-op_word, op_word-less, op_word-space, no_op, IsIdent,
  parse_ident-IsIdent,
}
use poldek.Booldep.Parse.Complete.{
  IsComplete, IsCall, IsNext, next_opnode-IsNext, IsGood, IsGood-le, finish_op-IsGood,
}

-- The length of the text and whether an opening bracket is expected: what the recursion descends.
abbrev measure : Option Op → Bytes → ℕ
measure none p = 2 * length p
measure (some o) p = 2 * length p + 1

measure_le : (ct : Option Op) (p : Bytes) → measure ct p ≤ 2 * length p + 1
measure_le none p = omega arith
measure_le (some o) p = omega arith

-- Behind white space an opening bracket stands where one is expected.
abbrev pub IsOpened : Option Op → Bytes → Type 0
IsOpened none p = (q : Bytes) × (skipwhite p ≡ b'(' ∷ q)
IsOpened (some o) p = Unit

-- The calls that `parse_dep` makes are good, up to the measure `m`.
abbrev IsGoodCall : ℕ → (Option Op → Option Tree → Bytes → Parsed) → Type 0
IsGoodCall m rec =
    (ct : Option Op) (chain : Option Tree) (p : Bytes)
    → IsCall ct chain
    → IsOpened ct p
    → measure ct p < m
    → IsGood (length p) (rec ct chain p)

ident_parsed-IsGood : (n : ℕ) (o : Option (Tree × Bytes)) → IsIdent n o → IsGood n (ident_parsed o)
ident_parsed-IsGood n none h = tt
ident_parsed-IsGood n (some (ident cap, p)) h = (h, tt)
ident_parsed-IsGood n (some (op0 op, p)) h = absurd h
ident_parsed-IsGood n (some (op1 op a, p)) h = absurd h
ident_parsed-IsGood n (some (op2 op a b, p)) h = absurd h
ident_parsed-IsGood n (some (op3 op a b c, p)) h = absurd h

skipwhite-open : (c : ℕ) (p : Bytes) → (c == b'(') ≡ true → skipwhite (c ∷ p) ≡ b'(' ∷ p
unfolding skipwhite
skipwhite-open c p h = ground arith

module _ (m : ℕ) (rec : Option Op → Option Tree → Bytes → Parsed) (good : IsGoodCall m rec) where
  parse_operand-IsGood : (p : Bytes) → 2 * length p < m → IsGood (length p) (parse_operand rec p)
  unfolding parse_operand
  parse_operand-IsGood [] h = ident_parsed-IsGood 0 (parse_ident []) (parse_ident-IsIdent [])
  parse_operand-IsGood (c ∷ p) h = elim (Bool-cases (c == b')')) [
    | inl close ↦ rw close tt
    | inr other ↦ rw other (elim (Bool-cases (c == b'(')) [
      | inl open_ ↦ rw open_ (good none none (c ∷ p) tt (p, skipwhite-open c p open_) h)
      | inr name ↦
          rw name (
            ident_parsed-IsGood (suc (length p)) (parse_ident (c ∷ p))
              (parse_ident-IsIdent (c ∷ p)))
    ])
  ]

  -- The call behind an operator.
  called-IsGood :
      (n : ℕ) (next : Option (Op × Tree × Bool)) (p : Bytes)
      → length p < n
      → 2 * n ≤ m
      → IsNext next
      → IsGood n (called rec p next)
  unfolding called
  called-IsGood n none p short fuel h = tt
  called-IsGood n (some (o, t, used)) p short fuel h =
      finish_op-IsGood n o t used (rec (some o) (some t) p) h (
        IsGood-le (length p) n (rec (some o) (some t) p) (omega arith)
          (good (some o) (some t) p h tt (omega arith)))

  parse_rest-IsGood :
      (n : ℕ) (ct : Option Op) (chain : Option Tree) (node : Tree) (p : Bytes)
      → length p ≤ n
      → 2 * n ≤ m
      → IsCall ct chain
      → IsComplete node
      → IsGood n (parse_rest rec ct chain node p)
  unfolding parse_rest
  parse_rest-IsGood n ct chain node [] short fuel h k = tt
  parse_rest-IsGood n ct chain node (c ∷ p) short fuel h k = elim (Bool-cases (c == b')')) [
    | inl close ↦ rw close (omega arith, k)
    | inr other ↦ rw other (
        let behind = (op_word (c ∷ p)).1 in
        elim (Bool-cases (isspace c)) [
          | inl space ↦ rw (op_word-space c p space, no_op ct chain node) (unfold called in tt)
          | inr word ↦
              called-IsGood n (next_opnode ct chain (operator_of (op_word (c ∷ p)).0) node) behind
                (omega (arith, op_word-less c p word, length-op_word p)) fuel
                (next_opnode-IsNext ct chain (operator_of (op_word (c ∷ p)).0) node h k)
        ])
  ]

  after_operand-IsGood :
      (n : ℕ) (ct : Option Op) (chain : Option Tree) (r : Parsed)
      → 2 * n ≤ m
      → IsCall ct chain
      → IsGood n r
      → IsGood n (after_operand rec ct chain r)
  unfolding after_operand
  after_operand-IsGood n ct chain failed fuel h k = tt
  after_operand-IsGood n ct chain asserted fuel h k = absurd k
  after_operand-IsGood n ct chain unfinished fuel h k = absurd k
  after_operand-IsGood n ct chain (parsed node same p) fuel h k =
      parse_rest-IsGood n ct chain node (skipwhite p) (omega (arith, k.0, length-skipwhite p)) fuel
        h k.1

-- The text behind the opening bracket, if one is expected.
open_bracket-shorter :
    (ct : Option Op) (p : Bytes)
    → IsOpened ct p
    → (q : Bytes) × (open_bracket ct (skipwhite p) ≡ some q) × (2 * length q < measure ct p)
unfolding open_bracket
open_bracket-shorter none p (q, opened) =
    let less = length-skipwhite p in (q, rw opened refl, omega (arith, less, ap length opened))
open_bracket-shorter (some o) p h = (skipwhite p, refl, omega (arith, length-skipwhite p))

-- Fuel above the measure of the call is enough for `parse_dep`, whose assertion holds if an opening
-- bracket stands where one is expected.
parse_dep-IsGood : (fuel : ℕ) → IsGoodCall fuel (parse_dep fuel)
unfolding parse_dep parse_opened
parse_dep-IsGood zero ct chain p h opened fuel = absurd (omega arith)
parse_dep-IsGood (suc fuel) ct chain p h opened enough =
    let (q, at, less) = open_bracket-shorter ct p opened in
    let good = parse_dep-IsGood fuel in
    let behind = length-skipwhite q in
    let rec = parse_dep fuel in
    let operand = parse_operand-IsGood fuel rec good (skipwhite q) (omega (arith, less, behind)) in
    let result =
      after_operand-IsGood fuel rec good (length (skipwhite q)) ct chain
        (parse_operand rec (skipwhite q)) (omega (arith, less, behind)) h operand in
    let shorter = measure_le ct p in
    rw (at) (
      IsGood-le (length (skipwhite q)) (length p)
        (after_operand rec ct chain (parse_operand rec (skipwhite q)))
        (omega (arith, less, behind, shorter)) result)

abbrev pub IsParsed : Booldep → Type 0
IsParsed null = Unit
IsParsed died = ⊥
IsParsed unfinished = ⊥
IsParsed (dep t expr) = IsComplete t

booldep_of-IsParsed : (n : ℕ) (r : Parsed) → IsGood n r → IsParsed (booldep_of r)
booldep_of-IsParsed n failed h = tt
booldep_of-IsParsed n asserted h = absurd h
booldep_of-IsParsed n unfinished h = absurd h
booldep_of-IsParsed n (parsed t same p) h = h.1

-- With fuel above twice the length of the text `booldep_parse` ends and no assertion fails: the
-- result is NULL, or a tree in which every operator has two arguments or, at `if` and `unless`
-- alone, three, and no operator is an `else`.
pub booldep_parse-IsParsed :
    (fuel : ℕ) (expr : Bytes) → 2 * length expr < fuel → IsParsed (booldep_parse fuel expr)
unfolding booldep_parse
booldep_parse-IsParsed fuel [] h = tt
booldep_parse-IsParsed fuel (c ∷ expr) h = elim (Bool-cases (c == b'(')) [
  | inr other ↦ rw other tt
  | inl open_ ↦ rw open_ (
      booldep_of-IsParsed (length (c ∷ expr)) (parse_dep fuel none none (c ∷ expr))
        (parse_dep-IsGood fuel none none (c ∷ expr) tt (expr, skipwhite-open c expr open_) h))
]
