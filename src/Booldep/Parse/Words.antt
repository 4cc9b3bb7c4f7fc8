-- ===== src/Booldep/Parse/Words.antt =====
-- What the scanners of booldep_parse.c find in a printed requirement.
use poldek.Base.{
  ◌≡◌, refl, ap, ◌∙◌, Bool, true, false, none, some, [], ◌∷◌, ◌++◌, arith, All, Bool-cases, inl,
  inr,
}
use poldek.Base.Bytes.{Bytes, isspace}
use poldek.Capreq.{RelFlags, has_relation, no_rel}
use poldek.Booldep.Parse.Ident.{
  skipwhite, is_word_end, skipnonwhite, parse_relflags, new_ident, evr_ident, relation_ident,
  named_ident, parse_ident,
}
use poldek.Booldep.Parse.Printed.{print_relation, IsWordByte, IsWord}

-- What stands behind a word: the end, or a byte that ends it.
abbrev pub IsBehind : Bytes → Type 0
IsBehind [] = Unit
IsBehind (c ∷ s) = is_word_end 0 c ≡ true

skipnonwhite-word :
    (w rest : Bytes) → All IsWordByte w → IsBehind rest → skipnonwhite 0 (w ++ rest) ≡ (w, rest)
unfolding skipnonwhite
skipnonwhite-word [] [] h k = refl
skipnonwhite-word [] (c ∷ rest) h k = rw k refl
skipnonwhite-word (c ∷ w) rest h k =
    let (letter, more) = h in
    ground (arith, skipnonwhite-word w rest more k, letter.0, letter.1, letter.2, letter.3)

pub skipwhite-word : (w rest : Bytes) → IsWord w → skipwhite (w ++ rest) ≡ w ++ rest
unfolding skipwhite
skipwhite-word [] rest h = absurd h
skipwhite-word (c ∷ w) rest h = rw h.0.0 refl

pub skipwhite_idem : (s : Bytes) → skipwhite (skipwhite s) ≡ skipwhite s
unfolding skipwhite
skipwhite_idem [] = refl
skipwhite_idem (c ∷ s) = elim (Bool-cases (isspace c)) [
  | inl e ↦ rw e (skipwhite_idem s)
  | inr e ↦ rw (e, e) refl
]

parse_relflags-print :
    (lt gt eq : Bool) (s : Bytes)
    → parse_relflags no_rel (print_relation lt gt eq ++ b' ' ∷ s)
      ≡ (record { eq = eq; gt = gt; lt = lt; part = false; naalloc = false }, b' ' ∷ s)
unfolding parse_relflags
parse_relflags-print true true true s = refl
parse_relflags-print true true false s = refl
parse_relflags-print true false true s = refl
parse_relflags-print true false false s = refl
parse_relflags-print false true true s = refl
parse_relflags-print false true false s = refl
parse_relflags-print false false true s = refl
parse_relflags-print false false false s = refl

-- A rest behind a name that is no relation.
abbrev pub IsStop : Bytes → Type 0
IsStop rest = IsBehind rest × (parse_relflags no_rel (skipwhite rest) ≡ (no_rel, skipwhite rest))

pub parse_ident-bare :
    (name rest : Bytes)
    → IsWord name
    → IsStop rest
    → parse_ident (name ++ rest) ≡ some (new_ident name none no_rel, skipwhite rest)
unfolding parse_ident
parse_ident-bare [] rest h k = absurd h
parse_ident-bare (c ∷ cs) rest h k =
    ap named_ident (skipnonwhite-word (c ∷ cs) rest h k.0)
    ∙ unfold named_ident relation_ident in ap (relation_ident (c ∷ cs)) k.1

skipwhite-relation :
    (lt gt eq : Bool) (s : Bytes)
    → has_relation (record { eq = eq; gt = gt; lt = lt; part = false; naalloc = false }) ≡ true
    → skipwhite (b' ' ∷ (print_relation lt gt eq ++ s)) ≡ print_relation lt gt eq ++ s
unfolding skipwhite
skipwhite-relation true true true s h = refl
skipwhite-relation true true false s h = refl
skipwhite-relation true false true s h = refl
skipwhite-relation true false false s h = refl
skipwhite-relation false true true s h = refl
skipwhite-relation false true false s h = refl
skipwhite-relation false false true s h = refl
skipwhite-relation false false false s h = cc

pub no_relation :
    (lt gt eq : Bool)
    → has_relation (record { eq = eq; gt = gt; lt = lt; part = false; naalloc = false }) ≡ false
    → record { eq = eq; gt = gt; lt = lt; part = false; naalloc = false } ≡ no_rel
no_relation true gt true h = cc
no_relation true gt false h = ground arith
no_relation false true true h = cc
no_relation false true false h = cc
no_relation false false true h = cc
no_relation false false false h = refl

evr_ident-word :
    (name : Bytes) (r : RelFlags) (evr rest : Bytes)
    → IsWord evr
    → evr_ident name r (evr, rest) ≡ some (new_ident name (some evr) r, rest)
evr_ident-word name r [] rest h = absurd h
evr_ident-word name r (c ∷ evr) rest h = refl

pub skipwhite-blank : (s : Bytes) → skipwhite (b' ' ∷ s) ≡ skipwhite s
unfolding skipwhite
skipwhite-blank s = refl

IsWord-all : (w : Bytes) → IsWord w → All IsWordByte w
IsWord-all [] h = absurd h
IsWord-all (c ∷ w) h = h

relation_ident-print :
    (name : Bytes) (r : RelFlags) (evr rest : Bytes)
    → has_relation r ≡ true
    → IsWord evr
    → IsBehind rest
    → relation_ident name (r, b' ' ∷ (evr ++ rest)) ≡ some (new_ident name (some evr) r, rest)
unfolding relation_ident
relation_ident-print name r evr rest related h k =
    let found =
      ap (skipnonwhite 0) (skipwhite-blank (evr ++ rest) ∙ skipwhite-word evr rest h)
      ∙ skipnonwhite-word evr rest (IsWord-all evr h) k in
    rw related (ap (evr_ident name r) found ∙ evr_ident-word name r evr rest h)

pub parse_ident-versioned :
    (name : Bytes) (lt gt eq : Bool) (evr rest : Bytes)
    → has_relation (record { eq = eq; gt = gt; lt = lt; part = false; naalloc = false }) ≡ true
    → IsWord name
    → IsWord evr
    → IsBehind rest
    → parse_ident (name ++ b' ' ∷ (print_relation lt gt eq ++ b' ' ∷ (evr ++ rest)))
      ≡ some (
        new_ident name
            (some evr)
            (record { eq = eq; gt = gt; lt = lt; part = false; naalloc = false }),
        rest,
      )
unfolding parse_ident
parse_ident-versioned [] lt gt eq evr rest related h k b = absurd h
parse_ident-versioned (c ∷ cs) lt gt eq evr rest related h k b =
    let behind = b' ' ∷ (evr ++ rest) in
    let text = b' ' ∷ (print_relation lt gt eq ++ behind) in
    let flags =
      ap (parse_relflags no_rel) (skipwhite-relation lt gt eq behind related)
      ∙ parse_relflags-print lt gt eq (evr ++ rest) in
    ap named_ident (skipnonwhite-word (c ∷ cs) text h refl)
    ∙ (unfold named_ident in
        ap (relation_ident (c ∷ cs)) flags ∙ relation_ident-print (c ∷ cs) _ evr rest related k b)
