-- ===== src/Booldep/Parse/Ident.antt =====
-- The scanners of booldep_parse.c and the requirement that they read.
use poldek.Base.{
  ℕ, ◌+◌, ◌-◌, Bool, true, false, ◌&&◌, ◌||◌, Option, none, some, [], ◌∷◌, ◌==◌, if◌then◌else◌,
}
use poldek.Base.Bytes.{Bytes, isspace}
use poldek.Capreq.{RelFlags, has_relation, no_rel, no_flags}
use poldek.Capreq.Evr.{capreq_new_evr}
use poldek.Booldep.Parse.Tree.{Tree, ident}

unfoldable pub skipwhite : Bytes → Bytes
skipwhite [] = []
skipwhite (c ∷ cs) = if isspace c then skipwhite cs else c ∷ cs

-- Where `skipnonwhite` stops: at the end, a blank, a comma, or a bracket that closes none of the
-- `bl` open ones.
abbrev pub is_word_end : ℕ → ℕ → Bool
is_word_end bl c = c == b' ' || (c == b',' || (c == b')' && bl == 0))

abbrev pub open_brackets : ℕ → ℕ → ℕ
open_brackets bl c = if c == b')' then bl - 1 else if c == b'(' then bl + 1 else bl

-- The word up to there, and the rest.
unfoldable pub skipnonwhite : ℕ → Bytes → Bytes × Bytes
skipnonwhite bl [] = ([], [])
skipnonwhite bl (c ∷ cs) =
    let (word, rest) = skipnonwhite (open_brackets bl c) cs in
    if is_word_end bl c then ([], c ∷ cs) else (c ∷ word, rest)

abbrev pub is_relflag : ℕ → Bool
is_relflag c = c == b'<' || (c == b'=' || c == b'>')

abbrev pub with_relflag : RelFlags → ℕ → RelFlags
with_relflag r c = record r {
  lt = r.lt || c == b'<';
  eq = r.eq || c == b'=';
  gt = r.gt || c == b'>';
}

unfoldable pub parse_relflags : RelFlags → Bytes → RelFlags × Bytes
parse_relflags relflags [] = (relflags, [])
parse_relflags relflags (c ∷ cs) =
    let behind = parse_relflags (with_relflag relflags c) cs in
    if is_relflag c then behind else (relflags, c ∷ cs)

-- The operator: up to white space or the end.
unfoldable pub op_word : Bytes → Bytes × Bytes
op_word [] = ([], [])
op_word (c ∷ cs) =
    let (word, rest) = op_word cs in if isspace c then ([], c ∷ cs) else (c ∷ word, rest)

-- `node_new` of an identifier.
unfoldable pub new_ident : Bytes → Option Bytes → RelFlags → Tree
new_ident name evr relflags =
    ident (capreq_new_evr false name evr relflags (record no_flags { bastard = true }))

-- The version behind the relation; NULL where it is missing.
abbrev pub evr_ident : Bytes → RelFlags → Bytes × Bytes → Option (Tree × Bytes)
evr_ident name relflags ([], rest) = none
evr_ident name relflags (c ∷ cs, rest) = some (new_ident name (some (c ∷ cs)) relflags, rest)

unfoldable pub relation_ident : Bytes → RelFlags × Bytes → Option (Tree × Bytes)
unfolding skipwhite skipnonwhite
relation_ident name (relflags, rest) =
    if has_relation relflags
    then evr_ident name relflags (skipnonwhite 0 (skipwhite rest))
    else some (new_ident name none relflags, rest)

unfoldable pub named_ident : Bytes × Bytes → Option (Tree × Bytes)
unfolding skipwhite parse_relflags relation_ident
named_ident ([], rest) = none
named_ident (c ∷ cs, rest) = relation_ident (c ∷ cs) (parse_relflags no_rel (skipwhite rest))

-- An identifier with its relation and version, if it has them.
unfoldable pub parse_ident : Bytes → Option (Tree × Bytes)
unfolding skipnonwhite named_ident
parse_ident p = named_ident (skipnonwhite 0 p)
