-- ===== src/Order/Advance.antt =====
-- What a part of a visit owes: how the colours evolve, that the black packages are those that have
-- been put out, once each, that the stack is left as it was, and, where the requirements that are
-- followed have no cycle, that each package comes behind what it requires.
use poldek.Base.{
  ℕ, ◌+◌, ◌≤◌, ◌<◌, ◌≡◌, ◌≢◌, refl, ◌∙◌, inl, inr, true, List, [], ◌∷◌, arith, All, ◌==◌,
  if◌then◌else◌, Bool-cases,
}
use poldek.Order.{
  Color, none_of_pool, white, gray, black, Visit, Rp, Reqpkg, ReqpkgFlag, is_followed, edges,
}
use poldek.Order.Colors.{Evolves, Evolves-refl, Evolves-trans, IsAmong}

abbrev pub is_black : Color → ℕ
is_black black = 1
is_black none_of_pool = 0
is_black white = 0
is_black gray = 0

unfoldable pub count : ℕ → List ℕ → ℕ
count q [] = 0
count q (p ∷ ps) = (if q == p then 1 else 0) + count q ps

-- The black packages have been put out once, the others not at all.
abbrev pub IsCounted : Visit → Type 0
IsCounted s = (q : ℕ) → count q s.ordered ≡ is_black (s.colors q)

pub IsAmong-of_count : (q : ℕ) (ps : List ℕ) → 0 < count q ps → IsAmong q ps
unfolding count
IsAmong-of_count q [] h = absurd (omega arith)
IsAmong-of_count q (p ∷ ps) h = elim (Bool-cases (q == p)) [
  | inl same ↦ inl (ground arith)
  | inr other ↦ inr (IsAmong-of_count q ps (ground arith))
]

-- The coloured packages are those of the pool.
pub record IsPool (pool : List ℕ) (s : Visit) : Type 0 where
  pub inside : (q : ℕ) → s.colors q ≢ none_of_pool → IsAmong q pool
  pub outside : (q : ℕ) → IsAmong q pool → s.colors q ≢ none_of_pool

none_back : (c d : Color) → Evolves c d → d ≢ none_of_pool → c ≢ none_of_pool
none_back white d h k e = ground arith
none_back none_of_pool d h k e = k h
none_back gray d h k e = ground arith
none_back black d h k e = ground arith

none_forth : (c d : Color) → Evolves c d → c ≢ none_of_pool → d ≢ none_of_pool
none_forth white d h k e = ground arith
none_forth none_of_pool d h k e = k refl
none_forth gray d h k e = ground arith
none_forth black d h k e = ground arith

pub gray_back : (c d : Color) → Evolves c d → d ≡ gray → c ≡ gray
gray_back white d h e = ground arith
gray_back none_of_pool d h e = ground arith
gray_back gray d h e = refl
gray_back black d h e = ground arith

pub white_forth : (c d : Color) → Evolves c d → c ≢ white → d ≢ white
white_forth white d h k e = k refl
white_forth none_of_pool d h k e = ground arith
white_forth gray d h k e = ground arith
white_forth black d h k e = ground arith

pub IsPool-Evolves :
    {pool : List ℕ} (s t : Visit)
    → ((q : ℕ) → Evolves (s.colors q) (t.colors q))
    → IsPool pool s
    → IsPool pool t
IsPool-Evolves s t h p = record {
  inside = λ q k. p.inside q (none_back (s.colors q) (t.colors q) (h q) k);
  outside = λ q k. none_forth (s.colors q) (t.colors q) (h q) (p.outside q k);
}

module _ (required : ℕ → List Reqpkg) (flag : ReqpkgFlag) (pool : List ℕ) where
  -- What is required of the pool, by an edge that is followed, is in the list.
  abbrev pub IsSettled : List ℕ → List Rp → Type 0
  IsSettled ps rps =
      All (λ rp. is_followed flag rp ≡ true → IsAmong rp.pkg pool → IsAmong rp.pkg ps) rps

  -- Each package stands in front of what it requires, in a list with the last put out first.
  abbrev pub IsTopological : List ℕ → Type 0
  IsTopological [] = Unit
  IsTopological (p ∷ ps) = IsSettled ps (edges (required p)) × IsTopological ps

  module _ (rank : ℕ → ℕ) where
    -- A rank that falls along the edges to packages of the pool that are followed.
    abbrev pub Descends : ℕ → List Rp → Type 0
    Descends p rps =
        All (λ rp. is_followed flag rp ≡ true → IsAmong rp.pkg pool → rank rp.pkg < rank p) rps

    abbrev pub IsRanked : Type 0
    IsRanked = (p : ℕ) → IsAmong p pool → Descends p (edges (required p))

    abbrev pub GraysAbove : ℕ → Visit → Type 0
    GraysAbove bound s = (g : ℕ) → s.colors g ≡ gray → bound ≤ rank g

    pub record Advance (bound : ℕ) (s t : Visit) : Type 0 where
      pub evolves : (q : ℕ) → Evolves (s.colors q) (t.colors q)
      pub counted : IsCounted s → IsCounted t
      pub stack : t.stack ≡ s.stack
      pub sorted :
          IsRanked
          → GraysAbove bound s
          → IsCounted s
          → IsTopological s.ordered
          → IsTopological t.ordered × (t.nerrors ≡ s.nerrors)

    pub Advance-refl : (bound : ℕ) (s : Visit) → Advance bound s s
    Advance-refl bound s = record {
      evolves = λ q. Evolves-refl (s.colors q);
      counted = λ c. c;
      stack = refl;
      sorted = λ r g c t. (t, refl);
    }

    pub Advance-trans :
        (bound : ℕ) (s t u : Visit) → Advance bound s t → Advance bound t u → Advance bound s u
    Advance-trans bound s t u h k = record {
      evolves =
          λ q. Evolves-trans (s.colors q) (t.colors q) (u.colors q) (h.evolves q) (k.evolves q);
      counted = λ c. k.counted (h.counted c);
      stack = k.stack ∙ h.stack;
      sorted = λ r g c o.
          let (o', e) = h.sorted r g c o in
          let g' : GraysAbove bound t =
            λ x is_gray. g x (gray_back (s.colors x) (t.colors x) (h.evolves x) is_gray) in
          let (o'', e') = k.sorted r g' (h.counted c) o' in (o'', e' ∙ e);
    }
