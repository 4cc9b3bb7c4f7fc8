-- ===== src/Order/Total.antt =====
-- The visit of a white package ends within as much fuel as there are white packages, and does what
-- a visit owes.
use poldek.Base.{
  ℕ, zero, suc, ◌+◌, ◌≤◌, ◌<◌, ◌≡◌, ◌≢◌, refl, sym, ap, ◌∙◌, ◌⊎◌, inl, inr, Bool, true, false,
  Option, some, List, [], ◌∷◌, arith, All, length, ◌==◌, if◌then◌else◌, Bool-cases,
}
use poldek.Order.{
  Color, none_of_pool, white, gray, black, put, Visit, Rp, Reqpkg, ReqpkgFlag, is_followed, edges,
  edges_loop, pop_from, finish, visit_gray, visit,
}
use poldek.Order.Colors.{Evolves, whites, whites-put, put_self}
use poldek.Order.Advance.{
  is_black, count, IsCounted, IsAmong-of_count, IsPool, IsPool-Evolves, gray_back, Descends,
  GraysAbove, IsSettled, Advance-refl,
}
use poldek.Order.Edges.{Visits, IsVisit, IsVisited, Loops, edges_loop-Loops}

pop_above : (ps : List ℕ) (i : ℕ) (f : ℕ → Bool) → length ps ≤ i → (pop_from i ps f).0 ≡ ps
unfolding pop_from
pop_above [] i f h = refl
pop_above (p ∷ ps) i f h = ground arith

-- What is popped after the loop is the package that was pushed before it.
pop_one : (p : ℕ) (ps : List ℕ) (f : ℕ → Bool) → (pop_from (length ps) (p ∷ ps) f).0 ≡ ps
unfolding pop_from
pop_one p ps f = ground (arith, pop_above ps (suc (length ps)) (put f p false) (omega arith))

-- The state in which the loop starts, and that after the label `l_end`.
abbrev entered : Visit → ℕ → List ℕ → Visit
entered s p stack = record s { colors = put s.colors p gray; stack = stack }

abbrev closed : Visit → ℕ → (ℕ → Bool) → List ℕ → Visit
closed t p prereqed stack = record t {
  colors = put t.colors p black;
  prereqed = prereqed;
  ordered = p ∷ t.ordered;
  stack = stack;
}

is_black-entered :
    (c : ℕ → Color) (p q : ℕ) → c p ≡ white → is_black (c q) ≡ is_black (put c p gray q)
is_black-entered c p q e = elim (Bool-cases (q == p)) [
  | inl same ↦
      let here : q ≡ p = ground arith in rw same (ap (λ x. is_black (c x)) here ∙ ap is_black e)
  | inr other ↦ rw other refl
]

is_black-closed :
    (c : ℕ → Color) (p q n : ℕ)
    → c p ≡ gray
    → n ≡ is_black (c q)
    → (if q == p then 1 else 0) + n ≡ is_black (put c p black q)
is_black-closed c p q n e h = elim (Bool-cases (q == p)) [
  | inl same ↦
      let here : q ≡ p = ground arith in
      let none_yet : n ≡ 0 = h ∙ ap (λ x. is_black (c x)) here ∙ ap is_black e in
      rw (same, none_yet) refl
  | inr other ↦ let plain : 0 + n ≡ n = omega arith in rw other (plain ∙ h)
]

gray-entered : (c : ℕ → Color) (p q : ℕ) → put c p gray q ≡ gray → (q ≡ p) ⊎ (c q ≡ gray)
gray-entered c p q h = ground arith

Evolves-visited :
    (c d : ℕ → Color) (p q : ℕ)
    → c p ≡ white
    → Evolves (put c p gray q) (d q)
    → Evolves (c q) (put d p black q)
Evolves-visited c d p q e h = elim (Bool-cases (q == p)) [
  | inl same ↦
      let here : q ≡ p = ground arith in
      let was : c q ≡ white = ap c here ∙ e in rw (same, was) (inr refl)
  | inr other ↦ rw other (rw other at h)
]

black_of_others : (c : Color) → c ≢ none_of_pool → c ≢ white → c ≢ gray → 0 < is_black c
black_of_others none_of_pool h k l = absurd (h refl)
black_of_others white h k l = absurd (k refl)
black_of_others gray h k l = absurd (l refl)
black_of_others black h k l = omega arith

entered-IsCounted :
    (s : Visit) (p : ℕ) (stack : List ℕ)
    → s.colors p ≡ white
    → IsCounted s
    → IsCounted (entered s p stack)
entered-IsCounted s p stack e c q = c q ∙ is_black-entered s.colors p q e

entered-GraysAbove :
    (required : ℕ → List Reqpkg) (flag : ReqpkgFlag) (pool : List ℕ) (rank : ℕ → ℕ) (s : Visit)
    (p : ℕ) (stack : List ℕ)
    → GraysAbove required flag pool rank (suc (rank p)) s
    → GraysAbove required flag pool rank (rank p) (entered s p stack)
entered-GraysAbove required flag pool rank s p stack g q is_gray =
    elim (gray-entered s.colors p q is_gray) [
      | inl same ↦ rw same (omega arith)
      | inr before ↦ omega (arith, g q before)
    ]

none_back :
    (c : ℕ → Color) (p q : ℕ) → c p ≡ white → put c p gray q ≢ none_of_pool → c q ≢ none_of_pool
none_back c p q e h k = elim (Bool-cases (q == p)) [
  | inl same ↦ let here : q ≡ p = ground arith in let was : c q ≡ white = ap c here ∙ e in cc
  | inr other ↦ h (rw other k)
]

none_forth : (c : ℕ → Color) (p q : ℕ) → put c p gray q ≡ none_of_pool → c q ≡ none_of_pool
none_forth c p q h = ground arith

gray_forth : (c d : Color) → Evolves c d → c ≡ gray → d ≡ gray
gray_forth white d h e = ground arith
gray_forth none_of_pool d h e = ground arith
gray_forth gray d h e = h
gray_forth black d h e = ground arith

visit_gray-ends :
    (rec : Visit → ℕ → Option Visit) (flag : ReqpkgFlag) (p : ℕ) (r : Reqpkg) (rs : List Reqpkg)
    (s t : Visit)
    → edges_loop rec flag (edges (r ∷ rs)) (entered s p (p ∷ s.stack)) ≡ some t
    → t.stack ≡ p ∷ s.stack
    → visit_gray rec flag p (r ∷ rs) (record s { colors = put s.colors p gray })
      ≡ some (closed t p (pop_from (length s.stack) t.stack (put t.prereqed p false)).1 s.stack)
unfolding visit_gray finish
visit_gray-ends rec flag p r rs s t ends e =
    let popped : (pop_from (length s.stack) t.stack (put t.prereqed p false)).0 ≡ s.stack =
      rw e (pop_one p s.stack (put t.prereqed p false)) in
    let prereqed = (pop_from (length s.stack) t.stack (put t.prereqed p false)).1 in
    rw (visit_gray, ends) (ap (λ x. some (closed t p prereqed x)) popped)

module _ (required : ℕ → List Reqpkg) (flag : ReqpkgFlag) (pool : List ℕ) (rank : ℕ → ℕ) where
  -- What is followed into the pool and is neither white nor gray has been put out.
  settled :
      (t : Visit) (p : ℕ) (rps : List Rp)
      → IsPool pool t
      → IsCounted t
      → ((g : ℕ) → t.colors g ≡ gray → rank p ≤ rank g)
      → Descends required flag pool rank p rps
      → All (λ rp. is_followed flag rp ≡ true → t.colors rp.pkg ≢ white) rps
      → IsSettled required flag pool t.ordered rps
  settled t p [] in_pool c g d v = tt
  settled t p (rp ∷ rps) in_pool c g d v = (
    λ followed among. IsAmong-of_count rp.pkg t.ordered (
        let counts = c rp.pkg in
        let out =
          black_of_others (t.colors rp.pkg) (in_pool.outside rp.pkg among) (v.0 followed)
            (λ is_gray. omega (arith, g rp.pkg is_gray, d.0 followed among)) in
        omega arith),
    settled t p rps in_pool c g d.1 v.1,
  )

  entered-IsPool :
      (s : Visit) (p : ℕ) (stack : List ℕ)
      → s.colors p ≡ white
      → IsPool pool s
      → IsPool pool (entered s p stack)
  entered-IsPool s p stack e in_pool = record {
    inside = λ q k. in_pool.inside q (none_back s.colors p q e k);
    outside = λ q k l. in_pool.outside q k (none_forth s.colors p q l);
  }

  -- A package has been visited when the loop has ended and the label is passed.
  closed-Visits :
      (s t : Visit) (p : ℕ) (stack : List ℕ) (prereqed : ℕ → Bool)
      → s.colors p ≡ white
      → IsPool pool s
      → Loops required flag pool rank p (edges (required p)) (entered s p stack) t
      → Visits required flag pool rank p s (closed t p prereqed s.stack)
  unfolding count
  closed-Visits s t p stack prereqed e in_pool loop =
      let forth = loop.advance.evolves in
      let in_pool' =
        IsPool-Evolves (entered s p stack) t forth (entered-IsPool s p stack e in_pool) in
      let here : t.colors p ≡ gray =
        gray_forth (put s.colors p gray p) (t.colors p) (forth p) (put_self s.colors p gray) in
      let counts : IsCounted s → IsCounted t =
        λ c. loop.advance.counted (entered-IsCounted s p stack e c) in
      record {
        advance = record {
          evolves = λ q. Evolves-visited s.colors t.colors p q e (forth q);
          counted = λ c q. is_black-closed t.colors p q (count q t.ordered) here (counts c q);
          stack = refl;
          sorted = λ r g c o.
              let g' = entered-GraysAbove required flag pool rank s p stack g in
              let (o', same) = loop.advance.sorted r g' (entered-IsCounted s p stack e c) o in
              (
                (
                  settled t p (edges (required p)) in_pool' (counts c)
                      (λ x is_gray.
                        g' x (gray_back (put s.colors p gray x) (t.colors x) (forth x) is_gray))
                      (r p (in_pool.inside p (λ x. cc))) loop.visited,
                  o',
                ),
                same,
              );
        };
        done = put_self t.colors p black;
      }

  nothing-IsVisited :
      (s : Visit) (p : ℕ)
      → required p ≡ []
      → IsVisited required flag pool rank (edges (required p)) s
  unfolding edges
  nothing-IsVisited s p e = rw e tt

  visit_gray-Visits :
      (fuel : ℕ) (s : Visit) (p : ℕ) (rs : List Reqpkg)
      → required p ≡ rs
      → s.colors p ≡ white
      → whites pool s.colors ≤ suc fuel
      → IsPool pool s
      → IsVisit required flag pool rank (visit required flag fuel) fuel
      → (t : Visit) × (visit_gray
            (visit required flag fuel)
            flag
            p
            rs
            (record s { colors = put s.colors p gray })
          ≡ some t)
        × Visits required flag pool rank p s t
  unfolding visit_gray finish
  visit_gray-Visits fuel s p [] same e fits in_pool law = (
    closed (entered s p s.stack) p (put s.prereqed p false) s.stack,
    refl,
    closed-Visits s (entered s p s.stack) p s.stack (put s.prereqed p false) e in_pool (record {
      advance = Advance-refl required flag pool rank (rank p) (entered s p s.stack);
      visited = nothing-IsVisited (entered s p s.stack) p same;
    }),
  )
  visit_gray-Visits fuel s p (r ∷ rs) same e fits in_pool law =
      let fewer = whites-put pool s.colors p (in_pool.inside p (λ x. cc)) e in
      let (t, ends, loop) =
        edges_loop-Loops required flag pool rank (visit required flag fuel) fuel p law
          (edges (r ∷ rs)) (entered s p (p ∷ s.stack)) (omega arith)
          (entered-IsPool s p (p ∷ s.stack) e in_pool)
          (λ ranked. rw (sym same) (ranked p (in_pool.inside p (λ x. cc)))) in
      let prereqed = (pop_from (length s.stack) t.stack (put t.prereqed p false)).1 in
      (
        closed t p prereqed s.stack,
        visit_gray-ends (visit required flag fuel) flag p r rs s t ends loop.advance.stack,
        closed-Visits s t p (p ∷ s.stack) prereqed e in_pool (rw same loop),
      )

  pub visit-IsVisit : (fuel : ℕ) → IsVisit required flag pool rank (visit required flag fuel) fuel
  unfolding visit
  visit-IsVisit zero s p e fits in_pool =
      absurd (omega (arith, whites-put pool s.colors p (in_pool.inside p (λ x. cc)) e))
  visit-IsVisit (suc fuel) s p e fits in_pool =
      visit_gray-Visits fuel s p (required p) refl e fits in_pool (visit-IsVisit fuel)
