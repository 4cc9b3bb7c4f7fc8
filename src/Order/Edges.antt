-- ===== src/Order/Edges.antt =====
-- The loop over what a package requires, given that the visits it makes end and advance.
use poldek.Base.{
  ℕ, suc, ◌≤◌, ◌<◌, ◌≡◌, ◌≢◌, refl, inl, inr, true, Option, some, List, [], ◌∷◌, arith, All,
  Bool-cases,
}
use poldek.Order.{
  Color, none_of_pool, white, gray, black, put, Visit, Rp, Reqpkg, ReqpkgFlag, no_flag, of_prereq,
  of_prereq_un, has_flag, is_followed, is_loop, edge_step, edges_loop,
}
use poldek.Order.Colors.{Evolves-refl, IsAmong, whites, whites-le}
use poldek.Order.Advance.{
  IsPool, IsPool-Evolves, white_forth, Descends, IsRanked, Advance, Advance-refl, Advance-trans,
}

followed_of_flag :
    (flag : ReqpkgFlag) (rp : Rp) → has_flag flag rp ≡ true → is_followed flag rp ≡ true
followed_of_flag no_flag rp h = refl
followed_of_flag of_prereq rp h = h
followed_of_flag of_prereq_un rp h = h

flag_of_loop :
    (flag : ReqpkgFlag) (s : Visit) (rp : Rp) → is_loop flag s rp ≡ true → has_flag flag rp ≡ true
unfolding is_loop
flag_of_loop flag s rp h = ground arith

module _ (required : ℕ → List Reqpkg) (flag : ReqpkgFlag) (pool : List ℕ) (rank : ℕ → ℕ) where
  -- What the visit of a white package owes.
  pub record Visits (p : ℕ) (s t : Visit) : Type 0 where
    pub advance : Advance required flag pool rank (suc (rank p)) s t
    pub done : t.colors p ≡ black

  -- The packages of the edges that are followed are not white.
  abbrev pub IsVisited : List Rp → Visit → Type 0
  IsVisited rps s = All (λ rp. is_followed flag rp ≡ true → s.colors rp.pkg ≢ white) rps

  -- What the loop over edges out of `p` owes.
  pub record Loops (p : ℕ) (rps : List Rp) (s t : Visit) : Type 0 where
    pub advance : Advance required flag pool rank (rank p) s t
    pub visited : IsVisited rps t

module _ (required : ℕ → List Reqpkg) (flag : ReqpkgFlag) (pool : List ℕ) (rank : ℕ → ℕ)
    (rec : Visit → ℕ → Option Visit) (fuel : ℕ) where
  -- The visit of a white package ends, with as many white packages as there is fuel.
  abbrev pub IsVisit : Type 0
  IsVisit =
      (s : Visit) (p : ℕ)
      → s.colors p ≡ white
      → whites pool s.colors ≤ fuel
      → IsPool pool s
      → (t : Visit) × (rec s p ≡ some t) × Visits required flag pool rank p s t

  module _ (p : ℕ) (law : IsVisit) where
    -- What a step along the edge `rp` out of `p` owes.
    pub record Steps (rp : Rp) (s t : Visit) : Type 0 where
      advance : Advance required flag pool rank (rank p) s t
      visited : is_followed flag rp ≡ true → t.colors rp.pkg ≢ white

    step_other : (s : Visit) (rp : Rp) → s.colors rp.pkg ≢ white → Steps rp s s
    step_other s rp other = record {
      advance = Advance-refl required flag pool rank (rank p) s;
      visited = λ _. other;
    }

    abbrev Falls : Rp → Type 0
    Falls rp =
        IsRanked required flag pool rank
        → is_followed flag rp ≡ true
        → IsAmong rp.pkg pool
        → rank rp.pkg < rank p

    followed-Steps :
        (s t : Visit) (rp : Rp)
        → s.colors rp.pkg ≡ white
        → IsPool pool s
        → is_followed flag rp ≡ true
        → Falls rp
        → Visits required flag pool rank rp.pkg s t
        → Steps rp s t
    followed-Steps s t rp is_white in_pool followed falls v = record {
      advance = record {
        evolves = v.advance.evolves;
        counted = v.advance.counted;
        stack = v.advance.stack;
        sorted = λ r g c o.
            let here = falls r followed (in_pool.inside rp.pkg (λ e. cc)) in
            v.advance.sorted r (λ x is_gray. omega (arith, g x is_gray)) c o;
      };
      visited = λ _ e. cc (v.done, e);
    }

    -- The mark `prereqed` is no part of what a visit owes.
    pub marked : Visit → Rp → Visit
    marked s rp = record s { prereqed = put s.prereqed rp.pkg (has_flag flag rp) }

    marked-Visits :
        (s t : Visit) (rp : Rp)
        → Visits required flag pool rank rp.pkg (marked s rp) t
        → Visits required flag pool rank rp.pkg s t
    unfolding marked
    marked-Visits s t rp v = record {
      advance = record {
        evolves = v.advance.evolves;
        counted = v.advance.counted;
        stack = v.advance.stack;
        sorted = v.advance.sorted;
      };
      done = v.done;
    }

    step_white :
        (s : Visit) (rp : Rp)
        → s.colors rp.pkg ≡ white
        → whites pool s.colors ≤ fuel
        → IsPool pool s
        → Falls rp
        → (t : Visit) × (edge_step rec flag s rp white ≡ some t) × Steps rp s t
    unfolding edge_step marked
    step_white s rp is_white fits in_pool falls = elim (Bool-cases (is_followed flag rp)) [
      | inl followed ↦
          let (t, ends, v) =
            law (marked s rp) rp.pkg is_white fits
              (record { inside = in_pool.inside; outside = in_pool.outside }) in
          (
            t,
            rw (edge_step, followed) ends,
            followed-Steps s t rp is_white in_pool followed falls (marked-Visits s t rp v),
          )
      | inr skipped ↦ (
        marked s rp,
        rw (edge_step, skipped) refl,
        record {
          advance = record {
            evolves = λ q. Evolves-refl (s.colors q);
            counted = λ c. c;
            stack = refl;
            sorted = λ r g c o. (o, refl);
          };
          visited = λ followed. cc;
        },
      )
    ]

    -- A package that is met again while it is visited is a cycle, so it is no edge that falls.
    step_gray :
        (s : Visit) (rp : Rp)
        → s.colors rp.pkg ≡ gray
        → IsPool pool s
        → Falls rp
        → (t : Visit) × (edge_step rec flag s rp gray ≡ some t) × Steps rp s t
    unfolding edge_step
    step_gray s rp is_gray in_pool falls = elim (Bool-cases (is_loop flag s rp)) [
      | inr fake ↦ (s, rw (edge_step, fake) refl, step_other s rp (λ w. cc))
      | inl loop ↦ (
        record s { nerrors = suc s.nerrors },
        rw (edge_step, loop) refl,
        record {
          advance = record {
            evolves = λ q. Evolves-refl (s.colors q);
            counted = λ c. c;
            stack = refl;
            sorted = λ r g c o.
                let followed = followed_of_flag flag rp (flag_of_loop flag s rp loop) in
                let here = falls r followed (in_pool.inside rp.pkg (λ e. cc)) in
                absurd (omega (arith, g rp.pkg is_gray));
          };
          visited = λ followed w. cc;
        },
      )
    ]

    edge_step-Steps :
        (s : Visit) (rp : Rp)
        → whites pool s.colors ≤ fuel
        → IsPool pool s
        → Falls rp
        → (c : Color) → s.colors rp.pkg ≡ c
        → (t : Visit) × (edge_step rec flag s rp c ≡ some t) × Steps rp s t
    unfolding edge_step
    edge_step-Steps s rp fits in_pool falls none_of_pool e = (s, refl, step_other s rp (λ w. cc))
    edge_step-Steps s rp fits in_pool falls white e = step_white s rp e fits in_pool falls
    edge_step-Steps s rp fits in_pool falls gray e = step_gray s rp e in_pool falls
    edge_step-Steps s rp fits in_pool falls black e = (s, refl, step_other s rp (λ w. cc))

    pub edges_loop-Loops :
        (rps : List Rp) (s : Visit)
        → whites pool s.colors ≤ fuel
        → IsPool pool s
        → (IsRanked required flag pool rank → Descends required flag pool rank p rps)
        → (t : Visit) × (edges_loop rec flag rps s ≡ some t)
          × Loops required flag pool rank p rps s t
    unfolding edges_loop
    edges_loop-Loops [] s fits in_pool falls = (
      s,
      refl,
      record { advance = Advance-refl required flag pool rank (rank p) s; visited = tt },
    )
    edges_loop-Loops (rp ∷ rps) s fits in_pool falls =
        let (t, ends, step) =
          edge_step-Steps s rp fits in_pool (λ r. (falls r).0) (s.colors rp.pkg) refl in
        let evolves = step.advance.evolves in
        let (u, finishes, rest) =
          edges_loop-Loops rps t (omega (arith, whites-le pool s.colors t.colors evolves))
            (IsPool-Evolves s t evolves in_pool) (λ r. (falls r).1) in
        (
          u,
          rw (edges_loop, ends) finishes,
          record {
            advance =
                Advance-trans required flag pool rank (rank p) s t u step.advance rest.advance;
            visited = (
              λ followed.
                  white_forth (t.colors rp.pkg) (u.colors rp.pkg) (rest.advance.evolves rp.pkg)
                    (step.visited followed),
              rest.visited,
            );
          },
        )
