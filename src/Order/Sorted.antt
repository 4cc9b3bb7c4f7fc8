-- ===== src/Order/Sorted.antt =====
-- `do_order`: it ends, puts each package out once, and sorts where the requirements have no cycle.
use poldek.Base.{
  ℕ, ◌≤◌, ◌≡◌, ◌≢◌, refl, ap, ◌∙◌, ◌⊎◌, inl, inr, Bool, some, List, [], ◌∷◌, arith, All, length,
  Bool-cases,
}
use poldek.Order.{
  Color, none_of_pool, white, gray, black, Visit, Reqpkg, ReqpkgFlag, visit, order_loop, clean,
  start, do_order, packages,
}
use poldek.Order.Colors.{Evolves, Evolves-refl, Evolves-trans, whites, whites-le, whites-le-length}
use poldek.Order.Advance.{
  is_black, count, IsCounted, IsPool, IsPool-Evolves, gray_back, white_forth, IsRanked,
  IsTopological,
}
use poldek.Order.Start.{
  is_member, IsOnce, IsElsewhere, IsAmong-of_member, All-among, clean-among, clean-other,
  count-reverse, start-IsPool, start-colors, start-IsCounted,
}
use poldek.Order.Edges.{Visits}
use poldek.Order.Total.{visit-IsVisit}

-- No package is being visited.
abbrev pub HasNoGray : Visit → Type 0
HasNoGray s = (q : ℕ) → s.colors q ≢ gray

white_or_not : (c : Color) → (c ≡ white) ⊎ (c ≢ white)
white_or_not white = inl refl
white_or_not none_of_pool = inr (λ e. cc)
white_or_not gray = inr (λ e. cc)
white_or_not black = inr (λ e. cc)

module _ (required : ℕ → List Reqpkg) (flag : ReqpkgFlag) where
  order_loop-white :
      (fuel p : ℕ) (ps : List ℕ) (s t : Visit)
      → s.colors p ≡ white
      → visit required flag fuel s p ≡ some t
      → order_loop required flag fuel (p ∷ ps) s
        ≡ order_loop required flag fuel ps (record t { stack = [] })
  unfolding order_loop
  order_loop-white fuel p ps s t e ends = rw (order_loop, e, ends) refl

  order_loop-other :
      (fuel p : ℕ) (ps : List ℕ) (s : Visit)
      → s.colors p ≢ white
      → order_loop required flag fuel (p ∷ ps) s ≡ order_loop required flag fuel ps s
  unfolding order_loop
  order_loop-other fuel p ps s other = go (s.colors p) refl
    where
      go :
          (c : Color)
          → s.colors p ≡ c
          → order_loop required flag fuel (p ∷ ps) s ≡ order_loop required flag fuel ps s
      go none_of_pool e = rw (order_loop, e) refl
      go white e = absurd (other e)
      go gray e = rw (order_loop, e) refl
      go black e = rw (order_loop, e) refl

  module _ (pool : List ℕ) (rank : ℕ → ℕ) where
    -- What the loop over packages owes.
    record Orders (ps : List ℕ) (s t : Visit) : Type 0 where
      evolves : (q : ℕ) → Evolves (s.colors q) (t.colors q)
      counted : IsCounted s → IsCounted t
      sorted :
          IsRanked required flag pool rank
          → HasNoGray s
          → IsCounted s
          → IsTopological required flag pool s.ordered
          → IsTopological required flag pool t.ordered × (t.nerrors ≡ s.nerrors)
      done : All (λ p. t.colors p ≢ white) ps

    Orders-skip :
        (p : ℕ) (ps : List ℕ) (s t : Visit)
        → s.colors p ≢ white
        → Orders ps s t
        → Orders (p ∷ ps) s t
    Orders-skip p ps s t other o = record {
      evolves = o.evolves;
      counted = o.counted;
      sorted = o.sorted;
      done = (white_forth (s.colors p) (t.colors p) (o.evolves p) other, o.done);
    }

    Orders-visit :
        (p : ℕ) (ps : List ℕ) (s t u : Visit)
        → Visits required flag pool rank p s t
        → Orders ps (record t { stack = [] }) u
        → Orders (p ∷ ps) s u
    Orders-visit p ps s t u v o = record {
      evolves = λ q.
          Evolves-trans (s.colors q) (t.colors q) (u.colors q) (v.advance.evolves q) (o.evolves q);
      counted = λ c. o.counted (v.advance.counted c);
      sorted = λ r g c l.
          let (l', e) = v.advance.sorted r (λ x is_gray. absurd (g x is_gray)) c l in
          let g' : HasNoGray t =
            λ x is_gray. g x (gray_back (s.colors x) (t.colors x) (v.advance.evolves x) is_gray) in
          let (l'', e') = o.sorted r g' (v.advance.counted c) l' in (l'', e' ∙ e);
      done =
          (white_forth (t.colors p) (u.colors p) (o.evolves p) (λ w. let d = v.done in cc), o.done);
    }

    order_loop-Orders :
        (fuel : ℕ) (ps : List ℕ) (s : Visit)
        → whites pool s.colors ≤ fuel
        → IsPool pool s
        → (t : Visit) × (order_loop required flag fuel ps s ≡ some t) × Orders ps s t
    unfolding order_loop
    order_loop-Orders fuel [] s fits in_pool = (
      s,
      refl,
      record {
        evolves = λ q. Evolves-refl (s.colors q);
        counted = λ c. c;
        sorted = λ r g c l. (l, refl);
        done = tt;
      },
    )
    order_loop-Orders fuel (p ∷ ps) s fits in_pool = elim (white_or_not (s.colors p)) [
      | inl is_white ↦
          let (t, ends, v) = visit-IsVisit required flag pool rank fuel s p is_white fits in_pool in
          let next = record t { stack = [] } in
          let forth = v.advance.evolves in
          let (u, ends', o) =
            order_loop-Orders fuel ps next (omega (arith, whites-le pool s.colors t.colors forth))
              (IsPool-Evolves s next forth in_pool) in
          (u, order_loop-white fuel p ps s t is_white ends ∙ ends', Orders-visit p ps s t u v o)
      | inr other ↦
          let (u, ends', o) = order_loop-Orders fuel ps s fits in_pool in
          (u, order_loop-other fuel p ps s other ∙ ends', Orders-skip p ps s u other o)
    ]

member-black : (c d : Color) → c ≡ white → Evolves c d → d ≢ white → is_black d ≡ 1
member-black white d e (inl h) k = absurd (k h)
member-black white d e (inr h) k = ap is_black h
member-black none_of_pool d e h k = ground arith
member-black gray d e h k = ground arith
member-black black d e h k = ground arith

no_gray_of : (c : Color) → (c ≡ white) ⊎ (c ≡ none_of_pool) → c ≢ gray
no_gray_of c (inl h) e = cc
no_gray_of c (inr h) e = cc

stays_none : (c d : Color) → c ≡ none_of_pool → Evolves c d → d ≡ none_of_pool
stays_none white d e h = ground arith
stays_none none_of_pool d e h = h
stays_none gray d e h = ground arith
stays_none black d e h = ground arith

other-black : (c d : Color) → c ≡ none_of_pool → Evolves c d → is_black d ≡ 0
other-black white d e h = ground arith
other-black none_of_pool d e h = ap is_black h
other-black gray d e h = ground arith
other-black black d e h = ground arith

module _ (required : ℕ → List Reqpkg) (flag : ReqpkgFlag) (pkgs : List ℕ) (colors : ℕ → Color)
    (prereqed : ℕ → Bool) (others : IsElsewhere pkgs colors) where
  ordered-IsOnce :
      (rank : ℕ → ℕ) (t : Visit)
      → Orders required flag pkgs rank pkgs (start pkgs colors prereqed) t
      → IsOnce pkgs (packages t)
  ordered-IsOnce rank t o q =
      let counts : count q (packages t) ≡ is_black (t.colors q) =
        count-reverse q t.ordered ∙ o.counted (start-IsCounted pkgs colors prereqed others) q in
      counts ∙ elim (Bool-cases (is_member q pkgs)) [
        | inl member ↦
            let among = IsAmong-of_member q pkgs member in
            rw member (
              member-black (clean pkgs colors q) (t.colors q) (clean-among pkgs colors q among)
                (o.evolves q) (All-among (λ x. t.colors x ≢ white) pkgs q o.done among))
        | inr other ↦ rw other (
            other-black (clean pkgs colors q) (t.colors q)
              (clean-other pkgs colors q other ∙ others q other) (o.evolves q))
      ]

pub do_order-pass :
    (required : ℕ → List Reqpkg) (flag : ReqpkgFlag) (pkgs : List ℕ) (colors : ℕ → Color)
    (prereqed : ℕ → Bool)
    → IsElsewhere pkgs colors
    → (t : Visit) × (do_order required flag pkgs colors prereqed ≡ some t)
      × IsOnce pkgs (packages t)
      × IsElsewhere pkgs t.colors
unfolding do_order
do_order-pass required flag pkgs colors prereqed others =
    let first = start pkgs colors prereqed in
    let (t, ends, o) =
      order_loop-Orders required flag pkgs (λ p. 0) (length pkgs) pkgs first
        (whites-le-length pkgs first.colors) (start-IsPool pkgs colors prereqed others) in
    (
      t,
      ends,
      ordered-IsOnce required flag pkgs colors prereqed others (λ p. 0) t o,
      λ q other.
          stays_none (clean pkgs colors q) (t.colors q)
            (clean-other pkgs colors q other ∙ others q other) (o.evolves q),
    )

-- Where nothing but the packages to be ordered is coloured: with as much fuel as there are
-- packages `do_order` ends, and it puts out each of the packages once and nothing else, whatever
-- they require.
pub do_order-IsOnce :
    (required : ℕ → List Reqpkg) (flag : ReqpkgFlag) (pkgs : List ℕ) (colors : ℕ → Color)
    (prereqed : ℕ → Bool)
    → IsElsewhere pkgs colors
    → (t : Visit) × (do_order required flag pkgs colors prereqed ≡ some t)
      × IsOnce pkgs (packages t)
do_order-IsOnce required flag pkgs colors prereqed others =
    let (t, ends, once, elsewhere) = do_order-pass required flag pkgs colors prereqed others in
    (t, ends, once)

-- Where nothing but the packages to be ordered is coloured and some rank falls along every
-- requirement that is followed and leads to one of them: `do_order` ends, each package stands
-- behind all it so requires of the packages, and no loop is counted.
pub do_order-IsTopological :
    (required : ℕ → List Reqpkg) (flag : ReqpkgFlag) (pkgs : List ℕ) (colors : ℕ → Color)
    (prereqed : ℕ → Bool) (rank : ℕ → ℕ)
    → IsElsewhere pkgs colors
    → IsRanked required flag pkgs rank
    → (t : Visit) × (do_order required flag pkgs colors prereqed ≡ some t)
      × IsTopological required flag pkgs t.ordered
      × (t.nerrors ≡ 0)
unfolding do_order
do_order-IsTopological required flag pkgs colors prereqed rank others ranked =
    let first = start pkgs colors prereqed in
    let (t, ends, o) =
      order_loop-Orders required flag pkgs rank (length pkgs) pkgs first
        (whites-le-length pkgs first.colors) (start-IsPool pkgs colors prereqed others) in
    let no_gray : HasNoGray first =
      λ q e. no_gray_of (clean pkgs colors q) (start-colors pkgs colors others q) e in
    let (sorted, none_more) =
      o.sorted ranked no_gray (start-IsCounted pkgs colors prereqed others) tt in
    (t, ends, sorted, none_more)
