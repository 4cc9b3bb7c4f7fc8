-- ===== src/Isort.antt =====
-- The insertion sort that capreqidx.c and pkgset-req.c write out, over the test `less` of the inner
-- loop.
use mathlib.Core.List.{reverse, reverse_aux}
use poldek.Base.{
  ℕ, ◌+◌, ◌≡◌, refl, ◌∙◌, inl, inr, Bool, true, false, List, [], ◌∷◌, arith, All, ◌==◌,
  if◌then◌else◌, Bool-cases,
}
use poldek.Order.Advance.{count}
use poldek.Order.Start.{count-reverse}

module _ (R : ℕ → ℕ → Type 0) where
  -- No element stands behind one that it must precede.
  abbrev pub IsOrdered : List ℕ → Type 0
  IsOrdered [] = Unit
  IsOrdered (x ∷ xs) = All (λ y. R x y) xs × IsOrdered xs

  abbrev IsReversed : List ℕ → Type 0
  IsReversed [] = Unit
  IsReversed (x ∷ xs) = All (λ y. R y x) xs × IsReversed xs

module _ (less : ℕ → ℕ → Bool) where
  -- The inner loop, on the sorted part of the array with its last element first.
  unfoldable pub shift : ℕ → List ℕ → List ℕ
  shift tmp [] = tmp ∷ []
  shift tmp (p ∷ ps) = let rest = shift tmp ps in if less tmp p then p ∷ rest else tmp ∷ p ∷ ps

  unfoldable pub sort_from : List ℕ → List ℕ → List ℕ
  sort_from done [] = done
  sort_from done (tmp ∷ rest) = sort_from (shift tmp done) rest

  unfoldable pub isort : List ℕ → List ℕ
  unfolding shift sort_from
  isort pkgs = reverse (sort_from [] pkgs)

  count-shift :
      (q tmp : ℕ) (ps : List ℕ) → count q (shift tmp ps) ≡ (if q == tmp then 1 else 0) + count q ps
  unfolding shift count
  count-shift q tmp [] = refl
  count-shift q tmp (p ∷ ps) = ground (arith, count-shift q tmp ps)

  count-sort_from :
      (q : ℕ) (done rest : List ℕ) → count q (sort_from done rest) ≡ count q done + count q rest
  unfolding sort_from count
  count-sort_from q done [] = omega arith
  count-sort_from q done (tmp ∷ rest) =
      omega (arith, count-sort_from q (shift tmp done) rest, count-shift q tmp done)

  -- The sort only reorders.
  pub count-isort : (q : ℕ) (ps : List ℕ) → count q (isort ps) ≡ count q ps
  unfolding isort count
  count-isort q ps = count-reverse q (sort_from [] ps) ∙ count-sort_from q [] ps ∙ omega arith

  module _ (R : ℕ → ℕ → Type 0) (below : (a b : ℕ) → less a b ≡ true → R a b)
      (above : (a b : ℕ) → less a b ≡ false → R b a)
      (trans : (a b c : ℕ) → R a b → R b c → R a c) where
    All-trans : (a b : ℕ) (xs : List ℕ) → R a b → All (λ y. R y a) xs → All (λ y. R y b) xs
    All-trans a b [] h k = tt
    All-trans a b (x ∷ xs) h k = (trans x a b k.0 h, All-trans a b xs h k.1)

    All-shift :
        (b tmp : ℕ) (ps : List ℕ) → R tmp b → All (λ y. R y b) ps → All (λ y. R y b) (shift tmp ps)
    unfolding shift
    All-shift b tmp [] h k = (h, tt)
    All-shift b tmp (p ∷ ps) h k = elim (Bool-cases (less tmp p)) [
      | inl lower ↦ rw (shift, lower) (k.0, All-shift b tmp ps h k.1)
      | inr place ↦ rw (shift, place) (h, k)
    ]

    IsReversed-shift : (tmp : ℕ) (ps : List ℕ) → IsReversed R ps → IsReversed R (shift tmp ps)
    unfolding shift
    IsReversed-shift tmp [] d = (tt, tt)
    IsReversed-shift tmp (p ∷ ps) d = elim (Bool-cases (less tmp p)) [
      | inl lower ↦
          rw (shift, lower)
            (All-shift p tmp ps (below tmp p lower) d.0, IsReversed-shift tmp ps d.1)
      | inr place ↦
          let first : R p tmp = above tmp p place in
          rw (shift, place) ((first, All-trans p tmp ps first d.0), d)
    ]

    IsReversed-sort_from :
        (done rest : List ℕ) → IsReversed R done → IsReversed R (sort_from done rest)
    unfolding sort_from
    IsReversed-sort_from done [] d = d
    IsReversed-sort_from done (tmp ∷ rest) d =
        IsReversed-sort_from (shift tmp done) rest (IsReversed-shift tmp done d)

    All-heads :
        (x : ℕ) (ys acc : List ℕ)
        → All (λ a. All (λ y. R y a) (x ∷ ys)) acc
        → All (λ a. R x a) acc × All (λ a. All (λ y. R y a) ys) acc
    All-heads x ys [] k = (tt, tt)
    All-heads x ys (a ∷ acc) k =
        let rest = All-heads x ys acc k.1 in ((k.0.0, rest.0), (k.0.1, rest.1))

    IsOrdered-reverse_aux :
        (xs acc : List ℕ)
        → IsReversed R xs
        → IsOrdered R acc
        → All (λ a. All (λ y. R y a) xs) acc
        → IsOrdered R (reverse_aux xs acc)
    IsOrdered-reverse_aux [] acc d a h = a
    IsOrdered-reverse_aux (x ∷ xs) acc d a h =
        let heads = All-heads x xs acc h in
        IsOrdered-reverse_aux xs (x ∷ acc) d.1 (heads.0, a) (d.0, heads.1)

    -- The sort orders, when the test decides a total preorder.
    pub IsOrdered-isort : (ps : List ℕ) → IsOrdered R (isort ps)
    unfolding isort
    IsOrdered-isort ps =
        IsOrdered-reverse_aux (sort_from [] ps) [] (IsReversed-sort_from [] ps tt) tt tt
