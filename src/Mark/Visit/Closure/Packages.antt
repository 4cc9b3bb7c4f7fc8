-- ===== src/Mark/Visit/Closure/Packages.antt =====
-- The visits with their recursion, and the marking of a list of packages.
use mathlib.Core.List.{◌++◌}
use poldek.Base.{
  ℕ, ◌+◌, ◌≤◌, ◌≡◌, refl, ◌∙◌, ◌⊎◌, inl, inr, Bool, true, false, ◌||◌, Option, some, List, [], ◌∷◌,
  arith, All, ◌==◌, if◌then◌else◌, Bool-cases,
}
use poldek.Base.Bytes.{Bytes}
use poldek.Pkg.{Pkg}
use poldek.Order.{Rp, Reqpkg, edges, alternatives}
use poldek.Order.Colors.{IsAmong}
use poldek.Mark.{PkgmarkSet}
use poldek.Mark.Visit.{others, pkgs_of, tomark_of, visit_req, visit_reqs}
use poldek.Mark.Visit.Marked.{IsIdentified}
use poldek.Mark.Visit.Step.{
  M, D, is_met, IsMet, Grows, Marking, Marking-refl, Marking-trans, Marking-offered, is_met-Grows,
}
use poldek.Mark.Visit.Closure.{
  dep_of_marked, tomark_of-IsAmong, any_marked-unmarked, any_marked-marked, unmarked, unmarked-le,
  IsAmong-eq,
}

-- The packages that a requirement can be met by.
abbrev group : Reqpkg → List ℕ
group r = r.rp.pkg ∷ pkgs_of (others r)

IsAmong-left : (x : ℕ) (ps qs : List Rp) → IsAmong x (pkgs_of ps) → IsAmong x (pkgs_of (ps ++ qs))
IsAmong-left x [] qs h = absurd h
IsAmong-left x (p ∷ ps) qs (inl same) = inl same
IsAmong-left x (p ∷ ps) qs (inr below) = inr (IsAmong-left x ps qs below)

IsAmong-right : (x : ℕ) (ps qs : List Rp) → IsAmong x (pkgs_of qs) → IsAmong x (pkgs_of (ps ++ qs))
IsAmong-right x [] qs h = h
IsAmong-right x (p ∷ ps) qs h = inr (IsAmong-right x ps qs h)

-- The groups of some requirements lie in a list.
abbrev IsWithin : List ℕ → List Reqpkg → Type 0
IsWithin all rs = All (λ r. (x : ℕ) → IsAmong x (group r) → IsAmong x all) rs

pub within :
    (all : List ℕ) (rs : List Reqpkg)
    → ((x : ℕ) → IsAmong x (pkgs_of (edges rs)) → IsAmong x all)
    → IsWithin all rs
unfolding edges
within all [] f = tt
within all (r ∷ rs) f = (
  λ x h. f x (IsAmong-left x (alternatives r) (edges rs) h),
  within all rs (λ x h. f x (IsAmong-right x (alternatives r) (edges rs) h)),
)

pub ==_eq : (a b : ℕ) → (a == b) ≡ true → a ≡ b
==_eq a b h = ground arith

module _ (pkg_at : ℕ → Pkg) (printed : ℕ → Bytes) (required : ℕ → List Reqpkg) (pool : List ℕ)
    (idnevr : Bool) (ids : IsIdentified pkg_at printed idnevr) where
  abbrev pub marked : PkgmarkSet → ℕ → Bool
  marked = M pkg_at printed required

  unmarked_member :
      (r : Reqpkg) (s : PkgmarkSet) (x : ℕ)
      → is_met pkg_at printed required s r ≡ false
      → IsAmong x (group r)
      → marked s x ≡ false
  unmarked_member r s x unmet (inl same) = rw same (ground arith)
  unmarked_member r s x unmet (inr below) =
      any_marked-unmarked pkg_at printed required s x (pkgs_of (others r)) (ground arith) below

  met_member :
      (r : Reqpkg) (t : PkgmarkSet) (x : ℕ)
      → marked t x ≡ true
      → IsAmong x (group r)
      → is_met pkg_at printed required t r ≡ true
  met_member r t x own (inl same) =
      let here : marked t r.rp.pkg ≡ true = rw (← same) own in ground arith
  met_member r t x own (inr below) =
      let rest = any_marked-marked pkg_at printed required t x (pkgs_of (others r)) own below in
      ground arith

  -- A visit ends that has fuel for the unmarked packages, and for one package that is marked.
  abbrev pub need : PkgmarkSet → ℕ → ℕ
  need s p = (if marked s p then 1 else 0) + unmarked pkg_at printed required s pool

  -- Nothing that is required lies outside the pool.
  abbrev pub IsPool : Type 0
  IsPool = (p x : ℕ) → IsAmong x (pkgs_of (edges (required p))) → IsAmong x pool

  pub record Visited (p : ℕ) (s t : PkgmarkSet) : Type 0 where
    pub marking : Marking pkg_at printed required (λ q. q ≡ p) s t
    pub own : marked t p ≡ true
    pub met : IsMet pkg_at printed required t (required p)

  abbrev pub IsVisit : (PkgmarkSet → ℕ → Option PkgmarkSet) → ℕ → Type 0
  IsVisit rec fuel =
      (s : PkgmarkSet) (p : ℕ)
      → s.idnevr ≡ idnevr
      → D pkg_at printed required s p ≡ false
      → IsAmong p pool
      → need s p ≤ fuel
      → (t : PkgmarkSet) × (rec s p ≡ some t) × Visited p s t

  abbrev pub Silent : PkgmarkSet → PkgmarkSet → Type 0
  Silent = Marking pkg_at printed required (λ q. ⊥)

  module _ (pooled : IsPool) (rec : PkgmarkSet → ℕ → Option PkgmarkSet) (fuel : ℕ)
      (law : IsVisit rec fuel) (p : ℕ) where
    visit_req-Silent :
        (r : Reqpkg) (s : PkgmarkSet)
        → s.idnevr ≡ idnevr
        → marked s p ≡ true
        → unmarked pkg_at printed required s pool ≤ fuel
        → ((x : ℕ) → IsAmong x (group r) → IsAmong x (pkgs_of (edges (required p))))
        → (t : PkgmarkSet) × (visit_req pkg_at printed required rec r s ≡ some t)
          × Silent s t
          × (is_met pkg_at printed required t r ≡ true)
    unfolding visit_req
    visit_req-Silent r s kind own fits inside =
        elim (Bool-cases (is_met pkg_at printed required s r)) [
          | inl met ↦
              (s, rw (visit_req, met) refl, Marking-refl pkg_at printed required (λ q. ⊥) s, met)
          | inr unmet ↦
              let x = tomark_of pkg_at printed required s r.rp.pkg (pkgs_of (others r)) in
              let among =
                tomark_of-IsAmong pkg_at printed required s r.rp.pkg (pkgs_of (others r)) in
              let fresh : marked s x ≡ false = unmarked_member r s x unmet among in
              let (t, ends, v) =
                law s x kind (dep_of_marked pkg_at printed required s x fresh)
                  (pooled p x (inside x among)) (rw fresh (omega arith)) in
              (
                t,
                rw (visit_req, unmet) ends,
                Marking-offered pkg_at printed required (λ q. q ≡ x) (λ q. ⊥) s t
                    (λ q same. (
                      p,
                      v.marking.grows p own,
                      IsAmong-eq (pkgs_of (edges (required p))) same (inside x among),
                    ))
                    v.marking,
                met_member r t x v.own among,
              )
        ]

    pub visit_reqs-Silent :
        (rs : List Reqpkg) (s : PkgmarkSet)
        → s.idnevr ≡ idnevr
        → marked s p ≡ true
        → unmarked pkg_at printed required s pool ≤ fuel
        → IsWithin (pkgs_of (edges (required p))) rs
        → (t : PkgmarkSet) × (visit_reqs pkg_at printed required rec rs s ≡ some t)
          × Silent s t
          × IsMet pkg_at printed required t rs
    unfolding visit_reqs
    visit_reqs-Silent [] s kind own fits inside =
        (s, refl, Marking-refl pkg_at printed required (λ q. ⊥) s, tt)
    visit_reqs-Silent (r ∷ rs) s kind own fits inside =
        let (t, ends, step, met) = visit_req-Silent r s kind own fits inside.0 in
        let fits' = unmarked-le pkg_at printed required s t pool step.grows in
        let (u, ends', rest, mets) =
          visit_reqs-Silent rs t (step.kind ∙ kind) (step.grows p own) (omega arith) inside.1 in
        (
          u,
          rw (visit_reqs, ends) ends',
          Marking-trans pkg_at printed required (λ q. ⊥) s t u step rest,
          (is_met-Grows pkg_at printed required t u r rest.grows met, mets),
        )

  -- The visit of a package that is marked by now, `s` being the state before it was marked.
  pub visited :
      (s s' t : PkgmarkSet) (p : ℕ)
      → s'.idnevr ≡ s.idnevr
      → ((q : ℕ) → marked s' q ≡ (q == p || marked s q))
      → ((q : ℕ)
          → D pkg_at printed required s' q ≡ true
          → (D pkg_at printed required s q ≡ true) ⊎ (marked s q ≡ false))
      → Silent s' t
      → IsMet pkg_at printed required t (required p)
      → Visited p s t
  visited s s' t p kind marks dep silent met =
      let own : marked t p ≡ true = silent.grows p (marks p ∙ ground arith) in
      let grown : Grows pkg_at printed required s s' = λ q m. marks q ∙ ground arith in
      record {
        marking = record {
          kind = silent.kind ∙ kind;
          grows = λ q m. silent.grows q (grown q m);
          closed = λ q m. elim (silent.closed q m) [
            | inr done ↦ inr done
            | inl before ↦ elim (Bool-cases (q == p)) [
              | inl same ↦ inr (rw (==_eq q p same) met)
              | inr other ↦ inl (let e = marks q in ground arith)
            ]
          ];
          offered = λ q m. elim (silent.offered q m) [
            | inr (inl never) ↦ absurd never
            | inr (inr offered) ↦ inr (inr offered)
            | inl before ↦ elim (Bool-cases (q == p)) [
              | inl same ↦ inr (inl (==_eq q p same))
              | inr other ↦ inl (let e = marks q in ground arith)
            ]
          ];
          deps = λ q d. elim (silent.deps q d) [
            | inl before ↦ dep q before
            | inr unmarked' ↦ inr (let e = marks q in ground arith)
          ];
        };
        own = own;
        met = met;
      }
