-- ===== src/Mark/Visit/Whole.antt =====
-- `packages_mark` with dependencies: it ends, and the marked packages are closed under what they
-- require.
use poldek.Base.{
  ℕ, zero, suc, ◌≤◌, ◌<◌, ◌≡◌, refl, ◌∙◌, ◌⊎◌, inl, inr, Bool, true, false, ◌||◌, some, List, [],
  ◌∷◌, arith, All, ◌==◌, Bool-cases, length,
}
use poldek.Base.Bytes.{Bytes}
use poldek.Pkg.{Pkg}
use poldek.Order.{Reqpkg, edges}
use poldek.Order.Colors.{IsAmong}
use poldek.Mark.{PkgmarkSet}
use poldek.Mark.Visit.{pkgs_of, dep_mark, visit_mark_reqs, visit_all}
use poldek.Mark.Visit.Marked.{IsIdentified, marked_after_dep, dep_after_dep, idnevr-dep}
use poldek.Mark.Visit.Step.{
  M, D, IsMet, IsMet-grows, Marking, Marking-refl, Marking-trans, Marking-start,
}
use poldek.Mark.Visit.Closure.{unmarked, unmarked-le-length, unmarked-lt}
use poldek.Mark.Visit.Closure.Packages.{IsPool, IsVisit, visit_reqs-Silent, visited, within}

module _ (pkg_at : ℕ → Pkg) (printed : ℕ → Bytes) (required : ℕ → List Reqpkg) (pool : List ℕ)
    (idnevr : Bool) (ids : IsIdentified pkg_at printed idnevr) where
  abbrev pub seen : PkgmarkSet → ℕ → Bool
  seen = M pkg_at printed required

  abbrev pub dragged : PkgmarkSet → ℕ → Bool
  dragged = D pkg_at printed required

  pub IsIdentified-kind :
      (s : PkgmarkSet) → s.idnevr ≡ idnevr → IsIdentified pkg_at printed s.idnevr
  IsIdentified-kind s kind = rw kind ids

  old_marks : (s : PkgmarkSet) (p q : ℕ) → seen s p ≡ true → seen s q ≡ (q == p || seen s q)
  old_marks s p q old = elim (Bool-cases (q == p)) [
    | inl same ↦
        let e : q ≡ p = ground arith in
        let here : seen s q ≡ true = rw e old in rw (same, here) refl
    | inr other ↦ rw other refl
  ]

  after_dep :
      (s : PkgmarkSet) (p q : ℕ)
      → s.idnevr ≡ idnevr
      → seen s p ≡ false
      → dragged (dep_mark pkg_at printed required s p) q ≡ true
      → (dragged s q ≡ true) ⊎ (seen s q ≡ false)
  after_dep s p q kind fresh d = elim (Bool-cases (q == p)) [
    | inl same ↦ inr (let e : q ≡ p = ground arith in rw e fresh)
    | inr other ↦
        inl (let e = dep_after_dep pkg_at printed s p q (IsIdentified-kind s kind) in ground arith)
  ]

  fewer_after_dep :
      (s : PkgmarkSet) (p : ℕ)
      → s.idnevr ≡ idnevr
      → seen s p ≡ false
      → IsAmong p pool
      → unmarked pkg_at printed required (dep_mark pkg_at printed required s p) pool
        < unmarked pkg_at printed required s pool
  fewer_after_dep s p kind fresh among =
      let after : (q : ℕ) → seen (dep_mark pkg_at printed required s p) q ≡ (q == p || seen s q) =
        λ q. marked_after_dep pkg_at printed s p q (IsIdentified-kind s kind) in
      unmarked-lt pkg_at printed required s (dep_mark pkg_at printed required s p) p pool
        (λ q m. after q ∙ ground arith) fresh (after p ∙ ground arith) among

  module _ (pooled : IsPool pkg_at printed required pool idnevr ids) where
    pub visit-IsVisit :
        (fuel : ℕ)
        → IsVisit pkg_at printed required pool idnevr ids
            (visit_mark_reqs pkg_at printed required fuel)
            fuel
    unfolding visit_mark_reqs
    visit-IsVisit zero s p kind nodep among fits = elim (Bool-cases (seen s p)) [
      | inl old ↦ absurd (ground arith)
      | inr fresh ↦ absurd (let less = fewer_after_dep s p kind fresh among in ground arith)
    ]
    visit-IsVisit (suc fuel) s p kind nodep among fits = elim (Bool-cases (seen s p)) [
      | inl old ↦
          let (t, ends, silent, met) =
            visit_reqs-Silent pkg_at printed required pool idnevr ids pooled
              (visit_mark_reqs pkg_at printed required fuel) fuel (visit-IsVisit fuel) p
              (required p) s kind old (ground arith)
              (within (pkgs_of (edges (required p))) (required p) (λ x h. h)) in
          (
            t,
            rw (visit_mark_reqs, nodep, old) ends,
            visited pkg_at printed required pool idnevr ids s s t p refl (λ q. old_marks s p q old)
                (λ q d. inl d) silent met,
          )
      | inr fresh ↦
          let s' = dep_mark pkg_at printed required s p in
          let after : (q : ℕ)
              → seen (dep_mark pkg_at printed required s p) q ≡ (q == p || seen s q) =
            λ q. marked_after_dep pkg_at printed s p q (IsIdentified-kind s kind) in
          let less = fewer_after_dep s p kind fresh among in
          let (t, ends, silent, met) =
            visit_reqs-Silent pkg_at printed required pool idnevr ids pooled
              (visit_mark_reqs pkg_at printed required fuel) fuel (visit-IsVisit fuel) p
              (required p) s' (idnevr-dep pkg_at printed s p _ ∙ kind) (after p ∙ ground arith)
              (ground arith) (within (pkgs_of (edges (required p))) (required p) (λ x h. h)) in
          (
            t,
            rw (visit_mark_reqs, nodep, fresh) ends,
            visited pkg_at printed required pool idnevr ids s s' t p
                (idnevr-dep pkg_at printed s p _) after (λ q d. after_dep s p q kind fresh d) silent
                met,
          )
    ]

    -- Marked packages that no other has marked.
    abbrev pub Roots : List ℕ → PkgmarkSet → Type 0
    Roots ps s = All (λ x. (seen s x ≡ true) × ((dragged s x ≡ false) × IsAmong x pool)) ps

    abbrev pub AllMet : List ℕ → PkgmarkSet → Type 0
    AllMet ps t = All (λ x. IsMet pkg_at printed required t (required x)) ps

    abbrev pub Started : List ℕ → PkgmarkSet → PkgmarkSet → Type 0
    Started ps s t = Marking pkg_at printed required (λ q. IsAmong q ps) s t

    Roots-later :
        (start : ℕ → Type 0) (ps : List ℕ) (s t : PkgmarkSet)
        → Marking pkg_at printed required start s t
        → Roots ps s
        → Roots ps t
    Roots-later start [] s t m h = tt
    Roots-later start (x ∷ ps) s t m h = (
      (
        m.grows x h.0.0,
        (
          (elim (Bool-cases (dragged t x)) [
            | inr no_dep ↦ no_dep
            | inl dep ↦ elim (m.deps x dep) [
              | inl before ↦ absurd (let e = h.0.1.0 in ground arith)
              | inr unseen ↦ absurd (let e = h.0.0 in ground arith)
            ]
          ]),
          h.0.1.1,
        ),
      ),
      Roots-later start ps s t m h.1,
    )

    pub visit_all-Started :
        (fuel : ℕ) (ps : List ℕ) (s : PkgmarkSet)
        → s.idnevr ≡ idnevr
        → Roots ps s
        → suc (length pool) ≤ fuel
        → (t : PkgmarkSet) × (visit_all pkg_at printed required fuel ps s ≡ some t)
          × (Started ps s t × AllMet ps t)
    unfolding visit_all
    visit_all-Started fuel [] s kind roots fits =
        (s, refl, (Marking-refl pkg_at printed required (λ q. ⊥) s, tt))
    visit_all-Started fuel (x ∷ ps) s kind roots fits =
        let enough = unmarked-le-length pkg_at printed required s pool in
        let old = roots.0.0 in
        let (t, ends, v) =
          visit-IsVisit fuel s x kind roots.0.1.0 roots.0.1.1 (rw old (omega arith)) in
        let (u, ends', (rest, mets)) =
          visit_all-Started fuel ps t (v.marking.kind ∙ kind)
            (Roots-later (λ q. q ≡ x) ps s t v.marking roots.1) fits in
        (
          u,
          rw (visit_all, ends) ends',
          (
            Marking-trans pkg_at printed required (λ q. IsAmong q (x ∷ ps)) s t u
                (Marking-start pkg_at printed required (λ q. q ≡ x) (λ q. IsAmong q (x ∷ ps)) s t
                  (λ q e. inl e) v.marking)
                (Marking-start pkg_at printed required (λ q. IsAmong q ps) (λ q. IsAmong q (x ∷ ps))
                  t u (λ q e. inr e) rest),
            (IsMet-grows pkg_at printed required t u (required x) rest.grows v.met, mets),
          ),
        )
