-- ===== src/Mark/Closed.antt =====
-- `packages_mark` on a mark set in which nothing is marked.
use poldek.Base.{
  ℕ, suc, ◌≡◌, refl, ◌∙◌, ◌⊎◌, inl, inr, Bool, true, false, ◌||◌, some, List, [], ◌∷◌, arith, All,
  ◌==◌, Bool-cases, length,
}
use poldek.Base.Bytes.{Bytes}
use poldek.Pkg.{Pkg}
use poldek.Order.{Reqpkg}
use poldek.Order.Colors.{IsAmong}
use poldek.Order.Start.{All-among}
use poldek.Mark.{PkgmarkSet, pkgmark_mark, pkgmark_set_new, pkgmark_isset, get}
use poldek.Mark.Visit.{is_marked, is_dep_marked, hand_mark, hand_mark_all, depmark_packages}
use poldek.Mark.Visit.Marked.{IsIdentified, marked_after_hand, dep_after_hand, idnevr-dep}
use poldek.Mark.Visit.Step.{IsMet, IsOffered}
use poldek.Mark.Visit.Closure.{dep_of_marked}
use poldek.Mark.Visit.Closure.Packages.{IsPool}
use poldek.Mark.Visit.Whole.{visit_all-Started}

module _ (pkg_at : ℕ → Pkg) (printed : ℕ → Bytes) (required : ℕ → List Reqpkg) (idnevr : Bool)
    (ids : IsIdentified pkg_at printed idnevr) where
  abbrev sees : PkgmarkSet → ℕ → Bool
  sees = is_marked pkg_at printed required

  hand_all-kind :
      (ps : List ℕ) (s : PkgmarkSet)
      → s.idnevr ≡ idnevr
      → (hand_mark_all pkg_at printed required ps s).idnevr ≡ idnevr
  hand_all-kind [] s kind = kind
  hand_all-kind (p ∷ ps) s kind =
      hand_all-kind ps (hand_mark pkg_at printed required s p)
        (idnevr-dep pkg_at printed s p pkgmark_mark ∙ kind)

  after_hand :
      (s : PkgmarkSet) (p q : ℕ)
      → s.idnevr ≡ idnevr
      → sees (hand_mark pkg_at printed required s p) q ≡ (q == p || sees s q)
  after_hand s p q kind = marked_after_hand pkg_at printed s p q (rw kind ids)

  hand_all-keeps :
      (ps : List ℕ) (s : PkgmarkSet) (q : ℕ)
      → s.idnevr ≡ idnevr
      → sees s q ≡ true
      → sees (hand_mark_all pkg_at printed required ps s) q ≡ true
  hand_all-keeps [] s q kind h = h
  hand_all-keeps (p ∷ ps) s q kind h =
      hand_all-keeps ps (hand_mark pkg_at printed required s p) q
        (idnevr-dep pkg_at printed s p pkgmark_mark ∙ kind)
        (let e = after_hand s p q kind in ground arith)

  hand_all-marks :
      (ps : List ℕ) (s : PkgmarkSet) (q : ℕ)
      → s.idnevr ≡ idnevr
      → IsAmong q ps
      → sees (hand_mark_all pkg_at printed required ps s) q ≡ true
  hand_all-marks [] s q kind h = absurd h
  hand_all-marks (p ∷ ps) s q kind (inl same) =
      hand_all-keeps ps (hand_mark pkg_at printed required s p) q
        (idnevr-dep pkg_at printed s p pkgmark_mark ∙ kind)
        (let e = after_hand s p q kind in ground arith)
  hand_all-marks (p ∷ ps) s q kind (inr below) =
      hand_all-marks ps (hand_mark pkg_at printed required s p) q
        (idnevr-dep pkg_at printed s p pkgmark_mark ∙ kind) below

  hand_all-only :
      (ps : List ℕ) (s : PkgmarkSet) (q : ℕ)
      → s.idnevr ≡ idnevr
      → sees (hand_mark_all pkg_at printed required ps s) q ≡ true
      → (sees s q ≡ true) ⊎ IsAmong q ps
  hand_all-only [] s q kind h = inl h
  hand_all-only (p ∷ ps) s q kind h =
      elim (hand_all-only ps (hand_mark pkg_at printed required s p) q
        (idnevr-dep pkg_at printed s p pkgmark_mark ∙ kind) h) [
          | inr below ↦ inr (inr below)
          | inl marked ↦ elim (Bool-cases (q == p)) [
            | inl same ↦ inr (inl (ground arith))
            | inr other ↦ inl (let e = after_hand s p q kind in ground arith)
          ]
        ]

  hand_all-dep :
      (ps : List ℕ) (s : PkgmarkSet) (q : ℕ)
      → s.idnevr ≡ idnevr
      → is_dep_marked pkg_at printed required (hand_mark_all pkg_at printed required ps s) q
        ≡ is_dep_marked pkg_at printed required s q
  hand_all-dep [] s q kind = refl
  hand_all-dep (p ∷ ps) s q kind =
      hand_all-dep ps (hand_mark pkg_at printed required s p) q
        (idnevr-dep pkg_at printed s p pkgmark_mark ∙ kind)
      ∙ dep_after_hand pkg_at printed s p q (rw kind ids)

  unseen_at_first : (q : ℕ) → sees (pkgmark_set_new idnevr) q ≡ false
  unfolding pkgmark_isset get
  unseen_at_first q = refl

  -- The packages that were named are marked.
  abbrev pub MarksAll : List ℕ → PkgmarkSet → Type 0
  MarksAll pkgs t = All (λ p. sees t p ≡ true) pkgs

  -- Of each requirement of a marked package some alternative is marked.
  abbrev pub IsClosedSet : PkgmarkSet → Type 0
  IsClosedSet t = (q : ℕ) → (sees t q ≡ false) ⊎ IsMet pkg_at printed required t (required q)

  -- A marked package has been named or is an alternative of a requirement of a marked package.
  abbrev pub IsNeeded : List ℕ → PkgmarkSet → Type 0
  IsNeeded pkgs t =
      (q : ℕ) → (sees t q ≡ false) ⊎ (IsAmong q pkgs ⊎ IsOffered pkg_at printed required t q)

  module _ (pool : List ℕ) (pkgs : List ℕ) where
    abbrev named : PkgmarkSet
    named = hand_mark_all pkg_at printed required pkgs (pkgmark_set_new idnevr)

    named-only : (q : ℕ) → sees named q ≡ true → IsAmong q pkgs
    named-only q h = elim (hand_all-only pkgs (pkgmark_set_new idnevr) q refl h) [
      | inl before ↦ absurd (let e = unseen_at_first q in cc)
      | inr among ↦ among
    ]

    roots_of :
        (ps : List ℕ)
        → ((q : ℕ) → IsAmong q ps → IsAmong q pkgs)
        → All (λ p. IsAmong p pool) ps
        → All
            (λ x.
              (sees named x ≡ true)
              × ((is_dep_marked pkg_at printed required named x ≡ false) × IsAmong x pool))
            ps
    roots_of [] f h = tt
    roots_of (p ∷ ps) f h = (
      (
        hand_all-marks pkgs (pkgmark_set_new idnevr) p refl (f p (inl refl)),
        (
          hand_all-dep pkgs (pkgmark_set_new idnevr) p refl
              ∙ dep_of_marked pkg_at printed required (pkgmark_set_new idnevr) p
                  (unseen_at_first p),
          h.0,
        ),
      ),
      roots_of ps (λ q among. f q (inr among)) h.1,
    )

    all_of : (P : ℕ → Type 0) (ps : List ℕ) → ((q : ℕ) → IsAmong q ps → P q) → All P ps
    all_of P [] f = tt
    all_of P (p ∷ ps) f = (f p (inl refl), all_of P ps (λ q among. f q (inr among)))

-- Where different packages have different identifiers, and nothing outside `pool` is named or
-- required: `packages_mark` with dependencies, on an empty mark set, ends with fuel for one visit
-- more than the pool has packages. Then all named packages are marked; each requirement of a
-- marked package has a marked alternative; and each marked package was named or is an alternative
-- of a requirement of a marked package.
pub packages_mark-IsClosedSet :
    (pkg_at : ℕ → Pkg) (printed : ℕ → Bytes) (required : ℕ → List Reqpkg) (idnevr : Bool)
    (pool pkgs : List ℕ) (ids : IsIdentified pkg_at printed idnevr)
    → IsPool pkg_at printed required pool idnevr ids
    → All (λ p. IsAmong p pool) pkgs
    → (t : PkgmarkSet) × (depmark_packages pkg_at printed required
          (suc (length pool))
          true
          pkgs
          (pkgmark_set_new idnevr)
        ≡ some t)
      × (MarksAll pkg_at printed required idnevr ids pkgs t
          × (IsClosedSet pkg_at printed required idnevr ids t
              × IsNeeded pkg_at printed required idnevr ids pkgs t))
unfolding depmark_packages
packages_mark-IsClosedSet pkg_at printed required idnevr pool pkgs ids pooled inside =
    let s = named pkg_at printed required idnevr ids pool pkgs in
    let sees' : PkgmarkSet → ℕ → Bool = is_marked pkg_at printed required in
    let (t, ends, (m, mets)) =
      visit_all-Started pkg_at printed required pool idnevr ids pooled (suc (length pool)) pkgs s
        (hand_all-kind pkg_at printed required idnevr ids pkgs (pkgmark_set_new idnevr) refl)
        (roots_of pkg_at printed required idnevr ids pool pkgs pkgs (λ q h. h) inside)
        (omega arith) in
    let only : (q : ℕ) → sees' s q ≡ true → IsAmong q pkgs =
      named-only pkg_at printed required idnevr ids pool pkgs in
    (
      t,
      ends,
      (
        all_of pkg_at printed required idnevr ids pool pkgs (λ p. sees' t p ≡ true) pkgs
            (λ q among. m.grows q (
              hand_all-marks pkg_at printed required idnevr ids pkgs (pkgmark_set_new idnevr) q refl
                among)),
        (
          (λ q. elim (Bool-cases (sees' t q)) [
            | inr unseen ↦ inl unseen
            | inl marked ↦ elim (m.closed q marked) [
              | inr met ↦ inr met
              | inl before ↦ inr (
                  All-among (λ x. IsMet pkg_at printed required t (required x)) pkgs q mets
                    (only q before))
            ]
          ]),
          (λ q. elim (Bool-cases (sees' t q)) [
            | inr unseen ↦ inl unseen
            | inl marked ↦ elim (m.offered q marked) [
              | inl before ↦ inr (inl (only q before))
              | inr given ↦ inr given
            ]
          ]),
        ),
      ),
    )
