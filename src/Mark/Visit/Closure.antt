-- ===== src/Mark/Visit/Closure.antt =====
-- `visit_mark_reqs` ends within as much fuel as there are unmarked packages, and what it owes.
pub mod Packages
use mathlib.Core.List.{◌++◌}
use poldek.Base.{
  ℕ, zero, suc, ◌+◌, ◌^◌, ◌-◌, ◌≤◌, ◌<◌, ◌≡◌, ◌≢◌, refl, sym, ap, ◌∙◌, ◌⊎◌, inl, inr, Bool, true,
  false, not, ◌||◌, Option, none, some, List, [], ◌∷◌, arith, All, length, ltb, ◌==◌, if◌then◌else◌,
  Bool-cases, Option-cases,
}
use poldek.Base.Bytes.{Bytes}
use poldek.Pkg.{Pkg}
use poldek.Order.{Rp, Reqpkg, edges, alternatives}
use poldek.Order.Colors.{IsAmong}
use poldek.Order.Start.{All-among}
use poldek.Mark.{
  PkgmarkSet, PkgMark, get, package_id, has_any, pkgmark_any, pkgmark_dep, pkgmark_isset,
}
use poldek.Mark.Visit.{
  others, pkgs_of, is_marked, is_dep_marked, dep_mark, any_marked, fewest, tomark_of, visit_req,
  visit_reqs, visit_mark_reqs, pkgmark_pkg_drags,
}
use poldek.Mark.Visit.Marked.{IsIdentified, marked_after_dep, dep_after_dep, idnevr-dep}
use poldek.Mark.Visit.Step.{
  M, D, is_met, IsMet, IsOffered, Grows, IsMet-grows, Marking, Marking-refl, Marking-trans,
  Marking-offered, is_met-Grows,
}

pub IsAmong-eq : {x y : ℕ} (ps : List ℕ) → x ≡ y → IsAmong y ps → IsAmong x ps
IsAmong-eq [] e h = h
IsAmong-eq (p ∷ ps) e (inl same) = inl (e ∙ same)
IsAmong-eq (p ∷ ps) e (inr below) = inr (IsAmong-eq ps e below)

IsAmong-later : {x : ℕ} (p q : ℕ) (ps : List ℕ) → IsAmong x (p ∷ ps) → IsAmong x (p ∷ q ∷ ps)
IsAmong-later p q ps (inl first) = inl first
IsAmong-later p q ps (inr below) = inr (inr below)

module _ (pkg_at : ℕ → Pkg) (printed : ℕ → Bytes) (required : ℕ → List Reqpkg) where
  abbrev M' : PkgmarkSet → ℕ → Bool
  M' = M pkg_at printed required

  pub dep_of_marked :
      (s : PkgmarkSet) (p : ℕ)
      → is_marked pkg_at printed required s p ≡ false
      → is_dep_marked pkg_at printed required s p ≡ false
  unfolding pkgmark_isset
  dep_of_marked s p h = elim (Option-cases (get (package_id pkg_at printed s.idnevr p) s.ht)) [
    | inl absent ↦ ground arith
    | inr (m, found) ↦ ground arith
  ]

  fewest-fewer :
      (s : PkgmarkSet) (p n q : ℕ) (qs : List ℕ)
      → ltb (pkgmark_pkg_drags pkg_at printed required s 2 q) n ≡ true
      → fewest pkg_at printed required s p n (q ∷ qs)
        ≡ fewest pkg_at printed required s q (pkgmark_pkg_drags pkg_at printed required s 2 q) qs
  unfolding fewest
  fewest-fewer s p n q qs h = rw (fewest, h) refl

  fewest-more :
      (s : PkgmarkSet) (p n q : ℕ) (qs : List ℕ)
      → ltb (pkgmark_pkg_drags pkg_at printed required s 2 q) n ≡ false
      → fewest pkg_at printed required s p n (q ∷ qs) ≡ fewest pkg_at printed required s p n qs
  unfolding fewest
  fewest-more s p n q qs h = rw (fewest, h) refl

  fewest-IsAmong :
      (s : PkgmarkSet) (p n : ℕ) (ps : List ℕ)
      → IsAmong (fewest pkg_at printed required s p n ps) (p ∷ ps)
  unfolding fewest
  fewest-IsAmong s p n [] = inl refl
  fewest-IsAmong s p n (q ∷ qs) =
      let dragged = pkgmark_pkg_drags pkg_at printed required s 2 q in
      elim (Bool-cases (ltb dragged n)) [
        | inl fewer ↦
            IsAmong-eq (p ∷ q ∷ qs) (fewest-fewer s p n q qs fewer)
              (inr (fewest-IsAmong s q dragged qs))
        | inr more ↦
            IsAmong-eq (p ∷ q ∷ qs) (fewest-more s p n q qs more)
              (IsAmong-later p q qs (fewest-IsAmong s p n qs))
      ]

  pub tomark_of-IsAmong :
      (s : PkgmarkSet) (p : ℕ) (ps : List ℕ)
      → IsAmong (tomark_of pkg_at printed required s p ps) (p ∷ ps)
  unfolding tomark_of
  tomark_of-IsAmong s p [] = inl refl
  tomark_of-IsAmong s p (q ∷ qs) = elim (fewest-IsAmong s p (2 ^ 31 - 2) (p ∷ q ∷ qs)) [
    | inl first ↦ inl first
    | inr below ↦ below
  ]

  pub any_marked-unmarked :
      (s : PkgmarkSet) (x : ℕ) (ps : List ℕ)
      → any_marked pkg_at printed required s ps ≡ false
      → IsAmong x ps
      → M' s x ≡ false
  unfolding any_marked
  any_marked-unmarked s x [] h among = absurd among
  any_marked-unmarked s x (p ∷ ps) h (inl same) = rw same (ground arith)
  any_marked-unmarked s x (p ∷ ps) h (inr below) = any_marked-unmarked s x ps (ground arith) below

  pub any_marked-marked :
      (s : PkgmarkSet) (x : ℕ) (ps : List ℕ)
      → M' s x ≡ true
      → IsAmong x ps
      → any_marked pkg_at printed required s ps ≡ true
  unfolding any_marked
  any_marked-marked s x [] h among = absurd among
  any_marked-marked s x (p ∷ ps) h (inl same) =
      let here : M' s p ≡ true = rw (← same) h in ground arith
  any_marked-marked s x (p ∷ ps) h (inr below) =
      let rest = any_marked-marked s x ps h below in ground arith

  -- The packages of the pool that are not marked.
  unfoldable pub unmarked : PkgmarkSet → List ℕ → ℕ
  unmarked s [] = 0
  unmarked s (p ∷ ps) = (if M' s p then 0 else 1) + unmarked s ps

  pub unmarked-le-length : (s : PkgmarkSet) (ps : List ℕ) → unmarked s ps ≤ length ps
  unfolding unmarked
  unmarked-le-length s [] = omega arith
  unmarked-le-length s (p ∷ ps) = ground (arith, unmarked-le-length s ps)

  pub unmarked-le :
      (s t : PkgmarkSet) (ps : List ℕ)
      → Grows pkg_at printed required s t
      → unmarked t ps ≤ unmarked s ps
  unfolding unmarked
  unmarked-le s t [] g = omega arith
  unmarked-le s t (p ∷ ps) g = ground (arith, g p, unmarked-le s t ps g)

  pub unmarked-lt :
      (s t : PkgmarkSet) (p : ℕ) (ps : List ℕ)
      → Grows pkg_at printed required s t
      → M' s p ≡ false
      → M' t p ≡ true
      → IsAmong p ps
      → unmarked t ps < unmarked s ps
  unfolding unmarked
  unmarked-lt s t p [] g h k among = absurd among
  unmarked-lt s t p (q ∷ qs) g h k (inl same) =
      let h' : M' s q ≡ false = rw (← same) h in
      let k' : M' t q ≡ true = rw (← same) k in ground (arith, unmarked-le s t qs g)
  unmarked-lt s t p (q ∷ qs) g h k (inr below) =
      ground (arith, g q, unmarked-lt s t p qs g h k below)
