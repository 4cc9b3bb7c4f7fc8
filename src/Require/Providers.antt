-- ===== src/Require/Providers.antt =====
-- `psreq_match_pkgs` against the list of the packages that satisfy the requirement.
use mathlib.Core.Path.{subst}
use mathlib.Core.List.{append-nil, append_assoc}
use poldek.Base.{
  ℕ, suc, ◌≡◌, refl, sym, ap, ◌∙◌, inl, inr, Bool, true, false, not, ◌||◌, Option, none, some, List,
  [], ◌∷◌, ◌++◌, length, arith, ltb, if◌then◌else◌, Bool-cases,
}
use poldek.Base.Int.{ℤ}
use poldek.Base.Bytes.{Bytes}
use poldek.Capreq.{Capreq}
use poldek.Pkg.{Pkg}
use poldek.Pkg.Registry.{Registry}
use poldek.Capreq.Compare.{IsVercmp}
use poldek.Pkg.Cmp.Laws.{HasEpoch}
use poldek.Order.Advance.{count}
use poldek.Order.Start.{is_member}
use poldek.Isort.{isort, IsOrdered}
use poldek.Require.{
  is_other, is_match, match_loop, psreq_match_pkgs, cmp_at, isort_pkgs, isort_many,
}
use poldek.Require.Sorted.{IsBefore, IsOrdered-isort_pkgs, count-isort_pkgs}

abbrev pub keep : (ℕ → Bool) → List ℕ → List ℕ
keep test [] = []
keep test (p ∷ ps) = let rest = keep test ps in if test p then p ∷ rest else rest

-- The package itself is among those that satisfy, or there is no package and one satisfies.
abbrev pub is_self : Option ℕ → List ℕ → Bool
is_self none [] = false
is_self none (p ∷ ps) = true
is_self (some p) ps = is_member p ps

abbrev pub is_nil : List ℕ → Bool
is_nil [] = true
is_nil (p ∷ ps) = false

is_self-cons :
    (pkg : Option ℕ) (p : ℕ) (ps : List ℕ)
    → is_self pkg (p ∷ ps) ≡ (if is_other pkg p then is_self pkg ps else true)
is_self-cons none p ps = refl
is_self-cons (some q) p ps = ground arith

count-or_nil :
    (q : ℕ) (b : Bool) (ps : List ℕ)
    → count q (if b then [] else ps) ≡ (if b then 0 else count q ps)
unfolding count
count-or_nil q true ps = refl
count-or_nil q false ps = refl

many : (n : ℕ) → ltb 1 (suc (suc n)) ≡ true
many n = ground arith

-- One package need not be sorted.
isort_many-eq : (cmp : ℕ → ℕ → ℤ) (ps : List ℕ) → isort_many cmp ps ≡ isort_pkgs cmp ps
unfolding isort_many isort_pkgs isort
isort_many-eq cmp [] = refl
isort_many-eq cmp (p ∷ []) = refl
isort_many-eq cmp (p ∷ q ∷ ps) =
    ap (λ b. if b then isort_pkgs cmp (p ∷ q ∷ ps) else p ∷ q ∷ ps) (many (length ps))

module _ (pkg_at : ℕ → Pkg) (vercmp : Bytes → Bytes → ℤ) (promote_epoch : Bool)
    (find : List Capreq → Bytes → Option ℕ) where
  abbrev pub providers : Capreq → Bool → List ℕ → List ℕ
  providers req strict ps = keep (is_match pkg_at vercmp promote_epoch find req strict) ps

  matches-match_loop :
      (pkg : Option ℕ) (req : Capreq) (strict : Bool) (ps acc : List ℕ) (n : ℕ)
      → (match_loop pkg_at vercmp promote_epoch find pkg req strict ps acc n).matches
        ≡ (if is_self pkg (providers req strict ps) then [] else acc ++ providers req strict ps)
  unfolding match_loop
  matches-match_loop none req strict [] acc n = sym (append-nil acc)
  matches-match_loop (some q) req strict [] acc n = sym (append-nil acc)
  matches-match_loop pkg req strict (p ∷ ps) acc n =
      elim (Bool-cases (is_match pkg_at vercmp promote_epoch find req strict p)) [
        | inr miss ↦ rw (match_loop, miss) (matches-match_loop pkg req strict ps acc n)
        | inl hit ↦ elim (Bool-cases (is_other pkg p)) [
          | inr self ↦ rw (match_loop, hit, is_self-cons pkg p (providers req strict ps), self) refl
          | inl other ↦
              rw (match_loop, hit, is_self-cons pkg p (providers req strict ps), other)
                (matches-match_loop pkg req strict ps (acc ++ p ∷ []) (suc n)
                  ∙ ap (λ xs. if is_self pkg (providers req strict ps) then [] else xs)
                      (append_assoc acc (p ∷ []) (providers req strict ps)))
        ]
      ]

  nmatch-match_loop :
      (pkg : Option ℕ) (req : Capreq) (strict : Bool) (ps acc : List ℕ) (n : ℕ)
      → ltb 0 ((match_loop pkg_at vercmp promote_epoch find pkg req strict ps acc n).nmatch)
        ≡ (ltb 0 n || not (is_nil (providers req strict ps)))
  unfolding match_loop
  nmatch-match_loop pkg req strict [] acc n = ground arith
  nmatch-match_loop pkg req strict (p ∷ ps) acc n =
      elim (Bool-cases (is_match pkg_at vercmp promote_epoch find req strict p)) [
        | inr miss ↦ rw (match_loop, miss) (nmatch-match_loop pkg req strict ps acc n)
        | inl hit ↦ elim (Bool-cases (is_other pkg p)) [
          | inr self ↦ rw (match_loop, hit, self) (ground arith)
          | inl other ↦
              rw (match_loop, hit, other)
                (nmatch-match_loop pkg req strict ps (acc ++ p ∷ []) (suc n) ∙ ground arith)
        ]
      ]

  module _ (registry : Registry) (multilib : Bool) where
    -- `psreq_match_pkgs` counts no match exactly if no suspect satisfies the requirement. Its
    -- matches are all the suspects that do, as often as they are suspects, unless the package
    -- itself is among them, or they are some and there is no package: then there are no matches.
    -- No match stands behind one that `pkg_cmp_name_evr_rev` puts after it. The version comparison
    -- is a preorder and the epochs are not negative.
    pub psreq_match_pkgs-providers :
        (pkg : Option ℕ) (req : Capreq) (strict : Bool) (ps : List ℕ)
        → IsVercmp vercmp
        → ((p : ℕ) → HasEpoch (pkg_at p))
        → let r =
            psreq_match_pkgs pkg_at vercmp promote_epoch find registry multilib pkg req strict ps in
          let found = providers req strict ps in
          (ltb 0 r.nmatch ≡ not (is_nil found))
          × (((q : ℕ) → count q r.matches ≡ (if is_self pkg found then 0 else count q found))
              × IsOrdered (IsBefore pkg_at vercmp registry multilib) r.matches)
    unfolding psreq_match_pkgs
    psreq_match_pkgs-providers pkg req strict ps h epochs =
        let cmp = cmp_at pkg_at vercmp registry multilib in
        let found = providers req strict ps in
        let loop = match_loop pkg_at vercmp promote_epoch find pkg req strict ps [] 0 in
        let same : isort_many cmp loop.matches ≡ isort_pkgs cmp loop.matches =
          isort_many-eq cmp loop.matches in
        (
          nmatch-match_loop pkg req strict ps [] 0,
          (
            λ q.
                ap (count q) same
                ∙ count-isort_pkgs cmp q loop.matches
                ∙ ap (count q) (matches-match_loop pkg req strict ps [] 0)
                ∙ count-or_nil q (is_self pkg found) found,
            subst (IsOrdered (IsBefore pkg_at vercmp registry multilib)) (sym same)
                (IsOrdered-isort_pkgs pkg_at vercmp registry multilib h epochs loop.matches),
          ),
        )
