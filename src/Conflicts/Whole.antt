-- ===== src/Conflicts/Whole.antt =====
-- The results of `pkgset_get_conflicted_packages` and `pkgset_get_requiredby_packages`, element by
-- element.
use mathlib.Core.Path.{subst}
use poldek.Base.{ℕ, ◌≡◌, refl, sym, ap, ◌∙◌, Bool, true, Option, none, some, List, [], ◌∷◌, All}
use poldek.Base.Int.{ℤ}
use poldek.Base.Bytes.{Bytes}
use poldek.Capreq.{Capreq}
use poldek.Pkg.{Pkg}
use poldek.Pkg.Registry.{Registry}
use poldek.Order.Start.{is_member}
use poldek.Arrays.{Some, IsPush, IsBsearch}
use poldek.CapreqIdx.{Ent, capreq_idx_lookup}
use poldek.Conflicts.{
  Cnflpkg, is_conflicting, is_requiring, touch_cnfl, new_cnfl, get_conflicted, conflicted_loop,
  pkgset_get_conflicted_packages, get_reqby, reqby_loop, pkgset_get_requiredby_packages,
}
use poldek.Conflicts.Collected.{items, IsThere?}
use poldek.Conflicts.Gathered.{items-no_empty, gather, gathered}

-- `es` are the elements for the suspects of `cs` that pass the test, and no others.
abbrev pub IsCollected :
    {E : Type 0}
    → (E → ℕ)
    → (ℕ → ℕ → Bool)
    → (Capreq → ℕ → Bool)
    → (Capreq → Option (List ℕ))
    → List Capreq
    → List E
    → Type 0
IsCollected pkg_of same test suspects cs es =
    All (λ c. All (λ s. IsThere? (λ e p. same (pkg_of e) p) (test c s) s es) (items (suspects c)))
      cs
    × All
        (λ e.
          Some
            (λ c. (test c (pkg_of e) ≡ true) × (is_member (pkg_of e) (items (suspects c)) ≡ true))
            cs)
        es

module _ (pkg_at : ℕ → Pkg) (vercmp : Bytes → Bytes → ℤ) (promote_epoch : Bool)
    (find : List Capreq → Bytes → Option ℕ) (registry : Registry) (same : ℕ → ℕ → Bool)
    (same_refl : (p : ℕ) → same p p ≡ true) (idx : List Ent) (pkg : ℕ) where
  abbrev pub listed : Capreq → Option (List ℕ)
  listed c = capreq_idx_lookup c.name idx

  abbrev pub conflicts_with : Capreq → ℕ → Bool
  conflicts_with = is_conflicting pkg_at vercmp promote_epoch find registry pkg

  abbrev pub requires_it : Capreq → ℕ → Bool
  requires_it = is_requiring pkg_at vercmp promote_epoch find registry pkg

  module _ (push : List Cnflpkg → Cnflpkg → List Cnflpkg) (bsearch : List Cnflpkg → ℕ → Option ℕ)
      (pushes : IsPush push) (searches : IsBsearch (λ c p. same c.pkg p) bsearch) where
    conflicted_loop-gather :
        (cs : List Capreq) (re : Option (List Cnflpkg))
        → conflicted_loop pkg_at vercmp promote_epoch find registry idx push bsearch pkg cs re
          ≡ gather
              (λ c. c.pkg)
              same
              same_refl
              push
              bsearch
              pushes
              searches
              new_cnfl
              touch_cnfl
              (λ c s. refl)
              (λ c e. refl)
              conflicts_with
              listed
              cs
              re
    unfolding conflicted_loop get_conflicted gather
    conflicted_loop-gather [] re = refl
    conflicted_loop-gather (c ∷ cs) re =
        conflicted_loop-gather cs
          (get_conflicted pkg_at vercmp promote_epoch find registry idx push bsearch pkg c re)

    -- Of the packages that the index lists under the names of the package's conflicts, each that
    -- passes the tests of `get_conflicted` for that conflict has an element with its `pkg_id`, and
    -- the package of every element is one that passes them. Pushing onto the array keeps what it
    -- has, and its search finds only elements with the `pkg_id` asked for.
    pub pkgset_get_conflicted_packages-IsCollected :
        (cs : List Capreq)
        → IsCollected
            (λ c. c.pkg)
            same
            conflicts_with
            listed
            cs
            (items (
              pkgset_get_conflicted_packages pkg_at vercmp promote_epoch find registry idx push
                bsearch pkg
                (some cs)))
    unfolding pkgset_get_conflicted_packages
    pkgset_get_conflicted_packages-IsCollected cs =
        let re =
          conflicted_loop pkg_at vercmp promote_epoch find registry idx push bsearch pkg cs none in
        subst (IsCollected (λ c. c.pkg) same conflicts_with listed cs)
          (sym (items-no_empty re ∙ ap items (conflicted_loop-gather cs none)))
          (gathered (λ c. c.pkg) same same_refl push bsearch pushes searches new_cnfl touch_cnfl
            (λ c s. refl) (λ c e. refl) conflicts_with listed cs)

  module _ (push : List ℕ → ℕ → List ℕ) (bsearch : List ℕ → ℕ → Option ℕ) (pushes : IsPush push)
      (searches : IsBsearch same bsearch) where
    reqby_loop-gather :
        (cs : List Capreq) (re : Option (List ℕ))
        → reqby_loop pkg_at vercmp promote_epoch find registry idx push bsearch pkg cs re
          ≡ gather
              (λ p. p)
              same
              same_refl
              push
              bsearch
              pushes
              searches
              (λ c p. p)
              (λ c p. p)
              (λ c s. refl)
              (λ c e. refl)
              requires_it
              listed
              cs
              re
    unfolding reqby_loop get_reqby gather
    reqby_loop-gather [] re = refl
    reqby_loop-gather (c ∷ cs) re =
        reqby_loop-gather cs
          (get_reqby pkg_at vercmp promote_epoch find registry idx push bsearch pkg c re)

    -- Of the packages that the index lists as requiring the names of the package's capabilities,
    -- each that passes the tests of `get_reqby` for that capability is in the array, or another that
    -- `n_array_bsearch` takes for it, and every package in the array is one that passes them.
    -- Pushing onto the array keeps what it has.
    pub pkgset_get_requiredby_packages-IsCollected :
        (cs : List Capreq)
        → IsCollected
            (λ p. p)
            same
            requires_it
            listed
            cs
            (items (
              pkgset_get_requiredby_packages pkg_at vercmp promote_epoch find registry idx push
                bsearch pkg cs))
    unfolding pkgset_get_requiredby_packages
    pkgset_get_requiredby_packages-IsCollected cs =
        let re =
          reqby_loop pkg_at vercmp promote_epoch find registry idx push bsearch pkg cs none in
        subst (IsCollected (λ p. p) same requires_it listed cs)
          (sym (items-no_empty re ∙ ap items (reqby_loop-gather cs none)))
          (gathered (λ p. p) same same_refl push bsearch pushes searches (λ c p. p) (λ c p. p)
            (λ c s. refl) (λ c e. refl) requires_it listed cs)
