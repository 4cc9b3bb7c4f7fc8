-- ===== src/Pkgset/Calls.antt =====
-- Sequences of calls on a set of packages.
use poldek.Base.{ℕ, ◌≡◌, refl, ◌||◌, Bool, true, Option, none, some, List, [], ◌∷◌, All, ◌==◌}
use poldek.Base.Int.{ℤ}
use poldek.Pkg.{Pkg}
use poldek.Pkg.Selfcap.{CapArrays}
use poldek.Order.Start.{is_member}
use poldek.CapreqIdx.{Ent}
use poldek.CapreqIdx.Search.{IsTold}
use poldek.Pkgset.{
  Pkgset, add_new, caps_made, pkgset_index_caps, pkgset_index_reqs, pkgset_add_package,
}
use poldek.Pkgset.Indexed.{IsIndexed, IsIndexed-caps_made, IsIndexed-add}

pub data PkgsetOp : Type 0 where
  index_caps_op : PkgsetOp
  index_reqs_op : PkgsetOp
  add_op : ℕ → PkgsetOp

-- `n_array_push` adds the package and keeps the others.
abbrev pub IsPkgPush : (List ℕ → ℕ → List ℕ) → Type 1
IsPkgPush push =
    (ps : List ℕ) (p : ℕ)
    → ((q : ℕ) → is_member q (push ps p) ≡ (q == p || is_member q ps))
      × ((P : ℕ → Type 0) → All P ps → P p → All P (push ps p))

-- A set without indexes.
abbrev pub fresh : (ℕ → Pkg) → List ℕ → Pkgset
fresh pkg_at pkgs = record { pkg_at = pkg_at; pkgs = pkgs; cap_idx = none; reqs = none }

module _ (ptr_sub : ℕ → ℕ → ℤ) (arrays : CapArrays) (push : List ℕ → ℕ → List ℕ)
    (bsearch : List ℕ → ℕ → Option ℕ) where
  abbrev pub perform : PkgsetOp → Pkgset → Pkgset
  perform index_caps_op ps = pkgset_index_caps ptr_sub arrays ps
  perform index_reqs_op ps = pkgset_index_reqs ptr_sub ps
  perform (add_op p) ps = pkgset_add_package ptr_sub push bsearch ps p

  unfoldable pub perform_all : List PkgsetOp → Pkgset → Pkgset
  perform_all [] ps = ps
  perform_all (op ∷ ops) ps = perform_all ops (perform op ps)

  module _ (near : ℕ → Bool) (told : IsTold ptr_sub near) where
    -- The package of a call is one of those that the subtraction tells apart.
    abbrev pub IsNearOp : PkgsetOp → Type 0
    IsNearOp index_caps_op = Unit
    IsNearOp index_reqs_op = Unit
    IsNearOp (add_op p) = near p ≡ true

    -- What the calls keep.
    abbrev IsKept : Pkgset → Type 0
    IsKept ps = All (λ p. near p ≡ true) ps.pkgs × IsIndexed ps

    IsKept-add :
        (o : Option ℕ) (ps : Pkgset) (p : ℕ)
        → IsPkgPush push
        → near p ≡ true
        → IsKept ps
        → IsKept (add_new ptr_sub push bsearch o ps p)
    IsKept-add (some i) ps p pushes here h = h
    IsKept-add none ps p pushes here h = (
      (pushes ps.pkgs p).1 (λ x. near x ≡ true) h.0 here,
      IsIndexed-add ptr_sub near told ps.pkg_at push ps.pkgs p ps.cap_idx (pushes ps.pkgs p).0 h.0
          here h.1,
    )

    near-caps_made :
        (o : Option (List Ent)) (ps : Pkgset)
        → All (λ p. near p ≡ true) ps.pkgs
        → All (λ p. near p ≡ true) (caps_made ptr_sub arrays o ps).pkgs
    near-caps_made none ps h = h
    near-caps_made (some idx) ps h = h

    IsKept-perform :
        (op : PkgsetOp) (ps : Pkgset)
        → IsPkgPush push
        → IsNearOp op
        → IsKept ps
        → IsKept (perform op ps)
    unfolding pkgset_index_caps pkgset_index_reqs pkgset_add_package
    IsKept-perform index_caps_op ps pushes here h = (
      near-caps_made ps.cap_idx ps h.0,
      IsIndexed-caps_made ptr_sub near told arrays ps.cap_idx ps h.0 refl h.1,
    )
    IsKept-perform index_reqs_op ps pushes here h = h
    IsKept-perform (add_op p) ps pushes here h = IsKept-add (bsearch ps.pkgs p) ps p pushes here h

    -- After any calls of `pkgset__index_caps`, `pkgset__index_reqs` and `pkgset_add_package`, in any
    -- order, on a set without indexes: when the index of capabilities has been made, it lists for
    -- each name the packages of the set that have a capability of the name, as their arrays are after
    -- the calls, and no other packages; none for elf(buildid). This holds whatever trurlib does to
    -- the arrays of capabilities, and whatever the compiled subtraction of pointers gives, as long as
    -- it gives no `int` of zero for two different packages of the set and of the calls. Pushing onto
    -- the array of packages adds the package and keeps the others.
    pub perform_all-IsIndexed :
        (ops : List PkgsetOp) (pkg_at : ℕ → Pkg) (pkgs : List ℕ)
        → IsPkgPush push
        → All (λ p. near p ≡ true) pkgs
        → All IsNearOp ops
        → IsIndexed (perform_all ops (fresh pkg_at pkgs))
    unfolding perform_all
    perform_all-IsIndexed ops pkg_at pkgs pushes all inside =
        (keep ops (fresh pkg_at pkgs) inside (all, tt)).1
      where
        keep :
            (ops : List PkgsetOp) (ps : Pkgset)
            → All IsNearOp ops
            → IsKept ps
            → IsKept (perform_all ops ps)
        keep [] ps inside h = h
        keep (op ∷ ops) ps inside h =
            keep ops (perform op ps) inside.1 (IsKept-perform op ps pushes inside.0 h)
