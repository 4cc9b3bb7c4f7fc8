-- ===== src/Pkgset.antt =====
-- pkgset.c: a set of packages with its indexes, made on demand and kept up to date. A package is the
-- number of its address, and `pkg_at` is what is stored there. `ptr_sub` is the compiled subtraction
-- of two such addresses, as in CapreqIdx. An index is `none` until it has been made. The arrays of
-- trurlib are parameters. Removal, the index of files with its assertion, and reference counts are
-- left out.
pub mod Indexed
pub mod Calls
mod Tests
use poldek.Base.{ℕ, Bool, true, false, Option, none, some, List, [], ◌∷◌, ◌==◌, if◌then◌else◌}
use poldek.Base.Int.{ℤ}
use poldek.Capreq.{Capreq}
use poldek.Pkg.{Pkg}
use poldek.Pkg.Selfcap.{CapArrays, pkg_add_selfcap}
use poldek.CapreqIdx.{Ent, IdxType, idx_cap, idx_req, capreq_idx_add}
use poldek.CapreqIdx.Found.{Add, adds}

-- `req_idx`, `obs_idx` and `cnfl_idx`, which are made together.
pub record ReqIdxs : Type 0 where
  pub req_idx : List Ent
  pub obs_idx : List Ent
  pub cnfl_idx : List Ent

-- `struct pkgset`, and the memory of the packages, which the operations change.
pub record Pkgset : Type 0 where
  pub pkg_at : ℕ → Pkg
  pub pkgs : List ℕ
  pub cap_idx : Option (List Ent)
  pub reqs : Option ReqIdxs

-- The calls of `capreq_idx_add` for the capabilities of a package.
unfoldable pub calls_of : ℕ → List Capreq → List Add
calls_of p [] = []
calls_of p (cap ∷ caps) = record { capname = cap.name; pkg = p } ∷ calls_of p caps

abbrev pub list_of : Option (List Capreq) → List Capreq
list_of none = []
list_of (some caps) = caps

-- `sort_pkg_caps`
unfoldable pub sort_pkg_caps : (List Capreq → List Capreq) → Pkg → Pkg
sort_pkg_caps sort pkg = elim pkg.caps [
  | none ↦ pkg
  | some caps ↦ record pkg { caps = some (sort caps) }
]

-- `n_array_map`, for a function that changes a package in its place.
unfoldable pub map_pkgs : (Pkg → Pkg) → List ℕ → (ℕ → Pkg) → ℕ → Pkg
map_pkgs f [] pkg_at = pkg_at
map_pkgs f (p ∷ ps) pkg_at = map_pkgs f ps (λ q. if q == p then f (pkg_at p) else pkg_at q)

-- `add_self_cap`
unfoldable pub add_self_cap : CapArrays → List ℕ → (ℕ → Pkg) → ℕ → Pkg
unfolding map_pkgs
add_self_cap arrays pkgs pkg_at = map_pkgs (pkg_add_selfcap arrays) pkgs pkg_at

module _ (ptr_sub : ℕ → ℕ → ℤ) (pkg_at : ℕ → Pkg) where
  unfoldable pub index_package_caps : ℕ → List Ent → List Ent
  unfolding calls_of
  index_package_caps p idx = adds ptr_sub idx_cap (calls_of p (list_of (pkg_at p).caps)) idx

  -- The loops of `index_package_reqs`.
  add_reqs : ℕ → List Capreq → ReqIdxs → ReqIdxs
  add_reqs p [] t = t
  add_reqs p (req ∷ reqs) t =
      let next =
        if req.flags.rpmlib
        then t
        else record t { req_idx = capreq_idx_add ptr_sub idx_req req.name p t.req_idx } in
      add_reqs p reqs next

  add_cnfls : ℕ → List Capreq → ReqIdxs → ReqIdxs
  add_cnfls p [] t = t
  add_cnfls p (cnfl ∷ cnfls) t =
      let next =
        if cnfl.flags.prereq
        then record t { obs_idx = capreq_idx_add ptr_sub idx_req cnfl.name p t.obs_idx }
        else record t { cnfl_idx = capreq_idx_add ptr_sub idx_req cnfl.name p t.cnfl_idx } in
      add_cnfls p cnfls next

  unfoldable pub index_package_reqs : ℕ → ReqIdxs → ReqIdxs
  unfolding add_reqs add_cnfls
  index_package_reqs p t =
      add_cnfls p (list_of (pkg_at p).cnfls) (add_reqs p (list_of (pkg_at p).reqs) t)

  unfoldable pub index_caps : List ℕ → List Ent → List Ent
  unfolding index_package_caps
  index_caps [] idx = idx
  index_caps (p ∷ ps) idx = index_caps ps (index_package_caps p idx)

  unfoldable pub index_reqs : List ℕ → ReqIdxs → ReqIdxs
  unfolding index_package_reqs
  index_reqs [] t = t
  index_reqs (p ∷ ps) t = index_reqs ps (index_package_reqs p t)

  -- Indexes that are there stay as they are.
  unfoldable pub reqs_made : List ℕ → Option ReqIdxs → Option ReqIdxs
  unfolding index_reqs
  reqs_made pkgs (some t) = some t
  reqs_made pkgs none =
      some (index_reqs pkgs (record { req_idx = []; obs_idx = []; cnfl_idx = [] }))

  abbrev pub caps_indexed : ℕ → Option (List Ent) → Option (List Ent)
  caps_indexed p none = none
  caps_indexed p (some idx) = some (index_package_caps p idx)

  abbrev reqs_indexed : ℕ → Option ReqIdxs → Option ReqIdxs
  reqs_indexed p none = none
  reqs_indexed p (some t) = some (index_package_reqs p t)

module _ (ptr_sub : ℕ → ℕ → ℤ) (arrays : CapArrays) where
  -- `pkgset__index_caps`; an index that is there stays as it is.
  abbrev pub caps_made : Option (List Ent) → Pkgset → Pkgset
  caps_made (some idx) ps = ps
  caps_made none ps =
      let pkg_at =
        map_pkgs (sort_pkg_caps arrays.sort) ps.pkgs (add_self_cap arrays ps.pkgs ps.pkg_at) in
      record ps { pkg_at = pkg_at; cap_idx = some (index_caps ptr_sub pkg_at ps.pkgs []) }

  unfoldable pub pkgset_index_caps : Pkgset → Pkgset
  pkgset_index_caps ps = caps_made ps.cap_idx ps

module _ (ptr_sub : ℕ → ℕ → ℤ) where
  -- `pkgset__index_reqs`
  unfoldable pub pkgset_index_reqs : Pkgset → Pkgset
  pkgset_index_reqs ps = record ps { reqs = reqs_made ptr_sub ps.pkg_at ps.pkgs ps.reqs }

  module _ (push : List ℕ → ℕ → List ℕ) (bsearch : List ℕ → ℕ → Option ℕ) where
    abbrev pub add_new : Option ℕ → Pkgset → ℕ → Pkgset
    add_new (some i) ps p = ps
    add_new none ps p = record ps {
      pkgs = push ps.pkgs p;
      cap_idx = caps_indexed ptr_sub ps.pkg_at p ps.cap_idx;
      reqs = reqs_indexed ptr_sub ps.pkg_at p ps.reqs;
    }

    -- `pkgset_add_package` but for the value that it returns. A package that is added to a set with
    -- indexes is given no capability of its own.
    unfoldable pub pkgset_add_package : Pkgset → ℕ → Pkgset
    pkgset_add_package ps p = add_new (bsearch ps.pkgs p) ps p
