-- ===== src/Pkgset/Tests.antt =====
-- Instances of the theorem about package sets.
use poldek.Base.{ℕ, ◌≡◌, refl, Bool, true, Option, none, some, List, [], ◌∷◌, arith, ◌==◌, ltb}
use poldek.Base.Int.{pos, sub_ℕ}
use poldek.Base.Bytes.{Bytes, codes, strcmp}
use poldek.Capreq.{Capreq, no_flags, no_rel}
use poldek.Capreq.New.{capreq_new, capreq_fill}
use poldek.Pkg.{Pkg, plain_pkg}
use poldek.Pkg.Selfcap.{CapArrays, capreq_arr_find, pkg_add_selfcap}
use poldek.Isort.{isort}
use poldek.Arrays.Linear.{push_front, linear}
use poldek.CapreqIdx.{
  Ent, ptr_diff, idx_ent_sort, idx_ent_contains, add_to_ent, insert, capreq_idx_add,
  capreq_idx_lookup, answer,
}
use poldek.CapreqIdx.Search.{IsTold}
use poldek.CapreqIdx.Found.{found, adds}
use poldek.Pkgset.{
  Pkgset, sort_pkg_caps, map_pkgs, add_self_cap, calls_of, index_package_caps, index_caps,
  pkgset_index_caps, pkgset_add_package,
}
use poldek.Pkgset.Indexed.{IsIndexed}
use poldek.Pkgset.Calls.{
  PkgsetOp, index_caps_op, add_op, IsPkgPush, fresh, perform_all, perform_all-IsIndexed,
}

abbrev virtual : Capreq
virtual = record {
  flags = no_flags;
  relflags = no_rel;
  name = codes "v";
  ep_ofs = 0;
  ver_ofs = 0;
  rel_ofs = 0;
  buff = 0 ∷ [];
}

-- Every package is foo, and has the capability v.
abbrev pkg_at : ℕ → Pkg
pkg_at p = record (plain_pkg (codes "foo") (pos 0) (p ∷ []) (codes "1")) {
  caps = some (virtual ∷ []);
}

-- Arrays that are never sorted, and never searched with success.
abbrev heaps : CapArrays
heaps = record {
  is_sorted = λ caps. true;
  sort = λ caps. caps;
  isort = λ caps. caps;
  uniq = λ caps. caps;
  push = λ caps cap. cap ∷ caps;
  bsearch_idx = λ caps name. none;
  in_na = λ pkg. true;
}

abbrev same : ℕ → ℕ → Bool
same p q = p == q

abbrev low : ℕ → Bool
low p = ltb p 8

low-IsTold : IsTold sub_ℕ low
unfolding ptr_diff
low-IsTold a b ha hb e = ground (arith, ha, hb, e)

push_front-IsPkgPush : IsPkgPush push_front
push_front-IsPkgPush ps p = ((λ q. refl), (λ P h k. (k, h)))

abbrev calls : List PkgsetOp
calls = add_op 7 ∷ index_caps_op ∷ add_op 2 ∷ add_op 7 ∷ []

perform_all-IsIndexed_example :
    IsIndexed (perform_all sub_ℕ heaps push_front (linear same) calls (fresh pkg_at (5 ∷ [])))
perform_all-IsIndexed_example =
    perform_all-IsIndexed sub_ℕ heaps push_front (linear same) low low-IsTold calls pkg_at (5 ∷ [])
      push_front-IsPkgPush (refl, tt) (refl, (tt, (refl, (refl, tt))))

abbrev found_in : Bytes → Option (List Ent) → List ℕ
found_in name none = []
found_in name (some idx) = found name idx

abbrev after_calls : Pkgset
after_calls = perform_all sub_ℕ heaps push_front (linear same) calls (fresh pkg_at (5 ∷ []))

all_found : found_in (codes "v") after_calls.cap_idx ≡ 2 ∷ 5 ∷ 7 ∷ []
unfolding perform_all pkgset_index_caps pkgset_add_package sort_pkg_caps map_pkgs add_self_cap
    pkg_add_selfcap capreq_arr_find capreq_new capreq_fill index_caps index_package_caps calls_of
    adds capreq_idx_add insert add_to_ent idx_ent_contains idx_ent_sort isort ptr_diff
    capreq_idx_lookup answer strcmp
all_found = refl

-- The packages that were in the set when it was indexed have their own capability.
own_found : found_in (codes "foo") after_calls.cap_idx ≡ 5 ∷ 7 ∷ []
unfolding perform_all pkgset_index_caps pkgset_add_package sort_pkg_caps map_pkgs add_self_cap
    pkg_add_selfcap capreq_arr_find capreq_new capreq_fill index_caps index_package_caps calls_of
    adds capreq_idx_add insert add_to_ent idx_ent_contains idx_ent_sort isort ptr_diff
    capreq_idx_lookup answer strcmp
own_found = refl
