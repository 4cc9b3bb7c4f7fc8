-- ===== src/Lib.antt =====
-- poldek: a manager of RPM packages. This library models the parts that decide which package
-- meets which requirement and in which order packages are taken.
--
-- A package (pkg.h) has a name, an epoch, a version, a release, an architecture, and sorted arrays
-- of what it provides, requires, and conflicts with or obsoletes. Each entry of these arrays is a
-- `struct capreq` (capreq.h). Comparisons (pkgcmp.c, capreq.c) sort the arrays and packages;
-- matching (pkg.c) decides by them whether a requirement is met; ordering (pkgset-order.c) sorts
-- packages by the packages that they require. An index (capreqidx.c) leads from the name of a
-- requirement to the packages that may meet it; pkgset-req.c searches them, pkgset-dep.c collects
-- for a package what it requires and conflicts with, and pkgmark.c marks packages with what they
-- require.
--
-- Files and what they model:
--   Base      names of the standard library, integers and their wrap-around, bytes with `strcmp`,
--             comparison functions as preorders.
--   Capreq    capreq.h and capreq.c. Capreq.antt has the record with its offsets and buffer and
--             its accessors; New is `capreq_new`, Evr `capreq_new_evr`, Clone `capreq_clone`,
--             Compare `capreq_cmp_name`, `capreq_cmp_evr`, `capreq_cmp_name_evr` and the
--             `strcmp` variants. Store is `capreq_store`, `split_capreq` and `capreq_restore`, Arr
--             `capreq_arr_store`, `restore_parts` and `capreq_arr_restore`.
--   Evr       pkgmisc.c: `poldek_util_parse_evr` as `parse_evr`, `poldek_util_parse_nevr` as
--             `parse_nevr`. `print_evr` is the part of `do_capreq_snprintf` (capreq.c) that
--             prints epoch, version and release.
--   Pkg       pkg.h: the package record. Selfcap is `pkg_add_selfcap`; Registry is `pkgmod_register_arch`, `pkg_arch` and
--             `pkg_arch_score` of pkg.c; Cmp and Cmp/Deep are pkgcmp.c.
--   Match     pkg.c: `cap_xmatch_req`, `pkg_evr_match_req`, `pkg_caps_match_req`, `pkg_match_req`;
--             Requires is `find_req` and `pkg_requires_cap`, Obsoletes is `pkg_obsoletes_pkg`.
--   Booldep   booldep_eval.c: `booldep_eval` on the trees that booldep_parse.c builds, `eval` for
--             each operator. Parse is booldep_parse.c: Ident its scanners, Dep `parse_dep` and
--             `booldep_parse`; Printed has the bracketed text of a dependency.
--   CapreqIdx capreqidx.c: `capreq_idx_add`, `capreq_idx_lookup`, `capreq_idx_remove`.
--   Pkgset    pkgset.c: `pkgset__index_caps` as `pkgset_index_caps`, `pkgset__index_reqs` as
--             `pkgset_index_reqs`, `pkgset_add_package`.
--   Require   pkgset-req.c: `psreq_lookup`, `psreq_match_pkgs`, `pkgset_find_match_packages`.
--   Required  pkgset-dep.c: `process_reqs` with its cache, `process_req`, `add_reqpkg`,
--             `pkgset_get_required_packages`.
--   Conflicts pkgset-dep.c: `pkgset_get_conflicted_packages`, `pkgset_get_requiredby_packages`.
--   Mark      pkgmark.c: mark sets, and in Visit `depmark_packages` and `visit_mark_reqs`.
--   Isort     the insertion sort of capreqidx.c and pkgset-req.c.
--   Arrays    what is asked of the sorted arrays of trurlib.
--   Order     pkgset-order.c: `visit_install_order` as `visit`, `do_order`, `do_packages_order`.
-- Operations have the names of the C functions. Modules called Laws, and those below Booldep, Order
-- and Match, hold proofs; Tests hold instances of the theorems at concrete values.
--
-- State. A `struct capreq` is a value with its buffer as a list of bytes; offsets are cut to
-- `uint8_t`. The registry of architectures and the state of a visit are passed on explicitly.
-- Packages under a visit are numbers, for their addresses; colours and the `prereqed` bit are maps.
-- 32-bit differences wrap around as the C code's do on the usual machines.
--
-- Bounds and fuel. `visit` recurses on fuel: each call colours one white package of those to be
-- ordered gray, so as many calls as there are packages suffice; `do_order` starts with their
-- number. `visit_mark_reqs` recurses on fuel too, and marks one package by each call: one more than
-- the packages of the pool suffices. The binary search of an index entry has fuel for one round more
-- than the entry has packages, and each round leaves fewer of them. `parse_dep` has fuel above twice
-- the length of the text: a call descends to a shorter text, or from behind an operator to the
-- opening bracket there. `capreq_store` recurses from a split `capreq` to its parts, which fit, and
-- cuts at least one byte off the name in each round of `split_capreq` if there is a place for one.
-- `restore_array` has a turn for each record and each part.
--
-- Parameters, for code that is not in the repository: librpm's `rpmvercmp` and score of an
-- architecture, trurlib's search and sort of arrays, its insertion and its removal of elements, its
-- 16-bit words and its iterator over a buffer, of which `ReadsBytes` says that it returns the next
-- bytes, or none where there are too few. The value that the compiled subtraction of two pointers to
-- packages gives (`ptr_sub`) is a parameter of CapreqIdx and Pkgset, since the packages are separate
-- blocks, and C leaves it undefined; `IsTold` says that it is not cut to zero for different packages.
-- What is read of a string whose block has been freed (`freed`) is a parameter of `capreq_store`, which
-- frees the first part of a split name before it stores that name. What
-- `pkgset_get_required_packages` (pkgset-dep.c) returns and the callback of `booldep_eval` for
-- costs are parameters as well, any functions of the package and of the requirement; Required has
-- a definition of the former. The index of files, the directories of packages and the text of a
-- requirement are parameters of Require and Required. Memory that runs out, messages, locks and
-- reference counts are left out.
--
-- Not modelled: file lists, the loading of package sets and the
-- removal of packages from them, the installer, storage of packages, the package directories, the
-- commands, and input and output.

pub mod Arrays
pub mod Base
pub mod Booldep
pub mod Capreq
pub mod CapreqIdx
pub mod Conflicts
pub mod Evr
pub mod Isort
pub mod Mark
pub mod Match
pub mod Order
pub mod Pkg
pub mod Pkgset
pub mod Require
pub mod Required
