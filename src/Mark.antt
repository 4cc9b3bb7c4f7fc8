-- ===== src/Mark.antt =====
-- pkgmark.c: sets of marked packages, and marking a package with what it requires. A package is a
-- number for its address. The hash `ht` is the list of its entries; trurlib's `n_hash_get` and
-- `n_hash_insert` find and add an entry by its key. A mark set made with PKGMARK_SET_IDNEVR names
-- packages by `pkg_id`, the others by their printed address (`%p`, a parameter).
-- `pkgset_get_required_packages` is the parameter `required`, an empty list for NULL. Messages and
-- the table of unmatched requirements are left out.
pub mod Refine
pub mod Visit
pub mod Closed
mod Tests
use poldek.Base.{
  ℕ, zero, suc, ◌+◌, Bool, true, false, not, ◌&&◌, ◌||◌, Option, none, some, List, [], ◌∷◌, ltb,
  if◌then◌else◌,
}
use poldek.Base.Bytes.{Bytes, str_eq}
use poldek.Pkg.{Pkg}
use poldek.Order.{Rp, Reqpkg}

-- The bits PKGMARK_MARK, _DEP, _RM, _INTERNAL and _UNMETDEPS of a flag word.
pub record MarkFlags : Type 0 where
  pub mark : Bool
  pub dep : Bool
  pub rm : Bool
  pub internal : Bool
  pub unmetdeps : Bool

abbrev pub no_marks : MarkFlags
no_marks = record { mark = false; dep = false; rm = false; internal = false; unmetdeps = false }

abbrev pub pkgmark_mark : MarkFlags
pkgmark_mark = record no_marks { mark = true }

abbrev pub pkgmark_dep : MarkFlags
pkgmark_dep = record no_marks { dep = true }

abbrev pub pkgmark_any : MarkFlags
pkgmark_any = record no_marks { mark = true; dep = true }

-- `flags | flag`
abbrev pub with_flag : MarkFlags → MarkFlags → MarkFlags
with_flag flags flag = record {
  mark = flags.mark || flag.mark;
  dep = flags.dep || flag.dep;
  rm = flags.rm || flag.rm;
  internal = flags.internal || flag.internal;
  unmetdeps = flags.unmetdeps || flag.unmetdeps;
}

-- `flags & ~flag`
abbrev pub without_flag : MarkFlags → MarkFlags → MarkFlags
without_flag flags flag = record {
  mark = flags.mark && not flag.mark;
  dep = flags.dep && not flag.dep;
  rm = flags.rm && not flag.rm;
  internal = flags.internal && not flag.internal;
  unmetdeps = flags.unmetdeps && not flag.unmetdeps;
}

-- `flags & flag`, as a test.
abbrev pub has_any : MarkFlags → MarkFlags → Bool
has_any flags flag =
    (flags.mark && flag.mark)
    || ((flags.dep && flag.dep)
        || ((flags.rm && flag.rm)
            || ((flags.internal && flag.internal) || (flags.unmetdeps && flag.unmetdeps))))

abbrev pub changed : Bool → MarkFlags → MarkFlags → MarkFlags
changed set flags flag = if set then with_flag flags flag else without_flag flags flag

-- An entry of the hash: its key and its `struct pkg_mark`.
pub record PkgMark : Type 0 where
  pub id : Bytes
  pub pkg : ℕ
  pub flags : MarkFlags

-- `struct pkgmark_set`
pub record PkgmarkSet : Type 0 where
  pub idnevr : Bool
  pub ht : List PkgMark

abbrev pub pkgmark_set_new : Bool → PkgmarkSet
pkgmark_set_new idnevr = record { idnevr = idnevr; ht = [] }

-- `n_hash_get`
unfoldable pub get : Bytes → List PkgMark → Option PkgMark
get id [] = none
get id (m ∷ ms) = if str_eq m.id id then some m else get id ms

-- The change of the flags of the entry that `n_hash_get` returns, in place.
unfoldable pub change : Bytes → Bool → MarkFlags → List PkgMark → List PkgMark
change id set flag [] = []
change id set flag (m ∷ ms) =
    let rest = change id set flag ms in
    if str_eq m.id id then record m { flags = changed set m.flags flag } ∷ ms else m ∷ rest

module _ (pkg_at : ℕ → Pkg) (printed : ℕ → Bytes) where
  abbrev pub package_id : Bool → ℕ → Bytes
  package_id idnevr p = if idnevr then (pkg_at p).nvr else printed p

  -- `pkgmark_set`; the bits of an entry that is made are those of `flag`.
  unfoldable pub pkgmark_set : PkgmarkSet → ℕ → Bool → MarkFlags → PkgmarkSet
  pkgmark_set pms p set flag =
      let id = package_id pms.idnevr p in
      elim (get id pms.ht) [
        | some m ↦ record pms { ht = change id set flag pms.ht }
        | none ↦
            if set
            then record pms {
              ht = record { id = id; pkg = p; flags = with_flag no_marks flag } ∷ pms.ht;
            }
            else pms
      ]

  -- `pkgmark_isset`
  unfoldable pub pkgmark_isset : PkgmarkSet → ℕ → MarkFlags → Bool
  pkgmark_isset pms p flag = elim (get (package_id pms.idnevr p) pms.ht) [
    | none ↦ false
    | some m ↦ has_any m.flags flag
  ]

  -- The packages that `pkgmark_get_packages` finds with a flag, an empty list for NULL.
  unfoldable pub pkgmark_get_packages : List PkgMark → MarkFlags → List ℕ
  pkgmark_get_packages [] flag = []
  pkgmark_get_packages (m ∷ ms) flag =
      let rest = pkgmark_get_packages ms flag in if has_any m.flags flag then m.pkg ∷ rest else rest

-- The loop of `pkgmark_massset`.
unfoldable pub pkgmark_massset : Bool → MarkFlags → List PkgMark → List PkgMark
pkgmark_massset set flag [] = []
pkgmark_massset set flag (m ∷ ms) =
    record m { flags = changed set m.flags flag } ∷ pkgmark_massset set flag ms
