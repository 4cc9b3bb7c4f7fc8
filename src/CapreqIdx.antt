-- ===== src/CapreqIdx.antt =====
-- capreqidx.c: the index from the name of a capability to the packages that have it. A package is
-- the number of its address. `ptr_sub` is the value of the subtraction of two pointers to packages as
-- it is compiled: the packages are separate blocks of several sizes, for which C leaves it
-- undefined, and the compiled division by the size of the struct need not be exact. The open
-- hash `ht` is the list of its entries. An entry is its packages in the order of the array; room in
-- the array and the choice between one pointer and an array are left out.
pub mod Search
pub mod Found
pub mod Adds
pub mod Removed
mod Tests
use poldek.Base.{
  ℕ, zero, suc, ◌+◌, ◌-◌, ◌*◌, ◌/◌, Bool, true, false, not, ◌&&◌, ◌||◌, Option, none, some, List,
  [], ◌∷◌, ◌++◌, length, get_elem?, ltb, ◌==◌, if◌then◌else◌,
}
use poldek.Base.Int.{ℤ, is_zero, is_positive, is_negative, i32_of_u32, u32_of_int}
use poldek.Isort.{isort}
use poldek.Base.Bytes.{Bytes, codes, str_eq, has_prefix}

-- `struct capreq_idx_ent` under its key.
pub record Ent : Type 0 where
  pub capname : Bytes
  pub pkgs : List ℕ

-- CAPREQ_IDX_CAP and CAPREQ_IDX_REQ.
pub data IdxType : Type 0 where
  idx_cap idx_req : IdxType

-- The element at an index that is in range.
abbrev pub nth : List ℕ → ℕ → ℕ
nth ps i = elim (get_elem? ps i) [ none ↦ 0 | some p ↦ p ]

module _ (ptr_sub : ℕ → ℕ → ℤ) where
  -- `idx_ent_sort`, with the test `tmp - p < 0`.
  unfoldable pub idx_ent_sort : List ℕ → List ℕ
  idx_ent_sort pkgs = isort (λ tmp p. is_negative (ptr_sub tmp p)) pkgs

  -- `cmp_re = p - pkg`, a difference of pointers that is cut to an `int`.
  unfoldable pub ptr_diff : ℕ → ℕ → ℤ
  ptr_diff p pkg = i32_of_u32 (u32_of_int (ptr_sub p pkg))

  -- The loop of `idx_ent_contains`, with fuel for its rounds.
  search : ℕ → List ℕ → ℕ → ℕ → ℕ → Bool
  search zero pkgs pkg l r = false
  search (suc fuel) pkgs pkg l r =
      let i = (l + r) / 2 in
      let lower = search fuel pkgs pkg l i in
      let upper = search fuel pkgs pkg (i + 1) r in
      if not (ltb l r)
      then false
      else if is_zero (ptr_diff (nth pkgs i) pkg)
      then true
      else if is_positive (ptr_diff (nth pkgs i) pkg)
      then lower
      else upper

  unfoldable pub idx_ent_contains : List ℕ → ℕ → Bool
  unfolding search
  idx_ent_contains pkgs pkg = search (suc (length pkgs)) pkgs pkg 0 (length pkgs)

  -- What `capreq_idx_add` does to the packages of an entry that is there.
  unfoldable pub add_to_ent : IdxType → List ℕ → ℕ → List ℕ
  add_to_ent idx_cap pkgs pkg =
      if idx_ent_contains pkgs pkg then pkgs else idx_ent_sort (pkgs ++ pkg ∷ [])
  add_to_ent idx_req pkgs pkg = pkgs ++ pkg ∷ []

skip_prefixes : List Bytes
skip_prefixes =
    codes "/usr/share/doc"
    ∷ codes "/usr/share/info"
    ∷ codes "/usr/share/man"
    ∷ codes "/usr/share/locale"
    ∷ codes "/usr/share/icons"
    ∷ []

skip_caps : List Bytes
skip_caps =
    codes "/etc"
    ∷ codes "/bin"
    ∷ codes "/usr/bin"
    ∷ codes "/usr/sbin"
    ∷ codes "/usr/lib"
    ∷ codes "/usr/share"
    ∷ codes "/usr/include"
    ∷ codes "elf(buildid)"
    ∷ codes "rtld(GNU_HASH)"
    ∷ []

-- The elements that a loop looks at whose body, too, adds one to the index.
unfoldable pub every_other : List Bytes → List Bytes
every_other [] = []
every_other (x ∷ []) = x ∷ []
every_other (x ∷ y ∷ rest) = x ∷ every_other rest

any_eq : Bytes → List Bytes → Bool
any_eq name [] = false
any_eq name (x ∷ xs) = str_eq name x || any_eq name xs

any_prefix : Bytes → List Bytes → Bool
any_prefix name [] = false
any_prefix name (x ∷ xs) = has_prefix x name || any_prefix name xs

-- `indexable_cap`
unfoldable pub indexable_cap : Bytes → Bool
unfolding skip_prefixes skip_caps every_other any_eq any_prefix
indexable_cap name =
    if any_eq name (every_other skip_caps)
    then false
    else not (has_prefix (codes "/") name && any_prefix name (every_other skip_prefixes))

module _ (ptr_sub : ℕ → ℕ → ℤ) where
  -- `n_oash_get_insert`, and the change of the entry.
  unfoldable pub insert : IdxType → Bytes → ℕ → List Ent → List Ent
  insert type capname pkg [] = record { capname = capname; pkgs = pkg ∷ [] } ∷ []
  insert type capname pkg (e ∷ es) =
      let rest = insert type capname pkg es in
      if str_eq e.capname capname
      then record e { pkgs = add_to_ent ptr_sub type e.pkgs pkg } ∷ es
      else e ∷ rest

  -- `capreq_idx_add`
  unfoldable pub capreq_idx_add : IdxType → Bytes → ℕ → List Ent → List Ent
  capreq_idx_add idx_cap capname pkg ht =
      if str_eq capname (codes "elf(buildid)") then ht else insert idx_cap capname pkg ht
  capreq_idx_add idx_req capname pkg ht =
      if not (indexable_cap capname) then ht else insert idx_req capname pkg ht

-- An entry without packages is no answer.
unfoldable pub answer : List ℕ → Option (List ℕ)
answer [] = none
answer (p ∷ ps) = some (p ∷ ps)

-- `capreq_idx_lookup`
unfoldable pub capreq_idx_lookup : Bytes → List Ent → Option (List ℕ)
capreq_idx_lookup capname [] = none
capreq_idx_lookup capname (e ∷ es) =
    let rest = capreq_idx_lookup capname es in
    if str_eq e.capname capname then answer e.pkgs else rest

-- The loop of `capreq_idx_remove`; `same` is `pkg_cmp_name_evr(pkg, p) == 0`. Behind a package that
-- is taken out the loop passes over one.
unfoldable pub remove_from : (ℕ → Bool) → Bool → List ℕ → List ℕ
remove_from same passed [] = []
remove_from same true (p ∷ ps) = p ∷ remove_from same false ps
remove_from same false (p ∷ ps) =
    let passing = remove_from same true ps in
    let going = remove_from same false ps in if same p then passing else p ∷ going

-- `capreq_idx_remove`
unfoldable pub capreq_idx_remove : (ℕ → Bool) → Bytes → List Ent → List Ent
unfolding remove_from
capreq_idx_remove same capname [] = []
capreq_idx_remove same capname (e ∷ es) =
    let rest = capreq_idx_remove same capname es in
    if str_eq e.capname capname
    then record e { pkgs = remove_from same false e.pkgs } ∷ es
    else e ∷ rest
