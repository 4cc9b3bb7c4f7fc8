-- ===== src/Pkg/Registry.antt =====
-- `pkgmod_register_arch`, `pkg_arch`, `pkg_arch_score` and their twins for operating systems, of
-- pkg.c. The hash `architecture_h` has an entry for each element of the array `architecture_a`,
-- so it is read off the array; `last_arch` caches the last entry made. The score of an
-- architecture is librpm's, a parameter.
pub mod Laws
use poldek.Base.{
  ℕ, zero, suc, ◌+◌, ◌-◌, ◌^◌, ◌≡◌, refl, Bool, true, false, Option, none, some, List, [], ◌∷◌,
  ◌++◌, length, get_elem?, ◌==◌, if◌then◌else◌,
}
use poldek.Base.Bytes.{Bytes, str_eq, strcmp}

-- `struct an_arch`
pub record Entry : Type 0 where
  pub score : ℕ
  pub index : ℕ
  pub arch : Bytes

pub record Registry : Type 0 where
  pub table : List Entry
  pub last : Option Entry

abbrev pub empty : Registry
empty = record { table = []; last = none }

-- `n_hash_get`
unfoldable pub lookup : Bytes → List Entry → Option Entry
lookup a [] = none
lookup a (e ∷ es) = if str_eq e.arch a then some e else lookup a es

-- The cached entry, if it is the one that is asked for.
cached : Option Entry → Bytes → Option Entry
cached none a = none
cached (some e) a = if str_eq e.arch a then some e else none

abbrev int_max : ℕ
int_max = 2 ^ 31 - 1

-- The entry for a name that is not in the table, where `score` is what rpm says.
abbrev new_entry : ℕ → Registry → Bytes → Entry
new_entry score r a = record {
  score = if score == 0 then int_max - length r.table - 1 else score;
  index = length r.table + 1;
  arch = a;
}

-- The slow path, behind the cache. The assertion that the index is below UINT16_MAX is left out: the
-- registry is not bounded here.
register_in_table : ℕ → Registry → Bytes → ℕ × Registry
register_in_table score r a = elim (lookup a r.table) [
  | some e ↦ (e.index, r)
  | none ↦
      let e = new_entry score r a in (e.index, record { table = r.table ++ e ∷ []; last = some e })
]

-- The fast path, if the cache has the name.
register_by : Option Entry → ℕ → Registry → Bytes → ℕ × Registry
register_by (some e) score r a = (e.index, r)
register_by none score r a = register_in_table score r a

-- `pkgmod_register_arch`
unfoldable pub register_arch : (Bytes → ℕ) → Registry → Bytes → ℕ × Registry
unfolding register_by register_in_table cached lookup strcmp
register_arch machine_score r a = register_by (cached r.last a) (machine_score a) r a

register_arch_by :
    (machine_score : Bytes → ℕ) (r : Registry) (a : Bytes)
    → register_arch machine_score r a ≡ register_by (cached r.last a) (machine_score a) r a
unfolding register_arch
register_arch_by machine_score r a = refl

-- `pkgmod_register_os`: the same without a score.
unfoldable pub register_os : Registry → Bytes → ℕ × Registry
unfolding register_by register_in_table cached lookup strcmp
register_os r os = register_by (cached r.last os) 1 r os

-- `pkg_arch` and `pkg_os` at an index: NULL for 0.
unfoldable pub name_at : Registry → ℕ → Option Bytes
name_at r zero = none
name_at r (suc i) = elim (get_elem? r.table i) [ none ↦ none | some e ↦ some e.arch ]

-- `pkg_arch_score`
unfoldable pub score_at : Registry → ℕ → ℕ
score_at r zero = 0
score_at r (suc i) = elim (get_elem? r.table i) [ none ↦ 0 | some e ↦ e.score ]
