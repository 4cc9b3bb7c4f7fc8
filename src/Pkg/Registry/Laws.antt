-- ===== src/Pkg/Registry/Laws.antt =====
-- An index stands for one name: it is found again, and later registrations leave it alone.
use poldek.Base.{
  ℕ, zero, suc, ◌+◌, ◌-◌, ◌<◌, ◌≡◌, refl, ap, sym, ◌∙◌, ◌⊎◌, inl, inr, Option, none, some, List, [],
  ◌∷◌, ◌++◌, arith, length, get_elem?, Bool-cases, Option-cases,
}
use mathlib.Core.Path.{subst}
use poldek.Base.Bytes.{Bytes, str_eq, strcmp_eq}
use poldek.Pkg.Registry.{
  Entry, Registry, lookup, cached, register_in_table, register_by, register_arch, register_arch_by,
  name_at, new_entry,
}

-- The entry stands where its index says.
abbrev pub IsPlaced : List Entry → Entry → Type 0
IsPlaced es e = (0 < e.index) × (get_elem? es (e.index - 1) ≡ some e)

abbrev IsPlaced? : List Entry → Option Entry → Type 0
IsPlaced? es none = Unit
IsPlaced? es (some e) = IsPlaced es e

pub record IsRegistry (r : Registry) : Type 0 where
  pub placed : (i : ℕ) (e : Entry) → get_elem? r.table i ≡ some e → e.index ≡ suc i
  pub cached_placed : (e : Entry) → r.last ≡ some e → IsPlaced r.table e

get_elem?-append :
    {A : Type 0} (xs ys : List A) (i : ℕ) (a : A)
    → get_elem? xs i ≡ some a
    → get_elem? (xs ++ ys) i ≡ some a
get_elem?-append [] ys i a h = cc
get_elem?-append (x ∷ xs) ys zero a h = h
get_elem?-append (x ∷ xs) ys (suc i) a h = get_elem?-append xs ys i a h

get_elem?-concat :
    {A : Type 0} (xs : List A) (a : A) → get_elem? (xs ++ a ∷ []) (length xs) ≡ some a
get_elem?-concat [] a = refl
get_elem?-concat (x ∷ xs) a = get_elem?-concat xs a

get_elem?-concat_cases :
    {A : Type 0} (xs : List A) (a b : A) (i : ℕ)
    → get_elem? (xs ++ a ∷ []) i ≡ some b
    → (get_elem? xs i ≡ some b) ⊎ ((i ≡ length xs) × (b ≡ a))
get_elem?-concat_cases [] a b zero h = ground arith
get_elem?-concat_cases [] a b (suc i) h = cc
get_elem?-concat_cases (x ∷ xs) a b zero h = inl h
get_elem?-concat_cases (x ∷ xs) a b (suc i) h = elim (get_elem?-concat_cases xs a b i h) [
  | inl p ↦ inl p
  | inr (p, q) ↦ inr (ap suc p, q)
]

-- What the table's search finds has the name and stands in the table.
lookup-placed :
    (a : Bytes) (es : List Entry) (e : Entry)
    → lookup a es ≡ some e
    → (e.arch ≡ a) × (i : ℕ) × (get_elem? es i ≡ some e)
unfolding lookup
lookup-placed a [] e h = cc
lookup-placed a (x ∷ es) e h = elim (Bool-cases (str_eq x.arch a)) [
  | inl same ↦
      let found : some x ≡ some e = rw (same, lookup) at h in
      (cc (strcmp_eq x.arch a same, found), 0, found)
  | inr other ↦
      let (named, i, at) = lookup-placed a es e (rw (other, lookup) at h) in (named, suc i, at)
]

cached-last :
    (o : Option Entry) (a : Bytes) (e : Entry) → cached o a ≡ some e → (o ≡ some e) × (e.arch ≡ a)
unfolding cached
cached-last none a e h = cc
cached-last (some x) a e h = elim (Bool-cases (str_eq x.arch a)) [
  | inl same ↦
      let found : some x ≡ some e = rw (same, cached) at h in
      (found, cc (strcmp_eq x.arch a same, found))
  | inr other ↦ let impossible : none ≡ some e = rw (other, cached) at h in cc
]

name_at-suc :
    (r : Registry) (n i : ℕ) (e : Entry)
    → n ≡ suc i
    → get_elem? r.table i ≡ some e
    → name_at r n ≡ some e.arch
unfolding name_at
name_at-suc r n i e at_suc h = rw at_suc (rw (name_at, h))

IsPlaced-of :
    (es : List Entry) (e : Entry) (i : ℕ)
    → e.index ≡ suc i
    → get_elem? es i ≡ some e
    → IsPlaced es e
IsPlaced-of es e i at_suc h = let back : e.index - 1 ≡ i = omega arith in (omega arith, rw back h)

name_at-IsPlaced : (r : Registry) (e : Entry) → IsPlaced r.table e → name_at r e.index ≡ some e.arch
name_at-IsPlaced r e p = name_at-suc r e.index (e.index - 1) e (omega arith) p.1

IsPlaced-append : (es fs : List Entry) (e : Entry) → IsPlaced es e → IsPlaced (es ++ fs) e
IsPlaced-append es fs e p = (p.0, get_elem?-append es fs (e.index - 1) e p.1)

-- What a step of `register_arch` owes: the index leads to the name, in a table that has grown at
-- its end only and is a registry again.
pub record Registers (r : Registry) (a : Bytes) (result : ℕ × Registry) : Type 0 where
  pub named : name_at result.1 result.0 ≡ some a
  pub kept : (i : ℕ) (b : Bytes) → name_at r i ≡ some b → name_at result.1 i ≡ some b
  pub registry : IsRegistry result.1

old-Registers :
    (r : Registry) (a : Bytes) (e : Entry)
    → IsRegistry r
    → IsPlaced r.table e
    → e.arch ≡ a
    → Registers r a (e.index, r)
old-Registers r a e h p same = record {
  named = name_at-IsPlaced r e p ∙ ap some same;
  kept = λ i b k. k;
  registry = h;
}

name_at-grow :
    (r : Registry) (e : Entry) (l : Option Entry) (i : ℕ) (b : Bytes)
    → name_at r i ≡ some b
    → name_at (record { table = r.table ++ e ∷ []; last = l }) i ≡ some b
unfolding name_at
name_at-grow r e l zero b h = cc
name_at-grow r e l (suc i) b h = elim (Option-cases (get_elem? r.table i)) [
  | inl missing ↦ let impossible : none ≡ some b = rw (name_at, missing) at h in cc
  | inr (x, found) ↦
      rw (name_at, get_elem?-append r.table (e ∷ []) i x found) (rw (name_at, found) at h)
]

module _ (score : ℕ) (r : Registry) (a : Bytes) (h : IsRegistry r) where
  abbrev grown : Registry
  grown = record { table = r.table ++ new_entry score r a ∷ []; last = some (new_entry score r a) }

  new-IsPlaced : IsPlaced grown.table (new_entry score r a)
  new-IsPlaced =
      IsPlaced-of grown.table (new_entry score r a) (length r.table) (omega arith)
        (get_elem?-concat r.table (new_entry score r a))

  grown-placed : (i : ℕ) (e : Entry) → get_elem? grown.table i ≡ some e → e.index ≡ suc i
  grown-placed i e at = elim (get_elem?-concat_cases r.table (new_entry score r a) e i at) [
    | inl old ↦ h.placed i e old
    | inr (last, new) ↦ ap (λ (x : Entry). x.index) new ∙ omega arith
  ]

  new-Registers : Registers r a (length r.table + 1, grown)
  new-Registers = record {
    named = name_at-IsPlaced grown (new_entry score r a) new-IsPlaced;
    kept = name_at-grow r (new_entry score r a) (some (new_entry score r a));
    registry = record {
      placed = grown-placed;
      cached_placed = λ e last.
          let same : new_entry score r a ≡ e = cc in
          subst (λ x. IsPlaced grown.table x) same new-IsPlaced;
    };
  }

  table-Registers : Registers r a (register_in_table score r a)
  unfolding register_in_table
  table-Registers = elim (Option-cases (lookup a r.table)) [
    | inl new ↦ rw (register_in_table, new) new-Registers
    | inr (e, old) ↦
        let (named, i, at) = lookup-placed a r.table e old in
        rw (register_in_table, old)
          (old-Registers r a e h (IsPlaced-of r.table e i (h.placed i e at) at) named)
  ]

  by-Registers : Registers r a (register_by (cached r.last a) score r a)
  unfolding register_by
  by-Registers = elim (Option-cases (cached r.last a)) [
    | inl miss ↦ rw (register_by, miss) table-Registers
    | inr (e, hit) ↦
        let (last, named) = cached-last r.last a e hit in
        rw (register_by, hit) (old-Registers r a e h (h.cached_placed e last) named)
  ]

module _ (machine_score : Bytes → ℕ) (r : Registry) (a : Bytes) where
  -- In a well-formed registry, registering an architecture, whether it is new, known or cached,
  -- returns an index at which the name is read back; the names at all indices that were in use
  -- stay; the registry stays well formed.
  pub register_arch-Registers : IsRegistry r → Registers r a (register_arch machine_score r a)
  register_arch-Registers h = rw register_arch_by (by-Registers (machine_score a) r a h)

-- Two names that are registered one after the other, in a registry that was well formed, and get
-- the same index are equal.
pub register_arch_injective :
    (machine_score : Bytes → ℕ) (r : Registry) (a b : Bytes)
    → IsRegistry r
    → (register_arch machine_score r a).0
      ≡ (register_arch machine_score (register_arch machine_score r a).1 b).0
    → a ≡ b
register_arch_injective machine_score r a b h same =
    let first = register_arch-Registers machine_score r a h in
    let second =
      register_arch-Registers machine_score (register_arch machine_score r a).1 b first.registry in
    let both : some a ≡ some b =
      sym (second.kept (register_arch machine_score r a).0 a first.named)
      ∙ (ap (name_at (register_arch machine_score (register_arch machine_score r a).1 b).1) same
          ∙ second.named) in
    cc
