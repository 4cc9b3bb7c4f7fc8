-- ===== src/CapreqIdx/Found.antt =====
-- `capreq_idx_lookup` after calls of `capreq_idx_add`, one name at a time.
use poldek.Base.{
  ℕ, ◌≡◌, refl, sym, ap, ap₂, ◌∙◌, inl, inr, Bool, true, false, not, ◌&&◌, Option, none, some, List,
  [], ◌∷◌, arith, if◌then◌else◌, Bool-cases,
}
use poldek.Base.Int.{ℤ}
use poldek.Base.Bytes.{Bytes, codes, str_eq, str_eq-left, str_ne}
use poldek.Isort.{isort}
use poldek.CapreqIdx.{
  Ent, IdxType, idx_cap, idx_req, idx_ent_sort, idx_ent_contains, indexable_cap, add_to_ent, insert,
  answer, capreq_idx_add, capreq_idx_lookup,
}

-- The arguments of a call.
pub record Add : Type 0 where
  pub capname : Bytes
  pub pkg : ℕ

-- The packages of an answer.
abbrev pkgs_of : Option (List ℕ) → List ℕ
pkgs_of none = []
pkgs_of (some ps) = ps

abbrev pub found : Bytes → List Ent → List ℕ
found name ht = pkgs_of (capreq_idx_lookup name ht)

-- The names that an index takes.
abbrev pub is_indexed : IdxType → Bytes → Bool
is_indexed idx_cap name = not (str_eq name (codes "elf(buildid)"))
is_indexed idx_req name = indexable_cap name

pkgs_of-answer : (ps : List ℕ) → pkgs_of (answer ps) ≡ ps
unfolding answer
pkgs_of-answer [] = refl
pkgs_of-answer (p ∷ ps) = refl

pub found-here :
    (e : Ent) (es : List Ent) (name : Bytes)
    → str_eq e.capname name ≡ true
    → found name (e ∷ es) ≡ e.pkgs
unfolding capreq_idx_lookup
found-here e es name h = rw (found, capreq_idx_lookup, h) (pkgs_of-answer e.pkgs)

pub found-below :
    (e : Ent) (es : List Ent) (name : Bytes)
    → str_eq e.capname name ≡ false
    → found name (e ∷ es) ≡ found name es
unfolding capreq_idx_lookup
found-below e es name h = rw (found, capreq_idx_lookup, h) refl

module _ (ptr_sub : ℕ → ℕ → ℤ) where
  unfoldable pub adds : IdxType → List Add → List Ent → List Ent
  adds type [] ht = ht
  adds type (a ∷ more) ht = adds type more (capreq_idx_add ptr_sub type a.capname a.pkg ht)

  add_to_ent-nil : (type : IdxType) (p : ℕ) → add_to_ent ptr_sub type [] p ≡ p ∷ []
  unfolding add_to_ent idx_ent_contains idx_ent_sort isort
  add_to_ent-nil idx_cap p = refl
  add_to_ent-nil idx_req p = refl

  insert-here :
      (type : IdxType) (capname : Bytes) (pkg : ℕ) (e : Ent) (es : List Ent)
      → str_eq e.capname capname ≡ true
      → insert ptr_sub type capname pkg (e ∷ es)
        ≡ record e { pkgs = add_to_ent ptr_sub type e.pkgs pkg } ∷ es
  unfolding insert
  insert-here type capname pkg e es h = rw (insert, h) refl

  insert-below :
      (type : IdxType) (capname : Bytes) (pkg : ℕ) (e : Ent) (es : List Ent)
      → str_eq e.capname capname ≡ false
      → insert ptr_sub type capname pkg (e ∷ es) ≡ e ∷ insert ptr_sub type capname pkg es
  unfolding insert
  insert-below type capname pkg e es h = rw (insert, h) refl

  -- What a call makes of the packages of a name.
  abbrev pub after : IdxType → Bool → ℕ → List ℕ → List ℕ
  after type true pkg ps = add_to_ent ptr_sub type ps pkg
  after type false pkg ps = ps

  found-new :
      (type : IdxType) (capname : Bytes) (pkg : ℕ) (name : Bytes) (b : Bool)
      → str_eq capname name ≡ b
      → found name (insert ptr_sub type capname pkg []) ≡ after type b pkg (found name [])
  unfolding insert capreq_idx_lookup answer
  found-new type capname pkg name true h =
      rw (insert, found, capreq_idx_lookup, h) (sym (add_to_ent-nil type pkg))
  found-new type capname pkg name false h = rw (insert, found, capreq_idx_lookup, h) refl

  found-insert :
      (type : IdxType) (capname : Bytes) (pkg : ℕ) (ht : List Ent) (name : Bytes)
      → found name (insert ptr_sub type capname pkg ht)
        ≡ after type (str_eq capname name) pkg (found name ht)
  found-insert type capname pkg [] name = found-new type capname pkg name (str_eq capname name) refl
  found-insert type capname pkg (e ∷ es) name = elim (Bool-cases (str_eq e.capname capname)) [
    | inl here ↦
        ap (found name) (insert-here type capname pkg e es here)
        ∙ (elim (Bool-cases (str_eq e.capname name)) [
          | inl same ↦
              found-here (record e { pkgs = add_to_ent ptr_sub type e.pkgs pkg }) es name same
              ∙ sym (
                  ap₂ (λ b ps. after type b pkg ps) (str_eq-left e.capname capname name here ∙ same)
                    (found-here e es name same))
          | inr other ↦
              found-below (record e { pkgs = add_to_ent ptr_sub type e.pkgs pkg }) es name other
              ∙ sym (
                  ap₂ (λ b ps. after type b pkg ps)
                    (str_eq-left e.capname capname name here ∙ other) (found-below e es name other))
        ])
    | inr below ↦
        ap (found name) (insert-below type capname pkg e es below)
        ∙ (elim (Bool-cases (str_eq e.capname name)) [
          | inl same ↦
              found-here e (insert ptr_sub type capname pkg es) name same
              ∙ sym (
                  ap₂ (λ b ps. after type b pkg ps) (str_ne e.capname capname name below same)
                    (found-here e es name same))
          | inr other ↦
              found-below e (insert ptr_sub type capname pkg es) name other
              ∙ found-insert type capname pkg es name
              ∙ ap (after type (str_eq capname name) pkg) (sym (found-below e es name other))
        ])
  ]

  -- Calls for names that the index does not take change nothing.
  capreq_idx_add-eq :
      (type : IdxType) (capname : Bytes) (pkg : ℕ) (ht : List Ent)
      → capreq_idx_add ptr_sub type capname pkg ht
        ≡ (if is_indexed type capname then insert ptr_sub type capname pkg ht else ht)
  unfolding capreq_idx_add
  capreq_idx_add-eq idx_cap capname pkg ht = ground arith
  capreq_idx_add-eq idx_req capname pkg ht = ground arith

  found-add :
      (type : IdxType) (a : Add) (ht : List Ent) (name : Bytes)
      → found name (capreq_idx_add ptr_sub type a.capname a.pkg ht)
        ≡ after type (str_eq a.capname name && is_indexed type a.capname) a.pkg (found name ht)
  found-add type a ht name =
      ap (found name) (capreq_idx_add-eq type a.capname a.pkg ht)
      ∙ (elim (Bool-cases (is_indexed type a.capname)) [
        | inl taken ↦
            let met : (str_eq a.capname name && is_indexed type a.capname) ≡ str_eq a.capname name =
              ground (arith, taken) in
            ap (found name)
              (ap (λ b. if b then insert ptr_sub type a.capname a.pkg ht else ht) taken)
            ∙ found-insert type a.capname a.pkg ht name
            ∙ ap (λ b. after type b a.pkg (found name ht)) (sym met)
        | inr skipped ↦
            let missed : (str_eq a.capname name && is_indexed type a.capname) ≡ false =
              ground (arith, skipped) in
            ap (found name)
              (ap (λ b. if b then insert ptr_sub type a.capname a.pkg ht else ht) skipped)
            ∙ ap (λ b. after type b a.pkg (found name ht)) (sym missed)
      ])

  -- The packages of a name, by the calls alone.
  unfoldable pub entry : IdxType → Bytes → List Add → List ℕ → List ℕ
  entry type name [] ps = ps
  entry type name (a ∷ more) ps =
      entry type name more
        (after type (str_eq a.capname name && is_indexed type a.capname) a.pkg ps)

  pub found-adds :
      (type : IdxType) (calls : List Add) (ht : List Ent) (name : Bytes)
      → found name (adds type calls ht) ≡ entry type name calls (found name ht)
  unfolding adds entry
  found-adds type [] ht name = refl
  found-adds type (a ∷ more) ht name =
      found-adds type more (capreq_idx_add ptr_sub type a.capname a.pkg ht) name
      ∙ ap (entry type name more) (found-add type a ht name)
