-- ===== src/CapreqIdx/Adds.antt =====
-- What `capreq_idx_lookup` answers after calls of `capreq_idx_add`.
use mathlib.Core.List.{append-nil, append_assoc}
use poldek.Base.{
  ℕ, ◌+◌, ◌≡◌, sym, ap, ◌∙◌, inl, inr, Bool, true, false, ◌&&◌, ◌||◌, All, List, [], ◌∷◌, ◌++◌,
  arith, ◌==◌, ==_iff, if◌then◌else◌, Bool-cases,
}
use poldek.Base.Int.{ℤ, is_negative}
use poldek.Base.Bytes.{Bytes, str_eq}
use poldek.Order.Advance.{count}
use poldek.Order.Start.{is_member}
use poldek.Order.Passes.{is_member-count}
use poldek.Isort.{count-isort}
use poldek.CapreqIdx.{
  IdxType, idx_cap, idx_req, idx_ent_sort, idx_ent_contains, add_to_ent, capreq_idx_lookup,
}
use poldek.CapreqIdx.Search.{IsTold, idx_ent_contains_sound}
use poldek.CapreqIdx.Found.{Add, adds, found, is_indexed, entry, found-adds}

-- The call puts the package under the name.
abbrev pub adds_it : IdxType → Bytes → Add → Bool
adds_it type name a = str_eq a.capname name && is_indexed type a.capname

-- Some call puts the package `q` under the name.
abbrev pub is_added : Bytes → ℕ → List Add → Bool
is_added name q [] = false
is_added name q (a ∷ more) = is_added name q more || adds_it idx_cap name a && q == a.pkg

-- The packages of the calls for the name, in their order.
abbrev pub pkgs_added : Bytes → List Add → List ℕ
pkgs_added name [] = []
pkgs_added name (a ∷ more) =
    let rest = pkgs_added name more in if adds_it idx_req name a then a.pkg ∷ rest else rest

count-snoc :
    (q : ℕ) (ps : List ℕ) (p : ℕ) → count q (ps ++ p ∷ []) ≡ count q ps + (if q == p then 1 else 0)
unfolding count
count-snoc q [] p = omega arith
count-snoc q (x ∷ ps) p = omega (arith, count-snoc q ps p)

pub All_of_members :
    (mem : ℕ → Bool) (ps : List ℕ)
    → ((q : ℕ) → is_member q ps ≡ true → mem q ≡ true)
    → All (λ p. mem p ≡ true) ps
All_of_members mem [] h = tt
All_of_members mem (p ∷ ps) h =
    (h p (ground arith), All_of_members mem ps (λ q k. h q (ground (arith, k))))

module _ (ptr_sub : ℕ → ℕ → ℤ) (mem : ℕ → Bool) (told : IsTold ptr_sub mem) where
  -- Sorted or not, an array to which a new package is added has it and the others.
  is_member-new :
      (ps : List ℕ) (p q : ℕ)
      → is_member q (idx_ent_sort ptr_sub (ps ++ p ∷ [])) ≡ (is_member q ps || q == p)
  unfolding idx_ent_sort
  is_member-new ps p q =
      is_member-count q (idx_ent_sort ptr_sub (ps ++ p ∷ []))
      ∙ ground (
        arith,
        is_member-count q ps,
        count-isort (λ a b. is_negative (ptr_sub a b)) q (ps ++ p ∷ []),
        count-snoc q ps p,
      )

  is_member-add :
      (ps : List ℕ) (p q : ℕ)
      → All (λ x. mem x ≡ true) ps
      → mem p ≡ true
      → is_member q (add_to_ent ptr_sub idx_cap ps p) ≡ (is_member q ps || q == p)
  unfolding add_to_ent
  is_member-add ps p q inside here = elim (Bool-cases (idx_ent_contains ptr_sub ps p)) [
    | inl there ↦
        let member = idx_ent_contains_sound ptr_sub mem told ps p inside here there in
        rw (add_to_ent, there)
          (elim (Bool-cases (q == p)) [
            | inl same ↦
                let hit : is_member q ps ≡ true =
                  ap (λ x. is_member x ps) ((==_iff q p).0 same) ∙ member in
                ground (arith, hit, same)
            | inr other ↦ ground (arith, other)
          ])
    | inr new ↦ rw (add_to_ent, new) (is_member-new ps p q)
  ]

  members_inside :
      (ps : List ℕ) (p : ℕ)
      → All (λ x. mem x ≡ true) ps
      → mem p ≡ true
      → All (λ x. mem x ≡ true) (add_to_ent ptr_sub idx_cap ps p)
  members_inside ps p inside here = All_of_members mem (add_to_ent ptr_sub idx_cap ps p) (λ q k.
      elim (Bool-cases (q == p)) [
        | inl same ↦ ap mem ((==_iff q p).0 same) ∙ here
        | inr other ↦
            member-All ps q inside (ground (arith, is_member-add ps p q inside here, k, other))
      ])
    where
      member-All :
          (xs : List ℕ) (q : ℕ) → All (λ x. mem x ≡ true) xs → is_member q xs ≡ true → mem q ≡ true
      member-All [] q h k = absurd (ground (arith, k))
      member-All (x ∷ xs) q h k = elim (Bool-cases (q == x)) [
        | inl same ↦ ap mem ((==_iff q x).0 same) ∙ h.0
        | inr other ↦ member-All xs q h.1 (ground (arith, k, other))
      ]

  pub is_member-entry :
      (name : Bytes) (calls : List Add) (ps : List ℕ) (q : ℕ)
      → All (λ x. mem x ≡ true) ps
      → All (λ a. mem a.pkg ≡ true) calls
      → is_member q (entry ptr_sub idx_cap name calls ps)
        ≡ (is_member q ps || is_added name q calls)
  unfolding entry
  is_member-entry name [] ps q inside near = ground arith
  is_member-entry name (a ∷ more) ps q inside near = elim (Bool-cases (adds_it idx_cap name a)) [
    | inl hit ↦
        let rest =
          is_member-entry name more (add_to_ent ptr_sub idx_cap ps a.pkg) q
            (members_inside ps a.pkg inside near.0) near.1 in
        rw (entry, hit) (ground (arith, rest, is_member-add ps a.pkg q inside near.0))
    | inr miss ↦
        let rest = is_member-entry name more ps q inside near.1 in
        rw (entry, miss) (ground (arith, rest))
  ]

  -- After any calls of `capreq_idx_add` on an empty index of capabilities, the packages that
  -- `capreq_idx_lookup` answers for a name are those that the calls gave for the name, and no others,
  -- and none for the name elf(buildid). This holds whatever the compiled subtraction of pointers
  -- gives, as long as it gives no `int` of zero for two different packages of the calls. A
  -- package that the search misses may be listed more than once. No answer counts as no packages.
  pub capreq_idx_lookup-adds :
      (calls : List Add) (name : Bytes) (q : ℕ)
      → All (λ a. mem a.pkg ≡ true) calls
      → is_member q (found name (adds ptr_sub idx_cap calls [])) ≡ is_added name q calls
  unfolding capreq_idx_lookup
  capreq_idx_lookup-adds calls name q near =
      ap (is_member q) (found-adds ptr_sub idx_cap calls [] name)
      ∙ is_member-entry name calls [] q tt near

module _ (ptr_sub : ℕ → ℕ → ℤ) where
  entry-req :
      (name : Bytes) (calls : List Add) (ps : List ℕ)
      → entry ptr_sub idx_req name calls ps ≡ ps ++ pkgs_added name calls
  unfolding entry add_to_ent
  entry-req name [] ps = sym (append-nil ps)
  entry-req name (a ∷ more) ps = elim (Bool-cases (adds_it idx_req name a)) [
    | inl hit ↦
        rw (entry, hit, add_to_ent)
          (entry-req name more (ps ++ a.pkg ∷ [])
            ∙ append_assoc ps (a.pkg ∷ []) (pkgs_added name more))
    | inr miss ↦ rw (entry, miss) (entry-req name more ps)
  ]

  -- After any calls of `capreq_idx_add` on an empty index of requirements, the packages that
  -- `capreq_idx_lookup` answers for a name are those that the calls gave for it, in the order of the
  -- calls and as often as they were given, if `indexable_cap` takes the name, and none if not. No
  -- answer counts as no packages.
  pub capreq_idx_lookup-adds_req :
      (calls : List Add) (name : Bytes)
      → found name (adds ptr_sub idx_req calls []) ≡ pkgs_added name calls
  unfolding capreq_idx_lookup
  capreq_idx_lookup-adds_req calls name =
      found-adds ptr_sub idx_req calls [] name ∙ entry-req name calls []
