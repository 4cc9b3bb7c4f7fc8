-- ===== src/Mark/Refine.antt =====
-- A mark set as a finite map from identifiers to flags.
use poldek.Base.{
  ℕ, ◌≡◌, refl, sym, ap, ◌∙◌, inl, inr, Bool, true, false, Option, none, some, List, [], ◌∷◌, arith,
  if◌then◌else◌, Bool-cases, Option-cases,
}
use poldek.Base.Bytes.{Bytes, str_eq, str_ne, strcmp_eq}
use poldek.Pkg.{Pkg}
use poldek.Mark.{
  MarkFlags, no_marks, with_flag, has_any, changed, PkgMark, PkgmarkSet, get, change, package_id,
  pkgmark_set, pkgmark_isset, pkgmark_massset,
}

-- The abstract view: what is known of an identifier.
abbrev pub Marks : Type 0
Marks = Bytes → Option MarkFlags

abbrev pub view : List PkgMark → Marks
view ht id = elim (get id ht) [ none ↦ none | some m ↦ some m.flags ]

-- The calls that change a mark set.
pub data MarkOp : Type 0 where
  set_op : ℕ → Bool → MarkFlags → MarkOp
  massset_op : Bool → MarkFlags → MarkOp

abbrev pub changed? : Bool → MarkFlags → Option MarkFlags → Option MarkFlags
changed? set flag none = if set then some (with_flag no_marks flag) else none
changed? set flag (some flags) = some (changed set flags flag)

abbrev pub mass_changed? : Bool → MarkFlags → Option MarkFlags → Option MarkFlags
mass_changed? set flag none = none
mass_changed? set flag (some flags) = some (changed set flags flag)

view-here :
    (m : PkgMark) (ms : List PkgMark) (q : Bytes)
    → str_eq m.id q ≡ true
    → view (m ∷ ms) q ≡ some m.flags
unfolding get
view-here m ms q same = rw (view, get, same) refl

view-below :
    (m : PkgMark) (ms : List PkgMark) (q : Bytes)
    → str_eq m.id q ≡ false
    → view (m ∷ ms) q ≡ view ms q
unfolding get
view-below m ms q other = rw (view, get, other) refl

change-here :
    (id : Bytes) (set : Bool) (flag : MarkFlags) (m : PkgMark) (ms : List PkgMark)
    → str_eq m.id id ≡ true
    → change id set flag (m ∷ ms) ≡ record m { flags = changed set m.flags flag } ∷ ms
unfolding change
change-here id set flag m ms same = rw (change, same) refl

change-below :
    (id : Bytes) (set : Bool) (flag : MarkFlags) (m : PkgMark) (ms : List PkgMark)
    → str_eq m.id id ≡ false
    → change id set flag (m ∷ ms) ≡ m ∷ change id set flag ms
unfolding change
change-below id set flag m ms other = rw (change, other) refl

-- The entry that is changed is that of the identifier, if there is one.
view-change :
    (id q : Bytes) (set : Bool) (flag : MarkFlags) (ht : List PkgMark)
    → view (change id set flag ht) q
      ≡ (if str_eq id q then mass_changed? set flag (view ht q) else view ht q)
unfolding get change
view-change id q set flag [] = elim (Bool-cases (str_eq id q)) [
  | inl same ↦ rw same refl
  | inr other ↦ rw other refl
]
view-change id q set flag (m ∷ ms) =
    let touched : PkgMark = record m { flags = changed set m.flags flag } in
    elim (Bool-cases (str_eq m.id id)) [
      | inl here ↦
          let start = ap (λ l. view l q) (change-here id set flag m ms here) in
          elim (Bool-cases (str_eq m.id q)) [
            | inl same ↦
                let same' : str_eq id q ≡ true = rw (← strcmp_eq m.id id here) same in
                start ∙ view-here touched ms q same ∙ rw (same', view-here m ms q same) refl
            | inr other ↦
                let other' : str_eq id q ≡ false = rw (← strcmp_eq m.id id here) other in
                start ∙ view-below touched ms q other ∙ rw (other', view-below m ms q other) refl
          ]
      | inr below ↦
          let start = ap (λ l. view l q) (change-below id set flag m ms below) in
          elim (Bool-cases (str_eq m.id q)) [
            | inl same ↦
                let other : str_eq id q ≡ false = str_ne m.id id q below same in
                start
                ∙ view-here m (change id set flag ms) q same
                ∙ rw (other, view-here m ms q same) refl
            | inr apart ↦
                start
                ∙ view-below m (change id set flag ms) q apart
                ∙ rw (view-below m ms q apart) (view-change id q set flag ms)
          ]
    ]

view-massset :
    (q : Bytes) (set : Bool) (flag : MarkFlags) (ht : List PkgMark)
    → view (pkgmark_massset set flag ht) q ≡ mass_changed? set flag (view ht q)
unfolding get pkgmark_massset
view-massset q set flag [] = refl
view-massset q set flag (m ∷ ms) =
    let touched : PkgMark = record m { flags = changed set m.flags flag } in
    elim (Bool-cases (str_eq m.id q)) [
      | inl same ↦
          view-here touched (pkgmark_massset set flag ms) q same
          ∙ ap (mass_changed? set flag) (sym (view-here m ms q same))
      | inr other ↦
          view-below touched (pkgmark_massset set flag ms) q other
          ∙ view-massset q set flag ms
          ∙ ap (mass_changed? set flag) (sym (view-below m ms q other))
    ]

view-absent : (id : Bytes) (ht : List PkgMark) → get id ht ≡ none → view ht id ≡ none
view-absent id ht absent = rw (view, absent) refl

view-found :
    (id : Bytes) (ht : List PkgMark) (m : PkgMark) → get id ht ≡ some m → view ht id ≡ some m.flags
view-found id ht m found = rw (view, found) refl

-- On an identifier that has an entry the two updates are the same.
agree :
    (id q : Bytes) (set : Bool) (flag : MarkFlags) (ht : List PkgMark) (m : PkgMark)
    → view ht id ≡ some m.flags
    → (if str_eq id q then mass_changed? set flag (view ht q) else view ht q)
      ≡ (if str_eq id q then changed? set flag (view ht q) else view ht q)
agree id q set flag ht m found = elim (Bool-cases (str_eq id q)) [
  | inl same ↦
      let found' : view ht q ≡ some m.flags = rw (← strcmp_eq id q same) found in
      rw (same, found') refl
  | inr other ↦ rw other refl
]

abbrev made : Bytes → ℕ → MarkFlags → PkgMark
made id p flag = record { id = id; pkg = p; flags = with_flag no_marks flag }

view-made :
    (id q : Bytes) (p : ℕ) (set : Bool) (flag : MarkFlags) (ht : List PkgMark)
    → view ht id ≡ none
    → view (if set then made id p flag ∷ ht else ht) q
      ≡ (if str_eq id q then changed? set flag (view ht q) else view ht q)
view-made id q p true flag ht absent = elim (Bool-cases (str_eq id q)) [
  | inl same ↦
      let absent' : view ht q ≡ none = rw (← strcmp_eq id q same) absent in
      view-here (made id p flag) ht q same ∙ rw (same, absent') refl
  | inr other ↦ view-below (made id p flag) ht q other ∙ rw other refl
]
view-made id q p false flag ht absent = elim (Bool-cases (str_eq id q)) [
  | inl same ↦
      let absent' : view ht q ≡ none = rw (← strcmp_eq id q same) absent in rw (same, absent') refl
  | inr other ↦ rw other refl
]

abbrev pub has_any? : Option MarkFlags → MarkFlags → Bool
has_any? none flag = false
has_any? (some flags) flag = has_any flags flag

entry_flags :
    (o : Option PkgMark) (flag : MarkFlags)
    → (elim o [ none ↦ false | some m ↦ has_any m.flags flag ])
      ≡ has_any? (elim o [ none ↦ none | some m ↦ some m.flags ]) flag
entry_flags none flag = refl
entry_flags (some m) flag = refl

module _ (pkg_at : ℕ → Pkg) (printed : ℕ → Bytes) where
  set-absent :
      (pms : PkgmarkSet) (p : ℕ) (set : Bool) (flag : MarkFlags)
      → get (package_id pkg_at printed pms.idnevr p) pms.ht ≡ none
      → (pkgmark_set pkg_at printed pms p set flag).ht ≡ (
          if set
          then record {
            id = package_id pkg_at printed pms.idnevr p;
            pkg = p;
            flags = with_flag no_marks flag;
          }
            ∷ pms.ht
          else pms.ht)
  unfolding pkgmark_set
  set-absent pms p true flag absent = rw (pkgmark_set, absent) refl
  set-absent pms p false flag absent = rw (pkgmark_set, absent) refl

  set-found :
      (pms : PkgmarkSet) (p : ℕ) (set : Bool) (flag : MarkFlags) (m : PkgMark)
      → get (package_id pkg_at printed pms.idnevr p) pms.ht ≡ some m
      → (pkgmark_set pkg_at printed pms p set flag).ht
        ≡ change (package_id pkg_at printed pms.idnevr p) set flag pms.ht
  unfolding pkgmark_set
  set-found pms p set flag m found = rw (pkgmark_set, found) refl

  -- What `pkgmark_set` does to the map.
  pub view-pkgmark_set :
      (pms : PkgmarkSet) (p : ℕ) (set : Bool) (flag : MarkFlags) (q : Bytes)
      → view (pkgmark_set pkg_at printed pms p set flag).ht q ≡ (
          if str_eq (package_id pkg_at printed pms.idnevr p) q
          then changed? set flag (view pms.ht q)
          else view pms.ht q)
  view-pkgmark_set pms p set flag q =
      let id = package_id pkg_at printed pms.idnevr p in
      elim (Option-cases (get id pms.ht)) [
        | inl absent ↦
            ap (λ l. view l q) (set-absent pms p set flag absent)
            ∙ view-made id q p set flag pms.ht (view-absent id pms.ht absent)
        | inr (m, found) ↦
            ap (λ l. view l q) (set-found pms p set flag m found)
            ∙ view-change id q set flag pms.ht
            ∙ agree id q set flag pms.ht m (view-found id pms.ht m found)
      ]

  -- `pkgmark_set` leaves the kind of the identifiers.
  pub idnevr-pkgmark_set :
      (pms : PkgmarkSet) (p : ℕ) (set : Bool) (flag : MarkFlags)
      → (pkgmark_set pkg_at printed pms p set flag).idnevr ≡ pms.idnevr
  unfolding pkgmark_set
  idnevr-pkgmark_set pms p set flag =
      elim (Option-cases (get (package_id pkg_at printed pms.idnevr p) pms.ht)) [
        | inl absent ↦ ground arith
        | inr (m, found) ↦ ground arith
      ]

  -- One call, on a mark set and on a map.
  abbrev pub perform : MarkOp → PkgmarkSet → PkgmarkSet
  perform (set_op p set flag) pms = pkgmark_set pkg_at printed pms p set flag
  perform (massset_op set flag) pms = record pms { ht = pkgmark_massset set flag pms.ht }

  unfoldable pub run : List MarkOp → PkgmarkSet → PkgmarkSet
  run [] pms = pms
  run (op ∷ ops) pms = run ops (perform op pms)

  abbrev pub specify : Bool → MarkOp → Marks → Marks
  specify idnevr (set_op p set flag) marks q =
      if str_eq (package_id pkg_at printed idnevr p) q then changed? set flag (marks q) else marks q
  specify idnevr (massset_op set flag) marks q = mass_changed? set flag (marks q)

  unfoldable pub replay : Bool → List MarkOp → Marks → Marks
  replay idnevr [] marks = marks
  replay idnevr (op ∷ ops) marks = replay idnevr ops (specify idnevr op marks)

  perform-view :
      (op : MarkOp) (pms : PkgmarkSet) (q : Bytes)
      → view (perform op pms).ht q ≡ specify pms.idnevr op (view pms.ht) q
  perform-view (set_op p set flag) pms q = view-pkgmark_set pms p set flag q
  perform-view (massset_op set flag) pms q = view-massset q set flag pms.ht

  idnevr-perform : (op : MarkOp) (pms : PkgmarkSet) → (perform op pms).idnevr ≡ pms.idnevr
  idnevr-perform (set_op p set flag) pms = idnevr-pkgmark_set pms p set flag
  idnevr-perform (massset_op set flag) pms = refl

  specify-agree :
      (idnevr : Bool) (op : MarkOp) (f g : Marks) (q : Bytes)
      → f q ≡ g q
      → specify idnevr op f q ≡ specify idnevr op g q
  specify-agree idnevr (set_op p set flag) f g q e = rw e refl
  specify-agree idnevr (massset_op set flag) f g q e = rw e refl

  replay-agree :
      (idnevr : Bool) (ops : List MarkOp) (f g : Marks) (q : Bytes)
      → f q ≡ g q
      → replay idnevr ops f q ≡ replay idnevr ops g q
  unfolding replay
  replay-agree idnevr [] f g q e = e
  replay-agree idnevr (op ∷ ops) f g q e =
      replay-agree idnevr ops (specify idnevr op f) (specify idnevr op g) q
        (specify-agree idnevr op f g q e)

  -- A mark set is a finite map: after any calls of `pkgmark_set` and `pkgmark_massset`, whatever
  -- packages share an identifier, the flags found for an identifier are those that the same calls
  -- give on a function from identifiers to flags.
  pub run-refines :
      (ops : List MarkOp) (pms : PkgmarkSet) (q : Bytes)
      → view (run ops pms).ht q ≡ replay pms.idnevr ops (view pms.ht) q
  unfolding run replay
  run-refines [] pms q = refl
  run-refines (op ∷ ops) pms q =
      run-refines ops (perform op pms) q
      ∙ ap (λ b. replay b ops (view (perform op pms).ht) q) (idnevr-perform op pms)
      ∙ replay-agree pms.idnevr ops (view (perform op pms).ht) (specify pms.idnevr op (view pms.ht))
          q (perform-view op pms q)

  -- What `pkgmark_isset` answers is read off the map.
  pub isset-view :
      (pms : PkgmarkSet) (p : ℕ) (flag : MarkFlags)
      → pkgmark_isset pkg_at printed pms p flag
        ≡ has_any? (view pms.ht (package_id pkg_at printed pms.idnevr p)) flag
  unfolding pkgmark_isset
  isset-view pms p flag = entry_flags (get (package_id pkg_at printed pms.idnevr p) pms.ht) flag
