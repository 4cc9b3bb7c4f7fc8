-- ===== src/Order/Passes.antt =====
-- `do_packages_order`: the two passes.
use mathlib.Core.List.{reverse, reverse-reverse}
use poldek.Base.{
  ℕ, ◌≡◌, refl, sym, ap, ◌∙◌, Bool, true, false, some, List, [], ◌∷◌, arith, ltb, if◌then◌else◌,
}
use poldek.Order.{
  Color, Visit, Rp, Reqpkg, ReqpkgFlag, no_flag, edges, do_order, OrderType, flag_of, packages,
  do_packages_order,
}
use poldek.Order.Colors.{IsAmong}
use poldek.Order.Advance.{count, Descends, IsRanked, IsSettled, IsTopological}
use poldek.Order.Start.{is_member, IsOnce, IsElsewhere, IsAmong-of_member, member_of_among}
use poldek.Order.Sorted.{do_order-pass, do_order-IsOnce, do_order-IsTopological}

pub is_member-count : (q : ℕ) (ps : List ℕ) → is_member q ps ≡ ltb 0 (count q ps)
unfolding count
is_member-count q [] = ground arith
is_member-count q (p ∷ ps) = ground (arith, is_member-count q ps)

-- A sort leaves the packages as they are, but for their order.
abbrev pub IsSort : (List ℕ → List ℕ) → Type 0
IsSort sort = (ps : List ℕ) (q : ℕ) → count q (sort ps) ≡ count q ps

-- Two lists of the same packages.
abbrev IsSame : List ℕ → List ℕ → Type 0
IsSame ps qs = (q : ℕ) → is_member q ps ≡ is_member q qs

sort-IsSame : (sort : List ℕ → List ℕ) (ps : List ℕ) → IsSort sort → IsSame (sort ps) ps
sort-IsSame sort ps h q =
    is_member-count q (sort ps) ∙ ap (ltb 0) (h ps q) ∙ sym (is_member-count q ps)

once-IsSame : (pkgs ps : List ℕ) → IsOnce pkgs ps → IsSame ps pkgs
once-IsSame pkgs ps h q = is_member-count q ps ∙ ap (ltb 0) (h q) ∙ positive (is_member q pkgs)
  where
    positive : (b : Bool) → ltb 0 (if b then 1 else 0) ≡ b
    positive true = refl
    positive false = refl

IsElsewhere-same :
    (ps qs : List ℕ) (colors : ℕ → Color)
    → IsSame ps qs
    → IsElsewhere qs colors
    → IsElsewhere ps colors
IsElsewhere-same ps qs colors same h q other = h q (sym (same q) ∙ other)

IsOnce-same : (ps qs rs : List ℕ) → IsSame ps qs → IsOnce ps rs → IsOnce qs rs
IsOnce-same ps qs rs same h q = h q ∙ ap (λ b. if b then 1 else 0) (same q)

IsAmong-of_same : (ps qs : List ℕ) (q : ℕ) → IsSame ps qs → IsAmong q qs → IsAmong q ps
IsAmong-of_same ps qs q same h = IsAmong-of_member q ps (same q ∙ member_of_among q qs h)

module _ (required : ℕ → List Reqpkg) (flag : ReqpkgFlag) (ps qs : List ℕ)
    (same : IsSame ps qs) where
  IsSettled-same :
      (xs : List ℕ) (rps : List Rp)
      → IsSettled required flag ps xs rps
      → IsSettled required flag qs xs rps
  IsSettled-same xs [] h = tt
  IsSettled-same xs (rp ∷ rps) h = (
    λ followed among. h.0 followed (IsAmong-of_same ps qs rp.pkg same among),
    IsSettled-same xs rps h.1,
  )

  IsTopological-same :
      (xs : List ℕ) → IsTopological required flag ps xs → IsTopological required flag qs xs
  IsTopological-same [] h = tt
  IsTopological-same (x ∷ xs) h =
      (IsSettled-same xs (edges (required x)) h.0, IsTopological-same xs h.1)

  Descends-same :
      (rank : ℕ → ℕ) (p : ℕ) (rps : List Rp)
      → Descends required flag ps rank p rps
      → Descends required flag qs rank p rps
  Descends-same rank p [] h = tt
  Descends-same rank p (rp ∷ rps) h = (
    λ followed among. h.0 followed (IsAmong-of_same ps qs rp.pkg same among),
    Descends-same rank p rps h.1,
  )

  IsRanked-same : (rank : ℕ → ℕ) → IsRanked required flag ps rank → IsRanked required flag qs rank
  IsRanked-same rank h p among =
      Descends-same rank p (edges (required p)) (h p (IsAmong-of_same ps qs p same among))

do_packages_order-ends :
    (required : ℕ → List Reqpkg) (presort : List ℕ → List ℕ) (pkgs : List ℕ) (colors : ℕ → Color)
    (prereqed : ℕ → Bool) (ordertype : OrderType) (t u : Visit)
    → do_order required no_flag (presort pkgs) colors prereqed ≡ some t
    → do_order required (flag_of ordertype) (packages t) t.colors t.prereqed ≡ some u
    → do_packages_order required presort pkgs colors prereqed ordertype
      ≡ some (packages u, u.nerrors)
unfolding do_packages_order
do_packages_order-ends required presort pkgs colors prereqed ordertype t u h k =
    rw (do_packages_order, h, k) refl

module _ (required : ℕ → List Reqpkg) (presort : List ℕ → List ℕ) (pkgs : List ℕ)
    (colors : ℕ → Color) (prereqed : ℕ → Bool) (sorts : IsSort presort)
    (others : IsElsewhere pkgs colors) where
  -- The first pass, from which the second can start.
  first_pass :
      (t : Visit) × (do_order required no_flag (presort pkgs) colors prereqed ≡ some t)
      × IsSame (packages t) pkgs
      × IsElsewhere (packages t) t.colors
  first_pass =
      let same = sort-IsSame presort pkgs sorts in
      let (t, ends, once, elsewhere) =
        do_order-pass required no_flag (presort pkgs) colors prereqed
          (IsElsewhere-same (presort pkgs) pkgs colors same others) in
      let same' = once-IsSame (presort pkgs) (packages t) once in
      (
        t,
        ends,
        (λ q. same' q ∙ same q),
        IsElsewhere-same (packages t) (presort pkgs) t.colors same' elsewhere,
      )

-- Where nothing but the packages to be ordered is coloured and `presort` only reorders: both
-- passes end, and the result has each of the packages once and nothing else, for either order
-- type and whatever the packages require.
pub do_packages_order-IsOnce :
    (required : ℕ → List Reqpkg) (presort : List ℕ → List ℕ) (pkgs : List ℕ) (colors : ℕ → Color)
    (prereqed : ℕ → Bool) (ordertype : OrderType)
    → IsSort presort
    → IsElsewhere pkgs colors
    → (r : List ℕ × ℕ) × (do_packages_order required presort pkgs colors prereqed ordertype
        ≡ some r)
      × IsOnce pkgs r.0
do_packages_order-IsOnce required presort pkgs colors prereqed ordertype sorts others =
    let (t, ends, same, elsewhere) =
      first_pass required presort pkgs colors prereqed sorts others in
    let (u, ends', once) =
      do_order-IsOnce required (flag_of ordertype) (packages t) t.colors t.prereqed elsewhere in
    (
      (packages u, u.nerrors),
      do_packages_order-ends required presort pkgs colors prereqed ordertype t u ends ends',
      IsOnce-same (packages t) pkgs (packages u) same once,
    )

-- Where nothing but the packages to be ordered is coloured, `presort` only reorders, and some rank
-- falls along every prerequirement (of the kind that the order type looks at) that leads from one
-- of the packages to one of them: both passes end, no loop is
-- counted, and each package stands behind all its prerequirements among the packages. In the
-- statement the list is reversed, the last package first.
pub do_packages_order-IsTopological :
    (required : ℕ → List Reqpkg) (presort : List ℕ → List ℕ) (pkgs : List ℕ) (colors : ℕ → Color)
    (prereqed : ℕ → Bool) (ordertype : OrderType) (rank : ℕ → ℕ)
    → IsSort presort
    → IsElsewhere pkgs colors
    → IsRanked required (flag_of ordertype) pkgs rank
    → (r : List ℕ × ℕ) × (do_packages_order required presort pkgs colors prereqed ordertype
        ≡ some r)
      × IsTopological required (flag_of ordertype) pkgs (reverse r.0)
      × (r.1 ≡ 0)
do_packages_order-IsTopological required presort pkgs colors prereqed ordertype rank sorts others
      ranked =
    let (t, ends, same, elsewhere) =
      first_pass required presort pkgs colors prereqed sorts others in
    let back : IsSame pkgs (packages t) = λ q. sym (same q) in
    let (u, ends', sorted, none_more) =
      do_order-IsTopological required (flag_of ordertype) (packages t) t.colors t.prereqed rank
        elsewhere (IsRanked-same required (flag_of ordertype) pkgs (packages t) back rank ranked) in
    (
      (packages u, u.nerrors),
      do_packages_order-ends required presort pkgs colors prereqed ordertype t u ends ends',
      rw (reverse-reverse u.ordered)
          (IsTopological-same required (flag_of ordertype) (packages t) pkgs same u.ordered sorted),
      none_more,
    )
