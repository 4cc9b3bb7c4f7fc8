-- ===== src/Order/Size.antt =====
-- The assertion of `do_order` that as many packages are put out as were to be ordered.
use poldek.Base.{
  ℕ, suc, ◌+◌, ◌≤◌, ◌<◌, ◌≡◌, refl, sym, ap, ◌∙◌, inl, inr, Bool, some, List, [], ◌∷◌, arith,
  length, ◌==◌, if◌then◌else◌, Bool-cases,
}
use poldek.Order.{Color, Visit, Reqpkg, ReqpkgFlag, do_order, packages}
use poldek.Order.Advance.{count}
use poldek.Order.Start.{is_member, IsElsewhere}
use poldek.Order.Passes.{is_member-count}
use poldek.Order.Sorted.{do_order-IsOnce}

remove : ℕ → List ℕ → List ℕ
remove x [] = []
remove x (y ∷ ys) = let rest = remove x ys in if x == y then ys else y ∷ rest

count-remove :
    (q x : ℕ) (ys : List ℕ)
    → 0 < count x ys
    → count q ys ≡ (if q == x then 1 else 0) + count q (remove x ys)
unfolding count remove
count-remove q x [] h = absurd (omega arith)
count-remove q x (y ∷ ys) h = elim (Bool-cases (x == y)) [
  | inl same ↦ ground arith
  | inr other ↦ ground (arith, count-remove q x ys)
]

length-remove : (x : ℕ) (ys : List ℕ) → 0 < count x ys → length ys ≡ suc (length (remove x ys))
unfolding count remove
length-remove x [] h = absurd (omega arith)
length-remove x (y ∷ ys) h = elim (Bool-cases (x == y)) [
  | inl same ↦ rw same refl
  | inr other ↦ ground (arith, length-remove x ys)
]

count_self : (x : ℕ) (xs : List ℕ) → count x (x ∷ xs) ≡ suc (count x xs)
unfolding count
count_self x xs = ground arith

length_of_counts : (xs ys : List ℕ) → ((q : ℕ) → count q xs ≡ count q ys) → length xs ≡ length ys
unfolding count
length_of_counts [] [] h = refl
length_of_counts [] (y ∷ ys) h = absurd (omega (arith, h y, count_self y ys))
length_of_counts (x ∷ xs) ys h =
    let here : 0 < count x ys = omega (arith, h x, count_self x xs) in
    let rest =
      length_of_counts xs (remove x ys) (λ q. omega (arith, h q, count-remove q x ys here)) in
    ap suc rest ∙ sym (length-remove x ys here)

-- No package stands in the list twice.
abbrev pub IsDistinct : List ℕ → Type 0
IsDistinct ps = (q : ℕ) → count q ps ≤ 1

distinct-count :
    (q : ℕ) (ps : List ℕ) → count q ps ≤ 1 → (if is_member q ps then 1 else 0) ≡ count q ps
distinct-count q ps h = ground (arith, is_member-count q ps)

-- Where nothing but the packages to be ordered is coloured and none of them is given twice,
-- `do_order` ends with an array of the size of the given one.
pub length-do_order :
    (required : ℕ → List Reqpkg) (flag : ReqpkgFlag) (pkgs : List ℕ) (colors : ℕ → Color)
    (prereqed : ℕ → Bool)
    → IsElsewhere pkgs colors
    → IsDistinct pkgs
    → (t : Visit) × (do_order required flag pkgs colors prereqed ≡ some t)
      × (length (packages t) ≡ length pkgs)
length-do_order required flag pkgs colors prereqed others distinct =
    let (t, ends, once) = do_order-IsOnce required flag pkgs colors prereqed others in
    (t, ends, length_of_counts (packages t) pkgs (λ q. once q ∙ distinct-count q pkgs (distinct q)))
