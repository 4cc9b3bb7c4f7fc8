-- ===== src/Order/Tests.antt =====
-- Runs of the sort and instances of its theorems on three packages, of which 1 needs 2 and 2 needs
-- 3.
use mathlib.Core.List.{reverse}
use poldek.Base.{
  length, ℕ, ◌-◌, ◌==◌, if◌then◌else◌, inl, inr, ◌≡◌, refl, Bool, true, false, some, List, [], ◌∷◌,
  arith,
}
use poldek.Order.{
  Color, none_of_pool, Reqpkg, no_flag, of_prereq, do_order, install, uninstall, packages, edges,
  Visit, do_packages_order,
}
use poldek.Order.Advance.{count, IsRanked, IsTopological}
use poldek.Order.Start.{IsOnce, IsElsewhere}
use poldek.Order.Sorted.{do_order-IsOnce, do_order-IsTopological}
use poldek.Order.Size.{IsDistinct, length-do_order}
use poldek.Order.Passes.{do_packages_order-IsOnce, do_packages_order-IsTopological}

abbrev need : ℕ → List Reqpkg
need p =
    record { rp = record { pkg = p; prereq = true; prereq_un = false }; multi = false; adds = [] }
    ∷ []

abbrev required : ℕ → List Reqpkg
required p = if p == 1 then need 2 else if p == 2 then need 3 else []

abbrev pkgs : List ℕ
pkgs = 1 ∷ 2 ∷ 3 ∷ []

abbrev uncoloured : ℕ → Color
uncoloured p = none_of_pool

abbrev no_mark : ℕ → Bool
no_mark p = false

abbrev rank : ℕ → ℕ
rank p = 3 - p

uncoloured-IsElsewhere : IsElsewhere pkgs uncoloured
uncoloured-IsElsewhere q other = refl

test_order :
    do_packages_order required (λ ps. ps) pkgs uncoloured no_mark install ≡ some (3 ∷ 2 ∷ 1 ∷ [], 0)
unfolding do_packages_order
test_order = refl

ranked : IsRanked required of_prereq pkgs rank
unfolding edges
ranked p (inl e) = rw e ((λ followed among. omega arith), tt)
ranked p (inr (inl e)) = rw e ((λ followed among. omega arith), tt)
ranked p (inr (inr (inl e))) = rw e tt
ranked p (inr (inr (inr e))) = absurd e

do_order-IsOnce_example :
    (t : Visit) × (do_order required no_flag pkgs uncoloured no_mark ≡ some t)
    × IsOnce pkgs (packages t)
do_order-IsOnce_example =
    do_order-IsOnce required no_flag pkgs uncoloured no_mark uncoloured-IsElsewhere

do_order-IsTopological_example :
    (t : Visit) × (do_order required of_prereq pkgs uncoloured no_mark ≡ some t)
    × IsTopological required of_prereq pkgs t.ordered
    × (t.nerrors ≡ 0)
do_order-IsTopological_example =
    do_order-IsTopological required of_prereq pkgs uncoloured no_mark rank uncoloured-IsElsewhere
      ranked

do_packages_order-IsOnce_example :
    (r : List ℕ × ℕ) × (do_packages_order required (λ ps. ps) pkgs uncoloured no_mark uninstall
      ≡ some r)
    × IsOnce pkgs r.0
do_packages_order-IsOnce_example =
    do_packages_order-IsOnce required (λ ps. ps) pkgs uncoloured no_mark uninstall (λ ps q. refl)
      uncoloured-IsElsewhere

do_packages_order-IsTopological_example :
    (r : List ℕ × ℕ) × (do_packages_order required (λ ps. ps) pkgs uncoloured no_mark install
      ≡ some r)
    × IsTopological required of_prereq pkgs (reverse r.0)
    × (r.1 ≡ 0)
do_packages_order-IsTopological_example =
    do_packages_order-IsTopological required (λ ps. ps) pkgs uncoloured no_mark install rank
      (λ ps q. refl) uncoloured-IsElsewhere ranked

pkgs-IsDistinct : IsDistinct pkgs
unfolding count
pkgs-IsDistinct q = ground arith

length-do_order_example :
    (t : Visit) × (do_order required no_flag pkgs uncoloured no_mark ≡ some t)
    × (length (packages t) ≡ length pkgs)
length-do_order_example =
    length-do_order required no_flag pkgs uncoloured no_mark uncoloured-IsElsewhere pkgs-IsDistinct
