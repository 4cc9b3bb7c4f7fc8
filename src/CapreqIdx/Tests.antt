-- ===== src/CapreqIdx/Tests.antt =====
-- Instances of the theorems about the index of capabilities.
use poldek.Base.{ℕ, ◌-◌, ◌^◌, ◌≡◌, refl, Bool, true, List, [], ◌∷◌, ◌==◌, ltb, if◌then◌else◌, arith}
use poldek.Base.Int.{ℤ, pos, negsuc, sub_ℕ}
use poldek.Base.Bytes.{codes, strcmp, has_prefix}
use poldek.Isort.{isort}
use poldek.Order.Start.{is_member}
use poldek.CapreqIdx.{
  idx_cap, idx_req, idx_ent_sort, idx_ent_contains, indexable_cap, add_to_ent, insert,
  capreq_idx_add, capreq_idx_lookup, capreq_idx_remove, every_other, answer, ptr_diff,
}
use poldek.CapreqIdx.Search.{IsTold}
use poldek.CapreqIdx.Found.{Add, adds, found}
use poldek.CapreqIdx.Adds.{is_added, capreq_idx_lookup-adds, capreq_idx_lookup-adds_req}

-- A subtraction whose results have the wrong sign.
abbrev backwards : ℕ → ℕ → ℤ
backwards a b = sub_ℕ b a

abbrev low : ℕ → Bool
low p = ltb p 8

low-IsTold : IsTold backwards low
unfolding ptr_diff
low-IsTold a b ha hb e = ground (arith, ha, hb, e)

abbrev call : ℕ → Add
call p = record { capname = codes "foo"; pkg = p }

abbrev calls : List Add
calls = call 5 ∷ call 3 ∷ record { capname = codes "bar"; pkg = 4 } ∷ call 5 ∷ []

capreq_idx_lookup-adds_example :
    is_member 5 (found (codes "foo") (adds backwards idx_cap calls []))
    ≡ is_added (codes "foo") 5 calls
capreq_idx_lookup-adds_example =
    capreq_idx_lookup-adds backwards low low-IsTold calls (codes "foo") 5
      (refl, (refl, (refl, (refl, tt))))

capreq_idx_lookup-adds_req_example :
    found (codes "foo") (adds backwards idx_req calls []) ≡ 5 ∷ 3 ∷ 5 ∷ []
unfolding indexable_cap strcmp has_prefix every_other
capreq_idx_lookup-adds_req_example = capreq_idx_lookup-adds_req backwards calls (codes "foo")

-- With the difference of the numbers each package is there once.
found_once : found (codes "foo") (adds sub_ℕ idx_cap calls []) ≡ 3 ∷ 5 ∷ []
unfolding adds capreq_idx_add insert capreq_idx_lookup strcmp add_to_ent idx_ent_contains
    idx_ent_sort isort answer ptr_diff
found_once = refl

-- Where the sign of a difference is lost by the cut to an `int`, a package that is there is missed
-- by the search, and put in again.
abbrev cut_sign : ℕ → ℕ → ℤ
cut_sign a b = if a == b then pos 0 else if ltb a b then negsuc (2 ^ 32 - 2) else pos (2 ^ 32 - 1)

found_twice :
    found (codes "foo") (adds cut_sign idx_cap (call 5 ∷ call 3 ∷ call 3 ∷ []) []) ≡ 3 ∷ 3 ∷ 5 ∷ []
unfolding adds capreq_idx_add insert capreq_idx_lookup strcmp add_to_ent idx_ent_contains
    idx_ent_sort isort answer ptr_diff
found_twice = refl

-- The second of the names that `indexable_cap` lists is taken.
bin_is_taken : indexable_cap (codes "/bin") ≡ true
unfolding indexable_cap strcmp has_prefix every_other
bin_is_taken = refl

-- Of two equal packages side by side one stays.
one_stays :
    capreq_idx_remove
      (λ p. p == 3)
      (codes "foo")
      (record { capname = codes "foo"; pkgs = 3 ∷ 3 ∷ 5 ∷ [] } ∷ [])
    ≡ record { capname = codes "foo"; pkgs = 3 ∷ 5 ∷ [] } ∷ []
unfolding capreq_idx_remove strcmp
one_stays = refl
