-- ===== src/Match/Caps.antt =====
-- `pkg_caps_match_req` searches the sorted capabilities by name and scans from there; this is the
-- same as asking every capability.
use poldek.Base.{
  ℕ, zero, suc, ◌≡◌, refl, sym, inl, inr, Bool, true, false, ◌||◌, Option, none, some, List, [],
  ◌∷◌, arith, All, drop, Bool-cases,
}
use poldek.Base.Int.{ℤ, IsNonPos}
use poldek.Base.Bytes.{Bytes, strcmp, str_eq, strcmp-IsPreorder, strcmp_eq}
use poldek.Capreq.{Capreq}
use poldek.Pkg.{Pkg}
use poldek.Match.{MaFlags, cap_xmatch_req, scan_caps, scan_found, match_caps, pkg_caps_match_req}
use poldek.Match.Search.{IsSorted, IsFirst, IsFind}

-- The elements of an array that may be NULL.
abbrev pub list_of : Option (List Capreq) → List Capreq
list_of none = []
list_of (some cs) = cs

-- Some capability of the list meets the requirement.
unfoldable pub any_cap : (Capreq → Bool) → List Capreq → Bool
any_cap meets [] = false
any_cap meets (c ∷ cs) = meets c || any_cap meets cs

any_cap-none :
    (meets : Capreq → Bool) (cs : List Capreq)
    → All (λ c. meets c ≡ false) cs
    → any_cap meets cs ≡ false
unfolding any_cap
any_cap-none meets [] h = refl
any_cap-none meets (c ∷ cs) h = rw (h.0, any_cap-none meets cs h.1)

-- A name at or above one that is above `r` is not `r`.
squeeze :
    (r c d : Bytes)
    → str_eq c r ≡ false
    → IsNonPos (strcmp r c)
    → IsNonPos (strcmp c d)
    → str_eq d r ≡ false
squeeze r c d other above up =
    let o = strcmp-IsPreorder in ground (arith, o.flips r c tt tt, o.transitive c d r tt tt tt)

module _ (vercmp : Bytes → Bytes → ℤ) (promote_epoch : Bool) (req : Capreq) (flags : MaFlags) where
  abbrev meets : Capreq → Bool
  meets c = cap_xmatch_req vercmp promote_epoch c req flags

  other_name : (c : Capreq) → str_eq c.name req.name ≡ false → meets c ≡ false
  unfolding cap_xmatch_req
  other_name c h = rw h

  -- Behind a name that is above the one asked for there are only names above it.
  others_behind :
      (c : Capreq) (cs : List Capreq)
      → str_eq c.name req.name ≡ false
      → IsNonPos (strcmp req.name c.name)
      → All (λ d. IsNonPos (strcmp c.name d.name)) cs
      → All (λ d. meets d ≡ false) cs
  others_behind c [] other above sorted = tt
  others_behind c (d ∷ cs) other above sorted = (
    other_name d (squeeze req.name c.name d.name other above sorted.0),
    others_behind c cs other above sorted.1,
  )

  scan_caps-eq :
      (cs : List Capreq)
      → IsSorted cs
      → All (λ d. IsNonPos (strcmp req.name d.name)) cs
      → scan_caps vercmp promote_epoch false cs req flags ≡ any_cap meets cs
  unfolding scan_caps any_cap
  scan_caps-eq [] sorted above = refl
  scan_caps-eq (c ∷ cs) sorted above = elim (Bool-cases (str_eq c.name req.name)) [
    | inl same ↦ ground (arith, scan_caps-eq cs sorted.1 above.1)
    | inr other ↦
        let behind = any_cap-none meets cs (others_behind c cs other above.0 sorted.0) in
        ground (arith, behind, other_name c other)
  ]

  above_of :
      (c : Capreq) (cs : List Capreq)
      → c.name ≡ req.name
      → All (λ d. IsNonPos (strcmp c.name d.name)) cs
      → All (λ d. IsNonPos (strcmp req.name d.name)) cs
  above_of c [] same h = tt
  above_of c (d ∷ cs) same h = (rw same at h.0, above_of c cs same h.1)

  scan_caps-drop :
      (cs : List Capreq) (n : ℕ)
      → IsSorted cs
      → IsFirst req.name cs (some n)
      → scan_caps vercmp promote_epoch true (drop n cs) req flags ≡ any_cap meets cs
  unfolding scan_caps any_cap
  scan_caps-drop [] n sorted h = absurd h
  scan_caps-drop (c ∷ cs) zero sorted h =
      let same = strcmp_eq c.name req.name h in
      ground (arith, scan_caps-eq cs sorted.1 (above_of c cs same sorted.0))
  scan_caps-drop (c ∷ cs) (suc n) sorted h =
      rw (other_name c h.0) (scan_caps-drop cs n sorted.1 h.1)

  none_named : (cs : List Capreq) → IsFirst req.name cs none → any_cap meets cs ≡ false
  unfolding any_cap
  none_named [] h = refl
  none_named (c ∷ cs) h = rw (other_name c h.0, none_named cs h.1)

  module _ (find : List Capreq → Bytes → Option ℕ) (law : IsFind find) where
    scan_found-eq :
        (o : Option ℕ) (cs : List Capreq)
        → IsSorted cs
        → IsFirst req.name cs o
        → scan_found vercmp promote_epoch find o cs req flags ≡ any_cap meets cs
    unfolding scan_found
    scan_found-eq none cs sorted h = sym (none_named cs h)
    scan_found-eq (some n) cs sorted h = scan_caps-drop cs n sorted h

    match_caps-eq :
        (caps : Option (List Capreq))
        → IsSorted (list_of caps)
        → match_caps vercmp promote_epoch find caps req flags ≡ any_cap meets (list_of caps)
    unfolding match_caps any_cap
    match_caps-eq none sorted = refl
    match_caps-eq (some cs) sorted =
        scan_found-eq (find cs req.name) cs sorted (law cs req.name sorted)

-- On sorted capabilities, and with a search that returns the first place of a name, the search
-- with the scan behind it answers as asking every capability would.
pub pkg_caps_match_req-eq :
    (vercmp : Bytes → Bytes → ℤ) (promote_epoch : Bool) (find : List Capreq → Bytes → Option ℕ)
    (pkg : Pkg) (req : Capreq) (flags : MaFlags)
    → IsFind find
    → IsSorted (list_of pkg.caps)
    → pkg_caps_match_req vercmp promote_epoch find pkg req flags
      ≡ any_cap (λ c. cap_xmatch_req vercmp promote_epoch c req flags) (list_of pkg.caps)
unfolding pkg_caps_match_req
pkg_caps_match_req-eq vercmp promote_epoch find pkg req flags law sorted =
    match_caps-eq vercmp promote_epoch req flags find law pkg.caps sorted
