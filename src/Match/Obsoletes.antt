-- ===== src/Match/Obsoletes.antt =====
-- pkg.c: `pkg_obsoletes_pkg` and `pkg_caps_obsoletes_pkg_caps`.
use poldek.Base.{
  ℕ, zero, suc, ◌-◌, ◌≡◌, refl, ap, sym, ◌∙◌, inl, inr, Bool, true, false, not, ◌&&◌, ◌||◌, Option,
  none, some, List, arith, length, get_elem?, if◌then◌else◌, Bool-cases,
}
use poldek.Base.Int.{ℤ, is_positive, is_zero}
use poldek.Base.Bytes.{Bytes, str_eq, strcmp_eq, strcmp_refl}
use poldek.Capreq.{Capreq}
use poldek.Pkg.{Pkg}
use poldek.Pkg.Cmp.{pkg_cmp_evr}
use poldek.Match.{pkg_match_req}

module _ (vercmp : Bytes → Bytes → ℤ) (promote_epoch : Bool)
    (find : List Capreq → Bytes → Option ℕ) where
  abbrev meets_strictly : Pkg → Capreq → Bool
  meets_strictly opkg cnfl = pkg_match_req vercmp promote_epoch find opkg cnfl true

  -- The loop behind the first entry. Its body reads the entry at `n`, which the loop does not
  -- change, and compares with the name of `pkg`.
  obsoletes_loop : ℕ → Pkg → Pkg → Capreq → Bool
  obsoletes_loop zero pkg opkg cnfl = false
  obsoletes_loop (suc rounds) pkg opkg cnfl =
      let next = obsoletes_loop rounds pkg opkg cnfl in
      if not cnfl.flags.prereq
      then next
      else if not (str_eq cnfl.name pkg.name)
      then false
      else if meets_strictly opkg cnfl
      then true
      else next

  -- The entries from the one that the search found; no entry behind it, no round.
  obsoletes_from : Pkg → Pkg → List Capreq → ℕ → Bool
  unfolding obsoletes_loop
  obsoletes_from pkg opkg cnfls n = elim (get_elem? cnfls n) [
    | none ↦ false
    | some cnfl ↦
        (cnfl.flags.prereq && meets_strictly opkg cnfl) || (elim (get_elem? cnfls (suc n)) [
          | none ↦ false
          | some next ↦ obsoletes_loop (length cnfls - suc n) pkg opkg next
        ])
  ]

  obsoletes_found : Pkg → Pkg → List Capreq → Option ℕ → Bool
  obsoletes_found pkg opkg cnfls none = false
  obsoletes_found pkg opkg cnfls (some n) = obsoletes_from pkg opkg cnfls n

  obsoletes_in : Pkg → Pkg → Option (List Capreq) → Bool
  obsoletes_in pkg opkg none = false
  obsoletes_in pkg opkg (some cnfls) = obsoletes_found pkg opkg cnfls (find cnfls opkg.name)

  unfoldable pub pkg_caps_obsoletes_pkg_caps : Pkg → Pkg → Bool
  unfolding obsoletes_in obsoletes_found obsoletes_from
  pkg_caps_obsoletes_pkg_caps pkg opkg = obsoletes_in pkg opkg pkg.cnfls

  unfoldable pub pkg_obsoletes_pkg : Pkg → Pkg → Bool
  unfolding pkg_caps_obsoletes_pkg_caps
  pkg_obsoletes_pkg pkg opkg =
      if not (str_eq pkg.name opkg.name)
      then pkg_caps_obsoletes_pkg_caps pkg opkg
      else is_positive (pkg_cmp_evr vercmp pkg opkg)

  -- An entry of another name ends the loop without an answer.
  loop-other_name :
      (rounds : ℕ) (pkg opkg : Pkg) (cnfl : Capreq)
      → str_eq cnfl.name pkg.name ≡ false
      → obsoletes_loop rounds pkg opkg cnfl ≡ false
  unfolding obsoletes_loop
  loop-other_name zero pkg opkg cnfl h = refl
  loop-other_name (suc rounds) pkg opkg cnfl h =
      ground (arith, loop-other_name rounds pkg opkg cnfl h)

other_name_of :
    (pkg opkg : Pkg) (second : Capreq)
    → str_eq pkg.name opkg.name ≡ false
    → second.name ≡ opkg.name
    → str_eq second.name pkg.name ≡ false
other_name_of pkg opkg second other named = elim (Bool-cases (str_eq second.name pkg.name)) [
  | inl same ↦
      let one : opkg.name ≡ pkg.name = sym named ∙ strcmp_eq second.name pkg.name same in
      absurd (cc (other, ap (λ t. str_eq t opkg.name) one, ap is_zero (strcmp_refl opkg.name)))
  | inr apart ↦ apart
]

-- Only the first obsolete of a name counts: where two stand for the name of `opkg`, which is not
-- the name of `pkg`, and the first does not match `opkg`, the answer is no, whether the second
-- matches or not.
pub pkg_obsoletes_pkg-second :
    (vercmp : Bytes → Bytes → ℤ) (promote_epoch : Bool) (find : List Capreq → Bytes → Option ℕ)
    (pkg opkg : Pkg) (cnfls : List Capreq) (n : ℕ) (first second : Capreq)
    → str_eq pkg.name opkg.name ≡ false
    → pkg.cnfls ≡ some cnfls
    → find cnfls opkg.name ≡ some n
    → get_elem? cnfls n ≡ some first
    → get_elem? cnfls (suc n) ≡ some second
    → second.name ≡ opkg.name
    → meets_strictly vercmp promote_epoch find opkg first ≡ false
    → pkg_obsoletes_pkg vercmp promote_epoch find pkg opkg ≡ false
unfolding pkg_obsoletes_pkg
pkg_obsoletes_pkg-second vercmp promote_epoch find pkg opkg cnfls n first second other has found
      at_n at_next named unmet =
    let apart = other_name_of pkg opkg second other named in
    ground (
      arith,
      has,
      found,
      at_n,
      at_next,
      unmet,
      loop-other_name vercmp promote_epoch find (length cnfls - suc n) pkg opkg second apart,
    )
