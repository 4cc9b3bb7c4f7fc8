-- ===== src/Required/Merged.antt =====
-- `add_reqpkg` on an array that has an element with alternatives for the package.
use poldek.Base.{ℕ, zero, suc, ◌≡◌, refl, ap, Option, some, List, [], ◌∷◌, map}
use poldek.Capreq.{Capreq}
use poldek.Order.{Reqpkg}
use poldek.Arrays.{change_at}
use poldek.Required.{add_flags, add_reqpkg, process_req}
use poldek.Required.Groups.{pkgs_of}

map-change_at :
    (f : Reqpkg → Reqpkg) (i : ℕ) (rs : List Reqpkg)
    → ((r : Reqpkg) → pkgs_of (f r) ≡ pkgs_of r)
    → map pkgs_of (change_at i f rs) ≡ map pkgs_of rs
unfolding change_at
map-change_at f i [] h = refl
map-change_at f zero (r ∷ rs) h = ap (λ ps. ps ∷ map pkgs_of rs) (h r)
map-change_at f (suc i) (r ∷ rs) h = ap (λ pss. pkgs_of r ∷ pss) (map-change_at f i rs h)

-- When the search finds an element for the only package that satisfies a requirement, `process_req`
-- leaves the packages of every element as they are, so that an element with alternatives keeps
-- them.
pub process_req-merged :
    (push : List Reqpkg → Reqpkg → List Reqpkg) (bsearch : List Reqpkg → ℕ → Option ℕ)
    (rs : List Reqpkg) (req : Capreq) (p i : ℕ)
    → bsearch rs p ≡ some i
    → map pkgs_of (process_req push bsearch rs req (p ∷ [])) ≡ map pkgs_of rs
unfolding process_req add_reqpkg add_flags
process_req-merged push bsearch rs req p i there =
    rw (there) (map-change_at (add_flags req) i rs (λ r. refl))
