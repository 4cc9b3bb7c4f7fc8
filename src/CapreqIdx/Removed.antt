-- ===== src/CapreqIdx/Removed.antt =====
-- What `capreq_idx_lookup` answers after `capreq_idx_remove`.
use poldek.Base.{ℕ, ◌≡◌, Bool, true, false, ◌&&◌, List, [], ◌∷◌, if◌then◌else◌}
use poldek.Base.Bytes.{Bytes}

module _ (same : ℕ → Bool) where
  abbrev pub without : List ℕ → List ℕ
  without [] = []
  without (p ∷ ps) = let rest = without ps in if same p then rest else p ∷ rest

  abbrev first_same : List ℕ → Bool
  first_same [] = false
  first_same (p ∷ ps) = same p

  -- No two neighbours are both to be removed.
  abbrev pub IsApart : List ℕ → Type 0
  IsApart [] = Unit
  IsApart (p ∷ ps) = ((same p && first_same ps) ≡ false) × IsApart ps

  abbrev pub removed : Bool → List ℕ → List ℕ
  removed true ps = without ps
  removed false ps = ps
