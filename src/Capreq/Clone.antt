-- ===== src/Capreq/Clone.antt =====
-- `capreq_bufsize`, `capreq_sizeof` and `capreq_clone` of capreq.c. `sizeof(struct capreq)` depends
-- on the platform's ABI and is a parameter.
use poldek.Base.{
  ℕ, ◌+◌, ◌%◌, ◌^◌, ◌<◌, ◌≡◌, Bool, true, false, not, ◌&&◌, ◌||◌, Option, none, some, [], ◌∷◌,
  arith, length, drop, ltb, ◌==◌, if◌then◌else◌, Bool-cases, inl, inr,
}
use poldek.Base.Int.{IsI32}
use poldek.Base.Bytes.{Bytes}
use poldek.Capreq.{
  Capreq, c_str, capreq_epoch, capreq_ver, capreq_rel, capreq_versioned, capreq_has_rel,
}
use poldek.Capreq.New.{capreq_new}
use poldek.Capreq.New.Fields.{IsCStr, capreq_new-reads}

-- `max(a, b)` as `if (b > a) a = b`
abbrev pub larger : ℕ → ℕ → ℕ
larger a b = if ltb a b then b else a

-- `none`: the process ends, as the buffer has 255 bytes or more.
unfoldable pub capreq_bufsize : Capreq → Option ℕ
unfolding c_str
capreq_bufsize cr =
    let max_ofs = larger (larger (larger 0 cr.ep_ofs) cr.ver_ofs) cr.rel_ofs in
    let size = if max_ofs == 0 then 1 else max_ofs + length (c_str (drop max_ofs cr.buff)) + 1 in
    if ltb size 255 then some size else none

-- What a call of `capreq_clone` ends in: it returns (possibly NULL), the process ends by a message,
-- or the block is allocated with, and holds the first bytes of, a size that was cut to `uint8_t`,
-- here given. Then the name is not whole in the block, and where it begins behind the block, the
-- assertion on its first byte reads there.
pub data CloneResult : Type 0 where
  returned : Option Capreq → CloneResult
  died : CloneResult
  cut : ℕ → CloneResult

-- `cr->namelen`, a `uint16_t`
abbrev pub namelen : Capreq → ℕ
namelen cr = length cr.name % 2 ^ 16

-- The copy of a `malloc`ed `capreq`; `bufsize` is what `capreq_bufsize` returned. An uncut copy has
-- the first byte of the name, so that the closing assertion holds.
copy_malloced : ℕ → Capreq → ℕ → CloneResult
unfolding c_str
copy_malloced sizeof_capreq cr bufsize =
    let struct_size = sizeof_capreq + bufsize in
    if not (ltb struct_size 255)
    then died
    else if ltb (struct_size + namelen cr + 1) 256
    then returned (some (record cr { name = c_str (drop bufsize cr.buff) }))
    else cut ((struct_size + namelen cr + 1) % 256)

-- The copy that is made from the fields.
clone_by_new : Bool → Capreq → Option Capreq
clone_by_new na cr =
    capreq_new na cr.name (capreq_epoch cr)
      (if capreq_versioned cr then some (capreq_ver cr) else none)
      (if capreq_versioned cr then some (capreq_rel cr) else none)
      (record cr.relflags { naalloc = false }) cr.flags

module _ (sizeof_capreq : ℕ) where
  unfoldable pub capreq_clone : Bool → Capreq → CloneResult
  unfolding capreq_bufsize copy_malloced clone_by_new
  capreq_clone na cr =
      if not cr.relflags.naalloc && not na
      then (elim (capreq_bufsize cr) [
        | none ↦ died
        | some bufsize ↦ copy_malloced sizeof_capreq cr bufsize
      ])
      else returned (clone_by_new na cr)

IsCStr-c_str : (s : Bytes) → IsCStr (c_str s)
unfolding c_str
IsCStr-c_str [] = tt
IsCStr-c_str (c ∷ s) = elim (Bool-cases (c == 0)) [
  | inl e ↦ rw e tt
  | inr e ↦ rw e ((λ z. ground arith), IsCStr-c_str s)
]

IsCStr-capreq_ver : (cr : Capreq) → IsCStr (capreq_ver cr)
unfolding capreq_ver
IsCStr-capreq_ver cr = IsCStr-c_str (drop cr.ver_ofs cr.buff)

IsCStr-capreq_rel : (cr : Capreq) → IsCStr (capreq_rel cr)
unfolding capreq_rel
IsCStr-capreq_rel cr = IsCStr-c_str (drop cr.rel_ofs cr.buff)

-- A clone that is made by `capreq_new`, of a versioned `capreq` whose buffer or whose copy is in
-- an allocator, with an epoch in `int32_t` and a version of less than 250 bytes, reads the same
-- epoch, version and release. It has a release even where the source had none: then it has the
-- empty one.
pub capreq_clone-reads :
    (sizeof_capreq : ℕ) (na : Bool) (cr : Capreq)
    → (cr.relflags.naalloc || na) ≡ true
    → capreq_versioned cr ≡ true
    → IsI32 (capreq_epoch cr)
    → length (capreq_ver cr) < 250
    → (new : Capreq) × (capreq_clone sizeof_capreq na cr ≡ returned (some new))
      × (capreq_epoch new ≡ capreq_epoch cr)
      × (capreq_ver new ≡ capreq_ver cr)
      × (capreq_rel new ≡ capreq_rel cr)
      × (capreq_has_rel new ≡ true)
capreq_clone-reads sizeof_capreq na cr through versioned he fits =
    let (new, made, epoch, ver, rel, has_rel) =
      capreq_new-reads na cr.name (capreq_epoch cr) (capreq_ver cr) (some (capreq_rel cr))
        (record cr.relflags { naalloc = false }) cr.flags (ground arith) he (IsCStr-capreq_ver cr)
        fits (IsCStr-capreq_rel cr) in
    (new, unfold capreq_clone clone_by_new in ground arith, epoch, ver, rel, has_rel)
