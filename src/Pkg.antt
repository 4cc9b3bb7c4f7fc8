-- ===== src/Pkg.antt =====
-- pkg.h: the package record, with the members that the modelled operations read. `_arch` and `_os`
-- are indices into tables of registered names (`Pkg.Registry`), 0 for none. `pkgdir` is a pointer:
-- `id` stands for the address. The arrays of capabilities are NULL (`none`) or arrays.
pub mod Registry
pub mod Cmp
pub mod Selfcap
mod Tests
use poldek.Base.{ℕ, Bool, true, false, Option, none, some, List, []}
use poldek.Base.Int.{ℤ, pos}
use poldek.Base.Bytes.{Bytes}
use poldek.Capreq.{Capreq}

pub record Pkgdir : Type 0 where
  pub id : ℕ
  pub pri : ℤ

-- The bits of `flags` by which packages are told from others.
pub record PkgFlags : Type 0 where
  pub has_selfcap : Bool
  pub held : Bool
  pub ignored : Bool
  pub ignored_uniq : Bool

pub record Pkg : Type 0 where
  pub flags : PkgFlags
  pub size : ℕ
  pub fsize : ℕ
  pub btime : ℕ
  pub color : ℕ
  pub name : Bytes
  pub epoch : ℤ
  pub ver : Bytes
  pub rel : Bytes
  pub fn : Option Bytes
  pub nvr : Bytes
  pub arch : ℕ
  pub os : ℕ
  pub caps : Option (List Capreq)
  pub reqs : Option (List Capreq)
  pub cnfls : Option (List Capreq)
  pub pkgdir : Option Pkgdir
  pub pri : ℤ
  pub recno : ℕ
  pub seqno : ℕ

-- A package of which only the name and the version matter.
abbrev pub plain_pkg : Bytes → ℤ → Bytes → Bytes → Pkg
plain_pkg name epoch ver rel = record {
  flags = record { has_selfcap = false; held = false; ignored = false; ignored_uniq = false };
  size = 0;
  fsize = 0;
  btime = 0;
  color = 0;
  name = name;
  epoch = epoch;
  ver = ver;
  rel = rel;
  fn = none;
  nvr = [];
  arch = 0;
  os = 0;
  caps = none;
  reqs = none;
  cnfls = none;
  pkgdir = none;
  pri = pos 0;
  recno = 0;
  seqno = 0;
}
