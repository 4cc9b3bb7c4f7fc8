-- ===== src/Evr/Tests.antt =====
-- Instances of the theorem about versions.
use poldek.Base.{some, arith}
use poldek.Base.Bytes.{Bytes, codes}
use poldek.Evr.RoundTrip.{IsVersion, IsRelease?}

abbrev version : Bytes
version = codes "1.0"

abbrev release : Bytes
release = codes "2-rc"

version-IsVersion : IsVersion version
version-IsVersion = record { some_byte = λ e. ground arith; plain = ground arith }

release-IsRelease : IsRelease? (some release)
release-IsRelease = ((λ e. ground arith), ground arith)
