-- ===== src/Capreq/Store.antt =====
-- capreq.c: capabilities written to a buffer and read back.
pub mod Store
pub mod Restore
pub mod Bits
pub mod Filled
pub mod Restores
pub mod Layout
pub mod RoundTrip
pub mod Splits
