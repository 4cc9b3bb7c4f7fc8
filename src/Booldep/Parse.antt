-- ===== src/Booldep/Parse.antt =====
-- booldep_parse.c: the text of a boolean dependency as a tree.
pub mod Tree
pub mod Ident
pub mod Dep
pub mod Lengths
pub mod Complete
pub mod Ends
pub mod Printed
pub mod Words
pub mod Operands
pub mod Chains
pub mod RoundTrip
mod Tests
