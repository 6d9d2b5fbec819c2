-- ===== src/Examples.antt =====
-- Examples over a toy permutation, and the theorems of this library at concrete inputs.
pub mod Toy
pub mod Tries
pub mod Dimensions
pub mod Codecs
pub mod Ledgers
pub mod States
