-- ===== src/Tests.antt =====
-- Tests, and examples of the theorems at concrete inputs.
mod Definitions
mod Hexutil
mod Serdes
mod Address
mod Finality
mod Number
mod Payment
mod Types
mod Codec
pub mod Transfer
