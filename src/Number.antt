-- ===== src/Number.antt =====
-- binary-codec/types/st_number.go: the decimal numbers of vaults and loans, twelve bytes of mantissa
-- and exponent.
pub mod Errors
pub mod Normalize
pub mod Cut
pub mod Rounding
pub mod Scaling
pub mod Parse
pub mod Exact
pub mod Codec
pub mod Text
pub mod Scientific
