-- ===== src/Address.antt =====
-- address-codec: base58 with a checksum, and the addresses, seeds and keys that it encodes.
pub mod Alphabet
pub mod Utf8
pub mod Base58
pub mod Hash
pub mod Errors
pub mod Check
pub mod Codec
pub mod XAddress
pub mod AccountId
