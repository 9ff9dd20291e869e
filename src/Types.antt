-- ===== src/Types.antt =====
-- binary-codec/types: the codecs of the field types.
pub mod Value
pub mod Errors
pub mod Reader
pub mod Law
pub mod Integers
pub mod Hash
pub mod Fields
pub mod StObject
pub mod Issue
pub mod Registry
pub mod Readable
pub mod Scalar
pub mod Depth
pub mod Unreadable
pub mod Named
pub mod Argument
pub mod Elements
pub mod Uint64
pub mod Amount
pub mod Decodable
