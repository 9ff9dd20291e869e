-- ===== src/Serdes.antt =====
-- binary-codec/serdes: the parser, the serializer, and the codec of field identifiers. The three
-- hold the definitions behind an interface; here they hold the definitions themselves.
pub mod Errors
pub mod Parser
pub mod FieldId
pub mod Serializer
pub mod Bytes
pub mod Length
pub mod Shape
pub mod Header
pub mod Field
pub mod Append
