-- ===== src/Types/Law.antt =====
-- The interface `SerializedType` of binary-codec/types/serialized_type.go, and the law of a type that
-- reads what it writes.
use xrpl_go.Base.{ℕ, ◌≡◌, ◌++◌, Bytes, IsByte, All, String, Option, length}
use xrpl_go.Base.Results.{Result, ok}
use xrpl_go.Types.Errors.{CodecError}
use xrpl_go.Types.Value.{Value}
use xrpl_go.Types.Reader.{Reader}

-- The optional argument of `ToJSON` is a length, or the base of a UInt64.
pub record SerializedType : Type 0 where
  pub from_json : Value → Result CodecError Bytes
  -- `fromJSONForField`, where the type is a `fieldAwareEncoder`.
  pub from_json_for_field : Option (String → Value → Result CodecError Bytes)
  pub to_json : Option ℕ → Reader Value

-- What `from_json` writes for a value is bytes, which `to_json` reads, and leaves what follows; the value
-- read is written as the same bytes again. The reader is given the length of what was written.
abbrev pub ValueReadsBack : (Value → Result CodecError Bytes) → (ℕ → Reader Value) → Value → Type 0
ValueReadsBack from_json to_json v =
    (b rest : Bytes)
    → from_json v ≡ ok b
    → (w : Value) × (to_json (length b) (b ++ rest) ≡ (ok w, rest))
      × (from_json w ≡ ok b)
      × All IsByte b

-- This law for every value.
abbrev pub ReadsBack : (Value → Result CodecError Bytes) → (ℕ → Reader Value) → Type 0
ReadsBack from_json to_json = (v : Value) → ValueReadsBack from_json to_json v
