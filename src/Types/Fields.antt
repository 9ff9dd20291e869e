-- ===== src/Types/Fields.antt =====
-- What st_object.go of binary-codec/types does with one field: its value as bytes, its value from
-- bytes, and the values that stand for names. `GetSerializedType` is an argument.
use xrpl_go.Base.{
  ℕ, ◌^◌, String, Bytes, codes, Bool, true, false, if◌then◌else◌, Option, none, some,
}
use text.Mathlib.Text.{◌==◌}
use xrpl_go.Base.Int.{ℤ, pos}
use xrpl_go.Base.Words.{int32_of, pattern_of}
use xrpl_go.Base.Results.{Result, ok, err}
use xrpl_go.Definitions.{
  Definitions, DefinitionsError, FieldInstance, get_transaction_type_name_by_transaction_type_code,
  get_transaction_result_name_by_transaction_result_type_code,
  get_ledger_entry_type_name_by_ledger_entry_type_code, get_delegatable_permission_value_by_name,
  get_delegatable_permission_name_by_value,
}
use xrpl_go.Serdes.Parser.{read_variable_length}
use xrpl_go.Types.Errors.{CodecError, unknown_type, panics, from_definitions}
use xrpl_go.Types.Value.{Value, string, integer, int, uint32, name_of}
use xrpl_go.Types.Reader.{Reader, ◌>>=◌, fail, of_result, parsing}
use xrpl_go.Types.Law.{SerializedType}
use xrpl_go.Types.Integers.{
  Radix, base_decimal, base_hex, uint64_json_base_for_field, uint64_json_base_decimal,
  uint64_json_base_hex,
}

-- `uint32(permissionValue)`
abbrev pub permission_number : Result DefinitionsError ℤ → Result CodecError Value
permission_number (ok v) = ok (integer uint32 (pos (pattern_of (2 ^ 32) v)))
permission_number (err e) = from_definitions (err e)

-- A permission's name as its number.
abbrev pub named_permission : Definitions → Value → Result CodecError Value
named_permission d (string s) =
    permission_number (get_delegatable_permission_value_by_name d (name_of s))
named_permission d v = ok v

-- `parseSpecialFields`
unfoldable pub parse_special_fields : Definitions → String → Value → Result CodecError Value
parse_special_fields d k v = if k == "PermissionValue" then named_permission d v else ok v

-- A name in the place of its code; `value.(int)` panics on another type.
abbrev named : Result DefinitionsError String → Result CodecError Value
named (ok name) = ok (string (codes name))
named (err e) = from_definitions (err e)

abbrev int_name : (ℤ → Result DefinitionsError String) → Value → Result CodecError Value
int_name f (integer int v) = named (f (int32_of v))
int_name f _ = err panics

-- The name of a permission where it has one, and the number where it has none.
abbrev or_number : Value → Result DefinitionsError String → Value
or_number v (ok name) = string (codes name)
or_number v (err e) = v

abbrev permission_name : Definitions → Value → Result CodecError Value
permission_name d (integer uint32 v) =
    ok (or_number (integer uint32 v) (get_delegatable_permission_name_by_value d (int32_of v)))
permission_name d _ = err panics

-- `enumToStr`
unfoldable pub enum_to_str : Definitions → String → Value → Result CodecError Value
enum_to_str d field_name value =
    if field_name == "TransactionType"
    then int_name (get_transaction_type_name_by_transaction_type_code d) value
    else if field_name == "TransactionResult"
    then int_name (get_transaction_result_name_by_transaction_result_type_code d) value
    else if field_name == "LedgerEntryType"
    then int_name (get_ledger_entry_type_name_by_ledger_entry_type_code d) value
    else if field_name == "PermissionValue"
    then permission_name d value
    else ok value

-- `GetSerializedType`, nil for a type that has no codec.
abbrev pub Types : Type 0
Types = String → Option SerializedType

-- The encoder of a `SerializedType` for a field: its own for that field, or the one for all fields.
abbrev pub encoder : SerializedType → String → Value → Result CodecError Bytes
encoder st name v = elim st.from_json_for_field [ none ↦ st.from_json v | some f ↦ f name v ]

abbrev pub encode_with : Option SerializedType → FieldInstance → Value → Result CodecError Bytes
encode_with none fi v = err (unknown_type fi.info.type fi.field_name)
encode_with (some st) fi v = encoder st fi.field_name v

-- `encodeFieldValue`
unfoldable pub encode_field_value : Types → FieldInstance → Value → Result CodecError Bytes
encode_field_value types fi v = encode_with (types fi.info.type) fi v

-- The base as the argument of `UInt64.ToJSON`.
abbrev pub base_number : Radix → ℕ
base_number base_decimal = uint64_json_base_decimal
base_number base_hex = uint64_json_base_hex

-- The argument of `ToJSON` for a field without a length.
unfoldable pub base_option : FieldInstance → Option ℕ
unfolding uint64_json_base_for_field
base_option fi =
    if fi.info.type == "UInt64"
    then some (base_number (uint64_json_base_for_field fi.field_name))
    else none

-- The part of a round of `STObject.ToJSON` that reads the value of a field, behind its length where
-- that is variable.
abbrev pub read_sized : Bool → SerializedType → FieldInstance → Reader Value
read_sized true st fi = parsing read_variable_length >>= λ vlen. st.to_json (some vlen)
read_sized false st fi = st.to_json (base_option fi)

abbrev pub read_known : Option SerializedType → FieldInstance → Reader Value
read_known none fi = fail (unknown_type fi.info.type fi.field_name)
read_known (some st) fi = read_sized fi.info.is_vl_encoded st fi

unfoldable pub read_value : Definitions → Types → FieldInstance → Reader Value
unfolding base_option enum_to_str
read_value d types fi = do
  res ← read_known (types fi.info.type) fi
  of_result (enum_to_str d fi.field_name res)
