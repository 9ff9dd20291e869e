-- ===== src/Types/Integers.antt =====
-- uint8.go, uint16.go, uint32.go, uint64.go, int32.go and permission_value.go of binary-codec/types,
-- and `ToUint32` and `IsHex` of pkg/typecheck.
use xrpl_go.Base.{
  ℕ, ◌-◌, ◌^◌, ◌*◌, ◌+◌, List, [], ◌∷◌, Bytes, Bool, true, false, ◌&&◌, ◌||◌, not, leb, ltb, ◌==◌,
  if◌then◌else◌, Option, none, some, length, map, String, get_or, codes,
}
use text.Mathlib.Text.{◌==◌ as str_eq}
use xrpl_go.Base.Int.{ℤ, pos, negsuc, leb_ℤ}
use xrpl_go.Base.Digits.{of_base}
use xrpl_go.Base.Words.{byte_of, put_be, get_be, signed_of, pattern_of}
use xrpl_go.Base.Results.{Result, ok, err, ◌>>=◌, ◌>>◌, guard, from_option}
use xrpl_go.Hexutil.{encode_to_upper_hex, from_hex_char}
use xrpl_go.Definitions.{
  Definitions, get_transaction_result_type_code_by_transaction_result_name,
  get_transaction_type_code_by_transaction_type_name,
  get_ledger_entry_type_code_by_ledger_entry_type_name, get_delegatable_permission_value_by_name,
  get_delegatable_permission_name_by_value,
}
use xrpl_go.Number.Parse.{is_digit, digits_value}
use xrpl_go.Number.Text.{decimal}
use xrpl_go.Types.Errors.{
  CodecError, uint8_out_of_range, uint16_out_of_range, uint32_out_of_range, int32_out_of_range,
  invalid_uint64_string, from_definitions, permission_value_out_of_range,
  unsupported_permission_type,
}
use xrpl_go.Types.Value.{
  IntType, int, int8, int16, int32, int64, uint, uint8, uint16, uint32, uint64, Float, whole,
  not_whole, Value, string, named_string, integer, float64, name_of,
}
use xrpl_go.Types.Reader.{Reader, read_as}
pub mod RoundTrip
pub mod Texts

-- `int64(v)` of a float64, where `v != float64(int64(v))` does not hold. Beyond the range of an int64
-- the conversion is up to the machine; the test fails there, or the range check that follows does.
unfoldable pub whole_int64 : Float → Option ℤ
whole_int64 not_whole = none
whole_int64 (whole z) =
    if leb_ℤ (negsuc (2 ^ 63 - 1)) z && leb_ℤ z (pos (2 ^ 63 - 1)) then some z else none

-- `checkRange`
unfoldable pub check_range : ℤ → ℤ → CodecError → ℤ → Result CodecError ℤ
check_range lo hi e value = do guard (leb_ℤ lo value && leb_ℤ value hi) e; ok value

-- The type switch of `UInt8.FromJSON`.
unfoldable pub uint8_number : Value → Option ℤ
unfolding whole_int64
uint8_number (integer int v) = some v
uint8_number (integer int32 v) = some v
uint8_number (integer int64 v) = some v
uint8_number (integer uint8 v) = some v
uint8_number (float64 v) = whole_int64 v
uint8_number _ = none

-- The name of a transaction result as its code.
unfoldable pub uint8_named : Definitions → Value → Result CodecError Value
uint8_named d (string s) = do
  tc ← from_definitions (get_transaction_result_type_code_by_transaction_result_name d (name_of s))
  ok (integer int32 tc)
uint8_named d v = ok v

-- `UInt8.FromJSON`
unfoldable pub uint8_from_json : Definitions → Value → Result CodecError Bytes
unfolding uint8_named uint8_number check_range
uint8_from_json d value = do
  v ← uint8_named d value
  n ← from_option (uint8_number v) uint8_out_of_range
  n ← check_range (pos 0) (pos 255) uint8_out_of_range n
  ok (byte_of n ∷ [])

-- `UInt8.ToJSON`
unfoldable pub uint8_to_json : Reader Value
unfolding read_as
uint8_to_json = read_as 1 λ b. ok (integer int (pos (get_or b 0 0)))

-- The type switch of `UInt16.FromJSON`.
unfoldable pub uint16_number : Value → Option ℤ
unfolding whole_int64
uint16_number (integer int v) = some v
uint16_number (integer int64 v) = some v
uint16_number (integer uint16 v) = some v
uint16_number (integer uint32 v) = some v
uint16_number (float64 v) = whole_int64 v
uint16_number _ = none

-- The code of a transaction type, or else of a ledger entry type.
unfoldable pub type_code_of : Definitions → Bytes → Result CodecError ℤ
type_code_of d s =
    let second =
      from_definitions (get_ledger_entry_type_code_by_ledger_entry_type_name d (name_of s)) in
    elim (get_transaction_type_code_by_transaction_type_name d (name_of s)) [
      | ok tc ↦ ok tc
      | err e ↦ second
    ]

unfoldable pub uint16_named : Definitions → Value → Result CodecError Value
unfolding type_code_of
uint16_named d (string s) = do tc ← type_code_of d s; ok (integer int tc)
uint16_named d (named_string s) = do tc ← type_code_of d s; ok (integer int tc)
uint16_named d v = ok v

-- `UInt16.FromJSON`: `uint16(v)` and the two bytes.
unfoldable pub uint16_from_json : Definitions → Value → Result CodecError Bytes
unfolding uint16_named uint16_number check_range
uint16_from_json d value = do
  v ← uint16_named d value
  n ← from_option (uint16_number v) uint16_out_of_range
  n ← check_range (pos 0) (pos 65535) uint16_out_of_range n
  ok (put_be 2 (pattern_of (2 ^ 16) n))

-- `UInt16.ToJSON`
unfoldable pub uint16_to_json : Reader Value
unfolding read_as
uint16_to_json = read_as 2 λ b. ok (integer int (pos (get_be b)))

-- `int64ToUint32`, also for a `uint` and a `uint64`, and for the whole numbers of `floatToUint32`.
unfoldable pub int64_to_uint32 : ℤ → Option ℕ
int64_to_uint32 (pos n) = if ltb n (2 ^ 32) then some n else none
int64_to_uint32 (negsuc n) = none

-- `ToUint32`. An unsigned value is never negative.
unfoldable pub to_uint32 : Value → Option ℕ
unfolding int64_to_uint32
to_uint32 (integer t v) = int64_to_uint32 v
to_uint32 (float64 (whole v)) = int64_to_uint32 v
to_uint32 _ = none

-- `UInt32.FromJSON`
unfoldable pub uint32_from_json : Value → Result CodecError Bytes
unfolding to_uint32
uint32_from_json value = do n ← from_option (to_uint32 value) uint32_out_of_range; ok (put_be 4 n)

-- `UInt32.ToJSON`
unfoldable pub uint32_to_json : Reader Value
unfolding read_as
uint32_to_json = read_as 4 λ b. ok (integer uint32 (pos (get_be b)))

-- `Int32.FromJSON`: its range check stands in each case of the switch but the first.
unfoldable pub int32_number : Value → Option ℤ
unfolding whole_int64
int32_number (integer int v) = some v
int32_number (integer int32 v) = some v
int32_number (integer int64 v) = some v
int32_number (integer uint32 v) = some v
int32_number (integer uint64 v) = some v
int32_number (float64 v) = whole_int64 v
int32_number _ = none

unfoldable pub int32_from_json : Value → Result CodecError Bytes
unfolding int32_number check_range
int32_from_json value = do
  n ← from_option (int32_number value) int32_out_of_range
  n ← check_range (negsuc (2 ^ 31 - 1)) (pos (2 ^ 31 - 1)) int32_out_of_range n
  ok (put_be 4 (pattern_of (2 ^ 32) n))

-- `Int32.ToJSON`
unfoldable pub int32_to_json : Reader Value
unfolding read_as
int32_to_json = read_as 4 λ b. ok (integer int32 (signed_of (2 ^ 32) (get_be b)))

-- The radix of the JSON text of a UInt64.
pub data Radix : Type 0 where
  base_decimal base_hex : Radix

abbrev pub uint64_json_base_decimal : ℕ
uint64_json_base_decimal = 10

abbrev pub uint64_json_base_hex : ℕ
uint64_json_base_hex = 16

-- `opts[0] == uint64JSONBaseDecimal`
abbrev pub radix_of : Option ℕ → Radix
radix_of none = base_hex
radix_of (some n) = if n == uint64_json_base_decimal then base_decimal else base_hex

abbrev pub decimal_fields : List String
decimal_fields =
    "MaximumAmount" ∷ "OutstandingAmount" ∷ "MPTAmount" ∷ "LockedAmount"
    ∷ "ConfidentialOutstandingAmount" ∷ []

unfoldable pub one_of : String → List String → Bool
one_of s [] = false
one_of s (t ∷ ts) = str_eq s t || one_of s ts

-- `uint64JSONBaseForField`
unfoldable pub uint64_json_base_for_field : String → Radix
unfolding one_of
uint64_json_base_for_field field_name =
    if one_of field_name decimal_fields then base_decimal else base_hex

-- `IsHex` and the loop over decimal digits, the texts with a character at least.
unfoldable pub every_byte : (ℕ → Bool) → Bytes → Bool
every_byte test [] = true
every_byte test (c ∷ s) = test c && every_byte test s

abbrev pub is_hex_char : ℕ → Bool
is_hex_char c =
    (leb b'0' c && leb c b'9') || (leb b'A' c && leb c b'F') || (leb b'a' c && leb c b'f')

unfoldable pub is_hex : Bytes → Bool
unfolding every_byte
is_hex [] = false
is_hex (c ∷ s) = every_byte is_hex_char (c ∷ s)

-- The value of a hexadecimal digit, as `strconv.ParseUint` takes it.
abbrev hex_value : ℕ → ℕ
hex_value c = elim (from_hex_char c) [ none ↦ 0 | some v ↦ v ]

-- `strconv.ParseUint(s, base, 64)` on a text of digits of the base.
unfoldable pub parse_uint64 : Radix → Bytes → Option ℕ
unfolding digits_value
parse_uint64 base_decimal s = let n = digits_value s in if ltb n (2 ^ 64) then some n else none
parse_uint64 base_hex s =
    let n = of_base 16 (map hex_value s) in if ltb n (2 ^ 64) then some n else none

-- The `switch` of `fromJSON` on the base.
unfoldable pub is_uint64_text : Radix → Bytes → Bool
unfolding is_digit every_byte is_hex
is_uint64_text base_decimal s = every_byte is_digit s
is_uint64_text base_hex s = leb (length s) 16 && is_hex s

-- `UInt64.fromJSON`
unfoldable pub uint64_from_json : Radix → Value → Result CodecError Bytes
unfolding is_uint64_text parse_uint64
uint64_from_json base (string s) = do
  guard (not (length s == 0)) invalid_uint64_string
  guard (is_uint64_text base s) invalid_uint64_string
  parsed ← from_option (parse_uint64 base s) invalid_uint64_string
  ok (put_be 8 parsed)
uint64_from_json base _ = err invalid_uint64_string

-- `UInt64.ToJSON`
unfoldable pub uint64_to_json : Radix → Reader Value
unfolding read_as decimal
uint64_to_json base_decimal = read_as 8 λ b. ok (string (decimal (get_be b)))
uint64_to_json base_hex = read_as 8 λ b. ok (string (encode_to_upper_hex b))

-- The name of a permission as its value.
unfoldable pub permission_named : Definitions → Value → Result CodecError Value
permission_named d (string s) = do
  pv ← from_definitions (get_delegatable_permission_value_by_name d (name_of s))
  ok (integer int32 pv)
permission_named d v = ok v

-- The error of a value that `ToUint32` refuses: one for numbers, one for the other types.
abbrev permission_error : Value → CodecError
permission_error (integer t v) = permission_value_out_of_range
permission_error (float64 v) = permission_value_out_of_range
permission_error _ = unsupported_permission_type

-- `PermissionValue.FromJSON`
unfoldable pub permission_value_from_json : Definitions → Value → Result CodecError Bytes
unfolding permission_named to_uint32
permission_value_from_json d value = do
  v ← permission_named d value
  ui32 ← from_option (to_uint32 v) (permission_error v)
  ok (put_be 4 ui32)

-- `PermissionValue.ToJSON`: the name, where there is one for `int32(permissionValue)`.
unfoldable pub permission_or_number : Definitions → ℕ → Value
permission_or_number d n =
    elim (get_delegatable_permission_name_by_value d (signed_of (2 ^ 32) n)) [
      | ok name ↦ string (codes name)
      | err e ↦ integer uint32 (pos n)
    ]

unfoldable pub permission_value_to_json : Definitions → Reader Value
unfolding read_as permission_or_number
permission_value_to_json d = read_as 4 λ b. ok (permission_or_number d (get_be b))
