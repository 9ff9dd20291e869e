-- ===== src/Types/Amount.antt =====
-- amount.go of binary-codec/types: amounts of XRP and of multi-purpose tokens. The codec of an issued
-- amount, with its decimal mantissa and its currency code, is an argument.
use Prim.Native.Nat.{bit_and, bit_or}
use xrpl_go.Base.{
  ℕ, ◌+◌, ◌*◌, ◌%◌, ◌^◌, [], ◌∷◌, ◌++◌, Bytes, Bool, true, false, not, ◌&&◌, ◌||◌, ◌==◌, leb, ltb,
  if◌then◌else◌, List, Option, none, some, length, take, drop, get_or, codes, String,
}
use text.Mathlib.Text.{◌==◌ as ◌=s=◌}
use xrpl_go.Base.Assoc.{string_eq, lookup}
use xrpl_go.Base.Int.{ℤ, pos, negsuc, abs, with_sign}
use xrpl_go.Base.Words.{put_be, get_be}
use xrpl_go.Base.Results.{Result, ok, err, ◌>>=◌, ◌>>◌, guard, from_option}
use xrpl_go.Hexutil.{decode_string}
use xrpl_go.Number.Parse.{is_digit, digits_value, optional_sign}
use xrpl_go.Number.Text.{decimal, sign_text}
use xrpl_go.Serdes.Parser.{peek}
use xrpl_go.Types.Errors.{
  CodecError, invalid_xrp_value, invalid_uint_syntax, amount_missing_value, invalid_amount_value,
  issued_currency_missing_currency, issued_currency_missing_issuer, invalid_currency_format,
  invalid_issuer_format, invalid_mpt_issuance_id, invalid_amount_type, invalid_mpt_length,
  invalid_issuance_id_length, invalid_amount, from_hex,
}
use xrpl_go.Types.Value.{Value, string, object, Members, no_members, member, entries}
use xrpl_go.Types.Reader.{Reader, ◌>>=◌ as ◌>>>=◌, parsing, read_as}
use xrpl_go.Types.Integers.{every_byte}
use xrpl_go.Types.Issue.{encode_to_string}
use xrpl_go.Types.Law.{SerializedType}
use xrpl_go.Types.StObject.{Entry}
pub mod Xrp
pub mod Token

-- `serializeIssuedCurrencyAmount` of a value, a currency and an issuer, and `deserializeToken`.
pub record TokenCodec : Type 0 where
  pub serialize_issued_currency_amount : Bytes → Bytes → Bytes → Result CodecError Bytes
  pub deserialize_token : Bytes → Result CodecError Value

abbrev pub max_native_drops : ℕ
max_native_drops = 100000000000000000

abbrev pub pos_sign_bit_mask : ℕ
pos_sign_bit_mask = 2 ^ 62

-- `new(big.Int).SetString(s, 10)`: a sign where there is one, and digits.
unfoldable pub set_string : Bytes → Option ℤ
unfolding optional_sign every_byte is_digit digits_value
set_string s =
    let (negative, ds) = optional_sign s in
    if length ds == 0 || not (every_byte is_digit ds)
    then none
    else some (with_sign negative (digits_value ds))

-- `drops.Sign() < 0`
abbrev pub is_negative : ℤ → Bool
is_negative (pos m) = false
is_negative (negsuc n) = true

-- `strings.HasPrefix` for one byte.
abbrev pub has_prefix_byte : ℕ → Bytes → Bool
has_prefix_byte c [] = false
has_prefix_byte c (d ∷ s) = d == c

-- `parseXRPValue`: `strconv.ParseUint` refuses a sign.
unfoldable pub parse_xrp_value : Bytes → Bool → Result CodecError ℤ
unfolding set_string
parse_xrp_value value allow_negative = do
  drops ← from_option (set_string value) invalid_xrp_value
  guard (allow_negative || not (is_negative drops)) (invalid_amount value)
  guard (leb (abs drops) max_native_drops) (invalid_amount value)
  guard (not (has_prefix_byte b'+' value || (not allow_negative && has_prefix_byte b'-' value)))
      invalid_uint_syntax
  ok drops

-- The sign bit of a number of drops.
abbrev pub sign_bit : ℤ → ℕ
sign_bit drops = if is_negative drops then 0 else pos_sign_bit_mask

-- `serializeXRPAmount`
unfoldable pub serialize_xrp_amount : Bytes → Bool → Result CodecError Bytes
unfolding parse_xrp_value
serialize_xrp_amount value allow_negative = do
  drops ← parse_xrp_value value allow_negative
  ok (put_be 8 (bit_or (sign_bit drops) (abs drops)))

-- `verifyMPTValue`, with the number. A text with a point is no integer, and no number below 2 ^ 63 has
-- the bit that is tested last.
unfoldable pub verify_mpt_value : Bytes → Result CodecError ℕ
unfolding set_string
verify_mpt_value value = do
  n ← from_option (set_string value) (invalid_amount value)
  guard (not (is_negative n)) (invalid_amount value)
  guard (ltb (abs n) (2 ^ 63)) (invalid_amount value)
  ok (abs n)

-- `serializeMPTCurrencyIssuanceID`
unfoldable pub serialize_mpt_currency_issuance_id : Bytes → Result CodecError Bytes
serialize_mpt_currency_issuance_id issuance_hex = do
  id_bytes ← from_hex (decode_string issuance_hex)
  guard (length id_bytes == 24) invalid_issuance_id_length
  ok id_bytes

-- `serializeMPTCurrencyAmount`
unfoldable pub serialize_mpt_currency_amount : Bytes → Bytes → Result CodecError Bytes
unfolding verify_mpt_value serialize_mpt_currency_issuance_id
serialize_mpt_currency_amount value_str issuance_hex = do
  v ← verify_mpt_value value_str
  id_bytes ← serialize_mpt_currency_issuance_id issuance_hex
  ok (0x60 ∷ (put_be 8 v ++ id_bytes))

-- `valueToString`, with the error that its callers make of its own.
abbrev pub value_to_string : CodecError → Value → Result CodecError Bytes
value_to_string e (string s) = ok s
value_to_string e _ = err e

module _ (tokens : TokenCodec) where
  -- The part of `FromJSON` that serializes an issued currency.
  unfoldable pub issued_amount : List Entry → Bytes → Result CodecError Bytes
  unfolding lookup
  issued_amount v val = do
    raw_curr ← from_option (lookup "currency" v) issued_currency_missing_currency
    raw_iss ← from_option (lookup "issuer" v) issued_currency_missing_issuer
    curr ← value_to_string invalid_currency_format raw_curr
    iss ← value_to_string invalid_issuer_format raw_iss
    tokens.serialize_issued_currency_amount val curr iss

  -- The part of `FromJSON` behind the value of an object.
  unfoldable pub token_amount : List Entry → Bytes → Result CodecError Bytes
  unfolding lookup issued_amount
  token_amount v val = elim (lookup "mpt_issuance_id" v) [
    | none ↦ issued_amount v val
    | some raw_id ↦
        value_to_string invalid_mpt_issuance_id raw_id >>= serialize_mpt_currency_amount val
  ]

  -- `Amount.FromJSON`
  unfoldable pub amount_from_json : Value → Result CodecError Bytes
  unfolding lookup token_amount
  amount_from_json (string v) = serialize_xrp_amount v false
  amount_from_json (object m) = do
    raw_val ← from_option (lookup "value" (entries m)) amount_missing_value
    val ← value_to_string invalid_amount_value raw_val
    token_amount (entries m) val
  amount_from_json _ = err invalid_amount_type

  -- The value of the field FeeAmountDelta.
  abbrev pub native_delta : Value → Result CodecError Bytes
  native_delta (string native) = serialize_xrp_amount native true
  native_delta _ = err invalid_amount_type

  -- `Amount.fromJSONForField`
  unfoldable pub amount_from_json_for_field : String → Value → Result CodecError Bytes
  amount_from_json_for_field field_name value =
      if field_name =s= "FeeAmountDelta" then native_delta value else amount_from_json value

-- `isPositive` and `isNative`
abbrev pub is_positive : ℕ → Bool
is_positive value = ltb 0 (bit_and value 0x40)

abbrev pub is_native : ℕ → Bool
is_native value = bit_and value 0x80 == 0

-- `deserializeMPTAmount`, on 33 bytes.
unfoldable pub deserialize_mpt_amount : Bytes → Result CodecError Value
unfolding encode_to_string decimal
deserialize_mpt_amount data_bytes = do
  guard (length data_bytes == 33) invalid_mpt_length
  let mant = drop 1 (take 9 data_bytes)
  let number = bit_or (get_be (take 4 mant) * 2 ^ 32) (get_be (drop 4 mant))
  ok (
      object (
        member "value"
          (string (sign_text (not (is_positive (get_or data_bytes 0 0))) ++ decimal number))
          (member "mpt_issuance_id" (string (encode_to_string (take 24 (drop 9 data_bytes))))
            no_members)))

-- The text of an amount of XRP from its eight bytes, with the sign of the first. `& 0x3FFFFFFFFFFFFFFF`
-- is the remainder by 2 ^ 62.
abbrev pub xrp_text : ℕ → Bytes → Bytes
xrp_text b xrp = sign_text (not (is_positive b)) ++ decimal (get_be xrp % 2 ^ 62)

module _ (tokens : TokenCodec) where
  -- The three kinds of amounts by the bits of the first byte.
  unfoldable pub amount_by_first : ℕ → Reader Value
  unfolding deserialize_mpt_amount read_as
  amount_by_first b =
      if not (is_native b)
      then read_as 48 tokens.deserialize_token
      else if not (bit_and b 0x20 == 0)
      then read_as 33 deserialize_mpt_amount
      else read_as 8 λ xrp. ok (string (xrp_text b xrp))

  -- `Amount.ToJSON`
  unfoldable pub amount_to_json : Reader Value
  unfolding amount_by_first peek
  amount_to_json = parsing peek >>>= amount_by_first

  -- The codec of amounts, a `fieldAwareEncoder`.
  abbrev pub amount_type : SerializedType
  amount_type = record {
    from_json = amount_from_json tokens;
    from_json_for_field = some (amount_from_json_for_field tokens);
    to_json = λ opts. amount_to_json;
  }
