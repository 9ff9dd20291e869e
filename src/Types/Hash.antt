-- ===== src/Types/Hash.antt =====
-- hash.go with its four sizes, blob.go, vector256.go and account_id.go of binary-codec/types.
use xrpl_go.Base.{
  ℕ, zero, suc, ◌+◌, ◌%◌, List, [], ◌∷◌, ◌++◌, Bytes, Bool, true, false, ◌==◌, if◌then◌else◌, not,
  Option, none, some, length, take, drop,
}
use xrpl_go.Base.Results.{Result, ok, err, ◌>>=◌, ◌>>◌, guard}
use xrpl_go.Hexutil.{HexError, decode_string, encode_to_upper_hex}
use xrpl_go.Address.Hash.{Hashes}
use xrpl_go.Address.Errors.{AddressError, done, failed, panicked, stuck}
use xrpl_go.Address.Codec.{
  account_address_length, account_address_prefix, decode_classic_address_to_account_id, encode,
}
use xrpl_go.Address.XAddress.{decode_x_address}
use xrpl_go.Types.Errors.{
  CodecError, invalid_hash_type, invalid_hex_string, invalid_hash_length, invalid_vector256_type,
  invalid_vector256_length, no_length_prefix, expected_string, account_id_tag_not_allowed,
  invalid_address_format, of_hex, panics, from_hex, from_address,
}
use xrpl_go.Types.Value.{Value, string, strings, array, Values, no_values, value}
use xrpl_go.Types.Reader.{Reader, read_as, fail, return}
pub mod RoundTrip
pub mod Accounts

-- `hex.DecodeString` with the error of a hash.
abbrev pub hash_hex : Result HexError Bytes → Result CodecError Bytes
hash_hex (ok b) = ok b
hash_hex (err e) = err (invalid_hex_string e)

-- The bytes of a hash of this size from its text.
unfoldable pub hash_of_text : ℕ → Bytes → Result CodecError Bytes
hash_of_text size s = do
  decoded ← hash_hex (decode_string s)
  guard (size == length decoded) (invalid_hash_length size)
  ok decoded

-- `hash.FromJSON`
unfoldable pub hash_from_json : ℕ → Value → Result CodecError Bytes
unfolding hash_of_text
hash_from_json size (string s) = hash_of_text size s
hash_from_json size _ = err invalid_hash_type

-- `hash.ToJSON`
unfoldable pub hash_to_json : ℕ → Reader Value
unfolding read_as
hash_to_json size = read_as size λ b. ok (string (encode_to_upper_hex b))

-- `Blob.FromJSON`: `json.(string)` panics on another type.
unfoldable pub blob_from_json : Value → Result CodecError Bytes
blob_from_json (string s) = from_hex (decode_string s)
blob_from_json _ = err panics

-- `Blob.ToJSON`
unfoldable pub blob_to_json : Option ℕ → Reader Value
unfolding read_as
blob_to_json none = fail no_length_prefix
blob_to_json (some size) = read_as size λ b. ok (string (encode_to_upper_hex b))

abbrev hash_length_bytes : ℕ
hash_length_bytes = 32

-- `vector256FromValue`
unfoldable pub vector256_from_value : List Bytes → Result CodecError Bytes
unfolding hash_of_text
vector256_from_value [] = ok []
vector256_from_value (s ∷ ss) = do
  hash256 ← hash_of_text hash_length_bytes s
  rest ← vector256_from_value ss
  ok (hash256 ++ rest)

-- A `[]any` of strings as a `[]string`.
unfoldable pub strings_of : Values → Result CodecError (List Bytes)
strings_of no_values = ok []
strings_of (value (string s) vs) = do ss ← strings_of vs; ok (s ∷ ss)
strings_of (value _ vs) = err invalid_vector256_type

-- `Vector256.FromJSON`
unfoldable pub vector256_from_json : Value → Result CodecError Bytes
unfolding vector256_from_value strings_of
vector256_from_json (strings ss) = vector256_from_value ss
vector256_from_json (array vs) = do ss ← strings_of vs; vector256_from_value ss
vector256_from_json _ = err invalid_vector256_type

-- `for i := 0; i < len(b); i += HashLengthBytes`, on what is left of b: each round takes 32 bytes off,
-- so len(b) is fuel enough.
unfoldable pub hash_texts : ℕ → Bytes → List Bytes
hash_texts zero b = []
hash_texts (suc f) [] = []
hash_texts (suc f) (c ∷ b) =
    encode_to_upper_hex (take hash_length_bytes (c ∷ b))
    ∷ hash_texts f (drop hash_length_bytes (c ∷ b))

-- `Vector256.ToJSON` of the bytes read.
unfoldable pub vector256_of_bytes : Bytes → Result CodecError Value
unfolding hash_texts
vector256_of_bytes b = do
  guard (length b % hash_length_bytes == 0) (invalid_vector256_length (length b))
  ok (strings (hash_texts (length b) b))

-- `Vector256.ToJSON`: `opts[0]` panics where there is none.
unfoldable pub vector256_to_json : Option ℕ → Reader Value
unfolding read_as
vector256_to_json none = fail panics
vector256_to_json (some size) = read_as size vector256_of_bytes

-- `strings.HasPrefix` for one byte.
abbrev pub starts_with : ℕ → Bytes → Bool
starts_with c [] = false
starts_with c (d ∷ s) = d == c

module _ (hashes : Hashes) where
  -- The two forms of an account ID in `AccountID.FromJSON`.
  unfoldable pub account_id_of_classic : Bytes → Result CodecError Bytes
  account_id_of_classic s = do
    (type_prefix, account_id) ← from_address (decode_classic_address_to_account_id hashes s)
    ok account_id

  unfoldable pub account_id_of_x : Bytes → Result CodecError Bytes
  account_id_of_x s = do
    x ← from_address (decode_x_address hashes s)
    guard (not x.has_tag) account_id_tag_not_allowed
    ok x.account_id

  -- `AccountID.FromJSON` on a string.
  unfoldable pub account_id_of_text : Bytes → Result CodecError Bytes
  unfolding account_id_of_classic account_id_of_x
  account_id_of_text s =
      if starts_with b'r' s
      then account_id_of_classic s
      else if starts_with b'X' s
      then account_id_of_x s
      else err invalid_address_format

  -- `AccountID.FromJSON`
  unfoldable pub account_id_from_json : Value → Result CodecError Bytes
  unfolding account_id_of_text
  account_id_from_json (string s) = account_id_of_text s
  account_id_from_json _ = err expected_string

  -- `AccountID.ToJSON`
  unfoldable pub account_id_to_json : Option ℕ → Reader Value
  unfolding read_as
  account_id_to_json none = fail no_length_prefix
  account_id_to_json (some zero) = return (string [])
  account_id_to_json (some (suc size)) = read_as (suc size) λ b. do
    s ← from_address (encode hashes b (account_address_prefix ∷ []) account_address_length)
    ok (string s)
