-- ===== src/Types/Registry.antt =====
-- `GetSerializedType` of binary-codec/types/serialized_type.go. An object may hold objects and arrays,
-- so their types stand on those of a smaller depth. The codecs of amounts and of path sets are
-- arguments.
use xrpl_go.Base.{ℕ, zero, suc, [], Bytes, Option, none, some, if◌then◌else◌}
use text.Mathlib.Text.{◌==◌}
use xrpl_go.Base.Results.{Result, ok, err}
use xrpl_go.Definitions.{Definitions}
use xrpl_go.Address.Hash.{Hashes}
use xrpl_go.Number.Errors.{NumberError, invalid_number}
use xrpl_go.Number.Codec.{from_json}
use xrpl_go.Number.Text.{to_json}
use xrpl_go.Types.Errors.{CodecError, of_number, from_number, out_of_fuel}
use xrpl_go.Types.Value.{Value, string}
use xrpl_go.Types.Reader.{Reader, fail}
use xrpl_go.Types.Law.{SerializedType}
use xrpl_go.Types.Fields.{Types}
use xrpl_go.Types.Integers.{
  base_hex, radix_of, uint64_json_base_for_field, uint8_from_json, uint8_to_json, uint16_from_json,
  uint16_to_json, uint32_from_json, uint32_to_json, int32_from_json, int32_to_json,
  uint64_from_json, uint64_to_json,
}
use xrpl_go.Types.Hash.{
  hash_from_json, hash_to_json, account_id_from_json, account_id_to_json, blob_from_json,
  blob_to_json, vector256_from_json, vector256_to_json,
}
use xrpl_go.Types.Issue.{currency_from_json, issue_from_json, x_chain_bridge_from_json}
use xrpl_go.Types.Issue.ToJson.{currency_to_json, issue_to_json, x_chain_bridge_to_json}
use xrpl_go.Types.StObject.{object_from_json, array_from_json}
use xrpl_go.Types.StObject.ToJson.{object_to_json, array_to_json}

-- A type whose JSON does not turn on the field.
abbrev pub plain_type :
    (Value → Result CodecError Bytes) → (Option ℕ → Reader Value) → SerializedType
plain_type f g = record { from_json = f; from_json_for_field = none; to_json = g }

abbrev pub uint64_type : SerializedType
uint64_type = record {
  from_json = uint64_from_json base_hex;
  from_json_for_field =
      some (λ field_name. uint64_from_json (uint64_json_base_for_field field_name));
  to_json = λ opts. uint64_to_json (radix_of opts);
}

-- The fields of an object where the depth is used up.
abbrev pub stuck_type : SerializedType
stuck_type = plain_type (λ v. err out_of_fuel) (λ opts. fail out_of_fuel)

-- A Number is written from a string, and read with its errors.
abbrev number_from_json : Value → Result CodecError Bytes
number_from_json (string s) = from_number (from_json s)
number_from_json _ = err (of_number invalid_number)

abbrev number_value : Result NumberError Bytes × Bytes → Result CodecError Value × Bytes
number_value (ok s, d) = (ok (string s), d)
number_value (err e, d) = (err (of_number e), d)

abbrev number_to_json : Reader Value
number_to_json d = number_value (to_json d)

module _ (d : Definitions) (hashes : Hashes) where
  -- `NewSTObject`, and `STArray`, over the types of their fields.
  abbrev pub object_type : ℕ → Types → SerializedType
  object_type rounds types =
      plain_type (object_from_json d types hashes []) (λ opts. object_to_json d types rounds)

  abbrev pub array_type : ℕ → Types → SerializedType
  array_type rounds types =
      plain_type (array_from_json d types hashes) (λ opts. array_to_json d types rounds)

module _ (d : Definitions) (hashes : Hashes) (amount path_set : SerializedType) where
  -- The types that hold no object.
  unfoldable pub leaf_type : Types
  leaf_type t =
      if t == "UInt8"
      then some (plain_type (uint8_from_json d) (λ opts. uint8_to_json))
      else if t == "UInt16"
      then some (plain_type (uint16_from_json d) (λ opts. uint16_to_json))
      else if t == "UInt32"
      then some (plain_type uint32_from_json (λ opts. uint32_to_json))
      else if t == "Int32"
      then some (plain_type int32_from_json (λ opts. int32_to_json))
      else if t == "UInt64"
      then some uint64_type
      else if t == "Hash128"
      then some (plain_type (hash_from_json 16) (λ opts. hash_to_json 16))
      else if t == "Hash160"
      then some (plain_type (hash_from_json 20) (λ opts. hash_to_json 20))
      else if t == "Hash192"
      then some (plain_type (hash_from_json 24) (λ opts. hash_to_json 24))
      else if t == "Hash256"
      then some (plain_type (hash_from_json 32) (λ opts. hash_to_json 32))
      else if t == "AccountID"
      then some (plain_type (account_id_from_json hashes) (account_id_to_json hashes))
      else if t == "Amount"
      then some amount
      else if t == "Vector256"
      then some (plain_type vector256_from_json vector256_to_json)
      else if t == "Blob"
      then some (plain_type blob_from_json blob_to_json)
      else if t == "PathSet"
      then some path_set
      else if t == "XChainBridge"
      then some (plain_type (x_chain_bridge_from_json hashes) (x_chain_bridge_to_json hashes))
      else if t == "Issue"
      then some (plain_type (issue_from_json hashes) (λ opts. issue_to_json hashes))
      else if t == "Currency"
      then some (plain_type currency_from_json currency_to_json)
      else if t == "Number"
      then some (plain_type number_from_json (λ opts. number_to_json))
      else none

  abbrev pub with_objects : ℕ → Types → Types
  with_objects rounds types t =
      if t == "STObject"
      then some (object_type d hashes rounds types)
      else if t == "STArray"
      then some (array_type d hashes rounds types)
      else leaf_type t

  -- `GetSerializedType`
  unfoldable pub get_serialized_type : ℕ → ℕ → Types
  unfolding leaf_type
  get_serialized_type rounds zero t = with_objects rounds (λ u. some stuck_type) t
  get_serialized_type rounds (suc depth) t =
      with_objects rounds (get_serialized_type rounds depth) t
