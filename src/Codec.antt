-- ===== src/Codec.antt =====
-- binary-codec/codec.go: transactions as hexadecimal texts, whole and for signing. The codecs of
-- amounts and of path sets are arguments.
use xrpl_go.Base.{
  ℕ, zero, suc, ◌+◌, ◌^◌, List, [], ◌∷◌, ◌++◌, map, Bytes, codes, String, Bool, true, false, not,
  ◌&&◌, ◌==◌, ltb, leb, if◌then◌else◌, Option, none, some, length, beq_bytes,
}
use xrpl_go.Base.Int.{pos}
use xrpl_go.Base.Assoc.{string_eq, lookup, insert}
use xrpl_go.Base.Results.{Result, ok, err, ◌>>=◌, ◌>>◌, guard, from_option}
use xrpl_go.Hexutil.{decode_string, encode_to_upper_hex, to_upper}
use xrpl_go.Definitions.{Definitions, FieldInstance}
use xrpl_go.Address.Hash.{Hashes}
use xrpl_go.Types.Errors.{CodecError, from_hex}
use xrpl_go.Types.Value.{
  Value, null, string, named_string, strings, integer, uint32, object, Members, entries, members,
  depth_members,
}
use xrpl_go.Types.Law.{SerializedType}
use xrpl_go.Types.Fields.{Types}
use xrpl_go.Types.Integers.{uint32_from_json}
use xrpl_go.Types.Hash.{hash_of_text, hash_from_json, account_id_from_json, account_id_of_text}
use xrpl_go.Types.Issue.{encode_to_string}
use xrpl_go.Types.StObject.{Entry, Overrides, object_bytes}
use xrpl_go.Types.StObject.ToJson.{object_to_json}
use xrpl_go.Types.Registry.{get_serialized_type}
pub mod LedgerData
pub mod RoundTrip
pub mod Signing
pub mod Signers
pub mod Payloads

-- The errors of errors.go, with those of the types.
pub data EncodeError : Type 0 where
  signing_claim_field_not_found invalid_unl_modify_account : EncodeError
  batch_account_not_found batch_sequence_not_found batch_flags_not_found : EncodeError
  batch_tx_ids_not_found batch_signer_without_account batch_tx_ids_not_array : EncodeError
  batch_flags_not_uint32 batch_tx_ids_too_long : EncodeError
  of_codec : CodecError → EncodeError

abbrev pub lift {ℓ} : {A : Type ℓ} → Result CodecError A → Result EncodeError A
lift (ok a) = ok a
lift (err e) = err (of_codec e)

abbrev pub unl_modify_transaction_type : Bytes
unl_modify_transaction_type = codes "UNLModify"

abbrev xrpl_zero_account : Bytes
xrpl_zero_account = codes "rrrrrrrrrrrrrrrrrrrrrhoLvTp"

-- `typecheck.ToString`
abbrev pub to_string : Option Value → Option Bytes
to_string (some (string s)) = some s
to_string (some (named_string s)) = some s
to_string _ = none

-- The keys that definitions.json knows.
unfoldable pub known_fields : Definitions → List Entry → List Entry
unfolding lookup
known_fields d [] = []
known_fields d ((k, v) ∷ m) =
    let rest = known_fields d m in
    elim (lookup k d.fields) [ none ↦ rest | some fi ↦ (k, v) ∷ rest ]

-- Whether the account of an UNLModify may be written as the empty value.
abbrev account_allowed : Option Value → Result EncodeError (Unit {0})
account_allowed none = ok tt
account_allowed (some v) = do
  account ← from_option (to_string (some v)) invalid_unl_modify_account
  guard (not (not (length account == 0) && not (beq_bytes account xrpl_zero_account)))
      invalid_unl_modify_account

abbrev is_unl_modify : Option Bytes → Bool
is_unl_modify none = false
is_unl_modify (some s) = beq_bytes s unl_modify_transaction_type

-- `transactionRawFieldValueOverrides`: nil is none.
unfoldable pub transaction_raw_field_value_overrides :
    List Entry → Result EncodeError (Option Overrides)
unfolding lookup
transaction_raw_field_value_overrides json =
    elim (is_unl_modify (to_string (lookup "TransactionType" json))) [
      | false ↦ ok none
      | true ↦ (do account_allowed (lookup "Account" json); ok (some (("Account", []) ∷ [])))
    ]

abbrev pub or_none : Option Overrides → Overrides
or_none none = []
or_none (some o) = o

-- `if overrides != nil { filteredJSON["TransactionType"] = .. }`
unfoldable pub normalized : Option Overrides → List Entry → List Entry
unfolding insert
normalized none json = json
normalized (some o) json = insert "TransactionType" (string unl_modify_transaction_type) json

module _ (d : Definitions) (hashes : Hashes) (amount path_set : SerializedType) where
  -- The types for this much fuel: for as many objects in one another, and as many rounds of a loop.
  abbrev pub types_for : ℕ → Types
  types_for fuel = get_serialized_type d hashes amount path_set fuel fuel

  -- The bytes that `Encode` writes. As much fuel as there are objects in one another is enough.
  unfoldable pub encode_bytes : ℕ → List Entry → Result EncodeError Bytes
  unfolding known_fields transaction_raw_field_value_overrides normalized
  encode_bytes fuel json = do
    let filtered = known_fields d json
    overrides ← transaction_raw_field_value_overrides filtered
    lift
        (object_bytes d (types_for fuel) hashes (or_none overrides) (normalized overrides filtered))

  -- `Encode`
  unfoldable pub encode : ℕ → List Entry → Result EncodeError Bytes
  unfolding encode_bytes
  encode fuel json = do b ← encode_bytes fuel json; ok (encode_to_upper_hex b)

  -- `Decode`. As much fuel as there are bytes is enough.
  unfoldable pub decode : ℕ → Bytes → Result CodecError Value
  unfolding object_to_json
  decode fuel hex_encoded = do
    b ← from_hex (decode_string hex_encoded)
    (object_to_json d (types_for fuel) fuel b).0
