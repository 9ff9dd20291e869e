-- ===== src/Codec/Payloads.antt =====
-- binary-codec/codec.go: the texts that are signed, of transactions, claims and batches.
use xrpl_go.Base.{
  ℕ, ◌^◌, List, [], ◌∷◌, ◌++◌, map, Bytes, codes, Bool, true, false, not, ◌&&◌, ◌==◌, ltb,
  if◌then◌else◌, Option, none, some, length,
}
use xrpl_go.Base.Int.{pos}
use xrpl_go.Base.Assoc.{string_eq, lookup}
use xrpl_go.Base.Results.{Result, ok, ◌>>=◌, ◌>>◌, guard, from_option}
use xrpl_go.Hexutil.{to_upper}
use xrpl_go.Definitions.{Definitions, FieldInstance}
use xrpl_go.Address.Hash.{Hashes}
use xrpl_go.Types.Value.{Value, null, strings, integer, uint32}
use xrpl_go.Types.Law.{SerializedType}
use xrpl_go.Types.Integers.{uint32_from_json}
use xrpl_go.Types.Hash.{hash_of_text, hash_from_json, account_id_from_json, account_id_of_text}
use xrpl_go.Types.Issue.{encode_to_string}
use xrpl_go.Types.StObject.{Entry}
use xrpl_go.Codec.{
  EncodeError, lift, encode, signing_claim_field_not_found, batch_account_not_found,
  batch_sequence_not_found, batch_flags_not_found, batch_tx_ids_not_found,
  batch_signer_without_account, batch_tx_ids_not_array, batch_flags_not_uint32,
  batch_tx_ids_too_long,
}

-- `strings.ToUpper` on an ASCII text.
abbrev pub upper : Bytes → Bytes
upper s = map to_upper s

abbrev pub is_signing : Option FieldInstance → Bool
is_signing none = false
is_signing (some fi) = fi.info.is_signing_field

-- `signingFieldsOnly`
unfoldable pub signing_fields_only : Definitions → List Entry → List Entry
unfolding lookup
signing_fields_only d [] = []
signing_fields_only d ((k, v) ∷ m) =
    let rest = signing_fields_only d m in
    if is_signing (lookup k d.fields) then (k, v) ∷ rest else rest

abbrev pub counterparty_sig_prefix : Bytes
counterparty_sig_prefix = codes "43505400"

abbrev pub counterparty_multi_sig_prefix : Bytes
counterparty_multi_sig_prefix = codes "43504D00"

abbrev pub sponsor_sig_prefix : Bytes
sponsor_sig_prefix = codes "53504E00"

abbrev pub sponsor_multi_sig_prefix : Bytes
sponsor_multi_sig_prefix = codes "53504D00"

abbrev pub tx_multi_sig_prefix : Bytes
tx_multi_sig_prefix = codes "534D5400"

abbrev pub payment_channel_claim_prefix : Bytes
payment_channel_claim_prefix = codes "434C4D00"

abbrev pub tx_sig_prefix : Bytes
tx_sig_prefix = codes "53545800"

abbrev pub batch_prefix : Bytes
batch_prefix = codes "42434800"

module _ (d : Definitions) (hashes : Hashes) (amount path_set : SerializedType) (fuel : ℕ) where
  -- `encodeForSigning`
  unfoldable pub encode_with_prefix : List Entry → Bytes → Result EncodeError Bytes
  unfolding encode signing_fields_only
  encode_with_prefix json prefix_ = do
    encoded ← encode d hashes amount path_set fuel (signing_fields_only d json)
    ok (upper (prefix_ ++ encoded))

  -- `encodeForMultisigning`
  unfoldable pub encode_with_suffix : List Entry → Bytes → Bytes → Result EncodeError Bytes
  unfolding encode signing_fields_only encode_to_string account_id_of_text
  encode_with_suffix json xrp_account_id prefix_ = do
    suffix ← lift (account_id_of_text hashes xrp_account_id)
    encoded ← encode d hashes amount path_set fuel (signing_fields_only d json)
    ok (upper (prefix_ ++ (encoded ++ encode_to_string suffix)))

  unfoldable pub encode_for_signing : List Entry → Result EncodeError Bytes
  unfolding encode_with_prefix
  encode_for_signing json = encode_with_prefix json tx_sig_prefix

  unfoldable pub encode_for_signing_counterparty : List Entry → Result EncodeError Bytes
  unfolding encode_with_prefix
  encode_for_signing_counterparty json = encode_with_prefix json counterparty_sig_prefix

  unfoldable pub encode_for_signing_sponsor : List Entry → Result EncodeError Bytes
  unfolding encode_with_prefix
  encode_for_signing_sponsor json = encode_with_prefix json sponsor_sig_prefix

  unfoldable pub encode_for_multisigning : List Entry → Bytes → Result EncodeError Bytes
  unfolding encode_with_suffix
  encode_for_multisigning json account = encode_with_suffix json account tx_multi_sig_prefix

  unfoldable pub encode_for_multisigning_counterparty :
      List Entry → Bytes → Result EncodeError Bytes
  unfolding encode_with_suffix
  encode_for_multisigning_counterparty json account =
      encode_with_suffix json account counterparty_multi_sig_prefix

  unfoldable pub encode_for_multisigning_sponsor : List Entry → Bytes → Result EncodeError Bytes
  unfolding encode_with_suffix
  encode_for_multisigning_sponsor json account =
      encode_with_suffix json account sponsor_multi_sig_prefix

-- `json[k] == nil`: the key is missing, or its value is nil.
abbrev pub not_nil : Option Value → Option Value
not_nil none = none
not_nil (some null) = none
not_nil (some v) = some v

-- `bytes.HasPrefix(amount, {0x40})` with `bytes.Replace` of the first such byte.
abbrev pub clear_first : Bytes → Bytes
clear_first [] = []
clear_first (c ∷ b) = (if c == 0x40 then 0 else c) ∷ b

-- `EncodeForSigningClaim`
unfoldable pub encode_for_signing_claim : SerializedType → List Entry → Result EncodeError Bytes
unfolding lookup hash_from_json encode_to_string
encode_for_signing_claim amount json = do
  channel_value ← from_option (not_nil (lookup "Channel" json)) signing_claim_field_not_found
  amount_value ← from_option (not_nil (lookup "Amount" json)) signing_claim_field_not_found
  channel ← lift (hash_from_json 32 channel_value)
  amount_bytes ← lift (amount.from_json amount_value)
  ok (
      upper (
        payment_channel_claim_prefix
        ++ (encode_to_string channel ++ encode_to_string (clear_first amount_bytes))))

-- The accounts of a batch payload that may be missing.
abbrev pub optional_account : Hashes → Option Value → Result EncodeError Bytes
optional_account hashes none = ok []
optional_account hashes (some v) = do
  b ← lift (account_id_from_json hashes v)
  ok (encode_to_string b)

unfoldable pub tx_ids_text : List Bytes → Result EncodeError Bytes
unfolding hash_of_text encode_to_string
tx_ids_text [] = ok []
tx_ids_text (tx_id ∷ tx_ids) = do
  b ← lift (hash_of_text 32 tx_id)
  rest ← tx_ids_text tx_ids
  ok (encode_to_string b ++ rest)

abbrev pub as_strings : Value → Option (List Bytes)
as_strings (strings s) = some s
as_strings _ = none

abbrev pub is_uint32 : Value → Bool
is_uint32 (integer uint32 v) = true
is_uint32 _ = false

abbrev pub is_some : Option Value → Bool
is_some none = false
is_some (some v) = true

-- The body of `EncodeForSigningBatch`, behind its checks.
unfoldable pub batch_text :
    Hashes
    → Value
    → Value
    → Value
    → List Bytes
    → Option Value
    → Option Value
    → Result EncodeError Bytes
unfolding account_id_from_json uint32_from_json tx_ids_text encode_to_string
batch_text hashes account sequence flags tx_ids batch_account signer_account = do
  account_bytes ← lift (account_id_from_json hashes account)
  sequence_bytes ← lift (uint32_from_json sequence)
  flags_bytes ← lift (uint32_from_json flags)
  length_bytes ← lift (uint32_from_json (integer uint32 (pos (length tx_ids))))
  ids ← tx_ids_text tx_ids
  batch_account_text ← optional_account hashes batch_account
  signer_account_text ← optional_account hashes signer_account
  ok (
      batch_prefix
      ++ (encode_to_string account_bytes
          ++ (encode_to_string sequence_bytes
              ++ (encode_to_string flags_bytes
                  ++ (encode_to_string length_bytes
                      ++ (ids ++ (batch_account_text ++ signer_account_text)))))))

-- `EncodeForSigningBatch`. An optional account that is nil is present.
unfoldable pub encode_for_signing_batch : Hashes → List Entry → Result EncodeError Bytes
unfolding lookup batch_text
encode_for_signing_batch hashes json = do
  account ← from_option (not_nil (lookup "account" json)) batch_account_not_found
  sequence ← from_option (not_nil (lookup "sequence" json)) batch_sequence_not_found
  flags ← from_option (not_nil (lookup "flags" json)) batch_flags_not_found
  tx_ids_value ← from_option (not_nil (lookup "txIDs" json)) batch_tx_ids_not_found
  let batch_account = lookup "batchAccount" json
  let signer_account = lookup "signerAccount" json
  guard (not (is_some signer_account && not (is_some batch_account))) batch_signer_without_account
  tx_ids ← from_option (as_strings tx_ids_value) batch_tx_ids_not_array
  guard (is_uint32 flags) batch_flags_not_uint32
  guard (ltb (length tx_ids) (2 ^ 32)) batch_tx_ids_too_long
  text ← batch_text hashes account sequence flags tx_ids batch_account signer_account
  ok (upper text)
