-- ===== src/Types/Unreadable.antt =====
-- Two kinds of fields of st_object.go that Encode writes and Decode refuses.
use xrpl_go.Base.{
  ℕ, ◌^◌, ◌%◌, ◌≤◌, ◌≡◌, refl, ap, ◌∙◌, ◌++◌, Bytes, false, Option, none, some, arith,
}
use xrpl_go.Base.Int.{pos}
use xrpl_go.Base.Words.{put_be, get_be, int32_of, length-put_be, get_be-put_be}
use xrpl_go.Base.Assoc.{string_eq, lookup}
use xrpl_go.Base.Results.{ok, err}
use xrpl_go.Definitions.{
  Definitions, FieldInstance, not_found_int, name_of_code,
  get_ledger_entry_type_name_by_ledger_entry_type_code,
}
use xrpl_go.Address.Hash.{Hashes}
use xrpl_go.Types.Errors.{no_length_prefix, of_definitions}
use xrpl_go.Types.Value.{string, integer, int, name_of}
use xrpl_go.Types.Law.{SerializedType}
use xrpl_go.Types.Reader.{continue, read_as-append, of_result}
use xrpl_go.Types.Fields.{
  Types, encode_field_value, encode_with, enum_to_str, read_value, read_known, read_sized,
  base_option,
}
use xrpl_go.Types.Integers.{uint16_to_json}
use xrpl_go.Types.Integers.RoundTrip.{uint16_number_written}
use xrpl_go.Types.Issue.ToJson.{x_chain_bridge_to_json}
use xrpl_go.Types.Registry.{leaf_type, get_serialized_type}
use xrpl_go.Types.Scalar.{type_at_depth}
use xrpl_go.Types.Named.{uint16_type, plain_text, named_as_code}

module _ (d : Definitions) (hashes : Hashes) (amount path_set : SerializedType) where
  bridge_stuck :
      (fi : FieldInstance) (t : Option SerializedType) (data_left : Bytes) (st : SerializedType)
      → t ≡ some st
      → fi.info.is_vl_encoded ≡ false
      → st.to_json (base_option fi) data_left ≡ (err no_length_prefix, data_left)
      → read_known t fi data_left ≡ (err no_length_prefix, data_left)
  bridge_stuck fi t data_left st e fixed h =
      ap (λ x. read_known x fi data_left) e ∙ ap (λ b. read_sized b st fi data_left) fixed ∙ h

  no_base : (fi : FieldInstance) → fi.info.type ≡ "XChainBridge" → base_option fi ≡ none
  unfolding base_option
  no_base fi e = rw e refl

  -- A field of type XChainBridge that is not of variable length, as definitions.json has it, is never
  -- read: whatever its bytes, also those that FromJSON wrote, the reader asks for a length and fails.
  pub read_value-XChainBridge :
      (rounds depth : ℕ) (fi : FieldInstance) (data_left : Bytes)
      → fi.info.type ≡ "XChainBridge"
      → fi.info.is_vl_encoded ≡ false
      → read_value d (get_serialized_type d hashes amount path_set rounds depth) fi data_left
        ≡ (err no_length_prefix, data_left)
  unfolding read_value x_chain_bridge_to_json leaf_type
  read_value-XChainBridge rounds depth fi data_left typed fixed =
      let types = get_serialized_type d hashes amount path_set rounds depth in
      ap (λ r. continue r (λ res. of_result (enum_to_str d fi.field_name res)))
        (bridge_stuck fi (types fi.info.type) data_left _
          (ap types typed
            ∙ type_at_depth d hashes amount path_set rounds depth "XChainBridge" refl refl)
          fixed (ap (λ o. x_chain_bridge_to_json hashes o data_left) (no_base fi typed)))

module _ (d : Definitions) where
  ledger_name_missing :
      (k : ℕ)
      → k ≤ 65535
      → name_of_code (pos k) d.ledger_entry_types ≡ none
      → enum_to_str d "LedgerEntryType" (integer int (pos k))
        ≡ err (of_definitions (not_found_int "LedgerEntryTypeCode" (pos k)))
  unfolding enum_to_str get_ledger_entry_type_name_by_ledger_entry_type_code
  ledger_name_missing k small h =
      let small_int : int32_of (pos k) ≡ pos k = ground arith in rw small_int (rw h)

  -- A ledger entry type that has the name of a transaction type is written with the transaction
  -- type's code, and where no ledger entry type has that code, reading it fails.
  pub ledger_entry_type-transaction_type :
      (types : Types) (fi : FieldInstance) (s : Bytes) (k : ℕ) (rest : Bytes)
      → fi.field_name ≡ "LedgerEntryType"
      → fi.info.type ≡ "UInt16"
      → fi.info.is_vl_encoded ≡ false
      → types "UInt16" ≡ some (uint16_type d)
      → k ≤ 65535
      → lookup (name_of s) d.transaction_types ≡ some (pos k)
      → name_of_code (pos k) d.ledger_entry_types ≡ none
      → (encode_field_value types fi (string s) ≡ ok (put_be 2 k))
        × (read_value d types fi (put_be 2 k ++ rest)
            ≡ (err (of_definitions (not_found_int "LedgerEntryTypeCode" (pos k))), rest))
  unfolding encode_field_value read_value uint16_to_json
  ledger_entry_type-transaction_type types fi s k rest named typed fixed at_type small found
        missing =
      let here : types fi.info.type ≡ some (uint16_type d) = ap types typed ∙ at_type in
      let pattern : k % 2 ^ 16 ≡ k = omega arith in
      let value : get_be (put_be 2 k) ≡ k = get_be-put_be 2 k (omega (arith, small)) in
      (
        ap (λ t. encode_with t fi (string s)) here
            ∙ named_as_code d s (string s) (pos k) plain_text found
            ∙ uint16_number_written d k small
            ∙ ap (λ (x : ℕ). ok (put_be 2 x)) pattern,
        ap (λ r. continue r (λ res. of_result (enum_to_str d fi.field_name res)))
              (ap (λ t. read_known t fi (put_be 2 k ++ rest)) here
                ∙ ap (λ b. read_sized b (uint16_type d) fi (put_be 2 k ++ rest)) fixed
                ∙ read_as-append 2 _ (put_be 2 k) rest (length-put_be 2 k)
                ∙ ap (λ (x : ℕ). (ok (integer int (pos x)), rest)) value)
            ∙ ap (λ r. (r, rest))
                (ap (λ t. enum_to_str d t (integer int (pos k))) named
                  ∙ ledger_name_missing k small missing),
      )
