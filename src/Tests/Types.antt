-- ===== src/Tests/Types.antt =====
-- Tests and examples of the theorems on binary-codec/types.
use xrpl_go.Base.{
  none, ℕ, ◌≡◌, ◌≢◌, ◌<◌, ◌^◌, ◌*◌, ◌+◌, refl, [], ◌∷◌, ◌++◌, List, Bytes, codes, true, false, some,
  arith, replicate, IsByte, All, ltb,
}
use xrpl_go.Base.Int.{pos}
use xrpl_go.Base.Assoc.{string_eq, lookup}
use xrpl_go.Base.Results.{ok, err}
use xrpl_go.Definitions.{
  FieldInstance, DefinitionsDoc, load_definitions, get_field_instance_by_field_name,
}
use xrpl_go.Hexutil.{decode_string}
use xrpl_go.Types.Value.{Value, string, strings, integer, uint32, object, name_of, entries}
use xrpl_go.Types.Registry.{get_serialized_type, uint64_type}
use xrpl_go.Types.Readable.{IsPlain}
use xrpl_go.Address.Errors.{done}
use xrpl_go.Address.Codec.{encode_account_id_to_classic_address}
use xrpl_go.Base.Words.{put_be}
use xrpl_go.Number.Parse.{is_digit, digits_value}
use xrpl_go.Types.Integers.{
  uint64_from_json, uint64_json_base_for_field, one_of, is_uint64_text, every_byte, parse_uint64,
}
use xrpl_go.Types.Uint64.{IsTextIn, read_value_uint64}
use xrpl_go.Types.Hash.RoundTrip.{vector256-ReadsBack}
use xrpl_go.Types.Hash.Accounts.{account_id_to_json_classic}
use mathlib.Core.List.{Perm, Permᴰ}
use xrpl_go.Types.StObject.Order.{IsSorted}
use xrpl_go.Types.StObject.Layout.{Layout, object_bytes-Layout}
use xrpl_go.Types.Hash.{
  account_id_from_json, account_id_to_json, vector256_from_json, vector256_from_value,
  vector256_to_json, hash_of_text,
}
use xrpl_go.Types.StObject.{
  Field, Entry, field_instances, create_field_instance_map_from_json, object_bytes,
}
use xrpl_go.Types.StObject.Unordered.{object_bytes-unordered}
use xrpl_go.Base.Digits.{of_base}
use xrpl_go.Tests.Address.{hashes}
use xrpl_go.Types.Unreadable.{read_value-XChainBridge, ledger_entry_type-transaction_type}
use xrpl_go.Types.Errors.{no_length_prefix, of_definitions}
use xrpl_go.Types.Fields.{Types, enum_to_str, encode_field_value, read_value}
use xrpl_go.Definitions.{not_found_int, name_of_code}
use xrpl_go.Types.Named.{uint16_type}
use xrpl_go.Tests.Payment.{
  some_type, tx_definitions, memo, payment, zero_address, zero_address_id, payment_fields,
  payment_classic, tx_types, payment_bytes,
}

object_bytes-Layout_example :
    (fs sorted : List Field) × (create_field_instance_map_from_json tx_definitions hashes
        (entries payment)
      ≡ ok fs)
    × Perm sorted fs
    × IsSorted sorted
    × Layout tx_definitions
        (tx_types 13)
        []
        sorted
        (0x12 ∷ 0 ∷ 0 ∷ 0x24 ∷ 0 ∷ 0 ∷ 0 ∷ 7 ∷ 0xEA ∷ 0x7D ∷ 1 ∷ 0xAB ∷ 0xE1 ∷ [])
object_bytes-Layout_example =
    object_bytes-Layout tx_definitions (tx_types 13) hashes [] (entries payment) _ payment_bytes

-- The same members in the order of the ordinals.
abbrev reordered : List Entry
reordered =
    ("Sequence", integer uint32 (pos 7))
    ∷ ("Memo", object memo)
    ∷ ("TransactionType", string (codes "Payment"))
    ∷ []

below : (m n : ℕ) → ltb m n ≡ true → pos n ≢ pos m
below m n h e = let q : n ≡ m = cc in ground (arith, h, q)

payment_instances : field_instances tx_definitions (entries payment) ≡ ok payment_fields
unfolding field_instances load_definitions get_field_instance_by_field_name
payment_instances = refl

object_bytes-unordered_example :
    object_bytes tx_definitions (tx_types 13) hashes [] (entries payment)
    ≡ object_bytes tx_definitions (tx_types 13) hashes [] reordered
object_bytes-unordered_example =
    object_bytes-unordered tx_definitions (tx_types 13) hashes [] (entries payment) reordered
      payment_fields ∣ Permᴰ.swap refl refl ∣₁ payment_classic payment_instances
      (
        (below 131076 917514 refl, (below 65538 917514 refl, tt)),
        ((below 65538 131076 refl, tt), (tt, tt)),
      )

account_id_to_json_classic_example :
    (s : Bytes) × (encode_account_id_to_classic_address hashes (replicate 20 0) ≡ done s)
    × (account_id_to_json hashes (some 20) (replicate 20 0 ++ (7 ∷ [])) ≡ (ok (string s), 7 ∷ []))
    × (account_id_from_json hashes (string s) ≡ ok (replicate 20 0))
    × All IsByte (replicate 20 0)
account_id_to_json_classic_example =
    account_id_to_json_classic hashes (string zero_address) (replicate 20 0) (7 ∷ []) written
  where
    written : account_id_from_json hashes (string zero_address) ≡ ok (replicate 20 0)
    written = unfold account_id_from_json in zero_address_id

abbrev two_hashes : List Bytes
two_hashes = replicate 64 b'A' ∷ replicate 64 b'0' ∷ []

vector256-ReadsBack_example :
    (w : Value) × (vector256_to_json (some 64) ((replicate 32 0xAA ++ replicate 32 0) ++ (7 ∷ []))
      ≡ (ok w, 7 ∷ []))
    × (vector256_from_json w ≡ ok (replicate 32 0xAA ++ replicate 32 0))
    × All IsByte (replicate 32 0xAA ++ replicate 32 0)
vector256-ReadsBack_example =
    vector256-ReadsBack (strings two_hashes) (replicate 32 0xAA ++ replicate 32 0) (7 ∷ []) written
  where
    written : vector256_from_json (strings two_hashes) ≡ ok (replicate 32 0xAA ++ replicate 32 0)
    written = unfold vector256_from_json vector256_from_value hash_of_text decode_string in refl

abbrev amount_field : FieldInstance
amount_field = record {
  field_name = "MPTAmount";
  info = record {
    nth = pos 26;
    is_vl_encoded = false;
    is_serialized = true;
    is_signing_field = true;
    type = "UInt64";
  };
  header = record { type_code = pos 3; field_code = pos 26 };
  ordinal = pos (3 * 65536 + 26);
}

abbrev only_uint64 : Types
only_uint64 t = some uint64_type

amount_field-IsPlain : IsPlain tx_definitions amount_field
unfolding enum_to_str
amount_field-IsPlain v = refl

amount_written :
    encode_field_value only_uint64 amount_field (string (codes "256"))
    ≡ ok (0 ∷ 0 ∷ 0 ∷ 0 ∷ 0 ∷ 0 ∷ 1 ∷ 0 ∷ [])
unfolding encode_field_value uint64_from_json is_uint64_text every_byte is_digit parse_uint64
    digits_value put_be of_base uint64_json_base_for_field one_of
amount_written = refl

read_value_uint64_example :
    (k : ℕ) × (s : Bytes) × (k < 2 ^ 64)
    × (put_be 8 k ≡ 0 ∷ 0 ∷ 0 ∷ 0 ∷ 0 ∷ 0 ∷ 1 ∷ 0 ∷ [])
    × IsTextIn "MPTAmount" k s
    × (read_value tx_definitions only_uint64 amount_field
          ((0 ∷ 0 ∷ 0 ∷ 0 ∷ 0 ∷ 0 ∷ 1 ∷ 0 ∷ []) ++ (7 ∷ []))
        ≡ (ok (string s), 7 ∷ []))
    × (encode_field_value only_uint64 amount_field (string s)
        ≡ ok (0 ∷ 0 ∷ 0 ∷ 0 ∷ 0 ∷ 0 ∷ 1 ∷ 0 ∷ []))
read_value_uint64_example =
    read_value_uint64 tx_definitions only_uint64 amount_field (string (codes "256"))
      (0 ∷ 0 ∷ 0 ∷ 0 ∷ 0 ∷ 0 ∷ 1 ∷ 0 ∷ []) (7 ∷ []) refl refl refl amount_field-IsPlain
      amount_written

-- The field XChainBridge as definitions.json has it.
abbrev bridge_field : FieldInstance
bridge_field = record {
  field_name = "XChainBridge";
  info = record {
    nth = pos 1;
    is_vl_encoded = false;
    is_serialized = true;
    is_signing_field = true;
    type = "XChainBridge";
  };
  header = record { type_code = pos 25; field_code = pos 1 };
  ordinal = pos 1638401;
}

read_value-XChainBridge_example :
    read_value tx_definitions
      (get_serialized_type tx_definitions hashes some_type some_type 9 1)
      bridge_field
      (replicate 80 0)
    ≡ (err no_length_prefix, replicate 80 0)
read_value-XChainBridge_example =
    read_value-XChainBridge tx_definitions hashes some_type some_type 9 1 bridge_field
      (replicate 80 0) refl refl

-- A name of both tables, with its codes in definitions.json.
abbrev preauth_doc : DefinitionsDoc
preauth_doc = record {
  types = ("UInt16", pos 1) ∷ [];
  ledger_entry_types = ("DepositPreauth", pos 112) ∷ [];
  fields = [];
  transaction_results = [];
  transaction_types = ("DepositPreauth", pos 19) ∷ [];
}

abbrev entry_field : FieldInstance
entry_field = record {
  field_name = "LedgerEntryType";
  info = record {
    nth = pos 1;
    is_vl_encoded = false;
    is_serialized = true;
    is_signing_field = true;
    type = "UInt16";
  };
  header = record { type_code = pos 1; field_code = pos 1 };
  ordinal = pos 65537;
}

ledger_entry_type-transaction_type_example :
    (encode_field_value
        (get_serialized_type (load_definitions preauth_doc) hashes some_type some_type 9 1)
        entry_field
        (string (codes "DepositPreauth"))
      ≡ ok (put_be 2 19))
    × (read_value
          (load_definitions preauth_doc)
          (get_serialized_type (load_definitions preauth_doc) hashes some_type some_type 9 1)
          entry_field
          (put_be 2 19 ++ [])
        ≡ (err (of_definitions (not_found_int "LedgerEntryTypeCode" (pos 19))), []))
ledger_entry_type-transaction_type_example =
    ledger_entry_type-transaction_type (load_definitions preauth_doc)
      (get_serialized_type (load_definitions preauth_doc) hashes some_type some_type 9 1)
      entry_field (codes "DepositPreauth") 19 [] refl refl refl typed (omega arith) found missing
  where
    typed :
        get_serialized_type (load_definitions preauth_doc) hashes some_type some_type 9 1 "UInt16"
        ≡ some (uint16_type (load_definitions preauth_doc))
    typed = unfold get_serialized_type in refl

    found :
        lookup (name_of (codes "DepositPreauth")) (load_definitions preauth_doc).transaction_types
        ≡ some (pos 19)
    found = unfold load_definitions lookup name_of in refl

    missing : name_of_code (pos 19) (load_definitions preauth_doc).ledger_entry_types ≡ none
    missing = unfold load_definitions name_of_code in refl
