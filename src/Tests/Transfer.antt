-- ===== src/Tests/Transfer.antt =====
-- A transaction with a fee and a list of memos, for the round trip of the codec.
use xrpl_go.Base.{
  ℕ, ◌≡◌, ◌<◌, ◌∙◌, ap, inl, inr, refl, [], ◌∷◌, ◌++◌, List, Bytes, codes, false, arith, none, true,
  some, IsByte, All, replicate,
}
use xrpl_go.Base.Int.{ℤ, pos}
use xrpl_go.Base.Assoc.{string_eq, lookup}
use xrpl_go.Base.Results.{ok, ◌>>=◌}
use xrpl_go.Hexutil.{decode_string, encode_to_upper_hex}
use xrpl_go.Definitions.{
  FieldInstance, load_definitions, get_field_instance_by_field_name, get_field_name_by_field_header,
  get_field_header_by_field_name, get_transaction_type_code_by_transaction_type_name,
}
use xrpl_go.Serdes.FieldId.{encode}
use xrpl_go.Serdes.Serializer.{write_field_and_value}
use xrpl_go.Serdes.Parser.{read_field}
use xrpl_go.Address.Errors.{done}
use xrpl_go.Address.Alphabet.{b58}
use xrpl_go.Address.Utf8.{runes}
use xrpl_go.Address.Base58.{decode_base58, decode_loop, add_chunk, count_zeros}
use xrpl_go.Address.Check.{base58_check_decode, checksum}
use xrpl_go.Address.XAddress.{is_valid_x_address, decode_x_address}
use xrpl_go.Base.Digits.{to_base, of_base}
use xrpl_go.Base.Words.{put_be}
use xrpl_go.Number.Parse.{optional_sign, is_digit, digits_value}
use xrpl_go.Types.Value.{
  string, integer, uint32, object, array, Values, no_values, value, member, no_members, Members,
  entries, name_of, depth_members,
}
use xrpl_go.Types.Integers.{every_byte, uint16_from_json, uint32_from_json}
use xrpl_go.Types.Amount.{
  amount_type, amount_from_json_for_field, amount_from_json, serialize_xrp_amount, parse_xrp_value,
  set_string, amount_to_json, token_amount, serialize_mpt_currency_amount, verify_mpt_value,
  serialize_mpt_currency_issuance_id,
}
use xrpl_go.Types.Amount.Token.{IsTokenOf, token_of, amount_to_json-token_of}
use xrpl_go.Types.Amount.Xrp.{drops_text, amount_to_json-native}
use xrpl_go.Types.Argument.{IsAmountField, native}
use xrpl_go.Types.Fields.{Types, enum_to_str}
use xrpl_go.Types.Scalar.{blob}
use xrpl_go.Types.Registry.{get_serialized_type}
use xrpl_go.Types.StObject.{
  process_x_addresses, Field, get_sorted_keys, write_fields, field_bytes, field_instances,
  array_bytes, array_from_json, create_field_instance_map_from_json, object_bytes, object_from_json,
}
use xrpl_go.Types.StObject.Unordered.{
  HasNoXAddress, object_bytes_classic, process_x_addresses_classic,
}
use xrpl_go.Types.StObject.ToJson.{is_end_marker}
use xrpl_go.Types.StObject.ReadBack.{NamesDiffer}
use xrpl_go.Types.Elements.{HasArrayMarker}
use xrpl_go.Types.Decodable.{IsListed, AllDecodable}
use xrpl_go.Types.Readable.{IsPlain}
use xrpl_go.Codec.{
  known_fields, transaction_raw_field_value_overrides, normalized, encode_bytes,
  encode as encode_tx,
}
use xrpl_go.Tests.Address.{hashes}
use xrpl_go.Tests.Payment.{
  instance_of, tx_definitions, some_type, some_tokens, types_with, memo, memo_field, data_field,
  type_field, sequence_field, payment, payment_fields, payment_classic, payment_decodable,
  payment_names, memo_field_bytes, memo_created, memo_field-IsListed, data_field-IsListed,
  data_field-IsPlain, apart,
}

abbrev pub fee_field : FieldInstance
fee_field = instance_of "Fee" 8 false "Amount" 6

abbrev pub memos_field : FieldInstance
memos_field = instance_of "Memos" 9 false "STArray" 15

abbrev array_end_field : FieldInstance
array_end_field = instance_of "ArrayEndMarker" 1 false "STArray" 15

abbrev memo_element : Members
memo_element = member "Memo" (object memo) no_members

abbrev memos : Values
memos = value (object memo_element) no_values

-- The payment with a fee of ten drops and a list of one memo.
abbrev pub transfer : Members
transfer = member "Memos" (array memos) (member "Fee" (string (codes "10")) payment)

abbrev pub transfer_fields : List Field
transfer_fields = (memos_field, array memos) ∷ (fee_field, string (codes "10")) ∷ payment_fields

no_x_fee : is_valid_x_address hashes (codes "10") ≡ done false
unfolding is_valid_x_address decode_x_address base58_check_decode decode_base58 decode_loop
    add_chunk runes b58 count_zeros to_base checksum
no_x_fee = refl

transfer_classic : HasNoXAddress hashes (entries transfer)
transfer_classic = (tt, (no_x_fee, payment_classic))

pub transfer_created :
    create_field_instance_map_from_json tx_definitions hashes (entries transfer)
    ≡ ok transfer_fields
unfolding create_field_instance_map_from_json field_instances load_definitions
    get_field_instance_by_field_name
transfer_created =
    rw (process_x_addresses_classic hashes (entries transfer) (entries transfer) transfer_classic)
      refl

abbrev transfer_types : ℕ → Types
transfer_types n = types_with (amount_type some_tokens) 30 n

element_created :
    create_field_instance_map_from_json tx_definitions hashes (entries memo_element)
    ≡ ok ((memo_field, object memo) ∷ [])
unfolding create_field_instance_map_from_json process_x_addresses field_instances load_definitions
    get_field_instance_by_field_name
element_created = refl

element_bytes :
    object_bytes tx_definitions (transfer_types 29) hashes [] (entries memo_element)
    ≡ ok (0xEA ∷ 0x7D ∷ 1 ∷ 0xAB ∷ 0xE1 ∷ [])
unfolding load_definitions get_field_instance_by_field_name field_instances write_fields
    get_sorted_keys write_field_and_value encode get_field_header_by_field_name
element_bytes =
    object_bytes_classic tx_definitions _ hashes [] (entries memo_element)
      ((memo_field, object memo) ∷ []) (tt, tt) refl
    ∙ rw (memo_field_bytes (amount_type some_tokens) 30 27) refl

memos_bytes :
    field_bytes (transfer_types 30) [] (memos_field, array memos)
    ≡ ok (0xEA ∷ 0x7D ∷ 1 ∷ 0xAB ∷ 0xE1 ∷ 0xF1 ∷ [])
unfolding field_bytes get_serialized_type array_from_json array_bytes object_from_json
memos_bytes = rw element_bytes refl

fee_bytes :
    field_bytes (transfer_types 30) [] (fee_field, string (codes "10"))
    ≡ ok (0x40 ∷ 0 ∷ 0 ∷ 0 ∷ 0 ∷ 0 ∷ 0 ∷ 10 ∷ [])
unfolding field_bytes get_serialized_type amount_from_json_for_field amount_from_json
    serialize_xrp_amount parse_xrp_value set_string optional_sign every_byte is_digit digits_value
    of_base put_be
fee_bytes = refl

abbrev transfer_sink : Bytes
transfer_sink =
    0x12 ∷ 0 ∷ 0 ∷ 0x24 ∷ 0 ∷ 0 ∷ 0 ∷ 7 ∷ 0x68 ∷ 0x40 ∷ 0 ∷ 0 ∷ 0 ∷ 0 ∷ 0 ∷ 0 ∷ 10 ∷ 0xEA ∷ 0x7D ∷ 1
    ∷ 0xAB ∷ 0xE1 ∷ 0xF9 ∷ 0xEA ∷ 0x7D ∷ 1 ∷ 0xAB ∷ 0xE1 ∷ 0xF1 ∷ []

-- One field of an object, written.
write_field :
    (types : Types) (f : Field) (fs : List Field) (sink b next : Bytes)
    → (f.0).info.is_serialized ≡ true
    → field_bytes types [] f ≡ ok b
    → write_field_and_value tx_definitions f.0 b sink ≡ (ok tt, next)
    → write_fields tx_definitions types [] (f ∷ fs) sink
      ≡ write_fields tx_definitions types [] fs next
unfolding write_fields
write_field types f fs sink b next serialized made put = rw (serialized, made, put)

sorted_fields :
    get_sorted_keys transfer_fields
    ≡ (type_field, string (codes "Payment"))
      ∷ (sequence_field, integer uint32 (pos 7))
      ∷ (fee_field, string (codes "10"))
      ∷ (memo_field, object memo)
      ∷ (memos_field, array memos)
      ∷ []
unfolding get_sorted_keys
sorted_fields = refl

type_bytes :
    field_bytes (transfer_types 30) [] (type_field, string (codes "Payment")) ≡ ok (0 ∷ 0 ∷ [])
unfolding load_definitions field_bytes get_serialized_type uint16_from_json
    get_transaction_type_code_by_transaction_type_name name_of put_be
type_bytes = refl

sequence_bytes :
    field_bytes (transfer_types 30) [] (sequence_field, integer uint32 (pos 7))
    ≡ ok (0 ∷ 0 ∷ 0 ∷ 7 ∷ [])
unfolding field_bytes get_serialized_type uint32_from_json put_be
sequence_bytes = refl

fields_written :
    write_fields tx_definitions (transfer_types 30) [] (get_sorted_keys transfer_fields) []
    ≡ ok transfer_sink
unfolding load_definitions write_fields write_field_and_value encode get_field_header_by_field_name
fields_written =
    let types = transfer_types 30 in
    let fs4 : List Field = (memos_field, array memos) ∷ [] in
    let fs3 : List Field = (memo_field, object memo) ∷ fs4 in
    let fs2 : List Field = (fee_field, string (codes "10")) ∷ fs3 in
    let fs1 : List Field = (sequence_field, integer uint32 (pos 7)) ∷ fs2 in
    let s1 : Bytes = 0x12 ∷ 0 ∷ 0 ∷ [] in
    let s2 : Bytes = s1 ++ (0x24 ∷ 0 ∷ 0 ∷ 0 ∷ 7 ∷ []) in
    let s3 : Bytes = s2 ++ (0x68 ∷ 0x40 ∷ 0 ∷ 0 ∷ 0 ∷ 0 ∷ 0 ∷ 0 ∷ 10 ∷ []) in
    let s4 : Bytes = s3 ++ (0xEA ∷ 0x7D ∷ 1 ∷ 0xAB ∷ 0xE1 ∷ []) in
    ap (λ fs. write_fields tx_definitions types [] fs []) sorted_fields
    ∙ write_field types (type_field, string (codes "Payment")) fs1 [] _ s1 refl type_bytes refl
    ∙ write_field types (sequence_field, integer uint32 (pos 7)) fs2 s1 _ s2 refl sequence_bytes
        refl
    ∙ write_field types (fee_field, string (codes "10")) fs3 s2 _ s3 refl fee_bytes refl
    ∙ write_field types (memo_field, object memo) fs4 s3 _ s4 refl
        (memo_field_bytes (amount_type some_tokens) 30 28) refl
    ∙ write_field types (memos_field, array memos) [] s4 _ transfer_sink refl memos_bytes refl

transfer_bytes :
    object_bytes tx_definitions (transfer_types 30) hashes [] (entries transfer) ≡ ok transfer_sink
unfolding load_definitions get_field_instance_by_field_name field_instances
transfer_bytes =
    object_bytes_classic tx_definitions (transfer_types 30) hashes [] (entries transfer)
      transfer_fields transfer_classic refl
    ∙ ap (λ r. r >>= λ sink. ok sink) fields_written

abbrev pub transfer_text : Bytes
transfer_text = codes "120000240000000768400000000000000AEA7D01ABE1F9EA7D01ABE1F1"

pub transfer_known : known_fields tx_definitions (entries transfer) ≡ entries transfer
unfolding known_fields load_definitions lookup
transfer_known = refl

pub transfer_plain :
    transaction_raw_field_value_overrides (known_fields tx_definitions (entries transfer)) ≡ ok none
unfolding transaction_raw_field_value_overrides known_fields load_definitions lookup
transfer_plain = refl

pub transfer_encoded :
    encode_tx tx_definitions hashes (amount_type some_tokens) some_type 30 (entries transfer)
    ≡ ok transfer_text
unfolding encode_tx encode_bytes known_fields transaction_raw_field_value_overrides normalized
    load_definitions lookup encode_to_upper_hex
transfer_encoded = rw transfer_bytes refl

array_ends : HasArrayMarker tx_definitions
unfolding load_definitions read_field get_field_name_by_field_header
    get_field_instance_by_field_name
array_ends = (array_end_field, refl, λ rest. refl)

fee_field-IsListed : IsListed tx_definitions fee_field
unfolding load_definitions get_field_instance_by_field_name get_field_name_by_field_header
    is_end_marker
fee_field-IsListed = record {
  known = record { serializable = omega arith; by_name = refl; by_header = refl };
  no_marker = refl;
}

memos_field-IsListed : IsListed tx_definitions memos_field
unfolding load_definitions get_field_instance_by_field_name get_field_name_by_field_header
    is_end_marker
memos_field-IsListed = record {
  known = record { serializable = omega arith; by_name = refl; by_header = refl };
  no_marker = refl;
}

fee_field-IsPlain : IsPlain tx_definitions fee_field
unfolding enum_to_str
fee_field-IsPlain v = refl

memos_field-IsPlain : IsPlain tx_definitions memos_field
unfolding enum_to_str
memos_field-IsPlain v = refl

fee_native : IsAmountField tx_definitions (fee_field, string (codes "10"))
fee_native = record { typed = refl; plain = fee_field-IsPlain; amount = native (codes "10") refl }

memo_shallow : depth_members memo < 29
unfolding depth_members
memo_shallow = omega arith

pub transfer_decodable :
    AllDecodable tx_definitions hashes some_tokens some_type 30 30 transfer_fields
transfer_decodable = (
  λ s. (
    memos_field-IsListed,
    inr (
      memos_field-IsPlain,
      inr (
        omega arith,
        memos,
        refl,
        refl,
        array_ends,
        (
          (
            "Memo",
            memo_field,
            memo,
            (data_field, string (codes "AB")) ∷ [],
            refl,
            element_created,
            refl,
            memo_field-IsListed,
            refl,
            refl,
            refl,
            memo_created,
            (tt, tt),
            memo_shallow,
            (λ t. (data_field-IsListed, inl (inl (blob, data_field-IsPlain))), tt),
          ),
          tt,
        ),
      ),
    ),
  ),
  (λ s. (fee_field-IsListed, inl (inr (inr fee_native))), payment_decodable),
)

pub transfer_names : NamesDiffer transfer_fields
transfer_names = (
  (
    apart "Memos" "Fee" refl,
    (
      apart "Memos" "Memo" refl,
      (apart "Memos" "Sequence" refl, (apart "Memos" "TransactionType" refl, tt)),
    ),
  ),
  (
    (
      apart "Fee" "Memo" refl,
      (apart "Fee" "Sequence" refl, (apart "Fee" "TransactionType" refl, tt)),
    ),
    payment_names,
  ),
)

delta_written :
    amount_from_json_for_field some_tokens "FeeAmountDelta" (string (codes "-5"))
    ≡ ok (0 ∷ 0 ∷ 0 ∷ 0 ∷ 0 ∷ 0 ∷ 0 ∷ 5 ∷ [])
unfolding amount_from_json_for_field serialize_xrp_amount parse_xrp_value set_string optional_sign
    every_byte is_digit digits_value of_base put_be
delta_written = refl

amount_to_json-native_example :
    (drops : ℤ) × (set_string (codes "-5") ≡ some drops)
    × (set_string (drops_text drops) ≡ some drops)
    × (amount_to_json some_tokens ((0 ∷ 0 ∷ 0 ∷ 0 ∷ 0 ∷ 0 ∷ 0 ∷ 5 ∷ []) ++ (7 ∷ []))
        ≡ (ok (string (drops_text drops)), 7 ∷ []))
    × (amount_from_json_for_field some_tokens "FeeAmountDelta" (string (drops_text drops))
        ≡ ok (0 ∷ 0 ∷ 0 ∷ 0 ∷ 0 ∷ 0 ∷ 0 ∷ 5 ∷ []))
    × All IsByte (0 ∷ 0 ∷ 0 ∷ 0 ∷ 0 ∷ 0 ∷ 0 ∷ 5 ∷ [])
amount_to_json-native_example =
    amount_to_json-native some_tokens "FeeAmountDelta" (codes "-5")
      (0 ∷ 0 ∷ 0 ∷ 0 ∷ 0 ∷ 0 ∷ 0 ∷ 5 ∷ []) (7 ∷ []) delta_written

abbrev some_token : Members
some_token =
    member "mpt_issuance_id" (string (replicate 48 b'A'))
      (member "value" (string (codes "300")) no_members)

abbrev some_token_bytes : Bytes
some_token_bytes = 0x60 ∷ 0 ∷ 0 ∷ 0 ∷ 0 ∷ 0 ∷ 0 ∷ 1 ∷ 44 ∷ replicate 24 0xAA

token_written : amount_from_json some_tokens (object some_token) ≡ ok some_token_bytes
unfolding amount_from_json token_amount lookup serialize_mpt_currency_amount verify_mpt_value
    serialize_mpt_currency_issuance_id set_string optional_sign every_byte is_digit digits_value
    of_base put_be decode_string
token_written = refl

token_has_id : lookup "mpt_issuance_id" (entries some_token) ≡ some (string (replicate 48 b'A'))
unfolding lookup
token_has_id = refl

amount_to_json-token_of_example :
    (s h : Bytes) × (n : ℕ) × (id : Bytes) × (lookup "value" (entries some_token) ≡ some (string s))
    × (string (replicate 48 b'A') ≡ string h)
    × IsTokenOf s h some_token_bytes n id
    × (amount_to_json some_tokens (some_token_bytes ++ (7 ∷ []))
        ≡ (ok (object (token_of n id)), 7 ∷ []))
    × (amount_from_json some_tokens (object (token_of n id)) ≡ ok some_token_bytes)
    × All IsByte some_token_bytes
amount_to_json-token_of_example =
    amount_to_json-token_of some_tokens some_token (string (replicate 48 b'A')) some_token_bytes
      (7 ∷ []) token_has_id token_written
