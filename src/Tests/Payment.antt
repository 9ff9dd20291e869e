-- ===== src/Tests/Payment.antt =====
-- A small transaction with a memo, whose bytes the tests of the codec take.
use xrpl_go.Base.{
  ℕ, suc, ◌+◌, ◌*◌, ◌≡◌, ◌∙◌, ◌≢◌, inl, inr, refl, [], ◌∷◌, List, Bytes, codes, String, Bool, true,
  false, arith, replicate,
}
use xrpl_go.Base.Int.{pos}
use xrpl_go.Base.Assoc.{string_eq, lookup}
use xrpl_go.Base.Results.{ok}
use xrpl_go.Definitions.{
  FieldInfo, FieldInstance, Definitions, DefinitionsDoc, load_definitions,
  get_field_instance_by_field_name, get_field_name_by_field_header, get_field_header_by_field_name,
  get_transaction_type_code_by_transaction_type_name,
}
use xrpl_go.Hexutil.{decode_string}
use xrpl_go.Serdes.FieldId.{encode}
use xrpl_go.Serdes.Serializer.{write_field_and_value}
use xrpl_go.Serdes.Parser.{read_field}
use xrpl_go.Types.Value.{
  string, integer, uint32, object, member, name_of, no_members, Members, entries,
}
use xrpl_go.Types.Law.{SerializedType}
use xrpl_go.Types.Registry.{plain_type, get_serialized_type}
use xrpl_go.Base.Words.{put_be}
use xrpl_go.Types.Integers.{uint16_from_json, uint32_from_json}
use xrpl_go.Types.Hash.{
  hash_from_json, hash_to_json, blob_from_json, account_id_of_text, account_id_of_classic,
}
use xrpl_go.Types.Fields.{Types, enum_to_str}
use xrpl_go.Types.StObject.{
  Field, get_sorted_keys, write_fields, field_bytes, field_instances,
  create_field_instance_map_from_json, object_bytes, object_from_json,
}
use xrpl_go.Types.StObject.Unordered.{
  HasNoXAddress, object_bytes_classic, process_x_addresses_classic,
}
use xrpl_go.Types.StObject.ToJson.{is_end_marker}
use xrpl_go.Types.StObject.ReadBack.{NamesDiffer}
use xrpl_go.Types.Scalar.{uint32 as uint32_type, blob}
use xrpl_go.Types.Amount.{TokenCodec}
use xrpl_go.Types.Decodable.{IsListed, AllDecodable}
use xrpl_go.Types.Readable.{HasEndMarker, IsPlain}
use xrpl_go.Types.Named.{HasTypeNames, IsTypeField, plain_text}
use xrpl_go.Address.Errors.{done}
use xrpl_go.Address.Alphabet.{b58}
use xrpl_go.Address.Utf8.{runes}
use xrpl_go.Address.Base58.{decode_base58, decode_loop, add_chunk, count_zeros}
use xrpl_go.Address.Check.{base58_check_decode, checksum}
use xrpl_go.Address.Codec.{decode_classic_address_to_account_id}
use xrpl_go.Address.XAddress.{is_valid_x_address, decode_x_address}
use xrpl_go.Base.Digits.{to_base}
use xrpl_go.Tests.Address.{hashes}

abbrev info : ℕ → Bool → String → FieldInfo
info n is_vl type = record {
  nth = pos n;
  is_vl_encoded = is_vl;
  is_serialized = true;
  is_signing_field = true;
  type = type;
}

abbrev signature_info : FieldInfo
signature_info = record {
  nth = pos 4;
  is_vl_encoded = true;
  is_serialized = true;
  is_signing_field = false;
  type = "Blob";
}

-- Rows of definitions.json for a small transaction with a memo.
abbrev pub tx_doc : DefinitionsDoc
tx_doc = record {
  types =
      ("UInt16", pos 1)
      ∷ ("UInt32", pos 2)
      ∷ ("Amount", pos 6)
      ∷ ("Blob", pos 7)
      ∷ ("STObject", pos 14)
      ∷ ("STArray", pos 15)
      ∷ [];
  ledger_entry_types = [];
  fields =
      ("TransactionType", info 2 false "UInt16")
      ∷ ("Sequence", info 4 false "UInt32")
      ∷ ("MemoData", info 13 true "Blob")
      ∷ ("Memo", info 10 false "STObject")
      ∷ ("ObjectEndMarker", info 1 false "STObject")
      ∷ ("TxnSignature", signature_info)
      ∷ ("Fee", info 8 false "Amount")
      ∷ ("Memos", info 9 false "STArray")
      ∷ ("ArrayEndMarker", info 1 false "STArray")
      ∷ [];
  transaction_results = [];
  transaction_types = ("Payment", pos 0) ∷ ("TrustSet", pos 20) ∷ [];
}

abbrev pub tx_definitions : Definitions
tx_definitions = load_definitions tx_doc

abbrev pub instance_of : String → ℕ → Bool → String → ℕ → FieldInstance
instance_of name n is_vl type code = record {
  field_name = name;
  info = info n is_vl type;
  header = record { type_code = pos code; field_code = pos n };
  ordinal = pos (code * 65536 + n);
}

abbrev pub type_field : FieldInstance
type_field = instance_of "TransactionType" 2 false "UInt16" 1

abbrev pub sequence_field : FieldInstance
sequence_field = instance_of "Sequence" 4 false "UInt32" 2

abbrev pub data_field : FieldInstance
data_field = instance_of "MemoData" 13 true "Blob" 7

abbrev pub memo_field : FieldInstance
memo_field = instance_of "Memo" 10 false "STObject" 14

abbrev end_field : FieldInstance
end_field = instance_of "ObjectEndMarker" 1 false "STObject" 14

-- The members in the order of a JSON text, which is not that of the ordinals.
abbrev pub memo : Members
memo = member "MemoData" (string (codes "AB")) no_members

abbrev pub payment : Members
payment = member "Memo" (object memo) (
    member "Sequence" (integer uint32 (pos 7))
      (member "TransactionType" (string (codes "Payment")) no_members))

-- Stand-ins for the codecs of amounts and path sets, which no field of the example has.
abbrev pub some_type : SerializedType
some_type = plain_type (hash_from_json 1) (λ opts. hash_to_json 1)

pub tx_ends : HasEndMarker tx_definitions
unfolding load_definitions is_end_marker read_field get_field_name_by_field_header
    get_field_instance_by_field_name
tx_ends = (end_field, refl, λ rest. refl)

payment_known : get_field_instance_by_field_name tx_definitions "Memo" ≡ ok memo_field
unfolding load_definitions get_field_instance_by_field_name
payment_known = refl

no_x_payment : is_valid_x_address hashes (codes "Payment") ≡ done false
unfolding is_valid_x_address decode_x_address base58_check_decode decode_base58 decode_loop
    add_chunk runes b58 count_zeros to_base checksum
no_x_payment = refl

-- The address of the account ID of zeros, with the checksum of the stand-in for SHA-256.
abbrev pub zero_address : Bytes
zero_address = codes "rrrrrrrrrrrrrrrrrrrrrFdP1d"

pub zero_address_id : account_id_of_text hashes zero_address ≡ ok (replicate 20 0)
unfolding account_id_of_text account_id_of_classic decode_classic_address_to_account_id
    base58_check_decode decode_base58 decode_loop add_chunk runes b58 count_zeros to_base checksum
zero_address_id = refl

pub no_x_data : is_valid_x_address hashes (codes "AB") ≡ done false
unfolding is_valid_x_address decode_x_address base58_check_decode decode_base58 decode_loop
    add_chunk runes b58 count_zeros to_base checksum
no_x_data = refl

abbrev pub payment_fields : List Field
payment_fields =
    (memo_field, object memo)
    ∷ (sequence_field, integer uint32 (pos 7))
    ∷ (type_field, string (codes "Payment"))
    ∷ []

pub payment_classic : HasNoXAddress hashes (entries payment)
payment_classic = (tt, (tt, (no_x_payment, tt)))

pub payment_created :
    create_field_instance_map_from_json tx_definitions hashes (entries payment) ≡ ok payment_fields
unfolding create_field_instance_map_from_json field_instances load_definitions
    get_field_instance_by_field_name
payment_created =
    rw (process_x_addresses_classic hashes (entries payment) (entries payment) payment_classic) refl

abbrev pub tx_types : ℕ → Types
tx_types n = get_serialized_type tx_definitions hashes some_type some_type 13 n

abbrev pub types_with : SerializedType → ℕ → ℕ → Types
types_with amount rounds n = get_serialized_type tx_definitions hashes amount some_type rounds n

memo_bytes :
    (amount : SerializedType) (rounds n : ℕ)
    → object_bytes tx_definitions (types_with amount rounds (suc n)) hashes [] (entries memo)
      ≡ ok (0x7D ∷ 1 ∷ 0xAB ∷ [])
unfolding load_definitions get_field_instance_by_field_name field_instances write_fields field_bytes
    get_sorted_keys get_serialized_type blob_from_json decode_string write_field_and_value encode
    get_field_header_by_field_name
memo_bytes amount rounds n =
    object_bytes_classic tx_definitions _ hashes [] (entries memo)
      ((data_field, string (codes "AB")) ∷ []) (no_x_data, tt) refl
    ∙ refl

pub memo_field_bytes :
    (amount : SerializedType) (rounds n : ℕ)
    → field_bytes (types_with amount rounds (suc (suc n))) [] (memo_field, object memo)
      ≡ ok (0x7D ∷ 1 ∷ 0xAB ∷ [])
unfolding field_bytes get_serialized_type object_from_json
memo_field_bytes amount rounds n = memo_bytes amount rounds n

pub payment_bytes :
    object_bytes tx_definitions (tx_types 13) hashes [] (entries payment)
    ≡ ok (0x12 ∷ 0 ∷ 0 ∷ 0x24 ∷ 0 ∷ 0 ∷ 0 ∷ 7 ∷ 0xEA ∷ 0x7D ∷ 1 ∷ 0xAB ∷ 0xE1 ∷ [])
unfolding load_definitions get_field_instance_by_field_name field_instances write_fields
    get_sorted_keys get_serialized_type write_field_and_value encode get_field_header_by_field_name
    uint16_from_json get_transaction_type_code_by_transaction_type_name name_of uint32_from_json
    put_be
payment_bytes =
    object_bytes_classic tx_definitions _ hashes [] (entries payment) payment_fields payment_classic
      refl
    ∙ rw (memo_field_bytes some_type 13 11) refl

pub apart : (a b : String) → string_eq.beq a b ≡ false → a ≢ b
apart a b h e = cc (h, (string_eq.beq_iff a b).1 e)

pub tx_names : HasTypeNames tx_definitions
unfolding load_definitions
tx_names = record {
  differ = ((apart "TrustSet" "Payment" refl, tt), (tt, tt));
  bytes = (omega arith, (omega arith, tt));
}

type_field-IsListed : IsListed tx_definitions type_field
unfolding load_definitions get_field_instance_by_field_name get_field_name_by_field_header
    is_end_marker
type_field-IsListed = record {
  known = record { serializable = omega arith; by_name = refl; by_header = refl };
  no_marker = refl;
}

sequence_field-IsListed : IsListed tx_definitions sequence_field
unfolding load_definitions get_field_instance_by_field_name get_field_name_by_field_header
    is_end_marker
sequence_field-IsListed = record {
  known = record { serializable = omega arith; by_name = refl; by_header = refl };
  no_marker = refl;
}

pub data_field-IsListed : IsListed tx_definitions data_field
unfolding load_definitions get_field_instance_by_field_name get_field_name_by_field_header
    is_end_marker
data_field-IsListed = record {
  known = record { serializable = omega arith; by_name = refl; by_header = refl };
  no_marker = refl;
}

pub memo_field-IsListed : IsListed tx_definitions memo_field
unfolding load_definitions get_field_instance_by_field_name get_field_name_by_field_header
    is_end_marker
memo_field-IsListed = record {
  known = record { serializable = omega arith; by_name = refl; by_header = refl };
  no_marker = refl;
}

pub memo_created :
    create_field_instance_map_from_json tx_definitions hashes (entries memo)
    ≡ ok ((data_field, string (codes "AB")) ∷ [])
unfolding create_field_instance_map_from_json field_instances load_definitions
    get_field_instance_by_field_name
memo_created =
    rw (process_x_addresses_classic hashes (entries memo) (entries memo) (no_x_data, tt)) refl

memo_field-IsPlain : IsPlain tx_definitions memo_field
unfolding enum_to_str
memo_field-IsPlain v = refl

sequence_field-IsPlain : IsPlain tx_definitions sequence_field
unfolding enum_to_str
sequence_field-IsPlain v = refl

pub data_field-IsPlain : IsPlain tx_definitions data_field
unfolding enum_to_str
data_field-IsPlain v = refl

payment_type : IsTypeField tx_definitions (type_field, string (codes "Payment"))
unfolding load_definitions lookup name_of
payment_type = record {
  named = refl;
  typed = refl;
  fixed = refl;
  name = codes "Payment";
  is_text = plain_text;
  code = pos 0;
  found = refl;
}

-- A stand-in for the codec of issued amounts.
abbrev pub some_tokens : TokenCodec
some_tokens = record {
  serialize_issued_currency_amount = λ value currency issuer. ok [];
  deserialize_token = λ token. ok (string token);
}

pub payment_decodable :
    AllDecodable tx_definitions hashes some_tokens some_type 30 30 payment_fields
payment_decodable = (
  λ s. (
    memo_field-IsListed,
    inr (
      memo_field-IsPlain,
      inl (
        memo,
        (data_field, string (codes "AB")) ∷ [],
        refl,
        refl,
        memo_created,
        (tt, tt),
        (λ t. (data_field-IsListed, inl (inl (blob, data_field-IsPlain))), tt),
      ),
    ),
  ),
  (
    λ s. (sequence_field-IsListed, inl (inl (uint32_type, sequence_field-IsPlain))),
    (λ s. (type_field-IsListed, inl (inr (inl payment_type))), tt),
  ),
)

pub payment_names : NamesDiffer payment_fields
payment_names = (
  (apart "Memo" "Sequence" refl, (apart "Memo" "TransactionType" refl, tt)),
  ((apart "Sequence" "TransactionType" refl, tt), (tt, tt)),
)
