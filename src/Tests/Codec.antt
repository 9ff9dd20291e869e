-- ===== src/Tests/Codec.antt =====
-- Tests and examples of the theorems on binary-codec/codec.go.
use xrpl_go.Base.{[], ◌≡◌, ◌∙◌, refl, ap, ◌++◌, List, Bytes, codes, replicate, false, none, arith}
use xrpl_go.Base.Assoc.{string_eq, lookup, insert}
use xrpl_go.Base.Results.{ok}
use xrpl_go.Hexutil.{encode_to_upper_hex}
use xrpl_go.Definitions.{load_definitions}
use xrpl_go.Types.Value.{string, object, entries, members}
use xrpl_go.Types.StObject.{Entry, get_sorted_keys, create_field_instance_map_from_json}
use xrpl_go.Types.StObject.ReadBack
use xrpl_go.Types.Hash.{account_id_of_text}
use xrpl_go.Types.Issue.{encode_to_string}
use xrpl_go.Types.Decodable.{Agrees}
use xrpl_go.Codec.{
  known_fields, transaction_raw_field_value_overrides, normalized, encode_bytes, encode, decode,
}
use xrpl_go.Codec.Payloads.{
  is_signing, signing_fields_only, encode_with_prefix, encode_with_suffix, encode_for_signing,
  tx_sig_prefix, tx_multi_sig_prefix,
}
use xrpl_go.Codec.Signing.{single, by_signing, SignedFor-unique}
use xrpl_go.Codec.Signers.{encode_for_signing-insert, encode_for_multisigning_signer}
use xrpl_go.Number.Text.{decimal}
use xrpl_go.Codec.LedgerData.{ledger_bytes, decode_ledger_data, decode_ledger_data-ledger_bytes}
use xrpl_go.Codec.RoundTrip.{decode_transaction-encode}
use xrpl_go.Tests.Address.{hashes, replicate-IsByte}
use xrpl_go.Types.Amount.{amount_type}
use xrpl_go.Tests.Transfer.{
  transfer, transfer_fields, transfer_text, transfer_plain, transfer_known, transfer_created,
  transfer_names, transfer_decodable, transfer_encoded,
}
use xrpl_go.Tests.Payment.{
  some_tokens, tx_definitions, some_type, payment, payment_bytes, tx_ends, tx_names, zero_address,
  zero_address_id,
}

abbrev payment_text : Bytes
payment_text = codes "1200002400000007EA7D01ABE1"

payment_known : known_fields tx_definitions (entries payment) ≡ entries payment
unfolding known_fields load_definitions lookup
payment_known = refl

payment_plain :
    transaction_raw_field_value_overrides (known_fields tx_definitions (entries payment)) ≡ ok none
unfolding transaction_raw_field_value_overrides known_fields load_definitions lookup
payment_plain = refl

payment_encoded :
    encode tx_definitions hashes some_type some_type 13 (entries payment) ≡ ok payment_text
unfolding encode encode_bytes known_fields transaction_raw_field_value_overrides normalized
    load_definitions lookup encode_to_upper_hex
payment_encoded = rw payment_bytes refl

decode_transaction-encode_example :
    (es : List Entry) × ReadBack.Members
      (Agrees tx_definitions hashes some_tokens some_type 30 30)
      (get_sorted_keys transfer_fields)
      es
    × (decode tx_definitions hashes (amount_type some_tokens) some_type 30 transfer_text
        ≡ ok (object (members es)))
decode_transaction-encode_example =
    decode_transaction-encode tx_definitions hashes some_tokens some_type 30 (entries transfer)
      transfer_fields transfer_text tx_ends tx_names transfer_plain
      (ap (create_field_instance_map_from_json tx_definitions hashes) transfer_known
        ∙ transfer_created)
      transfer_names transfer_decodable transfer_encoded (omega arith)

payment_signed :
    encode_for_signing tx_definitions hashes some_type some_type 13 (entries payment)
    ≡ ok (tx_sig_prefix ++ payment_text)
unfolding encode_for_signing encode_with_prefix signing_fields_only load_definitions lookup
payment_signed = rw payment_encoded refl

SignedFor-unique_example : single ≡ single
SignedFor-unique_example =
    SignedFor-unique tx_definitions hashes some_type some_type 13 single single
      (tx_sig_prefix ++ payment_text) (by_signing (entries payment) payment_signed)
      (by_signing (entries payment) payment_signed)

encode_for_signing-insert_example :
    (encode_with_prefix tx_definitions hashes some_type some_type 13
        (insert "TxnSignature" (string (codes "AB")) (entries payment))
        tx_sig_prefix
      ≡ encode_with_prefix tx_definitions hashes some_type some_type 13
          (entries payment)
          tx_sig_prefix)
    × (encode_with_suffix tx_definitions hashes some_type some_type 13
          (insert "TxnSignature" (string (codes "AB")) (entries payment))
          zero_address
          tx_sig_prefix
        ≡ encode_with_suffix tx_definitions hashes some_type some_type 13
            (entries payment)
            zero_address
            tx_sig_prefix)
encode_for_signing-insert_example =
    encode_for_signing-insert tx_definitions hashes some_type some_type 13 (entries payment)
      "TxnSignature" (string (codes "AB")) zero_address tx_sig_prefix not_signed
  where
    not_signed : is_signing (lookup "TxnSignature" tx_definitions.fields) ≡ false
    not_signed = unfold load_definitions lookup in refl

payment_multisigned :
    encode_with_suffix tx_definitions hashes some_type some_type 13
      (entries payment)
      zero_address
      tx_multi_sig_prefix
    ≡ ok (tx_multi_sig_prefix ++ (payment_text ++ replicate 40 b'0'))
unfolding encode_with_suffix signing_fields_only load_definitions lookup encode_to_string
payment_multisigned = rw zero_address_id (rw payment_encoded refl)

encode_for_multisigning_signer_example :
    account_id_of_text hashes zero_address ≡ account_id_of_text hashes zero_address
encode_for_multisigning_signer_example =
    encode_for_multisigning_signer tx_definitions hashes some_type some_type 13 (entries payment)
      zero_address zero_address tx_multi_sig_prefix
      (tx_multi_sig_prefix ++ (payment_text ++ replicate 40 b'0')) payment_multisigned
      payment_multisigned

decode_ledger_data-ledger_bytes_example :
    decode_ledger_data (
      encode_to_upper_hex (
        ledger_bytes 7 100000000000
          (replicate 32 1)
          (replicate 32 2)
          (replicate 32 3)
          10
          20
          30
          0
          []))
    ≡ ok (record {
      ledger_index = 7;
      total_coins = decimal 100000000000;
      parent_hash = encode_to_upper_hex (replicate 32 1);
      transaction_hash = encode_to_upper_hex (replicate 32 2);
      account_hash = encode_to_upper_hex (replicate 32 3);
      parent_close_time = 10;
      close_time = 20;
      close_time_resolution = 30;
      close_flags = 0;
    })
decode_ledger_data-ledger_bytes_example =
    decode_ledger_data-ledger_bytes 7 100000000000 (replicate 32 1) (replicate 32 2)
      (replicate 32 3) 10 20 30 0 [] (omega arith) (omega arith)
      (refl, replicate-IsByte 32 1 (omega arith)) (refl, replicate-IsByte 32 2 (omega arith))
      (refl, replicate-IsByte 32 3 (omega arith)) (omega arith) (omega arith) (omega arith)
      (omega arith) tt
