-- ===== src/Address/Codec.antt =====
-- address-codec/codec.go: classic addresses, seeds and public keys.
use xrpl_go.Base.{
  ℕ, ◌+◌, ◌-◌, List, [], ◌∷◌, ◌++◌, Bytes, Bool, true, false, not, ◌&&◌, ◌||◌, ltb, leb, ◌==◌,
  length, take, drop, get_or, beq_bytes, if◌then◌else◌,
}
use xrpl_go.Base.Results.{Result, ok, err}
use xrpl_go.Hexutil.{decode_string}
use xrpl_go.Address.Hash.{Hashes}
use xrpl_go.Address.Errors.{
  AddressError, invalid_classic_address, invalid_seed, invalid_seed_prefix, invalid_seed_length,
  invalid_account_id, b58_prefix_mismatch, unknown_encoding_type, encode_length, of_hex, Outcome,
  done, failed, panicked, stuck, ◌>>=◌, ◌>>◌, check, instead,
}
use xrpl_go.Address.Check.{base58_check_encode, base58_check_decode}
pub mod RoundTrip

abbrev pub account_address_length : ℕ
account_address_length = 20

abbrev pub account_public_key_length : ℕ
account_public_key_length = 33

abbrev pub family_seed_length : ℕ
family_seed_length = 16

abbrev pub node_public_key_length : ℕ
node_public_key_length = 33

abbrev pub account_address_prefix : ℕ
account_address_prefix = 0x00

abbrev pub account_public_key_prefix : ℕ
account_public_key_prefix = 0x23

abbrev pub node_public_key_prefix : ℕ
node_public_key_prefix = 0x1C

-- The algorithms of pkg/crypto with their `FamilySeedPrefix`; `other` is an implementation of the
-- interface that is neither.
pub data Algorithm : Type 0 where
  ed25519 secp256k1 other : Algorithm

abbrev pub ed25519_prefix : Bytes
ed25519_prefix = 0x01 ∷ 0xE1 ∷ 0x4B ∷ []

abbrev pub secp256k1_prefix : Bytes
secp256k1_prefix = 0x21 ∷ []

-- `hasPrefixConstantTime`
unfoldable pub has_prefix : Bytes → Bytes → Bool
has_prefix b type_prefix =
    leb (length type_prefix) (length b) && beq_bytes (take (length type_prefix) b) type_prefix

module _ (hashes : Hashes) where
  -- `Encode`
  unfoldable pub encode : Bytes → Bytes → ℕ → Outcome Bytes
  encode b type_prefix expected_length = do
    check (length b == expected_length) (encode_length expected_length (length b))
    done (base58_check_encode hashes b type_prefix)

  -- `Decode`
  unfoldable pub decode : Bytes → Bytes → Outcome Bytes
  decode b58string type_prefix = do
    result ← base58_check_decode hashes b58string
    check
        (not (
          ltb (length result) (length type_prefix)
          || not (beq_bytes (take (length type_prefix) result) type_prefix)))
        b58_prefix_mismatch
    done (drop (length type_prefix) result)

  -- `DecodeClassicAddressToAccountID`: the prefix and the account ID.
  unfoldable pub decode_classic_address_to_account_id : Bytes → Outcome (Bytes × Bytes)
  decode_classic_address_to_account_id c_address = do
    decoded ← instead invalid_classic_address (base58_check_decode hashes c_address)
    check (length decoded == 21) invalid_classic_address
    check (get_or decoded 0 0 == account_address_prefix) invalid_classic_address
    done (take 1 decoded, take 20 (drop 1 decoded))

  -- `IsValidClassicAddress`
  unfoldable pub is_valid_classic_address : Bytes → Outcome Bool
  is_valid_classic_address c_address = elim (decode_classic_address_to_account_id c_address) [
    | done r ↦ done true
    | failed e ↦ done false
    | panicked ↦ panicked
    | stuck ↦ stuck
  ]

  -- `EncodeClassicAddressFromPublicKeyHex`
  unfoldable pub encode_classic_address_from_public_key_hex : Bytes → Outcome Bytes
  encode_classic_address_from_public_key_hex pubkeyhex = elim (decode_string pubkeyhex) [
    | err e ↦ failed (of_hex e)
    | ok pubkey ↦ (do
      check (length pubkey == account_public_key_length)
          (encode_length account_public_key_length (length pubkey))
      address ←
          encode (hashes.sha256_ripemd160 pubkey) (account_address_prefix ∷ [])
            account_address_length
      valid ← is_valid_classic_address address
      check valid invalid_classic_address
      done address)
  ]

  -- `EncodeAccountIDToClassicAddress`
  unfoldable pub encode_account_id_to_classic_address : Bytes → Outcome Bytes
  encode_account_id_to_classic_address account_id = do
    check (length account_id == account_address_length) invalid_account_id
    done (base58_check_encode hashes account_id (account_address_prefix ∷ []))

  -- `EncodeSeed`
  unfoldable pub encode_seed : Bytes → Algorithm → Outcome Bytes
  encode_seed entropy encoding_type = do
    check (length entropy == family_seed_length) (encode_length family_seed_length (length entropy))
    elim encoding_type [
      | ed25519 ↦ encode entropy ed25519_prefix family_seed_length
      | secp256k1 ↦ encode entropy secp256k1_prefix family_seed_length
      | other ↦ failed unknown_encoding_type
    ]

  -- What `DecodeSeed` does where the prefix fits.
  unfoldable pub seed_behind : Bytes → Bytes → Algorithm → Outcome (Bytes × Algorithm)
  seed_behind decoded type_prefix algorithm = do
    check (length decoded == length type_prefix + family_seed_length) invalid_seed_length
    done (drop (length type_prefix) decoded, algorithm)

  -- `DecodeSeed`
  unfoldable pub decode_seed : Bytes → Outcome (Bytes × Algorithm)
  decode_seed seed = do
    decoded ← instead invalid_seed (base58_check_decode hashes seed)
    if has_prefix decoded ed25519_prefix
        then seed_behind decoded ed25519_prefix ed25519
        else if has_prefix decoded secp256k1_prefix
        then seed_behind decoded secp256k1_prefix secp256k1
        else failed invalid_seed_prefix

  -- `EncodeNodePublicKey`
  unfoldable pub encode_node_public_key : Bytes → Outcome Bytes
  encode_node_public_key b = do
    check (length b == node_public_key_length) (encode_length node_public_key_length (length b))
    done (base58_check_encode hashes b (node_public_key_prefix ∷ []))

  -- `DecodeNodePublicKey`
  unfoldable pub decode_node_public_key : Bytes → Outcome Bytes
  decode_node_public_key key = decode key (node_public_key_prefix ∷ [])

  -- `EncodeAccountPublicKey`
  unfoldable pub encode_account_public_key : Bytes → Outcome Bytes
  encode_account_public_key b = do
    check (length b == account_public_key_length)
        (encode_length account_public_key_length (length b))
    done (base58_check_encode hashes b (account_public_key_prefix ∷ []))

  -- `DecodeAccountPublicKey`
  unfoldable pub decode_account_public_key : Bytes → Outcome Bytes
  decode_account_public_key key = decode key (account_public_key_prefix ∷ [])
