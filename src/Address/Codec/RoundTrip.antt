-- ===== src/Address/Codec/RoundTrip.antt =====
-- Classic addresses, seeds and public keys, encoded and decoded.
use xrpl_go.Base.{
  ℕ, ◌<◌, ◌≡◌, ◌≢◌, refl, [], ◌∷◌, ◌++◌, Bytes, IsByte, All, All-append, length, take_all,
  beq_bytes_refl, arith, true,
}
use xrpl_go.Address.Hash.{Hashes}
use xrpl_go.Address.Errors.{b58_prefix_mismatch, done, failed}
use xrpl_go.Address.Check.{base58_check_encode, base58_check_decode}
use xrpl_go.Address.Check.RoundTrip.{base58_check_decode_lem}
use xrpl_go.Address.Codec.{
  Algorithm, ed25519, secp256k1, other, ed25519_prefix, secp256k1_prefix, has_prefix, encode,
  decode, decode_classic_address_to_account_id, encode_account_id_to_classic_address,
  is_valid_classic_address, encode_seed, decode_seed, seed_behind, encode_node_public_key,
  decode_node_public_key, encode_account_public_key, decode_account_public_key,
  node_public_key_prefix, account_public_key_prefix,
}

module _ (hashes : Hashes) where
  -- Bytes behind a prefix are read back from their text.
  check_decode-encode :
      (b type_prefix : Bytes)
      → All IsByte type_prefix
      → All IsByte b
      → type_prefix ≢ []
      → base58_check_decode hashes (base58_check_encode hashes b type_prefix)
        ≡ done (type_prefix ++ b)
  unfolding base58_check_encode
  check_decode-encode b type_prefix hp hb ne =
      base58_check_decode_lem hashes (type_prefix ++ b) (All-append IsByte type_prefix b hp hb)
        (nonempty type_prefix ne)
    where
      nonempty : (xs : Bytes) → xs ≢ [] → xs ++ b ≢ []
      nonempty [] n e = n refl
      nonempty (x ∷ xs) n e = cc

  pub encode_account_id_text :
      (id : Bytes)
      → length id ≡ 20
      → encode_account_id_to_classic_address hashes id
        ≡ done (base58_check_encode hashes id (0 ∷ []))
  unfolding encode_account_id_to_classic_address
  encode_account_id_text id size = rw size

  -- The account ID of 20 bytes comes back from its classic address, with the prefix 0.
  pub decode_classic_address-encode_account_id :
      (id : Bytes)
      → length id ≡ 20
      → All IsByte id
      → (s : Bytes) × (encode_account_id_to_classic_address hashes id ≡ done s)
        × (decode_classic_address_to_account_id hashes s ≡ done (0 ∷ [], id))
        × (is_valid_classic_address hashes s ≡ done true)
  decode_classic_address-encode_account_id id size h =
      let s = base58_check_encode hashes id (0 ∷ []) in
      let back = check_decode-encode id (0 ∷ []) (omega arith) h (cc) in
      let decodes : decode_classic_address_to_account_id hashes s ≡ done (0 ∷ [], id) =
        unfold decode_classic_address_to_account_id in rw (back, size, take_all id 20 size) in
      (
        s,
        encode_account_id_text id size,
        decodes,
        unfold is_valid_classic_address in rw (decodes, is_valid_classic_address),
      )

  -- The entropy of 16 bytes and the algorithm come back from the text of a seed.
  pub decode_seed-encode_seed :
      (entropy : Bytes) (algorithm : Algorithm)
      → length entropy ≡ 16
      → All IsByte entropy
      → algorithm ≢ other
      → (s : Bytes) × (encode_seed hashes entropy algorithm ≡ done s)
        × (decode_seed hashes s ≡ done (entropy, algorithm))
  unfolding encode_seed decode_seed encode has_prefix seed_behind
  decode_seed-encode_seed entropy ed25519 size h known = (
    base58_check_encode hashes entropy ed25519_prefix,
    rw size,
    rw (check_decode-encode entropy ed25519_prefix (omega arith) h (cc)) (ground (arith, size)),
  )
  decode_seed-encode_seed entropy secp256k1 size h known = (
    base58_check_encode hashes entropy secp256k1_prefix,
    rw size,
    rw (check_decode-encode entropy secp256k1_prefix (omega arith) h (cc)) (ground (arith, size)),
  )
  decode_seed-encode_seed entropy other size h known = absurd (known refl)

  prefixed_lem :
      (b : Bytes) (p : ℕ)
      → p < 256
      → All IsByte b
      → decode hashes (base58_check_encode hashes b (p ∷ [])) (p ∷ []) ≡ done b
  unfolding decode
  prefixed_lem b p hp h =
      rw (check_decode-encode b (p ∷ []) (hp, tt) h (cc)) (ground (arith, beq_bytes_refl (p ∷ [])))

  -- A public key of 33 bytes comes back from its text, as an account key and as a node key, and
  -- neither decoder takes the text of the other kind.
  pub decode_public_key-encode_public_key :
      (key : Bytes)
      → length key ≡ 33
      → All IsByte key
      → (account node : Bytes) × (encode_account_public_key hashes key ≡ done account)
        × (encode_node_public_key hashes key ≡ done node)
        × (decode_account_public_key hashes account ≡ done key)
        × (decode_node_public_key hashes node ≡ done key)
        × (decode_account_public_key hashes node ≡ failed b58_prefix_mismatch)
        × (decode_node_public_key hashes account ≡ failed b58_prefix_mismatch)
  decode_public_key-encode_public_key key size h =
      let account = base58_check_encode hashes key (account_public_key_prefix ∷ []) in
      let node = base58_check_encode hashes key (node_public_key_prefix ∷ []) in
      let from_account =
        check_decode-encode key (account_public_key_prefix ∷ []) (omega arith) h (cc) in
      let from_node = check_decode-encode key (node_public_key_prefix ∷ []) (omega arith) h (cc) in
      (
        account,
        node,
        unfold encode_account_public_key in rw size,
        unfold encode_node_public_key in rw size,
        unfold decode_account_public_key in
            prefixed_lem key account_public_key_prefix (omega arith) h,
        unfold decode_node_public_key in prefixed_lem key node_public_key_prefix (omega arith) h,
        unfold decode_account_public_key decode in rw from_node (ground arith),
        unfold decode_node_public_key decode in rw from_account (ground arith),
      )
