-- ===== src/Tests/Address.antt =====
-- Tests and examples of the theorems on address-codec, with hash functions that only look at the
-- length of their input.
use Prim.Native.Nat.{min}
use xrpl_go.Base.{
  ℕ, zero, suc, ◌≡◌, ◌≢◌, ◌<◌, ◌↔◌, refl, inl, inr, true, false, [], ◌∷◌, ◌++◌, map, Bytes, IsByte,
  All, length, length-replicate, replicate, take, codes, arith, ◌%◌,
}
use xrpl_go.Base.Digits.{to_base, of_base, leading_zeros}
use xrpl_go.Address.Alphabet.{alphabet_char, alphabet_idx0, b58}
use xrpl_go.Address.Utf8.{runes}
use xrpl_go.Address.Base58.{
  append_leading_zeros, encode_loop, append_digits, decoded, panics, out_of_fuel, encode_base58,
  decode_base58, count_zeros,
}
use xrpl_go.Address.Base58.Encode.{encode_base58_lem}
use xrpl_go.Address.Base58.Decode.{IsBase58, decode_base58_lem}
use xrpl_go.Address.Base58.RoundTrip.{decode_base58-encode_base58, encode_base58-decode_base58}
use xrpl_go.Address.Base58.Total.{
  BeyondTable, here, decode_base58-ne-out_of_fuel, decode_base58_panics,
}
use xrpl_go.Address.Hash.{Hashes}
use xrpl_go.Address.Errors.{done, failed, invalid_tag, b58_prefix_mismatch}
use xrpl_go.Address.Check.{checksum, base58_check_decode}
use xrpl_go.Address.Check.RoundTrip.{base58_check_decode_lem, base58_check_decode_iff}
use xrpl_go.Address.Codec.{
  ed25519, encode_account_id_to_classic_address, decode_classic_address_to_account_id,
  is_valid_classic_address, encode_seed, decode_seed, encode_account_public_key,
  encode_node_public_key, decode_account_public_key, decode_node_public_key,
}
use xrpl_go.Address.Codec.RoundTrip.{
  decode_classic_address-encode_account_id, decode_seed-encode_seed,
  decode_public_key-encode_public_key,
}
use xrpl_go.Address.XAddress.{encode_x_address, decode_x_address, decode_address}
use xrpl_go.Address.XAddress.RoundTrip.{
  decode_x_address-encode_x_address, encode_x_address_hidden_tag, decode_address_forms,
}

-- The digest repeats the length of the input.
pub replicate-IsByte : (n b : ℕ) → b < 256 → All IsByte (replicate n b)
replicate-IsByte zero b h = tt
replicate-IsByte (suc n) b h = (h, replicate-IsByte n b h)

abbrev pub hashes : Hashes
hashes = record {
  sha256 = λ b. replicate 32 (length b % 256);
  sha256_ripemd160 = λ b. replicate 20 (length b % 256);
  length-sha256 = λ b. length-replicate 32 (length b % 256);
  sha256-IsByte = λ b. replicate-IsByte 32 (length b % 256) (omega arith);
  length-sha256_ripemd160 = λ b. length-replicate 20 (length b % 256);
  sha256_ripemd160-IsByte = λ b. replicate-IsByte 20 (length b % 256) (omega arith);
}

-- The Base58 text of a short byte string.
short_text : encode_base58 (0 ∷ 1 ∷ 2 ∷ []) ≡ codes "rnT"
unfolding encode_base58 append_leading_zeros encode_loop of_base append_digits alphabet_char
short_text = refl

abbrev short : Bytes
short = codes "rnT"

short-IsBase58 : All IsBase58 short
unfolding b58
short-IsBase58 = omega arith

encode_base58_lem_example :
    encode_base58 (0 ∷ 1 ∷ 2 ∷ [])
    ≡ replicate (leading_zeros (0 ∷ 1 ∷ 2 ∷ [])) alphabet_idx0
      ++ map alphabet_char (to_base 58 (of_base 256 (0 ∷ 1 ∷ 2 ∷ [])))
encode_base58_lem_example = encode_base58_lem (0 ∷ 1 ∷ 2 ∷ [])

decode_base58_lem_example :
    decode_base58 short
    ≡ decoded (replicate (count_zeros short) 0 ++ to_base 256 (of_base 58 (map b58 short)))
decode_base58_lem_example = decode_base58_lem short short-IsBase58

decode_base58-encode_base58_example :
    decode_base58 (encode_base58 (0 ∷ 1 ∷ 2 ∷ [])) ≡ decoded (0 ∷ 1 ∷ 2 ∷ [])
decode_base58-encode_base58_example = decode_base58-encode_base58 (0 ∷ 1 ∷ 2 ∷ []) (omega arith)

encode_base58-decode_base58_example :
    (b : Bytes) × (decode_base58 short ≡ decoded b) × (encode_base58 b ≡ short)
encode_base58-decode_base58_example = encode_base58-decode_base58 short short-IsBase58

decode_base58-ne-out_of_fuel_example : decode_base58 short ≢ out_of_fuel
decode_base58-ne-out_of_fuel_example = decode_base58-ne-out_of_fuel short

-- The three bytes of the character U+4E2D.
abbrev beyond : Bytes
beyond = 0xE4 ∷ 0xB8 ∷ 0xAD ∷ []

beyond_table : BeyondTable (runes (take (min (length beyond) 10) beyond))
unfolding runes
beyond_table = here 0x4E2D [] (omega arith)

decode_base58_panics_example : decode_base58 beyond ≡ panics
decode_base58_panics_example = decode_base58_panics 0xE4 (0xB8 ∷ 0xAD ∷ []) beyond_table

-- Account IDs, seeds and keys of the right sizes.
abbrev id : Bytes
id = replicate 20 7

id_bytes : All IsByte id
id_bytes = replicate-IsByte 20 7 (omega arith)

base58_check_decode_lem_example :
    base58_check_decode hashes (encode_base58 (id ++ checksum hashes id)) ≡ done id
base58_check_decode_lem_example = base58_check_decode_lem hashes id id_bytes cc

base58_check_decode_iff_example :
    (base58_check_decode hashes short ≡ done id)
    ↔ ((id ≢ []) × (short ≡ encode_base58 (id ++ checksum hashes id)))
base58_check_decode_iff_example = base58_check_decode_iff hashes short id short-IsBase58 id_bytes

decode_classic_address-encode_account_id_example :
    (s : Bytes) × (encode_account_id_to_classic_address hashes id ≡ done s)
    × (decode_classic_address_to_account_id hashes s ≡ done (0 ∷ [], id))
    × (is_valid_classic_address hashes s ≡ done true)
decode_classic_address-encode_account_id_example =
    decode_classic_address-encode_account_id hashes id refl id_bytes

decode_seed-encode_seed_example :
    (s : Bytes) × (encode_seed hashes (replicate 16 9) ed25519 ≡ done s)
    × (decode_seed hashes s ≡ done (replicate 16 9, ed25519))
decode_seed-encode_seed_example =
    decode_seed-encode_seed hashes (replicate 16 9) ed25519 refl
      (replicate-IsByte 16 9 (omega arith)) (λ e. cc e)

abbrev public_key : Bytes
public_key = replicate 33 2

decode_public_key-encode_public_key_example :
    (account node : Bytes) × (encode_account_public_key hashes public_key ≡ done account)
    × (encode_node_public_key hashes public_key ≡ done node)
    × (decode_account_public_key hashes account ≡ done public_key)
    × (decode_node_public_key hashes node ≡ done public_key)
    × (decode_account_public_key hashes node ≡ failed b58_prefix_mismatch)
    × (decode_node_public_key hashes account ≡ failed b58_prefix_mismatch)
decode_public_key-encode_public_key_example =
    decode_public_key-encode_public_key hashes public_key refl (replicate-IsByte 33 2 (omega arith))

decode_x_address-encode_x_address_example :
    (s : Bytes) × (encode_x_address hashes id 4294967295 true false ≡ done s)
    × (decode_x_address hashes s
        ≡ done (record { account_id = id; tag = 4294967295; has_tag = true; testnet = false }))
decode_x_address-encode_x_address_example =
    decode_x_address-encode_x_address hashes id 4294967295 true false refl id_bytes (omega arith)
      (inl refl)

encode_x_address_hidden_tag_example :
    (s : Bytes) × (encode_x_address hashes id 12 false true ≡ done s)
    × (decode_x_address hashes s ≡ failed invalid_tag)
encode_x_address_hidden_tag_example =
    encode_x_address_hidden_tag hashes id 12 true refl id_bytes (omega arith) (omega arith)

decode_address_forms_example :
    (classic x : Bytes) × (encode_account_id_to_classic_address hashes id ≡ done classic)
    × (encode_x_address hashes id 0 false true ≡ done x)
    × (decode_address hashes classic
        ≡ done (record { account_id = id; classic = classic; has_tag = false; testnet = false }))
    × (decode_address hashes x
        ≡ done (record { account_id = id; classic = classic; has_tag = false; testnet = true }))
decode_address_forms_example =
    decode_address_forms hashes id 0 false true refl id_bytes (omega arith) (inr refl)
