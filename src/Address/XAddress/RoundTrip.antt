-- ===== src/Address/XAddress/RoundTrip.antt =====
-- EncodeXAddress against DecodeXAddress, and DecodeAddress on both forms of an address.
use xrpl_go.Base.{
  ℕ, ◌^◌, ◌<◌, ◌≡◌, ◌≢◌, ◌⊎◌, inl, inr, refl, sym, ap, ◌∙◌, [], ◌∷◌, ◌++◌, Bytes, IsByte, All,
  length, take, drop, Bool, true, false, if◌then◌else◌, arith, ◌==◌,
}
use xrpl_go.Address.Hash.{Hashes}
use xrpl_go.Address.Errors.{
  invalid_classic_address, invalid_x_address, invalid_tag, Outcome, done, failed, ◌>>=◌, ◌>>◌,
  check,
}
use xrpl_go.Address.Base58.{encode_base58}
use xrpl_go.Address.Check.{checksum, base58_check_encode, base58_check_decode}
use xrpl_go.Address.Check.RoundTrip.{base58_check_decode_lem}
use xrpl_go.Address.Codec.{
  account_address_prefix, decode_classic_address_to_account_id,
  encode_account_id_to_classic_address,
}
use xrpl_go.Address.Codec.RoundTrip.{
  decode_classic_address-encode_account_id, encode_account_id_text,
}
use xrpl_go.Address.XAddress.{
  DecodedAddress, decode_address, decode_as_x_address, XAddress, tag_bytes, x_address_bytes,
  decode_tag, network_of, encode_x_address, decode_x_address,
}
use xrpl_go.Address.XAddress.Payload.{
  payload, payload-IsByte, length-payload, decode_tag_tagged, decode_tag_zero, decode_tag_hidden,
  take-append_at,
}

-- What `DecodeXAddress` makes of bytes whose checksum is right.
module _ (hashes : Hashes) where
  read_payload : Bytes → Outcome XAddress
  read_payload bytes = do
    check (length bytes == 31) invalid_x_address
    testnet ← network_of bytes
    (tag, has_tag) ← decode_tag bytes
    done (record {
      account_id = take 20 (drop 2 bytes);
      tag = tag;
      has_tag = has_tag;
      testnet = testnet;
    })

  decode_x_address_checked :
      (bytes : Bytes)
      → All IsByte bytes
      → length bytes ≡ 31
      → decode_x_address hashes (encode_base58 (bytes ++ checksum hashes bytes))
        ≡ read_payload bytes
  unfolding decode_x_address read_payload
  decode_x_address_checked bytes h size =
      rw (base58_check_decode_lem hashes bytes h (λ e. absurd (omega (arith, size, ap length e))))

abbrev HasNetwork : ℕ → ℕ → Bool → Type 0
HasNetwork p0 p1 testnet = network_of (p0 ∷ p1 ∷ []) ≡ done testnet

module _ (hashes : Hashes) (p0 p1 flag tag : ℕ) (id : Bytes) (testnet : Bool) where
  read_payload_lem :
      length id ≡ 20
      → HasNetwork p0 p1 testnet
      → read_payload hashes (payload p0 p1 id flag tag) ≡ (
          decode_tag (payload p0 p1 id flag tag) >>= λ r.
          done (record { account_id = id; tag = r.0; has_tag = r.1; testnet = testnet }))
  unfolding read_payload network_of
  read_payload_lem size net =
      rw (
        length-payload p0 p1 flag tag id size,
        net,
        take-append_at id (flag ∷ tag_bytes tag) 20 size,
      )

abbrev prefix_first : Bool → ℕ
prefix_first testnet = if testnet then 0x04 else 0x05

abbrev prefix_second : Bool → ℕ
prefix_second testnet = if testnet then 0x93 else 0x44

abbrev flag_of : Bool → ℕ
flag_of tag_flag = if tag_flag then 1 else 0

-- The payload for a network and a flag.
abbrev made : Bytes → ℕ → Bool → Bool → Bytes
made id tag tag_flag testnet =
    payload (prefix_first testnet) (prefix_second testnet) id (flag_of tag_flag) tag

x_address_bytes-made :
    (id : Bytes) (tag : ℕ) (tag_flag testnet : Bool)
    → x_address_bytes id tag tag_flag testnet ≡ made id tag tag_flag testnet
unfolding x_address_bytes
x_address_bytes-made id tag tag_flag true = refl
x_address_bytes-made id tag tag_flag false = refl

made-network : (testnet : Bool) → HasNetwork (prefix_first testnet) (prefix_second testnet) testnet
unfolding network_of
made-network true = refl
made-network false = refl

made-IsByte :
    (id : Bytes) (tag : ℕ) (tag_flag testnet : Bool)
    → All IsByte id
    → All IsByte (made id tag tag_flag testnet)
made-IsByte id tag tag_flag testnet h =
    payload-IsByte (prefix_first testnet) (prefix_second testnet) (flag_of tag_flag) tag id
      (ground arith) (ground arith) (ground arith) h

module _ (hashes : Hashes) (id : Bytes) (tag : ℕ) (size : length id ≡ 20) (h : All IsByte id) where
  -- The text of an X-address.
  abbrev x_text : Bool → Bool → Bytes
  x_text tag_flag testnet =
      let bytes = made id tag tag_flag testnet in encode_base58 (bytes ++ checksum hashes bytes)

  encode-x_text :
      (tag_flag testnet : Bool)
      → encode_x_address hashes id tag tag_flag testnet ≡ done (x_text tag_flag testnet)
  unfolding encode_x_address
  encode-x_text tag_flag testnet = rw (size, x_address_bytes-made id tag tag_flag testnet)

  size_31 : (tag_flag testnet : Bool) → length (made id tag tag_flag testnet) ≡ 31
  size_31 tag_flag testnet =
      length-payload (prefix_first testnet) (prefix_second testnet) (flag_of tag_flag) tag id size

  check_decode-x_text :
      (tag_flag testnet : Bool)
      → base58_check_decode hashes (x_text tag_flag testnet) ≡ done (made id tag tag_flag testnet)
  check_decode-x_text tag_flag testnet =
      base58_check_decode_lem hashes _ (made-IsByte id tag tag_flag testnet h) (cc)

  -- What comes back from the text of an X-address turns on its tag bytes only.
  decode-x_text :
      (tag_flag testnet : Bool)
      → decode_x_address hashes (x_text tag_flag testnet) ≡ (
          decode_tag (made id tag tag_flag testnet) >>= λ r.
          done (record { account_id = id; tag = r.0; has_tag = r.1; testnet = testnet }))
  decode-x_text tag_flag testnet =
      decode_x_address_checked hashes (made id tag tag_flag testnet)
        (made-IsByte id tag tag_flag testnet h) (size_31 tag_flag testnet)
      ∙ read_payload_lem hashes (prefix_first testnet) (prefix_second testnet) (flag_of tag_flag)
          tag id testnet size (made-network testnet)

  -- The text of an X-address is no classic address.
  classic-x_text :
      (tag_flag testnet : Bool)
      → decode_classic_address_to_account_id hashes (x_text tag_flag testnet)
        ≡ failed invalid_classic_address
  unfolding decode_classic_address_to_account_id
  classic-x_text tag_flag testnet =
      rw (check_decode-x_text tag_flag testnet) (rw (size_31 tag_flag testnet))

decoded-x_text :
    (hashes : Hashes) (id : Bytes) (tag : ℕ) (tag_flag testnet : Bool) (size : length id ≡ 20)
    (h : All IsByte id)
    → tag < 2 ^ 32
    → (tag_flag ≡ true) ⊎ (tag ≡ 0)
    → decode_x_address hashes (x_text hashes id tag size h tag_flag testnet)
      ≡ done (record { account_id = id; tag = tag; has_tag = tag_flag; testnet = testnet })
decoded-x_text hashes id tag true testnet size h word either =
    decode-x_text hashes id tag size h true testnet
    ∙ rw (decode_tag_tagged (prefix_first testnet) (prefix_second testnet) tag id size word)
decoded-x_text hashes id tag false testnet size h word (inl e) = cc
decoded-x_text hashes id tag false testnet size h word (inr e) =
    decode-x_text hashes id tag size h false testnet
    ∙ rw (decode_tag_zero (prefix_first testnet) (prefix_second testnet) tag id size word e, e)

-- An X-address with a 32-bit tag, or with no tag and the tag given as 0, decodes to what it was made
-- of: the account ID, the tag, whether it has one, and the network.
pub decode_x_address-encode_x_address :
    (hashes : Hashes) (id : Bytes) (tag : ℕ) (tag_flag testnet : Bool)
    → length id ≡ 20
    → All IsByte id
    → tag < 2 ^ 32
    → (tag_flag ≡ true) ⊎ (tag ≡ 0)
    → (s : Bytes) × (encode_x_address hashes id tag tag_flag testnet ≡ done s)
      × (decode_x_address hashes s
          ≡ done (record { account_id = id; tag = tag; has_tag = tag_flag; testnet = testnet }))
decode_x_address-encode_x_address hashes id tag tag_flag testnet size h word either = (
  x_text hashes id tag size h tag_flag testnet,
  encode-x_text hashes id tag size h tag_flag testnet,
  decoded-x_text hashes id tag tag_flag testnet size h word either,
)

-- With a tag other than 0 and no tag flag, EncodeXAddress gives a text with a right checksum that
-- DecodeXAddress refuses: the tag is written although there is none.
pub encode_x_address_hidden_tag :
    (hashes : Hashes) (id : Bytes) (tag : ℕ) (testnet : Bool)
    → length id ≡ 20
    → All IsByte id
    → tag < 2 ^ 32
    → tag ≢ 0
    → (s : Bytes) × (encode_x_address hashes id tag false testnet ≡ done s)
      × (decode_x_address hashes s ≡ failed invalid_tag)
encode_x_address_hidden_tag hashes id tag testnet size h word ne = (
  x_text hashes id tag size h false testnet,
  encode-x_text hashes id tag size h false testnet,
  decode-x_text hashes id tag size h false testnet
      ∙ rw (decode_tag_hidden (prefix_first testnet) (prefix_second testnet) tag id size word ne),
)

-- A classic address and an X-address of one account, with a 32-bit tag or with no tag and the tag
-- given as 0, decode to the same account ID and the same classic address; the X-address adds whether
-- it has a tag, and its network.
pub decode_address_forms :
    (hashes : Hashes) (id : Bytes) (tag : ℕ) (tag_flag testnet : Bool)
    → length id ≡ 20
    → All IsByte id
    → tag < 2 ^ 32
    → (tag_flag ≡ true) ⊎ (tag ≡ 0)
    → (classic x : Bytes) × (encode_account_id_to_classic_address hashes id ≡ done classic)
      × (encode_x_address hashes id tag tag_flag testnet ≡ done x)
      × (decode_address hashes classic
          ≡ done (record { account_id = id; classic = classic; has_tag = false; testnet = false }))
      × (decode_address hashes x
          ≡ done (record {
            account_id = id;
            classic = classic;
            has_tag = tag_flag;
            testnet = testnet;
          }))
decode_address_forms hashes id tag tag_flag testnet size h word either =
    let (classic, made_classic, back, valid) =
      decode_classic_address-encode_account_id hashes id size h in
    let x = x_text hashes id tag size h tag_flag testnet in
    let decoded_x = decoded-x_text hashes id tag tag_flag testnet size h word either in
    (
      classic,
      x,
      made_classic,
      encode-x_text hashes id tag size h tag_flag testnet,
      unfold decode_address in rw (back, decode_address),
      unfold decode_address decode_as_x_address in
          rw (classic-x_text hashes id tag size h tag_flag testnet, decode_address)
            (rw (decoded_x, decode_as_x_address) (same_classic classic made_classic)),
    )
  where
    same_classic :
        (classic : Bytes)
        → encode_account_id_to_classic_address hashes id ≡ done classic
        → ◌≡◌ {A = Outcome DecodedAddress}
            (done (record {
              account_id = id;
              classic = base58_check_encode hashes id (account_address_prefix ∷ []);
              has_tag = tag_flag;
              testnet = testnet;
            }))
            (done (record {
              account_id = id;
              classic = classic;
              has_tag = tag_flag;
              testnet = testnet;
            }))
    same_classic classic e =
        let q : done (base58_check_encode hashes id (account_address_prefix ∷ [])) ≡ done classic =
          sym (encode_account_id_text hashes id size) ∙ e in
        cc
