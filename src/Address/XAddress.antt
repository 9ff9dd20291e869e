-- ===== src/Address/XAddress.antt =====
-- address-codec/x_codec.go and address-codec/address.go: X-addresses, and both forms of an address.
use xrpl_go.Base.{
  ◌^◌, ℕ, ◌+◌, ◌*◌, ◌/◌, ◌%◌, List, [], ◌∷◌, ◌++◌, Bytes, Bool, true, false, not, ◌&&◌, ◌||◌, ltb,
  leb, ◌==◌, length, take, drop, get_or, beq_bytes, if◌then◌else◌,
}
use xrpl_go.Address.Hash.{Hashes}
use xrpl_go.Address.Errors.{
  AddressError, invalid_account_id, invalid_x_address, unsupported_x_address, invalid_tag,
  invalid_address_format, Outcome, done, failed, panicked, stuck, ◌>>=◌, ◌>>◌, check,
}
use xrpl_go.Address.Base58.{encode_base58}
use xrpl_go.Address.Check.{checksum, base58_check_encode, base58_check_decode}
use xrpl_go.Address.Codec.{
  account_address_length, account_address_prefix, decode_classic_address_to_account_id,
  encode_account_id_to_classic_address, is_valid_classic_address,
}
pub mod Payload
pub mod RoundTrip

abbrev pub mainnet_prefix : Bytes
mainnet_prefix = 0x05 ∷ 0x44 ∷ []

abbrev pub testnet_prefix : Bytes
testnet_prefix = 0x04 ∷ 0x93 ∷ []

-- What an X-address carries. The tag is 0 where there is none.
pub record XAddress : Type 0 where
  pub account_id : Bytes
  pub tag : ℕ
  pub has_tag : Bool
  pub testnet : Bool

-- `byte(tag & 0xff)` and so on, lowest byte first, and four zero bytes.
abbrev pub tag_bytes : ℕ → Bytes
tag_bytes tag =
    tag % 256 ∷ tag / 256 % 256 ∷ tag / 65536 % 256 ∷ tag / 16777216 % 256 ∷ 0 ∷ 0 ∷ 0 ∷ 0 ∷ []

-- The bytes of an X-address in front of its checksum.
unfoldable pub x_address_bytes : Bytes → ℕ → Bool → Bool → Bytes
x_address_bytes account_id tag tag_flag testnet_flag =
    (if testnet_flag then testnet_prefix else mainnet_prefix)
    ++ (account_id ++ ((if tag_flag then 1 else 0) ∷ tag_bytes tag))

-- `for i := 27; i < 31; i++` and `for i := 23; i < 31; i++`: the bytes from n on are 0.
unfoldable pub all_zero : Bytes → Bool
all_zero [] = true
all_zero (b ∷ bs) = b == 0 && all_zero bs

-- The tag of four bytes, lowest first, as a uint32.
abbrev pub tag_of : ℕ → ℕ → ℕ → ℕ → ℕ
tag_of b0 b1 b2 b3 = (b0 + b1 * 0x100 + b2 * 0x10000 + b3 * 0x1000000) % 2 ^ 32

-- `decodeTag`, on 31 bytes.
unfoldable pub decode_tag : Bytes → Outcome (ℕ × Bool)
decode_tag bytes =
    let flag = get_or bytes 22 0 in
    if leb 2 flag
    then failed unsupported_x_address
    else if flag == 1
    then (if all_zero (drop 27 bytes)
        then done (
          tag_of (get_or bytes 23 0) (get_or bytes 24 0) (get_or bytes 25 0) (get_or bytes 26 0),
          true,
        )
        else failed invalid_tag)
    else if all_zero (drop 23 bytes)
    then done (0, false)
    else failed invalid_tag

-- The `switch` on the prefix.
unfoldable pub network_of : Bytes → Outcome Bool
network_of bytes =
    if beq_bytes (take 2 bytes) mainnet_prefix
    then done false
    else if beq_bytes (take 2 bytes) testnet_prefix
    then done true
    else failed invalid_x_address

module _ (hashes : Hashes) where
  -- `EncodeXAddress`
  unfoldable pub encode_x_address : Bytes → ℕ → Bool → Bool → Outcome Bytes
  encode_x_address account_id tag tag_flag testnet_flag = do
    check (length account_id == account_address_length) invalid_account_id
    let bytes = x_address_bytes account_id tag tag_flag testnet_flag
    done (encode_base58 (bytes ++ checksum hashes bytes))

  -- `DecodeXAddress`
  unfoldable pub decode_x_address : Bytes → Outcome XAddress
  decode_x_address x_address = do
    bytes ← base58_check_decode hashes x_address
    check (length bytes == 31) invalid_x_address
    testnet ← network_of bytes
    (tag, has_tag) ← decode_tag bytes
    done (record {
      account_id = take 20 (drop 2 bytes);
      tag = tag;
      has_tag = has_tag;
      testnet = testnet;
    })

  -- `IsValidXAddress`
  unfoldable pub is_valid_x_address : Bytes → Outcome Bool
  is_valid_x_address x_address = elim (decode_x_address x_address) [
    | done r ↦ done true
    | failed e ↦ done false
    | panicked ↦ panicked
    | stuck ↦ stuck
  ]

  -- `IsValidAddress`
  unfoldable pub is_valid_address : Bytes → Outcome Bool
  is_valid_address address = do
    classic ← is_valid_classic_address hashes address
    if classic then done true else is_valid_x_address address

  -- `XAddressToClassicAddress`
  unfoldable pub x_address_to_classic_address : Bytes → Outcome (Bytes × XAddress)
  x_address_to_classic_address x_address = do
    x ← decode_x_address x_address
    classic ← encode_account_id_to_classic_address hashes x.account_id
    done (classic, x)

  -- `ClassicAddressToXAddress`
  unfoldable pub classic_address_to_x_address : Bytes → ℕ → Bool → Bool → Outcome Bytes
  classic_address_to_x_address address tag tag_flag testnet_flag = do
    (type_prefix, account_id) ← decode_classic_address_to_account_id hashes address
    encode_x_address account_id tag tag_flag testnet_flag

pub record DecodedAddress : Type 0 where
  pub account_id : Bytes
  pub classic : Bytes
  pub has_tag : Bool
  pub testnet : Bool

module _ (hashes : Hashes) where
  -- The second half of `DecodeAddress`, after the classic form failed with `classic_err`.
  unfoldable pub decode_as_x_address : Bytes → AddressError → Outcome DecodedAddress
  decode_as_x_address address classic_err = elim (decode_x_address hashes address) [
    | done x ↦ done (record {
      account_id = x.account_id;
      classic = base58_check_encode hashes x.account_id (account_address_prefix ∷ []);
      has_tag = x.has_tag;
      testnet = x.testnet;
    })
    | failed x_err ↦ failed (invalid_address_format classic_err x_err)
    | panicked ↦ panicked
    | stuck ↦ stuck
  ]

  -- `DecodeAddress`
  unfoldable pub decode_address : Bytes → Outcome DecodedAddress
  decode_address address = elim (decode_classic_address_to_account_id hashes address) [
    | done (type_prefix, account_id) ↦
        done
          (record { account_id = account_id; classic = address; has_tag = false; testnet = false })
    | failed classic_err ↦ decode_as_x_address address classic_err
    | panicked ↦ panicked
    | stuck ↦ stuck
  ]

-- `IsZeroAccountID`
unfoldable pub is_zero_account_id : Bytes → Bool
is_zero_account_id account_id = length account_id == account_address_length && all_zero account_id
