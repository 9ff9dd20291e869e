-- ===== src/Address/Check.antt =====
-- address-codec/base58check.go.
use xrpl_go.Base.{ℕ, ◌-◌, List, [], ◌∷◌, ◌++◌, Bytes, not, ltb, length, take, drop, beq_bytes}
use xrpl_go.Address.Hash.{Hashes}
use xrpl_go.Address.Errors.{
  AddressError, checksum_mismatch, invalid_format, Outcome, done, ◌>>=◌, ◌>>◌, check, of_decoded,
}
use xrpl_go.Address.Base58.{encode_base58, decode_base58}
pub mod RoundTrip

module _ (hashes : Hashes) where
  -- The first four bytes of SHA-256 of SHA-256.
  unfoldable pub checksum : Bytes → Bytes
  checksum input = take 4 (hashes.sha256 (hashes.sha256 input))

  -- `Base58CheckEncode`; the prefix is variadic.
  unfoldable pub base58_check_encode : Bytes → Bytes → Bytes
  base58_check_encode input type_prefix =
      let b = type_prefix ++ input in encode_base58 (b ++ checksum b)

  -- `Base58CheckDecode`
  unfoldable pub base58_check_decode : Bytes → Outcome Bytes
  base58_check_decode input = do
    decoded ← of_decoded (decode_base58 input)
    check (not (ltb (length decoded) 5)) invalid_format
    let result = take (length decoded - 4) decoded
    check (beq_bytes (drop (length decoded - 4) decoded) (checksum result)) checksum_mismatch
    done result
