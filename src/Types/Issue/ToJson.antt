-- ===== src/Types/Issue/ToJson.antt =====
-- The readers of currency.go, issue.go and xchain_bridge.go of binary-codec/types.
use xrpl_go.Base.{
  ℕ, zero, suc, ◌+◌, ◌*◌, [], ◌∷◌, ◌++◌, Bytes, ◌==◌, if◌then◌else◌, Option, none, some, length,
  take, drop, beq_bytes, codes, get_or,
}
use xrpl_go.Base.Words.{put_be}
use xrpl_go.Base.Results.{Result, ok, err}
use xrpl_go.Hexutil.{encode_to_upper_hex}
use xrpl_go.Address.Hash.{Hashes}
use xrpl_go.Address.Codec.{account_address_length, account_address_prefix, encode}
use xrpl_go.Types.Errors.{
  CodecError, no_length_prefix, read_bytes_error, not_valid_x_chain_bridge, from_address,
}
use xrpl_go.Types.Value.{Value, string, object, string_map, no_members, member}
use xrpl_go.Types.Reader.{Reader, ◌>>=◌, read, read_as, return, fail, of_result}
use xrpl_go.Types.Issue.{
  xrp_bytes, no_account_bytes, currency_text, encode_to_string, decode_currency_bytes,
}

-- The length that `Currency.ToJSON` reads: 20 where no other is given.
abbrev currency_length : Option ℕ → ℕ
currency_length none = 20
currency_length (some zero) = 20
currency_length (some (suc n)) = suc n

-- `Currency.ToJSON`
unfoldable pub currency_to_json : Option ℕ → Reader Value
unfolding read_as currency_text encode_to_string
currency_to_json opts =
    read_as (currency_length opts) λ b. ok (string (currency_text encode_to_string b))

-- The issuance ID of an MPT issue: the sequence, highest byte first, and the issuer.
unfoldable pub mpt_issuance_id : Bytes → Bytes → Bytes
mpt_issuance_id sequence issuer =
    put_be 4 (
      get_or sequence 0 0
      + get_or sequence 1 0 * 0x100
      + get_or sequence 2 0 * 0x10000
      + get_or sequence 3 0 * 0x1000000)
    ++ issuer

module _ (hashes : Hashes) where
  unfoldable pub address_text : Bytes → Result CodecError Bytes
  address_text b =
      from_address (encode hashes b (account_address_prefix ∷ []) account_address_length)

  -- The IOU case of `Issue.ToJSON`.
  unfoldable pub iou_issue : Bytes → Bytes → Reader Value
  unfolding address_text decode_currency_bytes
  iou_issue currency issuer = do
    address ← of_result (address_text issuer)
    return (
        object (
          member "currency" (string (decode_currency_bytes currency))
            (member "issuer" (string address) no_members)))

  -- The MPT case, behind the marker.
  unfoldable pub mpt_issue_to_json : Bytes → Reader Value
  unfolding read_as mpt_issuance_id
  mpt_issue_to_json issuer = read_as 4 λ sequence. ok (
      object (
        member "mpt_issuance_id" (string (encode_to_upper_hex (mpt_issuance_id sequence issuer)))
          no_members))

  -- `Issue.ToJSON`, behind its first 20 bytes, which are not those of XRP.
  unfoldable pub issue_behind : Bytes → Reader Value
  unfolding read mpt_issue_to_json iou_issue
  issue_behind first = do
    second ← read 20
    if beq_bytes second no_account_bytes then mpt_issue_to_json first else iou_issue first second

  -- `Issue.ToJSON`
  unfoldable pub issue_to_json : Reader Value
  unfolding read issue_behind
  issue_to_json = do
    first ← read 20
    if beq_bytes first xrp_bytes
        then return (object (member "currency" (string (codes "XRP")) no_members))
        else issue_behind first

  -- The four accounts of a bridge of 80 bytes.
  unfoldable pub bridge_texts : Bytes → Reader Value
  unfolding address_text
  bridge_texts b = do
    locking_door ← of_result (address_text (take 20 b))
    locking_issue ← of_result (address_text (take 20 (drop 20 b)))
    issuing_door ← of_result (address_text (take 20 (drop 40 b)))
    issuing_issue ← of_result (address_text (take 20 (drop 60 b)))
    return (
        string_map (
          ("LockingChainDoor", locking_door)
          ∷ ("LockingChainIssue", locking_issue)
          ∷ ("IssuingChainDoor", issuing_door)
          ∷ ("IssuingChainIssue", issuing_issue)
          ∷ []))

  -- The reading of a bridge, whose error is replaced by another.
  abbrev bridge_read : Result CodecError Bytes × Bytes → Result CodecError Bytes × Bytes
  bridge_read (ok b, d) = (ok b, d)
  bridge_read (err e, d) = (err read_bytes_error, d)

  -- `XChainBridge.ToJSON`
  unfoldable pub x_chain_bridge_to_json : Option ℕ → Reader Value
  unfolding read bridge_texts
  x_chain_bridge_to_json none = fail no_length_prefix
  x_chain_bridge_to_json (some size) = do
    b ← λ d. bridge_read (read size d)
    if length b == 80 then bridge_texts b else fail not_valid_x_chain_bridge
