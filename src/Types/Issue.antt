-- ===== src/Types/Issue.antt =====
-- currency.go, issue.go and xchain_bridge.go of binary-codec/types, on the values of the JSON.
use xrpl_go.Base.{
  ℕ, zero, suc, ◌+◌, ◌*◌, ◌/◌, ◌%◌, List, [], ◌∷◌, ◌++◌, Bytes, Bool, true, false, not, ◌&&◌, ◌||◌,
  leb, ◌==◌, if◌then◌else◌, Option, none, some, length, take, drop, replicate, beq_bytes, codes,
  String, get_or,
}
use xrpl_go.Base.Assoc.{string_eq, lookup}
use xrpl_go.Base.Words.{put_be, get_be}
use xrpl_go.Base.Results.{Result, ok, err, ◌>>=◌, ◌>>◌, guard, from_option}
use xrpl_go.Hexutil.{decode_string, encode_to_upper_hex, lower_digit}
use xrpl_go.Address.Hash.{Hashes}
use xrpl_go.Address.Errors.{Outcome, done, failed, panicked, stuck}
use xrpl_go.Address.Codec.{
  account_address_length, account_address_prefix, decode_classic_address_to_account_id, encode,
}
use xrpl_go.Types.Errors.{
  CodecError, invalid_currency, invalid_issue_object, not_valid_json, not_valid_x_chain_bridge,
  cannot_decode_classic_address, no_length_prefix, panics, out_of_fuel, from_hex, from_address,
}
use xrpl_go.Types.Value.{Value, string, object, string_map, Members, no_members, member, entries}
use xrpl_go.Types.StObject.{Entry}
pub mod ToJson

abbrev pub xrp_bytes : Bytes
xrp_bytes = replicate 20 0

abbrev pub no_account_bytes : Bytes
no_account_bytes = replicate 19 0 ++ (1 ∷ [])

-- `Currency.fromString`
unfoldable pub currency_of_text : Bytes → Result CodecError Bytes
currency_of_text str =
    if length str == 3
    then ok (
        if beq_bytes str (codes "XRP") then xrp_bytes else replicate 12 0 ++ (str ++ replicate 5 0))
    else from_hex (decode_string str)

-- `Currency.FromJSON`
unfoldable pub currency_from_json : Value → Result CodecError Bytes
unfolding currency_of_text
currency_from_json (string str) = currency_of_text str
currency_from_json _ = err invalid_currency

-- `string(b)` of a byte is the UTF-8 of the rune b.
unfoldable pub rune_text : ℕ → Bytes
rune_text b = if leb b 127 then b ∷ [] else (192 + b / 64) ∷ (128 + b % 64) ∷ []

-- The loop that looks for a code in the bytes 12 to 14, from the index i on: how many bytes it has
-- found there, and their text. Another byte that is not 0 ends it with none.
unfoldable pub scan_iso : ℕ → Bytes → ℕ × Bytes → ℕ × Bytes
unfolding rune_text
scan_iso i [] found = found
scan_iso i (c ∷ b) found = elim (c == 0) [
  | true ↦ scan_iso (suc i) b found
  | false ↦ elim (leb 12 i && leb i 14) [
    | true ↦ scan_iso (suc i) b (suc found.0, found.1 ++ rune_text c)
    | false ↦ (0, found.1)
  ]
]

-- `hex.EncodeToString`
unfoldable pub encode_to_string : Bytes → Bytes
encode_to_string [] = []
encode_to_string (b ∷ bs) = lower_digit (b / 16) ∷ lower_digit (b % 16) ∷ encode_to_string bs

-- The text of a currency, with the text of one that is no code of three bytes.
unfoldable pub currency_text : (Bytes → Bytes) → Bytes → Bytes
unfolding scan_iso
currency_text hex b =
    if beq_bytes b xrp_bytes
    then codes "XRP"
    else (let found = scan_iso 0 b (0, []) in if found.0 == 3 then found.1 else hex b)

-- `decodeCurrencyBytes`
unfoldable pub decode_currency_bytes : Bytes → Bytes
unfolding currency_text
decode_currency_bytes b = currency_text encode_to_upper_hex b

abbrev has : Option Value → Bool
has none = false
has (some v) = true

-- `mapObj[k].(string)`
abbrev pub as_string : Option Value → Option Bytes
as_string (some (string s)) = some s
as_string _ = none

abbrev count : List Entry → ℕ
count [] = 0
count (e ∷ m) = suc (count m)

-- `isIssueObject`
unfoldable pub is_issue_object : List Entry → Bool
unfolding lookup
is_issue_object m =
    (count m == 1 && has (lookup "mpt_issuance_id" m))
    || ((count m == 1 && has (lookup "currency" m))
        || (count m == 2 && (has (lookup "currency" m) && has (lookup "issuer" m))))

-- The 44 bytes of an MPT issue: the issuer, the marker, and the sequence with its lowest byte first.
unfoldable pub mpt_issue_bytes : Bytes → Bytes
mpt_issue_bytes id = drop 4 id ++ (no_account_bytes ++ put_le (get_be (take 4 id)))
  where
    put_le : ℕ → Bytes
    put_le v = v % 256 ∷ v / 256 % 256 ∷ v / 65536 % 256 ∷ v / 16777216 % 256 ∷ []

unfoldable pub mpt_issue : Option Bytes → Result CodecError Bytes
unfolding mpt_issue_bytes
mpt_issue text = do
  s ← from_option text invalid_issue_object
  id ← from_hex (decode_string s)
  guard (length id == 24) invalid_issue_object
  ok (mpt_issue_bytes id)

module _ (hashes : Hashes) where
  -- The account ID of a classic address.
  unfoldable pub classic_id : Bytes → Result CodecError Bytes
  classic_id s = do
    (type_prefix, account_id) ← from_address (decode_classic_address_to_account_id hashes s)
    ok account_id

  abbrev with_issuer : Bytes → Option Bytes → Result CodecError Bytes
  with_issuer currency none = ok currency
  with_issuer currency (some issuer) = do id ← classic_id issuer; ok (currency ++ id)

  abbrev issue_of : Option Value → List Entry → Result CodecError Bytes
  issue_of none m = mpt_issue (as_string (lookup "mpt_issuance_id" m))
  issue_of (some currency) m = do
    b ← currency_from_json currency
    with_issuer b (as_string (lookup "issuer" m))

  -- `Issue.FromJSON`
  unfoldable pub issue_from_json : Value → Result CodecError Bytes
  unfolding is_issue_object lookup mpt_issue classic_id currency_from_json
  issue_from_json (object ms) =
      let m = entries ms in
      (do guard (is_issue_object m) invalid_issue_object; issue_of (lookup "currency" m) m)
  issue_from_json _ = err invalid_issue_object

  -- `DecodeClassicAddressToAccountID`, whose error is replaced by another.
  abbrev door : Outcome (Bytes × Bytes) → Result CodecError Bytes
  door (done r) = ok r.1
  door (failed e) = err cannot_decode_classic_address
  door panicked = err panics
  door stuck = err out_of_fuel

  unfoldable pub bridge_bytes : List Entry → Result CodecError Bytes
  unfolding lookup
  bridge_bytes v = do
    locking_door ← from_option (as_string (lookup "LockingChainDoor" v)) not_valid_x_chain_bridge
    locking_issue ← from_option (as_string (lookup "LockingChainIssue" v)) not_valid_x_chain_bridge
    issuing_door ← from_option (as_string (lookup "IssuingChainDoor" v)) not_valid_x_chain_bridge
    issuing_issue ← from_option (as_string (lookup "IssuingChainIssue" v)) not_valid_x_chain_bridge
    a ← door (decode_classic_address_to_account_id hashes locking_door)
    b ← door (decode_classic_address_to_account_id hashes locking_issue)
    c ← door (decode_classic_address_to_account_id hashes issuing_door)
    e ← door (decode_classic_address_to_account_id hashes issuing_issue)
    ok (a ++ (b ++ (c ++ e)))

  -- `XChainBridge.FromJSON`
  unfoldable pub x_chain_bridge_from_json : Value → Result CodecError Bytes
  unfolding bridge_bytes
  x_chain_bridge_from_json (object v) = bridge_bytes (entries v)
  x_chain_bridge_from_json _ = err not_valid_json
