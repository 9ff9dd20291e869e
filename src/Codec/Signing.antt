-- ===== src/Codec/Signing.antt =====
-- What is signed: the texts of codec.go's encodings for signing.
use xrpl_go.Base.{
  ℕ, ◌≡◌, refl, sym, ap, ◌∙◌, List, [], ◌∷◌, ◌++◌, Bytes, String, Option, none, some, take,
  beq_bytes, length, not, ◌&&◌, ltb, ◌^◌, if◌then◌else◌,
}
use xrpl_go.Base.Assoc.{string_eq, lookup}
use xrpl_go.Base.Results.{Result, ok, bind-ok, guard, from_option}
use xrpl_go.Definitions.{Definitions}
use xrpl_go.Address.Hash.{Hashes}
use xrpl_go.Types.Value.{Value, integer, uint32}
use xrpl_go.Types.Law.{SerializedType}
use xrpl_go.Types.Hash.{account_id_of_text, hash_from_json, account_id_from_json}
use xrpl_go.Types.Integers.{uint32_from_json}
use xrpl_go.Base.Int.{pos}
use xrpl_go.Types.Issue.{encode_to_string}
use xrpl_go.Types.StObject.{Entry}
use xrpl_go.Codec.{
  EncodeError, lift, encode, signing_claim_field_not_found, batch_account_not_found,
  batch_sequence_not_found, batch_flags_not_found, batch_tx_ids_not_found,
  batch_signer_without_account, batch_tx_ids_not_array, batch_flags_not_uint32,
  batch_tx_ids_too_long,
}
use xrpl_go.Codec.Payloads.{
  upper, signing_fields_only, encode_with_prefix, encode_with_suffix, encode_for_signing,
  encode_for_signing_counterparty, encode_for_signing_sponsor, encode_for_multisigning,
  encode_for_multisigning_counterparty, encode_for_multisigning_sponsor, encode_for_signing_claim,
  encode_for_signing_batch, batch_text, clear_first, tx_sig_prefix, counterparty_sig_prefix,
  sponsor_sig_prefix, tx_multi_sig_prefix, counterparty_multi_sig_prefix, sponsor_multi_sig_prefix,
  payment_channel_claim_prefix, batch_prefix, not_nil, is_some, as_strings, is_uint32, tx_ids_text,
  optional_account,
}

-- What a text is signed for.
pub data Purpose : Type 0 where
  single single_counterparty single_sponsor : Purpose
  multi multi_counterparty multi_sponsor : Purpose
  claim batch : Purpose

abbrev prefix_of : Purpose → Bytes
prefix_of single = tx_sig_prefix
prefix_of single_counterparty = counterparty_sig_prefix
prefix_of single_sponsor = sponsor_sig_prefix
prefix_of multi = tx_multi_sig_prefix
prefix_of multi_counterparty = counterparty_multi_sig_prefix
prefix_of multi_sponsor = sponsor_multi_sig_prefix
prefix_of claim = payment_channel_claim_prefix
prefix_of batch = batch_prefix

abbrev among : Bytes → List Purpose → Option Purpose
among s [] = none
among s (p ∷ ps) = if beq_bytes (take 8 s) (prefix_of p) then some p else among s ps

abbrev purpose_of : Bytes → Option Purpose
purpose_of s = among s (
    single ∷ single_counterparty ∷ single_sponsor ∷ multi ∷ multi_counterparty ∷ multi_sponsor
    ∷ claim ∷ batch ∷ [])

purpose_of-prefix_of : (p : Purpose) (rest : Bytes) → purpose_of (prefix_of p ++ rest) ≡ some p
purpose_of-prefix_of single rest = refl
purpose_of-prefix_of single_counterparty rest = refl
purpose_of-prefix_of single_sponsor rest = refl
purpose_of-prefix_of multi rest = refl
purpose_of-prefix_of multi_counterparty rest = refl
purpose_of-prefix_of multi_sponsor rest = refl
purpose_of-prefix_of claim rest = refl
purpose_of-prefix_of batch rest = refl

upper-prefix_of :
    (p : Purpose) (rest : Bytes) → upper (prefix_of p ++ rest) ≡ prefix_of p ++ upper rest
upper-prefix_of single rest = refl
upper-prefix_of single_counterparty rest = refl
upper-prefix_of single_sponsor rest = refl
upper-prefix_of multi rest = refl
upper-prefix_of multi_counterparty rest = refl
upper-prefix_of multi_sponsor rest = refl
upper-prefix_of claim rest = refl
upper-prefix_of batch rest = refl

abbrev StartsWith : Bytes → Bytes → Type 0
StartsWith p s = (rest : Bytes) × (p ++ rest ≡ s)

from_ok : (x y : Bytes) → Path (Result EncodeError Bytes) (ok x) (ok y) → x ≡ y
from_ok x y h = cc

signed_text :
    (p : Purpose) (x s : Bytes)
    → Path (Result EncodeError Bytes) (ok (upper (prefix_of p ++ x))) (ok s)
    → StartsWith (prefix_of p) s
signed_text p x s h =
    let q : upper (prefix_of p ++ x) ≡ s = cc in (upper x, sym (upper-prefix_of p x) ∙ q)

claim_prefixed :
    (amount : SerializedType) (json : List Entry) (s : Bytes)
    → encode_for_signing_claim amount json ≡ ok s
    → StartsWith (prefix_of claim) s
unfolding encode_for_signing_claim
claim_prefixed amount json s h =
    let (c, _, e) =
      bind-ok (from_option (not_nil (lookup "Channel" json)) signing_claim_field_not_found) _ s h in
    let (a, _, e1) =
      bind-ok (from_option (not_nil (lookup "Amount" json)) signing_claim_field_not_found) _ s e in
    let (channel, _, e2) = bind-ok (lift (hash_from_json 32 c)) _ s e1 in
    let (bytes, _, e3) = bind-ok (lift (amount.from_json a)) _ s e2 in
    signed_text claim (encode_to_string channel ++ encode_to_string (clear_first bytes)) s e3

batch_text_prefixed :
    (hashes : Hashes) (account sequence flags : Value) (tx_ids : List Bytes)
    (batch_account signer_account : Option Value) (text : Bytes)
    → batch_text hashes account sequence flags tx_ids batch_account signer_account ≡ ok text
    → StartsWith (prefix_of batch) text
unfolding batch_text
batch_text_prefixed hashes account sequence flags tx_ids batch_account signer_account text h =
    let (a, _, e1) = bind-ok (lift (account_id_from_json hashes account)) _ text h in
    let (b, _, e2) = bind-ok (lift (uint32_from_json sequence)) _ text e1 in
    let (c, _, e3) = bind-ok (lift (uint32_from_json flags)) _ text e2 in
    let (n, _, e4) =
      bind-ok (lift (uint32_from_json (integer uint32 (pos (length tx_ids))))) _ text e3 in
    let (ids, _, e5) = bind-ok (tx_ids_text tx_ids) _ text e4 in
    let (x, _, e6) = bind-ok (optional_account hashes batch_account) _ text e5 in
    let (y, _, e7) = bind-ok (optional_account hashes signer_account) _ text e6 in
    (
      encode_to_string a
          ++ (encode_to_string b
              ++ (encode_to_string c ++ (encode_to_string n ++ (ids ++ (x ++ y))))),
      from_ok _ text e7,
    )

starts_upper :
    (text s rest : Bytes)
    → prefix_of batch ++ rest ≡ text
    → upper text ≡ s
    → StartsWith (prefix_of batch) s
starts_upper text s rest starts e =
    (upper rest, sym (upper-prefix_of batch rest) ∙ ap upper starts ∙ e)

batch_prefixed :
    (hashes : Hashes) (json : List Entry) (s : Bytes)
    → encode_for_signing_batch hashes json ≡ ok s
    → StartsWith (prefix_of batch) s
unfolding encode_for_signing_batch
batch_prefixed hashes json s h =
    let found : String → EncodeError → Result EncodeError Value =
      λ k e. from_option (not_nil (lookup k json)) e in
    let (account, _, e1) = bind-ok (found "account" batch_account_not_found) _ s h in
    let (sequence, _, e2) = bind-ok (found "sequence" batch_sequence_not_found) _ s e1 in
    let (flags, _, e3) = bind-ok (found "flags" batch_flags_not_found) _ s e2 in
    let (ids, _, e4) = bind-ok (found "txIDs" batch_tx_ids_not_found) _ s e3 in
    let batch_account = lookup "batchAccount" json in
    let signer_account = lookup "signerAccount" json in
    let (_, _, e5) =
      bind-ok
        (guard (not (is_some signer_account && not (is_some batch_account)))
          batch_signer_without_account)
        _ s e4 in
    let (tx_ids, _, e6) = bind-ok (from_option (as_strings ids) batch_tx_ids_not_array) _ s e5 in
    let (_, _, e7) = bind-ok (guard (is_uint32 flags) batch_flags_not_uint32) _ s e6 in
    let (_, _, e8) = bind-ok (guard (ltb (length tx_ids) (2 ^ 32)) batch_tx_ids_too_long) _ s e7 in
    let (text, made, e9) =
      bind-ok (batch_text hashes account sequence flags tx_ids batch_account signer_account) _ s
        e8 in
    let (rest, starts) =
      batch_text_prefixed hashes account sequence flags tx_ids batch_account signer_account text
        made in
    starts_upper text s rest starts (from_ok (upper text) s e9)

module _ (d : Definitions) (hashes : Hashes) (amount path_set : SerializedType) (fuel : ℕ) where
  prefixed :
      (p : Purpose) (json : List Entry) (s : Bytes)
      → encode_with_prefix d hashes amount path_set fuel json (prefix_of p) ≡ ok s
      → StartsWith (prefix_of p) s
  unfolding encode_with_prefix
  prefixed p json s h =
      let (x, _, e) =
        bind-ok (encode d hashes amount path_set fuel (signing_fields_only d json)) _ s h in
      signed_text p x s e

  suffixed :
      (p : Purpose) (json : List Entry) (a s : Bytes)
      → encode_with_suffix d hashes amount path_set fuel json a (prefix_of p) ≡ ok s
      → StartsWith (prefix_of p) s
  unfolding encode_with_suffix
  suffixed p json a s h =
      let (id, _, e) = bind-ok (lift (account_id_of_text hashes a)) _ s h in
      let (x, _, e1) =
        bind-ok (encode d hashes amount path_set fuel (signing_fields_only d json)) _ s e in
      signed_text p (x ++ encode_to_string id) s e1

  -- The text that one of the encodings gives for this purpose.
  pub data SignedFor : Purpose → Bytes → Type 0 where
    by_signing :
        (json : List Entry) {s : Bytes}
        → encode_for_signing d hashes amount path_set fuel json ≡ ok s
        → SignedFor single s
    by_signing_counterparty :
        (json : List Entry) {s : Bytes}
        → encode_for_signing_counterparty d hashes amount path_set fuel json ≡ ok s
        → SignedFor single_counterparty s
    by_signing_sponsor :
        (json : List Entry) {s : Bytes}
        → encode_for_signing_sponsor d hashes amount path_set fuel json ≡ ok s
        → SignedFor single_sponsor s
    by_multisigning :
        (json : List Entry) (a : Bytes) {s : Bytes}
        → encode_for_multisigning d hashes amount path_set fuel json a ≡ ok s
        → SignedFor multi s
    by_multisigning_counterparty :
        (json : List Entry) (a : Bytes) {s : Bytes}
        → encode_for_multisigning_counterparty d hashes amount path_set fuel json a ≡ ok s
        → SignedFor multi_counterparty s
    by_multisigning_sponsor :
        (json : List Entry) (a : Bytes) {s : Bytes}
        → encode_for_multisigning_sponsor d hashes amount path_set fuel json a ≡ ok s
        → SignedFor multi_sponsor s
    by_claim :
        (json : List Entry) {s : Bytes}
        → encode_for_signing_claim amount json ≡ ok s
        → SignedFor claim s
    by_batch :
        (json : List Entry) {s : Bytes}
        → encode_for_signing_batch hashes json ≡ ok s
        → SignedFor batch s

  signed-StartsWith : (p : Purpose) (s : Bytes) → SignedFor p s → StartsWith (prefix_of p) s
  unfolding encode_for_signing encode_for_signing_counterparty encode_for_signing_sponsor
      encode_for_multisigning encode_for_multisigning_counterparty encode_for_multisigning_sponsor
  signed-StartsWith _ s (by_signing json h) = prefixed single json s h
  signed-StartsWith _ s (by_signing_counterparty json h) = prefixed single_counterparty json s h
  signed-StartsWith _ s (by_signing_sponsor json h) = prefixed single_sponsor json s h
  signed-StartsWith _ s (by_multisigning json a h) = suffixed multi json a s h
  signed-StartsWith _ s (by_multisigning_counterparty json a h) =
      suffixed multi_counterparty json a s h
  signed-StartsWith _ s (by_multisigning_sponsor json a h) = suffixed multi_sponsor json a s h
  signed-StartsWith _ s (by_claim json h) = claim_prefixed amount json s h
  signed-StartsWith _ s (by_batch json h) = batch_prefixed hashes json s h

  -- A text that is signed for one purpose is never signed for another: whatever the transactions,
  -- claims and batches, two of the eight encodings give one text only if they are the same.
  pub SignedFor-unique : (p q : Purpose) (s : Bytes) → SignedFor p s → SignedFor q s → p ≡ q
  SignedFor-unique p q s h k =
      let (x, e) = signed-StartsWith p s h in
      let (y, f) = signed-StartsWith q s k in
      let same : some p ≡ some q =
        sym (purpose_of-prefix_of p x) ∙ ap purpose_of (e ∙ sym f) ∙ purpose_of-prefix_of q y in
      cc
