-- ===== src/Codec/Signers.antt =====
-- Who signs, and which fields: the texts of codec.go's encodings for signing.
use xrpl_go.Base.{
  ℕ, ◌/◌, ◌%◌, ◌≡◌, refl, sym, ap, ap₂, ◌∙◌, inl, inr, List, [], ◌∷◌, ◌++◌, map, Bytes, IsByte, All,
  String, false, Bool-cases, append_assoc, if◌then◌else◌,
}
use xrpl_go.Base.Assoc.{string_eq, lookup, insert}
use xrpl_go.Base.Results.{Result, ok, err, bind-ok}
use xrpl_go.Hexutil.{
  decode_string, encode_to_upper_hex, decode_string-encode_to_upper_hex, to_upper, lower_digit,
}
use xrpl_go.Definitions.{Definitions}
use xrpl_go.Address.Hash.{Hashes}
use xrpl_go.Types.Errors.{CodecError}
use xrpl_go.Types.Value.{Value}
use xrpl_go.Types.Law.{SerializedType}
use xrpl_go.Types.Hash.{account_id_of_text}
use xrpl_go.Types.Hash.Accounts.{text_written}
use xrpl_go.Types.Issue.{encode_to_string}
use xrpl_go.Types.StObject.{Entry}
use xrpl_go.Codec.{EncodeError, lift, encode}
use xrpl_go.Codec.Payloads.{
  upper, is_signing, signing_fields_only, encode_with_prefix, encode_with_suffix,
}

map-append : (f : ℕ → ℕ) (x y : Bytes) → map f (x ++ y) ≡ map f x ++ map f y
map-append f [] y = refl
map-append f (c ∷ x) y = ap (λ l. f c ∷ l) (map-append f x y)

cancel_front : (p x y : Bytes) → p ++ x ≡ p ++ y → x ≡ y
cancel_front [] x y h = h
cancel_front (c ∷ p) x y h = cancel_front p x y cc

upper-encode_to_string : (b : Bytes) → upper (encode_to_string b) ≡ encode_to_upper_hex b
unfolding encode_to_string encode_to_upper_hex
upper-encode_to_string [] = refl
upper-encode_to_string (c ∷ b) =
    ap (λ l. to_upper (lower_digit (c / 16)) ∷ to_upper (lower_digit (c % 16)) ∷ l)
      (upper-encode_to_string b)

hex_injective :
    (a b : Bytes)
    → All IsByte a
    → All IsByte b
    → encode_to_upper_hex a ≡ encode_to_upper_hex b
    → a ≡ b
hex_injective a b ha hb h =
    let q : ok a ≡ ok b =
      sym (decode_string-encode_to_upper_hex a ha)
      ∙ ap decode_string h
      ∙ decode_string-encode_to_upper_hex b hb in
    cc

lift-found : (r : Result CodecError Bytes) (b : Bytes) → lift r ≡ ok b → r ≡ ok b
lift-found (ok x) b h = cc
lift-found (err e) b h = cc

text_ok : (x y : Bytes) → Path (Result EncodeError Bytes) (ok x) (ok y) → x ≡ y
text_ok x y h = cc

signing_at :
    (d : Definitions) (k : String) (v : Value) (m : List Entry)
    → is_signing (lookup k d.fields) ≡ false
    → signing_fields_only d ((k, v) ∷ m) ≡ signing_fields_only d m
unfolding signing_fields_only
signing_at d k v m h = rw (h, signing_fields_only) refl

-- A member that is no signing field is left out, whatever its value.
signing_fields_only-insert :
    (d : Definitions) (k : String) (v : Value) (m : List Entry)
    → is_signing (lookup k d.fields) ≡ false
    → signing_fields_only d (insert k v m) ≡ signing_fields_only d m
unfolding insert
signing_fields_only-insert d k v [] h = signing_at d k v [] h
signing_fields_only-insert d k v ((j, w) ∷ m) h = elim (Bool-cases (string_eq.beq j k)) [
  | inl same ↦
      let e : j ≡ k = (string_eq.beq_iff j k).0 same in
      rw same (
        signing_at d k v m h
        ∙ sym (signing_at d j w m (ap (λ t. is_signing (lookup t d.fields)) e ∙ h)))
  | inr other ↦ rw other (next (signing_fields_only-insert d k v m h))
]
  where
    next :
        signing_fields_only d (insert k v m) ≡ signing_fields_only d m
        → signing_fields_only d ((j, w) ∷ insert k v m) ≡ signing_fields_only d ((j, w) ∷ m)
    next h =
        unfold signing_fields_only in
        ap (λ rest. if is_signing (lookup j d.fields) then (j, w) ∷ rest else rest) h

module _ (d : Definitions) (hashes : Hashes) (amount path_set : SerializedType) (fuel : ℕ) where
  -- What is signed does not turn on a member that is no signing field, such as a signature: setting
  -- one to any value changes neither the text for a single signer nor that for a multi-signer.
  pub encode_for_signing-insert :
      (json : List Entry) (k : String) (v : Value) (account prefix_ : Bytes)
      → is_signing (lookup k d.fields) ≡ false
      → (encode_with_prefix d hashes amount path_set fuel (insert k v json) prefix_
          ≡ encode_with_prefix d hashes amount path_set fuel json prefix_)
        × (encode_with_suffix d hashes amount path_set fuel (insert k v json) account prefix_
            ≡ encode_with_suffix d hashes amount path_set fuel json account prefix_)
  unfolding encode_with_prefix encode_with_suffix
  encode_for_signing-insert json k v account prefix_ h =
      let same = signing_fields_only-insert d k v json h in (rw same refl, rw same refl)

  signer_text :
      (json : List Entry) (account prefix_ s x : Bytes)
      → encode d hashes amount path_set fuel (signing_fields_only d json) ≡ ok x
      → encode_with_suffix d hashes amount path_set fuel json account prefix_ ≡ ok s
      → (id : Bytes) × (account_id_of_text hashes account ≡ ok id)
        × All IsByte id
        × (upper (prefix_ ++ x) ++ encode_to_upper_hex id ≡ s)
  unfolding encode_with_suffix
  signer_text json account prefix_ s x encoded h =
      let (id, found, e) = bind-ok (lift (account_id_of_text hashes account)) _ s h in
      let known = lift-found (account_id_of_text hashes account) id found in
      let (y, encoded', e1) =
        bind-ok (encode d hashes amount path_set fuel (signing_fields_only d json)) _ s e in
      let same : x ≡ y = text_ok x y (sym encoded ∙ encoded') in
      (
        id,
        known,
        (text_written hashes account id known).1,
        ap₂ (λ a b. upper (prefix_ ++ a) ++ b) same (sym (upper-encode_to_string id))
            ∙ sym (map-append to_upper (prefix_ ++ y) (encode_to_string id))
            ∙ ap upper (append_assoc prefix_ y (encode_to_string id))
            ∙ text_ok _ s e1,
      )

  encoded_fields :
      (json : List Entry) (a prefix_ s : Bytes)
      → encode_with_suffix d hashes amount path_set fuel json a prefix_ ≡ ok s
      → (x : Bytes) × (encode d hashes amount path_set fuel (signing_fields_only d json) ≡ ok x)
  unfolding encode_with_suffix
  encoded_fields json a prefix_ s h =
      let (id, _, e) = bind-ok (lift (account_id_of_text hashes a)) _ s h in
      let (y, encoded, _) =
        bind-ok (encode d hashes amount path_set fuel (signing_fields_only d json)) _ s e in
      (y, encoded)

  -- The signers of one transaction sign different texts: if the texts of two accounts are the same,
  -- the accounts have the same account ID.
  pub encode_for_multisigning_signer :
      (json : List Entry) (a b prefix_ s : Bytes)
      → encode_with_suffix d hashes amount path_set fuel json a prefix_ ≡ ok s
      → encode_with_suffix d hashes amount path_set fuel json b prefix_ ≡ ok s
      → account_id_of_text hashes a ≡ account_id_of_text hashes b
  encode_for_multisigning_signer json a b prefix_ s h k =
      let (x, encoded) = encoded_fields json a prefix_ s h in
      let (i, found, ib, e) = signer_text json a prefix_ s x encoded h in
      let (j, found', jb, f) = signer_text json b prefix_ s x encoded k in
      let same : i ≡ j =
        hex_injective i j ib jb (cancel_front (upper (prefix_ ++ x)) _ _ (e ∙ sym f)) in
      found ∙ ap ok same ∙ sym found'
