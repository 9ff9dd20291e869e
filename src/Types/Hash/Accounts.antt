-- ===== src/Types/Hash/Accounts.antt =====
-- Account IDs of binary-codec/types, read back.
use xrpl_go.Base.{
  ℕ, ◌≡◌, sym, ap, ◌∙◌, inl, inr, [], ◌∷◌, ◌++◌, Bytes, IsByte, All, not, Bool-cases, some, length,
  subst,
}
use xrpl_go.Base.Results.{ok, bind-ok, guard}
use xrpl_go.Address.Hash.{Hashes}
use xrpl_go.Address.Errors.{Outcome, done, failed, panicked, stuck}
use xrpl_go.Address.Check.{base58_check_encode}
use xrpl_go.Address.Codec.{
  account_address_length, account_address_prefix, decode_classic_address_to_account_id, encode,
  encode_account_id_to_classic_address,
}
use xrpl_go.Address.Codec.RoundTrip.{
  decode_classic_address-encode_account_id, encode_account_id_text,
}
use xrpl_go.Address.AccountId.{
  decode_classic_address-IsByte, decode_x_address-IsByte, base58_check_encode-first,
}
use xrpl_go.Address.XAddress.{decode_x_address}
use xrpl_go.Types.Errors.{account_id_tag_not_allowed, from_address}
use xrpl_go.Types.Value.{
  Value, integer, float64, null, other, string, named_string, strings, array, objects, object,
  string_map,
}
use xrpl_go.Types.Reader.{read_as-append}
use xrpl_go.Types.Law.{ReadsBack}
use xrpl_go.Types.Hash.{
  account_id_of_classic, account_id_of_x, starts_with, account_id_of_text, account_id_from_json,
  account_id_to_json,
}

from_address-ok {ℓ} : {A : Type ℓ} (m : Outcome A) (a : A) → from_address m ≡ ok a → m ≡ done a
from_address-ok (done x) a h = cc
from_address-ok (failed e) a h = cc
from_address-ok panicked a h = cc
from_address-ok stuck a h = cc

module _ (hashes : Hashes) where
  -- Both forms of an account ID give 20 bytes.
  classic_written :
      (s b : Bytes) → account_id_of_classic hashes s ≡ ok b → (length b ≡ 20) × All IsByte b
  unfolding account_id_of_classic
  classic_written s b h =
      let (r, found, h1) =
        bind-ok (from_address (decode_classic_address_to_account_id hashes s)) _ b h in
      let q : r.1 ≡ b = cc in
      rw (← q) (decode_classic_address-IsByte hashes s r.0 r.1 (from_address-ok _ r found))

  x_written : (s b : Bytes) → account_id_of_x hashes s ≡ ok b → (length b ≡ 20) × All IsByte b
  unfolding account_id_of_x
  x_written s b h =
      let (x, found, h1) = bind-ok (from_address (decode_x_address hashes s)) _ b h in
      let (_, _, h2) = bind-ok (guard (not x.has_tag) account_id_tag_not_allowed) _ b h1 in
      let q : x.account_id ≡ b = cc in
      rw (← q) (decode_x_address-IsByte hashes s x (from_address-ok _ x found))

  pub text_written :
      (s b : Bytes) → account_id_of_text hashes s ≡ ok b → (length b ≡ 20) × All IsByte b
  unfolding account_id_of_text
  text_written s b h = elim (Bool-cases (starts_with b'r' s)) [
    | inl r ↦ classic_written s b (rw r at h)
    | inr not_r ↦ elim (Bool-cases (starts_with b'X' s)) [
      | inl x ↦ x_written s b (rw (not_r, x) at h)
      | inr n ↦ cc (rw (not_r, n) at h)
    ]
  ]

  -- 20 bytes written as a classic address are read as that account ID.
  classic_back :
      (b : Bytes)
      → length b ≡ 20
      → All IsByte b
      → (s : Bytes) × (encode hashes b (account_address_prefix ∷ []) account_address_length
          ≡ done s)
        × (account_id_of_text hashes s ≡ ok b)
        × (encode_account_id_to_classic_address hashes b ≡ done s)
  unfolding encode account_id_of_text account_id_of_classic
  classic_back b size h =
      let (s, made, back, _) = decode_classic_address-encode_account_id hashes b size h in
      let (t, first) = base58_check_encode-first hashes b in
      let same : base58_check_encode hashes b (account_address_prefix ∷ []) ≡ s =
        let q : done (base58_check_encode hashes b (account_address_prefix ∷ [])) ≡ done s =
          sym (encode_account_id_text hashes b size) ∙ made in
        cc in
      let text : s ≡ b'r' ∷ t = sym same ∙ first in
      let back' : decode_classic_address_to_account_id hashes (b'r' ∷ t) ≡ done (0 ∷ [], b) =
        subst (λ x. decode_classic_address_to_account_id hashes x ≡ done (0 ∷ [], b)) text back in
      (b'r' ∷ t, rw (size, first), rw back', made ∙ ap done text)

  -- The bytes of an account ID, written from a classic address or from an X-address without a tag, are
  -- read back, whatever follows them, as the text that EncodeAccountIDToClassicAddress gives for them,
  -- and that text is written as the same bytes.
  pub account_id_to_json_classic :
      (v : Value) (b rest : Bytes)
      → account_id_from_json hashes v ≡ ok b
      → (s : Bytes) × (encode_account_id_to_classic_address hashes b ≡ done s)
        × (account_id_to_json hashes (some (length b)) (b ++ rest) ≡ (ok (string s), rest))
        × (account_id_from_json hashes (string s) ≡ ok b)
        × All IsByte b
  unfolding account_id_from_json account_id_to_json
  account_id_to_json_classic (string s) b rest h =
      let (size, bytes) = text_written s b h in
      let (t, made, back, classic) = classic_back b size bytes in
      (
        t,
        classic,
        subst (λ (n : ℕ). account_id_to_json hashes (some n) (b ++ rest) ≡ (ok (string t), rest))
            (sym size) (read_as-append 20 _ b rest size ∙ rw made),
        back,
        bytes,
      )
  account_id_to_json_classic null b rest h = cc
  account_id_to_json_classic other b rest h = cc
  account_id_to_json_classic (named_string s) b rest h = cc
  account_id_to_json_classic (integer t v) b rest h = cc
  account_id_to_json_classic (float64 v) b rest h = cc
  account_id_to_json_classic (strings s) b rest h = cc
  account_id_to_json_classic (array s) b rest h = cc
  account_id_to_json_classic (objects s) b rest h = cc
  account_id_to_json_classic (string_map s) b rest h = cc
  account_id_to_json_classic (object s) b rest h = cc

  pub account_id-ReadsBack :
      ReadsBack (account_id_from_json hashes) (λ n. account_id_to_json hashes (some n))
  account_id-ReadsBack v b rest h =
      let (s, _, read, back, bytes) = account_id_to_json_classic v b rest h in
      (string s, read, back, bytes)
