-- ===== src/Types/Argument.antt =====
-- Fields of amounts of XRP and of multi-purpose tokens, read back.
use xrpl_go.Base.{
  ℕ, ◌≡◌, refl, inl, inr, sym, ap, ◌∙◌, Bytes, String, Bool, Bool-cases, true, false, if◌then◌else◌,
  some,
}
use text.Mathlib.Text.{◌==◌}
use xrpl_go.Base.Results.{ok}
use xrpl_go.Definitions.{Definitions, FieldInstance}
use xrpl_go.Address.Hash.{Hashes}
use xrpl_go.Types.Value.{Value, string, object, Members, entries}
use xrpl_go.Types.Law.{SerializedType, ValueReadsBack}
use xrpl_go.Types.Fields.{encoder}
use xrpl_go.Types.StObject.{Field}
use xrpl_go.Types.StObject.ReadBack.{FieldReads}
use xrpl_go.Types.Registry.{leaf_type, get_serialized_type}
use xrpl_go.Types.Readable.{options, IsPlain, SameBytes, value-FieldReads}
use xrpl_go.Types.Scalar.{type_at_depth, no_end_marker}
use xrpl_go.Types.Amount.{
  TokenCodec, native_delta, amount_from_json, amount_from_json_for_field, amount_type,
}
use xrpl_go.Types.Amount.Token.{token_of, amount_to_json-token_of}
use xrpl_go.Base.Assoc.{string_eq, lookup}
use xrpl_go.Types.Amount.Xrp.{amount_to_json-native}

-- A value that is an amount of XRP or of a multi-purpose token: a text, or an object with an issuance
-- ID.
pub data IsAmountOf (v : Value) : Type 0 where
  native : (s : Bytes) → v ≡ string s → IsAmountOf v
  token :
      (m : Members) (raw_id : Value)
      → v ≡ object m
      → lookup "mpt_issuance_id" (entries m) ≡ some raw_id
      → IsAmountOf v

-- A field of amounts that holds one of them.
pub record IsAmountField (d : Definitions) (f : Field) : Type 0 where
  pub typed : (f.0).info.type ≡ "Amount"
  pub plain : IsPlain d f.0
  pub amount : IsAmountOf f.1

module _ (tokens : TokenCodec) where
  object_encoded :
      (name : String) (m : Members) (b : Bytes)
      → amount_from_json_for_field tokens name (object m) ≡ ok b
      → amount_from_json tokens (object m) ≡ ok b
  unfolding amount_from_json_for_field
  object_encoded name m b h = elim (Bool-cases (name == "FeeAmountDelta")) [
    | inl delta ↦ cc (h, encoded_as true delta)
    | inr other_field ↦ sym (encoded_as false other_field) ∙ h
  ]
    where
      encoded_as :
          (t : Bool)
          → (name == "FeeAmountDelta") ≡ t
          → amount_from_json_for_field tokens name (object m)
            ≡ (if t then native_delta tokens (object m) else amount_from_json tokens (object m))
      encoded_as t e = rw e refl

  same_encoding :
      (name : String) (m n : Members) (b c : Bytes)
      → amount_from_json_for_field tokens name (object m) ≡ ok b
      → amount_from_json tokens (object n) ≡ ok c
      → amount_from_json_for_field tokens name (object n) ≡ ok c
  unfolding amount_from_json_for_field
  same_encoding name m n b c h e = elim (Bool-cases (name == "FeeAmountDelta")) [
    | inl delta ↦ cc (rw delta at h)
    | inr other_field ↦ rw other_field e
  ]

  amount-ValueReadsBack :
      (fi : FieldInstance) (v : Value)
      → IsAmountOf v
      → ValueReadsBack
          (encoder (amount_type tokens) fi.field_name)
          (λ n. (amount_type tokens).to_json (options fi n))
          v
  amount-ValueReadsBack fi v (native s e) b rest made =
      let (drops, _, _, read, back, bytes) =
        amount_to_json-native tokens fi.field_name s b rest
          (ap (encoder (amount_type tokens) fi.field_name) (sym e) ∙ made) in
      (string _, read, back, bytes)
  amount-ValueReadsBack fi v (token m raw_id e has_id) b rest made =
      let h = ap (encoder (amount_type tokens) fi.field_name) (sym e) ∙ made in
      let (s, x, n, id, _, _, _, read, back, bytes) =
        amount_to_json-token_of tokens m raw_id b rest has_id
          (object_encoded fi.field_name m b h) in
      (
        object (token_of n id),
        read,
        same_encoding fi.field_name m (token_of n id) b b h back,
        bytes,
      )

pub amount-FieldReads :
    (d : Definitions) (hashes : Hashes) (tokens : TokenCodec) (path_set : SerializedType)
    (rounds depth bound : ℕ) (f : Field)
    → IsAmountField d f
    → FieldReads d
        (get_serialized_type d hashes (amount_type tokens) path_set rounds depth)
        bound
        (SameBytes (get_serialized_type d hashes (amount_type tokens) path_set rounds depth))
        f
unfolding leaf_type
amount-FieldReads d hashes tokens path_set rounds depth bound f k =
    let types = get_serialized_type d hashes (amount_type tokens) path_set rounds depth in
    let no_object : ((f.0).info.type == "STObject") ≡ false = ap (λ t. t == "STObject") k.typed in
    let no_array : ((f.0).info.type == "STArray") ≡ false = ap (λ t. t == "STArray") k.typed in
    value-FieldReads d types bound f.0 f.1 (amount_type tokens)
      (type_at_depth d hashes (amount_type tokens) path_set rounds depth (f.0).info.type no_object
          no_array
        ∙ ap (leaf_type d hashes (amount_type tokens) path_set) k.typed)
      k.plain (no_end_marker f.0 no_object) (amount-ValueReadsBack tokens f.0 f.1 k.amount)
