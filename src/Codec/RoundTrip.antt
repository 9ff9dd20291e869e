-- ===== src/Codec/RoundTrip.antt =====
-- `Decode` of binary-codec/codec.go on what `Encode` writes.
use xrpl_go.Base.{
  ℕ, ◌*◌, ◌≤◌, ◌≡◌, sym, ap, ◌∙◌, List, [], ◌∷◌, Bytes, IsByte, All, none, length, arith,
  append-nil, ◌++◌,
}
use xrpl_go.Base.Results.{Result, ok, err, bind-ok}
use xrpl_go.Hexutil.{encode_to_upper_hex, decode_string-encode_to_upper_hex}
use xrpl_go.Definitions.{Definitions}
use xrpl_go.Address.Hash.{Hashes}
use xrpl_go.Types.Errors.{CodecError}
use xrpl_go.Types.Value.{object, members}
use xrpl_go.Types.Law.{SerializedType}
use xrpl_go.Types.StObject.{
  Field, Entry, get_sorted_keys, create_field_instance_map_from_json, object_bytes,
}
use xrpl_go.Types.StObject.ToJson.{object_to_json}
use xrpl_go.Types.StObject.ReadBack
use xrpl_go.Types.StObject.ReadBack.{NamesDiffer, at_end, object_to_json-write_fields}
use xrpl_go.Types.Readable.{HasEndMarker, object_bytes_of}
use xrpl_go.Types.Named.{HasTypeNames}
use xrpl_go.Types.Amount.{TokenCodec, amount_type}
use xrpl_go.Types.Decodable.{Agrees, AllDecodable, decodable-Readable}
use xrpl_go.Codec.{
  lift, known_fields, transaction_raw_field_value_overrides, normalized, types_for, encode_bytes,
  encode, decode,
}

lift-ok : (r : Result CodecError Bytes) (b : Bytes) → lift r ≡ ok b → r ≡ ok b
lift-ok (ok x) b h = cc
lift-ok (err e) b h = cc

length-encode_to_upper_hex : (b : Bytes) → length (encode_to_upper_hex b) ≡ 2 * length b
unfolding encode_to_upper_hex
length-encode_to_upper_hex [] = omega arith
length-encode_to_upper_hex (c ∷ b) = omega (arith, length-encode_to_upper_hex b)

module _ (d : Definitions) (hashes : Hashes) (amount path_set : SerializedType) (fuel : ℕ) where
  -- The bytes of a transaction without overrides are those of its known members.
  plain_bytes :
      (json : List Entry) (b : Bytes)
      → transaction_raw_field_value_overrides (known_fields d json) ≡ ok none
      → encode_bytes d hashes amount path_set fuel json ≡ ok b
      → object_bytes d (types_for d hashes amount path_set fuel) hashes [] (known_fields d json)
        ≡ ok b
  unfolding encode_bytes normalized
  plain_bytes json b plain h = lift-ok _ b (rw plain at h)

  decode_hex :
      (b : Bytes)
      → All IsByte b
      → decode d hashes amount path_set fuel (encode_to_upper_hex b)
        ≡ (object_to_json d (types_for d hashes amount path_set fuel) fuel b).0
  unfolding decode
  decode_hex b h = rw (decode_string-encode_to_upper_hex b h)

module _ (d : Definitions) (hashes : Hashes) (tokens : TokenCodec) (path_set : SerializedType)
    (fuel : ℕ) where
  -- A transaction that is no UNLModify, and whose known fields are its type, fields of one value,
  -- amounts of XRP and of multi-purpose tokens, objects of such fields, and arrays of such objects,
  -- decodes from its text: to its serialized fields in the order of their ordinals, each with a
  -- value that has the same bytes, or with an object whose fields agree in the same way, or with an
  -- array of such objects. The fuel is at least the number of bytes, and the definitions have an end
  -- marker and transaction types of different names. The codecs of issued
  -- amounts and of path sets, which no such field has, may be any.
  pub decode_transaction-encode :
      (json : List Entry) (fs : List Field) (text : Bytes)
      → HasEndMarker d
      → HasTypeNames d
      → transaction_raw_field_value_overrides (known_fields d json) ≡ ok none
      → create_field_instance_map_from_json d hashes (known_fields d json) ≡ ok fs
      → NamesDiffer fs
      → AllDecodable d hashes tokens path_set fuel fuel fs
      → encode d hashes (amount_type tokens) path_set fuel json ≡ ok text
      → length text ≤ 2 * fuel
      → (es : List Entry) × ReadBack.Members
          (Agrees d hashes tokens path_set fuel fuel)
          (get_sorted_keys fs)
          es
        × (decode d hashes (amount_type tokens) path_set fuel text ≡ ok (object (members es)))
  unfolding encode
  decode_transaction-encode json fs text ends names plain made differ decodable encoded within =
      let (b, written, e) =
        bind-ok (encode_bytes d hashes (amount_type tokens) path_set fuel json) _ text encoded in
      let q : encode_to_upper_hex b ≡ text = cc in
      let fits : length (b ++ []) ≤ fuel =
        omega
          (arith, length-encode_to_upper_hex b, ap length q, within, ap length (append-nil b)) in
      let types = types_for d hashes (amount_type tokens) path_set fuel in
      let (es, ms, bytes, read) =
        object_to_json-write_fields d types fuel (Agrees d hashes tokens path_set fuel fuel) fs b
          (object_bytes_of d hashes types (Agrees d hashes tokens path_set fuel fuel)
            (known_fields d json) fs b made
            (plain_bytes d hashes (amount_type tokens) path_set fuel json b plain written))
          (decodable-Readable d hashes tokens path_set fuel fuel fs ends names decodable) differ
          fuel [] [] at_end fits fits in
      (
        es,
        ms,
        ap (decode d hashes (amount_type tokens) path_set fuel) (sym q)
            ∙ decode_hex d hashes (amount_type tokens) path_set fuel b bytes
            ∙ ap (λ x. (object_to_json d types fuel x).0) (sym (append-nil b))
            ∙ ap (λ r. r.0) read,
      )
