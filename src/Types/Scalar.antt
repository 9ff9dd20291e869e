-- ===== src/Types/Scalar.antt =====
-- The types of `GetSerializedType` that hold one value, each against the length that its fields have.
use xrpl_go.Base.{
  ◌≡◌, refl, ap, ◌∙◌, String, Bool, true, false, none, some, [], ◌∷◌, ℕ, zero, suc, ◌++◌, length,
  if◌then◌else◌,
}
use text.Mathlib.Text.{◌==◌}
use xrpl_go.Definitions.{Definitions, FieldInstance}
use xrpl_go.Serdes.Field.{end_marker}
use xrpl_go.Address.Hash.{Hashes}
use xrpl_go.Types.Value.{Value}
use xrpl_go.Types.Law.{SerializedType, ReadsBack}
use xrpl_go.Types.Fields.{encoder, base_option, base_number}
use xrpl_go.Types.Integers.{
  Radix, base_decimal, base_hex, radix_of, uint64_json_base_for_field, uint64_to_json,
  uint8_from_json, uint8_to_json, uint16_from_json, uint16_to_json, uint32_from_json,
  uint32_to_json, int32_from_json, int32_to_json,
}
use xrpl_go.Types.Integers.RoundTrip.{
  uint8-ReadsBack, uint16-ReadsBack, uint32-ReadsBack, int32-ReadsBack,
}
use xrpl_go.Types.Integers.Texts.{uint64-ReadsBack}
use xrpl_go.Types.Hash.{
  hash_from_json, hash_to_json, account_id_from_json, account_id_to_json, blob_from_json,
  blob_to_json, vector256_from_json, vector256_to_json,
}
use xrpl_go.Types.Hash.RoundTrip.{hash-ReadsBack, blob-ReadsBack, vector256-ReadsBack}
use xrpl_go.Types.Hash.Accounts.{account_id-ReadsBack}
use xrpl_go.Types.Registry.{plain_type, uint64_type, leaf_type, get_serialized_type}
use xrpl_go.Types.Readable.{sized_option, options, IsPlain, SameBytes, leaf-FieldReads}
use xrpl_go.Types.StObject.ReadBack.{FieldReads}

-- A type of one value, and whether its fields are of variable length in definitions.json.
pub data IsScalarType : String → Bool → Type 0 where
  uint8 : IsScalarType "UInt8" false
  uint16 : IsScalarType "UInt16" false
  uint32 : IsScalarType "UInt32" false
  int32 : IsScalarType "Int32" false
  uint64 : IsScalarType "UInt64" false
  hash128 : IsScalarType "Hash128" false
  hash160 : IsScalarType "Hash160" false
  hash192 : IsScalarType "Hash192" false
  hash256 : IsScalarType "Hash256" false
  account_id : IsScalarType "AccountID" true
  vector256 : IsScalarType "Vector256" true
  blob : IsScalarType "Blob" true

abbrev pub IsScalarField : FieldInstance → Type 0
IsScalarField fi = IsScalarType fi.info.type fi.info.is_vl_encoded

-- The law of a type at the arguments that its fields get.
abbrev Law : FieldInstance → SerializedType → Type 0
Law fi st = ReadsBack (encoder st fi.field_name) (λ n. st.to_json (options fi n))

pub radix_of-base_number : (r : Radix) → radix_of (some (base_number r)) ≡ r
radix_of-base_number base_decimal = refl
radix_of-base_number base_hex = refl

pub base_option-UInt64 :
    (fi : FieldInstance)
    → fi.info.type ≡ "UInt64"
    → base_option fi ≡ some (base_number (uint64_json_base_for_field fi.field_name))
unfolding base_option
base_option-UInt64 fi e =
    ap
      (λ t.
        if t == "UInt64"
        then some (base_number (uint64_json_base_for_field fi.field_name))
        else none)
      e

module _ (fi : FieldInstance) where
  -- The length is the argument of a field of variable length.
  sized_law :
      (st : SerializedType)
      → fi.info.is_vl_encoded ≡ true
      → ReadsBack (encoder st fi.field_name) (λ n. st.to_json (some n))
      → Law fi st
  sized_law st is_vl law v b rest h =
      let (w, read, back, bytes) = law v b rest h in
      (w, ap (λ t. st.to_json (sized_option t fi (length b)) (b ++ rest)) is_vl ∙ read, back, bytes)

  uint64_law : fi.info.type ≡ "UInt64" → fi.info.is_vl_encoded ≡ false → Law fi uint64_type
  uint64_law e plain v b rest h =
      let radix = uint64_json_base_for_field fi.field_name in
      let (w, read, back, bytes) = uint64-ReadsBack radix v b rest h in
      (
        w,
        ap (λ t. uint64_to_json (radix_of (sized_option t fi (length b))) (b ++ rest)) plain
            ∙ ap (λ o. uint64_to_json (radix_of o) (b ++ rest)) (base_option-UInt64 fi e)
            ∙ ap (λ r. uint64_to_json r (b ++ rest)) (radix_of-base_number radix)
            ∙ read,
        back,
        bytes,
      )

module _ (d : Definitions) (hashes : Hashes) (amount path_set : SerializedType) where
  scalar_law :
      {t : String} {vl : Bool} (fi : FieldInstance)
      → IsScalarType t vl
      → fi.info.type ≡ t
      → fi.info.is_vl_encoded ≡ vl
      → (st : SerializedType) × (leaf_type d hashes amount path_set t ≡ some st) × Law fi st
  unfolding leaf_type
  scalar_law fi uint8 e k =
      (plain_type (uint8_from_json d) (λ opts. uint8_to_json), refl, uint8-ReadsBack d)
  scalar_law fi uint16 e k =
      (plain_type (uint16_from_json d) (λ opts. uint16_to_json), refl, uint16-ReadsBack d)
  scalar_law fi uint32 e k =
      (plain_type uint32_from_json (λ opts. uint32_to_json), refl, uint32-ReadsBack)
  scalar_law fi int32 e k =
      (plain_type int32_from_json (λ opts. int32_to_json), refl, int32-ReadsBack)
  scalar_law fi uint64 e k = (uint64_type, refl, uint64_law fi e k)
  scalar_law fi hash128 e k =
      (plain_type (hash_from_json 16) (λ opts. hash_to_json 16), refl, hash-ReadsBack 16)
  scalar_law fi hash160 e k =
      (plain_type (hash_from_json 20) (λ opts. hash_to_json 20), refl, hash-ReadsBack 20)
  scalar_law fi hash192 e k =
      (plain_type (hash_from_json 24) (λ opts. hash_to_json 24), refl, hash-ReadsBack 24)
  scalar_law fi hash256 e k =
      (plain_type (hash_from_json 32) (λ opts. hash_to_json 32), refl, hash-ReadsBack 32)
  scalar_law fi account_id e k =
      let st = plain_type (account_id_from_json hashes) (account_id_to_json hashes) in
      (st, refl, sized_law fi st k (account_id-ReadsBack hashes))
  scalar_law fi vector256 e k =
      let st = plain_type vector256_from_json vector256_to_json in
      (st, refl, sized_law fi st k vector256-ReadsBack)
  scalar_law fi blob e k =
      let st = plain_type blob_from_json blob_to_json in
      (st, refl, sized_law fi st k blob-ReadsBack)

-- A type of one value is no type of objects.
no_object :
    {t : String} {vl : Bool}
    → IsScalarType t vl
    → ((t == "STObject") ≡ false) × ((t == "STArray") ≡ false)
no_object uint8 = (refl, refl)
no_object uint16 = (refl, refl)
no_object uint32 = (refl, refl)
no_object int32 = (refl, refl)
no_object uint64 = (refl, refl)
no_object hash128 = (refl, refl)
no_object hash160 = (refl, refl)
no_object hash192 = (refl, refl)
no_object hash256 = (refl, refl)
no_object account_id = (refl, refl)
no_object vector256 = (refl, refl)
no_object blob = (refl, refl)

pub no_end_marker : (fi : FieldInstance) → (fi.info.type == "STObject") ≡ false → end_marker fi ≡ []
no_end_marker fi e = ap (λ t. if t then 0xE1 ∷ [] else []) e

module _ (d : Definitions) (hashes : Hashes) (amount path_set : SerializedType) where
  pub type_at_depth :
      (rounds depth : ℕ) (t : String)
      → (t == "STObject") ≡ false
      → (t == "STArray") ≡ false
      → get_serialized_type d hashes amount path_set rounds depth t
        ≡ leaf_type d hashes amount path_set t
  unfolding get_serialized_type
  type_at_depth rounds zero t a b = rw (a, b)
  type_at_depth rounds (suc depth) t a b = rw (a, b)

  -- Every field of a type of one value, with the length that the definitions give it, whose value is
  -- no name, is read back as a value with the same bytes: integers, hashes, account IDs, vectors and
  -- blobs, at any depth of objects.
  pub scalar-FieldReads :
      (rounds depth bound : ℕ) (fi : FieldInstance) (v : Value)
      → IsScalarField fi
      → IsPlain d fi
      → FieldReads d
          (get_serialized_type d hashes amount path_set rounds depth)
          bound
          (SameBytes (get_serialized_type d hashes amount path_set rounds depth))
          (fi, v)
  scalar-FieldReads rounds depth bound fi v scalar plain =
      let (st, found, law) = scalar_law d hashes amount path_set fi scalar refl refl in
      let (a, b) = no_object scalar in
      leaf-FieldReads d (get_serialized_type d hashes amount path_set rounds depth) bound fi v st
        (type_at_depth rounds depth fi.info.type a b ∙ found) plain (no_end_marker fi a) law
