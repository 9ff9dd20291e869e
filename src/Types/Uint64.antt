-- ===== src/Types/Uint64.antt =====
-- uint64.go of binary-codec/types in a field: which fields hold decimal texts, and how they are read.
use xrpl_go.Base.{
  ℕ, ◌^◌, ◌<◌, ◌≡◌, ◌⊎◌, inl, inr, refl, sym, ap, ◌∙◌, [], ◌++◌, Bytes, String, true, false, some,
  Bool-cases, arith, length,
}
use text.Mathlib.TextEquality.{eq_iff}
use xrpl_go.Base.Words.{put_be}
use xrpl_go.Base.Results.{ok}
use xrpl_go.Hexutil.{encode_to_upper_hex}
use xrpl_go.Number.Text.{decimal}
use xrpl_go.Definitions.{Definitions, FieldInstance}
use xrpl_go.Types.Value.{Value, string}
use xrpl_go.Types.Integers.{
  decimal_fields, one_of, radix_of, uint64_json_base_for_field, uint64_to_json,
}
use xrpl_go.Types.Integers.Texts.{uint64_text, uint64_to_json-uint64_from_json}
use xrpl_go.Types.Fields.{Types, encode_field_value, read_value}
use xrpl_go.Types.Registry.{uint64_type}
use xrpl_go.Types.Readable.{sized_option, IsPlain, read_value_lem, encode_field_value_lem}
use xrpl_go.Types.Scalar.{radix_of-base_number, base_option-UInt64}

-- The fields of amounts of multi-purpose tokens.
abbrev pub IsTokenAmount : String → Type 0
IsTokenAmount name =
    (name ≡ "MaximumAmount")
    ⊎ ((name ≡ "OutstandingAmount")
        ⊎ ((name ≡ "MPTAmount")
            ⊎ ((name ≡ "LockedAmount") ⊎ (name ≡ "ConfidentialOutstandingAmount"))))

-- The text of a number in a field of this name.
pub data IsTextIn (name : String) (k : ℕ) (s : Bytes) : Type 0 where
  in_decimal : IsTokenAmount name → s ≡ decimal k → IsTextIn name k s
  in_hex : ¬ IsTokenAmount name → s ≡ encode_to_upper_hex (put_be 8 k) → IsTextIn name k s

one_of-IsTokenAmount : (name : String) → one_of name decimal_fields ≡ true → IsTokenAmount name
unfolding one_of
one_of-IsTokenAmount name h = ground (
  arith,
  eq_iff name "MaximumAmount",
  eq_iff name "OutstandingAmount",
  eq_iff name "MPTAmount",
  eq_iff name "LockedAmount",
  eq_iff name "ConfidentialOutstandingAmount",
)

IsTokenAmount-one_of : (name : String) → IsTokenAmount name → one_of name decimal_fields ≡ true
unfolding one_of
IsTokenAmount-one_of name (inl e) = rw e refl
IsTokenAmount-one_of name (inr (inl e)) = rw e refl
IsTokenAmount-one_of name (inr (inr (inl e))) = rw e refl
IsTokenAmount-one_of name (inr (inr (inr (inl e)))) = rw e refl
IsTokenAmount-one_of name (inr (inr (inr (inr e)))) = rw e refl

base_for_field-IsTextIn :
    (name : String) (k : ℕ) → IsTextIn name k (uint64_text (uint64_json_base_for_field name) k)
unfolding uint64_json_base_for_field
base_for_field-IsTextIn name k = elim (Bool-cases (one_of name decimal_fields)) [
  | inl decimal_field ↦ rw decimal_field (in_decimal (one_of-IsTokenAmount name decimal_field) refl)
  | inr other_field ↦
      rw other_field (in_hex (λ h. cc (other_field, IsTokenAmount-one_of name h)) refl)
]

module _ (d : Definitions) (types : Types) (fi : FieldInstance) where
  -- What is written in a UInt64 field is eight bytes of a number below 2 ^ 64. They are read, whatever
  -- follows them, as the number's decimal text in the five fields of amounts of multi-purpose tokens,
  -- and as its hexadecimal text of sixteen digits in every other field, and that text is written as
  -- the same bytes. The field is of fixed length, its type is the UInt64, and it stands for no name.
  pub read_value_uint64 :
      (v : Value) (b rest : Bytes)
      → types fi.info.type ≡ some uint64_type
      → fi.info.type ≡ "UInt64"
      → fi.info.is_vl_encoded ≡ false
      → IsPlain d fi
      → encode_field_value types fi v ≡ ok b
      → (k : ℕ) × (s : Bytes) × (k < 2 ^ 64)
        × (put_be 8 k ≡ b)
        × IsTextIn fi.field_name k s
        × (read_value d types fi (b ++ rest) ≡ (ok (string s), rest))
        × (encode_field_value types fi (string s) ≡ ok b)
  read_value_uint64 v b rest typed e fixed plain made =
      let radix = uint64_json_base_for_field fi.field_name in
      let encoded = encode_field_value_lem d types fi uint64_type in
      let (k, small, q, read, back) =
        uint64_to_json-uint64_from_json radix v b rest (sym (encoded v typed) ∙ made) in
      let s = uint64_text radix k in
      (
        k,
        s,
        small,
        q,
        base_for_field-IsTextIn fi.field_name k,
        read_value_lem d types fi uint64_type (string s) (string s) rest (length b) [] (b ++ rest)
            typed (plain (string s)) (inr (fixed, refl))
            (ap (λ t. uint64_to_json (radix_of (sized_option t fi (length b))) (b ++ rest)) fixed
              ∙ ap (λ o. uint64_to_json (radix_of o) (b ++ rest)) (base_option-UInt64 fi e)
              ∙ ap (λ r. uint64_to_json r (b ++ rest)) (radix_of-base_number radix)
              ∙ read),
        encoded (string s) typed ∙ back,
      )
