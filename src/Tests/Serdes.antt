-- ===== src/Tests/Serdes.antt =====
-- Tests and examples of the theorems on binary-codec/serdes.
use xrpl_go.Base.{
  ℕ, ◌≡◌, ◌<◌, ◌↔◌, refl, [], ◌∷◌, ◌++◌, Bytes, length, length-replicate, replicate, arith,
}
use xrpl_go.Base.Int.{pos}
use xrpl_go.Base.Results.{ok}
use xrpl_go.Definitions.{
  FieldHeader, FieldInstance, load_definitions, get_field_name_by_field_header,
  get_field_instance_by_field_name, get_field_header_by_field_name,
}
use xrpl_go.Serdes.Parser.{read_field_header, read_variable_length}
use xrpl_go.Serdes.FieldId.{encode_header}
use xrpl_go.Serdes.Serializer.{encode_variable_length, write_field_and_value}
use xrpl_go.Serdes.Length.{ReadLength, read_variable_length_sound}
use xrpl_go.Serdes.Shape.{IsSerializable}
use xrpl_go.Serdes.Header.{read_field_header-encode_header, read_field_header_iff}
use xrpl_go.Serdes.Field.{IsKnown, end_marker, read_vl_field, read_vl_field-write_field_and_value}
use xrpl_go.Tests.Definitions.{sample_doc, tick, tick_header, key_info}

-- 193 bytes are the first length with two bytes of prefix.
two_bytes : encode_variable_length 193 ≡ ok (193 ∷ 0 ∷ [])
unfolding encode_variable_length
two_bytes = refl

longest : encode_variable_length 918744 ≡ ok (254 ∷ 212 ∷ 23 ∷ [])
unfolding encode_variable_length
longest = refl

reads_255 : read_variable_length (255 ∷ 5 ∷ []) ≡ (ok 255, 5 ∷ [])
unfolding read_variable_length
reads_255 = refl

reads_too_long : read_variable_length (254 ∷ 255 ∷ 255 ∷ []) ≡ (ok 929984, [])
unfolding read_variable_length
reads_too_long = refl

read_variable_length_sound_example : ReadLength 255 (255 ∷ 5 ∷ []) (5 ∷ [])
read_variable_length_sound_example =
    read_variable_length_sound (255 ∷ 5 ∷ []) (5 ∷ []) 255 (omega arith) reads_255

-- A header of three bytes, and one of one byte.
tick_id : encode_header tick_header ≡ 0 ∷ 16 ∷ 16 ∷ []
unfolding encode_header
tick_id = refl

read_field_header-encode_header_example :
    read_field_header (encode_header tick_header ++ (9 ∷ [])) ≡ (ok tick_header, 9 ∷ [])
read_field_header-encode_header_example =
    read_field_header-encode_header tick_header (9 ∷ []) (omega arith)

tick_named :
    get_field_name_by_field_header (load_definitions sample_doc) tick_header ≡ ok "TickSize"
unfolding load_definitions get_field_name_by_field_header
tick_named = refl

tick_has_header :
    get_field_header_by_field_name (load_definitions sample_doc) "TickSize" ≡ ok tick_header
unfolding load_definitions get_field_header_by_field_name
tick_has_header = refl

read_field_header_iff_example :
    (read_field_header (0 ∷ 16 ∷ 16 ∷ 9 ∷ []) ≡ (ok tick_header, 9 ∷ []))
    ↔ (IsSerializable tick_header × (0 ∷ 16 ∷ 16 ∷ 9 ∷ [] ≡ encode_header tick_header ++ (9 ∷ [])))
read_field_header_iff_example =
    read_field_header_iff (0 ∷ 16 ∷ 16 ∷ 9 ∷ []) (9 ∷ []) tick_header (omega arith)

abbrev key_header : FieldHeader
key_header = record { type_code = pos 7; field_code = pos 3 }

abbrev key : FieldInstance
key = record {
  field_name = "SigningPubKey";
  info = key_info;
  header = key_header;
  ordinal = pos 458755;
}

tick-IsKnown : IsKnown (load_definitions sample_doc) tick
unfolding load_definitions get_field_instance_by_field_name get_field_name_by_field_header
tick-IsKnown = record { serializable = omega arith; by_name = refl; by_header = refl }

key-IsKnown : IsKnown (load_definitions sample_doc) key
unfolding load_definitions get_field_instance_by_field_name get_field_name_by_field_header
key-IsKnown = record { serializable = omega arith; by_name = refl; by_header = refl }

read_vl_field-write_field_and_value_example :
    (written : Bytes) × (write_field_and_value
        (load_definitions sample_doc)
        key
        (2 ∷ 237 ∷ [])
        (1 ∷ [])
      ≡ (ok tt, 1 ∷ written))
    × (read_vl_field (load_definitions sample_doc) (written ++ (9 ∷ []))
        ≡ (ok (key, 2 ∷ 237 ∷ []), end_marker key ++ (9 ∷ [])))
read_vl_field-write_field_and_value_example =
    read_vl_field-write_field_and_value (load_definitions sample_doc) key (2 ∷ 237 ∷ []) (1 ∷ [])
      (9 ∷ []) key-IsKnown refl (omega arith)

-- A value that no prefix can tell the length of.
unfoldable long_value : Bytes
long_value = replicate 918745 0

longer : (n : ℕ) → 918744 < n → 918744 < length {A = ℕ} (replicate n 0)
longer n h = omega (arith, h, length-replicate {A = ℕ} n 0)

length-long_value : 918744 < length long_value
unfolding long_value
length-long_value = longer 918745 (omega arith)
