-- ===== src/Types/Readable.antt =====
-- Which fields an object reads back: those of the types that hold no object, and objects in objects.
use xrpl_go.Base.{
  ℕ, ◌≤◌, ◌≡◌, refl, sym, ap, ap₂, subst, ◌∙◌, inl, inr, List, [], ◌∷◌, ◌++◌, Bytes, Bool, true,
  false, Option, some, length, length-append, arith,
}
use xrpl_go.Base.Results.{ok, bind-ok}
use xrpl_go.Definitions.{Definitions, FieldInstance}
use xrpl_go.Serdes.Parser.{read_field, read_variable_length, has_more}
use xrpl_go.Serdes.Length.{read_variable_length-encode_variable_length}
use xrpl_go.Serdes.Field.{end_marker}
use xrpl_go.Serdes.Append.{IsPrefix}
use xrpl_go.Address.Hash.{Hashes}
use xrpl_go.Types.Value.{Value, object, Members, entries, members}
use xrpl_go.Types.Reader.{parsing, parsing-ok, continue-ok, of_result}
use xrpl_go.Types.Law.{SerializedType, ReadsBack, ValueReadsBack}
use xrpl_go.Types.Fields.{
  Types, encoder, encode_with, encode_field_value, base_option, read_sized, read_known, read_value,
  enum_to_str,
}
use xrpl_go.Types.StObject.{
  Field, Entry, get_sorted_keys, write_fields, create_field_instance_map_from_json, object_bytes,
  object_from_json,
}
use xrpl_go.Types.StObject.ToJson.{is_end_marker}
use xrpl_go.Types.StObject.ReadBack
use xrpl_go.Types.Registry.{object_type}
use xrpl_go.Serdes.Serializer.{get_sink}
use xrpl_go.Types.StObject.ReadBack.{
  Agreement, FieldReads, IsReadable, Readable, NamesDiffer, Closes, marked,
  object_to_json-write_fields,
}

-- The argument that the reader of a field gets, for a value of n bytes.
abbrev pub sized_option : Bool → FieldInstance → ℕ → Option ℕ
sized_option true fi n = some n
sized_option false fi n = base_option fi

abbrev pub options : FieldInstance → ℕ → Option ℕ
options fi n = sized_option fi.info.is_vl_encoded fi n

-- The value of a field that is read is its JSON: the field stands for no name.
abbrev pub IsPlain : Definitions → FieldInstance → Type 0
IsPlain d fi = (v : Value) → enum_to_str d fi.field_name v ≡ ok v

module _ (fi : FieldInstance) (st : SerializedType) (w : Value) (rest : Bytes) where
  read_sized_lem :
      (n : ℕ) (vl data_left : Bytes)
      → IsPrefix fi n vl
      → st.to_json (options fi n) data_left ≡ (ok w, rest)
      → read_sized fi.info.is_vl_encoded st fi (vl ++ data_left) ≡ (ok w, rest)
  read_sized_lem n vl data_left (inl (is_vl, e)) h =
      ap (λ t. read_sized t st fi (vl ++ data_left)) is_vl
      ∙ continue-ok (parsing read_variable_length) (λ vlen. st.to_json (some vlen))
          (vl ++ data_left) data_left n
          (parsing-ok read_variable_length (vl ++ data_left) data_left n
            (read_variable_length-encode_variable_length n vl data_left e))
      ∙ sym (ap (λ t. st.to_json (sized_option t fi n) data_left) is_vl)
      ∙ h
  read_sized_lem n vl data_left (inr (plain, e)) h =
      ap₂ (λ t x. read_sized t st fi (x ++ data_left)) plain e
      ∙ sym (ap (λ t. st.to_json (sized_option t fi n) data_left) plain)
      ∙ h

module _ (d : Definitions) (types : Types) (fi : FieldInstance) (st : SerializedType) where
  pub read_value_lem :
      (w named : Value) (rest : Bytes) (n : ℕ) (vl data_left : Bytes)
      → types fi.info.type ≡ some st
      → enum_to_str d fi.field_name w ≡ ok named
      → IsPrefix fi n vl
      → st.to_json (options fi n) data_left ≡ (ok w, rest)
      → read_value d types fi (vl ++ data_left) ≡ (ok named, rest)
  unfolding read_value
  read_value_lem w named rest n vl data_left typed enum p h =
      continue-ok (read_known (types fi.info.type) fi)
        (λ res. of_result (enum_to_str d fi.field_name res)) (vl ++ data_left) rest w
        (ap (λ t. read_known t fi (vl ++ data_left)) typed
          ∙ read_sized_lem fi st w rest n vl data_left p h)
      ∙ ap (λ r. (r, rest)) enum

  pub encode_field_value_lem :
      (v : Value)
      → types fi.info.type ≡ some st
      → encode_field_value types fi v ≡ encoder st fi.field_name v
  unfolding encode_field_value
  encode_field_value_lem v typed = ap (λ t. encode_with t fi v) typed

-- Two values with the same bytes in a field.
abbrev pub SameBytes : Types → Agreement
SameBytes types fi v w =
    (b : Bytes) × (encode_field_value types fi v ≡ ok b) × (encode_field_value types fi w ≡ ok b)

-- A value of a field that is read back from what is written is read as a value with the same bytes.
pub value-FieldReads :
    (d : Definitions) (types : Types) (bound : ℕ) (fi : FieldInstance) (v : Value)
    (st : SerializedType)
    → types fi.info.type ≡ some st
    → IsPlain d fi
    → end_marker fi ≡ []
    → ValueReadsBack (encoder st fi.field_name) (λ n. st.to_json (options fi n)) v
    → FieldReads d types bound (SameBytes types) (fi, v)
value-FieldReads d types bound fi v st typed plain no_marker law b vl rest made p within =
    let encoded = encode_field_value_lem d types fi st in
    let (w, read, back, bytes) = law b rest (sym (encoded v typed) ∙ made) in
    (
      w,
      ap (λ m. read_value d types fi (vl ++ (b ++ (m ++ rest)))) no_marker
          ∙ read_value_lem d types fi st w w rest (length b) vl (b ++ rest) typed (plain w) p read,
      (b, made, encoded w typed ∙ back),
      bytes,
    )

-- A field of a type that reads back what it writes is read as a value with the same bytes.
pub leaf-FieldReads :
    (d : Definitions) (types : Types) (bound : ℕ) (fi : FieldInstance) (v : Value)
    (st : SerializedType)
    → types fi.info.type ≡ some st
    → IsPlain d fi
    → end_marker fi ≡ []
    → ReadsBack (encoder st fi.field_name) (λ n. st.to_json (options fi n))
    → FieldReads d types bound (SameBytes types) (fi, v)
leaf-FieldReads d types bound fi v st typed plain no_marker law =
    value-FieldReads d types bound fi v st typed plain no_marker (law v)

-- The byte 0xE1 stands for a field that ends an object.
abbrev pub HasEndMarker : Definitions → Type 0
HasEndMarker d =
    (fi : FieldInstance) × (is_end_marker fi ≡ true)
    × ((rest : Bytes) → read_field d (0xE1 ∷ rest) ≡ (ok fi, rest))

module _ (d : Definitions) (hashes : Hashes) (inner : Types) (R : Agreement) where
  -- An object that was read agrees with one that was written: it has the same serialized fields, in
  -- the order of their ordinals, with values that agree.
  abbrev pub ObjectsAgree : Agreement
  ObjectsAgree fi v w =
      (m : Members) × (fs : List Field) × (es : List Entry) × (v ≡ object m)
      × (create_field_instance_map_from_json d hashes (entries m) ≡ ok fs)
      × (w ≡ object (members es))
      × ReadBack.Members R (get_sorted_keys fs) es

  pub object_bytes_of :
      (m : List Entry) (fs : List Field) (b : Bytes)
      → create_field_instance_map_from_json d hashes m ≡ ok fs
      → object_bytes d inner hashes [] m ≡ ok b
      → write_fields d inner [] (get_sorted_keys fs) [] ≡ ok b
  unfolding object_bytes get_sink
  object_bytes_of m fs b made h =
      let (gs, made', h1) = bind-ok (create_field_instance_map_from_json d hashes m) _ b h in
      let same : gs ≡ fs = let r : ok gs ≡ ok fs = sym made' ∙ made in cc in
      let (sink, w, h2) = bind-ok (write_fields d inner [] (get_sorted_keys gs) []) _ b h1 in
      let q : sink ≡ b = cc in
      subst (λ x. write_fields d inner [] (get_sorted_keys x) [] ≡ ok b) same (w ∙ ap ok q)

  -- An object in a field, whose own fields are read back, is read back.
  pub object-FieldReads :
      (types : Types) (bound : ℕ) (fi : FieldInstance) (m : Members) (fs : List Field)
      → types fi.info.type ≡ some (object_type d hashes bound inner)
      → IsPlain d fi
      → end_marker fi ≡ 0xE1 ∷ []
      → HasEndMarker d
      → create_field_instance_map_from_json d hashes (entries m) ≡ ok fs
      → Readable d inner bound R fs
      → NamesDiffer fs
      → FieldReads d types bound ObjectsAgree (fi, object m)
  unfolding object_from_json has_more
  object-FieldReads types bound fi m fs typed plain closing (em, marker, ends) made k differ b vl
        rest encoded p within =
      let st = object_type d hashes bound inner in
      let bytes =
        object_bytes_of (entries m) fs b made
          (sym (encode_field_value_lem d types fi st (object m) typed) ∙ encoded) in
      let fits : length (b ++ (0xE1 ∷ rest)) ≤ bound = omega (
        arith,
        length-append vl (b ++ (end_marker fi ++ rest)),
        within,
        ap (λ x. length (b ++ (x ++ rest))) closing,
      ) in
      let (es, ms, each_byte, read) =
        object_to_json-write_fields d inner bound R fs b bytes k differ bound (0xE1 ∷ rest) rest
          (marked em refl (ends rest) marker) fits fits in
      (
        object (members es),
        ap (λ x. read_value d types fi (vl ++ (b ++ (x ++ rest)))) closing
            ∙ read_value_lem d types fi st (object (members es)) (object (members es)) rest
                (length b) vl (b ++ (0xE1 ∷ rest)) typed (plain (object (members es))) p read,
        (m, fs, es, refl, made, refl, ms),
        each_byte,
      )
