-- ===== src/Types/StObject.antt =====
-- st_object.go and st_array.go of binary-codec/types: a JSON object as bytes, its fields in the order
-- of their ordinals, and back.
use xrpl_go.Base.{
  ℕ, zero, suc, ◌≡◌, String, List, [], ◌∷◌, ◌++◌, Bytes, Bool, true, false, not, if◌then◌else◌,
  Option, none, some,
}
use text.Mathlib.Text.{◌==◌ as str_eq}
use xrpl_go.Base.Int.{ℤ, pos, ltb_ℤ}
use xrpl_go.Base.Assoc.{string_eq, lookup, insert}
use xrpl_go.Base.Results.{Result, ok, err, ◌>>=◌, ◌>>◌, guard}
use xrpl_go.Definitions.{Definitions, FieldInstance, get_field_instance_by_field_name}
use xrpl_go.Serdes.Errors.{SerdesError}
use xrpl_go.Serdes.Parser.{has_more, read_field}
use xrpl_go.Serdes.Serializer.{new_binary_serializer, write_field_and_value, get_sink}
use xrpl_go.Address.Hash.{Hashes}
use xrpl_go.Address.XAddress.{is_valid_x_address, x_address_to_classic_address}
use xrpl_go.Types.Errors.{
  CodecError, not_valid_json, account_id_tag_not_allowed, duplicate_x_address_tag,
  not_st_object_in_st_array, out_of_fuel, of_serdes, from_definitions, from_address,
}
use xrpl_go.Types.Value.{
  Value, string, integer, uint32, array, objects, object, Values, no_values, value, Objects,
  no_objects, one_object, Members, entries, members, values,
}
use xrpl_go.Types.Reader.{Reader, fail, return, parsing}
use xrpl_go.Types.Law.{SerializedType}
use xrpl_go.Types.Fields.{Types, parse_special_fields, encode_field_value, read_value}
pub mod ToJson
pub mod Order
pub mod Unordered
pub mod Layout
pub mod Rounds
pub mod ReadBack

-- A field with its value. A `map[FieldInstance]any` is a list of these: its keys differ, since the
-- instances have different names.
abbrev pub Field : Type 0
Field = FieldInstance × Value

abbrev pub Entry : Type 0
Entry = String × Value

-- The `switch` that finds the name of the tag of an address field.
unfoldable pub tag_field_name : String → Result CodecError String
tag_field_name k =
    if str_eq k "Destination"
    then ok "DestinationTag"
    else if str_eq k "Account"
    then ok "SourceTag"
    else err account_id_tag_not_allowed

-- `if existing, exists := processedJSON[tagFieldName]; exists { .. }`
abbrev pub absent : Option Value → Bool
absent none = true
absent (some v) = false

-- What is done with the tag of an X-address.
unfoldable pub promote_tag : String → Bool → ℕ → List Entry → Result CodecError (List Entry)
unfolding tag_field_name lookup insert
promote_tag k false tag processed = ok processed
promote_tag k true tag processed = do
  name ← tag_field_name k
  guard (absent (lookup name processed)) duplicate_x_address_tag
  ok (insert name (integer uint32 (pos tag)) processed)

module _ (hashes : Hashes) where
  -- One round of the loop over X-addresses, on a string.
  unfoldable pub process_string : String → Bytes → List Entry → Result CodecError (List Entry)
  unfolding promote_tag insert
  process_string k s processed = do
    valid ← from_address (is_valid_x_address hashes s)
    elim valid [
      | false ↦ ok processed
      | true ↦ (do
        (classic, x) ← from_address (x_address_to_classic_address hashes s)
        promote_tag k x.has_tag x.tag (insert k (string classic) processed))
    ]

  -- `for k, v := range json`, which changes the copy `processedJSON`.
  unfoldable pub process_x_addresses : List Entry → List Entry → Result CodecError (List Entry)
  unfolding process_string
  process_x_addresses [] processed = ok processed
  process_x_addresses ((k, string s) ∷ m) processed = do
    processed ← process_string k s processed
    process_x_addresses m processed
  process_x_addresses ((k, _) ∷ m) processed = process_x_addresses m processed

module _ (d : Definitions) where
  -- `for k, v := range processedJSON`
  unfoldable pub field_instances : List Entry → Result CodecError (List Field)
  unfolding parse_special_fields
  field_instances [] = ok []
  field_instances ((k, v) ∷ m) = do
    fi ← from_definitions (get_field_instance_by_field_name d k)
    v ← parse_special_fields d k v
    rest ← field_instances m
    ok ((fi, v) ∷ rest)

-- `createFieldInstanceMapFromJson`
unfoldable pub create_field_instance_map_from_json :
    Definitions → Hashes → List Entry → Result CodecError (List Field)
unfolding process_x_addresses field_instances
create_field_instance_map_from_json d hashes json = do
  processed ← process_x_addresses hashes json json
  field_instances d processed

-- A field goes behind those of smaller ordinals, and in front of those of its own.
unfoldable pub insert_sorted : Field → List Field → List Field
insert_sorted f [] = f ∷ []
insert_sorted f (g ∷ gs) =
    let rest = insert_sorted f gs in
    if ltb_ℤ (g.0).ordinal (f.0).ordinal then g ∷ rest else f ∷ g ∷ gs

-- `getSortedKeys`, with the values: `sort.SliceStable` on the ordinals.
unfoldable pub get_sorted_keys : List Field → List Field
unfolding insert_sorted
get_sorted_keys [] = []
get_sorted_keys (f ∷ fs) = insert_sorted f (get_sorted_keys fs)

-- The error of `WriteFieldAndValue`, or the sink that it leaves.
abbrev pub written : Result SerdesError (Unit {0}) × Bytes → Result CodecError Bytes
written (ok u, sink) = ok sink
written (err e, sink) = err (of_serdes e)

-- `RawFieldValueOverrides`
abbrev pub Overrides : Type 0
Overrides = List (String × Bytes)

module _ (types : Types) where
  abbrev pub or_encode : Option Bytes → FieldInstance → Value → Result CodecError Bytes
  or_encode none fi v = encode_field_value types fi v
  or_encode (some b) fi v = ok b

  -- The value of a field as bytes: those of an override, where there is one.
  unfoldable pub field_bytes : Overrides → Field → Result CodecError Bytes
  unfolding lookup encode_field_value
  field_bytes overrides f = or_encode (lookup (f.0).field_name overrides) f.0 f.1

module _ (d : Definitions) (types : Types) where
  -- `for _, v := range sk`
  unfoldable pub write_fields : Overrides → List Field → Bytes → Result CodecError Bytes
  unfolding field_bytes
  write_fields overrides [] sink = ok sink
  write_fields overrides (f ∷ fs) sink = elim (f.0).info.is_serialized [
    | false ↦ write_fields overrides fs sink
    | true ↦ (do
      b ← field_bytes types overrides f
      sink ← written (write_field_and_value d f.0 b sink)
      write_fields overrides fs sink)
  ]

  module _ (hashes : Hashes) where
    -- `fromJSON` of a `map[string]any`.
    unfoldable pub object_bytes : Overrides → List Entry → Result CodecError Bytes
    unfolding create_field_instance_map_from_json get_sorted_keys write_fields get_sink
    object_bytes overrides json = do
      fimap ← create_field_instance_map_from_json d hashes json
      sink ← write_fields overrides (get_sorted_keys fimap) new_binary_serializer
      ok (get_sink sink)

    -- `STObject.FromJSONWithRawFieldValueOverrides`
    unfoldable pub object_from_json : Overrides → Value → Result CodecError Bytes
    unfolding object_bytes
    object_from_json overrides (object m) = object_bytes overrides (entries m)
    object_from_json overrides _ = err not_valid_json

    -- The elements of a `[]any` and of a `[]map[string]any`, one behind the other.
    unfoldable pub array_bytes : Values → Result CodecError Bytes
    unfolding object_from_json
    array_bytes no_values = ok []
    array_bytes (value v vs) = do b ← object_from_json [] v; rest ← array_bytes vs; ok (b ++ rest)

    unfoldable pub objects_bytes : Objects → Result CodecError Bytes
    unfolding object_bytes
    objects_bytes no_objects = ok []
    objects_bytes (one_object m ms) = do
      b ← object_bytes [] (entries m)
      rest ← objects_bytes ms
      ok (b ++ rest)

    -- `STArray.FromJSON`
    unfoldable pub array_from_json : Value → Result CodecError Bytes
    unfolding array_bytes objects_bytes
    array_from_json (array vs) = do sink ← array_bytes vs; ok (sink ++ (0xF1 ∷ []))
    array_from_json (objects ms) = do sink ← objects_bytes ms; ok (sink ++ (0xF1 ∷ []))
    array_from_json _ = err not_st_object_in_st_array
