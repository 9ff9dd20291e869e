-- ===== src/Tests/Definitions.antt =====
-- Tests and examples of the theorems on binary-codec/definitions.
use xrpl_go.Base.{◌≡◌, ◌≢◌, refl, String, true, false, [], ◌∷◌}
use xrpl_go.Base.Int.{pos}
use xrpl_go.Base.Assoc.{string_eq, KeysDiffer}
use xrpl_go.Base.Results.{ok}
use xrpl_go.Definitions.{
  FieldHeader, FieldInfo, FieldInstance, Definitions, DefinitionsDoc, load_definitions,
  get_field_header_by_field_name, get_field_name_by_field_header, get_field_instance_by_field_name,
}
use xrpl_go.Definitions.Names.{HeadersDiffer, get_field_name_by_field_header-loaded}

abbrev pub sequence_info : FieldInfo
sequence_info = record {
  nth = pos 4;
  is_vl_encoded = false;
  is_serialized = true;
  is_signing_field = true;
  type = "UInt32";
}

abbrev pub key_info : FieldInfo
key_info = record {
  nth = pos 3;
  is_vl_encoded = true;
  is_serialized = true;
  is_signing_field = true;
  type = "Blob";
}

abbrev pub tick_info : FieldInfo
tick_info = record {
  nth = pos 16;
  is_vl_encoded = false;
  is_serialized = true;
  is_signing_field = true;
  type = "UInt8";
}

-- Three rows of definitions.json, with their types.
abbrev pub sample_doc : DefinitionsDoc
sample_doc = record {
  types = ("UInt32", pos 2) ∷ ("Blob", pos 7) ∷ ("UInt8", pos 16) ∷ [];
  ledger_entry_types = ("AccountRoot", pos 97) ∷ [];
  fields = ("Sequence", sequence_info) ∷ ("SigningPubKey", key_info) ∷ ("TickSize", tick_info) ∷ [];
  transaction_results = ("tesSUCCESS", pos 0) ∷ [];
  transaction_types = ("Payment", pos 0) ∷ ("TrustSet", pos 20) ∷ [];
}

-- The definitions that loading gives, written out.
abbrev pub sample : Definitions
unfolding load_definitions
sample = load_definitions sample_doc

abbrev pub tick_header : FieldHeader
tick_header = record { type_code = pos 16; field_code = pos 16 }

abbrev pub tick : FieldInstance
tick = record {
  field_name = "TickSize";
  info = tick_info;
  header = tick_header;
  ordinal = pos 1048592;
}

tick_found : get_field_instance_by_field_name (load_definitions sample_doc) "TickSize" ≡ ok tick
unfolding load_definitions get_field_instance_by_field_name
tick_found = refl

apart : (a b : String) → string_eq.beq a b ≡ false → a ≢ b
apart a b h e = cc (h, (string_eq.beq_iff a b).1 e)

differ : HeadersDiffer (load_definitions sample_doc).fields
unfolding load_definitions
differ = ((cc, (cc, tt)), ((cc, tt), (tt, tt)))

get_field_name_by_field_header-loaded_example :
    get_field_name_by_field_header (load_definitions sample_doc) tick_header ≡ ok "TickSize"
unfolding load_definitions get_field_header_by_field_name
get_field_name_by_field_header-loaded_example =
    get_field_name_by_field_header-loaded sample_doc "TickSize" tick_header differ refl

fields_differ : KeysDiffer sample_doc.fields
fields_differ = (
  (apart "SigningPubKey" "Sequence" refl, (apart "TickSize" "Sequence" refl, tt)),
  ((apart "TickSize" "SigningPubKey" refl, tt), (tt, tt)),
)
