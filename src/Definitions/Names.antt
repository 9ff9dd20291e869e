-- ===== src/Definitions/Names.antt =====
-- What the lookups by name and by header of binary-codec/definitions promise after loading.
use xrpl_go.Base.{
  ◌≡◌, ◌≢◌, inl, inr, refl, ◌∙◌, List, [], ◌∷◌, String, some, Bool-cases, Option-cases,
}
use xrpl_go.Base.Int.{ℤ}
use xrpl_go.Base.Assoc.{
  string_eq, lookup, insert, lookup-insert_self, lookup-insert_ne, lookup-cons_cases,
}
use xrpl_go.Base.Results.{ok}
use xrpl_go.Definitions.{
  FieldHeader, FieldInfo, FieldInstance, Definitions, DefinitionsDoc, header_eq, load_definitions,
  convert_to_field_instance_map, add_field_headers_and_ordinals, with_header,
  create_field_id_name_map, get_field_header_by_field_name, get_field_instance_by_field_name,
  get_field_name_by_field_header,
}

abbrev pub Fields : Type 0
Fields = List (String × FieldInstance)

-- No field of the list has this header.
abbrev pub HeaderAbsent : FieldHeader → Fields → Type 0
HeaderAbsent h [] = Unit
HeaderAbsent h ((k, fi) ∷ m) = (fi.header ≢ h) × HeaderAbsent h m

-- Any two fields have different headers.
abbrev pub HeadersDiffer : Fields → Type 0
HeadersDiffer [] = Unit
HeadersDiffer ((k, fi) ∷ m) = HeaderAbsent fi.header m × HeadersDiffer m

lookup-create_field_id_name_map_absent :
    (m : Fields) (names : List (FieldHeader × String)) (h : FieldHeader)
    → HeaderAbsent h m
    → lookup h (create_field_id_name_map m names) ≡ lookup h names
unfolding create_field_id_name_map
lookup-create_field_id_name_map_absent [] names h a = refl
lookup-create_field_id_name_map_absent ((k, fi) ∷ m) names h (ne, a) =
    lookup-create_field_id_name_map_absent m (insert fi.header k names) h a
    ∙ lookup-insert_ne fi.header h k names ne

lookup-create_field_id_name_map :
    (m : Fields) (names : List (FieldHeader × String)) (n : String) (fi : FieldInstance)
    → HeadersDiffer m
    → lookup n m ≡ some fi
    → lookup fi.header (create_field_id_name_map m names) ≡ some n
unfolding lookup create_field_id_name_map
lookup-create_field_id_name_map [] names n fi d e = cc
lookup-create_field_id_name_map ((k, g) ∷ m) names n fi (a, d) e =
    elim (lookup-cons_cases n k g fi m e) [
      | inl (same, eq) ↦
          rw (← eq, ← same)
            (lookup-create_field_id_name_map_absent m (insert g.header k names) g.header a
              ∙ lookup-insert_self g.header k names)
      | inr (other, later) ↦
          lookup-create_field_id_name_map m (insert g.header k names) n fi d later
    ]

-- What a lookup of a field finds when its header is found.
header_found :
    (d : Definitions) (n : String) (h : FieldHeader)
    → get_field_header_by_field_name d n ≡ ok h
    → (fi : FieldInstance) × (lookup n d.fields ≡ some fi) × (fi.header ≡ h)
unfolding get_field_header_by_field_name
header_found d n h e = elim (Option-cases (lookup n d.fields)) [
  | inl absent ↦ cc (absent, e)
  | inr (fi, found) ↦ (fi, found, let q : ok fi.header ≡ ok h = rw found at e in cc)
]

indexed_by_map :
    (d : Definitions) (n : String) (h : FieldHeader)
    → HeadersDiffer d.fields
    → d.field_id_name_map ≡ create_field_id_name_map d.fields []
    → get_field_header_by_field_name d n ≡ ok h
    → get_field_name_by_field_header d h ≡ ok n
unfolding get_field_name_by_field_header
indexed_by_map d n h differ built e =
    let (fi, found, eq) = header_found d n h e in
    let name : lookup fi.header d.field_id_name_map ≡ some n =
      rw built (lookup-create_field_id_name_map d.fields [] n fi differ found) in
    rw (← eq, name)

-- Every entry of the map is stored under the name that its instance carries.
abbrev Named : Fields → Type 0
Named [] = Unit
Named ((k, fi) ∷ m) = (fi.field_name ≡ k) × Named m

insert-Named :
    (k : String) (fi : FieldInstance) (m : Fields)
    → fi.field_name ≡ k
    → Named m
    → Named (insert k fi m)
unfolding insert
insert-Named k fi [] e h = (e, tt)
insert-Named k fi ((j, w) ∷ m) e (hw, hm) = elim (Bool-cases (string_eq.beq j k)) [
  | inl same ↦ rw same (e, hm)
  | inr other ↦ rw other (hw, insert-Named k fi m e hm)
]

convert-Named :
    (rows : List (String × FieldInfo)) (nm : Fields)
    → Named nm
    → Named (convert_to_field_instance_map rows nm)
unfolding convert_to_field_instance_map
convert-Named [] nm h = h
convert-Named ((k, fi) ∷ rows) nm h = convert-Named rows _ (insert-Named k _ nm refl h)

with_headers-Named :
    (types : List (String × ℤ)) (m : Fields)
    → Named m
    → Named (add_field_headers_and_ordinals types m)
unfolding add_field_headers_and_ordinals with_header
with_headers-Named types [] h = tt
with_headers-Named types ((k, fi) ∷ m) (hk, hm) = (hk, with_headers-Named types m hm)

lookup-Named :
    (n : String) (fi : FieldInstance) (m : Fields)
    → Named m
    → lookup n m ≡ some fi
    → fi.field_name ≡ n
lookup-Named n fi [] h e = unfold lookup in cc
lookup-Named n fi ((k, g) ∷ m) (hk, hm) e = elim (lookup-cons_cases n k g fi m e) [
  | inl (same, eq) ↦ rw (← eq, hk) same
  | inr (other, later) ↦ lookup-Named n fi m hm later
]

instance_found :
    (d : Definitions) (n : String) (fi : FieldInstance)
    → get_field_instance_by_field_name d n ≡ ok fi
    → lookup n d.fields ≡ some fi
unfolding get_field_instance_by_field_name
instance_found d n fi e = elim (Option-cases (lookup n d.fields)) [
  | inl absent ↦ cc (absent, e)
  | inr (g, found) ↦ let q : ok g ≡ ok fi = rw found at e in rw found (cc)
]

load-Named : (doc : DefinitionsDoc) → Named (load_definitions doc).fields
unfolding load_definitions
load-Named doc = with_headers-Named doc.types _ (convert-Named doc.fields [] tt)

load_indexed :
    (doc : DefinitionsDoc)
    → (load_definitions doc).field_id_name_map
      ≡ create_field_id_name_map (load_definitions doc).fields []
unfolding load_definitions
load_indexed doc = refl

-- In loaded definitions in which any two fields have different headers, the name that a field's
-- header stands for is the field's name.
pub get_field_name_by_field_header-loaded :
    (doc : DefinitionsDoc) (n : String) (h : FieldHeader)
    → HeadersDiffer (load_definitions doc).fields
    → get_field_header_by_field_name (load_definitions doc) n ≡ ok h
    → get_field_name_by_field_header (load_definitions doc) h ≡ ok n
get_field_name_by_field_header-loaded doc n h differ e =
    indexed_by_map (load_definitions doc) n h differ (load_indexed doc) e

-- In loaded definitions the instance that is found under a name carries that name.
pub field_name-loaded :
    (doc : DefinitionsDoc) (n : String) (fi : FieldInstance)
    → get_field_instance_by_field_name (load_definitions doc) n ≡ ok fi
    → fi.field_name ≡ n
field_name-loaded doc n fi e =
    lookup-Named n fi _ (load-Named doc) (instance_found (load_definitions doc) n fi e)
