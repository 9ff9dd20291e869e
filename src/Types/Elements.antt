-- ===== src/Types/Elements.antt =====
-- An array of st_array.go, read back: its elements are objects of one member, which is an object.
use xrpl_go.Base.{
  ℕ, zero, suc, ◌≤◌, ◌≡◌, inl, inr, refl, sym, ap, ap₂, subst, ◌∙◌, String, List, [], ◌∷◌, ◌++◌,
  append_assoc, append-nil, Bytes, IsByte, All, All-append, Bool, true, false, some, length,
  length-append, if◌then◌else◌, arith,
}
use text.Mathlib.Text.{◌==◌}
use xrpl_go.Base.Results.{ok, bind-ok}
use xrpl_go.Definitions.{Definitions, FieldInstance}
use xrpl_go.Address.Hash.{Hashes}
use xrpl_go.Serdes.Parser.{has_more, read_field}
use xrpl_go.Serdes.FieldId.{encode_header}
use xrpl_go.Serdes.Field.{IsKnown, encode_known, end_marker, read_field-encode_header}
use xrpl_go.Serdes.Append.{IsPrefix, write_field_and_value-ok}
use xrpl_go.Serdes.Serializer.{write_field_and_value}
use xrpl_go.Types.Value.{
  Value, array, object, Values, no_values, value, Members, no_members, member, entries, members,
  values,
}
use xrpl_go.Types.Reader.{Reader, ◌>>=◌ as ◌>>>=◌, continue-ok, parsing, parsing-ok, return}
use xrpl_go.Types.Fields.{Types, read_value}
use xrpl_go.Types.StObject.{
  Field, Entry, get_sorted_keys, insert_sorted, write_fields, field_bytes,
  create_field_instance_map_from_json, object_bytes, object_from_json, array_bytes, array_from_json,
}
use xrpl_go.Types.StObject.ToJson.{
  unless_marker, element_body, array_rounds, array_to_json, object_to_json,
}
use xrpl_go.Types.StObject.Layout.{Layout, laid_out, skipped, end_of_fields, write_fields-Layout}
use xrpl_go.Types.StObject.ReadBack
use xrpl_go.Types.StObject.ReadBack.{
  Agreement, FieldReads, Readable, NamesDiffer, marked, object_to_json-write_fields,
}
use xrpl_go.Types.StObject.Rounds.{header_some, length-encode_header, part-IsByte}
use xrpl_go.Types.Registry.{object_type, array_type}
use xrpl_go.Types.Readable.{
  IsPlain, read_value_lem, HasEndMarker, object_bytes_of, encode_field_value_lem,
}

module _ (d : Definitions) (hashes : Hashes) (inner below : Types) (bound : ℕ) (R : Agreement) where
  -- An element: an object whose one member is a field that holds an object, with readable fields.
  pub record IsElement (v : Value) : Type 0 where
    pub name : String
    pub fi : FieldInstance
    pub m : Members
    pub fs : List Field
    pub is_object : v ≡ object (member name (object m) no_members)
    pub outer :
        create_field_instance_map_from_json d hashes ((name, object m) ∷ [])
        ≡ ok ((fi, object m) ∷ [])
    pub serialized : fi.info.is_serialized ≡ true
    pub known : IsKnown d fi
    pub no_marker : (fi.field_name == "ArrayEndMarker") ≡ false
    pub typed : fi.info.type ≡ "STObject"
    pub fixed : fi.info.is_vl_encoded ≡ false
    pub made : create_field_instance_map_from_json d hashes (entries m) ≡ ok fs
    pub differ : NamesDiffer fs
    pub readable : Readable d inner bound R fs
    pub same :
        object_bytes d below hashes [] (entries m) ≡ object_bytes d inner hashes [] (entries m)

  -- The element that is read holds, under the field's name, an object with the same fields in order,
  -- whose values agree.
  abbrev pub ElementAgrees : Value → Value → Type 0
  ElementAgrees v w =
      (name : String) × (fi : FieldInstance) × (m : Members) × (fs : List Field) × (es : List Entry)
      × (v ≡ object (member name (object m) no_members))
      × (create_field_instance_map_from_json d hashes ((name, object m) ∷ [])
          ≡ ok ((fi, object m) ∷ []))
      × (create_field_instance_map_from_json d hashes (entries m) ≡ ok fs)
      × (w ≡ object (member fi.field_name (object (members es)) no_members))
      × ReadBack.Members R (get_sorted_keys fs) es

  part_of :
      (f : Field) (b : Bytes)
      → (f.0).info.is_serialized ≡ true
      → Layout d inner [] (f ∷ []) b
      → (v part : Bytes) × (field_bytes inner [] f ≡ ok v)
        × (write_field_and_value d f.0 v [] ≡ (ok tt, part))
        × (part ≡ b)
  part_of f _ serialized (skipped g no_field l) = cc
  part_of f _ serialized (laid_out g v part s made written end_of_fields) =
      (v, part, made, written, sym (append-nil part))

  fixed_prefix :
      (fi : FieldInstance) (n : ℕ) (vl : Bytes)
      → fi.info.is_vl_encoded ≡ false
      → IsPrefix fi n vl
      → vl ≡ []
  fixed_prefix fi n vl fixed (inl (is_vl, e)) = cc
  fixed_prefix fi n vl fixed (inr (plain, e)) = e

  sorted_one : (f : Field) → get_sorted_keys (f ∷ []) ≡ f ∷ []
  unfolding get_sorted_keys insert_sorted
  sorted_one f = refl

  -- The bytes of an element: the identifier, the bytes of the object, and the end marker.
  element_bytes :
      (v : Value) (b : Bytes) (k : IsElement v)
      → inner "STObject" ≡ some (object_type d hashes bound below)
      → object_from_json d inner hashes [] v ≡ ok b
      → (x : Bytes) × (object_bytes d inner hashes [] (entries k.m) ≡ ok x)
        × (encode_header (k.fi).header ++ (x ++ (0xE1 ∷ [])) ≡ b)
  unfolding object_from_json field_bytes
  element_bytes v b k at_type h =
      let fi = k.fi in
      let f : Field = (fi, object k.m) in
      let outer_bytes : object_bytes d inner hashes [] ((k.name, object k.m) ∷ []) ≡ ok b =
        subst (λ x. object_from_json d inner hashes [] x ≡ ok b) k.is_object h in
      let fields =
        object_bytes_of d hashes inner R ((k.name, object k.m) ∷ []) (f ∷ []) b k.outer
          outer_bytes in
      let (y, l, e) =
        write_fields-Layout d inner [] (f ∷ []) [] b
          (subst (λ l. write_fields d inner [] l [] ≡ ok b) (sorted_one f) fields) in
      let (x, part, made, written, q) = part_of f y k.serialized l in
      let (header, vl, e1, p, q1) = write_field_and_value-ok d fi x [] part written in
      let encoded : object_bytes d below hashes [] (entries k.m) ≡ ok x =
        sym (
          encode_field_value_lem d inner fi (object_type d hashes bound below) (object k.m)
            (ap inner k.typed ∙ at_type))
        ∙ made in
      let no_length = fixed_prefix fi (length x) vl k.fixed p in
      let same_header : header ≡ encode_header fi.header =
        let r : ok header ≡ ok (encode_header fi.header) = sym e1 ∙ encode_known d fi k.known in
        cc in
      let ends : end_marker fi ≡ 0xE1 ∷ [] =
        ap (λ t. if t == "STObject" then 0xE1 ∷ [] else []) k.typed in
      (
        x,
        sym k.same ∙ encoded,
        ap₂ (λ a c. a ++ (x ++ c)) (sym same_header) (sym ends)
            ∙ ap (λ c. header ++ (c ++ (x ++ end_marker fi))) (sym no_length)
            ∙ q1
            ∙ q
            ∙ e,
      )

module _ (d : Definitions) (hashes : Hashes) (inner below : Types) (bound : ℕ) (R : Agreement) where
  -- The values that are read for the elements of an array, in their order.
  pub data ArrayAgrees : Values → List Value → Type 0 where
    no_element : ArrayAgrees no_values []
    next_element :
        (v w : Value) {vs : Values} {ws : List Value}
        → ElementAgrees d hashes inner below bound R v w
        → ArrayAgrees vs ws
        → ArrayAgrees (value v vs) (w ∷ ws)

  abbrev pub AreElements : Values → Type 0
  AreElements no_values = Unit
  AreElements (value v vs) = IsElement d hashes inner below bound R v × AreElements vs

  -- An array that was read agrees with one that was written element by element.
  abbrev pub ArraysAgree : Agreement
  ArraysAgree fi v w =
      (vs : Values) × (ws : List Value) × (v ≡ array vs)
      × (w ≡ array (values ws))
      × ArrayAgrees vs ws

module _ (d : Definitions) (inner : Types) (bound f : ℕ) (elements : List Value) where
  abbrev after_field : Bool → FieldInstance → Reader Value
  after_field t fi =
      unless_marker t (return (array (values elements)))
        (element_body d inner bound (array_rounds d inner bound f) elements fi)

  array_field :
      (fi : FieldInstance) (data_left next : Bytes)
      → has_more data_left ≡ true
      → read_field d data_left ≡ (ok fi, next)
      → array_rounds d inner bound (suc f) elements data_left
        ≡ after_field (fi.field_name == "ArrayEndMarker") fi next
  unfolding array_rounds
  array_field fi data_left next more found =
      rw (more, array_rounds)
        (continue-ok (parsing (read_field d))
          (λ fi'. after_field (fi'.field_name == "ArrayEndMarker") fi') data_left next fi
          (parsing-ok (read_field d) data_left next fi found))

  array_element :
      (fi : FieldInstance) (data_left next rest : Bytes) (res : Value)
      → has_more data_left ≡ true
      → read_field d data_left ≡ (ok fi, next)
      → (fi.field_name == "ArrayEndMarker") ≡ false
      → fi.info.type ≡ "STObject"
      → object_to_json d inner bound next ≡ (ok res, rest)
      → array_rounds d inner bound (suc f) elements data_left
        ≡ array_rounds d inner bound f
            (elements ++ (object (member fi.field_name res no_members) ∷ []))
            rest
  array_element fi data_left next rest res more found no_marker typed read =
      array_field fi data_left next more found
      ∙ ap (λ t. after_field t fi next) no_marker
      ∙ body (ap (λ t. t == "STObject") typed)
      ∙ continue-ok (object_to_json d inner bound)
          (λ res.
            array_rounds d inner bound f
              (elements ++ (object (member fi.field_name res no_members) ∷ [])))
          next rest res read
    where
      body :
          (fi.info.type == "STObject") ≡ true
          → element_body d inner bound (array_rounds d inner bound f) elements fi next
            ≡ (object_to_json d inner bound >>>= λ res.
                  array_rounds d inner bound f
                    (elements ++ (object (member fi.field_name res no_members) ∷ [])))
                next
      body h = rw (h, element_body) refl

-- The byte 0xF1 stands for a field that ends an array.
abbrev pub HasArrayMarker : Definitions → Type 0
HasArrayMarker d =
    (fi : FieldInstance) × ((fi.field_name == "ArrayEndMarker") ≡ true)
    × ((rest : Bytes) → read_field d (0xF1 ∷ rest) ≡ (ok fi, rest))

module _ (d : Definitions) (hashes : Hashes) (inner below : Types) (bound : ℕ) (R : Agreement)
    (at_type : inner "STObject" ≡ some (object_type d hashes bound below))
    (ends : HasEndMarker d) where
  -- An element that was written, read in a round.
  element_round :
      (v : Value) (b rest : Bytes)
      → IsElement d hashes inner below bound R v
      → object_from_json d inner hashes [] v ≡ ok b
      → length (b ++ rest) ≤ bound
      → (w : Value) × ElementAgrees d hashes inner below bound R v w
        × (1 ≤ length b)
        × All IsByte b
        × ((f : ℕ) (elements : List Value)
            → array_rounds d inner bound (suc f) elements (b ++ rest)
              ≡ array_rounds d inner bound f (elements ++ (w ∷ [])) rest)
  unfolding has_more
  element_round v b rest k made within =
      let (x, inside, shape) = element_bytes d hashes inner below bound R v b k at_type made in
      let (em, marker, ends_at) = ends in
      let fi = k.fi in
      let header : Bytes = encode_header fi.header in
      let flat : b ++ rest ≡ header ++ (x ++ (0xE1 ∷ rest)) =
        ap (λ y. y ++ rest) (sym shape) ∙ simp append_assoc in
      let fits : length (x ++ (0xE1 ∷ rest)) ≤ bound =
        omega (arith, within, ap length flat, length-append header (x ++ (0xE1 ∷ rest))) in
      let (es, ms, bytes, read) =
        object_to_json-write_fields d inner bound R k.fs x
          (object_bytes_of d hashes inner R (entries k.m) k.fs x k.made inside) k.readable k.differ
          bound (0xE1 ∷ rest) rest (marked em refl (ends_at rest) marker) fits fits in
      let all_bytes : All IsByte b =
        subst (All IsByte) (part_shape x fi k.typed ∙ shape)
          (part-IsByte d fi x [] k.known (inr (k.fixed, refl)) bytes) in
      (
        object (member fi.field_name (object (members es)) no_members),
        (k.name, fi, k.m, k.fs, es, k.is_object, k.outer, k.made, refl, ms),
        omega (
          arith,
          length-encode_header fi.header,
          length-append header (x ++ (0xE1 ∷ [])),
          ap length shape,
        ),
        all_bytes,
        λ f elements.
            ap (array_rounds d inner bound (suc f) elements) flat
            ∙ array_element d inner bound f elements fi _ (x ++ (0xE1 ∷ rest)) rest
                (object (members es)) (header_some fi.header _)
                (read_field-encode_header d fi _ k.known) k.no_marker k.typed read,
      )
    where
      part_shape :
          (x : Bytes) (fi : FieldInstance)
          → fi.info.type ≡ "STObject"
          → encode_header fi.header ++ ([] ++ (x ++ end_marker fi))
            ≡ encode_header fi.header ++ (x ++ (0xE1 ∷ []))
      part_shape x fi typed =
          ap (λ t. encode_header fi.header ++ (x ++ (if t == "STObject" then 0xE1 ∷ [] else [])))
            typed

  -- What reading the elements and the marker gives.
  abbrev ArrayRead : Values → Bytes → Bytes → ℕ → List Value → Type 0
  ArrayRead vs b rest f elements =
      (ws : List Value) × ArrayAgrees d hashes inner below bound R vs ws
      × All IsByte b
      × (array_rounds d inner bound f elements (b ++ (0xF1 ∷ rest))
          ≡ (ok (array (values (elements ++ ws))), rest))

  read_next :
      (v : Value) (vs : Values) (x y b rest : Bytes) (f : ℕ) (elements : List Value) (w : Value)
      → x ++ y ≡ b
      → ElementAgrees d hashes inner below bound R v w
      → All IsByte x
      → array_rounds d inner bound (suc f) elements (x ++ (y ++ (0xF1 ∷ rest)))
        ≡ array_rounds d inner bound f (elements ++ (w ∷ [])) (y ++ (0xF1 ∷ rest))
      → ArrayRead vs y rest f (elements ++ (w ∷ []))
      → ArrayRead (value v vs) b rest (suc f) elements
  read_next v vs x y b rest f elements w q agrees bytes step (ws, all_agree, more_bytes, run) = (
    w ∷ ws,
    next_element v w agrees all_agree,
    subst (All IsByte) q (All-append IsByte x y bytes more_bytes),
    ap (λ z. array_rounds d inner bound (suc f) elements (z ++ (0xF1 ∷ rest))) (sym q)
        ∙ ap (array_rounds d inner bound (suc f) elements) (append_assoc x y (0xF1 ∷ rest))
        ∙ step
        ∙ run
        ∙ ap (λ l. (ok (array (values l)), rest)) (append_assoc elements (w ∷ []) ws),
  )

  read_last :
      (b rest : Bytes) (f : ℕ) (elements : List Value)
      → HasArrayMarker d
      → Path Bytes [] b
      → ArrayRead no_values b rest (suc f) elements
  unfolding has_more
  read_last b rest f elements (fi, marker, ends_at) q = (
    [],
    no_element,
    subst (All IsByte) q tt,
    ap (λ z. array_rounds d inner bound (suc f) elements (z ++ (0xF1 ∷ rest))) (sym q)
        ∙ array_field d inner bound f elements fi (0xF1 ∷ rest) rest refl (ends_at rest)
        ∙ ap (λ t. after_field d inner bound f elements t fi rest) marker
        ∙ ap (λ l. (ok (array (values l)), rest)) (sym (append-nil elements)),
  )

  array_rounds-array_bytes :
      (array_ends : HasArrayMarker d) (vs : Values) (b rest : Bytes) (f : ℕ) (elements : List Value)
      → AreElements d hashes inner below bound R vs
      → array_bytes d inner hashes vs ≡ ok b
      → length (b ++ (0xF1 ∷ rest)) ≤ f
      → length (b ++ (0xF1 ∷ rest)) ≤ bound
      → ArrayRead vs b rest f elements
  unfolding array_bytes
  array_rounds-array_bytes array_ends vs b rest zero elements k made enough within =
      absurd (omega (arith, enough, length-append b (0xF1 ∷ rest)))
  array_rounds-array_bytes array_ends no_values b rest (suc f) elements k made enough within =
      read_last b rest f elements array_ends cc
  array_rounds-array_bytes array_ends (value v vs) b rest (suc f) elements (k, ks) made enough
        within =
      let (x, first, h1) = bind-ok (object_from_json d inner hashes [] v) _ b made in
      let (y, others, h2) = bind-ok (array_bytes d inner hashes vs) _ b h1 in
      let q : x ++ y ≡ b = cc in
      let flat : length (b ++ (0xF1 ∷ rest)) ≡ length (x ++ (y ++ (0xF1 ∷ rest))) =
        ap (λ z. length (z ++ (0xF1 ∷ rest))) (sym q)
        ∙ ap length (append_assoc x y (0xF1 ∷ rest)) in
      let sizes = length-append x (y ++ (0xF1 ∷ rest)) in
      let (w, agrees, size, bytes, step) =
        element_round v x (y ++ (0xF1 ∷ rest)) k first (omega (arith, within, flat)) in
      read_next v vs x y b rest f elements w q agrees bytes (step f elements) (
        array_rounds-array_bytes array_ends vs y rest f (elements ++ (w ∷ [])) ks others
          (omega (arith, enough, flat, sizes, size)) (omega (arith, within, flat, sizes)))

  -- An array in a field, whose elements hold objects with readable fields, is read back.
  pub array-FieldReads :
      (types : Types) (fi : FieldInstance) (vs : Values)
      → types fi.info.type ≡ some (array_type d hashes bound inner)
      → IsPlain d fi
      → end_marker fi ≡ []
      → HasArrayMarker d
      → AreElements d hashes inner below bound R vs
      → FieldReads d types bound (ArraysAgree d hashes inner below bound R) (fi, array vs)
  unfolding array_from_json array_to_json
  array-FieldReads types fi vs typed plain no_marker array_ends k v vl rest encoded p within =
      let st = array_type d hashes bound inner in
      let (b, made, h) =
        bind-ok (array_bytes d inner hashes vs) _ v
          (sym (encode_field_value_lem d types fi st (array vs) typed) ∙ encoded) in
      let q : b ++ (0xF1 ∷ []) ≡ v = cc in
      let flat : v ++ rest ≡ b ++ (0xF1 ∷ rest) =
        ap (λ z. z ++ rest) (sym q) ∙ append_assoc b (0xF1 ∷ []) rest in
      let fits : length (b ++ (0xF1 ∷ rest)) ≤ bound = omega (
        arith,
        length-append vl (v ++ rest),
        within,
        ap (λ x. length (vl ++ (v ++ (x ++ rest)))) no_marker,
        ap length flat,
      ) in
      let (ws, agree, bytes, run) =
        array_rounds-array_bytes array_ends vs b rest bound [] k made fits fits in
      (
        array (values ws),
        ap (λ x. read_value d types fi (vl ++ (v ++ (x ++ rest)))) no_marker
            ∙ read_value_lem d types fi st (array (values ws)) (array (values ws)) rest (length v)
                vl (v ++ rest) typed (plain (array (values ws))) p
                (ap (array_rounds d inner bound bound []) flat ∙ run),
        (vs, ws, refl, refl, agree),
        subst (All IsByte) q (All-append IsByte b _ bytes (omega arith, tt)),
      )
