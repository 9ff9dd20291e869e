-- ===== src/Types/Decodable.antt =====
-- Objects in objects, read back: fields of one value, the type of the transaction, amounts of XRP and of multi-purpose
-- tokens, and objects whose fields are such fields in turn, as deep as the types go.
use xrpl_go.Base.{
  ℕ, ◌≤◌, zero, suc, ◌<◌, arith, String, ◌≡◌, ◌⊎◌, refl, sym, ap, subst, ◌∙◌, inl, inr, All, List,
  [], ◌∷◌, true, false, some, if◌then◌else◌,
}
use text.Mathlib.Text.{◌==◌}
use xrpl_go.Base.Results.{ok}
use xrpl_go.Definitions.{Definitions, FieldInstance}
use xrpl_go.Address.Hash.{Hashes}
use xrpl_go.Serdes.Field.{IsKnown, end_marker}
use xrpl_go.Types.Value.{
  Value, object, array, Values, no_values, value, Members, no_members, member, entries,
  depth_members,
}
use xrpl_go.Types.Elements.{IsElement, AreElements, ArraysAgree, HasArrayMarker, array-FieldReads}
use xrpl_go.Types.Depth.Shallow.{entries-IsShallow}
use xrpl_go.Types.Depth.{object_bytes_same, get_serialized_type-enough}
use xrpl_go.Types.Law.{SerializedType}
use xrpl_go.Types.Fields.{Types}
use xrpl_go.Types.StObject.{Field, create_field_instance_map_from_json}
use xrpl_go.Types.StObject.ToJson.{is_end_marker}
use xrpl_go.Types.StObject.ReadBack.{Agreement, FieldReads, Readable, NamesDiffer}
use xrpl_go.Types.Integers.{uint16_from_json, uint16_to_json}
use xrpl_go.Types.Named.{IsTypeField, HasTypeNames, type-FieldReads}
use xrpl_go.Types.Registry.{plain_type, leaf_type, object_type, array_type, get_serialized_type}
use xrpl_go.Types.Readable.{IsPlain, SameBytes, HasEndMarker, ObjectsAgree, object-FieldReads}
use xrpl_go.Types.Argument.{IsAmountField, amount-FieldReads}
use xrpl_go.Types.Amount.{TokenCodec, amount_type}
use xrpl_go.Types.Scalar.{IsScalarField, scalar-FieldReads}

-- A field that the parser finds, and that ends no object.
pub record IsListed (d : Definitions) (fi : FieldInstance) : Type 0 where
  pub known : IsKnown d fi
  pub no_marker : is_end_marker fi ≡ false

module _ (d : Definitions) (hashes : Hashes) (good : List Field → Type 0) (depth : ℕ) where
  -- An element of an array: an object with one member, an object of good fields.
  abbrev IsGoodElement : Value → Type 0
  IsGoodElement v =
      (name : String) × (fi : FieldInstance) × (m : Members) × (fs : List Field) × (v
        ≡ object (member name (object m) no_members))
      × (create_field_instance_map_from_json d hashes ((name, object m) ∷ [])
          ≡ ok ((fi, object m) ∷ []))
      × (fi.info.is_serialized ≡ true)
      × IsListed d fi
      × ((fi.field_name == "ArrayEndMarker") ≡ false)
      × (fi.info.type ≡ "STObject")
      × (fi.info.is_vl_encoded ≡ false)
      × (create_field_instance_map_from_json d hashes (entries m) ≡ ok fs)
      × NamesDiffer fs
      × (depth_members m < depth)
      × good fs

  abbrev AreGoodElements : Values → Type 0
  AreGoodElements no_values = Unit
  AreGoodElements (value v vs) = IsGoodElement v × AreGoodElements vs

module _ (d : Definitions) (hashes : Hashes) (tokens : TokenCodec) (path_set : SerializedType)
    (rounds : ℕ) where
  abbrev pub level : ℕ → Types
  level depth = get_serialized_type d hashes (amount_type tokens) path_set rounds depth

  abbrev pub level_below : ℕ → Types
  level_below zero = level zero
  level_below (suc n) = level n

  -- A value that was read agrees with one that was written: they have the same bytes, or both are
  -- objects with the same fields in order, whose values agree, or arrays of such objects.
  abbrev pub Agrees : ℕ → Agreement
  Agrees zero = SameBytes (level zero)
  Agrees (suc n) = λ fi v w.
      SameBytes (level (suc n)) fi v w
      ⊎ (ObjectsAgree d hashes (level n) (Agrees n) fi v w
          ⊎ ArraysAgree d hashes (level n) (level_below n) rounds (Agrees n) fi v w)

  -- A field of one value, which stands for no name, or for the type of the transaction; or an amount
  -- of XRP or of a multi-purpose token.
  abbrev pub IsSingle : Field → Type 0
  IsSingle f = (IsScalarField f.0 × IsPlain d f.0) ⊎ (IsTypeField d f ⊎ IsAmountField d f)

  -- The fields that are read back: those of one value, and objects of such fields, at most n in one
  -- another, and arrays of them.
  abbrev pub IsDecodable : ℕ → Field → Type 0
  IsDecodable zero f = IsSingle f
  IsDecodable (suc n) f =
      IsSingle f
      ⊎ (IsPlain d f.0
          × (((m : Members) × (fs : List Field) × (f.1 ≡ object m)
                × ((f.0).info.type ≡ "STObject")
                × (create_field_instance_map_from_json d hashes (entries m) ≡ ok fs)
                × NamesDiffer fs
                × All (λ g. (g.0).info.is_serialized ≡ true → IsListed d g.0 × IsDecodable n g) fs)
              ⊎ ((1 ≤ n)
                  × (vs : Values) × (f.1 ≡ array vs)
                  × ((f.0).info.type ≡ "STArray")
                  × HasArrayMarker d
                  × AreGoodElements d hashes
                      (λ fs.
                        All
                          (λ g. (g.0).info.is_serialized ≡ true → IsListed d g.0 × IsDecodable n g)
                          fs)
                      n vs)))

  abbrev pub AllDecodable : ℕ → List Field → Type 0
  AllDecodable n fs =
      All (λ g. (g.0).info.is_serialized ≡ true → IsListed d g.0 × IsDecodable n g) fs

  agrees_more :
      (types : Types) (R S : Agreement) (f : Field)
      → ((w : Value) → R f.0 f.1 w → S f.0 f.1 w)
      → FieldReads d types rounds R f
      → FieldReads d types rounds S f
  agrees_more types R S f more reads v vl rest made p within =
      let (w, read, agrees, bytes) = reads v vl rest made p within in
      (w, read, more w agrees, bytes)

  object_at_depth :
      (n : ℕ) → level (suc n) "STObject" ≡ some (object_type d hashes rounds (level n))
  unfolding get_serialized_type
  object_at_depth n = refl

  object_marker : (fi : FieldInstance) → fi.info.type ≡ "STObject" → end_marker fi ≡ 0xE1 ∷ []
  object_marker fi e = ap (λ t. if t == "STObject" then 0xE1 ∷ [] else []) e

  AllDecodable-Readable :
      (n : ℕ) (fs : List Field)
      → ((f : Field) → IsDecodable n f → FieldReads d (level n) rounds (Agrees n) f)
      → AllDecodable n fs
      → Readable d (level n) rounds (Agrees n) fs
  AllDecodable-Readable n [] reads h = tt
  AllDecodable-Readable n (f ∷ fs) reads (h, hs) = (
    λ serialized.
        let (listed, decodable) = h serialized in
        record { known = listed.known; no_marker = listed.no_marker; reads = reads f decodable },
    AllDecodable-Readable n fs reads hs,
  )

  nested_reads :
      (n : ℕ) (fi : FieldInstance) (v : Value) (m : Members) (fs : List Field)
      → HasEndMarker d
      → v ≡ object m
      → fi.info.type ≡ "STObject"
      → IsPlain d fi
      → create_field_instance_map_from_json d hashes (entries m) ≡ ok fs
      → NamesDiffer fs
      → Readable d (level n) rounds (Agrees n) fs
      → FieldReads d (level (suc n)) rounds (Agrees (suc n)) (fi, v)
  nested_reads n fi v m fs ends is_object typed plain made differ readable =
      agrees_more (level (suc n)) (ObjectsAgree d hashes (level n) (Agrees n)) (Agrees (suc n))
        (fi, v) (λ w agree. inr (inl agree))
        (subst
          (λ x.
            FieldReads d (level (suc n)) rounds (ObjectsAgree d hashes (level n) (Agrees n))
              (fi, x))
          (sym is_object)
          (object-FieldReads d hashes (level n) (Agrees n) (level (suc n)) rounds fi m fs
            (ap (level (suc n)) typed ∙ object_at_depth n) plain (object_marker fi typed) ends made
            readable differ))

  array_at_depth : (n : ℕ) → level (suc n) "STArray" ≡ some (array_type d hashes rounds (level n))
  unfolding get_serialized_type
  array_at_depth n = refl

  array_marker : (fi : FieldInstance) → fi.info.type ≡ "STArray" → end_marker fi ≡ []
  array_marker fi e = ap (λ t. if t == "STObject" then 0xE1 ∷ [] else []) e

  IsElement-of :
      (n : ℕ) (v : Value)
      → ((fs : List Field)
          → AllDecodable (suc n) fs
          → Readable d (level (suc n)) rounds (Agrees (suc n)) fs)
      → IsGoodElement d hashes (AllDecodable (suc n)) (suc n) v
      → IsElement d hashes (level (suc n)) (level n) rounds (Agrees (suc n)) v
  IsElement-of n v readable
        (
          name, fi, m, fs, is_object, outer, serialized, listed, no_marker, typed, fixed, made,
          differ, shallow, good,
        ) =
      record {
        name = name;
        fi = fi;
        m = m;
        fs = fs;
        is_object = is_object;
        outer = outer;
        serialized = serialized;
        known = listed.known;
        no_marker = no_marker;
        typed = typed;
        fixed = fixed;
        made = made;
        differ = differ;
        readable = readable fs good;
        same =
            object_bytes_same d (depth_members m) (level n) (level (suc n))
              (get_serialized_type-enough d hashes (amount_type tokens) path_set (depth_members m)
                rounds n rounds (suc n) (omega (arith, shallow)) (omega (arith, shallow)))
              hashes [] (entries m) (entries-IsShallow (depth_members m) m (omega arith));
      }

  AreElements-of :
      (n : ℕ) (vs : Values)
      → ((fs : List Field)
          → AllDecodable (suc n) fs
          → Readable d (level (suc n)) rounds (Agrees (suc n)) fs)
      → AreGoodElements d hashes (AllDecodable (suc n)) (suc n) vs
      → AreElements d hashes (level (suc n)) (level n) rounds (Agrees (suc n)) vs
  AreElements-of n no_values readable h = tt
  AreElements-of n (value v vs) readable (h, hs) =
      (IsElement-of n v readable h, AreElements-of n vs readable hs)

  array_reads :
      (n : ℕ) (fi : FieldInstance) (v : Value) (vs : Values)
      → HasEndMarker d
      → v ≡ array vs
      → fi.info.type ≡ "STArray"
      → IsPlain d fi
      → HasArrayMarker d
      → AreElements d hashes (level (suc n)) (level n) rounds (Agrees (suc n)) vs
      → FieldReads d (level (suc (suc n))) rounds (Agrees (suc (suc n))) (fi, v)
  array_reads n fi v vs ends is_array typed plain array_ends elements =
      let types = level (suc (suc n)) in
      let R = ArraysAgree d hashes (level (suc n)) (level n) rounds (Agrees (suc n)) in
      agrees_more types R (Agrees (suc (suc n))) (fi, v) (λ w agree. inr (inr agree))
        (subst (λ x. FieldReads d types rounds R (fi, x)) (sym is_array)
          (array-FieldReads d hashes (level (suc n)) (level n) rounds (Agrees (suc n))
            (object_at_depth n) ends types fi vs (ap types typed ∙ array_at_depth (suc n)) plain
            (array_marker fi typed) array_ends elements))

  uint16_at_depth :
      (n : ℕ) → level n "UInt16" ≡ some (plain_type (uint16_from_json d) (λ opts. uint16_to_json))
  unfolding get_serialized_type leaf_type
  uint16_at_depth zero = refl
  uint16_at_depth (suc n) = refl

  single-FieldReads :
      (n : ℕ) (f : Field)
      → HasTypeNames d
      → IsSingle f
      → FieldReads d (level n) rounds (SameBytes (level n)) f
  single-FieldReads n f names (inl (scalar, plain)) =
      scalar-FieldReads d hashes (amount_type tokens) path_set rounds n rounds f.0 f.1 scalar plain
  single-FieldReads n f names (inr (inr native)) =
      amount-FieldReads d hashes tokens path_set rounds n rounds f native
  single-FieldReads n f names (inr (inl type_field)) =
      type-FieldReads d (level n) rounds f names (uint16_at_depth n) type_field

  decodable-FieldReads :
      (ends : HasEndMarker d) (names : HasTypeNames d) (n : ℕ) (f : Field)
      → IsDecodable n f
      → FieldReads d (level n) rounds (Agrees n) f
  decodable-FieldReads ends names zero f single = single-FieldReads zero f names single
  decodable-FieldReads ends names (suc n) f (inl single) =
      agrees_more (level (suc n)) (SameBytes (level (suc n))) (Agrees (suc n)) f
        (λ w same. inl same) (single-FieldReads (suc n) f names single)
  decodable-FieldReads ends names (suc n) f
        (inr (plain, inl (m, fs, is_object, typed, made, differ, h))) =
      nested_reads n f.0 f.1 m fs ends is_object typed plain made differ
        (AllDecodable-Readable n fs (decodable-FieldReads ends names n) h)
  decodable-FieldReads ends names (suc zero) f
        (inr (plain, inr (deep, vs, is_array, typed, array_ends, good))) =
      absurd (omega (arith, deep))
  decodable-FieldReads ends names (suc (suc n)) f
        (inr (plain, inr (deep, vs, is_array, typed, array_ends, good))) =
      array_reads n f.0 f.1 vs ends is_array typed plain array_ends (
        AreElements-of n vs
          (λ fs. AllDecodable-Readable (suc n) fs (decodable-FieldReads ends names (suc n))) good)

  pub decodable-Readable :
      (n : ℕ) (fs : List Field)
      → HasEndMarker d
      → HasTypeNames d
      → AllDecodable n fs
      → Readable d (level n) rounds (Agrees n) fs
  decodable-Readable n fs ends names =
      AllDecodable-Readable n fs (decodable-FieldReads ends names n)
