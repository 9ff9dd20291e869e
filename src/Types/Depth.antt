-- ===== src/Types/Depth.antt =====
-- Objects in objects are written with as much fuel as there are objects in one another: more changes
-- nothing.
use xrpl_go.Base.{
  ℕ, zero, suc, ◌^◌, ◌≤◌, ◌<◌, ◌≡◌, refl, sym, ap, ap₂, subst, ◌∙◌, inl, inr, All, String, List, [],
  ◌∷◌, ◌++◌, Bytes, Bool, Bool-cases, true, false, Option, none, some, arith,
}
use text.Mathlib.Text.{◌==◌}
use xrpl_go.Base.Int.{ℤ, pos}
use xrpl_go.Base.Words.{pattern_of}
use mathlib.Core.List.Permᴰ
use xrpl_go.Base.Assoc.{string_eq, lookup, insert, insert-All}
use xrpl_go.Base.Perms.{All-perm}
use xrpl_go.Base.Results.{Result, ok, err, ◌>>=◌, Result-cases, bind-ok, guard}
use xrpl_go.Definitions.{
  Definitions, DefinitionsError, FieldInstance, get_field_instance_by_field_name,
}
use xrpl_go.Serdes.Serializer.{new_binary_serializer, write_field_and_value, get_sink}
use xrpl_go.Address.Hash.{Hashes}
use xrpl_go.Address.XAddress.{XAddress, is_valid_x_address, x_address_to_classic_address}
use xrpl_go.Types.Errors.{CodecError, from_definitions, from_address, duplicate_x_address_tag}
use xrpl_go.Types.Value.{
  Value, integer, uint32, float64, null, other, string, named_string, strings, array, objects,
  object, string_map, Values, no_values, value, Objects, no_objects, one_object, Members,
  no_members, member, depth, depth_values, depth_objects, depth_members, entries,
}
use xrpl_go.Types.Fields.{
  Types, parse_special_fields, named_permission, permission_number, encode_field_value,
}
use xrpl_go.Types.StObject.{
  Field, Entry, Overrides, absent, or_encode, tag_field_name, promote_tag, process_string,
  process_x_addresses, field_instances, create_field_instance_map_from_json, get_sorted_keys,
  field_bytes, written, write_fields, object_bytes, object_from_json, array_bytes, objects_bytes,
  array_from_json,
}
use xrpl_go.Types.Law.{SerializedType}
use xrpl_go.Types.Registry.{stuck_type, with_objects, get_serialized_type}
use xrpl_go.Types.StObject.Order.{get_sorted_keys-perm}
use xrpl_go.Types.StObject.Layout.{write_fields_none, write_fields_skip, write_fields_next}
use xrpl_go.Types.Depth.Shallow.{IsShallow, entries-IsShallow, AreShallow, created-AreShallow}
pub mod Shallow

pub bind_same :
    {E A B : Type 0} (m : Result E A) (f g : A → Result E B)
    → ((a : A) → f a ≡ g a)
    → (m >>= f) ≡ (m >>= g)
bind_same (ok a) f g h = h a
bind_same (err e) f g h = refl

-- Two registries that agree on all values with fewer objects in one another.
abbrev Agree : ℕ → Types → Types → Type 0
Agree n s t =
    (fi : FieldInstance) (v : Value)
    → depth v < n
    → encode_field_value s fi v ≡ encode_field_value t fi v

module _ (d : Definitions) (n : ℕ) (s t : Types) (agree : Agree (suc n) s t) where
  field_bytes_same :
      (overrides : Overrides) (f : Field)
      → depth f.1 ≤ n
      → field_bytes s overrides f ≡ field_bytes t overrides f
  unfolding field_bytes
  field_bytes_same overrides f h = by_override (lookup (f.0).field_name overrides)
    where
      by_override : (o : Option Bytes) → or_encode s o f.0 f.1 ≡ or_encode t o f.0 f.1
      by_override none = agree f.0 f.1 (omega (arith, h))
      by_override (some b) = refl

  write_fields_same :
      (overrides : Overrides) (fs : List Field) (sink : Bytes)
      → AreShallow d n fs
      → write_fields d s overrides fs sink ≡ write_fields d t overrides fs sink
  write_fields_same overrides [] sink h =
      write_fields_none d s overrides sink ∙ sym (write_fields_none d t overrides sink)
  write_fields_same overrides (f ∷ fs) sink (h, hs) = elim (Bool-cases (f.0).info.is_serialized) [
    | inr no_field ↦
        write_fields_skip d s overrides f fs sink no_field
        ∙ write_fields_same overrides fs sink hs
        ∙ sym (write_fields_skip d t overrides f fs sink no_field)
    | inl serialized ↦
        write_fields_next d s overrides f fs sink serialized
        ∙ ap
            (λ r. r >>= λ b.
              written (write_field_and_value d f.0 b sink) >>= λ k. write_fields d s overrides fs k)
            (field_bytes_same overrides f h)
        ∙ bind_same (field_bytes t overrides f) _ _ (λ b.
          bind_same (written (write_field_and_value d f.0 b sink)) _ _
            (λ k. write_fields_same overrides fs k hs))
        ∙ sym (write_fields_next d t overrides f fs sink serialized)
  ]

  module _ (hashes : Hashes) where
    pub object_bytes_same :
        (overrides : Overrides) (m : List Entry)
        → IsShallow n m
        → object_bytes d s hashes overrides m ≡ object_bytes d t hashes overrides m
    unfolding object_bytes
    object_bytes_same overrides m h =
        elim (Result-cases (create_field_instance_map_from_json d hashes m)) [
          | inl (fs, made) ↦ rw made (
              ap (λ r. r >>= λ sink. ok (get_sink sink))
                (write_fields_same overrides (get_sorted_keys fs) new_binary_serializer
                  (created-AreShallow d n hashes m fs h made)))
          | inr (e, failed) ↦ rw failed refl
        ]

module _ (d : Definitions) (hashes : Hashes) (n : ℕ) (s t : Types) (agree : Agree n s t) where
  nested_same :
      (overrides : Overrides) (m : Members)
      → suc (depth_members m) ≤ n
      → object_bytes d s hashes overrides (entries m)
        ≡ object_bytes d t hashes overrides (entries m)
  nested_same overrides m h =
      object_bytes_same d (depth_members m) s t (λ fi v k. agree fi v (omega (arith, h, k))) hashes
        overrides (entries m) (entries-IsShallow (depth_members m) m (omega arith))

  object_from_json_same :
      (overrides : Overrides) (v : Value)
      → depth v ≤ n
      → object_from_json d s hashes overrides v ≡ object_from_json d t hashes overrides v
  unfolding object_from_json depth
  object_from_json_same overrides (object m) h = nested_same overrides m h
  object_from_json_same overrides (string v) h = refl
  object_from_json_same overrides null h = refl
  object_from_json_same overrides other h = refl
  object_from_json_same overrides (named_string v) h = refl
  object_from_json_same overrides (integer i v) h = refl
  object_from_json_same overrides (float64 v) h = refl
  object_from_json_same overrides (strings v) h = refl
  object_from_json_same overrides (array v) h = refl
  object_from_json_same overrides (objects v) h = refl
  object_from_json_same overrides (string_map v) h = refl

  array_bytes_same :
      (vs : Values) → depth_values vs ≤ n → array_bytes d s hashes vs ≡ array_bytes d t hashes vs
  unfolding array_bytes depth
  array_bytes_same no_values h = refl
  array_bytes_same (value v vs) h =
      ap₂ (λ x y. x >>= λ b. y >>= λ rest. ok (b ++ rest))
        (object_from_json_same [] v (omega (arith, h))) (array_bytes_same vs (omega (arith, h)))

  objects_bytes_same :
      (ms : Objects)
      → depth_objects ms ≤ n
      → objects_bytes d s hashes ms ≡ objects_bytes d t hashes ms
  unfolding objects_bytes depth
  objects_bytes_same no_objects h = refl
  objects_bytes_same (one_object m ms) h =
      ap₂ (λ x y. x >>= λ b. y >>= λ rest. ok (b ++ rest)) (nested_same [] m (omega (arith, h)))
        (objects_bytes_same ms (omega (arith, h)))

  array_from_json_same :
      (v : Value) → depth v ≤ n → array_from_json d s hashes v ≡ array_from_json d t hashes v
  unfolding array_from_json depth
  array_from_json_same (array vs) h =
      ap (λ r. r >>= λ b. ok (b ++ (0xF1 ∷ []))) (array_bytes_same vs h)
  array_from_json_same (objects ms) h =
      ap (λ r. r >>= λ b. ok (b ++ (0xF1 ∷ []))) (objects_bytes_same ms h)
  array_from_json_same (string v) h = refl
  array_from_json_same null h = refl
  array_from_json_same other h = refl
  array_from_json_same (named_string v) h = refl
  array_from_json_same (integer i v) h = refl
  array_from_json_same (float64 v) h = refl
  array_from_json_same (strings v) h = refl
  array_from_json_same (object v) h = refl
  array_from_json_same (string_map v) h = refl

  module _ (amount path_set : SerializedType) (r q : ℕ) where
    level_same :
        Agree
          (suc n)
          (with_objects d hashes amount path_set r s)
          (with_objects d hashes amount path_set q t)
    unfolding encode_field_value
    level_same fi v h = elim (Bool-cases (fi.info.type == "STObject")) [
      | inl obj ↦ rw obj (object_from_json_same [] v (omega (arith, h)))
      | inr no_obj ↦ elim (Bool-cases (fi.info.type == "STArray")) [
        | inl arr ↦ rw (no_obj, arr) (array_from_json_same v (omega (arith, h)))
        | inr no_arr ↦ rw (no_obj, no_arr) refl
      ]
    ]

module _ (d : Definitions) (hashes : Hashes) (amount path_set : SerializedType) where
  abbrev below : ℕ → ℕ → Types
  below r zero = λ u. some stuck_type
  below r (suc k) = get_serialized_type d hashes amount path_set r k

  level_below :
      (r k : ℕ)
      → get_serialized_type d hashes amount path_set r k
        ≡ with_objects d hashes amount path_set r (below r k)
  unfolding get_serialized_type
  level_below r zero = refl
  level_below r (suc k) = refl

  abbrev level : ℕ → ℕ → Types
  level r k = get_serialized_type d hashes amount path_set r k

  level_up :
      (n r k q l : ℕ) → Agree n (below r k) (below q l) → Agree (suc n) (level r k) (level q l)
  level_up n r k q l agree fi v h =
      ap (λ t. encode_field_value t fi v) (level_below r k)
      ∙ level_same d hashes n (below r k) (below q l) agree amount path_set r q fi v h
      ∙ ap (λ t. encode_field_value t fi v) (sym (level_below q l))

  below_same : (n r k q l : ℕ) → n ≤ k → n ≤ l → Agree n (below r k) (below q l)
  below_same zero r k q l hk hl = λ fi v h. absurd (omega (arith, h))
  below_same (suc n) r (suc k) q (suc l) hk hl =
      level_up n r k q l (below_same n r k q l (omega (arith, hk)) (omega (arith, hl)))
  below_same (suc n) r zero q l hk hl = λ fi v h. absurd (omega (arith, hk))
  below_same (suc n) r (suc k) q zero hk hl = λ fi v h. absurd (omega (arith, hl))

  -- The bytes of a field whose value has at most n objects in one another are the same for every
  -- fuel of at least n.
  pub get_serialized_type-enough :
      (n r k q l : ℕ) → n ≤ k → n ≤ l → Agree (suc n) (level r k) (level q l)
  get_serialized_type-enough n r k q l hk hl = level_up n r k q l (below_same n r k q l hk hl)
