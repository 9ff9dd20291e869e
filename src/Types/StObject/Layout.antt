-- ===== src/Types/StObject/Layout.antt =====
-- The bytes of an object: its serialized fields in the order of their ordinals, each once.
use mathlib.Core.List.{Perm}
use xrpl_go.Base.{
  ◌≡◌, refl, sym, subst, ap, ◌∙◌, inl, inr, List, [], ◌∷◌, ◌++◌, append_assoc, append-nil, Bytes,
  Bool, Bool-cases, true, false,
}
use xrpl_go.Base.Results.{Result, ok, err, ◌>>=◌, bind-ok}
use xrpl_go.Definitions.{Definitions, FieldInstance}
use xrpl_go.Serdes.Errors.{SerdesError}
use xrpl_go.Serdes.Serializer.{write_field_and_value, get_sink}
use xrpl_go.Serdes.Field.{end_marker}
use xrpl_go.Serdes.Append.{write_field_and_value-ok, write_field_and_value_prefixed}
use xrpl_go.Address.Hash.{Hashes}
use xrpl_go.Types.Fields.{Types}
use xrpl_go.Types.StObject.{
  Field, Entry, Overrides, get_sorted_keys, field_bytes, written, write_fields,
  create_field_instance_map_from_json, object_bytes,
}
use xrpl_go.Types.StObject.Order.{IsSorted, get_sorted_keys-perm, get_sorted_keys-IsSorted}

-- The fields of a list that are serialized, one behind the other: each as the field of a new
-- serializer.
pub data Layout (d : Definitions) (types : Types) (overrides : Overrides)
    : List Field → Bytes → Type 0 where
  end_of_fields : Layout d types overrides [] []
  skipped :
      (f : Field) {fs : List Field} {b : Bytes}
      → (f.0).info.is_serialized ≡ false
      → Layout d types overrides fs b
      → Layout d types overrides (f ∷ fs) b
  laid_out :
      (f : Field) {fs : List Field} {b : Bytes} (v part : Bytes)
      → (f.0).info.is_serialized ≡ true
      → field_bytes types overrides f ≡ ok v
      → write_field_and_value d f.0 v [] ≡ (ok tt, part)
      → Layout d types overrides fs b
      → Layout d types overrides (f ∷ fs) (part ++ b)

written-ok :
    (r : Result SerdesError (Unit {0}) × Bytes) (b : Bytes) → written r ≡ ok b → r ≡ (ok tt, b)
written-ok (ok tt, x) b h = let q : x ≡ b = cc in ap (λ y. (ok tt, y)) q
written-ok (err e, x) b h = cc

-- Only the added part turns on the field; it is the same for every sink.
alone :
    (d : Definitions) (fi : FieldInstance) (v sink out : Bytes)
    → write_field_and_value d fi v sink ≡ (ok tt, out)
    → (part : Bytes) × (write_field_and_value d fi v [] ≡ (ok tt, part)) × (sink ++ part ≡ out)
alone d fi v sink out w =
    let (h, vl, e, p, q) = write_field_and_value-ok d fi v sink out w in
    (h ++ (vl ++ (v ++ end_marker fi)), write_field_and_value_prefixed d fi v h vl [] e p, q)

module _ (d : Definitions) (types : Types) (overrides : Overrides) where
  pub write_fields_none : (sink : Bytes) → write_fields d types overrides [] sink ≡ ok sink
  unfolding write_fields
  write_fields_none sink = refl

  pub write_fields_skip :
      (f : Field) (fs : List Field) (sink : Bytes)
      → (f.0).info.is_serialized ≡ false
      → write_fields d types overrides (f ∷ fs) sink ≡ write_fields d types overrides fs sink
  unfolding write_fields
  write_fields_skip f fs sink h = rw (h, write_fields)

  pub write_fields_next :
      (f : Field) (fs : List Field) (sink : Bytes)
      → (f.0).info.is_serialized ≡ true
      → write_fields d types overrides (f ∷ fs) sink ≡ (
          field_bytes types overrides f >>= λ b.
          written (write_field_and_value d f.0 b sink) >>= λ s. write_fields d types overrides fs s)
  unfolding write_fields
  write_fields_next f fs sink h =
      ap
        (λ (t : Bool). elim t [
          | false ↦ write_fields d types overrides fs sink
          | true ↦
              (field_bytes types overrides f >>= λ b.
              written (write_field_and_value d f.0 b sink) >>= λ s.
              write_fields d types overrides fs s)
        ])
        h

  pub write_fields-Layout :
      (fs : List Field) (sink out : Bytes)
      → write_fields d types overrides fs sink ≡ ok out
      → (b : Bytes) × Layout d types overrides fs b × (sink ++ b ≡ out)
  write_fields-Layout [] sink out h =
      let q : sink ≡ out = let e = sym (write_fields_none sink) ∙ h in cc in
      ([], end_of_fields, append-nil sink ∙ q)
  write_fields-Layout (f ∷ fs) sink out h = elim (Bool-cases (f.0).info.is_serialized) [
    | inr no_field ↦
        let (b, l, q) =
          write_fields-Layout fs sink out (sym (write_fields_skip f fs sink no_field) ∙ h) in
        (b, skipped f no_field l, q)
    | inl serialized ↦
        let (v, made, h1) =
          bind-ok (field_bytes types overrides f) _ out
            (sym (write_fields_next f fs sink serialized) ∙ h) in
        let (s, w, h2) = bind-ok (written (write_field_and_value d f.0 v sink)) _ out h1 in
        let (part, w', q) = alone d f.0 v sink s (written-ok _ s w) in
        let (b, l, q') = write_fields-Layout fs s out h2 in
        (
          part ++ b,
          laid_out f v part serialized made w' l,
          sym (append_assoc sink part b) ∙ ap (λ x. x ++ b) q ∙ q',
        )
  ]

-- Whatever bytes an object is serialized to, they are its fields in the order of ascending ordinals,
-- every field that is serialized once and no other, each with its identifier, its length where it is
-- variable, and its value.
pub object_bytes-Layout :
    (d : Definitions) (types : Types) (hashes : Hashes) (overrides : Overrides) (json : List Entry)
    (b : Bytes)
    → object_bytes d types hashes overrides json ≡ ok b
    → (fs sorted : List Field) × (create_field_instance_map_from_json d hashes json ≡ ok fs)
      × Perm sorted fs
      × IsSorted sorted
      × Layout d types overrides sorted b
unfolding object_bytes get_sink
object_bytes-Layout d types hashes overrides json b h =
    let (fs, made, h1) = bind-ok (create_field_instance_map_from_json d hashes json) _ b h in
    let (sink, w, h2) = bind-ok (write_fields d types overrides (get_sorted_keys fs) []) _ b h1 in
    let (x, l, q) = write_fields-Layout d types overrides (get_sorted_keys fs) [] sink w in
    let same : x ≡ b = cc in
    (
      fs,
      get_sorted_keys fs,
      made,
      ∣ get_sorted_keys-perm fs ∣₁,
      get_sorted_keys-IsSorted fs,
      subst (Layout d types overrides (get_sorted_keys fs)) same l,
    )
