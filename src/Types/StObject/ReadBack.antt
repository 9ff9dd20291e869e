-- ===== src/Types/StObject/ReadBack.antt =====
-- An object that was serialized, read back: over any types of fields that read back what they write.
use mathlib.Core.List.{Permᴰ}
use mathlib.Core.List.Permᴰ
use xrpl_go.Base.{
  ℕ, zero, suc, ◌+◌, ◌≤◌, ◌≡◌, ◌≢◌, sym, ap, subst, ◌∙◌, All, String, List, [], ◌∷◌, ◌++◌,
  append_assoc, append-nil, Bytes, IsByte, All-append, true, false, length, length-append, arith,
}
use xrpl_go.Base.Assoc.{string_eq, insert, insert_absent, KeyAbsent, KeyAbsent-append}
use xrpl_go.Base.Perms.{All-perm, KeysApart, KeysApart-perm}
use xrpl_go.Base.Results.{ok}
use xrpl_go.Definitions.{Definitions, FieldInstance}
use xrpl_go.Serdes.Parser.{has_more, read_field}
use xrpl_go.Serdes.FieldId.{encode_header}
use xrpl_go.Serdes.Serializer.{write_field_and_value}
use xrpl_go.Serdes.Field.{IsKnown, encode_known, end_marker, read_field-encode_header}
use xrpl_go.Serdes.Append.{IsPrefix, write_field_and_value-ok}
use xrpl_go.Types.Value.{Value, object, members}
use xrpl_go.Types.Fields.{Types, encode_field_value, read_value}
use xrpl_go.Types.StObject.{Field, Entry, field_bytes, get_sorted_keys, write_fields}
use xrpl_go.Types.StObject.ToJson.{is_end_marker, object_rounds, object_to_json}
use xrpl_go.Types.StObject.Layout.{Layout, end_of_fields, skipped, laid_out, write_fields-Layout}
use xrpl_go.Types.StObject.Order.{get_sorted_keys-perm}
use xrpl_go.Types.StObject.Rounds.{
  rounds_over, rounds_marker, rounds_next, header_some, length-encode_header, part-IsByte,
}

-- How a value that was read agrees with the value that was written in a field.
abbrev pub Agreement : Type 1
Agreement = FieldInstance → Value → Value → Type 0

abbrev name_of_field : Field → String
name_of_field f = (f.0).field_name

-- The data is no longer than `bound`, which the fuel of the types may turn on.
module _ (d : Definitions) (types : Types) (bound : ℕ) (R : Agreement) where
  -- The field's value is written as bytes; it is read from them, and leaves what follows.
  abbrev pub FieldReads : Field → Type 0
  FieldReads f =
      (v vl rest : Bytes)
      → encode_field_value types f.0 f.1 ≡ ok v
      → IsPrefix f.0 (length v) vl
      → length (vl ++ (v ++ (end_marker f.0 ++ rest))) ≤ bound
      → (w : Value) × (read_value d types f.0 (vl ++ (v ++ (end_marker f.0 ++ rest)))
          ≡ (ok w, rest))
        × R f.0 f.1 w
        × All IsByte v

  pub record IsReadable (f : Field) : Type 0 where
    pub known : IsKnown d f.0
    pub no_marker : is_end_marker f.0 ≡ false
    pub reads : FieldReads f

module _ (R : Agreement) where
  -- The members read for the serialized fields of a list, in their order.
  pub data Members : List Field → List Entry → Type 0 where
    no_more : Members [] []
    left_out :
        (f : Field) {fs : List Field} {es : List Entry}
        → (f.0).info.is_serialized ≡ false
        → Members fs es
        → Members (f ∷ fs) es
    one_more :
        (f : Field) {fs : List Field} {es : List Entry} (w : Value)
        → (f.0).info.is_serialized ≡ true
        → R f.0 f.1 w
        → Members fs es
        → Members (f ∷ fs) ((name_of_field f, w) ∷ es)

-- No two fields have one name.
abbrev pub NamesDiffer : List Field → Type 0
NamesDiffer fs = KeysApart name_of_field fs

-- How the data of an object ends: with the data, or with a marker.
pub data Closes (d : Definitions) : Bytes → Bytes → Type 0 where
  at_end : Closes d [] []
  marked :
      (fi : FieldInstance) {tail rest : Bytes}
      → has_more tail ≡ true
      → read_field d tail ≡ (ok fi, rest)
      → is_end_marker fi ≡ true
      → Closes d tail rest

module _ (d : Definitions) (types : Types) (bound : ℕ) (R : Agreement) where
  -- A field that was written, read in a round.
  field_round :
      (f : Field) (v part rest : Bytes)
      → IsReadable d types bound R f
      → encode_field_value types f.0 f.1 ≡ ok v
      → write_field_and_value d f.0 v [] ≡ (ok tt, part)
      → length (part ++ rest) ≤ bound
      → (w : Value) × R f.0 f.1 w
        × (1 ≤ length part)
        × All IsByte part
        × ((n : ℕ) (m : List Entry)
            → object_rounds d types (suc n) m (part ++ rest)
              ≡ object_rounds d types n (insert (name_of_field f) w m) rest)
  field_round f v part rest k made written within =
      let (h, vl, e, p, q) = write_field_and_value-ok d f.0 v [] part written in
      let header : Bytes = encode_header (f.0).header in
      let same : h ≡ header = let r : ok h ≡ ok header = sym e ∙ encode_known d f.0 k.known in cc in
      let value : Bytes = vl ++ (v ++ end_marker f.0) in
      let shape : header ++ value ≡ part = ap (λ x. x ++ value) (sym same) ∙ q in
      let flat : part ++ rest ≡ header ++ (vl ++ (v ++ (end_marker f.0 ++ rest))) =
        ap (λ x. x ++ rest) (sym shape) ∙ simp append_assoc in
      let behind : Bytes = vl ++ (v ++ (end_marker f.0 ++ rest)) in
      let (w, read, agrees, bytes) =
        k.reads v vl rest made p
          (omega (arith, within, ap length flat, length-append header behind)) in
      let size = length-encode_header (f.0).header in
      (
        w,
        agrees,
        omega (arith, size, length-append header value, ap length shape),
        subst (All IsByte) shape (part-IsByte d f.0 v vl k.known p bytes),
        λ n m.
            ap (object_rounds d types (suc n) m) flat
            ∙ rounds_next d types n m f.0 _ (vl ++ (v ++ (end_marker f.0 ++ rest))) w rest
                (header_some (f.0).header _) (read_field-encode_header d f.0 _ k.known) k.no_marker
                read,
      )

  -- The readable fields of a list, those that are serialized.
  abbrev pub Readable : List Field → Type 0
  Readable fs = All (λ f. (f.0).info.is_serialized ≡ true → IsReadable d types bound R f) fs

  abbrev IsFresh : List Field → List Entry → Type 0
  IsFresh fs m = All (λ f. KeyAbsent (name_of_field f) m) fs

  IsFresh-next :
      (f : Field) (fs : List Field) (w : Value) (m : List Entry)
      → IsFresh fs m
      → All (λ g. name_of_field f ≢ name_of_field g) fs
      → IsFresh fs (m ++ ((name_of_field f, w) ∷ []))
  IsFresh-next f [] w m h differ = tt
  IsFresh-next f (g ∷ fs) w m (h, hs) (ne, differ) =
      (KeyAbsent-append (name_of_field g) m _ h (ne, tt), IsFresh-next f fs w m hs differ)

  closing_round :
      (n : ℕ) (m : List Entry) (tail rest : Bytes)
      → Closes d tail rest
      → length tail ≤ n
      → object_rounds d types n m tail ≡ (ok (object (members m)), rest)
  closing_round n m _ _ at_end enough = rounds_over d types n m
  closing_round zero m tail rest (marked fi more found marker) enough =
      absurd (some_data tail more enough)
    where
      some_data : (tail : Bytes) → has_more tail ≡ true → length tail ≤ 0 → ⊥
      some_data [] more enough = unfold has_more in cc
      some_data (c ∷ t) more enough = omega (arith, enough)
  closing_round (suc n) m tail rest (marked fi more found marker) enough =
      rounds_marker d types n m fi tail rest more found marker

  longer : (part b tail : Bytes) → length ((part ++ b) ++ tail) ≡ length part + length (b ++ tail)
  longer part b tail = ap length (append_assoc part b tail) ∙ length-append part (b ++ tail)

  -- The fields of a layout are read in their order, behind the members that were there before.
  object_rounds-Layout :
      {fs : List Field} {b : Bytes}
      → Layout d types [] fs b
      → Readable fs
      → NamesDiffer fs
      → (n : ℕ) (m : List Entry) (tail rest : Bytes) → IsFresh fs m
      → Closes d tail rest
      → length (b ++ tail) ≤ n
      → length (b ++ tail) ≤ bound
      → (es : List Entry) × Members R fs es
        × All IsByte b
        × (object_rounds d types n m (b ++ tail) ≡ (ok (object (members (m ++ es))), rest))
  object_rounds-Layout end_of_fields k differ n m tail rest fresh closes enough within = (
    [],
    no_more,
    tt,
    closing_round n m tail rest closes enough
        ∙ ap (λ l. (ok (object (members l)), rest)) (sym (append-nil m)),
  )
  object_rounds-Layout (skipped f no_field l) (k, ks) (ne, differ) n m tail rest (h, fresh) closes
        enough within =
      let (es, ms, bytes, run) =
        object_rounds-Layout l ks differ n m tail rest fresh closes enough within in
      (es, left_out f no_field ms, bytes, run)
  object_rounds-Layout (laid_out f {fs = fs} {b = b} v part serialized made w l) (k, ks)
        (ne, differ) zero m tail rest (h, fresh) closes enough within =
      let encoded : encode_field_value types f.0 f.1 ≡ ok v = unfold field_bytes in made in
      let (x, agrees, size, bytes, step) =
        field_round f v part (b ++ tail) (k serialized) encoded w
          (omega (arith, longer part b tail, length-append part (b ++ tail), within)) in
      absurd (omega (arith, size, longer part b tail, enough))
  object_rounds-Layout (laid_out f {fs = fs} {b = b} v part serialized made w l) (k, ks)
        (ne, differ) (suc n) m tail rest (h, fresh) closes enough within =
      let encoded : encode_field_value types f.0 f.1 ≡ ok v = unfold field_bytes in made in
      let (x, agrees, size, bytes, step) =
        field_round f v part (b ++ tail) (k serialized) encoded w
          (omega (arith, longer part b tail, length-append part (b ++ tail), within)) in
      let (es, ms, more_bytes, run) =
        object_rounds-Layout l ks differ n (m ++ ((name_of_field f, x) ∷ [])) tail rest
          (IsFresh-next f fs x m fresh ne) closes (omega (arith, size, longer part b tail, enough))
          (omega (arith, longer part b tail, within)) in
      (
        (name_of_field f, x) ∷ es,
        one_more f x serialized agrees ms,
        All-append IsByte part b bytes more_bytes,
        ap (object_rounds d types (suc n) m) (append_assoc part b tail)
            ∙ step n m
            ∙ ap (λ l. object_rounds d types n l (b ++ tail))
                (insert_absent (name_of_field f) x m h)
            ∙ run
            ∙ ap (λ l. (ok (object (members l)), rest)) (append_assoc m _ es),
      )

  no_keys : (fs : List Field) → IsFresh fs []
  no_keys [] = tt
  no_keys (f ∷ fs) = (tt, no_keys fs)

  -- The bytes of fields, read as an object.
  pub object_to_json-write_fields :
      (fs : List Field) (b : Bytes)
      → write_fields d types [] (get_sorted_keys fs) [] ≡ ok b
      → Readable fs
      → NamesDiffer fs
      → (n : ℕ) (tail rest : Bytes) → Closes d tail rest
      → length (b ++ tail) ≤ n
      → length (b ++ tail) ≤ bound
      → (es : List Entry) × Members R (get_sorted_keys fs) es
        × All IsByte b
        × (object_to_json d types n (b ++ tail) ≡ (ok (object (members es)), rest))
  unfolding object_to_json
  object_to_json-write_fields fs b w k differ n tail rest closes enough within =
      let (x, l, same) = write_fields-Layout d types [] (get_sorted_keys fs) [] b w in
      let sorting : Permᴰ fs (get_sorted_keys fs) = Permᴰ.symm (get_sorted_keys-perm fs) in
      object_rounds-Layout (subst (Layout d types [] (get_sorted_keys fs)) same l)
        (All-perm (λ f. (f.0).info.is_serialized ≡ true → IsReadable d types bound R f) sorting k)
        (KeysApart-perm name_of_field sorting differ) n [] tail rest (no_keys (get_sorted_keys fs))
        closes enough within
