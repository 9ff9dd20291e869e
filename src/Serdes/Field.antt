-- ===== src/Serdes/Field.antt =====
-- A field that the serializer wrote, read back by the parser.
use xrpl_go.Base.{
  ◌<◌, ◌≤◌, ◌≡◌, sym, ap, ◌∙◌, [], ◌∷◌, ◌++◌, append_assoc, append-nil, Bool-cases, inl, inr, Bytes,
  length, true, false, if◌then◌else◌,
}
use text.Mathlib.Text.{◌==◌}
use xrpl_go.Base.Int.{pos}
use xrpl_go.Base.Results.{ok, err}
use xrpl_go.Definitions.{
  Definitions, FieldInstance, get_field_header_by_field_name, get_field_name_by_field_header,
  get_field_instance_by_field_name,
}
use xrpl_go.Serdes.Errors.{length_prefix_too_long}
use xrpl_go.Serdes.Parser.{Parser, ◌>>=◌, return, read_field, read_variable_length, read_bytes}
use xrpl_go.Serdes.FieldId.{encode_header, encode}
use xrpl_go.Serdes.Serializer.{
  put, put_value, put_end_marker, encode_variable_length, write_field_and_value,
}
use xrpl_go.Serdes.Shape.{IsSerializable}
use xrpl_go.Serdes.Header.{read_field_header-encode_header}
use xrpl_go.Serdes.Length.{
  read_variable_length-encode_variable_length, encode_variable_length_iff, encode_too_long,
}
use xrpl_go.Serdes.Bytes.{read_bytes-append}

-- The definitions know the field by its name and by its header, and its codes can be serialized.
pub record IsKnown (d : Definitions) (fi : FieldInstance) : Type 0 where
  pub serializable : IsSerializable fi.header
  pub by_name : get_field_instance_by_field_name d fi.field_name ≡ ok fi
  pub by_header : get_field_name_by_field_header d fi.header ≡ ok fi.field_name

header_by_name :
    (d : Definitions) (fi : FieldInstance)
    → IsKnown d fi
    → get_field_header_by_field_name d fi.field_name ≡ ok fi.header
unfolding get_field_header_by_field_name
header_by_name d fi k = rw k.by_name

-- A known field is read back from its identifier.
pub read_field-encode_header :
    (d : Definitions) (fi : FieldInstance) (rest : Bytes)
    → IsKnown d fi
    → read_field d (encode_header fi.header ++ rest) ≡ (ok fi, rest)
unfolding read_field
read_field-encode_header d fi rest k =
    rw (read_field_header-encode_header fi.header rest k.serializable, k.by_header, k.by_name)

-- How the object and array readers take a variable-length field from the data: the field, the
-- length, and that many bytes.
abbrev pub read_vl_field : Definitions → Parser (FieldInstance × Bytes)
read_vl_field d = do
  fi ← read_field d
  vlen ← read_variable_length
  value ← read_bytes (pos vlen)
  return (fi, value)

-- The end marker that closes an object field.
abbrev pub end_marker : FieldInstance → Bytes
end_marker fi = if fi.info.type == "STObject" then 0xE1 ∷ [] else []

put_end_marker_lem :
    (fi : FieldInstance) (sink : Bytes) → put_end_marker fi sink ≡ sink ++ end_marker fi
unfolding put_end_marker
put_end_marker_lem fi sink = elim (Bool-cases (fi.info.type == "STObject")) [
  | inl object ↦ rw object
  | inr other ↦ rw other (sym (append-nil sink))
]

pub encode_known :
    (d : Definitions) (fi : FieldInstance)
    → IsKnown d fi
    → encode d fi.field_name ≡ ok (encode_header fi.header)
unfolding encode
encode_known d fi k = rw (header_by_name d fi k)

write_known :
    (d : Definitions) (fi : FieldInstance) (value sink : Bytes)
    → IsKnown d fi
    → write_field_and_value d fi value sink ≡ put_value fi value (sink ++ encode_header fi.header)
unfolding write_field_and_value put
write_known d fi value sink k = rw (encode_known d fi k, write_field_and_value)

pub put_value_vl :
    (fi : FieldInstance) (value vl sink : Bytes)
    → fi.info.is_vl_encoded ≡ true
    → encode_variable_length (length value) ≡ ok vl
    → put_value fi value sink ≡ (ok tt, ((sink ++ vl) ++ value) ++ end_marker fi)
unfolding put_value put
put_value_vl fi value vl sink is_vl e =
    rw is_vl (rw (e, put_value) (ap (λ s. (ok tt, s)) (put_end_marker_lem fi _)))

pub put_value_plain :
    (fi : FieldInstance) (value sink : Bytes)
    → fi.info.is_vl_encoded ≡ false
    → put_value fi value sink ≡ (ok tt, (sink ++ value) ++ end_marker fi)
unfolding put_value put
put_value_plain fi value sink plain = rw plain (ap (λ s. (ok tt, s)) (put_end_marker_lem fi _))

put_value_too_long :
    (fi : FieldInstance) (value sink : Bytes)
    → fi.info.is_vl_encoded ≡ true
    → 918744 < length value
    → put_value fi value sink ≡ (err length_prefix_too_long, sink)
unfolding put_value
put_value_too_long fi value sink is_vl over =
    rw is_vl (rw (encode_too_long (length value) over, put_value))

-- A known variable-length field with a value of up to 918744 bytes is written behind the sink, and
-- reading it back gives the field and the value, and leaves the end marker of an object field and
-- what follows.
pub read_vl_field-write_field_and_value :
    (d : Definitions) (fi : FieldInstance) (value sink rest : Bytes)
    → IsKnown d fi
    → fi.info.is_vl_encoded ≡ true
    → length value ≤ 918744
    → (written : Bytes) × (write_field_and_value d fi value sink ≡ (ok tt, sink ++ written))
      × (read_vl_field d (written ++ rest) ≡ (ok (fi, value), end_marker fi ++ rest))
read_vl_field-write_field_and_value d fi value sink rest k is_vl fits =
    let (vl, e) = (encode_variable_length_iff (length value)).1 fits in
    let tail : Bytes = value ++ end_marker fi in
    (
      encode_header fi.header ++ (vl ++ tail),
      write_known d fi value sink k
          ∙ put_value_vl fi value vl _ is_vl e
          ∙ ap (λ s. (ok tt, s)) (simp append_assoc),
      rw (
        append_assoc (encode_header fi.header) (vl ++ tail) rest,
        read_field-encode_header d fi ((vl ++ tail) ++ rest) k,
        append_assoc vl tail rest,
        read_variable_length-encode_variable_length (length value) vl (tail ++ rest) e,
        append_assoc value (end_marker fi) rest,
        read_bytes-append value (end_marker fi ++ rest),
      ),
    )

-- A known field of fixed length is written behind the sink, and reading back the field and as many
-- bytes as the value has gives the field and the value, and leaves the end marker of an object field
-- and what follows.
pub read_field-write_field_and_value :
    (d : Definitions) (fi : FieldInstance) (value sink rest : Bytes)
    → IsKnown d fi
    → fi.info.is_vl_encoded ≡ false
    → (written : Bytes) × (write_field_and_value d fi value sink ≡ (ok tt, sink ++ written))
      × (read_field d (written ++ rest) ≡ (ok fi, value ++ (end_marker fi ++ rest)))
read_field-write_field_and_value d fi value sink rest k plain = (
  encode_header fi.header ++ (value ++ end_marker fi),
  write_known d fi value sink k
      ∙ put_value_plain fi value _ plain
      ∙ ap (λ s. (ok tt, s)) (simp append_assoc),
  rw (
    append_assoc (encode_header fi.header) (value ++ end_marker fi) rest,
    read_field-encode_header d fi ((value ++ end_marker fi) ++ rest) k,
    append_assoc value (end_marker fi) rest,
  ),
)

-- A value that is too long for a prefix is refused, and only the identifier reaches the sink.
pub write_field_and_value_too_long :
    (d : Definitions) (fi : FieldInstance) (value sink : Bytes)
    → IsKnown d fi
    → fi.info.is_vl_encoded ≡ true
    → 918744 < length value
    → write_field_and_value d fi value sink
      ≡ (err length_prefix_too_long, sink ++ encode_header fi.header)
write_field_and_value_too_long d fi value sink k is_vl over =
    write_known d fi value sink k ∙ put_value_too_long fi value _ is_vl over
