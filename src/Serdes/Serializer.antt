-- ===== src/Serdes/Serializer.antt =====
-- binary-codec/serdes/binary_serializer.go. The serializer's state is its sink; a method takes it and
-- returns the new sink with its error, if there is one.
use xrpl_go.Base.{ℕ, ◌+◌, ◌-◌, ◌/◌, ◌%◌, [], ◌∷◌, ◌++◌, Bytes, leb, if◌then◌else◌, length}
use text.Mathlib.Text.{◌==◌}
use xrpl_go.Base.Results.{Result, ok, err}
use xrpl_go.Definitions.{Definitions, FieldInstance}
use xrpl_go.Serdes.Errors.{SerdesError, length_prefix_too_long}
use xrpl_go.Serdes.FieldId.{encode}

-- `NewBinarySerializer`
abbrev pub new_binary_serializer : Bytes
new_binary_serializer = []

-- `put`
unfoldable pub put : Bytes → Bytes → Bytes
put sink v = sink ++ v

-- `GetSink`
unfoldable pub get_sink : Bytes → Bytes
get_sink sink = sink

-- `encodeVariableLength`: `>> 8` is `/ 256`, and `byte` and `& 0xFF` keep the low eight bits.
unfoldable pub encode_variable_length : ℕ → Result SerdesError Bytes
encode_variable_length len =
    if leb len 192
    then ok (len % 256 ∷ [])
    else if leb len 12480
    then (let rest = len - 193 in ok ((rest / 256 + 193) % 256 ∷ rest % 256 ∷ []))
    else if leb len 918744
    then (let rest = len - 12481 in
        ok ((rest / 65536 + 241) % 256 ∷ rest / 256 % 256 ∷ rest % 256 ∷ []))
    else err length_prefix_too_long

-- The end marker, after the value of an object field.
unfoldable pub put_end_marker : FieldInstance → Bytes → Bytes
unfolding put
put_end_marker fi sink = if fi.info.type == "STObject" then put sink (0xE1 ∷ []) else sink

-- The part of `WriteFieldAndValue` after the field identifier.
unfoldable pub put_value : FieldInstance → Bytes → Bytes → Result SerdesError (Unit {0}) × Bytes
unfolding put put_end_marker encode_variable_length
put_value fi value sink =
    if fi.info.is_vl_encoded
    then (elim (encode_variable_length (length value)) [
      | ok vl ↦ (ok tt, put_end_marker fi (put (put sink vl) value))
      | err e ↦ (err e, sink)
    ])
    else (ok tt, put_end_marker fi (put sink value))

-- `WriteFieldAndValue`: after an error of the length prefix the identifier stays in the sink.
unfoldable pub write_field_and_value :
    Definitions → FieldInstance → Bytes → Bytes → Result SerdesError (Unit {0}) × Bytes
unfolding put put_value
write_field_and_value d fi value sink = elim (encode d fi.field_name) [
  | ok h ↦ put_value fi value (put sink h)
  | err e ↦ (err e, sink)
]
