-- ===== src/Serdes/FieldId.antt =====
-- binary-codec/serdes/field_id_codec.go: field identifiers of one to three bytes.
use Prim.Native.Nat.{bit_or}
use xrpl_go.Base.{ℕ, ◌*◌, ◌/◌, ◌%◌, [], ◌∷◌, Bytes, ◌&&◌, not, ◌==◌, if◌then◌else◌, String}
use xrpl_go.Base.Int.{ℤ, pos, ltb_ℤ}
use xrpl_go.Base.Words.{byte_of}
use xrpl_go.Base.Results.{Result, ok, err, ◌>>=◌}
use xrpl_go.Hexutil.{decode_string}
use xrpl_go.Definitions.{
  Definitions, FieldHeader, get_field_header_by_field_name, get_field_name_by_field_header,
  create_field_header,
}
use xrpl_go.Serdes.Errors.{SerdesError, invalid_field_id_length, lift_definitions, lift_hex}

-- `byte(c<<4)`. The shift is one of an int32, which keeps the low 28 bits, and so the low byte.
abbrev pub shifted_byte : ℤ → ℕ
shifted_byte c = byte_of c * 16 % 256

-- The four cases of `Encode`, on the header that was found.
unfoldable pub encode_header : FieldHeader → Bytes
encode_header fh =
    let tc = fh.type_code in
    let fc = fh.field_code in
    if ltb_ℤ tc (pos 16) && ltb_ℤ fc (pos 16)
    then bit_or (shifted_byte tc) (byte_of fc) ∷ []
    else if not (ltb_ℤ tc (pos 16)) && ltb_ℤ fc (pos 16)
    then byte_of fc ∷ byte_of tc ∷ []
    else if ltb_ℤ tc (pos 16) && not (ltb_ℤ fc (pos 16))
    then shifted_byte tc ∷ byte_of fc ∷ []
    else 0 ∷ byte_of tc ∷ byte_of fc ∷ []

-- The header that the bytes of an identifier stand for, which `Decode` looks up.
unfoldable pub decode_header : Bytes → Result SerdesError FieldHeader
unfolding create_field_header
decode_header (b0 ∷ []) = ok (create_field_header (pos (b0 / 16)) (pos (b0 % 16)))
decode_header (b0 ∷ b1 ∷ []) =
    if b0 / 16 == 0
    then ok (create_field_header (pos b1) (pos (b0 % 16)))
    else ok (create_field_header (pos (b0 / 16)) (pos b1))
decode_header (b0 ∷ b1 ∷ b2 ∷ []) = ok (create_field_header (pos b1) (pos b2))
decode_header _ = err invalid_field_id_length

-- `Encode`
unfoldable pub encode : Definitions → String → Result SerdesError Bytes
unfolding encode_header
encode d field_name = do
  fh ← lift_definitions (get_field_header_by_field_name d field_name)
  ok (encode_header fh)

-- `Decode`
unfoldable pub decode : Definitions → Bytes → Result SerdesError String
unfolding decode_header
decode d h = do
  b ← lift_hex (decode_string h)
  fh ← decode_header b
  lift_definitions (get_field_name_by_field_header d fh)
