-- ===== src/Serdes/Parser.antt =====
-- binary-codec/serdes/binary_parser.go. The parser's state is the data that is left; a method takes
-- it and returns its result with the new state, on its error paths too. A byte is a number.
use xrpl_go.Base.{
  ℕ, zero, suc, ◌+◌, ◌-◌, ◌*◌, ◌/◌, ◌%◌, [], ◌∷◌, ◌++◌, Bytes, Bool, true, false, ◌&&◌, ◌||◌, ltb,
  ◌==◌, if◌then◌else◌,
}
use xrpl_go.Base.Int.{ℤ, pos, negsuc}
use xrpl_go.Base.Results.{Result, ok, err}
use xrpl_go.Definitions.{
  Definitions, FieldHeader, FieldInstance, get_field_name_by_field_header,
  get_field_instance_by_field_name,
}
use xrpl_go.Serdes.Errors.{
  SerdesError, parser_out_of_bound, invalid_typecode, invalid_fieldcode, lift_definitions,
}

abbrev pub Parser : Type 0 → Type 0
Parser A = Bytes → Result SerdesError A × Bytes

-- What follows a step: the rest, or nothing after an error.
abbrev pub and_then :
    {A B : Type 0} → Result SerdesError A × Bytes → (A → Parser B) → Result SerdesError B × Bytes
and_then (ok a, d) f = f a d
and_then (err e, d) f = (err e, d)

infixl 5 ◌>>=◌ ◌>>◌
abbrev pub ◌>>=◌ : {A B : Type 0} → Parser A → (A → Parser B) → Parser B
◌>>=◌ m f d = and_then (m d) f

abbrev pub ◌>>◌ : {B : Type 0} → Parser (Unit {0}) → Parser B → Parser B
m >> k = m >>= λ _. k

abbrev pub return : {A : Type 0} → A → Parser A
return a d = (ok a, d)

abbrev pub fail : {A : Type 0} → SerdesError → Parser A
fail e d = (err e, d)

abbrev pub of_result : {A : Type 0} → Result SerdesError A → Parser A
of_result r d = (r, d)

-- `NewBinaryParser`
abbrev pub new_binary_parser : Bytes → Bytes
new_binary_parser d = d

unfoldable pub read_byte : Parser ℕ
read_byte [] = (err parser_out_of_bound, [])
read_byte (b ∷ data_left) = (ok b, data_left)

unfoldable pub peek : Parser ℕ
peek [] = (err parser_out_of_bound, [])
peek (b ∷ data_left) = (ok b, b ∷ data_left)

-- `for range n`, with the bytes read so far.
unfoldable pub read_bytes_loop : ℕ → Bytes → Parser Bytes
unfolding read_byte
read_bytes_loop zero bytes = return bytes
read_bytes_loop (suc n) bytes = do b ← read_byte; read_bytes_loop n (bytes ++ (b ∷ []))

unfoldable pub read_bytes : ℤ → Parser Bytes
unfolding read_bytes_loop
read_bytes (pos n) = read_bytes_loop n []
read_bytes (negsuc n) = fail parser_out_of_bound

unfoldable pub has_more : Bytes → Bool
has_more [] = false
has_more (b ∷ data_left) = true

-- Reads a code that the first byte does not hold, which must be 16 at least.
unfoldable pub read_long_code : SerdesError → Parser ℕ
unfolding read_byte
read_long_code invalid = do
  code ← read_byte
  if code == 0 || ltb code 16 then fail invalid else return code

-- One of the two codes of a header: `code` from the first byte, or a byte of its own if that is 0.
unfoldable pub read_code : ℕ → SerdesError → Parser ℕ
unfolding read_long_code
read_code code invalid = if code == 0 then read_long_code invalid else return code

-- `typeCode & 15` and `typeCode >> 4` on a byte.
unfoldable pub read_field_header : Parser FieldHeader
unfolding read_byte read_code
read_field_header = do
  b ← read_byte
  type_code ← read_code (b / 16) invalid_typecode
  field_code ← read_code (b % 16) invalid_fieldcode
  return (record { type_code = pos type_code; field_code = pos field_code })

unfoldable pub read_field : Definitions → Parser FieldInstance
unfolding read_field_header
read_field d = do
  fh ← read_field_header
  fn ← of_result (lift_definitions (get_field_name_by_field_header d fh))
  of_result (lift_definitions (get_field_instance_by_field_name d fn))

-- The bodies of the two branches of `ReadVariableLength` that read on.
unfoldable pub read_two_byte_length : ℕ → Parser ℕ
unfolding read_byte
read_two_byte_length b1 = do b2 ← read_byte; return (193 + (b1 - 193) * 256 + b2)

unfoldable pub read_three_byte_length : ℕ → Parser ℕ
unfolding read_byte
read_three_byte_length b1 = do
  b2 ← read_byte
  b3 ← read_byte
  return (12481 + (b1 - 241) * 65536 + b2 * 256 + b3)

unfoldable pub read_variable_length : Parser ℕ
unfolding read_byte read_two_byte_length read_three_byte_length
read_variable_length = do
  b1 ← read_byte
  if ltb 192 b1 && ltb b1 241
      then read_two_byte_length b1
      else if ltb 240 b1 && ltb b1 255
      then read_three_byte_length b1
      else return b1
