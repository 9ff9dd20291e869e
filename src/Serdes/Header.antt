-- ===== src/Serdes/Header.antt =====
-- Field identifiers: `FieldIDCodec` against the header reader of the parser.
use xrpl_go.Base.{
  ℕ, ◌+◌, ◌*◌, ◌/◌, ◌%◌, ◌<◌, ◌≤◌, ◌≡◌, ◌≢◌, ◌↔◌, ap, ap₂, [], ◌∷◌, ◌++◌, Bytes, IsByte, All,
  String, arith,
}
use xrpl_go.Base.Results.{ok}
use xrpl_go.Hexutil.{encode_to_upper_hex, decode_string-encode_to_upper_hex}
use xrpl_go.Definitions.{
  Definitions, FieldHeader, get_field_header_by_field_name, get_field_name_by_field_header,
}
use xrpl_go.Serdes.Parser.{read_field_header}
use xrpl_go.Serdes.FieldId.{encode_header, encode, decode}
use native.Mathlib.Decide.{ℕ_discrete}
use xrpl_go.Serdes.Shape.{
  IsSerializable, header, Shape, short_short, long_short, short_long, long_long,
  encode_header-Shape, Shape-encode_header, Shape-read, Shape-decode, Shape-IsByte,
  Shape-IsSerializable,
}

-- The identifier of a header whose codes are bytes other than 0 is read back as that header, and
-- what follows it is left.
pub read_field_header-encode_header :
    (fh : FieldHeader) (rest : Bytes)
    → IsSerializable fh
    → read_field_header (encode_header fh ++ rest) ≡ (ok fh, rest)
read_field_header-encode_header fh rest h = Shape-read rest (encode_header-Shape fh h)

-- For a name whose header has codes that are bytes other than 0, and stands for the name, decoding
-- the hexadecimal text of its identifier gives the name back.
pub decode-encode :
    (d : Definitions) (n : String) (fh : FieldHeader)
    → IsSerializable fh
    → get_field_header_by_field_name d n ≡ ok fh
    → get_field_name_by_field_header d fh ≡ ok n
    → (b : Bytes) × (encode d n ≡ ok b) × (decode d (encode_to_upper_hex b) ≡ ok n)
unfolding encode decode
decode-encode d n fh h found named = (
  encode_header fh,
  rw found,
  rw (
    decode_string-encode_to_upper_hex _ (Shape-IsByte (encode_header-Shape fh h)),
    Shape-decode (encode_header-Shape fh h),
    named,
  ),
)

-- A header that was read came from its identifier, whose bytes come first.
abbrev ReadAs : Bytes → FieldHeader → Bytes → Type 0
ReadAs bs fh rest = (head : Bytes) × Shape fh head × (bs ≡ head ++ rest)

-- The first byte holds both codes.
sound_short_short :
    (b : ℕ) (bs rest : Bytes) (fh : FieldHeader)
    → b < 256
    → b / 16 ≢ 0
    → b % 16 ≢ 0
    → read_field_header (b ∷ bs) ≡ (ok fh, rest)
    → ReadAs (b ∷ bs) fh rest
unfolding read_field_header
sound_short_short b bs rest fh hb ht hf e =
    let eq : fh ≡ header (b / 16) (b % 16) = ground arith in
    let left : bs ≡ rest = ground arith in
    (
      (b / 16 * 16 + b % 16) ∷ [],
      rw eq (short_short (b / 16) (b % 16) (omega arith) (omega arith) (omega arith) (omega arith)),
      ap₂ ◌∷◌ (omega arith) left,
    )

-- The first byte holds the field code.
sound_long_short :
    (b : ℕ) (bs rest : Bytes) (fh : FieldHeader)
    → All IsByte bs
    → b < 16
    → b ≢ 0
    → read_field_header (b ∷ bs) ≡ (ok fh, rest)
    → ReadAs (b ∷ bs) fh rest
unfolding read_field_header
sound_long_short b [] rest fh h hb hf e = absurd (ground arith)
sound_long_short b (t ∷ bs) rest fh (ht, h) hb hf e =
    let eq : fh ≡ header t b = ground arith in
    let left : bs ≡ rest = ground arith in
    let long : 16 ≤ t = ground arith in
    (b ∷ t ∷ [], rw eq (long_short t b long ht (omega arith) hb), rw left)

-- The first byte holds the type code.
sound_short_long :
    (b : ℕ) (bs rest : Bytes) (fh : FieldHeader)
    → All IsByte bs
    → b < 256
    → b / 16 ≢ 0
    → b % 16 ≡ 0
    → read_field_header (b ∷ bs) ≡ (ok fh, rest)
    → ReadAs (b ∷ bs) fh rest
unfolding read_field_header
sound_short_long b [] rest fh h hb ht hf e = absurd (ground arith)
sound_short_long b (f ∷ bs) rest fh (h1, h) hb ht hf e =
    let eq : fh ≡ header (b / 16) f = ground arith in
    let left : bs ≡ rest = ground arith in
    let long : 16 ≤ f = ground arith in
    (
      (b / 16 * 16) ∷ f ∷ [],
      rw eq (short_long (b / 16) f (omega arith) (omega arith) long h1),
      ap₂ ◌∷◌ (omega arith) (ap (λ l. f ∷ l) left),
    )

-- The first byte is 0.
sound_long_long :
    (bs rest : Bytes) (fh : FieldHeader)
    → All IsByte bs
    → read_field_header (0 ∷ bs) ≡ (ok fh, rest)
    → ReadAs (0 ∷ bs) fh rest
unfolding read_field_header
sound_long_long [] rest fh h e = absurd (ground arith)
sound_long_long (t ∷ []) rest fh h e = absurd (ground arith)
sound_long_long (t ∷ f ∷ bs) rest fh (ht, (hf, h)) e =
    let eq : fh ≡ header t f = ground arith in
    let left : bs ≡ rest = ground arith in
    let long_type : 16 ≤ t = ground arith in
    let long_field : 16 ≤ f = ground arith in
    (0 ∷ t ∷ f ∷ [], rw eq (long_long t f long_type ht long_field hf), rw left)

read_field_header-ReadAs :
    (bs rest : Bytes) (fh : FieldHeader)
    → All IsByte bs
    → read_field_header bs ≡ (ok fh, rest)
    → ReadAs bs fh rest
read_field_header-ReadAs [] rest fh h e = absurd (unfold read_field_header in cc)
read_field_header-ReadAs (b ∷ bs) rest fh (hb, h) e = elim (ℕ_discrete (b / 16) 0) [
  | yes ht ↦ elim (ℕ_discrete (b % 16) 0) [
    | yes hf ↦
        let zero_byte : b ≡ 0 = omega arith in
        rw zero_byte (sound_long_long bs rest fh h (rw zero_byte at e))
    | no hf ↦ sound_long_short b bs rest fh h (omega arith) (omega arith) e
  ]
  | no ht ↦ elim (ℕ_discrete (b % 16) 0) [
    | yes hf ↦ sound_short_long b bs rest fh h hb ht hf e
    | no hf ↦ sound_short_short b bs rest fh hb ht hf e
  ]
]

-- The parser reads a header from bytes exactly if they start with the identifier that the codec
-- writes for it and the header's codes are bytes other than 0; the rest is left. So no two
-- identifiers stand for one header, and none is the start of another.
pub read_field_header_iff :
    (bs rest : Bytes) (fh : FieldHeader)
    → All IsByte bs
    → (read_field_header bs ≡ (ok fh, rest)) ↔ (IsSerializable fh × (bs ≡ encode_header fh ++ rest))
read_field_header_iff bs rest fh h = (
  λ e.
      let (head, shape, eq) = read_field_header-ReadAs bs rest fh h e in
      (Shape-IsSerializable shape, rw (Shape-encode_header shape) eq),
  λ p. rw (p.1) (read_field_header-encode_header fh rest p.0),
)
