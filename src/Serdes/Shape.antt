-- ===== src/Serdes/Shape.antt =====
-- The four shapes of a field identifier in binary-codec/serdes, by the sizes of its two codes.
use Prim.Native.Nat.{bit_or}
use xrpl_go.Base.{
  ℕ, ◌+◌, ◌*◌, ◌%◌, ◌<◌, ◌≤◌, ◌≡◌, ap₂, ◌∙◌, [], ◌∷◌, ◌++◌, Bytes, IsByte, All, arith,
}
use xrpl_go.Base.Int.{ℤ, pos, negsuc, ◌≤ℤ◌}
use xrpl_go.Base.Bits.{bit_or_shifted}
use xrpl_go.Base.Results.{ok}
use xrpl_go.Definitions.{FieldHeader}
use xrpl_go.Serdes.Parser.{read_field_header}
use xrpl_go.Serdes.FieldId.{encode_header, decode_header}
use native.Mathlib.Decide.{dec_lt}

-- Both codes take a byte and are not 0, as those of every field of the protocol that is serialized.
abbrev pub IsSerializable : FieldHeader → Type 0
IsSerializable fh =
    (pos 1 ≤ℤ fh.type_code)
    × (fh.type_code ≤ℤ pos 255)
    × (pos 1 ≤ℤ fh.field_code)
    × (fh.field_code ≤ℤ pos 255)

abbrev pub header : ℕ → ℕ → FieldHeader
header t f = record { type_code = pos t; field_code = pos f }

-- The four shapes of an identifier, by the sizes of the two codes.
nibbles : (t f : ℕ) → t < 16 → f < 16 → bit_or (t % 256 * 16 % 256) (f % 256) ≡ t * 16 + f
nibbles t f ht hf = ap₂ bit_or (omega arith) (omega arith) ∙ bit_or_shifted 4 t f (omega arith)

encode_short_short : (t f : ℕ) → t < 16 → f < 16 → encode_header (header t f) ≡ (t * 16 + f) ∷ []
unfolding encode_header
encode_short_short t f ht hf = ground (arith, nibbles t f ht hf)

encode_long_short : (t f : ℕ) → 16 ≤ t → t < 256 → f < 16 → encode_header (header t f) ≡ f ∷ t ∷ []
unfolding encode_header
encode_long_short t f lo hi hf = ground arith

encode_short_long :
    (t f : ℕ) → t < 16 → 16 ≤ f → f < 256 → encode_header (header t f) ≡ (t * 16) ∷ f ∷ []
unfolding encode_header
encode_short_long t f ht lo hi = ground arith

encode_long_long :
    (t f : ℕ) → 16 ≤ t → t < 256 → 16 ≤ f → f < 256 → encode_header (header t f) ≡ 0 ∷ t ∷ f ∷ []
unfolding encode_header
encode_long_long t f lt ht lf hf = ground arith

-- A header and its identifier, by the sizes of the two codes.
pub data Shape : FieldHeader → Bytes → Type 0 where
  short_short : (t f : ℕ) → 1 ≤ t → t < 16 → 1 ≤ f → f < 16 → Shape (header t f) ((t * 16 + f) ∷ [])
  long_short : (t f : ℕ) → 16 ≤ t → t < 256 → 1 ≤ f → f < 16 → Shape (header t f) (f ∷ t ∷ [])
  short_long :
      (t f : ℕ) → 1 ≤ t → t < 16 → 16 ≤ f → f < 256 → Shape (header t f) ((t * 16) ∷ f ∷ [])
  long_long : (t f : ℕ) → 16 ≤ t → t < 256 → 16 ≤ f → f < 256 → Shape (header t f) (0 ∷ t ∷ f ∷ [])

encode_codes-Shape :
    (t f : ℕ) → 1 ≤ t → t ≤ 255 → 1 ≤ f → f ≤ 255 → Shape (header t f) (encode_header (header t f))
encode_codes-Shape t f a b c d = elim (dec_lt t 16) [
  | yes ht ↦ elim (dec_lt f 16) [
    | yes hf ↦ rw (encode_short_short t f ht hf) (short_short t f a ht c hf)
    | no hf ↦
        rw (encode_short_long t f ht (omega arith) (omega arith))
          (short_long t f a ht (omega arith) (omega arith))
  ]
  | no ht ↦ elim (dec_lt f 16) [
    | yes hf ↦
        rw (encode_long_short t f (omega arith) (omega arith) hf)
          (long_short t f (omega arith) (omega arith) c hf)
    | no hf ↦
        rw (encode_long_long t f (omega arith) (omega arith) (omega arith) (omega arith))
          (long_long t f (omega arith) (omega arith) (omega arith) (omega arith))
  ]
]

pub encode_header-Shape : (fh : FieldHeader) → IsSerializable fh → Shape fh (encode_header fh)
encode_header-Shape fh h = by_signs fh.type_code fh.field_code h
  where
    by_signs :
        (t f : ℤ)
        → IsSerializable (record { type_code = t; field_code = f })
        → Shape
            (record { type_code = t; field_code = f })
            (encode_header (record { type_code = t; field_code = f }))
    by_signs (negsuc t) f (a, b, c, d) = absurd (omega arith)
    by_signs (pos t) (negsuc f) (a, b, c, d) = absurd (omega arith)
    by_signs (pos t) (pos f) (a, b, c, d) =
        encode_codes-Shape t f (omega arith) (omega arith) (omega arith) (omega arith)

pub Shape-encode_header : {fh : FieldHeader} {bs : Bytes} → Shape fh bs → encode_header fh ≡ bs
Shape-encode_header (short_short t f a ht c hf) = encode_short_short t f ht hf
Shape-encode_header (long_short t f a ht c hf) = encode_long_short t f a ht hf
Shape-encode_header (short_long t f a ht c hf) = encode_short_long t f ht c hf
Shape-encode_header (long_long t f a ht c hf) = encode_long_long t f a ht c hf

pub Shape-read :
    {fh : FieldHeader} {bs : Bytes} (rest : Bytes)
    → Shape fh bs
    → read_field_header (bs ++ rest) ≡ (ok fh, rest)
unfolding read_field_header
Shape-read rest (short_short t f a ht c hf) = ground arith
Shape-read rest (long_short t f a ht c hf) = ground arith
Shape-read rest (short_long t f a ht c hf) = ground arith
Shape-read rest (long_long t f a ht c hf) = ground arith

pub Shape-decode : {fh : FieldHeader} {bs : Bytes} → Shape fh bs → decode_header bs ≡ ok fh
unfolding decode_header
Shape-decode (short_short t f a ht c hf) = ground arith
Shape-decode (long_short t f a ht c hf) = ground arith
Shape-decode (short_long t f a ht c hf) = ground arith
Shape-decode (long_long t f a ht c hf) = ground arith

pub Shape-IsByte : {fh : FieldHeader} {bs : Bytes} → Shape fh bs → All IsByte bs
Shape-IsByte (short_short t f a ht c hf) = omega arith
Shape-IsByte (long_short t f a ht c hf) = omega arith
Shape-IsByte (short_long t f a ht c hf) = omega arith
Shape-IsByte (long_long t f a ht c hf) = omega arith

pub Shape-IsSerializable : {fh : FieldHeader} {bs : Bytes} → Shape fh bs → IsSerializable fh
Shape-IsSerializable (short_short t f a ht c hf) = omega arith
Shape-IsSerializable (long_short t f a ht c hf) = omega arith
Shape-IsSerializable (short_long t f a ht c hf) = omega arith
Shape-IsSerializable (long_long t f a ht c hf) = omega arith
