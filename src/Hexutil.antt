-- ===== src/Hexutil.antt =====
-- pkg/hexutil, and the two functions of Go's encoding/hex under it. A text is its bytes.
use xrpl_go.Base.{
  ℕ, ◌+◌, ◌-◌, ◌*◌, ◌/◌, ◌%◌, ◌<◌, ◌≡◌, refl, ap, [], ◌∷◌, Bytes, IsByte, All, ◌&&◌, Option, none,
  some, arith, ltb, leb, ◌==◌, if◌then◌else◌, length,
}
use xrpl_go.Base.Results.{Result, ok, err, ◌>>=◌, ◌>>◌, guard, from_option, bind-ok, from_option-ok}

-- `hex.InvalidByteError` and `hex.ErrLength`, and the length error of `DecodeFixedHex`.
pub data HexError : Type 0 where
  invalid_byte : ℕ → HexError
  odd_length : HexError
  expected_bytes : ℕ → ℕ → HexError

-- `hextable[v]`
abbrev pub lower_digit : ℕ → ℕ
lower_digit v = if ltb v 10 then b'0' + v else b'a' + v - 10

-- `strings.ToUpper` on an ASCII byte.
abbrev pub to_upper : ℕ → ℕ
to_upper c = if leb b'a' c && leb c b'z' then c - 32 else c

unfoldable pub encode_to_upper_hex : Bytes → Bytes
encode_to_upper_hex [] = []
encode_to_upper_hex (b ∷ bs) =
    to_upper (lower_digit (b / 16)) ∷ to_upper (lower_digit (b % 16)) ∷ encode_to_upper_hex bs

-- `reverseHexTable`
abbrev pub from_hex_char : ℕ → Option ℕ
from_hex_char c =
    if leb b'0' c && leb c b'9'
    then some (c - b'0')
    else if leb b'a' c && leb c b'f'
    then some (c - b'a' + 10)
    else if leb b'A' c && leb c b'F'
    then some (c - b'A' + 10)
    else none

-- `hex.DecodeString`: an odd text is refused after its last byte has been looked at.
unfoldable pub decode_string : Bytes → Result HexError Bytes
decode_string [] = ok []
decode_string (a ∷ []) = do _ ← from_option (from_hex_char a) (invalid_byte a); err odd_length
decode_string (a ∷ b ∷ s) = do
  hi ← from_option (from_hex_char a) (invalid_byte a)
  lo ← from_option (from_hex_char b) (invalid_byte b)
  rest ← decode_string s
  ok ((hi * 16 + lo) ∷ rest)

-- `DecodeFixedHex`
unfoldable pub decode_fixed_hex : Bytes → ℕ → Result HexError Bytes
unfolding decode_string
decode_fixed_hex hex_str size = do
  b ← decode_string hex_str
  guard (length b == size) (expected_bytes size (length b))
  ok b

from_upper_digit : (v : ℕ) → v < 16 → from_hex_char (to_upper (lower_digit v)) ≡ some v
from_upper_digit v h = ground arith

-- Decoding the hexadecimal text of bytes gives the bytes back.
pub decode_string-encode_to_upper_hex :
    (bs : Bytes) → All IsByte bs → decode_string (encode_to_upper_hex bs) ≡ ok bs
unfolding decode_string encode_to_upper_hex
decode_string-encode_to_upper_hex [] h = refl
decode_string-encode_to_upper_hex (b ∷ bs) (hb, hs) =
    rw
      (
        from_upper_digit (b / 16) (omega arith),
        from_upper_digit (b % 16) (omega arith),
        decode_string-encode_to_upper_hex bs hs,
      )
      (ap (λ (t : ℕ). ok (t ∷ bs)) (omega arith))

hex_char-below : (c v : ℕ) → from_hex_char c ≡ some v → v < 16
hex_char-below c v h = ground arith

-- What `hex.DecodeString` gives are bytes.
pub decode_string-IsByte : (s bs : Bytes) → decode_string s ≡ ok bs → All IsByte bs
unfolding decode_string
decode_string-IsByte [] bs h = let q : Path Bytes [] bs = cc in rw (← q) tt
decode_string-IsByte (a ∷ []) bs h =
    let (_, _, h1) = bind-ok (from_option (from_hex_char a) (invalid_byte a)) _ bs h in cc
decode_string-IsByte (a ∷ b ∷ s) bs h =
    let (hi, top, h1) = bind-ok (from_option (from_hex_char a) (invalid_byte a)) _ bs h in
    let (lo, low, h2) = bind-ok (from_option (from_hex_char b) (invalid_byte b)) _ bs h1 in
    let (rest, below, h3) = bind-ok (decode_string s) _ bs h2 in
    let q : (hi * 16 + lo) ∷ rest ≡ bs = cc in
    let hi_small = hex_char-below a hi (from_option-ok _ (invalid_byte a) hi top) in
    let lo_small = hex_char-below b lo (from_option-ok _ (invalid_byte b) lo low) in
    rw (← q) (omega (arith, hi_small, lo_small), decode_string-IsByte s rest below)
