-- ===== src/Types/Integers/Texts.antt =====
-- The texts of a UInt64, read back: `strconv.FormatUint` and `EncodeToUpperHex` against
-- `strconv.ParseUint`.
use xrpl_go.Base.{
  ℕ, ◌+◌, ◌-◌, ◌*◌, ◌/◌, ◌%◌, ◌^◌, ◌<◌, ◌≡◌, refl, sym, subst, ap, ap₂, ◌∙◌, [], ◌∷◌, ◌++◌, Bytes,
  IsByte, All, true, false, not, map, arith, length, List, some, ◌==◌,
}
use xrpl_go.Base.Digits.{of_base, of_base_from, to_base, of_base-to_base, to_base-All}
use xrpl_go.Base.Words.{put_be, get_be, get_be_from, length-put_be, get_be-put_be, put_be-IsByte}
use xrpl_go.Base.Results.{ok, bind-ok, guard, from_option, from_option-ok}
use xrpl_go.Hexutil.{encode_to_upper_hex, to_upper, lower_digit}
use xrpl_go.Number.Parse.{is_digit, digits_value, or_zero}
use xrpl_go.Number.Text.{decimal}
use xrpl_go.Types.Errors.{invalid_uint64_string}
use xrpl_go.Types.Value.{
  Value, integer, float64, null, other, string, named_string, strings, array, objects, object,
  string_map,
}
use xrpl_go.Types.Reader.{read_as-append}
use xrpl_go.Types.Law.{ReadsBack}
use xrpl_go.Types.Integers.{
  Radix, base_decimal, base_hex, every_byte, is_hex, is_hex_char, hex_value, parse_uint64,
  is_uint64_text, uint64_from_json, uint64_to_json,
}

upper_digit_value : (v : ℕ) → v < 16 → hex_value (to_upper (lower_digit v)) ≡ v
upper_digit_value v h = ground arith

upper_digit_is_hex : (v : ℕ) → v < 16 → is_hex_char (to_upper (lower_digit v)) ≡ true
upper_digit_is_hex v h = ground arith

hex_value_from :
    (bs : Bytes) (acc : ℕ)
    → All IsByte bs
    → of_base_from 16 acc (map hex_value (encode_to_upper_hex bs)) ≡ get_be_from acc bs
unfolding encode_to_upper_hex of_base_from get_be_from
hex_value_from [] acc h = refl
hex_value_from (b ∷ bs) acc (hb, hs) =
    rw (upper_digit_value (b / 16) (omega arith), upper_digit_value (b % 16) (omega arith))
      (ap (λ (t : ℕ). of_base_from 16 t (map hex_value (encode_to_upper_hex bs))) (omega arith)
        ∙ hex_value_from bs (acc * 256 + b) hs)

-- The hexadecimal text of bytes has their value.
hex_text_value :
    (bs : Bytes) → All IsByte bs → of_base 16 (map hex_value (encode_to_upper_hex bs)) ≡ get_be bs
unfolding of_base get_be
hex_text_value bs h = hex_value_from bs 0 h

length-encode_to_upper_hex : (bs : Bytes) → length (encode_to_upper_hex bs) ≡ 2 * length bs
unfolding encode_to_upper_hex
length-encode_to_upper_hex [] = refl
length-encode_to_upper_hex (b ∷ bs) = omega (arith, length-encode_to_upper_hex bs)

every_byte-encode_to_upper_hex :
    (bs : Bytes) → All IsByte bs → every_byte is_hex_char (encode_to_upper_hex bs) ≡ true
unfolding encode_to_upper_hex every_byte
every_byte-encode_to_upper_hex [] h = refl
every_byte-encode_to_upper_hex (b ∷ bs) (hb, hs) = rw (
  upper_digit_is_hex (b / 16) (omega arith),
  upper_digit_is_hex (b % 16) (omega arith),
  every_byte-encode_to_upper_hex bs hs,
)

digit_value : (d : ℕ) → d < 10 → d + b'0' - b'0' ≡ d
digit_value d h = omega arith

map_back : (ds : List ℕ) → map (λ c. c - b'0') (map (λ d. d + b'0') ds) ≡ ds
map_back [] = refl
map_back (d ∷ ds) = ap₂ (λ x y. x ∷ y) (omega arith) (map_back ds)

or_zero_value :
    (ds : List ℕ)
    → of_base 10 (map (λ c. c - b'0') (or_zero (map (λ d. d + b'0') ds))) ≡ of_base 10 ds
unfolding or_zero of_base of_base_from
or_zero_value [] = refl
or_zero_value (d ∷ ds) = ap (of_base 10) (map_back (d ∷ ds))

-- The decimal text of a number has its value.
pub digits_value-decimal : (n : ℕ) → digits_value (decimal n) ≡ n
unfolding digits_value decimal
digits_value-decimal n = or_zero_value (to_base 10 n) ∙ of_base-to_base 10 (omega arith) n

every_byte-digits :
    (ds : List ℕ) → All (λ d. d < 10) ds → every_byte is_digit (map (λ d. d + b'0') ds) ≡ true
unfolding every_byte is_digit
every_byte-digits [] h = refl
every_byte-digits (d ∷ ds) (hd, hs) = ground (arith, every_byte-digits ds hs)

every_byte-or_zero :
    (s : Bytes) → every_byte is_digit s ≡ true → every_byte is_digit (or_zero s) ≡ true
unfolding or_zero every_byte is_digit
every_byte-or_zero [] h = refl
every_byte-or_zero (c ∷ s) h = h

pub every_byte-decimal : (n : ℕ) → every_byte is_digit (decimal n) ≡ true
unfolding decimal
every_byte-decimal n =
    every_byte-or_zero _ (every_byte-digits (to_base 10 n) (to_base-All 10 (omega arith) n))

or_zero_some : (s : Bytes) → (length (or_zero s) == 0) ≡ false
unfolding or_zero
or_zero_some [] = refl
or_zero_some (c ∷ s) = ground arith

pub decimal_some : (n : ℕ) → (length (decimal n) == 0) ≡ false
unfolding decimal
decimal_some n = or_zero_some (map (λ d. d + b'0') (to_base 10 n))

module _ (base : Radix) where
  uint64_text_written :
      (s : Bytes) (k : ℕ)
      → (length s == 0) ≡ false
      → is_uint64_text base s ≡ true
      → parse_uint64 base s ≡ some k
      → uint64_from_json base (string s) ≡ ok (put_be 8 k)
  unfolding uint64_from_json
  uint64_text_written s k some_text is_text parsed = rw (some_text, is_text, parsed)

  string_written :
      (s b : Bytes)
      → uint64_from_json base (string s) ≡ ok b
      → (k : ℕ) × (parse_uint64 base s ≡ some k) × (put_be 8 k ≡ b)
  unfolding uint64_from_json
  string_written s b h =
      let (_, _, h1) = bind-ok (guard (not (length s == 0)) invalid_uint64_string) _ b h in
      let (_, _, h2) = bind-ok (guard (is_uint64_text base s) invalid_uint64_string) _ b h1 in
      let (k, c, h3) = bind-ok (from_option (parse_uint64 base s) invalid_uint64_string) _ b h2 in
      (k, from_option-ok (parse_uint64 base s) invalid_uint64_string k c, cc)

parse_uint64-below : (base : Radix) (s : Bytes) (k : ℕ) → parse_uint64 base s ≡ some k → k < 2 ^ 64
unfolding parse_uint64
parse_uint64-below base_decimal s k h = ground arith
parse_uint64-below base_hex s k h = ground arith

-- What the codec wrote is eight bytes of a number below 2 ^ 64.
uint64_written :
    (base : Radix) (v : Value) (b : Bytes)
    → uint64_from_json base v ≡ ok b
    → (k : ℕ) × (k < 2 ^ 64) × (put_be 8 k ≡ b)
unfolding uint64_from_json
uint64_written base (string s) b h =
    let (k, c, q) = string_written base s b h in (k, parse_uint64-below base s k c, q)
uint64_written base null b h = cc
uint64_written base other b h = cc
uint64_written base (named_string s) b h = cc
uint64_written base (integer t v) b h = cc
uint64_written base (float64 v) b h = cc
uint64_written base (strings s) b h = cc
uint64_written base (array s) b h = cc
uint64_written base (objects s) b h = cc
uint64_written base (string_map s) b h = cc
uint64_written base (object s) b h = cc

parse_uint64-decimal : (k : ℕ) → k < 2 ^ 64 → parse_uint64 base_decimal (decimal k) ≡ some k
unfolding parse_uint64
parse_uint64-decimal k h = rw (digits_value-decimal k) (ground arith)

parse_uint64-hex :
    (k : ℕ) → k < 2 ^ 64 → parse_uint64 base_hex (encode_to_upper_hex (put_be 8 k)) ≡ some k
unfolding parse_uint64
parse_uint64-hex k h =
    rw (hex_text_value (put_be 8 k) (put_be-IsByte 8 k), get_be-put_be 8 k (omega arith))
      (ground arith)

is_hex_of :
    (s : Bytes) → (length s == 0) ≡ false → every_byte is_hex_char s ≡ true → is_hex s ≡ true
unfolding is_hex
is_hex_of [] e h = cc
is_hex_of (c ∷ s) e h = h

length_hex : (k : ℕ) → length (encode_to_upper_hex (put_be 8 k)) ≡ 16
length_hex k = omega (arith, length-encode_to_upper_hex (put_be 8 k), length-put_be 8 k)

uint64_hex_text : (k : ℕ) → is_uint64_text base_hex (encode_to_upper_hex (put_be 8 k)) ≡ true
unfolding is_uint64_text
uint64_hex_text k =
    let size : (length (encode_to_upper_hex (put_be 8 k)) == 0) ≡ false =
      ground (arith, length_hex k) in
    ground (
      arith,
      length_hex k,
      is_hex_of (encode_to_upper_hex (put_be 8 k)) size
          (every_byte-encode_to_upper_hex (put_be 8 k) (put_be-IsByte 8 k)),
    )

uint64_decimal_text : (k : ℕ) → is_uint64_text base_decimal (decimal k) ≡ true
unfolding is_uint64_text
uint64_decimal_text k = every_byte-decimal k

eight_bytes : (k : ℕ) (b : Bytes) → put_be 8 k ≡ b → length b ≡ 8
eight_bytes k b q = ap length (sym q) ∙ length-put_be 8 k

-- The text of a number in a radix.
abbrev pub uint64_text : Radix → ℕ → Bytes
uint64_text base_decimal k = decimal k
uint64_text base_hex k = encode_to_upper_hex (put_be 8 k)

-- What a UInt64 writes is eight bytes, which it reads as the text of their number, and that text is
-- written as the same bytes.
pub uint64_to_json-uint64_from_json :
    (base : Radix) (v : Value) (b rest : Bytes)
    → uint64_from_json base v ≡ ok b
    → (k : ℕ) × (k < 2 ^ 64)
      × (put_be 8 k ≡ b)
      × (uint64_to_json base (b ++ rest) ≡ (ok (string (uint64_text base k)), rest))
      × (uint64_from_json base (string (uint64_text base k)) ≡ ok b)
unfolding uint64_to_json
uint64_to_json-uint64_from_json base_decimal v b rest h =
    let (k, small, q) = uint64_written base_decimal v b h in
    (
      k,
      small,
      q,
      read_as-append 8 _ b rest (eight_bytes k b q)
          ∙ ap (λ (x : ℕ). (ok (string (decimal x)), rest))
              (ap get_be (sym q) ∙ get_be-put_be 8 k (omega arith)),
      uint64_text_written base_decimal (decimal k) k (decimal_some k) (uint64_decimal_text k)
            (parse_uint64-decimal k small)
          ∙ ap ok q,
    )
uint64_to_json-uint64_from_json base_hex v b rest h =
    let (k, small, q) = uint64_written base_hex v b h in
    (
      k,
      small,
      q,
      read_as-append 8 _ b rest (eight_bytes k b q)
          ∙ ap (λ x. (ok (string (encode_to_upper_hex x)), rest)) (sym q),
      uint64_text_written base_hex _ k (ground (arith, length_hex k)) (uint64_hex_text k)
            (parse_uint64-hex k small)
          ∙ ap ok q,
    )

pub uint64-ReadsBack : (base : Radix) → ReadsBack (uint64_from_json base) (λ n. uint64_to_json base)
uint64-ReadsBack base v b rest h =
    let (k, small, q, read, back) = uint64_to_json-uint64_from_json base v b rest h in
    (string (uint64_text base k), read, back, subst (All IsByte) q (put_be-IsByte 8 k))
