-- ===== src/Number/Text.antt =====
-- `Number.ToJSON` of binary-codec/types/st_number.go: the bytes of a number as a text.
use xrpl_go.Base.{
  ℕ, zero, suc, ◌+◌, ◌*◌, ◌/◌, ◌%◌, [], ◌∷◌, ◌++◌, reverse, map, Bytes, Bool, true, false, not,
  ◌&&◌, ◌||◌, ltb, ◌==◌, if◌then◌else◌, min, length, take, drop, replicate,
}
use xrpl_go.Base.Digits.{to_base}
use xrpl_go.Base.Int.{ℤ, pos, negsuc, ◌+ℤ◌, ltb_ℤ, eqb_ℤ, abs, pos_part}
use xrpl_go.Base.Words.{int32_of}
use xrpl_go.Base.Results.{Result, ok, err}
use xrpl_go.Serdes.Parser.{read_bytes}
use xrpl_go.Number.Errors.{NumberError, of_serdes}
use xrpl_go.Number.Normalize.{min_mantissa, max_exponent, default_zero_exp}
use xrpl_go.Number.Parse.{trim_zeros, or_zero}
use xrpl_go.Number.Codec.{read_int64_be, read_int32_be}

abbrev range_log : ℕ
range_log = 18

-- `m.String()`, and `uitoa`.
unfoldable pub decimal : ℕ → Bytes
decimal n = or_zero (map (λ d. d + b'0') (to_base 10 n))

-- `itoa`
unfoldable pub itoa : ℤ → Bytes
itoa n = if ltb_ℤ n (pos 0) then b'-' ∷ decimal (abs n) else decimal (abs n)

abbrev pub sign_text : Bool → Bytes
sign_text is_negative = if is_negative then b'-' ∷ [] else []

-- The loop of `formatScientificBig` that takes zeros off the mantissa. The fuel m is enough.
unfoldable pub strip_zeros : ℕ → ℕ → ℤ → ℕ × ℤ
unfolding ◌+ℤ◌
strip_zeros zero m exp = (m, exp)
strip_zeros (suc f) m exp = elim (not (m == 0) && m % 10 == 0 && ltb_ℤ exp max_exponent) [
  | true ↦ strip_zeros f (m / 10) (exp +ℤ pos 1)
  | false ↦ (m, exp)
]

-- `formatScientificBig`
unfoldable pub format_scientific : ℕ → ℤ → Bool → Bytes
unfolding strip_zeros itoa decimal
format_scientific mantissa_abs exponent is_negative =
    let (m, exp) = strip_zeros mantissa_abs mantissa_abs exponent in
    sign_text is_negative ++ (decimal m ++ (b'e' ∷ itoa exp))

-- `strings.TrimRight(s, "0")`
unfoldable pub trim_right_zeros : Bytes → Bytes
trim_right_zeros s = reverse (trim_zeros (reverse s))

-- The point and the digits behind it, where there are some.
abbrev fraction_text : Bytes → Bytes
fraction_text [] = []
fraction_text (c ∷ s) = b'.' ∷ c ∷ s

-- `formatDecimalBig`
unfoldable pub format_decimal : ℕ → ℤ → Bool → Bytes
unfolding ◌+ℤ◌
format_decimal mantissa_abs exponent is_negative =
    let raw =
      replicate (range_log + 12) b'0' ++ (decimal mantissa_abs ++ replicate (range_log + 8) b'0') in
    let offset = min (pos_part (exponent +ℤ pos (range_log + 12 + range_log + 1))) (length raw) in
    sign_text is_negative
    ++ (or_zero (trim_zeros (take offset raw))
        ++ fraction_text (trim_right_zeros (drop offset raw)))

-- The restored mantissa, which had lost a digit to fit in an int64.
unfoldable pub restore_digit : ℕ → ℤ → ℕ × ℤ
unfolding ◌+ℤ◌
restore_digit mantissa_abs exponent =
    if not (mantissa_abs == 0) && ltb mantissa_abs min_mantissa
    then (mantissa_abs * 10, int32_of (exponent +ℤ negsuc 0))
    else (mantissa_abs, exponent)

-- `ToJSON`, behind the reading of the bytes.
unfoldable pub number_text : ℤ → ℤ → Bytes
unfolding restore_digit format_scientific format_decimal
number_text mantissa exponent =
    let (m, e) = restore_digit (abs mantissa) exponent in
    let is_negative = ltb_ℤ mantissa (pos 0) in
    if mantissa_is_zero && eqb_ℤ exponent default_zero_exp
    then b'0' ∷ []
    else if not (eqb_ℤ e (pos 0)) && (ltb_ℤ e (negsuc 27) || ltb_ℤ (negsuc 7) e)
    then format_scientific m e is_negative
    else format_decimal m e is_negative
  where
    mantissa_is_zero : Bool
    mantissa_is_zero = abs mantissa == 0

-- `ToJSON`
unfoldable pub to_json : Bytes → Result NumberError Bytes × Bytes
unfolding number_text
to_json data_left =
    let (r, rest) = read_bytes (pos 12) data_left in
    elim r [
      | err e ↦ (err (of_serdes e), rest)
      | ok b ↦ (ok (number_text (read_int64_be b 0) (read_int32_be b 8)), rest)
    ]
