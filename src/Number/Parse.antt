-- ===== src/Number/Parse.antt =====
-- `parseAndNormalize` of binary-codec/types/st_number.go. The regular expression is a scanner: it has
-- one way to match a text.
use xrpl_go.Base.{
  ℕ, ◌-◌, ◌^◌, [], ◌∷◌, ◌++◌, reverse, map, Bytes, Bool, true, false, ◌&&◌, ◌||◌, leb, ◌==◌,
  if◌then◌else◌, Option, none, some, length,
}
use xrpl_go.Base.Digits.{of_base}
use xrpl_go.Base.Int.{ℤ, pos, negsuc, ltb_ℤ, ◌+ℤ◌, ◌-ℤ◌, with_sign}
use xrpl_go.Base.Words.{int32_of}
use xrpl_go.Base.Results.{Result, ok, ◌>>=◌, from_option}
use xrpl_go.Number.Errors.{NumberError, invalid_number, unspecified_exponent}
use xrpl_go.Number.Normalize.{default_zero_exp, normalize}

unfoldable pub is_digit : ℕ → Bool
is_digit c = leb b'0' c && leb c b'9'

-- `[0-9]+` at the start, as many as there are, with the rest.
unfoldable pub span_digits : Bytes → Bytes × Bytes
unfolding is_digit
span_digits [] = ([], [])
span_digits (c ∷ s) =
    let rest = span_digits s in if is_digit c then (c ∷ rest.0, rest.1) else ([], c ∷ s)

unfoldable pub some_digits : Bytes → Option (Bytes × Bytes)
unfolding span_digits
some_digits s =
    let (digits, rest) = span_digits s in elim digits [ [] ↦ none | d ∷ ds ↦ some (d ∷ ds, rest) ]

-- `[-+]?`
unfoldable pub optional_sign : Bytes → Bool × Bytes
optional_sign [] = (false, [])
optional_sign (c ∷ s) =
    if c == b'-' then (true, s) else if c == b'+' then (false, s) else (false, c ∷ s)

-- The submatches; an exponent has its sign with its digits.
pub record Match : Type 0 where
  pub negative : Bool
  pub int_part : Bytes
  pub frac_part : Bytes
  pub exp_part : Option (Bool × Bytes)

-- `(?:[eE]([+-]?[0-9]+))?$`
unfoldable pub match_exponent : Bytes → Option (Option (Bool × Bytes))
unfolding some_digits optional_sign
match_exponent [] = some none
match_exponent (c ∷ s) =
    if c == b'e' || c == b'E'
    then (elim (some_digits (optional_sign s).1) [
      | none ↦ none
      | some (ds, []) ↦ some (some ((optional_sign s).0, ds))
      | some (ds, x ∷ rest) ↦ none
    ])
    else none

-- `(?:\.([0-9]+))?`
unfoldable pub match_fraction : Bytes → Option (Bytes × Bytes)
unfolding some_digits
match_fraction [] = some ([], [])
match_fraction (c ∷ s) = if c == b'.' then some_digits s else some ([], c ∷ s)

-- `numberRegex.FindStringSubmatch`
unfoldable pub match_number : Bytes → Option Match
unfolding optional_sign some_digits match_fraction match_exponent
match_number s = elim (some_digits (optional_sign s).1) [
  | none ↦ none
  | some (int_part, s1) ↦ elim (match_fraction s1) [
    | none ↦ none
    | some (frac_part, s2) ↦ elim (match_exponent s2) [
      | none ↦ none
      | some exp_part ↦ some (record {
        negative = (optional_sign s).0;
        int_part = int_part;
        frac_part = frac_part;
        exp_part = exp_part;
      })
    ]
  ]
]

-- `SetString(digits, 10)`
unfoldable pub digits_value : Bytes → ℕ
digits_value s = of_base 10 (map (λ c. c - b'0') s)

-- `strings.TrimLeft(s, "0")`
unfoldable pub trim_zeros : Bytes → Bytes
trim_zeros [] = []
trim_zeros (c ∷ s) = if c == b'0' then trim_zeros s else c ∷ s

-- `if intPart == "" { intPart = "0" }`
unfoldable pub or_zero : Bytes → Bytes
or_zero [] = b'0' ∷ []
or_zero (c ∷ s) = c ∷ s

-- `parseIntFromString`. What `Int64()` gives for a number that is no int64 is not specified, so
-- there is no answer then.
unfoldable pub parse_int_from_string : Bool × Bytes → Option ℤ
unfolding digits_value
parse_int_from_string (negative, ds) =
    let n = with_sign negative (digits_value ds) in
    if ltb_ℤ n (negsuc (2 ^ 63 - 1)) || ltb_ℤ (pos (2 ^ 63 - 1)) n then none else some n

-- The exponent of the fraction and of `expPart`, in int32.
unfoldable pub exponent_of : Bytes → Option (Bool × Bytes) → Option ℤ
unfolding parse_int_from_string ◌+ℤ◌ ◌-ℤ◌
exponent_of frac_part exp_part =
    let shifted = int32_of (pos 0 -ℤ int32_of (pos (length frac_part))) in
    elim exp_part [
      | none ↦ some shifted
      | some e ↦ elim (parse_int_from_string e) [
        | none ↦ none
        | some exp_val ↦ some (int32_of (shifted +ℤ int32_of exp_val))
      ]
    ]

-- The loop that takes zeros off the end, on the reversed digits.
unfoldable pub drop_trailing : Bytes → ℤ → Bytes × ℤ
unfolding ◌+ℤ◌
drop_trailing [] exponent = ([], exponent)
drop_trailing (c ∷ []) exponent = (c ∷ [], exponent)
drop_trailing (c ∷ d ∷ s) exponent =
    let rest = drop_trailing (d ∷ s) (int32_of (exponent +ℤ pos 1)) in
    if c == b'0' then rest else (c ∷ d ∷ s, exponent)

-- What `parseAndNormalize` does with the submatches and the exponent.
unfoldable pub number_of_digits : Match → ℤ → Result NumberError (ℤ × ℤ)
unfolding trim_zeros or_zero drop_trailing digits_value
number_of_digits p exponent =
    let kept = drop_trailing (reverse (or_zero (trim_zeros p.int_part) ++ p.frac_part)) exponent in
    let mantissa = digits_value (reverse kept.0) in
    if mantissa == 0
    then ok (pos 0, default_zero_exp)
    else normalize (with_sign p.negative mantissa) kept.1

unfoldable pub number_of_match : Match → Result NumberError (ℤ × ℤ)
unfolding exponent_of number_of_digits
number_of_match p = do
  exponent ← from_option (exponent_of p.frac_part p.exp_part) unspecified_exponent
  number_of_digits p exponent

-- `parseAndNormalize`
unfoldable pub parse_and_normalize : Bytes → Result NumberError (ℤ × ℤ)
unfolding match_number number_of_match
parse_and_normalize s = do p ← from_option (match_number s) invalid_number; number_of_match p
