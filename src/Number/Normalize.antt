-- ===== src/Number/Normalize.antt =====
-- `normalize` of binary-codec/types/st_number.go. A `big.Int` is an integer, and its absolute value a
-- natural number; an exponent is an int32, and where it changes it cannot wrap, since it is compared
-- with `minExponent` or `maxExponent` first.
use xrpl_go.Base.{
  ℕ, zero, suc, ◌+◌, ◌*◌, ◌/◌, ◌%◌, Bool, true, false, ◌&&◌, ◌||◌, ltb, leb, ◌==◌, if◌then◌else◌,
  Option, none, some,
}
use xrpl_go.Base.Int.{ℤ, pos, negsuc, ◌+ℤ◌, ltb_ℤ, leb_ℤ, abs, with_sign}
use xrpl_go.Base.Results.{Result, ok, err, ◌>>=◌}
use xrpl_go.Number.Errors.{NumberError, number_overflow, invalid_exponent, underflow}

abbrev pub min_mantissa : ℕ
min_mantissa = 1000000000000000000

abbrev pub max_mantissa : ℕ
max_mantissa = 9999999999999999999

abbrev pub max_int64 : ℕ
max_int64 = 9223372036854775807

abbrev pub min_exponent : ℤ
min_exponent = negsuc 32767

abbrev pub max_exponent : ℤ
max_exponent = pos 32768

abbrev pub default_zero_exp : ℤ
default_zero_exp = negsuc 2147483647

-- A magnitude in the making: its exponent, and the last digit that was dropped.
pub record Scaled : Type 0 where
  pub m : ℕ
  pub exponent : ℤ
  pub last_digit : Option ℕ

-- `for m.Cmp(minMantissa) < 0 && exponent > minExponent`. The fuel 18 is enough for m above 0.
unfoldable pub scale_up : ℕ → ℕ → ℤ → ℕ × ℤ
unfolding ◌+ℤ◌
scale_up zero m exponent = (m, exponent)
scale_up (suc f) m exponent = elim (ltb m min_mantissa && ltb_ℤ min_exponent exponent) [
  | true ↦ scale_up f (m * 10) (exponent +ℤ negsuc 0)
  | false ↦ (m, exponent)
]

-- `exponent++`, the last digit, and `m.Div(m, ten)`.
unfoldable pub drop_digit : Scaled → Scaled
unfolding ◌+ℤ◌
drop_digit s = record { m = s.m / 10; exponent = s.exponent +ℤ pos 1; last_digit = some (s.m % 10) }

-- `for m.Cmp(maxMantissa) > 0`. The fuel m is enough.
unfoldable pub scale_down : ℕ → Scaled → Result NumberError Scaled
unfolding drop_digit
scale_down zero s = ok s
scale_down (suc f) s = elim (ltb max_mantissa s.m) [
  | false ↦ ok s
  | true ↦ elim (leb_ℤ max_exponent s.exponent) [
    | true ↦ err number_overflow
    | false ↦ scale_down f (drop_digit s)
  ]
]

-- The checks of underflow and of the exponent.
unfoldable pub check_range : Scaled → Result NumberError Scaled
check_range s =
    if ltb_ℤ s.exponent min_exponent || ltb s.m min_mantissa
    then err underflow
    else if ltb_ℤ max_exponent s.exponent
    then err invalid_exponent
    else ok s

-- The mantissa must fit in an int64.
unfoldable pub fit_int64 : Scaled → Result NumberError Scaled
unfolding drop_digit
fit_int64 s =
    if ltb max_int64 s.m
    then (if leb_ℤ max_exponent s.exponent then err invalid_exponent else ok (drop_digit s))
    else ok s

-- `lastDigit.Cmp(five) >= 0`, where there is one.
unfoldable pub rounds_up : Option ℕ → Bool
rounds_up none = false
rounds_up (some d) = leb 5 d

-- The rounding: m + 1, and after it the check of the int64 once more.
unfoldable pub round_up : Scaled → Result NumberError Scaled
unfolding drop_digit rounds_up
round_up s =
    let up = record s { m = s.m + 1 } in
    if ltb max_int64 up.m
    then (if leb_ℤ max_exponent s.exponent
        then err invalid_exponent
        else (let shorter = drop_digit up in
            ok (
              if rounds_up shorter.last_digit
              then record shorter { m = shorter.m + 1 }
              else shorter)))
    else ok up

unfoldable pub round : Scaled → Result NumberError Scaled
unfolding rounds_up round_up
round s = if rounds_up s.last_digit then round_up s else ok s

-- `normalize` behind the check of zero, on the magnitude.
unfoldable pub normalize_magnitude : ℕ → ℤ → Result NumberError Scaled
unfolding scale_up scale_down check_range fit_int64 round
normalize_magnitude m exponent = do
  let (up, lower) = scale_up 18 m exponent
  down ← scale_down up (record { m = up; exponent = lower; last_digit = none })
  checked ← check_range down
  fitting ← fit_int64 checked
  round fitting

-- `normalize`
unfoldable pub normalize : ℤ → ℤ → Result NumberError (ℤ × ℤ)
unfolding normalize_magnitude
normalize mantissa exponent = if abs mantissa == 0 then ok (pos 0, default_zero_exp) else (do
  s ← normalize_magnitude (abs mantissa) exponent
  ok (with_sign (ltb_ℤ mantissa (pos 0)) s.m, s.exponent))
