-- ===== src/Tests/Number.antt =====
-- Tests and examples of the theorems on binary-codec/types/st_number.go.
use native.Mathlib.Omega.{arith}
use xrpl_go.Base.{ℕ, ◌*◌, ◌^◌, ◌≡◌, refl, some, [], ◌∷◌, Bytes, codes, length}
use xrpl_go.Base.Digits.{of_base, to_base}
use xrpl_go.Base.Int.{ℤ, pos, negsuc, ◌+ℤ◌, ◌≤ℤ◌}
use xrpl_go.Base.Words.{put_be, get_be}
use xrpl_go.Base.Results.{ok, err}
use xrpl_go.Serdes.Parser.{read_bytes}
use xrpl_go.Number.Normalize.{Scaled, min_exponent, normalize, normalize_magnitude}
use xrpl_go.Number.Rounding.{IsRounded}
use xrpl_go.Number.Scaling.{normalize_magnitude-IsRounded}
use xrpl_go.Number.Exact.{normalize_magnitude_exact}
use xrpl_go.Number.Parse.{or_zero, trim_zeros, parse_and_normalize}
use xrpl_go.Number.Text.{trim_right_zeros, number_text, to_json}
use xrpl_go.Number.Errors.{unspecified_exponent}
use xrpl_go.Number.Codec.{from_json, read_int64_be, read_int32_be}
use xrpl_go.Number.Codec.RoundTrip.{IsNumber, read-from_json}

-- 12345678901234567895 at the exponent -3: two digits too many, rounded up.
abbrev rounded : Scaled
rounded = record { m = 1234567890123456790; exponent = negsuc 1; last_digit = some 5 }

rounds : normalize_magnitude 12345678901234567895 (negsuc 2) ≡ ok rounded
unfolding normalize_magnitude
rounds = refl

normalize_magnitude-IsRounded_example :
    (u k : ℕ) × (lower : ℤ) × (negsuc 2 ≡ lower +ℤ pos u)
    × IsRounded (12345678901234567895 * 10 ^ u) lower k rounded
normalize_magnitude-IsRounded_example =
    normalize_magnitude-IsRounded 12345678901234567895 (negsuc 2) rounded rounds

half : parse_and_normalize (codes "-0.5") ≡ ok (negsuc 4999999999999999999, negsuc 18)
unfolding parse_and_normalize of_base normalize
half = refl

abbrev half_bytes : Bytes
half_bytes = 186 ∷ 156 ∷ 110 ∷ 125 ∷ 187 ∷ 12 ∷ 0 ∷ 0 ∷ 255 ∷ 255 ∷ 255 ∷ 237 ∷ []

half_written : from_json (codes "-0.5") ≡ ok half_bytes
unfolding from_json parse_and_normalize of_base normalize put_be
half_written = refl

read-from_json_example :
    (m e : ℤ) × (parse_and_normalize (codes "-0.5") ≡ ok (m, e))
    × IsNumber m e
    × (length half_bytes ≡ 12)
    × (read_int64_be half_bytes 0 ≡ m)
    × (read_int32_be half_bytes 8 ≡ e)
read-from_json_example = read-from_json (codes "-0.5") half_bytes half_written

-- The exponent 4294967296, which no int32 holds, is taken for 0.
wrapped : parse_and_normalize (codes "1e4294967296") ≡ parse_and_normalize (codes "1")
unfolding parse_and_normalize of_base normalize
wrapped = refl

-- 2 ^ 63 is no int64.
unspecified : parse_and_normalize (codes "1e9223372036854775808") ≡ err unspecified_exponent
unfolding parse_and_normalize of_base
unspecified = refl

half_read : to_json half_bytes ≡ (ok (codes "-0.5"), [])
unfolding to_json number_text read_bytes read_int64_be get_be read_int32_be or_zero trim_zeros
    to_base trim_right_zeros
half_read = refl

-- 1.5, as fifteen tenths.
low_enough : min_exponent +ℤ pos 18 ≤ℤ negsuc 0
unfolding ◌+ℤ◌
low_enough = omega arith

normalize_magnitude_exact_example :
    (t : Scaled) × (u : ℕ) × (normalize_magnitude 15 (negsuc 0) ≡ ok t)
    × (t.m ≡ 15 * 10 ^ u)
    × (negsuc 0 ≡ t.exponent +ℤ pos u)
normalize_magnitude_exact_example =
    normalize_magnitude_exact 15 (negsuc 0) (omega arith) (omega arith) low_enough (omega arith)
