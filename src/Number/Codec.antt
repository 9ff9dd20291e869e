-- ===== src/Number/Codec.antt =====
-- `Number.FromJSON` of binary-codec/types/st_number.go on a string, and the reading of its bytes.
use xrpl_go.Base.{
  ℕ, ◌+◌, ◌*◌, ◌^◌, ◌<◌, ◌≡◌, refl, sym, ap, ◌∙◌, ◌++◌, Bytes, Bool, take, drop, arith,
}
use xrpl_go.Base.Int.{ℤ, pos, negsuc}
use xrpl_go.Base.Words.{pattern_of, signed_of, put_be, get_be}
use xrpl_go.Base.Results.{Result, ok, err, ◌>>=◌}
use xrpl_go.Number.Errors.{NumberError}
use xrpl_go.Number.Parse.{parse_and_normalize}
pub mod RoundTrip

-- `writeInt64BE` and `writeInt32BE`
unfoldable pub write_int64_be : ℤ → Bytes
write_int64_be v = put_be 8 (pattern_of (2 ^ 64) v)

unfoldable pub write_int32_be : ℤ → Bytes
write_int32_be v = put_be 4 (pattern_of (2 ^ 32) v)

-- `readInt64BE` and `readInt32BE`, at an offset.
unfoldable pub read_int64_be : Bytes → ℕ → ℤ
read_int64_be buf offset = signed_of (2 ^ 64) (get_be (take 8 (drop offset buf)))

unfoldable pub read_int32_be : Bytes → ℕ → ℤ
read_int32_be buf offset = signed_of (2 ^ 32) (get_be (take 4 (drop offset buf)))

-- The buffer of `FromJSON`. The mantissa is one that fits in an int64.
unfoldable pub number_bytes : ℤ × ℤ → Bytes
unfolding write_int64_be write_int32_be
number_bytes n = write_int64_be n.0 ++ write_int32_be n.1

-- `FromJSON`
unfoldable pub from_json : Bytes → Result NumberError Bytes
unfolding number_bytes
from_json s = do n ← parse_and_normalize s; ok (number_bytes n)
