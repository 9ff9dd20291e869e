-- ===== src/Number/Errors.antt =====
-- The errors of binary-codec/types/st_number.go, and those of the parser that it passes on.
use xrpl_go.Serdes.Errors.{SerdesError}

pub data NumberError : Type 0 where
  invalid_number number_overflow invalid_exponent underflow : NumberError
  -- No error of the code: the outcome where the exponent of a text is no int64.
  unspecified_exponent : NumberError
  of_serdes : SerdesError → NumberError
