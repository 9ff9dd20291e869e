-- ===== src/Tests/Hexutil.antt =====
-- Tests and examples of the theorems on pkg/hexutil.
use xrpl_go.Base.{◌≡◌, refl, [], ◌∷◌, Bytes}
use xrpl_go.Base.Results.{err}
use xrpl_go.Hexutil.{encode_to_upper_hex, decode_string, decode_fixed_hex, expected_bytes}

abbrev word : Bytes
word = 0x0A ∷ 0xFF ∷ []

written : encode_to_upper_hex word ≡ b'0' ∷ b'A' ∷ b'F' ∷ b'F' ∷ []
unfolding encode_to_upper_hex
written = refl

too_short : decode_fixed_hex (b'0' ∷ b'a' ∷ []) 2 ≡ err (expected_bytes 2 1)
unfolding decode_fixed_hex decode_string
too_short = refl
