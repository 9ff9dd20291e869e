-- ===== src/Base/Words.antt =====
-- Fixed-width integers: Go's conversions, two's complement, and `binary.BigEndian`.
use Prim.Native.Nat.{ℕ, zero, suc, ◌+◌, ◌-◌, ◌*◌, ◌/◌, ◌%◌, ◌^◌, ◌<◌}
use mathlib.Core.Path.{◌≡◌, refl, ◌∙◌}
use mathlib.Core.List.{[], ◌∷◌, ◌++◌}
use native.Mathlib.Omega.{arith}
use xrpl_go.Base.Tests.{ltb, if◌then◌else◌}
use xrpl_go.Base.Lists.{Bytes, IsByte, All, All-append, length, length-append}
use xrpl_go.Base.Int.{ℤ, pos, negsuc, ◌≤ℤ◌}

-- `byte(x)` of a signed x: the low eight bits of its two's complement.
abbrev pub byte_of : ℤ → ℕ
byte_of (pos n) = n % 256
byte_of (negsuc n) = 255 - n % 256

-- The w-bit pattern of an integer, and the integer that a w-bit pattern stands for.
abbrev pub pattern_of : ℕ → ℤ → ℕ
pattern_of modulus (pos n) = n % modulus
pattern_of modulus (negsuc n) = modulus - 1 - n % modulus

abbrev pub signed_of : ℕ → ℕ → ℤ
signed_of modulus w = if ltb w (modulus / 2) then pos w else negsuc (modulus - w - 1)

-- `int32(x)` of a wider integer.
abbrev pub int32_of : ℤ → ℤ
int32_of x = signed_of (2 ^ 32) (pattern_of (2 ^ 32) x)

abbrev pub IsInt32 : ℤ → Type 0
IsInt32 x = (negsuc (2 ^ 31 - 1) ≤ℤ x) × (x ≤ℤ pos (2 ^ 31 - 1))

abbrev pub IsInt64 : ℤ → Type 0
IsInt64 x = (negsuc (2 ^ 63 - 1) ≤ℤ x) × (x ≤ℤ pos (2 ^ 63 - 1))

-- `binary.BigEndian.PutUint64` and the like: the last n bytes of v, the highest first.
unfoldable pub put_be : ℕ → ℕ → Bytes
put_be zero v = []
put_be (suc n) v = put_be n (v / 256) ++ (v % 256 ∷ [])

-- `binary.BigEndian.Uint64` and the like, from an accumulated prefix.
unfoldable pub get_be_from : ℕ → Bytes → ℕ
get_be_from acc [] = acc
get_be_from acc (b ∷ bs) = get_be_from (acc * 256 + b) bs

unfoldable pub get_be : Bytes → ℕ
unfolding get_be_from
get_be bs = get_be_from 0 bs

pub length-put_be : (n v : ℕ) → length (put_be n v) ≡ n
unfolding put_be
length-put_be zero v = refl
length-put_be (suc n) v =
    omega (arith, length-append (put_be n (v / 256)) (v % 256 ∷ []), length-put_be n (v / 256))

pub put_be-IsByte : (n v : ℕ) → All IsByte (put_be n v)
unfolding put_be
put_be-IsByte zero v = tt
put_be-IsByte (suc n) v =
    All-append IsByte (put_be n (v / 256)) _ (put_be-IsByte n (v / 256)) (omega arith)

get_be_from-append :
    (xs ys : Bytes) (acc : ℕ) → get_be_from acc (xs ++ ys) ≡ get_be_from (get_be_from acc xs) ys
unfolding get_be_from
get_be_from-append [] ys acc = refl
get_be_from-append (x ∷ xs) ys acc = get_be_from-append xs ys (acc * 256 + x)

pub get_be-append_one : (xs : Bytes) (b : ℕ) → get_be (xs ++ (b ∷ [])) ≡ get_be xs * 256 + b
unfolding get_be get_be_from
get_be-append_one xs b = get_be_from-append xs (b ∷ []) 0

pub get_be-put_be : (n v : ℕ) → v < 256 ^ n → get_be (put_be n v) ≡ v
unfolding put_be
get_be-put_be zero v h = unfold get_be get_be_from in omega arith
get_be-put_be (suc n) v h =
    get_be-append_one (put_be n (v / 256)) (v % 256)
    ∙ omega (arith, get_be-put_be n (v / 256) (below n v h))
  where
    below : (n v : ℕ) → v < 256 ^ suc n → v / 256 < 256 ^ n
    below n v h = omega arith
