-- ===== src/Base/Bits.antt =====
-- `|` on operands with no bit in common is a sum.
use Prim.Native.Nat.{
  ℕ, zero, suc, ◌+◌, ◌-◌, ◌*◌, ◌/◌, ◌%◌, ◌^◌, ◌≤◌, ◌<◌, max, bit_or, digits, bit_or-bitwise,
}
use mathlib.Core.Path.{◌≡◌, refl, ap, ◌∙◌}
use native.Mathlib.Omega.{arith}
use native.Mathlib.Nat.{pow-suc, le_refl}

abbrev or_digits : ℕ → ℕ → ℕ → ℕ
or_digits n a b = digits (λ c. c) max n a b

-- More fuel than the first operand changes nothing.
or_digits_next : (f x y : ℕ) → x ≤ f → or_digits (suc f) x y ≡ or_digits f x y
or_digits_next zero zero y enough = refl
or_digits_next zero (suc x) y enough = absurd (omega arith)
or_digits_next (suc f) zero y enough = refl
or_digits_next (suc f) (suc x) y enough =
    omega (arith, or_digits_next f (suc x / 2) (y / 2) (omega arith))

or_digits_more : (more f x y g : ℕ) → g ≡ more + f → x ≤ f → or_digits g x y ≡ or_digits f x y
or_digits_more zero f x y g e enough = ap (λ (t : ℕ). or_digits t x y) (omega (arith, e))
or_digits_more (suc more) f x y g e enough =
    let next : g ≡ suc (more + f) = omega (arith, e) in
    ap (λ (t : ℕ). or_digits t x y) next
    ∙ or_digits_next (more + f) x y (omega arith)
    ∙ or_digits_more more f x y (more + f) refl enough

or_digits_half : (x y : ℕ) → or_digits x (suc x / 2) y ≡ or_digits (suc x / 2) (suc x / 2) y
or_digits_half x y =
    or_digits_more (x - suc x / 2) (suc x / 2) (suc x / 2) y x (omega arith) (le_refl (suc x / 2))

pub zero-bit_or : (b : ℕ) → bit_or 0 b ≡ b
zero-bit_or b = bit_or-bitwise 0 b

bit_or_step : (a b : ℕ) → bit_or a b ≡ bit_or (a / 2) (b / 2) * 2 + max (a % 2) (b % 2)
bit_or_step zero b = omega (arith, zero-bit_or b, zero-bit_or (b / 2))
bit_or_step (suc a) b =
    omega (
      arith,
      bit_or-bitwise (suc a) b,
      bit_or-bitwise (suc a / 2) (b / 2),
      or_digits_half a (b / 2),
    )

bit_or-zero : (n a : ℕ) → a ≤ n → bit_or a 0 ≡ a
bit_or-zero n zero h = refl
bit_or-zero zero (suc a) h = absurd (omega arith)
bit_or-zero (suc n) (suc a) h =
    omega (arith, bit_or_step (suc a) 0, bit_or-zero n (suc a / 2) (omega arith))

doubled : (k a : ℕ) → a * 2 ^ suc k ≡ a * 2 ^ k * 2
doubled k a = omega (arith, ap (λ (t : ℕ). a * t) (pow-suc 2 k))

bit_or_doubled : (x b : ℕ) → bit_or (x * 2) b ≡ bit_or x (b / 2) * 2 + b % 2
bit_or_doubled x b = omega (arith, bit_or_step (x * 2) b, ap (λ (t : ℕ). bit_or t (b / 2)) (half x))
  where
    half : (x : ℕ) → x * 2 / 2 ≡ x
    half x = omega arith

pub bit_or_shifted : (k a b : ℕ) → b < 2 ^ k → bit_or (a * 2 ^ k) b ≡ a * 2 ^ k + b
bit_or_shifted zero a b h =
    rw (below_one b h) (omega (arith, bit_or-zero (a * 1) (a * 1) (le_refl (a * 1))))
  where
    below_one : (b : ℕ) → b < 1 → b ≡ 0
    below_one b h = omega arith
bit_or_shifted (suc k) a b h = rw (doubled k a) (
    omega (
      arith,
      bit_or_doubled (a * 2 ^ k) b,
      bit_or_shifted k a (b / 2) (omega (arith, pow-suc 2 k)),
    ))
