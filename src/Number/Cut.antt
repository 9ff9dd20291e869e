-- ===== src/Number/Cut.antt =====
-- Cutting digits off a magnitude, as `normalize` of binary-codec/types/st_number.go does.
use xrpl_go.Base.{
  ℕ, zero, suc, ◌+◌, ◌*◌, ◌/◌, ◌%◌, ◌^◌, ◌≤◌, ◌<◌, ◌≡◌, sym, subst, ap, ◌∙◌, none, some, arith,
}
use native.Mathlib.Nat.{div-add-mod', mod-lt, pow-suc, mul-le-mul_right, div-div-eq-div-mul}
use xrpl_go.Base.Int.{ℤ, pos, ◌+ℤ◌}
use xrpl_go.Number.Normalize.{Scaled, drop_digit}

pow_positive : (k : ℕ) → 1 ≤ 10 ^ k
pow_positive zero = omega arith
pow_positive (suc k) = omega (arith, pow-suc 10 k, pow_positive k)

-- A number is a multiple of its first digits and what they leave.
remainder_below : (n w : ℕ) → 1 ≤ w → (rest : ℕ) × (n ≡ n / w * w + rest) × (rest < w)
remainder_below n w h = (n % w, sym (div-add-mod' n w), mod-lt n h)

pub div_ten : (n k : ℕ) → n / 10 ^ k / 10 ≡ n / 10 ^ suc k
div_ten n k = div-div-eq-div-mul n (10 ^ k) 10 ∙ ap (λ (w : ℕ). n / w) (sym (pow-suc 10 k))

-- M, cut by k digits, with the last digit that was cut.
pub data IsCut (M : ℕ) (e : ℤ) : ℕ → Scaled → Type 0 where
  whole : (s : Scaled) → s.m ≡ M → s.exponent ≡ e → s.last_digit ≡ none → IsCut M e 0 s
  cut :
      (j : ℕ) (s : Scaled)
      → s.m ≡ M / 10 ^ suc j
      → s.exponent ≡ e +ℤ pos (suc j)
      → s.last_digit ≡ some (M / 10 ^ j % 10)
      → IsCut M e (suc j) s

pub next_exponent : (e x : ℤ) (k : ℕ) → x ≡ e +ℤ pos k → x +ℤ pos 1 ≡ e +ℤ pos (suc k)
unfolding ◌+ℤ◌
next_exponent e x k h = ground (arith, h)

first_exponent : (e x : ℤ) → x ≡ e → x +ℤ pos 1 ≡ e +ℤ pos 1
first_exponent e x h = rw h

pub IsCut-drop_digit :
    {M : ℕ} {e : ℤ} {k : ℕ} {s : Scaled} → IsCut M e k s → IsCut M e (suc k) (drop_digit s)
unfolding drop_digit
IsCut-drop_digit {M} {e} (whole s em ee el) =
    cut 0 (drop_digit s) (omega (arith, em)) (first_exponent e s.exponent ee)
      (ap some (omega (arith, em)))
IsCut-drop_digit {M} {e} (cut j s em ee el) =
    cut (suc j) (drop_digit s) (ap (λ (m : ℕ). m / 10) em ∙ div_ten M (suc j))
      (next_exponent e s.exponent (suc j) ee) (ap (λ (m : ℕ). some (m % 10)) em)

-- m is M in units of w, off by half a unit at most.
abbrev pub HalfUnit : ℕ → ℕ → ℕ → Type 0
HalfUnit M m w = (2 * (m * w) ≤ 2 * M + w) × (2 * M ≤ 2 * (m * w) + w)

near :
    (N R X m c M : ℕ)
    → M ≡ N * X + R
    → R < X
    → 2 * (m * c) ≤ 2 * N + c
    → 2 * N + 2 ≤ 2 * (m * c) + c
    → HalfUnit M m (c * X)
near N R X m c M e h lo hi =
    (omega (arith, e, h, mul-le-mul_right X lo), omega (arith, e, h, mul-le-mul_right X hi))

-- Cut by one digit more than j, and by two.
pub near_one :
    (M m j : ℕ)
    → 2 * (m * 10) ≤ 2 * (M / 10 ^ j) + 10
    → 2 * (M / 10 ^ j) + 2 ≤ 2 * (m * 10) + 10
    → HalfUnit M m (10 ^ suc j)
near_one M m j lo hi =
    let (rest, e, below) = remainder_below M (10 ^ j) (pow_positive j) in
    let unit : 10 * 10 ^ j ≡ 10 ^ suc j = omega (arith, pow-suc 10 j) in
    subst (HalfUnit M m) unit (near (M / 10 ^ j) rest (10 ^ j) m 10 M e below lo hi)

pub near_two :
    (M m j : ℕ)
    → 2 * (m * 100) ≤ 2 * (M / 10 ^ j) + 100
    → 2 * (M / 10 ^ j) + 2 ≤ 2 * (m * 100) + 100
    → HalfUnit M m (10 ^ suc (suc j))
near_two M m j lo hi =
    let (rest, e, below) = remainder_below M (10 ^ j) (pow_positive j) in
    let unit : 100 * 10 ^ j ≡ 10 ^ suc (suc j) = omega (arith, pow-suc 10 j, pow-suc 10 (suc j)) in
    subst (HalfUnit M m) unit (near (M / 10 ^ j) rest (10 ^ j) m 100 M e below lo hi)
