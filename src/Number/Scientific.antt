-- ===== src/Number/Scientific.antt =====
-- The scientific form of `formatScientificBig` of binary-codec/types/st_number.go.
use xrpl_go.Base.{
  ℕ, zero, suc, ◌*◌, ◌/◌, ◌%◌, ◌^◌, ◌≤◌, ◌≡◌, ◌≢◌, inl, inr, refl, sym, subst, ap, ◌∷◌, ◌++◌, Bool,
  true, false, not, ◌&&◌, ◌==◌, Bool-cases, arith,
}
use native.Mathlib.Nat.{pow-suc, le_refl}
use xrpl_go.Base.Int.{ℤ, pos, ◌+ℤ◌, ltb_ℤ, ◌<ℤ◌}
use xrpl_go.Number.Normalize.{max_exponent}
use xrpl_go.Number.Text.{decimal, itoa, sign_text, strip_zeros, format_scientific}

-- The mantissa without u zeros, at an exponent greater by u, and none left that could go.
pub record IsStripped (m : ℕ) (e : ℤ) (u : ℕ) (r : ℕ × ℤ) : Type 0 where
  pub same_value : m ≡ r.0 * 10 ^ u
  pub shifted : r.1 ≡ e +ℤ pos u
  pub no_zero_left : r.0 ≢ 0 → r.1 <ℤ max_exponent → r.0 % 10 ≢ 0

module _ (f m : ℕ) (e : ℤ) where
  abbrev has_zero : Bool
  has_zero = not (m == 0) && m % 10 == 0 && ltb_ℤ e max_exponent

  strip_stop : has_zero ≡ false → strip_zeros (suc f) m e ≡ (m, e)
  unfolding strip_zeros
  strip_stop h = rw (h, strip_zeros)

  strip_more : has_zero ≡ true → strip_zeros (suc f) m e ≡ strip_zeros f (m / 10) (e +ℤ pos 1)
  unfolding strip_zeros
  strip_more h = rw (h, strip_zeros)

next_zero :
    (m : ℕ) (e : ℤ) (u : ℕ) (r : ℕ × ℤ)
    → m % 10 ≡ 0
    → IsStripped (m / 10) (e +ℤ pos 1) u r
    → IsStripped m e (suc u) r
unfolding ◌+ℤ◌
next_zero m e u (m', e') ends h =
    let unit : m' * 10 ^ suc u ≡ m' * (10 ^ u * 10) = ap (λ (w : ℕ). m' * w) (pow-suc 10 u) in
    let quotient : m / 10 ≡ m' * 10 ^ u = h.same_value in
    record {
      same_value = omega (arith, ends, quotient, unit);
      shifted = ground (arith, h.shifted);
      no_zero_left = h.no_zero_left;
    }

no_zero_now : (m : ℕ) (e : ℤ) → (m ≢ 0 → e <ℤ max_exponent → m % 10 ≢ 0) → IsStripped m e 0 (m, e)
unfolding ◌+ℤ◌
no_zero_now m e h = record { same_value = omega arith; shifted = ground arith; no_zero_left = h }

strip_zeros-IsStripped : (f m : ℕ) (e : ℤ) → m ≤ f → (u : ℕ) × IsStripped m e u (strip_zeros f m e)
strip_zeros-IsStripped zero m e small =
    (0, unfold strip_zeros in no_zero_now m e (λ ne lt d. absurd (omega (arith, ne, small))))
strip_zeros-IsStripped (suc f) m e small = elim (Bool-cases (has_zero m m e)) [
  | inr done ↦ (
    0,
    subst (IsStripped m e 0) (sym (strip_stop f m e done))
        (no_zero_now m e (λ ne lt d. absurd (ground (arith, done, ne, lt, d)))),
  )
  | inl more ↦
      let (u, h) = strip_zeros-IsStripped f (m / 10) (e +ℤ pos 1) (ground (arith, more, small)) in
      (
        suc u,
        subst (IsStripped m e (suc u)) (sym (strip_more f m e more))
            (next_zero m e u _ (ground (arith, more)) h),
      )
]

-- The scientific form writes the sign, a mantissa and an exponent that stand for the same number:
-- the given mantissa is the written one with u zeros behind it, and the written exponent is greater by
-- u. The written mantissa is 0, or ends in no zero, or has the greatest exponent or one beyond it.
pub format_scientific_lem :
    (mantissa_abs : ℕ) (exponent : ℤ) (is_negative : Bool)
    → (m u : ℕ) × (exp : ℤ) × (format_scientific mantissa_abs exponent is_negative
        ≡ sign_text is_negative ++ (decimal m ++ (b'e' ∷ itoa exp)))
      × IsStripped mantissa_abs exponent u (m, exp)
unfolding format_scientific
format_scientific_lem mantissa_abs exponent is_negative =
    let (u, h) = strip_zeros-IsStripped mantissa_abs mantissa_abs exponent (le_refl mantissa_abs) in
    let r = strip_zeros mantissa_abs mantissa_abs exponent in (r.0, u, r.1, refl, h)
