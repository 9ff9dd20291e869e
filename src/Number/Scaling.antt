-- ===== src/Number/Scaling.antt =====
-- The steps of `normalize` of binary-codec/types/st_number.go in front of the rounding, and the whole.
use xrpl_go.Base.{
  ℕ, zero, suc, ◌*◌, ◌^◌, ◌≤◌, ◌≡◌, inl, inr, refl, sym, subst, ap, ◌∙◌, Bool, true, false, ◌&&◌,
  ltb, Bool-cases, none, arith,
}
use native.Mathlib.Nat.{pow-suc, le_refl}
use xrpl_go.Base.Int.{ℤ, pos, negsuc, ◌+ℤ◌, ltb_ℤ, leb_ℤ, ◌≤ℤ◌}
use xrpl_go.Base.Results.{Result, ok, err, ◌>>=◌}
use xrpl_go.Number.Errors.{number_overflow, invalid_exponent}
use xrpl_go.Number.Normalize.{
  min_mantissa, max_mantissa, max_int64, min_exponent, max_exponent, Scaled, scale_up, drop_digit,
  scale_down, check_range, fit_int64, round, normalize_magnitude,
}
use xrpl_go.Number.Cut.{IsCut, whole, IsCut-drop_digit}
use xrpl_go.Number.Rounding.{IsFitting, IsRounded, round-IsRounded, next_bounds}

-- The magnitude with u zeros behind it, at the exponent that keeps the value.
abbrev pub HasZeros : ℕ → ℤ → ℕ → ℕ × ℤ → Type 0
HasZeros m e u r = (r.0 ≡ m * 10 ^ u) × (e ≡ r.1 +ℤ pos u)

add_zero :
    (m : ℕ) (e : ℤ) (u : ℕ) (r : ℕ × ℤ)
    → HasZeros (m * 10) (e +ℤ negsuc 0) u r
    → HasZeros m e (suc u) r
unfolding ◌+ℤ◌
add_zero m e u (m', e') (em, ee) =
    let unit : m * 10 ^ suc u ≡ m * (10 ^ u * 10) = ap (λ (w : ℕ). m * w) (pow-suc 10 u) in
    (omega (arith, em, unit), ground (arith, ee))

module _ (f m : ℕ) (e : ℤ) where
  abbrev pub too_small : Bool
  too_small = ltb m min_mantissa && ltb_ℤ min_exponent e

  pub scale_up_stop : too_small ≡ false → scale_up (suc f) m e ≡ (m, e)
  unfolding scale_up
  scale_up_stop h = rw (h, scale_up)

  pub scale_up_more : too_small ≡ true → scale_up (suc f) m e ≡ scale_up f (m * 10) (e +ℤ negsuc 0)
  unfolding scale_up
  scale_up_more h = rw (h, scale_up)

no_zeros : (m : ℕ) (e : ℤ) → HasZeros m e 0 (m, e)
unfolding ◌+ℤ◌
no_zeros m e = (omega arith, ground arith)

pub scale_up-HasZeros : (f m : ℕ) (e : ℤ) → (u : ℕ) × HasZeros m e u (scale_up f m e)
scale_up-HasZeros zero m e = (0, unfold scale_up in no_zeros m e)
scale_up-HasZeros (suc f) m e = elim (Bool-cases (too_small f m e)) [
  | inr enough ↦ (0, subst (HasZeros m e 0) (sym (scale_up_stop f m e enough)) (no_zeros m e))
  | inl more ↦
      let (u, h) = scale_up-HasZeros f (m * 10) (e +ℤ negsuc 0) in
      (suc u, subst (HasZeros m e (suc u)) (sym (scale_up_more f m e more)) (add_zero m e u _ h))
]

module _ (f : ℕ) (s : Scaled) where
  pub scale_down_within : ltb max_mantissa s.m ≡ false → scale_down (suc f) s ≡ ok s
  unfolding scale_down
  scale_down_within h = rw (h, scale_down)

  scale_down_full :
      ltb max_mantissa s.m ≡ true
      → leb_ℤ max_exponent s.exponent ≡ true
      → scale_down (suc f) s ≡ err number_overflow
  unfolding scale_down
  scale_down_full h full = rw (h, scale_down) (rw (full, scale_down) refl)

  scale_down_step :
      ltb max_mantissa s.m ≡ true
      → leb_ℤ max_exponent s.exponent ≡ false
      → scale_down (suc f) s ≡ scale_down f (drop_digit s)
  unfolding scale_down
  scale_down_step h free = rw (h, scale_down) (rw (free, scale_down) refl)

scale_down_spent : (s : Scaled) → scale_down 0 s ≡ ok s
unfolding scale_down
scale_down_spent s = refl

drop_digit_smaller :
    (f : ℕ) (s : Scaled) → ltb max_mantissa s.m ≡ true → s.m ≤ suc f → (drop_digit s).m ≤ f
unfolding drop_digit
drop_digit_smaller f s over small = ground (arith, over, small)

scale_down-IsCut :
    (f : ℕ) {M : ℕ} {e : ℤ} {k : ℕ} (s t : Scaled)
    → IsCut M e k s
    → s.m ≤ f
    → scale_down f s ≡ ok t
    → (i : ℕ) × IsCut M e i t × (t.m ≤ max_mantissa)
scale_down-IsCut zero {M} {e} {k} s t c small r =
    let same : s ≡ t = cc (r, scale_down_spent s) in
    (k, subst (IsCut M e k) same c, omega (arith, small, ap (λ (x : Scaled). x.m) same))
scale_down-IsCut (suc f) {M} {e} {k} s t c small r = elim (Bool-cases (ltb max_mantissa s.m)) [
  | inr within ↦
      let same : s ≡ t = cc (r, scale_down_within f s within) in
      let low : s.m ≤ max_mantissa = ground (arith, within) in
      (k, subst (IsCut M e k) same c, omega (arith, low, ap (λ (x : Scaled). x.m) same))
  | inl over ↦ elim (Bool-cases (leb_ℤ max_exponent s.exponent)) [
    | inl full ↦ cc (r, scale_down_full f s over full)
    | inr free ↦
        scale_down-IsCut f (drop_digit s) t (IsCut-drop_digit c) (drop_digit_smaller f s over small)
          (sym (scale_down_step f s over free) ∙ r)
  ]
]

-- What the checks let through.
check_range_lem :
    (s t : Scaled)
    → check_range s ≡ ok t
    → (s ≡ t) × (min_mantissa ≤ s.m) × (min_exponent ≤ℤ s.exponent) × (s.exponent ≤ℤ max_exponent)
unfolding check_range
check_range_lem s t r = ground (arith, r)

module _ (s : Scaled) where
  pub fit_within : ltb max_int64 s.m ≡ false → fit_int64 s ≡ ok s
  unfolding fit_int64
  fit_within h = rw (h, fit_int64)

  fit_full :
      ltb max_int64 s.m ≡ true
      → leb_ℤ max_exponent s.exponent ≡ true
      → fit_int64 s ≡ err invalid_exponent
  unfolding fit_int64
  fit_full h full = rw (h, full, fit_int64)

  pub fit_drop :
      ltb max_int64 s.m ≡ true
      → leb_ℤ max_exponent s.exponent ≡ false
      → fit_int64 s ≡ ok (drop_digit s)
  unfolding fit_int64
  fit_drop h free = rw (h, free, fit_int64)

drop_digit-IsFitting :
    (s : Scaled)
    → ltb max_int64 s.m ≡ true
    → leb_ℤ max_exponent s.exponent ≡ false
    → s.m ≤ max_mantissa
    → min_exponent ≤ℤ s.exponent
    → IsFitting (drop_digit s)
unfolding drop_digit
drop_digit-IsFitting s over free hi emin =
    let (lower, upper) = next_bounds s.exponent emin free in
    (ground (arith, over), ground (arith, hi), lower, upper)

fit_int64-IsFitting :
    {M : ℕ} {e : ℤ} {k : ℕ} (s t : Scaled)
    → IsCut M e k s
    → min_mantissa ≤ s.m
    → s.m ≤ max_mantissa
    → min_exponent ≤ℤ s.exponent
    → s.exponent ≤ℤ max_exponent
    → fit_int64 s ≡ ok t
    → (i : ℕ) × IsCut M e i t × IsFitting t
fit_int64-IsFitting {M} {e} {k} s t c lo hi emin emax r = elim (Bool-cases (ltb max_int64 s.m)) [
  | inr within ↦
      let same : s ≡ t = cc (r, fit_within s within) in
      let fits : IsFitting s = (omega (arith, lo), ground (arith, within), emin, emax) in
      (k, subst (IsCut M e k) same c, subst IsFitting same fits)
  | inl over ↦ elim (Bool-cases (leb_ℤ max_exponent s.exponent)) [
    | inl full ↦ cc (r, fit_full s over full)
    | inr free ↦
        let same : drop_digit s ≡ t = cc (r, fit_drop s over free) in
        (
          suc k,
          subst (IsCut M e (suc k)) same (IsCut-drop_digit c),
          subst IsFitting same (drop_digit-IsFitting s over free hi emin),
        )
  ]
]

module _ {E : Type 0} {A B : Type 0} where
  -- The value in front of a step that succeeded.
  step_done :
      (r : Result E A) (f : A → Result E B) (b : B)
      → (r >>= f) ≡ ok b
      → (a : A) × (r ≡ ok a) × (f a ≡ ok b)
  step_done (ok a) f b e = (a, refl, e)
  step_done (err x) f b e = cc

normalized :
    (up : ℕ) (lower : ℤ) (t : Scaled)
    → (scale_down up (record { m = up; exponent = lower; last_digit = none }) >>= λ down.
        check_range down >>= λ checked. fit_int64 checked >>= round)
      ≡ ok t
    → (k : ℕ) × IsRounded up lower k t
normalized up lower t r =
    let started : IsCut up lower 0 (record { m = up; exponent = lower; last_digit = none }) =
      whole _ refl refl refl in
    let (down, at_down, r1) = step_done _ _ t r in
    let (i, c1, hi) = scale_down-IsCut up _ down started (le_refl up) at_down in
    let (checked, at_checked, r2) = step_done (check_range down) _ t r1 in
    let (same, lo, emin, emax) = check_range_lem down checked at_checked in
    let (fitting, at_fitting, r3) = step_done (fit_int64 checked) round t r2 in
    let at_down_fit : fit_int64 down ≡ ok fitting = ap fit_int64 same ∙ at_fitting in
    let (j, c2, fits) = fit_int64-IsFitting down fitting c1 lo hi emin emax at_down_fit in
    round-IsRounded up lower fitting t c2 fits r3

-- Where `normalize` succeeds on a magnitude above 0, the result is the magnitude with some number u of zeros behind it, in
-- units of some number k of digits and right to half a unit; the exponent is the given one less u plus k,
-- and mantissa and exponent are within their bounds.
pub normalize_magnitude-IsRounded :
    (m : ℕ) (exponent : ℤ) (t : Scaled)
    → normalize_magnitude m exponent ≡ ok t
    → (u k : ℕ) × (lower : ℤ) × (exponent ≡ lower +ℤ pos u) × IsRounded (m * 10 ^ u) lower k t
unfolding normalize_magnitude
normalize_magnitude-IsRounded m exponent t r =
    let (u, (em, ee)) = scale_up-HasZeros 18 m exponent in
    let up = scale_up 18 m exponent in
    let (k, done) = normalized up.0 up.1 t r in
    (u, k, up.1, ee, subst (λ (M : ℕ). IsRounded M up.1 k t) em done)
