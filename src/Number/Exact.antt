-- ===== src/Number/Exact.antt =====
-- Where `normalize` of binary-codec/types/st_number.go succeeds and loses nothing.
use xrpl_go.Base.{
  ℕ, zero, suc, ◌*◌, ◌/◌, ◌%◌, ◌^◌, ◌≤◌, ◌<◌, ◌≡◌, inl, inr, refl, sym, subst, ap, ◌∙◌, true, false,
  ltb, Bool-cases, none, some, arith,
}
use native.Mathlib.Nat.{pow-suc}
use xrpl_go.Base.Int.{ℤ, pos, negsuc, ◌+ℤ◌, leb_ℤ, ◌≤ℤ◌, ◌<ℤ◌}
use xrpl_go.Base.Results.{Result, ok, ◌>>=◌}
use xrpl_go.Number.Errors.{NumberError}
use xrpl_go.Number.Normalize.{
  min_mantissa, max_mantissa, max_int64, min_exponent, max_exponent, Scaled, scale_up, drop_digit,
  scale_down, check_range, fit_int64, round, normalize_magnitude,
}
use xrpl_go.Number.Rounding.{round-none, round_low}
use xrpl_go.Number.Scaling.{
  HasZeros, scale_up-HasZeros, too_small, scale_up_stop, scale_up_more, scale_down_within,
  fit_within, fit_drop,
}

-- A mantissa of 19 digits, at an exponent that is not too low.
abbrev HasDigits : ℕ × ℤ → Type 0
HasDigits r = (min_mantissa ≤ r.0) × (r.0 ≤ max_mantissa) × (min_exponent ≤ℤ r.1)

grown :
    (f m : ℕ) (e : ℤ)
    → too_small f m e ≡ true
    → min_mantissa ≤ m * 10 ^ suc f
    → min_exponent +ℤ pos (suc f) ≤ℤ e
    → (m * 10 ≤ max_mantissa)
      × (min_mantissa ≤ m * 10 * 10 ^ f)
      × (min_exponent +ℤ pos f ≤ℤ e +ℤ negsuc 0)
unfolding ◌+ℤ◌
grown f m e more enough room =
    let unit : m * 10 ^ suc f ≡ m * (10 ^ f * 10) = ap (λ (w : ℕ). m * w) (pow-suc 10 f) in
    (ground (arith, more), omega (arith, enough, unit), ground (arith, room))

stops :
    (f m : ℕ) (e : ℤ)
    → too_small f m e ≡ false
    → m ≤ max_mantissa
    → min_exponent +ℤ pos (suc f) ≤ℤ e
    → HasDigits (m, e)
unfolding ◌+ℤ◌
stops f m e enough hi room = (ground (arith, enough, room), hi, ground (arith, room))

scale_up-HasDigits :
    (f m : ℕ) (e : ℤ)
    → m ≤ max_mantissa
    → min_mantissa ≤ m * 10 ^ f
    → min_exponent +ℤ pos f ≤ℤ e
    → HasDigits (scale_up f m e)
scale_up-HasDigits zero m e hi enough room = (
  unfold scale_up in omega (arith, enough),
  unfold scale_up in hi,
  unfold scale_up ◌+ℤ◌ in ground (arith, room),
)
scale_up-HasDigits (suc f) m e hi enough room = elim (Bool-cases (too_small f m e)) [
  | inr stop ↦ subst HasDigits (sym (scale_up_stop f m e stop)) (stops f m e stop hi room)
  | inl more ↦
      let (hi', enough', room') = grown f m e more enough room in
      subst HasDigits (sym (scale_up_more f m e more))
        (scale_up-HasDigits f (m * 10) (e +ℤ negsuc 0) hi' enough' room')
]

abbrev scaled : ℕ → ℤ → Scaled
scaled m e = record { m = m; exponent = e; last_digit = none }

scale_down_small : (f : ℕ) (s : Scaled) → s.m ≤ max_mantissa → scale_down f s ≡ ok s
scale_down_small zero s h = unfold scale_down in refl
scale_down_small (suc f) s h = scale_down_within f s (ground (arith, h))

check_range-scaled :
    (m : ℕ) (e : ℤ)
    → min_mantissa ≤ m
    → min_exponent ≤ℤ e
    → e ≤ℤ max_exponent
    → check_range (scaled m e) ≡ ok (scaled m e)
unfolding check_range
check_range-scaled m e lo emin emax = ground (arith, lo, emin, emax)

-- The end of normalize, from a mantissa of 19 digits.
abbrev finish : ℕ → ℤ → Result NumberError Scaled
finish up lower = scale_down up (scaled up lower) >>= λ down.
    check_range down >>= λ checked. fit_int64 checked >>= round

finish_fits :
    (up : ℕ) (lower : ℤ)
    → HasDigits (up, lower)
    → lower ≤ℤ max_exponent
    → finish up lower ≡ (fit_int64 (scaled up lower) >>= round)
finish_fits up lower (lo, hi, emin) emax =
    ap (λ r. r >>= λ down. check_range down >>= λ checked. fit_int64 checked >>= round)
      (scale_down_small up (scaled up lower) hi)
    ∙ ap (λ r. r >>= λ checked. fit_int64 checked >>= round)
        (check_range-scaled up lower lo emin emax)

-- What the exact result is: the magnitude with zeros, and the exponent that keeps the value.
abbrev IsExact : ℕ → ℤ → Result NumberError Scaled → Type 0
IsExact m e r = (t : Scaled) × (u : ℕ) × (r ≡ ok t) × (t.m ≡ m * 10 ^ u) × (e ≡ t.exponent +ℤ pos u)

exact_dropped :
    (m up v : ℕ) (e lower : ℤ)
    → up ≡ m * 10 ^ suc v
    → e ≡ lower +ℤ pos (suc v)
    → (up / 10 ≡ m * 10 ^ v) × (up % 10 ≡ 0) × (e ≡ lower +ℤ pos 1 +ℤ pos v)
unfolding ◌+ℤ◌
exact_dropped m up v e lower em ee =
    let unit : m * 10 ^ suc v ≡ m * (10 ^ v * 10) = ap (λ (w : ℕ). m * w) (pow-suc 10 v) in
    (omega (arith, em, unit), omega (arith, em, unit), ground (arith, ee))

below_max :
    (e lower : ℤ) (u : ℕ)
    → e ≡ lower +ℤ pos u
    → e <ℤ max_exponent
    → (lower ≤ℤ max_exponent) × (leb_ℤ max_exponent lower ≡ false)
unfolding ◌+ℤ◌
below_max e lower u ee room = (ground (arith, ee, room), ground (arith, ee, room))

fit_cut :
    (up : ℕ) (lower : ℤ)
    → ltb max_int64 up ≡ true
    → leb_ℤ max_exponent lower ≡ false
    → fit_int64 (scaled up lower)
      ≡ ok (record { m = up / 10; exponent = lower +ℤ pos 1; last_digit = some (up % 10) })
unfolding drop_digit
fit_cut up lower over free = fit_drop (scaled up lower) over free

finish-IsExact :
    (m up u : ℕ) (e lower : ℤ)
    → m ≤ max_int64
    → HasZeros m e u (up, lower)
    → HasDigits (up, lower)
    → e <ℤ max_exponent
    → IsExact m e (finish up lower)
finish-IsExact m up u e lower fits (em, ee) digits room =
    let (emax, free) = below_max e lower u ee room in
    elim (Bool-cases (ltb max_int64 up)) [
      | inr within ↦ (
        scaled up lower,
        u,
        finish_fits up lower digits emax
            ∙ ap (λ r. r >>= round) (fit_within (scaled up lower) within)
            ∙ round-none (scaled up lower) refl,
        em,
        ee,
      )
      | inl over ↦ dropped u em ee emax free over
    ]
  where
    dropped :
        (u : ℕ)
        → up ≡ m * 10 ^ u
        → e ≡ lower +ℤ pos u
        → lower ≤ℤ max_exponent
        → leb_ℤ max_exponent lower ≡ false
        → ltb max_int64 up ≡ true
        → IsExact m e (finish up lower)
    dropped zero em' ee' emax free over = absurd (ground (arith, em', fits, over))
    dropped (suc v) em' ee' emax free over =
        let (quotient, digit, shift) = exact_dropped m up v e lower em' ee' in
        let cut : Scaled = record {
          m = up / 10;
          exponent = lower +ℤ pos 1;
          last_digit = some (up % 10);
        } in
        (
          cut,
          v,
          finish_fits up lower digits emax
              ∙ ap (λ r. r >>= round) (fit_cut up lower over free)
              ∙ round_low cut (up % 10) refl (ground (arith, digit)),
          quotient,
          shift,
        )

-- A magnitude above 0 that fits in an int64, at an exponent from minExponent + 18 to maxExponent - 1,
-- is normalized, and nothing is lost: the result is the magnitude with some number of zeros behind it,
-- at an exponent that is lower by that number.
pub normalize_magnitude_exact :
    (m : ℕ) (exponent : ℤ)
    → 0 < m
    → m ≤ max_int64
    → min_exponent +ℤ pos 18 ≤ℤ exponent
    → exponent <ℤ max_exponent
    → (t : Scaled) × (u : ℕ) × (normalize_magnitude m exponent ≡ ok t)
      × (t.m ≡ m * 10 ^ u)
      × (exponent ≡ t.exponent +ℤ pos u)
unfolding normalize_magnitude
normalize_magnitude_exact m exponent positive fits low high =
    let (u, zeros) = scale_up-HasZeros 18 m exponent in
    let digits =
      scale_up-HasDigits 18 m exponent (omega (arith, fits)) (omega (arith, positive)) low in
    let up = scale_up 18 m exponent in finish-IsExact m up.0 u exponent up.1 fits zeros digits high

below_min : (g m : ℕ) (e : ℤ) → min_mantissa ≤ m * 10 ^ 0 → too_small g m e ≡ false
below_min g m e enough = ground (arith, enough)

-- Fuel that brings the mantissa to 10^18 is enough for the first loop of normalize, and so 18 is for
-- every mantissa above 0.
pub scale_up_enough :
    (f g m : ℕ) (e : ℤ) → min_mantissa ≤ m * 10 ^ f → f ≤ g → scale_up g m e ≡ scale_up f m e
scale_up_enough zero zero m e enough h = refl
scale_up_enough zero (suc g) m e enough h =
    scale_up_stop g m e (below_min g m e enough) ∙ (unfold scale_up in refl)
scale_up_enough (suc f) zero m e enough h = absurd (omega (arith, h))
scale_up_enough (suc f) (suc g) m e enough h = elim (Bool-cases (too_small f m e)) [
  | inr stop ↦ scale_up_stop g m e stop ∙ sym (scale_up_stop f m e stop)
  | inl more ↦
      let unit : m * 10 ^ suc f ≡ m * (10 ^ f * 10) = ap (λ (w : ℕ). m * w) (pow-suc 10 f) in
      scale_up_more g m e more
      ∙ scale_up_enough f g (m * 10) (e +ℤ negsuc 0) (omega (arith, enough, unit))
          (omega (arith, h))
      ∙ sym (scale_up_more f m e more)
]
