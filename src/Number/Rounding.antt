-- ===== src/Number/Rounding.antt =====
-- What `normalize` of binary-codec/types/st_number.go makes of a mantissa and an exponent.
use xrpl_go.Base.{
  ℕ, suc, ◌+◌, ◌/◌, ◌%◌, ◌^◌, ◌≤◌, ◌<◌, ◌≡◌, inl, inr, sym, subst, ap, ◌∙◌, true, false, ltb, leb,
  if◌then◌else◌, Bool-cases, Option, none, some, arith,
}
use xrpl_go.Base.Int.{ℤ, pos, ◌+ℤ◌, leb_ℤ, ◌≤ℤ◌}
use xrpl_go.Base.Results.{ok}
use xrpl_go.Number.Normalize.{
  max_int64, min_exponent, max_exponent, Scaled, drop_digit, rounds_up, round_up, round,
}
use xrpl_go.Number.Cut.{IsCut, whole, cut, HalfUnit, div_ten, next_exponent, near_one, near_two}

-- What a magnitude of normalize is: M at the exponent e, in units of k digits, to half a unit, and
-- within the bounds of mantissa and exponent.
abbrev pub lowest_mantissa : ℕ
lowest_mantissa = 922337203685477580

pub record IsRounded (M : ℕ) (e : ℤ) (k : ℕ) (s : Scaled) : Type 0 where
  pub half_unit : HalfUnit M s.m (10 ^ k)
  pub shifted : s.exponent ≡ e +ℤ pos k
  pub mantissa_bounds : (lowest_mantissa ≤ s.m) × (s.m ≤ max_int64)
  pub exponent_bounds : (min_exponent ≤ℤ s.exponent) × (s.exponent ≤ℤ max_exponent)

-- The bounds in front of the rounding.
abbrev pub IsFitting : Scaled → Type 0
IsFitting s =
    (lowest_mantissa ≤ s.m)
    × (s.m ≤ max_int64)
    × (min_exponent ≤ℤ s.exponent)
    × (s.exponent ≤ℤ max_exponent)

round_down :
    (M : ℕ) (e : ℤ) (j : ℕ) (s : Scaled)
    → IsCut M e (suc j) s
    → M / 10 ^ j % 10 < 5
    → HalfUnit M s.m (10 ^ suc j)
round_down M e j s (cut i t em ee el) low =
    let q : s.m ≡ M / 10 ^ j / 10 = em ∙ sym (div_ten M j) in
    near_one M s.m j (omega (arith, q, low)) (omega (arith, q, low))

abbrev plus_one : Scaled → Scaled
plus_one s = record s { m = s.m + 1 }

round_up_within : (s : Scaled) → ltb max_int64 (s.m + 1) ≡ false → round_up s ≡ ok (plus_one s)
unfolding round_up
round_up_within s within = rw (within, round_up)

-- The only magnitude that the rounding lifts out of the int64 is the greatest one.
round_up_over :
    (s : Scaled)
    → s.m ≡ max_int64
    → leb_ℤ max_exponent s.exponent ≡ false
    → round_up s
      ≡ ok (record { m = lowest_mantissa + 1; exponent = s.exponent +ℤ pos 1; last_digit = some 8 })
unfolding round_up rounds_up drop_digit
round_up_over s top free = rw (top, free)

pub next_bounds :
    (x : ℤ)
    → min_exponent ≤ℤ x
    → leb_ℤ max_exponent x ≡ false
    → (min_exponent ≤ℤ x +ℤ pos 1) × (x +ℤ pos 1 ≤ℤ max_exponent)
unfolding ◌+ℤ◌
next_bounds x h k = (ground arith, ground arith)

module _ (M : ℕ) (e : ℤ) (j : ℕ) (s : Scaled) where
  abbrev last : ℕ
  last = M / 10 ^ j % 10

  within_bounds :
      s.m ≡ M / 10 ^ suc j
      → s.exponent ≡ e +ℤ pos (suc j)
      → 5 ≤ last
      → IsFitting s
      → ltb max_int64 (s.m + 1) ≡ false
      → IsRounded M e (suc j) (plus_one s)
  within_bounds em ee high (lo, hi, emin, emax) within =
      let q : s.m ≡ M / 10 ^ j / 10 = em ∙ sym (div_ten M j) in
      record {
        half_unit = near_one M (s.m + 1) j (omega (arith, q, high)) (omega (arith, q, high));
        shifted = ee;
        mantissa_bounds = (omega (arith, lo), ground (arith, within));
        exponent_bounds = (emin, emax);
      }

  over_bounds :
      s.m ≡ M / 10 ^ suc j
      → s.exponent ≡ e +ℤ pos (suc j)
      → 5 ≤ last
      → IsFitting s
      → s.m ≡ max_int64
      → leb_ℤ max_exponent s.exponent ≡ false
      → IsRounded M e
          (suc (suc j))
          (record { m = lowest_mantissa + 1; exponent = s.exponent +ℤ pos 1; last_digit = some 8 })
  over_bounds em ee high (lo, hi, emin, emax) top free =
      let q : s.m ≡ M / 10 ^ j / 10 = em ∙ sym (div_ten M j) in
      record {
        half_unit =
            near_two M (lowest_mantissa + 1) j (omega (arith, q, top, high))
              (omega (arith, q, top, high));
        shifted = next_exponent e s.exponent (suc j) ee;
        mantissa_bounds = (omega arith, omega arith);
        exponent_bounds = next_bounds s.exponent emin free;
      }

round_by :
    (s : Scaled) (d : Option ℕ)
    → s.last_digit ≡ d
    → round s ≡ (if rounds_up d then round_up s else ok s)
unfolding round
round_by s d e = ap (λ o. if rounds_up o then round_up s else ok s) e

pub round-none : (s : Scaled) → s.last_digit ≡ none → round s ≡ ok s
unfolding rounds_up
round-none s e = round_by s none e

round_high : (s : Scaled) (d : ℕ) → s.last_digit ≡ some d → leb 5 d ≡ true → round s ≡ round_up s
unfolding rounds_up
round_high s d e high = round_by s (some d) e ∙ ap (λ b. if b then round_up s else ok s) high

pub round_low : (s : Scaled) (d : ℕ) → s.last_digit ≡ some d → leb 5 d ≡ false → round s ≡ ok s
unfolding rounds_up
round_low s d e low = round_by s (some d) e ∙ ap (λ b. if b then round_up s else ok s) low

plus_zero : (e : ℤ) → e +ℤ pos 0 ≡ e
unfolding ◌+ℤ◌
plus_zero e = ground arith

-- Rounding what was cut and fits.
module _ (M : ℕ) (e : ℤ) (s t : Scaled) where
  round_up-IsRounded :
      (j : ℕ)
      → s.m ≡ M / 10 ^ suc j
      → s.exponent ≡ e +ℤ pos (suc j)
      → 5 ≤ last M e j s
      → IsFitting s
      → round_up s ≡ ok t
      → (k : ℕ) × IsRounded M e k t
  round_up-IsRounded j em ee high fits r = elim (Bool-cases (ltb max_int64 (s.m + 1))) [
    | inr within ↦
        let eq : plus_one s ≡ t = cc (r, round_up_within s within) in
        (suc j, subst (IsRounded M e (suc j)) eq (within_bounds M e j s em ee high fits within))
    | inl over ↦
        let top : s.m ≡ max_int64 = ground (arith, over, fits) in
        elim (Bool-cases (leb_ℤ max_exponent s.exponent)) [
          | inr free ↦
              let over_by : Scaled = record {
                m = lowest_mantissa + 1;
                exponent = s.exponent +ℤ pos 1;
                last_digit = some 8;
              } in
              let eq : over_by ≡ t = cc (r, round_up_over s top free) in
              (
                suc (suc j),
                subst (IsRounded M e (suc (suc j))) eq
                    (over_bounds M e j s em ee high fits top free),
              )
          | inl full ↦ absurd (unfold round_up in ground (arith, over, full, r))
        ]
  ]

  pub round-IsRounded :
      {k : ℕ} → IsCut M e k s → IsFitting s → round s ≡ ok t → (i : ℕ) × IsRounded M e i t
  round-IsRounded (whole s' em ee el) (lo, hi, emin, emax) r =
      let same : s ≡ t = cc (r, round-none s el) in
      (
        0,
        subst (IsRounded M e 0) same (record {
          half_unit = (omega (arith, em), omega (arith, em));
          shifted = ee ∙ sym (plus_zero e);
          mantissa_bounds = (lo, hi);
          exponent_bounds = (emin, emax);
        }),
      )
  round-IsRounded (cut j s' em ee el) fits r = elim (Bool-cases (leb 5 (last M e j s))) [
    | inl high ↦
        round_up-IsRounded j em ee (ground (arith, high)) fits (sym (round_high s _ el high) ∙ r)
    | inr low ↦
        let same : s ≡ t = cc (r, round_low s _ el low) in
        let (lo, hi, emin, emax) = fits in
        (
          suc j,
          subst (IsRounded M e (suc j)) same (record {
            half_unit = round_down M e j s (cut j s em ee el) (ground (arith, low));
            shifted = ee;
            mantissa_bounds = (lo, hi);
            exponent_bounds = (emin, emax);
          }),
        )
  ]
