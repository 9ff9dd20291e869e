-- ===== src/Number/Codec/RoundTrip.antt =====
-- The twelve bytes of `Number.FromJSON` of binary-codec/types/st_number.go, read back.
use xrpl_go.Base.{
  ℕ, ◌^◌, ◌≤◌, ◌<◌, ◌≡◌, inl, inr, sym, subst, ap, ◌∙◌, ◌++◌, Bytes, Bool, true, false, take, drop,
  length, length-append, take-append, drop-append, take_all, if◌then◌else◌, ◌==◌, Bool-cases,
  Option-cases, arith,
}
use xrpl_go.Base.Int.{ℤ, pos, abs, with_sign, ◌≤ℤ◌, ltb_ℤ}
use xrpl_go.Base.Words.{
  pattern_of, signed_of, put_be, get_be, get_be-put_be, length-put_be, IsInt32, IsInt64,
}
use xrpl_go.Base.Results.{Result, ok, err, Result-cases, bind-ok, from_option}
use xrpl_go.Number.Errors.{NumberError, unspecified_exponent}
use xrpl_go.Number.Normalize.{
  default_zero_exp, max_int64, min_exponent, max_exponent, Scaled, normalize, normalize_magnitude,
}
use xrpl_go.Number.Rounding.{IsRounded, lowest_mantissa}
use xrpl_go.Number.Scaling.{normalize_magnitude-IsRounded}
use xrpl_go.Number.Parse.{
  Match, match_number, exponent_of, number_of_digits, number_of_match, parse_and_normalize,
}
use xrpl_go.Number.Codec.{
  write_int64_be, write_int32_be, read_int64_be, read_int32_be, number_bytes, from_json,
}

signed_pattern64 : (v : ℤ) → IsInt64 v → signed_of (2 ^ 64) (pattern_of (2 ^ 64) v) ≡ v
signed_pattern64 v h = ground (arith, h)

signed_pattern32 : (v : ℤ) → IsInt32 v → signed_of (2 ^ 32) (pattern_of (2 ^ 32) v) ≡ v
signed_pattern32 v h = ground (arith, h)

pattern_below64 : (v : ℤ) → pattern_of (2 ^ 64) v < 256 ^ 8
pattern_below64 v = ground arith

pattern_below32 : (v : ℤ) → pattern_of (2 ^ 32) v < 256 ^ 4
pattern_below32 v = ground arith

-- A mantissa and an exponent that fit are read back from their twelve bytes.
read-number_bytes :
    (m e : ℤ)
    → IsInt64 m
    → IsInt32 e
    → (length (number_bytes (m, e)) ≡ 12)
      × (read_int64_be (number_bytes (m, e)) 0 ≡ m)
      × (read_int32_be (number_bytes (m, e)) 8 ≡ e)
unfolding number_bytes write_int64_be write_int32_be read_int64_be read_int32_be
read-number_bytes m e hm he =
    let mb = put_be 8 (pattern_of (2 ^ 64) m) in
    let eb = put_be 4 (pattern_of (2 ^ 32) e) in
    let m_size = length-put_be 8 (pattern_of (2 ^ 64) m) in
    let e_size = length-put_be 4 (pattern_of (2 ^ 32) e) in
    let front : take 8 (mb ++ eb) ≡ mb =
      subst (λ n. take n (mb ++ eb) ≡ mb) m_size (take-append mb eb) in
    let back : drop 8 (mb ++ eb) ≡ eb =
      subst (λ n. drop n (mb ++ eb) ≡ eb) m_size (drop-append mb eb) in
    (
      omega (arith, length-append mb eb, m_size, e_size),
      ap (λ b. signed_of (2 ^ 64) (get_be b)) front
          ∙ ap (signed_of (2 ^ 64)) (get_be-put_be 8 (pattern_of (2 ^ 64) m) (pattern_below64 m))
          ∙ signed_pattern64 m hm,
      ap (λ b. signed_of (2 ^ 32) (get_be (take 4 b))) back
          ∙ ap (λ b. signed_of (2 ^ 32) (get_be b)) (take_all eb 4 e_size)
          ∙ ap (signed_of (2 ^ 32)) (get_be-put_be 4 (pattern_of (2 ^ 32) e) (pattern_below32 e))
          ∙ signed_pattern32 e he,
    )

-- The numbers that FromJSON writes: zero with its own exponent, or a mantissa and an exponent within
-- the bounds of normalized ones.
pub data IsNumber : ℤ → ℤ → Type 0 where
  is_zero : IsNumber (pos 0) default_zero_exp
  is_normal :
      (m e : ℤ)
      → lowest_mantissa ≤ abs m
      → abs m ≤ max_int64
      → min_exponent ≤ℤ e
      → e ≤ℤ max_exponent
      → IsNumber m e

IsNumber-fits : {m e : ℤ} → IsNumber m e → IsInt64 m × IsInt32 e
IsNumber-fits is_zero = omega arith
IsNumber-fits (is_normal m e lo hi emin emax) = (ground (arith, hi), ground (arith, emin, emax))

abs-with_sign : (b : Bool) (n : ℕ) → abs (with_sign b n) ≡ n
abs-with_sign b n = ground arith

normalize_zero : (v e : ℤ) → (abs v == 0) ≡ true → normalize v e ≡ ok (pos 0, default_zero_exp)
unfolding normalize
normalize_zero v e h = rw h

normalize_found :
    (v e : ℤ) (s : Scaled)
    → (abs v == 0) ≡ false
    → normalize_magnitude (abs v) e ≡ ok s
    → normalize v e ≡ ok (with_sign (ltb_ℤ v (pos 0)) s.m, s.exponent)
unfolding normalize
normalize_found v e s h found = rw (h, found)

normalize_fails :
    (v e : ℤ) (x : NumberError)
    → (abs v == 0) ≡ false
    → normalize_magnitude (abs v) e ≡ err x
    → normalize v e ≡ err x
unfolding normalize
normalize_fails v e x h fails = rw (h, fails)

IsRounded-IsNumber :
    {M k : ℕ} {e : ℤ} (s : Scaled) (b : Bool)
    → IsRounded M e k s
    → IsNumber (with_sign b s.m) s.exponent
IsRounded-IsNumber s b h =
    let (lo, hi) = h.mantissa_bounds in
    let (emin, emax) = h.exponent_bounds in
    is_normal (with_sign b s.m) s.exponent (rw (abs-with_sign b s.m) lo)
      (rw (abs-with_sign b s.m) hi) emin emax

normalize-IsNumber : (v e : ℤ) (n : ℤ × ℤ) → normalize v e ≡ ok n → IsNumber n.0 n.1
normalize-IsNumber v e n r = elim (Bool-cases (abs v == 0)) [
  | inl zero_value ↦
      let same : (pos 0, default_zero_exp) ≡ n = cc (r, normalize_zero v e zero_value) in
      subst (λ x. IsNumber x.0 x.1) same is_zero
  | inr other ↦ elim (Result-cases (normalize_magnitude (abs v) e)) [
    | inr (x, fails) ↦ cc (r, normalize_fails v e x other fails)
    | inl (s, found) ↦
        let (u, k, lower, shift, rounded) = normalize_magnitude-IsRounded (abs v) e s found in
        let same : (with_sign (ltb_ℤ v (pos 0)) s.m, s.exponent) ≡ n =
          cc (r, normalize_found v e s other found) in
        subst (λ x. IsNumber x.0 x.1) same (IsRounded-IsNumber s (ltb_ℤ v (pos 0)) rounded)
  ]
]

number_of_digits-IsNumber :
    (p : Match) (exponent : ℤ) (n : ℤ × ℤ) → number_of_digits p exponent ≡ ok n → IsNumber n.0 n.1
unfolding number_of_digits
number_of_digits-IsNumber p exponent n r = by_zero _ (normalize-IsNumber _ _ n) r
  where
    by_zero :
        (zero_value : Bool) {rest : Result NumberError (ℤ × ℤ)}
        → (rest ≡ ok n → IsNumber n.0 n.1)
        → (if zero_value then ok (pos 0, default_zero_exp) else rest) ≡ ok n
        → IsNumber n.0 n.1
    by_zero true else_case e =
        let same : (pos 0, default_zero_exp) ≡ n = cc in subst (λ x. IsNumber x.0 x.1) same is_zero
    by_zero false else_case e = else_case e

number_of_match-IsNumber : (p : Match) (n : ℤ × ℤ) → number_of_match p ≡ ok n → IsNumber n.0 n.1
unfolding number_of_match
number_of_match-IsNumber p n r =
    let (exponent, found, made) =
      bind-ok (from_option (exponent_of p.frac_part p.exp_part) unspecified_exponent) _ n r in
    number_of_digits-IsNumber p exponent n made

parse-IsNumber : (s : Bytes) (n : ℤ × ℤ) → parse_and_normalize s ≡ ok n → IsNumber n.0 n.1
unfolding parse_and_normalize
parse-IsNumber s n r = elim (Option-cases (match_number s)) [
  | inl no_match ↦ absurd (ground (arith, no_match, r))
  | inr (p, found) ↦
      let q : number_of_match p ≡ ok n = rw found at r in number_of_match-IsNumber p n q
]

-- The twelve bytes that FromJSON makes of a text hold the mantissa and the exponent that the text was
-- normalized to, which are the ones of zero or within their bounds.
pub read-from_json :
    (s b : Bytes)
    → from_json s ≡ ok b
    → (m e : ℤ) × (parse_and_normalize s ≡ ok (m, e))
      × IsNumber m e
      × (length b ≡ 12)
      × (read_int64_be b 0 ≡ m)
      × (read_int32_be b 8 ≡ e)
unfolding from_json
read-from_json s b r = elim (Result-cases (parse_and_normalize s)) [
  | inr (x, fails) ↦ absurd (ground (arith, fails, r))
  | inl ((m, e), found) ↦
      let q : ok (number_bytes (m, e)) ≡ ok b = rw found at r in
      let same : number_bytes (m, e) ≡ b = cc in
      let h = parse-IsNumber s (m, e) found in
      let (hm, he) = IsNumber-fits h in
      let (size, first, second) = read-number_bytes m e hm he in
      (
        m,
        e,
        found,
        h,
        ap length (sym same) ∙ size,
        ap (λ x. read_int64_be x 0) (sym same) ∙ first,
        ap (λ x. read_int32_be x 8) (sym same) ∙ second,
      )
]
