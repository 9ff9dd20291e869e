-- ===== src/Base/Digits.antt =====
-- Positional notation: what `big.Int` computes in `SetBytes` and `Bytes`, and the reference for the
-- other conversions between numbers and digits. The highest digit stands first.
use Prim.Native.Nat.{ℕ, zero, suc, ◌+◌, ◌*◌, ◌/◌, ◌%◌, ◌^◌, ◌<◌, ◌≤◌}
use mathlib.Core.Path.{◌≡◌, refl, sym, ◌∙◌, ap, ap₂}
use mathlib.Core.Logic.{◌≢◌}
use mathlib.Core.List.{List, [], ◌∷◌, ◌++◌, append-nil, append_assoc}
use mathlib.Core.Bool.{true, false}
use native.Mathlib.Omega.{arith}
use native.Mathlib.Nat.{div-add-mod, mod-lt, pow-suc, pow-zero}
use xrpl_go.Base.Tests.{◌==◌, if◌then◌else◌}
use xrpl_go.Base.Lists.{All, All-append, length, replicate}

-- The digits of n in this base, none for 0. The fuel n is enough, since every division makes the
-- number smaller.
unfoldable pub to_base_fuel : ℕ → ℕ → ℕ → List ℕ
to_base_fuel base zero n = []
to_base_fuel base (suc f) n = elim (n == 0) [
  | true ↦ []
  | false ↦ to_base_fuel base f (n / base) ++ (n % base ∷ [])
]

unfoldable pub to_base : ℕ → ℕ → List ℕ
unfolding to_base_fuel
to_base base n = to_base_fuel base n n

unfoldable pub of_base_from : ℕ → ℕ → List ℕ → ℕ
of_base_from base acc [] = acc
of_base_from base acc (d ∷ ds) = of_base_from base (acc * base + d) ds

unfoldable pub of_base : ℕ → List ℕ → ℕ
unfolding of_base_from
of_base base ds = of_base_from base 0 ds

pub of_base_from-append :
    (base acc : ℕ) (xs ys : List ℕ)
    → of_base_from base acc (xs ++ ys) ≡ of_base_from base (of_base_from base acc xs) ys
unfolding of_base_from
of_base_from-append base acc [] ys = refl
of_base_from-append base acc (x ∷ xs) ys = of_base_from-append base (acc * base + x) xs ys

-- Digits behind a number: the number moves up by as many places.
pub of_base_from_split :
    (base acc : ℕ) (ds : List ℕ)
    → of_base_from base acc ds ≡ acc * base ^ length ds + of_base base ds
unfolding of_base of_base_from
of_base_from_split base acc [] =
    let one_more : acc ≡ acc * base ^ 0 + 0 =
      omega (arith, ap (λ (t : ℕ). acc * t) (pow-zero base)) in
    one_more
of_base_from_split base acc (d ∷ ds) =
    of_base_from_split base (acc * base + d) ds
    ∙ omega (
      arith,
      of_base_from_split base (0 * base + d) ds,
      ap (λ (t : ℕ). acc * t) (pow-suc base (length ds)),
    )

div_shrinks : (base n : ℕ) → 2 ≤ base → 0 < n → n / base < n
div_shrinks base n h p = grind arith

module _ (base : ℕ) (two : 2 ≤ base) where
  to_base_fuel_irrelevant :
      (f g n : ℕ) → n ≤ f → n ≤ g → to_base_fuel base f n ≡ to_base_fuel base g n
  unfolding to_base_fuel
  to_base_fuel_irrelevant zero zero n hf hg = refl
  to_base_fuel_irrelevant zero (suc g) n hf hg = ground arith
  to_base_fuel_irrelevant (suc f) zero n hf hg = ground arith
  to_base_fuel_irrelevant (suc f) (suc g) n hf hg =
      ground (arith, div_shrinks base n two, to_base_fuel_irrelevant f g (n / base))

  pub to_base-zero : to_base base 0 ≡ []
  unfolding to_base
  to_base-zero = refl

  pub to_base_step : (n : ℕ) → n ≢ 0 → to_base base n ≡ to_base base (n / base) ++ (n % base ∷ [])
  to_base_step zero h = absurd (h refl)
  to_base_step (suc n) h = unfold to_base in fuel_step n
    where
      fuel_step :
          (m : ℕ)
          → to_base_fuel base (suc m) (suc m)
            ≡ to_base_fuel base (suc m / base) (suc m / base) ++ (suc m % base ∷ [])
      fuel_step m =
          unfold to_base_fuel in
          ground (
            arith,
            div_shrinks base (suc m) two,
            to_base_fuel_irrelevant m (suc m / base) (suc m / base),
          )

  shifted_div : (x d : ℕ) → d < base → (x * base + d) / base ≡ x
  shifted_div x d h = grind arith

  shifted_mod : (x d : ℕ) → d < base → (x * base + d) % base ≡ d
  shifted_mod x d h = grind arith

  -- One more digit behind a number that is not 0 becomes its last digit.
  pub to_base_shifted :
      (x d : ℕ)
      → d < base
      → x * base + d ≢ 0
      → to_base base (x * base + d) ≡ to_base base x ++ (d ∷ [])
  to_base_shifted x d h ne =
      to_base_step (x * base + d) ne
      ∙ ap₂ (λ q r. to_base base q ++ (r ∷ [])) (shifted_div x d h) (shifted_mod x d h)

  div_mod : (n : ℕ) → n / base * base + n % base ≡ n
  div_mod n = omega (arith, div-add-mod n base)

  pub of_base-append_one :
      (xs : List ℕ) (d : ℕ) → of_base base (xs ++ (d ∷ [])) ≡ of_base base xs * base + d
  unfolding of_base
  of_base-append_one xs d = of_base_from-append base 0 xs (d ∷ []) ∙ unfold of_base_from in refl

  -- The digits of a number stand for it.
  of_base-to_base_below : (k n : ℕ) → n < k → of_base base (to_base base n) ≡ n
  of_base-to_base_below zero n h = absurd (omega arith)
  of_base-to_base_below (suc k) zero h = rw to_base-zero (unfold of_base of_base_from in refl)
  of_base-to_base_below (suc k) (suc n) h =
      ap (of_base base) (to_base_step (suc n) (λ e. absurd (omega arith)))
      ∙ of_base-append_one (to_base base (suc n / base)) (suc n % base)
      ∙ ap (λ (t : ℕ). t * base + suc n % base)
          (of_base-to_base_below k (suc n / base)
            (omega (arith, div_shrinks base (suc n) two (omega arith))))
      ∙ div_mod (suc n)

  pub of_base-to_base : (n : ℕ) → of_base base (to_base base n) ≡ n
  of_base-to_base n = of_base-to_base_below (suc n) n (omega arith)

-- The digits without the zeros in front, and how many zeros those are.
unfoldable pub strip : List ℕ → List ℕ
strip [] = []
strip (d ∷ ds) = if d == 0 then strip ds else d ∷ ds

strip-suc : (d : ℕ) (ds : List ℕ) → strip (suc d ∷ ds) ≡ suc d ∷ ds
unfolding strip
strip-suc d ds = ground arith

unfoldable pub leading_zeros : List ℕ → ℕ
leading_zeros [] = 0
leading_zeros (d ∷ ds) = if d == 0 then suc (leading_zeros ds) else 0

pub replicate-leading_zeros : (ds : List ℕ) → replicate (leading_zeros ds) 0 ++ strip ds ≡ ds
unfolding strip leading_zeros
replicate-leading_zeros [] = refl
replicate-leading_zeros (d ∷ ds) = ground (arith, replicate-leading_zeros ds)

module _ (base : ℕ) (two : 2 ≤ base) where
  pub to_base-of_base_from :
      (ds : List ℕ) (acc : ℕ)
      → All (λ d. d < base) ds
      → acc ≢ 0
      → to_base base (of_base_from base acc ds) ≡ to_base base acc ++ ds
  unfolding of_base_from
  to_base-of_base_from [] acc h ne = sym (append-nil (to_base base acc))
  to_base-of_base_from (d ∷ ds) acc (hd, hs) ne =
      to_base-of_base_from ds (acc * base + d) hs (grows acc d ne)
      ∙ ap (λ t. t ++ ds) (to_base_shifted base two acc d hd (grows acc d ne))
      ∙ append_assoc (to_base base acc) (d ∷ []) ds
    where
      grows : (a c : ℕ) → a ≢ 0 → a * base + c ≢ 0
      grows a c h e = h (grind arith)

  to_base_digit : (d : ℕ) → d < base → d ≢ 0 → to_base base d ≡ d ∷ []
  to_base_digit d h ne =
      to_base_step base two d ne
      ∙ ap₂ (λ q r. to_base base q ++ (r ∷ [])) (div_small d h) (mod_small d h)
      ∙ ap (λ t. t ++ (d ∷ [])) (to_base-zero base two)
    where
      div_small : (d : ℕ) → d < base → d / base ≡ 0
      div_small d h = grind arith

      mod_small : (d : ℕ) → d < base → d % base ≡ d
      mod_small d h = grind arith

  -- The digits of the number that digits stand for are those digits, without the zeros in front.
  pub to_base-of_base :
      (ds : List ℕ) → All (λ d. d < base) ds → to_base base (of_base base ds) ≡ strip ds
  unfolding of_base of_base_from strip
  to_base-of_base [] h = to_base-zero base two
  to_base-of_base (zero ∷ ds) (hd, hs) =
      ap (λ (t : ℕ). to_base base (of_base_from base t ds)) (omega arith) ∙ to_base-of_base ds hs
  to_base-of_base (suc d ∷ ds) (hd, hs) =
      ap (λ (t : ℕ). to_base base (of_base_from base t ds)) (omega arith)
      ∙ to_base-of_base_from ds (suc d) hs (λ e. absurd (omega arith))
      ∙ ap (λ t. t ++ ds) (to_base_digit (suc d) hd (λ e. absurd (omega arith)))
      ∙ sym (strip-suc d ds)

  to_base_below : (k n : ℕ) → n < k → All (λ d. d < base) (to_base base n)
  to_base_below zero n h = absurd (omega arith)
  to_base_below (suc k) zero h = rw (to_base-zero base two) tt
  to_base_below (suc k) (suc n) h = rw (to_base_step base two (suc n) (λ e. absurd (omega arith))) (
      All-append (λ d. d < base) (to_base base (suc n / base)) _
        (to_base_below k (suc n / base) (omega (arith, div_shrinks base (suc n) two (omega arith))))
        (mod-lt (suc n) (omega arith), tt))

  pub to_base-All : (n : ℕ) → All (λ d. d < base) (to_base base n)
  to_base-All n = to_base_below (suc n) n (omega arith)

  -- The highest digit is not 0.
  pub strip-to_base : (n : ℕ) → strip (to_base base n) ≡ to_base base n
  strip-to_base n =
      sym (to_base-of_base (to_base base n) (to_base-All n))
      ∙ ap (to_base base) (of_base-to_base base two n)

  of_base_from_zeros :
      (n : ℕ) (ds : List ℕ) → of_base_from base 0 (replicate n 0 ++ ds) ≡ of_base_from base 0 ds
  unfolding of_base_from
  of_base_from_zeros zero ds = refl
  of_base_from_zeros (suc n) ds =
      ap (λ (t : ℕ). of_base_from base t (replicate n 0 ++ ds)) (omega arith)
      ∙ of_base_from_zeros n ds

  -- Zeros in front add nothing.
  pub of_base_zeros : (n : ℕ) (ds : List ℕ) → of_base base (replicate n 0 ++ ds) ≡ of_base base ds
  unfolding of_base
  of_base_zeros = of_base_from_zeros

length-strip : (ds : List ℕ) → length (strip ds) ≤ length ds
unfolding strip
length-strip [] = omega arith
length-strip (d ∷ ds) = ground (arith, length-strip ds)

no_leading_zeros : (ds : List ℕ) → strip ds ≡ ds → leading_zeros ds ≡ 0
unfolding strip leading_zeros
no_leading_zeros [] h = refl
no_leading_zeros (zero ∷ ds) h = absurd (omega (arith, length-strip ds, ap length h))
no_leading_zeros (suc d ∷ ds) h = ground arith

leading_zeros_after :
    (n : ℕ) (ds : List ℕ) → leading_zeros (replicate n 0 ++ ds) ≡ n + leading_zeros ds
unfolding leading_zeros
leading_zeros_after zero ds = omega arith
leading_zeros_after (suc n) ds = omega (arith, leading_zeros_after n ds)

-- The zeros put before the digits of a number are the ones that stand in front.
pub leading_zeros-to_base :
    (base n x : ℕ) → 2 ≤ base → leading_zeros (replicate n 0 ++ to_base base x) ≡ n
leading_zeros-to_base base n x two =
    leading_zeros_after n (to_base base x)
    ∙ omega (arith, no_leading_zeros (to_base base x) (strip-to_base base two x))
