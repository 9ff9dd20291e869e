-- ===== src/Address/Base58/Encode.antt =====
-- EncodeBase58, which divides by 58^10, against the plain conversion, which divides by 58.
use xrpl_go.Base.{
  ℕ, zero, suc, ◌+◌, ◌*◌, ◌/◌, ◌%◌, ◌^◌, ◌<◌, ◌≤◌, ◌≡◌, ◌≢◌, refl, sym, ap, ap₂, ◌∙◌, List, [], ◌∷◌,
  ◌++◌, map, reverse, append-nil, append_assoc, Bytes, replicate, arith,
}
use xrpl_go.Base.Digits.{of_base, to_base, to_base_step, to_base-zero, leading_zeros}
use xrpl_go.Address.Alphabet.{alphabet_char, alphabet_idx0}
use xrpl_go.Address.Base58.{
  append_digits, append_n_digits, encode_loop, append_leading_zeros, encode_base58, big_radix10,
}
use native.Mathlib.Nat.{pow-suc, le_refl}
use native.Mathlib.Decide.{ℕ_discrete}
use mathlib.Core.List.{reverse-append, reverse-reverse, map-append}

-- The digits of a number in base 58, lowest first.
product_zero : (q p : ℕ) → 0 < p → q * p ≡ 0 → q ≡ 0
product_zero q p hp e = grind arith

low_first : ℕ → List ℕ
low_first n = reverse (to_base 58 n)

low_first-zero : low_first 0 ≡ []
unfolding low_first
low_first-zero = ap reverse (to_base-zero 58 (omega arith))

low_first_step : (n : ℕ) → n ≢ 0 → low_first n ≡ n % 58 ∷ low_first (n / 58)
unfolding low_first
low_first_step n h =
    ap reverse (to_base_step 58 (omega arith) n h)
    ∙ reverse-append (to_base 58 (n / 58)) (n % 58 ∷ [])

-- As many digits as asked for, lowest first.
low_n : ℕ → ℕ → List ℕ
low_n zero m = []
low_n (suc n) m = m % 58 ∷ low_n n (m / 58)

low_first-shifted :
    (n q m : ℕ) → q ≢ 0 → m < 58 ^ n → low_first (q * 58 ^ n + m) ≡ low_n n m ++ low_first q
unfolding low_n
low_first-shifted zero q m hq hm = ap low_first (omega arith)
low_first-shifted (suc n) q m hq hm =
    low_first_step (q * 58 ^ suc n + m) (ne q (58 ^ n) hq)
    ∙ ap₂ (λ d r. d ∷ low_first r) (omega (arith, power)) (omega (arith, power))
    ∙ ap (λ l. m % 58 ∷ l) (low_first-shifted n q (m / 58) hq (omega (arith, pow-suc 58 n)))
  where
    power : q * 58 ^ suc n ≡ 58 * (q * 58 ^ n)
    power = omega (arith, ap (λ (t : ℕ). q * t) (pow-suc 58 n))

    ne : (a p : ℕ) → a ≢ 0 → q * 58 ^ suc n + m ≢ 0
    ne a p h e = hq (product_zero q (58 ^ n) (omega arith) (omega (arith, power, e)))

append_digits_step :
    (f m : ℕ) (answer : Bytes)
    → m ≢ 0
    → append_digits (suc f) m answer
      ≡ append_digits f (m / 58) (answer ++ (alphabet_char (m % 58) ∷ []))
unfolding append_digits
append_digits_step f m answer h = ground arith

append_digits_lem :
    (f m : ℕ) (answer : Bytes)
    → m ≤ f
    → append_digits f m answer ≡ answer ++ map alphabet_char (low_first m)
unfolding append_digits
append_digits_lem zero zero answer h = sym (rw low_first-zero (append-nil answer))
append_digits_lem zero (suc m) answer h = absurd (omega arith)
append_digits_lem (suc f) zero answer h = sym (rw low_first-zero (append-nil answer))
append_digits_lem (suc f) (suc m) answer h =
    append_digits_step f (suc m) answer (λ e. absurd (omega arith))
    ∙ append_digits_lem f (suc m / 58) (answer ++ (alphabet_char (suc m % 58) ∷ [])) (omega arith)
    ∙ append_assoc answer (alphabet_char (suc m % 58) ∷ [])
        (map alphabet_char (low_first (suc m / 58)))
    ∙ sym (
        ap (λ l. answer ++ map alphabet_char l)
          (low_first_step (suc m) (λ e. absurd (omega arith))))

append_n_digits_lem :
    (n m : ℕ) (answer : Bytes)
    → append_n_digits n m answer ≡ answer ++ map alphabet_char (low_n n m)
unfolding append_n_digits low_n
append_n_digits_lem zero m answer = sym (append-nil answer)
append_n_digits_lem (suc n) m answer =
    append_n_digits_lem n (m / 58) (answer ++ (alphabet_char (m % 58) ∷ []))
    ∙ append_assoc answer (alphabet_char (m % 58) ∷ []) (map alphabet_char (low_n n (m / 58)))

-- One round, where the division leaves nothing, and where it leaves a number.
encode_loop_last :
    (f x : ℕ) (answer : Bytes)
    → x ≢ 0
    → x / big_radix10 ≡ 0
    → encode_loop (suc f) x answer
      ≡ encode_loop f 0 (append_digits (x % big_radix10) (x % big_radix10) answer)
unfolding encode_loop
encode_loop_last f x answer h e = ground arith

encode_loop_step :
    (f x : ℕ) (answer : Bytes)
    → x ≢ 0
    → x / big_radix10 ≢ 0
    → encode_loop (suc f) x answer
      ≡ encode_loop f (x / big_radix10) (append_n_digits 10 (x % big_radix10) answer)
unfolding encode_loop
encode_loop_step f x answer h e = ground arith

encode_loop-zero : (f : ℕ) (answer : Bytes) → encode_loop f 0 answer ≡ answer
unfolding encode_loop
encode_loop-zero zero answer = refl
encode_loop-zero (suc f) answer = refl

-- The loop appends the digits of x, lowest first.
encode_loop_lem :
    (f x : ℕ) (answer : Bytes)
    → x ≤ f
    → encode_loop f x answer ≡ answer ++ map alphabet_char (low_first x)
encode_loop_lem f zero answer h =
    encode_loop-zero f answer ∙ sym (rw low_first-zero (append-nil answer))
encode_loop_lem zero (suc x) answer h = absurd (omega arith)
encode_loop_lem (suc f) (suc x) answer h = elim (ℕ_discrete (suc x / big_radix10) 0) [
  | yes e ↦
      encode_loop_last f (suc x) answer (λ p. absurd (omega arith)) e
      ∙ encode_loop-zero f _
      ∙ append_digits_lem (suc x % big_radix10) (suc x % big_radix10) answer (le_refl _)
      ∙ ap (λ l. answer ++ map alphabet_char (low_first l)) (omega arith)
  | no e ↦
      let q = suc x / big_radix10 in
      let m = suc x % big_radix10 in
      encode_loop_step f (suc x) answer (λ p. absurd (omega arith)) e
      ∙ encode_loop_lem f q (append_n_digits 10 m answer) (omega arith)
      ∙ ap (λ l. l ++ map alphabet_char (low_first q)) (append_n_digits_lem 10 m answer)
      ∙ append_assoc answer (map alphabet_char (low_n 10 m)) (map alphabet_char (low_first q))
      ∙ ap (λ l. answer ++ l)
          (sym (map-append alphabet_char (low_n 10 m) (low_first q))
            ∙ ap (map alphabet_char) (sym (low_first-shifted 10 q m e (omega arith))))
      ∙ ap (λ l. answer ++ map alphabet_char (low_first l)) (omega arith)
]

append_leading_zeros_lem :
    (b answer : Bytes)
    → append_leading_zeros b answer ≡ answer ++ replicate (leading_zeros b) alphabet_idx0
unfolding append_leading_zeros leading_zeros
append_leading_zeros_lem [] answer = sym (append-nil answer)
append_leading_zeros_lem (zero ∷ b) answer =
    append_leading_zeros_lem b (answer ++ (alphabet_idx0 ∷ []))
    ∙ append_assoc answer (alphabet_idx0 ∷ []) (replicate (leading_zeros b) alphabet_idx0)
append_leading_zeros_lem (suc i ∷ b) answer = ground (arith, append-nil answer)

replicate_comm : (n c : ℕ) → replicate n c ++ (c ∷ []) ≡ c ∷ replicate n c
replicate_comm zero c = refl
replicate_comm (suc n) c = ap (λ l. c ∷ l) (replicate_comm n c)

reverse-replicate : (n c : ℕ) → reverse (replicate n c) ≡ replicate n c
reverse-replicate zero c = refl
reverse-replicate (suc n) c =
    reverse-append (c ∷ []) (replicate n c)
    ∙ ap (λ l. l ++ (c ∷ [])) (reverse-replicate n c)
    ∙ replicate_comm n c

map-reverse : (l : List ℕ) → map alphabet_char (reverse l) ≡ reverse (map alphabet_char l)
map-reverse [] = refl
map-reverse (d ∷ l) =
    ap (map alphabet_char) (reverse-append (d ∷ []) l)
    ∙ map-append alphabet_char (reverse l) (d ∷ [])
    ∙ ap (λ t. t ++ (alphabet_char d ∷ [])) (map-reverse l)
    ∙ sym (reverse-append (alphabet_char d ∷ []) (map alphabet_char l))

-- EncodeBase58 writes one `r` for each zero byte in front, and then the base 58 digits of the number
-- that the bytes stand for, highest first: dividing by 58^10 changes nothing.
pub encode_base58_lem :
    (b : Bytes)
    → encode_base58 b
      ≡ replicate (leading_zeros b) alphabet_idx0 ++ map alphabet_char (to_base 58 (of_base 256 b))
unfolding encode_base58
encode_base58_lem b =
    let x = of_base 256 b in
    let zeros = replicate (leading_zeros b) alphabet_idx0 in
    ap reverse (
      append_leading_zeros_lem b (encode_loop x x [])
      ∙ ap (λ l. l ++ zeros) (encode_loop_lem x x [] (le_refl x)))
    ∙ reverse-append (map alphabet_char (low_first x)) zeros
    ∙ ap₂ ◌++◌ (reverse-replicate (leading_zeros b) alphabet_idx0) (high_first x)
  where
    high_first :
        (x : ℕ) → reverse (map alphabet_char (low_first x)) ≡ map alphabet_char (to_base 58 x)
    high_first x =
        sym (map-reverse (low_first x))
        ∙ unfold low_first in ap (map alphabet_char) (reverse-reverse (to_base 58 x))
