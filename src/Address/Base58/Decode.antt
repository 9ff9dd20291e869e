-- ===== src/Address/Base58/Decode.antt =====
-- DecodeBase58, which reads chunks of ten characters into a uint64, against the plain conversion.
use xrpl_go.Base.{
  ℕ, zero, suc, ◌+◌, ◌*◌, ◌^◌, ◌<◌, ◌≤◌, ◌≡◌, ◌≢◌, refl, sym, ap, ap₂, ◌∙◌, [], ◌∷◌, ◌++◌, map,
  Bytes, replicate, arith, All, All-take, All-drop, length, take, drop, min, length-take,
  length-drop, take-append-drop, length-map,
}
use xrpl_go.Base.Digits.{of_base, of_base_from, of_base_from-append, of_base_from_split, to_base}
use xrpl_go.Address.Alphabet.{b58}
use xrpl_go.Address.Utf8.{runes, runes_ascii}
use xrpl_go.Address.Base58.{decoded, add_chunk, decode_loop, count_zeros, decode_base58, big_radix}
use native.Mathlib.Nat.{le_refl, pow-suc, pow-le-pow_right}
use mathlib.Core.List.{map-append}

-- A character of the alphabet: ASCII, and found in the table.
abbrev pub IsBase58 : ℕ → Type 0
IsBase58 c = (c < 128) × (b58 c < 58)

-- The number that a text stands for, behind the number `acc`.
abbrev pub value_from : ℕ → Bytes → ℕ
value_from acc s = of_base_from 58 acc (map b58 s)

below_word : (k n : ℕ) → k ≤ 10 → n < 58 ^ k → n < 2 ^ 64
below_word k n h lt = omega (arith, pow-le-pow_right {n = 58} (omega arith) h)

-- A chunk of characters adds up without wrapping, as long as no more than ten digits are read.
add_chunk_lem :
    (s : Bytes) (k total : ℕ)
    → All IsBase58 s
    → total < 58 ^ k
    → k + length s ≤ 10
    → add_chunk s total ≡ decoded (value_from total s)
unfolding add_chunk of_base_from
add_chunk_lem [] k total h lt le = refl
add_chunk_lem (c ∷ s) k total ((hc, hd), hs) lt le =
    let below : total * 58 + b58 c < 58 ^ suc k = omega (arith, pow-suc 58 k) in
    let fits : total * 58 + b58 c < 2 ^ 64 = below_word (suc k) _ (omega arith) below in
    ground (arith, fits, add_chunk_lem s (suc k) (total * 58 + b58 c) hs below (omega arith))

All-ascii : (s : Bytes) → All IsBase58 s → All (λ c. c < 128) s
All-ascii [] h = tt
All-ascii (c ∷ s) (hc, hs) = (hc.0, All-ascii s hs)

-- The value of a text, by the chunk in front.
value_from_chunk :
    (answer : ℕ) (t s : Bytes)
    → value_from answer (t ++ s) ≡ value_from (answer * 58 ^ length t + value_from 0 t) s
unfolding of_base
value_from_chunk answer t s =
    ap (of_base_from 58 answer) (map-append b58 t s)
    ∙ of_base_from-append 58 answer (map b58 t) (map b58 s)
    ∙ ap (λ (n : ℕ). value_from n s)
        (of_base_from_split 58 answer (map b58 t)
          ∙ ap₂ ◌+◌ (ap (λ n. answer * 58 ^ n) (length-map t b58)) refl)

big_radix_lem : (n : ℕ) → n ≢ 0 → big_radix n ≡ 58 ^ n
big_radix_lem n h = ground arith

chunk_value :
    (n : ℕ) (t : Bytes)
    → n ≤ 10
    → All IsBase58 t
    → add_chunk (runes (take n t)) 0 ≡ decoded (value_from 0 (take n t))
chunk_value n t le h =
    let valid : All IsBase58 (take n t) = All-take IsBase58 n t h in
    ap (λ l. add_chunk l 0) (runes_ascii (take n t) (All-ascii (take n t) valid))
    ∙ add_chunk_lem (take n t) 0 0 valid (omega arith) (omega (arith, length-take n t))

-- What is left of a text and what was read of it, together.
value_from_rest :
    (n answer : ℕ) (t : Bytes)
    → n ≢ 0
    → n ≤ length t
    → value_from (answer * big_radix n + value_from 0 (take n t)) (drop n t) ≡ value_from answer t
value_from_rest n answer t ne le =
    ap (λ (m : ℕ). value_from (answer * m + value_from 0 (take n t)) (drop n t))
      (big_radix_lem n ne ∙ ap (λ (k : ℕ). 58 ^ k) (omega (arith, length-take n t)))
    ∙ sym (value_from_chunk answer (take n t) (drop n t))
    ∙ ap (value_from answer) (take-append-drop n t)

decode_loop_lem :
    (f : ℕ) (t : Bytes) (answer : ℕ)
    → All IsBase58 t
    → length t ≤ f
    → decode_loop f t answer ≡ decoded (value_from answer t)
unfolding decode_loop
decode_loop_lem f [] answer h le = unfold of_base_from in refl
decode_loop_lem zero (c ∷ t) answer h le = absurd (omega arith)
decode_loop_lem (suc f) (c ∷ t) answer h le =
    let n : ℕ = min (length (c ∷ t)) 10 in
    rw (chunk_value n (c ∷ t) (omega arith) h) (
      decode_loop_lem f (drop n (c ∷ t)) (answer * big_radix n + value_from 0 (take n (c ∷ t)))
        (All-drop IsBase58 n (c ∷ t) h) (omega (arith, length-drop n (c ∷ t)))
      ∙ ap decoded (value_from_rest n answer (c ∷ t) (λ e. absurd (omega arith)) (omega arith)))

-- A text of characters of the alphabet decodes to one zero byte for each `r` in front, and then the
-- bytes of the number that its characters stand for as base 58 digits: the chunks of ten never
-- overflow the uint64 that they are read into.
pub decode_base58_lem :
    (s : Bytes)
    → All IsBase58 s
    → decode_base58 s
      ≡ decoded (replicate (count_zeros s) 0 ++ to_base 256 (of_base 58 (map b58 s)))
unfolding decode_base58
decode_base58_lem s h =
    rw (decode_loop_lem (length s) s 0 h (le_refl (length s)), decode_base58)
      (unfold of_base in refl)
