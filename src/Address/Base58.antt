-- ===== src/Address/Base58.antt =====
-- address-codec/base58.go. A Go string is its bytes. `big.Int` is a number, its `SetBytes` and
-- `Bytes` are positional notation in base 256.
use xrpl_go.Base.{
  ℕ, zero, suc, ◌+◌, ◌-◌, ◌*◌, ◌/◌, ◌%◌, ◌^◌, ◌<◌, ◌≡◌, refl, List, [], ◌∷◌, ◌++◌, reverse, Bytes,
  Bool, true, false, ltb, leb, ◌==◌, if◌then◌else◌, length, take, drop, replicate, min, arith,
}
use xrpl_go.Base.Digits.{of_base, to_base}
use xrpl_go.Address.Alphabet.{alphabet_char, b58, alphabet_idx0}
use xrpl_go.Address.Utf8.{runes}
pub mod Encode
pub mod Decode
pub mod Total
pub mod RoundTrip

-- `bigRadix[n]`, and `bigRadix10`.
abbrev pub big_radix : ℕ → ℕ
big_radix n = if n == 0 then 0 else 58 ^ n

abbrev pub big_radix10 : ℕ
big_radix10 = 58 ^ 10

-- `for m > 0 { answer = append(answer, xrpAlphabet[m%58]); m /= 58 }`. The fuel m is enough.
unfoldable pub append_digits : ℕ → ℕ → Bytes → Bytes
append_digits zero m answer = answer
append_digits (suc f) m answer = elim (m == 0) [
  | true ↦ answer
  | false ↦ append_digits f (m / 58) (answer ++ (alphabet_char (m % 58) ∷ []))
]

-- `for range n { .. }`, with the same body.
unfoldable pub append_n_digits : ℕ → ℕ → Bytes → Bytes
append_n_digits zero m answer = answer
append_n_digits (suc n) m answer =
    append_n_digits n (m / 58) (answer ++ (alphabet_char (m % 58) ∷ []))

-- `for x.Sign() > 0 { .. }`: ten digits for each division of x, and no zeros for the last one. The
-- fuel x is enough.
unfoldable pub encode_loop : ℕ → ℕ → Bytes → Bytes
encode_loop zero x answer = answer
encode_loop (suc f) x answer =
    let m = x % big_radix10 in
    elim (x == 0) [
      | true ↦ answer
      | false ↦ encode_loop f (x / big_radix10) (elim (x / big_radix10 == 0) [
        | true ↦ append_digits m m answer
        | false ↦ append_n_digits 10 m answer
      ])
    ]

-- `for _, i := range b { if i != 0 { break }; answer = append(answer, alphabetIdx0) }`
unfoldable pub append_leading_zeros : Bytes → Bytes → Bytes
append_leading_zeros [] answer = answer
append_leading_zeros (i ∷ b) answer = elim (i == 0) [
  | true ↦ append_leading_zeros b (answer ++ (alphabet_idx0 ∷ []))
  | false ↦ answer
]

-- `EncodeBase58`
unfoldable pub encode_base58 : Bytes → Bytes
encode_base58 b = let x = of_base 256 b in reverse (append_leading_zeros b (encode_loop x x []))

-- What a call of `DecodeBase58` comes to. An index beyond the table panics; `out_of_fuel` is no Go
-- value.
pub data Decoded {ℓ} (A : Type ℓ) : Type ℓ where
  decoded : A → Decoded A
  empty : Decoded A
  panics : Decoded A
  out_of_fuel : Decoded A

infixl 5 ◌>>=◌
abbrev pub ◌>>=◌ {ℓ κ} : {A : Type ℓ} {B : Type κ} → Decoded A → (A → Decoded B) → Decoded B
decoded a >>= f = f a
empty >>= f = empty
panics >>= f = panics
out_of_fuel >>= f = out_of_fuel

-- `for _, v := range t[:n]`: the table has 256 entries, and v is a rune.
unfoldable pub add_chunk : List ℕ → ℕ → Decoded ℕ
add_chunk [] total = decoded total
add_chunk (v ∷ vs) total =
    let rest = add_chunk vs ((total * 58 + b58 v) % 2 ^ 64) in
    if leb 256 v then panics else if b58 v == 255 then empty else rest

-- `for t := b; len(t) > 0; { .. }`. The fuel len(b) is enough.
unfoldable pub decode_loop : ℕ → Bytes → ℕ → Decoded ℕ
decode_loop f [] answer = decoded answer
decode_loop zero (c ∷ t) answer = out_of_fuel
decode_loop (suc f) (c ∷ t) answer =
    let n = min (length (c ∷ t)) 10 in
    do
      total ← add_chunk (runes (take n (c ∷ t))) 0
      decode_loop f (drop n (c ∷ t)) (answer * big_radix n + total)

-- `for numZeros = 0; numZeros < len(b); numZeros++`
unfoldable pub count_zeros : Bytes → ℕ
count_zeros [] = 0
count_zeros (c ∷ b) = if c == alphabet_idx0 then suc (count_zeros b) else 0

-- `DecodeBase58`: a character outside the alphabet gives the empty slice.
unfoldable pub decode_base58 : Bytes → Decoded Bytes
decode_base58 b = elim (decode_loop (length b) b 0) [
  | decoded answer ↦ decoded (replicate (count_zeros b) 0 ++ to_base 256 answer)
  | empty ↦ decoded []
  | panics ↦ panics
  | out_of_fuel ↦ out_of_fuel
]
