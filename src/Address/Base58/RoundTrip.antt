-- ===== src/Address/Base58/RoundTrip.antt =====
-- Base 58 both ways.
use xrpl_go.Base.{
  ℕ, zero, suc, ◌<◌, ◌≡◌, refl, sym, ap, ap₂, ◌∙◌, List, [], ◌∷◌, ◌++◌, map, Bytes, IsByte,
  replicate, arith, All, All-append,
}
use xrpl_go.Base.Digits.{
  of_base, to_base, leading_zeros, replicate-leading_zeros, to_base-of_base, of_base-to_base,
  to_base-All, of_base_zeros, leading_zeros-to_base,
}
use mathlib.Core.List.{map-append}
use xrpl_go.Address.Alphabet.{
  alphabet_char, alphabet_idx0, b58, b58-alphabet_char, alphabet_char_ascii, alphabet_char-ne-idx0,
  alphabet_char-b58, alphabet_char-zero,
}
use xrpl_go.Address.Base58.{decoded, count_zeros, encode_base58, decode_base58}
use xrpl_go.Address.Base58.Encode.{encode_base58_lem}
use xrpl_go.Address.Base58.Decode.{IsBase58, decode_base58_lem}

abbrev IsDigit : ℕ → Type 0
IsDigit d = d < 58

map-b58 : (ds : List ℕ) → All IsDigit ds → map b58 (map alphabet_char ds) ≡ ds
map-b58 [] h = refl
map-b58 (d ∷ ds) (hd, hs) = ap₂ ◌∷◌ (b58-alphabet_char d hd) (map-b58 ds hs)

map-IsBase58 : (ds : List ℕ) → All IsDigit ds → All IsBase58 (map alphabet_char ds)
map-IsBase58 [] h = tt
map-IsBase58 (d ∷ ds) (hd, hs) =
    ((alphabet_char_ascii d hd, rw (b58-alphabet_char d hd) hd), map-IsBase58 ds hs)

-- `r` is the digit 0, so zeros in front are the digits 0 in front.
replicate-char : (n : ℕ) → replicate n alphabet_idx0 ≡ map alphabet_char (replicate n 0)
replicate-char zero = refl
replicate-char (suc n) = ap₂ ◌∷◌ (unfold alphabet_char in refl) (replicate-char n)

count_zeros-map :
    (ds : List ℕ) → All IsDigit ds → count_zeros (map alphabet_char ds) ≡ leading_zeros ds
unfolding count_zeros leading_zeros
count_zeros-map [] h = refl
count_zeros-map (zero ∷ ds) (hd, hs) = rw alphabet_char-zero (ap suc (count_zeros-map ds hs))
count_zeros-map (suc d ∷ ds) (hd, hs) = ground (arith, alphabet_char-ne-idx0 (suc d) hd)

map-chars :
    (n : ℕ) (ds : List ℕ)
    → replicate n alphabet_idx0 ++ map alphabet_char ds ≡ map alphabet_char (replicate n 0 ++ ds)
map-chars n ds =
    ap (λ l. l ++ map alphabet_char ds) (replicate-char n)
    ∙ sym (map-append alphabet_char (replicate n 0) ds)

zeros-IsDigit : (n : ℕ) → All IsDigit (replicate n 0)
zeros-IsDigit zero = tt
zeros-IsDigit (suc n) = (omega arith, zeros-IsDigit n)

-- Decoding what EncodeBase58 writes gives the bytes back.
pub decode_base58-encode_base58 :
    (b : Bytes) → All IsByte b → decode_base58 (encode_base58 b) ≡ decoded b
decode_base58-encode_base58 b h =
    let x = of_base 256 b in
    let ds : List ℕ = replicate (leading_zeros b) 0 ++ to_base 58 x in
    let valid : All IsDigit ds =
      All-append IsDigit (replicate (leading_zeros b) 0) (to_base 58 x)
        (zeros-IsDigit (leading_zeros b)) (to_base-All 58 (omega arith) x) in
    ap decode_base58 (encode_base58_lem b ∙ map-chars (leading_zeros b) (to_base 58 x))
    ∙ decode_base58_lem (map alphabet_char ds) (map-IsBase58 ds valid)
    ∙ ap decoded (
        ap₂ (λ n y. replicate n 0 ++ to_base 256 y)
          (count_zeros-map ds valid ∙ leading_zeros-to_base 58 (leading_zeros b) x (omega arith))
          (ap (of_base 58) (map-b58 ds valid)
            ∙ of_base_zeros 58 (omega arith) (leading_zeros b) (to_base 58 x)
            ∙ of_base-to_base 58 (omega arith) x)
        ∙ ap (λ l. replicate (leading_zeros b) 0 ++ l) (to_base-of_base 256 (omega arith) b h)
        ∙ replicate-leading_zeros b)

map-char-b58 : (s : Bytes) → All IsBase58 s → map alphabet_char (map b58 s) ≡ s
map-char-b58 [] h = refl
map-char-b58 (c ∷ s) ((hc, hd), hs) = ap₂ ◌∷◌ (alphabet_char-b58 c hc hd) (map-char-b58 s hs)

digits-IsDigit : (s : Bytes) → All IsBase58 s → All IsDigit (map b58 s)
digits-IsDigit [] h = tt
digits-IsDigit (c ∷ s) ((hc, hd), hs) = (hd, digits-IsDigit s hs)

-- Every text of characters of the alphabet is the encoding of exactly what it decodes to.
pub encode_base58-decode_base58 :
    (s : Bytes)
    → All IsBase58 s
    → (b : Bytes) × (decode_base58 s ≡ decoded b) × (encode_base58 b ≡ s)
encode_base58-decode_base58 s h =
    let ds = map b58 s in
    let valid = digits-IsDigit s h in
    let n = of_base 58 ds in
    let zeros = count_zeros s in
    let b : Bytes = replicate zeros 0 ++ to_base 256 n in
    let counted : zeros ≡ leading_zeros ds =
      ap count_zeros (sym (map-char-b58 s h)) ∙ count_zeros-map ds valid in
    (
      b,
      decode_base58_lem s h,
      encode_base58_lem b
          ∙ ap₂ (λ z y. replicate z alphabet_idx0 ++ map alphabet_char (to_base 58 y))
              (leading_zeros-to_base 256 zeros n (omega arith) ∙ counted)
              (of_base_zeros 256 (omega arith) zeros (to_base 256 n)
                ∙ of_base-to_base 256 (omega arith) n)
          ∙ map-chars (leading_zeros ds) (to_base 58 n)
          ∙ ap (λ l. map alphabet_char (replicate (leading_zeros ds) 0 ++ l))
              (to_base-of_base 58 (omega arith) ds valid)
          ∙ ap (map alphabet_char) (replicate-leading_zeros ds)
          ∙ map-char-b58 s h,
    )
