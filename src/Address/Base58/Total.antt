-- ===== src/Address/Base58/Total.antt =====
-- When DecodeBase58 gives bytes, and when it panics.
use xrpl_go.Base.{
  ℕ, zero, suc, ◌+◌, ◌*◌, ◌%◌, ◌^◌, ◌<◌, ◌≤◌, ◌≡◌, ◌≢◌, ◌⊎◌, inl, inr, refl, List, [], ◌∷◌, ◌++◌,
  Bytes, replicate, arith, All, All-take, All-drop, length, take, drop, min, length-drop,
}
use xrpl_go.Base.Digits.{to_base}
use xrpl_go.Address.Alphabet.{b58}
use xrpl_go.Address.Utf8.{runes, runes_ascii}
use xrpl_go.Address.Base58.{
  Decoded, decoded, empty, panics, out_of_fuel, ◌>>=◌, add_chunk, decode_loop, count_zeros,
  decode_base58, big_radix,
}
use native.Mathlib.Nat.{le_refl}

add_chunk_ascii : (s : Bytes) (total : ℕ) → All (λ c. c < 128) s → add_chunk s total ≢ panics
unfolding add_chunk
add_chunk_ascii [] total h e = cc
add_chunk_ascii (c ∷ s) total (hc, hs) e =
    ground (arith, add_chunk_ascii s ((total * 58 + b58 c) % 2 ^ 64) hs)

add_chunk-ne-out_of_fuel : (s : List ℕ) (total : ℕ) → add_chunk s total ≢ out_of_fuel
unfolding add_chunk
add_chunk-ne-out_of_fuel [] total e = cc
add_chunk-ne-out_of_fuel (c ∷ s) total e =
    ground (arith, add_chunk-ne-out_of_fuel s ((total * 58 + b58 c) % 2 ^ 64))

>>=-panics :
    (m : Decoded ℕ) (f : ℕ → Decoded ℕ)
    → (m >>= f) ≡ panics
    → (m ≡ panics) ⊎ ((n : ℕ) × (f n ≡ panics))
>>=-panics (decoded n) f e = inr (n, e)
>>=-panics empty f e = cc
>>=-panics panics f e = inl refl
>>=-panics out_of_fuel f e = cc

>>=-out_of_fuel :
    (m : Decoded ℕ) (f : ℕ → Decoded ℕ)
    → (m >>= f) ≡ out_of_fuel
    → (m ≡ out_of_fuel) ⊎ ((n : ℕ) × (f n ≡ out_of_fuel))
>>=-out_of_fuel (decoded n) f e = inr (n, e)
>>=-out_of_fuel empty f e = cc
>>=-out_of_fuel panics f e = cc
>>=-out_of_fuel out_of_fuel f e = inl refl

chunk_ascii : (n : ℕ) (t : Bytes) → All (λ c. c < 128) t → add_chunk (runes (take n t)) 0 ≢ panics
chunk_ascii n t h =
    let valid : All (λ c. c < 128) (take n t) = All-take (λ c. c < 128) n t h in
    rw (runes_ascii (take n t) valid) (add_chunk_ascii (take n t) 0 valid)

decode_loop_ascii :
    (f : ℕ) (t : Bytes) (answer : ℕ) → All (λ c. c < 128) t → decode_loop f t answer ≢ panics
unfolding decode_loop
decode_loop_ascii f [] answer h e = cc
decode_loop_ascii zero (c ∷ t) answer h e = cc
decode_loop_ascii (suc f) (c ∷ t) answer h e =
    let n : ℕ = min (length (c ∷ t)) 10 in
    elim (>>=-panics (add_chunk (runes (take n (c ∷ t))) 0) _ e) [
      | inl at_once ↦ chunk_ascii n (c ∷ t) h at_once
      | inr (total, later) ↦
          decode_loop_ascii f (drop n (c ∷ t)) (answer * big_radix n + total)
            (All-drop (λ c. c < 128) n (c ∷ t) h) later
    ]

decode_loop-ne-out_of_fuel :
    (f : ℕ) (t : Bytes) (answer : ℕ) → length t ≤ f → decode_loop f t answer ≢ out_of_fuel
unfolding decode_loop
decode_loop-ne-out_of_fuel f [] answer h e = cc
decode_loop-ne-out_of_fuel zero (c ∷ t) answer h e = absurd (omega arith)
decode_loop-ne-out_of_fuel (suc f) (c ∷ t) answer h e =
    let n : ℕ = min (length (c ∷ t)) 10 in
    elim (>>=-out_of_fuel (add_chunk (runes (take n (c ∷ t))) 0) _ e) [
      | inl at_once ↦ add_chunk-ne-out_of_fuel (runes (take n (c ∷ t))) 0 at_once
      | inr (total, later) ↦
          decode_loop-ne-out_of_fuel f (drop n (c ∷ t)) (answer * big_radix n + total)
            (omega (arith, length-drop n (c ∷ t))) later
    ]

-- The loop of DecodeBase58 ends on every text.
pub decode_base58-ne-out_of_fuel : (s : Bytes) → decode_base58 s ≢ out_of_fuel
unfolding decode_base58
decode_base58-ne-out_of_fuel s e =
    ground (arith, decode_loop-ne-out_of_fuel (length s) s 0 (le_refl (length s)))

-- On every ASCII text DecodeBase58 gives bytes: it does not panic, and its loop ends.
pub decode_base58_ascii :
    (s : Bytes) → All (λ c. c < 128) s → (bytes : Bytes) × (decode_base58 s ≡ decoded bytes)
unfolding decode_base58
decode_base58_ascii s h = by_loop (decode_loop (length s) s 0) refl
  where
    by_loop :
        (r : Decoded ℕ)
        → decode_loop (length s) s 0 ≡ r
        → (bytes : Bytes) × (decode_base58 s ≡ decoded bytes)
    by_loop (decoded answer) e =
        (replicate (count_zeros s) 0 ++ to_base 256 answer, rw (e, decode_base58))
    by_loop empty e = ([], rw (e, decode_base58))
    by_loop panics e = absurd (decode_loop_ascii (length s) s 0 h e)
    by_loop out_of_fuel e =
        absurd (decode_loop-ne-out_of_fuel (length s) s 0 (le_refl (length s)) e)

-- The first character outside the alphabet, among runes, is one that the table has no entry for.
pub data BeyondTable : List ℕ → Type 0 where
  here : (v : ℕ) (vs : List ℕ) → 256 ≤ v → BeyondTable (v ∷ vs)
  later : (v : ℕ) (vs : List ℕ) → v < 256 → b58 v ≢ 255 → BeyondTable vs → BeyondTable (v ∷ vs)

add_chunk_beyond : {vs : List ℕ} (total : ℕ) → BeyondTable vs → add_chunk vs total ≡ panics
unfolding add_chunk
add_chunk_beyond total (here v vs h) = ground arith
add_chunk_beyond total (later v vs small known b) =
    ground (arith, add_chunk_beyond ((total * 58 + b58 v) % 2 ^ 64) b)

-- DecodeBase58 panics on every text whose first ten bytes have a rune of 256 or more before any
-- other character outside the alphabet: the table is indexed by a rune without a check.
pub decode_base58_panics :
    (c : ℕ) (s : Bytes)
    → BeyondTable (runes (take (min (length (c ∷ s)) 10) (c ∷ s)))
    → decode_base58 (c ∷ s) ≡ panics
unfolding decode_base58 decode_loop
decode_base58_panics c s h = rw (add_chunk_beyond 0 h, decode_base58, decode_loop)
