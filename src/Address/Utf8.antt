-- ===== src/Address/Utf8.antt =====
-- How Go ranges over a string: the bytes decoded as UTF-8, with U+FFFD for each byte that starts no
-- valid sequence. DecodeBase58 of address-codec/base58.go reads its input so.
use xrpl_go.Base.{
  ℕ, zero, suc, ◌+◌, ◌-◌, ◌*◌, ◌%◌, ◌<◌, ◌≡◌, refl, List, [], ◌∷◌, Bytes, Bool, ◌&&◌, ltb, leb,
  ◌==◌, if◌then◌else◌, arith, All,
}

abbrev in_range : ℕ → ℕ → ℕ → Bool
in_range lo hi c = leb lo c && leb c hi

-- A rune and the number of bytes that it takes.
abbrev rune_error : ℕ × ℕ
rune_error = (0xFFFD, 1)

decode_two : ℕ → Bytes → ℕ × ℕ
decode_two b0 [] = rune_error
decode_two b0 (b1 ∷ s) = if in_range 0x80 0xBF b1 then (b0 % 32 * 64 + b1 % 64, 2) else rune_error

decode_three : ℕ → Bytes → ℕ × ℕ
decode_three b0 [] = rune_error
decode_three b0 (b1 ∷ []) = rune_error
decode_three b0 (b1 ∷ b2 ∷ s) =
    let lo = (if b0 == 0xE0 then 0xA0 else 0x80) in
    let hi = (if b0 == 0xED then 0x9F else 0xBF) in
    if in_range lo hi b1 && in_range 0x80 0xBF b2
    then (b0 % 16 * 4096 + b1 % 64 * 64 + b2 % 64, 3)
    else rune_error

decode_four : ℕ → Bytes → ℕ × ℕ
decode_four b0 [] = rune_error
decode_four b0 (b1 ∷ []) = rune_error
decode_four b0 (b1 ∷ b2 ∷ []) = rune_error
decode_four b0 (b1 ∷ b2 ∷ b3 ∷ s) =
    let lo = (if b0 == 0xF0 then 0x90 else 0x80) in
    let hi = (if b0 == 0xF4 then 0x8F else 0xBF) in
    if in_range lo hi b1 && in_range 0x80 0xBF b2 && in_range 0x80 0xBF b3
    then (b0 % 8 * 262144 + b1 % 64 * 4096 + b2 % 64 * 64 + b3 % 64, 4)
    else rune_error

-- The rune at the start of b0 ∷ s.
decode_rune : ℕ → Bytes → ℕ × ℕ
unfolding decode_two decode_three decode_four
decode_rune b0 s =
    if ltb b0 0x80
    then (b0, 1)
    else if in_range 0xC2 0xDF b0
    then decode_two b0 s
    else if in_range 0xE0 0xEF b0
    then decode_three b0 s
    else if in_range 0xF0 0xF4 b0
    then decode_four b0 s
    else rune_error

-- The runes, with the number of bytes still to be passed over.
runes_after : ℕ → Bytes → List ℕ
unfolding decode_rune
runes_after n [] = []
runes_after (suc n) (b ∷ s) = runes_after n s
runes_after zero (b ∷ s) = let (rune, size) = decode_rune b s in rune ∷ runes_after (size - 1) s

unfoldable pub runes : Bytes → List ℕ
unfolding runes_after
runes s = runes_after 0 s

-- On ASCII text the runes are the bytes.
pub runes_ascii : (s : Bytes) → All (λ c. c < 128) s → runes s ≡ s
unfolding runes
runes_ascii [] h = refl
runes_ascii (c ∷ s) (hc, hs) = ground (arith, runes_ascii s hs)

-- U+00E9 and U+4E2D.
runes_example : runes (0xC3 ∷ 0xA9 ∷ 0xE4 ∷ 0xB8 ∷ 0xAD ∷ 0x61 ∷ []) ≡ 0xE9 ∷ 0x4E2D ∷ 0x61 ∷ []
unfolding runes
runes_example = refl
