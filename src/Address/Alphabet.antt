-- ===== src/Address/Alphabet.antt =====
-- address-codec/alphabet.go: the base58 alphabet of the XRP Ledger and its inverse table.
use xrpl_go.Base.{
  ℕ, ◌<◌, ◌≡◌, ◌≢◌, refl, List, [], ◌∷◌, Bytes, codes, Bool, true, ◌&&◌, ◌||◌, not, ◌==◌, get_or,
  every_below, every_below-at, ltb, arith,
}

abbrev pub xrp_alphabet : Bytes
xrp_alphabet = codes "rpshnaf39wBUDNEGHJKLM4PQRST7VWXYZ2bcdeCg65jkm8oFqi1tuvAxyz"

abbrev pub alphabet_idx0 : ℕ
alphabet_idx0 = b'r'

-- The array of 256 bytes; 255 marks a character that is not in the alphabet.
abbrev pub b58_table : List ℕ
b58_table =
    255 ∷ 255 ∷ 255 ∷ 255 ∷ 255 ∷ 255 ∷ 255 ∷ 255 ∷ 255 ∷ 255 ∷ 255 ∷ 255 ∷ 255 ∷ 255 ∷ 255 ∷ 255
    ∷ 255 ∷ 255 ∷ 255 ∷ 255 ∷ 255 ∷ 255 ∷ 255 ∷ 255 ∷ 255 ∷ 255 ∷ 255 ∷ 255 ∷ 255 ∷ 255 ∷ 255 ∷ 255
    ∷ 255 ∷ 255 ∷ 255 ∷ 255 ∷ 255 ∷ 255 ∷ 255 ∷ 255 ∷ 255 ∷ 255 ∷ 255 ∷ 255 ∷ 255 ∷ 255 ∷ 255 ∷ 255
    ∷ 255 ∷ 50 ∷ 33 ∷ 7 ∷ 21 ∷ 41 ∷ 40 ∷ 27 ∷ 45 ∷ 8 ∷ 255 ∷ 255 ∷ 255 ∷ 255 ∷ 255 ∷ 255 ∷ 255 ∷ 54
    ∷ 10 ∷ 38 ∷ 12 ∷ 14 ∷ 47 ∷ 15 ∷ 16 ∷ 255 ∷ 17 ∷ 18 ∷ 19 ∷ 20 ∷ 13 ∷ 255 ∷ 22 ∷ 23 ∷ 24 ∷ 25 ∷ 26
    ∷ 11 ∷ 28 ∷ 29 ∷ 30 ∷ 31 ∷ 32 ∷ 255 ∷ 255 ∷ 255 ∷ 255 ∷ 255 ∷ 255 ∷ 5 ∷ 34 ∷ 35 ∷ 36 ∷ 37 ∷ 6
    ∷ 39 ∷ 3 ∷ 49 ∷ 42 ∷ 43 ∷ 255 ∷ 44 ∷ 4 ∷ 46 ∷ 1 ∷ 48 ∷ 0 ∷ 2 ∷ 51 ∷ 52 ∷ 53 ∷ 9 ∷ 55 ∷ 56 ∷ 57
    ∷ 255 ∷ 255 ∷ 255 ∷ 255 ∷ 255 ∷ 255 ∷ 255 ∷ 255 ∷ 255 ∷ 255 ∷ 255 ∷ 255 ∷ 255 ∷ 255 ∷ 255 ∷ 255
    ∷ 255 ∷ 255 ∷ 255 ∷ 255 ∷ 255 ∷ 255 ∷ 255 ∷ 255 ∷ 255 ∷ 255 ∷ 255 ∷ 255 ∷ 255 ∷ 255 ∷ 255 ∷ 255
    ∷ 255 ∷ 255 ∷ 255 ∷ 255 ∷ 255 ∷ 255 ∷ 255 ∷ 255 ∷ 255 ∷ 255 ∷ 255 ∷ 255 ∷ 255 ∷ 255 ∷ 255 ∷ 255
    ∷ 255 ∷ 255 ∷ 255 ∷ 255 ∷ 255 ∷ 255 ∷ 255 ∷ 255 ∷ 255 ∷ 255 ∷ 255 ∷ 255 ∷ 255 ∷ 255 ∷ 255 ∷ 255
    ∷ 255 ∷ 255 ∷ 255 ∷ 255 ∷ 255 ∷ 255 ∷ 255 ∷ 255 ∷ 255 ∷ 255 ∷ 255 ∷ 255 ∷ 255 ∷ 255 ∷ 255 ∷ 255
    ∷ 255 ∷ 255 ∷ 255 ∷ 255 ∷ 255 ∷ 255 ∷ 255 ∷ 255 ∷ 255 ∷ 255 ∷ 255 ∷ 255 ∷ 255 ∷ 255 ∷ 255 ∷ 255
    ∷ 255 ∷ 255 ∷ 255 ∷ 255 ∷ 255 ∷ 255 ∷ 255 ∷ 255 ∷ 255 ∷ 255 ∷ 255 ∷ 255 ∷ 255 ∷ 255 ∷ 255 ∷ 255
    ∷ 255 ∷ 255 ∷ 255 ∷ 255 ∷ 255 ∷ 255 ∷ 255 ∷ 255 ∷ 255 ∷ 255 ∷ 255 ∷ 255 ∷ 255 ∷ 255 ∷ 255 ∷ 255
    ∷ 255 ∷ 255 ∷ 255 ∷ 255 ∷ 255 ∷ []

-- `xrpAlphabet[d]`, for d below 58.
unfoldable pub alphabet_char : ℕ → ℕ
alphabet_char d = get_or xrp_alphabet d 0

-- `b58[v]`, for v below 256.
unfoldable pub b58 : ℕ → ℕ
b58 v = get_or b58_table v 255

-- The facts of the tables, over all 58 digits.
char_facts : ℕ → Bool
char_facts d =
    b58 (alphabet_char d) == d
    && ltb (alphabet_char d) 128
    && (d == 0 || not (alphabet_char d == alphabet_idx0))

char_table : every_below char_facts 58 ≡ true
unfolding every_below char_facts b58 alphabet_char
char_table = refl

module _ (d : ℕ) (h : d < 58) where
  facts_hold : char_facts d ≡ true
  facts_hold = every_below-at char_facts 58 d h char_table

  -- The table finds each digit by its character.
  pub b58-alphabet_char : b58 (alphabet_char d) ≡ d
  unfolding char_facts
  b58-alphabet_char = ground (arith, facts_hold)

  pub alphabet_char_ascii : alphabet_char d < 128
  unfolding char_facts
  alphabet_char_ascii = ground (arith, facts_hold)

  pub alphabet_char-ne-idx0 : d ≢ 0 → alphabet_char d ≢ alphabet_idx0
  unfolding char_facts
  alphabet_char-ne-idx0 ne = ground (arith, facts_hold)

-- The other way: every ASCII character that the table finds is the character of its digit.
inverse_facts : ℕ → Bool
inverse_facts c = not (ltb (b58 c) 58) || (alphabet_char (b58 c) == c)

inverse_table : every_below inverse_facts 128 ≡ true
unfolding every_below inverse_facts b58 alphabet_char
inverse_table = refl

pub alphabet_char-b58 : (c : ℕ) → c < 128 → b58 c < 58 → alphabet_char (b58 c) ≡ c
unfolding inverse_facts
alphabet_char-b58 c h k = ground (arith, every_below-at inverse_facts 128 c h inverse_table)

pub alphabet_char-zero : alphabet_char 0 ≡ alphabet_idx0
unfolding alphabet_char
alphabet_char-zero = refl
