-- ===== src/Serdes/Length.antt =====
-- The length prefix: what `ReadVariableLength` reads against what `encodeVariableLength` writes.
use xrpl_go.Base.{
  ℕ, ◌+◌, ◌-◌, ◌*◌, ◌≢◌, ◌<◌, ◌≤◌, ◌≡◌, ◌↔◌, sym, inl, inr, [], ◌∷◌, ◌++◌, Bytes, IsByte, All,
  arith,
}
use xrpl_go.Base.Results.{ok, err, Result-cases}
use native.Mathlib.Decide.{dec_le}
use xrpl_go.Serdes.Errors.{length_prefix_too_long}
use xrpl_go.Serdes.Parser.{read_variable_length}
use xrpl_go.Serdes.Serializer.{encode_variable_length}

-- Every length that the serializer can write is read back, and what follows the prefix is left.
pub read_variable_length-encode_variable_length :
    (len : ℕ) (vl rest : Bytes)
    → encode_variable_length len ≡ ok vl
    → read_variable_length (vl ++ rest) ≡ (ok len, rest)
unfolding read_variable_length encode_variable_length
read_variable_length-encode_variable_length len vl rest e = ground arith

-- What the serializer writes for a length, by the first byte.
encode_one : (b1 : ℕ) → b1 ≤ 192 → encode_variable_length b1 ≡ ok (b1 ∷ [])
unfolding encode_variable_length
encode_one b1 h = ground arith

encode_two :
    (b1 b2 : ℕ)
    → 193 ≤ b1
    → b1 ≤ 240
    → b2 < 256
    → encode_variable_length (193 + (b1 - 193) * 256 + b2) ≡ ok (b1 ∷ b2 ∷ [])
unfolding encode_variable_length
encode_two b1 b2 lo hi h = ground arith

abbrev three_byte_length : ℕ → ℕ → ℕ → ℕ
three_byte_length b1 b2 b3 = 12481 + (b1 - 241) * 65536 + b2 * 256 + b3

encode_three :
    (b1 b2 b3 : ℕ)
    → 241 ≤ b1
    → b1 ≤ 254
    → b2 < 256
    → b3 < 256
    → three_byte_length b1 b2 b3 ≤ 918744
    → encode_variable_length (three_byte_length b1 b2 b3) ≡ ok (b1 ∷ b2 ∷ b3 ∷ [])
unfolding encode_variable_length
encode_three b1 b2 b3 lo hi h2 h3 fits = ground arith

pub encode_too_long :
    (len : ℕ) → 918744 < len → encode_variable_length len ≡ err length_prefix_too_long
unfolding encode_variable_length
encode_too_long len h = ground arith

-- What was read from bytes: a length whose prefix the serializer writes, and that prefix; 255 from
-- the byte 255; or a length that has no prefix.
pub data ReadLength (len : ℕ) (bs rest : Bytes) : Type 0 where
  prefixed :
      (vl : Bytes) → encode_variable_length len ≡ ok vl → bs ≡ vl ++ rest → ReadLength len bs rest
  reserved :
      len ≡ 255
      → bs ≡ 255 ∷ rest
      → ((n : ℕ) (vl : Bytes) → encode_variable_length n ≢ ok (255 ∷ vl))
      → ReadLength len bs rest
  too_long :
      918744 < len
      → len ≤ 929984
      → encode_variable_length len ≡ err length_prefix_too_long
      → ReadLength len bs rest

prefix-ne-255 : (n : ℕ) (vl : Bytes) → encode_variable_length n ≢ ok (255 ∷ vl)
unfolding encode_variable_length
prefix-ne-255 n vl = ground arith

read_one :
    (b1 len : ℕ) (bs rest : Bytes)
    → b1 ≤ 192
    → read_variable_length (b1 ∷ bs) ≡ (ok len, rest)
    → (b1 ≡ len) × (bs ≡ rest)
unfolding read_variable_length
read_one b1 len bs rest h e = ground arith

read_two :
    (b1 b2 len : ℕ) (bs rest : Bytes)
    → 193 ≤ b1
    → b1 ≤ 240
    → read_variable_length (b1 ∷ b2 ∷ bs) ≡ (ok len, rest)
    → (193 + (b1 - 193) * 256 + b2 ≡ len) × (bs ≡ rest)
unfolding read_variable_length
read_two b1 b2 len bs rest lo hi e = ground arith

read_three :
    (b1 b2 b3 len : ℕ) (bs rest : Bytes)
    → 241 ≤ b1
    → b1 ≤ 254
    → read_variable_length (b1 ∷ b2 ∷ b3 ∷ bs) ≡ (ok len, rest)
    → (three_byte_length b1 b2 b3 ≡ len) × (bs ≡ rest)
unfolding read_variable_length
read_three b1 b2 b3 len bs rest lo hi e = ground arith

read_255 :
    (len : ℕ) (bs rest : Bytes)
    → read_variable_length (255 ∷ bs) ≡ (ok len, rest)
    → (255 ≡ len) × (bs ≡ rest)
unfolding read_variable_length
read_255 len bs rest e = ground arith

too_short_two :
    (b1 len : ℕ) (rest : Bytes)
    → 193 ≤ b1
    → b1 ≤ 254
    → read_variable_length (b1 ∷ []) ≢ (ok len, rest)
unfolding read_variable_length
too_short_two b1 len rest lo hi = ground arith

too_short_three :
    (b1 b2 len : ℕ) (rest : Bytes)
    → 241 ≤ b1
    → b1 ≤ 254
    → read_variable_length (b1 ∷ b2 ∷ []) ≢ (ok len, rest)
unfolding read_variable_length
too_short_three b1 b2 len rest lo hi = ground arith

sound_two :
    (b1 : ℕ) (bs rest : Bytes) (len : ℕ)
    → 193 ≤ b1
    → b1 ≤ 240
    → All IsByte bs
    → read_variable_length (b1 ∷ bs) ≡ (ok len, rest)
    → ReadLength len (b1 ∷ bs) rest
sound_two b1 [] rest len lo hi h e = absurd (too_short_two b1 len rest lo (omega arith) e)
sound_two b1 (b2 ∷ bs) rest len lo hi (h2, h) e =
    let (eq, left) = read_two b1 b2 len bs rest lo hi e in
    prefixed (b1 ∷ b2 ∷ []) (rw (← eq) (encode_two b1 b2 lo hi h2)) (rw left)

sound_three :
    (b1 : ℕ) (bs rest : Bytes) (len : ℕ)
    → 241 ≤ b1
    → b1 ≤ 254
    → All IsByte bs
    → read_variable_length (b1 ∷ bs) ≡ (ok len, rest)
    → ReadLength len (b1 ∷ bs) rest
sound_three b1 [] rest len lo hi h e = absurd (too_short_two b1 len rest (omega arith) hi e)
sound_three b1 (b2 ∷ []) rest len lo hi h e = absurd (too_short_three b1 b2 len rest lo hi e)
sound_three b1 (b2 ∷ b3 ∷ bs) rest len lo hi (h2, (h3, h)) e =
    let (eq, left) = read_three b1 b2 b3 len bs rest lo hi e in
    elim (dec_le len 918744) [
      | yes fits ↦
          prefixed (b1 ∷ b2 ∷ b3 ∷ []) (rw (← eq) (encode_three b1 b2 b3 lo hi h2 h3 (rw eq fits)))
            (rw left)
      | no over ↦ too_long (omega arith) (omega arith) (encode_too_long len (omega arith))
    ]

-- Whatever length the parser reads from bytes is one of three: the length whose prefix the
-- serializer writes, and the bytes start with that very prefix; the length 255, read from the single
-- byte 255, which starts no prefix of the serializer; or a length from 918745 to 929984, for which
-- the serializer has no prefix.
pub read_variable_length_sound :
    (bs rest : Bytes) (len : ℕ)
    → All IsByte bs
    → read_variable_length bs ≡ (ok len, rest)
    → ReadLength len bs rest
read_variable_length_sound [] rest len h e = absurd (unfold read_variable_length in cc)
read_variable_length_sound (b1 ∷ bs) rest len (h1, h) e = elim (dec_le b1 192) [
  | yes one ↦
      let (eq, left) = read_one b1 len bs rest one e in
      prefixed (b1 ∷ []) (rw (← eq) (encode_one b1 one)) (rw left)
  | no more ↦ elim (dec_le b1 240) [
    | yes two ↦ sound_two b1 bs rest len (omega arith) two h e
    | no more' ↦ elim (dec_le b1 254) [
      | yes three ↦ sound_three b1 bs rest len (omega arith) three h e
      | no top ↦ last (omega arith)
    ]
  ]
]
  where
    last : b1 ≡ 255 → ReadLength len (b1 ∷ bs) rest
    last is_255 =
        let e' : read_variable_length (255 ∷ bs) ≡ (ok len, rest) = rw is_255 at e in
        let (eq, left) = read_255 len bs rest e' in
        reserved (sym eq) (rw (is_255, left)) prefix-ne-255

-- Every length up to 918744 has a prefix, and no greater length has one.
pub encode_variable_length_iff :
    (len : ℕ) → ((vl : Bytes) × (encode_variable_length len ≡ ok vl)) ↔ (len ≤ 918744)
encode_variable_length_iff len = (bounded, written)
  where
    bounded : ((vl : Bytes) × (encode_variable_length len ≡ ok vl)) → len ≤ 918744
    bounded (vl, e) = elim (dec_le len 918744) [
      | yes h ↦ h
      | no h ↦ cc (e, encode_too_long len (omega arith))
    ]

    written : len ≤ 918744 → (vl : Bytes) × (encode_variable_length len ≡ ok vl)
    written h = elim (Result-cases (encode_variable_length len)) [
      | inl found ↦ found
      | inr (x, e) ↦ absurd (unfold encode_variable_length in ground arith)
    ]
