-- ===== src/Types/Amount/Token.antt =====
-- Amounts of multi-purpose tokens of amount.go, read back.
use Prim.Native.Nat.{bit_or}
use xrpl_go.Base.{
  ℕ, ◌*◌, ◌/◌, ◌%◌, ◌^◌, ◌<◌, ◌≡◌, refl, sym, subst, ap, ◌∙◌, [], ◌∷◌, ◌++◌, Bytes, IsByte, All,
  All-append, true, not, ltb, ◌==◌, length, length-append, take, drop, take_all, some, arith,
}
use xrpl_go.Base.Assoc.{string_eq, lookup}
use xrpl_go.Base.Bits.{bit_or_shifted}
use xrpl_go.Base.Int.{ℤ, pos, negsuc, abs}
use xrpl_go.Base.Words.{put_be, get_be, get_be_from, length-put_be, put_be-IsByte}
use xrpl_go.Base.Results.{
  Result, ok, err, ◌>>=◌, bind-ok, guard, guard-ok, from_option, from_option-ok,
}
use xrpl_go.Hexutil.{HexError, decode_string, decode_string-IsByte, lower_digit, from_hex_char}
use xrpl_go.Number.Text.{decimal}
use xrpl_go.Serdes.Parser.{peek}
use xrpl_go.Types.Errors.{
  CodecError, amount_missing_value, invalid_amount, invalid_amount_value,
  invalid_issuance_id_length, invalid_mpt_issuance_id, from_hex,
}
use xrpl_go.Types.Value.{
  Value, string, integer, float64, null, other, named_string, strings, array, objects, object,
  string_map, Members, member, no_members, entries,
}
use xrpl_go.Types.Reader.{read_as-append}
use xrpl_go.Types.Issue.{encode_to_string}
use xrpl_go.Types.Amount.{
  TokenCodec, is_negative, set_string, verify_mpt_value, serialize_mpt_currency_issuance_id,
  serialize_mpt_currency_amount, value_to_string, token_amount, amount_from_json, amount_by_first,
  amount_to_json, deserialize_mpt_amount,
}
use xrpl_go.Types.Amount.Xrp.{set_string-drops_text}

-- The JSON of an amount of a token.
abbrev pub token_of : ℕ → Bytes → Members
token_of n id =
    member "value" (string (decimal n))
      (member "mpt_issuance_id" (string (encode_to_string id)) no_members)

abbrev pub token_bytes : ℕ → Bytes → Bytes
token_bytes n id = 0x60 ∷ (put_be 8 n ++ id)

from_lower_digit : (v : ℕ) → v < 16 → from_hex_char (lower_digit v) ≡ some v
from_lower_digit v h = ground arith

decode_string-encode_to_string :
    (bs : Bytes) → All IsByte bs → decode_string (encode_to_string bs) ≡ ok bs
unfolding decode_string encode_to_string
decode_string-encode_to_string [] h = refl
decode_string-encode_to_string (b ∷ bs) (hb, hs) =
    rw
      (
        from_lower_digit (b / 16) (omega arith),
        from_lower_digit (b % 16) (omega arith),
        decode_string-encode_to_string bs hs,
      )
      (ap (λ (t : ℕ). ok (t ∷ bs)) (omega arith))

not_negative : (k : ℤ) → not (is_negative k) ≡ true → k ≡ pos (abs k)
not_negative (pos m) h = refl
not_negative (negsuc n) h = cc

below_of_ltb : (n : ℕ) → ltb n (2 ^ 63) ≡ true → n < 2 ^ 63
below_of_ltb n h = ground (arith, h)

verify_mpt_value-ok :
    (s : Bytes) (n : ℕ) → verify_mpt_value s ≡ ok n → (set_string s ≡ some (pos n)) × (n < 2 ^ 63)
unfolding verify_mpt_value
verify_mpt_value-ok s n h =
    let (k, found, h1) = bind-ok (from_option (set_string s) (invalid_amount s)) _ n h in
    let (u, sign, h2) = bind-ok (guard (not (is_negative k)) (invalid_amount s)) _ n h1 in
    let (v, size, h3) = bind-ok (guard (ltb (abs k) (2 ^ 63)) (invalid_amount s)) _ n h2 in
    let same : abs k ≡ n = cc in
    (
      from_option-ok (set_string s) (invalid_amount s) k found
          ∙ ap some (not_negative k (guard-ok _ _ u sign))
          ∙ ap (λ (x : ℕ). some (pos x)) same,
      subst (λ (x : ℕ). x < 2 ^ 63) same (below_of_ltb (abs k) (guard-ok _ _ v size)),
    )

-- The number and the issuance ID that an amount of a token was written from.
abbrev pub IsTokenOf : Bytes → Bytes → Bytes → ℕ → Bytes → Type 0
IsTokenOf s h b n id =
    (set_string s ≡ some (pos n))
    × (n < 2 ^ 63)
    × (decode_string h ≡ ok id)
    × (length id ≡ 24)
    × (token_bytes n id ≡ b)

from_hex-ok : (s id : Bytes) → from_hex (decode_string s) ≡ ok id → decode_string s ≡ ok id
from_hex-ok s id h = by_result (decode_string s) h
  where
    by_result : (r : Result HexError Bytes) → from_hex r ≡ ok id → r ≡ ok id
    by_result (ok x) e = cc
    by_result (err x) e = cc

length_test : (n : ℕ) → (n == 24) ≡ true → n ≡ 24
length_test n h = ground (arith, h)

issuance_id-ok :
    (h id : Bytes)
    → serialize_mpt_currency_issuance_id h ≡ ok id
    → (decode_string h ≡ ok id) × (length id ≡ 24)
unfolding serialize_mpt_currency_issuance_id
issuance_id-ok h id e =
    let (x, found, e1) = bind-ok (from_hex (decode_string h)) _ id e in
    let (u, size, e2) = bind-ok (guard (length x == 24) invalid_issuance_id_length) _ id e1 in
    let same : x ≡ id = cc in
    subst (λ y. (decode_string h ≡ ok y) × (length y ≡ 24)) same
      (from_hex-ok h x found, length_test (length x) (guard-ok _ _ u size))

serialize_mpt-IsTokenOf :
    (s h b : Bytes)
    → serialize_mpt_currency_amount s h ≡ ok b
    → (n : ℕ) × (id : Bytes) × IsTokenOf s h b n id
unfolding serialize_mpt_currency_amount
serialize_mpt-IsTokenOf s h b e =
    let (n, verified, e1) = bind-ok (verify_mpt_value s) _ b e in
    let (id, decoded, e2) = bind-ok (serialize_mpt_currency_issuance_id h) _ b e1 in
    let (found, small) = verify_mpt_value-ok s n verified in
    let (by_hex, size) = issuance_id-ok h id decoded in (n, id, (found, small, by_hex, size, cc))

ltb_of : (n : ℕ) → n < 2 ^ 63 → ltb n (2 ^ 63) ≡ true
ltb_of n h = ground (arith, h)

serialize_mpt-token_of :
    (n : ℕ) (id : Bytes)
    → n < 2 ^ 63
    → All IsByte id
    → length id ≡ 24
    → serialize_mpt_currency_amount (decimal n) (encode_to_string id) ≡ ok (token_bytes n id)
unfolding serialize_mpt_currency_amount verify_mpt_value serialize_mpt_currency_issuance_id
serialize_mpt-token_of n id small bytes size =
    rw
      (set_string-drops_text (pos n), ltb_of n small, decode_string-encode_to_string id bytes, size)
      refl

value_to_string-ok :
    (e : CodecError) (v : Value) (s : Bytes) → value_to_string e v ≡ ok s → v ≡ string s
value_to_string-ok e (string t) s h = cc
value_to_string-ok e null s h = cc
value_to_string-ok e other s h = cc
value_to_string-ok e (named_string t) s h = cc
value_to_string-ok e (integer t v) s h = cc
value_to_string-ok e (float64 v) s h = cc
value_to_string-ok e (strings t) s h = cc
value_to_string-ok e (array t) s h = cc
value_to_string-ok e (objects t) s h = cc
value_to_string-ok e (string_map t) s h = cc
value_to_string-ok e (object t) s h = cc

deserialize_mpt_amount_lem :
    (p0 p1 p2 p3 p4 p5 p6 p7 : ℕ) (id : Bytes)
    → length id ≡ 24
    → deserialize_mpt_amount (0x60 ∷ p0 ∷ p1 ∷ p2 ∷ p3 ∷ p4 ∷ p5 ∷ p6 ∷ p7 ∷ id)
      ≡ ok (
          object (
            token_of
              (bit_or (get_be (p0 ∷ p1 ∷ p2 ∷ p3 ∷ []) * 2 ^ 32) (get_be (p4 ∷ p5 ∷ p6 ∷ p7 ∷ [])))
              id))
unfolding deserialize_mpt_amount
deserialize_mpt_amount_lem p0 p1 p2 p3 p4 p5 p6 p7 id size = rw (take_all id 24 size, size) refl

-- The number from the two halves of its eight bytes.
mpt_number :
    (n : ℕ)
    → n < 2 ^ 63
    → bit_or (get_be (take 4 (put_be 8 n)) * 2 ^ 32) (get_be (drop 4 (put_be 8 n))) ≡ n
unfolding put_be get_be get_be_from
mpt_number n h =
    bit_or_shifted 32 (get_be (take 4 (put_be 8 n))) (get_be (drop 4 (put_be 8 n))) (omega arith)
    ∙ omega (arith, h)

deserialize-token_bytes :
    (n : ℕ) (id : Bytes)
    → n < 2 ^ 63
    → length id ≡ 24
    → deserialize_mpt_amount (token_bytes n id) ≡ ok (object (token_of n id))
unfolding put_be
deserialize-token_bytes n id small size =
    deserialize_mpt_amount_lem _ _ _ _ _ _ _ _ id size
    ∙ ap (λ (x : ℕ). ok (object (token_of x id))) (mpt_number n small)

token_size : (n : ℕ) (id : Bytes) → length id ≡ 24 → length (token_bytes n id) ≡ 33
token_size n id size = omega (arith, size, length-append (put_be 8 n) id, length-put_be 8 n)

module _ (tokens : TokenCodec) where
  amount_to_json-token_bytes :
      (n : ℕ) (id rest : Bytes)
      → n < 2 ^ 63
      → length id ≡ 24
      → amount_to_json tokens (token_bytes n id ++ rest) ≡ (ok (object (token_of n id)), rest)
  unfolding amount_to_json peek amount_by_first
  amount_to_json-token_bytes n id rest small size =
      read_as-append 33 deserialize_mpt_amount (token_bytes n id) rest (token_size n id size)
      ∙ ap (λ r. (r, rest)) (deserialize-token_bytes n id small size)

  token_amount_id :
      (m : Members) (raw_id : Value) (s : Bytes)
      → lookup "mpt_issuance_id" (entries m) ≡ some raw_id
      → token_amount tokens (entries m) s
        ≡ (value_to_string invalid_mpt_issuance_id raw_id >>= serialize_mpt_currency_amount s)
  unfolding token_amount
  token_amount_id m raw_id s h = rw (h, token_amount) refl

  -- What FromJSON does with an object of a value and an issuance ID.
  token_encoded :
      (m : Members) (raw_id : Value) (b : Bytes)
      → lookup "mpt_issuance_id" (entries m) ≡ some raw_id
      → amount_from_json tokens (object m) ≡ ok b
      → (s h : Bytes) × (lookup "value" (entries m) ≡ some (string s))
        × (raw_id ≡ string h)
        × (serialize_mpt_currency_amount s h ≡ ok b)
  unfolding amount_from_json token_amount
  token_encoded m raw_id b has_id e =
      let (raw_val, found, e1) =
        bind-ok (from_option (lookup "value" (entries m)) amount_missing_value) _ b e in
      let (s, is_text, e2) = bind-ok (value_to_string invalid_amount_value raw_val) _ b e1 in
      let e3 : (value_to_string invalid_mpt_issuance_id raw_id >>= serialize_mpt_currency_amount s)
          ≡ ok b =
        sym (token_amount_id m raw_id s has_id) ∙ e2 in
      let (h, is_hex, e4) = bind-ok (value_to_string invalid_mpt_issuance_id raw_id) _ b e3 in
      (
        s,
        h,
        from_option-ok _ amount_missing_value raw_val found
            ∙ ap some (value_to_string-ok invalid_amount_value raw_val s is_text),
        value_to_string-ok invalid_mpt_issuance_id raw_id h is_hex,
        e4,
      )

  amount_from_json-token_of :
      (n : ℕ) (id : Bytes)
      → n < 2 ^ 63
      → All IsByte id
      → length id ≡ 24
      → amount_from_json tokens (object (token_of n id)) ≡ ok (token_bytes n id)
  unfolding amount_from_json token_amount lookup
  amount_from_json-token_of n id small bytes size = serialize_mpt-token_of n id small bytes size

  -- Where FromJSON writes an object with an issuance ID, its value stands for a number below 2 ^ 63 and
  -- its issuance ID is the hexadecimal text of 24 bytes. What is written is read back, whatever follows
  -- it, as the decimal text of the number with the lower-case hexadecimal text of the ID, and this object
  -- is written as the same bytes.
  pub amount_to_json-token_of :
      (m : Members) (raw_id : Value) (b rest : Bytes)
      → lookup "mpt_issuance_id" (entries m) ≡ some raw_id
      → amount_from_json tokens (object m) ≡ ok b
      → (s h : Bytes) × (n : ℕ) × (id : Bytes) × (lookup "value" (entries m) ≡ some (string s))
        × (raw_id ≡ string h)
        × IsTokenOf s h b n id
        × (amount_to_json tokens (b ++ rest) ≡ (ok (object (token_of n id)), rest))
        × (amount_from_json tokens (object (token_of n id)) ≡ ok b)
        × All IsByte b
  amount_to_json-token_of m raw_id b rest has_id e =
      let (s, h, found, is_hex, made) = token_encoded m raw_id b has_id e in
      let (n, id, k) = serialize_mpt-IsTokenOf s h b made in
      let (value_of, small, by_hex, size, q) = k in
      (
        s,
        h,
        n,
        id,
        found,
        is_hex,
        k,
        ap (λ x. amount_to_json tokens (x ++ rest)) (sym q)
            ∙ amount_to_json-token_bytes n id rest small size,
        amount_from_json-token_of n id small (decode_string-IsByte h id by_hex) size ∙ ap ok q,
        subst (All IsByte) q (
          omega arith,
          All-append IsByte (put_be 8 n) id (put_be-IsByte 8 n) (decode_string-IsByte h id by_hex),
        ),
      )
