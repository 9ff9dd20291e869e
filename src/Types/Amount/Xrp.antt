-- ===== src/Types/Amount/Xrp.antt =====
-- Amounts of XRP of amount.go, read back: the text of the drops with its sign.
use xrpl_go.Base.{
  ℕ, suc, ◌+◌, ◌/◌, ◌%◌, ◌^◌, ◌≤◌, ◌<◌, ◌≡◌, ◌⊎◌, inl, inr, refl, sym, subst, ap, ◌∙◌, [], ◌∷◌,
  ◌++◌, Bytes, IsByte, All, String, Bool, true, false, not, ◌==◌, ◌||◌, ◌&&◌, length, drop, leb,
  some, Bool-cases, arith,
}
use text.Mathlib.Text.{◌==◌ as ◌=s=◌}
use Prim.Native.Nat.{bit_or}
use xrpl_go.Base.Bits.{zero-bit_or, bit_or_shifted}
use xrpl_go.Base.Int.{ℤ, pos, negsuc, abs, with_sign}
use xrpl_go.Base.Words.{put_be, get_be, length-put_be, get_be-put_be, put_be-IsByte}
use xrpl_go.Base.Results.{ok, bind-ok, guard, guard-ok, from_option, from_option-ok}
use xrpl_go.Number.Parse.{is_digit, optional_sign}
use xrpl_go.Number.Text.{decimal, sign_text}
use xrpl_go.Serdes.Parser.{peek}
use xrpl_go.Types.Errors.{invalid_xrp_value, invalid_amount, invalid_uint_syntax}
use xrpl_go.Types.Value.{string}
use xrpl_go.Types.Reader.{read_as, read_as-append}
use xrpl_go.Types.Integers.{every_byte}
use xrpl_go.Types.Integers.Texts.{digits_value-decimal, every_byte-decimal, decimal_some}
use xrpl_go.Types.Amount.{
  TokenCodec, is_negative, max_native_drops, set_string, has_prefix_byte, parse_xrp_value, sign_bit,
  serialize_xrp_amount, amount_from_json, amount_from_json_for_field, is_positive, xrp_text,
  amount_by_first, amount_to_json,
}

-- What `parseXRPValue` lets through.
abbrev pub IsNative : Bool → ℤ → Type 0
IsNative allow_negative drops =
    (allow_negative || not (is_negative drops) ≡ true) × (abs drops ≤ max_native_drops)

abbrev pub drops_text : ℤ → Bytes
drops_text drops = sign_text (is_negative drops) ++ decimal (abs drops)

abbrev word_of : ℤ → ℕ
word_of drops = sign_bit drops + abs drops

drops_of_leb : (m : ℕ) → leb m max_native_drops ≡ true → m ≤ max_native_drops
drops_of_leb m h = ground (arith, h)

parse_xrp_value-IsNative :
    (s : Bytes) (allow_negative : Bool) (drops : ℤ)
    → parse_xrp_value s allow_negative ≡ ok drops
    → (set_string s ≡ some drops) × IsNative allow_negative drops
unfolding parse_xrp_value
parse_xrp_value-IsNative s allow_negative drops h =
    let (d, found, h1) = bind-ok (from_option (set_string s) invalid_xrp_value) _ drops h in
    let (u, sign, h2) =
      bind-ok (guard (allow_negative || not (is_negative d)) (invalid_amount s)) _ drops h1 in
    let (v, size, h3) =
      bind-ok (guard (leb (abs d) max_native_drops) (invalid_amount s)) _ drops h2 in
    let (_, _, h4) =
      bind-ok
        (guard (not (has_prefix_byte b'+' s || (not allow_negative && has_prefix_byte b'-' s)))
          invalid_uint_syntax)
        _ drops h3 in
    let same : d ≡ drops = cc in
    subst (λ x. (set_string s ≡ some x) × IsNative allow_negative x) same
      (
        from_option-ok (set_string s) invalid_xrp_value d found,
        (guard-ok _ _ u sign, drops_of_leb (abs d) (guard-ok _ _ v size)),
      )

serialize_xrp_amount-IsNative :
    (s b : Bytes) (allow_negative : Bool)
    → serialize_xrp_amount s allow_negative ≡ ok b
    → (drops : ℤ) × (set_string s ≡ some drops)
      × IsNative allow_negative drops
      × (put_be 8 (bit_or (sign_bit drops) (abs drops)) ≡ b)
unfolding serialize_xrp_amount
serialize_xrp_amount-IsNative s b allow_negative h =
    let (drops, parsed, h1) = bind-ok (parse_xrp_value s allow_negative) _ b h in
    let (found, native) = parse_xrp_value-IsNative s allow_negative drops parsed in
    (drops, found, native, cc)

digits_no_sign :
    (s : Bytes)
    → (length s == 0) ≡ false
    → every_byte is_digit s ≡ true
    → (optional_sign s ≡ (false, s))
      × (has_prefix_byte b'+' s ≡ false)
      × (has_prefix_byte b'-' s ≡ false)
unfolding optional_sign every_byte is_digit
digits_no_sign [] e h = cc
digits_no_sign (c ∷ s) e h = ground arith

with_sign-negative : (n : ℕ) → with_sign true (suc n) ≡ negsuc n
with_sign-negative n = ground arith

pub set_string-drops_text : (drops : ℤ) → set_string (drops_text drops) ≡ some drops
unfolding set_string optional_sign
set_string-drops_text (pos m) =
    let (no_sign, _, _) = digits_no_sign (decimal m) (decimal_some m) (every_byte-decimal m) in
    rw (no_sign, decimal_some m, every_byte-decimal m, digits_value-decimal m) refl
set_string-drops_text (negsuc n) =
    rw (decimal_some (suc n), every_byte-decimal (suc n), digits_value-decimal (suc n))
      (ap some (with_sign-negative n))

leb_drops : (m : ℕ) → m ≤ max_native_drops → leb m max_native_drops ≡ true
leb_drops m h = ground (arith, h)

serialize_xrp_amount-drops_text :
    (drops : ℤ) (allow_negative : Bool)
    → IsNative allow_negative drops
    → serialize_xrp_amount (drops_text drops) allow_negative
      ≡ ok (put_be 8 (bit_or (sign_bit drops) (abs drops)))
unfolding serialize_xrp_amount parse_xrp_value
serialize_xrp_amount-drops_text (pos m) true (sign, size) =
    let (no_sign, plus, minus) =
      digits_no_sign (decimal m) (decimal_some m) (every_byte-decimal m) in
    rw (set_string-drops_text (pos m), parse_xrp_value) (rw (leb_drops m size, plus) refl)
serialize_xrp_amount-drops_text (pos m) false (sign, size) =
    let (no_sign, plus, minus) =
      digits_no_sign (decimal m) (decimal_some m) (every_byte-decimal m) in
    rw (set_string-drops_text (pos m), parse_xrp_value) (rw (leb_drops m size, plus, minus) refl)
serialize_xrp_amount-drops_text (negsuc n) true (sign, size) =
    rw (set_string-drops_text (negsuc n), parse_xrp_value) (rw (leb_drops (suc n) size) refl)
serialize_xrp_amount-drops_text (negsuc n) false (sign, size) = cc

-- The sign bit and the drops have no bit in common.
word_bits :
    (drops : ℤ) → abs drops ≤ max_native_drops → bit_or (sign_bit drops) (abs drops) ≡ word_of drops
word_bits (pos m) h = bit_or_shifted 62 1 m (omega (arith, h))
word_bits (negsuc n) h = omega (arith, zero-bit_or (suc n))

abbrev first_byte : ℕ → ℕ
first_byte v = v / 256 / 256 / 256 / 256 / 256 / 256 / 256 % 256

put_be-first_byte : (v : ℕ) → put_be 8 v ≡ first_byte v ∷ drop 1 (put_be 8 v)
unfolding put_be
put_be-first_byte v = refl

positive_first :
    (m : ℕ) → m ≤ max_native_drops → (first_byte (2 ^ 62 + m) ≡ 64) ⊎ (first_byte (2 ^ 62 + m) ≡ 65)
positive_first m h = omega (arith, h)

negative_first :
    (m : ℕ) → m ≤ max_native_drops → (first_byte (0 + m) ≡ 0) ⊎ (first_byte (0 + m) ≡ 1)
negative_first m h = omega (arith, h)

module _ (tokens : TokenCodec) where
  -- The bits of the first byte of an amount of XRP.
  amount_by_first_xrp :
      (c : ℕ) (data_left : Bytes)
      → (c ≡ 0) ⊎ ((c ≡ 1) ⊎ ((c ≡ 64) ⊎ (c ≡ 65)))
      → amount_by_first tokens c data_left
        ≡ read_as 8 (λ xrp. ok (string (xrp_text c xrp))) data_left
  unfolding amount_by_first
  amount_by_first_xrp c data_left (inl e) = rw e refl
  amount_by_first_xrp c data_left (inr (inl e)) = rw e refl
  amount_by_first_xrp c data_left (inr (inr (inl e))) = rw e refl
  amount_by_first_xrp c data_left (inr (inr (inr e))) = rw e refl

  amount_to_json_xrp :
      (c : ℕ) (b rest t : Bytes)
      → b ≡ c ∷ t
      → length b ≡ 8
      → (c ≡ 0) ⊎ ((c ≡ 1) ⊎ ((c ≡ 64) ⊎ (c ≡ 65)))
      → amount_to_json tokens (b ++ rest) ≡ (ok (string (xrp_text c b)), rest)
  unfolding amount_to_json peek
  amount_to_json_xrp c b rest t first size kind =
      ap (λ x. amount_to_json tokens (x ++ rest)) first
      ∙ ap (λ x. amount_by_first tokens c (x ++ rest)) (sym first)
      ∙ amount_by_first_xrp c (b ++ rest) kind
      ∙ read_as-append 8 (λ xrp. ok (string (xrp_text c xrp))) b rest size

-- The first byte of an amount of XRP, and its sign.
first_byte_kind :
    (drops : ℤ)
    → abs drops ≤ max_native_drops
    → ((first_byte (word_of drops) ≡ 0)
        ⊎ ((first_byte (word_of drops) ≡ 1)
            ⊎ ((first_byte (word_of drops) ≡ 64) ⊎ (first_byte (word_of drops) ≡ 65))))
      × (is_positive (first_byte (word_of drops)) ≡ not (is_negative drops))
first_byte_kind (pos m) h = elim (positive_first m h) [
  | inl e ↦ (inr (inr (inl e)), rw e refl)
  | inr e ↦ (inr (inr (inr e)), rw e refl)
]
first_byte_kind (negsuc n) h = elim (negative_first (suc n) h) [
  | inl e ↦ (inl e, rw e refl)
  | inr e ↦ (inr (inl e), rw e refl)
]

word_small : (drops : ℤ) → abs drops ≤ max_native_drops → word_of drops < 2 ^ 64
word_small (pos m) h = omega (arith, h)
word_small (negsuc n) h = omega (arith, h)

word_rest : (drops : ℤ) → abs drops ≤ max_native_drops → word_of drops % 2 ^ 62 ≡ abs drops
word_rest (pos m) h = omega (arith, h)
word_rest (negsuc n) h = omega (arith, h)

twice_not : (t : Bool) → not (not t) ≡ t
twice_not true = refl
twice_not false = refl

xrp_text-put_be :
    (drops : ℤ)
    → abs drops ≤ max_native_drops
    → xrp_text (first_byte (word_of drops)) (put_be 8 (word_of drops)) ≡ drops_text drops
xrp_text-put_be drops h =
    let (_, sign) = first_byte_kind drops h in
    ap (λ t. sign_text (not t) ++ decimal (get_be (put_be 8 (word_of drops)) % 2 ^ 62)) sign
    ∙ ap (λ t. sign_text t ++ decimal (get_be (put_be 8 (word_of drops)) % 2 ^ 62))
        (twice_not (is_negative drops))
    ∙ ap (λ (v : ℕ). sign_text (is_negative drops) ++ decimal (v % 2 ^ 62))
        (get_be-put_be 8 (word_of drops) (word_small drops h))
    ∙ ap (λ (v : ℕ). sign_text (is_negative drops) ++ decimal v) (word_rest drops h)

module _ (tokens : TokenCodec) where
  native_encoded :
      (name : String) (s : Bytes)
      → amount_from_json_for_field tokens name (string s)
        ≡ serialize_xrp_amount s (name =s= "FeeAmountDelta")
  unfolding amount_from_json_for_field amount_from_json
  native_encoded name s = elim (Bool-cases (name =s= "FeeAmountDelta")) [
    | inl delta ↦ rw delta refl
    | inr other_field ↦ rw other_field refl
  ]

  -- Where a field of amounts writes a text, the text stands for a whole number of drops, and its bytes
  -- are read back, whatever follows them, as the decimal text of the same number, with a sign where it
  -- is negative, and that text is written in this field as the same bytes: in FeeAmountDelta too, where
  -- a number may be negative.
  pub amount_to_json-native :
      (name : String) (s b rest : Bytes)
      → amount_from_json_for_field tokens name (string s) ≡ ok b
      → (drops : ℤ) × (set_string s ≡ some drops)
        × (set_string (drops_text drops) ≡ some drops)
        × (amount_to_json tokens (b ++ rest) ≡ (ok (string (drops_text drops)), rest))
        × (amount_from_json_for_field tokens name (string (drops_text drops)) ≡ ok b)
        × All IsByte b
  amount_to_json-native name s b rest h =
      let allow = name =s= "FeeAmountDelta" in
      let (drops, found, native, q) =
        serialize_xrp_amount-IsNative s b allow (sym (native_encoded name s) ∙ h) in
      let bytes : put_be 8 (word_of drops) ≡ b =
        sym (ap (put_be 8) (word_bits drops native.1)) ∙ q in
      let (kind, _) = first_byte_kind drops native.1 in
      let t = drop 1 (put_be 8 (word_of drops)) in
      (
        drops,
        found,
        set_string-drops_text drops,
        amount_to_json_xrp tokens (first_byte (word_of drops)) b rest t
              (sym bytes ∙ put_be-first_byte (word_of drops))
              (ap length (sym bytes) ∙ length-put_be 8 (word_of drops)) kind
            ∙ ap (λ x. (ok (string (xrp_text (first_byte (word_of drops)) x)), rest)) (sym bytes)
            ∙ ap (λ x. (ok (string x), rest)) (xrp_text-put_be drops native.1),
        native_encoded name (drops_text drops)
            ∙ serialize_xrp_amount-drops_text drops allow native
            ∙ ap ok q,
        subst (All IsByte) bytes (put_be-IsByte 8 (word_of drops)),
      )
