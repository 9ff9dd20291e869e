-- ===== src/Types/Hash/RoundTrip.antt =====
-- Hashes, blobs and vectors of hashes of binary-codec/types, read back.
use xrpl_go.Base.{
  ℕ, zero, suc, ◌+◌, ◌%◌, ◌≤◌, ◌≡◌, refl, sym, ap, ap₂, ◌∙◌, List, [], ◌∷◌, ◌++◌, Bytes, IsByte,
  All, All-append, ◌==◌, ==_iff, some, length, length-append, take, drop, take-append, drop-append,
  arith, subst,
}
use native.Mathlib.Nat.{le_refl}
use xrpl_go.Base.Results.{Result, ok, err, bind-ok, guard, guard-ok}
use xrpl_go.Hexutil.{
  HexError, decode_string, encode_to_upper_hex, decode_string-encode_to_upper_hex,
  decode_string-IsByte,
}
use xrpl_go.Types.Errors.{invalid_hash_length, from_hex}
use xrpl_go.Types.Value.{
  Value, integer, float64, null, other, string, named_string, strings, array, objects, object,
  string_map,
}
use xrpl_go.Types.Reader.{read_as-append}
use xrpl_go.Types.Law.{ReadsBack}
use xrpl_go.Types.Hash.{
  hash_hex, hash_of_text, hash_from_json, hash_to_json, blob_from_json, blob_to_json,
  hash_length_bytes, vector256_from_value, strings_of, vector256_from_json, hash_texts,
  vector256_of_bytes, vector256_to_json,
}

hash_hex-ok : (r : Result HexError Bytes) (b : Bytes) → hash_hex r ≡ ok b → r ≡ ok b
hash_hex-ok (ok x) b h = cc
hash_hex-ok (err e) b h = cc

-- What a hash was made of: bytes, as many as its size.
hash_written :
    (size : ℕ) (s b : Bytes) → hash_of_text size s ≡ ok b → (length b ≡ size) × All IsByte b
unfolding hash_of_text
hash_written size s b h =
    let (x, found, h1) = bind-ok (hash_hex (decode_string s)) _ b h in
    let (u, g, h2) = bind-ok (guard (size == length x) (invalid_hash_length size)) _ b h1 in
    let q : x ≡ b = cc in
    let fits : size ≡ length x =
      (==_iff size (length x)).0 (guard-ok _ (invalid_hash_length size) u g) in
    rw (← q) (sym fits, decode_string-IsByte s x (hash_hex-ok (decode_string s) x found))

hash_of_text-upper :
    (size : ℕ) (b : Bytes)
    → length b ≡ size
    → All IsByte b
    → hash_of_text size (encode_to_upper_hex b) ≡ ok b
unfolding hash_of_text
hash_of_text-upper size b fits h = rw (decode_string-encode_to_upper_hex b h, fits) (ground arith)

pub hash-ReadsBack : (size : ℕ) → ReadsBack (hash_from_json size) (λ n. hash_to_json size)
unfolding hash_from_json hash_to_json
hash-ReadsBack size (string s) b rest h =
    let (fits, bytes) = hash_written size s b h in
    (
      string (encode_to_upper_hex b),
      read_as-append size _ b rest fits,
      hash_of_text-upper size b fits bytes,
      bytes,
    )
hash-ReadsBack size null b rest h = cc
hash-ReadsBack size other b rest h = cc
hash-ReadsBack size (named_string s) b rest h = cc
hash-ReadsBack size (integer t v) b rest h = cc
hash-ReadsBack size (float64 v) b rest h = cc
hash-ReadsBack size (strings s) b rest h = cc
hash-ReadsBack size (array s) b rest h = cc
hash-ReadsBack size (objects s) b rest h = cc
hash-ReadsBack size (string_map s) b rest h = cc
hash-ReadsBack size (object s) b rest h = cc

from_hex-ok : (r : Result HexError Bytes) (b : Bytes) → from_hex r ≡ ok b → r ≡ ok b
from_hex-ok (ok x) b h = cc
from_hex-ok (err e) b h = cc

pub blob-ReadsBack : ReadsBack blob_from_json (λ n. blob_to_json (some n))
unfolding blob_from_json blob_to_json
blob-ReadsBack (string s) b rest h = (
  string (encode_to_upper_hex b),
  read_as-append (length b) _ b rest refl,
  rw (
      decode_string-encode_to_upper_hex b
        (decode_string-IsByte s b (from_hex-ok (decode_string s) b h))),
  decode_string-IsByte s b (from_hex-ok (decode_string s) b h),
)
blob-ReadsBack null b rest h = cc
blob-ReadsBack other b rest h = cc
blob-ReadsBack (named_string s) b rest h = cc
blob-ReadsBack (integer t v) b rest h = cc
blob-ReadsBack (float64 v) b rest h = cc
blob-ReadsBack (strings s) b rest h = cc
blob-ReadsBack (array s) b rest h = cc
blob-ReadsBack (objects s) b rest h = cc
blob-ReadsBack (string_map s) b rest h = cc
blob-ReadsBack (object s) b rest h = cc

hash_texts_step :
    (f : ℕ) (h r : Bytes)
    → length h ≡ 32
    → hash_texts (suc f) (h ++ r) ≡ encode_to_upper_hex h ∷ hash_texts f r
unfolding hash_texts
hash_texts_step f [] r size = absurd (omega (arith, size))
hash_texts_step f (c ∷ h) r size =
    ap₂ (λ x y. encode_to_upper_hex x ∷ hash_texts f y)
      (ap (λ (n : ℕ). take n ((c ∷ h) ++ r)) (sym size) ∙ take-append (c ∷ h) r)
      (ap (λ (n : ℕ). drop n ((c ∷ h) ++ r)) (sym size) ∙ drop-append (c ∷ h) r)

-- A whole number of hashes, whose texts give the bytes again.
record IsVector (b : Bytes) : Type 0 where
  whole : length b % 32 ≡ 0
  bytes : All IsByte b
  back : (f : ℕ) → length b ≤ f → vector256_from_value (hash_texts f b) ≡ ok b

empty-IsVector : IsVector []
unfolding vector256_from_value hash_texts
empty-IsVector = record { whole = refl; bytes = tt; back = λ f enough. by_fuel f }
  where
    by_fuel : (f : ℕ) → vector256_from_value (hash_texts f []) ≡ ok []
    by_fuel zero = refl
    by_fuel (suc f) = refl

next-IsVector : (h r : Bytes) → length h ≡ 32 → All IsByte h → IsVector r → IsVector (h ++ r)
unfolding vector256_from_value
next-IsVector h r size bytes v = record {
  whole = omega (arith, length-append h r, size, v.whole);
  bytes = All-append IsByte h r bytes v.bytes;
  back = λ f enough. by_fuel f (omega (arith, length-append h r, size, enough));
}
  where
    by_fuel :
        (f : ℕ) → 32 + length r ≤ f → vector256_from_value (hash_texts f (h ++ r)) ≡ ok (h ++ r)
    by_fuel zero enough = absurd (omega (arith, enough))
    by_fuel (suc f) enough =
        ap vector256_from_value (hash_texts_step f h r size)
        ∙ rw (hash_of_text-upper 32 h size bytes, v.back f (omega (arith, enough)))

vector256_from_value-IsVector :
    (ss : List Bytes) (b : Bytes) → vector256_from_value ss ≡ ok b → IsVector b
unfolding vector256_from_value
vector256_from_value-IsVector [] b h =
    let q : Path Bytes [] b = cc in subst IsVector q empty-IsVector
vector256_from_value-IsVector (s ∷ ss) b h =
    let (x, found, h1) = bind-ok (hash_of_text hash_length_bytes s) _ b h in
    let (r, below, h2) = bind-ok (vector256_from_value ss) _ b h1 in
    let q : x ++ r ≡ b = cc in
    let (size, bytes) = hash_written 32 s x found in
    subst IsVector q (next-IsVector x r size bytes (vector256_from_value-IsVector ss r below))

vector256_of_bytes_lem :
    (b : Bytes) → IsVector b → vector256_of_bytes b ≡ ok (strings (hash_texts (length b) b))
unfolding vector256_of_bytes
vector256_of_bytes_lem b v = rw v.whole

vector_back :
    (b rest : Bytes)
    → IsVector b
    → (w : Value) × (vector256_to_json (some (length b)) (b ++ rest) ≡ (ok w, rest))
      × (vector256_from_json w ≡ ok b)
      × All IsByte b
unfolding vector256_to_json vector256_from_json
vector_back b rest v = (
  strings (hash_texts (length b) b),
  read_as-append (length b) vector256_of_bytes b rest refl
      ∙ ap (λ r. (r, rest)) (vector256_of_bytes_lem b v),
  v.back (length b) (le_refl (length b)),
  v.bytes,
)

-- A vector of hashes, from a list of texts or an array of them, reads back what it writes: the value
-- read is written as the same bytes.
pub vector256-ReadsBack : ReadsBack vector256_from_json (λ n. vector256_to_json (some n))
unfolding vector256_from_json
vector256-ReadsBack (strings ss) b rest h =
    vector_back b rest (vector256_from_value-IsVector ss b h)
vector256-ReadsBack (array vs) b rest h =
    let (ss, _, h1) = bind-ok (strings_of vs) _ b h in
    vector_back b rest (vector256_from_value-IsVector ss b h1)
vector256-ReadsBack (string s) b rest h = cc
vector256-ReadsBack null b rest h = cc
vector256-ReadsBack other b rest h = cc
vector256-ReadsBack (named_string s) b rest h = cc
vector256-ReadsBack (integer t v) b rest h = cc
vector256-ReadsBack (float64 v) b rest h = cc
vector256-ReadsBack (objects s) b rest h = cc
vector256-ReadsBack (string_map s) b rest h = cc
vector256-ReadsBack (object s) b rest h = cc
