-- ===== src/Types/Integers/RoundTrip.antt =====
-- The integers of binary-codec/types, read back.
use xrpl_go.Base.{
  ◌++◌, ℕ, ◌-◌, ◌^◌, ◌%◌, ◌<◌, ◌≤◌, ◌≡◌, refl, sym, subst, ap, ◌∙◌, ◌++◌, [], ◌∷◌, Bytes, IsByte,
  All, ◌&&◌, Option, some, arith, length,
}
use xrpl_go.Base.Int.{ℤ, pos, negsuc, leb_ℤ, ◌≤ℤ◌}
use xrpl_go.Base.Words.{
  byte_of, put_be, get_be, signed_of, pattern_of, length-put_be, get_be-put_be, put_be-IsByte,
  IsInt32,
}
use xrpl_go.Base.Results.{ok, ◌>>=◌, bind-ok, guard-ok, from_option, from_option-ok}
use xrpl_go.Definitions.{Definitions}
use xrpl_go.Types.Errors.{
  CodecError, uint8_out_of_range, uint16_out_of_range, int32_out_of_range, uint32_out_of_range,
}
use xrpl_go.Types.Value.{
  Value, integer, int, uint32, int32, float64, whole, not_whole, null, other, string, named_string,
  strings, array, objects, object, string_map,
}
use xrpl_go.Types.Reader.{read_as-append}
use xrpl_go.Types.Law.{ReadsBack}
use xrpl_go.Types.Integers.{
  check_range, int64_to_uint32, uint8_named, uint8_number, uint8_from_json, uint8_to_json,
  uint16_named, uint16_number, uint16_from_json, uint16_to_json, to_uint32, uint32_from_json,
  uint32_to_json, int32_number, int32_from_json, int32_to_json,
}

pub check_range-ok :
    (lo hi : ℤ) (e : CodecError) (v n : ℤ)
    → check_range lo hi e v ≡ ok n
    → (v ≡ n) × (lo ≤ℤ n) × (n ≤ℤ hi)
unfolding check_range
check_range-ok lo hi e v n h =
    let (u, g, same) = bind-ok _ _ n h in
    let inside = guard-ok (leb_ℤ lo v && leb_ℤ v hi) e u g in
    let q : v ≡ n = cc in
    let low : lo ≤ℤ v = ground (arith, inside) in
    let high : v ≤ℤ hi = ground (arith, inside) in
    (q, subst (λ x. lo ≤ℤ x) q low, subst (λ x. x ≤ℤ hi) q high)

check_range_inside :
    (lo hi : ℤ) (e : CodecError) (v : ℤ) → lo ≤ℤ v → v ≤ℤ hi → check_range lo hi e v ≡ ok v
unfolding check_range
check_range_inside lo hi e v l h = ground arith

-- A number that is in an unsigned range.
pub natural : (n : ℤ) (hi : ℕ) → pos 0 ≤ℤ n → n ≤ℤ pos hi → (k : ℕ) × (n ≡ pos k) × (k ≤ hi)
natural (pos k) hi a b = (k, refl, omega arith)
natural (negsuc k) hi a b = absurd (omega arith)

module _ (hi : ℕ) (e : CodecError) (v : Value) (numbered : Value → Option ℤ) (b : Bytes) where
  -- What the writers of small unsigned numbers do behind their names.
  unsigned_written :
      (write : ℤ → Bytes)
      → (from_option (numbered v) e >>= λ n. check_range (pos 0) (pos hi) e n >>= λ m. ok (write m))
        ≡ ok b
      → (k : ℕ) × (k ≤ hi) × (write (pos k) ≡ b)
  unsigned_written write h =
      let (n, _, h1) = bind-ok (from_option (numbered v) e) _ b h in
      let (m, c, h2) = bind-ok (check_range (pos 0) (pos hi) e n) _ b h1 in
      let (_, lo, up) = check_range-ok (pos 0) (pos hi) e n m c in
      let (k, q, small) = natural m hi lo up in
      (k, small, subst (λ x. write x ≡ b) q (let r : write m ≡ b = cc in r))

uint8_written :
    (d : Definitions) (v : Value) (b : Bytes)
    → uint8_from_json d v ≡ ok b
    → (k : ℕ) × (k ≤ 255) × (byte_of (pos k) ∷ [] ≡ b)
unfolding uint8_from_json
uint8_written d v b h =
    let (v', _, h1) = bind-ok (uint8_named d v) _ b h in
    unsigned_written 255 uint8_out_of_range v' uint8_number b (λ x. byte_of x ∷ []) h1

uint8_number_written :
    (d : Definitions) (k : ℕ)
    → k ≤ 255
    → uint8_from_json d (integer int (pos k)) ≡ ok (byte_of (pos k) ∷ [])
unfolding uint8_from_json
uint8_number_written d k h =
    rw (check_range_inside (pos 0) (pos 255) uint8_out_of_range (pos k) (omega arith) (omega arith))

pub uint8-ReadsBack : (d : Definitions) → ReadsBack (uint8_from_json d) (λ n. uint8_to_json)
unfolding uint8_to_json
uint8-ReadsBack d v b rest h =
    let (k, small, q) = uint8_written d v b h in
    (
      integer int (pos k),
      subst (λ x. uint8_to_json (x ++ rest) ≡ (ok (integer int (pos k)), rest)) q
          (read_as-append 1 _ (byte_of (pos k) ∷ []) rest refl
            ∙ ap (λ (x : ℕ). (ok (integer int (pos x)), rest)) (omega arith)),
      uint8_number_written d k small ∙ ap ok q,
      subst (All IsByte) q (omega arith),
    )

uint16_written :
    (d : Definitions) (v : Value) (b : Bytes)
    → uint16_from_json d v ≡ ok b
    → (k : ℕ) × (k ≤ 65535) × (put_be 2 (pattern_of (2 ^ 16) (pos k)) ≡ b)
unfolding uint16_from_json
uint16_written d v b h =
    let (v', _, h1) = bind-ok (uint16_named d v) _ b h in
    unsigned_written 65535 uint16_out_of_range v' uint16_number b
      (λ x. put_be 2 (pattern_of (2 ^ 16) x)) h1

pub uint16_number_written :
    (d : Definitions) (k : ℕ)
    → k ≤ 65535
    → uint16_from_json d (integer int (pos k)) ≡ ok (put_be 2 (pattern_of (2 ^ 16) (pos k)))
unfolding uint16_from_json
uint16_number_written d k h =
    rw (
      check_range_inside (pos 0) (pos 65535) uint16_out_of_range (pos k) (omega arith)
        (omega arith))

-- A number of n bytes, read from what was written.
pub get_be_of :
    (n v : ℕ) (b : Bytes) → v < 256 ^ n → put_be n v ≡ b → (get_be b ≡ v) × (length b ≡ n)
get_be_of n v b h e =
    (ap get_be (sym e) ∙ get_be-put_be n v h, ap length (sym e) ∙ length-put_be n v)

pub uint16-ReadsBack : (d : Definitions) → ReadsBack (uint16_from_json d) (λ n. uint16_to_json)
unfolding uint16_to_json
uint16-ReadsBack d v b rest h =
    let (k, small, q) = uint16_written d v b h in
    let pattern : k % 2 ^ 16 ≡ k = omega arith in
    let (value, size) = get_be_of 2 (k % 2 ^ 16) b (omega arith) q in
    (
      integer int (pos k),
      read_as-append 2 _ b rest size
          ∙ ap (λ (x : ℕ). (ok (integer int (pos x)), rest)) (value ∙ pattern),
      uint16_number_written d k small ∙ ap ok q,
      subst (All IsByte) q (put_be-IsByte 2 _),
    )

uint32_written :
    (v : Value) (b : Bytes)
    → uint32_from_json v ≡ ok b
    → (k : ℕ) × (to_uint32 v ≡ some k) × (put_be 4 k ≡ b)
unfolding uint32_from_json
uint32_written v b h =
    let (k, c, h1) = bind-ok (from_option (to_uint32 v) uint32_out_of_range) _ b h in
    (k, from_option-ok (to_uint32 v) uint32_out_of_range k c, cc)

int64_to_uint32-below : (v : ℤ) (k : ℕ) → int64_to_uint32 v ≡ some k → k < 2 ^ 32
unfolding int64_to_uint32
int64_to_uint32-below (pos n) k h = ground arith
int64_to_uint32-below (negsuc n) k h = cc

to_uint32-below : (v : Value) (k : ℕ) → to_uint32 v ≡ some k → k < 2 ^ 32
unfolding to_uint32
to_uint32-below (integer t v) k h = int64_to_uint32-below v k h
to_uint32-below (float64 (whole v)) k h = int64_to_uint32-below v k h
to_uint32-below (float64 not_whole) k h = cc
to_uint32-below null k h = cc
to_uint32-below other k h = cc
to_uint32-below (string s) k h = cc
to_uint32-below (named_string s) k h = cc
to_uint32-below (strings s) k h = cc
to_uint32-below (array s) k h = cc
to_uint32-below (objects s) k h = cc
to_uint32-below (string_map s) k h = cc
to_uint32-below (object s) k h = cc

pub uint32_number_written :
    (k : ℕ) → k < 2 ^ 32 → uint32_from_json (integer uint32 (pos k)) ≡ ok (put_be 4 k)
unfolding uint32_from_json to_uint32 int64_to_uint32
uint32_number_written k h = ground arith

pub uint32-ReadsBack : ReadsBack uint32_from_json (λ n. uint32_to_json)
unfolding uint32_to_json
uint32-ReadsBack v b rest h =
    let (k, c, q) = uint32_written v b h in
    let small = to_uint32-below v k c in
    let (value, size) = get_be_of 4 k b small q in
    (
      integer uint32 (pos k),
      read_as-append 4 _ b rest size ∙ ap (λ (x : ℕ). (ok (integer uint32 (pos x)), rest)) value,
      uint32_number_written k small ∙ ap ok q,
      subst (All IsByte) q (put_be-IsByte 4 _),
    )

int32_from_json-ok :
    (v : Value) (b : Bytes)
    → int32_from_json v ≡ ok b
    → (k : ℤ) × IsInt32 k × (put_be 4 (pattern_of (2 ^ 32) k) ≡ b)
unfolding int32_from_json
int32_from_json-ok v b h =
    let (n, _, h1) = bind-ok (from_option (int32_number v) int32_out_of_range) _ b h in
    let (m, c, h2) =
      bind-ok (check_range (negsuc (2 ^ 31 - 1)) (pos (2 ^ 31 - 1)) int32_out_of_range n) _ b h1 in
    let (_, lo, up) =
      check_range-ok (negsuc (2 ^ 31 - 1)) (pos (2 ^ 31 - 1)) int32_out_of_range n m c in
    (m, (lo, up), let r : put_be 4 (pattern_of (2 ^ 32) m) ≡ b = cc in r)

pub int32_number_written :
    (k : ℤ) → IsInt32 k → int32_from_json (integer int32 k) ≡ ok (put_be 4 (pattern_of (2 ^ 32) k))
unfolding int32_from_json
int32_number_written k (lo, up) =
    rw (check_range_inside (negsuc (2 ^ 31 - 1)) (pos (2 ^ 31 - 1)) int32_out_of_range k lo up)

signed_of-pattern_of : (k : ℤ) → IsInt32 k → signed_of (2 ^ 32) (pattern_of (2 ^ 32) k) ≡ k
signed_of-pattern_of k h = ground arith

pub int32-ReadsBack : ReadsBack int32_from_json (λ n. int32_to_json)
unfolding int32_to_json
int32-ReadsBack v b rest h =
    let (k, range, q) = int32_from_json-ok v b h in
    let (value, size) = get_be_of 4 (pattern_of (2 ^ 32) k) b (ground arith) q in
    (
      integer int32 k,
      read_as-append 4 _ b rest size
          ∙ ap (λ x. (ok (integer int32 x), rest))
              (ap (signed_of (2 ^ 32)) value ∙ signed_of-pattern_of k range),
      int32_number_written k range ∙ ap ok q,
      subst (All IsByte) q (put_be-IsByte 4 _),
    )
