-- ===== src/Address/XAddress/Payload.antt =====
-- The 31 bytes of an X-address, and the tag that is read from them.
use Prim.Native.Nat.add
use xrpl_go.Base.{
  ℕ, zero, suc, ◌+◌, ◌/◌, ◌%◌, ◌^◌, ◌<◌, ◌≡◌, ◌≢◌, refl, ap, ◌∙◌, List, [], ◌∷◌, ◌++◌, Bytes,
  IsByte, All, All-append, length, take, drop, get_or, length-append, true, false, arith,
}
use xrpl_go.Address.Errors.{invalid_tag, done, failed}
use xrpl_go.Address.XAddress.{tag_bytes, tag_of, all_zero, decode_tag}

module _ {ℓ} {A : Type ℓ} where
  get_or-append :
      (xs ys : List A) (n i : ℕ) (d : A)
      → length xs ≡ n
      → get_or (xs ++ ys) (n + i) d ≡ get_or ys i d
  get_or-append [] ys n i d e = ap (λ (k : ℕ). get_or ys k d) (omega (arith, e))
  get_or-append (x ∷ xs) ys zero i d e = absurd (omega (arith, e))
  get_or-append (x ∷ xs) ys (suc n) i d e =
      ap (λ (k : ℕ). get_or (x ∷ (xs ++ ys)) k d) (add.suc n i)
      ∙ get_or-append xs ys n i d (omega (arith, e))

  drop-append_at : (xs ys : List A) (n i : ℕ) → length xs ≡ n → drop (n + i) (xs ++ ys) ≡ drop i ys
  drop-append_at [] ys n i e = ap (λ (k : ℕ). drop k ys) (omega (arith, e))
  drop-append_at (x ∷ xs) ys zero i e = absurd (omega (arith, e))
  drop-append_at (x ∷ xs) ys (suc n) i e =
      ap (λ (k : ℕ). drop k (x ∷ (xs ++ ys))) (add.suc n i)
      ∙ drop-append_at xs ys n i (omega (arith, e))

  pub take-append_at : (xs ys : List A) (n : ℕ) → length xs ≡ n → take n (xs ++ ys) ≡ xs
  take-append_at [] ys zero e = refl
  take-append_at [] ys (suc n) e = absurd (omega (arith, e))
  take-append_at (x ∷ xs) ys zero e = absurd (omega (arith, e))
  take-append_at (x ∷ xs) ys (suc n) e = ap (λ l. x ∷ l) (take-append_at xs ys n (omega (arith, e)))

-- The 31 bytes, for a prefix of two.
abbrev pub payload : ℕ → ℕ → Bytes → ℕ → ℕ → Bytes
payload p0 p1 id flag tag = p0 ∷ p1 ∷ (id ++ (flag ∷ tag_bytes tag))

module _ (flag tag : ℕ) (id : Bytes) (size : length id ≡ 20) where
  flag_at : get_or (id ++ (flag ∷ tag_bytes tag)) 20 0 ≡ flag
  flag_at = get_or-append id (flag ∷ tag_bytes tag) 20 0 0 size

  low_byte_at : get_or (id ++ (flag ∷ tag_bytes tag)) 21 0 ≡ tag % 256
  low_byte_at = get_or-append id (flag ∷ tag_bytes tag) 20 1 0 size

  second_byte_at : get_or (id ++ (flag ∷ tag_bytes tag)) 22 0 ≡ tag / 256 % 256
  second_byte_at = get_or-append id (flag ∷ tag_bytes tag) 20 2 0 size

  third_byte_at : get_or (id ++ (flag ∷ tag_bytes tag)) 23 0 ≡ tag / 65536 % 256
  third_byte_at = get_or-append id (flag ∷ tag_bytes tag) 20 3 0 size

  high_byte_at : get_or (id ++ (flag ∷ tag_bytes tag)) 24 0 ≡ tag / 16777216 % 256
  high_byte_at = get_or-append id (flag ∷ tag_bytes tag) 20 4 0 size

  from_tag : drop 21 (id ++ (flag ∷ tag_bytes tag)) ≡ tag_bytes tag
  from_tag = drop-append_at id (flag ∷ tag_bytes tag) 20 1 size

  behind_tag : drop 25 (id ++ (flag ∷ tag_bytes tag)) ≡ 0 ∷ 0 ∷ 0 ∷ 0 ∷ []
  behind_tag = drop-append_at id (flag ∷ tag_bytes tag) 20 5 size

tag_of-bytes :
    (tag : ℕ)
    → tag < 2 ^ 32
    → tag_of (tag % 256) (tag / 256 % 256) (tag / 65536 % 256) (tag / 16777216 % 256) ≡ tag
tag_of-bytes tag h = omega arith

module _ (p0 p1 tag : ℕ) (id : Bytes) (size : length id ≡ 20) (word : tag < 2 ^ 32) where
  pub decode_tag_tagged : decode_tag (payload p0 p1 id 1 tag) ≡ done (tag, true)
  unfolding decode_tag
  decode_tag_tagged =
      rw
        (
          flag_at 1 tag id size,
          behind_tag 1 tag id size,
          low_byte_at 1 tag id size,
          second_byte_at 1 tag id size,
          third_byte_at 1 tag id size,
          high_byte_at 1 tag id size,
          tag_of-bytes tag word,
        )
        (unfold all_zero in refl)

  pub decode_tag_zero : tag ≡ 0 → decode_tag (payload p0 p1 id 0 tag) ≡ done (0, false)
  unfolding decode_tag
  decode_tag_zero e =
      rw (flag_at 0 tag id size, from_tag 0 tag id size, e) (unfold all_zero in refl)

  pub decode_tag_hidden : tag ≢ 0 → decode_tag (payload p0 p1 id 0 tag) ≡ failed invalid_tag
  unfolding decode_tag
  decode_tag_hidden ne =
      rw (flag_at 0 tag id size, from_tag 0 tag id size) (unfold all_zero in ground arith)

pub payload-IsByte :
    (p0 p1 flag tag : ℕ) (id : Bytes)
    → p0 < 256
    → p1 < 256
    → flag < 256
    → All IsByte id
    → All IsByte (payload p0 p1 id flag tag)
payload-IsByte p0 p1 flag tag id a b c h =
    (a, (b, All-append IsByte id (flag ∷ tag_bytes tag) h (c, omega arith)))

pub length-payload :
    (p0 p1 flag tag : ℕ) (id : Bytes) → length id ≡ 20 → length (payload p0 p1 id flag tag) ≡ 31
length-payload p0 p1 flag tag id size = omega (arith, length-append id (flag ∷ tag_bytes tag))
