-- ===== src/Address/Check/RoundTrip.antt =====
-- Base58Check both ways.
use xrpl_go.Base.{
  ◌+◌, ◌-◌, ◌≤◌, ◌≡◌, ◌≢◌, ◌↔◌, refl, sym, ap, ap₂, ◌∙◌, [], ◌∷◌, ◌++◌, Bytes, IsByte, All,
  All-append, All-take, length, take, drop, length-append, length-take, take-append, drop-append,
  beq_bytes, beq_bytes_refl, beq_bytes→eq, take-append-drop, Bool-cases, inl, inr, false, ltb, not,
  arith,
}
use xrpl_go.Address.Hash.{Hashes}
use xrpl_go.Address.Errors.{checksum_mismatch, invalid_format, Outcome, done, failed, ◌>>◌, check}
use xrpl_go.Address.Base58.{encode_base58}
use xrpl_go.Address.Base58.Decode.{IsBase58}
use xrpl_go.Address.Base58.RoundTrip.{encode_base58-decode_base58, decode_base58-encode_base58}
use xrpl_go.Address.Check.{checksum, base58_check_decode}

module _ (hashes : Hashes) where
  length-checksum : (b : Bytes) → length (checksum hashes b) ≡ 4
  unfolding checksum
  length-checksum b = omega (
    arith,
    length-take 4 (hashes.sha256 (hashes.sha256 b)),
    hashes.length-sha256 (hashes.sha256 b),
  )

  checksum-IsByte : (b : Bytes) → All IsByte (checksum hashes b)
  unfolding checksum
  checksum-IsByte b = All-take IsByte 4 _ (hashes.sha256-IsByte (hashes.sha256 b))

  -- The checks of `Base58CheckDecode`, on the decoded bytes.
  verified : Bytes → Outcome Bytes
  verified d = do
    check (not (ltb (length d) 5)) invalid_format
    let result = take (length d - 4) d
    check (beq_bytes (drop (length d - 4) d) (checksum hashes result)) checksum_mismatch
    done result

  length-ne : (b : Bytes) → b ≢ [] → 1 ≤ length b
  length-ne [] ne = absurd (ne refl)
  length-ne (x ∷ b) ne = omega arith

  verified-append : (b : Bytes) → b ≢ [] → verified (b ++ checksum hashes b) ≡ done b
  unfolding verified
  verified-append b ne =
      let cs = checksum hashes b in
      let size : length (b ++ cs) ≡ length b + 4 =
        omega (arith, length-append b cs, length-checksum b) in
      let short : ltb (length (b ++ cs)) 5 ≡ false = ground (arith, size, length-ne b ne) in
      let front : length (b ++ cs) - 4 ≡ length b = omega (arith, size) in
      rw (short, front, take-append b cs, drop-append b cs, beq_bytes_refl cs)

  verified-eq-done : (d b : Bytes) → verified d ≡ done b → (b ≢ []) × (d ≡ b ++ checksum hashes b)
  unfolding verified
  verified-eq-done d b e = elim (Bool-cases (ltb (length d) 5)) [
    | inl short ↦ absurd (ground (arith, short))
    | inr long ↦
        elim (Bool-cases
          (beq_bytes (drop (length d - 4) d) (checksum hashes (take (length d - 4) d)))) [
            | inr wrong ↦ let q : failed checksum_mismatch ≡ done b = rw (long, wrong) at e in cc
            | inl right ↦
                let q : done (take (length d - 4) d) ≡ done b = rw (long, right) at e in
                let front : take (length d - 4) d ≡ b = cc in
                let nonempty : 1 ≤ length b =
                  ground (arith, long, length-take (length d - 4) d, ap length front) in
                (
                  λ p. absurd (omega (arith, nonempty, ap length p)),
                  sym (take-append-drop (length d - 4) d)
                      ∙ ap₂ ◌++◌ front (beq_bytes→eq _ _ right ∙ ap (checksum hashes) front),
                )
          ]
  ]

  -- The text of bytes with their checksum decodes to the bytes.
  pub base58_check_decode_lem :
      (b : Bytes)
      → All IsByte b
      → b ≢ []
      → base58_check_decode hashes (encode_base58 (b ++ checksum hashes b)) ≡ done b
  unfolding base58_check_decode
  base58_check_decode_lem b h ne =
      rw
        (decode_base58-encode_base58 (b ++ checksum hashes b)
          (All-append IsByte b (checksum hashes b) h (checksum-IsByte b)))
        (unfold verified in verified-append b ne)

  -- A text of characters of the alphabet decodes to given bytes exactly if there is at least one and
  -- the text is the base 58 encoding of the bytes followed by their checksum. So no other text of the
  -- alphabet stands for the bytes.
  pub base58_check_decode_iff :
      (s b : Bytes)
      → All IsBase58 s
      → All IsByte b
      → (base58_check_decode hashes s ≡ done b)
        ↔ ((b ≢ []) × (s ≡ encode_base58 (b ++ checksum hashes b)))
  base58_check_decode_iff s b valid h = (accepted, λ p. rw (p.1) (base58_check_decode_lem b h p.0))
    where
      accepted :
          base58_check_decode hashes s ≡ done b
          → (b ≢ []) × (s ≡ encode_base58 (b ++ checksum hashes b))
      accepted e =
          let (d, found, back) = encode_base58-decode_base58 s valid in
          let checked : verified d ≡ done b =
            unfold base58_check_decode verified in rw found at e in
          let (ne, eq) = verified-eq-done d b checked in (ne, sym back ∙ ap encode_base58 eq)
