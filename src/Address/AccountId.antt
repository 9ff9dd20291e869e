-- ===== src/Address/AccountId.antt =====
-- The account IDs that address-codec decodes: 20 bytes, and the text of one starts with `r`.
use xrpl_go.Base.{
  ℕ, zero, suc, ◌-◌, ◌≡◌, inl, inr, [], ◌∷◌, ◌++◌, map, Bytes, IsByte, All, All-append, All-drop,
  All-take, length, length-take, length-drop, take, drop, replicate, ltb, ◌==◌, not, get_or,
  beq_bytes, arith,
}
use xrpl_go.Base.Digits.{to_base, of_base, leading_zeros, to_base-All}
use xrpl_go.Address.Alphabet.{alphabet_idx0, alphabet_char}
use xrpl_go.Address.Hash.{Hashes}
use xrpl_go.Address.Base58.{
  Decoded, decoded, empty, panics, out_of_fuel, count_zeros, decode_loop, decode_base58,
}
use xrpl_go.Address.Base58.Encode.{encode_base58_lem}
use xrpl_go.Address.Errors.{
  done, invalid_format, checksum_mismatch, invalid_classic_address, invalid_x_address, check,
  instead, of_decoded, bind-done, check-done, instead-done, of_decoded-done,
}
use xrpl_go.Address.Check.{checksum, base58_check_encode, base58_check_decode}
use xrpl_go.Address.Codec.{account_address_prefix, decode_classic_address_to_account_id}
use xrpl_go.Address.XAddress.{XAddress, network_of, decode_tag, decode_x_address}

zeros-IsByte : (n : ℕ) → All IsByte (replicate n 0)
zeros-IsByte zero = tt
zeros-IsByte (suc n) = (omega arith, zeros-IsByte n)

decode_base58-IsByte : (s b : Bytes) → decode_base58 s ≡ decoded b → All IsByte b
unfolding decode_base58
decode_base58-IsByte s b h = by_answer (decode_loop (length s) s 0) h
  where
    by_answer :
        (r : Decoded ℕ)
        → elim r [
          | decoded answer ↦ decoded (replicate (count_zeros s) 0 ++ to_base 256 answer)
          | empty ↦ decoded []
          | panics ↦ panics
          | out_of_fuel ↦ out_of_fuel
        ]
          ≡ decoded b
        → All IsByte b
    by_answer (decoded answer) e =
        let q : replicate (count_zeros s) 0 ++ to_base 256 answer ≡ b = cc in
        rw (← q) (
          All-append IsByte (replicate (count_zeros s) 0) (to_base 256 answer)
            (zeros-IsByte (count_zeros s)) (to_base-All 256 (omega arith) answer))
    by_answer empty e = let q : Path Bytes [] b = cc in rw (← q) tt
    by_answer panics e = cc
    by_answer out_of_fuel e = cc

module _ (hashes : Hashes) where
  pub base58_check_decode-IsByte :
      (s b : Bytes) → base58_check_decode hashes s ≡ done b → All IsByte b
  unfolding base58_check_decode
  base58_check_decode-IsByte s b h =
      let (d, found, h1) = bind-done (of_decoded (decode_base58 s)) _ b h in
      let (_, _, h2) = bind-done (check (not (ltb (length d) 5)) invalid_format) _ b h1 in
      let (_, _, h3) =
        bind-done
          (check (beq_bytes (drop (length d - 4) d) (checksum hashes (take (length d - 4) d)))
            checksum_mismatch)
          _ b h2 in
      let q : take (length d - 4) d ≡ b = cc in
      let bytes : All IsByte d = elim (of_decoded-done (decode_base58 s) d found) [
        | inl e ↦ decode_base58-IsByte s d e
        | inr none ↦ rw none tt
      ] in
      rw (← q) (All-take IsByte (length d - 4) d bytes)

  -- A classic address that decodes gives 20 bytes.
  pub decode_classic_address-IsByte :
      (s p id : Bytes)
      → decode_classic_address_to_account_id hashes s ≡ done (p, id)
      → (length id ≡ 20) × All IsByte id
  unfolding decode_classic_address_to_account_id
  decode_classic_address-IsByte s p id h =
      let (d, found, h1) =
        bind-done (instead invalid_classic_address (base58_check_decode hashes s)) _ (p, id) h in
      let (u, size, h2) = bind-done (check (length d == 21) invalid_classic_address) _ (p, id) h1 in
      let (_, _, h3) =
        bind-done (check (get_or d 0 0 == account_address_prefix) invalid_classic_address) _ (p, id)
          h2 in
      let q : take 20 (drop 1 d) ≡ id = cc in
      let long : length d ≡ 21 = ground (arith, check-done (length d == 21) _ u size) in
      let bytes =
        base58_check_decode-IsByte s d
          (instead-done invalid_classic_address (base58_check_decode hashes s) d found) in
      rw (← q) (
        omega (arith, long, length-take 20 (drop 1 d), length-drop 1 d),
        All-take IsByte 20 (drop 1 d) (All-drop IsByte 1 d bytes),
      )

  -- An X-address that decodes holds 20 bytes of account ID.
  pub decode_x_address-IsByte :
      (s : Bytes) (x : XAddress)
      → decode_x_address hashes s ≡ done x
      → (length x.account_id ≡ 20) × All IsByte x.account_id
  unfolding decode_x_address
  decode_x_address-IsByte s x h =
      let (d, found, h1) = bind-done (base58_check_decode hashes s) _ x h in
      let (u, size, h2) = bind-done (check (length d == 31) invalid_x_address) _ x h1 in
      let (testnet, _, h3) = bind-done (network_of d) _ x h2 in
      let (t, _, h4) = bind-done (decode_tag d) _ x h3 in
      let q : take 20 (drop 2 d) ≡ x.account_id = cc in
      let long : length d ≡ 31 = ground (arith, check-done (length d == 31) _ u size) in
      let bytes = base58_check_decode-IsByte s d found in
      rw (← q) (
        omega (arith, long, length-take 20 (drop 2 d), length-drop 2 d),
        All-take IsByte 20 (drop 2 d) (All-drop IsByte 2 d bytes),
      )

  -- The text of an account ID starts with `r`.
  pub base58_check_encode-first :
      (id : Bytes)
      → (s : Bytes) × (base58_check_encode hashes id (account_address_prefix ∷ []) ≡ b'r' ∷ s)
  unfolding base58_check_encode leading_zeros
  base58_check_encode-first id =
      let b : Bytes = 0 ∷ (id ++ checksum hashes (0 ∷ id)) in
      (
        replicate (leading_zeros (id ++ checksum hashes (0 ∷ id))) alphabet_idx0
            ++ map alphabet_char (to_base 58 (of_base 256 b)),
        encode_base58_lem b,
      )
