-- ===== src/Codec/LedgerData.antt =====
-- binary-codec/ledger_data.go: the header of a ledger from its hexadecimal text.
use xrpl_go.Base.{
  ℕ, ◌^◌, ◌<◌, ◌≡◌, refl, ap, ◌∙◌, ◌∷◌, ◌++◌, Bytes, IsByte, All, All-append, length, arith,
}
use xrpl_go.Base.Words.{put_be, get_be, length-put_be, get_be-put_be, put_be-IsByte}
use xrpl_go.Base.Results.{Result, ok, err}
use xrpl_go.Hexutil.{decode_string, encode_to_upper_hex, decode_string-encode_to_upper_hex}
use xrpl_go.Serdes.Parser.{read_byte}
use xrpl_go.Number.Text.{decimal}
use xrpl_go.Types.Errors.{CodecError, from_hex}
use xrpl_go.Types.Reader.{Reader, ◌>>=◌, parsing, read, read-append_of, return}

-- `LedgerData`
pub record LedgerData : Type 0 where
  pub ledger_index : ℕ
  pub total_coins : Bytes
  pub parent_hash : Bytes
  pub transaction_hash : Bytes
  pub account_hash : Bytes
  pub parent_close_time : ℕ
  pub close_time : ℕ
  pub close_time_resolution : ℕ
  pub close_flags : ℕ

-- The reads of `DecodeLedgerData`, one behind the other.
unfoldable pub read_ledger_data : Reader LedgerData
unfolding read read_byte decimal encode_to_upper_hex
read_ledger_data = do
  ledger_index ← read 4
  total_coins ← read 8
  parent_hash ← read 32
  transaction_hash ← read 32
  account_hash ← read 32
  parent_close_time ← read 4
  close_time ← read 4
  close_time_resolution ← parsing read_byte
  close_flags ← parsing read_byte
  return (record {
    ledger_index = get_be ledger_index;
    total_coins = decimal (get_be total_coins);
    parent_hash = encode_to_upper_hex parent_hash;
    transaction_hash = encode_to_upper_hex transaction_hash;
    account_hash = encode_to_upper_hex account_hash;
    parent_close_time = get_be parent_close_time;
    close_time = get_be close_time;
    close_time_resolution = close_time_resolution;
    close_flags = close_flags;
  })

abbrev of_bytes : Result CodecError Bytes → Result CodecError LedgerData
of_bytes (ok b) = (read_ledger_data b).0
of_bytes (err e) = err e

-- `DecodeLedgerData`
unfoldable pub decode_ledger_data : Bytes → Result CodecError LedgerData
unfolding decode_string read_ledger_data
decode_ledger_data text = of_bytes (from_hex (decode_string text))

-- The header as bytes: numbers with the highest byte first, at fixed places.
abbrev pub ledger_bytes :
    (ledger_index coins : ℕ) (parent transactions accounts : Bytes)
    (parent_close_time close_time resolution flags : ℕ)
    → Bytes
    → Bytes
ledger_bytes ledger_index coins parent transactions accounts parent_close_time close_time resolution
      flags rest =
    put_be 4 ledger_index
    ++ (put_be 8 coins
        ++ (parent
            ++ (transactions
                ++ (accounts
                    ++ (put_be 4 parent_close_time
                        ++ (put_be 4 close_time ++ (resolution ∷ flags ∷ rest)))))))

module _ (ledger_index coins : ℕ) (parent transactions accounts : Bytes)
    (parent_close_time close_time resolution flags : ℕ) (rest : Bytes) where
  read_ledger_data-ledger_bytes :
      length parent ≡ 32
      → length transactions ≡ 32
      → length accounts ≡ 32
      → read_ledger_data (
          ledger_bytes ledger_index coins parent transactions accounts parent_close_time close_time
            resolution flags rest)
        ≡ (
          ok (record {
            ledger_index = get_be (put_be 4 ledger_index);
            total_coins = decimal (get_be (put_be 8 coins));
            parent_hash = encode_to_upper_hex parent;
            transaction_hash = encode_to_upper_hex transactions;
            account_hash = encode_to_upper_hex accounts;
            parent_close_time = get_be (put_be 4 parent_close_time);
            close_time = get_be (put_be 4 close_time);
            close_time_resolution = resolution;
            close_flags = flags;
          }),
          rest,
        )
  unfolding read_ledger_data read_byte
  read_ledger_data-ledger_bytes hp ht ha =
      rw
        (
          read-append_of 4 (put_be 4 ledger_index) _ (length-put_be 4 ledger_index),
          read-append_of 8 (put_be 8 coins) _ (length-put_be 8 coins),
          read-append_of 32 parent _ hp,
          read-append_of 32 transactions _ ht,
          read-append_of 32 accounts _ ha,
          read-append_of 4 (put_be 4 parent_close_time) _ (length-put_be 4 parent_close_time),
          read-append_of 4 (put_be 4 close_time) _ (length-put_be 4 close_time),
        )
        refl

-- The text of a ledger header decodes to its parts, whatever follows them: numbers that fit their
-- places come back, the coins as a decimal text and the hashes of 32 bytes as hexadecimal ones.
pub decode_ledger_data-ledger_bytes :
    (ledger_index coins : ℕ) (parent transactions accounts : Bytes)
    (parent_close_time close_time resolution flags : ℕ) (rest : Bytes)
    → ledger_index < 2 ^ 32
    → coins < 2 ^ 64
    → (length parent ≡ 32) × All IsByte parent
    → (length transactions ≡ 32) × All IsByte transactions
    → (length accounts ≡ 32) × All IsByte accounts
    → parent_close_time < 2 ^ 32
    → close_time < 2 ^ 32
    → resolution < 256
    → flags < 256
    → All IsByte rest
    → decode_ledger_data (
        encode_to_upper_hex (
          ledger_bytes ledger_index coins parent transactions accounts parent_close_time close_time
            resolution flags rest))
      ≡ ok (record {
        ledger_index = ledger_index;
        total_coins = decimal coins;
        parent_hash = encode_to_upper_hex parent;
        transaction_hash = encode_to_upper_hex transactions;
        account_hash = encode_to_upper_hex accounts;
        parent_close_time = parent_close_time;
        close_time = close_time;
        close_time_resolution = resolution;
        close_flags = flags;
      })
unfolding decode_ledger_data
decode_ledger_data-ledger_bytes i c p t a pct ct r f rest hi hc (lp, bp) (lt, bt) (la, ba) hpct hct
      hr hf hrest =
    let bytes = ledger_bytes i c p t a pct ct r f rest in
    let each_byte : All IsByte bytes = All-append IsByte (put_be 4 i) _ (put_be-IsByte 4 i) (
      All-append IsByte (put_be 8 c) _ (put_be-IsByte 8 c) (
        All-append IsByte p _ bp (
          All-append IsByte t _ bt (
            All-append IsByte a _ ba (
              All-append IsByte (put_be 4 pct) _ (put_be-IsByte 4 pct) (
                All-append IsByte (put_be 4 ct) (r ∷ f ∷ rest) (put_be-IsByte 4 ct)
                  (hr, (hf, hrest)))))))) in
    ap (λ x. of_bytes (from_hex x)) (decode_string-encode_to_upper_hex bytes each_byte)
    ∙ ap (λ x. x.0) (read_ledger_data-ledger_bytes i c p t a pct ct r f rest lp lt la)
    ∙ rw
        (
          get_be-put_be 4 i (omega (arith, hi)),
          get_be-put_be 8 c (omega (arith, hc)),
          get_be-put_be 4 pct (omega (arith, hpct)),
          get_be-put_be 4 ct (omega (arith, hct)),
        )
        refl
