-- ===== src/Serdes/Bytes.antt =====
-- `ReadBytes` against the slices of the data.
use xrpl_go.Base.{
  ℕ, zero, suc, ◌≡◌, [], ◌∷◌, ◌++◌, append_assoc, append-nil, Bytes, length, take, drop, leb,
  if◌then◌else◌, arith, take-append, drop-append, length-append,
}
use xrpl_go.Base.Int.{ℤ, pos, negsuc, ltb_ℤ, abs}
use xrpl_go.Base.Results.{ok, err}
use xrpl_go.Serdes.Errors.{parser_out_of_bound}
use xrpl_go.Serdes.Parser.{read_bytes_loop, read_bytes}

read_bytes_loop_lem :
    (n : ℕ) (bytes bs : Bytes)
    → read_bytes_loop n bytes bs ≡ (
        if leb n (length bs)
        then (ok (bytes ++ take n bs), drop n bs)
        else (err parser_out_of_bound, []))
unfolding read_bytes_loop
read_bytes_loop_lem zero bytes bs = ground (arith, append-nil bytes)
read_bytes_loop_lem (suc n) bytes [] = ground arith
read_bytes_loop_lem (suc n) bytes (b ∷ bs) =
    ground
      (arith, read_bytes_loop_lem n (bytes ++ (b ∷ [])) bs, append_assoc bytes (b ∷ []) (take n bs))

-- Reading n bytes gives the first n bytes of the data and leaves the others; with fewer than n bytes
-- it uses the data up and fails; with a negative n it fails and leaves the data as it is.
pub read_bytes_lem :
    (n : ℤ) (bs : Bytes)
    → read_bytes n bs ≡ (
        if ltb_ℤ n (pos 0)
        then (err parser_out_of_bound, bs)
        else if leb (abs n) (length bs)
        then (ok (take (abs n) bs), drop (abs n) bs)
        else (err parser_out_of_bound, []))
unfolding read_bytes
read_bytes_lem (pos n) bs = ground (arith, read_bytes_loop_lem n [] bs)
read_bytes_lem (negsuc n) bs = ground arith

pub read_bytes-append : (v rest : Bytes) → read_bytes (pos (length v)) (v ++ rest) ≡ (ok v, rest)
unfolding read_bytes
read_bytes-append v rest = ground (
  arith,
  read_bytes_loop_lem (length v) [] (v ++ rest),
  take-append v rest,
  drop-append v rest,
  length-append v rest,
)
