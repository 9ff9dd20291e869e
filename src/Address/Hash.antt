-- ===== src/Address/Hash.antt =====
-- The hash functions that address-codec calls: SHA-256, from Go's crypto/sha256, and RIPEMD-160 of a
-- SHA-256, from golang.org/x/crypto/ripemd160. Their digests have 32 and 20 bytes.
use xrpl_go.Base.{◌≡◌, Bytes, IsByte, All, length}

pub record Hashes : Type 0 where
  pub sha256 : Bytes → Bytes
  pub sha256_ripemd160 : Bytes → Bytes
  pub length-sha256 : (b : Bytes) → length (sha256 b) ≡ 32
  pub sha256-IsByte : (b : Bytes) → All IsByte (sha256 b)
  pub length-sha256_ripemd160 : (b : Bytes) → length (sha256_ripemd160 b) ≡ 20
  pub sha256_ripemd160-IsByte : (b : Bytes) → All IsByte (sha256_ripemd160 b)
