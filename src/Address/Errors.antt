-- ===== src/Address/Errors.antt =====
-- address-codec/errors.go, and what a call of the package comes to: a value, an error, or the panic
-- that DecodeBase58 can end in. `out_of_fuel` is no Go value.
use xrpl_go.Base.{ℕ, ◌≡◌, refl, ◌⊎◌, inl, inr, Bytes, [], Bool, true, false}
use xrpl_go.Hexutil.{HexError}
use xrpl_go.Address.Base58.{Decoded, decoded, empty, panics, out_of_fuel}

pub data AddressError : Type 0 where
  invalid_classic_address invalid_seed invalid_seed_prefix invalid_seed_length : AddressError
  invalid_x_address unsupported_x_address invalid_tag invalid_account_id : AddressError
  checksum_mismatch invalid_format b58_prefix_mismatch unknown_encoding_type : AddressError
  -- `EncodeLengthError`: the expected and the given length.
  encode_length : ℕ → ℕ → AddressError
  of_hex : HexError → AddressError
  -- `ErrInvalidAddressFormat`, with the failure of each form.
  invalid_address_format : AddressError → AddressError → AddressError

pub data Outcome {ℓ} (A : Type ℓ) : Type ℓ where
  done : A → Outcome A
  failed : AddressError → Outcome A
  panicked : Outcome A
  stuck : Outcome A

infixl 5 ◌>>=◌ ◌>>◌
abbrev pub ◌>>=◌ {ℓ κ} : {A : Type ℓ} {B : Type κ} → Outcome A → (A → Outcome B) → Outcome B
done a >>= f = f a
failed e >>= f = failed e
panicked >>= f = panicked
stuck >>= f = stuck

abbrev pub ◌>>◌ {ℓ} : {B : Type ℓ} → Outcome (Unit {0}) → Outcome B → Outcome B
m >> k = m >>= λ _. k

-- `if !test { return err }`
abbrev pub check : Bool → AddressError → Outcome (Unit {0})
check true e = done tt
check false e = failed e

abbrev pub of_decoded : Decoded Bytes → Outcome Bytes
of_decoded (decoded b) = done b
of_decoded empty = done []
of_decoded panics = panicked
of_decoded out_of_fuel = stuck

-- `if err != nil { return .., e }`: another error in the place of the one that came.
abbrev pub instead {ℓ} : {A : Type ℓ} → AddressError → Outcome A → Outcome A
instead e (done a) = done a
instead e (failed x) = failed e
instead e panicked = panicked
instead e stuck = stuck

-- A chain of calls that gives a value: each of them did.
pub bind-done {ℓ κ} :
    {A : Type ℓ} {B : Type κ} (m : Outcome A) (f : A → Outcome B) (b : B)
    → (m >>= f) ≡ done b
    → (a : A) × (m ≡ done a) × (f a ≡ done b)
bind-done (done a) f b h = (a, refl, h)
bind-done (failed e) f b h = cc
bind-done panicked f b h = cc
bind-done stuck f b h = cc

pub check-done :
    (test : Bool) (e : AddressError) (u : Unit {0}) → check test e ≡ done u → test ≡ true
check-done true e u h = refl
check-done false e u h = cc

pub instead-done {ℓ} :
    {A : Type ℓ} (e : AddressError) (m : Outcome A) (a : A) → instead e m ≡ done a → m ≡ done a
instead-done e (done x) a h = h
instead-done e (failed x) a h = cc
instead-done e panicked a h = cc
instead-done e stuck a h = cc

pub of_decoded-done :
    (m : Decoded Bytes) (b : Bytes) → of_decoded m ≡ done b → (m ≡ decoded b) ⊎ (b ≡ [])
of_decoded-done (decoded x) b h = inl cc
of_decoded-done empty b h = inr cc
of_decoded-done panics b h = cc
of_decoded-done out_of_fuel b h = cc
