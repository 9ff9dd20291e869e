-- ===== src/Types/Errors.antt =====
-- The errors of binary-codec/types with those that it passes on. A panic ends a call as an error
-- does, and has a constructor too; `out_of_fuel` is no Go value.
use xrpl_go.Base.{ℕ, Bytes, String}
use xrpl_go.Base.Results.{Result, ok, err}
use xrpl_go.Hexutil.{HexError}
use xrpl_go.Definitions.{DefinitionsError}
use xrpl_go.Serdes.Errors.{SerdesError}
use xrpl_go.Address.Errors.{AddressError, Outcome, done, failed, panicked, stuck}
use xrpl_go.Number.Errors.{NumberError}

pub data CodecError : Type 0 where
  not_valid_json duplicate_x_address_tag account_id_tag_not_allowed : CodecError
  uint8_out_of_range uint16_out_of_range uint32_out_of_range int32_out_of_range : CodecError
  invalid_uint64_string no_length_prefix expected_string : CodecError
  invalid_hash_type invalid_vector256_type not_st_object_in_st_array : CodecError
  invalid_hash_length invalid_vector256_length : ℕ → CodecError
  invalid_hex_string : HexError → CodecError
  unsupported_permission_type permission_value_out_of_range : CodecError
  -- `unknown type %q for field %q`
  unknown_type : String → String → CodecError
  invalid_address_format invalid_currency invalid_issue_object : CodecError
  not_valid_x_chain_bridge cannot_decode_classic_address read_bytes_error : CodecError
  of_hex : HexError → CodecError
  of_definitions : DefinitionsError → CodecError
  of_serdes : SerdesError → CodecError
  of_address : AddressError → CodecError
  of_number : NumberError → CodecError
  invalid_xrp_value invalid_uint_syntax amount_missing_value invalid_amount_value : CodecError
  issued_currency_missing_currency issued_currency_missing_issuer : CodecError
  invalid_currency_format invalid_issuer_format invalid_mpt_issuance_id : CodecError
  invalid_amount_type invalid_mpt_length invalid_issuance_id_length : CodecError
  invalid_amount : Bytes → CodecError
  panics out_of_fuel : CodecError

abbrev pub from_definitions {ℓ} : {A : Type ℓ} → Result DefinitionsError A → Result CodecError A
from_definitions (ok a) = ok a
from_definitions (err e) = err (of_definitions e)

abbrev pub from_hex {ℓ} : {A : Type ℓ} → Result HexError A → Result CodecError A
from_hex (ok a) = ok a
from_hex (err e) = err (of_hex e)

abbrev pub from_number {ℓ} : {A : Type ℓ} → Result NumberError A → Result CodecError A
from_number (ok a) = ok a
from_number (err e) = err (of_number e)

abbrev pub from_address {ℓ} : {A : Type ℓ} → Outcome A → Result CodecError A
from_address (done a) = ok a
from_address (failed e) = err (of_address e)
from_address panicked = err panics
from_address stuck = err out_of_fuel
