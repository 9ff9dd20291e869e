-- ===== src/Serdes/Errors.antt =====
-- The errors of binary-codec/serdes, with those that it passes on.
use xrpl_go.Base.Results.{Result, ok, err}
use xrpl_go.Definitions.{DefinitionsError}
use xrpl_go.Hexutil.{HexError}

pub data SerdesError : Type 0 where
  parser_out_of_bound invalid_typecode invalid_fieldcode : SerdesError
  invalid_field_id_length length_prefix_too_long : SerdesError
  of_definitions : DefinitionsError → SerdesError
  of_hex : HexError → SerdesError

abbrev pub lift_definitions {ℓ} : {A : Type ℓ} → Result DefinitionsError A → Result SerdesError A
lift_definitions (ok a) = ok a
lift_definitions (err e) = err (of_definitions e)

abbrev pub lift_hex {ℓ} : {A : Type ℓ} → Result HexError A → Result SerdesError A
lift_hex (ok a) = ok a
lift_hex (err e) = err (of_hex e)
