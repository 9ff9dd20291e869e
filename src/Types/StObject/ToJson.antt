-- ===== src/Types/StObject/ToJson.antt =====
-- `STObject.ToJSON` and `STArray.ToJSON` of binary-codec/types. Each round of a loop reads a field
-- identifier, so as many rounds as there are bytes are enough.
use xrpl_go.Base.{ℕ, zero, suc, List, [], ◌∷◌, ◌++◌, Bool, true, false, ◌||◌}
use text.Mathlib.Text.{◌==◌}
use xrpl_go.Base.Assoc.{string_eq, insert}
use xrpl_go.Definitions.{Definitions, FieldInstance}
use xrpl_go.Serdes.Parser.{has_more, read_field}
use xrpl_go.Types.Errors.{not_st_object_in_st_array, out_of_fuel}
use xrpl_go.Types.Value.{Value, array, object, no_members, member, members, values}
use xrpl_go.Types.Reader.{Reader, ◌>>=◌, fail, return, parsing}
use xrpl_go.Types.Fields.{Types, read_value}
use xrpl_go.Types.StObject.{Entry}

unfoldable pub is_end_marker : FieldInstance → Bool
is_end_marker fi = fi.field_name == "ObjectEndMarker" || fi.field_name == "ArrayEndMarker"

-- A marker ends the loop, and another field goes through the body.
abbrev pub unless_marker : {A : Type 0} → Bool → A → A → A
unless_marker true stop go = stop
unless_marker false stop go = go

module _ (d : Definitions) (types : Types) where
  -- The body of a round, behind the field that it has read.
  abbrev pub round_body : (List Entry → Reader Value) → List Entry → FieldInstance → Reader Value
  round_body next m fi = do res ← read_value d types fi; next (insert fi.field_name res m)

  -- `for p.HasMore()`, with the members read so far.
  unfoldable pub object_rounds : ℕ → List Entry → Reader Value
  unfolding has_more insert read_field
  object_rounds zero m data_left = elim (has_more data_left) [
    | false ↦ return (object (members m)) data_left
    | true ↦ fail out_of_fuel data_left
  ]
  object_rounds (suc f) m data_left = elim (has_more data_left) [
    | false ↦ return (object (members m)) data_left
    | true ↦
        (parsing (read_field d) >>= λ fi.
        unless_marker (is_end_marker fi) (return (object (members m)))
          (round_body (object_rounds f) m fi))
          data_left
  ]

  -- `STObject.ToJSON`
  unfoldable pub object_to_json : ℕ → Reader Value
  unfolding object_rounds
  object_to_json rounds = object_rounds rounds []

  -- The elements of an array are objects.
  abbrev pub element_body :
      ℕ → (List Value → Reader Value) → List Value → FieldInstance → Reader Value
  element_body rounds next elements fi = elim (fi.info.type == "STObject") [
    | false ↦ fail not_st_object_in_st_array
    | true ↦ (do
      res ← object_to_json rounds
      next (elements ++ (object (member fi.field_name res no_members) ∷ [])))
  ]

  -- `for p.HasMore()` of `STArray.ToJSON`, with the elements read so far.
  unfoldable pub array_rounds : ℕ → ℕ → List Value → Reader Value
  unfolding has_more object_to_json
  array_rounds rounds zero elements data_left = elim (has_more data_left) [
    | false ↦ return (array (values elements)) data_left
    | true ↦ fail out_of_fuel data_left
  ]
  array_rounds rounds (suc f) elements data_left = elim (has_more data_left) [
    | false ↦ return (array (values elements)) data_left
    | true ↦
        (parsing (read_field d) >>= λ fi.
        unless_marker (fi.field_name == "ArrayEndMarker") (return (array (values elements)))
          (element_body rounds (array_rounds rounds f) elements fi))
          data_left
  ]

  -- `STArray.ToJSON`
  unfoldable pub array_to_json : ℕ → Reader Value
  unfolding array_rounds
  array_to_json rounds = array_rounds rounds rounds []
