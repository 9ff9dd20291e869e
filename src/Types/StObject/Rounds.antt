-- ===== src/Types/StObject/Rounds.antt =====
-- A round of `STObject.ToJSON`, and the bytes of a field.
use xrpl_go.Base.{
  ℕ, zero, suc, ◌≤◌, ◌≡◌, refl, sym, ap, subst, ◌∙◌, All, List, [], ◌∷◌, ◌++◌, Bytes, IsByte,
  All-append, Bool, inl, inr, if◌then◌else◌, true, false, length, arith,
}
use xrpl_go.Base.Assoc.{string_eq, insert}
use xrpl_go.Base.Results.{ok}
use xrpl_go.Definitions.{Definitions, FieldHeader, FieldInstance}
use xrpl_go.Serdes.Parser.{has_more, read_field}
use xrpl_go.Serdes.FieldId.{encode_header}
use xrpl_go.Serdes.Shape.{encode_header-Shape, Shape-IsByte}
use text.Mathlib.Text.{◌==◌}
use xrpl_go.Serdes.Serializer.{encode_variable_length}
use xrpl_go.Serdes.Field.{IsKnown, end_marker}
use xrpl_go.Serdes.Append.{IsPrefix}
use xrpl_go.Types.Value.{Value, object, members}
use xrpl_go.Types.Reader.{Reader, continue-ok, parsing, parsing-ok, return}
use xrpl_go.Types.Fields.{Types, read_value}
use xrpl_go.Types.StObject.{Entry}
use xrpl_go.Types.StObject.ToJson.{is_end_marker, unless_marker, round_body, object_rounds}

module _ (d : Definitions) (types : Types) where
  pub rounds_over :
      (f : ℕ) (m : List Entry) → object_rounds d types f m [] ≡ (ok (object (members m)), [])
  unfolding object_rounds has_more
  rounds_over zero m = refl
  rounds_over (suc f) m = refl

  module _ (f : ℕ) (m : List Entry) (fi : FieldInstance) (data_left next : Bytes) where
    abbrev branch : Bool → FieldInstance → Reader Value
    branch t fi' =
        unless_marker t (return (object (members m)))
          (round_body d types (object_rounds d types f) m fi')

    rounds_field :
        has_more data_left ≡ true
        → read_field d data_left ≡ (ok fi, next)
        → object_rounds d types (suc f) m data_left ≡ branch (is_end_marker fi) fi next
    unfolding object_rounds
    rounds_field more found =
        rw (more, object_rounds)
          (continue-ok (parsing (read_field d)) (λ fi'. branch (is_end_marker fi') fi') data_left
            next fi (parsing-ok (read_field d) data_left next fi found))

    pub rounds_marker :
        has_more data_left ≡ true
        → read_field d data_left ≡ (ok fi, next)
        → is_end_marker fi ≡ true
        → object_rounds d types (suc f) m data_left ≡ (ok (object (members m)), next)
    rounds_marker more found marker = rounds_field more found ∙ ap (λ t. branch t fi next) marker

    pub rounds_next :
        (w : Value) (rest : Bytes)
        → has_more data_left ≡ true
        → read_field d data_left ≡ (ok fi, next)
        → is_end_marker fi ≡ false
        → read_value d types fi next ≡ (ok w, rest)
        → object_rounds d types (suc f) m data_left
          ≡ object_rounds d types f (insert fi.field_name w m) rest
    rounds_next w rest more found a_field read =
        rounds_field more found
        ∙ ap (λ t. branch t fi next) a_field
        ∙ continue-ok (read_value d types fi)
            (λ res. object_rounds d types f (insert fi.field_name res m)) next rest w read

pub header_some : (h : FieldHeader) (b : Bytes) → has_more (encode_header h ++ b) ≡ true
unfolding encode_header has_more
header_some h b = ground arith

pub length-encode_header : (h : FieldHeader) → 1 ≤ length (encode_header h)
unfolding encode_header
length-encode_header h = ground arith

length-IsByte : (n : ℕ) (vl : Bytes) → encode_variable_length n ≡ ok vl → All IsByte vl
unfolding encode_variable_length
length-IsByte n vl h = ground arith

prefix-IsByte : (fi : FieldInstance) (n : ℕ) (vl : Bytes) → IsPrefix fi n vl → All IsByte vl
prefix-IsByte fi n vl (inl (is_vl, e)) = length-IsByte n vl e
prefix-IsByte fi n vl (inr (plain, e)) = subst (All IsByte) (sym e) tt

end_marker-IsByte : (fi : FieldInstance) → All IsByte (end_marker fi)
end_marker-IsByte fi = by_test (fi.info.type == "STObject")
  where
    by_test : (t : Bool) → All IsByte (if t then 0xE1 ∷ [] else [])
    by_test true = (omega arith, tt)
    by_test false = tt

-- All that a field adds to the sink is bytes, where its value is.
pub part-IsByte :
    (d : Definitions) (fi : FieldInstance) (v vl : Bytes)
    → IsKnown d fi
    → IsPrefix fi (length v) vl
    → All IsByte v
    → All IsByte (encode_header fi.header ++ (vl ++ (v ++ end_marker fi)))
part-IsByte d fi v vl known p h =
    All-append IsByte (encode_header fi.header) _
      (Shape-IsByte (encode_header-Shape fi.header known.serializable))
      (All-append IsByte vl _ (prefix-IsByte fi (length v) vl p)
        (All-append IsByte v _ h (end_marker-IsByte fi)))
