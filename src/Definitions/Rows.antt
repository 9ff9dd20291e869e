-- ===== src/Definitions/Rows.antt =====
-- What loading makes of one row of the document: the header and the ordinal.
use xrpl_go.Base.{
  ℕ, ◌+◌, ◌*◌, ◌^◌, ◌<◌, ◌≡◌, inl, inr, refl, ◌∙◌, List, [], ◌∷◌, String, some, arith, Bool-cases,
}
use xrpl_go.Base.Int.{ℤ, pos}
use xrpl_go.Base.Bits.{bit_or_shifted}
use xrpl_go.Base.Assoc.{
  string_eq, lookup, insert, lookup-insert_self, lookup-insert_ne, lookup-cons_cases, lookup-nil,
  KeyAbsent, KeysDiffer,
}
use xrpl_go.Base.Results.{ok}
use xrpl_go.Definitions.{
  FieldInfo, FieldInstance, DefinitionsDoc, header_eq, load_definitions,
  convert_to_field_instance_map, add_field_headers_and_ordinals, with_header, type_code_or_zero,
  ordinal_of, get_field_header_by_field_name, zero_header,
}

abbrev Fields : Type 0
Fields = List (String × FieldInstance)

-- For a type code below 2^15 and a field code below 2^16 the ordinal is the number whose high half
-- is the type code and whose low half is the field code, so fields are ordered by type code first
-- and by field code among equal type codes.
pub ordinal_of_value :
    (t n : ℕ) → t < 2 ^ 15 → n < 2 ^ 16 → ordinal_of (pos t) (pos n) ≡ pos (t * 2 ^ 16 + n)
unfolding ordinal_of
ordinal_of_value t n ht hn = ground (arith, bit_or_shifted 16 t n hn)

lookup-add_field_headers :
    (types : List (String × ℤ)) (n : String) (fi : FieldInstance) (m : Fields)
    → lookup n m ≡ some fi
    → lookup n (add_field_headers_and_ordinals types m) ≡ some (with_header types fi)
unfolding lookup add_field_headers_and_ordinals
lookup-add_field_headers types n fi [] e = cc
lookup-add_field_headers types n fi ((k, g) ∷ m) e = elim (Bool-cases (string_eq.beq k n)) [
  | inl same ↦ let q : some g ≡ some fi = rw same at e in rw same (cc)
  | inr other ↦ rw other (lookup-add_field_headers types n fi m (rw other at e))
]

lookup-convert_absent :
    (rows : List (String × FieldInfo)) (n : String) (nm : Fields)
    → KeyAbsent n rows
    → lookup n (convert_to_field_instance_map rows nm) ≡ lookup n nm
unfolding convert_to_field_instance_map
lookup-convert_absent [] n nm a = refl
lookup-convert_absent ((k, fi) ∷ rows) n nm (ne, a) =
    lookup-convert_absent rows n _ a ∙ lookup-insert_ne k n _ nm ne

-- The instance that loading makes of one row of the document.
abbrev from_row : String → FieldInfo → FieldInstance
from_row n fi = record { field_name = n; info = fi; header = zero_header; ordinal = fi.nth }

lookup-convert :
    (rows : List (String × FieldInfo)) (n : String) (fi : FieldInfo) (nm : Fields)
    → KeysDiffer rows
    → lookup n rows ≡ some fi
    → lookup n (convert_to_field_instance_map rows nm) ≡ some (from_row n fi)
unfolding convert_to_field_instance_map
lookup-convert [] n fi nm d e = absurd (lookup-nil n fi e)
lookup-convert ((k, g) ∷ rows) n fi nm (a, d) e = elim (lookup-cons_cases n k g fi rows e) [
  | inl (same, eq) ↦
      rw (← eq, ← same)
        (lookup-convert_absent rows k (insert k (from_row k g) nm) a
          ∙ lookup-insert_self k (from_row k g) nm)
  | inr (other, later) ↦ lookup-convert rows n fi (insert k (from_row k g) nm) d later
]

-- For a document with one row for each field name, the header that a loaded field has is the code
-- of its row's type, or 0 if the document does not list that type, with its row's `nth`.
pub get_field_header_by_field_name-loaded :
    (doc : DefinitionsDoc) (n : String) (fi : FieldInfo)
    → KeysDiffer doc.fields
    → lookup n doc.fields ≡ some fi
    → get_field_header_by_field_name (load_definitions doc) n
      ≡ ok (record { type_code = type_code_or_zero doc.types fi.type; field_code = fi.nth })
unfolding load_definitions get_field_header_by_field_name with_header
get_field_header_by_field_name-loaded doc n fi d e =
    rw (
      lookup-add_field_headers doc.types n (from_row n fi) _
        (lookup-convert doc.fields n fi [] d e))
