-- ===== src/Types/Named.antt =====
-- The type of a transaction, written by its name and read as a name.
use xrpl_go.Base.{
  ℕ, ◌%◌, ◌^◌, ◌≤◌, ◌≡◌, refl, sym, ap, subst, ◌∙◌, inl, inr, All, String, List, [], ◌∷◌, ◌++◌,
  Bytes, Bool-cases, IsByte, codes, false, some, length, if◌then◌else◌, arith,
}
use text.Mathlib.Text.{◌==◌}
use xrpl_go.Base.Int.{ℤ, pos, eqb_ℤ}
use xrpl_go.Base.Words.{put_be, int32_of, pattern_of, put_be-IsByte}
use xrpl_go.Base.Assoc.{string_eq, lookup, KeysDiffer}
use xrpl_go.Base.Results.{ok, bind-ok}
use xrpl_go.Definitions.{
  Definitions, name_of_code, get_transaction_type_code_by_transaction_type_name,
  get_transaction_type_name_by_transaction_type_code,
}
use xrpl_go.Definitions.Codes.{name_of_code-found, lookup-name_of_code}
use xrpl_go.Serdes.Field.{end_marker}
use xrpl_go.Types.Errors.{uint16_out_of_range}
use xrpl_go.Types.Value.{Value, string, named_string, integer, int, name_of, name_of-codes}
use xrpl_go.Types.Reader.{read_as-append}
use xrpl_go.Types.Law.{SerializedType}
use xrpl_go.Types.Fields.{Types, enum_to_str, read_value}
use xrpl_go.Types.Integers.{
  check_range, type_code_of, uint16_named, uint16_from_json, uint16_to_json,
}
use xrpl_go.Types.Integers.RoundTrip.{check_range-ok, natural, get_be_of}
use xrpl_go.Types.StObject.{Field}
use xrpl_go.Types.StObject.ReadBack.{FieldReads}
use xrpl_go.Types.Registry.{plain_type}
use xrpl_go.Types.Readable.{SameBytes, read_value_lem, encode_field_value_lem}

-- A string, or one of a type of its own as `transaction.TxType`.
pub data IsText (s : Bytes) : Value → Type 0 where
  plain_text : IsText s (string s)
  typed_text : IsText s (named_string s)

-- The field for the type of a transaction, with a name that the definitions know.
pub record IsTypeField (d : Definitions) (f : Field) : Type 0 where
  pub named : (f.0).field_name ≡ "TransactionType"
  pub typed : (f.0).info.type ≡ "UInt16"
  pub fixed : (f.0).info.is_vl_encoded ≡ false
  pub name : Bytes
  pub is_text : IsText name f.1
  pub code : ℤ
  pub found : lookup (name_of name) d.transaction_types ≡ some code

-- The names of transaction types differ, and are texts of one byte for each character.
pub record HasTypeNames (d : Definitions) : Type 0 where
  pub differ : KeysDiffer d.transaction_types
  pub bytes : All (λ (e : String × ℤ). All IsByte (codes e.0)) d.transaction_types

module _ (d : Definitions) where
  type_code_found :
      (s : Bytes) (c : ℤ)
      → lookup (name_of s) d.transaction_types ≡ some c
      → type_code_of d s ≡ ok c
  unfolding type_code_of get_transaction_type_code_by_transaction_type_name
  type_code_found s c h = rw (h, type_code_of) refl

  -- A name is written as its code.
  pub named_as_code :
      (s : Bytes) (v : Value) (c : ℤ)
      → IsText s v
      → lookup (name_of s) d.transaction_types ≡ some c
      → uint16_from_json d v ≡ uint16_from_json d (integer int c)
  unfolding uint16_from_json
  named_as_code s _ c plain_text h = rw (type_code_found s c h, uint16_named) refl
  named_as_code s _ c typed_text h = rw (type_code_found s c h, uint16_named) refl

  code_written :
      (c : ℤ) (b : Bytes)
      → uint16_from_json d (integer int c) ≡ ok b
      → (k : ℕ) × (c ≡ pos k) × (k ≤ 65535) × (put_be 2 (k % 2 ^ 16) ≡ b)
  unfolding uint16_from_json
  code_written c b h =
      let (m, r, e) = bind-ok (check_range (pos 0) (pos 65535) uint16_out_of_range c) _ b h in
      let (same, lo, up) = check_range-ok (pos 0) (pos 65535) uint16_out_of_range c m r in
      let (k, q, small) = natural m 65535 lo up in
      (
        k,
        same ∙ q,
        small,
        subst (λ x. put_be 2 (pattern_of (2 ^ 16) x) ≡ b) q
            (let r : put_be 2 (pattern_of (2 ^ 16) m) ≡ b = cc in r),
      )

  enum_type :
      (k : ℕ) (name : String)
      → k ≤ 65535
      → name_of_code (pos k) d.transaction_types ≡ some name
      → enum_to_str d "TransactionType" (integer int (pos k)) ≡ ok (string (codes name))
  unfolding enum_to_str get_transaction_type_name_by_transaction_type_code
  enum_type k name small h =
      let small_int : int32_of (pos k) ≡ pos k = ground arith in rw small_int (rw h)

  name-IsByte :
      (m : List (String × ℤ)) (c : ℤ) (name : String)
      → All (λ (e : String × ℤ). All IsByte (codes e.0)) m
      → name_of_code c m ≡ some name
      → All IsByte (codes name)
  unfolding name_of_code
  name-IsByte [] c name h e = cc
  name-IsByte ((n, x) ∷ m) c name (h, hs) e = elim (Bool-cases (eqb_ℤ x c)) [
    | inl same ↦
        let q : n ≡ name = let r : some n ≡ some name = rw same at e in cc in
        subst (λ t. All IsByte (codes t)) q h
    | inr other ↦ name-IsByte m c name hs (rw other at e)
  ]

  -- The code of a known name is read as a name of that code.
  code_read :
      (c : ℤ) (n : String) (b rest : Bytes)
      → HasTypeNames d
      → lookup n d.transaction_types ≡ some c
      → uint16_from_json d (integer int c) ≡ ok b
      → (name : String) × (k : ℕ) × (uint16_to_json (b ++ rest) ≡ (ok (integer int (pos k)), rest))
        × (enum_to_str d "TransactionType" (integer int (pos k)) ≡ ok (string (codes name)))
        × (uint16_from_json d (string (codes name)) ≡ ok b)
        × All IsByte b
  unfolding uint16_to_json
  code_read c n b rest names found made =
      let (k, q, small, w) = code_written c b made in
      let (name, back) = name_of_code-found d.transaction_types n c found in
      let bytes = name-IsByte d.transaction_types c name names.bytes back in
      let pattern : k % 2 ^ 16 ≡ k = omega arith in
      let (value, size) = get_be_of 2 (k % 2 ^ 16) b (omega arith) w in
      let again : lookup (name_of (codes name)) d.transaction_types ≡ some c =
        ap (λ t. lookup t d.transaction_types) (name_of-codes name bytes)
        ∙ lookup-name_of_code d.transaction_types name c names.differ back in
      (
        name,
        k,
        read_as-append 2 _ b rest size
            ∙ ap (λ (x : ℕ). (ok (integer int (pos x)), rest)) (value ∙ pattern),
        enum_type k name small (ap (λ x. name_of_code x d.transaction_types) (sym q) ∙ back),
        named_as_code (codes name) (string (codes name)) c plain_text again ∙ made,
        subst (All IsByte) w (put_be-IsByte 2 _),
      )

abbrev pub uint16_type : Definitions → SerializedType
uint16_type d = plain_type (uint16_from_json d) (λ opts. uint16_to_json)

-- The type of a transaction is read back as a name with the same bytes.
pub type-FieldReads :
    (d : Definitions) (types : Types) (bound : ℕ) (f : Field)
    → HasTypeNames d
    → types "UInt16" ≡ some (uint16_type d)
    → IsTypeField d f
    → FieldReads d types bound (SameBytes types) f
type-FieldReads d types bound f names typed k b vl rest made p within =
    let at_type : types (f.0).info.type ≡ some (uint16_type d) = ap types k.typed ∙ typed in
    let encoded = encode_field_value_lem d types f.0 (uint16_type d) in
    let as_code : uint16_from_json d (integer int k.code) ≡ ok b =
      sym (named_as_code d k.name f.1 k.code k.is_text k.found)
      ∙ (sym (encoded f.1 at_type) ∙ made) in
    let (name, code, read, enum, back, bytes) =
      code_read d k.code (name_of k.name) b rest names k.found as_code in
    let no_marker : end_marker f.0 ≡ [] =
      ap (λ t. if t == "STObject" then 0xE1 ∷ [] else []) k.typed in
    (
      string (codes name),
      ap (λ m. read_value d types f.0 (vl ++ (b ++ (m ++ rest)))) no_marker
          ∙ read_value_lem d types f.0 (uint16_type d) (integer int (pos code))
              (string (codes name)) rest (length b) vl (b ++ rest) at_type
              (ap (λ t. enum_to_str d t (integer int (pos code))) k.named ∙ enum) p read,
      (b, made, encoded (string (codes name)) at_type ∙ back),
      bytes,
    )
