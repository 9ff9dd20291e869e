-- ===== src/Definitions.antt =====
-- binary-codec/definitions: the field and type tables of the codec, how they are loaded, and the
-- lookups on them. The rows that the JSON document decodes to are an argument of the loader. The
-- package has one instance, so `GetFieldNameByFieldHeader`, which reads the singleton, reads its
-- receiver here.
use Prim.Native.Nat.{bit_or}
use xrpl_go.Base.{
  ℕ, ◌+◌, ◌*◌, ◌^◌, ◌≡◌, refl, ◌↔◌, Bool, true, false, ◌&&◌, List, [], ◌∷◌, ◌++◌, map, String,
  arith, Option, none, some, if◌then◌else◌, ◌==◌,
}
use xrpl_go.Base.Int.{ℤ, pos, negsuc, ◌+ℤ◌, eqb_ℤ}
use xrpl_go.Base.Words.{pattern_of, signed_of, int32_of}
use xrpl_go.Base.Assoc.{Eq, string_eq, lookup, insert}
use xrpl_go.Base.Results.{Result, ok, err, ◌>>=◌, from_option}
pub mod Names
pub mod Rows
pub mod Codes
pub mod Permissions

pub record FieldHeader : Type 0 where
  pub type_code : ℤ
  pub field_code : ℤ

pub record FieldInfo : Type 0 where
  pub nth : ℤ
  pub is_vl_encoded : Bool
  pub is_serialized : Bool
  pub is_signing_field : Bool
  pub type : String

-- The embedded `*FieldInfo` and `*FieldHeader` are values: nothing shares or writes them after
-- loading.
pub record FieldInstance : Type 0 where
  pub field_name : String
  pub info : FieldInfo
  pub header : FieldHeader
  pub ordinal : ℤ

pub record Definitions : Type 0 where
  pub types : List (String × ℤ)
  pub ledger_entry_types : List (String × ℤ)
  pub fields : List (String × FieldInstance)
  pub transaction_results : List (String × ℤ)
  pub transaction_types : List (String × ℤ)
  pub field_id_name_map : List (FieldHeader × String)
  pub granular_permissions : List (String × ℤ)
  pub delegatable_permissions : List (String × ℤ)

-- `NotFoundError`, `NotFoundErrorInt` and `NotFoundErrorFieldHeader`, with their instance and input.
pub data DefinitionsError : Type 0 where
  not_found : String → String → DefinitionsError
  not_found_int : String → ℤ → DefinitionsError
  not_found_field_header : FieldHeader → DefinitionsError

abbrev pub beq_header : FieldHeader → FieldHeader → Bool
beq_header a b = eqb_ℤ a.type_code b.type_code && eqb_ℤ a.field_code b.field_code

pub beq_header_iff : (a b : FieldHeader) → (beq_header a b ≡ true) ↔ (a ≡ b)
beq_header_iff a b = ground arith

instance abbrev pub header_eq : Eq FieldHeader
header_eq = record { beq = beq_header; beq_iff = beq_header_iff }

-- `CreateFieldHeader`
unfoldable pub create_field_header : ℤ → ℤ → FieldHeader
create_field_header tc fc = record { type_code = tc; field_code = fc }

abbrev zero_header : FieldHeader
zero_header = record { type_code = pos 0; field_code = pos 0 }

-- `convertToFieldInstanceMap`: the ordinal is `nth` until `addFieldHeadersAndOrdinals` runs.
unfoldable pub convert_to_field_instance_map :
    List (String × FieldInfo) → List (String × FieldInstance) → List (String × FieldInstance)
unfolding insert
convert_to_field_instance_map [] nm = nm
convert_to_field_instance_map ((k, fi) ∷ m) nm =
    convert_to_field_instance_map m
      (insert k (record { field_name = k; info = fi; header = zero_header; ordinal = fi.nth }) nm)

-- `t<<16 | nth` in int32.
unfoldable pub ordinal_of : ℤ → ℤ → ℤ
ordinal_of t nth =
    signed_of (2 ^ 32) (
      bit_or (pattern_of (2 ^ 32) (pos (pattern_of (2 ^ 32) t * 2 ^ 16))) (pattern_of (2 ^ 32) nth))

-- `t, _ := GetTypeCodeByTypeName(..)`: an unknown type has code 0.
unfoldable pub type_code_or_zero : List (String × ℤ) → String → ℤ
unfolding lookup
type_code_or_zero types n = elim (lookup n types) [ none ↦ pos 0 | some t ↦ t ]

unfoldable pub with_header : List (String × ℤ) → FieldInstance → FieldInstance
unfolding type_code_or_zero ordinal_of
with_header types fi =
    let t = type_code_or_zero types fi.info.type in
    record fi {
      header = record { type_code = t; field_code = fi.info.nth };
      ordinal = ordinal_of t fi.info.nth;
    }

unfoldable pub add_field_headers_and_ordinals :
    List (String × ℤ) → List (String × FieldInstance) → List (String × FieldInstance)
unfolding with_header
add_field_headers_and_ordinals types [] = []
add_field_headers_and_ordinals types ((k, fi) ∷ m) =
    (k, with_header types fi) ∷ add_field_headers_and_ordinals types m

unfoldable pub create_field_id_name_map :
    List (String × FieldInstance) → List (FieldHeader × String) → List (FieldHeader × String)
unfolding insert
create_field_id_name_map [] names = names
create_field_id_name_map ((k, fi) ∷ m) names = create_field_id_name_map m (insert fi.header k names)

abbrev pub initial_granular_permissions : List (String × ℤ)
initial_granular_permissions =
    ("TrustlineAuthorize", pos 65537)
    ∷ ("TrustlineFreeze", pos 65538)
    ∷ ("TrustlineUnfreeze", pos 65539)
    ∷ ("AccountDomainSet", pos 65540)
    ∷ ("AccountEmailHashSet", pos 65541)
    ∷ ("AccountMessageKeySet", pos 65542)
    ∷ ("AccountTransferRateSet", pos 65543)
    ∷ ("AccountTickSizeSet", pos 65544)
    ∷ ("PaymentMint", pos 65545)
    ∷ ("PaymentBurn", pos 65546)
    ∷ ("MPTokenIssuanceLock", pos 65547)
    ∷ ("MPTokenIssuanceUnlock", pos 65548)
    ∷ []

-- The loop over the transaction types, whose codes are shifted by one.
unfoldable pub add_transaction_permissions :
    List (String × ℤ) → List (String × ℤ) → List (String × ℤ)
unfolding insert ◌+ℤ◌
add_transaction_permissions [] permissions = permissions
add_transaction_permissions ((tx_type, value) ∷ m) permissions =
    add_transaction_permissions m (insert tx_type (int32_of (value +ℤ pos 1)) permissions)

-- The document, as the JSON decoder delivers it.
pub record DefinitionsDoc : Type 0 where
  pub types : List (String × ℤ)
  pub ledger_entry_types : List (String × ℤ)
  pub fields : List (String × FieldInfo)
  pub transaction_results : List (String × ℤ)
  pub transaction_types : List (String × ℤ)

-- `loadDefinitions`
unfoldable pub load_definitions : DefinitionsDoc → Definitions
unfolding convert_to_field_instance_map add_field_headers_and_ordinals create_field_id_name_map
    add_transaction_permissions
load_definitions doc =
    let fields =
      add_field_headers_and_ordinals doc.types (convert_to_field_instance_map doc.fields []) in
    record {
      types = doc.types;
      ledger_entry_types = doc.ledger_entry_types;
      fields = fields;
      transaction_results = doc.transaction_results;
      transaction_types = doc.transaction_types;
      field_id_name_map = create_field_id_name_map fields [];
      granular_permissions = initial_granular_permissions;
      delegatable_permissions =
          add_transaction_permissions doc.transaction_types initial_granular_permissions;
    }

module _ (d : Definitions) where
  -- `GetFieldInstanceByFieldName`
  unfoldable pub get_field_instance_by_field_name : String → Result DefinitionsError FieldInstance
  unfolding lookup
  get_field_instance_by_field_name n = from_option (lookup n d.fields) (not_found "FieldName" n)

  unfoldable pub get_type_name_by_field_name : String → Result DefinitionsError String
  unfolding get_field_instance_by_field_name
  get_type_name_by_field_name n = do fi ← get_field_instance_by_field_name n; ok fi.info.type

  unfoldable pub get_type_code_by_type_name : String → Result DefinitionsError ℤ
  unfolding lookup
  get_type_code_by_type_name n = from_option (lookup n d.types) (not_found "TypeName" n)

  -- The second lookup is `d.Types[typeName]`, which gives 0 for a missing type.
  unfoldable pub get_type_code_by_field_name : String → Result DefinitionsError ℤ
  unfolding get_type_name_by_field_name type_code_or_zero
  get_type_code_by_field_name n = do
    type_name ← get_type_name_by_field_name n
    ok (type_code_or_zero d.types type_name)

  unfoldable pub get_field_code_by_field_name : String → Result DefinitionsError ℤ
  unfolding get_field_instance_by_field_name
  get_field_code_by_field_name n = do fi ← get_field_instance_by_field_name n; ok fi.info.nth

  unfoldable pub get_field_header_by_field_name : String → Result DefinitionsError FieldHeader
  unfolding get_field_instance_by_field_name
  get_field_header_by_field_name n = do fi ← get_field_instance_by_field_name n; ok fi.header

  unfoldable pub get_field_name_by_field_header : FieldHeader → Result DefinitionsError String
  unfolding lookup
  get_field_name_by_field_header fh =
      from_option (lookup fh d.field_id_name_map) (not_found_field_header fh)

  unfoldable pub get_field_info_by_field_name : String → Result DefinitionsError FieldInfo
  unfolding get_field_instance_by_field_name
  get_field_info_by_field_name n = do fi ← get_field_instance_by_field_name n; ok fi.info

-- `for name, code := range m { if code == c { return name } }`
unfoldable pub name_of_code : ℤ → List (String × ℤ) → Option String
name_of_code c [] = none
name_of_code c ((name, code) ∷ m) = if eqb_ℤ code c then some name else name_of_code c m

module _ (d : Definitions) where
  unfoldable pub get_transaction_type_code_by_transaction_type_name :
      String → Result DefinitionsError ℤ
  unfolding lookup
  get_transaction_type_code_by_transaction_type_name n =
      from_option (lookup n d.transaction_types) (not_found "TransactionTypeName" n)

  unfoldable pub get_transaction_type_name_by_transaction_type_code :
      ℤ → Result DefinitionsError String
  unfolding name_of_code
  get_transaction_type_name_by_transaction_type_code c =
      from_option (name_of_code c d.transaction_types) (not_found_int "TransactionTypeCode" c)

  unfoldable pub get_transaction_result_name_by_transaction_result_type_code :
      ℤ → Result DefinitionsError String
  unfolding name_of_code
  get_transaction_result_name_by_transaction_result_type_code c =
      from_option (name_of_code c d.transaction_results)
        (not_found_int "TransactionResultTypeCode" c)

  unfoldable pub get_transaction_result_type_code_by_transaction_result_name :
      String → Result DefinitionsError ℤ
  unfolding lookup
  get_transaction_result_type_code_by_transaction_result_name n =
      from_option (lookup n d.transaction_results) (not_found "TransactionResultName" n)

  unfoldable pub get_ledger_entry_type_code_by_ledger_entry_type_name :
      String → Result DefinitionsError ℤ
  unfolding lookup
  get_ledger_entry_type_code_by_ledger_entry_type_name n =
      from_option (lookup n d.ledger_entry_types) (not_found "LedgerEntryTypeName" n)

  unfoldable pub get_ledger_entry_type_name_by_ledger_entry_type_code :
      ℤ → Result DefinitionsError String
  unfolding name_of_code
  get_ledger_entry_type_name_by_ledger_entry_type_code c =
      from_option (name_of_code c d.ledger_entry_types) (not_found_int "LedgerEntryTypeCode" c)

  unfoldable pub get_delegatable_permission_value_by_name : String → Result DefinitionsError ℤ
  unfolding lookup
  get_delegatable_permission_value_by_name n =
      from_option (lookup n d.delegatable_permissions) (not_found "DelegatablePermissionName" n)

  unfoldable pub get_delegatable_permission_name_by_value : ℤ → Result DefinitionsError String
  unfolding name_of_code
  get_delegatable_permission_name_by_value v =
      from_option (name_of_code v d.delegatable_permissions)
        (not_found_int "DelegatablePermissionValue" v)
