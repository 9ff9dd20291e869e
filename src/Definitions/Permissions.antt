-- ===== src/Definitions/Permissions.antt =====
-- The permission values that `initializePermissions` derives from the transaction types.
use xrpl_go.Base.{
  ◌≡◌, inl, inr, refl, ◌∙◌, ap, List, [], ◌∷◌, String, Option, none, some, Bool-cases,
}
use xrpl_go.Base.Int.{ℤ, pos, ◌+ℤ◌}
use xrpl_go.Base.Words.{int32_of}
use xrpl_go.Base.Assoc.{
  string_eq, lookup, insert, lookup-insert_self, lookup-insert_ne, KeyAbsent, KeysDiffer,
}
use xrpl_go.Base.Results.{from_option}
use xrpl_go.Definitions.{
  DefinitionsDoc, header_eq, load_definitions, add_transaction_permissions,
  initial_granular_permissions, get_delegatable_permission_value_by_name, not_found,
}

lookup-add_permissions_absent :
    (m permissions : List (String × ℤ)) (n : String)
    → KeyAbsent n m
    → lookup n (add_transaction_permissions m permissions) ≡ lookup n permissions
unfolding add_transaction_permissions
lookup-add_permissions_absent [] permissions n a = refl
lookup-add_permissions_absent ((k, c) ∷ m) permissions n (ne, a) =
    lookup-add_permissions_absent m _ n a ∙ lookup-insert_ne k n _ permissions ne

-- A transaction type's code plus one, in an int32, and else the granular permission of that name.
abbrev pub permission_of : Option ℤ → Option ℤ → Option ℤ
permission_of (some code) granular = some (int32_of (code +ℤ pos 1))
permission_of none granular = granular

lookup-add_permissions :
    (m permissions : List (String × ℤ)) (n : String)
    → KeysDiffer m
    → lookup n (add_transaction_permissions m permissions)
      ≡ permission_of (lookup n m) (lookup n permissions)
unfolding add_transaction_permissions lookup
lookup-add_permissions [] permissions n d = refl
lookup-add_permissions ((k, g) ∷ m) permissions n (a, d) = elim (Bool-cases (string_eq.beq k n)) [
  | inl same ↦
      let eq : k ≡ n = (string_eq.beq_iff k n).0 same in
      rw (same, ← eq)
        (lookup-add_permissions_absent m (insert k (int32_of (g +ℤ pos 1)) permissions) k a
          ∙ lookup-insert_self k (int32_of (g +ℤ pos 1)) permissions)
  | inr other ↦
      rw (other, lookup-add_permissions m (insert k (int32_of (g +ℤ pos 1)) permissions) n d)
        (ap (permission_of (lookup n m)) (
          lookup-insert_ne k n (int32_of (g +ℤ pos 1)) permissions
            (λ p. cc (other, (string_eq.beq_iff k n).1 p))))
]

-- In loaded definitions with one code for each transaction type, the permission value of a name is
-- the code of the transaction type of that name plus one, in an int32; for a name that is no transaction type it
-- is the value of the granular permission of that name, and an error if there is none.
pub get_delegatable_permission_value_by_name-loaded :
    (doc : DefinitionsDoc) (n : String)
    → KeysDiffer doc.transaction_types
    → get_delegatable_permission_value_by_name (load_definitions doc) n
      ≡ from_option
          (permission_of (lookup n doc.transaction_types) (lookup n initial_granular_permissions))
          (not_found "DelegatablePermissionName" n)
unfolding load_definitions get_delegatable_permission_value_by_name
get_delegatable_permission_value_by_name-loaded doc n d =
    rw (lookup-add_permissions doc.transaction_types initial_granular_permissions n d)
