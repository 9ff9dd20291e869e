-- ===== src/Types/Depth/Shallow.antt =====
-- How deep the fields of an object are: no deeper than the members that they were made of.
use xrpl_go.Base.{
  ℕ, ◌^◌, ◌≤◌, ◌≡◌, subst, inl, inr, All, String, List, [], ◌∷◌, Bytes, Bool, Bool-cases, true,
  false, arith,
}
use text.Mathlib.Text.{◌==◌}
use xrpl_go.Base.Int.{ℤ, pos}
use xrpl_go.Base.Words.{pattern_of}
use mathlib.Core.List.Permᴰ
use xrpl_go.Base.Assoc.{string_eq, lookup, insert, insert-All}
use xrpl_go.Base.Perms.{All-perm}
use xrpl_go.Base.Results.{Result, ok, err, ◌>>=◌, bind-ok, guard}
use xrpl_go.Definitions.{Definitions, DefinitionsError, get_field_instance_by_field_name}
use xrpl_go.Address.Hash.{Hashes}
use xrpl_go.Address.XAddress.{XAddress, is_valid_x_address, x_address_to_classic_address}
use xrpl_go.Types.Errors.{CodecError, from_definitions, from_address, duplicate_x_address_tag}
use xrpl_go.Types.Value.{
  Value, integer, uint32, float64, null, other, string, named_string, strings, array, objects,
  object, string_map, Members, no_members, member, depth, depth_members, entries,
}
use xrpl_go.Types.Fields.{parse_special_fields, named_permission, permission_number}
use xrpl_go.Types.StObject.{
  Field, Entry, absent, tag_field_name, promote_tag, process_string, process_x_addresses,
  field_instances, create_field_instance_map_from_json, get_sorted_keys,
}
use xrpl_go.Types.StObject.Order.{get_sorted_keys-perm}

-- Every member holds at most this many objects in one another.
abbrev pub IsShallow : ℕ → List Entry → Type 0
IsShallow n m = All (λ e. depth e.1 ≤ n) m

pub entries-IsShallow : (n : ℕ) (m : Members) → depth_members m ≤ n → IsShallow n (entries m)
unfolding depth
entries-IsShallow n no_members h = tt
entries-IsShallow n (member k v m) h = (omega (arith, h), entries-IsShallow n m (omega (arith, h)))

module _ (n : ℕ) where
  promote_tag-IsShallow :
      (k : String) (has_tag : Bool) (tag : ℕ) (m p : List Entry)
      → IsShallow n m
      → promote_tag k has_tag tag m ≡ ok p
      → IsShallow n p
  unfolding promote_tag depth
  promote_tag-IsShallow k false tag m p h e = let q : m ≡ p = cc in subst (IsShallow n) q h
  promote_tag-IsShallow k true tag m p h e =
      let (name, _, e1) = bind-ok (tag_field_name k) _ p e in
      let (_, _, e2) = bind-ok (guard (absent (lookup name m)) duplicate_x_address_tag) _ p e1 in
      let q : insert name (integer uint32 (pos tag)) m ≡ p = cc in
      subst (IsShallow n) q
        (insert-All (λ v. depth v ≤ n) name (integer uint32 (pos tag)) m (omega arith) h)

  module _ (hashes : Hashes) where
    process_string-IsShallow :
        (k : String) (s : Bytes) (m p : List Entry)
        → IsShallow n m
        → process_string hashes k s m ≡ ok p
        → IsShallow n p
    unfolding process_string depth
    process_string-IsShallow k s m p h e =
        let (valid, _, e1) = bind-ok (from_address (is_valid_x_address hashes s)) _ p e in
        by_valid valid e1
      where
        replaced :
            (classic : Bytes) (x : XAddress)
            → promote_tag k x.has_tag x.tag (insert k (string classic) m) ≡ ok p
            → IsShallow n p
        replaced classic x e =
            promote_tag-IsShallow k x.has_tag x.tag (insert k (string classic) m) p
              (insert-All (λ v. depth v ≤ n) k (string classic) m (omega arith) h) e

        by_valid :
            (valid : Bool)
            → elim valid [
              | false ↦ ok m
              | true ↦
                  (from_address (x_address_to_classic_address hashes s) >>= λ r.
                  promote_tag k (r.1).has_tag (r.1).tag (insert k (string r.0) m))
            ]
              ≡ ok p
            → IsShallow n p
        by_valid false e = let q : m ≡ p = cc in subst (IsShallow n) q h
        by_valid true e =
            let (r, _, e1) = bind-ok (from_address (x_address_to_classic_address hashes s)) _ p e in
            replaced r.0 r.1 e1

    process_x_addresses-IsShallow :
        (m processed p : List Entry)
        → IsShallow n processed
        → process_x_addresses hashes m processed ≡ ok p
        → IsShallow n p
    unfolding process_x_addresses
    process_x_addresses-IsShallow [] processed p h e =
        let q : processed ≡ p = cc in subst (IsShallow n) q h
    process_x_addresses-IsShallow ((k, string s) ∷ m) processed p h e =
        let (next, e0, e1) = bind-ok (process_string hashes k s processed) _ p e in
        process_x_addresses-IsShallow m next p (process_string-IsShallow k s processed next h e0) e1
    process_x_addresses-IsShallow ((k, null) ∷ m) processed p h e =
        process_x_addresses-IsShallow m processed p h e
    process_x_addresses-IsShallow ((k, other) ∷ m) processed p h e =
        process_x_addresses-IsShallow m processed p h e
    process_x_addresses-IsShallow ((k, named_string s) ∷ m) processed p h e =
        process_x_addresses-IsShallow m processed p h e
    process_x_addresses-IsShallow ((k, integer t v) ∷ m) processed p h e =
        process_x_addresses-IsShallow m processed p h e
    process_x_addresses-IsShallow ((k, float64 v) ∷ m) processed p h e =
        process_x_addresses-IsShallow m processed p h e
    process_x_addresses-IsShallow ((k, strings v) ∷ m) processed p h e =
        process_x_addresses-IsShallow m processed p h e
    process_x_addresses-IsShallow ((k, array v) ∷ m) processed p h e =
        process_x_addresses-IsShallow m processed p h e
    process_x_addresses-IsShallow ((k, objects v) ∷ m) processed p h e =
        process_x_addresses-IsShallow m processed p h e
    process_x_addresses-IsShallow ((k, object v) ∷ m) processed p h e =
        process_x_addresses-IsShallow m processed p h e
    process_x_addresses-IsShallow ((k, string_map v) ∷ m) processed p h e =
        process_x_addresses-IsShallow m processed p h e

permission_shallow :
    (n : ℕ) (r : Result DefinitionsError ℤ) (w : Value) → permission_number r ≡ ok w → depth w ≤ n
unfolding depth
permission_shallow n (ok v) w h =
    let q : integer uint32 (pos (pattern_of (2 ^ 32) v)) ≡ w = cc in
    subst (λ x. depth x ≤ n) q (omega arith)
permission_shallow n (err e) w h = cc

module _ (d : Definitions) (n : ℕ) where
  same_shallow :
      (v w : Value) → depth v ≤ n → Path (Result CodecError Value) (ok v) (ok w) → depth w ≤ n
  same_shallow v w h e = let q : v ≡ w = cc in subst (λ x. depth x ≤ n) q h

  named_shallow : (v w : Value) → depth v ≤ n → named_permission d v ≡ ok w → depth w ≤ n
  named_shallow (string s) w h e = permission_shallow n _ w e
  named_shallow null w h e = same_shallow null w h e
  named_shallow other w h e = same_shallow other w h e
  named_shallow (named_string s) w h e = same_shallow (named_string s) w h e
  named_shallow (integer t v) w h e = same_shallow (integer t v) w h e
  named_shallow (float64 v) w h e = same_shallow (float64 v) w h e
  named_shallow (strings v) w h e = same_shallow (strings v) w h e
  named_shallow (array v) w h e = same_shallow (array v) w h e
  named_shallow (objects v) w h e = same_shallow (objects v) w h e
  named_shallow (object v) w h e = same_shallow (object v) w h e
  named_shallow (string_map v) w h e = same_shallow (string_map v) w h e

  special_shallow :
      (k : String) (v w : Value) → depth v ≤ n → parse_special_fields d k v ≡ ok w → depth w ≤ n
  unfolding parse_special_fields
  special_shallow k v w h e = elim (Bool-cases (k == "PermissionValue")) [
    | inl special ↦ named_shallow v w h (rw special at e)
    | inr plain ↦ same_shallow v w h (rw plain at e)
  ]

  abbrev pub AreShallow : List Field → Type 0
  AreShallow fs = All (λ f. depth f.1 ≤ n) fs

  field_instances-AreShallow :
      (m : List Entry) (fs : List Field)
      → IsShallow n m
      → field_instances d m ≡ ok fs
      → AreShallow fs
  unfolding field_instances
  field_instances-AreShallow [] fs h e =
      let q : Path (List Field) [] fs = cc in subst AreShallow q tt
  field_instances-AreShallow ((k, v) ∷ m) fs (h, hs) e =
      let (fi, _, e1) = bind-ok (from_definitions (get_field_instance_by_field_name d k)) _ fs e in
      let (w, special, e2) = bind-ok (parse_special_fields d k v) _ fs e1 in
      let (rest, below, e3) = bind-ok (field_instances d m) _ fs e2 in
      let q : (fi, w) ∷ rest ≡ fs = cc in
      subst AreShallow q
        (special_shallow k v w h special, field_instances-AreShallow m rest hs below)

  pub created-AreShallow :
      (hashes : Hashes) (m : List Entry) (fs : List Field)
      → IsShallow n m
      → create_field_instance_map_from_json d hashes m ≡ ok fs
      → AreShallow (get_sorted_keys fs)
  unfolding create_field_instance_map_from_json
  created-AreShallow hashes m fs h e =
      let (p, e0, e1) = bind-ok (process_x_addresses hashes m m) _ fs e in
      All-perm (λ f. depth f.1 ≤ n) (Permᴰ.symm (get_sorted_keys-perm fs))
        (field_instances-AreShallow p fs (process_x_addresses-IsShallow n hashes m m p h e0) e1)
