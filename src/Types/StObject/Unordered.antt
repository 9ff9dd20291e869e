-- ===== src/Types/StObject/Unordered.antt =====
-- A whole object, whose map is visited in another order.
use mathlib.Core.List.{Perm, Permᴰ}
use mathlib.Core.List.Permᴰ
use mathlib.Core.Logic.{∥∥₁_elim}
use xrpl_go.Base.{◌≡◌, refl, sym, ap, ◌∙◌, subst, All, String, List, [], ◌∷◌, Bytes, false}
use xrpl_go.Base.Perms.{All-perm}
use xrpl_go.Base.Results.{Result, ok, ◌>>=◌, bind-ok}
use xrpl_go.Definitions.{Definitions, get_field_instance_by_field_name}
use xrpl_go.Address.Hash.{Hashes}
use xrpl_go.Address.Errors.{done}
use xrpl_go.Address.XAddress.{is_valid_x_address}
use xrpl_go.Types.Errors.{CodecError, from_definitions}
use xrpl_go.Types.Value.{
  Value, integer, float64, null, other, string, named_string, strings, array, objects, object,
  string_map,
}
use xrpl_go.Types.Fields.{Types, parse_special_fields}
use xrpl_go.Types.StObject.{
  Field, Entry, Overrides, get_sorted_keys, write_fields, process_string, process_x_addresses,
  field_instances, create_field_instance_map_from_json, object_bytes,
}
use xrpl_go.Serdes.Serializer.{get_sink}
use xrpl_go.Types.StObject.Order.{OrdinalsDiffer, sorted_same, result_set}

module _ (d : Definitions) where
  -- One entry of the map as a field.
  field_instance : Entry → Result CodecError Field
  field_instance e = from_definitions (get_field_instance_by_field_name d e.0) >>= λ fi.
      parse_special_fields d e.0 e.1 >>= λ v. ok (fi, v)

  field_instances-cons :
      (e : Entry) (m : List Entry) (fs : List Field)
      → field_instances d (e ∷ m) ≡ ok fs
      → (f : Field) × (gs : List Field) × (field_instance e ≡ ok f)
        × (field_instances d m ≡ ok gs)
        × (f ∷ gs ≡ fs)
  unfolding field_instances field_instance
  field_instances-cons (k, w) m fs h =
      let (fi, found, h1) =
        bind-ok (from_definitions (get_field_instance_by_field_name d k)) _ fs h in
      let (v, special, h2) = bind-ok (parse_special_fields d k w) _ fs h1 in
      let (gs, below, h3) = bind-ok (field_instances d m) _ fs h2 in
      let q : (fi, v) ∷ gs ≡ fs = cc in ((fi, v), gs, rw (found, special), below, q)

  cons-field_instances :
      (e : Entry) (m : List Entry) (f : Field) (gs : List Field)
      → field_instance e ≡ ok f
      → field_instances d m ≡ ok gs
      → field_instances d (e ∷ m) ≡ ok (f ∷ gs)
  unfolding field_instances field_instance
  cons-field_instances (k, w) m f gs h below =
      let (fi, found, h1) =
        bind-ok (from_definitions (get_field_instance_by_field_name d k)) _ f h in
      let (v, special, h2) = bind-ok (parse_special_fields d k w) _ f h1 in
      let q : (fi, v) ≡ f = cc in rw (found, special, below) (ap (λ x. ok (x ∷ gs)) q)

  -- The fields of the entries in another order are the fields in another order.
  field_instances-perm :
      {m n : List Entry}
      → Permᴰ m n
      → (fs : List Field) → field_instances d m ≡ ok fs
      → (gs : List Field) × (field_instances d n ≡ ok gs) × Permᴰ fs gs
  field_instances-perm Permᴰ.nil fs h = (fs, h, Permᴰ.refl fs)
  field_instances-perm (Permᴰ.cons {a = a} {b = b} {l₁ = l} {l₂ = m} e p) fs h =
      let (f, gs, made, below, q) = field_instances-cons a l fs h in
      let (gs', below', p') = field_instances-perm p gs below in
      (
        f ∷ gs',
        cons-field_instances b m f gs' (subst (λ x. field_instance x ≡ ok f) e made) below',
        subst (λ x. Permᴰ x (f ∷ gs')) q (Permᴰ.cons refl p'),
      )
  field_instances-perm (Permᴰ.swap {a = a} {b = b} {a' = a'} {b' = b'} {l = l} e e') fs h =
      let (f, fs1, made, h1, q) = field_instances-cons a (b ∷ l) fs h in
      let (g, gs, made', h2, q') = field_instances-cons b l fs1 h1 in
      (
        g ∷ f ∷ gs,
        cons-field_instances a' (b' ∷ l) g (f ∷ gs) (subst (λ x. field_instance x ≡ ok g) e' made')
            (cons-field_instances b' l f gs (subst (λ x. field_instance x ≡ ok f) e made) h2),
        subst (λ x. Permᴰ x (g ∷ f ∷ gs)) (ap (λ l. f ∷ l) q' ∙ q) (Permᴰ.swap refl refl),
      )
  field_instances-perm (Permᴰ.trans p p') fs h =
      let (gs, h', q) = field_instances-perm p fs h in
      let (ks, h'', q') = field_instances-perm p' gs h' in (ks, h'', Permᴰ.trans q q')

module _ (hashes : Hashes) where
  -- No string of the object is an X-address.
  abbrev IsClassic : Value → Type 0
  IsClassic (string s) = is_valid_x_address hashes s ≡ done false
  IsClassic _ = Unit

  abbrev pub HasNoXAddress : List Entry → Type 0
  HasNoXAddress m = All (λ e. IsClassic e.1) m

  process_classic :
      (k : String) (s : Bytes) (processed : List Entry)
      → is_valid_x_address hashes s ≡ done false
      → process_string hashes k s processed ≡ ok processed
  unfolding process_string
  process_classic k s processed h = rw h

  -- Without X-addresses the first pass changes nothing.
  pub process_x_addresses_classic :
      (m processed : List Entry)
      → HasNoXAddress m
      → process_x_addresses hashes m processed ≡ ok processed
  unfolding process_x_addresses
  process_x_addresses_classic [] processed h = refl
  process_x_addresses_classic ((k, string s) ∷ m) processed (h, hs) =
      rw (process_classic k s processed h) (process_x_addresses_classic m processed hs)
  process_x_addresses_classic ((k, null) ∷ m) processed (h, hs) =
      process_x_addresses_classic m processed hs
  process_x_addresses_classic ((k, other) ∷ m) processed (h, hs) =
      process_x_addresses_classic m processed hs
  process_x_addresses_classic ((k, named_string s) ∷ m) processed (h, hs) =
      process_x_addresses_classic m processed hs
  process_x_addresses_classic ((k, integer t v) ∷ m) processed (h, hs) =
      process_x_addresses_classic m processed hs
  process_x_addresses_classic ((k, float64 v) ∷ m) processed (h, hs) =
      process_x_addresses_classic m processed hs
  process_x_addresses_classic ((k, strings v) ∷ m) processed (h, hs) =
      process_x_addresses_classic m processed hs
  process_x_addresses_classic ((k, array v) ∷ m) processed (h, hs) =
      process_x_addresses_classic m processed hs
  process_x_addresses_classic ((k, objects v) ∷ m) processed (h, hs) =
      process_x_addresses_classic m processed hs
  process_x_addresses_classic ((k, string_map v) ∷ m) processed (h, hs) =
      process_x_addresses_classic m processed hs
  process_x_addresses_classic ((k, object v) ∷ m) processed (h, hs) =
      process_x_addresses_classic m processed hs

module _ (d : Definitions) (types : Types) (hashes : Hashes) (overrides : Overrides) where
  pub object_bytes_classic :
      (m : List Entry) (fs : List Field)
      → HasNoXAddress hashes m
      → field_instances d m ≡ ok fs
      → object_bytes d types hashes overrides m
        ≡ (write_fields d types overrides (get_sorted_keys fs) [] >>= λ sink. ok sink)
  unfolding object_bytes create_field_instance_map_from_json get_sink
  object_bytes_classic m fs plain h = rw (process_x_addresses_classic hashes m m plain, h)

-- The order in which Go visits the map of an object changes nothing: an object without X-addresses
-- whose names are known, with fields of different ordinals, is serialized to the same bytes, or fails
-- in the same way, when its members come in any other order.
pub object_bytes-unordered :
    (d : Definitions) (types : Types) (hashes : Hashes) (overrides : Overrides) (m n : List Entry)
    (fs : List Field)
    → Perm m n
    → HasNoXAddress hashes m
    → field_instances d m ≡ ok fs
    → OrdinalsDiffer fs
    → object_bytes d types hashes overrides m ≡ object_bytes d types hashes overrides n
object_bytes-unordered d types hashes overrides m n fs p plain h differ =
    ∥∥₁_elim p (result_set _ _) same
  where
    same :
        Permᴰ m n
        → object_bytes d types hashes overrides m ≡ object_bytes d types hashes overrides n
    same q =
        let (gs, h', q') = field_instances-perm d q fs h in
        object_bytes_classic d types hashes overrides m fs plain h
        ∙ ap (λ l. write_fields d types overrides l [] >>= λ sink. ok sink) (sorted_same q' differ)
        ∙ sym (
            object_bytes_classic d types hashes overrides n gs
              (All-perm (λ e. IsClassic hashes e.1) q plain) h')
