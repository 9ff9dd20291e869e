-- ===== src/Serdes/Append.antt =====
-- `WriteFieldAndValue` only adds to its sink: the identifier, the length, the value and the marker.
use xrpl_go.Base.{
  ℕ, ◌≡◌, ◌⊎◌, refl, sym, ap, ◌∙◌, [], ◌++◌, append_assoc, Bool-cases, inl, inr, Bytes, length,
  true, false,
}
use xrpl_go.Base.Results.{Result, ok, err, Result-cases}
use xrpl_go.Definitions.{Definitions, FieldInstance}
use xrpl_go.Serdes.Errors.{SerdesError}
use xrpl_go.Serdes.FieldId.{encode}
use xrpl_go.Serdes.Serializer.{put, put_value, encode_variable_length, write_field_and_value}
use xrpl_go.Serdes.Field.{end_marker, put_value_vl, put_value_plain}

-- What stands in front of a value of this length: its length, or nothing.
abbrev pub IsPrefix : FieldInstance → ℕ → Bytes → Type 0
IsPrefix fi n vl =
    ((fi.info.is_vl_encoded ≡ true) × (encode_variable_length n ≡ ok vl))
    ⊎ ((fi.info.is_vl_encoded ≡ false) × (vl ≡ []))

module _ (fi : FieldInstance) (value : Bytes) where
  put_value_prefixed :
      (vl sink : Bytes)
      → IsPrefix fi (length value) vl
      → put_value fi value sink ≡ (ok tt, sink ++ (vl ++ (value ++ end_marker fi)))
  put_value_prefixed vl sink (inl (is_vl, e)) =
      put_value_vl fi value vl sink is_vl e ∙ ap (λ s. (ok tt, s)) (simp append_assoc)
  put_value_prefixed vl sink (inr (plain, e)) =
      put_value_plain fi value sink plain
      ∙ rw e (ap (λ s. (ok tt, s)) (append_assoc sink value (end_marker fi)))

  put_value_failed :
      (sink : Bytes) (x : SerdesError)
      → fi.info.is_vl_encoded ≡ true
      → encode_variable_length (length value) ≡ err x
      → put_value fi value sink ≡ (err x, sink)
  unfolding put_value
  put_value_failed sink x is_vl e = rw is_vl (rw (e, put_value))

  put_value-ok :
      (sink out : Bytes)
      → put_value fi value sink ≡ (ok tt, out)
      → (vl : Bytes) × IsPrefix fi (length value) vl
        × (sink ++ (vl ++ (value ++ end_marker fi)) ≡ out)
  put_value-ok sink out h = elim (Bool-cases fi.info.is_vl_encoded) [
    | inr plain ↦ let p : IsPrefix fi (length value) [] = inr (plain, refl) in ([], p, same [] p)
    | inl is_vl ↦ elim (Result-cases (encode_variable_length (length value))) [
      | inl (vl, e) ↦ let p : IsPrefix fi (length value) vl = inl (is_vl, e) in (vl, p, same vl p)
      | inr (x, e) ↦ absurd (failed x (sym (put_value_failed sink x is_vl e) ∙ h))
    ]
  ]
    where
      same :
          (vl : Bytes)
          → IsPrefix fi (length value) vl
          → sink ++ (vl ++ (value ++ end_marker fi)) ≡ out
      same vl p = ap (λ r. r.1) (sym (put_value_prefixed vl sink p) ∙ h)

      failed :
          (x : SerdesError)
          → ◌≡◌ {A = Result SerdesError (Unit {0}) × Bytes} (err x, sink) (ok tt, out)
          → ⊥
      failed x e = cc

module _ (d : Definitions) (fi : FieldInstance) (value : Bytes) where
  write_encoded :
      (h sink : Bytes)
      → encode d fi.field_name ≡ ok h
      → write_field_and_value d fi value sink ≡ put_value fi value (sink ++ h)
  unfolding write_field_and_value put
  write_encoded h sink e = rw (e, write_field_and_value)

  write_failed :
      (x : SerdesError) (sink : Bytes)
      → encode d fi.field_name ≡ err x
      → write_field_and_value d fi value sink ≡ (err x, sink)
  unfolding write_field_and_value
  write_failed x sink e = rw (e, write_field_and_value)

  -- The bytes that a field adds to a sink.
  pub write_field_and_value-ok :
      (sink out : Bytes)
      → write_field_and_value d fi value sink ≡ (ok tt, out)
      → (h vl : Bytes) × (encode d fi.field_name ≡ ok h)
        × IsPrefix fi (length value) vl
        × (sink ++ (h ++ (vl ++ (value ++ end_marker fi))) ≡ out)
  write_field_and_value-ok sink out w = elim (Result-cases (encode d fi.field_name)) [
    | inl (h, e) ↦
        let (vl, p, q) = put_value-ok fi value (sink ++ h) out (sym (write_encoded h sink e) ∙ w) in
        (h, vl, e, p, sym (append_assoc sink h (vl ++ (value ++ end_marker fi))) ∙ q)
    | inr (x, e) ↦ absurd (failed x (sym (write_failed x sink e) ∙ w))
  ]
    where
      failed :
          (x : SerdesError)
          → ◌≡◌ {A = Result SerdesError (Unit {0}) × Bytes} (err x, sink) (ok tt, out)
          → ⊥
      failed x e = cc

  pub write_field_and_value_prefixed :
      (h vl sink : Bytes)
      → encode d fi.field_name ≡ ok h
      → IsPrefix fi (length value) vl
      → write_field_and_value d fi value sink
        ≡ (ok tt, sink ++ (h ++ (vl ++ (value ++ end_marker fi))))
  write_field_and_value_prefixed h vl sink e p =
      write_encoded h sink e
      ∙ put_value_prefixed fi value vl (sink ++ h) p
      ∙ ap (λ s. (ok tt, s)) (append_assoc sink h (vl ++ (value ++ end_marker fi)))
