-- ===== src/Definitions/Codes.antt =====
-- The tables of names and codes of binary-codec/definitions, searched both ways.
use xrpl_go.Base.{
  ◌≡◌, ◌≢◌, ◌⊎◌, ◌∙◌, refl, sym, ap, inl, inr, String, List, [], ◌∷◌, true, false, Bool-cases, some,
  arith,
}
use xrpl_go.Base.Int.{ℤ, eqb_ℤ, eq_of_parts}
use xrpl_go.Base.Assoc.{
  string_eq, beq_refl, lookup, lookup-cons_cases, lookup-nil, KeyAbsent, KeysDiffer,
}
use xrpl_go.Definitions.{name_of_code}

eqb_ℤ-eq : (a b : ℤ) → eqb_ℤ a b ≡ true → a ≡ b
eqb_ℤ-eq a b h = ground (arith, eq_of_parts a b)

eqb_ℤ_refl : (a : ℤ) → eqb_ℤ a a ≡ true
eqb_ℤ_refl a = ground arith

-- A code that stands in a table has a name.
pub name_of_code-found :
    (m : List (String × ℤ)) (n : String) (c : ℤ)
    → lookup n m ≡ some c
    → (k : String) × (name_of_code c m ≡ some k)
unfolding name_of_code
name_of_code-found [] n c h = absurd (lookup-nil n c h)
name_of_code-found ((j, x) ∷ m) n c h = elim (Bool-cases (eqb_ℤ x c)) [
  | inl same ↦ (j, rw same refl)
  | inr other ↦ elim (lookup-cons_cases n j x c m h) [
    | inl (_, e) ↦ absurd (let q : eqb_ℤ x c ≡ true = rw (← e) (eqb_ℤ_refl x) in cc)
    | inr (_, later) ↦ let (k, found) = name_of_code-found m n c later in (k, rw other found)
  ]
]

absent_lookup :
    (j n : String) (m : List (String × ℤ)) (c : ℤ) → KeyAbsent j m → lookup n m ≡ some c → j ≢ n
absent_lookup j n [] c h found = absurd (lookup-nil n c found)
absent_lookup j n ((i, x) ∷ m) c (ne, h) found = elim (lookup-cons_cases n i x c m found) [
  | inl (same, _) ↦ λ e. ne (same ∙ sym e)
  | inr (_, later) ↦ absent_lookup j n m c h later
]

-- The name that is found for a code has that code, where the names differ.
pub lookup-name_of_code :
    (m : List (String × ℤ)) (n : String) (c : ℤ)
    → KeysDiffer m
    → name_of_code c m ≡ some n
    → lookup n m ≡ some c
unfolding name_of_code
lookup-name_of_code [] n c differ h = cc
lookup-name_of_code ((j, x) ∷ m) n c (ne, differ) h = elim (Bool-cases (eqb_ℤ x c)) [
  | inl same ↦
      let q : some j ≡ some n = rw same at h in
      let e : j ≡ n = cc in unfold lookup in rw (e, beq_refl n) (ap some (eqb_ℤ-eq x c same))
  | inr other ↦
      let later : lookup n m ≡ some c = lookup-name_of_code m n c differ (rw other at h) in
      skipped (Bool-cases (string_eq.beq j n)) later
]
  where
    skipped :
        (string_eq.beq j n ≡ true) ⊎ (string_eq.beq j n ≡ false)
        → lookup n m ≡ some c
        → lookup n ((j, x) ∷ m) ≡ some c
    skipped (inl same) later =
        absurd (absent_lookup j n m c ne later ((string_eq.beq_iff j n).0 same))
    skipped (inr other) later = unfold lookup in rw other later
