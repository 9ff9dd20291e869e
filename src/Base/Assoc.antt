-- ===== src/Base/Assoc.antt =====
-- Go maps as association lists, over any key with a Boolean equality. A `range` loop, whose order Go
-- leaves open, visits the list in its order.
use Prim.Native.String.{String}
use text.Mathlib.Text.{◌==◌ as str_eq}
use text.Mathlib.TextEquality.{eq_iff}
use mathlib.Core.Path.{◌≡◌, refl, ap}
use mathlib.Core.Logic.{◌≢◌, ◌↔◌, ◌⊎◌, inl, inr}
use mathlib.Core.Bool.{Bool, true}
use mathlib.Core.Option.{Option, none, some}
use mathlib.Core.List.{List, [], ◌∷◌, ◌++◌}
use native.Mathlib.Omega.{arith}
use xrpl_go.Base.Tests.{if◌then◌else◌, Bool-cases}
use xrpl_go.Base.Lists.{All}

pub record Eq {ℓ} (A : Type ℓ) : Type ℓ where
  pub beq : A → A → Bool
  pub beq_iff : (x y : A) → (beq x y ≡ true) ↔ (x ≡ y)

instance abbrev pub string_eq : Eq String
string_eq = record { beq = str_eq; beq_iff = eq_iff }

pub beq_refl {ℓ} : {K : Type ℓ} ⦃e : Eq K⦄ (k : K) → e.beq k k ≡ true
beq_refl ⦃e⦄ k = (e.beq_iff k k).1 refl

module _ {ℓ κ} {K : Type ℓ} {V : Type κ} ⦃e : Eq K⦄ where
  unfoldable pub lookup : K → List (K × V) → Option V
  lookup k [] = none
  lookup k ((j, v) ∷ m) = if e.beq j k then some v else lookup k m

  unfoldable pub insert : K → V → List (K × V) → List (K × V)
  insert k v [] = (k, v) ∷ []
  insert k v ((j, w) ∷ m) = if e.beq j k then (k, v) ∷ m else (j, w) ∷ insert k v m

  pub lookup-insert_self : (k : K) (v : V) (m : List (K × V)) → lookup k (insert k v m) ≡ some v
  unfolding lookup insert
  lookup-insert_self k v [] = rw (beq_refl k)
  lookup-insert_self k v ((j, w) ∷ m) = elim (Bool-cases (e.beq j k)) [
    | inl same ↦ rw (same, beq_refl k) refl
    | inr other ↦ rw (other, other) (lookup-insert_self k v m)
  ]

  pub lookup-insert_ne :
      (k j : K) (v : V) (m : List (K × V)) → k ≢ j → lookup j (insert k v m) ≡ lookup j m
  unfolding lookup insert
  lookup-insert_ne k j v [] h = ground (arith, e.beq_iff k j)
  lookup-insert_ne k j v ((i, w) ∷ m) h =
      ground (arith, e.beq_iff k j, e.beq_iff i k, e.beq_iff i j, lookup-insert_ne k j v m)

  -- Where a found entry stands: at the head, or further on under another head key.
  pub lookup-cons_cases :
      (k j : K) (v w : V) (m : List (K × V))
      → lookup k ((j, v) ∷ m) ≡ some w
      → ((j ≡ k) × (v ≡ w)) ⊎ ((j ≢ k) × (lookup k m ≡ some w))
  unfolding lookup
  lookup-cons_cases k j v w m h = elim (Bool-cases (e.beq j k)) [
    | inl same ↦ inl ((e.beq_iff j k).0 same, let q : some v ≡ some w = rw same at h in cc)
    | inr other ↦ inr (λ p. cc (other, (e.beq_iff j k).1 p), rw other at h)
  ]

  pub lookup-nil : (k : K) (w : V) → lookup k [] ≡ some w → ⊥
  unfolding lookup
  lookup-nil k w h = cc

-- No entry has this key; the entries have different keys, as in a Go map.
module _ {ℓ κ} {K : Type ℓ} {V : Type κ} where
  abbrev pub KeyAbsent : K → List (K × V) → Type ℓ
  KeyAbsent k [] = Unit
  KeyAbsent k ((j, v) ∷ m) = (j ≢ k) × KeyAbsent k m

  abbrev pub KeysDiffer : List (K × V) → Type ℓ
  KeysDiffer [] = Unit
  KeysDiffer ((j, v) ∷ m) = KeyAbsent j m × KeysDiffer m

  pub KeyAbsent-append :
      (k : K) (m n : List (K × V)) → KeyAbsent k m → KeyAbsent k n → KeyAbsent k (m ++ n)
  KeyAbsent-append k [] n h h' = h'
  KeyAbsent-append k ((j, v) ∷ m) n (ne, h) h' = (ne, KeyAbsent-append k m n h h')

-- A new key goes to the end.
pub insert_absent {ℓ κ} :
    {K : Type ℓ} {V : Type κ} ⦃e : Eq K⦄ (k : K) (v : V) (m : List (K × V))
    → KeyAbsent k m
    → insert k v m ≡ m ++ ((k, v) ∷ [])
unfolding insert
insert_absent k v [] h = refl
insert_absent ⦃e⦄ k v ((j, w) ∷ m) (ne, h) = elim (Bool-cases (e.beq j k)) [
  | inl same ↦ absurd (ne ((e.beq_iff j k).0 same))
  | inr differ ↦ rw differ (ap (λ l. (j, w) ∷ l) (insert_absent k v m h))
]

-- What holds at every value holds after another is inserted.
pub insert-All {ℓ κ π} :
    {K : Type ℓ} {V : Type κ} ⦃e : Eq K⦄ (P : V → Type π) (k : K) (v : V) (m : List (K × V))
    → P v
    → All (λ x. P x.1) m
    → All (λ x. P x.1) (insert k v m)
unfolding insert
insert-All P k v [] p h = (p, tt)
insert-All ⦃e⦄ P k v ((j, w) ∷ m) p (q, h) = elim (Bool-cases (e.beq j k)) [
  | inl same ↦ rw same (p, h)
  | inr differ ↦ rw differ (q, insert-All P k v m p h)
]
