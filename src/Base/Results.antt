-- ===== src/Base/Results.antt =====
-- Go's pair of a value and an error: the value, or the error. `do` blocks stop at the first error.
use mathlib.Core.Path.{◌≡◌, refl}
use mathlib.Core.Logic.{◌⊎◌, inl, inr}
use mathlib.Core.Option.{Option, none, some}
use mathlib.Core.Bool.{Bool, true, false}

pub data Result {ℓ} (E : Type 0) (A : Type ℓ) : Type ℓ where
  ok : A → Result E A
  err : E → Result E A

infixl 5 ◌>>=◌ ◌>>◌
abbrev pub ◌>>=◌ {ℓ κ} :
    {E : Type 0} {A : Type ℓ} {B : Type κ} → Result E A → (A → Result E B) → Result E B
ok a >>= f = f a
err e >>= f = err e

abbrev pub ◌>>◌ {ℓ} : {E : Type 0} {B : Type ℓ} → Result E (Unit {0}) → Result E B → Result E B
m >> k = m >>= λ _. k

-- `if !test { return err }`
abbrev pub guard : {E : Type 0} → Bool → E → Result E (Unit {0})
guard true e = ok tt
guard false e = err e

-- `v, ok := m[k]; if !ok { return err }`
abbrev pub from_option {ℓ} : {E : Type 0} {A : Type ℓ} → Option A → E → Result E A
from_option none e = err e
from_option (some a) e = ok a

pub Result-cases {ℓ} :
    {E : Type 0} {A : Type ℓ} (r : Result E A) → ((a : A) × (r ≡ ok a)) ⊎ ((e : E) × (r ≡ err e))
Result-cases (ok a) = inl (a, refl)
Result-cases (err e) = inr (e, refl)

-- A chain of calls that gives a value: each of them did.
pub bind-ok {ℓ κ} :
    {E : Type 0} {A : Type ℓ} {B : Type κ} (m : Result E A) (f : A → Result E B) (b : B)
    → (m >>= f) ≡ ok b
    → (a : A) × (m ≡ ok a) × (f a ≡ ok b)
bind-ok (ok a) f b h = (a, refl, h)
bind-ok (err e) f b h = cc

pub guard-ok : {E : Type 0} (test : Bool) (e : E) (u : Unit {0}) → guard test e ≡ ok u → test ≡ true
guard-ok true e u h = refl
guard-ok false e u h = cc

pub from_option-ok {ℓ} :
    {E : Type 0} {A : Type ℓ} (o : Option A) (e : E) (a : A) → from_option o e ≡ ok a → o ≡ some a
from_option-ok none e a h = cc
from_option-ok (some x) e a h = cc
