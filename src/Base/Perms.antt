-- ===== src/Base/Perms.antt =====
-- What holds at every member of a list holds in any other order.
use mathlib.Core.Path.{sym, ap, subst, ◌∙◌}
use mathlib.Core.Logic.{◌≢◌}
use mathlib.Core.List.{List, [], ◌∷◌, Permᴰ}
use xrpl_go.Base.Lists.{All}

pub All-perm {ℓ κ} : {A : Type ℓ} (P : A → Type κ) {l m : List A} → Permᴰ l m → All P l → All P m
All-perm P Permᴰ.nil h = tt
All-perm P (Permᴰ.cons e p) (h, hs) = (subst P e h, All-perm P p hs)
All-perm P (Permᴰ.swap e e') (h, (h', hs)) = (subst P e' h', (subst P e h, hs))
All-perm P (Permᴰ.trans p q) h = All-perm P q (All-perm P p h)

-- No two members have one key.
module _ {ℓ κ} {A : Type ℓ} {K : Type κ} (key : A → K) where
  abbrev pub DiffersFrom : A → List A → Type κ
  DiffersFrom a l = All (λ b. key a ≢ key b) l

  abbrev pub KeysApart : List A → Type κ
  KeysApart [] = Unit
  KeysApart (a ∷ l) = DiffersFrom a l × KeysApart l

  pub KeysApart-perm : {l m : List A} → Permᴰ l m → KeysApart l → KeysApart m
  KeysApart-perm Permᴰ.nil h = tt
  KeysApart-perm (Permᴰ.cons {a = a} {l₂ = m} e p) (h, hs) =
      (subst (λ x. DiffersFrom x m) e (All-perm (λ b. key a ≢ key b) p h), KeysApart-perm p hs)
  KeysApart-perm (Permᴰ.swap {l = l} e e') ((h, h'), (k, hs)) = (
    ((λ q. h (ap key e ∙ sym q ∙ ap key (sym e'))), subst (λ x. DiffersFrom x l) e' k),
    (subst (λ x. DiffersFrom x l) e h', hs),
  )
  KeysApart-perm (Permᴰ.trans p q) h = KeysApart-perm q (KeysApart-perm p h)
