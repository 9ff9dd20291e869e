-- ===== src/Types/StObject/Order.antt =====
-- The order of the fields of an object: that of their ordinals, whatever order the map had.
use mathlib.Core.List.{Perm}
use mathlib.Core.List.{Permᴰ}
use mathlib.Core.List.Permᴰ
use mathlib.Core.Logic.{∥∥₁_elim}
use Prim.Native.Char.{IsScalar}
use mathlib.Core.HLevel.{prop→set}
use text.Mathlib.TextEquality.{IsScalar-prop}
use xrpl_go.Base.{
  ℕ, ◌≡◌, ◌≢◌, refl, sym, ap, ap₂, ◌∙◌, inl, inr, All, String, List, [], ◌∷◌, Bytes, Bool-cases,
  true, false, arith,
}
use xrpl_go.Base.Int.{ℤ, ltb_ℤ, ◌≤ℤ◌, ◌<ℤ◌, eq_of_parts}
use xrpl_go.Base.Perms.{KeysApart, KeysApart-perm}
use xrpl_go.Base.Results.{Result}
use xrpl_go.Definitions.{Definitions}
use xrpl_go.Types.Errors.{CodecError}
use xrpl_go.Types.Fields.{Types}
use xrpl_go.Types.StObject.{Field, Overrides, insert_sorted, get_sorted_keys, write_fields}

abbrev pub ordinal : Field → ℤ
ordinal f = (f.0).ordinal

-- No field of the list stands before this one in the order of ordinals.
abbrev pub IsBound : Field → List Field → Type 0
IsBound f gs = All (λ g. ordinal f ≤ℤ ordinal g) gs

-- The ordinals ascend.
abbrev pub IsSorted : List Field → Type 0
IsSorted [] = Unit
IsSorted (f ∷ fs) = IsBound f fs × IsSorted fs

module _ (f g : Field) (gs : List Field) where
  insert_behind :
      ltb_ℤ (ordinal g) (ordinal f) ≡ true → insert_sorted f (g ∷ gs) ≡ g ∷ insert_sorted f gs
  unfolding insert_sorted
  insert_behind h = rw (h, insert_sorted)

  insert_here : ltb_ℤ (ordinal g) (ordinal f) ≡ false → insert_sorted f (g ∷ gs) ≡ f ∷ g ∷ gs
  unfolding insert_sorted
  insert_here h = rw (h, insert_sorted)

insert_sorted-perm : (f : Field) (gs : List Field) → Permᴰ (insert_sorted f gs) (f ∷ gs)
unfolding insert_sorted
insert_sorted-perm f [] = Permᴰ.refl (f ∷ [])
insert_sorted-perm f (g ∷ gs) = elim (Bool-cases (ltb_ℤ (ordinal g) (ordinal f))) [
  | inl behind ↦
      rw behind (Permᴰ.trans (Permᴰ.cons refl (insert_sorted-perm f gs)) (Permᴰ.swap refl refl))
  | inr here ↦ rw here (Permᴰ.refl (f ∷ g ∷ gs))
]

-- Sorting rearranges the fields.
pub get_sorted_keys-perm : (fs : List Field) → Permᴰ (get_sorted_keys fs) fs
unfolding get_sorted_keys
get_sorted_keys-perm [] = Permᴰ.refl []
get_sorted_keys-perm (f ∷ fs) =
    Permᴰ.trans (insert_sorted-perm f (get_sorted_keys fs))
      (Permᴰ.cons refl (get_sorted_keys-perm fs))

IsBound-trans :
    (f g : Field) (gs : List Field) → ordinal f ≤ℤ ordinal g → IsBound g gs → IsBound f gs
IsBound-trans f g [] le h = tt
IsBound-trans f g (x ∷ gs) le (hx, hs) = (omega (arith, le, hx), IsBound-trans f g gs le hs)

insert_sorted-IsBound :
    (f g : Field) (gs : List Field)
    → ordinal g ≤ℤ ordinal f
    → IsBound g gs
    → IsBound g (insert_sorted f gs)
unfolding insert_sorted
insert_sorted-IsBound f g [] le h = (le, tt)
insert_sorted-IsBound f g (x ∷ gs) le (hx, hs) = elim (Bool-cases (ltb_ℤ (ordinal x) (ordinal f))) [
  | inl behind ↦ rw behind (hx, insert_sorted-IsBound f g gs le hs)
  | inr here ↦ rw here (le, (hx, hs))
]

insert_sorted-IsSorted : (f : Field) (gs : List Field) → IsSorted gs → IsSorted (insert_sorted f gs)
unfolding insert_sorted
insert_sorted-IsSorted f [] h = (tt, tt)
insert_sorted-IsSorted f (g ∷ gs) (hg, hs) = elim (Bool-cases (ltb_ℤ (ordinal g) (ordinal f))) [
  | inl behind ↦
      rw behind
        (insert_sorted-IsBound f g gs (ground (arith, behind)) hg, insert_sorted-IsSorted f gs hs)
  | inr here ↦
      let le : ordinal f ≤ℤ ordinal g = ground (arith, here) in
      rw here ((le, IsBound-trans f g gs le hg), (hg, hs))
]

pub get_sorted_keys-IsSorted : (fs : List Field) → IsSorted (get_sorted_keys fs)
unfolding get_sorted_keys
get_sorted_keys-IsSorted [] = tt
get_sorted_keys-IsSorted (f ∷ fs) =
    insert_sorted-IsSorted f (get_sorted_keys fs) (get_sorted_keys-IsSorted fs)

-- The ordinals of all fields differ, as those of the definitions do.
abbrev pub OrdinalsDiffer : List Field → Type 0
OrdinalsDiffer fs = KeysApart ordinal fs

-- Two fields of different ordinals may be inserted in either order.
insert_sorted_comm :
    (f g : Field) (l : List Field)
    → ordinal f <ℤ ordinal g
    → insert_sorted f (insert_sorted g l) ≡ insert_sorted g (insert_sorted f l)
unfolding insert_sorted
insert_sorted_comm f g [] lt =
    insert_here f g [] (ground (arith, lt)) ∙ sym (insert_behind g f [] (ground (arith, lt)))
insert_sorted_comm f g (x ∷ xs) lt = elim (Bool-cases (ltb_ℤ (ordinal x) (ordinal f))) [
  | inl before ↦
      let before_g : ltb_ℤ (ordinal x) (ordinal g) ≡ true = ground (arith, before, lt) in
      ap (insert_sorted f) (insert_behind g x xs before_g)
      ∙ insert_behind f x (insert_sorted g xs) before
      ∙ ap (λ l. x ∷ l) (insert_sorted_comm f g xs lt)
      ∙ sym (insert_behind g x (insert_sorted f xs) before_g)
      ∙ ap (insert_sorted g) (sym (insert_behind f x xs before))
  | inr here ↦
      first_of x xs here
      ∙ sym (insert_behind g f (x ∷ xs) (ground (arith, lt)))
      ∙ ap (insert_sorted g) (sym (insert_here f x xs here))
]
  where
    first_of :
        (x : Field) (xs : List Field)
        → ltb_ℤ (ordinal x) (ordinal f) ≡ false
        → insert_sorted f (insert_sorted g (x ∷ xs)) ≡ f ∷ insert_sorted g (x ∷ xs)
    first_of x xs here = elim (Bool-cases (ltb_ℤ (ordinal x) (ordinal g))) [
      | inl behind ↦
          ap (insert_sorted f) (insert_behind g x xs behind)
          ∙ insert_here f x (insert_sorted g xs) here
          ∙ ap (λ l. f ∷ l) (sym (insert_behind g x xs behind))
      | inr at_once ↦
          ap (insert_sorted f) (insert_here g x xs at_once)
          ∙ insert_here f g (x ∷ xs) (ground (arith, lt))
          ∙ ap (λ l. f ∷ l) (sym (insert_here g x xs at_once))
    ]

apart_comm :
    (f g : Field) (l : List Field)
    → ordinal f ≢ ordinal g
    → insert_sorted f (insert_sorted g l) ≡ insert_sorted g (insert_sorted f l)
apart_comm f g l ne = elim (Bool-cases (ltb_ℤ (ordinal f) (ordinal g))) [
  | inl less ↦ insert_sorted_comm f g l (ground (arith, less))
  | inr more ↦ sym (insert_sorted_comm g f l (greater (ordinal f) (ordinal g) ne more))
]
  where
    greater : (a b : ℤ) → a ≢ b → ltb_ℤ a b ≡ false → b <ℤ a
    greater a b ne more = ground (arith, more, ne, eq_of_parts a b)

pub sorted_same :
    {l m : List Field} → Permᴰ l m → OrdinalsDiffer l → get_sorted_keys l ≡ get_sorted_keys m
unfolding get_sorted_keys
sorted_same Permᴰ.nil h = refl
sorted_same (Permᴰ.cons {l₂ = m} e p) (h, hs) = ap₂ insert_sorted e (sorted_same p hs)
sorted_same (Permᴰ.swap {a = a} {b = b} {l = l} e e') ((h, h'), hs) =
    apart_comm a b (get_sorted_keys l) h
    ∙ ap₂ (λ x y. insert_sorted x (insert_sorted y (get_sorted_keys l))) e' e
sorted_same (Permᴰ.trans p q) h = sorted_same p h ∙ sorted_same q (KeysApart-perm ordinal p h)

IsScalar-set : (n : ℕ) → IsSet (IsScalar n)
IsScalar-set n = prop→set (IsScalar-prop n)

String_set : IsSet String
String_set = hlevel IsScalar-set

pub result_set : IsSet (Result CodecError Bytes)
result_set = hlevel String_set

-- The order in which a Go map gives its fields leaves the serialized object as it is, its errors
-- too: the fields of an object, whose ordinals differ, in any other order, are written as the same
-- bytes, or fail in the same way.
pub write_fields-unordered :
    (d : Definitions) (types : Types) (overrides : Overrides) (fs gs : List Field) (sink : Bytes)
    → Perm fs gs
    → OrdinalsDiffer fs
    → write_fields d types overrides (get_sorted_keys fs) sink
      ≡ write_fields d types overrides (get_sorted_keys gs) sink
write_fields-unordered d types overrides fs gs sink p differ =
    ∥∥₁_elim p (result_set _ _)
      (λ q. ap (λ l. write_fields d types overrides l sink) (sorted_same q differ))
