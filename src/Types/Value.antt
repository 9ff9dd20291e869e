-- ===== src/Types/Value.antt =====
-- The values of Go's `any` that the codec meets in a decoded JSON document, and the texts in them.
use Prim.Native.Nat.{compare, Ordering}
use Prim.Native.Char.{Char, char, code, nul}
use Prim.Native.String
use text.Mathlib.TextEquality.{Char-path}
use xrpl_go.Base.{ℕ, suc, max, ◌<◌, ◌≡◌, refl, Bytes, IsByte, All, List, [], ◌∷◌, ap₂, codes, arith}
use xrpl_go.Base.Int.{ℤ}

-- The integer types of Go, by which a type switch tells numbers apart.
pub data IntType : Type 0 where
  int int8 int16 int32 int64 uint uint8 uint16 uint32 uint64 : IntType

-- A float64 is a whole number, or it is not: it has a fraction, is infinite or is no number.
pub data Float : Type 0 where
  whole : ℤ → Float
  not_whole : Float

-- A `string` is its bytes. `named_string` is a value of another type whose underlying type is string,
-- `strings` a `[]string`, `array` a `[]any`, `objects` a `[]map[string]any`, `object` a
-- `map[string]any`, `string_map` a `map[string]string`. `other` is a value of a type that no codec takes;
-- a json.Number and a float32, which UInt32 takes too, are left out.
mutual
  pub data Value : Type 0 where
    null other : Value
    string named_string : Bytes → Value
    integer : IntType → ℤ → Value
    float64 : Float → Value
    strings : List Bytes → Value
    array : Values → Value
    objects : Objects → Value
    object : Members → Value
    string_map : List (String.String × Bytes) → Value

  pub data Values : Type 0 where
    no_values : Values
    value : Value → Values → Values

  pub data Objects : Type 0 where
    no_objects : Objects
    one_object : Members → Objects → Objects

  pub data Members : Type 0 where
    no_members : Members
    member : String.String → Value → Members → Members

-- How many objects stand in one another.
unfoldable mutual
  pub depth : Value → ℕ
  depth (array vs) = depth_values vs
  depth (objects ms) = depth_objects ms
  depth (object m) = suc (depth_members m)
  depth _ = 0

  pub depth_values : Values → ℕ
  depth_values no_values = 0
  depth_values (value v vs) = max (depth v) (depth_values vs)

  pub depth_objects : Objects → ℕ
  depth_objects no_objects = 0
  depth_objects (one_object m ms) = max (suc (depth_members m)) (depth_objects ms)

  pub depth_members : Members → ℕ
  depth_members no_members = 0
  depth_members (member k v m) = max (depth v) (depth_members m)

abbrev pub entries : Members → List (String.String × Value)
entries no_members = []
entries (member k v m) = (k, v) ∷ entries m

abbrev pub members : List (String.String × Value) → Members
members [] = no_members
members ((k, v) ∷ m) = member k v (members m)

abbrev pub items : Values → List Value
items no_values = []
items (value v vs) = v ∷ items vs

abbrev pub values : List Value → Values
values [] = no_values
values (v ∷ vs) = value v (values vs)

-- A text of Latin-1 bytes as a text of characters: the names of the definitions are ASCII.
abbrev char_by : (n : ℕ) (o : Ordering) → compare n 55296 ≡ o → Char
char_by n Ordering.lt e = char n (rw e tt)
char_by n Ordering.eq e = nul
char_by n Ordering.gt e = nul

abbrev char_of : ℕ → Char
char_of n = char_by n (compare n 55296) refl

unfoldable pub name_of : Bytes → String.String
name_of [] = String.[]
name_of (b ∷ bs) = String.◌∷◌ (char_of b) (name_of bs)

code-char_by :
    (n : ℕ) (o : Ordering) (e : compare n 55296 ≡ o) → o ≡ Ordering.lt → code (char_by n o e) ≡ n
code-char_by n Ordering.lt e h = refl
code-char_by n Ordering.eq e h = cc
code-char_by n Ordering.gt e h = cc

code-char_of : (n : ℕ) → n < 256 → code (char_of n) ≡ n
code-char_of n h = code-char_by n (compare n 55296) refl (ground arith)

-- A text of Latin-1 characters comes back from its bytes.
pub name_of-codes : (s : String.String) → All IsByte (codes s) → name_of (codes s) ≡ s
unfolding name_of
name_of-codes String.[] h = refl
name_of-codes (String.◌∷◌ c s) (hc, hs) =
    ap₂ String.◌∷◌ (Char-path (char_of (code c)) c (code-char_of (code c) hc)) (name_of-codes s hs)

name_of_runs : name_of (b'P' ∷ b'a' ∷ b'y' ∷ []) ≡ "Pay"
unfolding name_of
name_of_runs = refl
