-- ===== src/Types/Reader.antt =====
-- What a `ToJSON` of binary-codec/types does with the parser: it takes the data that is left and gives
-- its result with the new data, on its error paths too.
use xrpl_go.Base.{ℕ, ◌≡◌, sym, ◌∙◌, ap, ◌++◌, Bytes, length}
use xrpl_go.Base.Int.{pos}
use xrpl_go.Base.Results.{Result, ok, err}
use xrpl_go.Serdes.Errors.{SerdesError}
use xrpl_go.Serdes.Parser.{Parser, read_bytes}
use xrpl_go.Serdes.Bytes.{read_bytes-append}
use xrpl_go.Types.Errors.{CodecError, of_serdes}

abbrev pub Reader : Type 0 → Type 0
Reader A = Bytes → Result CodecError A × Bytes

-- What follows a step, or nothing after an error.
abbrev pub continue :
    {A B : Type 0} → Result CodecError A × Bytes → (A → Reader B) → Result CodecError B × Bytes
continue (ok a, d) f = f a d
continue (err e, d) f = (err e, d)

infixl 5 ◌>>=◌ ◌>>◌
abbrev pub ◌>>=◌ : {A B : Type 0} → Reader A → (A → Reader B) → Reader B
◌>>=◌ m f d = continue (m d) f

abbrev pub ◌>>◌ : {B : Type 0} → Reader (Unit {0}) → Reader B → Reader B
m >> k = m >>= λ _. k

abbrev pub return : {A : Type 0} → A → Reader A
return a d = (ok a, d)

abbrev pub fail : {A : Type 0} → CodecError → Reader A
fail e d = (err e, d)

abbrev pub of_result : {A : Type 0} → Result CodecError A → Reader A
of_result r d = (r, d)

abbrev lift_error : {A : Type 0} → Result SerdesError A × Bytes → Result CodecError A × Bytes
lift_error (ok a, d) = (ok a, d)
lift_error (err e, d) = (err (of_serdes e), d)

abbrev pub parsing : {A : Type 0} → Parser A → Reader A
parsing p d = lift_error (p d)

-- `p.ReadBytes(n)`
unfoldable pub read : ℕ → Reader Bytes
read n = parsing (read_bytes (pos n))

pub read-append : (v rest : Bytes) → read (length v) (v ++ rest) ≡ (ok v, rest)
unfolding read
read-append v rest = rw (read_bytes-append v rest)

pub read-append_of : (n : ℕ) (v rest : Bytes) → length v ≡ n → read n (v ++ rest) ≡ (ok v, rest)
read-append_of n v rest e = ap (λ (k : ℕ). read k (v ++ rest)) (sym e) ∙ read-append v rest

-- `b, err := p.ReadBytes(n)` with what is made of the bytes.
unfoldable pub read_as : {A : Type 0} → ℕ → (Bytes → Result CodecError A) → Reader A
unfolding read
read_as n f = read n >>= λ b. of_result (f b)

pub read_as-append :
    {A : Type 0} (n : ℕ) (f : Bytes → Result CodecError A) (v rest : Bytes)
    → length v ≡ n
    → read_as n f (v ++ rest) ≡ (f v, rest)
unfolding read_as
read_as-append n f v rest e = rw (read-append_of n v rest e)

-- A step that gives a value, and what follows it.
pub continue-ok :
    {A B : Type 0} (m : Reader A) (f : A → Reader B) (d next : Bytes) (a : A)
    → m d ≡ (ok a, next)
    → (m >>= f) d ≡ f a next
continue-ok m f d next a h = ap (λ r. continue r f) h

pub parsing-ok :
    {A : Type 0} (p : Parser A) (d next : Bytes) (a : A)
    → p d ≡ (ok a, next)
    → parsing p d ≡ (ok a, next)
parsing-ok p d next a h = ap lift_error h
