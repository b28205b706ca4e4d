-- ===== src/Prelude/Monad.antt =====
-- Fallible code: `Result` over an error type, with the notation of do blocks.
use mathlib.Core.Bool.{Bool, true, false}
use mathlib.Core.Option.{Option, none, some}

pub data Result {ℓ} (E : Type 0) (A : Type ℓ) : Type ℓ where
  ok : A → Result E A
  err : E → Result E A

infixl 5 ◌>>=◌ ◌>>◌
abbrev pub ◌>>=◌ {ℓ κ} :
    {E : Type 0} {A : Type ℓ} {B : Type κ} → Result E A → (A → Result E B) → Result E B
ok a >>= f = f a
err e >>= f = err e

abbrev pub ◌>>◌ {ℓ} : {E : Type 0} {B : Type ℓ} → Result E (Unit {0}) → Result E B → Result E B
m >> k = m >>= λ _. k

-- An early `return Err(e)` under a test.
abbrev pub refuse_if : {E : Type 0} → Bool → E → Result E (Unit {0})
refuse_if true e = err e
refuse_if false e = ok tt

abbrev pub or_err {ℓ} : {E : Type 0} {A : Type ℓ} → Option A → E → Result E A
or_err (some a) e = ok a
or_err none e = err e

abbrev pub map_err {ℓ} : {E F : Type 0} {A : Type ℓ} → F → Result E A → Result F A
map_err f (ok a) = ok a
map_err f (err e) = err f
