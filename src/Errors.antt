-- ===== src/Errors.antt =====
-- utils/exceptions.h: the exceptions that the modelled code throws, without their messages, and the
-- result of code that may throw. `overrun` is no exception: it marks a read past the end of a
-- buffer, which in C++ is undefined.
use custom_sql_database.Prelude.{Bool, true, false}

pub data Error : Type 0 where
  type_error storage_error deadlock_error parse_error out_of_range overrun : Error

pub data Result {ℓ} (A : Type ℓ) : Type ℓ where
  ok : A → Result A
  throw : Error → Result A

infixl 5 ◌>>=◌ ◌>>◌
abbrev pub ◌>>=◌ {ℓ κ} : {A : Type ℓ} {B : Type κ} → Result A → (A → Result B) → Result B
ok a >>= f = f a
throw e >>= f = throw e

abbrev pub ◌>>◌ {ℓ} : {B : Type ℓ} → Result (Unit {0}) → Result B → Result B
m >> k = m >>= λ _. k

-- `if (!test) throw e;`
abbrev pub require : Bool → Error → Result (Unit {0})
require true e = ok tt
require false e = throw e
