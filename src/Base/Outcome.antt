-- ===== src/Base/Outcome.antt =====
-- Python's exceptions as values: a call returns, or raises one of the exceptions of the source.
use mathlib.Core.Path.{◌≡◌, refl, subst}
use mathlib.Core.Bool.{Bool, true, false}
use mathlib.Core.Option.{Option, none, some}

pub data Raised : Type 0 where
  value_error assertion_error index_error key_error struct_error : Raised
  not_implemented http_protocol auth_failed : Raised
  blocking_io broken_pipe connection_reset timeout eof os_error : Raised
  uninitialized attribute_error ssl_want_read ssl_want_write : Raised

pub data Result {ℓ} (A : Type ℓ) : Type ℓ where
  ok : A → Result A
  raise : Raised → Result A

infixl 5 ◌>>=◌
abbrev pub ◌>>=◌ {ℓ κ} : {X : Type ℓ} {Y : Type κ} → Result X → (X → Result Y) → Result Y
raise error >>= next = raise error
ok value >>= next = next value

infixl 5 ◌>>◌
abbrev pub ◌>>◌ {ℓ} : {Y : Type ℓ} → Result (Unit {0}) → Result Y → Result Y
check >> after = check >>= λ done. after

-- `assert`
abbrev pub guard : Bool → Raised → Result (Unit {0})
guard false error = raise error
guard true error = ok tt

-- A call that may also run for ever: `none` says that it has not returned within its fuel.
abbrev pub Run {ℓ} : Type ℓ → Type ℓ
Run A = Option (Result A)

abbrev pub then_run {ℓ κ} : {A : Type ℓ} {B : Type κ} → Run A → (A → Run B) → Run B
then_run none f = none
then_run (some (raise e)) f = some (raise e)
then_run (some (ok a)) f = f a

-- What is true of a result, if there is one.
abbrev pub Returns {ℓ} : {A : Type ℓ} → (A → Type ℓ) → Result A → Type ℓ
Returns P (raise e) = Unit
Returns P (ok a) = P a

pub Returns-bind {ℓ} :
    {A B : Type ℓ} (P : B → Type ℓ) (r : Result A) (f : A → Result B)
    → ((a : A) → r ≡ ok a → Returns P (f a))
    → Returns P (r >>= f)
Returns-bind P (raise e) f h = tt
Returns-bind P (ok a) f h = h a refl

pub Returns-ok {ℓ} :
    {A : Type ℓ} (P : A → Type ℓ) (r : Result A) (a : A) → Returns P r → r ≡ ok a → P a
Returns-ok P (raise e) a h e' = absurd (absurd_eq e')
  where
    absurd_eq : raise e ≡ ok a → ⊥
    absurd_eq q = cc
Returns-ok P (ok b) a h e' = subst P (ok_eq e') h
  where
    ok_eq : ok b ≡ ok a → b ≡ a
    ok_eq q = cc
