-- ===== src/Base/Results.antt =====
-- Python's exceptions as values, with the checks that raise them.
use mathlib.Core.Path.{◌≡◌, refl}
use mathlib.Core.Logic.{◌⊎◌, inl, inr}
use mathlib.Core.Bool.{Bool, true, false}
use Prim.Native.String.{String}

-- `rejected` is the module's own exception class with its code or message, `runtime_error` is
-- `RuntimeError`, `os_error` is `OSError`, `type_error` is the `TypeError` that a set raises on an
-- unhashable member, `exit_with` is `SystemExit` with a message.
pub data Error : Type 0 where
  rejected : String → Error
  runtime_error : String → Error
  os_error : Error
  type_error : Error
  exit_with : String → Error

-- A value, or the exception that is raised in its place.
pub data Result {ℓ} (Value : Type ℓ) : Type ℓ where
  ok : Value → Result Value
  err : Error → Result Value

pub Result-cases {ℓ} :
    {Value : Type ℓ} (r : Result Value)
    → ((v : Value) × (r ≡ ok v)) ⊎ ((raised : Error) × (r ≡ err raised))
Result-cases (ok v) = inl (v, refl)
Result-cases (err raised) = inr (raised, refl)

-- `if test: raise Rejected(code)`
abbrev pub reject_if : Bool → String → Result (Unit {0})
reject_if true code = err (rejected code)
reject_if false code = ok tt

-- What follows runs on the value; an exception ends the body.
infixl 5 ◌>>=◌
abbrev pub ◌>>=◌ {ℓ ℓ'} :
    {Value : Type ℓ} {Next : Type ℓ'} → Result Value → (Value → Result Next) → Result Next
err raised >>= next = err raised
ok v >>= next = next v

infixl 5 ◌>>◌
abbrev pub ◌>>◌ {ℓ} : {Next : Type ℓ} → Result (Unit {0}) → Result Next → Result Next
checked >> next = checked >>= λ _. next
