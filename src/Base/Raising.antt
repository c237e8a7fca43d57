-- ===== src/Base/Raising.antt =====
-- Code that may raise returns an `Outcome`: a value, or the exception that was raised.
use Prim.Native.Nat.{ℕ}
use mathlib.Core.Path.{◌≡◌, refl}
use mathlib.Core.Logic.{◌⊎◌, inl, inr}
use mathlib.Core.Bool.{Bool, true, false}
use mathlib.Core.List.{List}
use mathlib.Core.Option.{some}
use scim2_server.Base.Equality.{Text}

-- The exceptions that the program raises or catches, without their messages. The first line holds
-- those of scim2_models, the second the two of errors.py, the last the Python exceptions, which are
-- no `SCIMException`. `scim_error` is any other `SCIMException` that an override raises.
pub data Exception : Type 0 where
  not_found invalid_value conflict precondition_failed uniqueness not_implemented forbidden :
      Exception
  unauthorized payload_too_large invalid_syntax invalid_cursor invalid_count expired_cursor :
      Exception
  unsupported_media_type : Exception
  method_not_allowed : (allowed : List Text) → Exception
  scim_error : (status : ℕ) → Exception
  runtime_error value_error type_error assertion_error : Exception

pub data Outcome {ℓ} (A : Type ℓ) : Type ℓ where
  ok : A → Outcome A
  err : Exception → Outcome A

infixl 5 ◌>>=◌ ◌>>◌
abbrev pub ◌>>=◌ {ℓ κ} : {A : Type ℓ} {B : Type κ} → Outcome A → (A → Outcome B) → Outcome B
ok a >>= f = f a
err e >>= f = err e

abbrev pub ◌>>◌ {ℓ} : {B : Type ℓ} → Outcome (Unit {0}) → Outcome B → Outcome B
m >> k = m >>= λ _. k

-- `if test: raise e`
abbrev pub raise_if : Bool → Exception → Outcome (Unit {0})
raise_if true e = err e
raise_if false e = ok tt

-- What a successful bind ran through.
pub >>=-eq-ok {ℓ κ} :
    {A : Type ℓ} {B : Type κ} (first : Outcome A) (second : A → Outcome B) {result : B}
    → (first >>= second) ≡ ok result
    → (a : A) × (first ≡ ok a) × (second a ≡ ok result)
>>=-eq-ok (ok a) second e = (a, refl, e)
>>=-eq-ok (err x) second e = cc

pub Outcome-cases {ℓ} :
    {A : Type ℓ} (m : Outcome A) → ((a : A) × (m ≡ ok a)) ⊎ ((e : Exception) × (m ≡ err e))
Outcome-cases (ok a) = inl (a, refl)
Outcome-cases (err e) = inr (e, refl)

pub ok-injective {ℓ} : {A : Type ℓ} {a b : A} → ok a ≡ ok b → a ≡ b
ok-injective e = cc

pub some-injective {ℓ} : {A : Type ℓ} {a b : A} → some a ≡ some b → a ≡ b
some-injective e = cc
