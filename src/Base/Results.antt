-- ===== src/Base/Results.antt =====
-- Exceptions as values. A method that mutates an object returns the object beside its result, since
-- what was written before a `raise` stays written.
use Prim.Native.Nat.{ℕ}
use Prim.Native.String.{String}
use mathlib.Core.Path.{◌≡◌, refl}
use mathlib.Core.Logic.{◌⊎◌, inl, inr}
use mathlib.Core.Bool.{Bool, true, false}

-- The exception classes that the program raises, each with its message. `ConcurrencyError` and
-- `PolicyDenied` and `IntegrationError` are `RuntimeError`s and `SafetyViolation` is a `ValueError`.
pub data Error : Type 0 where
  value_error runtime_error key_error permission_error : String → Error
  concurrency_error policy_denied safety_violation guardrail_unavailable : String → Error
  integrity_error type_error attribute_error integration_error index_error : String → Error
  overflow_error : String → Error
  http_error : ℕ → String → Error

pub data Result {u} (X : Type u) : Type u where
  ok : X → Result X
  err : Error → Result X

-- What follows a call that may raise: an exception skips it.
abbrev pub ◌>>=◌ {u v} : {X : Type u} {Y : Type v} → Result X → (X → Result Y) → Result Y
err problem >>= next = err problem
ok x >>= next = next x

-- `if test: raise e`
abbrev pub raise_if : Bool → Error → Result (Unit {0})
raise_if true e = err e
raise_if false e = ok tt

-- The call is for its exceptions only.
abbrev pub ◌>>◌ {v} : {Y : Type v} → Result (Unit {0}) → Result Y → Result Y
checked >> rest = checked >>= λ _. rest

abbrev pub is_ok {u} : {X : Type u} → Result X → Bool
is_ok (err problem) = false
is_ok (ok x) = true

infixl 5 ◌>>=◌ ◌>>◌
pub >>=-eq-ok {u v} :
    {X : Type u} {Y : Type v} (call : Result X) (next : X → Result Y) {y : Y}
    → (call >>= next) ≡ ok y
    → (x : X) × (call ≡ ok x) × (next x ≡ ok y)
>>=-eq-ok (err problem) next h = cc
>>=-eq-ok (ok x) next h = (x, refl, h)

pub Result-cases {ℓ} :
    {A : Type ℓ} (r : Result A) → ((a : A) × (r ≡ ok a)) ⊎ ((e : Error) × (r ≡ err e))
Result-cases (ok a) = inl (a, refl)
Result-cases (err e) = inr (e, refl)
