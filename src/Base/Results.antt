-- ===== src/Base/Results.antt =====
-- Values that a promise resolves to or a call returns, and what it throws instead.
use mathlib.Core.Path.{◌≡◌, subst}
use Prim.Native.Nat.{ℕ}
use mathlib.Core.List.{◌++◌}
use file_harbor.Base.Texts.{Text, codes}

-- What a rejected promise carries: an `ApiError`, another `Error`, or some other value.
pub data Failure : Type 0 where
  api_error : ℕ → Text → Failure
  js_error : Text → Failure
  other_value : Failure

pub data Result {ℓ} (A : Type ℓ) : Type ℓ where
  ok : A → Result A
  err : Failure → Result A

-- `failure instanceof ApiError ? failure.code : 'generic'`
abbrev pub failure_code : Failure → Text
failure_code (api_error status code) = code
failure_code (js_error message) = codes "generic"
failure_code other_value = codes "generic"

-- The key of the message for an error: that of its code, or another one.
abbrev pub error_key_or : Text → Failure → Text
error_key_or other (api_error status code) = codes "error." ++ code
error_key_or other (js_error message) = other
error_key_or other other_value = other

abbrev pub error_key : Failure → Text
error_key = error_key_or (codes "error.generic")

-- `await`: what follows runs on a value only.
abbrev pub and_then {ℓ κ} : {A : Type ℓ} {B : Type κ} → Result A → (A → Result B) → Result B
and_then (ok a) f = f a
and_then (err e) f = err e

-- A value that a result holds satisfies the predicate.
abbrev pub OkSatisfies {ℓ κ} : {A : Type ℓ} → (A → Type κ) → Result A → Type κ
OkSatisfies P (ok a) = P a
OkSatisfies P (err e) = Unit

pub and_then-OkSatisfies {ℓ κ} :
    {A B : Type ℓ} (P : A → Type κ) (Q : B → Type κ) (r : Result A) (f : A → Result B)
    → OkSatisfies P r
    → ((a : A) → P a → OkSatisfies Q (f a))
    → OkSatisfies Q (and_then r f)
and_then-OkSatisfies P Q (ok a) f p h = h a p
and_then-OkSatisfies P Q (err e) f p h = tt

pub of_ok {ℓ κ} :
    {A : Type ℓ} (P : A → Type κ) (r : Result A) (a : A) → OkSatisfies P r → r ≡ ok a → P a
of_ok P r a h e = subst (OkSatisfies P) e h
