-- ===== src/Uploads/Retry.antt =====
-- `retry` of web/src/uploads/queue.ts: up to three attempts, with a pause between two of them.
pub mod Laws
use file_harbor.Base.{
  ℕ, zero, suc, ◌+◌, ◌≤◌, ◌<◌, ◌≡◌, refl, ◌≢◌, ◌⊎◌, inl, inr, Bool, true, false, not, ◌||◌, List,
  [], ◌∷◌, ◌++◌, arith, if◌then◌else◌, ◌==◌, Option, none, some, get_elem?, get_or_else, Bool-cases,
}
use file_harbor.Uploads.Model.{Failure, Result, ok, err, retryable}

-- `[500, 1000, 2000][attempt]`
unfoldable pub retry_delay : ℕ → ℕ
retry_delay attempt = get_or_else (get_elem? (500 ∷ 1000 ∷ 2000 ∷ []) attempt) 0

-- What follows one attempt.
pub data Next {ℓ} (A : Type ℓ) : Type ℓ where
  returns : A → Next A
  throws : Failure → Next A
  sleeps : ℕ → Next A

-- The body of the loop, after the operation has settled.
unfoldable pub retry_step {ℓ} : {A : Type ℓ} → ℕ → Result A → Next A
unfolding retry_delay
retry_step attempt (ok a) = returns a
retry_step attempt (err e) =
    if not (retryable e) || attempt == 2 then throws e else sleeps (retry_delay attempt)

-- A run of the loop: the operation's outcomes by attempt, the pauses so far, and the result.
-- Running out of rounds throws the last error, as the statement behind the loop does.
pub record RetryRun {ℓ} (A : Type ℓ) : Type ℓ where
  pub attempts : ℕ
  pub pauses : List ℕ
  pub result : Option (Result A)

module _ {ℓ} {A : Type ℓ} (operation : ℕ → Result A) where
  continue_retry : ℕ → List ℕ → Next A → RetryRun A → RetryRun A
  continue_retry attempt pauses (returns a) rest = record {
    attempts = attempt + 1;
    pauses = pauses;
    result = some (ok a);
  }
  continue_retry attempt pauses (throws e) rest = record {
    attempts = attempt + 1;
    pauses = pauses;
    result = some (err e);
  }
  continue_retry attempt pauses (sleeps ms) rest = rest

  retry_from : ℕ → ℕ → List ℕ → RetryRun A
  unfolding continue_retry retry_step
  retry_from zero attempt pauses = record { attempts = attempt; pauses = pauses; result = none }
  retry_from (suc rounds) attempt pauses =
      let rest = retry_from rounds (attempt + 1) (pauses ++ retry_delay attempt ∷ []) in
      continue_retry attempt pauses (retry_step attempt (operation attempt)) rest

  -- `for (attempt = 0; attempt < 3; attempt += 1)`
  unfoldable pub retry : RetryRun A
  unfolding retry_from
  retry = retry_from 3 0 []
