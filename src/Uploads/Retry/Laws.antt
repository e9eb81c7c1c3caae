-- ===== src/Uploads/Retry/Laws.antt =====
-- What `retry` promises.
use file_harbor.Base.{
  ℕ, zero, suc, ◌+◌, ◌≤◌, ◌<◌, ◌≡◌, refl, ap, ◌⊎◌, inl, inr, true, false, List, [], ◌∷◌, arith,
  some, take, Bool-cases,
}
use file_harbor.Uploads.Model.{Result, ok, err, retryable}
use file_harbor.Uploads.Retry.{RetryRun, retry, continue_retry, retry_step}

module _ {ℓ} {A : Type ℓ} where
  abbrev pub IsRetryable : Result A → Type 0
  IsRetryable (ok a) = ⊥
  IsRetryable (err e) = retryable e ≡ true

  -- An outcome that ends the loop at attempt `last`.
  abbrev pub IsFinal : ℕ → Result A → Type 0
  IsFinal last (ok a) = Unit
  IsFinal last (err e) = (retryable e ≡ false) ⊎ (last ≡ 2)

  -- The loop stopped at the attempt numbered `last`.
  pub record StopsAt (operation : ℕ → Result A) (run : RetryRun A) (last : ℕ) : Type ℓ where
    pub bounded : last ≤ 2
    pub counted : run.attempts ≡ last + 1
    pub outcome : run.result ≡ some (operation last)
    pub final : IsFinal last (operation last)
    pub earlier : (j : ℕ) → j < last → IsRetryable (operation j)
    pub paused : run.pauses ≡ take last (500 ∷ 1000 ∷ [])

  settle_cases : (r : Result A) → ((n : ℕ) → IsFinal n r) ⊎ IsRetryable r
  settle_cases (ok a) = inl (λ n. tt)
  settle_cases (err e) = elim (Bool-cases (retryable e)) [
    | inl again ↦ inr again
    | inr last ↦ inl (λ n. inl last)
  ]

  IsFinal-two : (r : Result A) → IsFinal 2 r
  IsFinal-two (ok a) = tt
  IsFinal-two (err e) = inr refl

module _ {ℓ} {A : Type ℓ} (operation : ℕ → Result A) where
  abbrev stopped : ℕ → List ℕ → RetryRun A
  stopped last pauses = record {
    attempts = last + 1;
    pauses = pauses;
    result = some (operation last);
  }

  continue-final :
      (last : ℕ) (pauses : List ℕ) (r : Result A) (rest : RetryRun A)
      → IsFinal last r
      → continue_retry operation last pauses (retry_step last r) rest
        ≡ record { attempts = last + 1; pauses = pauses; result = some r }
  unfolding continue_retry retry_step
  continue-final last pauses (ok a) rest h = refl
  continue-final last pauses (err e) rest h = ground arith

  continue-again :
      (attempt : ℕ) (pauses : List ℕ) (r : Result A) (rest : RetryRun A)
      → IsRetryable r
      → attempt < 2
      → continue_retry operation attempt pauses (retry_step attempt r) rest ≡ rest
  unfolding continue_retry retry_step
  continue-again attempt pauses (ok a) rest h k = absurd h
  continue-again attempt pauses (err e) rest h k = ground arith

  retry_first : IsFinal 0 (operation 0) → retry operation ≡ stopped 0 []
  unfolding retry
  retry_first final = rw (continue-final 0 [] (operation 0) _ final) refl

  retry_second :
      IsRetryable (operation 0) → IsFinal 1 (operation 1) → retry operation ≡ stopped 1 (500 ∷ [])
  unfolding retry
  retry_second again final =
      rw (continue-again 0 [] (operation 0) _ again (omega arith))
        (rw (continue-final 1 (500 ∷ []) (operation 1) _ final) refl)

  retry_third :
      IsRetryable (operation 0)
      → IsRetryable (operation 1)
      → retry operation ≡ stopped 2 (500 ∷ 1000 ∷ [])
  unfolding retry
  retry_third again again' = rw (continue-again 0 [] (operation 0) _ again (omega arith)) (
      rw (continue-again 1 (500 ∷ []) (operation 1) _ again' (omega arith))
        (rw (continue-final 2 (500 ∷ 1000 ∷ []) (operation 2) _ (IsFinal-two (operation 2))) refl))

  stopped-StopsAt :
      (last : ℕ)
      → last ≤ 2
      → IsFinal last (operation last)
      → ((j : ℕ) → j < last → IsRetryable (operation j))
      → retry operation ≡ stopped last (take last (500 ∷ 1000 ∷ []))
      → StopsAt operation (retry operation) last
  stopped-StopsAt last bound final earlier e = record {
    bounded = bound;
    counted = ap (λ r. r.attempts) e;
    outcome = ap (λ r. r.result) e;
    final = final;
    earlier = earlier;
    paused = ap (λ r. r.pauses) e;
  }

  below_one : IsRetryable (operation 0) → (j : ℕ) → j < 1 → IsRetryable (operation j)
  below_one h zero k = h
  below_one h (suc j) k = absurd (omega arith)

  below_two :
      IsRetryable (operation 0)
      → IsRetryable (operation 1)
      → (j : ℕ) → j < 2
      → IsRetryable (operation j)
  below_two h h' zero k = h
  below_two h h' (suc zero) k = h'
  below_two h h' (suc (suc j)) k = absurd (omega arith)

  -- Whatever the operation does, `retry` stops at an attempt numbered 0, 1 or 2 with that
  -- attempt's outcome. The attempt succeeded, or failed with an error that is not retryable, or
  -- was the third. All attempts before it failed with retryable errors, and after them came the
  -- pauses of 500 and 1000 milliseconds, as many as there were such attempts.
  pub retry-StopsAt : (last : ℕ) × StopsAt operation (retry operation) last
  retry-StopsAt = elim (settle_cases (operation 0)) [
    | inl final ↦ (
      0,
      stopped-StopsAt 0 (omega arith) (final 0) (λ j h. absurd (omega arith))
          (retry_first (final 0)),
    )
    | inr again ↦ elim (settle_cases (operation 1)) [
      | inl final ↦ (
        1,
        stopped-StopsAt 1 (omega arith) (final 1) (below_one again) (retry_second again (final 1)),
      )
      | inr again' ↦ (
        2,
        stopped-StopsAt 2 (omega arith) (IsFinal-two (operation 2)) (below_two again again')
            (retry_third again again'),
      )
    ]
  ]
