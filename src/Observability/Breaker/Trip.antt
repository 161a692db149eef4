-- ===== src/Observability/Breaker/Trip.antt =====
-- When the circuit breaker of circuit-breaker.ts trips, what it refuses, and how it recovers.
use cloudops_sentinel.Base.{ℕ, ◌+◌, ◌≤◌, ◌<◌, ◌≡◌, refl, ◌↔◌, List, [], ◌∷◌, arith, ◌∙◌}
use cloudops_sentinel.Errors.{Result, ok, err, AppError}
use cloudops_sentinel.Observability.Breaker.{
  CircuitBreaker, closed, opened, new, breaker_open_error, exec, BreakerEvent, admitted, succeeded,
  failed, step, run,
}

-- The failures in a row at the end of a history, `n` of them before it.
abbrev pub consecutive : ℕ → List BreakerEvent → ℕ
consecutive n [] = n
consecutive n (admitted now ∷ es) = consecutive n es
consecutive n (succeeded ∷ es) = consecutive 0 es
consecutive n (failed now ∷ es) = consecutive (n + 1) es

-- A closed breaker has seen fewer failures in a row than its threshold, any other one has not.
pub record IsValid (threshold : ℕ) (b : CircuitBreaker) : Type 0 where
  pub armed : 0 < threshold
  pub kept : b.failure_threshold ≡ threshold
  pub below : b.state ≡ closed → b.failures < threshold
  pub reached : b.failures < threshold → b.state ≡ closed

step-IsValid : (t : ℕ) (b : CircuitBreaker) (e : BreakerEvent) → IsValid t b → IsValid t (step b e)
unfolding step
step-IsValid t b (admitted now) v = ground arith
step-IsValid t b succeeded v = ground arith
step-IsValid t b (failed now) v = ground arith

run-IsValid :
    (t : ℕ) (b : CircuitBreaker) (es : List BreakerEvent) → IsValid t b → IsValid t (run b es)
unfolding run
run-IsValid t b [] v = v
run-IsValid t b (e ∷ es) v = run-IsValid t (step b e) es (step-IsValid t b e v)

run-failures :
    (b : CircuitBreaker) (es : List BreakerEvent) → (run b es).failures ≡ consecutive b.failures es
unfolding run
run-failures b [] = refl
run-failures b (admitted now ∷ es) =
    run-failures (step b (admitted now)) es ∙ (unfold step in ground arith)
run-failures b (succeeded ∷ es) = run-failures (step b succeeded) es ∙ (unfold step in ground arith)
run-failures b (failed now ∷ es) =
    run-failures (step b (failed now)) es ∙ (unfold step in ground arith)

new-IsValid : (threshold reset : ℕ) → 0 < threshold → IsValid threshold (new threshold reset)
unfolding new
new-IsValid threshold reset h = ground arith

-- With a positive threshold, whatever calls a new breaker admits and sees completed, in whatever
-- order they overlap, it is closed exactly when the failures in a row up to now are fewer than
-- the threshold.
pub closed_iff_below :
    (threshold reset : ℕ) (es : List BreakerEvent)
    → 0 < threshold
    → ((run (new threshold reset) es).state ≡ closed) ↔ (consecutive 0 es < threshold)
closed_iff_below threshold reset es h =
    let b = run (new threshold reset) es in
    let v : IsValid threshold b = run-IsValid threshold _ es (new-IsValid threshold reset h) in
    let e : b.failures ≡ consecutive 0 es =
      run-failures (new threshold reset) es ∙ (unfold new in refl) in
    (λ c. omega (arith, v.below c, e), λ l. v.reached (omega (arith, l, e)))

-- An open breaker whose timeout has not run out refuses the call with the same error whatever the
-- function would do, and stays as it is.
pub exec_while_opened {ℓ} :
    {T : Type ℓ} (b : CircuitBreaker) (now done : ℕ) (result : Result T)
    → b.state ≡ opened
    → now < b.opened_at + b.reset_timeout_ms
    → exec b now done result ≡ (b, err breaker_open_error)
unfolding exec
exec_while_opened b now done (ok t) o h = ground arith
exec_while_opened b now done (err e) o h = ground arith

-- Once the timeout of an open breaker has run out, the call goes through and its outcome is passed
-- on: a success closes the breaker with no failures counted, and a failure opens it again from the
-- time of the failure on, whatever the threshold.
pub exec_after_timeout {ℓ} :
    {T : Type ℓ} (b : CircuitBreaker) (now done : ℕ) (t : T) (e : AppError)
    → b.state ≡ opened
    → b.opened_at + b.reset_timeout_ms ≤ now
    → let failed_result : Result T = err e in
      (exec b now done (ok t) ≡ (record b { failures = 0; state = closed }, ok t))
      × (exec b now done failed_result ≡ (
        record b { failures = b.failures + 1; state = opened; opened_at = done },
        failed_result,
      ))
unfolding exec
exec_after_timeout b now done t e o h = (ground arith, ground arith)
