-- ===== src/Scenarios/Resilience.antt =====
-- The backoff, the retries and the circuit breaker at concrete numbers.
use cloudops_sentinel.Base.{
  ℕ, ◌+◌, ◌*◌, ◌≤◌, ◌<◌, String, ◌≡◌, ◌↔◌, true, none, List, [], ◌∷◌, arith, leb, if◌then◌else◌,
}
use cloudops_sentinel.Errors.{dependency_error, AppError}
use cloudops_sentinel.Observability.Backoff.{
  capped_exp, exponential_backoff_with_jitter, backoff_bounds,
}
use cloudops_sentinel.Observability.Retry.{
  Settled, fulfilled, rejected, RetryOptions, with_retry, Retries, with_retry-Retries,
}
use cloudops_sentinel.Observability.Breaker.{
  BreakerEvent, admitted, succeeded, failed, closed, new, run,
}
use cloudops_sentinel.Observability.Breaker.Trip.{consecutive, closed_iff_below}
use cloudops_sentinel.Scenarios.Sample.{half}

abbrev down : AppError
down = dependency_error "down" true

-- Two failures of a service, then an answer.
abbrev flaky : ℕ → Settled AppError String
flaky n = if leb n 2 then rejected down else fulfilled "answer"

abbrev three_times : RetryOptions AppError
three_times = record { max_attempts = 3; base_ms = 10; max_ms = 100; retry_on = none }

with_retry-Retries_example : Retries three_times flaky 1 (with_retry three_times flaky (λ n. half))
with_retry-Retries_example = with_retry-Retries three_times flaky (λ n. half) (omega arith)

backoff_bounds_example :
    (capped_exp 3 10 100
      ≤ exponential_backoff_with_jitter
          (record { attempt = 3; base_ms = 10; max_ms = 100; jitter_ratio = none })
          half)
    × (5
          * exponential_backoff_with_jitter
              (record { attempt = 3; base_ms = 10; max_ms = 100; jitter_ratio = none })
              half
        ≤ 6 * capped_exp 3 10 100 + 2)
    × (5
          * exponential_backoff_with_jitter
              (record { attempt = 3; base_ms = 10; max_ms = 100; jitter_ratio = none })
              half
        ≤ 6 * 100 + 2)
backoff_bounds_example = backoff_bounds 3 10 100 half (omega arith)

abbrev outage : List BreakerEvent
outage = admitted 1 ∷ failed 2 ∷ admitted 3 ∷ succeeded ∷ failed 5 ∷ failed 6 ∷ []

closed_iff_below_example : ((run (new 2 50) outage).state ≡ closed) ↔ (consecutive 0 outage < 2)
closed_iff_below_example = closed_iff_below 2 50 outage (omega arith)
