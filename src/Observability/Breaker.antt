-- ===== src/Observability/Breaker.antt =====
-- packages/shared/src/observability/circuit-breaker.ts. Calls overlap at the `await`, so a call is
-- an admission and, later, a completion; `exec` is the two with nothing in between.
pub mod Trip
use cloudops_sentinel.Base.{
  ℕ, ◌+◌, Bool, true, false, ◌&&◌, ◌||◌, List, [], ◌∷◌, leb, if◌then◌else◌,
}
use cloudops_sentinel.Errors.{AppError, Result, ok, err, dependency_error}

-- 'closed', 'open', 'half_open'; `open` is a reserved word here.
pub data CircuitState : Type 0 where
  closed opened half_open : CircuitState

pub record CircuitBreaker : Type 0 where
  pub failures : ℕ
  pub state : CircuitState
  pub opened_at : ℕ
  pub failure_threshold : ℕ
  pub reset_timeout_ms : ℕ

unfoldable pub new : ℕ → ℕ → CircuitBreaker
new failure_threshold reset_timeout_ms = record {
  failures = 0;
  state = closed;
  opened_at = 0;
  failure_threshold = failure_threshold;
  reset_timeout_ms = reset_timeout_ms;
}

abbrev pub is_opened : CircuitState → Bool
is_opened opened = true
is_opened _ = false

abbrev pub is_half_open : CircuitState → Bool
is_half_open half_open = true
is_half_open _ = false

-- `now - openedAt >= resetTimeoutMs`, over the integers.
unfoldable pub maybe_half_open : CircuitBreaker → ℕ → CircuitBreaker
maybe_half_open b now =
    if is_opened b.state && leb (b.opened_at + b.reset_timeout_ms) now
    then record b { state = half_open }
    else b

-- The state that the readiness probe reports; the breaker itself moves too.
unfoldable pub get_state : CircuitBreaker → ℕ → CircuitBreaker × CircuitState
unfolding maybe_half_open
get_state b now = let b' = maybe_half_open b now in (b', b'.state)

unfoldable pub on_success : CircuitBreaker → CircuitBreaker
on_success b = record b { failures = 0; state = closed }

unfoldable pub on_failure : CircuitBreaker → ℕ → CircuitBreaker
on_failure b now =
    let failures = b.failures + 1 in
    if is_half_open b.state || leb b.failure_threshold failures
    then record b { failures = failures; state = opened; opened_at = now }
    else record b { failures = failures }

-- The part of `exec` above the `try`: the breaker, and whether `fn` is called.
unfoldable pub admit : CircuitBreaker → ℕ → CircuitBreaker × Bool
unfolding maybe_half_open
admit b now = let b' = maybe_half_open b now in (b', if is_opened b'.state then false else true)

abbrev pub breaker_open_error : AppError
breaker_open_error = dependency_error "Diagnostics circuit breaker is open" true

settle {ℓ} : {T : Type ℓ} → CircuitBreaker → ℕ → Result T → CircuitBreaker × Result T
unfolding on_success on_failure
settle b now (ok t) = (on_success b, ok t)
settle b now (err e) = (on_failure b now, err e)

-- `fn` is given by what it returns or throws, at the time `done`.
unfoldable pub exec {ℓ} :
    {T : Type ℓ} → CircuitBreaker → (now done : ℕ) → Result T → CircuitBreaker × Result T
unfolding admit settle
exec b now done result =
    let (b', called) = admit b now in
    if called then settle b' done result else (b', err breaker_open_error)

-- What happens to a breaker that several calls share, in any order.
pub data BreakerEvent : Type 0 where
  admitted : (now : ℕ) → BreakerEvent
  succeeded : BreakerEvent
  failed : (now : ℕ) → BreakerEvent

unfoldable pub step : CircuitBreaker → BreakerEvent → CircuitBreaker
unfolding admit on_success on_failure
step b (admitted now) = (admit b now).0
step b succeeded = on_success b
step b (failed now) = on_failure b now

unfoldable pub run : CircuitBreaker → List BreakerEvent → CircuitBreaker
unfolding step
run b [] = b
run b (e ∷ es) = run (step b e) es
