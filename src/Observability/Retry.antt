-- ===== src/Observability/Retry.antt =====
-- packages/shared/src/observability/retry.ts: `withRetry`. The function that is
-- retried is given by the outcome of each of its calls.
use native.Mathlib.Decide.{ℕ_discrete}
use cloudops_sentinel.Base.{
  ℕ, zero, suc, ◌+◌, ◌-◌, ◌≤◌, ◌<◌, ◌≡◌, refl, sym, subst, ◌≢◌, ◌⊎◌, inl, inr, Bool, true, false,
  not, ◌||◌, Option, none, some, List, [], ◌∷◌, arith, nat_eq, length, Bool-cases,
}
use cloudops_sentinel.Observability.Backoff.{Fraction, exponential_backoff_with_jitter}

-- A promise that settles at a time, with a value or with an error.
pub data Settled {ℓ} (E : Type ℓ) (T : Type ℓ) : Type ℓ where
  fulfilled : T → Settled E T
  rejected : E → Settled E T

pub record RetryOptions (E : Type 0) : Type 0 where
  pub max_attempts : ℕ
  pub base_ms : ℕ
  pub max_ms : ℕ
  pub retry_on : Option (E → Bool)

-- How a call of `withRetry` ends: with its value, by throwing an error (`undefined` where `fn` was
-- never called), after so many calls of `fn`, and after sleeping for these delays.
pub record Retried (E T : Type 0) : Type 0 where
  pub result : Settled (Option E) T
  pub calls : ℕ
  pub slept : List ℕ

abbrev should_retry : {E : Type 0} → RetryOptions E → E → Bool
should_retry options e = elim options.retry_on [ none ↦ true | some f ↦ f e ]

module _ {E T : Type 0} where
  abbrev slept_first : ℕ → Retried E T → Retried E T
  slept_first delay r = record r { slept = delay ∷ r.slept }

  -- The loop from `attempt` on, with `left` rounds to go; `random` is Math.random() at each round.
  retry_loop :
      RetryOptions E
      → (ℕ → Settled E T)
      → (ℕ → Fraction)
      → (attempt left : ℕ) → Option E
      → Retried E T
  retry_loop options fn random attempt zero last_error = record {
    result = rejected last_error;
    calls = attempt - 1;
    slept = [];
  }
  retry_loop options fn random attempt (suc left) last_error = elim (fn attempt) [
    | fulfilled t ↦ record { result = fulfilled t; calls = attempt; slept = [] }
    | rejected e ↦ elim (not (should_retry options e) || nat_eq attempt options.max_attempts) [
      | true ↦ record { result = rejected (some e); calls = attempt; slept = [] }
      | false ↦
          slept_first
            (exponential_backoff_with_jitter
              (record {
                attempt = attempt;
                base_ms = options.base_ms;
                max_ms = options.max_ms;
                jitter_ratio = none;
              })
              (random attempt))
            (retry_loop options fn random (attempt + 1) left (some e))
    ]
  ]

  unfoldable pub with_retry : RetryOptions E → (ℕ → Settled E T) → (ℕ → Fraction) → Retried E T
  unfolding retry_loop
  with_retry options fn random = retry_loop options fn random 1 options.max_attempts none

  Settled-cases : (s : Settled E T) → ((t : T) × (s ≡ fulfilled t)) ⊎ ((e : E) × (s ≡ rejected e))
  Settled-cases (fulfilled t) = inl (t, refl)
  Settled-cases (rejected e) = inr (e, refl)

  abbrev pub thrown : Settled E T → Settled (Option E) T
  thrown (fulfilled t) = fulfilled t
  thrown (rejected e) = rejected (some e)

  -- What a loop from call `from` on does.
  pub record Retries (options : RetryOptions E) (fn : ℕ → Settled E T) (from : ℕ) (r : Retried E T)
      : Type 0 where
    pub at_least : from ≤ r.calls
    pub at_most : r.calls ≤ options.max_attempts
    pub slept_between : length r.slept + from ≡ r.calls
    pub last : r.result ≡ thrown (fn r.calls)
    pub stops :
        (e : E)
        → fn r.calls ≡ rejected e
        → (should_retry options e ≡ false) ⊎ (r.calls ≡ options.max_attempts)
    pub earlier :
        (k : ℕ)
        → from ≤ k
        → k < r.calls
        → (e : E) × (fn k ≡ rejected e) × (should_retry options e ≡ true)

  module _ (options : RetryOptions E) (fn : ℕ → Settled E T) (attempt : ℕ) where
    Retries-last :
        (r : Retried E T)
        → attempt ≤ options.max_attempts
        → r.calls ≡ attempt
        → r.slept ≡ []
        → r.result ≡ thrown (fn attempt)
        → ((e : E)
            → fn attempt ≡ rejected e
            → (should_retry options e ≡ false) ⊎ (attempt ≡ options.max_attempts))
        → Retries options fn attempt r
    Retries-last r h c s l stop = record {
      at_least = omega arith;
      at_most = omega arith;
      slept_between = rw (s, c) (omega arith);
      last = rw c l;
      stops = rw c stop;
      earlier = λ k lo hi. absurd (omega arith);
    }

    Retries-again :
        (e : E) (delay : ℕ) (r : Retried E T)
        → fn attempt ≡ rejected e
        → should_retry options e ≡ true
        → Retries options fn (attempt + 1) r
        → Retries options fn attempt (slept_first delay r)
    Retries-again e delay r w again rest = record {
      at_least = omega (arith, rest.at_least);
      at_most = rest.at_most;
      slept_between = omega (arith, rest.slept_between);
      last = rest.last;
      stops = rest.stops;
      earlier = λ k lo hi. elim (ℕ_discrete attempt k) [
        | yes here ↦ (e, rw (← here) w, again)
        | no later ↦ rest.earlier k (omega arith) hi
      ];
    }

  round-Retries :
      (options : RetryOptions E) (fn : ℕ → Settled E T) (random : ℕ → Fraction) (attempt left : ℕ)
      (last_error : Option E)
      → attempt ≤ options.max_attempts
      → ((e : E)
          → attempt ≢ options.max_attempts
          → Retries options fn
              (attempt + 1)
              (retry_loop options fn random (attempt + 1) left (some e)))
      → Retries options fn attempt (retry_loop options fn random attempt (suc left) last_error)
  unfolding retry_loop
  round-Retries options fn random attempt left last_error h rest =
      elim (Settled-cases (fn attempt)) [
        | inl (t, e) ↦
            rw (e, retry_loop) (Retries-last options fn attempt _ h refl refl (rw e) (λ x w. cc))
        | inr (x, e) ↦
            elim (Bool-cases
              (not (should_retry options x) || nat_eq attempt options.max_attempts)) [
                | inl stop ↦
                    rw (e, stop, retry_loop)
                      (Retries-last options fn attempt _ h refl refl (rw e) (λ y w. ground arith))
                | inr go ↦
                    rw (e, go, retry_loop)
                      (Retries-again options fn attempt x _ _ e (ground arith)
                        (rest x (ground arith)))
              ]
      ]

  retry_loop-Retries :
      (options : RetryOptions E) (fn : ℕ → Settled E T) (random : ℕ → Fraction) (attempt left : ℕ)
      (last_error : Option E)
      → attempt + left ≡ options.max_attempts
      → Retries options fn attempt (retry_loop options fn random attempt (suc left) last_error)
  retry_loop-Retries options fn random attempt zero last_error h =
      round-Retries options fn random attempt zero last_error (omega arith)
        (λ e more. absurd (more (omega arith)))
  retry_loop-Retries options fn random attempt (suc left) last_error h =
      round-Retries options fn random attempt (suc left) last_error (omega arith)
        (λ e more. retry_loop-Retries options fn random (attempt + 1) left (some e) (omega arith))

  -- With at least one attempt allowed, the function is called at most that often, the loop sleeps
  -- once between two calls, the outcome of the last call is passed on, every earlier call threw
  -- an error to be retried, and a last call that threw either must not be retried or was the last
  -- that is allowed.
  pub with_retry-Retries :
      (options : RetryOptions E) (fn : ℕ → Settled E T) (random : ℕ → Fraction)
      → 0 < options.max_attempts
      → Retries options fn 1 (with_retry options fn random)
  unfolding with_retry
  with_retry-Retries options fn random h =
      let e : options.max_attempts ≡ suc (options.max_attempts - 1) = omega arith in
      subst (λ n. Retries options fn 1 (retry_loop options fn random 1 n none)) (sym e)
        (retry_loop-Retries options fn random 1 (options.max_attempts - 1) none (omega arith))
