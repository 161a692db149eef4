-- ===== src/Queue/Attempts.antt =====
-- How often a job of queue.ts is tried: the budget of attempts, how it is used up, and the way
-- round it.
use cloudops_sentinel.Base.{ℕ, ◌≤◌, ◌<◌, String, ◌≡◌, true, List, [], ◌∷◌, arith, All}
use cloudops_sentinel.Observability.Backoff.{Fraction}
use cloudops_sentinel.Store.{Collection}
use cloudops_sentinel.Store.Laws.{find_one_and_update-All, Update-All}
use cloudops_sentinel.Types.Job.{DiagnosticJob, StructuredFailure}
use cloudops_sentinel.Queue.{
  JobQueueConfig, has_id, is_waiting, claimable, claim_update, claim, beats, heartbeat_update,
  heartbeat, complete_update, complete, fail_update,
}
use cloudops_sentinel.Queue.Cases.{fail_cases}
use cloudops_sentinel.Queue.History.{
  QueueEvent, claims, heartbeats, completes, fails, recovers, step, run,
}

-- A job is never tried more often than it may be, and a waiting one may be tried again.
pub record Budget (j : DiagnosticJob) : Type 0 where
  pub spent : j.attempts ≤ j.max_attempts
  pub left : is_waiting j.status ≡ true → j.attempts < j.max_attempts

claim-Budget :
    (config : JobQueueConfig) (w : String) (now : ℕ) (j : DiagnosticJob)
    → claimable now j ≡ true
    → Budget j
    → Budget (claim_update config w now j)
unfolding claimable claim_update
claim-Budget config w now j hit b = ground arith

fail-Budget :
    (config : JobQueueConfig) (error : StructuredFailure) (now : ℕ) (random : Fraction)
    (j : DiagnosticJob)
    → Budget j
    → Budget (fail_update config error now random j j)
unfolding fail_update
fail-Budget config error now random j b = ground arith

-- Everything but the recovery of abandoned jobs.
abbrev pub IsNoRecovery : QueueEvent → Type 0
IsNoRecovery (recovers now) = ⊥
IsNoRecovery _ = Unit

module _ (c : Collection DiagnosticJob) (config : JobQueueConfig) where
  step-Budget :
      (jobs : List DiagnosticJob) (e : QueueEvent)
      → IsNoRecovery e
      → All Budget jobs
      → All Budget (step c config jobs e)
  unfolding step claim heartbeat complete heartbeat_update complete_update
  step-Budget jobs (claims w now) q h =
      find_one_and_update-All c (claimable now) jobs Budget (claim_update config w now)
        (claim-Budget config w now) h
  step-Budget jobs (heartbeats id w now) q h =
      find_one_and_update-All c (beats id w) jobs Budget (heartbeat_update config now)
        (λ j hit b. record { spent = b.spent; left = b.left }) h
  step-Budget jobs (completes id summary now) q h =
      find_one_and_update-All c (has_id id) jobs Budget (complete_update summary now)
        (λ j hit b. record { spent = b.spent; left = λ w. cc }) h
  step-Budget jobs (fails id error now random) q h =
      Update-All _ _ jobs _ Budget (fail_cases c config id error now random jobs)
        (λ j hit. fail-Budget config error now random j) h
  step-Budget jobs (recovers now) q h = absurd q

  -- As long as no abandoned job is recovered, every history of claims, heartbeats, completions and
  -- failures keeps each job within its attempts: none is tried more often than its maximum, and
  -- one that waits has an attempt left.
  pub run-Budget :
      (jobs : List DiagnosticJob) (es : List QueueEvent)
      → All IsNoRecovery es
      → All Budget jobs
      → All Budget (run c config jobs es)
  unfolding run
  run-Budget jobs [] q h = h
  run-Budget jobs (e ∷ es) q h = run-Budget (step c config jobs e) es q.1 (step-Budget jobs e q.0 h)
