-- ===== src/Queue/Tries.antt =====
-- The tries of a job of queue.ts, each a claim and a failure.
use cloudops_sentinel.Base.{
  ℕ, ◌+◌, ◌<◌, String, ◌≡◌, ap, true, some, List, [], ◌∷◌, ◌++◌, All, All-mono, ◌≢◌, false, arith,
  eq_iff,
}
use cloudops_sentinel.Observability.Backoff.{Fraction}
use cloudops_sentinel.Store.{Collection}
use cloudops_sentinel.Store.Laws.{Update-cases}
use cloudops_sentinel.Store.Among.{AllMiss, Update-among}
use cloudops_sentinel.Types.{dead_lettered}
use cloudops_sentinel.Types.Job.{DiagnosticJob, StructuredFailure}
use cloudops_sentinel.Queue.{
  JobQueueConfig, is_waiting, has_id, claimable, claim_update, claim, fail_update, fail,
  retry_delay,
}
use cloudops_sentinel.Queue.Cases.{fail_cases}
use cloudops_sentinel.Queue.History.{QueueEvent, claims, fails, step}

-- A try of a job: who claims it, how long it then runs, how it fails, and how much longer than its
-- delay it waits before it is claimed again.
pub record Try : Type 0 where
  pub worker_id : String
  pub lasted : ℕ
  pub error : StructuredFailure
  pub random : Fraction
  pub waited : ℕ

-- The job after a try that begins at `now`.
unfoldable pub tried : JobQueueConfig → Try → (now : ℕ) → DiagnosticJob → DiagnosticJob
tried config r now j =
    let k = claim_update config r.worker_id now j in
    fail_update config r.error (now + r.lasted) r.random k k

-- When the job is claimed again that has been tried `attempts` times.
abbrev pub next_try : JobQueueConfig → Try → (attempts now : ℕ) → ℕ
next_try config r attempts now = now + r.lasted + retry_delay config attempts r.random + r.waited

module _ (config : JobQueueConfig) (r : Try) (now : ℕ) (j : DiagnosticJob) where
  pub fail_last :
      j.attempts + 1 ≡ j.max_attempts
      → let d = tried config r now j in
        (d.status ≡ dead_lettered) × (d.attempts ≡ j.max_attempts) × (d.last_error ≡ some r.error)
  unfolding tried fail_update claim_update
  fail_last h = ground arith

  pub fail_early :
      r.error.retryable ≡ true
      → j.attempts + 1 < j.max_attempts
      → let d = tried config r now j in
        (claimable (next_try config r (j.attempts + 1) now) d ≡ true)
        × (d.attempts ≡ j.attempts + 1)
        × (d.max_attempts ≡ j.max_attempts)
        × (d.id ≡ j.id)
  unfolding tried fail_update claim_update claimable
  fail_early retryable h = (ground arith, ground arith, ground arith, ground arith)

-- The other jobs of a queue: none waits, and none has the id.
abbrev pub AllIdle : (id : String) → List DiagnosticJob → Type 0
AllIdle id = All (λ o. (is_waiting o.status ≡ false) × (o.id ≢ id))

module _ (c : Collection DiagnosticJob) (config : JobQueueConfig) where
  -- The calls of a job's tries, one after the other.
  unfoldable pub failing_events : List Try → (id : String) (attempts now : ℕ) → List QueueEvent
  failing_events [] id attempts now = []
  failing_events (r ∷ rs) id attempts now =
      claims r.worker_id now
      ∷ fails id r.error (now + r.lasted) r.random
      ∷ failing_events rs id (attempts + 1) (next_try config r (attempts + 1) now)

  idle-claims :
      (id : String) (now : ℕ) (os : List DiagnosticJob) → AllIdle id os → AllMiss (claimable now) os
  unfolding claimable
  idle-claims id now os h = All-mono _ _ os (λ o i. ground (arith, i.0)) h

  idle-fails : (id : String) (os : List DiagnosticJob) → AllIdle id os → AllMiss (has_id id) os
  idle-fails id os h = All-mono _ _ os (λ o i. ground (arith, i.1, eq_iff o.id id)) h

  module _ (id : String) (pre post : List DiagnosticJob) (before : AllIdle id pre)
      (after : AllIdle id post) where
    claim_among :
        (j : DiagnosticJob) (w : String) (now : ℕ)
        → claimable now j ≡ true
        → (claim c config w now (pre ++ j ∷ post)).0 ≡ pre ++ claim_update config w now j ∷ post
    unfolding claim
    claim_among j w now h =
        ap (λ r. r.0)
          (Update-among (claimable now) (claim_update config w now) pre j post _
            (idle-claims id now pre before) (idle-claims id now post after) h
            (Update-cases c (claimable now) (claim_update config w now) (pre ++ j ∷ post)))

    fail_among :
        (j : DiagnosticJob) (error : StructuredFailure) (now : ℕ) (random : Fraction)
        → j.id ≡ id
        → (fail c config id error now random (pre ++ j ∷ post)).0
          ≡ pre ++ fail_update config error now random j j ∷ post
    fail_among j error now random same =
        ap (λ r. r.0)
          (Update-among (has_id id) (λ k. fail_update config error now random k k) pre j post _
            (idle-fails id pre before) (idle-fails id post after) ((eq_iff j.id id).1 same)
            (fail_cases c config id error now random (pre ++ j ∷ post)))

    pub failing_round :
        (j : DiagnosticJob) (r : Try) (now : ℕ)
        → claimable now j ≡ true
        → j.id ≡ id
        → step c config
            (step c config (pre ++ j ∷ post) (claims r.worker_id now))
            (fails id r.error (now + r.lasted) r.random)
          ≡ pre ++ tried config r now j ∷ post
    unfolding step tried
    failing_round j r now h same =
        rw (claim_among j r.worker_id now h)
          (fail_among _ r.error (now + r.lasted) r.random (unfold claim_update in same))
