-- ===== src/Queue.antt =====
-- packages/shared/src/jobs/queue.ts: the job queue over the collection of diagnostic jobs. The
-- time of a call is an argument, one reading for each place where the source reads the clock.
pub mod Cases
pub mod Lease
pub mod History
pub mod Claims
pub mod Attempts
pub mod Tries
pub mod Rounds
pub mod Depth
pub mod Outcomes
pub mod Failures
use cloudops_sentinel.Base.{
  ℕ, ◌+◌, String, ◌==◌, Bool, true, false, ◌&&◌, Option, none, some, List, leb, if◌then◌else◌,
  count,
}
use cloudops_sentinel.Observability.Backoff.{Fraction, exponential_backoff_with_jitter}
use cloudops_sentinel.Store.{Collection, find_one, find_one_and_update, update_many}
use cloudops_sentinel.Types.{JobStatus, pending, running, retry_wait, completed, dead_lettered}
use cloudops_sentinel.Types.Job.{DiagnosticJob, StructuredFailure, JobResultSummary}

pub record JobQueueConfig : Type 0 where
  pub lease_ms : ℕ
  pub max_attempts : ℕ
  pub backoff_base_ms : ℕ
  pub backoff_max_ms : ℕ

-- status ∈ {pending, retry_wait}.
abbrev pub is_waiting : JobStatus → Bool
is_waiting JobStatus.pending = true
is_waiting retry_wait = true
is_waiting _ = false

abbrev pub is_running : JobStatus → Bool
is_running JobStatus.running = true
is_running _ = false

abbrev pub lease_is_over : Option ℕ → ℕ → Bool
lease_is_over none now = true
lease_is_over (some t) now = leb t now

abbrev pub claimed_by_is : Option String → String → Bool
claimed_by_is none w = false
claimed_by_is (some v) w = v == w

-- leaseUntil: { $lte: now }, which null does not match.
abbrev pub lease_expired : Option ℕ → ℕ → Bool
lease_expired none now = false
lease_expired (some t) now = leb t now

abbrev pub has_id : String → DiagnosticJob → Bool
has_id id j = j.id == id

-- The filter of `claim`.
unfoldable pub claimable : ℕ → DiagnosticJob → Bool
claimable now j = is_waiting j.status && leb j.next_run_at now && lease_is_over j.lease_until now

unfoldable pub claim_update : JobQueueConfig → String → ℕ → DiagnosticJob → DiagnosticJob
claim_update config worker_id now j = record j {
  status = JobStatus.running;
  claimed_by = some worker_id;
  lease_until = some (now + config.lease_ms);
  heartbeat_at = some now;
  attempts = j.attempts + 1;
  version = j.version + 1;
}

-- The filter of `heartbeat`.
unfoldable pub beats : String → String → DiagnosticJob → Bool
beats job_id worker_id j =
    has_id job_id j && claimed_by_is j.claimed_by worker_id && is_running j.status

unfoldable pub heartbeat_update : JobQueueConfig → ℕ → DiagnosticJob → DiagnosticJob
heartbeat_update config now j = record j {
  heartbeat_at = some now;
  lease_until = some (now + config.lease_ms);
}

unfoldable pub complete_update : JobResultSummary → ℕ → DiagnosticJob → DiagnosticJob
complete_update summary now j = record j {
  status = JobStatus.completed;
  result_summary = some summary;
  completed_at = some now;
  lease_until = none;
  last_error = none;
}

unfoldable pub dead_letter_update : StructuredFailure → ℕ → DiagnosticJob → DiagnosticJob
dead_letter_update error now j = record j {
  status = dead_lettered;
  last_error = some error;
  lease_until = none;
  completed_at = some now;
}

unfoldable pub retry_update : StructuredFailure → (run_at : ℕ) → DiagnosticJob → DiagnosticJob
retry_update error run_at j = record j {
  status = retry_wait;
  last_error = some error;
  lease_until = none;
  next_run_at = run_at;
}

-- The filter of `recoverAbandoned`.
unfoldable pub abandoned : ℕ → DiagnosticJob → Bool
abandoned now j = is_running j.status && lease_expired j.lease_until now

unfoldable pub recover_update : ℕ → DiagnosticJob → DiagnosticJob
recover_update now j = record j {
  status = retry_wait;
  next_run_at = now;
  lease_until = none;
  claimed_by = none;
}

-- The delay before the next run of a job that was tried `attempts` times.
abbrev pub retry_delay : JobQueueConfig → (attempts : ℕ) → Fraction → ℕ
retry_delay config attempts random =
    exponential_backoff_with_jitter
      (record {
        attempt = attempts;
        base_ms = config.backoff_base_ms;
        max_ms = config.backoff_max_ms;
        jitter_ratio = none;
      })
      random

unfoldable pub gives_up : StructuredFailure → DiagnosticJob → Bool
gives_up error j =
    if leb j.max_attempts j.attempts then true else if error.retryable then false else true

-- What `fail` does to the job that it read.
unfoldable pub fail_update :
    JobQueueConfig
    → StructuredFailure
    → (now : ℕ) → Fraction
    → (read : DiagnosticJob) → DiagnosticJob
    → DiagnosticJob
unfolding gives_up dead_letter_update retry_update
fail_update config error now random read j =
    if gives_up error read
    then dead_letter_update error now j
    else retry_update error (now + retry_delay config read.attempts random) j

unfoldable pub pending_depth : List DiagnosticJob → ℕ
pending_depth = count (λ j. is_waiting j.status)

unfoldable pub recover_abandoned : ℕ → List DiagnosticJob → List DiagnosticJob × ℕ
recover_abandoned now jobs = update_many (abandoned now) (recover_update now) jobs

module _ (c : Collection DiagnosticJob) (config : JobQueueConfig) where
  unfoldable pub claim : String → ℕ → List DiagnosticJob → List DiagnosticJob × Option DiagnosticJob
  claim worker_id now jobs =
      find_one_and_update c (claimable now) (claim_update config worker_id now) jobs

  unfoldable pub heartbeat :
      String → String → ℕ → List DiagnosticJob → List DiagnosticJob × Option DiagnosticJob
  heartbeat job_id worker_id now jobs =
      find_one_and_update c (beats job_id worker_id) (heartbeat_update config now) jobs

  unfoldable pub complete :
      String → JobResultSummary → ℕ → List DiagnosticJob → List DiagnosticJob × Option DiagnosticJob
  complete job_id summary now jobs =
      find_one_and_update c (has_id job_id) (complete_update summary now) jobs

  -- The read and the write of `fail`, with nothing in between.
  unfoldable pub fail :
      String
      → StructuredFailure
      → (now : ℕ) → Fraction
      → List DiagnosticJob
      → List DiagnosticJob × Option DiagnosticJob
  fail job_id error now random jobs = elim (find_one c (has_id job_id) jobs) [
    | none ↦ (jobs, none)
    | some job ↦
        find_one_and_update c (has_id job_id) (fail_update config error now random job) jobs
  ]
