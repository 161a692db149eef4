-- ===== src/Queue/History.antt =====
-- Histories of calls of the job queue of queue.ts, from any number of workers and in any order.
use cloudops_sentinel.Base.{ℕ, String, List, [], ◌∷◌}
use cloudops_sentinel.Observability.Backoff.{Fraction}
use cloudops_sentinel.Store.{Collection}
use cloudops_sentinel.Types.Job.{DiagnosticJob, StructuredFailure, JobResultSummary}
use cloudops_sentinel.Queue.{JobQueueConfig, claim, heartbeat, complete, fail, recover_abandoned}

pub data QueueEvent : Type 0 where
  claims : (worker_id : String) (now : ℕ) → QueueEvent
  heartbeats : (job_id worker_id : String) (now : ℕ) → QueueEvent
  completes : (job_id : String) → JobResultSummary → (now : ℕ) → QueueEvent
  fails : (job_id : String) → StructuredFailure → (now : ℕ) → Fraction → QueueEvent
  recovers : (now : ℕ) → QueueEvent

module _ (c : Collection DiagnosticJob) (config : JobQueueConfig) where
  unfoldable pub step : List DiagnosticJob → QueueEvent → List DiagnosticJob
  step jobs (claims worker_id now) = (claim c config worker_id now jobs).0
  step jobs (heartbeats job_id worker_id now) = (heartbeat c config job_id worker_id now jobs).0
  step jobs (completes job_id summary now) = (complete c config job_id summary now jobs).0
  step jobs (fails job_id error now random) = (fail c config job_id error now random jobs).0
  step jobs (recovers now) = (recover_abandoned now jobs).0

  unfoldable pub run : List DiagnosticJob → List QueueEvent → List DiagnosticJob
  unfolding step
  run jobs [] = jobs
  run jobs (e ∷ es) = run (step jobs e) es
