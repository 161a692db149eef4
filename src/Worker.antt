-- ===== src/Worker.antt =====
-- apps/worker/src/index.ts: the loop that starts the work, and the shutdown. A work is one call of
-- `processNext`; what happens next (a part of a round of the loop, a step of a work, a signal) is an event,
-- and the heartbeats are those of processor.ts. The metrics server and the logs are left out.
pub mod Filled
pub mod Bounded
pub mod Calls
pub mod Refines
pub mod Waiting
pub mod Drained
use cloudops_sentinel.Base.{
  ℕ, zero, suc, ◌+◌, String, Bool, true, false, not, ◌&&◌, Option, none, some, List, [], ◌∷◌, ltb,
  nat_eq, if◌then◌else◌, length, filter, any, map,
}
use cloudops_sentinel.Errors.{AppError}
use cloudops_sentinel.Store.{Collection}
use cloudops_sentinel.Types.Job.{DiagnosticJob, JobResultSummary}
use cloudops_sentinel.Observability.Backoff.{Fraction}
use cloudops_sentinel.Queue.{JobQueueConfig, claim, heartbeat, complete, fail, recover_abandoned}
use cloudops_sentinel.Processor.{failure_of}

-- Where a call of `processNext` stands: before its claim, or at the run of a job that it claimed.
pub data Work : Type 0 where
  starting : Work
  processing : (job_id : String) → Work

-- `awaited` holds, for each signal, the work that its shutdown waits for.
pub record WorkerState : Type 0 where
  pub running : Bool
  pub looping : Bool
  pub exited : Bool
  pub next_id : ℕ
  pub inflight : List (ℕ × Work)
  pub awaited : List (List ℕ)
  pub jobs : List DiagnosticJob

pub data WorkerEvent : Type 0 where
  -- The two parts of a round of the loop, between which other events may come, and of which either
  -- is missing where something throws.
  recovers : (now : ℕ) → WorkerEvent
  fills : WorkerEvent
  claims : (id now : ℕ) → WorkerEvent
  -- The call rejects, with nothing written.
  rejects : (id : ℕ) → WorkerEvent
  beats : (id now : ℕ) → WorkerEvent
  succeeds : (id : ℕ) → JobResultSummary → (now : ℕ) → WorkerEvent
  throws : (id : ℕ) → AppError → (now : ℕ) → Fraction → WorkerEvent
  signals : WorkerEvent
  loop_ends : WorkerEvent
  exits : (signal : ℕ) → WorkerEvent

abbrev pub work_of : ℕ → List (ℕ × Work) → Option Work
work_of id [] = none
work_of id ((i, w) ∷ rest) = if nat_eq i id then some w else work_of id rest

-- `inflight.delete(work)`.
abbrev pub removed : ℕ → List (ℕ × Work) → List (ℕ × Work)
removed id = filter (λ x. not (nat_eq x.0 id))

abbrev pub set_work : ℕ → Work → List (ℕ × Work) → List (ℕ × Work)
set_work id w = map (λ x. if nat_eq x.0 id then (x.0, w) else x)

abbrev pub nth : {A : Type 0} → ℕ → List A → Option A
nth n [] = none
nth zero (x ∷ xs) = some x
nth (suc n) (x ∷ xs) = nth n xs

abbrev pub is_among : List ℕ → ℕ → Bool
is_among ids i = any (nat_eq i) ids

-- `spawn()`.
unfoldable pub spawn : WorkerState → WorkerState
spawn s = record s { next_id = s.next_id + 1; inflight = (s.next_id, starting) ∷ s.inflight }

-- The inner loop of a round, on fuel.
unfoldable pub fill : (fuel concurrency : ℕ) → WorkerState → WorkerState
fill zero concurrency s = s
fill (suc fuel) concurrency s =
    let rest = fill fuel concurrency (spawn s) in
    if s.running && ltb (length s.inflight) concurrency then rest else s

module _ (c : Collection DiagnosticJob) (config : JobQueueConfig) (worker_id : String)
    (concurrency : ℕ) where
  abbrev pub claimed_work :
      ℕ → WorkerState → List DiagnosticJob × Option DiagnosticJob → WorkerState
  claimed_work id s (jobs, none) = record s { jobs = jobs; inflight = removed id s.inflight }
  claimed_work id s (jobs, some job) = record s {
    jobs = jobs;
    inflight = set_work id (processing job.id) s.inflight;
  }

  -- The next step of a work, if it is there and stands where the event happens.
  unfoldable pub work_step : WorkerEvent → Option Work → WorkerState → WorkerState
  work_step (claims id now) (some starting) s =
      claimed_work id s (claim c config worker_id now s.jobs)
  work_step (rejects id) (some w) s = record s { inflight = removed id s.inflight }
  work_step (beats id now) (some (processing job_id)) s = record s {
    jobs = (heartbeat c config job_id worker_id now s.jobs).0;
  }
  work_step (succeeds id summary now) (some (processing job_id)) s = record s {
    jobs = (complete c config job_id summary now s.jobs).0;
    inflight = removed id s.inflight;
  }
  work_step (throws id e now random) (some (processing job_id)) s = record s {
    jobs = (fail c config job_id (failure_of e now) now random s.jobs).0;
    inflight = removed id s.inflight;
  }
  work_step _ _ s = s

  -- A shutdown exits when the work that it waits for has settled and the loop has ended.
  unfoldable pub try_exit : Option (List ℕ) → WorkerState → WorkerState
  try_exit none s = s
  try_exit (some ids) s =
      if not (any (λ x. is_among ids x.0) s.inflight) && not s.looping
      then record s { exited = true }
      else s

  unfoldable pub step : WorkerState → WorkerEvent → WorkerState
  step s (recovers now) =
      if s.looping then record s { jobs = (recover_abandoned now s.jobs).0 } else s
  step s fills = if s.looping then fill concurrency concurrency s else s
  step s (claims id now) = work_step (claims id now) (work_of id s.inflight) s
  step s (rejects id) = work_step (rejects id) (work_of id s.inflight) s
  step s (beats id now) = work_step (beats id now) (work_of id s.inflight) s
  step s (succeeds id summary now) = work_step (succeeds id summary now) (work_of id s.inflight) s
  step s (throws id e now random) = work_step (throws id e now random) (work_of id s.inflight) s
  step s signals = record s { running = false; awaited = map (λ x. x.0) s.inflight ∷ s.awaited }
  step s loop_ends = if s.running then s else record s { looping = false }
  step s (exits signal) = try_exit (nth signal s.awaited) s

  -- An exited process takes no further step.
  unfoldable pub run : WorkerState → List WorkerEvent → WorkerState
  run s [] = s
  run s (e ∷ es) = run (if s.exited then s else step s e) es

-- The process when the loop starts.
abbrev pub started : List DiagnosticJob → WorkerState
started jobs = record {
  running = true;
  looping = true;
  exited = false;
  next_id = 0;
  inflight = [];
  awaited = [];
  jobs = jobs;
}
