-- ===== src/Worker/Bounded.antt =====
-- How many calls of `processNext` worker/src/index.ts has in flight.
use cloudops_sentinel.Base.{
  ℕ, ◌≤◌, String, ◌≡◌, refl, ap, inl, inr, Bool, true, false, not, ◌&&◌, Option, none, some, List,
  [], ◌∷◌, arith, nat_eq, if◌then◌else◌, Bool-cases, length, any, count-le-length, length-filter,
  length-map,
}
use cloudops_sentinel.Store.{Collection}
use cloudops_sentinel.Types.Job.{DiagnosticJob}
use cloudops_sentinel.Queue.{JobQueueConfig, claim, recover_abandoned}
use cloudops_sentinel.Worker.{
  WorkerState, WorkerEvent, Work, starting, processing, recovers, fills, fill, claims, rejects,
  beats, succeeds, throws, signals, loop_ends, exits, work_of, removed, claimed_work, work_step,
  nth, is_among, try_exit, step, run,
}
use cloudops_sentinel.Worker.Filled.{length-fill, fill_stopped}

removed_shorter : (id : ℕ) (ws : List (ℕ × Work)) → length (removed id ws) ≤ length ws
removed_shorter id ws = omega (
  arith,
  length-filter (λ (x : ℕ × Work). not (nat_eq x.0 id)) ws,
  count-le-length (λ (x : ℕ × Work). not (nat_eq x.0 id)) ws,
)

module _ (c : Collection DiagnosticJob) (config : JobQueueConfig) (worker_id : String)
    (concurrency : ℕ) where
  -- What one event does to the number in flight: only the inner loop raises it.
  abbrev NotMore : WorkerState → WorkerState → Type 0
  NotMore s t = length t.inflight ≤ length s.inflight

  claimed_less :
      (id : ℕ) (s : WorkerState) (r : List DiagnosticJob × Option DiagnosticJob)
      → NotMore s (claimed_work c config worker_id concurrency id s r)
  claimed_less id s (jobs, none) = removed_shorter id s.inflight
  claimed_less id s (jobs, some job) = omega (
    arith,
    length-map (λ (x : ℕ × Work). if nat_eq x.0 id then (x.0, processing job.id) else x) s.inflight,
  )

  pub work_less :
      (e : WorkerEvent) (w : Option Work) (s : WorkerState)
      → NotMore s (work_step c config worker_id concurrency e w s)
  unfolding work_step
  work_less (claims id now) (some starting) s =
      claimed_less id s (claim c config worker_id now s.jobs)
  work_less (claims id now) (some (processing _)) s = omega arith
  work_less (claims id now) none s = omega arith
  work_less (rejects id) none s = omega arith
  work_less (rejects id) (some w) s = removed_shorter id s.inflight
  work_less (beats id now) (some (processing job_id)) s = omega arith
  work_less (beats id now) (some starting) s = omega arith
  work_less (beats id now) none s = omega arith
  work_less (succeeds id summary now) (some (processing job_id)) s = removed_shorter id s.inflight
  work_less (succeeds id summary now) (some starting) s = omega arith
  work_less (succeeds id summary now) none s = omega arith
  work_less (throws id e now random) (some (processing job_id)) s = removed_shorter id s.inflight
  work_less (throws id e now random) (some starting) s = omega arith
  work_less (throws id e now random) none s = omega arith
  work_less (recovers now) w s = omega arith
  work_less fills w s = omega arith
  work_less signals w s = omega arith
  work_less loop_ends w s = omega arith
  work_less (exits n) w s = omega arith

  pub exit_same :
      (w : Option (List ℕ)) (s : WorkerState)
      → (try_exit c config worker_id concurrency w s).inflight ≡ s.inflight
  unfolding try_exit
  exit_same none s = refl
  exit_same (some ids) s =
      elim (Bool-cases (not (any (λ x. is_among ids x.0) s.inflight) && not s.looping)) [
        | inl done ↦ rw done refl
        | inr not_yet ↦ rw not_yet refl
      ]

  bounded_if :
      (b : Bool) (s t : WorkerState)
      → length s.inflight ≤ concurrency
      → length t.inflight ≤ concurrency
      → length (if b then s else t).inflight ≤ concurrency
  bounded_if true s t h k = h
  bounded_if false s t h k = k

  fill_bounded :
      (s : WorkerState)
      → length s.inflight ≤ concurrency
      → length (fill concurrency concurrency s).inflight ≤ concurrency
  fill_bounded s h = elim (Bool-cases s.running) [
    | inl on ↦ omega (arith, length-fill concurrency concurrency s on (omega arith))
    | inr off ↦ rw (fill_stopped concurrency concurrency s off) h
  ]

  step_bounded :
      (s : WorkerState) (e : WorkerEvent)
      → length s.inflight ≤ concurrency
      → length (step c config worker_id concurrency s e).inflight ≤ concurrency
  unfolding step
  step_bounded s (recovers now) h =
      bounded_if s.looping (record s { jobs = (recover_abandoned now s.jobs).0 }) s h h
  step_bounded s fills h =
      bounded_if s.looping (fill concurrency concurrency s) s (fill_bounded s h) h
  step_bounded s (claims id now) h =
      omega (arith, h, work_less (claims id now) (work_of id s.inflight) s)
  step_bounded s (rejects id) h = omega (arith, h, work_less (rejects id) (work_of id s.inflight) s)
  step_bounded s (beats id now) h =
      omega (arith, h, work_less (beats id now) (work_of id s.inflight) s)
  step_bounded s (succeeds id summary now) h =
      omega (arith, h, work_less (succeeds id summary now) (work_of id s.inflight) s)
  step_bounded s (throws id e now random) h =
      omega (arith, h, work_less (throws id e now random) (work_of id s.inflight) s)
  step_bounded s signals h = h
  step_bounded s loop_ends h = bounded_if s.running s (record s { looping = false }) h h
  step_bounded s (exits n) h = omega (arith, h, ap length (exit_same (nth n s.awaited) s))

  pub run_bounded :
      (s : WorkerState) (es : List WorkerEvent)
      → length s.inflight ≤ concurrency
      → length (run c config worker_id concurrency s es).inflight ≤ concurrency
  unfolding run
  run_bounded s [] h = h
  run_bounded s (e ∷ es) h =
      run_bounded (if s.exited then s else step c config worker_id concurrency s e) es
        (bounded_if s.exited s (step c config worker_id concurrency s e) h (step_bounded s e h))
