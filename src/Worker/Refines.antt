-- ===== src/Worker/Refines.antt =====
-- What the worker of worker/src/index.ts does to the jobs is a history of the queue.
use cloudops_sentinel.Base.{
  ℕ, zero, suc, ◌≤◌, String, ◌≡◌, refl, sym, ap, ◌∙◌, inl, inr, Bool, true, false, not, ◌&&◌,
  Option, none, some, List, [], ◌∷◌, ◌++◌, ltb, if◌then◌else◌, Bool-cases, length, any, All,
}
use cloudops_sentinel.Store.{Collection}
use cloudops_sentinel.Types.Job.{DiagnosticJob}
use cloudops_sentinel.Queue.{JobQueueConfig, claim}
use cloudops_sentinel.Queue.History
use cloudops_sentinel.Queue.History.{QueueEvent}
use cloudops_sentinel.Worker.{
  is_among, WorkerState, WorkerEvent, Work, starting, processing, recovers, fills, claims, rejects,
  beats, succeeds, throws, signals, loop_ends, exits, work_of, spawn, fill, claimed_work, work_step,
  nth, try_exit, step, run,
}
use cloudops_sentinel.Worker.Bounded.{run_bounded}
use cloudops_sentinel.Worker.Calls.{work_calls, queue_calls, history_of, IsOwn, history-IsOwn}

fill_jobs : (fuel concurrency : ℕ) (s : WorkerState) → (fill fuel concurrency s).jobs ≡ s.jobs
unfolding fill spawn
fill_jobs zero concurrency s = refl
fill_jobs (suc fuel) concurrency s =
    elim (Bool-cases (s.running && ltb (length s.inflight) concurrency)) [
      | inl more ↦ rw more (fill_jobs fuel concurrency (spawn s))
      | inr done ↦ rw done refl
    ]

module _ (c : Collection DiagnosticJob) (config : JobQueueConfig) (worker_id : String)
    (concurrency : ℕ) where
  claimed_jobs :
      (id : ℕ) (s : WorkerState) (r : List DiagnosticJob × Option DiagnosticJob)
      → (claimed_work c config worker_id concurrency id s r).jobs ≡ r.0
  claimed_jobs id s (jobs, none) = refl
  claimed_jobs id s (jobs, some job) = refl

  work_step_jobs :
      (e : WorkerEvent) (w : Option Work) (s : WorkerState)
      → (work_step c config worker_id concurrency e w s).jobs
        ≡ History.run c config s.jobs (work_calls c config worker_id concurrency e w)
  unfolding work_step History.run
  work_step_jobs (claims id now) (some starting) s =
      claimed_jobs id s (claim c config worker_id now s.jobs)
  work_step_jobs (claims id now) (some (processing _)) s = refl
  work_step_jobs (claims id now) none s = refl
  work_step_jobs (rejects id) none s = refl
  work_step_jobs (rejects id) (some w) s = refl
  work_step_jobs (beats id now) (some (processing job_id)) s = refl
  work_step_jobs (beats id now) (some starting) s = refl
  work_step_jobs (beats id now) none s = refl
  work_step_jobs (succeeds id summary now) (some (processing job_id)) s = refl
  work_step_jobs (succeeds id summary now) (some starting) s = refl
  work_step_jobs (succeeds id summary now) none s = refl
  work_step_jobs (throws id e now random) (some (processing job_id)) s = refl
  work_step_jobs (throws id e now random) (some starting) s = refl
  work_step_jobs (throws id e now random) none s = refl
  work_step_jobs (recovers now) w s = refl
  work_step_jobs fills w s = refl
  work_step_jobs signals w s = refl
  work_step_jobs loop_ends w s = refl
  work_step_jobs (exits n) w s = refl

  exit_jobs :
      (w : Option (List ℕ)) (s : WorkerState)
      → (try_exit c config worker_id concurrency w s).jobs ≡ s.jobs
  unfolding try_exit
  exit_jobs none s = refl
  exit_jobs (some ids) s =
      elim (Bool-cases (not (any (λ x. is_among ids x.0) s.inflight) && not s.looping)) [
        | inl done ↦ rw done refl
        | inr not_yet ↦ rw not_yet refl
      ]

  step_jobs :
      (s : WorkerState) (e : WorkerEvent)
      → (step c config worker_id concurrency s e).jobs
        ≡ History.run c config s.jobs (queue_calls c config worker_id concurrency s e)
  unfolding step History.run
  step_jobs s (recovers now) = elim (Bool-cases s.looping) [
    | inl on ↦ rw on refl
    | inr off ↦ rw off refl
  ]
  step_jobs s fills = elim (Bool-cases s.looping) [
    | inl on ↦ rw on (fill_jobs concurrency concurrency _)
    | inr off ↦ rw off refl
  ]
  step_jobs s (claims id now) = work_step_jobs (claims id now) (work_of id s.inflight) s
  step_jobs s (rejects id) = work_step_jobs (rejects id) (work_of id s.inflight) s
  step_jobs s (beats id now) = work_step_jobs (beats id now) (work_of id s.inflight) s
  step_jobs s (succeeds id summary now) =
      work_step_jobs (succeeds id summary now) (work_of id s.inflight) s
  step_jobs s (throws id e now random) =
      work_step_jobs (throws id e now random) (work_of id s.inflight) s
  step_jobs s signals = refl
  step_jobs s loop_ends = elim (Bool-cases s.running) [
    | inl on ↦ rw on refl
    | inr off ↦ rw off refl
  ]
  step_jobs s (exits n) = exit_jobs (nth n s.awaited) s

  unless_exited :
      (b : Bool) (s t : WorkerState) (calls : List QueueEvent)
      → t.jobs ≡ History.run c config s.jobs calls
      → (if b then s else t).jobs ≡ History.run c config s.jobs (if b then [] else calls)
  unfolding History.run
  unless_exited true s t calls h = refl
  unless_exited false s t calls h = h

  run-append :
      (jobs : List DiagnosticJob) (xs ys : List QueueEvent)
      → History.run c config jobs (xs ++ ys)
        ≡ History.run c config (History.run c config jobs xs) ys
  unfolding History.run
  run-append jobs [] ys = refl
  run-append jobs (x ∷ xs) ys = run-append (History.step c config jobs x) xs ys

  run_jobs :
      (s : WorkerState) (es : List WorkerEvent)
      → (run c config worker_id concurrency s es).jobs
        ≡ History.run c config s.jobs (history_of c config worker_id concurrency s es)
  unfolding run History.run
  run_jobs s [] = refl
  run_jobs s (e ∷ es) =
      run_jobs (if s.exited then s else step c config worker_id concurrency s e) es
      ∙ ap
          (λ jobs. History.run c config jobs (
            history_of c config worker_id concurrency
              (if s.exited then s else step c config worker_id concurrency s e) es))
          (unless_exited s.exited s (step c config worker_id concurrency s e)
            (queue_calls c config worker_id concurrency s e) (step_jobs s e))
      ∙ sym (
          run-append s.jobs
            (if s.exited then [] else queue_calls c config worker_id concurrency s e) _)

  -- Whatever happens to the worker, in any order, it changes the jobs as a history of calls of the
  -- queue does, whose claims and heartbeats are all in the worker's own name; and it never has more
  -- calls of the processor in flight than it may, if it has not at the start.
  pub run_refines :
      (s : WorkerState) (es : List WorkerEvent)
      → length s.inflight ≤ concurrency
      → ((run c config worker_id concurrency s es).jobs
          ≡ History.run c config s.jobs (history_of c config worker_id concurrency s es))
        × All
            (IsOwn c config worker_id concurrency)
            (history_of c config worker_id concurrency s es)
        × (length (run c config worker_id concurrency s es).inflight ≤ concurrency)
  run_refines s es h = (
    run_jobs s es,
    history-IsOwn c config worker_id concurrency s es,
    run_bounded c config worker_id concurrency s es h,
  )
