-- ===== src/Scenarios/Running.antt =====
-- A worker that takes jobs, and is stopped.
use cloudops_sentinel.Base.{
  max, ◌+◌, ◌≤◌, ◌≡◌, refl, true, false, List, [], ◌∷◌, arith, length, All,
}
use cloudops_sentinel.Errors.{dependency_error}
use cloudops_sentinel.Queue
use cloudops_sentinel.Store
use cloudops_sentinel.Worker
use cloudops_sentinel.Queue.History
use cloudops_sentinel.Worker.{
  WorkerState, WorkerEvent, recovers, fills, claims, throws, signals, loop_ends, exits, fill,
  started, run,
}
use cloudops_sentinel.Worker.Filled.{fill_lem}
use cloudops_sentinel.Worker.Calls.{history_of, IsOwn}
use cloudops_sentinel.Worker.Refines.{run_refines}
use cloudops_sentinel.Worker.Waiting.{IsWaiting}
use cloudops_sentinel.Worker.Drained.{shutdown_drains}
use cloudops_sentinel.Scenarios.FirstMatch.{collection, first}
use cloudops_sentinel.Scenarios.Sample.{queue_config, waiting_job, half}

abbrev at_start : WorkerState
at_start = started (waiting_job ∷ [])

fill_lem_example :
    (fill (2 + 3) 2 at_start ≡ fill 2 2 at_start)
    × (at_start.running ≡ true
        → length (fill 2 2 at_start).inflight ≡ max (length at_start.inflight) 2)
    × (at_start.running ≡ false → fill 2 2 at_start ≡ at_start)
fill_lem_example = fill_lem 2 3 at_start

-- One call claims the job and fails, the other one finds none; then the worker is stopped.
abbrev day : List WorkerEvent
day =
    recovers 6
    ∷ fills
    ∷ claims 0 7
    ∷ claims 1 8
    ∷ signals
    ∷ exits 0
    ∷ throws 0 (dependency_error "no answer" true) 9 half
    ∷ loop_ends
    ∷ exits 0
    ∷ []

run_refines_example :
    ((run collection queue_config "w1" 2 at_start day).jobs
      ≡ History.run collection queue_config
          (waiting_job ∷ [])
          (history_of collection queue_config "w1" 2 at_start day))
    × All
        (IsOwn collection queue_config "w1" 2)
        (history_of collection queue_config "w1" 2 at_start day)
    × (length (run collection queue_config "w1" 2 at_start day).inflight ≤ 2)
run_refines_example = run_refines collection queue_config "w1" 2 at_start day (omega arith)

shutdown_drains_example :
    let s = run collection queue_config "w1" 2 (started (waiting_job ∷ [])) day in
    All (IsWaiting s) s.awaited × (s.exited ≡ true → (s.inflight ≡ []) × (s.looping ≡ false))
shutdown_drains_example = shutdown_drains collection queue_config "w1" 2 (waiting_job ∷ []) day

-- The first attempt to exit is too early, the last one is not.
day_ends : (run collection queue_config "w1" 2 at_start day).exited ≡ true
unfolding run Worker.step fill Worker.spawn Worker.work_step Queue.claim Store.find_one_and_update
    first Queue.recover_abandoned Store.update_many Queue.claimable Queue.abandoned
    Queue.claim_update Worker.try_exit
day_ends = refl
