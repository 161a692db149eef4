-- ===== src/Scenarios/Queueing.antt =====
-- The queue of queue.ts on small collections.
use cloudops_sentinel.Base.{
  eq_iff, ℕ, ◌+◌, ◌*◌, ◌≤◌, ◌≡◌, refl, ◌≢◌, ◌⊎◌, true, false, none, some, List, [], ◌∷◌, ◌++◌,
  arith, All,
}
use cloudops_sentinel.Types.{JobStatus, retry_wait, dead_lettered}
use cloudops_sentinel.Types.Job.{DiagnosticJob}
use cloudops_sentinel.Queue.{
  claim, complete, fail, claimable, claim_update, pending_depth, recover_abandoned,
}
use cloudops_sentinel.Queue.History.{QueueEvent, claims, heartbeats, fails, recovers, run}
use cloudops_sentinel.Queue.Claims.{claim_takes}
use cloudops_sentinel.Queue.Lease.{Held, HeldIfNamed, run-HeldIfNamed}
use cloudops_sentinel.Queue.Attempts.{Budget, run-Budget}
use cloudops_sentinel.Queue.Depth.{HasLapsed, TakesBack, recover_abandoned_lem}
use cloudops_sentinel.Queue.Outcomes.{complete_lem}
use cloudops_sentinel.Store.{find_one_and_update}
use cloudops_sentinel.Scenarios.Sample.{
  queue_config, half, waiting_job, running_job, timeout, summary,
}
use cloudops_sentinel.Scenarios.FirstMatch.{first, collection}
use cloudops_sentinel.Queue.Failures.{fail_lem, FailedTo}
use cloudops_sentinel.Queue.Tries.{Try, failing_events}
use cloudops_sentinel.Queue.Rounds.{crash_attempts, crash_events, failing_dead_letters}

abbrev running_job' : DiagnosticJob
running_job' = record waiting_job {
  status = JobStatus.running;
  claimed_by = some "w1";
  lease_until = some 40;
  heartbeat_at = some 10;
  attempts = 1;
  version = 2;
}

claim_takes_example :
    (pre : List DiagnosticJob) × (old : DiagnosticJob) × (post : List DiagnosticJob) × (waiting_job
        ∷ []
      ≡ pre ++ old ∷ post)
    × ((claim collection queue_config "w1" 10 (waiting_job ∷ [])).0 ≡ pre ++ running_job' ∷ post)
    × ((old.status ≡ JobStatus.pending) ⊎ (old.status ≡ retry_wait))
    × (old.next_run_at ≤ 10)
    × ((old.lease_until ≡ none) ⊎ ((t : ℕ) × (old.lease_until ≡ some t) × (t ≤ 10)))
    × (running_job' ≡ claim_update queue_config "w1" 10 old)
unfolding claim claim_update claimable first find_one_and_update
claim_takes_example = claim_takes collection queue_config "w1" 10 (waiting_job ∷ []) refl

running_job-Held : Held "w1" 1 40 running_job
running_job-Held = record {
  runs = refl;
  owner = refl;
  tries = refl;
  lease = (40, refl, omega arith);
}

abbrev busy : List QueueEvent
busy = claims "w2" 12 ∷ heartbeats "j1" "w1" 20 ∷ recovers 30 ∷ []

run-HeldIfNamed_example :
    All (HeldIfNamed "w1" "j1" 1 40) (run collection queue_config (running_job ∷ []) busy)
run-HeldIfNamed_example =
    run-HeldIfNamed "w1" "j1" 1 40 collection queue_config (running_job ∷ []) busy
      (tt, ((λ e. omega arith), (omega arith, tt))) ((λ e. running_job-Held), tt)

abbrev tries : List QueueEvent
tries = claims "w1" 10 ∷ fails "j1" timeout 20 half ∷ []

run-Budget_example : All Budget (run collection queue_config (waiting_job ∷ []) tries)
run-Budget_example =
    run-Budget collection queue_config (waiting_job ∷ []) tries (tt, (tt, tt))
      (record { spent = omega arith; left = λ w. omega arith }, tt)

crash_attempts_example :
    (k : DiagnosticJob) × (run collection queue_config
        (waiting_job ∷ [])
        (crash_events collection queue_config 5 "w1" 10)
      ≡ k ∷ [])
    × (claimable (10 + 5 * 30) k ≡ true)
    × (k.attempts ≡ 0 + 5)
    × (k.max_attempts ≡ 3)
unfolding claimable
crash_attempts_example = crash_attempts collection queue_config 5 waiting_job "w1" 10 refl

-- Two workers, a failure that takes a while, a retry that begins late, and a last failure.
abbrev first_try : Try
first_try = record { worker_id = "w1"; lasted = 4; error = timeout; random = half; waited = 0 }

abbrev late_try : Try
late_try = record { worker_id = "w2"; lasted = 9; error = timeout; random = half; waited = 100 }

abbrev last_try : Try
last_try = record first_try { error = record timeout { retryable = false } }

abbrev other_job : DiagnosticJob
other_job = record running_job { id = "j2" }

failing_dead_letters_example :
    (k : DiagnosticJob) × (run collection queue_config
        (other_job ∷ waiting_job ∷ [])
        (failing_events collection queue_config (first_try ∷ late_try ∷ last_try ∷ []) "j1" 0 10)
      ≡ other_job ∷ k ∷ [])
    × (k.status ≡ dead_lettered)
    × (k.attempts ≡ 3)
    × (k.last_error ≡ some last_try.error)
unfolding claimable
failing_dead_letters_example =
    failing_dead_letters collection queue_config "j1" (other_job ∷ []) []
      ((refl, λ e. absurd (cc ((eq_iff "j2" "j1").1 e))), tt) tt (first_try ∷ late_try ∷ [])
      last_try waiting_job 10 refl refl (refl, (refl, tt)) refl

recover_abandoned_lem_example :
    TakesBack 50
      (running_job ∷ [])
      (recover_abandoned 50 (running_job ∷ [])).0
      (recover_abandoned 50 (running_job ∷ [])).1
    × (pending_depth (recover_abandoned 50 (running_job ∷ [])).0
        ≡ pending_depth (running_job ∷ []) + (recover_abandoned 50 (running_job ∷ [])).1)
    × All (λ j. ¬ HasLapsed 50 j) (recover_abandoned 50 (running_job ∷ [])).0
recover_abandoned_lem_example = recover_abandoned_lem 50 (running_job ∷ [])

complete_lem_example :
    ((complete collection queue_config "j1" summary 20 (running_job ∷ [])
        ≡ ((running_job ∷ []), none))
      × All (λ j. j.id ≢ "j1") (running_job ∷ []))
    ⊎ ((pre : List DiagnosticJob) × (j : DiagnosticJob) × (post : List DiagnosticJob)
        × ((running_job ∷ []) ≡ pre ++ j ∷ post)
        × (j.id ≡ "j1")
        × (k : DiagnosticJob) × (complete collection queue_config "j1" summary 20 (running_job ∷ [])
            ≡ (pre ++ k ∷ post, some k))
        × (k.status ≡ JobStatus.completed)
        × (k.result_summary ≡ some summary)
        × (k.completed_at ≡ some 20)
        × (k.lease_until ≡ none)
        × (k.last_error ≡ none)
        × (k.claimed_by ≡ j.claimed_by)
        × (k.attempts ≡ j.attempts)
        × (k.version ≡ j.version))
complete_lem_example = complete_lem collection queue_config "j1" summary 20 (running_job ∷ [])

fail_lem_example :
    ((fail collection queue_config "j1" timeout 20 half (running_job ∷ [])
        ≡ ((running_job ∷ []), none))
      × All (λ j. j.id ≢ "j1") (running_job ∷ []))
    ⊎ ((pre : List DiagnosticJob) × (j : DiagnosticJob) × (post : List DiagnosticJob)
        × ((running_job ∷ []) ≡ pre ++ j ∷ post)
        × (j.id ≡ "j1")
        × (k : DiagnosticJob) × (fail collection queue_config "j1" timeout 20 half
              (running_job ∷ [])
            ≡ (pre ++ k ∷ post, some k))
        × FailedTo queue_config timeout 20 j k
        × (k.last_error ≡ some timeout)
        × (k.lease_until ≡ none)
        × (k.attempts ≡ j.attempts)
        × (k.claimed_by ≡ j.claimed_by))
fail_lem_example =
    fail_lem collection queue_config "j1" timeout 20 half (running_job ∷ []) (omega arith)
