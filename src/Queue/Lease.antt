-- ===== src/Queue/Lease.antt =====
-- A lease protects a running job: what queue.ts guarantees to the worker that holds it.
use cloudops_sentinel.Base.{
  ℕ, ◌+◌, ◌≤◌, ◌<◌, String, ◌≡◌, refl, sym, ◌∙◌, ◌≢◌, true, false, some, List, [], ◌∷◌, arith,
  eq_iff, leb→le, All,
}
use cloudops_sentinel.Store.{Collection}
use cloudops_sentinel.Store.Laws.{find_one_and_update-All, update_many-All, Update-All}
use cloudops_sentinel.Types.{JobStatus}
use cloudops_sentinel.Types.Job.{DiagnosticJob, StructuredFailure}
use cloudops_sentinel.Observability.Backoff.{Fraction}
use cloudops_sentinel.Queue.{
  JobQueueConfig, is_waiting, has_id, claimable, claim_update, claim, beats, heartbeat_update,
  heartbeat, complete_update, complete, fail_update, abandoned, recover_update, recover_abandoned,
}
use cloudops_sentinel.Queue.Cases.{fail_cases, beats-id}
use cloudops_sentinel.Queue.History.{
  QueueEvent, claims, heartbeats, completes, fails, recovers, step, run,
}

-- The job is running under the worker, in its n-th attempt, with a lease up to `until` or later.
pub record Held (worker_id : String) (n until : ℕ) (j : DiagnosticJob) : Type 0 where
  pub runs : j.status ≡ JobStatus.running
  pub owner : j.claimed_by ≡ some worker_id
  pub tries : j.attempts ≡ n
  pub lease : (t : ℕ) × (j.lease_until ≡ some t) × (until ≤ t)

module _ (worker_id : String) (n until now : ℕ) (j : DiagnosticJob) where
  claimable-Held : claimable now j ≡ true → ¬ Held worker_id n until j
  unfolding claimable
  claimable-Held hit h = cc (hit, lost (j.status) h.runs)
    where
      lost : (s : JobStatus) → s ≡ JobStatus.running → is_waiting s ≡ false
      lost s e = rw e

  abandoned-Held : now < until → abandoned now j ≡ true → ¬ Held worker_id n until j
  unfolding abandoned
  abandoned-Held early hit h =
      let (t, e, late) = h.lease in absurd (omega (arith, leb→le t now (ground arith)))

  heartbeat-Held :
      (config : JobQueueConfig)
      → until ≤ now + config.lease_ms
      → Held worker_id n until j
      → Held worker_id n until (heartbeat_update config now j)
  unfolding heartbeat_update
  heartbeat-Held config late h = record {
    runs = h.runs;
    owner = h.owner;
    tries = h.tries;
    lease = (now + config.lease_ms, refl, late);
  }

fail_update-id :
    (config : JobQueueConfig) (error : StructuredFailure) (now : ℕ) (random : Fraction)
    (read j : DiagnosticJob)
    → (fail_update config error now random read j).id ≡ j.id
unfolding fail_update
fail_update-id config error now random read j = ground arith

module _ (worker_id job_id : String) (n until : ℕ) where
  abbrev pub HeldIfNamed : DiagnosticJob → Type 0
  HeldIfNamed j = j.id ≡ job_id → Held worker_id n until j

  -- An event that does not end the job: nobody completes or fails it, every heartbeat of it is
  -- late enough to extend a lease to `until`, and abandoned jobs are recovered only before `until`.
  abbrev pub Spares : JobQueueConfig → QueueEvent → Type 0
  Spares config (claims w now) = Unit
  Spares config (heartbeats id w now) = id ≡ job_id → until ≤ now + config.lease_ms
  Spares config (completes id summary now) = id ≢ job_id
  Spares config (fails id error now random) = id ≢ job_id
  Spares config (recovers now) = now < until

  module _ (c : Collection DiagnosticJob) (config : JobQueueConfig) where
    step-HeldIfNamed :
        (jobs : List DiagnosticJob) (e : QueueEvent)
        → Spares config e
        → All HeldIfNamed jobs
        → All HeldIfNamed (step c config jobs e)
    unfolding step claim heartbeat complete recover_abandoned
    step-HeldIfNamed jobs (claims w now) q h =
        find_one_and_update-All c (claimable now) jobs HeldIfNamed (claim_update config w now)
          (λ j hit held same.
            absurd
              (claimable-Held worker_id n until now j hit (held (unfold claim_update in same))))
          h
    step-HeldIfNamed jobs (heartbeats id w now) q h =
        find_one_and_update-All c (beats id w) jobs HeldIfNamed (heartbeat_update config now)
          (λ j hit held same.
            heartbeat-Held worker_id n until now j config
              (q (sym (beats-id id w j hit) ∙ unfold heartbeat_update in same))
              (held (unfold heartbeat_update in same)))
          h
    step-HeldIfNamed jobs (completes id summary now) q h =
        find_one_and_update-All c (has_id id) jobs HeldIfNamed (complete_update summary now)
          (λ j hit held same.
            absurd (q (sym ((eq_iff j.id id).0 hit) ∙ unfold complete_update in same)))
          h
    step-HeldIfNamed jobs (fails id error now random) q h =
        Update-All _ _ jobs _ HeldIfNamed (fail_cases c config id error now random jobs)
          (λ j hit held same. absurd (
            q (
              sym ((eq_iff j.id id).0 hit)
              ∙ sym (fail_update-id config error now random j j)
              ∙ same)))
          h
    step-HeldIfNamed jobs (recovers now) q h =
        update_many-All (abandoned now) (recover_update now) HeldIfNamed jobs
          (λ j hit held same.
            absurd
              (abandoned-Held worker_id n until now j q hit (held (unfold recover_update in same))))
          h

    -- A job that a worker holds until some time stays held, in the same attempt and so claimed by
    -- nobody else, through every history of claims, heartbeats, completions, failures and
    -- recoveries by any workers in which nobody completes or fails that job, every heartbeat
    -- of it extends the lease at least to that time, and recoveries happen before that time.
    pub run-HeldIfNamed :
        (jobs : List DiagnosticJob) (es : List QueueEvent)
        → All (Spares config) es
        → All HeldIfNamed jobs
        → All HeldIfNamed (run c config jobs es)
    unfolding run
    run-HeldIfNamed jobs [] q h = h
    run-HeldIfNamed jobs (e ∷ es) q h =
        run-HeldIfNamed (step c config jobs e) es q.1 (step-HeldIfNamed jobs e q.0 h)
