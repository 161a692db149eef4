-- ===== src/Queue/Claims.antt =====
-- What claiming a job does to the queue of queue.ts.
use cloudops_sentinel.Base.{
  ℕ, ◌+◌, ◌≤◌, String, ◌≡◌, refl, sym, ap, subst, ◌↔◌, ◌⊎◌, inl, inr, true, false, Option, none,
  some, List, ◌∷◌, ◌++◌, arith, leb→le, All,
}
use cloudops_sentinel.Store.{Collection}
use cloudops_sentinel.Store.Laws.{kept, changed, Update-cases, not-All_of_hit}
use cloudops_sentinel.Types.{JobStatus, retry_wait}
use cloudops_sentinel.Types.Job.{DiagnosticJob}
use cloudops_sentinel.Queue.{
  JobQueueConfig, claimable, claim_update, claim, is_waiting, lease_is_over,
}

waiting_cases : (s : JobStatus) → is_waiting s ≡ true → (s ≡ JobStatus.pending) ⊎ (s ≡ retry_wait)
waiting_cases s h = ground arith

lease_cases :
    (lease : Option ℕ) (now : ℕ)
    → lease_is_over lease now ≡ true
    → (lease ≡ none) ⊎ ((t : ℕ) × (lease ≡ some t) × (t ≤ now))
lease_cases none now h = inl refl
lease_cases (some t) now h = inr (t, refl, leb→le t now h)

module _ (c : Collection DiagnosticJob) (config : JobQueueConfig) (worker_id : String) (now : ℕ)
    (jobs : List DiagnosticJob) where
  -- A claim that returns a job took one that was pending or waiting to be retried, was due, and
  -- whose lease was null or over. The job is now running under the worker, with a lease of the
  -- configured length from now, one more attempt and one more version, and its other fields as
  -- they were; it replaces the old one in the collection, where no other job changes.
  pub claim_takes :
      {j : DiagnosticJob}
      → (claim c config worker_id now jobs).1 ≡ some j
      → (pre : List DiagnosticJob) × (old : DiagnosticJob) × (post : List DiagnosticJob) × (jobs
          ≡ pre ++ old ∷ post)
        × ((claim c config worker_id now jobs).0 ≡ pre ++ j ∷ post)
        × ((old.status ≡ JobStatus.pending) ⊎ (old.status ≡ retry_wait))
        × (old.next_run_at ≤ now)
        × ((old.lease_until ≡ none) ⊎ ((t : ℕ) × (old.lease_until ≡ some t) × (t ≤ now)))
        × (j ≡ record old {
          status = JobStatus.running;
          claimed_by = some worker_id;
          lease_until = some (now + config.lease_ms);
          heartbeat_at = some now;
          attempts = old.attempts + 1;
          version = old.version + 1;
        })
  unfolding claim claim_update claimable
  claim_takes {j} h =
      elim (Update-cases c (claimable now) (claim_update config worker_id now) jobs) [
        | kept e all ↦ cc e
        | changed pre old post split hit e ↦
            let same : claim_update config worker_id now old ≡ j = ground arith in
            (
              pre,
              old,
              post,
              split,
              rw e (ap (λ x. pre ++ x ∷ post) same),
              waiting_cases old.status (ground arith),
              leb→le old.next_run_at now (ground arith),
              lease_cases old.lease_until now (ground arith),
              sym same,
            )
      ]

  -- A claim returns null exactly when no job of the collection can be claimed, and then it changes
  -- nothing.
  pub claim_misses_iff :
      (((claim c config worker_id now jobs).1 ≡ none) ↔ All (λ j. claimable now j ≡ false) jobs)
      × ((claim c config worker_id now jobs).1 ≡ none
          → (claim c config worker_id now jobs).0 ≡ jobs)
  unfolding claim
  claim_misses_iff =
      elim (Update-cases c (claimable now) (claim_update config worker_id now) jobs) [
        | kept e all ↦ ((λ h. all, λ h. rw e refl), λ h. rw e refl)
        | changed pre old post split hit e ↦ (
          (
            λ h. absurd (ground arith),
            λ all.
                absurd (not-All_of_hit (claimable now) pre old post hit (subst (All _) split all)),
          ),
          λ h. absurd (ground arith),
        )
      ]
