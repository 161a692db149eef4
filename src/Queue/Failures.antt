-- ===== src/Queue/Failures.antt =====
-- What `fail` of queue.ts does: the dead letters, or a delay.
use cloudops_sentinel.Base.{
  ℕ, ◌+◌, ◌*◌, ◌≤◌, ◌<◌, String, ◌≡◌, refl, ◌≢◌, ◌⊎◌, inl, inr, true, false, none, some, List, ◌∷◌,
  ◌++◌, arith, eq_iff, Bool-cases, All, All-mono,
}
use cloudops_sentinel.Observability.Backoff.{Fraction, capped_exp, backoff_bounds}
use cloudops_sentinel.Store.{Collection}
use cloudops_sentinel.Store.Laws.{kept, changed}
use cloudops_sentinel.Types.{retry_wait, dead_lettered}
use cloudops_sentinel.Types.Job.{DiagnosticJob, StructuredFailure}
use cloudops_sentinel.Queue.{gives_up, JobQueueConfig, fail_update, fail, retry_delay}
use cloudops_sentinel.Queue.Cases.{fail_cases}
use cloudops_sentinel.Queue.Outcomes.{other-id}

fail_update_fields :
    (config : JobQueueConfig) (error : StructuredFailure) (now : ℕ) (random : Fraction)
    (j : DiagnosticJob)
    → let k = fail_update config error now random j j in
      (k.last_error ≡ some error)
      × (k.lease_until ≡ none)
      × (k.attempts ≡ j.attempts)
      × (k.claimed_by ≡ j.claimed_by)
unfolding fail_update
fail_update_fields config error now random j =
    (ground arith, ground arith, ground arith, ground arith)

-- Whether a failure is the last one.
abbrev IsFinal : StructuredFailure → DiagnosticJob → Type 0
IsFinal error j = (j.max_attempts ≤ j.attempts) ⊎ (error.retryable ≡ false)

IsFinal-of_gives_up :
    (error : StructuredFailure) (j : DiagnosticJob) → gives_up error j ≡ true → IsFinal error j
unfolding gives_up
IsFinal-of_gives_up error j h = ground arith

not-IsFinal :
    (error : StructuredFailure) (j : DiagnosticJob) → gives_up error j ≡ false → ¬ IsFinal error j
unfolding gives_up
not-IsFinal error j h (inl spent) = ground arith
not-IsFinal error j h (inr final) = ground arith

-- Where a failed job goes: to the dead letters if its attempts are used up or the failure is not
-- retryable; otherwise back to wait, with no lease, until a time that is later than now by the
-- capped exponential of its attempts and at most a fifth of it more, rounded.
pub data FailedTo (config : JobQueueConfig) (error : StructuredFailure) (now : ℕ)
    (j k : DiagnosticJob) : Type 0 where
  buried :
      IsFinal error j
      → k.status ≡ dead_lettered
      → k.completed_at ≡ some now
      → FailedTo config error now j k
  delayed :
      ¬ IsFinal error j
      → k.status ≡ retry_wait
      → (delay : ℕ) → k.next_run_at ≡ now + delay
      → capped_exp j.attempts config.backoff_base_ms config.backoff_max_ms ≤ delay
      → 5 * delay ≤ 6 * capped_exp j.attempts config.backoff_base_ms config.backoff_max_ms + 2
      → 5 * delay ≤ 6 * config.backoff_max_ms + 2
      → FailedTo config error now j k

fail_update-FailedTo :
    (config : JobQueueConfig) (error : StructuredFailure) (now : ℕ) (random : Fraction)
    (j : DiagnosticJob)
    → random.num < random.den
    → FailedTo config error now j (fail_update config error now random j j)
unfolding fail_update
fail_update-FailedTo config error now random j small = elim (Bool-cases (gives_up error j)) [
  | inl last ↦ rw (last, fail_update) (buried (IsFinal-of_gives_up error j last) refl refl)
  | inr more ↦
      let (low, high, top) =
        backoff_bounds j.attempts config.backoff_base_ms config.backoff_max_ms random small in
      rw (more, fail_update)
        (delayed (not-IsFinal error j more) refl (retry_delay config j.attempts random) refl low
          high top)
]

-- `fail` with a random fraction below 1: where no job has the id, it returns null and changes
-- nothing; otherwise it buries or delays one job of that id, recording the error, clearing the
-- lease and keeping the attempts and the claimant.
pub fail_lem :
    (c : Collection DiagnosticJob) (config : JobQueueConfig) (job_id : String)
    (error : StructuredFailure) (now : ℕ) (random : Fraction) (jobs : List DiagnosticJob)
    → random.num < random.den
    → ((fail c config job_id error now random jobs ≡ (jobs, none)) × All (λ j. j.id ≢ job_id) jobs)
      ⊎ ((pre : List DiagnosticJob) × (j : DiagnosticJob) × (post : List DiagnosticJob) × (jobs
            ≡ pre ++ j ∷ post)
          × (j.id ≡ job_id)
          × (k : DiagnosticJob) × (fail c config job_id error now random jobs
              ≡ (pre ++ k ∷ post, some k))
          × FailedTo config error now j k
          × (k.last_error ≡ some error)
          × (k.lease_until ≡ none)
          × (k.attempts ≡ j.attempts)
          × (k.claimed_by ≡ j.claimed_by))
fail_lem c config job_id error now random jobs small =
    elim (fail_cases c config job_id error now random jobs) [
      | kept e all ↦ inl (e, All-mono _ _ jobs (λ j miss. other-id j job_id miss) all)
      | changed pre j post split hit e ↦
          let (err, lease, tries, owner) = fail_update_fields config error now random j in
          inr (
            pre,
            j,
            post,
            split,
            (eq_iff j.id job_id).0 hit,
            fail_update config error now random j j,
            e,
            fail_update-FailedTo config error now random j small,
            err,
            lease,
            tries,
            owner,
          )
    ]
