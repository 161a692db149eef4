-- ===== src/Queue/Cases.antt =====
-- What each operation of the job queue does to the collection, case by case.
use cloudops_sentinel.Base.{eq_iff, arith, true, ◌≡◌, ℕ, refl, List, String}
use cloudops_sentinel.Observability.Backoff.{Fraction}
use cloudops_sentinel.Store.{Collection, find_one, find_one_and_update}
use cloudops_sentinel.Store.Laws.{Update, kept, changed, Search-cases, none_found, one_found}
use cloudops_sentinel.Types.Job.{DiagnosticJob, StructuredFailure}
use cloudops_sentinel.Queue.{beats, JobQueueConfig, has_id, fail_update, fail}

module _ (c : Collection DiagnosticJob) (config : JobQueueConfig) (job_id : String)
    (error : StructuredFailure) (now : ℕ) (random : Fraction) where
  -- `fail` finds no job of that id, or decides by the job that it then updates.
  pub fail_cases :
      (jobs : List DiagnosticJob)
      → Update
          (has_id job_id)
          (λ j. fail_update config error now random j j)
          jobs
          (fail c config job_id error now random jobs)
  unfolding fail find_one find_one_and_update
  fail_cases jobs = elim (Search-cases c (has_id job_id) jobs) [
    | none_found e all ↦ kept (rw (e, fail) refl) all
    | one_found pre j post e split hit ↦
        changed pre j post split hit (rw (e, fail) (rw (e, find_one_and_update) refl))
  ]

-- A heartbeat goes to the job that it names.
pub beats-id : (id w : String) (j : DiagnosticJob) → beats id w j ≡ true → j.id ≡ id
unfolding beats
beats-id id w j hit = ground (arith, eq_iff j.id id)
