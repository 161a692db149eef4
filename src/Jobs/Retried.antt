-- ===== src/Jobs/Retried.antt =====
-- `retry` of the class JobService: which jobs it puts back, and that a worker can claim them.
use cloudops_sentinel.Base.{
  ℕ, ◌≤◌, String, ◌≡◌, refl, subst, ◌≢◌, ◌⊎◌, inl, inr, true, Option, none, some, List, [], ◌∷◌,
  ◌++◌, Memᴰ, arith, ◌==◌, eq_iff, le→leb, Bool-cases, Option-cases, All₂,
}
use cloudops_sentinel.Db.{Db, Mongo, record_audit}
use cloudops_sentinel.Errors.{AppError, Result, ok, err, not_found_error, conflict_error}
use cloudops_sentinel.Text.{template}
use cloudops_sentinel.Store.{find_one, update_many}
use cloudops_sentinel.Store.Laws.{find_one_sound}
use cloudops_sentinel.Types.{JobStatus, dead_lettered}
use cloudops_sentinel.Types.Job.{DiagnosticJob}
use cloudops_sentinel.Types.Plan.{AuditEvent}
use cloudops_sentinel.Queue.{claimable}
use cloudops_sentinel.Remediation.Execute.Checks.{and_both}
use cloudops_sentinel.Jobs.{has_job_id, can_be_retried, retry, retried, save_retried, status_text}

-- The jobs of an id are put back, the others are left alone.
abbrev pub PutsBack : String → ℕ → DiagnosticJob → DiagnosticJob → Type 0
PutsBack id now j j' = (j.id ≡ id → j' ≡ retried now j) × (j.id ≢ id → j' ≡ j)

put_back :
    (id : String) (now : ℕ) (js : List DiagnosticJob)
    → All₂ (PutsBack id now) js (update_many (λ j. j.id == id) (retried now) js).0
unfolding update_many
put_back id now [] = tt
put_back id now (j ∷ js) = elim (Bool-cases (j.id == id)) [
  | inl hit ↦ rw hit ((λ e. refl, λ n. absurd (n ((eq_iff j.id id).0 hit))), put_back id now js)
  | inr miss ↦ rw miss ((λ e. cc (miss, (eq_iff j.id id).1 e), λ n. refl), put_back id now js)
]

retryable_of :
    (s : JobStatus) → can_be_retried s ≡ true → (s ≡ JobStatus.failed) ⊎ (s ≡ dead_lettered)
retryable_of s h = ground arith

module _ (mongo : Mongo) (workspace_id id actor_id correlation_id : String) (now : ℕ) (d : Db) where
  pub data Retried (r : Db × Result DiagnosticJob) : Type 0 where
    refusal : (e : AppError) → r ≡ (d, err e) → Retried r
    put_back_job :
        (d' : Db) (job : DiagnosticJob) (e : AuditEvent)
        → Memᴰ job d.jobs
        → (job.id ≡ id) × (job.workspace_id ≡ workspace_id)
        → (job.status ≡ JobStatus.failed) ⊎ (job.status ≡ dead_lettered)
        → All₂ (PutsBack id now) d.jobs d'.jobs
        → ((later : ℕ) → now ≤ later → claimable later (retried now job) ≡ true)
        → d'.audits ≡ d.audits ++ e ∷ []
        → r ≡ (d', ok (retried now job))
        → Retried r

  abbrev found : Option DiagnosticJob
  found = find_one mongo.job_docs (has_job_id workspace_id id) d.jobs

  retried-claimable :
      (job : DiagnosticJob) (later : ℕ) → now ≤ later → claimable later (retried now job) ≡ true
  unfolding claimable
  retried-claimable job later h = rw (le→leb now later h) refl

  found_ends :
      (job : DiagnosticJob)
      → found ≡ some job
      → Retried (retry mongo workspace_id id actor_id correlation_id now d)
  unfolding retry save_retried record_audit
  found_ends job e = elim (Bool-cases (can_be_retried job.status)) [
    | inl may ↦
        let (m, hit) = find_one_sound mongo.job_docs (has_job_id workspace_id id) d.jobs e in
        let (same, ws) = and_both (job.id == id) (job.workspace_id == workspace_id) hit in
        let at : job.id ≡ id = (eq_iff job.id id).0 same in
        put_back_job (save_retried workspace_id id actor_id correlation_id now job d) job _ m
          (at, (eq_iff job.workspace_id workspace_id).0 ws) (retryable_of job.status may)
          (subst
            (λ i.
              All₂ (PutsBack i now) d.jobs
                (save_retried workspace_id id actor_id correlation_id now job d).jobs)
            at (put_back job.id now d.jobs))
          (retried-claimable job) refl (rw (retry, e, may) refl)
    | inr other ↦
        refusal
          (conflict_error
            (template ("Job cannot be retried from status " ∷ status_text job.status ∷ [])) none)
          (rw (retry, e, other) refl)
  ]

  -- Every call of `retry` is a refusal that writes nothing, or it puts back a failed or
  -- dead-lettered job of the workspace: then no job of another id changes, the call is audited, and
  -- a worker can claim the job at once and at any later time.
  pub retry-Retried : Retried (retry mongo workspace_id id actor_id correlation_id now d)
  unfolding retry
  retry-Retried = elim (Option-cases found) [
    | inl missing ↦ refusal (not_found_error "Job not found") (rw (retry, missing) refl)
    | inr (job, e) ↦ found_ends job e
  ]
