-- ===== src/Jobs/Elsewhere.antt =====
-- The job service of job-service.ts changes no job of another workspace.
use cloudops_sentinel.Base.{
  ℕ, String, ◌≡◌, refl, inl, inr, [], ◌∷◌, ◌++◌, Memᴰ, ◌==◌, eq_iff, Bool-cases, Option-cases, any,
}
use cloudops_sentinel.Errors.{AppError}
use cloudops_sentinel.Store.{find_one, update_many}
use cloudops_sentinel.Store.Laws.{find_one_sound}
use cloudops_sentinel.Store.Elsewhere.{others-insert, others-update}
use cloudops_sentinel.Types.Job.{DiagnosticJob}
use cloudops_sentinel.Db.{Db, Mongo, record_audit}
use cloudops_sentinel.Db.Elsewhere.{
  HasOwners, Spares, Spares-refl, Spares-trans, Spares-of, logged-Spares,
}
use cloudops_sentinel.Remediation.Execute.Checks.{and_both}
use cloudops_sentinel.Jobs.{
  CreateInput, has_job_key, has_job_id, can_be_retried, job_document, retried, save_new,
  save_retried, insert_job, create, retry,
}

module _ (mongo : Mongo) (w actor_id correlation_id : String) (now : ℕ) where
  save_new-Spares :
      (job : DiagnosticJob) (d : Db)
      → job.workspace_id ≡ w
      → Spares w d (save_new actor_id correlation_id now job d)
  unfolding save_new record_audit
  save_new-Spares job d own =
      Spares-trans w
        (Spares-of w d _ d.resources d.plans d.approvals d.executions d.audits
          (others-insert (λ (j : DiagnosticJob). j.workspace_id) w job d.jobs own) refl refl refl
          refl refl)
        (logged-Spares w _ (record d { jobs = d.jobs ++ job ∷ [] }) own)

  save_retried-Spares :
      (id : String) (job : DiagnosticJob) (d : Db)
      → HasOwners d
      → Memᴰ job d.jobs
      → job.workspace_id ≡ w
      → Spares w d (save_retried w id actor_id correlation_id now job d)
  unfolding save_retried record_audit
  save_retried-Spares id job d owners m own =
      Spares-trans w
        (Spares-of w d _ d.resources d.plans d.approvals d.executions d.audits
          (others-update (λ (j : DiagnosticJob). j.workspace_id) w (λ (j : DiagnosticJob). j.id) job
            (retried now) d.jobs (λ j. refl) owners.jobs_owned m own)
          refl refl refl refl refl)
        (logged-Spares w _
          (record d { jobs = (update_many (λ j. j.id == job.id) (retried now) d.jobs).0 }) refl)

  pub retry-Spares :
      (id : String) (d : Db)
      → HasOwners d
      → Spares w d (retry mongo w id actor_id correlation_id now d).0
  unfolding retry
  retry-Spares id d owners =
      elim (Option-cases (find_one mongo.job_docs (has_job_id w id) d.jobs)) [
        | inl missing ↦ rw (retry, missing) (Spares-refl w d)
        | inr (job, e) ↦
            let (m, hit) = find_one_sound mongo.job_docs (has_job_id w id) d.jobs e in
            rw (retry, e)
              (elim (Bool-cases (can_be_retried job.status)) [
                | inl may ↦ rw may (
                    save_retried-Spares id job d owners m
                      ((eq_iff job.workspace_id w).0 (and_both _ (job.workspace_id == w) hit).1))
                | inr may_not ↦ rw may_not (Spares-refl w d)
              ])
      ]

  module _ (max_attempts timeout_ms : ℕ) (duplicate_key : AppError) (input : CreateInput)
      (job_id : String) where
    insert_job-Spares :
        (d : Db)
        → Spares w d
            (insert_job mongo max_attempts timeout_ms duplicate_key w actor_id correlation_id input
              job_id now d).0
    unfolding insert_job
    insert_job-Spares d = elim (Bool-cases (any (has_job_key w input.idempotency_key) d.jobs)) [
      | inr free ↦
          rw (insert_job, free)
            (save_new-Spares
              (job_document max_attempts timeout_ms w actor_id correlation_id input job_id now) d
              refl)
      | inl taken ↦
          elim (Option-cases
            (find_one mongo.job_docs (has_job_key w input.idempotency_key) d.jobs)) [
              | inl missing ↦ rw (insert_job, taken, missing) (Spares-refl w d)
              | inr (job, e) ↦ rw (insert_job, taken, e) (Spares-refl w d)
            ]
    ]

    -- What others write between the look-up and the insertion is theirs.
    pub create-Spares :
        (between : Db → Db) (d : Db)
        → Spares w d (between d)
        → Spares w d
            (create mongo max_attempts timeout_ms duplicate_key between w actor_id correlation_id
              input job_id now d).0
    unfolding create
    create-Spares between d quiet =
        elim (Option-cases (find_one mongo.job_docs (has_job_key w input.idempotency_key) d.jobs)) [
          | inl new ↦ rw (create, new) (Spares-trans w quiet (insert_job-Spares (between d)))
          | inr (job, e) ↦ rw (create, e) (Spares-refl w d)
        ]
