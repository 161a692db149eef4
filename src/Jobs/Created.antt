-- ===== src/Jobs/Created.antt =====
-- `create` of the class JobService: one job for each key, whatever runs in between.
use cloudops_sentinel.Base.{
  ℕ, String, ◌≡◌, refl, ◌∙◌, ◌⊎◌, inl, inr, Bool, true, false, List, [], ◌∷◌, ◌++◌, Memᴰ, arith,
  ◌==◌, eq_iff, eq_refl, Bool-cases, Option-cases, count, any, count-append, any-none,
}
use cloudops_sentinel.Db.{Db, Mongo, record_audit}
use cloudops_sentinel.Errors.{AppError, Result, ok}
use cloudops_sentinel.Store.{find_one}
use cloudops_sentinel.Store.Laws.{find_one_sound, find_one_missed}
use cloudops_sentinel.Types.Job.{DiagnosticJob}
use cloudops_sentinel.Remediation.Execute.Checks.{and_both}
use cloudops_sentinel.Jobs.{save_new, CreateInput, has_job_key, create, insert_job, job_document}

abbrev pub jobs_of : String → String → Db → ℕ
jobs_of workspace_id key d = count (has_job_key workspace_id key) d.jobs

-- What `create` leaves and answers.
pub data Created (workspace_id key job_id : String) (d : Db)
    (r : Db × Result (DiagnosticJob × Bool)) : Type 0 where
  replay :
      (job : DiagnosticJob)
      → Memᴰ job d.jobs
      → (job.workspace_id ≡ workspace_id) × (job.idempotency_key ≡ key)
      → r ≡ (d, ok (job, true))
      → Created workspace_id key job_id d r
  inserted :
      (d' : Db) (job : DiagnosticJob)
      → jobs_of workspace_id key d ≡ 0
      → jobs_of workspace_id key d' ≡ 1
      → d'.jobs ≡ d.jobs ++ job ∷ []
      → (job.workspace_id ≡ workspace_id)
        × (job.idempotency_key ≡ key)
        × (job.id ≡ job_id)
        × (job.attempts ≡ 0)
      → r ≡ (d', ok (job, false))
      → Created workspace_id key job_id d r

count-any : {A : Type 0} (p : A → Bool) (xs : List A) → any p xs ≡ false → count p xs ≡ 0
count-any p [] h = refl
count-any p (x ∷ xs) h = ground (arith, count-any p xs)

module _ (mongo : Mongo) (max_attempts timeout_ms : ℕ) (duplicate_key : AppError)
    (workspace_id actor_id correlation_id : String) (input : CreateInput) (job_id : String)
    (now : ℕ) where
  abbrev key_of : DiagnosticJob → Bool
  key_of = has_job_key workspace_id input.idempotency_key

  key_parts :
      (j : DiagnosticJob)
      → key_of j ≡ true
      → (j.workspace_id ≡ workspace_id) × (j.idempotency_key ≡ input.idempotency_key)
  key_parts j h =
      let (ws, key) =
        and_both (j.workspace_id == workspace_id) (j.idempotency_key == input.idempotency_key) h in
      (
        (eq_iff j.workspace_id workspace_id).0 ws,
        (eq_iff j.idempotency_key input.idempotency_key).0 key,
      )

  abbrev new_job : DiagnosticJob
  new_job =
      job_document max_attempts timeout_ms workspace_id actor_id correlation_id input job_id now

  insert-Created :
      (d : Db)
      → Created workspace_id input.idempotency_key job_id d (
          insert_job mongo max_attempts timeout_ms duplicate_key workspace_id actor_id
            correlation_id input job_id now d)
  unfolding insert_job save_new record_audit
  insert-Created d = elim (Bool-cases (any key_of d.jobs)) [
    | inl taken ↦ elim (Option-cases (find_one mongo.job_docs key_of d.jobs)) [
      | inl missing ↦ absurd (
          cc (taken, any-none key_of d.jobs (find_one_missed mongo.job_docs key_of d.jobs missing)))
      | inr (j, e) ↦
          let (m, hit) = find_one_sound mongo.job_docs key_of d.jobs e in
          replay j m (key_parts j hit) (rw (insert_job, taken, e) refl)
    ]
    | inr free ↦
        inserted (save_new actor_id correlation_id now new_job d) new_job
          (count-any key_of d.jobs free)
          (count-append key_of d.jobs (new_job ∷ [])
            ∙ rw (count-any key_of d.jobs free, eq_refl workspace_id, eq_refl input.idempotency_key)
                refl)
          refl (refl, refl, refl, refl) (rw (insert_job, free) refl)
  ]

  -- Whatever other processes write between the look-up of `create` and its insertion, a call answers
  -- a job of the key in the workspace and never fails: one that is stored, as a replay that writes
  -- nothing, or a new one, of which the key then has exactly one.
  pub create-Created :
      (between : Db → Db) (d : Db)
      → Created workspace_id input.idempotency_key job_id d (
          create mongo max_attempts timeout_ms duplicate_key between workspace_id actor_id
            correlation_id input job_id now d)
        ⊎ Created workspace_id input.idempotency_key job_id (between d) (
            create mongo max_attempts timeout_ms duplicate_key between workspace_id actor_id
              correlation_id input job_id now d)
  unfolding create
  create-Created between d = elim (Option-cases (find_one mongo.job_docs key_of d.jobs)) [
    | inl new ↦ inr (rw (create, new) (insert-Created (between d)))
    | inr (j, e) ↦
        let (m, hit) = find_one_sound mongo.job_docs key_of d.jobs e in
        inl (replay j m (key_parts j hit) (rw (create, e) refl))
  ]
