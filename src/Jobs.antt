-- ===== src/Jobs.antt =====
-- apps/api/src/services/job-service.ts: the class JobService. Other processes may write between the
-- look-up and the insertion of `create`; what they do is an argument.
pub mod Elsewhere
pub mod Created
pub mod Retried
use cloudops_sentinel.Listing.{SortedFind, Page, wants, listing}
use cloudops_sentinel.Base.{
  ℕ, ◌+◌, String, Bool, true, false, not, ◌&&◌, Option, none, some, List, [], ◌∷◌, ◌++◌, ◌==◌,
  if◌then◌else◌, any,
}
use cloudops_sentinel.Db.{Db, Mongo, M, record_audit}
use cloudops_sentinel.Errors.{AppError, ok, err, not_found_error, conflict_error}
use cloudops_sentinel.Text.{template}
use cloudops_sentinel.Store.{find_one, update_many}
use cloudops_sentinel.Types.{
  JobStatus, ResourceType, pending, running, retry_wait, completed, dead_lettered, cancelled,
}
use cloudops_sentinel.Types.Job.{DiagnosticJob}
use cloudops_sentinel.Types.Plan.{text}

pub record CreateInput : Type 0 where
  pub resource_ids : Option (List String)
  pub resource_types : Option (List ResourceType)
  pub idempotency_key : String

abbrev pub has_job_key : String → String → DiagnosticJob → Bool
has_job_key workspace_id key j = j.workspace_id == workspace_id && j.idempotency_key == key

abbrev pub has_job_id : String → String → DiagnosticJob → Bool
has_job_id workspace_id id j = j.id == id && j.workspace_id == workspace_id

abbrev pub status_text : JobStatus → String
status_text JobStatus.pending = "pending"
status_text JobStatus.running = "running"
status_text retry_wait = "retry_wait"
status_text JobStatus.completed = "completed"
status_text JobStatus.failed = "failed"
status_text dead_lettered = "dead_lettered"
status_text cancelled = "cancelled"

abbrev pub can_be_retried : JobStatus → Bool
can_be_retried JobStatus.failed = true
can_be_retried dead_lettered = true
can_be_retried _ = false

-- The document that `create` inserts.
abbrev pub job_document :
    (max_attempts timeout_ms : ℕ) (workspace_id actor_id correlation_id : String)
    → CreateInput
    → (job_id : String) (now : ℕ) → DiagnosticJob
job_document max_attempts timeout_ms workspace_id actor_id correlation_id input job_id now =
    record {
      id = job_id;
      workspace_id = workspace_id;
      status = JobStatus.pending;
      resource_ids = input.resource_ids;
      resource_types = input.resource_types;
      idempotency_key = input.idempotency_key;
      correlation_id = correlation_id;
      lease_until = none;
      heartbeat_at = none;
      claimed_by = none;
      attempts = 0;
      max_attempts = max_attempts;
      next_run_at = now;
      last_error = none;
      result_summary = none;
      created_by = actor_id;
      created_at = now;
      completed_at = none;
      timeout_ms = timeout_ms;
      version = 1;
    }

-- `job.save()` of a retried job.
abbrev pub retried : ℕ → DiagnosticJob → DiagnosticJob
retried now j = record j {
  status = JobStatus.pending;
  next_run_at = now;
  attempts = 0;
  lease_until = none;
  claimed_by = none;
  last_error = none;
  completed_at = none;
}

-- The insertion of a job that no other has the key of, and its audit event.
unfoldable pub save_new : (actor_id correlation_id : String) (now : ℕ) → DiagnosticJob → Db → Db
unfolding record_audit
save_new actor_id correlation_id now job d =
    (record_audit
      (record {
        workspace_id = job.workspace_id;
        actor_id = actor_id;
        action = "diagnostics.create";
        resource_type = "DiagnosticJob";
        resource_id = some job.id;
        correlation_id = correlation_id;
        metadata = some (("idempotencyKey", text job.idempotency_key) ∷ []);
      })
      now (record d { jobs = d.jobs ++ job ∷ [] })).0

-- `job.save()` of a retried job, and its audit event.
unfoldable pub save_retried :
    (workspace_id id actor_id correlation_id : String) (now : ℕ) → DiagnosticJob → Db → Db
unfolding record_audit
save_retried workspace_id id actor_id correlation_id now job d =
    (record_audit
      (record {
        workspace_id = workspace_id;
        actor_id = actor_id;
        action = "jobs.retry";
        resource_type = "DiagnosticJob";
        resource_id = some id;
        correlation_id = correlation_id;
        metadata = none;
      })
      now (record d { jobs = (update_many (λ j. j.id == job.id) (retried now) d.jobs).0 })).0

module _ (mongo : Mongo) (max_attempts timeout_ms : ℕ) (duplicate_key : AppError) where
  -- The insertion: the index on the workspace and the key is unique, so that an insertion of a
  -- second job of a key fails, and the job that is there is looked up again.
  unfoldable pub insert_job :
      (workspace_id actor_id correlation_id : String)
      → CreateInput
      → (job_id : String) (now : ℕ) → M (DiagnosticJob × Bool)
  insert_job workspace_id actor_id correlation_id input job_id now d =
      let job =
        job_document max_attempts timeout_ms workspace_id actor_id correlation_id input job_id
          now in
      if any (has_job_key workspace_id input.idempotency_key) d.jobs
      then elim (find_one mongo.job_docs (has_job_key workspace_id input.idempotency_key) d.jobs) [
        | some replay ↦ (d, ok (replay, true))
        | none ↦ (d, err duplicate_key)
      ]
      else (save_new actor_id correlation_id now job d, ok (job, false))

  unfoldable pub create :
      (between : Db → Db) (workspace_id actor_id correlation_id : String)
      → CreateInput
      → (job_id : String) (now : ℕ) → M (DiagnosticJob × Bool)
  create between workspace_id actor_id correlation_id input job_id now d =
      elim (find_one mongo.job_docs (has_job_key workspace_id input.idempotency_key) d.jobs) [
        | some existing ↦ (d, ok (existing, true))
        | none ↦ insert_job workspace_id actor_id correlation_id input job_id now (between d)
      ]

-- The filter of `list`.
unfoldable pub in_listing : (workspace_id : String) (status : Option String) → DiagnosticJob → Bool
in_listing workspace_id status j =
    j.workspace_id == workspace_id && wants status (status_text j.status)

unfoldable pub list :
    SortedFind DiagnosticJob
    → (workspace_id : String) (page limit : ℕ) (status : Option String) → Db
    → Page DiagnosticJob
list sorted workspace_id page limit status d =
    listing sorted (in_listing workspace_id status) page limit d.jobs

module _ (mongo : Mongo) where
  unfoldable pub get : (workspace_id id : String) → Db → Option DiagnosticJob
  get workspace_id id d = find_one mongo.job_docs (has_job_id workspace_id id) d.jobs

  unfoldable pub retry :
      (workspace_id id actor_id correlation_id : String) (now : ℕ) → M DiagnosticJob
  retry workspace_id id actor_id correlation_id now d =
      elim (find_one mongo.job_docs (has_job_id workspace_id id) d.jobs) [
        | none ↦ (d, err (not_found_error "Job not found"))
        | some job ↦
            if can_be_retried job.status
            then (
              save_retried workspace_id id actor_id correlation_id now job d,
              ok (retried now job),
            )
            else (
              d,
              err (
                  conflict_error
                    (template ("Job cannot be retried from status " ∷ status_text job.status ∷ []))
                    none),
            )
      ]
