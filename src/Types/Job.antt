-- ===== src/Types/Job.antt =====
-- packages/shared/src/types/index.ts: `DiagnosticJob` and its parts, as
-- packages/shared/src/db/models/diagnostic-job.ts stores them. A date is its milliseconds.
use cloudops_sentinel.Base.{ℕ, String, Bool, Option, List}
use cloudops_sentinel.Types.{ResourceType, JobStatus}

pub record StructuredFailure : Type 0 where
  pub code : String
  pub message : String
  pub retryable : Bool
  pub cause : Option String
  pub at : ℕ

pub record JobResultSummary : Type 0 where
  pub resources_scanned : ℕ
  pub findings_created : ℕ
  pub recommendations_created : ℕ

pub record DiagnosticJob : Type 0 where
  pub id : String
  pub workspace_id : String
  pub status : JobStatus
  pub resource_ids : Option (List String)
  pub resource_types : Option (List ResourceType)
  pub idempotency_key : String
  pub correlation_id : String
  pub lease_until : Option ℕ
  pub heartbeat_at : Option ℕ
  pub claimed_by : Option String
  pub attempts : ℕ
  pub max_attempts : ℕ
  pub next_run_at : ℕ
  pub last_error : Option StructuredFailure
  pub result_summary : Option JobResultSummary
  pub created_by : String
  pub created_at : ℕ
  pub completed_at : Option ℕ
  pub timeout_ms : ℕ
  pub version : ℕ
