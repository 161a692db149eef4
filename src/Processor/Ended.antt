-- ===== src/Processor/Ended.antt =====
-- How processor.ts ends a job that it has claimed.
use cloudops_sentinel.Base.{ℕ, ◌≡◌, refl, ◌↔◌, arith, true, false, none, some, List, length}
use cloudops_sentinel.Errors.{AppError, Result, ok, err}
use cloudops_sentinel.Types.{JobStatus}
use cloudops_sentinel.Types.Job.{StructuredFailure, DiagnosticJob}
use cloudops_sentinel.Types.Resource.{CloudResource}
use cloudops_sentinel.Db.{Db}
use cloudops_sentinel.Queue.{JobQueueConfig}
use cloudops_sentinel.Queue.Failures.{FailedTo}
use cloudops_sentinel.Diagnostics.{EngineFinding}
use cloudops_sentinel.Processor.{HealthCheck, Race, in_time, too_late, failure_of, mentions}

-- A failure that is recorded of an error, at a time.
pub record IsFailureOf (e : AppError) (at : ℕ) (f : StructuredFailure) : Type 0 where
  pub message : f.message ≡ e.message
  pub name : f.cause ≡ some e.name
  pub time : f.at ≡ at
  pub limit : mentions e.message "timed out" ≡ true → f.code ≡ "TIMEOUT"
  pub other : mentions e.message "timed out" ≡ false → f.code ≡ "PROCESSING_ERROR"
  pub again : (f.retryable ≡ false) ↔ (mentions e.message "not retryable" ≡ true)

module _ (config : JobQueueConfig) (done : ℕ) (scope : List CloudResource) (race : Race) where
  -- What becomes of a job, by how its run over the resources in its scope ends.
  pub data Ended (old new : DiagnosticJob) : Type 0 where
    finished :
        (analysis : List CloudResource → Result (List EngineFinding)) (fs : List EngineFinding)
        → race ≡ in_time analysis
        → analysis scope ≡ ok fs
        → new.status ≡ JobStatus.completed
        → new.completed_at ≡ some done
        → new.last_error ≡ none
        → new.result_summary
          ≡ some (record {
            resources_scanned = length scope;
            findings_created = length fs;
            recommendations_created = length fs;
          })
        → Ended old new
    threw :
        (analysis : List CloudResource → Result (List EngineFinding)) (e : AppError)
        (f : StructuredFailure)
        → race ≡ in_time analysis
        → analysis scope ≡ err e
        → IsFailureOf e done f
        → new.last_error ≡ some f
        → FailedTo config f done old new
        → Ended old new
    cut_off :
        (written : Db × List HealthCheck → Db × List HealthCheck) (f : StructuredFailure)
        → race ≡ too_late written
        → (f.code ≡ "TIMEOUT")
          × (f.message ≡ "Job execution timed out")
          × (f.retryable ≡ true)
          × (f.at ≡ done)
        → new.last_error ≡ some f
        → FailedTo config f done old new
        → Ended old new

pub failure_of-IsFailureOf : (e : AppError) (at : ℕ) → IsFailureOf e at (failure_of e at)
failure_of-IsFailureOf e at = record {
  message = refl;
  name = refl;
  time = refl;
  limit = λ h. ground arith;
  other = λ h. ground arith;
  again = ground arith;
}
