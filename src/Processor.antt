-- ===== src/Processor.antt =====
-- apps/worker/src/processor.ts: the class JobProcessor. What the diagnostics client returns or throws
-- is an argument; logs, metrics and the timer of the heartbeats are left out. Health checks are kept beside
-- the database, since nothing reads them. The severity of an answer is one of the enumeration.
pub mod Ended
pub mod Settled
pub mod Repeated
pub mod Advised
pub mod Stable
use cloudops_sentinel.Base.{
  ℕ, ◌+◌, String, Bool, true, false, not, ◌&&◌, Option, none, some, List, [], ◌∷◌, ◌++◌, ◌==◌, leb,
  if◌then◌else◌, length, any,
}
use Prim.Native.String.{find, len}
use cloudops_sentinel.Errors.{AppError, Result, ok, err}
use cloudops_sentinel.Text.{includes}
use cloudops_sentinel.Store.{upsert}
use cloudops_sentinel.Types.{ResourceType, type_eq, FindingSeverity, critical, high}
use cloudops_sentinel.Types.Resource.{CloudResource}
use cloudops_sentinel.Types.Job.{DiagnosticJob, StructuredFailure, JobResultSummary}
use cloudops_sentinel.Types.Plan.{Finding, Recommendation}
use cloudops_sentinel.Db.{Db, Mongo}
use cloudops_sentinel.Observability.Backoff.{Fraction}
use cloudops_sentinel.Diagnostics.{EngineFinding}
use cloudops_sentinel.Observability.Timeout.{hangs, with_timeout}
use cloudops_sentinel.Queue.{JobQueueConfig, claim, complete, fail}

pub data CheckStatus : Type 0 where
  unhealthy degraded : CheckStatus

pub record HealthCheck : Type 0 where
  pub workspace_id : String
  pub resource_id : String
  pub status : CheckStatus
  pub check_name : String
  pub detail : String
  pub observed_at : ℕ

-- The filter of the resources that a job is about; a missing or empty list asks for all.
abbrev pub wants_id : Option (List String) → String → Bool
wants_id none id = true
wants_id (some []) id = true
wants_id (some ids) id = includes id ids

abbrev pub wants_type : Option (List ResourceType) → ResourceType → Bool
wants_type none t = true
wants_type (some []) t = true
wants_type (some types) t = any (type_eq t) types

abbrev pub in_scope : DiagnosticJob → CloudResource → Bool
in_scope job r =
    r.workspace_id == job.workspace_id
    && wants_id job.resource_ids r.id
    && wants_type job.resource_types r.type

abbrev pub same_finding : DiagnosticJob → EngineFinding → Finding → Bool
same_finding job f x =
    x.workspace_id == job.workspace_id
    && x.job_id == job.id
    && x.resource_id == f.resource_id
    && x.rule_id == f.rule_id

abbrev pub found_again : DiagnosticJob → EngineFinding → Finding → Finding
found_again job f x = record x {
  severity = f.severity;
  title = f.title;
  description = f.description;
  evidence = f.evidence;
  correlation_id = job.correlation_id;
}

abbrev pub fresh_finding : DiagnosticJob → EngineFinding → (finding_id : String) → Finding
fresh_finding job f finding_id = record {
  id = finding_id;
  workspace_id = job.workspace_id;
  job_id = job.id;
  resource_id = f.resource_id;
  rule_id = f.rule_id;
  severity = f.severity;
  title = f.title;
  description = f.description;
  evidence = f.evidence;
  correlation_id = job.correlation_id;
}

abbrev pub recommended_again : DiagnosticJob → EngineFinding → Recommendation → Recommendation
recommended_again job f x = record x {
  job_id = job.id;
  resource_id = f.resource_id;
  action_type = f.action_type;
  explanation = f.explanation;
  estimated_impact = f.estimated_impact;
  confidence = f.confidence;
  correlation_id = job.correlation_id;
}

abbrev pub fresh_recommendation :
    DiagnosticJob → EngineFinding → (finding_id recommendation_id : String) → Recommendation
fresh_recommendation job f finding_id recommendation_id = record {
  id = recommendation_id;
  workspace_id = job.workspace_id;
  job_id = job.id;
  finding_id = finding_id;
  resource_id = f.resource_id;
  action_type = f.action_type;
  explanation = f.explanation;
  estimated_impact = f.estimated_impact;
  confidence = f.confidence;
  correlation_id = job.correlation_id;
}

abbrev is_unhealthy : FindingSeverity → Bool
is_unhealthy critical = true
is_unhealthy high = true
is_unhealthy _ = false

abbrev pub health_check : DiagnosticJob → EngineFinding → (now : ℕ) → HealthCheck
health_check job f now = record {
  workspace_id = job.workspace_id;
  resource_id = f.resource_id;
  status = if is_unhealthy f.severity then unhealthy else degraded;
  check_name = f.rule_id;
  detail = f.title;
  observed_at = now;
}

-- `includes` of a text in a text.
abbrev pub mentions : String → String → Bool
mentions message part = leb (find message part) (len message)

-- The failure that is recorded for an error.
abbrev pub failure_of : AppError → (at : ℕ) → StructuredFailure
failure_of e at = record {
  code = if mentions e.message "timed out" then "TIMEOUT" else "PROCESSING_ERROR";
  message = e.message;
  retryable = not (mentions e.message "not retryable");
  cause = some e.name;
  at = at;
}

-- How the race of the run with its time limit ends: the run settles in time, by what the diagnostics
-- client returns or throws, or the limit is over when the run has written something.
pub data Race : Type 0 where
  in_time : (List CloudResource → Result (List EngineFinding)) → Race
  too_late : (written : Db × List HealthCheck → Db × List HealthCheck) → Race

module _ (mongo : Mongo) (ids : ℕ → String) (now : ℕ) (job : DiagnosticJob) where
  -- One round of the loop over the findings.
  unfoldable pub store_finding :
      (nth : ℕ) → EngineFinding → Db × List HealthCheck → Db × List HealthCheck
  store_finding nth f (d, checks) =
      let (findings, stored) =
        upsert mongo.finding_docs (same_finding job f) (fresh_finding job f (ids nth))
          (found_again job f) d.findings in
      let (recommendations, given) =
        upsert mongo.recommendation_docs
          (λ r. r.workspace_id == job.workspace_id && r.finding_id == stored.id)
          (fresh_recommendation job f stored.id (ids nth)) (recommended_again job f)
          d.recommendations in
      (
        record d { findings = findings; recommendations = recommendations },
        checks ++ health_check job f now ∷ [],
      )

  unfoldable pub store_findings : List EngineFinding → Db × List HealthCheck → Db × List HealthCheck
  store_findings [] s = s
  store_findings (f ∷ fs) s = store_findings fs (store_finding (length fs) f s)

  unfoldable pub run :
      (analysis : List CloudResource → Result (List EngineFinding))
      → Db × List HealthCheck
      → (Db × List HealthCheck) × Result JobResultSummary
  run analysis (d, checks) =
      let resources = mongo.resource_docs.find (in_scope job) d.resources in
      elim (analysis resources) [
        | err e ↦ ((d, checks), err e)
        | ok findings ↦ (
          store_findings findings (d, checks),
          ok (record {
            resources_scanned = length resources;
            findings_created = length findings;
            recommendations_created = length findings;
          }),
        )
      ]

  -- The run against its time limit.
  unfoldable pub raced :
      Race → Db × List HealthCheck → (Db × List HealthCheck) × Result JobResultSummary
  raced (in_time analysis) s = run analysis s
  raced (too_late written) s = (written s, with_timeout hangs "Job execution timed out")

module _ (mongo : Mongo) (config : JobQueueConfig) (worker_id : String) where
  abbrev pub with_jobs : List DiagnosticJob → Db × List HealthCheck → Db × List HealthCheck
  with_jobs jobs (d, checks) = (record d { jobs = jobs }, checks)

  -- What follows the run of a claimed job: the job is completed, or its failure is recorded.
  unfoldable pub settle_job :
      (done : ℕ) (random : Fraction)
      → DiagnosticJob
      → (Db × List HealthCheck) × Result JobResultSummary
      → Db × List HealthCheck
  settle_job done random job (s, r) = elim r [
    | ok summary ↦ with_jobs (complete mongo.job_docs config job.id summary done s.0.jobs).0 s
    | err e ↦
        with_jobs (fail mongo.job_docs config job.id (failure_of e done) done random s.0.jobs).0 s
  ]

  unfoldable pub process_next :
      (ids : ℕ → String) (now done : ℕ) (random : Fraction)
      → Race
      → Db × List HealthCheck
      → (Db × List HealthCheck) × Bool
  process_next ids now done random race (d, checks) =
      let (jobs, claimed) = claim mongo.job_docs config worker_id now d.jobs in
      elim claimed [
        | none ↦ ((record d { jobs = jobs }, checks), false)
        | some job ↦ (
          settle_job done random job
              (raced mongo ids done job race (record d { jobs = jobs }, checks)),
          true,
        )
      ]
