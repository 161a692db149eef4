-- ===== src/Db.antt =====
-- The database that the services share, and the services' code over it: a call takes the database,
-- and returns it as it then is with a value or the error that was thrown, so that what was written
-- before a throw stays written. One call runs with no other in between.
pub mod Elsewhere
pub mod Connection
use cloudops_sentinel.Base.{ℕ, String, Bool, Option, none, some, get_or, List, [], ◌∷◌, ◌++◌}
use cloudops_sentinel.Errors.{AppError, Result, ok, err}
use cloudops_sentinel.Store.{Collection}
use cloudops_sentinel.Types.Resource.{CloudResource, ProviderName}
use cloudops_sentinel.Types.Job.{DiagnosticJob}
use cloudops_sentinel.Types.Plan.{
  Finding, Recommendation, RemediationPlan, ApprovalToken, RemediationExecution, AuditEvent,
  MetaValue,
}
use cloudops_sentinel.Types.User.{User, Workspace}

pub record Db : Type 0 where
  pub jobs : List DiagnosticJob
  pub resources : List CloudResource
  pub findings : List Finding
  pub recommendations : List Recommendation
  pub plans : List RemediationPlan
  pub approvals : List ApprovalToken
  pub executions : List RemediationExecution
  pub audits : List AuditEvent
  pub users : List User
  pub workspaces : List Workspace

-- The database's behaviour on each collection.
pub record Mongo : Type 0 where
  pub job_docs : Collection DiagnosticJob
  pub resource_docs : Collection CloudResource
  pub finding_docs : Collection Finding
  pub recommendation_docs : Collection Recommendation
  pub plan_docs : Collection RemediationPlan
  pub approval_docs : Collection ApprovalToken
  pub execution_docs : Collection RemediationExecution
  pub user_docs : Collection User
  pub workspace_docs : Collection Workspace

-- What the services read of apps/api/src/config.ts.
pub record ApiConfig : Type 0 where
  pub cloud_provider : ProviderName
  pub enable_aws_mutations : Bool
  pub approval_ttl_ms : ℕ
  pub worker_max_attempts : ℕ
  pub worker_job_timeout_ms : ℕ
  pub aws_region : String
  pub aws_read_only : Bool
  pub aws_request_timeout_ms : ℕ
  pub jwt_secret : String
  pub jwt_expires_in : String

abbrev pub M : Type 0 → Type 0
M A = Db → Db × Result A

infixl 5 ◌>>=◌ ◌>>◌
abbrev pub ◌>>=◌ : {A B : Type 0} → M A → (A → M B) → M B
◌>>=◌ m f d = let (d', r) = m d in elim r [ ok a ↦ f a d' | err e ↦ (d', err e) ]

abbrev pub ◌>>◌ : {B : Type 0} → M (Unit {0}) → M B → M B
m >> k = m >>= λ _. k

abbrev pub pure : {A : Type 0} → A → M A
pure a d = (d, ok a)

abbrev pub lift : {A : Type 0} → Result A → M A
lift r d = (d, r)

abbrev pub reads : {A : Type 0} → (Db → A) → M A
reads f d = (d, ok (f d))

abbrev pub or_throw : {A : Type 0} → Option A → AppError → M A
or_throw none e d = (d, err e)
or_throw (some a) e d = (d, ok a)

abbrev pub writes : (Db → Db) → M (Unit {0})
writes f d = (f d, ok tt)

-- packages/shared/src/audit/record.ts.
pub record AuditInput : Type 0 where
  pub workspace_id : String
  pub actor_id : String
  pub action : String
  pub resource_type : String
  pub resource_id : Option String
  pub correlation_id : String
  pub metadata : Option (List (String × MetaValue))

unfoldable pub record_audit : AuditInput → (now : ℕ) → M (Unit {0})
record_audit event now = writes λ d. record d {
  audits =
      d.audits
      ++ record {
        workspace_id = event.workspace_id;
        actor_id = event.actor_id;
        action = event.action;
        resource_type = event.resource_type;
        resource_id = event.resource_id;
        correlation_id = event.correlation_id;
        metadata = get_or event.metadata [];
        created_at = now;
      }
        ∷ [];
}
