-- ===== src/Types/Plan.antt =====
-- packages/shared/src/types/index.ts: findings, recommendations, remediation plans, approval
-- tokens, executions and audit events, as packages/shared/src/db/models stores them.
use cloudops_sentinel.Base.{ℕ, String, Bool, Option, List}
use cloudops_sentinel.Types.{FindingSeverity, PlanStatus, ExecutionStatus}
use cloudops_sentinel.Types.Resource.{Tags, ResourceConfig, ResourceMetrics}

pub record Finding : Type 0 where
  pub id : String
  pub workspace_id : String
  pub job_id : String
  pub resource_id : String
  pub rule_id : String
  pub severity : FindingSeverity
  pub title : String
  pub description : String
  pub evidence : String  -- its JSON text
  pub correlation_id : String

pub record Recommendation : Type 0 where
  pub id : String
  pub workspace_id : String
  pub job_id : String
  pub finding_id : String
  pub resource_id : String
  pub action_type : String
  pub explanation : String
  pub estimated_impact : String
  pub confidence : ℕ
  pub correlation_id : String

pub record RemediationAction : Type 0 where
  pub action_type : String
  pub resource_id : String
  pub finding_id : String
  pub params : List (String × String)

pub record RemediationPlan : Type 0 where
  pub id : String
  pub workspace_id : String
  pub finding_ids : List String
  pub actions : List RemediationAction
  pub dry_run : Bool
  pub status : PlanStatus
  pub created_by : String
  pub correlation_id : String
  pub idempotency_key : String
  pub version : ℕ

pub record ApprovalToken : Type 0 where
  pub id : String
  pub workspace_id : String
  pub plan_id : String
  pub token_hash : String
  pub expires_at : ℕ
  pub used_at : Option ℕ
  pub created_by : String

pub record ActionResult : Type 0 where
  pub action_type : String
  pub resource_id : String
  pub ok : Bool
  pub message : String
  pub simulated : Bool

-- The state of a resource before an action, or after one that was carried out.
pub record Snapshot : Type 0 where
  pub tags : Tags
  pub config : ResourceConfig

-- The part of a resource that an action works on.
pub record ActionTarget : Type 0 where
  pub tags : Tags
  pub config : ResourceConfig
  pub metrics : ResourceMetrics

-- `{ preview }` of a dry run, or the new tags and config.
pub data AfterState : Type 0 where
  preview : ActionTarget → AfterState
  applied : Snapshot → AfterState

pub record RemediationExecution : Type 0 where
  pub id : String
  pub workspace_id : String
  pub plan_id : String
  pub approval_token_id : String
  pub idempotency_key : String
  pub correlation_id : String
  pub status : ExecutionStatus
  pub dry_run : Bool
  pub before_state : List (String × Snapshot)
  pub after_state : List (String × AfterState)
  pub results : List ActionResult
  pub started_at : Option ℕ
  pub completed_at : Option ℕ
  pub created_by : String

-- The values that the services put into an event's metadata.
pub data MetaValue : Type 0 where
  text : String → MetaValue
  number : ℕ → MetaValue
  flag : Bool → MetaValue

pub record AuditEvent : Type 0 where
  pub workspace_id : String
  pub actor_id : String
  pub action : String
  pub resource_type : String
  pub resource_id : Option String
  pub correlation_id : String
  pub metadata : List (String × MetaValue)
  pub created_at : ℕ
