-- ===== src/Remediation/Approvals.antt =====
-- apps/api/src/services/remediation-service.ts: `approve`.
pub mod Elsewhere
pub mod Given
use cloudops_sentinel.Base.{if◌then◌else◌, ℕ, ◌+◌, String, none, some, [], ◌∷◌, ◌++◌}
use cloudops_sentinel.Text.{template}
use cloudops_sentinel.Errors.{err, not_found_error, conflict_error}
use cloudops_sentinel.Auth.{hash_token}
use cloudops_sentinel.Store.{find_one}
use cloudops_sentinel.Types.{PlanStatus, awaiting_approval, approved, executing}
use cloudops_sentinel.Types.Plan.{RemediationPlan, ApprovalToken, text}
use cloudops_sentinel.Db.{◌>>◌, ◌>>=◌, Mongo, ApiConfig, M, pure, writes, record_audit}
use cloudops_sentinel.Remediation.Service.{has_plan_id, can_be_approved, save_plan_status}

-- What `approve` answers; the token is not stored.
pub record Approval : Type 0 where
  pub plan : RemediationPlan
  pub approval_token : String
  pub expires_at : ℕ
  pub approval_token_id : String

abbrev pub plan_status_text : PlanStatus → String
plan_status_text PlanStatus.draft = "draft"
plan_status_text awaiting_approval = "awaiting_approval"
plan_status_text approved = "approved"
plan_status_text executing = "executing"
plan_status_text PlanStatus.completed = "completed"
plan_status_text PlanStatus.failed = "failed"
plan_status_text PlanStatus.rejected = "rejected"

-- The document of the token.
abbrev pub token_document :
    (config : ApiConfig) (sha256 : String → String)
    (workspace_id plan_id actor_id token_id token : String) (now : ℕ)
    → ApprovalToken
token_document config sha256 workspace_id plan_id actor_id token_id token now = record {
  id = token_id;
  workspace_id = workspace_id;
  plan_id = plan_id;
  token_hash = hash_token sha256 token;
  expires_at = now + config.approval_ttl_ms;
  used_at = none;
  created_by = actor_id;
}

abbrev pub answer : ApiConfig → RemediationPlan → (token_id token : String) (now : ℕ) → Approval
answer config plan token_id token now = record {
  plan = record plan { status = approved };
  approval_token = token;
  expires_at = now + config.approval_ttl_ms;
  approval_token_id = token_id;
}

module _ (mongo : Mongo) (config : ApiConfig) (sha256 : String → String) where
  unfoldable pub issue :
      (workspace_id plan_id actor_id correlation_id : String)
      → RemediationPlan
      → (token_id token : String) (now : ℕ) → M Approval
  unfolding record_audit hash_token
  issue workspace_id plan_id actor_id correlation_id plan token_id token now =
      let approval =
        token_document config sha256 workspace_id plan_id actor_id token_id token now in
      do
        writes (λ d. record d { approvals = d.approvals ++ approval ∷ [] })
        writes (save_plan_status plan.id approved)
        record_audit
            (record {
              workspace_id = workspace_id;
              actor_id = actor_id;
              action = "remediation.approve";
              resource_type = "RemediationPlan";
              resource_id = some plan_id;
              correlation_id = correlation_id;
              metadata = some (("approvalTokenId", text token_id) ∷ []);
            })
            now
        pure (answer config plan token_id token now)

  unfoldable pub approve :
      (workspace_id plan_id actor_id correlation_id : String) (token_id token : String) (now : ℕ)
      → M Approval
  approve workspace_id plan_id actor_id correlation_id token_id token now d =
      elim (find_one mongo.plan_docs (has_plan_id workspace_id plan_id) d.plans) [
        | none ↦ (d, err (not_found_error "Remediation plan not found"))
        | some plan ↦
            if can_be_approved plan.status
            then issue workspace_id plan_id actor_id correlation_id plan token_id token now d
            else (
              d,
              err (
                  conflict_error
                    (template
                      ("Plan cannot be approved from status " ∷ plan_status_text plan.status ∷ []))
                    none),
            )
      ]
