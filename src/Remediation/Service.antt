-- ===== src/Remediation/Service.antt =====
-- apps/api/src/services/remediation-service.ts: the filters of the queries that the class
-- RemediationService makes, and its saves. The ids of new documents and the text of a new token
-- are arguments of the operations, and so is the time of a call.
use cloudops_sentinel.Base.{ℕ, String, ◌==◌, Bool, true, false, ◌&&◌, some}
use cloudops_sentinel.Store.{update_many}
use cloudops_sentinel.Types.{PlanStatus, awaiting_approval, approved}
use cloudops_sentinel.Types.Plan.{RemediationPlan, ApprovalToken, RemediationExecution}
use cloudops_sentinel.Db.{Db}

pub record ExecuteInput : Type 0 where
  pub approval_token : String
  pub idempotency_key : String

abbrev pub has_plan_key : String → String → RemediationPlan → Bool
has_plan_key workspace_id key p = p.workspace_id == workspace_id && p.idempotency_key == key

abbrev pub has_plan_id : String → String → RemediationPlan → Bool
has_plan_id workspace_id plan_id p = p.id == plan_id && p.workspace_id == workspace_id

abbrev pub has_execution_key : String → String → RemediationExecution → Bool
has_execution_key workspace_id key e = e.workspace_id == workspace_id && e.idempotency_key == key

abbrev pub of_plan : String → String → ApprovalToken → Bool
of_plan workspace_id plan_id a = a.workspace_id == workspace_id && a.plan_id == plan_id

abbrev pub is_approved : PlanStatus → Bool
is_approved approved = true
is_approved _ = false

abbrev pub can_be_approved : PlanStatus → Bool
can_be_approved awaiting_approval = true
can_be_approved approved = true
can_be_approved _ = false

-- `plan.save()` after a new status.
abbrev pub save_plan_status : String → PlanStatus → Db → Db
save_plan_status plan_id status d = record d {
  plans = (update_many (λ p. p.id == plan_id) (λ p. record p { status = status }) d.plans).0;
}

-- `matched.save()` after the token is used.
abbrev pub save_used : String → ℕ → Db → Db
save_used token_id now d = record d {
  approvals =
      (update_many (λ a. a.id == token_id) (λ a. record a { used_at = some now }) d.approvals).0;
}
