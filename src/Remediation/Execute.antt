-- ===== src/Remediation/Execute.antt =====
-- apps/api/src/services/remediation-service.ts: `execute`. The checks come first and write nothing; then
-- the plan is carried out, action by action.
pub mod Elsewhere
pub mod Checks
pub mod Outcome
pub mod Endings
use cloudops_sentinel.Base.{
  ℕ, ◌+◌, String, ◌==◌, Bool, true, false, ◌&&◌, not, Option, none, some, List, [], ◌∷◌, ◌++◌, map,
  length, count, ltb, nat_eq, is_some, if◌then◌else◌,
}
use cloudops_sentinel.Text.{includes}
use cloudops_sentinel.Errors.{
  ◌>>◌, ◌>>=◌, AppError, Result, ok, err, guard, not_found_error, conflict_error, forbidden_error,
}
use cloudops_sentinel.Auth.{tokens_match}
use cloudops_sentinel.Store.{find_one}
use cloudops_sentinel.Types.{PlanStatus, executing, ExecutionStatus, succeeded, partial_failure}
use cloudops_sentinel.Types.Plan.{
  RemediationPlan, ApprovalToken, ActionResult, RemediationExecution, text, number, flag,
}
use cloudops_sentinel.Db.{Db, Mongo, ApiConfig, M, record_audit}
use cloudops_sentinel.Remediation.Engine.{reject_mutations_if_disabled}
use cloudops_sentinel.Remediation.Service.{
  ExecuteInput, has_plan_id, has_execution_key, of_plan, is_approved, save_plan_status, save_used,
}
use cloudops_sentinel.Remediation.Actions.{Progress, run_actions}

-- `approvals.find(...)`.
unfoldable pub find_token :
    (sha256 : String → String) → String → List ApprovalToken → Option ApprovalToken
find_token sha256 token [] = none
find_token sha256 token (a ∷ approvals) =
    if tokens_match sha256 token a.token_hash then some a else find_token sha256 token approvals

abbrev pub or_else_throw : {A : Type 0} → Option A → AppError → Result A
or_else_throw none e = err e
or_else_throw (some a) e = ok a

abbrev pub failures : List ActionResult → ℕ
failures = count λ r. not r.ok

unfoldable pub execution_status : List ActionResult → ExecutionStatus
execution_status results =
    if nat_eq (failures results) 0
    then succeeded
    else if nat_eq (failures results) (length results)
    then ExecutionStatus.failed
    else partial_failure

abbrev pub final_plan_status : ExecutionStatus → PlanStatus
final_plan_status succeeded = PlanStatus.completed
final_plan_status _ = PlanStatus.failed

abbrev status_text : ExecutionStatus → String
status_text succeeded = "succeeded"
status_text ExecutionStatus.failed = "failed"
status_text _ = "partial_failure"

-- `[...new Set(ids)]` is asked for membership only.
abbrev pub resource_ids : RemediationPlan → List String
resource_ids plan = map (λ a. a.resource_id) plan.actions

unfoldable pub check_plan : Option RemediationPlan → Result RemediationPlan
check_plan found = do
  plan ← or_else_throw found (not_found_error "Remediation plan not found")
  guard (is_approved plan.status) (conflict_error "Plan must be approved before execution" none)
  ok plan

unfoldable pub check_token : (now : ℕ) → Option ApprovalToken → Result ApprovalToken
check_token now found = do
  matched ← or_else_throw found (forbidden_error "Invalid approval token")
  guard (not (is_some matched.used_at)) (conflict_error "Approval token already used" none)
  guard (not (ltb matched.expires_at now)) (forbidden_error "Approval token expired")
  ok matched

unfoldable pub check_mutations : ApiConfig → RemediationPlan → Result (Unit {0})
check_mutations config plan =
    if plan.dry_run
    then ok tt
    else reject_mutations_if_disabled config.enable_aws_mutations config.cloud_provider

module _ (mongo : Mongo) (config : ApiConfig) (sha256 : String → String)
    (workspace_id plan_id : String) where
  -- The checks of `execute`, in their order.
  unfoldable pub authorize :
      ExecuteInput → (now : ℕ) → Db → Result (RemediationPlan × ApprovalToken)
  unfolding find_token
  authorize input now d = do
    plan ← check_plan (find_one mongo.plan_docs (has_plan_id workspace_id plan_id) d.plans)
    matched ← check_token now (
        find_token sha256 input.approval_token
          (mongo.approval_docs.find (of_plan workspace_id plan_id) d.approvals))
    check_mutations config plan
    ok (plan, matched)

  abbrev pub start : RemediationPlan → Db → Progress
  start plan d = record {
    docs =
        mongo.resource_docs.find
          (λ r. r.workspace_id == workspace_id && includes r.id (resource_ids plan)) d.resources;
    stored = d.resources;
    before_state = [];
    after_state = [];
    results = [];
  }

  -- The document of the execution.
  abbrev pub new_execution :
      (actor_id correlation_id : String)
      → ExecuteInput
      → RemediationPlan
      → ApprovalToken
      → (execution_id : String) (now : ℕ) → Progress
      → RemediationExecution
  new_execution actor_id correlation_id input plan matched execution_id now s = record {
    id = execution_id;
    workspace_id = workspace_id;
    plan_id = plan_id;
    approval_token_id = matched.id;
    idempotency_key = input.idempotency_key;
    correlation_id = correlation_id;
    status = execution_status s.results;
    dry_run = plan.dry_run;
    before_state = s.before_state;
    after_state = s.after_state;
    results = s.results;
    started_at = some now;
    completed_at = some now;
    created_by = actor_id;
  }

  unfoldable pub finish :
      (actor_id correlation_id : String)
      → ExecuteInput
      → RemediationPlan
      → ApprovalToken
      → (execution_id : String) (now : ℕ) → Progress
      → M (RemediationExecution × Bool)
  unfolding record_audit
  finish actor_id correlation_id input plan matched execution_id now s d =
      let status = execution_status s.results in
      let execution = new_execution actor_id correlation_id input plan matched execution_id now s in
      let d' =
        save_plan_status plan.id (final_plan_status status)
          (record d { executions = d.executions ++ execution ∷ [] }) in
      let (d'', logged) =
        record_audit
          (record {
            workspace_id = workspace_id;
            actor_id = actor_id;
            action = "remediation.execute";
            resource_type = "RemediationExecution";
            resource_id = some execution_id;
            correlation_id = correlation_id;
            metadata = some (
                ("status", text (status_text status))
                ∷ ("dryRun", flag plan.dry_run)
                ∷ ("failed", number (failures s.results))
                ∷ []);
          })
          now d' in
      (d'', ok (execution, false))

  -- `execute` behind the checks: the plan is marked, the token used, and the actions are run.
  unfoldable pub carry_out :
      (actor_id correlation_id : String)
      → ExecuteInput
      → RemediationPlan
      → ApprovalToken
      → (execution_id : String) (now : ℕ) → M (RemediationExecution × Bool)
  carry_out actor_id correlation_id input plan matched execution_id now d =
      let marked = save_used matched.id now (save_plan_status plan.id executing d) in
      let (s, r) = run_actions config plan.dry_run plan.actions (start plan d) in
      let d' = record marked { resources = s.stored } in
      elim r [
        | ok u ↦ finish actor_id correlation_id input plan matched execution_id now s d'
        | err e ↦ (d', err e)
      ]

  unfoldable pub execute :
      (actor_id correlation_id : String)
      → ExecuteInput
      → (execution_id : String) (now : ℕ) → M (RemediationExecution × Bool)
  execute actor_id correlation_id input execution_id now d =
      elim (find_one mongo.execution_docs (has_execution_key workspace_id input.idempotency_key)
        d.executions) [
          | some existing ↦ (d, ok (existing, true))
          | none ↦ elim (authorize input now d) [
            | err e ↦ (d, err e)
            | ok (plan, matched) ↦
                carry_out actor_id correlation_id input plan matched execution_id now d
          ]
        ]
