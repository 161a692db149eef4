-- ===== src/Remediation/Plans.antt =====
-- apps/api/src/services/remediation-service.ts: `createPlan`.
pub mod Elsewhere
pub mod Made
use cloudops_sentinel.Base.{
  ℕ, String, ◌==◌, Bool, true, false, ◌&&◌, Option, none, some, get_or, List, [], ◌∷◌, ◌++◌, map,
  length, nat_eq, if◌then◌else◌,
}
use cloudops_sentinel.Text.{template, includes, get, map_get}
use cloudops_sentinel.Errors.{Result, ok, guard, not_found_error}
use cloudops_sentinel.Errors
use cloudops_sentinel.Store.{find_one}
use cloudops_sentinel.Types.{awaiting_approval}
use cloudops_sentinel.Types.Plan.{
  Finding, Recommendation, RemediationAction, RemediationPlan, number, flag,
}
use cloudops_sentinel.Db.{Db, Mongo, M, ◌>>=◌, ◌>>◌, pure, lift, reads, writes, record_audit}
use cloudops_sentinel.Remediation.Engine.{assert_allowlisted}
use cloudops_sentinel.Remediation.Service.{has_plan_key}

-- ACTION_BY_RULE.
abbrev pub action_by_rule : List (String × String)
action_by_rule =
    ("ec2.low_utilization", "manual_review")
    ∷ ("resource.missing_tags", "add_missing_tag")
    ∷ ("s3.public_access", "restrict_public_storage")
    ∷ ("cloudwatch.missing_alarms", "create_alarm")
    ∷ ("service.unhealthy", "restart_unhealthy_service")
    ∷ ("resource.missing_backup", "enable_backup_policy")
    ∷ ("app.repeated_errors", "restart_unhealthy_service")
    ∷ ("api.elevated_latency", "create_alarm")
    ∷ ("reliability.failure_rate_increase", "create_alarm")
    ∷ []

unfoldable pub default_params : String → String → List (String × String)
default_params action_type resource_id =
    if action_type == "add_missing_tag"
    then ("key", "Owner") ∷ ("value", "platform") ∷ []
    else if action_type == "create_alarm"
    then ("alarmName", template (resource_id ∷ "-health" ∷ [])) ∷ []
    else []

-- rec?.actionType ?? ACTION_BY_RULE[ruleId] ?? 'manual_review'.
unfoldable pub action_type_for : Option Recommendation → Finding → String
action_type_for (some r) finding = r.action_type
action_type_for none finding = get_or (get finding.rule_id action_by_rule) "manual_review"

-- The callback of the `map` in `createPlan`.
unfoldable pub action_for : List Recommendation → Finding → Result (Option RemediationAction)
action_for recs finding =
    let action_type =
      action_type_for (map_get (λ (r : Recommendation). r.finding_id) finding.id recs) finding in
    if action_type == "manual_review"
    then ok none
    else Errors.◌>>◌ (assert_allowlisted action_type) (
        ok (
          some (record {
            action_type = action_type;
            resource_id = finding.resource_id;
            finding_id = finding.id;
            params = default_params action_type finding.resource_id;
          })))

abbrev keep_some : {A : Type 0} → Option A → List A → List A
keep_some none xs = xs
keep_some (some x) xs = x ∷ xs

-- The `map` and the `filter` of `createPlan`.
unfoldable pub actions_for : List Recommendation → List Finding → Result (List RemediationAction)
actions_for recs [] = ok []
actions_for recs (f ∷ fs) =
    Errors.◌>>=◌ (action_for recs f)
      λ a. Errors.◌>>=◌ (actions_for recs fs) λ as'. ok (keep_some a as')

pub record PlanInput : Type 0 where
  pub finding_ids : List String
  pub dry_run : Bool
  pub idempotency_key : String

module _ (mongo : Mongo) where
  abbrev find_findings : String → List String → Db → List Finding
  find_findings workspace_id ids d =
      mongo.finding_docs.find (λ f. f.workspace_id == workspace_id && includes f.id ids) d.findings

  abbrev find_recommendations : String → List Finding → Db → List Recommendation
  find_recommendations workspace_id findings d =
      mongo.recommendation_docs.find
        (λ r.
          r.workspace_id == workspace_id
          && includes r.finding_id (map (λ (f : Finding). f.id) findings))
        d.recommendations

  -- The document of the plan.
  abbrev pub plan_document :
      (workspace_id actor_id correlation_id : String)
      → PlanInput
      → List RemediationAction
      → (plan_id : String) → RemediationPlan
  plan_document workspace_id actor_id correlation_id input actions plan_id = record {
    id = plan_id;
    workspace_id = workspace_id;
    finding_ids = input.finding_ids;
    actions = actions;
    dry_run = input.dry_run;
    status = awaiting_approval;
    created_by = actor_id;
    correlation_id = correlation_id;
    idempotency_key = input.idempotency_key;
    version = 1;
  }

  unfoldable new_plan :
      (workspace_id actor_id correlation_id : String)
      → PlanInput
      → List RemediationAction
      → (plan_id : String) (now : ℕ) → M (RemediationPlan × Bool)
  unfolding record_audit
  new_plan workspace_id actor_id correlation_id input actions plan_id now =
      let plan = plan_document workspace_id actor_id correlation_id input actions plan_id in
      do
        writes (λ d. record d { plans = d.plans ++ plan ∷ [] })
        record_audit
            (record {
              workspace_id = workspace_id;
              actor_id = actor_id;
              action = "remediation.plan";
              resource_type = "RemediationPlan";
              resource_id = some plan_id;
              correlation_id = correlation_id;
              metadata =
                  some (("dryRun", flag input.dry_run) ∷ ("actions", number (length actions)) ∷ []);
            })
            now
        pure (plan, false)

  -- `createPlan` once no plan has the key: the findings, their actions, and the new plan.
  unfoldable fresh_plan :
      (workspace_id actor_id correlation_id : String)
      → PlanInput
      → (plan_id : String) (now : ℕ) → M (RemediationPlan × Bool)
  unfolding new_plan
  fresh_plan workspace_id actor_id correlation_id input plan_id now = do
    findings ← reads (find_findings workspace_id input.finding_ids)
    lift (
        guard (nat_eq (length findings) (length input.finding_ids))
          (not_found_error "One or more findings were not found in this workspace"))
    recs ← reads (find_recommendations workspace_id findings)
    actions ← lift (actions_for recs findings)
    new_plan workspace_id actor_id correlation_id input actions plan_id now

  unfoldable pub create_plan :
      (workspace_id actor_id correlation_id : String)
      → PlanInput
      → (plan_id : String) (now : ℕ) → M (RemediationPlan × Bool)
  unfolding fresh_plan
  create_plan workspace_id actor_id correlation_id input plan_id now d =
      elim (find_one mongo.plan_docs (has_plan_key workspace_id input.idempotency_key) d.plans) [
        | some existing ↦ (d, ok (existing, true))
        | none ↦ fresh_plan workspace_id actor_id correlation_id input plan_id now d
      ]
