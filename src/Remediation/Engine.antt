-- ===== src/Remediation/Engine.antt =====
-- packages/shared/src/remediation/engine.ts: the allowlist, and the simulated actions. A rate is in
-- thousandths, so the bound 0.01 of a restarted service is 10.
pub mod Cases
pub mod Achieves
pub mod Idempotent
use cloudops_sentinel.Base.{
  min, String, ◌==◌, Bool, true, false, ◌&&◌, not, Option, none, some, get_or, List, [], ◌∷◌, ◌++◌,
  if◌then◌else◌,
}
use cloudops_sentinel.Text.{template, includes, get, put}
use cloudops_sentinel.Errors.{
  ◌>>◌, ◌>>=◌, AppError, Result, ok, err, guard, forbidden_error, validation_error, conflict_error,
}
use cloudops_sentinel.Types.{ExecutionStatus, allowlisted_actions}
use cloudops_sentinel.Types.Resource.{healthy, ProviderName, aws}
use cloudops_sentinel.Types.Plan.{RemediationAction, ActionResult, ActionTarget}

unfoldable pub not_allowlisted : String → AppError
not_allowlisted action_type =
    forbidden_error (template ("Action " ∷ action_type ∷ " is not allowlisted" ∷ []))

unfoldable pub assert_allowlisted : String → Result (Unit {0})
assert_allowlisted action_type =
    guard (includes action_type allowlisted_actions) (not_allowlisted action_type)

-- The copy that the actions change; a missing alarm list becomes an empty one.
abbrev pub copied : ActionTarget → ActionTarget
copied resource =
    let config = resource.config in
    record resource { config = record config { alarms = some (get_or config.alarms []) } }

abbrev pub done : RemediationAction → String → ActionResult
done action message = record {
  action_type = action.action_type;
  resource_id = action.resource_id;
  ok = true;
  message = message;
  simulated = true;
}

unfoldable pub add_missing_tag : ActionTarget → RemediationAction → ActionTarget × ActionResult
add_missing_tag next action =
    let key = get_or (get "key" action.params) "Owner" in
    let value = get_or (get "value" action.params) "platform" in
    (
      record next { tags = put key value next.tags },
      done action (template ("Added tag " ∷ key ∷ "=" ∷ value ∷ [])),
    )

abbrev pub with_alarm : String → List String → List String
with_alarm alarm alarms = if includes alarm alarms then alarms else alarms ++ alarm ∷ []

unfoldable pub create_alarm : ActionTarget → RemediationAction → ActionTarget × ActionResult
create_alarm next action =
    let alarm =
      get_or (get "alarmName" action.params) (template (action.resource_id ∷ "-health" ∷ [])) in
    let config = next.config in
    (
      record next {
        config = record config { alarms = some (with_alarm alarm (get_or config.alarms [])) };
      },
      done action (template ("Created simulated alarm " ∷ alarm ∷ [])),
    )

unfoldable pub enable_backup_policy : ActionTarget → RemediationAction → ActionTarget × ActionResult
enable_backup_policy next action =
    let config = next.config in
    (
      record next { config = record config { backup_enabled = some true } },
      done action "Enabled simulated backup policy",
    )

unfoldable pub restart_unhealthy_service :
    ActionTarget → RemediationAction → ActionTarget × ActionResult
restart_unhealthy_service next action =
    let config = next.config in
    let metrics = next.metrics in
    (
      record next {
        config = record config { health_check_status = some healthy };
        metrics = record metrics { error_rate = some (min (get_or metrics.error_rate 0) 10) };
      },
      done action "Restarted simulated unhealthy service",
    )

unfoldable pub restrict_public_storage :
    ActionTarget → RemediationAction → ActionTarget × ActionResult
restrict_public_storage next action =
    let config = next.config in
    (
      record next { config = record config { public_access = some false } },
      done action "Restricted simulated public storage access",
    )

-- The `switch`, on the text of the action type.
unfoldable pub dispatch : ActionTarget → RemediationAction → Result (ActionTarget × ActionResult)
dispatch next action =
    if action.action_type == "add_missing_tag"
    then ok (add_missing_tag next action)
    else if action.action_type == "create_alarm"
    then ok (create_alarm next action)
    else if action.action_type == "enable_backup_policy"
    then ok (enable_backup_policy next action)
    else if action.action_type == "restart_unhealthy_service"
    then ok (restart_unhealthy_service next action)
    else if action.action_type == "restrict_public_storage"
    then ok (restrict_public_storage next action)
    else err (validation_error (template ("Unsupported action " ∷ action.action_type ∷ [])) none)

unfoldable pub apply_simulated_action :
    ActionTarget → RemediationAction → Result (ActionTarget × ActionResult)
unfolding assert_allowlisted dispatch
apply_simulated_action resource action = do
  assert_allowlisted action.action_type
  dispatch (copied resource) action

abbrev pub is_aws : ProviderName → Bool
is_aws aws = true
is_aws _ = false

unfoldable pub reject_mutations_if_disabled : Bool → ProviderName → Result (Unit {0})
reject_mutations_if_disabled enable_aws_mutations provider_name =
    guard (not (is_aws provider_name && not enable_aws_mutations)) (
      forbidden_error
        "Real AWS mutations are disabled. Set ENABLE_AWS_MUTATIONS=true only after explicit confirmation.")

abbrev blocks_duplicates : ExecutionStatus → Bool
blocks_duplicates ExecutionStatus.succeeded = true
blocks_duplicates ExecutionStatus.running = true
blocks_duplicates _ = false

abbrev status_text : ExecutionStatus → String
status_text ExecutionStatus.pending = "pending"
status_text ExecutionStatus.running = "running"
status_text ExecutionStatus.succeeded = "succeeded"
status_text ExecutionStatus.partial_failure = "partial_failure"
status_text ExecutionStatus.failed = "failed"
status_text ExecutionStatus.skipped_duplicate = "skipped_duplicate"

unfoldable pub assert_idempotent_execution : Option ExecutionStatus → Result (Unit {0})
assert_idempotent_execution none = ok tt
assert_idempotent_execution (some status) = guard (not (blocks_duplicates status)) (
    conflict_error "Duplicate remediation execution blocked by idempotency key"
      (some (("status", status_text status) ∷ [])))
