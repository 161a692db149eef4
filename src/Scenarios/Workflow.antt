-- ===== src/Scenarios/Workflow.antt =====
-- A plan that is approved and executed.
use cloudops_sentinel.Routes.Roles.{handle_denies}
use cloudops_sentinel.Routes.{post_approve, handle}
use cloudops_sentinel.Resources.{CloudProvider}
use cloudops_sentinel.Types.Resource.{mock}
use cloudops_sentinel.Base.{String, ◌≡◌, refl, true, false, List, [], ◌∷◌, arith}
use cloudops_sentinel.Errors.{forbidden_error, AppError, ok, err}
use cloudops_sentinel.Db.{Db, record_audit}
use cloudops_sentinel.Text.{get, put, template, includes, map_get}
use cloudops_sentinel.Store.{find_one, update_many}
use cloudops_sentinel.Types.{operator, Role}
use cloudops_sentinel.Types.Plan.{ActionTarget, ActionResult}
use cloudops_sentinel.Auth.{can_approve, AuthClaims, tokens_match, hash_token}
use cloudops_sentinel.Remediation.Engine.{
  restrict_public_storage, reject_mutations_if_disabled, apply_simulated_action, assert_allowlisted,
  dispatch, add_missing_tag, copied,
}
use cloudops_sentinel.Remediation.Service.{ExecuteInput}
use cloudops_sentinel.Remediation.Plans.{PlanInput, create_plan}
use cloudops_sentinel.Remediation.Plans.Made.{Planned, create_plan-Planned}
use cloudops_sentinel.Remediation.Approvals.{issue, approve}
use cloudops_sentinel.Remediation.Approvals.Given.{Approved, approve-Approved}
use cloudops_sentinel.Remediation.Execute.{
  execution_status, finish, carry_out, execute, authorize, check_plan, check_token, check_mutations,
  find_token,
}
use cloudops_sentinel.Remediation.Execute.Checks.{IsAuthorized, authorize-IsAuthorized}
use cloudops_sentinel.Remediation.Execute.Endings.{Ending, execute-Ending}
use cloudops_sentinel.Remediation.History.{Call, approves, executes, run, step, executions_of}
use cloudops_sentinel.Scenarios.Sample.{mongo, config, bucket, add_tag, plan, token, db}
use cloudops_sentinel.Remediation.Engine.Achieves.{Achieves, apply-Achieves}
use cloudops_sentinel.Remediation.Engine.Idempotent.{apply_idempotent}
use cloudops_sentinel.Remediation.History.Once.{IsOnce, run-IsOnce}
use cloudops_sentinel.Scenarios.FirstMatch.{first}
use cloudops_sentinel.Remediation.Actions.{saves, record_action, run_action, run_actions, target_of}

abbrev pub same_text : String → String
same_text s = s

abbrev input : ExecuteInput
input = record { approval_token = "secret"; idempotency_key = "key-of-e1" }

abbrev plan_input : PlanInput
plan_input = record { finding_ids = "f1" ∷ []; dry_run = false; idempotency_key = "key-of-p2" }

execute-Ending_example :
    Ending mongo config same_text "ws" "p1" "ann" "corr" input "e1" 20 db
      (execute mongo config same_text "ws" "p1" "ann" "corr" input "e1" 20 db)
execute-Ending_example =
    execute-Ending mongo config same_text "ws" "p1" "ann" "corr" input "e1" 20 db

authorize-IsAuthorized_example : IsAuthorized config same_text "ws" "p1" input 20 db plan token
unfolding authorize check_plan check_token check_mutations find_token find_one first tokens_match
    hash_token reject_mutations_if_disabled
authorize-IsAuthorized_example =
    authorize-IsAuthorized mongo config same_text "ws" "p1" input 20 db plan token refl

create_plan-Planned_example :
    Planned mongo "ws" "ann" "corr" plan_input "p2" 10 db
      (create_plan mongo "ws" "ann" "corr" plan_input "p2" 10 db)
create_plan-Planned_example = create_plan-Planned mongo "ws" "ann" "corr" plan_input "p2" 10 db

approve-Approved_example :
    Approved mongo config same_text "ws" "p1" "bob" "corr" "t2" "other" 15 db
      (approve mongo config same_text "ws" "p1" "bob" "corr" "t2" "other" 15 db)
approve-Approved_example =
    approve-Approved mongo config same_text "ws" "p1" "bob" "corr" "t2" "other" 15 db

abbrev calls : List Call
calls =
    executes "ws" "p1" "ann" "corr" input "e1" 20
    ∷ executes "ws" "p1" "ann" "corr" (record input { idempotency_key = "key-of-e2" }) "e2" 30
    ∷ approves "ws" "p1" "bob" "corr" "t2" "other" 40
    ∷ []

run-IsOnce_example : IsOnce (run mongo config same_text calls db)
run-IsOnce_example =
    run-IsOnce mongo config same_text calls db (tt, (tt, (tt, tt)))
      ((λ id. omega arith), ((λ can. refl), tt))

abbrev tagged : ActionTarget
tagged = record (target_of bucket) {
  tags = ("Owner", "platform") ∷ [];
  config = (copied (target_of bucket)).config;
}

abbrev reported : ActionResult
reported = record {
  action_type = "add_missing_tag";
  resource_id = "r1";
  ok = true;
  message = "Added tag Owner=platform";
  simulated = true;
}

apply-Achieves_example : Achieves add_tag (target_of bucket) tagged
unfolding apply_simulated_action assert_allowlisted dispatch add_missing_tag includes template put
    get
apply-Achieves_example = apply-Achieves (target_of bucket) tagged add_tag reported refl

apply_idempotent_example : apply_simulated_action tagged add_tag ≡ ok (tagged, reported)
unfolding apply_simulated_action assert_allowlisted dispatch add_missing_tag includes template put
    get
apply_idempotent_example = apply_idempotent (target_of bucket) tagged add_tag reported refl

-- The first of the calls executes the plan, and the later ones are refused.
executed_once : executions_of "p1" (run mongo config same_text calls db) ≡ 1
unfolding run step execute authorize check_plan check_token check_mutations find_token find_one
    first tokens_match hash_token reject_mutations_if_disabled carry_out run_actions run_action
    record_action saves finish record_audit execution_status update_many map_get includes
    apply_simulated_action assert_allowlisted dispatch add_missing_tag restrict_public_storage put
    get template approve issue
executed_once = refl

abbrev second_key : ExecuteInput
second_key = record input { idempotency_key = "key-of-e2" }

-- Two calls with keys of their own pass the checks while neither has written.
both_pass :
    (authorize mongo config same_text "ws" "p1" input 20 db ≡ ok (plan, token))
    × (authorize mongo config same_text "ws" "p1" second_key 20 db ≡ ok (plan, token))
unfolding authorize check_plan check_token check_mutations find_token find_one first tokens_match
    hash_token reject_mutations_if_disabled
both_pass = (refl, refl)

abbrev overlapping : Db
overlapping =
    (carry_out mongo config same_text "ws" "p1" "ann" "c2" second_key plan token "e2" 20
      (carry_out mongo config same_text "ws" "p1" "ann" "c1" input plan token "e1" 20 db).0).0

-- Then both execute the plan, under one token.
executed_twice : executions_of "p1" overlapping ≡ 2
unfolding carry_out run_actions run_action record_action saves finish record_audit execution_status
    update_many map_get includes apply_simulated_action assert_allowlisted dispatch add_missing_tag
    restrict_public_storage put get template find_one first
executed_twice = refl

abbrev pub no_provider : CloudProvider
no_provider = record { name = mock; read_only = true; list_resources = λ query. ok [] }

abbrev pub with_role_of : Role → AuthClaims
with_role_of role = record { sub = "u1"; email = "ann@x.io"; role = role; workspace_id = "ws" }

abbrev pub rethrown : AppError
rethrown = forbidden_error "duplicate key"

handle_denies_example :
    handle mongo no_provider config same_text rethrown
      (with_role_of operator)
      "corr"
      (post_approve "p1" "t2" "other" 15)
      db
    ≡ (db, err (forbidden_error "Insufficient permissions"))
unfolding can_approve
handle_denies_example =
    handle_denies mongo no_provider config same_text rethrown (with_role_of operator) "corr" db
      (post_approve "p1" "t2" "other" 15) refl
