-- ===== src/Remediation/Execute/Endings.antt =====
-- The ways in which a call of `execute` can end.
use cloudops_sentinel.Base.{
  ℕ, String, ◌≡◌, refl, ◌∙◌, inl, inr, Bool, true, false, Option, none, some, Memᴰ, ◌==◌, eq_iff,
  Option-cases, All, All₂,
}
use cloudops_sentinel.Db.{Db, Mongo, ApiConfig}
use cloudops_sentinel.Errors.{AppError, Result, ok, err}
use cloudops_sentinel.Text.{includes}
use cloudops_sentinel.Types.{allowlisted_actions, executing}
use cloudops_sentinel.Remediation.Execute.{execute, carry_out, finish, start, authorize}
use cloudops_sentinel.Store.{find_one}
use cloudops_sentinel.Store.Laws.{find_one_sound}
use cloudops_sentinel.Types.Plan.{RemediationPlan, ApprovalToken, RemediationExecution}
use cloudops_sentinel.Remediation.Service.{ExecuteInput, has_execution_key}
use cloudops_sentinel.Remediation.Execute.Checks.{IsAuthorized, authorize-IsAuthorized, and_both}
use cloudops_sentinel.Remediation.Actions.Loop.{run_actions-ok}
use cloudops_sentinel.Remediation.Execute.Outcome.{
  status-Closes, Executed, Closes, Uses, finished-Executed, carry_out-ok, carry_out-err, ran,
  used-Uses,
}
use cloudops_sentinel.Remediation.Actions.{Progress}

-- The actions of a plan are all in the allowlist.
abbrev pub AreListed : RemediationPlan → Type 0
AreListed plan = All (λ a. includes a.action_type allowlisted_actions ≡ true) plan.actions

module _ (mongo : Mongo) (config : ApiConfig) (sha256 : String → String)
    (workspace_id plan_id actor_id correlation_id : String) (input : ExecuteInput)
    (execution_id : String) (now : ℕ) (d : Db) where
  pub data Ending (r : Db × Result (RemediationExecution × Bool)) : Type 0 where
    -- The key has been used in the workspace: its execution is given back, and nothing is written.
    replay :
        (execution : RemediationExecution)
        → Memᴰ execution d.executions
        → execution.workspace_id ≡ workspace_id
        → execution.idempotency_key ≡ input.idempotency_key
        → r ≡ (d, ok (execution, true))
        → Ending r
    -- A check has failed: nothing is written.
    refusal :
        (e : AppError)
        → authorize mongo config sha256 workspace_id plan_id input now d ≡ err e
        → r ≡ (d, err e)
        → Ending r
    -- An action of the plan is not in the allowlist: no execution is recorded.
    stop :
        (plan : RemediationPlan) (matched : ApprovalToken) (d' : Db) (e : AppError)
        → IsAuthorized config sha256 workspace_id plan_id input now d plan matched
        → ¬ AreListed plan
        → (d'.executions ≡ d.executions) × (d'.audits ≡ d.audits)
        → All₂ (Closes plan.id executing) d.plans d'.plans
        → All₂ (Uses matched.id now) d.approvals d'.approvals
        → r ≡ (d', err e)
        → Ending r
    -- The plan is carried out.
    execution :
        (plan : RemediationPlan) (matched : ApprovalToken) (d' : Db) (x : RemediationExecution)
        → IsAuthorized config sha256 workspace_id plan_id input now d plan matched
        → Executed config workspace_id actor_id input now plan matched d d' x
        → r ≡ (d', ok (x, false))
        → Ending r

  abbrev result : Db × Result (RemediationExecution × Bool)
  result =
      execute mongo config sha256 workspace_id plan_id actor_id correlation_id input execution_id
        now d

  abbrev existing : Option RemediationExecution
  existing =
      find_one mongo.execution_docs (has_execution_key workspace_id input.idempotency_key)
        d.executions

  replay_ends : (x : RemediationExecution) → existing ≡ some x → Ending result
  unfolding execute
  replay_ends x e =
      let (m, hit) =
        find_one_sound mongo.execution_docs (has_execution_key workspace_id input.idempotency_key)
          d.executions e in
      let (ws, key) =
        and_both (x.workspace_id == workspace_id) (x.idempotency_key == input.idempotency_key)
          hit in
      replay x m ((eq_iff x.workspace_id workspace_id).0 ws)
        ((eq_iff x.idempotency_key input.idempotency_key).0 key) (rw (execute, e) refl)

  refusal_ends :
      (e : AppError)
      → existing ≡ none
      → authorize mongo config sha256 workspace_id plan_id input now d ≡ err e
      → Ending result
  unfolding execute
  refusal_ends e new denied = refusal e denied (rw (execute, new, denied) refl)

  module _ (plan : RemediationPlan) (matched : ApprovalToken) (new : existing ≡ none)
      (passed : authorize mongo config sha256 workspace_id plan_id input now d
        ≡ ok (plan, matched)) where
    carried :
        result
        ≡ carry_out mongo config sha256 workspace_id plan_id actor_id correlation_id input plan
            matched execution_id now d
    unfolding execute
    carried = rw (execute, new, passed) refl

    abbrev run : Progress × Result (Unit {0})
    run =
        ran mongo config sha256 workspace_id plan_id actor_id correlation_id input plan matched
          execution_id now d

    run_ends : (r : Result (Unit {0})) → run.1 ≡ r → Ending result
    unfolding finish
    run_ends (ok u) done =
        let may =
          authorize-IsAuthorized mongo config sha256 workspace_id plan_id input now d plan matched
            passed in
        execution plan matched _ _ may
          (finished-Executed mongo config sha256 workspace_id plan_id actor_id correlation_id input
            plan matched execution_id now d may.plan_is done)
          (carried
            ∙ carry_out-ok mongo config sha256 workspace_id plan_id actor_id correlation_id input
                plan matched execution_id now d done)
    run_ends (err e) stopped =
        stop plan matched _ e
          (authorize-IsAuthorized mongo config sha256 workspace_id plan_id input now d plan matched
            passed)
          (λ listed. cc (
            stopped,
            run_actions-ok config plan.dry_run plan.actions
                (start mongo config sha256 workspace_id plan_id plan d) listed,
          ))
          (refl, refl) (status-Closes plan.id executing d.plans)
          (used-Uses matched.id now d.approvals)
          (carried
            ∙ carry_out-err mongo config sha256 workspace_id plan_id actor_id correlation_id input
                plan matched execution_id now d stopped)

  authorize_ends :
      (r : Result (RemediationPlan × ApprovalToken))
      → existing ≡ none
      → authorize mongo config sha256 workspace_id plan_id input now d ≡ r
      → Ending result
  authorize_ends (ok (plan, matched)) new passed = run_ends plan matched new passed _ refl
  authorize_ends (err e) new denied = refusal_ends e new denied

  -- Every call of `execute` is one of four: the replay of an execution that the key already has in
  -- the workspace, or a refusal by a check, both of which write nothing; a stop at an action outside
  -- the allowlist, after the plan was marked as executing and the token used; or an execution under
  -- an approved plan and a fresh token, which is recorded, answers each action, closes the plan,
  -- uses up the token, changes only resources of the workspace that the plan names (none in a dry
  -- run), and is audited.
  pub execute-Ending : Ending result
  execute-Ending = elim (Option-cases existing) [
    | inl new ↦ authorize_ends _ new refl
    | inr (x, e) ↦ replay_ends x e
  ]
