-- ===== src/Remediation/Execute/Elsewhere.antt =====
-- `execute` of remediation-service.ts changes nothing of another workspace, also where it throws in
-- the middle.
use cloudops_sentinel.Base.{
  ℕ, String, ◌≡◌, refl, sym, ap, ◌∙◌, inl, inr, none, List, Memᴰ, ◌==◌, eq_iff, Bool-cases,
  Option-cases, All₂,
}
use cloudops_sentinel.Base.{All₂-mono_mem}
use cloudops_sentinel.Errors.{Result, ok, err}
use cloudops_sentinel.Store.{find_one}
use cloudops_sentinel.Store.Elsewhere.{others, others-insert, others-all, StaysAway, AreOwned}
use cloudops_sentinel.Types.{PlanStatus, executing}
use cloudops_sentinel.Types.Resource.{CloudResource}
use cloudops_sentinel.Types.Plan.{AuditEvent, RemediationPlan, ApprovalToken, RemediationExecution}
use cloudops_sentinel.Db.{Db, Mongo, ApiConfig, record_audit}
use cloudops_sentinel.Db.Elsewhere.{HasOwners, Spares, Spares-refl, Spares-of}
use cloudops_sentinel.Remediation.Service.{ExecuteInput, has_execution_key}
use cloudops_sentinel.Remediation.Actions.Stored.{Stays, run_actions-Stays}
use cloudops_sentinel.Remediation.Execute.{Progress, authorize, finish, carry_out, execute}
use cloudops_sentinel.Remediation.Execute.Checks.{IsAuthorized, authorize-IsAuthorized}
use cloudops_sentinel.Remediation.Execute.Outcome.{
  Closes, Uses, IsNamed, status-Closes, marked-Closes, used-Uses, docs-IsNamed, ran, marked,
  finished, the_execution, carry_out-ok, carry_out-err,
}

module _ (w : String) where
  others-Closes :
      (plan : RemediationPlan) (status : PlanStatus) (ps ps' : List RemediationPlan)
      → AreOwned (λ (p : RemediationPlan). p.id) (λ (p : RemediationPlan). p.workspace_id) ps
      → Memᴰ plan ps
      → plan.workspace_id ≡ w
      → All₂ (Closes plan.id status) ps ps'
      → others (λ (p : RemediationPlan). p.workspace_id) w ps'
        ≡ others (λ (p : RemediationPlan). p.workspace_id) w ps
  others-Closes plan status ps ps' owned m own closes =
      others-all (λ (p : RemediationPlan). p.workspace_id) w ps ps'
        (All₂-mono_mem (Closes plan.id status)
          (StaysAway (λ (p : RemediationPlan). p.workspace_id) w) ps ps'
          (λ p p' m' (hit, miss). elim (Bool-cases (p.id == plan.id)) [
            | inr other ↦ inl (miss λ e. cc (other, (eq_iff p.id plan.id).1 e))
            | inl same ↦
                let e = (eq_iff p.id plan.id).0 same in
                let mine : p.workspace_id ≡ w = owned p plan m' m e ∙ own in
                inr (mine, ap (λ (q : RemediationPlan). q.workspace_id) (hit e) ∙ mine)
          ])
          closes)

  others-Uses :
      (a : ApprovalToken) (now : ℕ) (ts ts' : List ApprovalToken)
      → AreOwned (λ (t : ApprovalToken). t.id) (λ (t : ApprovalToken). t.workspace_id) ts
      → Memᴰ a ts
      → a.workspace_id ≡ w
      → All₂ (Uses a.id now) ts ts'
      → others (λ (t : ApprovalToken). t.workspace_id) w ts'
        ≡ others (λ (t : ApprovalToken). t.workspace_id) w ts
  others-Uses a now ts ts' owned m own uses =
      others-all (λ (t : ApprovalToken). t.workspace_id) w ts ts'
        (All₂-mono_mem (Uses a.id now) (StaysAway (λ (t : ApprovalToken). t.workspace_id) w) ts ts'
          (λ t t' m' (hit, miss). elim (Bool-cases (t.id == a.id)) [
            | inr other ↦ inl (miss λ e. cc (other, (eq_iff t.id a.id).1 e))
            | inl same ↦
                let e = (eq_iff t.id a.id).0 same in
                let mine : t.workspace_id ≡ w = owned t a m' m e ∙ own in
                inr (mine, ap (λ (q : ApprovalToken). q.workspace_id) (hit e) ∙ mine)
          ])
          uses)

  others-Stays :
      (plan : RemediationPlan) (rs rs' : List CloudResource)
      → AreOwned (λ (r : CloudResource). r.id) (λ (r : CloudResource). r.workspace_id) rs
      → All₂ (Stays (IsNamed w plan rs)) rs rs'
      → others (λ (r : CloudResource). r.workspace_id) w rs'
        ≡ others (λ (r : CloudResource). r.workspace_id) w rs
  others-Stays plan rs rs' owned stays =
      others-all (λ (r : CloudResource). r.workspace_id) w rs rs'
        (All₂-mono_mem (Stays (IsNamed w plan rs))
          (StaysAway (λ (r : CloudResource). r.workspace_id) w) rs rs'
          (λ r r' m (same, keeps). elim same [
            | inl e ↦ inl e
            | inr (x, m', e, own, named) ↦
                let mine : r.workspace_id ≡ w = owned r x m m' (sym e) ∙ own in
                inr (mine, ap (λ (q : CloudResource). q.workspace_id) keeps ∙ mine)
          ])
          stays)

module _ (mongo : Mongo) (config : ApiConfig) (sha256 : String → String)
    (w plan_id actor_id correlation_id : String) (input : ExecuteInput) (execution_id : String)
    (now : ℕ) (d : Db) (owners : HasOwners d) where
  module _ (plan : RemediationPlan) (matched : ApprovalToken)
      (is : IsAuthorized config sha256 w plan_id input now d plan matched) where
    abbrev the_run : Progress × Result (Unit {0})
    the_run =
        ran mongo config sha256 w plan_id actor_id correlation_id input plan matched execution_id
          now d

    stored_elsewhere :
        others (λ (r : CloudResource). r.workspace_id) w the_run.0.stored
        ≡ others (λ (r : CloudResource). r.workspace_id) w d.resources
    stored_elsewhere = others-Stays w plan d.resources _ owners.resources_owned (
        run_actions-Stays (IsNamed w plan d.resources) config plan.dry_run d.resources plan.actions
          _
          (docs-IsNamed mongo config sha256 w plan_id actor_id correlation_id input plan matched
            execution_id now d)
          refl)

    stopped-Spares :
        Spares w d
          (record (marked mongo config sha256 w plan_id actor_id correlation_id input plan matched
            execution_id now d) { resources = the_run.0.stored })
    stopped-Spares =
        Spares-of w d d.jobs the_run.0.stored _ _ d.executions d.audits refl stored_elsewhere
          (others-Closes w plan executing d.plans _ owners.plans_owned is.listed is.workspace
            (status-Closes plan.id executing d.plans))
          (others-Uses w matched now d.approvals _ owners.approvals_owned is.token_listed
            is.token_workspace (used-Uses matched.id now d.approvals))
          refl refl

    finished-Spares :
        Spares w d
          (finished mongo config sha256 w plan_id actor_id correlation_id input plan matched
            execution_id now d).0
    unfolding finish record_audit
    finished-Spares =
        Spares-of w d d.jobs the_run.0.stored _ _ _ _ refl stored_elsewhere
          (others-Closes w plan _ d.plans _ owners.plans_owned is.listed is.workspace
            (marked-Closes plan.id _ d.plans))
          (others-Uses w matched now d.approvals _ owners.approvals_owned is.token_listed
            is.token_workspace (used-Uses matched.id now d.approvals))
          (others-insert (λ (e : RemediationExecution). e.workspace_id) w
            (the_execution mongo config sha256 w plan_id actor_id correlation_id input plan matched
              execution_id now d)
            d.executions refl)
          (others-insert (λ (a : AuditEvent). a.workspace_id) w _ d.audits refl)

    carried-Spares :
        (r : Result (Unit {0}))
        → the_run.1 ≡ r
        → Spares w d
            (carry_out mongo config sha256 w plan_id actor_id correlation_id input plan matched
              execution_id now d).0
    carried-Spares (ok u) e =
        rw
          (carry_out-ok mongo config sha256 w plan_id actor_id correlation_id input plan matched
            execution_id now d e)
          finished-Spares
    carried-Spares (err x) e =
        rw
          (carry_out-err mongo config sha256 w plan_id actor_id correlation_id input plan matched
            execution_id now d e)
          stopped-Spares

  authorized-Spares :
      (r : Result (RemediationPlan × ApprovalToken))
      → find_one mongo.execution_docs (has_execution_key w input.idempotency_key) d.executions
        ≡ none
      → authorize mongo config sha256 w plan_id input now d ≡ r
      → Spares w d
          (execute mongo config sha256 w plan_id actor_id correlation_id input execution_id now d).0
  unfolding execute
  authorized-Spares (err e) new h = rw (execute, new, h) (Spares-refl w d)
  authorized-Spares (ok (plan, matched)) new h =
      rw (execute, new, h)
        (carried-Spares plan matched
          (authorize-IsAuthorized mongo config sha256 w plan_id input now d plan matched h) _ refl)

  pub execute-Spares :
      Spares w d
        (execute mongo config sha256 w plan_id actor_id correlation_id input execution_id now d).0
  unfolding execute
  execute-Spares =
      elim (Option-cases
        (find_one mongo.execution_docs (has_execution_key w input.idempotency_key) d.executions)) [
          | inr (x, e) ↦ rw (execute, e) (Spares-refl w d)
          | inl new ↦ authorized-Spares _ new refl
        ]
