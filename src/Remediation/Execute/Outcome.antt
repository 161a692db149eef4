-- ===== src/Remediation/Execute/Outcome.antt =====
-- What a call of `execute` comes to: a replay, a refusal, a stop in the middle, or an execution.
use cloudops_sentinel.Base.{
  ℕ, String, ◌≡◌, refl, sym, subst, ◌≢◌, inl, inr, Bool, true, false, some, List, [], ◌∷◌, ◌++◌,
  Memᴰ, arith, ◌==◌, eq_iff, nat_eq, if◌then◌else◌, Bool-cases, All, All-of_mem, All₂,
}
use cloudops_sentinel.Db.{Db, Mongo, ApiConfig, record_audit}
use cloudops_sentinel.Errors.{AppError, Result, ok, err}
use cloudops_sentinel.Text.{includes}
use cloudops_sentinel.Types.Resource.{CloudResource}
use cloudops_sentinel.Types.Plan.{
  ActionResult, RemediationPlan, ApprovalToken, RemediationExecution, AuditEvent,
}
use cloudops_sentinel.Remediation.Execute.{
  new_execution, carry_out, finish, start, execution_status, final_plan_status, resource_ids,
  failures,
}
use cloudops_sentinel.Store.{update_many}
use cloudops_sentinel.Types.{PlanStatus, executing}
use cloudops_sentinel.Remediation.Service.{ExecuteInput, save_plan_status, save_used}
use cloudops_sentinel.Remediation.Execute.Checks.{and_both}
use cloudops_sentinel.Remediation.Actions.Loop.{AllAnswered, run_actions-AllAnswered}
use cloudops_sentinel.Remediation.Actions.Stored.{Stays, run_actions-Stays, run_actions-unsaved}
use cloudops_sentinel.Remediation.Actions.{Progress, run_actions, saves}

-- The plan of an id is closed with a status, and no other plan is touched.
abbrev pub Closes : String → PlanStatus → RemediationPlan → RemediationPlan → Type 0
Closes id status p p' = (p.id ≡ id → p' ≡ record p { status = status }) × (p.id ≢ id → p' ≡ p)

-- The token of an id is used at a time, and no other token is touched.
abbrev pub Uses : String → ℕ → ApprovalToken → ApprovalToken → Type 0
Uses id now a a' = (a.id ≡ id → a' ≡ record a { used_at = some now }) × (a.id ≢ id → a' ≡ a)

-- An id that a plan names and a resource of the workspace has.
abbrev pub IsNamed : String → RemediationPlan → List CloudResource → String → Type 0
IsNamed workspace_id plan resources id =
    (x : CloudResource) × Memᴰ x resources
    × (x.id ≡ id)
    × (x.workspace_id ≡ workspace_id)
    × (includes id (resource_ids plan) ≡ true)

-- What has changed when an execution is returned.
pub record Executed (config : ApiConfig) (workspace_id actor_id : String) (input : ExecuteInput)
    (now : ℕ) (plan : RemediationPlan) (matched : ApprovalToken) (d d' : Db)
    (execution : RemediationExecution) : Type 0 where
  pub recorded : d'.executions ≡ d.executions ++ execution ∷ []
  pub workspace : execution.workspace_id ≡ workspace_id
  pub of_plan_id : execution.plan_id ≡ plan.id
  pub by_token : execution.approval_token_id ≡ matched.id
  pub under_key : execution.idempotency_key ≡ input.idempotency_key
  pub answered : AllAnswered plan.actions execution.results
  pub closed :
      All₂
        (Closes plan.id (
          if nat_eq (failures execution.results) 0
          then PlanStatus.completed
          else PlanStatus.failed))
        d.plans
        d'.plans
  pub token_used : All₂ (Uses matched.id now) d.approvals d'.approvals
  pub resources : All₂ (Stays (IsNamed workspace_id plan d.resources)) d.resources d'.resources
  pub dry : plan.dry_run ≡ true → d'.resources ≡ d.resources
  pub audited :
      (e : AuditEvent) × (d'.audits ≡ d.audits ++ e ∷ [])
      × (e.actor_id ≡ actor_id)
      × (e.workspace_id ≡ workspace_id)
      × (e.resource_id ≡ some execution.id)
  pub rest :
      (d'.jobs ≡ d.jobs) × (d'.findings ≡ d.findings) × (d'.recommendations ≡ d.recommendations)

module _ (id : String) where
  is_id : (s : String) → (s == id) ≡ true → s ≡ id
  is_id s h = (eq_iff s id).0 h

  is_not_id : (s : String) → (s == id) ≡ false → s ≢ id
  is_not_id s h e = cc (h, (eq_iff s id).1 e)

  pub marked-Closes :
      (status : PlanStatus) (ps : List RemediationPlan)
      → All₂
          (Closes id status)
          ps
          (update_many
            (λ p. p.id == id)
            (λ p. record p { status = status })
            (update_many (λ p. p.id == id) (λ p. record p { status = executing }) ps).0).0
  unfolding update_many
  marked-Closes status [] = tt
  marked-Closes status (p ∷ ps) = elim (Bool-cases (p.id == id)) [
    | inl hit ↦
        rw (hit, hit) ((λ e. refl, λ n. absurd (n (is_id p.id hit))), marked-Closes status ps)
    | inr miss ↦
        rw (miss, miss) ((λ e. absurd (is_not_id p.id miss e), λ n. refl), marked-Closes status ps)
  ]

  pub status-Closes :
      (status : PlanStatus) (ps : List RemediationPlan)
      → All₂
          (Closes id status)
          ps
          (update_many (λ p. p.id == id) (λ p. record p { status = status }) ps).0
  unfolding update_many
  status-Closes status [] = tt
  status-Closes status (p ∷ ps) = elim (Bool-cases (p.id == id)) [
    | inl hit ↦ rw hit ((λ e. refl, λ n. absurd (n (is_id p.id hit))), status-Closes status ps)
    | inr miss ↦ rw miss ((λ e. absurd (is_not_id p.id miss e), λ n. refl), status-Closes status ps)
  ]

  pub used-Uses :
      (now : ℕ) (tokens : List ApprovalToken)
      → All₂
          (Uses id now)
          tokens
          (update_many (λ a. a.id == id) (λ a. record a { used_at = some now }) tokens).0
  unfolding update_many
  used-Uses now [] = tt
  used-Uses now (a ∷ tokens) = elim (Bool-cases (a.id == id)) [
    | inl hit ↦ rw hit ((λ e. refl, λ n. absurd (n (is_id a.id hit))), used-Uses now tokens)
    | inr miss ↦ rw miss ((λ e. absurd (is_not_id a.id miss e), λ n. refl), used-Uses now tokens)
  ]

final_status :
    (results : List ActionResult)
    → final_plan_status (execution_status results)
      ≡ (if nat_eq (failures results) 0 then PlanStatus.completed else PlanStatus.failed)
unfolding execution_status
final_status results = ground arith

saves-dry : (config : ApiConfig) → saves config true ≡ false
unfolding saves
saves-dry config = ground arith

module _ (mongo : Mongo) (config : ApiConfig) (sha256 : String → String)
    (workspace_id plan_id actor_id correlation_id : String) (input : ExecuteInput)
    (plan : RemediationPlan) (matched : ApprovalToken) (execution_id : String) (now : ℕ)
    (d : Db) where
  -- The loop as `carry_out` runs it.
  abbrev pub ran : Progress × Result (Unit {0})
  ran =
      run_actions config plan.dry_run plan.actions
        (start mongo config sha256 workspace_id plan_id plan d)

  abbrev pub marked : Db
  marked = save_used matched.id now (save_plan_status plan.id executing d)

  pub docs-IsNamed :
      All
        (λ x. IsNamed workspace_id plan d.resources x.id)
        (start mongo config sha256 workspace_id plan_id plan d).docs
  docs-IsNamed = All-of_mem _ _ λ x m.
      let (listed, hit) = mongo.resource_docs.find_sound _ d.resources x m in
      let (ws, named) =
        and_both (x.workspace_id == workspace_id) (includes x.id (resource_ids plan)) hit in
      (x, listed, refl, (eq_iff x.workspace_id workspace_id).0 ws, named)

  abbrev pub finished : Db × Result (RemediationExecution × Bool)
  finished =
      finish mongo config sha256 workspace_id plan_id actor_id correlation_id input plan matched
        execution_id now ran.0 (record marked { resources = ran.0.stored })

  abbrev pub the_execution : RemediationExecution
  the_execution =
      new_execution mongo config sha256 workspace_id plan_id actor_id correlation_id input plan
        matched execution_id now ran.0

  pub carry_out-ok :
      ran.1 ≡ ok tt
      → carry_out mongo config sha256 workspace_id plan_id actor_id correlation_id input plan
          matched execution_id now d
        ≡ finished
  unfolding carry_out
  carry_out-ok done = rw (carry_out, done) refl

  pub finished-Executed :
      plan.id ≡ plan_id
      → ran.1 ≡ ok tt
      → Executed config workspace_id actor_id input now plan matched d finished.0 the_execution
  unfolding finish record_audit
  finished-Executed same done =
      let (rs, grown, all) = run_actions-AllAnswered config plan.dry_run plan.actions _ done in
      record {
        recorded = refl;
        workspace = refl;
        of_plan_id = sym same;
        by_token = refl;
        under_key = refl;
        answered = subst (AllAnswered plan.actions) (sym grown) all;
        closed =
            subst (λ st. All₂ (Closes plan.id st) d.plans finished.0.plans)
              (final_status ran.0.results) (marked-Closes plan.id _ d.plans);
        token_used = used-Uses matched.id now d.approvals;
        resources =
            run_actions-Stays (IsNamed workspace_id plan d.resources) config plan.dry_run
              d.resources plan.actions _ docs-IsNamed refl;
        dry = λ h. run_actions-unsaved config plan.dry_run plan.actions _ (rw h (saves-dry config));
        audited = (_, refl, refl, refl, refl);
        rest = (refl, refl, refl);
      }

  pub carry_out-err :
      {e : AppError}
      → ran.1 ≡ err e
      → carry_out mongo config sha256 workspace_id plan_id actor_id correlation_id input plan
          matched execution_id now d
        ≡ (record marked { resources = ran.0.stored }, err e)
  unfolding carry_out
  carry_out-err stopped = rw (carry_out, stopped) refl
