-- ===== src/Remediation/History/Once.antt =====
-- Over any history of remediation-service.ts a plan is executed at most once.
use cloudops_sentinel.Base.{
  All₂-All, ℕ, ◌+◌, ◌≤◌, String, ◌≡◌, refl, sym, ap, subst, ◌∙◌, ◌⊎◌, inl, inr, Bool, true, false,
  List, [], ◌∷◌, ◌++◌, arith, ◌==◌, eq_iff, eq_refl, nat_eq, if◌then◌else◌, Bool-cases, count,
  count-append, All, All-append, All-mem, All-mono,
}
use cloudops_sentinel.Db.{Db, Mongo, ApiConfig}
use cloudops_sentinel.Errors.{Result}
use cloudops_sentinel.Types.{PlanStatus, awaiting_approval, approved, executing}
use cloudops_sentinel.Types.Plan.{
  ActionResult, RemediationPlan, ApprovalToken, RemediationExecution,
}
use cloudops_sentinel.Remediation.Service.{ExecuteInput, can_be_approved}
use cloudops_sentinel.Remediation.Plans.{PlanInput}
use cloudops_sentinel.Remediation.Plans.Made.{Planned, create_plan-Planned}
use cloudops_sentinel.Remediation.Plans.Made
use cloudops_sentinel.Remediation.Approvals.{Approval}
use cloudops_sentinel.Remediation.Approvals.Given.{written, Approved, approve-Approved}
use cloudops_sentinel.Remediation.Approvals.Given
use cloudops_sentinel.Remediation.Execute.{failures}
use cloudops_sentinel.Remediation.Execute.Checks.{IsAuthorized}
use cloudops_sentinel.Remediation.Execute.Outcome.{Executed, Closes}
use cloudops_sentinel.Remediation.Execute.Endings.{Ending, execute-Ending}
use cloudops_sentinel.Remediation.Execute.Endings
use cloudops_sentinel.Remediation.History.{
  Call, plans, approves, executes, executions_of, step, run, IsNewId, HasNewIds,
}

-- No plan has been executed twice, and none that can still be approved or executed has been at all.
abbrev pub IsUnspent : Db → RemediationPlan → Type 0
IsUnspent d p = can_be_approved p.status ≡ true → executions_of p.id d ≡ 0

abbrev pub IsOnce : Db → Type 0
IsOnce d = ((plan_id : String) → executions_of plan_id d ≤ 1) × All (IsUnspent d) d.plans

same_executions :
    (d d' : Db)
    → d'.executions ≡ d.executions
    → (id : String) → executions_of id d' ≡ executions_of id d
same_executions d d' e id = ap (count (λ x. x.plan_id == id)) e

module _ (mongo : Mongo) (config : ApiConfig) (sha256 : String → String) (d : Db)
    (once : IsOnce d) where
  keep-IsOnce : (d' : Db) → d'.executions ≡ d.executions → All (IsUnspent d) d'.plans → IsOnce d'
  keep-IsOnce d' e all = (
    (λ id. subst (λ n. n ≤ 1) (sym (same_executions d d' e id)) (once.0 id)),
    All-mono (IsUnspent d) (IsUnspent d') d'.plans (λ p h can. same_executions d d' e p.id ∙ h can)
        all,
  )

  -- Closing a plan with a status keeps the others as they are.
  closed_keeps :
      (status : PlanStatus) (plan : RemediationPlan)
      → (can_be_approved status ≡ true → executions_of plan.id d ≡ 0)
      → (p p' : RemediationPlan) → Closes plan.id status p p'
      → IsUnspent d p
      → IsUnspent d p'
  closed_keeps status plan may p p' (hit, miss) h can = elim (Bool-cases (p.id == plan.id)) [
    | inl e ↦
        let same = (eq_iff p.id plan.id).0 e in
        let now_is = hit same in
        subst (IsUnspent d) (sym now_is)
          (λ c. subst (λ i. executions_of i d ≡ 0) (sym same) (may c)) can
    | inr n ↦ subst (IsUnspent d) (sym (miss (λ e. cc (n, (eq_iff p.id plan.id).1 e)))) h can
  ]

  plans-IsOnce :
      (r : Db × Result (RemediationPlan × Bool)) (w a c : String) (input : PlanInput) (id : String)
      (now : ℕ)
      → executions_of id d ≡ 0
      → Planned mongo w a c input id now d r
      → IsOnce r.0
  plans-IsOnce r w a c input id now new (Made.replay p m ws key e) = rw e once
  plans-IsOnce r w a c input id now new (Made.refusal er e) = rw e once
  plans-IsOnce r w a c input id now new
        (Made.made d' p fs grown (ex, ap', rs) (st, same, _, _, _) asked len from audit e) =
      rw e (
        keep-IsOnce d' ex
          (rw grown (All-append (IsUnspent d) d.plans (p ∷ []) once.1 ((λ can. rw same new), tt))))

  can_of : (s : PlanStatus) → (s ≡ awaiting_approval) ⊎ (s ≡ approved) → can_be_approved s ≡ true
  can_of s (inl e) = rw e refl
  can_of s (inr e) = rw e refl

  approves-IsOnce :
      (w p a c id token : String) (now : ℕ) {r : Db × Result Approval}
      → Approved mongo config sha256 w p a c id token now d r
      → IsOnce r.0
  approves-IsOnce w p a c id token now (Given.refusal er e) = rw e once
  approves-IsOnce w p a c id token now
        (Given.given plan after ans m ids open_status closes shown tok named expiry e) =
      rw e (
        keep-IsOnce (written mongo config sha256 w p a c id token now d after) refl (
          All₂-All (Closes plan.id approved) (IsUnspent d) (IsUnspent d)
            (closed_keeps approved plan
              (λ _. All-mem (IsUnspent d) d.plans once.1 m (can_of plan.status open_status)))
            d.plans after closes once.1))

  recorded_count :
      (d' : Db) (x : RemediationExecution) (id : String) (n : ℕ)
      → d'.executions ≡ d.executions ++ x ∷ []
      → count (λ y. y.plan_id == id) (x ∷ []) ≡ n
      → executions_of id d' ≡ executions_of id d + n
  recorded_count d' x id n e h =
      ap (count (λ y. y.plan_id == id)) e
      ∙ count-append (λ y. y.plan_id == id) d.executions (x ∷ [])
      ∙ ap (λ k. executions_of id d + k) h

  is_shut :
      (results : List ActionResult)
      → can_be_approved
          (if nat_eq (failures results) 0 then PlanStatus.completed else PlanStatus.failed)
        ≡ false
  is_shut results = ground arith

  module _ (w a : String) (config' : ApiConfig) (input : ExecuteInput) (now : ℕ)
      (plan : RemediationPlan) (matched : ApprovalToken) (d' : Db) (x : RemediationExecution)
      (zero_before : executions_of plan.id d ≡ 0)
      (ex : Executed config' w a input now plan matched d d' x) where
    counted : (id : String) → (x.plan_id == id) ≡ true → executions_of id d' ≡ 1
    counted id e =
        let same : plan.id ≡ id = sym ex.of_plan_id ∙ (eq_iff x.plan_id id).0 e in
        recorded_count d' x id 1 ex.recorded (rw e refl)
        ∙ ap (λ n. n + 1) (subst (λ i. executions_of i d ≡ 0) same zero_before)

    uncounted : (id : String) → (x.plan_id == id) ≡ false → executions_of id d' ≡ executions_of id d
    uncounted id n = recorded_count d' x id 0 ex.recorded (rw n refl) ∙ omega arith

    at_most : (id : String) → executions_of id d' ≤ 1
    at_most id = elim (Bool-cases (x.plan_id == id)) [
      | inl e ↦ subst (λ n. n ≤ 1) (sym (counted id e)) (omega arith)
      | inr n ↦ subst (λ n. n ≤ 1) (sym (uncounted id n)) (once.0 id)
    ]

    shut :
        (p p' : RemediationPlan)
        → Closes plan.id
            (if nat_eq (failures x.results) 0 then PlanStatus.completed else PlanStatus.failed)
            p
            p'
        → IsUnspent d p
        → IsUnspent d' p'
    shut p p' (hit, miss) h = elim (Bool-cases (p.id == plan.id)) [
      | inl e ↦
          subst (IsUnspent d') (sym (hit ((eq_iff p.id plan.id).0 e)))
            (λ can. absurd (cc (can, is_shut x.results)))
      | inr n ↦
          let other : (x.plan_id == p.id) ≡ false =
            ground
              (arith, eq_iff x.plan_id p.id, eq_iff p.id plan.id, eq_refl p.id, ex.of_plan_id) in
          subst (IsUnspent d') (sym (miss (λ e. cc (n, (eq_iff p.id plan.id).1 e))))
            (λ can. uncounted p.id other ∙ h can)
    ]

    executed-IsOnce : IsOnce d'
    executed-IsOnce =
        (at_most, All₂-All _ (IsUnspent d) (IsUnspent d') shut d.plans d'.plans ex.closed once.1)

  not_open_executing : can_be_approved executing ≡ true → ⊥
  not_open_executing h = cc h

  authorized_unspent :
      (w p : String) (input : ExecuteInput) (now : ℕ) (plan : RemediationPlan)
      (matched : ApprovalToken)
      → IsAuthorized config sha256 w p input now d plan matched
      → executions_of plan.id d ≡ 0
  authorized_unspent w p input now plan matched may =
      All-mem (IsUnspent d) d.plans once.1 may.listed (rw may.status refl)

  executes-IsOnce :
      (w p a c : String) (input : ExecuteInput) (id : String) (now : ℕ)
      {r : Db × Result (RemediationExecution × Bool)}
      → Ending mongo config sha256 w p a c input id now d r
      → IsOnce r.0
  executes-IsOnce w p a c input id now (Endings.replay x m ws key e) = rw e once
  executes-IsOnce w p a c input id now (Endings.refusal er denied e) = rw e once
  executes-IsOnce w p a c input id now
        (Endings.stop plan matched d' er may unlisted (ex, au) closes uses e) =
      rw e (
        keep-IsOnce d' ex (
          All₂-All (Closes plan.id executing) (IsUnspent d) (IsUnspent d)
            (closed_keeps executing plan (λ can. absurd (not_open_executing can))) d.plans d'.plans
            closes once.1))
  executes-IsOnce w p a c input id now (Endings.execution plan matched d' x may ex e) = rw e (
      executed-IsOnce w a config input now plan matched d' x
        (authorized_unspent w p input now plan matched may) ex)

module _ (mongo : Mongo) (config : ApiConfig) (sha256 : String → String) where
  step-IsOnce :
      (call : Call) (d : Db)
      → IsNewId mongo config sha256 call d
      → IsOnce d
      → IsOnce (step mongo config sha256 call d)
  unfolding step
  step-IsOnce (plans w a c input id now) d new once =
      plans-IsOnce mongo config sha256 d once _ w a c input id now new
        (create_plan-Planned mongo w a c input id now d)
  step-IsOnce (approves w p a c id token now) d new once =
      approves-IsOnce mongo config sha256 d once w p a c id token now
        (approve-Approved mongo config sha256 w p a c id token now d)
  step-IsOnce (executes w p a c input id now) d new once =
      executes-IsOnce mongo config sha256 d once w p a c input id now
        (execute-Ending mongo config sha256 w p a c input id now d)

  -- Over any sequence of calls that plan, approve and execute, each of which ends before the next
  -- begins, in any order and with any keys and tokens, no plan is executed twice, and a plan that was
  -- executed can be neither approved nor executed again, when this held at the start and the
  -- database gives a new plan an id that no execution names.
  pub run-IsOnce :
      (calls : List Call) (d : Db)
      → HasNewIds mongo config sha256 calls d
      → IsOnce d
      → IsOnce (run mongo config sha256 calls d)
  unfolding run
  run-IsOnce [] d new once = once
  run-IsOnce (call ∷ calls) d new once =
      run-IsOnce calls (step mongo config sha256 call d) new.1 (step-IsOnce call d new.0 once)
