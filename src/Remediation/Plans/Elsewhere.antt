-- ===== src/Remediation/Plans/Elsewhere.antt =====
-- `createPlan` of remediation-service.ts changes nothing of another workspace.
use cloudops_sentinel.Base.{
  ℕ, String, ◌≡◌, refl, inl, inr, true, List, [], ◌∷◌, ◌++◌, nat_eq, Bool-cases, Option-cases,
  length,
}
use cloudops_sentinel.Errors.{Result, ok, err}
use cloudops_sentinel.Store.{find_one}
use cloudops_sentinel.Store.Elsewhere.{others-insert}
use cloudops_sentinel.Types.Plan.{RemediationAction, RemediationPlan, Finding, Recommendation}
use cloudops_sentinel.Db.{Db, Mongo, record_audit}
use cloudops_sentinel.Db.Elsewhere.{Spares, Spares-refl, Spares-trans, Spares-of, logged-Spares}
use cloudops_sentinel.Remediation.Service.{has_plan_key}
use cloudops_sentinel.Remediation.Plans.{
  PlanInput, actions_for, find_findings, find_recommendations, plan_document, new_plan, fresh_plan,
  create_plan,
}

module _ (mongo : Mongo) (w actor_id correlation_id : String) (input : PlanInput) (plan_id : String)
    (now : ℕ) (d : Db) where
  new_plan-Spares :
      (actions : List RemediationAction)
      → Spares w d (new_plan mongo w actor_id correlation_id input actions plan_id now d).0
  unfolding new_plan record_audit
  new_plan-Spares actions =
      let plan = plan_document mongo w actor_id correlation_id input actions plan_id in
      Spares-trans w
        (Spares-of w d d.jobs d.resources _ d.approvals d.executions d.audits refl refl
          (others-insert (λ (p : RemediationPlan). p.workspace_id) w plan d.plans refl) refl refl
          refl)
        (logged-Spares w _ (record d { plans = d.plans ++ plan ∷ [] }) refl)

  abbrev wanted : List Finding
  wanted = find_findings mongo w input.finding_ids d

  abbrev advice : List Recommendation
  advice = find_recommendations mongo w wanted d

  actions-Spares :
      (r : Result (List RemediationAction))
      → nat_eq (length wanted) (length input.finding_ids) ≡ true
      → actions_for advice wanted ≡ r
      → Spares w d (fresh_plan mongo w actor_id correlation_id input plan_id now d).0
  unfolding fresh_plan
  actions-Spares (err e) all_found refused = rw (fresh_plan, all_found, refused) (Spares-refl w d)
  actions-Spares (ok actions) all_found built =
      rw (fresh_plan, all_found, built) (new_plan-Spares actions)

  pub create_plan-Spares :
      Spares w d (create_plan mongo w actor_id correlation_id input plan_id now d).0
  unfolding create_plan fresh_plan
  create_plan-Spares =
      elim (Option-cases
        (find_one mongo.plan_docs (has_plan_key w input.idempotency_key) d.plans)) [
          | inr (plan, e) ↦ rw (create_plan, e) (Spares-refl w d)
          | inl new ↦
              rw (create_plan, new)
                (elim (Bool-cases (nat_eq (length wanted) (length input.finding_ids))) [
                  | inl all_found ↦ actions-Spares _ all_found refl
                  | inr missing ↦ rw (fresh_plan, missing) (Spares-refl w d)
                ])
        ]
