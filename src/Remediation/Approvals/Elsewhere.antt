-- ===== src/Remediation/Approvals/Elsewhere.antt =====
-- `approve` of remediation-service.ts changes nothing of another workspace.
use cloudops_sentinel.Base.{
  ℕ, String, ◌≡◌, refl, inl, inr, [], ◌∷◌, ◌++◌, Memᴰ, Bool-cases, Option-cases,
}
use cloudops_sentinel.Store.{find_one}
use cloudops_sentinel.Store.Laws.{find_one_sound}
use cloudops_sentinel.Store.Elsewhere.{others-insert, others-update}
use cloudops_sentinel.Types.{approved}
use cloudops_sentinel.Types.Plan.{RemediationPlan, ApprovalToken}
use cloudops_sentinel.Db.{Db, Mongo, ApiConfig, record_audit}
use cloudops_sentinel.Db.Elsewhere.{
  HasOwners, Spares, Spares-refl, Spares-trans, Spares-of, logged-Spares,
}
use cloudops_sentinel.Remediation.Service.{has_plan_id, can_be_approved, save_plan_status}
use cloudops_sentinel.Remediation.Execute.Checks.{plan_id_parts}
use cloudops_sentinel.Remediation.Approvals.{token_document, issue, approve}

module _ (mongo : Mongo) (config : ApiConfig) (sha256 : String → String)
    (w plan_id actor_id correlation_id token_id token : String) (now : ℕ) (d : Db)
    (owners : HasOwners d) where
  issue-Spares :
      (plan : RemediationPlan)
      → Memᴰ plan d.plans
      → plan.workspace_id ≡ w
      → Spares w d
          (issue mongo config sha256 w plan_id actor_id correlation_id plan token_id token now d).0
  unfolding issue record_audit
  issue-Spares plan m own =
      let a = token_document config sha256 w plan_id actor_id token_id token now in
      Spares-trans w
        (Spares-of w d d.jobs d.resources _ _ d.executions d.audits refl refl
          (others-update (λ (p : RemediationPlan). p.workspace_id) w (λ (p : RemediationPlan). p.id)
            plan (λ p. record p { status = approved }) d.plans (λ p. refl) owners.plans_owned m own)
          (others-insert (λ (t : ApprovalToken). t.workspace_id) w a d.approvals refl) refl refl)
        (logged-Spares w _
          (save_plan_status plan.id approved (record d { approvals = d.approvals ++ a ∷ [] })) refl)

  pub approve-Spares :
      Spares w d
        (approve mongo config sha256 w plan_id actor_id correlation_id token_id token now d).0
  unfolding approve
  approve-Spares = elim (Option-cases (find_one mongo.plan_docs (has_plan_id w plan_id) d.plans)) [
    | inl missing ↦ rw (approve, missing) (Spares-refl w d)
    | inr (plan, e) ↦
        let (m, hit) = find_one_sound mongo.plan_docs (has_plan_id w plan_id) d.plans e in
        rw (approve, e)
          (elim (Bool-cases (can_be_approved plan.status)) [
            | inl may ↦ rw may (issue-Spares plan m (plan_id_parts w plan_id plan hit).1)
            | inr may_not ↦ rw may_not (Spares-refl w d)
          ])
  ]
