-- ===== src/Remediation/Approvals/Given.antt =====
-- What `approve` does: a refusal, or a new token and an approved plan.
use cloudops_sentinel.Text.{template}
use cloudops_sentinel.Base.{
  ℕ, ◌+◌, String, ◌≡◌, refl, ◌⊎◌, inl, inr, true, none, some, List, [], ◌∷◌, ◌++◌, Memᴰ, arith,
  Bool-cases, Option-cases, All₂,
}
use cloudops_sentinel.Db.{Db, Mongo, ApiConfig, record_audit}
use cloudops_sentinel.Errors.{conflict_error, not_found_error, AppError, Result, ok, err}
use cloudops_sentinel.Auth.{hash_token}
use cloudops_sentinel.Store.{find_one}
use cloudops_sentinel.Store.Laws.{find_one_sound}
use cloudops_sentinel.Types.{PlanStatus, awaiting_approval, approved}
use cloudops_sentinel.Types.Plan.{RemediationPlan, ApprovalToken, AuditEvent, text}
use cloudops_sentinel.Remediation.Service.{has_plan_id, can_be_approved, save_plan_status}
use cloudops_sentinel.Remediation.Execute.Checks.{plan_id_parts}
use cloudops_sentinel.Remediation.Execute.Outcome.{Closes, status-Closes}
use cloudops_sentinel.Remediation.Approvals.{plan_status_text, Approval, approve, issue, answer}

module _ (mongo : Mongo) (config : ApiConfig) (sha256 : String → String)
    (workspace_id plan_id actor_id correlation_id token_id token : String) (now : ℕ) (d : Db) where
  -- The token as it is stored, with the hash in place of its text.
  abbrev stored : ApprovalToken
  stored = record {
    id = token_id;
    workspace_id = workspace_id;
    plan_id = plan_id;
    token_hash = sha256 token;
    expires_at = now + config.approval_ttl_ms;
    used_at = none;
    created_by = actor_id;
  }

  abbrev event : AuditEvent
  event = record {
    workspace_id = workspace_id;
    actor_id = actor_id;
    action = "remediation.approve";
    resource_type = "RemediationPlan";
    resource_id = some plan_id;
    correlation_id = correlation_id;
    metadata = ("approvalTokenId", text token_id) ∷ [];
    created_at = now;
  }

  -- All that is written.
  abbrev pub written : (plans : List RemediationPlan) → Db
  written plans = record d {
    plans = plans;
    approvals = d.approvals ++ stored ∷ [];
    audits = d.audits ++ event ∷ [];
  }

  pub data Approved (r : Db × Result Approval) : Type 0 where
    refusal : (e : AppError) → r ≡ (d, err e) → Approved r
    given :
        (plan : RemediationPlan) (after : List RemediationPlan) (answered : Approval)
        → Memᴰ plan d.plans
        → (plan.id ≡ plan_id) × (plan.workspace_id ≡ workspace_id)
        → (plan.status ≡ awaiting_approval) ⊎ (plan.status ≡ approved)
        → All₂ (Closes plan.id approved) d.plans after
        → answered.plan ≡ record plan { status = approved }
        → answered.approval_token ≡ token
        → answered.approval_token_id ≡ token_id
        → answered.expires_at ≡ now + config.approval_ttl_ms
        → r ≡ (written after, ok answered)
        → Approved r

  abbrev answered : Db × Result Approval
  answered =
      approve mongo config sha256 workspace_id plan_id actor_id correlation_id token_id token now d

  open_of : (s : PlanStatus) → can_be_approved s ≡ true → (s ≡ awaiting_approval) ⊎ (s ≡ approved)
  open_of s h = ground arith

  found_ends :
      (plan : RemediationPlan)
      → find_one mongo.plan_docs (has_plan_id workspace_id plan_id) d.plans ≡ some plan
      → Approved answered
  unfolding approve issue record_audit hash_token
  found_ends plan e = elim (Bool-cases (can_be_approved plan.status)) [
    | inl may ↦
        let (m, hit) =
          find_one_sound mongo.plan_docs (has_plan_id workspace_id plan_id) d.plans e in
        given plan (save_plan_status plan.id approved d).plans
          (answer config plan token_id token now) m (plan_id_parts workspace_id plan_id plan hit)
          (open_of plan.status may) (status-Closes plan.id approved d.plans) refl refl refl refl
          (rw (approve, e, may) refl)
    | inr closed ↦
        refusal
          (conflict_error
            (template ("Plan cannot be approved from status " ∷ plan_status_text plan.status ∷ []))
            none)
          (rw (approve, e, closed) refl)
  ]

  -- Every call of `approve` is a refusal that writes nothing, or it gives a token: then the plan is
  -- one of the workspace that waits for an approval or has one, it is approved afterwards, and all
  -- that is written besides is one token and one audit event. The token is stored for that plan with
  -- the hash of its text, its expiry, the user who gave it, and unused; the event names the user, the
  -- plan and the id of the token. So the text of the token is in the answer only.
  pub approve-Approved : Approved answered
  unfolding approve
  approve-Approved =
      elim (Option-cases (find_one mongo.plan_docs (has_plan_id workspace_id plan_id) d.plans)) [
        | inl none_found ↦
            refusal (not_found_error "Remediation plan not found") (rw (approve, none_found) refl)
        | inr (plan, e) ↦ found_ends plan e
      ]
