-- ===== src/Db/Elsewhere.antt =====
-- What a call leaves of the documents of other workspaces than its own.
use cloudops_sentinel.Base.{String, ◌≡◌, refl, ◌∙◌, List, [], ◌∷◌, ◌++◌}
use cloudops_sentinel.Store.Elsewhere.{others, others-insert, AreOwned}
use cloudops_sentinel.Types.Resource.{CloudResource}
use cloudops_sentinel.Types.Job.{DiagnosticJob}
use cloudops_sentinel.Types.Plan.{RemediationPlan, ApprovalToken, RemediationExecution, AuditEvent}
use cloudops_sentinel.Db.{Db}

-- The database gives each document of a collection an id of its own: documents of one id are of one
-- workspace.
pub record HasOwners (d : Db) : Type 0 where
  pub jobs_owned :
      AreOwned (λ (j : DiagnosticJob). j.id) (λ (j : DiagnosticJob). j.workspace_id) d.jobs
  pub resources_owned :
      AreOwned (λ (r : CloudResource). r.id) (λ (r : CloudResource). r.workspace_id) d.resources
  pub plans_owned :
      AreOwned (λ (p : RemediationPlan). p.id) (λ (p : RemediationPlan). p.workspace_id) d.plans
  pub approvals_owned :
      AreOwned (λ (a : ApprovalToken). a.id) (λ (a : ApprovalToken). a.workspace_id) d.approvals

module _ (w : String) where
  abbrev pub other_jobs : Db → List DiagnosticJob
  other_jobs d = others (λ (j : DiagnosticJob). j.workspace_id) w d.jobs

  abbrev pub other_resources : Db → List CloudResource
  other_resources d = others (λ (r : CloudResource). r.workspace_id) w d.resources

  abbrev pub other_plans : Db → List RemediationPlan
  other_plans d = others (λ (p : RemediationPlan). p.workspace_id) w d.plans

  abbrev pub other_approvals : Db → List ApprovalToken
  other_approvals d = others (λ (a : ApprovalToken). a.workspace_id) w d.approvals

  abbrev pub other_executions : Db → List RemediationExecution
  other_executions d = others (λ (e : RemediationExecution). e.workspace_id) w d.executions

  abbrev pub other_audits : Db → List AuditEvent
  other_audits d = others (λ (a : AuditEvent). a.workspace_id) w d.audits

  -- From one database to another, nothing changes but documents of the workspace.
  pub record Spares (d d' : Db) : Type 0 where
    pub same_jobs : other_jobs d' ≡ other_jobs d
    pub same_resources : other_resources d' ≡ other_resources d
    pub same_plans : other_plans d' ≡ other_plans d
    pub same_approvals : other_approvals d' ≡ other_approvals d
    pub same_executions : other_executions d' ≡ other_executions d
    pub same_audits : other_audits d' ≡ other_audits d
    pub same_findings : d'.findings ≡ d.findings
    pub same_recommendations : d'.recommendations ≡ d.recommendations
    pub same_users : d'.users ≡ d.users
    pub same_workspaces : d'.workspaces ≡ d.workspaces

  pub Spares-refl : (d : Db) → Spares d d
  Spares-refl d = record {
    same_jobs = refl;
    same_resources = refl;
    same_plans = refl;
    same_approvals = refl;
    same_executions = refl;
    same_audits = refl;
    same_findings = refl;
    same_recommendations = refl;
    same_users = refl;
    same_workspaces = refl;
  }

  pub Spares-trans : {a b c : Db} → Spares a b → Spares b c → Spares a c
  Spares-trans f g = record {
    same_jobs = g.same_jobs ∙ f.same_jobs;
    same_resources = g.same_resources ∙ f.same_resources;
    same_plans = g.same_plans ∙ f.same_plans;
    same_approvals = g.same_approvals ∙ f.same_approvals;
    same_executions = g.same_executions ∙ f.same_executions;
    same_audits = g.same_audits ∙ f.same_audits;
    same_findings = g.same_findings ∙ f.same_findings;
    same_recommendations = g.same_recommendations ∙ f.same_recommendations;
    same_users = g.same_users ∙ f.same_users;
    same_workspaces = g.same_workspaces ∙ f.same_workspaces;
  }

  -- A database in which the other workspaces keep their documents of each collection.
  pub Spares-of :
      (d : Db) (jobs : List DiagnosticJob) (resources : List CloudResource)
      (plans : List RemediationPlan) (approvals : List ApprovalToken)
      (executions : List RemediationExecution) (audits : List AuditEvent)
      → others (λ (j : DiagnosticJob). j.workspace_id) w jobs ≡ other_jobs d
      → others (λ (r : CloudResource). r.workspace_id) w resources ≡ other_resources d
      → others (λ (p : RemediationPlan). p.workspace_id) w plans ≡ other_plans d
      → others (λ (a : ApprovalToken). a.workspace_id) w approvals ≡ other_approvals d
      → others (λ (e : RemediationExecution). e.workspace_id) w executions ≡ other_executions d
      → others (λ (a : AuditEvent). a.workspace_id) w audits ≡ other_audits d
      → Spares d (record d {
        jobs = jobs;
        resources = resources;
        plans = plans;
        approvals = approvals;
        executions = executions;
        audits = audits;
      })
  Spares-of d jobs resources plans approvals executions audits j r p a e l = record {
    same_jobs = j;
    same_resources = r;
    same_plans = p;
    same_approvals = a;
    same_executions = e;
    same_audits = l;
    same_findings = refl;
    same_recommendations = refl;
    same_users = refl;
    same_workspaces = refl;
  }

  -- An audit event of the workspace is added.
  pub logged-Spares :
      (event : AuditEvent) (d : Db)
      → event.workspace_id ≡ w
      → Spares d (record d { audits = d.audits ++ event ∷ [] })
  logged-Spares event d own =
      Spares-of d d.jobs d.resources d.plans d.approvals d.executions _ refl refl refl refl refl
        (others-insert (λ (a : AuditEvent). a.workspace_id) w event d.audits own)
