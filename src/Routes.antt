-- ===== src/Routes.antt =====
-- apps/api/src/routes/api.ts: the routes that change something, and the readings of one document,
-- with their role checks. A body or a query is what its schema makes of it, or nothing where the
-- schema refuses it; an answer is its status, and its body is what the service returns. The ids and
-- the token that are made while a request is served are part of it, and so is its time.
pub mod Roles
pub mod Isolated
pub mod Listings
pub mod Paged
pub mod Login
pub mod Bearer
use cloudops_sentinel.Base.{ℕ, String, not, Option, none, some, List, [], ◌∷◌, ◌==◌, if◌then◌else◌}
use cloudops_sentinel.Errors.{AppError, ok, err, validation_error, not_found_error}
use cloudops_sentinel.Types.{Role, admin, operator}
use cloudops_sentinel.Auth.{AuthClaims, require_role}
use cloudops_sentinel.Db.{Db, Mongo, ApiConfig, M}
use cloudops_sentinel.Jobs
use cloudops_sentinel.Jobs.{CreateInput}
use cloudops_sentinel.Resources
use cloudops_sentinel.Resources.{CloudProvider, InventoryQuery}
use cloudops_sentinel.Remediation.Service.{ExecuteInput}
use cloudops_sentinel.Remediation.Plans.{PlanInput, create_plan}
use cloudops_sentinel.Remediation.Approvals.{approve}
use cloudops_sentinel.Remediation.Execute.{execute}

-- `requireRole` before a handler.
unfoldable pub with_role : {A : Type 0} → List Role → AuthClaims → M A → M A
with_role roles auth handler d = elim (require_role roles (some auth)) [
  | ok a ↦ handler d
  | err e ↦ (d, err e)
]

-- `validate` before a handler.
unfoldable pub with_body : {A B : Type 0} → Option B → (B → M A) → M A
with_body none handler d = (d, err (validation_error "Request validation failed" none))
with_body (some body) handler d = handler body d

unfoldable pub with_id : {A : Type 0} → String → M A → M A
with_id id handler d =
    if id == "" then (d, err (validation_error "Missing resource id" none)) else handler d

-- `res.status(...)` of what a handler returns.
unfoldable pub answering : {A : Type 0} → (A → ℕ) → M A → M ℕ
answering status handler d =
    let (d', r) = handler d in elim r [ ok a ↦ (d', ok (status a)) | err e ↦ (d', err e) ]

unfoldable pub found_or_404 : {A : Type 0} → String → Option A → M ℕ
found_or_404 message none d = (d, err (not_found_error message))
found_or_404 message (some a) d = (d, ok 200)

abbrev pub staff : List Role
staff = admin ∷ operator ∷ []

pub data Request : Type 0 where
  post_sync : Option InventoryQuery → (ids : ℕ → String) (now : ℕ) → Request
  get_resource : (id : String) → Request
  post_diagnostics : Option CreateInput → (between : Db → Db) (job_id : String) (now : ℕ) → Request
  get_job : (id : String) → Request
  post_retry : (id : String) (now : ℕ) → Request
  post_plan : Option PlanInput → (plan_id : String) (now : ℕ) → Request
  post_approve : (id token_id token : String) (now : ℕ) → Request
  post_execute : (id : String) → Option ExecuteInput → (execution_id : String) (now : ℕ) → Request

module _ (mongo : Mongo) (provider : CloudProvider) (config : ApiConfig) (sha256 : String → String)
    (duplicate_key : AppError) (auth : AuthClaims) (correlation_id : String) where
  unfoldable pub sync_route : Option InventoryQuery → (ids : ℕ → String) (now : ℕ) → M ℕ
  sync_route body ids now = with_role staff auth (
      with_body body λ query.
        answering (λ r. 202)
          (Resources.sync mongo provider auth.workspace_id auth.sub correlation_id query ids now))

  unfoldable pub resource_route : (id : String) → M ℕ
  resource_route id =
      with_id id
        λ d. found_or_404 "Resource not found" (Resources.get mongo auth.workspace_id id d) d

  unfoldable pub diagnostics_route :
      Option CreateInput → (between : Db → Db) (job_id : String) (now : ℕ) → M ℕ
  diagnostics_route body between job_id now = with_role staff auth (
      with_body body λ input.
        answering (λ r. if r.1 then 200 else 202)
          (Jobs.create mongo config.worker_max_attempts config.worker_job_timeout_ms duplicate_key
            between auth.workspace_id auth.sub correlation_id input job_id now))

  unfoldable pub job_route : (id : String) → M ℕ
  job_route id =
      with_id id λ d. found_or_404 "Job not found" (Jobs.get mongo auth.workspace_id id d) d

  unfoldable pub retry_route : (id : String) (now : ℕ) → M ℕ
  retry_route id now = with_role staff auth (
      with_id id
        (answering (λ j. 200) (Jobs.retry mongo auth.workspace_id id auth.sub correlation_id now)))

  unfoldable pub plan_route : Option PlanInput → (plan_id : String) (now : ℕ) → M ℕ
  plan_route body plan_id now = with_role staff auth (
      with_body body λ input.
        answering (λ r. if r.1 then 200 else 201)
          (create_plan mongo auth.workspace_id auth.sub correlation_id input plan_id now))

  unfoldable pub approve_route : (id token_id token : String) (now : ℕ) → M ℕ
  approve_route id token_id token now = with_role (admin ∷ []) auth (
      with_id id (
        answering (λ r. 200)
          (approve mongo config sha256 auth.workspace_id id auth.sub correlation_id token_id token
            now)))

  unfoldable pub execute_route :
      (id : String) → Option ExecuteInput → (execution_id : String) (now : ℕ) → M ℕ
  execute_route id body execution_id now = with_role staff auth (
      with_body body λ input. with_id id (
        answering (λ r. 200)
          (execute mongo config sha256 auth.workspace_id id auth.sub correlation_id input
            execution_id now)))

  -- The router, behind the authentication.
  unfoldable pub handle : Request → M ℕ
  handle (post_sync body ids now) = sync_route body ids now
  handle (get_resource id) = resource_route id
  handle (post_diagnostics body between job_id now) = diagnostics_route body between job_id now
  handle (get_job id) = job_route id
  handle (post_retry id now) = retry_route id now
  handle (post_plan body plan_id now) = plan_route body plan_id now
  handle (post_approve id token_id token now) = approve_route id token_id token now
  handle (post_execute id body execution_id now) = execute_route id body execution_id now
