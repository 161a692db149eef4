-- ===== src/Routes/Roles.antt =====
-- The role checks of the routes of api.ts, against the permissions of auth/index.ts.
use cloudops_sentinel.Base.{
  ℕ, String, ◌≡◌, refl, sym, ap, ◌∙◌, inl, inr, Bool, false, Option, none, some, List, [], ◌∷◌,
  ◌==◌, if◌then◌else◌, Bool-cases,
}
use cloudops_sentinel.Errors.{AppError, ok, err, forbidden_error}
use cloudops_sentinel.Types.{Role, admin, operator, viewer}
use cloudops_sentinel.Auth.{
  AuthClaims, require_role, role_among, can_read, can_operate, can_approve, can_execute,
}
use cloudops_sentinel.Db.{Db, Mongo, ApiConfig, M}
use cloudops_sentinel.Jobs
use cloudops_sentinel.Resources
use cloudops_sentinel.Resources.{CloudProvider}
use cloudops_sentinel.Routes.{
  with_role, Request, post_sync, get_resource, post_diagnostics, get_job, post_retry, post_plan,
  post_approve, post_execute, handle, staff, sync_route, resource_route, diagnostics_route,
  job_route, retry_route, plan_route, approve_route, execute_route, found_or_404, with_id,
}

-- The permission that a request needs.
abbrev pub permits : Role → Request → Bool
permits role (post_sync _ _ _) = can_operate role
permits role (get_resource _) = can_read role
permits role (post_diagnostics _ _ _ _) = can_operate role
permits role (get_job _) = can_read role
permits role (post_retry _ _) = can_operate role
permits role (post_plan _ _ _) = can_operate role
permits role (post_approve _ _ _ _) = can_approve role
permits role (post_execute _ _ _ _) = can_execute role

abbrev denial : AppError
denial = forbidden_error "Insufficient permissions"

staff_denied :
    (auth : AuthClaims)
    → can_operate auth.role ≡ false
    → require_role staff (some auth) ≡ err denial
unfolding require_role role_among can_operate
staff_denied auth h = cases auth.role h
  where
    cases :
        (r : Role)
        → can_operate r ≡ false
        → (if role_among r staff then ok auth else err denial) ≡ err denial
    cases admin k = cc k
    cases operator k = cc k
    cases viewer k = refl

admin_denied :
    (auth : AuthClaims)
    → can_approve auth.role ≡ false
    → require_role (admin ∷ []) (some auth) ≡ err denial
unfolding require_role role_among can_approve
admin_denied auth h = cases auth.role h
  where
    cases :
        (r : Role)
        → can_approve r ≡ false
        → (if role_among r (admin ∷ []) then ok auth else err denial) ≡ err denial
    cases admin k = cc k
    cases operator k = refl
    cases viewer k = refl

read_allowed : (role : Role) → ¬ (can_read role ≡ false)
unfolding can_read
read_allowed role h = cc h

-- The staff of the executions is the staff of the operations.
execute_operates : (role : Role) → can_execute role ≡ can_operate role
unfolding can_execute can_operate
execute_operates role = refl

with_role_denied :
    {A : Type 0} (roles : List Role) (auth : AuthClaims) (handler : M A) (d : Db) {e : AppError}
    → require_role roles (some auth) ≡ err e
    → with_role roles auth handler d ≡ (d, err e)
unfolding with_role
with_role_denied roles auth handler d h = rw (with_role, h) refl

module _ (mongo : Mongo) (provider : CloudProvider) (config : ApiConfig) (sha256 : String → String)
    (duplicate_key : AppError) (auth : AuthClaims) (correlation_id : String) (d : Db) where
  -- Whoever lacks the permission that a request needs is answered with a 403 and changes nothing,
  -- whatever the request holds: reading is for every role, syncing, diagnosing, retrying, planning
  -- and executing for operators and administrators, and approving for administrators only.
  pub handle_denies :
      (request : Request)
      → permits auth.role request ≡ false
      → handle mongo provider config sha256 duplicate_key auth correlation_id request d
        ≡ (d, err (forbidden_error "Insufficient permissions"))
  unfolding handle sync_route diagnostics_route retry_route plan_route approve_route execute_route
  handle_denies (post_sync body ids now) h = with_role_denied _ auth _ d (staff_denied auth h)
  handle_denies (get_resource id) h = absurd (read_allowed auth.role h)
  handle_denies (post_diagnostics body between job_id now) h =
      with_role_denied _ auth _ d (staff_denied auth h)
  handle_denies (get_job id) h = absurd (read_allowed auth.role h)
  handle_denies (post_retry id now) h = with_role_denied _ auth _ d (staff_denied auth h)
  handle_denies (post_plan body plan_id now) h = with_role_denied _ auth _ d (staff_denied auth h)
  handle_denies (post_approve id token_id token now) h =
      with_role_denied _ auth _ d (admin_denied auth h)
  handle_denies (post_execute id body execution_id now) h =
      with_role_denied _ auth _ d (staff_denied auth (sym (execute_operates auth.role) ∙ h))

  found_keeps : {A : Type 0} (message : String) (o : Option A) → (found_or_404 message o d).0 ≡ d
  unfolding found_or_404
  found_keeps message none = refl
  found_keeps message (some a) = refl

  id_keeps : (id : String) (handler : M ℕ) → (handler d).0 ≡ d → (with_id id handler d).0 ≡ d
  unfolding with_id
  id_keeps id handler h = elim (Bool-cases (id == "")) [
    | inl blank ↦ rw blank refl
    | inr named ↦ rw named h
  ]

  abbrev after : Request → Db
  after request =
      (handle mongo provider config sha256 duplicate_key auth correlation_id request d).0

  denied_keeps : (request : Request) → permits auth.role request ≡ false → after request ≡ d
  denied_keeps request h = ap (λ r. r.0) (handle_denies request h)

  -- A viewer changes nothing by any request.
  pub viewer_keeps :
      auth.role ≡ viewer
      → (request : Request)
      → (handle mongo provider config sha256 duplicate_key auth correlation_id request d).0 ≡ d
  unfolding handle resource_route job_route can_operate can_approve can_execute
  viewer_keeps v (get_resource id) =
      id_keeps id _ (found_keeps "Resource not found" (Resources.get mongo auth.workspace_id id d))
  viewer_keeps v (get_job id) =
      id_keeps id _ (found_keeps "Job not found" (Jobs.get mongo auth.workspace_id id d))
  viewer_keeps v (post_sync body ids now) = denied_keeps (post_sync body ids now) (rw v refl)
  viewer_keeps v (post_diagnostics body between job_id now) =
      denied_keeps (post_diagnostics body between job_id now) (rw v refl)
  viewer_keeps v (post_retry id now) = denied_keeps (post_retry id now) (rw v refl)
  viewer_keeps v (post_plan body plan_id now) =
      denied_keeps (post_plan body plan_id now) (rw v refl)
  viewer_keeps v (post_approve id token_id token now) =
      denied_keeps (post_approve id token_id token now) (rw v refl)
  viewer_keeps v (post_execute id body execution_id now) =
      denied_keeps (post_execute id body execution_id now) (rw v refl)
