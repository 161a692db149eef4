-- ===== src/Routes/Isolated.antt =====
-- A request to the router of api.ts changes only documents of the workspace of its sender.
use cloudops_sentinel.Base.{
  ℕ, String, ◌≡◌, refl, inl, inr, Option, none, some, List, ◌==◌, Bool-cases,
}
use cloudops_sentinel.Errors.{AppError, Result, ok, err}
use cloudops_sentinel.Types.{Role}
use cloudops_sentinel.Store.Elsewhere.{others-insert}
use cloudops_sentinel.Types.Plan.{AuditEvent}
use cloudops_sentinel.Auth.{AuthClaims, require_role}
use cloudops_sentinel.Db.{Db, Mongo, ApiConfig, M, record_audit}
use cloudops_sentinel.Db.Elsewhere.{HasOwners, Spares, Spares-refl, Spares-of}
use cloudops_sentinel.Jobs
use cloudops_sentinel.Jobs.Elsewhere.{retry-Spares, create-Spares}
use cloudops_sentinel.Resources.{Discovered, CloudProvider, InventoryQuery, save_listed, sync}
use cloudops_sentinel.Resources
use cloudops_sentinel.Resources.Synced.{AllOwn}
use cloudops_sentinel.Resources.Elsewhere.{elsewhere-sync_items}
use cloudops_sentinel.Remediation.Plans.Elsewhere.{create_plan-Spares}
use cloudops_sentinel.Remediation.Approvals.Elsewhere.{approve-Spares}
use cloudops_sentinel.Remediation.Execute.Elsewhere.{execute-Spares}
use cloudops_sentinel.Routes.{
  with_role, with_body, with_id, answering, found_or_404, staff, Request, post_sync, get_resource,
  post_diagnostics, get_job, post_retry, post_plan, post_approve, post_execute, sync_route,
  resource_route, diagnostics_route, job_route, retry_route, plan_route, approve_route,
  execute_route, handle,
}

-- The provider lists resources of a workspace only.
abbrev pub ListsOwn : CloudProvider → String → Type 0
ListsOwn provider w =
    (query : InventoryQuery) (items : List Discovered)
    → provider.list_resources query ≡ ok items
    → AllOwn w items

-- What other processes write while a job is created is theirs, and not of the workspace's doing.
abbrev pub IsQuiet : String → Request → Db → Type 0
IsQuiet w (post_diagnostics body between job_id now) d = Spares w d (between d)
IsQuiet w _ d = Unit

module _ (mongo : Mongo) (w : String) (d : Db) where
  save_listed-Spares :
      (provider : CloudProvider) (actor_id correlation_id : String) (items : List Discovered)
      (ids : ℕ → String) (now : ℕ)
      → AllOwn w items
      → Spares w d (save_listed mongo provider.name w actor_id correlation_id items ids now d).0
  unfolding save_listed record_audit
  save_listed-Spares provider actor_id correlation_id items ids now own =
      Spares-of w d d.jobs _ d.plans d.approvals d.executions _ refl
        (elsewhere-sync_items mongo.resource_docs w now ids items d.resources own) refl refl refl
        (others-insert (λ (a : AuditEvent). a.workspace_id) w _ d.audits refl)

  sync-Spares :
      (provider : CloudProvider) (actor_id correlation_id : String) (query : InventoryQuery)
      (ids : ℕ → String) (now : ℕ) (listing : Result (List Discovered))
      → ListsOwn provider w
      → provider.list_resources query ≡ listing
      → Spares w d (sync mongo provider w actor_id correlation_id query ids now d).0
  unfolding sync
  sync-Spares provider actor_id correlation_id query ids now (err e) own h =
      rw (sync, h) (Spares-refl w d)
  sync-Spares provider actor_id correlation_id query ids now (ok items) own h =
      rw (sync, h)
        (save_listed-Spares provider actor_id correlation_id items ids now (own query items h))

  with_role-Spares :
      {A : Type 0} (roles : List Role) (auth : AuthClaims) (handler : M A)
      → Spares w d (handler d).0
      → Spares w d (with_role roles auth handler d).0
  unfolding with_role
  with_role-Spares roles auth handler h = by_role (require_role roles (some auth)) refl
    where
      by_role :
          (r : Result AuthClaims)
          → require_role roles (some auth) ≡ r
          → Spares w d (with_role roles auth handler d).0
      by_role (ok a) e = rw (with_role, e) h
      by_role (err x) e = rw (with_role, e) (Spares-refl w d)

  with_body-Spares :
      {A B : Type 0} (body : Option B) (handler : B → M A)
      → ((b : B) → Spares w d (handler b d).0)
      → Spares w d (with_body body handler d).0
  unfolding with_body
  with_body-Spares none handler h = Spares-refl w d
  with_body-Spares (some b) handler h = h b

  with_id-Spares :
      {A : Type 0} (id : String) (handler : M A)
      → Spares w d (handler d).0
      → Spares w d (with_id id handler d).0
  unfolding with_id
  with_id-Spares id handler h = elim (Bool-cases (id == "")) [
    | inl blank ↦ rw blank (Spares-refl w d)
    | inr named ↦ rw named h
  ]

  answering-Spares :
      {A : Type 0} (status : A → ℕ) (handler : M A)
      → Spares w d (handler d).0
      → Spares w d (answering status handler d).0
  unfolding answering
  answering-Spares {A = A} status handler h = by_result (handler d).1 refl
    where
      by_result : (r : Result A) → (handler d).1 ≡ r → Spares w d (answering status handler d).0
      by_result (ok a) e = rw (answering, e) h
      by_result (err x) e = rw (answering, e) h

  found-Spares :
      {A : Type 0} (message : String) (o : Option A) → Spares w d (found_or_404 message o d).0
  unfolding found_or_404
  found-Spares message none = Spares-refl w d
  found-Spares message (some a) = Spares-refl w d

module _ (mongo : Mongo) (provider : CloudProvider) (config : ApiConfig) (sha256 : String → String)
    (duplicate_key : AppError) (auth : AuthClaims) (correlation_id : String) (d : Db) where
  -- Whatever a request holds, and whether it is answered or throws, also in the middle of what it
  -- does: it changes no job, resource, plan, token, execution or audit event of another workspace
  -- than that of its sender's token, adds none there, and changes no finding, recommendation, user or
  -- workspace; provided documents of one id are of one workspace, the provider lists resources of
  -- the sender's workspace, and the writes of others while a job is created are left aside.
  pub handle-Spares :
      (request : Request)
      → HasOwners d
      → ListsOwn provider auth.workspace_id
      → IsQuiet auth.workspace_id request d
      → Spares auth.workspace_id d
          (handle mongo provider config sha256 duplicate_key auth correlation_id request d).0
  unfolding handle sync_route resource_route diagnostics_route job_route retry_route plan_route
      approve_route execute_route
  handle-Spares (post_sync body ids now) owners own quiet =
      with_role-Spares mongo auth.workspace_id d staff auth _ (
        with_body-Spares mongo auth.workspace_id d body _ λ query.
          answering-Spares mongo auth.workspace_id d _ _ (
            sync-Spares mongo auth.workspace_id d provider auth.sub correlation_id query ids now _
              own refl))
  handle-Spares (get_resource id) owners own quiet = with_id-Spares mongo auth.workspace_id d id _ (
      found-Spares mongo auth.workspace_id d "Resource not found"
        (Resources.get mongo auth.workspace_id id d))
  handle-Spares (post_diagnostics body between job_id now) owners own quiet =
      with_role-Spares mongo auth.workspace_id d staff auth _ (
        with_body-Spares mongo auth.workspace_id d body _ λ input.
          answering-Spares mongo auth.workspace_id d _ _ (
            create-Spares mongo auth.workspace_id auth.sub correlation_id now
              config.worker_max_attempts config.worker_job_timeout_ms duplicate_key input job_id
              between d quiet))
  handle-Spares (get_job id) owners own quiet = with_id-Spares mongo auth.workspace_id d id _ (
      found-Spares mongo auth.workspace_id d "Job not found"
        (Jobs.get mongo auth.workspace_id id d))
  handle-Spares (post_retry id now) owners own quiet =
      with_role-Spares mongo auth.workspace_id d staff auth _ (
        with_id-Spares mongo auth.workspace_id d id _ (
          answering-Spares mongo auth.workspace_id d _ _
            (retry-Spares mongo auth.workspace_id auth.sub correlation_id now id d owners)))
  handle-Spares (post_plan body plan_id now) owners own quiet =
      with_role-Spares mongo auth.workspace_id d staff auth _ (
        with_body-Spares mongo auth.workspace_id d body _ λ input.
          answering-Spares mongo auth.workspace_id d _ _ (
            create_plan-Spares mongo auth.workspace_id auth.sub correlation_id input plan_id now d))
  handle-Spares (post_approve id token_id token now) owners own quiet =
      with_role-Spares mongo auth.workspace_id d _ auth _ (
        with_id-Spares mongo auth.workspace_id d id _ (
          answering-Spares mongo auth.workspace_id d _ _ (
            approve-Spares mongo config sha256 auth.workspace_id id auth.sub correlation_id token_id
              token now d owners)))
  handle-Spares (post_execute id body execution_id now) owners own quiet =
      with_role-Spares mongo auth.workspace_id d staff auth _ (
        with_body-Spares mongo auth.workspace_id d body _ λ input.
          with_id-Spares mongo auth.workspace_id d id _ (
            answering-Spares mongo auth.workspace_id d _ _ (
              execute-Spares mongo config sha256 auth.workspace_id id auth.sub correlation_id input
                execution_id now d owners)))
