-- ===== src/Routes/Paged.antt =====
-- What the listing routes of api.ts answer.
use cloudops_sentinel.Types.{Role}
use cloudops_sentinel.Base.{
  ℕ, ◌≤◌, String, ◌≡◌, refl, Bool, true, false, ◌&&◌, Option, none, some, List, Memᴰ, arith, ◌==◌,
  eq_iff, length,
}
use cloudops_sentinel.Errors.{AppError, Result, ok, err, validation_error}
use cloudops_sentinel.Auth.{AuthClaims, require_role}
use cloudops_sentinel.Db.{Db, M}
use cloudops_sentinel.Jobs
use cloudops_sentinel.Listing.{SortedFind, Page, listing}
use cloudops_sentinel.Listing.Complete.{listing_sound, page_length}
use cloudops_sentinel.Remediation.Execute.Checks.{and_both}
use cloudops_sentinel.Query.{
  SortedMongo, list_findings, list_recommendations, list_audit_events, list_resources,
  finding_filter, recommendation_filter, audit_filter, resource_filter,
}
use cloudops_sentinel.Routes.{with_role, with_body, staff}
use cloudops_sentinel.Routes.Listings.{
  resources_route, jobs_route, findings_route, recommendations_route, audit_route,
}
use cloudops_sentinel.Schemas.{
  Zod, max_page_size, list_resources_query_schema, list_jobs_query_schema,
  list_findings_query_schema, list_recommendations_query_schema, list_audit_query_schema,
}
use cloudops_sentinel.Schemas.Bounds.{
  of_Ensures, InRange, resources_query_InRange, jobs_query_InRange, findings_query_InRange,
  recommendations_query_InRange, audit_query_InRange,
}

-- A page of a workspace: not longer than the largest limit, and of stored documents of the
-- workspace only.
pub record IsPage {A : Type 0} (workspace : A → String) (workspace_id : String) (docs : List A)
    (p : Page A) : Type 0 where
  pub bounded : length p.items ≤ max_page_size
  pub limited : length p.items ≤ p.limit
  pub own : (x : A) → Memᴰ x p.items → Memᴰ x docs × (workspace x ≡ workspace_id)
  pub known : length p.items ≤ p.total

-- The answer to a listing: an error, or a page, and the database as it was.
pub data Listed {A : Type 0} (workspace : A → String) (workspace_id : String) (docs : List A)
    (d : Db) (r : Db × Result (Page A)) : Type 0 where
  refused : (e : AppError) → r ≡ (d, err e) → Listed workspace workspace_id docs d r
  answered :
      (p : Page A)
      → r ≡ (d, ok p)
      → IsPage workspace workspace_id docs p
      → Listed workspace workspace_id docs d r

module _ {A : Type 0} (workspace : A → String) (workspace_id : String) where
  -- A filter that begins with the workspace.
  listing-IsPage :
      (sorted : SortedFind A) (matches : A → Bool) (docs : List A) (page limit : ℕ)
      → ((x : A) → matches x ≡ true → (workspace x == workspace_id) ≡ true)
      → InRange page limit
      → IsPage workspace workspace_id docs (listing sorted matches page limit docs)
  unfolding listing
  listing-IsPage sorted matches docs page limit inside (first, some_limit, range) =
      let n = page_length sorted matches docs limit page in
      record {
        bounded = omega (arith, n);
        limited = omega (arith, n);
        own = λ x m.
            let (stored, hit) = listing_sound sorted matches docs limit page x m in
            (stored, (eq_iff (workspace x) workspace_id).0 (inside x hit));
        known = omega (arith, n);
      }

  body-Listed :
      {B : Type 0} (docs : List A) (d : Db) (m : Option B) (f : B → Db → Page A)
      → ((b : B) → m ≡ some b → IsPage workspace workspace_id docs (f b d))
      → Listed workspace workspace_id docs d (with_body m (λ b d. (d, ok (f b d))) d)
  unfolding with_body
  body-Listed docs d none f h = refused (validation_error "Request validation failed" none) refl
  body-Listed docs d (some b) f h = answered (f b d) refl (h b refl)

  role-Listed :
      (docs : List A) (d : Db) (roles : List Role) (auth : AuthClaims) (handler : M (Page A))
      → Listed workspace workspace_id docs d (handler d)
      → Listed workspace workspace_id docs d (with_role roles auth handler d)
  unfolding with_role
  role-Listed docs d roles auth handler h = by_role (require_role roles (some auth))
    where
      by_role :
          (r : Result AuthClaims)
          → Listed workspace workspace_id docs d (elim r [ ok a ↦ handler d | err e ↦ (d, err e) ])
      by_role (ok a) = h
      by_role (err e) = refused e refl

left_of : (a b : Bool) → (a && b) ≡ true → a ≡ true
left_of a b h = (and_both a b h).0

left_of_3 : (a b c : Bool) → (a && b && c) ≡ true → a ≡ true
left_of_3 true b c h = refl
left_of_3 false b c h = h

left_of_4 : (a b c e : Bool) → (a && b && c && e) ≡ true → a ≡ true
left_of_4 true b c e h = refl
left_of_4 false b c e h = h

module _ (z : Zod) (sorted : SortedMongo) (auth : AuthClaims) (query : z.Value) (d : Db) where
  resources_route-Listed :
      (regex_i : (pattern name : String) → Bool)
      → Listed
          (λ r. r.workspace_id)
          auth.workspace_id
          d.resources
          d
          (resources_route z sorted auth regex_i query d)
  unfolding resources_route list_resources resource_filter
  resources_route-Listed regex_i =
      body-Listed _ _ d.resources d (list_resources_query_schema z query)
        (λ q d. list_resources sorted regex_i auth.workspace_id q d)
        λ q e.
          listing-IsPage _ _ sorted.resources_by_name (resource_filter regex_i auth.workspace_id q)
            d.resources q.page q.limit (λ x. left_of_4 _ _ _ _)
            (of_Ensures (resources_query_InRange z query) e)

  jobs_route-Listed :
      Listed (λ j. j.workspace_id) auth.workspace_id d.jobs d (jobs_route z sorted auth query d)
  unfolding jobs_route Jobs.list Jobs.in_listing
  jobs_route-Listed =
      body-Listed _ _ d.jobs d (list_jobs_query_schema z query)
        (λ q d. Jobs.list sorted.jobs_by_date auth.workspace_id q.page q.limit q.status d)
        λ q e.
          listing-IsPage _ _ sorted.jobs_by_date (Jobs.in_listing auth.workspace_id q.status) d.jobs
            q.page q.limit (λ x. left_of _ _) (of_Ensures (jobs_query_InRange z query) e)

  findings_route-Listed :
      Listed
        (λ f. f.workspace_id)
        auth.workspace_id
        d.findings
        d
        (findings_route z sorted auth query d)
  unfolding findings_route list_findings finding_filter
  findings_route-Listed =
      body-Listed _ _ d.findings d (list_findings_query_schema z query)
        (λ q d. list_findings sorted auth.workspace_id q d)
        λ q e.
          listing-IsPage _ _ sorted.findings_by_date (finding_filter auth.workspace_id q) d.findings
            q.page q.limit (λ x. left_of_4 _ _ _ _) (of_Ensures (findings_query_InRange z query) e)

  recommendations_route-Listed :
      Listed
        (λ r. r.workspace_id)
        auth.workspace_id
        d.recommendations
        d
        (recommendations_route z sorted auth query d)
  unfolding recommendations_route list_recommendations recommendation_filter
  recommendations_route-Listed =
      body-Listed _ _ d.recommendations d (list_recommendations_query_schema z query)
        (λ q d. list_recommendations sorted auth.workspace_id q d)
        λ q e.
          listing-IsPage _ _ sorted.recommendations_by_date
            (recommendation_filter auth.workspace_id q) d.recommendations q.page q.limit
            (λ x. left_of_3 _ _ _) (of_Ensures (recommendations_query_InRange z query) e)

  audit_route-Listed :
      Listed (λ a. a.workspace_id) auth.workspace_id d.audits d (audit_route z sorted auth query d)
  unfolding audit_route list_audit_events audit_filter
  audit_route-Listed = role-Listed _ _ d.audits d staff auth _ (
      body-Listed _ _ d.audits d (list_audit_query_schema z query)
        (λ q d. list_audit_events sorted auth.workspace_id q d)
        λ q e.
          listing-IsPage _ _ sorted.audits_by_date (audit_filter auth.workspace_id q) d.audits
            q.page q.limit (λ x. left_of_3 _ _ _) (of_Ensures (audit_query_InRange z query) e))

  -- A listing of resources, jobs, findings, recommendations or audit events, whatever the query,
  -- changes nothing: it is refused by an error, or answers a page of at most 100 documents and no
  -- more than the page's limit, all of them stored and of the workspace of the request's token, and
  -- not more than the total that it tells.
  pub listings_lem :
      (regex_i : (pattern name : String) → Bool)
      → Listed
          (λ r. r.workspace_id)
          auth.workspace_id
          d.resources
          d
          (resources_route z sorted auth regex_i query d)
        × Listed (λ j. j.workspace_id) auth.workspace_id d.jobs d (jobs_route z sorted auth query d)
        × Listed
            (λ f. f.workspace_id)
            auth.workspace_id
            d.findings
            d
            (findings_route z sorted auth query d)
        × Listed
            (λ r. r.workspace_id)
            auth.workspace_id
            d.recommendations
            d
            (recommendations_route z sorted auth query d)
        × Listed
            (λ a. a.workspace_id)
            auth.workspace_id
            d.audits
            d
            (audit_route z sorted auth query d)
  listings_lem regex_i = (
    resources_route-Listed regex_i,
    jobs_route-Listed,
    findings_route-Listed,
    recommendations_route-Listed,
    audit_route-Listed,
  )
