-- ===== src/Routes/Listings.antt =====
-- apps/api/src/routes/api.ts: the listings, with what their query schemas make of a query.
use cloudops_sentinel.Base.{String, Bool}
use cloudops_sentinel.Errors.{ok}
use cloudops_sentinel.Types.Resource.{CloudResource}
use cloudops_sentinel.Types.Job.{DiagnosticJob}
use cloudops_sentinel.Types.Plan.{Finding, Recommendation, AuditEvent}
use cloudops_sentinel.Auth.{AuthClaims}
use cloudops_sentinel.Db.{M}
use cloudops_sentinel.Jobs
use cloudops_sentinel.Listing.{Page}
use cloudops_sentinel.Query.{
  SortedMongo, list_findings, list_recommendations, list_audit_events, list_resources,
}
use cloudops_sentinel.Routes.{with_role, with_body, staff}
use cloudops_sentinel.Schemas.{
  Zod, list_resources_query_schema, list_jobs_query_schema, list_findings_query_schema,
  list_recommendations_query_schema, list_audit_query_schema,
}

module _ (z : Zod) (sorted : SortedMongo) (auth : AuthClaims) where
  unfoldable pub resources_route :
      (regex_i : (pattern name : String) → Bool) → z.Value → M (Page CloudResource)
  resources_route regex_i query =
      with_body (list_resources_query_schema z query)
        λ q d. (d, ok (list_resources sorted regex_i auth.workspace_id q d))

  unfoldable pub jobs_route : z.Value → M (Page DiagnosticJob)
  jobs_route query =
      with_body (list_jobs_query_schema z query)
        λ q d. (d, ok (Jobs.list sorted.jobs_by_date auth.workspace_id q.page q.limit q.status d))

  unfoldable pub findings_route : z.Value → M (Page Finding)
  findings_route query =
      with_body (list_findings_query_schema z query)
        λ q d. (d, ok (list_findings sorted auth.workspace_id q d))

  unfoldable pub recommendations_route : z.Value → M (Page Recommendation)
  recommendations_route query =
      with_body (list_recommendations_query_schema z query)
        λ q d. (d, ok (list_recommendations sorted auth.workspace_id q d))

  unfoldable pub audit_route : z.Value → M (Page AuditEvent)
  audit_route query = with_role staff auth (
      with_body (list_audit_query_schema z query)
        λ q d. (d, ok (list_audit_events sorted auth.workspace_id q d)))
