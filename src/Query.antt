-- ===== src/Query.antt =====
-- apps/api/src/services/query-service.ts, and `list` of apps/api/src/services/resource-service.ts.
-- The sorted searches of the database are parameters, and so is its search by a regular expression
-- without regard to case.
use Prim.Native.String
use cloudops_sentinel.Base.{
  ℕ, String, Bool, true, ◌&&◌, ◌||◌, Option, none, some, List, [], ◌∷◌, ◌==◌, if◌then◌else◌, take,
}
use cloudops_sentinel.Types.{
  ResourceType, ec2, s3, lambda, cloudwatch, FindingSeverity, critical, high, medium, low, info,
}
use cloudops_sentinel.Text.{includes}
use cloudops_sentinel.Types.Resource.{CloudResource}
use cloudops_sentinel.Types.Job.{DiagnosticJob}
use cloudops_sentinel.Types.Plan.{Finding, Recommendation, AuditEvent}
use cloudops_sentinel.Db.{Db}
use cloudops_sentinel.Processor.{HealthCheck}
use cloudops_sentinel.Listing.{SortedFind, Page, wants, listing}

-- The searches with the sort of each listing.
pub record SortedMongo : Type 0 where
  pub resources_by_name : SortedFind CloudResource
  pub jobs_by_date : SortedFind DiagnosticJob
  pub findings_by_date : SortedFind Finding
  pub recommendations_by_date : SortedFind Recommendation
  pub audits_by_date : SortedFind AuditEvent
  pub checks_by_observation : SortedFind HealthCheck

abbrev pub severity_text : FindingSeverity → String
severity_text critical = "critical"
severity_text high = "high"
severity_text medium = "medium"
severity_text low = "low"
severity_text info = "info"

abbrev pub type_text : ResourceType → String
type_text ec2 = "ec2"
type_text s3 = "s3"
type_text lambda = "lambda"
type_text cloudwatch = "cloudwatch"

pub record FindingsQuery : Type 0 where
  pub page : ℕ
  pub limit : ℕ
  pub severity : Option String
  pub resource_id : Option String
  pub job_id : Option String

pub record RecommendationsQuery : Type 0 where
  pub page : ℕ
  pub limit : ℕ
  pub action_type : Option String
  pub job_id : Option String

pub record AuditQuery : Type 0 where
  pub page : ℕ
  pub limit : ℕ
  pub action : Option String
  pub actor_id : Option String

pub record ResourcesQuery : Type 0 where
  pub page : ℕ
  pub limit : ℕ
  pub type : Option String
  pub region : Option String
  pub q : Option String

unfoldable pub finding_filter : (workspace_id : String) → FindingsQuery → Finding → Bool
finding_filter workspace_id query x =
    x.workspace_id == workspace_id
    && wants query.severity (severity_text x.severity)
    && wants query.resource_id x.resource_id
    && wants query.job_id x.job_id

unfoldable pub recommendation_filter :
    (workspace_id : String) → RecommendationsQuery → Recommendation → Bool
recommendation_filter workspace_id query x =
    x.workspace_id == workspace_id
    && wants query.action_type x.action_type
    && wants query.job_id x.job_id

unfoldable pub audit_filter : (workspace_id : String) → AuditQuery → AuditEvent → Bool
audit_filter workspace_id query x =
    x.workspace_id == workspace_id && wants query.action x.action && wants query.actor_id x.actor_id

unfoldable pub check_filter :
    (workspace_id : String) (resource_id : Option String) → HealthCheck → Bool
check_filter workspace_id resource_id x =
    x.workspace_id == workspace_id && wants resource_id x.resource_id

-- The characters that `list` of the resources takes the meaning from.
abbrev regex_specials : List String
regex_specials =
    "." ∷ "*" ∷ "+" ∷ "?" ∷ "^" ∷ "$" ∷ "{" ∷ "}" ∷ "(" ∷ ")" ∷ "|" ∷ "[" ∷ "]" ∷ "\\" ∷ []

unfoldable pub escape_regex : String → String
escape_regex String.[] = ""
escape_regex (String.◌∷◌ c s) =
    if includes (String.◌∷◌ c "") regex_specials
    then String.◌++◌ "\\" (String.◌∷◌ c (escape_regex s))
    else String.◌∷◌ c (escape_regex s)

module _ (regex_i : (pattern name : String) → Bool) where
  -- The last condition of the filter; an empty search asks for every name.
  abbrev pub name_matches : Option String → String → Bool
  name_matches none name = true
  name_matches (some q) name = q == "" || regex_i (escape_regex q) name

  unfoldable pub resource_filter : (workspace_id : String) → ResourcesQuery → CloudResource → Bool
  resource_filter workspace_id query x =
      x.workspace_id == workspace_id
      && wants query.type (type_text x.type)
      && wants query.region x.region
      && name_matches query.q x.name

module _ (sorted : SortedMongo) where
  unfoldable pub list_findings : (workspace_id : String) → FindingsQuery → Db → Page Finding
  list_findings workspace_id query d =
      listing sorted.findings_by_date (finding_filter workspace_id query) query.page query.limit
        d.findings

  unfoldable pub list_recommendations :
      (workspace_id : String) → RecommendationsQuery → Db → Page Recommendation
  list_recommendations workspace_id query d =
      listing sorted.recommendations_by_date (recommendation_filter workspace_id query) query.page
        query.limit d.recommendations

  unfoldable pub list_audit_events : (workspace_id : String) → AuditQuery → Db → Page AuditEvent
  list_audit_events workspace_id query d =
      listing sorted.audits_by_date (audit_filter workspace_id query) query.page query.limit
        d.audits

  unfoldable pub list_health_checks :
      (workspace_id : String) (resource_id : Option String) → List HealthCheck → List HealthCheck
  list_health_checks workspace_id resource_id checks =
      take 50
        (sorted.checks_by_observation.find_sorted 1 (check_filter workspace_id resource_id) checks)

  unfoldable pub list_resources :
      (regex_i : (pattern name : String) → Bool)
      → (workspace_id : String) → ResourcesQuery
      → Db
      → Page CloudResource
  list_resources regex_i workspace_id query d =
      listing sorted.resources_by_name (resource_filter regex_i workspace_id query) query.page
        query.limit d.resources
