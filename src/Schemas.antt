-- ===== src/Schemas.antt =====
-- packages/shared/src/schemas.ts. The validation library zod is a parameter, `Zod`: its untyped
-- values, the schemas that schemas.ts puts together, and what they accept, as zod documents it.

pub mod Bounds
use cloudops_sentinel.Base.{
  if◌then◌else◌, ◌==◌, ℕ, ◌≤◌, String, ◌≡◌, ◌⊎◌, Bool, true, Option, none, some, List, [], ◌∷◌,
  ◌++◌, length, All,
}
use cloudops_sentinel.Text.{includes}
use cloudops_sentinel.Types.{ResourceType, ec2, s3, lambda, cloudwatch, allowlisted_actions}
use cloudops_sentinel.Resources.{InventoryQuery}
use cloudops_sentinel.Jobs.{CreateInput}
use cloudops_sentinel.Remediation.Service.{ExecuteInput}
use cloudops_sentinel.Remediation.Plans.{PlanInput}
use cloudops_sentinel.Query.{FindingsQuery, RecommendationsQuery, AuditQuery, ResourcesQuery}

-- An upper bound, if there is one.
abbrev pub Below : ℕ → Option ℕ → Type 0
Below n none = Unit
Below n (some max) = n ≤ max

pub record Zod : Type 1 where
  pub Value : Type 0
  -- `schema.safeParse(value)`, for the schemas by their kind; `none` where it fails.
  pub string : (min : ℕ) (max : Option ℕ) → Value → Option String  -- z.string().min().max()
  pub email : Value → Option String  -- z.string().email()
  pub boolean : Value → Option Bool
  pub enum : List String → Value → Option String
  pub coerced_int : (min : ℕ) (max : Option ℕ) → Value → Option ℕ  -- z.coerce.number().int()
  pub array : (A : Type 0) (min : ℕ) → (Value → Option A) → Value → Option (List A)
  pub optional : (A : Type 0) → (Value → Option A) → Value → Option (Option A)
  pub default : (A : Type 0) → A → (Value → Option A) → Value → Option A
  -- A field of an object, `undefined` if it has none; an object schema refuses what is no object.
  pub field : Value → String → Option Value
  pub undefined : Value
  -- The length of a text as JavaScript counts it.
  pub units : String → ℕ
  pub string_in_range :
      (min : ℕ) (max : Option ℕ) (v : Value) (s : String)
      → string min max v ≡ some s
      → (min ≤ units s) × Below (units s) max
  pub enum_listed :
      (names : List String) (v : Value) (s : String)
      → enum names v ≡ some s
      → includes s names ≡ true
  pub int_in_range :
      (min : ℕ) (max : Option ℕ) (v : Value) (n : ℕ)
      → coerced_int min max v ≡ some n
      → (min ≤ n) × Below n max
  pub array_of :
      (A : Type 0) (min : ℕ) (p : Value → Option A) (v : Value) (l : List A)
      → array A min p v ≡ some l
      → (min ≤ length l) × All (λ a. (w : Value) × (p w ≡ some a)) l
  pub optional_of :
      (A : Type 0) (p : Value → Option A) (v : Value) (a : A)
      → optional A p v ≡ some (some a)
      → p v ≡ some a
  pub default_of :
      (A : Type 0) (d : A) (p : Value → Option A) (v : Value) (a : A)
      → default A d p v ≡ some a
      → (a ≡ d) ⊎ (p v ≡ some a)
  pub default_missing :
      (A : Type 0) (d : A) (p : Value → Option A) → default A d p undefined ≡ some d

infixl 5 ◌>>=◌
unfoldable pub ◌>>=◌ : {A B : Type 0} → Option A → (A → Option B) → Option B
none >>= f = none
some a >>= f = f a

abbrev pub default_page_size : ℕ
default_page_size = 20

abbrev pub max_page_size : ℕ
max_page_size = 100

abbrev pub resource_type_names : List String
resource_type_names = "ec2" ∷ "s3" ∷ "lambda" ∷ "cloudwatch" ∷ []

-- The type of a name that the enumeration accepts.
abbrev pub type_named : String → Option ResourceType
type_named s =
    if s == "ec2"
    then some ec2
    else if s == "s3"
    then some s3
    else if s == "lambda"
    then some lambda
    else if s == "cloudwatch"
    then some cloudwatch
    else none

pub record LoginInput : Type 0 where
  pub email : String
  pub password : String

pub record JobsQuery : Type 0 where
  pub page : ℕ
  pub limit : ℕ
  pub status : Option String

module _ (z : Zod) where
  -- One field of an object, by its schema.
  abbrev pub at : {A : Type 0} → z.Value → String → (z.Value → Option A) → Option A
  at v name schema = z.field v name >>= schema

  abbrev pub text_field : z.Value → String → Option (Option String)
  text_field v name = at v name (z.optional String (z.string 0 none))

  abbrev pub resource_type : z.Value → Option ResourceType
  resource_type v = z.enum resource_type_names v >>= type_named

  abbrev pub id_text : z.Value → Option String
  id_text v = z.string 1 none v

  abbrev pub key_field : z.Value → Option String
  key_field v = at v "idempotencyKey" (z.string 8 (some 128))

  unfoldable pub page_field : z.Value → Option ℕ
  page_field v = at v "page" (z.default ℕ 1 (z.coerced_int 1 none))

  unfoldable pub limit_field : z.Value → Option ℕ
  limit_field v =
      at v "limit" (z.default ℕ default_page_size (z.coerced_int 1 (some max_page_size)))

  unfoldable pub sync_resources_schema : z.Value → Option InventoryQuery
  sync_resources_schema v = do
    types ← at v "types" (z.optional (List ResourceType) (z.array ResourceType 0 resource_type))
    region ← at v "region" (z.optional String (z.string 1 none))
    some (record { types = types; region = region })

  unfoldable pub create_diagnostic_job_schema : z.Value → Option CreateInput
  create_diagnostic_job_schema v = do
    ids ← at v "resourceIds" (z.optional (List String) (z.array String 0 id_text))
    types ←
        at v "resourceTypes" (z.optional (List ResourceType) (z.array ResourceType 0 resource_type))
    key ← key_field v
    some (record { resource_ids = ids; resource_types = types; idempotency_key = key })

  unfoldable pub create_remediation_plan_schema : z.Value → Option PlanInput
  create_remediation_plan_schema v = do
    ids ← at v "findingIds" (z.array String 1 id_text)
    dry_run ← at v "dryRun" (z.default Bool true z.boolean)
    key ← key_field v
    some (record { finding_ids = ids; dry_run = dry_run; idempotency_key = key })

  -- No route uses this one.
  unfoldable pub approve_remediation_schema : z.Value → Option (Option String)
  approve_remediation_schema v = at v "note" (z.optional String (z.string 0 (some 500)))

  unfoldable pub execute_remediation_schema : z.Value → Option ExecuteInput
  execute_remediation_schema v = do
    token ← at v "approvalToken" (z.string 16 none)
    key ← key_field v
    some (record { approval_token = token; idempotency_key = key })

  unfoldable pub login_schema : z.Value → Option LoginInput
  login_schema v = do
    email ← at v "email" z.email
    password ← at v "password" (z.string 8 (some 128))
    some (record { email = email; password = password })

  unfoldable pub list_resources_query_schema : z.Value → Option ResourcesQuery
  list_resources_query_schema v = do
    page ← page_field v
    limit ← limit_field v
    type ← at v "type" (z.optional String (z.enum resource_type_names))
    region ← text_field v "region"
    q ← at v "q" (z.optional String (z.string 0 (some 120)))
    some (record { page = page; limit = limit; type = type; region = region; q = q })

  unfoldable pub list_jobs_query_schema : z.Value → Option JobsQuery
  list_jobs_query_schema v = do
    page ← page_field v
    limit ← limit_field v
    status ← text_field v "status"
    some (record { page = page; limit = limit; status = status })

  unfoldable pub list_findings_query_schema : z.Value → Option FindingsQuery
  list_findings_query_schema v = do
    page ← page_field v
    limit ← limit_field v
    severity ← text_field v "severity"
    resource_id ← text_field v "resourceId"
    job_id ← text_field v "jobId"
    some (record {
      page = page;
      limit = limit;
      severity = severity;
      resource_id = resource_id;
      job_id = job_id;
    })

  unfoldable pub list_recommendations_query_schema : z.Value → Option RecommendationsQuery
  list_recommendations_query_schema v = do
    page ← page_field v
    limit ← limit_field v
    action_type ←
        at v "actionType" (z.optional String (z.enum (allowlisted_actions ++ "manual_review" ∷ [])))
    job_id ← text_field v "jobId"
    some (record { page = page; limit = limit; action_type = action_type; job_id = job_id })

  unfoldable pub list_audit_query_schema : z.Value → Option AuditQuery
  list_audit_query_schema v = do
    page ← page_field v
    limit ← limit_field v
    action ← text_field v "action"
    actor_id ← text_field v "actorId"
    some (record { page = page; limit = limit; action = action; actor_id = actor_id })
