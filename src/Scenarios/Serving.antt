-- ===== src/Scenarios/Serving.antt =====
-- Queries and bodies of requests, logins, and seeded databases.
use cloudops_sentinel.Base.{
  min, ℕ, ◌-◌, ◌*◌, ◌≤◌, String, ◌≡◌, refl, ◌↔◌, Bool, true, false, none, some, [], ◌∷◌, Memᴰ,
  arith, ◌==◌, nat_eq, if◌then◌else◌, length, count,
}
use Prim.Native.String
use Prim.Native.String.{len}
use cloudops_sentinel.Text.{get}
use cloudops_sentinel.Types.{admin, viewer}
use cloudops_sentinel.Types.User.{User}
use cloudops_sentinel.Types.Plan.{Finding}
use cloudops_sentinel.Errors.{ok}
use cloudops_sentinel.Auth.{AuthClaims, Verified, throws, an_object, auth_middleware}
use cloudops_sentinel.Db.{Db}
use cloudops_sentinel.Jobs.{CreateInput}
use cloudops_sentinel.Remediation.Plans.{PlanInput}
use cloudops_sentinel.Remediation.Service.{ExecuteInput}
use cloudops_sentinel.Listing.{listing}
use cloudops_sentinel.Listing.Complete.{listing_lem}
use cloudops_sentinel.Query.{FindingsQuery, finding_filter}
use cloudops_sentinel.Schemas
use cloudops_sentinel.Schemas.{
  create_diagnostic_job_schema, create_remediation_plan_schema, execute_remediation_schema,
  LoginInput,
}
use cloudops_sentinel.Schemas.Bounds.{IsKey, IsPlanBody, bodies_in_range}
use cloudops_sentinel.Routes.Listings.{
  resources_route, jobs_route, findings_route, recommendations_route, audit_route,
}
use cloudops_sentinel.Routes.Paged.{Listed, listings_lem}
use cloudops_sentinel.Routes.Login.{LoginAnswer, login}
use cloudops_sentinel.Routes.Bearer.{LoggedIn, login_lem}
use cloudops_sentinel.Seed.{is_user_of}
use cloudops_sentinel.Seed.Identities.{seeded, demo_login}
use cloudops_sentinel.Seed.Again.{after_seed, seed_twice}
use cloudops_sentinel.Scenarios.Raw.{Raw, object, zod, in_order, sorted}
use cloudops_sentinel.Scenarios.Sample.{mongo, config, db, finding}

abbrev of_high : FindingsQuery
of_high = record { page = 1; limit = 2; severity = some "high"; resource_id = none; job_id = none }

abbrev in_ws : Finding → Bool
in_ws = finding_filter "ws" of_high

listing_lem_example :
    ((x : Finding)
      → ((page : ℕ) × (1 ≤ page) × Memᴰ x (listing in_order in_ws page 2 (finding ∷ [])).items)
        ↔ (Memᴰ x (finding ∷ []) × (in_ws x ≡ true)))
    × ((page : ℕ)
        → (length (listing in_order in_ws page 2 (finding ∷ [])).items
            ≡ min 2 (count in_ws (finding ∷ []) - (page - 1) * 2))
          × ((listing in_order in_ws page 2 (finding ∷ [])).total ≡ count in_ws (finding ∷ [])))
listing_lem_example = listing_lem in_order in_ws (finding ∷ []) 2 (omega arith) (λ page other. refl)

abbrev plan_body : Raw
plan_body = object (("findingIds", "f1") ∷ ("idempotencyKey", "key-of-p1") ∷ [])

-- A plan that does not say is a dry run.
plan_body_is_read :
    create_remediation_plan_schema zod plan_body
    ≡ some (record { finding_ids = "f1" ∷ []; dry_run = true; idempotency_key = "key-of-p1" })
unfolding create_remediation_plan_schema Schemas.◌>>=◌ get
plan_body_is_read = refl

bodies_in_range_example :
    ((i : CreateInput)
      → create_diagnostic_job_schema zod plan_body ≡ some i
      → IsKey zod i.idempotency_key)
    × ((i : PlanInput)
        → create_remediation_plan_schema zod plan_body ≡ some i
        → IsPlanBody zod plan_body i)
    × ((i : ExecuteInput)
        → execute_remediation_schema zod plan_body ≡ some i
        → (16 ≤ len i.approval_token) × IsKey zod i.idempotency_key)
bodies_in_range_example = bodies_in_range zod plan_body

abbrev bob : AuthClaims
bob = record { sub = "u2"; email = "bob@x.io"; role = admin; workspace_id = "ws" }

abbrev query : Raw
query = object (("limit", "10") ∷ ("severity", "high") ∷ [])

abbrev never : String → String → Bool
never pattern name = false

listings_lem_example :
    Listed
      (λ r. r.workspace_id)
      "ws"
      db.resources
      db
      (resources_route zod sorted bob never query db)
    × Listed (λ j. j.workspace_id) "ws" db.jobs db (jobs_route zod sorted bob query db)
    × Listed (λ f. f.workspace_id) "ws" db.findings db (findings_route zod sorted bob query db)
    × Listed
        (λ r. r.workspace_id)
        "ws"
        db.recommendations
        db
        (recommendations_route zod sorted bob query db)
    × Listed (λ a. a.workspace_id) "ws" db.audits db (audit_route zod sorted bob query db)
listings_lem_example = listings_lem zod sorted bob query db never

-- A token library that signs for one user.
abbrev sign : AuthClaims → String → String → String
sign c secret expires_in = "token-of-carol"

abbrev read : String → String → Verified
read token secret =
    if token == "token-of-carol"
    then an_object (record {
      sub = some "u3";
      email = some "carol@x.io";
      role = some admin;
      workspace_id = some "ws";
    })
    else throws

abbrev same_text : String → String
same_text s = s

abbrev carol : User
carol = record {
  id = "u3";
  workspace_id = "ws";
  email = "carol@x.io";
  role = admin;
  password_hash = "hashed-pass-word";
  active = true;
}

abbrev with_carol : Db
with_carol = record db { users = carol ∷ [] }

abbrev entered : LoginInput
entered = record { email = "carol@x.io"; password = "hashed-pass-word" }

login_lem_example :
    LoggedIn mongo config same_text ◌==◌ sign entered with_carol
      (login mongo config same_text ◌==◌ sign entered with_carol)
    × ((answer : LoginAnswer)
        → (login mongo config same_text ◌==◌ sign entered with_carol).1 ≡ ok answer
        → auth_middleware read config.jwt_secret (some (String.◌++◌ "Bearer " answer.token))
          ≡ ok (record {
            sub = answer.user.id;
            email = answer.user.email;
            role = answer.user.role;
            workspace_id = answer.user.workspace_id;
          }))
login_lem_example =
    login_lem mongo config same_text ◌==◌ sign read entered with_carol (refl, tt)
      ((refl, refl, refl), tt)

abbrev numbered : ℕ → String
numbered n = if nat_eq n 0 then "d0" else if nat_eq n 1 then "d1" else "d2"

-- An address with a role, a hash and an activity that the seed changes, and another user.
abbrev stale : User
stale = record {
  id = "u1";
  workspace_id = "ws";
  email = "admin@cloudops.local";
  role = viewer;
  password_hash = "old";
  active = false;
}

abbrev stale_db : Db
stale_db = record db {
  users =
      stale
      ∷ record stale { id = "u2"; workspace_id = "other"; email = "bob@example.com"; active = true }
      ∷ [];
}

stale_single : (other : String) → count (is_user_of "ws" other) stale_db.users ≤ 1
stale_single other = ground arith

demo_login_example :
    (answer : LoginAnswer) × (login mongo config same_text ◌==◌ sign
        (record { email = "admin@cloudops.local"; password = "demo" })
        (seeded mongo config same_text ◌==◌ sign "ws" "acme" "demo" numbered 5 stale_db)
      ≡ (seeded mongo config same_text ◌==◌ sign "ws" "acme" "demo" numbered 5 stale_db, ok answer))
    × (answer.user.email ≡ "admin@cloudops.local")
    × (answer.user.role ≡ admin)
    × (answer.user.workspace_id ≡ "ws")
unfolding get
demo_login_example =
    demo_login mongo config same_text ◌==◌ sign "ws" "acme" "demo" numbered 5 stale_db
      "admin@cloudops.local" admin "demo" ((λ r e. refl), ((λ r e. absurd (cc e)), tt)) stale_single
      refl refl refl

seed_twice_example :
    let once = after_seed mongo config sign "ws" "acme" "demo" numbered 5 db in
    let twice = after_seed mongo config sign "ws" "acme" "other" numbered 9 once in
    (length twice.workspaces ≡ length once.workspaces)
    × (length twice.users ≡ length once.users)
    × (length twice.resources ≡ length once.resources)
seed_twice_example =
    seed_twice mongo config sign "ws" "acme" "demo" "other" numbered numbered 5 9 db
