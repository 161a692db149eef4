-- ===== src/App/Served.antt =====
-- What a request to the application of app.ts may change, and what its answer says.
use cloudops_sentinel.Base.{
  ℕ, ◌≤◌, String, ◌≡◌, refl, ap, ◌⊎◌, inl, inr, true, false, Option, none, some, Bool-cases,
}
use cloudops_sentinel.Errors.{AppError, Result, ok, err}
use cloudops_sentinel.Errors.Handler.{
  ErrorBody, Thrown, app, other, error_handler-IsDiscreet, internal,
}
use cloudops_sentinel.Auth.{AuthClaims, Verified, auth_middleware}
use cloudops_sentinel.Db.{Db, Mongo, ApiConfig}
use cloudops_sentinel.Resources.{CloudProvider}
use cloudops_sentinel.Routes.{Request}
use cloudops_sentinel.Routes.Roles.{permits, handle_denies}
use cloudops_sentinel.App.{
  Headers, Incoming, Answer, refusal, correlation_id_of, respond, behind_auth, route, serve,
}

-- The body of an error carries the correlation id of the header, and says nothing of an error of the
-- server.
pub record IsDiscreet (answer : Answer) (body : ErrorBody) : Type 0 where
  pub same_id : body.correlation_id ≡ answer.correlation_id
  pub hides : 500 ≤ answer.status → (body.message ≡ internal) × (body.details ≡ none)

abbrev pub Discreet : Answer → Type 0
Discreet answer =
    (answer.error ≡ none)
    ⊎ ((body : ErrorBody) × (answer.error ≡ some body) × IsDiscreet answer body)

refusal-Discreet : (id : Option String) (thrown : Thrown) → Discreet (refusal id thrown)
refusal-Discreet id thrown =
    let (same, hides) = error_handler-IsDiscreet id thrown in
    inr (_, refl, record { same_id = same; hides = hides })

module _ (mongo : Mongo) (provider : CloudProvider) (config : ApiConfig) (sha256 : String → String)
    (duplicate_key : AppError) (jwt_verify : String → String → Verified)
    (trim : String → String) where
  -- The sender of a request is known, and has the permission that it needs.
  abbrev pub IsPermitted : Headers → Request → Type 0
  IsPermitted headers request =
      (auth : AuthClaims) × (auth_middleware jwt_verify config.jwt_secret headers.authorization
        ≡ ok auth)
      × (permits auth.role request ≡ true)

  -- What is asked of the answer to a request.
  abbrev IsSafe : (id : String) → Headers → Request → Db → Db × Answer → Type 0
  IsSafe id headers request d r =
      ((r.0 ≡ d) ⊎ IsPermitted headers request) × (r.1.correlation_id ≡ some id) × Discreet r.1

  respond-IsSafe :
      (id : String) (headers : Headers) (request : Request) (d : Db) (r : Db × Result ℕ)
      → (r.0 ≡ d) ⊎ IsPermitted headers request
      → IsSafe id headers request d (respond id r)
  unfolding respond
  respond-IsSafe id headers request d (d', ok status) kept = (kept, refl, inl refl)
  respond-IsSafe id headers request d (d', err e) kept =
      (kept, refl, refusal-Discreet (some id) (app e))

  behind_auth-IsSafe :
      (id : String) (headers : Headers) (request : Request) (d : Db) (r : Result AuthClaims)
      → auth_middleware jwt_verify config.jwt_secret headers.authorization ≡ r
      → IsSafe id headers request d
          (behind_auth mongo provider config sha256 duplicate_key jwt_verify trim id request r d)
  unfolding behind_auth
  behind_auth-IsSafe id headers request d (err e) known =
      (inl refl, refl, refusal-Discreet (some id) (app e))
  behind_auth-IsSafe id headers request d (ok auth) known =
      respond-IsSafe id headers request d _ (elim (Bool-cases (permits auth.role request)) [
        | inl may ↦ inr (auth, known, may)
        | inr may_not ↦ inl (
            ap (λ r. r.0)
              (handle_denies mongo provider config sha256 duplicate_key auth id d request may_not))
      ])

  -- A request changes the database only if its bearer token is accepted and the role in the token has
  -- the permission that the request needs, whatever the rest of the request holds. Every answer names
  -- the correlation id of the request in its header, except that to a body which could not be read;
  -- the body of an error names the same id as the header; and no answer of 500 or more tells the
  -- message or the details of the error.
  pub serve_safe :
      (req : Incoming) (uuid : String) (d : Db)
      → let (d', answer) =
          serve mongo provider config sha256 duplicate_key jwt_verify trim req uuid d in
        ((d' ≡ d) ⊎ IsPermitted req.headers req.request)
        × ((answer.correlation_id ≡ some (correlation_id_of trim req.headers uuid))
            ⊎ (req.body_accepted ≡ false))
        × Discreet answer
  unfolding serve route
  serve_safe req uuid d = elim (Bool-cases req.body_accepted) [
    | inr unread ↦ rw unread (inl refl, inr refl, refusal-Discreet none other)
    | inl read ↦ rw read (elim (Bool-cases req.rate_limited) [
      | inl limited ↦ rw limited (inl refl, inl refl, inl refl)
      | inr passes ↦
          let (kept, id, discreet) =
            behind_auth-IsSafe (correlation_id_of trim req.headers uuid) req.headers req.request d _
              refl in
          rw passes (kept, inl id, discreet)
    ])
  ]
