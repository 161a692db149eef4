-- ===== src/App.antt =====
-- apps/api/src/app.ts, with middleware/correlation.ts: the health routes, and a request to the router
-- of api.ts through the middleware before it. Whether the body of the request is accepted by
-- `express.json` and whether the rate limiter refuses the request are parts of the request, as the
-- libraries decide them; `trim` of a text is a parameter. Logs, metrics, documentation and the headers
-- of helmet and cors are left out.
pub mod Served
use cloudops_sentinel.Base.{ℕ, String, Bool, not, ◌&&◌, Option, none, some, ltb, if◌then◌else◌}
use Prim.Native.String.{len}
use cloudops_sentinel.Errors.{AppError, Result, ok, err}
use cloudops_sentinel.Errors.Handler.{ErrorBody, Thrown, app, other, error_handler}
use cloudops_sentinel.Auth.{AuthClaims, Verified, is_blank, auth_middleware}
use cloudops_sentinel.Db.{Db, Mongo, ApiConfig}
use cloudops_sentinel.Observability.Breaker.{CircuitState, CircuitBreaker, get_state}
use cloudops_sentinel.Observability.Timeout.{Awaited}
use cloudops_sentinel.Diagnostics
use cloudops_sentinel.Diagnostics.{Response}
use cloudops_sentinel.Resources.{CloudProvider}
use cloudops_sentinel.Routes.{Request, handle}

pub record Headers : Type 0 where
  pub authorization : Option String
  pub x_correlation_id : Option String
  pub x_request_id : Option String

-- `req.header(a) || req.header(b)`.
abbrev pub incoming : Headers → Option String
incoming h = if is_blank h.x_correlation_id then h.x_request_id else h.x_correlation_id

-- The id that `correlationMiddleware` gives a request, with the UUID that it may make.
unfoldable pub correlation_id_of : (trim : String → String) → Headers → (uuid : String) → String
correlation_id_of trim h uuid = elim (incoming h) [
  | none ↦ uuid
  | some id ↦ if ltb 0 (len id) && ltb 0 (len (trim id)) then trim id else uuid
]

-- A check of the readiness: the status, the words of the checks, and the state of the breaker.
pub record Readiness : Type 0 where
  pub status_code : ℕ
  pub status : String
  pub mongodb : String
  pub diagnostics : String
  pub circuit_breaker : CircuitState

-- `/health/ready`; `mongo_ready` is whether the connection is open.
unfoldable pub health_ready :
    CircuitBreaker
    → (mongo_ready : Bool) → Awaited Response
    → (now : ℕ) → CircuitBreaker × Readiness
health_ready breaker mongo_ready probe now =
    let (breaker', state) = get_state breaker now in
    (
      breaker',
      record {
        status_code = if mongo_ready then 200 else 503;
        status = if mongo_ready then "ready" else "not_ready";
        mongodb = if mongo_ready then "ok" else "down";
        diagnostics = if Diagnostics.ready probe then "ok" else "degraded";
        circuit_breaker = state;
      },
    )

-- An answer: its status, the body of an error, and the header x-correlation-id.
pub record Answer : Type 0 where
  pub status : ℕ
  pub error : Option ErrorBody
  pub correlation_id : Option String

-- What the error handler answers.
abbrev pub refusal : (correlation_id : Option String) → Thrown → Answer
refusal correlation_id thrown =
    let (response, logged) = error_handler correlation_id thrown in
    record { status = response.status; error = some response.body; correlation_id = correlation_id }

-- The answer to what a handler returns or throws.
unfoldable pub respond : (correlation_id : String) → Db × Result ℕ → Db × Answer
respond id (d, ok status) = (d, record { status = status; error = none; correlation_id = some id })
respond id (d, err e) = (d, refusal (some id) (app e))

-- A request to the router, and what the libraries before it make of it.
pub record Incoming : Type 0 where
  pub headers : Headers
  pub body_accepted : Bool
  pub rate_limited : Bool
  pub request : Request

module _ (mongo : Mongo) (provider : CloudProvider) (config : ApiConfig) (sha256 : String → String)
    (duplicate_key : AppError) (jwt_verify : String → String → Verified)
    (trim : String → String) where
  -- The router after `authMiddleware` has called `next`, and the error handler behind both.
  unfoldable pub behind_auth :
      (correlation_id : String) → Request → Result AuthClaims → Db → Db × Answer
  behind_auth id request (err e) d = (d, refusal (some id) (app e))
  behind_auth id request (ok auth) d =
      respond id (handle mongo provider config sha256 duplicate_key auth id request d)

  unfoldable pub route : (correlation_id : String) → Headers → Request → Db → Db × Answer
  route id headers request d =
      behind_auth id request (auth_middleware jwt_verify config.jwt_secret headers.authorization) d

  -- The application: the body is read before the request has a correlation id.
  unfoldable pub serve : Incoming → (uuid : String) → Db → Db × Answer
  serve req uuid d =
      let id = correlation_id_of trim req.headers uuid in
      if not req.body_accepted
      then (d, refusal none other)
      else if req.rate_limited
      then (d, record { status = 429; error = none; correlation_id = some id })
      else route id req.headers req.request d
