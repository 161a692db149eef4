-- ===== src/Errors/Handler.antt =====
-- apps/api/src/middleware/error-handler.ts: the HTTP answer to a thrown error.
use cloudops_sentinel.Base.{
  ℕ, String, ◌≤◌, ◌≡◌, refl, ◌⊎◌, Bool, true, false, Option, none, some, leb, if◌then◌else◌, arith,
}
use cloudops_sentinel.Errors.{AppError, Details, app_error}

-- What reaches the handler: an `AppError`, or any other thrown value.
pub data Thrown : Type 0 where
  app : AppError → Thrown
  other : Thrown

pub record ErrorBody : Type 0 where
  pub code : String
  pub message : String
  pub details : Option Details
  pub correlation_id : Option String

pub record ErrorResponse : Type 0 where
  pub status : ℕ
  pub body : ErrorBody

abbrev pub internal : String
internal = "Internal server error"

unfoldable pub as_app_error : Thrown → AppError
as_app_error (app e) = e
as_app_error other = app_error (record {
  message = internal;
  status_code = some 500;
  code = some "INTERNAL_ERROR";
  retryable = none;
  details = none;
})

-- The second part says whether the error is logged.
unfoldable pub error_handler : Option String → Thrown → ErrorResponse × Bool
unfolding as_app_error
error_handler correlation_id thrown =
    let error = as_app_error thrown in
    (
      record {
        status = error.status_code;
        body = record {
          code = error.code;
          message = if leb 500 error.status_code then internal else error.message;
          details = if leb 500 error.status_code then none else error.details;
          correlation_id = correlation_id;
        };
      },
      leb 500 error.status_code,
    )

-- Whatever is thrown, an answer with a status of 500 or more holds the generic message and no
-- details, and the error is logged; any other answer holds the message and the details of the
-- thrown `AppError`, under its status and code, and nothing is logged.
pub error_handler_hides :
    (correlation_id : Option String) (thrown : Thrown)
    → let (response, logged) = error_handler correlation_id thrown in
      ((500 ≤ response.status)
        × (response.body.message ≡ internal)
        × (response.body.details ≡ none)
        × (logged ≡ true))
      ⊎ ((e : AppError) × (thrown ≡ app e)
          × (response.status ≡ e.status_code)
          × (response.body.code ≡ e.code)
          × (response.body.message ≡ e.message)
          × (response.body.details ≡ e.details)
          × (logged ≡ false))
unfolding error_handler
error_handler_hides correlation_id (app e) = ground arith
error_handler_hides correlation_id other = ground arith

-- The body of an answer carries the id of the request, and hides what is wrong with the server.
pub error_handler-IsDiscreet :
    (correlation_id : Option String) (thrown : Thrown)
    → let (response, logged) = error_handler correlation_id thrown in
      (response.body.correlation_id ≡ correlation_id)
      × (500 ≤ response.status
          → (response.body.message ≡ internal) × (response.body.details ≡ none))
unfolding error_handler
error_handler-IsDiscreet correlation_id (app e) = (refl, λ h. ground arith)
error_handler-IsDiscreet correlation_id other = (refl, λ h. ground arith)
