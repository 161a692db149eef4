-- ===== src/Errors.antt =====
-- packages/shared/src/errors.ts: the error classes, and the result of code that throws them.
-- A subclass is told by its `name`; `details` is an object of text fields.
pub mod Handler
use cloudops_sentinel.Base.{
  ℕ, String, ◌≡◌, refl, Bool, true, false, Option, none, some, get_or, List,
}

abbrev pub Details : Type 0
Details = List (String × String)

pub record AppError : Type 0 where
  pub name : String
  pub message : String
  pub status_code : ℕ
  pub code : String
  pub retryable : Bool
  pub details : Option Details

-- The constructor's parameter object.
pub record AppErrorParams : Type 0 where
  pub message : String
  pub status_code : Option ℕ
  pub code : Option String
  pub retryable : Option Bool
  pub details : Option Details

abbrev pub app_error : AppErrorParams → AppError
app_error params = record {
  name = "AppError";
  message = params.message;
  status_code = get_or params.status_code 500;
  code = get_or params.code "INTERNAL_ERROR";
  retryable = get_or params.retryable false;
  details = params.details;
}

abbrev pub named : String → ℕ → String → String → Option Bool → Option Details → AppError
named name status code message retryable details =
    let base = app_error (record {
      message = message;
      status_code = some status;
      code = some code;
      retryable = retryable;
      details = details;
    }) in
    record base { name = name }

abbrev pub validation_error : String → Option Details → AppError
validation_error message details =
    named "ValidationError" 400 "VALIDATION_ERROR" message none details

abbrev pub unauthorized_error : String → AppError
unauthorized_error message = named "UnauthorizedError" 401 "UNAUTHORIZED" message none none

abbrev pub forbidden_error : String → AppError
forbidden_error message = named "ForbiddenError" 403 "FORBIDDEN" message none none

abbrev pub not_found_error : String → AppError
not_found_error message = named "NotFoundError" 404 "NOT_FOUND" message none none

abbrev pub conflict_error : String → Option Details → AppError
conflict_error message details = named "ConflictError" 409 "CONFLICT" message none details

abbrev pub dependency_error : String → Bool → AppError
dependency_error message retryable =
    named "DependencyError" 503 "DEPENDENCY_UNAVAILABLE" message (some retryable) none

-- An `Error` that is not an AppError, as its readers see it: the worker reads the name and the message,
-- and the error handler answers it under this status and code.
abbrev pub plain_error : String → AppError
plain_error message = record {
  name = "Error";
  message = message;
  status_code = 500;
  code = "INTERNAL_ERROR";
  retryable = false;
  details = none;
}

-- The value of code that returns, or the error that it throws.
pub data Result {ℓ} (A : Type ℓ) : Type ℓ where
  ok : A → Result A
  err : AppError → Result A

-- The statements after one that may throw, as `do` chains them.
abbrev pub and_then {ℓ κ} : {X : Type ℓ} {Y : Type κ} → (X → Result Y) → Result X → Result Y
and_then next (err thrown) = err thrown
and_then next (ok value) = next value

infixl 5 ◌>>◌ ◌>>=◌
abbrev pub ◌>>◌ {ℓ} : {Y : Type ℓ} → Result (Unit {0}) → Result Y → Result Y
first >> second = and_then (λ u. second) first

abbrev pub ◌>>=◌ {ℓ κ} : {X : Type ℓ} {Y : Type κ} → Result X → (X → Result Y) → Result Y
first >>= next = and_then next first

-- `if (!b) throw e`.
abbrev pub guard : Bool → AppError → Result (Unit {0})
guard true e = ok tt
guard false e = err e

-- A chain returns only where each part does.
pub and_then-ok {ℓ κ} :
    {X : Type ℓ} {Y : Type κ} (next : X → Result Y) (first : Result X) {y : Y}
    → and_then next first ≡ ok y
    → (x : X) × (next x ≡ ok y) × (first ≡ ok x)
and_then-ok next (err thrown) returned = cc
and_then-ok next (ok value) returned = (value, returned, refl)
