-- ===== src/Observability/Timeout.antt =====
-- packages/shared/src/observability/retry.ts: `withTimeout`.
use cloudops_sentinel.Base.{String}
use cloudops_sentinel.Errors.{Result, err, plain_error}

-- A promise against a time limit: it settles first, or the limit is over first.
pub data Awaited (T : Type 0) : Type 0 where
  settles : Result T → Awaited T
  hangs : Awaited T

unfoldable pub with_timeout : {T : Type 0} → Awaited T → (message : String) → Result T
with_timeout (settles r) message = r
with_timeout hangs message = err (plain_error message)
