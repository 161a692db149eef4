-- ===== src/Diagnostics.antt =====
-- packages/shared/src/diagnostics/client.ts: the class DiagnosticsClient. What a call of `fetch` comes
-- to is an argument; the addresses and the bodies that are sent are left out.
use cloudops_sentinel.Base.{ℕ, String, Bool, false, ◌&&◌, List, [], ◌∷◌, leb, if◌then◌else◌}
use cloudops_sentinel.Errors.{Result, ok, err, dependency_error}
use cloudops_sentinel.Text.{template}
use cloudops_sentinel.Types.{FindingSeverity}
use cloudops_sentinel.Observability.Breaker.{CircuitBreaker, exec}
use cloudops_sentinel.Observability.Timeout.{Awaited, with_timeout}

pub record EngineFinding : Type 0 where
  pub resource_id : String
  pub rule_id : String
  pub severity : FindingSeverity
  pub title : String
  pub description : String
  pub evidence : String
  pub action_type : String
  pub explanation : String
  pub estimated_impact : String
  pub confidence : ℕ

-- An answer of the service: its status, with its text, and what `response.json()` comes to.
pub record Response : Type 0 where
  pub status : ℕ
  pub status_text : String
  pub json : Result (List EngineFinding)

-- `response.ok`.
abbrev pub is_ok : Response → Bool
is_ok response = leb 200 response.status && leb response.status 299

-- The part of the function behind the breaker that follows the call.
abbrev pub read_response : Response → Result (List EngineFinding)
read_response response =
    if is_ok response
    then response.json
    else err (
        dependency_error (template ("Diagnostics returned HTTP " ∷ response.status_text ∷ []))
          (leb 500 response.status))

unfoldable pub fetch_findings : Awaited Response → Result (List EngineFinding)
fetch_findings fetched = elim (with_timeout fetched "Diagnostics service timed out") [
  | err e ↦ err e
  | ok response ↦ read_response response
]

unfoldable pub analyze :
    CircuitBreaker
    → (now done : ℕ) → Awaited Response
    → CircuitBreaker × Result (List EngineFinding)
analyze breaker now done fetched = exec breaker now done (fetch_findings fetched)

unfoldable pub ready : Awaited Response → Bool
ready fetched = elim (with_timeout fetched "Diagnostics readiness timed out") [
  | err e ↦ false
  | ok response ↦ is_ok response
]
