-- ===== src/Observability/Metrics.antt =====
-- packages/shared/src/observability/metrics.ts (observeHttp) and apps/api/src/middleware/metrics.ts.
-- A counter or a histogram of prom-client is the list of what it was given, with its labels; the
-- registry, the buckets and the gauges of the worker are left out. `decimal` of a status is a
-- parameter.
use cloudops_sentinel.Text.{template}
use cloudops_sentinel.Base.{
  ℕ, ◌+◌, String, ◌≡◌, ◌∙◌, Bool, ◌&&◌, Option, none, some, List, [], ◌∷◌, arith, ◌==◌, leb,
  if◌then◌else◌, length, count,
}

pub record HttpLabels : Type 0 where
  pub method : String
  pub route : String
  pub status_code : String

pub record HttpMetrics : Type 0 where
  pub http_request_duration : List (HttpLabels × ℕ)
  pub http_requests_total : List HttpLabels
  pub http_errors_total : List (String × String)

-- A finished response: what the middleware hands to `observeHttp`.
pub record Finished : Type 0 where
  pub method : String
  pub base_url : String
  pub route_path : Option String
  pub path : String
  pub status_code : ℕ
  pub duration : ℕ

-- The label of the route: the pattern of the route that served the request, or the path.
unfoldable pub route_label : Finished → String
route_label f = elim f.route_path [
  | none ↦ f.path
  | some p ↦ if p == "" then f.path else template (f.base_url ∷ p ∷ [])
]

module _ (decimal : ℕ → String) where
  unfoldable pub observe_http :
      (method route : String) (status_code duration : ℕ) → HttpMetrics → HttpMetrics
  observe_http method route status_code duration m =
      let labels : HttpLabels = record {
        method = method;
        route = route;
        status_code = decimal status_code;
      } in
      record {
        http_request_duration = (labels, duration) ∷ m.http_request_duration;
        http_requests_total = labels ∷ m.http_requests_total;
        http_errors_total =
            if leb 500 status_code
            then (method, route) ∷ m.http_errors_total
            else m.http_errors_total;
      }

  -- The middleware, over the responses that finish.
  unfoldable pub observe_all : List Finished → HttpMetrics → HttpMetrics
  observe_all [] m = m
  observe_all (f ∷ fs) m =
      observe_all fs (observe_http f.method (route_label f) f.status_code f.duration m)

  abbrev pub is_error_of : (method route : String) → Finished → Bool
  is_error_of method route f = f.method == method && route_label f == route && leb 500 f.status_code

  -- The counter of the errors of a method and a route grows by the responses of 500 or more that
  -- they had; every response is counted once, and its duration observed once.
  pub observe_all_lem :
      (method route : String) (fs : List Finished) (m : HttpMetrics)
      → let m' = observe_all fs m in
        (count (λ e. e.0 == method && e.1 == route) m'.http_errors_total
          ≡ count (is_error_of method route) fs
            + count (λ e. e.0 == method && e.1 == route) m.http_errors_total)
        × (length m'.http_requests_total ≡ length fs + length m.http_requests_total)
        × (length m'.http_request_duration ≡ length fs + length m.http_request_duration)
  unfolding observe_all observe_http
  observe_all_lem method route [] m = (omega arith, omega arith, omega arith)
  observe_all_lem method route (f ∷ fs) m =
      let next = observe_http f.method (route_label f) f.status_code f.duration m in
      let (errors, requests, durations) = observe_all_lem method route fs next in
      (errors ∙ ground arith, omega (arith, requests), omega (arith, durations))
