-- ===== src/Lib.antt =====
-- CloudOps Sentinel: a model of the shared package, the API's services and the middleware around
-- them. The API authenticates a request, checks its role and calls a service; the services share a
-- MongoDB database with the workers, who take diagnostic jobs from a queue; a remediation plan is
-- made from the findings, approved with a token, and executed once.
--
-- Which file models what:
--   Errors, Errors/Handler: packages/shared/src/errors.ts and
--     apps/api/src/middleware/error-handler.ts. Code that throws returns a Result.
--   Types and its parts: packages/shared/src/constants.ts and types/index.ts, as the models store
--     the documents.
--   Observability/Backoff, Retry, Timeout, Breaker, Metrics: retry.ts (withRetry, withTimeout,
--     exponentialBackoffWithJitter), circuit-breaker.ts (class CircuitBreaker) and metrics.ts
--     (observeHttp) of packages/shared/src/observability, and apps/api/src/middleware/metrics.ts.
--   Store: the collections. `Collection` is what the code relies on in MongoDB: `findOne` finds some
--     document that matches if there is one, and `find` lists those that match. An update of one
--     document is atomic, `updateMany` changes the documents that match, and an insertion adds a
--     document to the collection.
--   Queue: packages/shared/src/jobs/queue.ts (class JobQueue: claim, heartbeat, complete, fail,
--     recoverAbandoned, pendingDepth). Queue/History runs operations of any workers in sequence,
--     Queue/Tries those of a job that fails again and again.
--   Listing: the paged listings of the services. Query: apps/api/src/services/query-service.ts, and
--     `list` of resource-service.ts.
--   Jobs: apps/api/src/services/job-service.ts (class JobService: create, list, get, retry).
--   Resources: apps/api/src/services/resource-service.ts (class ResourceService: sync, get), with the
--     interface of packages/shared/src/providers/types.ts and the filters of providers/mock.ts.
--   Providers: packages/shared/src/providers. Aws is aws.ts, Mock with its parts the inventory of
--     mock.ts, Factory factory.ts and `providerFor` of resource-service.ts.
--   Diagnostics: packages/shared/src/diagnostics/client.ts (class DiagnosticsClient).
--   Processor: apps/worker/src/processor.ts (class JobProcessor: processNext, run).
--   Worker: apps/worker/src/index.ts, the loop and the shutdown around the processor, as a function
--     of events that come in any order: the recovery or the inner loop of a round, a step of a call in
--     flight, a signal.
--   Auth: packages/shared/src/auth/index.ts and apps/api/src/middleware/auth.ts.
--   Db: the database that the services share, the monad of code that writes and throws,
--     packages/shared/src/audit/record.ts and db/connection.ts.
--   Remediation/Engine: packages/shared/src/remediation/engine.ts.
--   Remediation/Plans, Approvals, Actions, Execute: apps/api/src/services/remediation-service.ts
--     (createPlan, approve, the loop of execute, execute). Remediation/History runs calls in sequence.
--   Schemas: packages/shared/src/schemas.ts over the validation library as a parameter, `Zod`.
--   Routes: apps/api/src/routes/api.ts and middleware/validate.ts. Routes/Listings has the listings,
--     Routes/Login is routes/auth.ts. In Routes itself a body is what its schema makes of it.
--   App: apps/api/src/app.ts and middleware/correlation.ts: a request through the middleware.
--   Config: apps/api/src/config.ts and apps/worker/src/config.ts.
--   Seed: apps/api/src/seed.ts.
--   Base, Text: helpers and text operations. Scenarios: concrete runs.
--
-- Conventions: a date is its milliseconds and the time of a call an argument; so are the ids that
-- the database gives, random numbers and the text of a new token. SHA-256, bcrypt, the JSON web
-- token library, zod, the SDK of AWS, the database's sorted searches and its search by a regular
-- expression are parameters; ties of a sort may come in another order in each query. An id that is
-- looked up is well formed: mongoose throws on a malformed one, which the API answers with a 500, and
-- the model finds nothing. Percentages and rates are in thousandths. Numbers are natural numbers
-- without a bound, as the source's stay far below 2^53. The loops are over lists of actions, or
-- over the attempts that are left: withRetry runs on its maximum of attempts as fuel, which is the
-- bound of its own loop; the inner loop of the worker runs on the number of calls that may be in
-- flight. A service call runs with no other in between, but for `create` of the job service, whose
-- interference is an argument; calls of the breaker overlap.
--
-- Not modelled: documentation, logging, the metrics of the worker, the passing of time in timers,
-- and start-up, which are input and output; the declarations of the models, which are mongoose's;
-- the Python service and the infrastructure.
pub mod Base
pub mod Errors
pub mod Observability
pub mod Store
pub mod Types
pub mod Queue
pub mod Listing
pub mod Query
pub mod Jobs
pub mod Resources
pub mod Text
pub mod Auth
pub mod Db
pub mod Remediation
pub mod Providers
pub mod Diagnostics
pub mod Processor
pub mod Schemas
pub mod Routes
pub mod App
pub mod Config
pub mod Seed
pub mod Worker
pub mod Scenarios
