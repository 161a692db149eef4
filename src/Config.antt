-- ===== src/Config.antt =====
-- apps/api/src/config.ts and apps/worker/src/config.ts: the configuration that the environment gives.
-- What `Number` makes of a text is a parameter, `to_number`, nothing where zod refuses it; the fields
-- are whole numbers that are not negative, and `units` is the length of a text in UTF-16 units. Only what the
-- model reads of the configurations is kept.
pub mod Safe
use cloudops_sentinel.Base.{
  ℕ, String, Bool, true, false, ◌&&◌, Option, none, some, get_or, List, [], ◌∷◌, ◌==◌, leb,
  if◌then◌else◌, is_some,
}
use cloudops_sentinel.Types.Resource.{ProviderName, aws, mock}
use cloudops_sentinel.Db.{ApiConfig}
use cloudops_sentinel.Queue.{JobQueueConfig}
use cloudops_sentinel.Schemas.{◌>>=◌}

-- What the worker reads of its configuration.
pub record WorkerConfig : Type 0 where
  pub worker_id : String
  pub concurrency : ℕ
  pub queue : JobQueueConfig

abbrev pub Environment : Type 0
Environment = String → Option String

-- `{ ...process.env, ...overrides }`: an override counts also where it is undefined.
unfoldable pub spread : Environment → (overrides : String → Option (Option String)) → Environment
spread env overrides key = elim (overrides key) [ none ↦ env key | some value ↦ value ]

-- z.string().default(...).
abbrev pub text_or : (default : String) → Option String → String
text_or default value = get_or value default

-- z.string().default(...).transform((v) => v === 'true').
abbrev pub flag_or : (default : String) → Option String → Bool
flag_or default value = text_or default value == "true"

-- z.string().min(16).
abbrev pub secret_of : (units : String → ℕ) → Option String → Option String
secret_of units none = none
secret_of units (some s) = if leb 16 (units s) then some s else none

-- z.enum(['mock', 'aws']).default('mock').
abbrev pub provider_of : Option String → Option ProviderName
provider_of none = some mock
provider_of (some s) = if s == "mock" then some mock else if s == "aws" then some aws else none

-- A refusal of a field throws.
abbrev pub accepted : Bool → Option (Unit {0})
accepted true = some tt
accepted false = none

module _ (to_number : String → Option ℕ) where
  -- z.coerce.number().default(...).
  abbrev pub number_or : (default : ℕ) → Option String → Option ℕ
  number_or default none = some default
  number_or default (some s) = to_number s

  -- Fields that the model does not read must be numbers too.
  abbrev pub are_numbers : Environment → List String → Bool
  are_numbers env [] = true
  are_numbers env (key ∷ keys) = is_some (number_or 0 (env key)) && are_numbers env keys

  abbrev pub other_api_numbers : List String
  other_api_numbers =
      "API_PORT" ∷ "BCRYPT_ROUNDS" ∷ "DIAGNOSTICS_TIMEOUT_MS" ∷ "AWS_MAX_ATTEMPTS"
      ∷ "CB_FAILURE_THRESHOLD" ∷ "CB_RESET_TIMEOUT_MS" ∷ "RATE_LIMIT_WINDOW_MS" ∷ "RATE_LIMIT_MAX"
      ∷ []

  -- `envSchema.parse`; nothing where it throws.
  unfoldable pub parse_api : (units : String → ℕ) → Environment → Option ApiConfig
  parse_api units env = do
    checked ← accepted (are_numbers env other_api_numbers)
    secret ← secret_of units (env "JWT_SECRET")
    provider ← provider_of (env "CLOUD_PROVIDER")
    request_timeout ← number_or 4000 (env "AWS_REQUEST_TIMEOUT_MS")
    ttl ← number_or 900000 (env "APPROVAL_TTL_MS")
    attempts ← number_or 5 (env "WORKER_MAX_ATTEMPTS")
    job_timeout ← number_or 20000 (env "WORKER_JOB_TIMEOUT_MS")
    some (record {
      cloud_provider = provider;
      enable_aws_mutations = flag_or "false" (env "ENABLE_AWS_MUTATIONS");
      approval_ttl_ms = ttl;
      worker_max_attempts = attempts;
      worker_job_timeout_ms = job_timeout;
      aws_region = text_or "us-east-1" (env "AWS_REGION");
      aws_read_only = flag_or "true" (env "AWS_READ_ONLY");
      aws_request_timeout_ms = request_timeout;
      jwt_secret = secret;
      jwt_expires_in = text_or "8h" (env "JWT_EXPIRES_IN");
    })

  unfoldable pub load_config :
      (units : String → ℕ) (env : Environment) (overrides : String → Option (Option String))
      → Option ApiConfig
  load_config units env overrides = parse_api units (spread env overrides)

  abbrev pub other_worker_numbers : List String
  other_worker_numbers =
      "DIAGNOSTICS_TIMEOUT_MS" ∷ "WORKER_POLL_INTERVAL_MS" ∷ "WORKER_HEARTBEAT_MS"
      ∷ "WORKER_JOB_TIMEOUT_MS" ∷ "WORKER_METRICS_PORT" ∷ "CB_FAILURE_THRESHOLD"
      ∷ "CB_RESET_TIMEOUT_MS" ∷ []

  -- `workerEnvSchema.parse`, and the configuration that the queue is made with.
  unfoldable pub parse_worker : Environment → Option WorkerConfig
  parse_worker env = do
    checked ← accepted (are_numbers env other_worker_numbers)
    concurrency ← number_or 2 (env "WORKER_CONCURRENCY")
    lease ← number_or 30000 (env "WORKER_LEASE_MS")
    attempts ← number_or 5 (env "WORKER_MAX_ATTEMPTS")
    base ← number_or 500 (env "WORKER_BACKOFF_BASE_MS")
    top ← number_or 15000 (env "WORKER_BACKOFF_MAX_MS")
    some (record {
      worker_id = text_or "worker-1" (env "WORKER_ID");
      concurrency = concurrency;
      queue = record {
        lease_ms = lease;
        max_attempts = attempts;
        backoff_base_ms = base;
        backoff_max_ms = top;
      };
    })

  unfoldable pub load_worker_config :
      (env : Environment) (overrides : String → Option (Option String)) → Option WorkerConfig
  load_worker_config env overrides = parse_worker (spread env overrides)
