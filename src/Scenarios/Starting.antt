-- ===== src/Scenarios/Starting.antt =====
-- An environment that the API starts in.
use cloudops_sentinel.Base.{
  ℕ, ◌≤◌, String, ◌≡◌, refl, ◌↔◌, true, false, Option, none, some, ◌==◌, if◌then◌else◌,
}
use Prim.Native.String.{len}
use cloudops_sentinel.Types.Resource.{aws, mock}
use cloudops_sentinel.Db.{ApiConfig}
use cloudops_sentinel.Schemas.{◌>>=◌}
use cloudops_sentinel.Config.{
  Environment, spread, parse_api, load_config, parse_worker, load_worker_config,
}
use cloudops_sentinel.Config.Safe.{load_config_safe}

-- The texts here are ASCII, where a unit is a byte.
abbrev ttl_number : String → Option ℕ
ttl_number s = if s == "600" then some 600 else none

-- The flag is not the text "true", and so not set.
abbrev environment : Environment
environment key =
    if key == "JWT_SECRET"
    then some "a-secret-of-the-api"
    else if key == "APPROVAL_TTL_MS"
    then some "600"
    else if key == "ENABLE_AWS_MUTATIONS"
    then some "yes"
    else none

abbrev overriding : String → Option (Option String)
overriding key = if key == "AWS_REGION" then some (some "eu-west-1") else none

abbrev loaded : ApiConfig
loaded = record {
  cloud_provider = mock;
  enable_aws_mutations = false;
  approval_ttl_ms = 600;
  worker_max_attempts = 5;
  worker_job_timeout_ms = 20000;
  aws_region = "eu-west-1";
  aws_read_only = true;
  aws_request_timeout_ms = 4000;
  jwt_secret = "a-secret-of-the-api";
  jwt_expires_in = "8h";
}

it_loads : load_config ttl_number len environment overriding ≡ some loaded
unfolding load_config parse_api spread ◌>>=◌
it_loads = refl

load_config_safe_example :
    (16 ≤ len loaded.jwt_secret)
    × ((loaded.cloud_provider ≡ aws)
        ↔ (spread environment overriding "CLOUD_PROVIDER" ≡ some "aws"))
    × ((loaded.enable_aws_mutations ≡ true)
        ↔ (spread environment overriding "ENABLE_AWS_MUTATIONS" ≡ some "true"))
load_config_safe_example = load_config_safe ttl_number len environment overriding loaded it_loads

-- The defaults of the worker.
worker_defaults :
    load_worker_config ttl_number environment overriding
    ≡ some (record {
      worker_id = "worker-1";
      concurrency = 2;
      queue = record {
        lease_ms = 30000;
        max_attempts = 5;
        backoff_base_ms = 500;
        backoff_max_ms = 15000;
      };
    })
unfolding load_worker_config parse_worker spread ◌>>=◌
worker_defaults = refl
