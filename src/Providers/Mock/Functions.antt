-- ===== src/Providers/Mock/Functions.antt =====
-- packages/shared/src/providers/mock.ts: the Lambda functions and the alarm of `buildMockInventory`.
use cloudops_sentinel.Base.{ℕ, String, false, some, [], ◌∷◌}
use cloudops_sentinel.Types.{lambda, cloudwatch}
use cloudops_sentinel.Types.Resource.{healthy}
use cloudops_sentinel.Resources.{Discovered}
use cloudops_sentinel.Providers.Aws.{no_metrics}
use cloudops_sentinel.Providers.Mock.{resource, no_config}

abbrev pub ingest_function : String → ℕ → Discovered
ingest_function workspace_id now = resource workspace_id now (record {
  type = lambda;
  region = "us-east-1";
  arn = "arn:aws:lambda:us-east-1:123456789012:function:ingest";
  name = "ingest";
  tags = ("Environment", "prod") ∷ ("Owner", "data") ∷ ("Service", "ingest") ∷ [];
  config = record no_config {
    backup_enabled = some false;
    alarms = some [];
    runtime = some "nodejs20.x";
    health_check_status = some healthy;
  };
  metrics = record no_metrics {
    error_rate = some 90;
    error_count = some 41;
    p99_latency_ms = some 1800;
    failure_rate_delta = some 40;
    request_count = some 15000;
  };
})

abbrev pub reports_function : String → ℕ → Discovered
reports_function workspace_id now = resource workspace_id now (record {
  type = lambda;
  region = "us-east-1";
  arn = "arn:aws:lambda:us-east-1:123456789012:function:reports";
  name = "reports";
  tags =
      ("Environment", "prod")
      ∷ ("Owner", "bi")
      ∷ ("CostCenter", "cc-300")
      ∷ ("Service", "reports")
      ∷ [];
  config = record no_config {
    backup_enabled = some false;
    alarms = some ("errors" ∷ "throttles" ∷ []);
    runtime = some "python3.12";
    health_check_status = some healthy;
  };
  metrics = record no_metrics {
    error_rate = some 4;
    error_count = some 3;
    p99_latency_ms = some 420;
    failure_rate_delta = some 0;
    request_count = some 4000;
  };
})

abbrev pub webhooks_function : String → ℕ → Discovered
webhooks_function workspace_id now = resource workspace_id now (record {
  type = lambda;
  region = "us-east-1";
  arn = "arn:aws:lambda:us-east-1:123456789012:function:webhooks";
  name = "webhooks";
  tags =
      ("Environment", "prod")
      ∷ ("Owner", "api")
      ∷ ("CostCenter", "cc-100")
      ∷ ("Service", "webhooks")
      ∷ [];
  config = record no_config {
    backup_enabled = some false;
    alarms = some ("duration" ∷ []);
    runtime = some "nodejs20.x";
    health_check_status = some healthy;
  };
  metrics = record no_metrics {
    error_rate = some 30;
    error_count = some 19;
    p99_latency_ms = some 700;
    failure_rate_delta = some 220;
    request_count = some 9000;
  };
})

abbrev pub cpu_high_alarm : String → ℕ → Discovered
cpu_high_alarm workspace_id now = resource workspace_id now (record {
  type = cloudwatch;
  region = "us-east-1";
  arn = "arn:aws:cloudwatch:us-east-1:123456789012:alarm:cpu-high";
  name = "cpu-high";
  tags =
      ("Environment", "prod")
      ∷ ("Owner", "sre")
      ∷ ("CostCenter", "cc-100")
      ∷ ("Service", "observability")
      ∷ [];
  config = record no_config { alarms = some ("cpu-high" ∷ []) };
  metrics = no_metrics;
})
