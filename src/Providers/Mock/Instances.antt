-- ===== src/Providers/Mock/Instances.antt =====
-- packages/shared/src/providers/mock.ts: the EC2 instances of `buildMockInventory`.
use cloudops_sentinel.Base.{ℕ, String, true, false, some, [], ◌∷◌}
use cloudops_sentinel.Types.{ec2}
use cloudops_sentinel.Types.Resource.{healthy, unhealthy, unknown}
use cloudops_sentinel.Resources.{Discovered}
use cloudops_sentinel.Providers.Aws.{no_metrics}
use cloudops_sentinel.Providers.Mock.{resource, no_config}

abbrev pub web_prod_1 : String → ℕ → Discovered
web_prod_1 workspace_id now = resource workspace_id now (record {
  type = ec2;
  region = "us-east-1";
  arn = "arn:aws:ec2:us-east-1:123456789012:instance/i-web-prod-1";
  name = "i-web-prod-1";
  tags = ("Environment", "prod") ∷ ("Owner", "platform") ∷ ("Service", "web") ∷ [];
  config = record no_config {
    public_access = some false;
    backup_enabled = some false;
    alarms = some ("cpu-high" ∷ []);
    health_check_status = some healthy;
    instance_state = some "running";
  };
  metrics = record no_metrics {
    cpu_utilization_avg = some 3200;
    consecutive_low_utilization_periods = some 6;
    error_rate = some 10;
    error_count = some 4;
    p99_latency_ms = some 180;
    failure_rate_delta = some 0;
    request_count = some 12000;
  };
})

abbrev pub api_prod_2 : String → ℕ → Discovered
api_prod_2 workspace_id now = resource workspace_id now (record {
  type = ec2;
  region = "us-east-1";
  arn = "arn:aws:ec2:us-east-1:123456789012:instance/i-api-prod-2";
  name = "i-api-prod-2";
  tags =
      ("Environment", "prod")
      ∷ ("Owner", "api")
      ∷ ("CostCenter", "cc-100")
      ∷ ("Service", "checkout-api")
      ∷ [];
  config = record no_config {
    public_access = some false;
    backup_enabled = some true;
    alarms = some ("5xx" ∷ []);
    health_check_status = some unhealthy;
    instance_state = some "running";
  };
  metrics = record no_metrics {
    cpu_utilization_avg = some 62000;
    consecutive_low_utilization_periods = some 0;
    error_rate = some 140;
    error_count = some 88;
    p99_latency_ms = some 2400;
    failure_rate_delta = some 180;
    request_count = some 54000;
  };
})

abbrev pub batch_dev_3 : String → ℕ → Discovered
batch_dev_3 workspace_id now = resource workspace_id now (record {
  type = ec2;
  region = "us-west-2";
  arn = "arn:aws:ec2:us-west-2:123456789012:instance/i-batch-dev-3";
  name = "i-batch-dev-3";
  tags = [];
  config = record no_config {
    public_access = some false;
    backup_enabled = some false;
    alarms = some [];
    health_check_status = some unknown;
    instance_state = some "running";
  };
  metrics = record no_metrics {
    cpu_utilization_avg = some 18000;
    consecutive_low_utilization_periods = some 1;
    error_rate = some 0;
    error_count = some 0;
    p99_latency_ms = some 90;
    failure_rate_delta = some 0;
    request_count = some 200;
  };
})

abbrev pub db_prod : String → ℕ → Discovered
db_prod workspace_id now = resource workspace_id now (record {
  type = ec2;
  region = "us-east-1";
  arn = "arn:aws:ec2:us-east-1:123456789012:instance/i-db-prod";
  name = "i-db-prod";
  tags =
      ("Environment", "prod")
      ∷ ("Owner", "data")
      ∷ ("CostCenter", "cc-200")
      ∷ ("Service", "postgres")
      ∷ [];
  config = record no_config {
    public_access = some false;
    backup_enabled = some false;
    alarms = some ("disk" ∷ []);
    health_check_status = some healthy;
    instance_state = some "running";
  };
  metrics = record no_metrics {
    cpu_utilization_avg = some 41000;
    consecutive_low_utilization_periods = some 0;
    error_rate = some 2;
    error_count = some 2;
    p99_latency_ms = some 40;
    failure_rate_delta = some 0;
    request_count = some 8000;
  };
})

abbrev pub cache_prod : String → ℕ → Discovered
cache_prod workspace_id now = resource workspace_id now (record {
  type = ec2;
  region = "us-east-1";
  arn = "arn:aws:ec2:us-east-1:123456789012:instance/i-cache-prod";
  name = "i-cache-prod";
  tags =
      ("Environment", "prod")
      ∷ ("Owner", "platform")
      ∷ ("CostCenter", "cc-100")
      ∷ ("Service", "redis")
      ∷ [];
  config = record no_config {
    public_access = some false;
    backup_enabled = some true;
    alarms = some [];
    health_check_status = some healthy;
    instance_state = some "running";
  };
  metrics = record no_metrics {
    cpu_utilization_avg = some 33000;
    consecutive_low_utilization_periods = some 0;
    error_rate = some 0;
    error_count = some 0;
    p99_latency_ms = some 12;
    failure_rate_delta = some 0;
    request_count = some 90000;
  };
})
