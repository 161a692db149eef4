-- ===== src/Providers/Mock/Buckets.antt =====
-- packages/shared/src/providers/mock.ts: the S3 buckets of `buildMockInventory`.
use cloudops_sentinel.Base.{ℕ, String, true, false, some, [], ◌∷◌, map}
use cloudops_sentinel.Types.{s3, required_tags}
use cloudops_sentinel.Resources.{Discovered}
use cloudops_sentinel.Providers.Aws.{no_metrics}
use cloudops_sentinel.Providers.Mock.{resource, no_config, cost_center_or_ops}

abbrev pub acme_public_assets : String → ℕ → Discovered
acme_public_assets workspace_id now = resource workspace_id now (record {
  type = s3;
  region = "us-east-1";
  arn = "arn:aws:s3:::acme-public-assets";
  name = "acme-public-assets";
  tags = ("Environment", "prod") ∷ ("Service", "cdn") ∷ [];
  config = record no_config {
    public_access = some true;
    backup_enabled = some false;
    alarms = some [];
    encryption = some false;
  };
  metrics = record no_metrics { request_count = some 400000 };
})

abbrev pub acme_logs_private : String → ℕ → Discovered
acme_logs_private workspace_id now = resource workspace_id now (record {
  type = s3;
  region = "us-east-1";
  arn = "arn:aws:s3:::acme-logs-private";
  name = "acme-logs-private";
  tags = map cost_center_or_ops required_tags;
  config = record no_config {
    public_access = some false;
    backup_enabled = some true;
    alarms = some ("replication-lag" ∷ []);
    encryption = some true;
  };
  metrics = record no_metrics { request_count = some 1200 };
})

abbrev pub acme_data_lake : String → ℕ → Discovered
acme_data_lake workspace_id now = resource workspace_id now (record {
  type = s3;
  region = "us-west-2";
  arn = "arn:aws:s3:::acme-data-lake";
  name = "acme-data-lake";
  tags =
      ("Environment", "prod")
      ∷ ("Owner", "analytics")
      ∷ ("CostCenter", "cc-300")
      ∷ ("Service", "lake")
      ∷ [];
  config = record no_config {
    public_access = some true;
    backup_enabled = some true;
    alarms = some [];
    encryption = some true;
  };
  metrics = record no_metrics { request_count = some 22000 };
})

abbrev pub acme_backups : String → ℕ → Discovered
acme_backups workspace_id now = resource workspace_id now (record {
  type = s3;
  region = "us-east-1";
  arn = "arn:aws:s3:::acme-backups";
  name = "acme-backups";
  tags =
      ("Environment", "prod")
      ∷ ("Owner", "sre")
      ∷ ("CostCenter", "cc-100")
      ∷ ("Service", "backup")
      ∷ [];
  config = record no_config {
    public_access = some false;
    backup_enabled = some true;
    alarms = some ("failed-jobs" ∷ []);
    encryption = some true;
  };
  metrics = record no_metrics { request_count = some 80 };
})
