-- ===== src/Providers/Mock.antt =====
-- packages/shared/src/providers/mock.ts: how an entry of the seeded inventory is built. The entries
-- are in the modules below, with rates and percentages in thousandths.
pub mod Instances
pub mod Buckets
pub mod Functions
pub mod Inventory
use cloudops_sentinel.Base.{ℕ, String, none, ◌==◌, if◌then◌else◌}
use cloudops_sentinel.Types.{ResourceType}
use cloudops_sentinel.Types.Resource.{mock, Tags, ResourceConfig, ResourceMetrics}
use cloudops_sentinel.Resources.{Discovered}

-- The parameter object of `resource`, but for the workspace.
pub record Entry : Type 0 where
  pub type : ResourceType
  pub region : String
  pub arn : String
  pub name : String
  pub tags : Tags
  pub config : ResourceConfig
  pub metrics : ResourceMetrics

abbrev pub resource : (workspace_id : String) (now : ℕ) → Entry → Discovered
resource workspace_id now partial = record {
  workspace_id = workspace_id;
  provider = mock;
  type = partial.type;
  region = partial.region;
  arn = partial.arn;
  name = partial.name;
  tags = partial.tags;
  config = partial.config;
  metrics = partial.metrics;
  last_synced_at = now;
  version = 1;
}

abbrev pub no_config : ResourceConfig
no_config = record {
  public_access = none;
  backup_enabled = none;
  alarms = none;
  health_check_status = none;
  instance_state = none;
  runtime = none;
  encryption = none;
}

-- The tags of acme-logs-private, for each of the required ones.
abbrev pub cost_center_or_ops : String → String × String
cost_center_or_ops t = (t, if t == "CostCenter" then "cc-100" else "ops")
