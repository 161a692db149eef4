-- ===== src/Types/Resource.antt =====
-- packages/shared/src/types/index.ts: `CloudResource` and its parts. Percentages and rates are in
-- thousandths; the fields that mongoose keeps (createdAt, updatedAt) and `raw` are left out.
use cloudops_sentinel.Base.{ℕ, String, Bool, Option, List}
use cloudops_sentinel.Types.{ResourceType}

pub data ProviderName : Type 0 where
  aws mock : ProviderName

pub data HealthStatus : Type 0 where
  healthy unhealthy unknown : HealthStatus

-- Record<string, string>.
abbrev pub Tags : Type 0
Tags = List (String × String)

-- `alarms` may be missing in a stored document, whose config has no schema.
pub record ResourceConfig : Type 0 where
  pub public_access : Option Bool
  pub backup_enabled : Option Bool
  pub alarms : Option (List String)
  pub health_check_status : Option HealthStatus
  pub instance_state : Option String
  pub runtime : Option String
  pub encryption : Option Bool

pub record ResourceMetrics : Type 0 where
  pub cpu_utilization_avg : Option ℕ
  pub consecutive_low_utilization_periods : Option ℕ
  pub error_rate : Option ℕ
  pub error_count : Option ℕ
  pub p99_latency_ms : Option ℕ
  pub failure_rate_delta : Option ℕ
  pub request_count : Option ℕ

pub record CloudResource : Type 0 where
  pub id : String
  pub workspace_id : String
  pub provider : ProviderName
  pub type : ResourceType
  pub region : String
  pub arn : String
  pub name : String
  pub tags : Tags
  pub config : ResourceConfig
  pub metrics : ResourceMetrics
  pub last_synced_at : ℕ
  pub version : ℕ
