-- ===== src/Scenarios/Sample.antt =====
-- Documents to run the services on, in a database that finds the first document that matches.
use cloudops_sentinel.Base.{true, false, none, some, [], ◌∷◌}
use cloudops_sentinel.Db.{Db, Mongo, ApiConfig}
use cloudops_sentinel.Types.{JobStatus, approved, ec2, high}
use cloudops_sentinel.Types.Resource.{CloudResource, mock, ResourceConfig, ResourceMetrics}
use cloudops_sentinel.Types.Job.{DiagnosticJob, StructuredFailure, JobResultSummary}
use cloudops_sentinel.Types.Plan.{RemediationAction, RemediationPlan, ApprovalToken, Finding}
use cloudops_sentinel.Queue.{JobQueueConfig}
use cloudops_sentinel.Observability.Backoff.{Fraction}
use cloudops_sentinel.Scenarios.FirstMatch.{collection}

abbrev pub mongo : Mongo
mongo = record {
  job_docs = collection;
  resource_docs = collection;
  finding_docs = collection;
  recommendation_docs = collection;
  plan_docs = collection;
  approval_docs = collection;
  execution_docs = collection;
  user_docs = collection;
  workspace_docs = collection;
}

abbrev pub config : ApiConfig
config = record {
  cloud_provider = mock;
  enable_aws_mutations = false;
  approval_ttl_ms = 900;
  worker_max_attempts = 3;
  worker_job_timeout_ms = 60;
  aws_region = "us-east-1";
  aws_read_only = true;
  aws_request_timeout_ms = 4000;
  jwt_secret = "a-secret-of-the-api";
  jwt_expires_in = "8h";
}

abbrev pub queue_config : JobQueueConfig
queue_config = record {
  lease_ms = 30;
  max_attempts = 3;
  backoff_base_ms = 10;
  backoff_max_ms = 100;
}

abbrev pub half : Fraction
half = record { num = 1; den = 2 }

abbrev pub waiting_job : DiagnosticJob
waiting_job = record {
  id = "j1";
  workspace_id = "ws";
  status = JobStatus.pending;
  resource_ids = none;
  resource_types = none;
  idempotency_key = "key-of-j1";
  correlation_id = "corr";
  lease_until = none;
  heartbeat_at = none;
  claimed_by = none;
  attempts = 0;
  max_attempts = 3;
  next_run_at = 5;
  last_error = none;
  result_summary = none;
  created_by = "ann";
  created_at = 5;
  completed_at = none;
  timeout_ms = 60;
  version = 1;
}

abbrev pub running_job : DiagnosticJob
running_job = record waiting_job {
  status = JobStatus.running;
  claimed_by = some "w1";
  lease_until = some 40;
  attempts = 1;
  version = 2;
}

abbrev pub dead_job : DiagnosticJob
dead_job = record waiting_job { status = JobStatus.dead_lettered; attempts = 3 }

abbrev pub timeout : StructuredFailure
timeout = record {
  code = "TIMEOUT";
  message = "timed out";
  retryable = true;
  cause = none;
  at = 20;
}

abbrev pub summary : JobResultSummary
summary = record { resources_scanned = 2; findings_created = 1; recommendations_created = 1 }

abbrev pub no_config : ResourceConfig
no_config = record {
  public_access = some true;
  backup_enabled = none;
  alarms = none;
  health_check_status = none;
  instance_state = none;
  runtime = none;
  encryption = none;
}

abbrev pub no_metrics : ResourceMetrics
no_metrics = record {
  cpu_utilization_avg = none;
  consecutive_low_utilization_periods = none;
  error_rate = some 90;
  error_count = none;
  p99_latency_ms = none;
  failure_rate_delta = none;
  request_count = none;
}

abbrev pub bucket : CloudResource
bucket = record {
  id = "r1";
  workspace_id = "ws";
  provider = mock;
  type = ec2;
  region = "us";
  arn = "arn:r1";
  name = "bucket";
  tags = [];
  config = no_config;
  metrics = no_metrics;
  last_synced_at = 1;
  version = 1;
}

abbrev pub add_tag : RemediationAction
add_tag = record {
  action_type = "add_missing_tag";
  resource_id = "r1";
  finding_id = "f1";
  params = [];
}

abbrev pub restrict : RemediationAction
restrict = record add_tag { action_type = "restrict_public_storage" }

abbrev pub plan : RemediationPlan
plan = record {
  id = "p1";
  workspace_id = "ws";
  finding_ids = "f1" ∷ [];
  actions = add_tag ∷ restrict ∷ [];
  dry_run = false;
  status = approved;
  created_by = "ann";
  correlation_id = "corr";
  idempotency_key = "key-of-p1";
  version = 1;
}

abbrev pub token : ApprovalToken
token = record {
  id = "t1";
  workspace_id = "ws";
  plan_id = "p1";
  token_hash = "secret";
  expires_at = 900;
  used_at = none;
  created_by = "bob";
}

abbrev pub finding : Finding
finding = record {
  id = "f1";
  workspace_id = "ws";
  job_id = "j1";
  resource_id = "r1";
  rule_id = "resource.missing_tags";
  severity = high;
  title = "no owner";
  description = "the owner tag is missing";
  evidence = "";
  correlation_id = "corr";
}

abbrev pub db : Db
db = record {
  jobs = waiting_job ∷ [];
  resources = bucket ∷ [];
  findings = finding ∷ [];
  recommendations = [];
  plans = plan ∷ [];
  approvals = token ∷ [];
  executions = [];
  audits = [];
  users = [];
  workspaces = [];
}
