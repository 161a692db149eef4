-- ===== src/Scenarios/Cloud.antt =====
-- Listings of an account, and syncs of a workspace.
use cloudops_sentinel.Base.{ℕ, String, true, none, some, [], ◌∷◌, nat_eq, if◌then◌else◌}
use cloudops_sentinel.Types.{ec2}
use cloudops_sentinel.Types.Resource.{aws}
use cloudops_sentinel.Db.{ApiConfig}
use cloudops_sentinel.Resources.{InventoryQuery, sync}
use cloudops_sentinel.Providers.Aws.{
  AwsApi, AwsProvider, Failure, Instance, replies, throws, times_out,
}
use cloudops_sentinel.Providers.Aws.Listing.{list_resources}
use cloudops_sentinel.Providers.Aws.Listed.{Listing, list_resources-Listing}
use cloudops_sentinel.Providers.Factory.Synced.{SyncOutcome, configured, sync-SyncOutcome}
use cloudops_sentinel.Scenarios.Sample.{mongo, config, db}

abbrev instance_1 : Instance
instance_1 = record {
  instance_id = some "i-1";
  tags = some (record { key = some "Name"; value = some "web" } ∷ []);
  public_ip_address = none;
  state_name = some "running";
}

abbrev throttled : Failure
throttled = record { name = some "Throttling"; message = "Rate exceeded" }

-- Buckets cannot be listed, and the load of an instance cannot be read.
abbrev account : AwsApi
account = record {
  describe_instances = replies (some (record { instances = some (instance_1 ∷ []) } ∷ []));
  get_metric_statistics = λ id. times_out;
  list_buckets = throws throttled;
  get_bucket_location = λ b. times_out;
  get_bucket_tagging = λ b. times_out;
  get_public_access_block = λ b. times_out;
  list_functions = replies none;
  list_tags = λ a. times_out;
  list_metrics = replies (some (record { metric_name = none } ∷ []));
}

abbrev show : ℕ → String
show n = if nat_eq n 0 then "0" else "4000"

abbrev provider : AwsProvider
provider = record {
  region = "eu-west-1";
  workspace_id = "ws";
  timeout_ms = 4000;
  read_only = true;
  decimal = show;
}

abbrev instances_only : InventoryQuery
instances_only = record { types = some (ec2 ∷ []); region = none }

list_resources-Listing_example :
    Listing provider account 7 (ec2 ∷ []) (list_resources provider account 7 instances_only)
list_resources-Listing_example = list_resources-Listing provider account 7 instances_only

abbrev numbered : ℕ → String
numbered n = if nat_eq n 0 then "r8" else "r9"

abbrev in_aws : ApiConfig
in_aws = record config { cloud_provider = aws }

sync-SyncOutcome_example : SyncOutcome in_aws show account 7 "ws" mongo instances_only db (
    sync mongo
      (configured in_aws show account 7 "ws")
      "ws"
      "ann"
      "corr"
      instances_only
      numbered
      7
      db)
sync-SyncOutcome_example =
    sync-SyncOutcome in_aws show account 7 "ws" mongo "ann" "corr" instances_only numbered db
