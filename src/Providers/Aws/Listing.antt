-- ===== src/Providers/Aws/Listing.antt =====
-- packages/shared/src/providers/aws.ts: `listResources` of the class AwsProvider and the listings
-- that it is made of.
use cloudops_sentinel.Base.{
  ◌==◌, ℕ, suc, String, Bool, true, false, Option, none, some, get_or, List, [], ◌∷◌, ◌++◌, map,
  if◌then◌else◌, take, any,
}
use cloudops_sentinel.Text.{template, get}
use cloudops_sentinel.Types.{ResourceType, type_eq, ec2, s3, lambda, cloudwatch}
use cloudops_sentinel.Types.Resource.{aws, Tags, healthy, unknown}
use cloudops_sentinel.Resources.{Discovered, InventoryQuery}
use cloudops_sentinel.Providers.{◌>>=◌, Provided, provided}
use cloudops_sentinel.Providers.Aws.{
  AwsApi, AwsProvider, Instance, Reservation, Bucket, LambdaFunction, Metric, send, or_default,
  tags_of, no_metrics, mean, leaves_public, region_of, is_running_state, is_public_ip,
}

abbrev pub all_types : List ResourceType
all_types = ec2 ∷ s3 ∷ lambda ∷ cloudwatch ∷ []

-- `if (types.includes(type)) collected.push(...(await listing))`.
unfoldable pub if_asked :
    List ResourceType → ResourceType → Provided (List Discovered) → Provided (List Discovered)
if_asked types type listing = if any (type_eq type) types then listing else provided []

module _ (p : AwsProvider) (api : AwsApi) (now : ℕ) where
  unfoldable pub cpu_for_instance : (instance_id : String) → ℕ
  cpu_for_instance instance_id =
      or_default (λ points. mean (get_or points [])) 0
        (send p "GetMetricStatistics" (api.get_metric_statistics instance_id))

  unfoldable pub ec2_resource : Instance → Discovered
  ec2_resource instance' =
      let id = get_or instance'.instance_id "unknown" in
      let tags = tags_of instance'.tags in
      record {
        workspace_id = p.workspace_id;
        provider = aws;
        type = ec2;
        region = p.region;
        arn = template ("arn:aws:ec2:" ∷ p.region ∷ ":instance/" ∷ id ∷ []);
        name = get_or (get "Name" tags) id;
        tags = tags;
        config = record {
          public_access = some (is_public_ip instance'.public_ip_address);
          backup_enabled = some false;
          alarms = some [];
          health_check_status =
              some (if is_running_state instance'.state_name then healthy else unknown);
          instance_state = instance'.state_name;
          runtime = none;
          encryption = none;
        };
        metrics = record no_metrics { cpu_utilization_avg = some (cpu_for_instance id) };
        last_synced_at = now;
        version = 1;
      }

  unfoldable pub ec2_resources : List Reservation → List Discovered
  ec2_resources [] = []
  ec2_resources (r ∷ rs) = map ec2_resource (get_or r.instances []) ++ ec2_resources rs

  unfoldable pub list_ec2 : Provided (List Discovered)
  list_ec2 = do
    out ← send p "DescribeInstances" api.describe_instances
    provided (ec2_resources (get_or out []))

  unfoldable pub bucket_region : (bucket : String) → String
  bucket_region bucket =
      or_default region_of p.region (send p "GetBucketLocation" (api.get_bucket_location bucket))

  unfoldable pub bucket_tags : (bucket : String) → Tags
  bucket_tags bucket =
      or_default tags_of [] (send p "GetBucketTagging" (api.get_bucket_tagging bucket))

  -- A bucket whose settings cannot be read counts as public.
  unfoldable pub bucket_public_access : (bucket : String) → Bool
  bucket_public_access bucket =
      or_default leaves_public true
        (send p "GetPublicAccessBlock" (api.get_public_access_block bucket))

  unfoldable pub s3_resource : Bucket → Discovered
  s3_resource bucket =
      let name = get_or bucket.name "unknown" in
      record {
        workspace_id = p.workspace_id;
        provider = aws;
        type = s3;
        region = bucket_region name;
        arn = template ("arn:aws:s3:::" ∷ name ∷ []);
        name = name;
        tags = bucket_tags name;
        config = record {
          public_access = some (bucket_public_access name);
          backup_enabled = some false;
          alarms = some [];
          health_check_status = none;
          instance_state = none;
          runtime = none;
          encryption = none;
        };
        metrics = no_metrics;
        last_synced_at = now;
        version = 1;
      }

  unfoldable pub list_s3 : Provided (List Discovered)
  list_s3 = do
    listed ← send p "ListBuckets" api.list_buckets
    provided (map s3_resource (get_or listed []))

  -- The tags are read only of a function that has a name of its own, and a name that is not empty.
  unfoldable pub function_tags : Option String → Tags
  function_tags none = []
  function_tags (some arn) =
      if arn == ""
      then []
      else or_default (λ tags. get_or tags []) [] (send p "ListTags" (api.list_tags arn))

  -- `GetFunction` is sent too; its answer and its errors are dropped.
  unfoldable pub lambda_resource : LambdaFunction → Discovered
  lambda_resource fn =
      let name = get_or fn.function_name "unknown" in
      record {
        workspace_id = p.workspace_id;
        provider = aws;
        type = lambda;
        region = p.region;
        arn = get_or fn.function_arn name;
        name = name;
        tags = function_tags fn.function_arn;
        config = record {
          public_access = none;
          backup_enabled = some false;
          alarms = some [];
          health_check_status = some unknown;
          instance_state = none;
          runtime = fn.runtime;
          encryption = none;
        };
        metrics = no_metrics;
        last_synced_at = now;
        version = 1;
      }

  unfoldable pub list_lambda : Provided (List Discovered)
  list_lambda = do
    listed ← send p "ListFunctions" api.list_functions
    provided (map lambda_resource (get_or listed []))

  unfoldable pub metric_resource : (idx : ℕ) → Metric → Discovered
  metric_resource idx m = record {
    workspace_id = p.workspace_id;
    provider = aws;
    type = cloudwatch;
    region = p.region;
    arn = template (
        "arn:aws:cloudwatch:"
        ∷ p.region
        ∷ ":metric/"
        ∷ get_or m.metric_name "metric"
        ∷ "-"
        ∷ p.decimal idx
        ∷ []);
    name = get_or m.metric_name (template ("metric-" ∷ p.decimal idx ∷ []));
    tags = [];
    config = record {
      public_access = none;
      backup_enabled = none;
      alarms = some (get_or m.metric_name "metric" ∷ []);
      health_check_status = none;
      instance_state = none;
      runtime = none;
      encryption = none;
    };
    metrics = no_metrics;
    last_synced_at = now;
    version = 1;
  }

  unfoldable pub metric_resources : (idx : ℕ) → List Metric → List Discovered
  metric_resources idx [] = []
  metric_resources idx (m ∷ ms) = metric_resource idx m ∷ metric_resources (suc idx) ms

  unfoldable pub list_alarms : Provided (List Discovered)
  list_alarms = do
    metrics ← send p "ListMetrics" api.list_metrics
    provided (metric_resources 0 (take 20 (get_or metrics [])))

  -- Every error of a listing is a `ProviderError` already, and is thrown on.
  unfoldable pub list_resources : InventoryQuery → Provided (List Discovered)
  list_resources query = do
    let types = get_or query.types all_types
    instances ← if_asked types ec2 list_ec2
    buckets ← if_asked types s3 list_s3
    functions ← if_asked types lambda list_lambda
    alarms ← if_asked types cloudwatch list_alarms
    provided (instances ++ buckets ++ functions ++ alarms)
