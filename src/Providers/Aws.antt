-- ===== src/Providers/Aws.antt =====
-- packages/shared/src/providers/aws.ts: the answers of the AWS SDK that the class AwsProvider reads,
-- how a call is sent, and what is made of one item of an answer. What the calls of the SDK come to,
-- the time limit included, is a parameter. Averages are in thousandths.
pub mod Listing
pub mod Shown
pub mod Answers
pub mod Listed
use cloudops_sentinel.Base.{
  ℕ, ◌+◌, ◌*◌, ◌/◌, String, Bool, true, false, not, ◌&&◌, Option, none, some, get_or, List, [], ◌∷◌,
  ◌==◌, nat_eq, if◌then◌else◌, length,
}
use cloudops_sentinel.Text.{template, includes, put}
use cloudops_sentinel.Types.Resource.{Tags, ResourceMetrics}
use cloudops_sentinel.Providers.{ProviderError, provider_error, Provided, provided, failed}

-- What a thrown value shows: its `name`, if it has one, and its message.
pub record Failure : Type 0 where
  pub name : Option String
  pub message : String

-- What a call of the SDK comes to: an answer, an error, or nothing before the time limit.
pub data Reply (A : Type 0) : Type 0 where
  replies : A → Reply A
  throws : Failure → Reply A
  times_out : Reply A

pub record AwsTag : Type 0 where
  pub key : Option String
  pub value : Option String

pub record Instance : Type 0 where
  pub instance_id : Option String
  pub tags : Option (List AwsTag)
  pub public_ip_address : Option String
  pub state_name : Option String

pub record Reservation : Type 0 where
  pub instances : Option (List Instance)

pub record Datapoint : Type 0 where
  pub average : Option ℕ

pub record Bucket : Type 0 where
  pub name : Option String

pub record PublicAccessBlock : Type 0 where
  pub block_public_acls : Option Bool
  pub block_public_policy : Option Bool
  pub ignore_public_acls : Option Bool
  pub restrict_public_buckets : Option Bool

pub record LambdaFunction : Type 0 where
  pub function_name : Option String
  pub function_arn : Option String
  pub runtime : Option String

pub record Metric : Type 0 where
  pub metric_name : Option String

-- The account that is read during one listing.
pub record AwsApi : Type 0 where
  pub describe_instances : Reply (Option (List Reservation))
  pub get_metric_statistics : (instance_id : String) → Reply (Option (List Datapoint))
  pub list_buckets : Reply (Option (List Bucket))
  pub get_bucket_location : (bucket : String) → Reply (Option String)
  pub get_bucket_tagging : (bucket : String) → Reply (Option (List AwsTag))
  pub get_public_access_block : (bucket : String) → Reply (Option PublicAccessBlock)
  pub list_functions : Reply (Option (List LambdaFunction))
  pub list_tags : (arn : String) → Reply (Option Tags)
  pub list_metrics : Reply (Option (List Metric))

-- What the constructor keeps; the text of a number in a template literal is a field too.
pub record AwsProvider : Type 0 where
  pub region : String
  pub workspace_id : String
  pub timeout_ms : ℕ
  pub read_only : Bool
  pub decimal : ℕ → String

abbrev pub throttle_names : List String
throttle_names =
    "Throttling" ∷ "ThrottlingException" ∷ "TooManyRequestsException" ∷ "TimeoutError" ∷ []

unfoldable pub is_throttle : Failure → Bool
is_throttle e = includes (get_or e.name "") throttle_names

unfoldable pub wrap : Failure → (action : String) → ProviderError
wrap e action =
    provider_error (template ("AWS " ∷ action ∷ " failed: " ∷ e.message ∷ []))
      (some (is_throttle e)) (some (if is_throttle e then "THROTTLED" else "AWS_ERROR"))

module _ (aws : AwsProvider) where
  -- The `Error` that `withTimeout` rejects with.
  unfoldable pub timeout_failure : (label : String) → Failure
  timeout_failure label = record {
    name = some "Error";
    message =
        template ("AWS " ∷ label ∷ " timed out after " ∷ aws.decimal aws.timeout_ms ∷ "ms" ∷ []);
  }

  unfoldable pub send : {A : Type 0} → (label : String) → Reply A → Provided A
  send label (replies a) = provided a
  send label (throws e) = failed (wrap e label)
  send label times_out = failed (wrap (timeout_failure label) label)

-- `try { ... } catch { return default }`.
abbrev pub or_default : {A B : Type 0} → (A → B) → B → Provided A → B
or_default f default (provided a) = f a
or_default f default (failed e) = default

-- `Object.fromEntries` of the tags: of several tags with one key the last one counts.
abbrev pub tags_from : Tags → List AwsTag → Tags
tags_from acc [] = acc
tags_from acc (t ∷ ts) = tags_from (put (get_or t.key "") (get_or t.value "") acc) ts

abbrev pub tags_of : Option (List AwsTag) → Tags
tags_of ts = tags_from [] (get_or ts [])

abbrev pub no_metrics : ResourceMetrics
no_metrics = record {
  cpu_utilization_avg = none;
  consecutive_low_utilization_periods = none;
  error_rate = none;
  error_count = none;
  p99_latency_ms = none;
  failure_rate_delta = none;
  request_count = none;
}

abbrev pub sum_averages : List Datapoint → ℕ
sum_averages [] = 0
sum_averages (p ∷ ps) = get_or p.average 0 + sum_averages ps

-- The mean of the averages, rounded to hundredths, in thousandths.
unfoldable pub mean : List Datapoint → ℕ
mean points =
    if nat_eq (length points) 0
    then 0
    else 10 * ((sum_averages points + 5 * length points) / (10 * length points))

-- All four settings have to be on for a bucket to be closed to the public.
unfoldable pub leaves_public : Option PublicAccessBlock → Bool
leaves_public none = true
leaves_public (some cfg) = not (
    get_or cfg.block_public_acls false
    && get_or cfg.block_public_policy false
    && get_or cfg.ignore_public_acls false
    && get_or cfg.restrict_public_buckets false)

-- `loc.LocationConstraint || 'us-east-1'`.
abbrev pub region_of : Option String → String
region_of none = "us-east-1"
region_of (some r) = if r == "" then "us-east-1" else r

abbrev pub is_running_state : Option String → Bool
is_running_state none = false
is_running_state (some s) = s == "running"

abbrev pub is_public_ip : Option String → Bool
is_public_ip none = false
is_public_ip (some ip) = not (ip == "")
