-- ===== src/Providers/Aws/Answers.antt =====
-- Each listing of aws.ts by itself, by what its call of the SDK comes to.
use cloudops_sentinel.Base.{
  min, ℕ, zero, suc, ◌+◌, String, ◌≡◌, refl, Option, none, some, get_or, List, [], ◌∷◌, map, arith,
  length, take, length-append, length-map, All, All-append,
}
use cloudops_sentinel.Types.{ResourceType, ec2, s3, lambda, cloudwatch}
use cloudops_sentinel.Types.Resource.{aws}
use cloudops_sentinel.Resources.{Discovered}
use cloudops_sentinel.Providers.{◌>>=◌, Provided, provided, failed}
use cloudops_sentinel.Providers.Aws.{
  Failure, Reply, replies, throws, times_out, Reservation, Metric, AwsApi, AwsProvider,
  timeout_failure, wrap, send,
}
use cloudops_sentinel.Providers.Aws.Shown.{
  Pairs, instances_of, ShowsInstance, ShowsBucket, ShowsFunction, ShowsMetric, instances-Pairs,
  buckets-Pairs, functions-Pairs, metrics-Pairs,
}
use cloudops_sentinel.Providers.Aws.Listing.{
  ec2_resource, ec2_resources, list_ec2, s3_resource, list_s3, lambda_resource, list_lambda,
  metric_resource, metric_resources, list_alarms,
}

abbrev pub instances_in : List Reservation → ℕ
instances_in [] = 0
instances_in (r ∷ rs) = length (get_or r.instances []) + instances_in rs

abbrev pub answer_of : {A : Type 0} → Reply (Option (List A)) → List A
answer_of (replies a) = get_or a []
answer_of _ = []

-- The call that lists the resources of a type.
abbrev pub call_label : ResourceType → String
call_label ec2 = "DescribeInstances"
call_label s3 = "ListBuckets"
call_label lambda = "ListFunctions"
call_label cloudwatch = "ListMetrics"

module _ (p : AwsProvider) (api : AwsApi) (now : ℕ) where
  abbrev pub failure_in : {A : Type 0} → (label : String) → Reply A → Option Failure
  failure_in label (replies a) = none
  failure_in label (throws e) = some e
  failure_in label times_out = some (timeout_failure p label)

  -- How that call fails, if it does.
  abbrev pub call_failure : ResourceType → Option Failure
  call_failure ec2 = failure_in (call_label ec2) api.describe_instances
  call_failure s3 = failure_in (call_label s3) api.list_buckets
  call_failure lambda = failure_in (call_label lambda) api.list_functions
  call_failure cloudwatch = failure_in (call_label cloudwatch) api.list_metrics

  -- How many resources it reports; of the metrics the first twenty count.
  abbrev pub reported : ResourceType → ℕ
  reported ec2 = instances_in (answer_of api.describe_instances)
  reported s3 = length (answer_of api.list_buckets)
  reported lambda = length (answer_of api.list_functions)
  reported cloudwatch = min 20 (length (answer_of api.list_metrics))

  unfoldable pub listing_of : ResourceType → Provided (List Discovered)
  listing_of ec2 = list_ec2 p api now
  listing_of s3 = list_s3 p api now
  listing_of lambda = list_lambda p api now
  listing_of cloudwatch = list_alarms p api now

  -- A resource of the account, of a type.
  abbrev pub IsOfType : ResourceType → Discovered → Type 0
  IsOfType t i =
      (i.type ≡ t)
      × (i.workspace_id ≡ p.workspace_id)
      × (i.provider ≡ aws)
      × (i.last_synced_at ≡ now)

  All-map :
      {A : Type 0} (t : ResourceType) (f : A → Discovered)
      → ((a : A) → IsOfType t (f a))
      → (l : List A) → All (IsOfType t) (map f l)
  All-map t f h [] = tt
  All-map t f h (a ∷ l) = (h a, All-map t f h l)

  ec2-All :
      (rs : List Reservation)
      → All (IsOfType ec2) (ec2_resources p api now rs)
        × (length (ec2_resources p api now rs) ≡ instances_in rs)
  unfolding ec2_resources ec2_resource
  ec2-All [] = (tt, refl)
  ec2-All (r ∷ rs) =
      let here = map (ec2_resource p api now) (get_or r.instances []) in
      let (rest, n) = ec2-All rs in
      (
        All-append (IsOfType ec2) here (ec2_resources p api now rs)
            (All-map ec2 (ec2_resource p api now) (λ a. (refl, refl, refl, refl))
              (get_or r.instances []))
            rest,
        omega (
          arith,
          n,
          length-append here (ec2_resources p api now rs),
          length-map (ec2_resource p api now) (get_or r.instances []),
        ),
      )

  metrics-All :
      (n idx : ℕ) (ms : List Metric)
      → All (IsOfType cloudwatch) (metric_resources p api now idx (take n ms))
        × (length (metric_resources p api now idx (take n ms)) ≡ min n (length ms))
  unfolding metric_resources metric_resource
  metrics-All zero idx ms = (tt, omega arith)
  metrics-All (suc n) idx [] = (tt, omega arith)
  metrics-All (suc n) idx (m ∷ ms) =
      let (rest, e) = metrics-All n (suc idx) ms in
      (((refl, refl, refl, refl), rest), omega (arith, e))

  -- What is reported of a type, item for item.
  abbrev pub Shown : ResourceType → List Discovered → Type 0
  Shown ec2 = Pairs (ShowsInstance p api now) (instances_of (answer_of api.describe_instances))
  Shown s3 = Pairs (ShowsBucket p api now) (answer_of api.list_buckets)
  Shown lambda = Pairs (ShowsFunction p api now) (answer_of api.list_functions)
  Shown cloudwatch = Pairs (ShowsMetric p api now) (take 20 (answer_of api.list_metrics))

  -- One listing, by how its call fails, how many resources that reports, and what they show.
  pub data OneListing (t : ResourceType) (label : String) (failure : Option Failure) (n : ℕ)
      (Shows : List Discovered → Type 0) (r : Provided (List Discovered)) : Type 0 where
    got :
        (items : List Discovered)
        → r ≡ provided items
        → failure ≡ none
        → All (IsOfType t) items
        → length items ≡ n
        → Shows items
        → OneListing t label failure n Shows r
    lost :
        (e : Failure)
        → r ≡ failed (wrap e label)
        → failure ≡ some e
        → OneListing t label failure n Shows r

  sent-OneListing :
      {A : Type 0} (t : ResourceType) (label : String) (reply : Reply (Option (List A)))
      (f : List A → List Discovered) (n : List A → ℕ) (Shows : List A → List Discovered → Type 0)
      → ((l : List A) → All (IsOfType t) (f l) × (length (f l) ≡ n l))
      → ((l : List A) → Shows l (f l))
      → OneListing t label
          (failure_in label reply)
          (n (answer_of reply))
          (Shows (answer_of reply))
          (send p label reply >>= λ out. provided (f (get_or out [])))
  unfolding send
  sent-OneListing t label (replies a) f n Shows h shows =
      got (f (get_or a [])) refl refl (h (get_or a [])).0 (h (get_or a [])).1 (shows (get_or a []))
  sent-OneListing t label (throws e) f n Shows h shows = lost e refl refl
  sent-OneListing t label times_out f n Shows h shows = lost (timeout_failure p label) refl refl

  mapped :
      {A : Type 0} (t : ResourceType) (f : A → Discovered)
      → ((a : A) → IsOfType t (f a))
      → (l : List A) → All (IsOfType t) (map f l) × (length (map f l) ≡ length l)
  mapped t f h l = (All-map t f h l, length-map f l)

  abbrev pub OneOf : ResourceType → Provided (List Discovered) → Type 0
  OneOf t r = OneListing t (call_label t) (call_failure t) (reported t) (Shown t) r

  pub listing_of-OneListing : (t : ResourceType) → OneOf t (listing_of t)
  unfolding listing_of list_ec2 list_s3 list_lambda list_alarms s3_resource lambda_resource
  listing_of-OneListing ec2 =
      sent-OneListing ec2 (call_label ec2) api.describe_instances (ec2_resources p api now)
        instances_in (λ l. Pairs (ShowsInstance p api now) (instances_of l)) ec2-All
        (instances-Pairs p api now)
  listing_of-OneListing s3 =
      sent-OneListing s3 (call_label s3) api.list_buckets (map (s3_resource p api now)) length
        (Pairs (ShowsBucket p api now))
        (mapped s3 (s3_resource p api now) (λ b. (refl, refl, refl, refl)))
        (buckets-Pairs p api now)
  listing_of-OneListing lambda =
      sent-OneListing lambda (call_label lambda) api.list_functions
        (map (lambda_resource p api now)) length (Pairs (ShowsFunction p api now))
        (mapped lambda (lambda_resource p api now) (λ b. (refl, refl, refl, refl)))
        (functions-Pairs p api now)
  listing_of-OneListing cloudwatch =
      sent-OneListing cloudwatch (call_label cloudwatch) api.list_metrics
        (λ l. metric_resources p api now 0 (take 20 l)) (λ l. min 20 (length l))
        (λ l. Pairs (ShowsMetric p api now) (take 20 l)) (metrics-All 20 0)
        (λ l. metrics-Pairs p api now 0 (take 20 l))
