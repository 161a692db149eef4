-- ===== src/Providers/Aws/Shown.antt =====
-- What a resource of aws.ts shows of the item of the SDK that it is made of.
use cloudops_sentinel.Base.{
  suc, ℕ, String, ◌≡◌, refl, ap, ◌↔◌, ◌≢◌, inl, inr, Bool, true, false, Option, none, some, get_or,
  List, [], ◌∷◌, ◌++◌, map, arith, eq_iff, Bool-cases, if◌then◌else◌,
}
use cloudops_sentinel.Text.{template, get}
use cloudops_sentinel.Types.Resource.{healthy, unknown}
use cloudops_sentinel.Resources.{Discovered}
use cloudops_sentinel.Providers.Aws.{
  Reply, replies, throws, times_out, Instance, Reservation, Bucket, PublicAccessBlock, AwsTag,
  LambdaFunction, Metric, AwsApi, AwsProvider, send, or_default, tags_of, leaves_public,
  is_running_state, is_public_ip,
}
use cloudops_sentinel.Providers.Aws.Listing.{
  ec2_resource, ec2_resources, bucket_public_access, bucket_region, bucket_tags, s3_resource,
  lambda_resource, metric_resource, metric_resources,
}

-- Two lists of the same length, whose items are related in their order.
abbrev pub Pairs : {A B : Type 0} → (A → B → Type 0) → List A → List B → Type 0
Pairs R [] [] = Unit
Pairs R (x ∷ xs) (y ∷ ys) = R x y × Pairs R xs ys
Pairs R _ _ = ⊥

Pairs-map :
    {A B : Type 0} (R : A → B → Type 0) (f : A → B)
    → ((a : A) → R a (f a))
    → (xs : List A) → Pairs R xs (map f xs)
Pairs-map R f h [] = tt
Pairs-map R f h (x ∷ xs) = (h x, Pairs-map R f h xs)

Pairs-append :
    {A B : Type 0} (R : A → B → Type 0) (xs : List A) (ys : List B) (xs' : List A) (ys' : List B)
    → Pairs R xs ys
    → Pairs R xs' ys'
    → Pairs R (xs ++ xs') (ys ++ ys')
Pairs-append R [] [] xs' ys' h k = k
Pairs-append R (x ∷ xs) (y ∷ ys) xs' ys' h k = (h.0, Pairs-append R xs ys xs' ys' h.1 k)
Pairs-append R [] (_ ∷ _) xs' ys' h k = elim h [ ]
Pairs-append R (_ ∷ _) [] xs' ys' h k = elim h [ ]

-- All instances, whatever their reservation.
abbrev pub instances_of : List Reservation → List Instance
instances_of [] = []
instances_of (r ∷ rs) = get_or r.instances [] ++ instances_of rs

module _ (p : AwsProvider) (api : AwsApi) (now : ℕ) where
  -- The ARN is made of the id, or of "unknown"; the name is the tag Name, or the id where it has none.
  pub record ShowsInstance (i : Instance) (d : Discovered) : Type 0 where
    pub arn :
        d.arn
        ≡ template ("arn:aws:ec2:" ∷ p.region ∷ ":instance/" ∷ get_or i.instance_id "unknown" ∷ [])
    pub tags : d.tags ≡ tags_of i.tags
    pub name : d.name ≡ get_or (get "Name" d.tags) (get_or i.instance_id "unknown")
    pub region : d.region ≡ p.region
    pub state : d.config.instance_state ≡ i.state_name
    pub runs : (d.config.health_check_status ≡ some healthy) ↔ (i.state_name ≡ some "running")
    pub is_public :
        (d.config.public_access ≡ some true)
        ↔ ((ip : String) × (i.public_ip_address ≡ some ip) × (ip ≢ ""))

  -- All four settings of a bucket are read, and on.
  abbrev pub IsClosed : (bucket : String) → Type 0
  IsClosed bucket =
      (cfg : PublicAccessBlock) × (api.get_public_access_block bucket ≡ replies (some cfg))
      × (cfg.block_public_acls ≡ some true)
      × (cfg.block_public_policy ≡ some true)
      × (cfg.ignore_public_acls ≡ some true)
      × (cfg.restrict_public_buckets ≡ some true)

  pub record ShowsBucket (b : Bucket) (d : Discovered) : Type 0 where
    pub name : d.name ≡ get_or b.name "unknown"
    pub arn : d.arn ≡ template ("arn:aws:s3:::" ∷ get_or b.name "unknown" ∷ [])
    pub region :
        (r : String)
        → api.get_bucket_location (get_or b.name "unknown") ≡ replies (some r)
        → r ≢ ""
        → d.region ≡ r
    pub tags :
        (ts : Option (List AwsTag))
        → api.get_bucket_tagging (get_or b.name "unknown") ≡ replies ts
        → d.tags ≡ tags_of ts
    pub closed : (d.config.public_access ≡ some false) ↔ IsClosed (get_or b.name "unknown")
    pub otherwise : ¬ IsClosed (get_or b.name "unknown") → d.config.public_access ≡ some true

  pub record ShowsFunction (f : LambdaFunction) (d : Discovered) : Type 0 where
    pub name : d.name ≡ get_or f.function_name "unknown"
    pub arn : d.arn ≡ get_or f.function_arn d.name
    pub region : d.region ≡ p.region
    pub runtime : d.config.runtime ≡ f.runtime
    pub unsaid : d.config.public_access ≡ none

  pub record ShowsMetric (m : Metric) (d : Discovered) : Type 0 where
    pub name : (s : String) → m.metric_name ≡ some s → d.name ≡ s
    pub alarm : d.config.alarms ≡ some (get_or m.metric_name "metric" ∷ [])

  some_of : {a b : Bool} → some a ≡ some b → a ≡ b
  some_of h = cc

  running_iff :
      (s : Option String)
      → (Path (Option _) (some (if is_running_state s then healthy else unknown)) (some healthy))
        ↔ (s ≡ some "running")
  running_iff none = (λ h. absurd (ground arith), λ h. cc)
  running_iff (some s) = ground (arith, eq_iff s "running")

  public_iff :
      (ip : Option String)
      → (some (is_public_ip ip) ≡ some true) ↔ ((s : String) × (ip ≡ some s) × (s ≢ ""))
  public_iff none = (λ h. cc, λ h. cc)
  public_iff (some s) =
      (λ h. (s, refl, λ e. ground (arith, eq_iff s "")), λ (t, e, n). ground (arith, eq_iff s ""))

  closed_back : (bucket : String) → IsClosed bucket → bucket_public_access p api now bucket ≡ false
  unfolding bucket_public_access send leaves_public
  closed_back bucket (cfg, r, a, b, c, d) = rw (r, a, b, c, d) refl

  IsClosed-of :
      (bucket : String) (r : Reply (Option PublicAccessBlock))
      → api.get_public_access_block bucket ≡ r
      → or_default leaves_public true (send p "GetPublicAccessBlock" r) ≡ false
      → IsClosed bucket
  unfolding send leaves_public
  IsClosed-of bucket (throws e) is h = absurd (ground arith)
  IsClosed-of bucket times_out is h = absurd (ground arith)
  IsClosed-of bucket (replies none) is h = absurd (ground arith)
  IsClosed-of bucket (replies (some cfg)) is h =
      (cfg, is, ground arith, ground arith, ground arith, ground arith)

  IsClosed-iff :
      (bucket : String) → (bucket_public_access p api now bucket ≡ false) ↔ IsClosed bucket
  unfolding bucket_public_access
  IsClosed-iff bucket =
      (IsClosed-of bucket (api.get_public_access_block bucket) refl, closed_back bucket)

  region_lem :
      (bucket r : String)
      → api.get_bucket_location bucket ≡ replies (some r)
      → r ≢ ""
      → bucket_region p api now bucket ≡ r
  unfolding bucket_region send
  region_lem bucket r e n = rw e (ground (arith, eq_iff r ""))

  tags_lem :
      (bucket : String) (ts : Option (List AwsTag))
      → api.get_bucket_tagging bucket ≡ replies ts
      → bucket_tags p api now bucket ≡ tags_of ts
  unfolding bucket_tags send
  tags_lem bucket ts e = rw e refl

  instance-Shows : (i : Instance) → ShowsInstance i (ec2_resource p api now i)
  unfolding ec2_resource
  instance-Shows i = record {
    arn = refl;
    tags = refl;
    name = refl;
    region = refl;
    state = refl;
    runs = running_iff i.state_name;
    is_public = public_iff i.public_ip_address;
  }

  pub bucket-Shows : (b : Bucket) → ShowsBucket b (s3_resource p api now b)
  unfolding s3_resource
  bucket-Shows b =
      let iff = IsClosed-iff (get_or b.name "unknown") in
      record {
        name = refl;
        arn = refl;
        region = λ r e n. region_lem (get_or b.name "unknown") r e n;
        tags = λ ts e. tags_lem (get_or b.name "unknown") ts e;
        closed = (λ h. iff.0 (some_of h), λ h. ap some (iff.1 h));
        otherwise = λ n.
            elim (Bool-cases (bucket_public_access p api now (get_or b.name "unknown"))) [
              | inl exposed ↦ ap some exposed
              | inr shut ↦ absurd (n (iff.0 shut))
            ];
      }

  pub function-Shows : (f : LambdaFunction) → ShowsFunction f (lambda_resource p api now f)
  unfolding lambda_resource
  function-Shows f = record {
    name = refl;
    arn = refl;
    region = refl;
    runtime = refl;
    unsaid = refl;
  }

  pub instances-Pairs :
      (rs : List Reservation) → Pairs ShowsInstance (instances_of rs) (ec2_resources p api now rs)
  unfolding ec2_resources
  instances-Pairs [] = tt
  instances-Pairs (r ∷ rs) =
      Pairs-append ShowsInstance (get_or r.instances [])
        (map (ec2_resource p api now) (get_or r.instances [])) (instances_of rs)
        (ec2_resources p api now rs)
        (Pairs-map ShowsInstance (ec2_resource p api now) instance-Shows (get_or r.instances []))
        (instances-Pairs rs)

  pub buckets-Pairs : (bs : List Bucket) → Pairs ShowsBucket bs (map (s3_resource p api now) bs)
  buckets-Pairs = Pairs-map ShowsBucket (s3_resource p api now) bucket-Shows

  pub functions-Pairs :
      (fs : List LambdaFunction) → Pairs ShowsFunction fs (map (lambda_resource p api now) fs)
  functions-Pairs = Pairs-map ShowsFunction (lambda_resource p api now) function-Shows

  pub metrics-Pairs :
      (idx : ℕ) (ms : List Metric) → Pairs ShowsMetric ms (metric_resources p api now idx ms)
  unfolding metric_resources metric_resource
  metrics-Pairs idx [] = tt
  metrics-Pairs idx (m ∷ ms) =
      (record { name = λ s e. rw e refl; alarm = refl }, metrics-Pairs (suc idx) ms)
