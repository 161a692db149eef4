-- ===== src/Providers/Aws/Listed.antt =====
-- What `listResources` of aws.ts answers, by the calls of the SDK.
use cloudops_sentinel.Base.{
  ℕ, ◌+◌, ◌≡◌, refl, inl, inr, Bool, true, false, none, some, get_or, List, [], ◌∷◌, ◌++◌, arith,
  if◌then◌else◌, Bool-cases, length, any, length-append, All, All-append, All-mono,
}
use cloudops_sentinel.Types.{ResourceType, type_eq, ec2, s3, lambda, cloudwatch}
use cloudops_sentinel.Types.Resource.{aws}
use cloudops_sentinel.Resources.{Discovered, InventoryQuery}
use cloudops_sentinel.Providers.{Provided, provided, failed}
use cloudops_sentinel.Providers.Aws.{Failure, AwsApi, AwsProvider, wrap}
use cloudops_sentinel.Providers.Aws.Listing.{all_types, if_asked, list_resources}
use cloudops_sentinel.Providers.Aws.Answers.{
  call_label, call_failure, reported, Shown, IsOfType, listing_of, OneListing, got,
  listing_of-OneListing,
}

module _ (p : AwsProvider) (api : AwsApi) (now : ℕ) where
  module _ (types : List ResourceType) where
    abbrev pub is_asked : ResourceType → Bool
    is_asked t = any (type_eq t) types

    -- The call for a type was not asked for, or did not fail.
    abbrev pub Passes : ResourceType → Type 0
    Passes t = is_asked t ≡ true → call_failure p api now t ≡ none

    -- A resource of the account, of a type that was asked for.
    abbrev pub IsAsked : Discovered → Type 0
    IsAsked i =
        (is_asked i.type ≡ true)
        × (i.workspace_id ≡ p.workspace_id)
        × (i.provider ≡ aws)
        × (i.last_synced_at ≡ now)

    abbrev pub asked_count : ResourceType → ℕ
    asked_count t = if is_asked t then reported p api now t else 0

    -- The part of a listing for a type.
    pub record IsPart (t : ResourceType) (items : List Discovered) : Type 0 where
      pub shown : is_asked t ≡ true → Shown p api now t items
      pub unasked : is_asked t ≡ false → items ≡ []

    -- What a listing comes to.
    pub data Listing (r : Provided (List Discovered)) : Type 0 where
      listed :
          (items : List Discovered)
          → r ≡ provided items
          → All Passes all_types
          → All IsAsked items
          → length items
            ≡ asked_count ec2 + asked_count s3 + asked_count lambda + asked_count cloudwatch
          → (instances buckets functions metrics : List Discovered)
          → items ≡ instances ++ buckets ++ functions ++ metrics
          → IsPart ec2 instances
          → IsPart s3 buckets
          → IsPart lambda functions
          → IsPart cloudwatch metrics
          → Listing r
      refused :
          (before : List ResourceType) (t : ResourceType) (after : List ResourceType) (e : Failure)
          → all_types ≡ before ++ t ∷ after
          → All Passes before
          → is_asked t ≡ true
          → call_failure p api now t ≡ some e
          → r ≡ failed (wrap e (call_label t))
          → Listing r

    -- One listing, if it is asked for.
    data Part (t : ResourceType) (r : Provided (List Discovered)) : Type 0 where
      passed :
          (items : List Discovered)
          → r ≡ provided items
          → Passes t
          → All IsAsked items
          → length items ≡ asked_count t
          → IsPart t items
          → Part t r
      lost :
          (e : Failure)
          → is_asked t ≡ true
          → call_failure p api now t ≡ some e
          → r ≡ failed (wrap e (call_label t))
          → Part t r

    if_asked-Part : (t : ResourceType) → Part t (if_asked types t (listing_of p api now t))
    unfolding if_asked
    if_asked-Part t = elim (Bool-cases (is_asked t)) [
      | inr no_call ↦
          passed [] (rw no_call refl) (λ h. cc) tt (rw no_call refl)
            (record { shown = λ h. cc; unasked = λ h. refl })
      | inl asked ↦ elim (listing_of-OneListing p api now t) [
        | OneListing.lost e r f ↦ lost e asked f (rw asked r)
        | got items r f all n shows ↦
            passed items (rw asked r) (λ h. f)
              (All-mono (IsOfType p api now t) IsAsked items (λ i h. (rw h.0 asked, h.1, h.2, h.3))
                all)
              (rw asked n) (record { shown = λ h. shows; unasked = λ h. cc })
      ]
    ]

  -- `listResources` fails exactly where a listing call of an asked type fails: with the first such
  -- call's error, in the order EC2, S3, Lambda, CloudWatch, wrapped under the name of that call.
  -- Otherwise it returns, type by type and in their order, a resource for every item that those
  -- calls report (of the metrics the first twenty), each under the provider's workspace, with an
  -- asked type, and with what the item says: an instance with its ARN, name, tags and state, healthy
  -- exactly if it is running, public exactly if it has a public address; a bucket with its name and
  -- ARN, and its region and tags where they are read, closed exactly if its four settings are read and all on, and else public; a function with
  -- its name, ARN and runtime; a metric with its name. A call for a single resource's tags, location,
  -- settings or load never makes it fail. The region of the query is not looked at.
  pub list_resources-Listing :
      (query : InventoryQuery)
      → Listing (get_or query.types all_types) (list_resources p api now query)
  unfolding list_resources listing_of
  list_resources-Listing query =
      let types = get_or query.types all_types in
      elim (if_asked-Part types ec2) [
        | lost e asked f r ↦
            refused [] ec2 (s3 ∷ lambda ∷ cloudwatch ∷ []) e refl tt asked f (rw r refl)
        | passed is r1 p1 all1 n1 s1 ↦ elim (if_asked-Part types s3) [
          | lost e asked f r ↦
              refused (ec2 ∷ []) s3 (lambda ∷ cloudwatch ∷ []) e refl (p1, tt) asked f
                (rw (r1, r) refl)
          | passed bs r2 p2 all2 n2 s2 ↦ elim (if_asked-Part types lambda) [
            | lost e asked f r ↦
                refused (ec2 ∷ s3 ∷ []) lambda (cloudwatch ∷ []) e refl (p1, (p2, tt)) asked f
                  (rw (r1, r2, r) refl)
            | passed fs r3 p3 all3 n3 s3' ↦ elim (if_asked-Part types cloudwatch) [
              | lost e asked f r ↦
                  refused (ec2 ∷ s3 ∷ lambda ∷ []) cloudwatch [] e refl (p1, (p2, (p3, tt))) asked f
                    (rw (r1, r2, r3, r) refl)
              | passed ms r4 p4 all4 n4 s4 ↦
                  listed (is ++ bs ++ fs ++ ms) (rw (r1, r2, r3, r4) refl)
                    (p1, (p2, (p3, (p4, tt))))
                    (All-append (IsAsked types) (is ++ bs ++ fs) ms
                      (All-append (IsAsked types) (is ++ bs) fs
                        (All-append (IsAsked types) is bs all1 all2) all3)
                      all4)
                    (omega (
                      arith,
                      n1,
                      n2,
                      n3,
                      n4,
                      length-append (is ++ bs ++ fs) ms,
                      length-append (is ++ bs) fs,
                      length-append is bs,
                    ))
                    is bs fs ms refl s1 s2 s3' s4
            ]
          ]
        ]
      ]
