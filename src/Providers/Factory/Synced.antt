-- ===== src/Providers/Factory/Synced.antt =====
-- What `sync` of resource-service.ts comes to with the provider that the configuration names.
use cloudops_sentinel.Base.{
  ℕ, String, ◌≡◌, refl, sym, subst, inl, inr, Bool, get_or, List, [], ◌∷◌, ◌++◌, Bool-cases, length,
  filter, All, All-mono,
}
use cloudops_sentinel.Errors.{AppError, Result, ok, err}
use cloudops_sentinel.Types.Resource.{ProviderName, aws, mock}
use cloudops_sentinel.Types.Plan.{AuditEvent}
use cloudops_sentinel.Db.{Db, Mongo, ApiConfig}
use cloudops_sentinel.Resources.{
  save_listed, Discovered, InventoryQuery, CloudProvider, SyncResult, sync, list_mock,
}
use cloudops_sentinel.Resources.Synced.{AllSynced, AllOwn, AllStored, items_stored}
use cloudops_sentinel.Resources.Elsewhere.{elsewhere, elsewhere-sync_items, length-AllSynced}
use cloudops_sentinel.Providers.{Provided, provided, failed}
use cloudops_sentinel.Providers.Aws.{AwsApi, AwsProvider}
use cloudops_sentinel.Providers.Aws.Listing.{list_resources, all_types}
use cloudops_sentinel.Providers.Aws.Listed.{IsAsked, listed, refused, list_resources-Listing}
use cloudops_sentinel.Providers.Mock.Inventory.{build_mock_inventory, mock_aws_provider}
use cloudops_sentinel.Providers.Factory.{
  ProviderFactoryConfig, provider_for, aws_provider, create_cloud_provider, as_thrown,
}

All-filter {ℓ κ} :
    {A : Type ℓ} (P : A → Type κ) (p : A → Bool) (xs : List A) → All P xs → All P (filter p xs)
All-filter P p [] h = tt
All-filter P p (x ∷ xs) h = elim (Bool-cases (p x)) [
  | inl e ↦ rw e (h.0, All-filter P p xs h.1)
  | inr e ↦ rw e (All-filter P p xs h.1)
]

-- A listed resource of the workspace and the provider.
abbrev pub IsFrom : String → ProviderName → Discovered → Type 0
IsFrom workspace_id name i = (i.workspace_id ≡ workspace_id) × (i.provider ≡ name)

mock_inventory-IsFrom :
    (workspace_id : String) (now : ℕ)
    → All (IsFrom workspace_id mock) (build_mock_inventory workspace_id now)
unfolding build_mock_inventory
mock_inventory-IsFrom w now =
    let h : Path String w w × Path ProviderName mock mock = (refl, refl) in
    (h, (h, (h, (h, (h, (h, (h, (h, (h, (h, (h, (h, (h, tt)))))))))))))

mock-IsFrom :
    (workspace_id : String) (now : ℕ) (query : InventoryQuery)
    → All (IsFrom workspace_id mock) (list_mock (build_mock_inventory workspace_id now) query)
unfolding list_mock
mock-IsFrom w now query = All-filter _ _ _ (All-filter _ _ _ (mock_inventory-IsFrom w now))

account-IsFrom :
    (aws' : AwsProvider) (api : AwsApi) (now : ℕ) (query : InventoryQuery) (items : List Discovered)
    → list_resources aws' api now query ≡ provided items
    → All (IsFrom aws'.workspace_id aws) items
account-IsFrom aws' api now query items h = elim (list_resources-Listing aws' api now query) [
  | listed is e _ all _ _ _ _ _ _ _ _ _ _ ↦
      let same : is ≡ items = cc in
      subst (All (IsFrom aws'.workspace_id aws)) same (
        All-mono (IsAsked aws' api now (get_or query.types all_types))
          (IsFrom aws'.workspace_id aws) is (λ i q. (q.1, q.2)) all)
  | refused _ _ _ _ _ _ _ _ e ↦ absurd (cc)
]

module _ (decimal : ℕ → String) (api : AwsApi) (now : ℕ) (workspace_id region : String)
    (read_only : Bool) (timeout_ms : ℕ) where
  abbrev factory_config : ProviderName → ProviderFactoryConfig
  factory_config mode = record {
    mode = mode;
    workspace_id = workspace_id;
    region = region;
    read_only = read_only;
    request_timeout_ms = timeout_ms;
  }

  created-IsFrom :
      (mode : ProviderName) (query : InventoryQuery) (items : List Discovered)
      → (create_cloud_provider (factory_config mode) decimal api now).list_resources query
        ≡ ok items
      → All (IsFrom workspace_id mode) items
        × ((create_cloud_provider (factory_config mode) decimal api now).name ≡ mode)
  unfolding create_cloud_provider aws_provider mock_aws_provider
  created-IsFrom aws query items h =
      let provider : AwsProvider = record {
        region = region;
        workspace_id = workspace_id;
        timeout_ms = timeout_ms;
        read_only = read_only;
        decimal = decimal;
      } in
      let returned : (r : Provided (List Discovered))
          → as_thrown r ≡ ok items
          → r ≡ provided items =
        λ r e.
          elim r as (λ r. as_thrown r ≡ ok items → r ≡ provided items) [
            | provided is ↦ λ e. cc
            | failed f ↦ λ e. absurd (cc)
          ]
            e in
      (account-IsFrom provider api now query items (returned _ h), refl)
  created-IsFrom mock query items h =
      let same : list_mock (build_mock_inventory workspace_id now) query ≡ items = cc in
      (subst (All (IsFrom workspace_id mock)) same (mock-IsFrom workspace_id now query), refl)

module _ (mongo : Mongo) (provider : CloudProvider) (workspace_id actor_id correlation_id : String)
    (query : InventoryQuery) (ids : ℕ → String) (now : ℕ) (d : Db) where
  sync_fails :
      (e : AppError)
      → provider.list_resources query ≡ err e
      → sync mongo provider workspace_id actor_id correlation_id query ids now d ≡ (d, err e)
  unfolding sync
  sync_fails e h = rw (h, sync) refl

  sync_saves :
      (items : List Discovered)
      → provider.list_resources query ≡ ok items
      → sync mongo provider workspace_id actor_id correlation_id query ids now d
        ≡ save_listed mongo provider.name workspace_id actor_id correlation_id items ids now d
  unfolding sync
  sync_saves items h = rw (h, sync) refl

module _ (config : ApiConfig) (decimal : ℕ → String) (api : AwsApi) (now : ℕ)
    (workspace_id : String) where
  abbrev pub configured : CloudProvider
  configured = provider_for config decimal api now workspace_id

  configured-IsFrom :
      (query : InventoryQuery) (items : List Discovered)
      → configured.list_resources query ≡ ok items
      → All (IsFrom workspace_id config.cloud_provider) items
        × (configured.name ≡ config.cloud_provider)
  unfolding provider_for
  configured-IsFrom =
      created-IsFrom decimal api now workspace_id config.aws_region config.aws_read_only
        config.aws_request_timeout_ms config.cloud_provider

  -- What a call of `sync` comes to.
  pub data SyncOutcome (mongo : Mongo) (query : InventoryQuery) (d : Db)
      (r : Db × Result SyncResult) : Type 0 where
    not_listed :
        (e : AppError)
        → configured.list_resources query ≡ err e
        → r ≡ (d, err e)
        → SyncOutcome mongo query d r
    stored :
        (items : List Discovered) (result : SyncResult) (event : AuditEvent)
        → configured.list_resources query ≡ ok items
        → r.1 ≡ ok result
        → AllSynced now items result.items
        → result.synced_count ≡ length items
        → result.provider ≡ config.cloud_provider
        → AllStored workspace_id r.0.resources items
        → elsewhere workspace_id r.0.resources ≡ elsewhere workspace_id d.resources
        → r.0 ≡ record d { resources = r.0.resources; audits = d.audits ++ event ∷ [] }
        → (event.action ≡ "resources.sync") × (event.workspace_id ≡ workspace_id)
        → SyncOutcome mongo query d r

  saved-SyncOutcome :
      (mongo : Mongo) (actor_id correlation_id : String) (query : InventoryQuery) (ids : ℕ → String)
      (d : Db) (items : List Discovered)
      → configured.list_resources query ≡ ok items
      → SyncOutcome mongo query d
          (save_listed mongo configured.name workspace_id actor_id correlation_id items ids now d)
  unfolding save_listed
  saved-SyncOutcome mongo actor_id correlation_id query ids d items h =
      let (from, named) = configured-IsFrom query items h in
      let own : AllOwn workspace_id items =
        All-mono (IsFrom workspace_id config.cloud_provider) (λ i. i.workspace_id ≡ workspace_id)
          items (λ i q. q.0) from in
      let (held, answers) =
        items_stored mongo.resource_docs workspace_id now ids items d.resources own in
      stored items _ _ h refl answers (length-AllSynced now items _ answers) named held
        (elsewhere-sync_items mongo.resource_docs workspace_id now ids items d.resources own) refl
        (refl, refl)

  -- A sync of a workspace, with the provider that the configuration names, either changes nothing
  -- and throws the error of the listing, or stores every resource that was listed, answers each of
  -- them as it was listed, in its place, with their number and the name of that provider, leaves
  -- the resources of all other workspaces as they are, and writes one audit event and nothing else.
  pub sync-SyncOutcome :
      (mongo : Mongo) (actor_id correlation_id : String) (query : InventoryQuery) (ids : ℕ → String)
      (d : Db)
      → SyncOutcome mongo query d
          (sync mongo configured workspace_id actor_id correlation_id query ids now d)
  sync-SyncOutcome mongo actor_id correlation_id query ids d =
      by_listing (configured.list_resources query) refl
    where
      by_listing :
          (listing : Result (List Discovered))
          → configured.list_resources query ≡ listing
          → SyncOutcome mongo query d
              (sync mongo configured workspace_id actor_id correlation_id query ids now d)
      by_listing (err e) h =
          not_listed e h
            (sync_fails mongo configured workspace_id actor_id correlation_id query ids now d e h)
      by_listing (ok items) h =
          subst (SyncOutcome mongo query d)
            (sym (
              sync_saves mongo configured workspace_id actor_id correlation_id query ids now d items
                h))
            (saved-SyncOutcome mongo actor_id correlation_id query ids d items h)
