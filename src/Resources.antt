-- ===== src/Resources.antt =====
-- apps/api/src/services/resource-service.ts: `sync` and `get` of the class ResourceService, and the
-- provider interface of packages/shared/src/providers/types.ts with the listing of providers/mock.ts.
-- The ids that the database gives to inserted resources are an argument.
pub mod Synced
pub mod Elsewhere
use cloudops_sentinel.Base.{
  ℕ, ◌+◌, String, Bool, true, ◌&&◌, ◌||◌, Option, none, some, List, [], ◌∷◌, ◌==◌, length, filter,
  count, any,
}
use cloudops_sentinel.Errors.{Result, ok, err}
use cloudops_sentinel.Store.{Collection, find_one, upsert}
use cloudops_sentinel.Types.{ResourceType, type_eq}
use cloudops_sentinel.Types.Resource.{
  CloudResource, ProviderName, mock, aws, Tags, ResourceConfig, ResourceMetrics,
}
use cloudops_sentinel.Types.Plan.{text, number}
use cloudops_sentinel.Db.{Db, Mongo, M, AuditInput, record_audit}

pub record InventoryQuery : Type 0 where
  pub types : Option (List ResourceType)
  pub region : Option String

-- A resource as a provider lists it, with no id.
pub record Discovered : Type 0 where
  pub workspace_id : String
  pub provider : ProviderName
  pub type : ResourceType
  pub region : String
  pub arn : String
  pub name : String
  pub tags : Tags
  pub config : ResourceConfig
  pub metrics : ResourceMetrics
  pub last_synced_at : ℕ
  pub version : ℕ

pub record CloudProvider : Type 0 where
  pub name : ProviderName
  pub read_only : Bool
  pub list_resources : InventoryQuery → Result (List Discovered)

abbrev wants_type : Option (List ResourceType) → ResourceType → Bool
wants_type none t = true
wants_type (some []) t = true
wants_type (some types) t = any (type_eq t) types

abbrev wants_region : Option String → String → Bool
wants_region none r = true
wants_region (some wanted) r = wanted == "" || r == wanted

-- `listResources` of the class MockAwsProvider, on its inventory.
unfoldable pub list_mock : (inventory : List Discovered) → InventoryQuery → List Discovered
list_mock inventory query =
    filter (λ r. wants_region query.region r.region)
      (filter (λ r. wants_type query.types r.type) inventory)

abbrev pub has_arn : String → String → CloudResource → Bool
has_arn workspace_id arn r = r.workspace_id == workspace_id && r.arn == arn

-- The update of the upsert: the listed fields, the time, and the next version.
abbrev pub synced : Discovered → (now : ℕ) → CloudResource → CloudResource
synced item now r = record r {
  workspace_id = item.workspace_id;
  provider = item.provider;
  type = item.type;
  region = item.region;
  arn = item.arn;
  name = item.name;
  tags = item.tags;
  config = item.config;
  metrics = item.metrics;
  last_synced_at = now;
  version = r.version + 1;
}

-- The document that the upsert inserts.
abbrev pub fresh_resource : Discovered → (resource_id : String) (now : ℕ) → CloudResource
fresh_resource item resource_id now = record {
  id = resource_id;
  workspace_id = item.workspace_id;
  provider = item.provider;
  type = item.type;
  region = item.region;
  arn = item.arn;
  name = item.name;
  tags = item.tags;
  config = item.config;
  metrics = item.metrics;
  last_synced_at = now;
  version = 1;
}

module _ (c : Collection CloudResource) (workspace_id : String) (now : ℕ) where
  unfoldable pub sync_item :
      (resource_id : String) → Discovered → List CloudResource → List CloudResource × CloudResource
  sync_item resource_id item docs =
      upsert c (has_arn workspace_id item.arn) (fresh_resource item resource_id now)
        (synced item now) docs

  -- The loop of `sync`; the n-th item from the end gets the n-th id if it is inserted.
  unfoldable pub sync_items :
      (ids : ℕ → String)
      → List Discovered
      → List CloudResource
      → List CloudResource × List CloudResource
  sync_items ids [] docs = (docs, [])
  sync_items ids (item ∷ items) docs =
      let (docs', doc) = sync_item (ids (length items)) item docs in
      let (last, upserted) = sync_items ids items docs' in (last, doc ∷ upserted)

pub record SyncResult : Type 0 where
  pub synced_count : ℕ
  pub provider : ProviderName
  pub items : List CloudResource

abbrev provider_text : ProviderName → String
provider_text mock = "mock"
provider_text aws = "aws"

abbrev pub sync_event :
    ProviderName → (workspace_id actor_id correlation_id : String) (synced_count : ℕ) → AuditInput
sync_event provider workspace_id actor_id correlation_id synced_count = record {
  workspace_id = workspace_id;
  actor_id = actor_id;
  action = "resources.sync";
  resource_type = "CloudResource";
  resource_id = none;
  correlation_id = correlation_id;
  metadata =
      some (("count", number synced_count) ∷ ("provider", text (provider_text provider)) ∷ []);
}

-- What `sync` does with the listed resources.
unfoldable pub save_listed :
    Mongo
    → ProviderName
    → (workspace_id actor_id correlation_id : String) → List Discovered
    → (ids : ℕ → String) (now : ℕ) → M SyncResult
unfolding record_audit
save_listed mongo provider workspace_id actor_id correlation_id discovered ids now d =
    let (docs, upserted) =
      sync_items mongo.resource_docs workspace_id now ids discovered d.resources in
    let (d', logged) =
      record_audit (sync_event provider workspace_id actor_id correlation_id (length upserted)) now
        (record d { resources = docs }) in
    (d', ok (record { synced_count = length upserted; provider = provider; items = upserted }))

module _ (mongo : Mongo) (provider : CloudProvider) where
  unfoldable pub sync :
      (workspace_id actor_id correlation_id : String)
      → InventoryQuery
      → (ids : ℕ → String) (now : ℕ) → M SyncResult
  unfolding save_listed
  sync workspace_id actor_id correlation_id query ids now d = elim (provider.list_resources query) [
    | err e ↦ (d, err e)
    | ok discovered ↦
        save_listed mongo provider.name workspace_id actor_id correlation_id discovered ids now d
  ]

unfoldable pub get : Mongo → (workspace_id id : String) → Db → Option CloudResource
get mongo workspace_id id d =
    find_one mongo.resource_docs (λ r. r.id == id && r.workspace_id == workspace_id) d.resources
