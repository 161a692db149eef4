-- ===== src/Providers/Mock/Inventory.antt =====
-- packages/shared/src/providers/mock.ts: `buildMockInventory` and the class MockAwsProvider.
use cloudops_sentinel.Base.{ℕ, String, true, List, [], ◌∷◌}
use cloudops_sentinel.Types.Resource.{mock}
use cloudops_sentinel.Errors.{ok}
use cloudops_sentinel.Resources.{Discovered, CloudProvider, list_mock}
use cloudops_sentinel.Providers.Mock.Instances.{
  web_prod_1, api_prod_2, batch_dev_3, db_prod, cache_prod,
}
use cloudops_sentinel.Providers.Mock.Buckets.{
  acme_public_assets, acme_logs_private, acme_data_lake, acme_backups,
}
use cloudops_sentinel.Providers.Mock.Functions.{
  ingest_function, reports_function, webhooks_function, cpu_high_alarm,
}

unfoldable pub build_mock_inventory : (workspace_id : String) (now : ℕ) → List Discovered
build_mock_inventory w now =
    web_prod_1 w now
    ∷ api_prod_2 w now
    ∷ batch_dev_3 w now
    ∷ db_prod w now
    ∷ cache_prod w now
    ∷ acme_public_assets w now
    ∷ acme_logs_private w now
    ∷ acme_data_lake w now
    ∷ acme_backups w now
    ∷ ingest_function w now
    ∷ reports_function w now
    ∷ webhooks_function w now
    ∷ cpu_high_alarm w now
    ∷ []

unfoldable pub mock_aws_provider : (workspace_id : String) (now : ℕ) → CloudProvider
mock_aws_provider workspace_id now = record {
  name = mock;
  read_only = true;
  list_resources = λ query. ok (list_mock (build_mock_inventory workspace_id now) query);
}
