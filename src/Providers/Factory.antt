-- ===== src/Providers/Factory.antt =====
-- packages/shared/src/providers/factory.ts, and what a service that calls a provider sees of it: an
-- error of the AWS provider is no `AppError`, so that the error handler answers it as any other.
-- The attempts and the endpoint of the configuration go to the SDK's clients, which are a parameter.
-- `provider_for` is `providerFor` of apps/api/src/services/resource-service.ts.
pub mod Synced
use cloudops_sentinel.Base.{ℕ, String, Bool}
use cloudops_sentinel.Errors.{Result, ok, err}
use cloudops_sentinel.Errors.Handler.{other, as_app_error}
use cloudops_sentinel.Types.Resource.{ProviderName, aws, mock}
use cloudops_sentinel.Db.{ApiConfig}
use cloudops_sentinel.Resources.{CloudProvider}
use cloudops_sentinel.Providers.{Provided, provided, failed}
use cloudops_sentinel.Providers.Aws.{AwsApi}
use cloudops_sentinel.Providers.Aws.Listing.{list_resources}
use cloudops_sentinel.Providers.Mock.Inventory.{mock_aws_provider}

pub record ProviderFactoryConfig : Type 0 where
  pub mode : ProviderName
  pub workspace_id : String
  pub region : String
  pub read_only : Bool
  pub request_timeout_ms : ℕ

abbrev pub as_thrown : {A : Type 0} → Provided A → Result A
as_thrown (provided a) = ok a
as_thrown (failed e) = err (as_app_error other)

-- `new AwsProvider(...)`, as a provider of one listing of an account.
unfoldable pub aws_provider :
    ProviderFactoryConfig → (decimal : ℕ → String) → AwsApi → (now : ℕ) → CloudProvider
aws_provider cfg decimal api now = record {
  name = aws;
  read_only = cfg.read_only;
  list_resources = λ query. as_thrown (
      list_resources
        (record {
          region = cfg.region;
          workspace_id = cfg.workspace_id;
          timeout_ms = cfg.request_timeout_ms;
          read_only = cfg.read_only;
          decimal = decimal;
        })
        api now query);
}

unfoldable pub create_cloud_provider :
    ProviderFactoryConfig → (decimal : ℕ → String) → AwsApi → (now : ℕ) → CloudProvider
create_cloud_provider cfg decimal api now = elim cfg.mode [
  | aws ↦ aws_provider cfg decimal api now
  | mock ↦ mock_aws_provider cfg.workspace_id now
]

unfoldable pub provider_for :
    ApiConfig → (decimal : ℕ → String) → AwsApi → (now : ℕ) (workspace_id : String) → CloudProvider
unfolding create_cloud_provider
provider_for config decimal api now workspace_id =
    create_cloud_provider
      (record {
        mode = config.cloud_provider;
        workspace_id = workspace_id;
        region = config.aws_region;
        read_only = config.aws_read_only;
        request_timeout_ms = config.aws_request_timeout_ms;
      })
      decimal api now
