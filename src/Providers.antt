-- ===== src/Providers.antt =====
-- packages/shared/src/providers: the error that a provider throws, of types.ts, and the result of
-- code that throws it. The providers are in the modules below.
pub mod Aws
pub mod Mock
pub mod Factory
use cloudops_sentinel.Base.{String, Bool, false, Option, get_or}

pub record ProviderError : Type 0 where
  pub message : String
  pub retryable : Bool
  pub code : String

-- The constructor, with the two options.
abbrev pub provider_error :
    String → (retryable : Option Bool) (code : Option String) → ProviderError
provider_error message retryable code = record {
  message = message;
  retryable = get_or retryable false;
  code = get_or code "PROVIDER_ERROR";
}

pub data Provided (A : Type 0) : Type 0 where
  provided : A → Provided A
  failed : ProviderError → Provided A

infixl 5 ◌>>=◌
abbrev pub ◌>>=◌ : {A B : Type 0} → Provided A → (A → Provided B) → Provided B
provided a >>= next = next a
failed e >>= next = failed e
