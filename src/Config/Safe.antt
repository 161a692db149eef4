-- ===== src/Config/Safe.antt =====
-- What an API that has started may do, by its environment.
use cloudops_sentinel.Base.{
  ℕ, ◌≤◌, String, ◌≡◌, refl, sym, ap, subst, ◌∙◌, ◌↔◌, inl, inr, true, Option, none, some, arith,
  ◌==◌, eq_iff, Bool-cases,
}
use cloudops_sentinel.Types.Resource.{ProviderName, aws, mock}
use cloudops_sentinel.Db.{ApiConfig}
use cloudops_sentinel.Schemas.{◌>>=◌}
use cloudops_sentinel.Config.{
  Environment, spread, secret_of, provider_of, flag_or, parse_api, load_config,
}

-- A chain returns only where each part does.
with_parts :
    {A B C : Type 0} (o : Option A) (f : A → Option B) {b : B}
    → o >>= f ≡ some b
    → ((a : A) → o ≡ some a → f a ≡ some b → C)
    → C
unfolding ◌>>=◌
with_parts none f h use_parts = absurd (cc h)
with_parts (some a) f h use_parts = use_parts a refl h

of_some : {A : Type 0} {a b : A} → some a ≡ some b → a ≡ b
of_some h = cc

secret_long :
    (units : String → ℕ) (value : Option String) {s : String}
    → secret_of units value ≡ some s
    → (value ≡ some s) × (16 ≤ units s)
secret_long units none h = cc
secret_long units (some s) h = (ground arith, ground arith)

other_name : ¬ Path String "mock" "aws"
other_name e = cc ((eq_iff "mock" "aws").1 e)

provider_iff :
    (value : Option String) (p : ProviderName)
    → provider_of value ≡ some p
    → (p ≡ aws) ↔ (value ≡ some "aws")
provider_iff none p h = (λ e. cc, λ e. cc)
provider_iff (some s) p h = elim (Bool-cases (s == "mock")) [
  | inl is_mock ↦
      let given : provider_of (some s) ≡ some mock = rw is_mock refl in
      (
        λ e. absurd (cc (given, h, e)),
        λ e. absurd (
            let same : s ≡ "aws" = ground arith in
            other_name (sym ((eq_iff s "mock").0 is_mock) ∙ same)),
      )
  | inr not_mock ↦ elim (Bool-cases (s == "aws")) [
    | inl is_aws ↦
        let given : provider_of (some s) ≡ some aws = rw (not_mock, is_aws) refl in
        (λ e. ap some ((eq_iff s "aws").0 is_aws), λ e. cc (given, h))
    | inr not_aws ↦
        let given : provider_of (some s) ≡ none = rw (not_mock, not_aws) refl in
        absurd (cc (given, h))
  ]
]

flag_iff : (value : Option String) → (flag_or "false" value ≡ true) ↔ (value ≡ some "true")
flag_iff none = ground arith
flag_iff (some s) = ground (arith, eq_iff s "true")

module _ (to_number : String → Option ℕ) (units : String → ℕ) (env : Environment)
    (overrides : String → Option (Option String)) where
  -- What is asked of a configuration.
  abbrev pub IsSafe : ApiConfig → Type 0
  IsSafe config =
      (16 ≤ units config.jwt_secret)
      × ((config.cloud_provider ≡ aws) ↔ (spread env overrides "CLOUD_PROVIDER" ≡ some "aws"))
      × ((config.enable_aws_mutations ≡ true)
          ↔ (spread env overrides "ENABLE_AWS_MUTATIONS" ≡ some "true"))

  -- The API starts only with a secret of 16 or more UTF-16 units. Its provider is AWS only where
  -- CLOUD_PROVIDER is exactly "aws", and mutations of AWS are enabled only where
  -- ENABLE_AWS_MUTATIONS is exactly "true", after the overrides are laid over the environment.
  pub load_config_safe :
      (config : ApiConfig)
      → load_config to_number units env overrides ≡ some config
      → (16 ≤ units config.jwt_secret)
        × ((config.cloud_provider ≡ aws) ↔ (spread env overrides "CLOUD_PROVIDER" ≡ some "aws"))
        × ((config.enable_aws_mutations ≡ true)
            ↔ (spread env overrides "ENABLE_AWS_MUTATIONS" ≡ some "true"))
  unfolding load_config parse_api
  load_config_safe config h = with_parts _ _ h λ checked _ h0.
      with_parts _ _ h0 λ secret is_secret h1. with_parts _ _ h1 λ provider is_provider h2.
        with_parts _ _ h2 λ request_timeout _ h3. with_parts _ _ h3 λ ttl _ h4.
          with_parts _ _ h4 λ attempts _ h5. with_parts _ _ h5 λ job_timeout _ h6.
            subst IsSafe (of_some h6) (
              (secret_long units (spread env overrides "JWT_SECRET") is_secret).1,
              provider_iff (spread env overrides "CLOUD_PROVIDER") provider is_provider,
              flag_iff (spread env overrides "ENABLE_AWS_MUTATIONS"),
            )
