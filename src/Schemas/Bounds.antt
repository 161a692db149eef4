-- ===== src/Schemas/Bounds.antt =====
-- What the schemas of schemas.ts guarantee of the bodies and queries that they accept.
use cloudops_sentinel.Base.{
  ℕ, ◌≤◌, String, ◌≡◌, refl, sym, ap, subst, ◌∙◌, inl, inr, Bool, true, Option, none, some, List,
  arith, length, All, All-mono,
}
use cloudops_sentinel.Jobs.{CreateInput}
use cloudops_sentinel.Remediation.Service.{ExecuteInput}
use cloudops_sentinel.Remediation.Plans.{PlanInput}
use cloudops_sentinel.Schemas.{
  Zod, ◌>>=◌, max_page_size, default_page_size, key_field, id_text, page_field, limit_field,
  create_diagnostic_job_schema, create_remediation_plan_schema, execute_remediation_schema,
  list_resources_query_schema, list_jobs_query_schema, list_findings_query_schema,
  list_recommendations_query_schema, list_audit_query_schema,
}

-- Whatever is accepted has a property.
pub data Ensures {A : Type 0} (P : A → Type 0) (m : Option A) : Type 0 where
  ensures : ((a : A) → m ≡ some a → P a) → Ensures P m

pub of_Ensures :
    {A : Type 0} {P : A → Type 0} {m : Option A} {a : A} → Ensures P m → m ≡ some a → P a
of_Ensures {a = a} (ensures h) e = h a e

some-Ensures : {A : Type 0} {P : A → Type 0} (a : A) → P a → Ensures P (some a)
some-Ensures {P = P} a h = ensures (λ b e. subst P (cc) h)

-- What a chain accepts has a property where it holds behind the first part.
bind-Ensures :
    {A B : Type 0} {P : B → Type 0} {m : Option A} {f : A → Option B}
    → ((a : A) → m ≡ some a → Ensures P (f a))
    → Ensures P (m >>= f)
unfolding ◌>>=◌
bind-Ensures {m = none} h = ensures (λ b e. cc)
bind-Ensures {m = some a} h = h a refl

abbrev pub InRange : (page limit : ℕ) → Type 0
InRange page limit = (1 ≤ page) × (1 ≤ limit) × (limit ≤ max_page_size)

some_inj : {A : Type 0} {a b : A} → Path (Option A) (some a) (some b) → a ≡ b
some_inj h = cc

module _ (z : Zod) where
  -- An idempotency key has from 8 to 128 characters.
  abbrev pub IsKey : String → Type 0
  IsKey key = (8 ≤ z.units key) × (z.units key ≤ 128)

  key_field-IsKey : (v : z.Value) → Ensures IsKey (key_field z v)
  key_field-IsKey v = bind-Ensures (λ w e. ensures (z.string_in_range 8 (some 128) w))

  page_field_pos : (v : z.Value) → Ensures (λ n. 1 ≤ n) (page_field z v)
  unfolding page_field
  page_field_pos v = bind-Ensures λ w e. ensures λ n accepted.
      elim (z.default_of ℕ 1 (z.coerced_int 1 none) w n accepted) [
        | inl e ↦ omega (arith, e)
        | inr given ↦ (z.int_in_range 1 none w n given).0
      ]

  limit_field_bounds :
      (v : z.Value) → Ensures (λ n. (1 ≤ n) × (n ≤ max_page_size)) (limit_field z v)
  unfolding limit_field
  limit_field_bounds v = bind-Ensures λ w e. ensures λ n accepted.
      elim (z.default_of ℕ default_page_size (z.coerced_int 1 (some max_page_size)) w n accepted) [
        | inl e ↦ (omega (arith, e), omega (arith, e))
        | inr given ↦ z.int_in_range 1 (some max_page_size) w n given
      ]

  -- What every query schema starts with.
  paged-Ensures :
      {A : Type 0} {P : A → Type 0} (v : z.Value) {rest : ℕ → ℕ → Option A}
      → ((page limit : ℕ) → InRange page limit → Ensures P (rest page limit))
      → Ensures P (page_field z v >>= λ page. limit_field z v >>= λ limit. rest page limit)
  paged-Ensures v h = bind-Ensures λ page p. bind-Ensures λ limit l.
      let (low, high) = of_Ensures (limit_field_bounds v) l in
      h page limit (of_Ensures (page_field_pos v) p, low, high)

  pub resources_query_InRange :
      (v : z.Value) → Ensures (λ q. InRange q.page q.limit) (list_resources_query_schema z v)
  unfolding list_resources_query_schema
  resources_query_InRange v = paged-Ensures v λ page limit range.
      bind-Ensures λ f e. bind-Ensures λ f e. bind-Ensures λ f e. some-Ensures _ range

  pub jobs_query_InRange :
      (v : z.Value) → Ensures (λ q. InRange q.page q.limit) (list_jobs_query_schema z v)
  unfolding list_jobs_query_schema
  jobs_query_InRange v =
      paged-Ensures v λ page limit range. bind-Ensures λ f e. some-Ensures _ range

  pub findings_query_InRange :
      (v : z.Value) → Ensures (λ q. InRange q.page q.limit) (list_findings_query_schema z v)
  unfolding list_findings_query_schema
  findings_query_InRange v = paged-Ensures v λ page limit range.
      bind-Ensures λ f e. bind-Ensures λ f e. bind-Ensures λ f e. some-Ensures _ range

  pub recommendations_query_InRange :
      (v : z.Value) → Ensures (λ q. InRange q.page q.limit) (list_recommendations_query_schema z v)
  unfolding list_recommendations_query_schema
  recommendations_query_InRange v =
      paged-Ensures v
        λ page limit range. bind-Ensures λ f e. bind-Ensures λ f e. some-Ensures _ range

  pub audit_query_InRange :
      (v : z.Value) → Ensures (λ q. InRange q.page q.limit) (list_audit_query_schema z v)
  unfolding list_audit_query_schema
  audit_query_InRange v =
      paged-Ensures v
        λ page limit range. bind-Ensures λ f e. bind-Ensures λ f e. some-Ensures _ range

  job_body-Ensures :
      (v : z.Value) → Ensures (λ i. IsKey i.idempotency_key) (create_diagnostic_job_schema z v)
  unfolding create_diagnostic_job_schema
  job_body-Ensures v = bind-Ensures λ ids e.
      bind-Ensures
        λ types e. bind-Ensures λ key e. some-Ensures _ (of_Ensures (key_field-IsKey v) e)

  -- The ids of a plan's findings: at least one, and none of them empty.
  abbrev pub AreIds : List String → Type 0
  AreIds ids = (1 ≤ length ids) × All (λ id. 1 ≤ z.units id) ids

  finding_ids-AreIds : (w : z.Value) → Ensures AreIds (z.array String 1 (id_text z) w)
  finding_ids-AreIds w = ensures λ ids e.
      let (some_id, each) = z.array_of String 1 (id_text z) w ids e in
      (
        some_id,
        All-mono _ _ ids (λ id accepted. (z.string_in_range 1 none accepted.0 id accepted.1).0)
            each,
      )

  -- What a plan's body is read as.
  abbrev pub IsPlanBody : z.Value → PlanInput → Type 0
  IsPlanBody v i =
      IsKey i.idempotency_key
      × AreIds i.finding_ids
      × (z.field v "dryRun" ≡ some z.undefined → i.dry_run ≡ true)

  dry_run_default :
      (v : z.Value)
      → Ensures
          (λ dry_run. z.field v "dryRun" ≡ some z.undefined → dry_run ≡ true)
          (z.field v "dryRun" >>= z.default Bool true z.boolean)
  dry_run_default v = bind-Ensures λ w at_w. ensures λ dry_run e missing.
      let same : w ≡ z.undefined = cc in
      some_inj
        (sym e ∙ ap (z.default Bool true z.boolean) same ∙ z.default_missing Bool true z.boolean)

  IsPlanBody-Ensures : (v : z.Value) → Ensures (IsPlanBody v) (create_remediation_plan_schema z v)
  unfolding create_remediation_plan_schema
  IsPlanBody-Ensures v = bind-Ensures λ ids e. bind-Ensures λ dry_run e'. bind-Ensures λ key e''.
      some-Ensures _ (
        of_Ensures (key_field-IsKey v) e'',
        of_Ensures (bind-Ensures λ w at_w. finding_ids-AreIds w) e,
        of_Ensures (dry_run_default v) e',
      )

  execute_body-Ensures :
      (v : z.Value)
      → Ensures
          (λ i. (16 ≤ z.units i.approval_token) × IsKey i.idempotency_key)
          (execute_remediation_schema z v)
  unfolding execute_remediation_schema
  execute_body-Ensures v = bind-Ensures λ token e. bind-Ensures λ key e'. some-Ensures _ (
    of_Ensures {P = λ t. 16 ≤ z.units t}
        (bind-Ensures λ w at_w. ensures λ t a. (z.string_in_range 16 none w t a).0) e,
    of_Ensures (key_field-IsKey v) e',
  )

  -- A body that its schema accepts has an idempotency key of 8 to 128 characters where it has one,
  -- for a new job, a new plan and an execution; a new plan names at least one finding and no empty
  -- id, and is a dry run if the body does not say; an execution's token has at least 16 characters.
  pub bodies_in_range :
      (v : z.Value)
      → ((i : CreateInput) → create_diagnostic_job_schema z v ≡ some i → IsKey i.idempotency_key)
        × ((i : PlanInput) → create_remediation_plan_schema z v ≡ some i → IsPlanBody v i)
        × ((i : ExecuteInput)
            → execute_remediation_schema z v ≡ some i
            → (16 ≤ z.units i.approval_token) × IsKey i.idempotency_key)
  bodies_in_range v = (
    λ i. of_Ensures (job_body-Ensures v),
    λ i. of_Ensures (IsPlanBody-Ensures v),
    λ i. of_Ensures (execute_body-Ensures v),
  )
