-- ===== src/Remediation/Plans/Made.antt =====
-- The plans that `createPlan` makes, and the ways in which a call of it can end.
use cloudops_sentinel.Base.{
  ℕ, String, ◌≡◌, refl, subst, inl, inr, Bool, true, false, Option, none, some, List, [], ◌∷◌, ◌++◌,
  Memᴰ, arith, ◌==◌, eq_iff, nat_eq, Bool-cases, Option-cases, length, All, All-of_mem,
}
use cloudops_sentinel.Db.{Db, Mongo, record_audit}
use cloudops_sentinel.Errors.{not_found_error, AppError, Result, ok, err, and_then-ok, guard}
use cloudops_sentinel.Text.{includes, map_get}
use cloudops_sentinel.Store.{find_one}
use cloudops_sentinel.Store.Laws.{find_one_sound}
use cloudops_sentinel.Types.{allowlisted_actions, awaiting_approval}
use cloudops_sentinel.Types.Plan.{
  AuditEvent, RemediationAction, RemediationPlan, Finding, Recommendation,
}
use cloudops_sentinel.Remediation.Execute.Checks.{and_both}
use cloudops_sentinel.Remediation.Engine.{assert_allowlisted}
use cloudops_sentinel.Remediation.Service.{has_plan_key}
use cloudops_sentinel.Remediation.Plans.{
  plan_document, actions_for, action_for, PlanInput, create_plan, keep_some, action_type_for,
  new_plan, fresh_plan, find_findings, find_recommendations,
}

abbrev pub AllListed : List RemediationAction → Type 0
AllListed = All (λ a. includes a.action_type allowlisted_actions ≡ true)

guarded : (b : Bool) (e : AppError) {u : Unit {0}} → guard b e ≡ ok u → b ≡ true
guarded true e h = refl
guarded false e h = cc

-- An action comes from a finding among those given, on its resource, and is in the allowlist.
abbrev pub IsFrom : List Finding → RemediationAction → Type 0
IsFrom findings a =
    (f : Finding) × Memᴰ f findings
    × (a.finding_id ≡ f.id)
    × (a.resource_id ≡ f.resource_id)
    × (includes a.action_type allowlisted_actions ≡ true)

action_for-IsFrom :
    (recs : List Recommendation) (f : Finding) {a : RemediationAction}
    → action_for recs f ≡ ok (some a)
    → (a.finding_id ≡ f.id)
      × (a.resource_id ≡ f.resource_id)
      × (includes a.action_type allowlisted_actions ≡ true)
unfolding action_for assert_allowlisted
action_for-IsFrom recs f {a} h =
    elim (Bool-cases (
      action_type_for (map_get (λ (r : Recommendation). r.finding_id) f.id recs) f
      == "manual_review")) [
        | inl manual ↦ absurd (ground arith)
        | inr listed ↦ (ground arith, ground arith, ground arith)
      ]

ok_eq {ℓ} : {A : Type ℓ} {x y : A} → ok x ≡ ok y → x ≡ y
ok_eq h = ground arith

kept :
    (recs : List Recommendation) (all : List Finding) (f : Finding) (o : Option RemediationAction)
    (rest : List RemediationAction)
    → Memᴰ f all
    → action_for recs f ≡ ok o
    → All (IsFrom all) rest
    → All (IsFrom all) (keep_some o rest)
kept recs all f none rest m h k = k
kept recs all f (some a) rest m h k =
    let (named, on, listed) = action_for-IsFrom recs f h in ((f, m, named, on, listed), k)

actions_for-IsFrom :
    (recs : List Recommendation) (all fs : List Finding) {as' : List RemediationAction}
    → ((f : Finding) → Memᴰ f fs → Memᴰ f all)
    → actions_for recs fs ≡ ok as'
    → All (IsFrom all) as'
unfolding actions_for
actions_for-IsFrom recs all [] {as'} sub h = subst (All (IsFrom all)) (ok_eq h) tt
actions_for-IsFrom recs all (f ∷ fs) {as'} sub h =
    let (o, more, this) = and_then-ok _ (action_for recs f) h in
    let (rest, same, those) = and_then-ok _ (actions_for recs fs) more in
    subst (All (IsFrom all)) (ok_eq same) (
      kept recs all f o rest (sub f (Memᴰ.head refl)) this
        (actions_for-IsFrom recs all fs (λ g m. sub g (Memᴰ.tail m)) those))

module _ (mongo : Mongo) (workspace_id actor_id correlation_id : String) (input : PlanInput)
    (plan_id : String) (now : ℕ) (d : Db) where
  -- A finding that the caller names, in the workspace.
  abbrev pub IsAsked : Finding → Type 0
  IsAsked f =
      Memᴰ f d.findings × (f.workspace_id ≡ workspace_id) × (includes f.id input.finding_ids ≡ true)

  pub data Planned (r : Db × Result (RemediationPlan × Bool)) : Type 0 where
    -- The key has been used in the workspace: its plan is given back, and nothing is written.
    replay :
        (plan : RemediationPlan)
        → Memᴰ plan d.plans
        → plan.workspace_id ≡ workspace_id
        → plan.idempotency_key ≡ input.idempotency_key
        → r ≡ (d, ok (plan, true))
        → Planned r
    -- A finding is missing, or its action is not in the allowlist: nothing is written.
    refusal : (e : AppError) → r ≡ (d, err e) → Planned r
    -- A new plan waits for an approval.
    made :
        (d' : Db) (plan : RemediationPlan) (findings : List Finding)
        → d'.plans ≡ d.plans ++ plan ∷ []
        → (d'.executions ≡ d.executions)
          × (d'.approvals ≡ d.approvals)
          × (d'.resources ≡ d.resources)
        → (plan.status ≡ awaiting_approval)
          × (plan.id ≡ plan_id)
          × (plan.workspace_id ≡ workspace_id)
          × (plan.dry_run ≡ input.dry_run)
          × (plan.idempotency_key ≡ input.idempotency_key)
        → All IsAsked findings
        → length findings ≡ length input.finding_ids
        → All (IsFrom findings) plan.actions
        → (e : AuditEvent) × (d'.audits ≡ d.audits ++ e ∷ [])
        → r ≡ (d', ok (plan, false))
        → Planned r

  abbrev found : List Finding
  found = find_findings mongo workspace_id input.finding_ids d

  abbrev recs : List Recommendation
  recs = find_recommendations mongo workspace_id found d

  abbrev planned : Db × Result (RemediationPlan × Bool)
  planned = fresh_plan mongo workspace_id actor_id correlation_id input plan_id now d

  All-IsAsked : All IsAsked found
  All-IsAsked = All-of_mem _ found λ f m.
      let (listed, hit) = mongo.finding_docs.find_sound _ d.findings f m in
      let (ws, named) =
        and_both (f.workspace_id == workspace_id) (includes f.id input.finding_ids) hit in
      (listed, (eq_iff f.workspace_id workspace_id).0 ws, named)

  abbrev saved : List RemediationAction → Db × Result (RemediationPlan × Bool)
  saved actions = new_plan mongo workspace_id actor_id correlation_id input actions plan_id now d

  abbrev document : List RemediationAction → RemediationPlan
  document actions = plan_document mongo workspace_id actor_id correlation_id input actions plan_id

  actions_ends :
      (r : Result (List RemediationAction))
      → nat_eq (length found) (length input.finding_ids) ≡ true
      → actions_for recs found ≡ r
      → Planned planned
  unfolding fresh_plan new_plan record_audit
  actions_ends (err e) all_found refused = refusal e (rw (fresh_plan, all_found, refused) refl)
  actions_ends (ok actions) all_found built =
      made (saved actions).0 (document actions) found refl (refl, refl, refl)
        (refl, refl, refl, refl, refl) All-IsAsked (ground arith)
        (actions_for-IsFrom recs found found (λ f m. m) built) (_, refl)
        (rw (fresh_plan, all_found, built) refl)

  fresh_ends : Planned planned
  unfolding fresh_plan
  fresh_ends = elim (Bool-cases (nat_eq (length found) (length input.finding_ids))) [
    | inl all_found ↦ actions_ends _ all_found refl
    | inr missing ↦
        refusal (not_found_error "One or more findings were not found in this workspace")
          (rw (fresh_plan, missing) refl)
  ]

  abbrev old : Option RemediationPlan
  old = find_one mongo.plan_docs (has_plan_key workspace_id input.idempotency_key) d.plans

  -- Every call of `createPlan` is one of three: the replay of the plan that the key already has in
  -- the workspace, or a refusal, both of which write nothing; or a new plan, waiting for an approval,
  -- whose actions come from as many findings of the workspace as the caller names, each action on
  -- the resource of its finding and in the allowlist.
  pub create_plan-Planned :
      Planned (create_plan mongo workspace_id actor_id correlation_id input plan_id now d)
  unfolding create_plan
  create_plan-Planned = elim (Option-cases old) [
    | inl new ↦ rw (create_plan, new) fresh_ends
    | inr (x, e) ↦
        let (m, hit) =
          find_one_sound mongo.plan_docs (has_plan_key workspace_id input.idempotency_key) d.plans
            e in
        let (ws, key) =
          and_both (x.workspace_id == workspace_id) (x.idempotency_key == input.idempotency_key)
            hit in
        replay x m ((eq_iff x.workspace_id workspace_id).0 ws)
          ((eq_iff x.idempotency_key input.idempotency_key).0 key) (rw (create_plan, e) refl)
  ]
