-- ===== src/Remediation/Execute/Checks.antt =====
-- What the checks of `execute` (remediation-service.ts) establish before anything is written.
use cloudops_sentinel.Base.{
  ℕ, ◌≤◌, String, ◌≡◌, sym, ◌≢◌, ◌⊎◌, inl, inr, Bool, true, ◌&&◌, Option, none, some, List, [], ◌∷◌,
  Memᴰ, arith, ◌==◌, eq_iff, Bool-cases,
}
use cloudops_sentinel.Errors.{ok}
use cloudops_sentinel.Auth.{tokens_match}
use cloudops_sentinel.Auth.Guards.{tokens_match_iff}
use cloudops_sentinel.Store.{find_one}
use cloudops_sentinel.Store.Laws.{find_one_sound}
use cloudops_sentinel.Types.{PlanStatus, approved}
use cloudops_sentinel.Types.Resource.{aws}
use cloudops_sentinel.Types.Plan.{RemediationPlan, ApprovalToken}
use cloudops_sentinel.Db.{Db, Mongo, ApiConfig}
use cloudops_sentinel.Remediation.Engine.{reject_mutations_if_disabled}
use cloudops_sentinel.Remediation.Service.{ExecuteInput, has_plan_id, of_plan, is_approved}
use cloudops_sentinel.Remediation.Execute.{
  check_mutations, check_token, check_plan, find_token, authorize,
}

find_token_sound :
    (sha256 : String → String) (token : String) (approvals : List ApprovalToken) {a : ApprovalToken}
    → find_token sha256 token approvals ≡ some a
    → Memᴰ a approvals × (sha256 token ≡ a.token_hash)
unfolding find_token
find_token_sound sha256 token [] h = cc
find_token_sound sha256 token (b ∷ bs) {a} h =
    elim (Bool-cases (tokens_match sha256 token b.token_hash)) [
      | inl hit ↦
          let same : b ≡ a = ground arith in
          (Memᴰ.head (sym same), rw (← same) ((tokens_match_iff sha256 token b.token_hash).0 hit))
      | inr miss ↦
          let (m, e) = find_token_sound sha256 token bs {a = a} (ground arith) in (Memᴰ.tail m, e)
    ]

-- A plan and a token that may be used for it.
pub record IsAuthorized (config : ApiConfig) (sha256 : String → String)
    (workspace_id plan_id : String) (input : ExecuteInput) (now : ℕ) (d : Db)
    (plan : RemediationPlan) (matched : ApprovalToken) : Type 0 where
  pub listed : Memᴰ plan d.plans
  pub plan_is : plan.id ≡ plan_id
  pub workspace : plan.workspace_id ≡ workspace_id
  pub status : plan.status ≡ approved
  pub token_listed : Memᴰ matched d.approvals
  pub token_workspace : matched.workspace_id ≡ workspace_id
  pub token_plan : matched.plan_id ≡ plan_id
  pub hash : sha256 input.approval_token ≡ matched.token_hash
  pub unused : matched.used_at ≡ none
  pub fresh : now ≤ matched.expires_at
  pub allowed :
      (plan.dry_run ≡ true) ⊎ (config.cloud_provider ≢ aws) ⊎ (config.enable_aws_mutations ≡ true)

pub and_both : (a b : Bool) → (a && b) ≡ true → (a ≡ true) × (b ≡ true)
and_both a b h = ground arith

pub plan_id_parts :
    (w id : String) (p : RemediationPlan)
    → has_plan_id w id p ≡ true
    → (p.id ≡ id) × (p.workspace_id ≡ w)
plan_id_parts w id p h =
    let (a, b) = and_both (p.id == id) (p.workspace_id == w) h in
    ((eq_iff p.id id).0 a, (eq_iff p.workspace_id w).0 b)

of_plan_parts :
    (w id : String) (a : ApprovalToken)
    → of_plan w id a ≡ true
    → (a.workspace_id ≡ w) × (a.plan_id ≡ id)
of_plan_parts w id a h =
    let (x, y) = and_both (a.workspace_id == w) (a.plan_id == id) h in
    ((eq_iff a.workspace_id w).0 x, (eq_iff a.plan_id id).0 y)

approved_of : (s : PlanStatus) → is_approved s ≡ true → s ≡ approved
approved_of s h = ground arith

check_plan_sound :
    (o : Option RemediationPlan) (p : RemediationPlan)
    → check_plan o ≡ ok p
    → (o ≡ some p) × (p.status ≡ approved)
unfolding check_plan
check_plan_sound none p h = cc
check_plan_sound (some q) p h = (ground arith, ground arith)

check_token_sound :
    (now : ℕ) (o : Option ApprovalToken) (a : ApprovalToken)
    → check_token now o ≡ ok a
    → (o ≡ some a) × (a.used_at ≡ none) × (now ≤ a.expires_at)
unfolding check_token
check_token_sound now none a h = cc
check_token_sound now (some b) a h = (ground arith, ground arith, ground arith)

check_mutations_sound :
    (config : ApiConfig) (p : RemediationPlan) {u : Unit {0}}
    → check_mutations config p ≡ ok u
    → (p.dry_run ≡ true) ⊎ ((config.cloud_provider ≢ aws) ⊎ (config.enable_aws_mutations ≡ true))
unfolding check_mutations reject_mutations_if_disabled
check_mutations_sound config p h = ground arith

module _ (mongo : Mongo) (config : ApiConfig) (sha256 : String → String)
    (workspace_id plan_id : String) (input : ExecuteInput) (now : ℕ) (d : Db)
    (plan : RemediationPlan) (matched : ApprovalToken)
    (h : authorize mongo config sha256 workspace_id plan_id input now d ≡ ok (plan, matched)) where
  plan_checked :
      check_plan (find_one mongo.plan_docs (has_plan_id workspace_id plan_id) d.plans) ≡ ok plan
  unfolding authorize
  plan_checked = ground arith

  token_checked :
      check_token now (
        find_token sha256 input.approval_token
          (mongo.approval_docs.find (of_plan workspace_id plan_id) d.approvals))
      ≡ ok matched
  unfolding authorize
  token_checked = ground arith

  mutations_checked : check_mutations config plan ≡ ok tt
  unfolding authorize
  mutations_checked = ground arith

  -- What has passed the checks of `execute`: a plan of that id in the workspace which is approved,
  -- and a token that was issued for it in the workspace, whose hash is that of the given text, which
  -- is not used and has not expired; and the plan is a dry run, or the provider is not AWS, or AWS
  -- mutations are enabled.
  pub authorize-IsAuthorized :
      IsAuthorized config sha256 workspace_id plan_id input now d plan matched
  authorize-IsAuthorized =
      let (found, is_ok) = check_plan_sound _ plan plan_checked in
      let (listed, named) =
        find_one_sound mongo.plan_docs (has_plan_id workspace_id plan_id) d.plans found in
      let (same_id, same_ws) = plan_id_parts workspace_id plan_id plan named in
      let (hit, unused, fresh) = check_token_sound now _ matched token_checked in
      let (among, hash) = find_token_sound sha256 input.approval_token _ hit in
      let (stored, mine) =
        mongo.approval_docs.find_sound (of_plan workspace_id plan_id) d.approvals matched among in
      let (token_ws, token_plan) = of_plan_parts workspace_id plan_id matched mine in
      record {
        listed = listed;
        plan_is = same_id;
        workspace = same_ws;
        status = is_ok;
        token_listed = stored;
        token_workspace = token_ws;
        token_plan = token_plan;
        hash = hash;
        unused = unused;
        fresh = fresh;
        allowed = check_mutations_sound config plan mutations_checked;
      }
