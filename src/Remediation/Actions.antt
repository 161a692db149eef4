-- ===== src/Remediation/Actions.antt =====
-- apps/api/src/services/remediation-service.ts: the loop of `execute` over the actions of a plan.
pub mod Loop
pub mod Stored
use cloudops_sentinel.Base.{
  ◌+◌, String, ◌==◌, Bool, true, false, ◌&&◌, ◌||◌, not, none, some, List, [], ◌∷◌, ◌++◌, map,
  if◌then◌else◌,
}
use cloudops_sentinel.Text.{put, map_get}
use cloudops_sentinel.Errors.{Result, ok, err}
use cloudops_sentinel.Store.{update_many}
use cloudops_sentinel.Types.Resource.{CloudResource, ProviderName, mock}
use cloudops_sentinel.Types.Plan.{
  RemediationAction, ActionResult, Snapshot, ActionTarget, AfterState, preview, applied,
}
use cloudops_sentinel.Db.{ApiConfig}
use cloudops_sentinel.Remediation.Engine.{apply_simulated_action}

abbrev pub is_mock : ProviderName → Bool
is_mock mock = true
is_mock _ = false

-- The variables of the loop over the actions: the documents in `byId`, the collection, and the
-- snapshots and results so far.
pub record Progress : Type 0 where
  pub docs : List CloudResource
  pub stored : List CloudResource
  pub before_state : List (String × Snapshot)
  pub after_state : List (String × AfterState)
  pub results : List ActionResult

abbrev pub target_of : CloudResource → ActionTarget
target_of r = record { tags = r.tags; config = r.config; metrics = r.metrics }

abbrev pub snapshot_of : CloudResource → Snapshot
snapshot_of r = record { tags = r.tags; config = r.config }

abbrev pub changed_by : ActionTarget → CloudResource → CloudResource
changed_by t r = record r {
  tags = t.tags;
  config = t.config;
  metrics = t.metrics;
  version = r.version + 1;
}

abbrev pub missing_result : RemediationAction → ActionResult
missing_result action = record {
  action_type = action.action_type;
  resource_id = action.resource_id;
  ok = false;
  message = "Resource not found in workspace";
  simulated = true;
}

-- Whether the changed resource is saved.
unfoldable pub saves : ApiConfig → (dry_run : Bool) → Bool
saves config dry_run =
    (dry_run || is_mock config.cloud_provider || not config.enable_aws_mutations) && not dry_run

module _ (config : ApiConfig) (dry_run : Bool) (action : RemediationAction) where
  -- The rest of a round, once the action is applied to the resource that it names.
  unfoldable pub record_action : Progress → CloudResource → ActionTarget × ActionResult → Progress
  unfolding saves
  record_action s resource (next, result) =
      let saved = saves config dry_run in
      let now_is = if saved then changed_by next resource else resource in
      record {
        docs =
            if saved then map (λ r. if r.id == resource.id then now_is else r) s.docs else s.docs;
        stored =
            if saved
            then (update_many (λ r. r.id == resource.id)
                (λ r. record r {
                  tags = now_is.tags;
                  config = now_is.config;
                  metrics = now_is.metrics;
                  version = now_is.version;
                })
                s.stored).0
            else s.stored;
        before_state = put action.resource_id (snapshot_of resource) s.before_state;
        after_state =
            put action.resource_id (if dry_run then preview next else applied (snapshot_of now_is))
              s.after_state;
        results = s.results ++ result ∷ [];
      }

  -- One round of the loop; what was saved stays saved if it throws.
  unfoldable pub run_action : Progress → Progress × Result (Unit {0})
  run_action s = elim (map_get (λ (r : CloudResource). r.id) action.resource_id s.docs) [
    | none ↦ (record s { results = s.results ++ missing_result action ∷ [] }, ok tt)
    | some resource ↦ elim (apply_simulated_action (target_of resource) action) [
      | err e ↦ (
        record s { before_state = put action.resource_id (snapshot_of resource) s.before_state },
        err e,
      )
      | ok p ↦ (record_action s resource p, ok tt)
    ]
  ]

unfoldable pub run_actions :
    ApiConfig → (dry_run : Bool) → List RemediationAction → Progress → Progress × Result (Unit {0})
run_actions config dry_run [] s = (s, ok tt)
run_actions config dry_run (a ∷ actions) s =
    let (s', r) = run_action config dry_run a s in
    let rest = run_actions config dry_run actions s' in elim r [ ok u ↦ rest | err e ↦ (s', err e) ]
