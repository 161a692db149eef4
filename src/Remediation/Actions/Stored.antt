-- ===== src/Remediation/Actions/Stored.antt =====
-- What the loop of `execute` does to the stored resources: which it may change, and in which fields.
use cloudops_sentinel.Base.{
  All₂-trans, ◌+◌, String, ◌≡◌, refl, sym, ap, subst, ◌∙◌, ◌⊎◌, inl, inr, Bool, false, some, List,
  [], ◌∷◌, map, ◌==◌, eq_iff, if◌then◌else◌, Bool-cases, All, All-mem, All₂, All₂-refl,
}
use cloudops_sentinel.Remediation.Actions.Loop.{
  unknown, refused, carried, Round-cases, run_actions-keeps,
}
use cloudops_sentinel.Store.Laws.{update_many-All₂}
use cloudops_sentinel.Db.{ApiConfig}
use cloudops_sentinel.Text.{map_get_sound, map_get}
use cloudops_sentinel.Types.Resource.{CloudResource}
use cloudops_sentinel.Types.Plan.{RemediationAction, ActionTarget, ActionResult}
use cloudops_sentinel.Remediation.Actions.{
  changed_by, saves, Progress, record_action, run_action, run_actions,
}

-- Only the tags, the config, the metrics and the version may differ.
abbrev pub Keeps : CloudResource → CloudResource → Type 0
Keeps r r' =
    r' ≡ record r { tags = r'.tags; config = r'.config; metrics = r'.metrics; version = r'.version }

Keeps-trans : (r r' r'' : CloudResource) → Keeps r r' → Keeps r' r'' → Keeps r r''
Keeps-trans r r' r'' h k =
    k
    ∙ ap {B = CloudResource}
        (λ (x : CloudResource). record x {
          tags = r''.tags;
          config = r''.config;
          metrics = r''.metrics;
          version = r''.version;
        })
        h

-- A resource after the loop: as it was, or with an id in a set and changed in those fields.
abbrev pub Stays : (String → Type 0) → CloudResource → CloudResource → Type 0
Stays Q r r' = ((r' ≡ r) ⊎ Q r.id) × Keeps r r'

Stays-trans :
    (Q : String → Type 0) (r r' r'' : CloudResource) → Stays Q r r' → Stays Q r' r'' → Stays Q r r''
Stays-trans Q r r' r'' (inr q, k) (_, k') = (inr q, Keeps-trans r r' r'' k k')
Stays-trans Q r r' r'' (inl e, k) (inl e', k') = (inl (e' ∙ e), Keeps-trans r r' r'' k k')
Stays-trans Q r r' r'' (inl e, k) (inr q, k') =
    (inr (subst (λ x. Q x.id) e q), Keeps-trans r r' r'' k k')

Stays-refl : (Q : String → Type 0) (r : CloudResource) → Stays Q r r
Stays-refl Q r = (inl refl, refl)

module _ (Q : String → Type 0) (config : ApiConfig) (dry_run : Bool)
    (from : List CloudResource) where
  abbrev Within : Progress → Type 0
  Within s = All (λ x. Q x.id) s.docs × All₂ (Stays Q) from s.stored

  docs_saved :
      (id : String) (now_is : CloudResource)
      → Q now_is.id
      → (docs : List CloudResource) → All (λ x. Q x.id) docs
      → All (λ x. Q x.id) (map (λ r. if r.id == id then now_is else r) docs)
  docs_saved id now_is q [] h = tt
  docs_saved id now_is q (x ∷ xs) h = elim (Bool-cases (x.id == id)) [
    | inl hit ↦ rw hit (q, docs_saved id now_is q xs h.1)
    | inr miss ↦ rw miss (h.0, docs_saved id now_is q xs h.1)
  ]

  carried-Within :
      (a : RemediationAction) (s : Progress) (resource : CloudResource)
      (p : ActionTarget × ActionResult)
      → map_get (λ (x : CloudResource). x.id) a.resource_id s.docs ≡ some resource
      → Within s
      → Within (record_action config dry_run a s resource p)
  unfolding record_action
  carried-Within a s resource (next, result) found (docs, stored) =
      elim (Bool-cases (saves config dry_run)) [
        | inr kept ↦ rw kept (docs, stored)
        | inl saved ↦
            let (listed, same) =
              map_get_sound (λ (x : CloudResource). x.id) a.resource_id s.docs found in
            let q : Q resource.id = All-mem (λ x. Q x.id) s.docs docs listed in
            rw saved (
              docs_saved resource.id (changed_by next resource) q s.docs docs,
              All₂-trans (Stays Q) (Stays-trans Q) from s.stored _ stored (
                  update_many-All₂ (λ r. r.id == resource.id)
                    (λ r. record r {
                      tags = next.tags;
                      config = next.config;
                      metrics = next.metrics;
                      version = resource.version + 1;
                    })
                    (Stays Q) s.stored (Stays-refl Q)
                    (λ r hit. (inr (subst Q (sym ((eq_iff r.id resource.id).0 hit)) q), refl))),
            )
      ]

  round-Within :
      (a : RemediationAction) (s : Progress) → Within s → Within (run_action config dry_run a s).0
  round-Within a s (docs, stored) = elim (Round-cases config dry_run a s) [
    | unknown e r ↦ rw r (docs, stored)
    | refused x u r ↦ rw r (docs, stored)
    | carried x after result e p q r ↦ rw r (carried-Within a s x (after, result) e (docs, stored))
  ]

  -- A resource that the loop changes has an id among the documents that it works on, and keeps all
  -- but its tags, config, metrics and version.
  pub run_actions-Stays :
      (actions : List RemediationAction) (s : Progress)
      → All (λ x. Q x.id) s.docs
      → s.stored ≡ from
      → All₂ (Stays Q) from (run_actions config dry_run actions s).0.stored
  run_actions-Stays actions s docs same =
      (run_actions-keeps config dry_run Within round-Within actions s
        (docs, rw same (All₂-refl (Stays Q) (Stays-refl Q) from))).1

-- Where the changes are not to be saved, the loop leaves the stored resources alone.
pub run_actions-unsaved :
    (config : ApiConfig) (dry_run : Bool) (actions : List RemediationAction) (s : Progress)
    → saves config dry_run ≡ false
    → (run_actions config dry_run actions s).0.stored ≡ s.stored
unfolding record_action
run_actions-unsaved config dry_run actions s unsaved =
    run_actions-keeps config dry_run (λ s'. s'.stored ≡ s.stored) (λ a s' same. round a s' same)
      actions s refl
  where
    round :
        (a : RemediationAction) (s' : Progress)
        → s'.stored ≡ s.stored
        → (run_action config dry_run a s').0.stored ≡ s.stored
    round a s' same = elim (Round-cases config dry_run a s') [
      | unknown e r ↦ rw r same
      | refused x u r ↦ rw r same
      | carried x after result e p q r ↦ rw r (rw unsaved same)
    ]
