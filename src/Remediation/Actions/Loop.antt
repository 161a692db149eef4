-- ===== src/Remediation/Actions/Loop.antt =====
-- The loop of `execute` over the actions of a plan: what a round does, and what all rounds keep.
use cloudops_sentinel.Base.{
  ◌≡◌, refl, sym, ap, subst, ◌∙◌, inl, inr, Bool, true, false, Option, none, some, List, [], ◌∷◌,
  ◌++◌, All,
}
use mathlib.Core.List.{append_assoc, append-nil}
use cloudops_sentinel.Db.{ApiConfig}
use cloudops_sentinel.Errors.{AppError, Result, ok, err}
use cloudops_sentinel.Text.{includes, put, map_get}
use cloudops_sentinel.Types.{allowlisted_actions}
use cloudops_sentinel.Types.Resource.{CloudResource}
use cloudops_sentinel.Types.Plan.{RemediationAction, ActionTarget, ActionResult}
use cloudops_sentinel.Remediation.Engine.{not_allowlisted, apply_simulated_action}
use cloudops_sentinel.Remediation.Engine.Cases.{apply_iff_allowlisted}
use cloudops_sentinel.Remediation.Actions.{
  Progress, record_action, run_action, run_actions, missing_result, snapshot_of, target_of,
}

-- What a round does.
pub data Round (config : ApiConfig) (dry_run : Bool) (action : RemediationAction) (s : Progress)
    (r : Progress × Result (Unit {0})) : Type 0 where
  unknown :
      map_get (λ (x : CloudResource). x.id) action.resource_id s.docs ≡ none
      → r ≡ (record s { results = s.results ++ missing_result action ∷ [] }, ok tt)
      → Round config dry_run action s r
  refused :
      (resource : CloudResource)
      → includes action.action_type allowlisted_actions ≡ false
      → r ≡ (
        record s { before_state = put action.resource_id (snapshot_of resource) s.before_state },
        err (not_allowlisted action.action_type),
      )
      → Round config dry_run action s r
  carried :
      (resource : CloudResource) (after : ActionTarget) (result : ActionResult)
      → map_get (λ (x : CloudResource). x.id) action.resource_id s.docs ≡ some resource
      → apply_simulated_action (target_of resource) action ≡ ok (after, result)
      → (result.ok ≡ true)
        × (result.action_type ≡ action.action_type)
        × (result.resource_id ≡ action.resource_id)
      → r ≡ (record_action config dry_run action s resource (after, result), ok tt)
      → Round config dry_run action s r

module _ (config : ApiConfig) (dry_run : Bool) (action : RemediationAction) (s : Progress) where
  Round-of :
      (o : Option CloudResource)
      → map_get (λ (x : CloudResource). x.id) action.resource_id s.docs ≡ o
      → Round config dry_run action s (run_action config dry_run action s)
  unfolding run_action
  Round-of none e = unknown e (rw (run_action, e) refl)
  Round-of (some resource) e = elim (apply_iff_allowlisted (target_of resource) action) [
    | inl p ↦
        let (listed, after, result, h, is_ok, sim, ty, id) = p in
        carried resource after result e h (is_ok, ty, id) (rw (run_action, e, h) refl)
    | inr p ↦ let (unlisted, h) = p in refused resource unlisted (rw (run_action, e, h) refl)
  ]

  pub Round-cases : Round config dry_run action s (run_action config dry_run action s)
  Round-cases = Round-of _ refl

module _ (config : ApiConfig) (dry_run : Bool) where
  run_actions-next :
      (a : RemediationAction) (actions : List RemediationAction) (s : Progress) {s' : Progress}
      → run_action config dry_run a s ≡ (s', ok tt)
      → run_actions config dry_run (a ∷ actions) s ≡ run_actions config dry_run actions s'
  unfolding run_actions
  run_actions-next a actions s h =
      rw (run_actions, ap (λ p. p.1) h) (ap (λ p. run_actions config dry_run actions p.0) h)

  run_actions-stop :
      (a : RemediationAction) (actions : List RemediationAction) (s : Progress) {s' : Progress}
      {e : AppError}
      → run_action config dry_run a s ≡ (s', err e)
      → run_actions config dry_run (a ∷ actions) s ≡ (s', err e)
  unfolding run_actions
  run_actions-stop a actions s {e = e} h =
      rw (run_actions, ap (λ p. p.1) h) (ap (λ p. (p.0, err e)) h)

  -- What every round keeps, the loop keeps.
  pub run_actions-keeps {κ} :
      (P : Progress → Type κ)
      → ((a : RemediationAction) (s : Progress) → P s → P (run_action config dry_run a s).0)
      → (actions : List RemediationAction) (s : Progress) → P s
      → P (run_actions config dry_run actions s).0
  unfolding run_actions
  run_actions-keeps P keep [] s h = h
  run_actions-keeps P keep (a ∷ actions) s h = elim (Round-cases config dry_run a s) [
    | unknown e r ↦
        rw (run_actions-next a actions s r)
          (run_actions-keeps P keep actions _ (subst (λ x. P x.0) r (keep a s h)))
    | refused x u r ↦ rw (run_actions-stop a actions s r) (subst (λ x. P x.0) r (keep a s h))
    | carried x after result e p q r ↦
        rw (run_actions-next a actions s r)
          (run_actions-keeps P keep actions _ (subst (λ x. P x.0) r (keep a s h)))
  ]

  -- When every action is in the allowlist, the loop returns.
  pub run_actions-ok :
      (actions : List RemediationAction) (s : Progress)
      → All (λ a. includes a.action_type allowlisted_actions ≡ true) actions
      → (run_actions config dry_run actions s).1 ≡ ok tt
  unfolding run_actions
  run_actions-ok [] s h = refl
  run_actions-ok (a ∷ actions) s h = elim (Round-cases config dry_run a s) [
    | unknown e r ↦ rw (run_actions-next a actions s r) (run_actions-ok actions _ h.1)
    | refused x u r ↦ absurd (cc (u, h.0))
    | carried x after result e p q r ↦
        rw (run_actions-next a actions s r) (run_actions-ok actions _ h.1)
  ]

-- A result for an action: of its kind, on its resource.
abbrev pub Answers : RemediationAction → ActionResult → Type 0
Answers a r = (r.action_type ≡ a.action_type) × (r.resource_id ≡ a.resource_id)

-- Results for actions, one for each in its place.
abbrev pub AllAnswered : List RemediationAction → List ActionResult → Type 0
AllAnswered [] [] = Unit
AllAnswered (a ∷ actions) (r ∷ results) = Answers a r × AllAnswered actions results
AllAnswered _ _ = ⊥

module _ (config : ApiConfig) (dry_run : Bool) where
  round-Answers :
      (a : RemediationAction) (s : Progress) {s' : Progress}
      → run_action config dry_run a s ≡ (s', ok tt)
      → (r : ActionResult) × (s'.results ≡ s.results ++ r ∷ []) × Answers a r
  unfolding record_action
  round-Answers a s h = elim (Round-cases config dry_run a s) [
    | unknown e r ↦ (missing_result a, ap (λ p. p.0.results) (sym h ∙ r), (refl, refl))
    | refused x u r ↦ absurd (cc (h, r))
    | carried x after result e p (good, kind, on) r ↦
        (result, ap (λ p. p.0.results) (sym h ∙ r), (kind, on))
  ]

  pub run_actions-AllAnswered :
      (actions : List RemediationAction) (s : Progress)
      → (run_actions config dry_run actions s).1 ≡ ok tt
      → (rs : List ActionResult) × ((run_actions config dry_run actions s).0.results
          ≡ s.results ++ rs)
        × (AllAnswered actions rs)
  unfolding run_actions
  run_actions-AllAnswered [] s h = ([], sym (append-nil s.results), tt)
  run_actions-AllAnswered (a ∷ actions) s h = elim (Round-cases config dry_run a s) [
    | unknown e r ↦ one a actions s r (
        run_actions-AllAnswered actions _
          (ap (λ p. p.1) (sym (run_actions-next config dry_run a actions s r)) ∙ h))
    | refused x u r ↦
        absurd (cc (ap (λ p. p.1) (sym (run_actions-stop config dry_run a actions s r)) ∙ h))
    | carried x after result e p q r ↦ one a actions s r (
        run_actions-AllAnswered actions _
          (ap (λ p. p.1) (sym (run_actions-next config dry_run a actions s r)) ∙ h))
  ]
    where
      one :
          (a : RemediationAction) (actions : List RemediationAction) (s : Progress) {s' : Progress}
          → run_action config dry_run a s ≡ (s', ok tt)
          → (rs : List ActionResult) × ((run_actions config dry_run actions s').0.results
              ≡ s'.results ++ rs)
            × (AllAnswered actions rs)
          → (rs : List ActionResult) × ((run_actions config dry_run (a ∷ actions) s).0.results
              ≡ s.results ++ rs)
            × (AllAnswered (a ∷ actions) rs)
      one a actions s r (rs, e, all) =
          let (x, f, hx) = round-Answers a s r in
          (
            x ∷ rs,
            ap (λ p. p.0.results) (run_actions-next config dry_run a actions s r)
                ∙ e
                ∙ ap (λ l. l ++ rs) f
                ∙ append_assoc s.results (x ∷ []) rs,
            (hx, all),
          )
