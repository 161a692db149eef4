-- ===== src/Remediation/Engine/Achieves.antt =====
-- What the simulated actions of engine.ts change, and what they leave alone.
use cloudops_sentinel.Base.{
  min, ◌⊎◌, ℕ, ◌≤◌, String, ◌≡◌, refl, sym, subst, ◌∙◌, ◌≢◌, inl, inr, true, false, some, get_or,
  List, [], ◌∷◌, ◌++◌, arith, eq_iff, eq_refl, Bool-cases,
}
use cloudops_sentinel.Text.{template, get-put_ne, get-put_self, includes, get}
use cloudops_sentinel.Errors.{ok}
use cloudops_sentinel.Types.Plan.{RemediationAction, ActionResult, ActionTarget}
use cloudops_sentinel.Remediation.Engine.{
  healthy, apply_simulated_action, copied, add_missing_tag, create_alarm, enable_backup_policy,
  restart_unhealthy_service, restrict_public_storage, with_alarm,
}
use cloudops_sentinel.Remediation.Engine.Cases.{
  perform_cases, tags, alarms, backs_up, restarts, restricts, refuses, ok_fst,
}

-- What an action of each type brings about, whatever the resource was like; a missing list of
-- alarms counts as empty.
pub data Achieves (action : RemediationAction) (before after : ActionTarget) : Type 0 where
  tagged :
      action.action_type ≡ "add_missing_tag"
      → (key value : String) → (key ≡ get_or (get "key" action.params) "Owner")
      → (value ≡ get_or (get "value" action.params) "platform")
      → (get key after.tags ≡ some value)
      → ((j : String) → j ≢ key → get j after.tags ≡ get j before.tags)
      → after.config ≡ (copied before).config
      → after.metrics ≡ before.metrics
      → Achieves action before after
  alarmed :
      action.action_type ≡ "create_alarm"
      → (alarm : String) (alarms : List String)
      → (alarm
          ≡ get_or (get "alarmName" action.params) (template (action.resource_id ∷ "-health" ∷ [])))
      → includes alarm alarms ≡ true
      → ((a : String)
          → includes a (get_or before.config.alarms []) ≡ true
          → includes a alarms ≡ true)
      → ((a : String)
          → a ≢ alarm
          → includes a alarms ≡ true
          → includes a (get_or before.config.alarms []) ≡ true)
      → after.tags ≡ before.tags
      → after.config ≡ record (before.config) { alarms = some alarms }
      → after.metrics ≡ before.metrics
      → Achieves action before after
  backed_up :
      action.action_type ≡ "enable_backup_policy"
      → after.config.backup_enabled ≡ some true
      → after.tags ≡ before.tags
      → after.config ≡ record ((copied before).config) { backup_enabled = some true }
      → after.metrics ≡ before.metrics
      → Achieves action before after
  restarted :
      action.action_type ≡ "restart_unhealthy_service"
      → (rate : ℕ) → after.config.health_check_status ≡ some healthy
      → after.metrics.error_rate ≡ some rate
      → rate ≤ 10
      → rate ≤ get_or before.metrics.error_rate 0
      → (rate ≡ 10) ⊎ (rate ≡ get_or before.metrics.error_rate 0)
      → after.tags ≡ before.tags
      → after.config ≡ record ((copied before).config) { health_check_status = some healthy }
      → after.metrics ≡ record (before.metrics) { error_rate = some rate }
      → Achieves action before after
  restricted :
      action.action_type ≡ "restrict_public_storage"
      → after.config.public_access ≡ some false
      → after.tags ≡ before.tags
      → after.config ≡ record ((copied before).config) { public_access = some false }
      → after.metrics ≡ before.metrics
      → Achieves action before after

min_either : (a b : ℕ) → (min a b ≡ b) ⊎ (min a b ≡ a)
min_either a b = ground arith

includes-append_self : (a : String) (xs : List String) → includes a (xs ++ a ∷ []) ≡ true
unfolding includes
includes-append_self a [] = ground (arith, eq_refl a)
includes-append_self a (b ∷ bs) = ground (arith, includes-append_self a bs)

includes-append_left :
    (a : String) (xs bs : List String) → includes a xs ≡ true → includes a (xs ++ bs) ≡ true
unfolding includes
includes-append_left a [] bs h = cc
includes-append_left a (b ∷ xs) bs h = ground (arith, includes-append_left a xs bs)

pub includes-with_alarm : (a : String) (xs : List String) → includes a (with_alarm a xs) ≡ true
includes-with_alarm a xs = elim (Bool-cases (includes a xs)) [
  | inl old ↦ rw old old
  | inr new ↦ rw new (includes-append_self a xs)
]

with_alarm_keeps :
    (a b : String) (xs : List String) → includes b xs ≡ true → includes b (with_alarm a xs) ≡ true
with_alarm_keeps a b xs h = elim (Bool-cases (includes a xs)) [
  | inl old ↦ rw old h
  | inr new ↦ rw new (includes-append_left b xs (a ∷ []) h)
]

includes-append_other :
    (a b : String) (xs : List String)
    → b ≢ a
    → includes b (xs ++ a ∷ []) ≡ true
    → includes b xs ≡ true
unfolding includes
includes-append_other a b [] n h = absurd (n (sym ((eq_iff a b).0 (ground arith))))
includes-append_other a b (x ∷ xs) n h = ground (arith, includes-append_other a b xs n)

with_alarm_only :
    (a b : String) (xs : List String)
    → b ≢ a
    → includes b (with_alarm a xs) ≡ true
    → includes b xs ≡ true
with_alarm_only a b xs n h = elim (Bool-cases (includes a xs)) [
  | inl old ↦ subst (λ l. includes b l ≡ true) (rw old refl) h
  | inr new ↦ includes-append_other a b xs n (subst (λ l. includes b l ≡ true) (rw new refl) h)
]

-- An action that is carried out achieves what its type is for, and changes nothing else: a tag has
-- the key and the value of its parameters, or Owner and platform, and the other tags stay; the alarm
-- of its parameters, or one named for the resource, is there beside those that were there, and no
-- other; backups are on; public access is off; or the service is healthy with an error rate of at
-- most 0.01, which is what it was where that is not more.
pub apply-Achieves :
    (before after : ActionTarget) (action : RemediationAction) (result : ActionResult)
    → apply_simulated_action before action ≡ ok (after, result)
    → Achieves action before after
unfolding add_missing_tag create_alarm enable_backup_policy restart_unhealthy_service
    restrict_public_storage
apply-Achieves before after action result h = elim (perform_cases before action) [
  | tags e p ↦ subst (Achieves action before) (ok_fst (sym p ∙ h)) (
      tagged e (get_or (get "key" action.params) "Owner")
        (get_or (get "value" action.params) "platform") refl refl (get-put_self _ _ before.tags)
        (λ j n. get-put_ne _ j _ before.tags n) refl refl)
  | alarms e p ↦ subst (Achieves action before) (ok_fst (sym p ∙ h)) (
      alarmed e _ _ refl (includes-with_alarm _ (get_or before.config.alarms []))
        (λ b. with_alarm_keeps _ b (get_or before.config.alarms []))
        (λ b. with_alarm_only _ b (get_or before.config.alarms [])) refl refl refl)
  | backs_up e p ↦
      subst (Achieves action before) (ok_fst (sym p ∙ h)) (backed_up e refl refl refl refl)
  | restarts e p ↦
      subst (Achieves action before) (ok_fst (sym p ∙ h))
        (restarted e _ refl refl (omega arith) (omega arith) (min_either _ 10) refl refl refl)
  | restricts e p ↦
      subst (Achieves action before) (ok_fst (sym p ∙ h)) (restricted e refl refl refl refl)
  | refuses n p ↦ absurd (cc (h, p))
]
