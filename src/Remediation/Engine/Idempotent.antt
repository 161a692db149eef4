-- ===== src/Remediation/Engine/Idempotent.antt =====
-- A simulated action of engine.ts that is applied again changes nothing more.
use cloudops_sentinel.Base.{min, ℕ, String, ◌≡◌, refl, sym, ap, ◌∙◌, get_or, List, [], ◌∷◌, arith}
use cloudops_sentinel.Text.{includes, put-put, get}
use cloudops_sentinel.Errors.{ok}
use cloudops_sentinel.Types.Plan.{RemediationAction, ActionResult, ActionTarget}
use cloudops_sentinel.Remediation.Engine.{
  template, apply_simulated_action, copied, add_missing_tag, create_alarm, enable_backup_policy,
  restart_unhealthy_service, restrict_public_storage, with_alarm,
}
use cloudops_sentinel.Remediation.Engine.Cases.{
  perform_cases, tags, alarms, backs_up, restarts, restricts, refuses, ok_fst,
}
use cloudops_sentinel.Remediation.Engine.Achieves.{includes-with_alarm}

with_alarm_idem : (a : String) (xs : List String) → with_alarm a (with_alarm a xs) ≡ with_alarm a xs
with_alarm_idem a xs = rw (includes-with_alarm a xs) refl

min_idem : (a b : ℕ) → min (min a b) b ≡ min a b
min_idem a b = omega arith

abbrev apply_with :
    (ActionTarget → RemediationAction → ActionTarget × ActionResult)
    → ActionTarget
    → RemediationAction
    → ActionTarget × ActionResult
apply_with f r action = f (copied r) action

module _ (r : ActionTarget) (action : RemediationAction) where
  add_missing_tag_idem :
      apply_with add_missing_tag (apply_with add_missing_tag r action).0 action
      ≡ apply_with add_missing_tag r action
  unfolding add_missing_tag
  add_missing_tag_idem =
      rw
        (put-put (get_or (get "key" action.params) "Owner")
          (get_or (get "value" action.params) "platform") r.tags)
        refl

  create_alarm_idem :
      apply_with create_alarm (apply_with create_alarm r action).0 action
      ≡ apply_with create_alarm r action
  unfolding create_alarm
  create_alarm_idem =
      rw
        (with_alarm_idem
          (get_or (get "alarmName" action.params) (template (action.resource_id ∷ "-health" ∷ [])))
          (get_or r.config.alarms []))
        refl

  restart_idem :
      apply_with restart_unhealthy_service (apply_with restart_unhealthy_service r action).0 action
      ≡ apply_with restart_unhealthy_service r action
  unfolding restart_unhealthy_service
  restart_idem = rw (min_idem (get_or r.metrics.error_rate 0) 10) refl

module _ (f : ActionTarget → RemediationAction → ActionTarget × ActionResult)
    (before after : ActionTarget) (action : RemediationAction) (result : ActionResult) where
  performed_twice :
      ((r : ActionTarget) → apply_simulated_action r action ≡ ok (apply_with f r action))
      → apply_with f (apply_with f before action).0 action ≡ apply_with f before action
      → apply_simulated_action before action ≡ ok (after, result)
      → apply_simulated_action after action ≡ ok (after, result)
  performed_twice always idem h =
      let same : (apply_with f before action).0 ≡ after = ok_fst (sym (always before) ∙ h) in
      always after
      ∙ ap ok (ap (λ r. apply_with f r action) (sym same) ∙ idem)
      ∙ sym (always before)
      ∙ h

-- Carrying out an action a second time changes nothing more, and reports the same.
pub apply_idempotent :
    (before after : ActionTarget) (action : RemediationAction) (result : ActionResult)
    → apply_simulated_action before action ≡ ok (after, result)
    → apply_simulated_action after action ≡ ok (after, result)
unfolding apply_simulated_action includes
apply_idempotent before after action result h = elim (perform_cases before action) [
  | tags e p ↦
      performed_twice add_missing_tag before after action result (λ r. rw e refl)
        (add_missing_tag_idem before action) h
  | alarms e p ↦
      performed_twice create_alarm before after action result (λ r. rw e refl)
        (create_alarm_idem before action) h
  | backs_up e p ↦
      performed_twice enable_backup_policy before after action result (λ r. rw e refl)
        (unfold enable_backup_policy in refl) h
  | restarts e p ↦
      performed_twice restart_unhealthy_service before after action result (λ r. rw e refl)
        (restart_idem before action) h
  | restricts e p ↦
      performed_twice restrict_public_storage before after action result (λ r. rw e refl)
        (unfold restrict_public_storage in refl) h
  | refuses n p ↦ absurd (cc (h, p))
]
