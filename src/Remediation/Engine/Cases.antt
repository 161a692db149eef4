-- ===== src/Remediation/Engine/Cases.antt =====
-- Which actions engine.ts carries out: exactly those in the allowlist.
use cloudops_sentinel.Base.{
  String, ◌≡◌, refl, sym, ◌⊎◌, inl, inr, true, false, arith, ◌==◌, eq_iff, Bool-cases,
}
use cloudops_sentinel.Text.{includes}
use cloudops_sentinel.Errors.{Result, ok, err}
use cloudops_sentinel.Types.{allowlisted_actions}
use cloudops_sentinel.Types.Plan.{RemediationAction, ActionResult, ActionTarget}
use cloudops_sentinel.Remediation.Engine.{
  not_allowlisted, apply_simulated_action, copied, add_missing_tag, create_alarm,
  enable_backup_policy, restart_unhealthy_service, restrict_public_storage,
}

-- The five actions.
data IsListed (s : String) : Type 0 where
  tag : s ≡ "add_missing_tag" → IsListed s
  alarm : s ≡ "create_alarm" → IsListed s
  backup : s ≡ "enable_backup_policy" → IsListed s
  restart : s ≡ "restart_unhealthy_service" → IsListed s
  restrict : s ≡ "restrict_public_storage" → IsListed s

listed_cases : (s : String) → includes s allowlisted_actions ≡ true → IsListed s
unfolding includes
listed_cases s h = elim (Bool-cases ("add_missing_tag" == s)) [
  | inl e ↦ tag (sym ((eq_iff _ s).0 e))
  | inr n1 ↦ elim (Bool-cases ("create_alarm" == s)) [
    | inl e ↦ alarm (sym ((eq_iff _ s).0 e))
    | inr n2 ↦ elim (Bool-cases ("enable_backup_policy" == s)) [
      | inl e ↦ backup (sym ((eq_iff _ s).0 e))
      | inr n3 ↦ elim (Bool-cases ("restart_unhealthy_service" == s)) [
        | inl e ↦ restart (sym ((eq_iff _ s).0 e))
        | inr n4 ↦ restrict (sym ((eq_iff _ s).0 (ground arith)))
      ]
    ]
  ]
]

-- Which action is carried out, or that none is.
pub data Performs (resource : ActionTarget) (action : RemediationAction)
    (r : Result (ActionTarget × ActionResult)) : Type 0 where
  tags :
      action.action_type ≡ "add_missing_tag"
      → r ≡ ok (add_missing_tag (copied resource) action)
      → Performs resource action r
  alarms :
      action.action_type ≡ "create_alarm"
      → r ≡ ok (create_alarm (copied resource) action)
      → Performs resource action r
  backs_up :
      action.action_type ≡ "enable_backup_policy"
      → r ≡ ok (enable_backup_policy (copied resource) action)
      → Performs resource action r
  restarts :
      action.action_type ≡ "restart_unhealthy_service"
      → r ≡ ok (restart_unhealthy_service (copied resource) action)
      → Performs resource action r
  restricts :
      action.action_type ≡ "restrict_public_storage"
      → r ≡ ok (restrict_public_storage (copied resource) action)
      → Performs resource action r
  refuses :
      includes action.action_type allowlisted_actions ≡ false
      → r ≡ err (not_allowlisted action.action_type)
      → Performs resource action r

module _ (resource : ActionTarget) (action : RemediationAction) where
  listed-Performs :
      includes action.action_type allowlisted_actions ≡ true
      → IsListed action.action_type
      → Performs resource action (apply_simulated_action resource action)
  unfolding apply_simulated_action
  listed-Performs h (tag e) = tags e (rw h (rw e refl))
  listed-Performs h (alarm e) = alarms e (rw h (rw e refl))
  listed-Performs h (backup e) = backs_up e (rw h (rw e refl))
  listed-Performs h (restart e) = restarts e (rw h (rw e refl))
  listed-Performs h (restrict e) = restricts e (rw h (rw e refl))

  pub perform_cases : Performs resource action (apply_simulated_action resource action)
  perform_cases = elim (Bool-cases (includes action.action_type allowlisted_actions)) [
    | inl h ↦ listed-Performs h (listed_cases action.action_type h)
    | inr n ↦ refuses n (unfold apply_simulated_action in rw n refl)
  ]

  -- An action is carried out exactly when its type is in the allowlist, and then reported as a
  -- success of that action on its resource, as a simulated one; any other is refused as not
  -- allowlisted with a 403, so the error for an unsupported action is never reached.
  pub apply_iff_allowlisted :
      ((includes action.action_type allowlisted_actions ≡ true)
        × (after : ActionTarget) × (result : ActionResult) × (apply_simulated_action resource action
            ≡ ok (after, result))
        × (result.ok ≡ true)
        × (result.simulated ≡ true)
        × (result.action_type ≡ action.action_type)
        × (result.resource_id ≡ action.resource_id))
      ⊎ ((includes action.action_type allowlisted_actions ≡ false)
          × (apply_simulated_action resource action ≡ err (not_allowlisted action.action_type)))
  unfolding includes add_missing_tag create_alarm enable_backup_policy restart_unhealthy_service
      restrict_public_storage
  apply_iff_allowlisted = elim perform_cases [
    | tags e h ↦ inl (rw e refl, _, _, h, refl, refl, refl, refl)
    | alarms e h ↦ inl (rw e refl, _, _, h, refl, refl, refl, refl)
    | backs_up e h ↦ inl (rw e refl, _, _, h, refl, refl, refl, refl)
    | restarts e h ↦ inl (rw e refl, _, _, h, refl, refl, refl, refl)
    | restricts e h ↦ inl (rw e refl, _, _, h, refl, refl, refl, refl)
    | refuses n h ↦ inr (n, h)
  ]

pub ok_fst {ℓ κ} :
    {A : Type ℓ} {B : Type κ} {p : A × B} {a : A} {b : B} → ok p ≡ ok (a, b) → p.0 ≡ a
ok_fst h = ground arith
