-- ===== src/Queue/Rounds.antt =====
-- A job of queue.ts that is tried again and again: by workers that die, and by failures.
use cloudops_sentinel.Base.{
  ℕ, zero, suc, ◌+◌, ◌*◌, String, ◌≡◌, refl, sym, ap, subst, ◌∙◌, true, some, List, [], ◌∷◌, ◌++◌,
  length, All, arith, le→leb,
}
use native.Mathlib.Nat.{zero-mul, add-zero}
use cloudops_sentinel.Store.{Collection, update_many}
use cloudops_sentinel.Store.Laws.{Update-cases, Update-single}
use cloudops_sentinel.Types.{dead_lettered}
use cloudops_sentinel.Types.Job.{DiagnosticJob}
use cloudops_sentinel.Queue.{
  JobQueueConfig, claimable, claim_update, claim, abandoned, recover_update, recover_abandoned,
}
use cloudops_sentinel.Queue.History.{QueueEvent, claims, recovers, step, run}
use cloudops_sentinel.Queue.Tries.{
  Try, tried, next_try, fail_last, fail_early, failing_events, AllIdle, failing_round,
}

recover_single :
    (now : ℕ) (k : DiagnosticJob)
    → abandoned now k ≡ true
    → (recover_abandoned now (k ∷ [])).0 ≡ recover_update now k ∷ []
unfolding recover_abandoned update_many
recover_single now k h = rw h refl

claimed-abandoned :
    (config : JobQueueConfig) (j : DiagnosticJob) (w : String) (now : ℕ)
    → abandoned (now + config.lease_ms) (claim_update config w now j) ≡ true
unfolding abandoned claim_update
claimed-abandoned config j w now =
    le→leb (now + config.lease_ms) (now + config.lease_ms) (omega arith)

pub recovered-claimable :
    (now : ℕ) (k : DiagnosticJob) → claimable now (recover_update now k) ≡ true
unfolding claimable recover_update
recovered-claimable now k = ground arith

module _ (c : Collection DiagnosticJob) (config : JobQueueConfig) where
  -- A worker claims the job at `now` and dies; when its lease is over, the job is recovered.
  unfoldable pub crash_events : (times : ℕ) (w : String) (now : ℕ) → List QueueEvent
  crash_events zero w now = []
  crash_events (suc times) w now =
      claims w now ∷ recovers (now + config.lease_ms) ∷ crash_events times w (now + config.lease_ms)

  claim_single :
      (j : DiagnosticJob) (w : String) (now : ℕ)
      → claimable now j ≡ true
      → (claim c config w now (j ∷ [])).0 ≡ claim_update config w now j ∷ []
  unfolding claim
  claim_single j w now h =
      ap (λ r. r.0)
        (Update-single _ _ j _ (Update-cases c (claimable now) (claim_update config w now) (j ∷ []))
          h)

  crash_round :
      (j : DiagnosticJob) (w : String) (now : ℕ)
      → claimable now j ≡ true
      → (k : DiagnosticJob) × (step c config
            (step c config (j ∷ []) (claims w now))
            (recovers (now + config.lease_ms))
          ≡ k ∷ [])
        × (claimable (now + config.lease_ms) k ≡ true)
        × (k.attempts ≡ j.attempts + 1)
        × (k.max_attempts ≡ j.max_attempts)
  unfolding step
  crash_round j w now h =
      let later = now + config.lease_ms in
      let k = claim_update config w now j in
      let claimed : (claim c config w now (j ∷ [])).0 ≡ k ∷ [] = claim_single j w now h in
      (
        recover_update later k,
        rw claimed (recover_single later k (claimed-abandoned config j w now)),
        recovered-claimable later k,
        unfold claim_update recover_update in refl,
        unfold claim_update recover_update in refl,
      )

  -- Recovery gets round the budget: however often the worker that runs a job dies before its lease
  -- is over, the job is recovered, can be claimed again, and has been tried that many times more,
  -- with no regard to its maximum of attempts.
  pub crash_attempts :
      (times : ℕ) (j : DiagnosticJob) (w : String) (now : ℕ)
      → claimable now j ≡ true
      → (k : DiagnosticJob) × (run c config (j ∷ []) (crash_events times w now) ≡ k ∷ [])
        × (claimable (now + times * config.lease_ms) k ≡ true)
        × (k.attempts ≡ j.attempts + times)
        × (k.max_attempts ≡ j.max_attempts)
  unfolding run crash_events
  crash_attempts zero j w now h = (j, refl, rw zero-mul (rw add-zero h), omega arith, refl)
  crash_attempts (suc times) j w now h =
      let (k, e, h', a, m) = crash_round j w now h in
      let (k', e', h'', a', m') = crash_attempts times k w (now + config.lease_ms) h' in
      let at : now + config.lease_ms + times * config.lease_ms ≡ now + suc times * config.lease_ms =
        grind arith in
      (
        k',
        ap (λ js. run c config js (crash_events times w (now + config.lease_ms))) e ∙ e',
        subst (λ t. claimable t k' ≡ true) at h'',
        omega (arith, a, a'),
        m' ∙ m,
      )

  module _ (id : String) (pre post : List DiagnosticJob) (before : AllIdle id pre)
      (after : AllIdle id post) where
    -- In a queue where no other job waits or has its id, a job that is due and has some attempts
    -- left is put in the dead letters by exactly that many tries with no other call in between,
    -- whoever claims it, however long each try runs before it fails and however long past its delay
    -- each retry begins, though every failure but the last is retryable: its attempts are then its
    -- maximum, the last failure is recorded, and the other jobs are as they were.
    pub failing_dead_letters :
        (rs : List Try) (last : Try) (j : DiagnosticJob) (now : ℕ)
        → claimable now j ≡ true
        → j.id ≡ id
        → All (λ r. r.error.retryable ≡ true) rs
        → j.attempts + suc (length rs) ≡ j.max_attempts
        → (k : DiagnosticJob) × (run c config
              (pre ++ j ∷ post)
              (failing_events c config (rs ++ last ∷ []) id j.attempts now)
            ≡ pre ++ k ∷ post)
          × (k.status ≡ dead_lettered)
          × (k.attempts ≡ j.max_attempts)
          × (k.last_error ≡ some last.error)
    unfolding run failing_events
    failing_dead_letters [] last j now h same retryable left =
        let (s, a, e) = fail_last config last now j (omega arith) in
        (
          tried config last now j,
          failing_round c config id pre post before after j last now h same,
          s,
          a,
          e,
        )
    failing_dead_letters (r ∷ rs) last j now h same (retryable, others) left =
        let k = tried config r now j in
        let (h', a, m, i) = fail_early config r now j retryable (omega arith) in
        let (d, ran, s, a', e) =
          failing_dead_letters rs last k (next_try config r (j.attempts + 1) now) h' (i ∙ same)
            others (omega (arith, a, m)) in
        let later : List DiagnosticJob → ℕ → List DiagnosticJob = λ js n. run c config js (
          failing_events c config (rs ++ last ∷ []) id n
            (next_try config r (j.attempts + 1) now)) in
        (
          d,
          ap (λ js. later js (j.attempts + 1))
                (failing_round c config id pre post before after j r now h same)
              ∙ ap (λ n. later (pre ++ k ∷ post) n) (sym a)
              ∙ ran,
          s,
          a' ∙ m,
          e,
        )
