-- ===== src/Queue/Depth.antt =====
-- The depth of the queue of queue.ts: what claims take from it and recovery gives back.
use cloudops_sentinel.Base.{
  ℕ, suc, ◌+◌, ◌≤◌, String, ◌&&◌, Option, none, some, leb→le, le→leb, ◌≡◌, refl, sym, inl, inr,
  Bool, true, false, List, [], ◌∷◌, ◌++◌, arith, if◌then◌else◌, Bool-cases, is_some, count, All,
}
use cloudops_sentinel.Store.{Collection, update_many}
use cloudops_sentinel.Store.Laws.{kept, changed, Update-cases}
use cloudops_sentinel.Types.{JobStatus, retry_wait}
use cloudops_sentinel.Types.Job.{DiagnosticJob}
use cloudops_sentinel.Queue.{
  JobQueueConfig, is_waiting, is_running, lease_expired, claimable, claim_update, claim, abandoned,
  recover_update, recover_abandoned, pending_depth,
}

count_both :
    (a b r : ℕ) (test : Bool)
    → a ≡ b + r
    → (if test then suc a else a) ≡ (if test then suc b else b) + r
count_both a b r true h = omega arith
count_both a b r false h = h

count_one_less {ℓ} :
    {A : Type ℓ} (p : A → Bool) (pre : List A) (x y : A) (post : List A)
    → p x ≡ true
    → p y ≡ false
    → count p (pre ++ y ∷ post) + 1 ≡ count p (pre ++ x ∷ post)
count_one_less p [] x y post hx hy = rw (hx, hy) (omega arith)
count_one_less p (z ∷ pre) x y post hx hy =
    sym (count_both _ _ 1 (p z) (sym (count_one_less p pre x y post hx hy)))

recover_one :
    (now : ℕ) (j : DiagnosticJob)
    → abandoned now j ≡ true
    → (is_waiting j.status ≡ false)
      × (is_waiting (recover_update now j).status ≡ true)
      × (abandoned now (recover_update now j) ≡ false)
unfolding abandoned recover_update
recover_one now j h = ground arith

-- A worker has let its job go: it is running, under a lease that ended at or before a time.
pub data HasLapsed (now : ℕ) (j : DiagnosticJob) : Type 0 where
  lapsed :
      (t : ℕ) → j.status ≡ JobStatus.running → j.lease_until ≡ some t → t ≤ now → HasLapsed now j

-- A collection, what becomes of it, and the number of jobs that are taken back.
pub data TakesBack (now : ℕ) : List DiagnosticJob → List DiagnosticJob → ℕ → Type 0 where
  nothing : TakesBack now [] [] 0
  back :
      {j : DiagnosticJob} {jobs after : List DiagnosticJob} {n : ℕ}
      → HasLapsed now j
      → TakesBack now jobs after n
      → TakesBack now
          (j ∷ jobs)
          (record j {
            status = retry_wait;
            next_run_at = now;
            lease_until = none;
            claimed_by = none;
          }
            ∷ after)
          (suc n)
  left :
      {j : DiagnosticJob} {jobs after : List DiagnosticJob} {n : ℕ}
      → ¬ HasLapsed now j
      → TakesBack now jobs after n
      → TakesBack now (j ∷ jobs) (j ∷ after) n

HasLapsed-of_abandoned :
    (now : ℕ) (status : JobStatus) (lease : Option ℕ)
    → (is_running status && lease_expired lease now) ≡ true
    → (status ≡ JobStatus.running) × (t : ℕ) × (lease ≡ some t) × (t ≤ now)
HasLapsed-of_abandoned now status none h = absurd (ground arith)
HasLapsed-of_abandoned now status (some t) h = (ground arith, t, refl, leb→le t now (ground arith))

not-HasLapsed : (now : ℕ) (j : DiagnosticJob) → abandoned now j ≡ false → ¬ HasLapsed now j
unfolding abandoned
not-HasLapsed now j miss (lapsed t runs lease ended) =
    let hit : (is_running j.status && lease_expired j.lease_until now) ≡ true =
      rw (runs, lease) (le→leb t now ended) in
    cc (hit, miss)

recover-TakesBack :
    {now : ℕ} {j : DiagnosticJob} {jobs after : List DiagnosticJob} {n : ℕ}
    → HasLapsed now j
    → TakesBack now jobs after n
    → TakesBack now (j ∷ jobs) (recover_update now j ∷ after) (suc n)
unfolding recover_update
recover-TakesBack = back

-- The recovery takes back exactly the jobs that are running under a lease that is over: each waits
-- for a retry that is due now, without a lease or a claimant, and is otherwise as it was, and every
-- other job stays as it is, those with a lease that still runs too. It reports how many it took
-- back, adds that many to the depth of the queue, and a second recovery at that time finds none.
pub recover_abandoned_lem :
    (now : ℕ) (jobs : List DiagnosticJob)
    → let (after, recovered) = recover_abandoned now jobs in
      TakesBack now jobs after recovered
      × (pending_depth after ≡ pending_depth jobs + recovered)
      × All (λ j. ¬ HasLapsed now j) after
unfolding recover_abandoned update_many pending_depth
recover_abandoned_lem now [] = (nothing, omega arith, tt)
recover_abandoned_lem now (j ∷ jobs) =
    let (rest, depth, none_left) = recover_abandoned_lem now jobs in
    elim (Bool-cases (abandoned now j)) [
      | inl hit ↦
          let (was, is, off) = recover_one now j hit in
          let (runs, t, lease, ended) =
            HasLapsed-of_abandoned now j.status j.lease_until (unfold abandoned in hit) in
          rw (hit, was, is)
            (
              recover-TakesBack (lapsed t runs lease ended) rest,
              omega (arith, depth),
              (not-HasLapsed now (recover_update now j) off, none_left),
            )
      | inr miss ↦ rw miss (
        left (not-HasLapsed now j miss) rest,
        count_both _ _ _ (is_waiting j.status) depth,
        (not-HasLapsed now j miss, none_left),
      )
    ]

claim_one :
    (config : JobQueueConfig) (w : String) (now : ℕ) (j : DiagnosticJob)
    → claimable now j ≡ true
    → (is_waiting j.status ≡ true) × (is_waiting (claim_update config w now j).status ≡ false)
unfolding claimable claim_update
claim_one config w now j h = ground arith

-- A claim takes one job from the depth of the queue if it returns one, and none otherwise.
pub pending_depth-claim :
    (c : Collection DiagnosticJob) (config : JobQueueConfig) (worker_id : String) (now : ℕ)
    (jobs : List DiagnosticJob)
    → let (after, job) = claim c config worker_id now jobs in
      pending_depth after + (if is_some job then 1 else 0) ≡ pending_depth jobs
unfolding claim pending_depth
pending_depth-claim c config w now jobs =
    elim (Update-cases c (claimable now) (claim_update config w now) jobs) [
      | kept e all ↦ rw e (omega arith)
      | changed pre j post split hit e ↦
          let (was, is) = claim_one config w now j hit in
          rw (e, split)
            (count_one_less (λ k. is_waiting k.status) pre j (claim_update config w now j) post was
              is)
    ]
