-- ===== src/Queue/Outcomes.antt =====
-- What a heartbeat and a completion of queue.ts do.
use cloudops_sentinel.Base.{
  ℕ, ◌+◌, String, ◌≡◌, refl, ap, ◌≢◌, ◌⊎◌, inl, inr, true, false, ◌&&◌, Option, none, some, List,
  ◌∷◌, ◌++◌, arith, ◌==◌, eq_iff, eq_refl, All, All-mono,
}
use cloudops_sentinel.Store.{Collection}
use cloudops_sentinel.Store.Laws.{kept, changed, Update-cases}
use cloudops_sentinel.Types.{JobStatus}
use cloudops_sentinel.Types.Job.{DiagnosticJob, JobResultSummary}
use cloudops_sentinel.Queue.{
  JobQueueConfig, has_id, claimed_by_is, is_running, beats, heartbeat_update, heartbeat,
  complete_update, complete,
}
use cloudops_sentinel.Queue.Cases.{beats-id}

claimed_by_is_lem : (o : Option String) (w : String) → claimed_by_is o w ≡ true → o ≡ some w
claimed_by_is_lem none w h = cc
claimed_by_is_lem (some v) w h = ap some ((eq_iff v w).0 h)

is_running_lem : (s : JobStatus) → is_running s ≡ true → s ≡ JobStatus.running
is_running_lem s h = ground arith

beats_of_parts :
    (id job_id worker_id : String) (owner : Option String) (status : JobStatus)
    → id ≡ job_id
    → owner ≡ some worker_id
    → status ≡ JobStatus.running
    → ((id == job_id) && claimed_by_is owner worker_id && is_running status) ≡ true
beats_of_parts id job_id worker_id owner status e o s =
    rw (e, o, s) (ground (arith, eq_refl job_id, eq_refl worker_id))

beats_intro :
    (job_id worker_id : String) (j : DiagnosticJob)
    → j.id ≡ job_id
    → j.claimed_by ≡ some worker_id
    → j.status ≡ JobStatus.running
    → beats job_id worker_id j ≡ true
unfolding beats
beats_intro job_id worker_id j = beats_of_parts j.id job_id worker_id j.claimed_by j.status

pub other-id : (j : DiagnosticJob) (id : String) → has_id id j ≡ false → j.id ≢ id
other-id j id miss same = cc (miss, (eq_iff j.id id).1 same)

-- A heartbeat that returns a job renewed the lease of a job of that id which is running under that
-- worker, and changed only its heartbeat and its lease; where no such job is in the collection, it
-- returns null and changes nothing.
pub heartbeat_lem :
    (c : Collection DiagnosticJob) (config : JobQueueConfig) (job_id worker_id : String) (now : ℕ)
    (jobs : List DiagnosticJob)
    → ((heartbeat c config job_id worker_id now jobs ≡ (jobs, none))
        × All
            (λ j. ¬ (
              (j.id ≡ job_id) × (j.claimed_by ≡ some worker_id) × (j.status ≡ JobStatus.running)))
            jobs)
      ⊎ ((pre : List DiagnosticJob) × (j : DiagnosticJob) × (post : List DiagnosticJob) × (jobs
            ≡ pre ++ j ∷ post)
          × (j.id ≡ job_id)
          × (j.claimed_by ≡ some worker_id)
          × (j.status ≡ JobStatus.running)
          × (heartbeat c config job_id worker_id now jobs ≡ (
            pre
                ++ record j { heartbeat_at = some now; lease_until = some (now + config.lease_ms) }
                  ∷ post,
            some (record j { heartbeat_at = some now; lease_until = some (now + config.lease_ms) }),
          )))
unfolding heartbeat heartbeat_update beats
heartbeat_lem c config job_id worker_id now jobs =
    elim (Update-cases c (beats job_id worker_id) (heartbeat_update config now) jobs) [
      | kept e all ↦ inl (
        e,
        All-mono _ _ jobs
            (λ j miss own. absurd (cc (miss, beats_intro job_id worker_id j own.0 own.1 own.2)))
            all,
      )
      | changed pre j post split hit e ↦ inr (
        pre,
        j,
        post,
        split,
        beats-id job_id worker_id j hit,
        claimed_by_is_lem j.claimed_by worker_id (ground arith),
        is_running_lem j.status (ground arith),
        e,
      )
    ]

-- `complete` asks only for the id: the job that it finds becomes completed, with the summary, the
-- time and no lease or error, whatever its status was and whoever had claimed it since, and its
-- claimant, attempts and version stay; where no job has the id, it returns null and changes
-- nothing.
pub complete_lem :
    (c : Collection DiagnosticJob) (config : JobQueueConfig) (job_id : String)
    (summary : JobResultSummary) (now : ℕ) (jobs : List DiagnosticJob)
    → ((complete c config job_id summary now jobs ≡ (jobs, none)) × All (λ j. j.id ≢ job_id) jobs)
      ⊎ ((pre : List DiagnosticJob) × (j : DiagnosticJob) × (post : List DiagnosticJob) × (jobs
            ≡ pre ++ j ∷ post)
          × (j.id ≡ job_id)
          × (k : DiagnosticJob) × (complete c config job_id summary now jobs
              ≡ (pre ++ k ∷ post, some k))
          × (k.status ≡ JobStatus.completed)
          × (k.result_summary ≡ some summary)
          × (k.completed_at ≡ some now)
          × (k.lease_until ≡ none)
          × (k.last_error ≡ none)
          × (k.claimed_by ≡ j.claimed_by)
          × (k.attempts ≡ j.attempts)
          × (k.version ≡ j.version))
unfolding complete complete_update
complete_lem c config job_id summary now jobs =
    elim (Update-cases c (has_id job_id) (complete_update summary now) jobs) [
      | kept e all ↦ inl (e, All-mono _ _ jobs (λ j miss. other-id j job_id miss) all)
      | changed pre j post split hit e ↦ inr (
        pre,
        j,
        post,
        split,
        (eq_iff j.id job_id).0 hit,
        complete_update summary now j,
        e,
        refl,
        refl,
        refl,
        refl,
        refl,
        refl,
        refl,
        refl,
      )
    ]
