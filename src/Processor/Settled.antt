-- ===== src/Processor/Settled.antt =====
-- What `processNext` of processor.ts leaves of the job that it claims.
use cloudops_sentinel.Base.{
  ℕ, ◌<◌, String, ◌≡◌, refl, sym, ap, subst, ◌∙◌, ◌≢◌, ◌⊎◌, inl, inr, Bool, true, false, Option,
  none, some, List, [], ◌∷◌, ◌++◌, Memᴰ, Option-cases, length, All, All-mem, mem-append_right,
}
use cloudops_sentinel.Errors.{Result, ok, err}
use cloudops_sentinel.Types.{JobStatus}
use cloudops_sentinel.Types.Job.{DiagnosticJob, JobResultSummary}
use cloudops_sentinel.Types.Resource.{CloudResource}
use cloudops_sentinel.Db.{Db, Mongo}
use cloudops_sentinel.Observability.Backoff.{Fraction}
use cloudops_sentinel.Queue.{JobQueueConfig, claim, claimable}
use cloudops_sentinel.Queue.Claims.{claim_takes, claim_misses_iff}
use cloudops_sentinel.Queue.Outcomes.{complete_lem}
use cloudops_sentinel.Queue.Failures.{fail_lem, FailedTo}
use cloudops_sentinel.Diagnostics.{EngineFinding}
use cloudops_sentinel.Observability.Timeout.{with_timeout}
use cloudops_sentinel.Processor.{
  in_scope, HealthCheck, Race, in_time, too_late, store_finding, store_findings, run, raced,
  settle_job, process_next, failure_of,
}
use cloudops_sentinel.Processor.Ended.{Ended, finished, threw, cut_off, failure_of-IsFailureOf}

-- A run that is cut off has not touched the jobs.
abbrev pub SparesJobs : Race → Type 0
SparesJobs (in_time analysis) = Unit
SparesJobs (too_late written) = (s : Db × List HealthCheck) → (written s).0.jobs ≡ s.0.jobs

-- One job of an id ends in some way, the others are left alone.
abbrev pub Settles :
    (DiagnosticJob → DiagnosticJob → Type 0)
    → String
    → List DiagnosticJob
    → List DiagnosticJob
    → Type 0
Settles Ends id jobs after =
    (pre : List DiagnosticJob) × (old : DiagnosticJob) × (post : List DiagnosticJob)
    × (new : DiagnosticJob) × (jobs ≡ pre ++ old ∷ post)
    × (old.id ≡ id)
    × (after ≡ pre ++ new ∷ post)
    × Ends old new

module _ (mongo : Mongo) (ids : ℕ → String) (now : ℕ) (job : DiagnosticJob) where
  findings_spare :
      (fs : List EngineFinding) (s : Db × List HealthCheck)
      → (store_findings mongo ids now job fs s).0.jobs ≡ s.0.jobs
  unfolding store_findings store_finding
  findings_spare [] s = refl
  findings_spare (f ∷ fs) s = findings_spare fs (store_finding mongo ids now job (length fs) f s)

  run_spares :
      (analysis : List CloudResource → Result (List EngineFinding)) (s : Db × List HealthCheck)
      → (run mongo ids now job analysis s).0.0.jobs ≡ s.0.jobs
  unfolding run
  run_spares analysis s =
      run_cases (analysis (mongo.resource_docs.find (in_scope job) s.0.resources)) refl
    where
      run_cases :
          (r : Result (List EngineFinding))
          → analysis (mongo.resource_docs.find (in_scope job) s.0.resources) ≡ r
          → (run mongo ids now job analysis s).0.0.jobs ≡ s.0.jobs
      run_cases (ok fs) e = rw (run, e) (findings_spare fs s)
      run_cases (err x) e = rw (run, e) refl

  raced_spares :
      (race : Race)
      → SparesJobs race
      → (s : Db × List HealthCheck) → (raced mongo ids now job race s).0.0.jobs ≡ s.0.jobs
  unfolding raced
  raced_spares (in_time analysis) h s = run_spares analysis s
  raced_spares (too_late written) h s = h s

module _ (mongo : Mongo) (config : JobQueueConfig) (worker_id : String) (random : Fraction)
    (small : random.num < random.den) (done : ℕ) (job : DiagnosticJob) where
  -- How a job ends, by the result of its run.
  abbrev EndsBy : Result JobResultSummary → DiagnosticJob → DiagnosticJob → Type 0
  EndsBy (ok summary) old new =
      (new.status ≡ JobStatus.completed)
      × (new.completed_at ≡ some done)
      × (new.last_error ≡ none)
      × (new.result_summary ≡ some summary)
  EndsBy (err e) old new =
      (new.last_error ≡ some (failure_of e done)) × FailedTo config (failure_of e done) done old new

  -- A job that is in the collection is settled by the result of its run.
  settle_job-Settles :
      (s : Db × List HealthCheck) (r : Result JobResultSummary)
      → Memᴰ job s.0.jobs
      → Settles
          (EndsBy r)
          job.id
          s.0.jobs
          (settle_job mongo config worker_id done random job (s, r)).0.jobs
  unfolding settle_job
  settle_job-Settles s (ok summary) m =
      elim (complete_lem mongo.job_docs config job.id summary done s.0.jobs) [
        | inl (none_done, others) ↦ absurd (All-mem (λ j. j.id ≢ job.id) s.0.jobs others m refl)
        | inr (pre, j, post, split, same, k, after, status, result, at, _, error, _, _, _) ↦
            (pre, j, post, k, split, same, ap (λ x. x.0) after, (status, at, error, result))
      ]
  settle_job-Settles s (err e) m =
      elim (fail_lem mongo.job_docs config job.id (failure_of e done) done random s.0.jobs small) [
        | inl (none_done, others) ↦ absurd (All-mem (λ j. j.id ≢ job.id) s.0.jobs others m refl)
        | inr (pre, j, post, split, same, k, after, to, error, _, _, _) ↦
            (pre, j, post, k, split, same, ap (λ x. x.0) after, (error, to))
      ]

  module _ (ids : ℕ → String) (s : Db × List HealthCheck) (old new : DiagnosticJob) where
    abbrev scope : List CloudResource
    scope = mongo.resource_docs.find (in_scope job) s.0.resources

    answered-Ended :
        (analysis : List CloudResource → Result (List EngineFinding))
        (r : Result (List EngineFinding))
        → analysis scope ≡ r
        → EndsBy (run mongo ids done job analysis s).1 old new
        → Ended config done scope (in_time analysis) old new
    unfolding run
    answered-Ended analysis (ok fs) e ends =
        let ran : (run mongo ids done job analysis s).1
            ≡ ok (record {
              resources_scanned = length scope;
              findings_created = length fs;
              recommendations_created = length fs;
            }) =
          rw (run, e) refl in
        let (status, at, error, result) = subst (λ r. EndsBy r old new) ran ends in
        finished analysis fs refl e status at error result
    answered-Ended analysis (err x) e ends =
        let ran : (run mongo ids done job analysis s).1 ≡ err x = rw (run, e) refl in
        let (error, to) = subst (λ r. EndsBy r old new) ran ends in
        threw analysis x (failure_of x done) refl e (failure_of-IsFailureOf x done) error to

    raced-Ended :
        (race : Race)
        → EndsBy (raced mongo ids done job race s).1 old new
        → Ended config done scope race old new
    unfolding raced with_timeout
    raced-Ended (in_time analysis) ends = answered-Ended analysis _ refl ends
    raced-Ended (too_late written) (error, to) =
        cut_off written _ refl (refl, refl, refl, refl) error to

module _ (mongo : Mongo) (config : JobQueueConfig) (worker_id : String) (ids : ℕ → String)
    (now done : ℕ) (random : Fraction) (race : Race) (d : Db) (checks : List HealthCheck) where
  abbrev claimed : List DiagnosticJob × Option DiagnosticJob
  claimed = claim mongo.job_docs config worker_id now d.jobs

  abbrev processed : (Db × List HealthCheck) × Bool
  processed = process_next mongo config worker_id ids now done random race (d, checks)

  claimed_listed : (job : DiagnosticJob) → claimed.1 ≡ some job → Memᴰ job claimed.0
  claimed_listed job e =
      let (pre, old, post, split, after, _, _, _, _) =
        claim_takes mongo.job_docs config worker_id now d.jobs e in
      rw after (mem-append_right pre _ (Memᴰ.head refl))

  abbrev pub EndedOf : DiagnosticJob → DiagnosticJob → DiagnosticJob → Type 0
  EndedOf job = Ended config done (mongo.resource_docs.find (in_scope job) d.resources) race

  job-Settles :
      (job : DiagnosticJob)
      → random.num < random.den
      → SparesJobs race
      → claimed.1 ≡ some job
      → (processed.1 ≡ true) × Settles (EndedOf job) job.id claimed.0 processed.0.0.jobs
  unfolding process_next
  job-Settles job small spares e =
      let s : Db × List HealthCheck = (record d { jobs = claimed.0 }, checks) in
      let after = raced mongo ids done job race s in
      let same : after.0.0.jobs ≡ claimed.0 = raced_spares mongo ids done job race spares s in
      let (pre, old, post, new, split, named, changed, ends) =
        settle_job-Settles mongo config worker_id random small done job after.0 after.1
          (subst (λ js. Memᴰ job js) (sym same) (claimed_listed job e)) in
      rw (process_next, e)
        (
          refl,
          (
            pre,
            old,
            post,
            new,
            sym same ∙ split,
            named,
            changed,
            raced-Ended mongo config worker_id random small done job ids s old new race ends,
          ),
        )

  -- A call of `processNext` that finds no claimable job says so and leaves the database as it is.
  -- Otherwise it claims a job and settles one job of that id, leaving all others as the claim left
  -- them: where the run over the resources in its scope succeeds, the job is completed with the
  -- number of those resources and of the findings; where it throws, the error is recorded as a
  -- failure and the job goes to a retry or the dead letters, as that failure and its attempts say;
  -- where it is cut off, the same happens with a retryable failure of the code TIMEOUT. Provided a
  -- run that is cut off has not touched the jobs, and the random fraction is below 1.
  pub process_next-Settles :
      random.num < random.den
      → SparesJobs race
      → (All (λ j. claimable now j ≡ false) d.jobs
          × (process_next mongo config worker_id ids now done random race (d, checks)
              ≡ ((d, checks), false)))
        ⊎ ((job : DiagnosticJob) × ((claim mongo.job_docs config worker_id now d.jobs).1 ≡ some job)
            × ((process_next mongo config worker_id ids now done random race (d, checks)).1 ≡ true)
            × Settles
                (Ended config done (mongo.resource_docs.find (in_scope job) d.resources) race)
                job.id
                (claim mongo.job_docs config worker_id now d.jobs).0
                (process_next mongo config worker_id ids now done random race (d, checks)).0.0.jobs)
  unfolding process_next
  process_next-Settles small spares = elim (Option-cases claimed.1) [
    | inr (job, e) ↦
        let (yes_done, settles) = job-Settles job small spares e in inr (job, e, yes_done, settles)
    | inl none_claimed ↦
        let (iff, keeps) = claim_misses_iff mongo.job_docs config worker_id now d.jobs in
        inl (iff.0 none_claimed, rw (process_next, none_claimed, keeps none_claimed) refl)
  ]
