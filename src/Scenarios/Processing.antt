-- ===== src/Scenarios/Processing.antt =====
-- Runs of the processor of processor.ts.
use cloudops_sentinel.Base.{
  length, ◌∙◌, sym, ap, Memᴰ, ◌≡◌, refl, ◌⊎◌, true, false, some, [], ◌∷◌, arith, All,
}
use cloudops_sentinel.Errors.{ok}
use cloudops_sentinel.Types.{high}
use cloudops_sentinel.Types.Job.{DiagnosticJob}
use cloudops_sentinel.Diagnostics.{EngineFinding}
use cloudops_sentinel.Queue.{claim, claimable}
use cloudops_sentinel.Processor.{
  in_scope, process_next, in_time, Race, same_finding, store_findings,
}
use cloudops_sentinel.Processor
use cloudops_sentinel.Processor.Ended.{Ended}
use cloudops_sentinel.Processor.Settled.{Settles, process_next-Settles}
use cloudops_sentinel.Processor.Repeated.{run_repeated}
use cloudops_sentinel.Processor.Advised.{AreSingle}
use cloudops_sentinel.Processor.Stable.{repeat_adds_nothing}
use cloudops_sentinel.Types.Plan.{Finding}
use cloudops_sentinel.Store.Repeats.{IsLike}
use cloudops_sentinel.Scenarios.Sample.{db, mongo, queue_config, half, running_job}
use cloudops_sentinel.Scenarios.FirstMatch.{collection}

abbrev nothing_found : Race
nothing_found = in_time (λ resources. ok [])

process_next-Settles_example :
    (All (λ j. claimable 10 j ≡ false) db.jobs
      × (process_next mongo queue_config "w1" (λ n. "f") 10 20 half nothing_found (db, [])
          ≡ ((db, []), false)))
    ⊎ ((job : DiagnosticJob) × ((claim collection queue_config "w1" 10 db.jobs).1 ≡ some job)
        × ((process_next mongo queue_config "w1" (λ n. "f") 10 20 half nothing_found (db, [])).1
            ≡ true)
        × Settles
            (Ended queue_config 20
              (mongo.resource_docs.find (in_scope job) db.resources)
              nothing_found)
            job.id
            (claim collection queue_config "w1" 10 db.jobs).0
            (process_next mongo queue_config "w1"
              (λ n. "f")
              10
              20
              half
              nothing_found
              (db, [])).0.0.jobs)
process_next-Settles_example =
    process_next-Settles mongo queue_config "w1" (λ n. "f") 10 20 half nothing_found db []
      (omega arith) tt

abbrev open_port : EngineFinding
open_port = record {
  resource_id = "r1";
  rule_id = "open-port";
  severity = high;
  title = "A port is open";
  description = "Port 22 is open to all";
  evidence = "22";
  action_type = "add_missing_tag";
  explanation = "Close it";
  estimated_impact = "none";
  confidence = 900;
}

abbrev no_alarm : EngineFinding
no_alarm = record open_port { rule_id = "no-alarm"; title = "No alarm" }

run_repeated_example :
    let cut = store_findings mongo (λ n. "f1") 10 running_job (open_port ∷ []) (db, []) in
    let (repeated, _) =
      Processor.run mongo
        (λ n. "f2")
        60
        running_job
        (λ resources. ok (open_port ∷ no_alarm ∷ []))
        cut in
    let (once, _) =
      Processor.run mongo
        (λ n. "f3")
        10
        running_job
        (λ resources. ok (open_port ∷ no_alarm ∷ []))
        (db, []) in
    IsLike (same_finding running_job) repeated.0.findings once.0.findings
run_repeated_example =
    run_repeated mongo (λ n. "f1") (λ n. "f2") (λ n. "f3") 10 60 10 running_job running_job
      (open_port ∷ []) (no_alarm ∷ []) (db, []) refl refl

single_finding : AreSingle (same_finding running_job) db.findings
single_finding f x y (Memᴰ.head e) (Memᴰ.head e') h k =
    ap (λ (z : Finding). z.id) e ∙ sym (ap (λ (z : Finding). z.id) e')
single_finding f x y (Memᴰ.tail m) n h k = elim m [ ]
single_finding f x y m (Memᴰ.tail n) h k = elim n [ ]

among_answers : (g : EngineFinding) → Memᴰ g (no_alarm ∷ []) → Memᴰ g (open_port ∷ no_alarm ∷ [])
among_answers g m = Memᴰ.tail m

repeat_adds_nothing_example :
    let (once, _) =
      Processor.run mongo
        (λ n. "f1")
        10
        running_job
        (λ resources. ok (open_port ∷ no_alarm ∷ []))
        (db, []) in
    let (twice, _) =
      Processor.run mongo (λ n. "f2") 60 running_job (λ resources. ok (no_alarm ∷ [])) once in
    (length twice.0.findings ≡ length once.0.findings)
    × (length twice.0.recommendations ≡ length once.0.recommendations)
repeat_adds_nothing_example =
    repeat_adds_nothing mongo (λ n. "f1") (λ n. "f2") 10 60 running_job running_job
      (open_port ∷ no_alarm ∷ []) (no_alarm ∷ []) (db, []) refl refl single_finding among_answers
