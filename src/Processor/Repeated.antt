-- ===== src/Processor/Repeated.antt =====
-- A run of the processor that was cut off, as by a crash of its worker, and is repeated by the next
-- holder of the job.
use cloudops_sentinel.Base.{
  ℕ, String, ◌≡◌, refl, sym, subst, ◌∙◌, ◌↔◌, true, List, [], ◌∷◌, ◌++◌, ◌==◌, eq_iff, length,
}
use cloudops_sentinel.Store.Repeats.{
  AreKeys, Passes, no_more, then_pass, upsert-Upserted, cut_off-IsLike, IsLike,
}
use cloudops_sentinel.Types.Job.{DiagnosticJob}
use cloudops_sentinel.Types.Plan.{Finding}
use cloudops_sentinel.Errors.{ok}
use cloudops_sentinel.Db.{Db, Mongo}
use cloudops_sentinel.Remediation.Execute.Checks.{and_both}
use cloudops_sentinel.Diagnostics.{EngineFinding}
use cloudops_sentinel.Processor.{
  HealthCheck, same_finding, found_again, fresh_finding, store_finding, store_findings, run,
}

-- A finding has the key of an answer.
pub record HasKey (job : DiagnosticJob) (f : EngineFinding) (x : Finding) : Type 0 where
  pub its_workspace : x.workspace_id ≡ job.workspace_id
  pub its_job : x.job_id ≡ job.id
  pub its_resource : x.resource_id ≡ f.resource_id
  pub its_rule : x.rule_id ≡ f.rule_id

pub same_finding-HasKey :
    (job : DiagnosticJob) (f : EngineFinding) (x : Finding)
    → (same_finding job f x ≡ true) ↔ HasKey job f x
same_finding-HasKey job f x = (
  λ h.
      let (rest, u) = and_both _ (x.rule_id == f.rule_id) h in
      let (rest', r) = and_both _ (x.resource_id == f.resource_id) rest in
      let (w, j) = and_both (x.workspace_id == job.workspace_id) (x.job_id == job.id) rest' in
      record {
        its_workspace = (eq_iff x.workspace_id job.workspace_id).0 w;
        its_job = (eq_iff x.job_id job.id).0 j;
        its_resource = (eq_iff x.resource_id f.resource_id).0 r;
        its_rule = (eq_iff x.rule_id f.rule_id).0 u;
      },
  λ k.
      rw
        (
          (eq_iff x.workspace_id job.workspace_id).1 k.its_workspace,
          (eq_iff x.job_id job.id).1 k.its_job,
          (eq_iff x.resource_id f.resource_id).1 k.its_resource,
          (eq_iff x.rule_id f.rule_id).1 k.its_rule,
        )
        refl,
)

pub same_finding-AreKeys : (job : DiagnosticJob) → AreKeys (same_finding job)
same_finding-AreKeys job f g x y f_x g_x f_y =
    let a = (same_finding-HasKey job f x).0 f_x in
    let b = (same_finding-HasKey job g x).0 g_x in
    let k = (same_finding-HasKey job f y).0 f_y in
    (same_finding-HasKey job g y).1 (record {
      its_workspace = k.its_workspace;
      its_job = k.its_job;
      its_resource = k.its_resource ∙ sym a.its_resource ∙ b.its_resource;
      its_rule = k.its_rule ∙ sym a.its_rule ∙ b.its_rule;
    })

module _ (mongo : Mongo) where
  -- The loop over the answers is a pass over the findings.
  store_findings-Passes :
      (ids : ℕ → String) (now : ℕ) (job : DiagnosticJob) (fs : List EngineFinding)
      (s : Db × List HealthCheck)
      → Passes (same_finding job) fs s.0.findings (store_findings mongo ids now job fs s).0.findings
  unfolding store_findings store_finding
  store_findings-Passes ids now job [] s = no_more s.0.findings
  store_findings-Passes ids now job (f ∷ fs) s =
      then_pass
        (upsert-Upserted (same_finding job) mongo.finding_docs (same_finding-AreKeys job) f
          (fresh_finding job f (ids (length fs))) (found_again job f) s.0.findings
          ((same_finding-HasKey job f (fresh_finding job f (ids (length fs)))).1
            (record { its_workspace = refl; its_job = refl; its_resource = refl; its_rule = refl }))
          (λ x h. h))
        (store_findings-Passes ids now job fs (store_finding mongo ids now job (length fs) f s))

  pub same_filter :
      (job again : DiagnosticJob)
      → again.id ≡ job.id
      → again.workspace_id ≡ job.workspace_id
      → same_finding again ≡ same_finding job
  same_filter job again e w = rw (e, w) refl

  -- A run whose worker stopped after any number of the answers, and which a later claim of the same
  -- job repeats over all of them, at another time and with other new ids, leaves as many findings as
  -- a run that is not cut off, and a finding for the same answers.
  pub run_repeated :
      (first_ids ids once_ids : ℕ → String) (first_now now once_now : ℕ) (job again : DiagnosticJob)
      (pre rest : List EngineFinding) (s : Db × List HealthCheck)
      → again.id ≡ job.id
      → again.workspace_id ≡ job.workspace_id
      → let cut = store_findings mongo first_ids first_now job pre s in
        let (repeated, _) = run mongo ids now again (λ resources. ok (pre ++ rest)) cut in
        let (once, _) = run mongo once_ids once_now job (λ resources. ok (pre ++ rest)) s in
        IsLike (same_finding job) repeated.0.findings once.0.findings
  unfolding run
  run_repeated first_ids ids once_ids first_now now once_now job again pre rest s e w =
      let cut = store_findings mongo first_ids first_now job pre s in
      let passes = store_findings-Passes ids now again (pre ++ rest) cut in
      cut_off-IsLike (same_finding job) (same_finding-AreKeys job) pre rest
        (store_findings-Passes first_ids first_now job pre s)
        (subst
          (λ p.
            Passes p (pre ++ rest) cut.0.findings
              (store_findings mongo ids now again (pre ++ rest) cut).0.findings)
          (same_filter job again e w) passes)
        (store_findings-Passes once_ids once_now job (pre ++ rest) s)
