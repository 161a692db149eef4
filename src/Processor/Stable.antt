-- ===== src/Processor/Stable.antt =====
-- Runs of the processor that are repeated: what is stored, findings and recommendations, is stored once.
use cloudops_sentinel.Base.{
  ℕ, String, ◌≡◌, refl, sym, subst, ◌∙◌, ◌⊎◌, inl, inr, List, [], ◌∷◌, Memᴰ, length,
}
use cloudops_sentinel.Errors.{ok}
use cloudops_sentinel.Types.Job.{DiagnosticJob}
use cloudops_sentinel.Db.{Db, Mongo}
use cloudops_sentinel.Diagnostics.{EngineFinding}
use cloudops_sentinel.Processor.{run, HealthCheck, same_finding, store_finding, store_findings}
use cloudops_sentinel.Processor.Repeated.{same_filter}
use cloudops_sentinel.Processor.Advised.{
  AreSingle, Advised, fewer_done, store_finding-Advised, nothing_added,
}

module _ (mongo : Mongo) (ids : ℕ → String) (now : ℕ) (job : DiagnosticJob) where
  store_findings-Advised :
      (fs : List EngineFinding) (P : EngineFinding → Type 0) (s : Db × List HealthCheck)
      → Advised (same_finding job) job.workspace_id P s.0.findings s.0.recommendations
      → let (d', checks) = store_findings mongo ids now job fs s in
        Advised
          (same_finding job)
          job.workspace_id
          (λ g. Memᴰ g fs ⊎ P g)
          d'.findings
          d'.recommendations
  unfolding store_findings
  store_findings-Advised [] P s a = fewer_done (λ g p. elim p [ inl m ↦ elim m [ ] | inr q ↦ q ]) a
  store_findings-Advised (f ∷ fs) P s a =
      fewer_done
        (λ g p. elim p [
          | inl (Memᴰ.head e) ↦ inr (inl e)
          | inl (Memᴰ.tail m) ↦ inl m
          | inr q ↦ inr (inr q)
        ])
        (store_findings-Advised fs (λ g. (g ≡ f) ⊎ P g)
          (store_finding mongo ids now job (length fs) f s)
          (store_finding-Advised mongo ids now job (length fs) f s P a))

  pass_adds_nothing :
      (fs : List EngineFinding) (P : EngineFinding → Type 0) (s : Db × List HealthCheck)
      → Advised (same_finding job) job.workspace_id P s.0.findings s.0.recommendations
      → ((g : EngineFinding) → Memᴰ g fs → P g)
      → let (d', checks) = store_findings mongo ids now job fs s in
        (length d'.findings ≡ length s.0.findings)
        × (length d'.recommendations ≡ length s.0.recommendations)
  unfolding store_findings
  pass_adds_nothing [] P s a among = (refl, refl)
  pass_adds_nothing (f ∷ fs) P s a among =
      let (findings, recommendations) =
        nothing_added mongo ids now job (length fs) f s P a (among f (Memᴰ.head refl)) in
      let (findings', recommendations') =
        pass_adds_nothing fs P (store_finding mongo ids now job (length fs) f s)
          (fewer_done (λ g p. inr p) (store_finding-Advised mongo ids now job (length fs) f s P a))
          (λ g m. among g (Memᴰ.tail m)) in
      (findings' ∙ findings, recommendations' ∙ recommendations)

module _ (mongo : Mongo) where
  -- After a run over some answers, every further run of the same job, at any time and with any new
  -- ids, over any of these answers, in any order and as often as they come, adds no finding and no
  -- recommendation, if no two findings of the job had one key and different ids before.
  pub repeat_adds_nothing :
      (ids more_ids : ℕ → String) (now later : ℕ) (job again : DiagnosticJob)
      (fs gs : List EngineFinding) (s : Db × List HealthCheck)
      → again.id ≡ job.id
      → again.workspace_id ≡ job.workspace_id
      → AreSingle (same_finding job) s.0.findings
      → ((g : EngineFinding) → Memᴰ g gs → Memᴰ g fs)
      → let (once, _) = run mongo ids now job (λ resources. ok fs) s in
        let (twice, _) = run mongo more_ids later again (λ resources. ok gs) once in
        (length twice.0.findings ≡ length once.0.findings)
        × (length twice.0.recommendations ≡ length once.0.recommendations)
  unfolding run
  repeat_adds_nothing ids more_ids now later job again fs gs s e w single among =
      let once = store_findings mongo ids now job fs s in
      let a =
        store_findings-Advised mongo ids now job fs (λ g. ⊥) s
          (record {
            single = single;
            made = λ f none_done. absurd none_done;
            advised = λ f x none_done. absurd none_done;
          }) in
      let b =
        subst
          (λ p.
            Advised p again.workspace_id (λ g. Memᴰ g fs ⊎ ⊥) once.0.findings
              once.0.recommendations)
          (sym (same_filter mongo job again e w))
          (subst
            (λ v.
              Advised (same_finding job) v (λ g. Memᴰ g fs ⊎ ⊥) once.0.findings
                once.0.recommendations)
            (sym w) a) in
      pass_adds_nothing mongo more_ids later again gs _ once b (λ g m. inl (among g m))
