-- ===== src/Processor/Advised.antt =====
-- What a round of the loop over the answers leaves of the findings and the recommendations.
use cloudops_sentinel.Base.{
  ℕ, String, ◌≡◌, refl, sym, ap, subst, ◌∙◌, ◌⊎◌, inl, inr, Bool, true, false, ◌&&◌, List, Memᴰ,
  ◌==◌, eq_refl, length, All-mem,
}
use cloudops_sentinel.Store.{upsert}
use cloudops_sentinel.Store.Upserts.{
  not-Has_none, Has, upsert_result, upsert-Has, length-upsert, upsert_stored, upsert_members,
}
use cloudops_sentinel.Types.Job.{DiagnosticJob}
use cloudops_sentinel.Types.Plan.{Finding, Recommendation}
use cloudops_sentinel.Db.{Db, Mongo}
use cloudops_sentinel.Diagnostics.{EngineFinding}
use cloudops_sentinel.Processor.{
  HealthCheck, same_finding, found_again, fresh_finding, recommended_again, fresh_recommendation,
  store_finding,
}
use cloudops_sentinel.Processor.Repeated.{same_finding-HasKey, same_finding-AreKeys}

-- The recommendation for a finding of an id.
abbrev pub advises : String → String → Recommendation → Bool
advises w finding_id r = r.workspace_id == w && r.finding_id == finding_id

-- Findings of one key have one id.
abbrev pub AreSingle : (EngineFinding → Finding → Bool) → List Finding → Type 0
AreSingle same findings =
    (f : EngineFinding) (x y : Finding)
    → Memᴰ x findings
    → Memᴰ y findings
    → same f x ≡ true
    → same f y ≡ true
    → x.id ≡ y.id

-- What holds once some answers are stored.
pub record Advised (same : EngineFinding → Finding → Bool) (w : String)
    (IsDone : EngineFinding → Type 0) (findings : List Finding)
    (recommendations : List Recommendation) : Type 0 where
  pub single : AreSingle same findings
  pub made : (f : EngineFinding) → IsDone f → Has (same f) findings
  pub advised :
      (f : EngineFinding) (x : Finding)
      → IsDone f
      → Memᴰ x findings
      → same f x ≡ true
      → Has (advises w x.id) recommendations

pub fewer_done :
    {same : EngineFinding → Finding → Bool} {w : String} {P Q : EngineFinding → Type 0}
    {findings : List Finding} {recommendations : List Recommendation}
    → ((f : EngineFinding) → Q f → P f)
    → Advised same w P findings recommendations
    → Advised same w Q findings recommendations
fewer_done less a = record {
  single = a.single;
  made = λ f q. a.made f (less f q);
  advised = λ f x q. a.advised f x (less f q);
}

module _ (mongo : Mongo) (ids : ℕ → String) (now : ℕ) (job : DiagnosticJob) (nth : ℕ)
    (f : EngineFinding) (s : Db × List HealthCheck) where
  abbrev same : EngineFinding → Finding → Bool
  same = same_finding job

  abbrev fresh : Finding
  fresh = fresh_finding job f (ids nth)

  abbrev up : List Finding × Finding
  up = upsert mongo.finding_docs (same f) fresh (found_again job f) s.0.findings

  abbrev given : List Recommendation × Recommendation
  given =
      upsert mongo.recommendation_docs (advises job.workspace_id up.1.id)
        (fresh_recommendation job f up.1.id (ids nth)) (recommended_again job f) s.0.recommendations

  fresh_matches : same f fresh ≡ true
  fresh_matches =
      (same_finding-HasKey job f fresh).1
        (record { its_workspace = refl; its_job = refl; its_resource = refl; its_rule = refl })

  stored_matches : Memᴰ up.1 up.0 × (same f up.1 ≡ true)
  stored_matches =
      upsert_result mongo.finding_docs (same f) fresh (found_again job f) s.0.findings
        (λ x. same f x ≡ true) fresh_matches (λ x m h. h)

  -- A finding of the key that was there before has the id of what is stored.
  old_is_stored :
      AreSingle same s.0.findings
      → (y : Finding) → Memᴰ y s.0.findings
      → same f y ≡ true
      → y.id ≡ up.1.id
  old_is_stored single y m hit =
      elim (upsert_stored mongo.finding_docs (same f) fresh (found_again job f) s.0.findings) [
        | inl (e, none_hit) ↦
            absurd (cc (hit, All-mem (λ x. same f x ≡ false) s.0.findings none_hit m))
        | inr (x, m', hit', e) ↦ single f y x m m' hit hit' ∙ sym (ap (λ (z : Finding). z.id) e)
      ]

  given_made : Has (advises job.workspace_id up.1.id) given.0
  given_made =
      let (m, hit) =
        upsert_result mongo.recommendation_docs (advises job.workspace_id up.1.id)
          (fresh_recommendation job f up.1.id (ids nth)) (recommended_again job f)
          s.0.recommendations (λ r. advises job.workspace_id up.1.id r ≡ true)
          (rw (eq_refl job.workspace_id, eq_refl up.1.id) refl) (λ r m h. h) in
      (given.1, m, hit)

  given_kept :
      (id : String)
      → Has (advises job.workspace_id id) s.0.recommendations
      → Has (advises job.workspace_id id) given.0
  given_kept id =
      upsert-Has mongo.recommendation_docs (advises job.workspace_id up.1.id)
        (fresh_recommendation job f up.1.id (ids nth)) (recommended_again job f) s.0.recommendations
        (advises job.workspace_id id) (λ r h k. k)

  single_kept : AreSingle same s.0.findings → AreSingle same up.0
  single_kept single g y z m n hit_y hit_z =
      elim (upsert_members mongo.finding_docs (same f) fresh (found_again job f) s.0.findings m) [
        | inl e ↦
            elim (upsert_members mongo.finding_docs (same f) fresh (found_again job f) s.0.findings
              n) [
                | inl e' ↦ ap (λ (x : Finding). x.id) (e ∙ sym e')
                | inr n' ↦
                    let of_f =
                      same_finding-AreKeys job g f up.1 z (subst (λ x. same g x ≡ true) e hit_y)
                        stored_matches.1 hit_z in
                    ap (λ (x : Finding). x.id) e ∙ sym (old_is_stored single z n' of_f)
              ]
        | inr m' ↦
            elim (upsert_members mongo.finding_docs (same f) fresh (found_again job f) s.0.findings
              n) [
                | inl e' ↦
                    let of_f =
                      same_finding-AreKeys job g f up.1 y (subst (λ x. same g x ≡ true) e' hit_z)
                        stored_matches.1 hit_y in
                    old_is_stored single y m' of_f ∙ sym (ap (λ (x : Finding). x.id) e')
                | inr n' ↦ single g y z m' n' hit_y hit_z
              ]
      ]

  advised_now : (x : Finding) → x.id ≡ up.1.id → Has (advises job.workspace_id x.id) given.0
  advised_now x e = subst (λ id. Has (advises job.workspace_id id) given.0) (sym e) given_made

  module _ (P : EngineFinding → Type 0)
      (a : Advised same job.workspace_id P s.0.findings s.0.recommendations) where
    made_now : (g : EngineFinding) → (g ≡ f) ⊎ P g → Has (same g) up.0
    made_now g (inl e) =
        (up.1, stored_matches.0, subst (λ h. same h up.1 ≡ true) (sym e) stored_matches.1)
    made_now g (inr p) =
        upsert-Has mongo.finding_docs (same f) fresh (found_again job f) s.0.findings (same g)
          (λ x h k. k) (a.made g p)

    advised_all :
        (g : EngineFinding) (x : Finding)
        → (g ≡ f) ⊎ P g
        → Memᴰ x up.0
        → same g x ≡ true
        → Has (advises job.workspace_id x.id) given.0
    advised_all g x p n hit =
        elim (upsert_members mongo.finding_docs (same f) fresh (found_again job f) s.0.findings n) [
          | inl e ↦ advised_now x (ap (λ (y : Finding). y.id) e)
          | inr n' ↦ elim p [
            | inl e ↦
                advised_now x (old_is_stored a.single x n' (subst (λ h. same h x ≡ true) e hit))
            | inr q ↦ given_kept x.id (a.advised g x q n' hit)
          ]
        ]

    -- A round stores its answer with what was stored before.
    pub store_finding-Advised :
        let (d', checks) = store_finding mongo ids now job nth f s in
        Advised same job.workspace_id (λ g. (g ≡ f) ⊎ P g) d'.findings d'.recommendations
    unfolding store_finding
    store_finding-Advised = record {
      single = single_kept a.single;
      made = made_now;
      advised = advised_all;
    }

    -- A round for an answer that is stored adds nothing.
    pub nothing_added :
        P f
        → let (d', checks) = store_finding mongo ids now job nth f s in
          (length d'.findings ≡ length s.0.findings)
          × (length d'.recommendations ≡ length s.0.recommendations)
    unfolding store_finding
    nothing_added p = (
      length-upsert mongo.finding_docs (same f) fresh (found_again job f) s.0.findings (a.made f p),
      length-upsert mongo.recommendation_docs (advises job.workspace_id up.1.id)
          (fresh_recommendation job f up.1.id (ids nth)) (recommended_again job f)
          s.0.recommendations
          (elim (upsert_stored mongo.finding_docs (same f) fresh (found_again job f) s.0.findings) [
            | inl (e, none_hit) ↦ absurd (not-Has_none (same f) s.0.findings none_hit (a.made f p))
            | inr (x, m, hit, e) ↦
                subst (λ id. Has (advises job.workspace_id id) s.0.recommendations)
                  (sym (ap (λ (y : Finding). y.id) e)) (a.advised f x p m hit)
          ]),
    )
