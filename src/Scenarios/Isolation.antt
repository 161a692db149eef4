-- ===== src/Scenarios/Isolation.antt =====
-- Requests over a database of two workspaces.
use cloudops_sentinel.Base.{String, ◌≡◌, sym, ap, subst, ◌∙◌, [], ◌∷◌, Memᴰ, arith, eq_iff}
use cloudops_sentinel.Store.Elsewhere.{AreOwned}
use cloudops_sentinel.Types.{Role}
use cloudops_sentinel.Types.Job.{DiagnosticJob}
use cloudops_sentinel.Db.{Db}
use cloudops_sentinel.Db.Elsewhere.{HasOwners, Spares}
use cloudops_sentinel.Resources.Synced.{AllOwn}
use cloudops_sentinel.Routes.{post_approve, handle}
use cloudops_sentinel.Routes.Isolated.{ListsOwn, handle-Spares}
use cloudops_sentinel.Scenarios.Workflow.{no_provider, rethrown, with_role_of}
use cloudops_sentinel.Scenarios.Sample.{db, mongo, config, waiting_job}

abbrev same_text : String → String
same_text s = s

abbrev foreign_job : DiagnosticJob
foreign_job = record waiting_job { id = "j9"; workspace_id = "other" }

abbrev shared : Db
shared = record db { jobs = waiting_job ∷ foreign_job ∷ [] }

one_owned :
    {A : Type 0} (id_of workspace_of : A → String) (z : A) → AreOwned id_of workspace_of (z ∷ [])
one_owned id_of workspace_of z x y (Memᴰ.head e) (Memᴰ.head f) same = ap workspace_of (e ∙ sym f)
one_owned id_of workspace_of z x y (Memᴰ.tail m) n same = elim m [ ]
one_owned id_of workspace_of z x y m (Memᴰ.tail n) same = elim n [ ]

other_ids : ¬ Path String "j1" "j9"
other_ids e = cc ((eq_iff "j1" "j9").1 e)

jobs_owned :
    AreOwned
      (λ (j : DiagnosticJob). j.id)
      (λ (j : DiagnosticJob). j.workspace_id)
      (waiting_job ∷ foreign_job ∷ [])
jobs_owned x y (Memᴰ.head e) (Memᴰ.head f) same =
    ap (λ (j : DiagnosticJob). j.workspace_id) (e ∙ sym f)
jobs_owned x y (Memᴰ.tail (Memᴰ.head e)) (Memᴰ.tail (Memᴰ.head f)) same =
    ap (λ (j : DiagnosticJob). j.workspace_id) (e ∙ sym f)
jobs_owned x y (Memᴰ.head e) (Memᴰ.tail (Memᴰ.head f)) same =
    let ids : Path String "j1" "j9" =
      sym (ap (λ (j : DiagnosticJob). j.id) e) ∙ same ∙ ap (λ (j : DiagnosticJob). j.id) f in
    absurd (other_ids ids)
jobs_owned x y (Memᴰ.tail (Memᴰ.head e)) (Memᴰ.head f) same =
    let ids : Path String "j9" "j1" =
      sym (ap (λ (j : DiagnosticJob). j.id) e) ∙ same ∙ ap (λ (j : DiagnosticJob). j.id) f in
    absurd (other_ids (sym ids))
jobs_owned x y (Memᴰ.tail (Memᴰ.tail m)) n same = elim m [ ]
jobs_owned x y m (Memᴰ.tail (Memᴰ.tail n)) same = elim n [ ]

shared-HasOwners : HasOwners shared
shared-HasOwners = record {
  jobs_owned = jobs_owned;
  resources_owned = one_owned _ _ _;
  plans_owned = one_owned _ _ _;
  approvals_owned = one_owned _ _ _;
}

none_listed : ListsOwn no_provider "ws"
none_listed query items h =
    let none_found : [] ≡ items = ground arith in subst (AllOwn "ws") none_found tt

handle-Spares_example :
    Spares "ws" shared
      (handle mongo no_provider config same_text rethrown
        (with_role_of Role.admin)
        "corr"
        (post_approve "p1" "t2" "other" 15)
        shared).0
handle-Spares_example =
    handle-Spares mongo no_provider config same_text rethrown (with_role_of Role.admin) "corr"
      shared (post_approve "p1" "t2" "other" 15) shared-HasOwners none_listed tt
