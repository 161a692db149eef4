-- ===== src/Scenarios/Creation.antt =====
-- Diagnostic jobs that the API creates, lists and retries.
use cloudops_sentinel.Resources.Synced.{AllStored, AllSynced, sync_items_twice}
use cloudops_sentinel.Resources.{sync_items, Discovered}
use cloudops_sentinel.Scenarios.FirstMatch.{collection}
use cloudops_sentinel.Types.Resource.{mock}
use cloudops_sentinel.Types.{ec2}
use cloudops_sentinel.Base.{
  refl, String, if◌then◌else◌, nat_eq, ℕ, ◌≡◌, ◌⊎◌, none, List, [], ◌∷◌, length,
}
use cloudops_sentinel.Errors.{AppError, conflict_error}
use cloudops_sentinel.Db.{Db}
use cloudops_sentinel.Jobs.{CreateInput, create, retry}
use cloudops_sentinel.Jobs.Created.{Created, create-Created}
use cloudops_sentinel.Jobs.Retried.{Retried, retry-Retried}
use cloudops_sentinel.Scenarios.Sample.{bucket, mongo, db, waiting_job, dead_job}

abbrev input : CreateInput
input = record { resource_ids = none; resource_types = none; idempotency_key = "key-of-j2" }

abbrev rethrown : AppError
rethrown = conflict_error "duplicate key" none

-- Another process inserts a job of the key in between.
abbrev races : Db → Db
races d = record d {
  jobs = record waiting_job { id = "j9"; idempotency_key = "key-of-j2" } ∷ d.jobs;
}

create-Created_example :
    Created "ws" "key-of-j2" "j2" db
      (create mongo 3 60 rethrown races "ws" "ann" "corr" input "j2" 9 db)
    ⊎ Created "ws" "key-of-j2" "j2"
        (races db)
        (create mongo 3 60 rethrown races "ws" "ann" "corr" input "j2" 9 db)
create-Created_example = create-Created mongo 3 60 rethrown "ws" "ann" "corr" input "j2" 9 races db

abbrev with_dead : Db
with_dead = record db { jobs = dead_job ∷ [] }

retry-Retried_example :
    Retried mongo "ws" "j1" "ann" "corr" 50 with_dead
      (retry mongo "ws" "j1" "ann" "corr" 50 with_dead)
retry-Retried_example = retry-Retried mongo "ws" "j1" "ann" "corr" 50 with_dead

abbrev listed : List Discovered
listed =
    record {
      workspace_id = "ws";
      provider = mock;
      type = ec2;
      region = "us";
      arn = "arn:r1";
      name = "bucket";
      tags = ("Owner", "ops") ∷ [];
      config = bucket.config;
      metrics = bucket.metrics;
      last_synced_at = 7;
      version = 1;
    }
    ∷ record {
      workspace_id = "ws";
      provider = mock;
      type = ec2;
      region = "us";
      arn = "arn:r2";
      name = "other";
      tags = [];
      config = bucket.config;
      metrics = bucket.metrics;
      last_synced_at = 7;
      version = 1;
    }
    ∷ []

abbrev numbered : ℕ → String
numbered n = if nat_eq n 0 then "r2" else "r3"

sync_items_twice_example :
    AllSynced 9 listed (sync_items collection "ws" 9 numbered listed (bucket ∷ [])).1
    × AllStored "ws" (sync_items collection "ws" 9 numbered listed (bucket ∷ [])).0 listed
    × (length
          (sync_items collection "ws" 12 numbered listed
            (sync_items collection "ws" 9 numbered listed (bucket ∷ [])).0).0
        ≡ length (sync_items collection "ws" 9 numbered listed (bucket ∷ [])).0)
sync_items_twice_example =
    sync_items_twice collection "ws" 9 12 numbered numbered listed (bucket ∷ []) (refl, (refl, tt))
