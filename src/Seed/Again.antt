-- ===== src/Seed/Again.antt =====
-- A second seed by seed.ts adds nothing.
use cloudops_sentinel.Base.{
  ℕ, String, ◌≡◌, refl, ◌∙◌, Bool, true, List, [], ◌∷◌, ◌==◌, eq_refl, length, All, All-mono,
}
use cloudops_sentinel.Types.{Role}
use cloudops_sentinel.Types.User.{User, Workspace}
use cloudops_sentinel.Types.Resource.{CloudResource}
use cloudops_sentinel.Auth.{AuthClaims}
use cloudops_sentinel.Store.{Collection, upsert}
use cloudops_sentinel.Store.Upserts.{Has, upsert_result, upsert-Has, length-upsert}
use cloudops_sentinel.Db.{Db, Mongo, ApiConfig}
use cloudops_sentinel.Remediation.Execute.Checks.{and_both}
use cloudops_sentinel.Resources.Synced.{AllOwn, AllStored, items_stored, none_added}
use cloudops_sentinel.Providers.Mock.Inventory.{build_mock_inventory}
use cloudops_sentinel.Seed.{
  demo_users, is_user_of, fresh_user, reset_user, seed_user, seed_users, seed,
}

module _ (c : Collection User) (workspace_id password_hash : String) where
  -- A user of each address of a table.
  abbrev AllUsers : List User → List (String × Role) → Type 0
  AllUsers users table = All (λ row. Has (is_user_of workspace_id row.0) users) table

  user_kept :
      (e : String) (r : Role) (user_id email : String) (users : List User)
      → Has (is_user_of workspace_id email) users
      → Has
          (is_user_of workspace_id email)
          (seed_user c workspace_id password_hash e r user_id users).0
  unfolding seed_user
  user_kept e r user_id email users =
      upsert-Has c (is_user_of workspace_id e) (fresh_user c workspace_id password_hash e r user_id)
        (reset_user c workspace_id password_hash r) users (is_user_of workspace_id email)
        λ u hit q.
          rw
            (
              eq_refl workspace_id,
              (and_both (u.workspace_id == workspace_id) (u.email == email) q).1,
            )
            refl

  user_made :
      (e : String) (r : Role) (user_id : String) (users : List User)
      → Has (is_user_of workspace_id e) (seed_user c workspace_id password_hash e r user_id users).0
  unfolding seed_user
  user_made e r user_id users =
      let (m, q) =
        upsert_result c (is_user_of workspace_id e)
          (fresh_user c workspace_id password_hash e r user_id)
          (reset_user c workspace_id password_hash r) users
          (λ u. is_user_of workspace_id e u ≡ true) (rw (eq_refl workspace_id, eq_refl e) refl)
          (λ u was hit.
            rw
              (
                eq_refl workspace_id,
                (and_both (u.workspace_id == workspace_id) (u.email == e) hit).1,
              )
              refl) in
      (_, m, q)

  user_not_added :
      (e : String) (r : Role) (user_id : String) (users : List User)
      → Has (is_user_of workspace_id e) users
      → length (seed_user c workspace_id password_hash e r user_id users).0 ≡ length users
  unfolding seed_user
  user_not_added e r user_id users =
      length-upsert c (is_user_of workspace_id e)
        (fresh_user c workspace_id password_hash e r user_id)
        (reset_user c workspace_id password_hash r) users

  users_kept :
      (ids : ℕ → String) (table : List (String × Role)) (email : String) (users : List User)
      → Has (is_user_of workspace_id email) users
      → Has
          (is_user_of workspace_id email)
          (seed_users c workspace_id password_hash ids table users).0
  unfolding seed_users
  users_kept ids [] email users has = has
  users_kept ids ((e, r) ∷ rest) email users has =
      users_kept ids rest email _ (user_kept e r (ids (length rest)) email users has)

  users_made :
      (ids : ℕ → String) (table : List (String × Role)) (users : List User)
      → AllUsers (seed_users c workspace_id password_hash ids table users).0 table
  unfolding seed_users
  users_made ids [] users = tt
  users_made ids ((e, r) ∷ rest) users =
      (users_kept ids rest e _ (user_made e r (ids (length rest)) users), users_made ids rest _)

  no_user_added :
      (ids : ℕ → String) (table : List (String × Role)) (users : List User)
      → AllUsers users table
      → length (seed_users c workspace_id password_hash ids table users).0 ≡ length users
  unfolding seed_users
  no_user_added ids [] users all = refl
  no_user_added ids ((e, r) ∷ rest) users all =
      no_user_added ids rest _
        (All-mono _ _ rest (λ row has. user_kept e r (ids (length rest)) row.0 users has) all.1)
      ∙ user_not_added e r (ids (length rest)) users all.0

mock_own :
    (workspace_id : String) (now : ℕ) → AllOwn workspace_id (build_mock_inventory workspace_id now)
unfolding build_mock_inventory
mock_own w now =
    let h : Path String w w = refl in
    (h, (h, (h, (h, (h, (h, (h, (h, (h, (h, (h, (h, (h, tt)))))))))))))

-- The names of the inventory do not depend on the time.
same_names :
    (workspace_id : String) (now later : ℕ) (docs : List CloudResource)
    → AllStored workspace_id docs (build_mock_inventory workspace_id now)
    → AllStored workspace_id docs (build_mock_inventory workspace_id later)
unfolding build_mock_inventory
same_names w now later docs h = h

abbrev named : String → Workspace → Bool
named name w = w.name == name

workspace_made :
    (c : Collection Workspace) (name workspace_id : String) (docs : List Workspace)
    → Has
        (named name)
        (upsert c (named name) (record { id = workspace_id; name = name }) (λ w. w) docs).0
workspace_made c name workspace_id docs =
    let (m, q) =
      upsert_result c (named name) (record { id = workspace_id; name = name }) (λ w. w) docs
        (λ w. named name w ≡ true) (eq_refl name) (λ w was hit. hit) in
    (_, m, q)

module _ (mongo : Mongo) (config : ApiConfig) (jwt_sign : AuthClaims → String → String → String)
    (workspace_id workspace_name : String) where
  abbrev pub after_seed : (password_hash : String) (ids : ℕ → String) (now : ℕ) → Db → Db
  after_seed password_hash ids now d =
      (seed mongo config jwt_sign workspace_id workspace_name password_hash ids now d).0

  -- Seeding a database a second time, at any time and with any password, adds no workspace, no user
  -- and no resource to what the first seed left, whatever was stored before.
  pub seed_twice :
      (hash other_hash : String) (ids more_ids : ℕ → String) (now later : ℕ) (d : Db)
      → let once = after_seed hash ids now d in
        let twice = after_seed other_hash more_ids later once in
        (length twice.workspaces ≡ length once.workspaces)
        × (length twice.users ≡ length once.users)
        × (length twice.resources ≡ length once.resources)
  unfolding seed
  seed_twice hash other_hash ids more_ids now later d = (
    length-upsert mongo.workspace_docs (named workspace_name)
        (record { id = more_ids 0; name = workspace_name }) (λ w. w) _
        (workspace_made mongo.workspace_docs workspace_name (ids 0) d.workspaces),
    no_user_added mongo.user_docs workspace_id other_hash more_ids demo_users _
        (users_made mongo.user_docs workspace_id hash ids demo_users d.users),
    none_added mongo.resource_docs workspace_id later more_ids
        (build_mock_inventory workspace_id later) _ (mock_own workspace_id later)
        (same_names workspace_id now later _
          (items_stored mongo.resource_docs workspace_id now ids
            (build_mock_inventory workspace_id now) d.resources (mock_own workspace_id now)).0),
  )
