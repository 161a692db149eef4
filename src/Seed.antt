-- ===== src/Seed.antt =====
-- apps/api/src/seed.ts: the demo workspace, its users and its resources. What bcrypt makes of the
-- password is an argument, and so are the ids that the database gives; the output is left out.
pub mod Resets
pub mod Identities
pub mod Again
use cloudops_sentinel.Base.{ℕ, String, Bool, true, ◌&&◌, List, [], ◌∷◌, ◌==◌, length}
use cloudops_sentinel.Types.{Role, admin, operator, viewer}
use cloudops_sentinel.Types.User.{User}
use cloudops_sentinel.Auth.{AuthClaims}
use cloudops_sentinel.Store.{Collection, upsert}
use cloudops_sentinel.Db.{Db, Mongo, ApiConfig}
use cloudops_sentinel.Resources.{sync_items}
use cloudops_sentinel.Providers.Mock.Inventory.{build_mock_inventory}
use cloudops_sentinel.Routes.Login.{sign_access_token, claims_of}

abbrev pub demo_users : List (String × Role)
demo_users =
    ("admin@cloudops.local", admin)
    ∷ ("operator@cloudops.local", operator)
    ∷ ("viewer@cloudops.local", viewer)
    ∷ []

abbrev pub is_user_of : (workspace_id email : String) → User → Bool
is_user_of workspace_id email u = u.workspace_id == workspace_id && u.email == email

module _ (c : Collection User) (workspace_id password_hash : String) where
  abbrev pub fresh_user : (email : String) → Role → (user_id : String) → User
  fresh_user email role user_id = record {
    id = user_id;
    workspace_id = workspace_id;
    email = email;
    role = role;
    password_hash = password_hash;
    active = true;
  }

  abbrev pub reset_user : Role → User → User
  reset_user role u = record u {
    role = role;
    password_hash = password_hash;
    active = true;
    workspace_id = workspace_id;
  }

  unfoldable pub seed_user :
      (email : String) → Role → (user_id : String) → List User → List User × User
  seed_user email role user_id users =
      upsert c (is_user_of workspace_id email) (fresh_user email role user_id) (reset_user role)
        users

  unfoldable pub seed_users :
      (ids : ℕ → String) → List (String × Role) → List User → List User × List User
  seed_users ids [] users = (users, [])
  seed_users ids ((email, role) ∷ rest) users =
      let (users', doc) = seed_user email role (ids (length rest)) users in
      let (last, created) = seed_users ids rest users' in (last, doc ∷ created)

pub record SeededToken : Type 0 where
  pub email : String
  pub role : Role
  pub token : String

module _ (mongo : Mongo) (config : ApiConfig)
    (jwt_sign : AuthClaims → String → String → String) where
  abbrev pub tokens_for : List User → List SeededToken
  tokens_for [] = []
  tokens_for (u ∷ us) =
      record {
        email = u.email;
        role = u.role;
        token = sign_access_token jwt_sign (claims_of u) config.jwt_secret config.jwt_expires_in;
      }
      ∷ tokens_for us

  unfoldable pub seed :
      (workspace_id workspace_name password_hash : String) (ids : ℕ → String) (now : ℕ)
      → Db
      → Db × List SeededToken
  seed workspace_id workspace_name password_hash ids now d =
      let (workspaces, w) =
        upsert mongo.workspace_docs (λ w. w.name == workspace_name)
          (record { id = ids 0; name = workspace_name }) (λ w. w) d.workspaces in
      let (users, created) =
        seed_users mongo.user_docs workspace_id password_hash ids demo_users d.users in
      let (resources, synced) =
        sync_items mongo.resource_docs workspace_id now ids (build_mock_inventory workspace_id now)
          d.resources in
      (
        record d { workspaces = workspaces; users = users; resources = resources },
        tokens_for created,
      )
