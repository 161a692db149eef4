-- ===== src/Routes/Login.antt =====
-- apps/api/src/routes/auth.ts, with `signAccessToken` and `verifyPassword` of
-- packages/shared/src/auth/index.ts. The libraries behind these two and the lower-casing of a text
-- are parameters.
use cloudops_sentinel.Base.{String, Bool, ◌&&◌, Option, none, some, ◌==◌, if◌then◌else◌}
use cloudops_sentinel.Errors.{ok, err, unauthorized_error}
use cloudops_sentinel.Types.User.{User, PublicUser, serialize}
use cloudops_sentinel.Auth.{AuthClaims}
use cloudops_sentinel.Store.{find_one}
use cloudops_sentinel.Db.{Mongo, ApiConfig, M}
use cloudops_sentinel.Routes.{with_body}
use cloudops_sentinel.Schemas.{Zod, LoginInput, login_schema}

unfoldable pub verify_password : (compare : String → String → Bool) → (plain hash : String) → Bool
verify_password compare plain hash = compare plain hash

unfoldable pub sign_access_token :
    (jwt_sign : AuthClaims → String → String → String)
    → AuthClaims
    → (secret expires_in : String) → String
sign_access_token jwt_sign claims secret expires_in = jwt_sign claims secret expires_in

abbrev pub claims_of : User → AuthClaims
claims_of user = record {
  sub = user.id;
  email = user.email;
  role = user.role;
  workspace_id = user.workspace_id;
}

pub record LoginAnswer : Type 0 where
  pub token : String
  pub user : PublicUser

-- The filter of the search, which does not ask for a workspace.
abbrev pub is_active_user : (email : String) → User → Bool
is_active_user email u = u.email == email && u.active

module _ (mongo : Mongo) (config : ApiConfig) (to_lower_case : String → String)
    (compare : String → String → Bool) (jwt_sign : AuthClaims → String → String → String) where
  abbrev pub answer_for : User → LoginAnswer
  answer_for user = record {
    token = sign_access_token jwt_sign (claims_of user) config.jwt_secret config.jwt_expires_in;
    user = serialize user;
  }

  -- What follows the search.
  unfoldable pub check_password : (password : String) → Option User → M LoginAnswer
  check_password password none d = (d, err (unauthorized_error "Invalid credentials"))
  check_password password (some user) d =
      if verify_password compare password user.password_hash
      then (d, ok (answer_for user))
      else (d, err (unauthorized_error "Invalid credentials"))

  unfoldable pub login : LoginInput → M LoginAnswer
  login input d =
      check_password input.password
        (find_one mongo.user_docs (is_active_user (to_lower_case input.email)) d.users) d

  unfoldable pub login_route : (z : Zod) → z.Value → M LoginAnswer
  login_route z body = with_body (login_schema z body) login
