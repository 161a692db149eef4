-- ===== src/Routes/Bearer.antt =====
-- What a login of routes/auth.ts answers, and what the middleware makes of the token that it gives.
use cloudops_sentinel.Base.{
  String, ◌≡◌, refl, subst, ◌∙◌, inl, inr, Bool, true, false, Option, none, some, Memᴰ, arith, ◌==◌,
  eq_iff, Bool-cases, All, All-mem,
}
use Prim.Native.String
use cloudops_sentinel.Errors.{Result, ok, err, unauthorized_error}
use cloudops_sentinel.Types.User.{User, serialize}
use cloudops_sentinel.Auth.{
  AuthClaims, Decoded, Verified, an_object, verify_access_token, auth_middleware, from_decoded,
}
use cloudops_sentinel.Auth.Guards.{auth_middleware_bearer}
use cloudops_sentinel.Store.{find_one}
use cloudops_sentinel.Store.Laws.{find_one_sound, find_one_missed}
use cloudops_sentinel.Db.{Db, Mongo, ApiConfig}
use cloudops_sentinel.Remediation.Execute.Checks.{and_both}
use cloudops_sentinel.Schemas.{LoginInput}
use cloudops_sentinel.Routes.Login.{
  verify_password, sign_access_token, claims_of, LoginAnswer, is_active_user, answer_for,
  check_password, login,
}

-- The token of a user, read with the secret that signed it and before it expires, is the object
-- that was signed.
abbrev pub ReadsBack :
    (jwt_sign : AuthClaims → String → String → String)
    → (jwt_verify : String → String → Verified) → (secret expires_in : String) → User
    → Type 0
ReadsBack jwt_sign jwt_verify secret expires_in u =
    jwt_verify (jwt_sign (claims_of u) secret expires_in) secret
    ≡ an_object (record {
      sub = some u.id;
      email = some u.email;
      role = some u.role;
      workspace_id = some u.workspace_id;
    })

-- The texts that the model of a user requires are not empty.
abbrev pub IsNamed : User → Type 0
IsNamed u = ((u.id == "") ≡ false) × ((u.email == "") ≡ false) × ((u.workspace_id == "") ≡ false)

verified_object :
    (jwt_verify : String → String → Verified) (token secret : String) (o : Decoded)
    → jwt_verify token secret ≡ an_object o
    → verify_access_token jwt_verify token secret ≡ from_decoded o.sub o.email o.role o.workspace_id
unfolding verify_access_token
verified_object jwt_verify token secret o h = rw (h, verify_access_token) refl

module _ (mongo : Mongo) (config : ApiConfig) (to_lower_case : String → String)
    (compare : String → String → Bool) (jwt_sign : AuthClaims → String → String → String) where
  -- What a login comes to.
  pub data LoggedIn (input : LoginInput) (d : Db) (r : Db × Result LoginAnswer) : Type 0 where
    no_user :
        All (λ u. is_active_user (to_lower_case input.email) u ≡ false) d.users
        → r ≡ (d, err (unauthorized_error "Invalid credentials"))
        → LoggedIn input d r
    wrong_password :
        (u : User)
        → Memᴰ u d.users
        → (u.email ≡ to_lower_case input.email) × (u.active ≡ true)
        → compare input.password u.password_hash ≡ false
        → r ≡ (d, err (unauthorized_error "Invalid credentials"))
        → LoggedIn input d r
    logged_in :
        (u : User)
        → Memᴰ u d.users
        → (u.email ≡ to_lower_case input.email) × (u.active ≡ true)
        → compare input.password u.password_hash ≡ true
        → r ≡ (d, ok (answer_for mongo config to_lower_case compare jwt_sign u))
        → LoggedIn input d r

  abbrev pub try_login : LoginInput → Db → Db × Result LoginAnswer
  try_login = login mongo config to_lower_case compare jwt_sign

  pub login-LoggedIn : (input : LoginInput) (d : Db) → LoggedIn input d (try_login input d)
  unfolding login check_password verify_password
  login-LoggedIn input d = by_user (find_one mongo.user_docs wanted d.users) refl
    where
      wanted : User → Bool
      wanted = is_active_user (to_lower_case input.email)

      by_user :
          (found : Option User)
          → find_one mongo.user_docs wanted d.users ≡ found
          → LoggedIn input d
              (check_password mongo config to_lower_case compare jwt_sign input.password found d)
      by_user none h = no_user (find_one_missed mongo.user_docs wanted d.users h) refl
      by_user (some u) h =
          let (m, hit) = find_one_sound mongo.user_docs wanted d.users h in
          let (same, active) = and_both (u.email == to_lower_case input.email) u.active hit in
          elim (Bool-cases (compare input.password u.password_hash)) [
            | inl right ↦
                logged_in u m ((eq_iff u.email (to_lower_case input.email)).0 same, active) right
                  (rw right refl)
            | inr wrong ↦
                wrong_password u m ((eq_iff u.email (to_lower_case input.email)).0 same, active)
                  wrong (rw wrong refl)
          ]

  read_back :
      (jwt_verify : String → String → Verified) (u : User)
      → ReadsBack jwt_sign jwt_verify config.jwt_secret config.jwt_expires_in u
      → IsNamed u
      → verify_access_token jwt_verify
          (sign_access_token jwt_sign (claims_of u) config.jwt_secret config.jwt_expires_in)
          config.jwt_secret
        ≡ ok (claims_of u)
  unfolding sign_access_token
  read_back jwt_verify u signs named =
      verified_object jwt_verify _ config.jwt_secret _ signs ∙ rw (named.0, named.1, named.2) refl

  -- A login finds no active user of the lower-cased address, or finds one whose password is not the
  -- one given, and is then refused with the same 401 in both cases; or it finds an active user of
  -- the address whose password it is, and answers that user with a token. It changes nothing. The
  -- token, sent as "Bearer " and the token, is accepted by the middleware as the id, the address,
  -- the role and the workspace of exactly that user, where the token library reads back what it
  -- signs for the stored users and none of these has an empty id, address or workspace.
  pub login_lem :
      (jwt_verify : String → String → Verified) (input : LoginInput) (d : Db)
      → All (ReadsBack jwt_sign jwt_verify config.jwt_secret config.jwt_expires_in) d.users
      → All IsNamed d.users
      → LoggedIn input d (try_login input d)
        × ((answer : LoginAnswer)
            → (try_login input d).1 ≡ ok answer
            → auth_middleware jwt_verify config.jwt_secret
                (some (String.◌++◌ "Bearer " answer.token))
              ≡ ok (record {
                sub = answer.user.id;
                email = answer.user.email;
                role = answer.user.role;
                workspace_id = answer.user.workspace_id;
              }))
  unfolding serialize
  login_lem jwt_verify input d signs named = (
    login-LoggedIn input d,
    λ answer h.
        (auth_middleware_bearer jwt_verify config.jwt_secret).0 answer.token
        ∙ accepted answer (login-LoggedIn input d) h,
  )
    where
      accepted :
          (answer : LoginAnswer)
          → LoggedIn input d (try_login input d)
          → (try_login input d).1 ≡ ok answer
          → verify_access_token jwt_verify answer.token config.jwt_secret
            ≡ ok (record {
              sub = answer.user.id;
              email = answer.user.email;
              role = answer.user.role;
              workspace_id = answer.user.workspace_id;
            })
      accepted answer (no_user _ r) h = absurd (ground arith)
      accepted answer (wrong_password _ _ _ _ r) h = absurd (ground arith)
      accepted answer (logged_in u m _ _ r) h =
          let same : answer_for mongo config to_lower_case compare jwt_sign u ≡ answer =
            ground arith in
          subst
            (λ (a : LoginAnswer).
              verify_access_token jwt_verify a.token config.jwt_secret
              ≡ ok (record {
                sub = a.user.id;
                email = a.user.email;
                role = a.user.role;
                workspace_id = a.user.workspace_id;
              }))
            same
            (read_back jwt_verify u
              (All-mem (ReadsBack jwt_sign jwt_verify config.jwt_secret config.jwt_expires_in)
                d.users signs m)
              (All-mem IsNamed d.users named m))
