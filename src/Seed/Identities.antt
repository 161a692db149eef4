-- ===== src/Seed/Identities.antt =====
-- The demo identities that seed.ts stores, and their logins.
use cloudops_sentinel.Base.{
  ℕ, ◌≤◌, count, String, ◌≡◌, refl, sym, ap, subst, ◌∙◌, inl, inr, Bool, true, false, some, List,
  [], ◌∷◌, Memᴰ, arith, ◌==◌, eq_iff, eq_refl, Bool-cases, length, All, All-mem,
}
use cloudops_sentinel.Text.{get}
use cloudops_sentinel.Errors.{ok}
use cloudops_sentinel.Types.{Role}
use cloudops_sentinel.Types.User.{serialize, User}
use cloudops_sentinel.Auth.{AuthClaims}
use cloudops_sentinel.Store.{Collection}
use cloudops_sentinel.Store.Upserts.{Has, not-Has_none, upsert_result, upsert-Has}
use cloudops_sentinel.Db.{Db, Mongo, ApiConfig}
use cloudops_sentinel.Remediation.Execute.Checks.{and_both}
use cloudops_sentinel.Schemas.{LoginInput}
use cloudops_sentinel.Routes.Login.{login, LoginAnswer, is_active_user, answer_for}
use cloudops_sentinel.Routes.Bearer.{LoggedIn, no_user, wrong_password, logged_in, login-LoggedIn}
use cloudops_sentinel.Seed.Resets.{some_inj, IsDemo, IsOwn, IsRow, seed_users-IsDemo}
use cloudops_sentinel.Seed.{
  demo_users, is_user_of, fresh_user, reset_user, seed_user, seed_users, seed,
}

module _ (c : Collection User) (workspace_id password_hash : String) where
  still_active :
      (ids : ℕ → String) (table : List (String × Role)) (users : List User) (email : String)
      → Has (is_active_user email) users
      → Has (is_active_user email) (seed_users c workspace_id password_hash ids table users).0
  unfolding seed_users seed_user
  still_active ids [] users email has = has
  still_active ids ((e, role) ∷ rest) users email has = still_active ids rest _ email (
      upsert-Has c (is_user_of workspace_id e)
        (fresh_user c workspace_id password_hash e role (ids (length rest)))
        (reset_user c workspace_id password_hash role) users (is_active_user email)
        (λ u hit active. ground arith) has)

  made_active :
      (ids : ℕ → String) (table : List (String × Role)) (users : List User) (email : String)
      (role : Role)
      → Memᴰ (email, role) table
      → Has (is_active_user email) (seed_users c workspace_id password_hash ids table users).0
  unfolding seed_users seed_user
  made_active ids [] users email role m = elim m [ ]
  made_active ids ((e, r) ∷ rest) users email role (Memᴰ.tail m) =
      made_active ids rest _ email role m
  made_active ids ((e, r) ∷ rest) users email role (Memᴰ.head same) =
      let here : email ≡ e = ap (λ row. row.0) same in
      let (stored, active) =
        upsert_result c (is_user_of workspace_id e)
          (fresh_user c workspace_id password_hash e r (ids (length rest)))
          (reset_user c workspace_id password_hash r) users (λ u. is_active_user email u ≡ true)
          (rw (here, eq_refl e) refl)
          (λ u was hit.
            rw (here, (and_both (u.workspace_id == workspace_id) (u.email == e) hit).1) refl) in
      still_active ids rest _ email (_, stored, active)

demo_rows : All IsRow demo_users
unfolding get
demo_rows = (refl, (refl, (refl, tt)))

get_mem :
    (email : String) (role : Role) (table : List (String × Role))
    → get email table ≡ some role
    → Memᴰ (email, role) table
unfolding get
get_mem email role [] h = cc
get_mem email role ((e, r) ∷ rest) h = elim (Bool-cases (e == email)) [
  | inl hit ↦
      let same : e ≡ email = (eq_iff e email).0 hit in
      let here : r ≡ role = some_inj (ground arith) in
      Memᴰ.head (ap (λ x. (x, role)) (sym same) ∙ ap (λ x. (e, x)) (sym here))
  | inr miss ↦ Memᴰ.tail (get_mem email role rest (ground arith))
]

module _ (mongo : Mongo) (config : ApiConfig) (to_lower_case : String → String)
    (compare : String → String → Bool) (jwt_sign : AuthClaims → String → String → String)
    (workspace_id workspace_name password_hash : String) (ids : ℕ → String) (now : ℕ) where
  abbrev pub seeded : Db → Db
  seeded d = (seed mongo config jwt_sign workspace_id workspace_name password_hash ids now d).0

  -- After the seed, each demo address logs in with any password that fits the hash, and the answer
  -- is a stored user of the address, with the role of the demo table and the seeded workspace. That
  -- holds whatever role, hash and activity the users have that are stored already, as long as none
  -- with a demo address is of another workspace and no address has two users in the seeded one,
  -- which the index of user.ts forbids.
  pub demo_login :
      (d : Db) (email : String) (role : Role) (password : String)
      → All (IsOwn workspace_id) d.users
      → ((other : String) → count (is_user_of workspace_id other) d.users ≤ 1)
      → get email demo_users ≡ some role
      → to_lower_case email ≡ email
      → compare password password_hash ≡ true
      → (answer : LoginAnswer) × (login mongo config to_lower_case compare jwt_sign
            (record { email = email; password = password })
            (seeded d)
          ≡ (seeded d, ok answer))
        × (answer.user.email ≡ email)
        × (answer.user.role ≡ role)
        × (answer.user.workspace_id ≡ workspace_id)
  unfolding seed serialize
  demo_login d email role password own single row lower fits =
      by_outcome (login-LoggedIn mongo config to_lower_case compare jwt_sign input (seeded d))
    where
      input : LoginInput
      input = record { email = email; password = password }

      stored : All (IsDemo workspace_id password_hash email role) (seeded d).users
      stored =
          seed_users-IsDemo mongo.user_docs workspace_id password_hash ids demo_users d.users email
            role (get_mem email role demo_users row) row demo_rows (own, single)

      active : Has (is_active_user email) (seeded d).users
      active =
          made_active mongo.user_docs workspace_id password_hash ids demo_users d.users email role
            (get_mem email role demo_users row)

      by_outcome :
          LoggedIn mongo config to_lower_case compare jwt_sign input
            (seeded d)
            (login mongo config to_lower_case compare jwt_sign input (seeded d))
          → (answer : LoginAnswer) × (login mongo config to_lower_case compare jwt_sign input
                (seeded d)
              ≡ (seeded d, ok answer))
            × (answer.user.email ≡ email)
            × (answer.user.role ≡ role)
            × (answer.user.workspace_id ≡ workspace_id)
      by_outcome (no_user missing r) = absurd (
          not-Has_none (is_active_user email) (seeded d).users
            (subst (λ e. All (λ u. is_active_user e u ≡ false) (seeded d).users) lower missing)
            active)
      by_outcome (wrong_password u m named wrong r) =
          let demo =
            All-mem (IsDemo workspace_id password_hash email role) (seeded d).users stored m
              (named.0 ∙ lower) in
          absurd (cc (ap (compare password) demo.2))
      by_outcome (logged_in u m named fit r) =
          let demo =
            All-mem (IsDemo workspace_id password_hash email role) (seeded d).users stored m
              (named.0 ∙ lower) in
          (
            answer_for mongo config to_lower_case compare jwt_sign u,
            r,
            named.0 ∙ lower,
            demo.0,
            demo.1,
          )
