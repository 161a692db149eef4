-- ===== src/Seed/Resets.antt =====
-- What the seed of seed.ts makes of the users with a demo address that are stored already.
use cloudops_sentinel.Base.{
  ℕ, ◌≤◌, String, ◌≡◌, refl, sym, ap, subst, ◌∙◌, Bool, true, false, Option, some, List, [], ◌∷◌,
  Memᴰ, arith, ◌==◌, eq_iff, eq_refl, length, count, count-zero, All, All-append, All-append_left,
  All-append_right,
}
use cloudops_sentinel.Text.{get}
use cloudops_sentinel.Types.{Role}
use cloudops_sentinel.Types.User.{User}
use cloudops_sentinel.Store.{Collection, upsert, upserted}
use cloudops_sentinel.Store.Counts.{others_miss, count_replaced, count_added}
use cloudops_sentinel.Store.Laws.{none_found, one_found, Search-cases}
use cloudops_sentinel.Store.Upserts.{upsert-All}
use cloudops_sentinel.Remediation.Execute.Checks.{and_both}
use cloudops_sentinel.Seed.{demo_users, is_user_of, fresh_user, reset_user, seed_user, seed_users}

-- The demo user of an address.
abbrev pub IsDemo : (workspace_id password_hash email : String) → Role → User → Type 0
IsDemo workspace_id password_hash email role u =
    u.email ≡ email
    → (u.role ≡ role)
      × (u.workspace_id ≡ workspace_id)
      × (u.password_hash ≡ password_hash)
      × (u.active ≡ true)

-- A demo address is used in the seeded workspace only.
abbrev pub IsOwn : (workspace_id : String) → User → Type 0
IsOwn workspace_id u =
    (role : Role) → get u.email demo_users ≡ some role → u.workspace_id ≡ workspace_id

-- The users are of the workspace, and no address has two there: the index of user.ts is unique.
abbrev pub AreOwn : (workspace_id : String) → List User → Type 0
AreOwn workspace_id users =
    All (IsOwn workspace_id) users
    × ((email : String) → count (is_user_of workspace_id email) users ≤ 1)

abbrev pub IsRow : String × Role → Type 0
IsRow row = get row.0 demo_users ≡ some row.1

pub some_inj : {A : Type 0} {a b : A} → Path (Option A) (some a) (some b) → a ≡ b
some_inj h = cc

module _ (c : Collection User) (workspace_id password_hash : String) where
  abbrev saved : (email : String) → Role → (user_id : String) → List User → List User
  saved email role user_id users =
      (upsert c (is_user_of workspace_id email)
        (fresh_user c workspace_id password_hash email role user_id)
        (reset_user c workspace_id password_hash role) users).0

  same_email :
      (u : User) (email : String) → is_user_of workspace_id email u ≡ true → u.email ≡ email
  same_email u email hit =
      (eq_iff u.email email).0 (and_both (u.workspace_id == workspace_id) (u.email == email) hit).1

  named_here :
      (u : User) (email : String)
      → u.workspace_id ≡ workspace_id
      → u.email ≡ email
      → is_user_of workspace_id email u ≡ true
  named_here u email w e = ground (arith, eq_iff u.workspace_id workspace_id, eq_iff u.email email)

  saved-count :
      (email : String) (role : Role) (user_id : String) (users : List User) (other : String)
      → count (is_user_of workspace_id other) users ≤ 1
      → count (is_user_of workspace_id other) (saved email role user_id users) ≤ 1
  unfolding upsert
  saved-count email role user_id users other h =
      elim (Search-cases c (is_user_of workspace_id email) users) [
        | none_found e all ↦
            subst (λ r. count own (upserted fresh reset users r).0 ≤ 1) (sym e)
              (count_added own users fresh
                (λ is_own.
                  let same : email ≡ other =
                    (eq_iff email other).0
                      (and_both (workspace_id == workspace_id) (email == other) is_own).1 in
                  subst (λ n. count (is_user_of workspace_id n) users ≡ 0) same
                    (count-zero (is_user_of workspace_id email) users all))
                h)
        | one_found pre x post e split hit ↦
            subst (λ r. count own (upserted fresh reset users r).0 ≤ 1) (sym e)
              (subst (λ n. n ≤ 1)
                (ap (count own) split
                  ∙ count_replaced own pre x (reset x) post (
                      rw
                        (
                          eq_refl workspace_id,
                          (and_both (x.workspace_id == workspace_id) (x.email == email) hit).0,
                        )
                        refl))
                h)
      ]
    where
      own : User → Bool
      own = is_user_of workspace_id other

      fresh : User
      fresh = fresh_user c workspace_id password_hash email role user_id

      reset : User → User
      reset = reset_user c workspace_id password_hash role

  saved-IsOwn :
      (email : String) (role : Role) (user_id : String) (users : List User)
      → AreOwn workspace_id users
      → AreOwn workspace_id (saved email role user_id users)
  saved-IsOwn email role user_id users (own, single) = (
    upsert-All c (is_user_of workspace_id email) _ _ users (IsOwn workspace_id) (λ r e. refl)
        (λ u hit was r e. refl) own,
    λ other. saved-count email role user_id users other (single other),
  )

  -- The user of an address is reset, or made.
  saved-IsDemo :
      (email : String) (role : Role) (user_id : String) (users : List User)
      → IsRow (email, role)
      → AreOwn workspace_id users
      → All (IsDemo workspace_id password_hash email role) (saved email role user_id users)
  unfolding upsert
  saved-IsDemo email role user_id users row (own, single) =
      elim (Search-cases c (is_user_of workspace_id email) users) [
        | none_found e all ↦
            subst (λ r. All demo (upserted fresh reset users r).0) (sym e)
              (All-append demo users (fresh ∷ []) (missing users own all)
                ((λ n. (refl, refl, refl, refl)), tt))
        | one_found pre x post e split hit ↦
            let here = subst (All (IsOwn workspace_id)) split own in
            let (before, after) =
              others_miss (is_user_of workspace_id email) pre x post hit
                (subst (λ us. count (is_user_of workspace_id email) us ≤ 1) split (single email)) in
            subst (λ r. All demo (upserted fresh reset users r).0) (sym e)
              (All-append demo pre (reset x ∷ post)
                (missing pre (All-append_left (IsOwn workspace_id) pre (x ∷ post) here) before)
                (
                  (λ n. (refl, refl, refl, refl)),
                  missing post (All-append_right (IsOwn workspace_id) pre (x ∷ post) here).1 after,
                ))
      ]
    where
      demo : User → Type 0
      demo = IsDemo workspace_id password_hash email role

      fresh : User
      fresh = fresh_user c workspace_id password_hash email role user_id

      reset : User → User
      reset = reset_user c workspace_id password_hash role

      missing :
          (us : List User)
          → All (IsOwn workspace_id) us
          → All (λ u. is_user_of workspace_id email u ≡ false) us
          → All (IsDemo workspace_id password_hash email role) us
      missing [] o m = tt
      missing (u ∷ us) o m = (
        λ n.
            absurd (cc (m.0, named_here u email (o.0 role (ap (λ s. get s demo_users) n ∙ row)) n)),
        missing us o.1 m.1,
      )

  -- A later row keeps it.
  still-IsDemo :
      (ids : ℕ → String) (table : List (String × Role)) (users : List User) (email : String)
      (role : Role)
      → IsRow (email, role)
      → All IsRow table
      → All (IsDemo workspace_id password_hash email role) users
      → All
          (IsDemo workspace_id password_hash email role)
          (seed_users c workspace_id password_hash ids table users).0
  unfolding seed_users seed_user
  still-IsDemo ids [] users email role row rows all = all
  still-IsDemo ids ((e, r) ∷ rest) users email role row rows all =
      let same_role : e ≡ email → r ≡ role =
        λ n. some_inj (sym rows.0 ∙ ap (λ s. get s demo_users) n ∙ row) in
      still-IsDemo ids rest _ email role row rows.1 (
        upsert-All c (is_user_of workspace_id e)
          (fresh_user c workspace_id password_hash e r (ids (length rest)))
          (reset_user c workspace_id password_hash r) users
          (IsDemo workspace_id password_hash email role) (λ n. (same_role n, refl, refl, refl))
          (λ u hit was n. (same_role (sym (same_email u e hit) ∙ n), refl, refl, refl)) all)

  -- After the seed, every user with an address of the table is the demo user of it.
  pub seed_users-IsDemo :
      (ids : ℕ → String) (table : List (String × Role)) (users : List User) (email : String)
      (role : Role)
      → Memᴰ (email, role) table
      → IsRow (email, role)
      → All IsRow table
      → AreOwn workspace_id users
      → All
          (IsDemo workspace_id password_hash email role)
          (seed_users c workspace_id password_hash ids table users).0
  unfolding seed_users seed_user
  seed_users-IsDemo ids [] users email role m row rows own = elim m [ ]
  seed_users-IsDemo ids ((e, r) ∷ rest) users email role (Memᴰ.tail m) row rows own =
      seed_users-IsDemo ids rest _ email role m row rows.1
        (saved-IsOwn e r (ids (length rest)) users own)
  seed_users-IsDemo ids ((e, r) ∷ rest) users email role (Memᴰ.head same) row rows own =
      still-IsDemo ids rest _ email role row rows.1 (
        subst
          (λ (x : String × Role).
            All (IsDemo workspace_id password_hash x.0 x.1) (saved e r (ids (length rest)) users))
          (sym same) (saved-IsDemo e r (ids (length rest)) users rows.0 own))
