-- ===== src/Auth/Guards.antt =====
-- What the checks of auth/index.ts and middleware/auth.ts let through.
use cloudops_sentinel.Base.{
  String, ◌≡◌, refl, sym, ap, ◌∙◌, ◌≢◌, ◌↔◌, ◌⊎◌, inl, inr, true, false, ◌||◌, Option, none, some,
  List, [], ◌∷◌, Memᴰ, arith, ◌==◌, eq_iff, eq_refl, Bool-cases,
}
use Prim.Native.String
use text.Mathlib.Text.{starts_with}
use text.Mathlib.TextPositions.{len-append, slice-append_right, starts_with-append}
use cloudops_sentinel.Errors.{Result, ok, err, AppError, unauthorized_error}
use cloudops_sentinel.Types.{Role, role_eq}
use cloudops_sentinel.Auth.{
  forbidden_error, tokens_match, require_role, AuthClaims, role_among, Verified, throws, a_text,
  an_object, verify_access_token, from_decoded, auth_middleware,
}

-- A token is accepted exactly when its hash is the stored one.
pub tokens_match_iff :
    (sha256 : String → String) (plain hashed : String)
    → (tokens_match sha256 plain hashed ≡ true) ↔ (sha256 plain ≡ hashed)
unfolding tokens_match
tokens_match_iff sha256 plain hashed =
    (λ h. ground (arith, eq_iff (sha256 plain) hashed), λ e. rw e (ground (arith, eq_refl hashed)))

-- What a check of a verified token comes to.
pub data Checked (v : Verified) (r : Result AuthClaims) : Type 0 where
  genuine :
      (c : AuthClaims)
      → v
        ≡ an_object (record {
          sub = some c.sub;
          email = some c.email;
          role = some c.role;
          workspace_id = some c.workspace_id;
        })
      → c.sub ≢ ""
      → c.email ≢ ""
      → c.workspace_id ≢ ""
      → r ≡ ok c
      → Checked v r
  refused : (e : AppError) → r ≡ err e → e.status_code ≡ 401 → Checked v r

from_decoded-Checked :
    (sub email : Option String) (role : Option Role) (workspace_id : Option String)
    → Checked
        (an_object (record { sub = sub; email = email; role = role; workspace_id = workspace_id }))
        (from_decoded sub email role workspace_id)
from_decoded-Checked (some sub) (some email) (some role) (some workspace_id) =
    elim (Bool-cases (sub == "" || email == "" || workspace_id == "")) [
      | inl blank ↦ rw blank (refused _ refl refl)
      | inr full ↦ rw full (
          genuine (record { sub = sub; email = email; role = role; workspace_id = workspace_id })
            refl (λ e. ground (arith, eq_iff sub "")) (λ e. ground (arith, eq_iff email ""))
            (λ e. ground (arith, eq_iff workspace_id "")) refl)
    ]
from_decoded-Checked _ _ _ _ = refused _ refl refl

-- Whoever passes the check of an access token carries the claims of an object that the token
-- library verified, with a subject, an e-mail address, a role and a workspace that are present and
-- not empty; every other token is refused with a 401.
pub verify_access_token-Checked :
    (jwt_verify : String → String → Verified) (token secret : String)
    → Checked (jwt_verify token secret) (verify_access_token jwt_verify token secret)
unfolding verify_access_token
verify_access_token-Checked jwt_verify token secret = go (jwt_verify token secret)
  where
    go :
        (v : Verified)
        → Checked v (elim v [
          | throws ↦ err (unauthorized_error "Invalid or expired token")
          | a_text s ↦ err (unauthorized_error "Invalid token")
          | an_object d ↦ from_decoded d.sub d.email d.role d.workspace_id
        ])
    go throws = refused _ refl refl
    go (a_text s) = refused _ refl refl
    go (an_object d) = from_decoded-Checked d.sub d.email d.role d.workspace_id

bearer_rest :
    (token : String)
    → String.slice (String.◌++◌ "Bearer " token) 7 (String.len (String.◌++◌ "Bearer " token))
      ≡ token
bearer_rest token =
    ap (String.slice (String.◌++◌ "Bearer " token) 7) (len-append "Bearer " token)
    ∙ slice-append_right "Bearer " token

-- The middleware checks exactly the text behind "Bearer ", and refuses a request with no header or
-- with another scheme by a 401.
pub auth_middleware_bearer :
    (jwt_verify : String → String → Verified) (secret : String)
    → ((token : String)
        → auth_middleware jwt_verify secret (some (String.◌++◌ "Bearer " token))
          ≡ verify_access_token jwt_verify token secret)
      × (auth_middleware jwt_verify secret none
          ≡ err (unauthorized_error "Authentication required"))
      × ((header : String)
          → starts_with header "Bearer " ≡ false
          → auth_middleware jwt_verify secret (some header)
            ≡ err (unauthorized_error "Authentication required"))
unfolding auth_middleware
auth_middleware_bearer jwt_verify secret = (
  λ token.
      rw (starts_with-append "Bearer " token)
        (ap (λ t. verify_access_token jwt_verify t secret) (bearer_rest token)),
  refl,
  λ header e. rw e refl,
)

role_eq_iff : (a b : Role) → (role_eq a b ≡ true) ↔ (a ≡ b)
role_eq_iff a b = ground arith

role_among_sound : (r : Role) (rs : List Role) → role_among r rs ≡ true → Memᴰ r rs
unfolding role_among
role_among_sound r [] h = cc
role_among_sound r (x ∷ rs) h = elim (Bool-cases (role_eq x r)) [
  | inl e ↦ Memᴰ.head (sym ((role_eq_iff x r).0 e))
  | inr n ↦ Memᴰ.tail (role_among_sound r rs (ground arith))
]

role_among_complete : (r : Role) (rs : List Role) → Memᴰ r rs → role_among r rs ≡ true
unfolding role_among
role_among_complete r [] m = elim m [ ]
role_among_complete r (x ∷ rs) (Memᴰ.head e) = rw ((role_eq_iff x r).1 (sym e)) refl
role_among_complete r (x ∷ rs) (Memᴰ.tail m) = ground (arith, role_among_complete r rs m)

-- A role check passes the claims of a request on exactly when their role is in its list; otherwise
-- it is a 403, and for a request without claims a 401.
pub require_role_lem :
    (roles : List Role) (auth : AuthClaims)
    → ((Memᴰ auth.role roles × (require_role roles (some auth) ≡ ok auth))
        ⊎ ((¬ Memᴰ auth.role roles)
            × (require_role roles (some auth) ≡ err (forbidden_error "Insufficient permissions"))))
      × (require_role roles none ≡ err (unauthorized_error "Authentication required"))
unfolding require_role
require_role_lem roles auth = elim (Bool-cases (role_among auth.role roles)) [
  | inl among ↦ (inl (role_among_sound auth.role roles among, rw among refl), refl)
  | inr other ↦ (inr (λ m. cc (other, role_among_complete auth.role roles m), rw other refl), refl)
]
