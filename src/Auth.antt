-- ===== src/Auth.antt =====
-- packages/shared/src/auth/index.ts and apps/api/src/middleware/auth.ts. SHA-256 and the JSON web
-- token library are parameters.
pub mod Guards
use Prim.Native.String.{len, slice}
use text.Mathlib.Text.{starts_with}
use cloudops_sentinel.Base.{
  String, Bool, true, false, ◌||◌, Option, none, some, List, [], ◌∷◌, ◌==◌, nat_eq, if◌then◌else◌,
}
use cloudops_sentinel.Errors.{Result, ok, err, unauthorized_error, forbidden_error}
use cloudops_sentinel.Types.{Role, admin, operator, role_eq}

pub record AuthClaims : Type 0 where
  pub sub : String
  pub email : String
  pub role : Role
  pub workspace_id : String

-- What a verified token holds: text or nothing in each place. `jwt.verify` accepts only what was
-- signed with the secret, so the role is one of those that the API signs; the code does not check
-- which, so another text would pass too, and no predicate on roles would permit it more than reading.
pub record Decoded : Type 0 where
  pub sub : Option String
  pub email : Option String
  pub role : Option Role
  pub workspace_id : Option String

-- What `jwt.verify` does: it throws, returns a text, or an object.
pub data Verified : Type 0 where
  throws : Verified
  a_text : String → Verified
  an_object : Decoded → Verified

-- `!s`: a missing text or an empty one.
abbrev pub is_blank : Option String → Bool
is_blank none = true
is_blank (some s) = s == ""

abbrev pub from_decoded :
    Option String → Option String → Option Role → Option String → Result AuthClaims
from_decoded (some sub) (some email) (some role) (some workspace_id) =
    if sub == "" || email == "" || workspace_id == ""
    then err (unauthorized_error "Invalid token claims")
    else ok (record { sub = sub; email = email; role = role; workspace_id = workspace_id })
from_decoded _ _ _ _ = err (unauthorized_error "Invalid token claims")

unfoldable pub verify_access_token :
    (jwt_verify : String → String → Verified) → (token secret : String) → Result AuthClaims
verify_access_token jwt_verify token secret = elim (jwt_verify token secret) [
  | throws ↦ err (unauthorized_error "Invalid or expired token")
  | a_text s ↦ err (unauthorized_error "Invalid token")
  | an_object d ↦ from_decoded d.sub d.email d.role d.workspace_id
]

unfoldable pub hash_token : (sha256 : String → String) → String → String
hash_token sha256 token = sha256 token

-- The lengths are in bytes; `timingSafeEqual` compares buffers of one length.
unfoldable pub tokens_match : (sha256 : String → String) → (plain hashed : String) → Bool
unfolding hash_token
tokens_match sha256 plain hashed =
    if nat_eq (len (hash_token sha256 plain)) (len hashed)
    then hash_token sha256 plain == hashed
    else false

unfoldable pub can_read : Role → Bool
can_read role = true

unfoldable pub can_operate : Role → Bool
can_operate role = role_eq role admin || role_eq role operator

unfoldable pub can_approve : Role → Bool
can_approve role = role_eq role admin

unfoldable pub can_execute : Role → Bool
can_execute role = role_eq role admin || role_eq role operator

-- The claims that the middleware puts into the request, by the header that it reads.
unfoldable pub auth_middleware :
    (jwt_verify : String → String → Verified)
    → (secret : String) → (header : Option String) → Result AuthClaims
unfolding verify_access_token
auth_middleware jwt_verify secret none = err (unauthorized_error "Authentication required")
auth_middleware jwt_verify secret (some header) =
    if starts_with header "Bearer "
    then verify_access_token jwt_verify (slice header (len "Bearer ") (len header)) secret
    else err (unauthorized_error "Authentication required")

unfoldable pub role_among : Role → List Role → Bool
role_among role [] = false
role_among role (r ∷ rs) = role_eq r role || role_among role rs

unfoldable pub require_role : List Role → Option AuthClaims → Result AuthClaims
unfolding role_among
require_role roles none = err (unauthorized_error "Authentication required")
require_role roles (some auth) =
    if role_among auth.role roles then ok auth else err (forbidden_error "Insufficient permissions")
