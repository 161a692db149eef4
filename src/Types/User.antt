-- ===== src/Types/User.antt =====
-- packages/shared/src/types/index.ts: `User` and `Workspace`, and what packages/shared/src/serialize.ts
-- makes of a user for an answer. The fields that mongoose keeps (createdAt, updatedAt) are left out.
use cloudops_sentinel.Base.{String, Bool}
use cloudops_sentinel.Types.{Role}

pub record User : Type 0 where
  pub id : String
  pub workspace_id : String
  pub email : String
  pub role : Role
  pub password_hash : String
  pub active : Bool

pub record Workspace : Type 0 where
  pub id : String
  pub name : String

-- A user without the hash of the password.
pub record PublicUser : Type 0 where
  pub id : String
  pub workspace_id : String
  pub email : String
  pub role : Role
  pub active : Bool

unfoldable pub serialize : User → PublicUser
serialize doc = record {
  id = doc.id;
  workspace_id = doc.workspace_id;
  email = doc.email;
  role = doc.role;
  active = doc.active;
}
