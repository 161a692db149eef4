-- ===== src/Types.antt =====
-- packages/shared/src/constants.ts and packages/shared/src/types/index.ts: the enumerations, and the
-- tests of status that the services make. The documents are in the modules below.
pub mod Resource
pub mod Job
pub mod Plan
pub mod User
use cloudops_sentinel.Base.{String, Bool, true, false, List, [], ◌∷◌}

pub data Role : Type 0 where
  admin operator viewer : Role

pub data ResourceType : Type 0 where
  ec2 s3 lambda cloudwatch : ResourceType

pub data JobStatus : Type 0 where
  pending running retry_wait completed failed dead_lettered cancelled : JobStatus

pub data FindingSeverity : Type 0 where
  critical high medium low info : FindingSeverity

pub data PlanStatus : Type 0 where
  draft awaiting_approval approved executing completed failed rejected : PlanStatus

pub data ExecutionStatus : Type 0 where
  pending running succeeded partial_failure failed skipped_duplicate : ExecutionStatus

-- The enumerations' tests for equality.
abbrev pub role_eq : Role → Role → Bool
role_eq admin admin = true
role_eq operator operator = true
role_eq viewer viewer = true
role_eq _ _ = false

abbrev pub type_eq : ResourceType → ResourceType → Bool
type_eq ec2 ec2 = true
type_eq s3 s3 = true
type_eq lambda lambda = true
type_eq cloudwatch cloudwatch = true
type_eq _ _ = false

-- Action types are text in the stored documents, so that an action outside the list can occur.
abbrev pub allowlisted_actions : List String
allowlisted_actions =
    "add_missing_tag" ∷ "create_alarm" ∷ "enable_backup_policy" ∷ "restart_unhealthy_service"
    ∷ "restrict_public_storage" ∷ []

abbrev pub required_tags : List String
required_tags = "Environment" ∷ "Owner" ∷ "CostCenter" ∷ "Service" ∷ []
