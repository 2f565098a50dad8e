-- ===== src/Tenancy/Types.antt =====
-- packages/tenancy/types.go and errors.go. A time is a number of nanoseconds, a *string an Option.
use flametrench_go.Base.{ℕ, Bool, true, false, Option, List, if◌then◌else◌, Text, bytes, ◌==◌}
use flametrench_go.Ids.{IdError}

-- type Role string: the program stores any text; these are the constants.
abbrev pub Role : Type 0
Role = Text

unfoldable pub role_owner : Role
role_owner = bytes "owner"

unfoldable pub role_admin : Role
role_admin = bytes "admin"

unfoldable pub role_member : Role
role_member = bytes "member"

unfoldable pub role_guest : Role
role_guest = bytes "guest"

unfoldable pub admin_rank : Role → ℕ
admin_rank r =
    if r == role_owner
    then 4
    else if r == role_admin
    then 3
    else if r == role_member
    then 2
    else if r == role_guest
    then 1
    else 0

-- `unset` is the zero value "", which reading a missing key of a map gives.
pub data Status : Type 0 where
  active suspended revoked unset : Status

abbrev pub is_active : Status → Bool
is_active Status.active = true
is_active _ = false

abbrev pub is_suspended : Status → Bool
is_suspended Status.suspended = true
is_suspended _ = false

abbrev pub is_revoked : Status → Bool
is_revoked Status.revoked = true
is_revoked _ = false

pub data InvitationStatus : Type 0 where
  pending accepted declined revoked expired : InvitationStatus

abbrev pub is_pending : InvitationStatus → Bool
is_pending InvitationStatus.pending = true
is_pending _ = false

pub record Organization : Type 0 where
  pub id : Text
  pub status : Status
  pub created_at : ℕ
  pub updated_at : ℕ
  pub name : Option Text
  pub slug : Option Text

-- Organization.WithStatus
unfoldable pub with_status : Organization → Status → ℕ → Organization
with_status o s at = record o { status = s; updated_at = at }

pub record Membership : Type 0 where
  pub id : Text
  pub usr_id : Text
  pub org_id : Text
  pub role : Role
  pub status : Status
  pub replaces : Option Text
  pub invited_by : Option Text
  pub removed_by : Option Text
  pub created_at : ℕ
  pub updated_at : ℕ

pub record Tuple : Type 0 where
  pub subject_type : Text
  pub subject_id : Text
  pub relation : Text
  pub object_type : Text
  pub object_id : Text

pub record PreTuple : Type 0 where
  pub relation : Text
  pub object_type : Text
  pub object_id : Text

pub record Invitation : Type 0 where
  pub id : Text
  pub org_id : Text
  pub identifier : Text
  pub role : Role
  pub status : InvitationStatus
  pub pre_tuples : List PreTuple
  pub invited_by : Text
  pub invited_user_id : Option Text
  pub created_at : ℕ
  pub expires_at : ℕ
  pub terminal_at : Option ℕ
  pub terminal_by : Option Text

pub record CreateOrgResult : Type 0 where
  pub org : Organization
  pub owner_membership : Membership

pub record TransferOwnershipResult : Type 0 where
  pub from_membership : Membership
  pub to_membership : Membership

pub record AcceptInvitationResult : Type 0 where
  pub invitation : Invitation
  pub membership : Membership
  pub materialized_tuples : List Tuple

pub record UpdateOrgInput : Type 0 where
  pub name : Option Text
  pub slug : Option Text
  pub clear_name : Bool
  pub clear_slug : Bool

-- The Reason of a PreconditionError.
pub data Reason : Type 0 where
  invalid_slug invalid_transition mem_not_active already_owner self_transfer : Reason
  not_active_owner not_active_member : Reason

-- The sentinels of errors.go, PreconditionError, and what ids.Generate returns.
pub data Error : Type 0 where
  not_found duplicate_membership org_slug_conflict sole_owner already_terminal : Error
  invitation_not_pending invitation_expired forbidden identifier_binding_required : Error
  identifier_mismatch role_hierarchy : Error
  precondition : Reason → Error
  id_error : IdError → Error
