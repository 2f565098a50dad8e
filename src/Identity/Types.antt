-- ===== src/Identity/Types.antt =====
-- packages/identity/types.go, mfa.go, pat.go and errors.go: the entities and the errors.
use flametrench_go.Base.{ℕ, Bool, true, false, Option, List, Text, bytes}
use flametrench_go.Ids.{IdError}

-- `unset` is the zero value "", which reading a missing key of a map gives.
pub data Status : Type 0 where
  active suspended revoked unset : Status

abbrev pub is_active : Status → Bool
is_active Status.active = true
is_active _ = false

abbrev pub is_suspended : Status → Bool
is_suspended Status.suspended = true
is_suspended _ = false

abbrev pub is_revoked : Status → Bool
is_revoked Status.revoked = true
is_revoked _ = false

-- s == t
abbrev pub same_status : Status → Status → Bool
same_status Status.active t = is_active t
same_status Status.suspended t = is_suspended t
same_status Status.revoked t = is_revoked t
same_status Status.unset Status.unset = true
same_status Status.unset _ = false

-- CredentialType and FactorType are strings.
abbrev pub CredentialType : Type 0
CredentialType = Text

unfoldable pub credential_type_password : CredentialType
credential_type_password = bytes "password"

unfoldable pub credential_type_passkey : CredentialType
credential_type_passkey = bytes "passkey"

unfoldable pub credential_type_oidc : CredentialType
credential_type_oidc = bytes "oidc"

pub record User : Type 0 where
  pub id : Text
  pub status : Status
  pub created_at : ℕ
  pub updated_at : ℕ
  pub display_name : Option Text

-- User.WithStatus
unfoldable pub with_status : User → Status → ℕ → User
with_status u s at = record u { status = s; updated_at = at }

pub record Credential : Type 0 where
  pub id : Text
  pub usr_id : Text
  pub type_of : CredentialType
  pub identifier : Text
  pub status : Status
  pub replaces : Option Text
  pub created_at : ℕ
  pub updated_at : ℕ
  pub passkey_sign_count : ℕ
  pub passkey_rp_id : Text
  pub oidc_issuer : Text
  pub oidc_subject : Text

pub record Session : Type 0 where
  pub id : Text
  pub usr_id : Text
  pub cred_id : Text
  pub created_at : ℕ
  pub expires_at : ℕ
  pub revoked_at : Option ℕ

pub record SessionWithToken : Type 0 where
  pub session : Session
  pub token : Text

pub record VerifiedCredential : Type 0 where
  pub usr_id : Text
  pub cred_id : Text
  pub mfa_required : Bool

pub record UpdateUserInput : Type 0 where
  pub display_name : Option Text
  pub clear_display_name : Bool

abbrev pub FactorType : Type 0
FactorType = Text

unfoldable pub factor_type_totp : FactorType
factor_type_totp = bytes "totp"

unfoldable pub factor_type_webauthn : FactorType
factor_type_webauthn = bytes "webauthn"

unfoldable pub factor_type_recovery : FactorType
factor_type_recovery = bytes "recovery"

pub data FactorStatus : Type 0 where
  pending active suspended revoked unset : FactorStatus

abbrev pub is_pending_factor : FactorStatus → Bool
is_pending_factor FactorStatus.pending = true
is_pending_factor _ = false

abbrev pub is_active_factor : FactorStatus → Bool
is_active_factor FactorStatus.active = true
is_active_factor _ = false

abbrev pub is_revoked_factor : FactorStatus → Bool
is_revoked_factor FactorStatus.revoked = true
is_revoked_factor _ = false

pub record Factor : Type 0 where
  pub id : Text
  pub usr_id : Text
  pub type_of : FactorType
  pub identifier : Text
  pub status : FactorStatus
  pub replaces : Option Text
  pub created_at : ℕ
  pub updated_at : ℕ
  pub rp_id : Text
  pub sign_count : ℕ
  pub remaining : ℕ

pub record UserMfaPolicy : Type 0 where
  pub usr_id : Text
  pub required : Bool
  pub grace_until : Option ℕ
  pub updated_at : ℕ

pub record MfaVerifyResult : Type 0 where
  pub mfa_id : Text
  pub type_of : FactorType
  pub mfa_verified_at : ℕ
  pub new_sign_count : Option ℕ

pub data PatStatus : Type 0 where
  active expired revoked : PatStatus

pub record PersonalAccessToken : Type 0 where
  pub id : Text
  pub usr_id : Text
  pub name : Text
  pub scope : List Text
  pub status : PatStatus
  pub expires_at : Option ℕ
  pub last_used_at : Option ℕ
  pub revoked_at : Option ℕ
  pub created_at : ℕ
  pub updated_at : ℕ

pub record VerifiedPat : Type 0 where
  pub pat_id : Text
  pub usr_id : Text
  pub scope : List Text

-- The Reason of a PreconditionError.
pub data Reason : Type 0 where
  invalid_transition cred_user_mismatch cred_id_mismatch invalid_name expires_too_late : Reason

-- The sentinels of errors.go, PreconditionError, the two errors of a personal access token with its
-- id, ErrPasswordTooLong, a failed random draw, a *WebAuthnError (of any reason), the error of an
-- empty proof, the two errors of TOTP and its panic, and what ids.Generate returns.
pub data Error : Type 0 where
  not_found duplicate_credential invalid_credential invalid_token session_expired : Error
  credential_not_active credential_type_mismatch already_terminal invalid_pat_token : Error
  precondition : Reason → Error
  pat_expired pat_revoked : Text → Error
  password_too_long random_failed empty_proof unsupported_algorithm drift_out_of_range : Error
  webauthn_error divide_by_zero : Error
  id_error : IdError → Error
