-- ===== src/Identity/Store.antt =====
-- packages/identity/inmem.go: the state of InMemoryIdentityStore and what its methods share. A method
-- takes the clock readings, the uuid draws and the random draws that it makes as arguments.
use flametrench_go.Base.{ℕ, Bool, Option, none, some, List, [], ◌∷◌, ◌++◌, Text, Map, insert}
use flametrench_go.Base.Result.{Result, ok, err}
use flametrench_go.Base.Action.{Action}
use flametrench_go.Ids.{IdError, Uuids, generate}
use flametrench_go.Identity.Types.{
  User, Credential, CredentialType, Session, Factor, FactorStatus, UserMfaPolicy,
  PersonalAccessToken, unset, Error, id_error,
}

pub record Store : Type 0 where
  pub users : Map User
  pub credentials : Map Credential
  pub password_hashes : Map Text
  pub passkey_public_keys : Map Text
  pub active_cred_by_ident : Map Text
  pub sessions : Map Session
  pub session_token_hash : Map Text
  pub session_by_token_hash : Map Text
  pub factors : Map Factor
  pub totp_secrets : Map Text
  pub webauthn_public_keys : Map Text
  pub recovery_hashes : Map (List Text)
  pub recovery_consumed : Map (List Bool)
  pub mfa_singleton : Map Text
  pub mfa_policies : Map UserMfaPolicy
  pub pats : Map PersonalAccessToken
  pub pat_secret_hashes : Map Text
  pub pat_last_used_persist : Map ℕ

-- NewInMemoryIdentityStore
abbrev pub empty : Store
empty = record {
  users = [];
  credentials = [];
  password_hashes = [];
  passkey_public_keys = [];
  active_cred_by_ident = [];
  sessions = [];
  session_token_hash = [];
  session_by_token_hash = [];
  factors = [];
  totp_secrets = [];
  webauthn_public_keys = [];
  recovery_hashes = [];
  recovery_consumed = [];
  mfa_singleton = [];
  mfa_policies = [];
  pats = [];
  pat_secret_hashes = [];
  pat_last_used_persist = [];
}

abbrev pub Method : Type 0 → Type 0
Method A = Action Store Error A

-- identKey, and the keys of mfaSingleton
unfoldable pub ident_key : CredentialType → Text → Text
ident_key type_of identifier = type_of ++ (b'|' ∷ identifier)

unfoldable pub singleton_key : Text → Text → Text
singleton_key usr type_of = usr ++ (b'|' ∷ type_of)

abbrev pub from_ids : Result IdError Text → Result Error Text
from_ids (ok id) = ok id
from_ids (err e) = err (id_error e)

-- id, err := flametrenchids.Generate(typ)
unfoldable pub fresh_id : Uuids → Text → Method Text
fresh_id u typ s = (from_ids (generate u typ), s)

-- One second in the clock's unit, the nanosecond.
abbrev pub second : ℕ
second = 1000000000

-- The zero values that reading a missing key of a map gives.
abbrev pub or_empty : Option Text → Text
or_empty none = []
or_empty (some t) = t

unfoldable pub zero_credential : Credential
zero_credential = record {
  id = [];
  usr_id = [];
  type_of = [];
  identifier = [];
  status = unset;
  replaces = none;
  created_at = 0;
  updated_at = 0;
  passkey_sign_count = 0;
  passkey_rp_id = [];
  oidc_issuer = [];
  oidc_subject = [];
}

abbrev pub or_zero_credential : Option Credential → Credential
or_zero_credential none = zero_credential
or_zero_credential (some c) = c

unfoldable pub zero_session : Session
zero_session = record {
  id = [];
  usr_id = [];
  cred_id = [];
  created_at = 0;
  expires_at = 0;
  revoked_at = none;
}

abbrev pub or_zero_session : Option Session → Session
or_zero_session none = zero_session
or_zero_session (some x) = x

unfoldable pub zero_factor : Factor
zero_factor = record {
  id = [];
  usr_id = [];
  type_of = [];
  identifier = [];
  status = FactorStatus.unset;
  replaces = none;
  created_at = 0;
  updated_at = 0;
  rp_id = [];
  sign_count = 0;
  remaining = 0;
}

abbrev pub or_zero_factor : Option Factor → Factor
or_zero_factor none = zero_factor
or_zero_factor (some f) = f

-- s.users[id] = u and the like
unfoldable pub put_user : Text → User → Store → Store
put_user id u s = record s { users = insert id u s.users }

unfoldable pub put_credential : Text → Credential → Store → Store
put_credential id c s = record s { credentials = insert id c s.credentials }

unfoldable pub put_session : Text → Session → Store → Store
put_session id x s = record s { sessions = insert id x s.sessions }

unfoldable pub put_factor : Text → Factor → Store → Store
put_factor id f s = record s { factors = insert id f s.factors }

unfoldable pub put_pat : Text → PersonalAccessToken → Store → Store
put_pat id p s = record s { pats = insert id p s.pats }
