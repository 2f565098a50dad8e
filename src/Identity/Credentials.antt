-- ===== src/Identity/Credentials.antt =====
-- packages/identity/inmem.go: credentials and the verification of a password.
use flametrench_go.Base.{select}
use flametrench_go.Base.{
  ℕ, ◌≡◌, Bool, true, false, not, ◌||◌, Option, none, some, List, [], ltb, if◌then◌else◌, present,
  Text, bytes, is_bytes, ◌==◌, lookup, insert, remove,
}
use flametrench_go.Base.Result.{Result, ok}
use flametrench_go.Base.Action.{◌>>=◌, ◌>>◌, pure, lift, gets, or_raise, raise_if, modify}
use flametrench_go.Ids.{Uuids}
use flametrench_go.Identity.Types.{
  Status, active, suspended, revoked, is_active, is_suspended, is_revoked, same_status, Credential,
  CredentialType, credential_type_password, credential_type_passkey, credential_type_oidc,
  VerifiedCredential, UserMfaPolicy, Error, not_found, duplicate_credential, invalid_credential,
  credential_not_active, credential_type_mismatch, already_terminal, precondition,
  invalid_transition,
}
use flametrench_go.Identity.Store.{
  Store, Method, ident_key, fresh_id, or_empty, or_zero_credential, put_credential,
}
use flametrench_go.Identity.Sessions.{cascade_revoke_sessions_for_credential}

-- What the store calls of hashing.go: HashPassword, with its random salt (none if the draw fails),
-- and VerifyPasswordHash on a stored hash and a candidate.
pub record Hashing : Type 0 where
  pub hash_password : Text → Option Text → Result Error Text
  pub verify_password_hash : Text → Text → Result Error Bool

-- What a client relies on: a hash that was made, with a salt of bytes, verifies its plaintext.
pub record IsHashing (h : Hashing) : Type 0 where
  pub verifies :
      (password salt phc : Text)
      → is_bytes salt ≡ true
      → h.hash_password password (some salt) ≡ ok phc
      → h.verify_password_hash phc password ≡ ok true

-- The fields of a new credential that depend on its type.
pub record Variant : Type 0 where
  pub type_of : CredentialType
  pub sign_count : ℕ
  pub rp_id : Text
  pub issuer : Text
  pub subject : Text

abbrev pub password_variant : Variant
password_variant = record {
  type_of = credential_type_password;
  sign_count = 0;
  rp_id = [];
  issuer = [];
  subject = [];
}

abbrev pub passkey_variant : ℕ → Text → Variant
passkey_variant sign_count rp_id = record {
  type_of = credential_type_passkey;
  sign_count = sign_count;
  rp_id = rp_id;
  issuer = [];
  subject = [];
}

abbrev pub oidc_variant : Text → Text → Variant
oidc_variant issuer subject = record {
  type_of = credential_type_oidc;
  sign_count = 0;
  rp_id = [];
  issuer = issuer;
  subject = subject;
}

unfoldable pub new_credential : Text → Text → Text → Variant → ℕ → Credential
new_credential id usr identifier v now = record {
  id = id;
  usr_id = usr;
  type_of = v.type_of;
  identifier = identifier;
  status = active;
  replaces = none;
  created_at = now;
  updated_at = now;
  passkey_sign_count = v.sign_count;
  passkey_rp_id = v.rp_id;
  oidc_issuer = v.issuer;
  oidc_subject = v.subject;
}

-- s.activeCredByIdent[identKey(c.Type, c.Identifier)] = id, and its deletion
unfoldable pub index_credential : Text → Credential → Store → Store
index_credential id c s = record s {
  active_cred_by_ident = insert (ident_key c.type_of c.identifier) id s.active_cred_by_ident;
}

unfoldable pub unindex_credential : Credential → Store → Store
unindex_credential c s = record s {
  active_cred_by_ident = remove (ident_key c.type_of c.identifier) s.active_cred_by_ident;
}

-- The two checks that each Create…Credential begins with.
unfoldable pub check_new : Text → CredentialType → Text → Method (Unit {0})
check_new usr type_of identifier = do
  or_raise (← gets (λ s. lookup usr s.users)) not_found
  raise_if (← gets (λ s. present (lookup (ident_key type_of identifier) s.active_cred_by_ident)))
      duplicate_credential

unfoldable pub put_password_hash : Text → Text → Store → Store
put_password_hash id phc s = record s { password_hashes = insert id phc s.password_hashes }

unfoldable pub put_passkey : Text → Text → Store → Store
put_passkey id key s = record s { passkey_public_keys = insert id key s.passkey_public_keys }

unfoldable pub create_passkey_credential :
    Text → Text → Text → ℕ → Text → Uuids → ℕ → Method Credential
unfolding check_new
create_passkey_credential usr identifier key sign_count rp_id u now = do
  check_new usr credential_type_passkey identifier
  id ← fresh_id u (bytes "cred")
  let c = new_credential id usr identifier (passkey_variant sign_count rp_id) now
  modify (put_credential id c)
  modify (put_passkey id key)
  modify (index_credential id c)
  pure c

unfoldable pub create_oidc_credential : Text → Text → Text → Text → Uuids → ℕ → Method Credential
unfolding check_new
create_oidc_credential usr identifier issuer subject u now = do
  check_new usr credential_type_oidc identifier
  id ← fresh_id u (bytes "cred")
  let c = new_credential id usr identifier (oidc_variant issuer subject) now
  modify (put_credential id c)
  modify (index_credential id c)
  pure c

unfoldable pub get_credential : Text → Method Credential
get_credential cred = do or_raise (← gets (λ s. lookup cred s.credentials)) not_found

unfoldable pub list_credentials_for_user : Text → Method (List Credential)
unfolding select
list_credentials_for_user usr = do
  or_raise (← gets (λ s. lookup usr s.users)) not_found
  gets (λ s. select (λ c. c.usr_id == usr) s.credentials)

unfoldable pub find_credential_by_identifier : CredentialType → Text → Method (Option Credential)
find_credential_by_identifier type_of identifier = gets (λ s.
    elim (lookup (ident_key type_of identifier) s.active_cred_by_ident) [
      | none ↦ none
      | some id ↦ some (or_zero_credential (lookup id s.credentials))
    ])

-- rotate; `mutate` is its closure, at the first clock reading and the old credential.
unfoldable pub rotate : Text → (ℕ → Credential → Method Credential) → ℕ → ℕ → Method Credential
rotate cred mutate now now_sessions = do
  old ← or_raise (← gets (λ s. lookup cred s.credentials)) not_found
  raise_if (not (is_active old.status)) credential_not_active
  made ← mutate now old
  let c : Credential = record made { replaces = some cred }
  modify (put_credential cred (record old { status = revoked; updated_at = now }))
  modify (unindex_credential old)
  modify (put_credential c.id c)
  modify (index_credential c.id c)
  modify (cascade_revoke_sessions_for_credential cred now_sessions)
  pure c

unfoldable pub mutate_passkey : Text → ℕ → Text → Uuids → ℕ → Credential → Method Credential
mutate_passkey key sign_count rp_id u now old = do
  raise_if (not (old.type_of == credential_type_passkey)) credential_type_mismatch
  id ← fresh_id u (bytes "cred")
  modify (put_passkey id key)
  pure (new_credential id old.usr_id old.identifier (passkey_variant sign_count rp_id) now)

unfoldable pub rotate_passkey : Text → Text → ℕ → Text → Uuids → ℕ → ℕ → Method Credential
unfolding rotate mutate_passkey
rotate_passkey cred key sign_count rp_id u now now_sessions =
    rotate cred (mutate_passkey key sign_count rp_id u) now now_sessions

unfoldable pub mutate_oidc : Text → Text → Uuids → ℕ → Credential → Method Credential
mutate_oidc issuer subject u now old = do
  raise_if (not (old.type_of == credential_type_oidc)) credential_type_mismatch
  id ← fresh_id u (bytes "cred")
  pure (new_credential id old.usr_id old.identifier (oidc_variant issuer subject) now)

unfoldable pub rotate_oidc : Text → Text → Text → Uuids → ℕ → ℕ → Method Credential
unfolding rotate mutate_oidc
rotate_oidc cred issuer subject u now now_sessions =
    rotate cred (mutate_oidc issuer subject u) now now_sessions

-- The index part of transitionCredential.
unfoldable pub reinstate_index : Text → Credential → Method (Unit {0})
reinstate_index cred c = do
  raise_if (not (is_suspended c.status)) (precondition invalid_transition)
  raise_if
      (← gets (λ s. present (lookup (ident_key c.type_of c.identifier) s.active_cred_by_ident)))
      duplicate_credential
  modify (index_credential cred c)

unfoldable pub reindex_credential : Text → Credential → Status → Method (Unit {0})
unfolding reinstate_index
reindex_credential cred c to =
    if is_active to then reinstate_index cred c else modify (unindex_credential c)

-- transitionCredential
unfoldable pub transition_credential : Text → Status → ℕ → ℕ → Method Credential
unfolding reindex_credential
transition_credential cred to now now_sessions = do
  c ← or_raise (← gets (λ s. lookup cred s.credentials)) not_found
  raise_if (is_revoked c.status) already_terminal
  if same_status c.status to then pure c else do
    reindex_credential cred c to
    let c' : Credential = record c { status = to; updated_at = now }
    modify (put_credential cred c')
    modify (λ s.
        if is_suspended to || is_revoked to
        then cascade_revoke_sessions_for_credential cred now_sessions s
        else s)
    pure c'

unfoldable pub suspend_credential : Text → ℕ → ℕ → Method Credential
suspend_credential cred = transition_credential cred suspended

unfoldable pub reinstate_credential : Text → ℕ → ℕ → Method Credential
reinstate_credential cred = transition_credential cred active

unfoldable pub revoke_credential : Text → ℕ → ℕ → Method Credential
revoke_credential cred = transition_credential cred revoked

-- UserMfaPolicy.IsActiveNow
unfoldable pub is_active_now : UserMfaPolicy → ℕ → Bool
is_active_now p now =
    if not p.required then false else elim p.grace_until [ none ↦ true | some t ↦ not (ltb now t) ]

abbrev pub policy_requires : Option UserMfaPolicy → ℕ → Bool
policy_requires none now = false
policy_requires (some p) now = is_active_now p now

module _ (h : Hashing) where
  unfoldable pub create_password_credential :
      Text → Text → Text → Option Text → Uuids → ℕ → Method Credential
  unfolding check_new
  create_password_credential usr identifier password salt u now = do
    check_new usr credential_type_password identifier
    phc ← lift (h.hash_password password salt)
    id ← fresh_id u (bytes "cred")
    let c = new_credential id usr identifier password_variant now
    modify (put_credential id c)
    modify (put_password_hash id phc)
    modify (index_credential id c)
    pure c

  unfoldable pub mutate_password : Text → Option Text → Uuids → ℕ → Credential → Method Credential
  mutate_password password salt u now old = do
    raise_if (not (old.type_of == credential_type_password)) credential_type_mismatch
    phc ← lift (h.hash_password password salt)
    id ← fresh_id u (bytes "cred")
    modify (put_password_hash id phc)
    pure (new_credential id old.usr_id old.identifier password_variant now)

  unfoldable pub rotate_password : Text → Text → Option Text → Uuids → ℕ → ℕ → Method Credential
  unfolding rotate mutate_password
  rotate_password cred password salt u now now_sessions =
      rotate cred (mutate_password password salt u) now now_sessions

  -- The decoy verification of an unknown identifier returns nothing, so it is left out.
  unfoldable pub verify_password : Text → Text → ℕ → Method VerifiedCredential
  verify_password identifier password now = do
    id ←
        or_raise
          (← gets
            (λ s. lookup (ident_key credential_type_password identifier) s.active_cred_by_ident))
          invalid_credential
    phc ← gets (λ s. or_empty (lookup id s.password_hashes))
    c ← gets (λ s. or_zero_credential (lookup id s.credentials))
    policy ← gets (λ s. lookup c.usr_id s.mfa_policies)
    good ← lift (h.verify_password_hash phc password)
    raise_if (not good) invalid_credential
    pure (record { usr_id = c.usr_id; cred_id = id; mfa_required = policy_requires policy now })
