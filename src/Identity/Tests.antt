-- ===== src/Identity/Tests.antt =====
-- packages/identity/inmem.go: the theorems on users and sessions at small stores.
mod Factors
mod Pats
use Prim.Native.String.{String}
use flametrench_go.Base.{remove}
use flametrench_go.Identity.Store.{put_session}
use flametrench_go.Identity.Sessions.{drop_token}
use flametrench_go.Identity.Sessions.{revoke_session_at}
use flametrench_go.Identity.Store.{put_user}
use flametrench_go.Base.{keys}
use flametrench_go.Identity.Sessions.{revoke_sessions}
use flametrench_go.Identity.Sessions.{cascade_revoke_sessions_for_user}
use flametrench_go.Identity.Users.{cascade_user}
use flametrench_go.Base.{
  ℕ, suc, ◌<◌, ◌≤◌, ◌≡◌, ◌≢◌, refl, arith, Bool, true, false, none, some, Option, List, [], ◌∷◌,
  ◌++◌, Text, bytes, lookup, insert, ◌==◌, eq_iff, if◌then◌else◌, ◌*◌, ◌+◌, ◌-◌, length,
}
use flametrench_go.Base.Result.{Result, ok, err}
use flametrench_go.Base.Action.{◌>>=◌}
use flametrench_go.Ids.{Uuids, generate}
use flametrench_go.Identity.Types
use flametrench_go.Identity.Types.{
  User, Credential, Session, SessionWithToken, Factor, FactorStatus, with_status, suspended, active,
  factor_type_totp, factor_type_recovery, factor_type_webauthn, credential_type_password, not_found,
  precondition, invalid_transition, MfaVerifyResult, Error,
}
use flametrench_go.Identity.Store.{
  Store, empty, fresh_id, second, ident_key, singleton_key, put_factor, put_pat, or_empty,
}
use flametrench_go.Identity.Sessions.{
  create_session, refresh_session, verify_session_token, new_session, add_seconds, admit_session,
}
use flametrench_go.Identity.Sessions.Tokens.{
  until_expiry, create_session_verifies, refresh_session_rotates,
}
use flametrench_go.Identity.Users.{transition_user, suspend_user}
use flametrench_go.Identity.Credentials.{
  Hashing, IsHashing, new_credential, password_variant, find_credential_by_identifier,
}
use flametrench_go.Identity.Signin.{user_sessions_end, suspended_user_signs_in}
use flametrench_go.Identity.Factors.{
  WebAuthnProof, Verifiers, new_factor, suspend_factor, reinstate_factor, revoke_factor,
}
use flametrench_go.Identity.Mfa.{
  begin_confirm, finish_confirm, confirm_totp_factor, verify_totp_proof, verify_recovery_proof,
  or_nil, count_unused, Pending,
}
use flametrench_go.Identity.Recovery.{recovery_consumes_one}
use flametrench_go.Identity.Faults.{
  reinstated_totp_is_lost, pending_factor_reinstated, revoked_factor_confirmed,
}
use flametrench_go.Identity.Pats.{
  CreatePatInput, CreatePatResult, create_pat, verify_pat_token, new_pat,
}
use flametrench_go.Identity.Pats.Verification.{create_pat_verifies, verify_pat_token_guards}

abbrev pub draw : Uuids
draw = record { new_v7 = some (bytes "0190f2a8-1b3c-7abc-8123-456789abcdef"); parses = λ t. true }

abbrev pub hex : Text
hex = bytes "0190f2a81b3c7abc8123456789abcdef"

-- Stand-ins for the cryptography: the hash of a text is the text, and a code is its secret.
abbrev pub hash_token : Text → Text
hash_token t = bytes "h" ++ t

abbrev pub hash_plain : Text → Option Text → Result Error Text
hash_plain password none = err Types.random_failed
hash_plain password (some salt) = ok password

abbrev pub hashing : Hashing
hashing = record {
  hash_password = hash_plain;
  verify_password_hash = λ phc password. ok (phc == password);
}

pub hashing-IsHashing : IsHashing hashing
hashing-IsHashing = record {
  verifies = λ password salt phc b e. ground (arith, eq_iff phc password);
}

abbrev pub verifiers : Verifiers
verifiers = record {
  totp_verify = λ secret code now. ok (secret == code);
  normalize = λ code. code;
  is_valid_code = λ code. true;
  assertion = λ key count rp proof. ok (suc count);
}

abbrev pub alice : Text
alice = bytes "usr_alice"

abbrev pub cred : Text
cred = bytes "cred_a"

abbrev pub alice_user : User
alice_user = record {
  id = alice;
  status = active;
  created_at = 1;
  updated_at = 1;
  display_name = none;
}

abbrev pub alice_cred : Credential
alice_cred = new_credential cred alice (bytes "alice@example.com") password_variant 1

abbrev pub base : Store
base = record empty { users = (alice, alice_user) ∷ []; credentials = (cred, alice_cred) ∷ [] }

abbrev pub ses_id : Text
ses_id = bytes "ses_" ++ hex

abbrev pub ses : Session
ses = new_session ses_id alice cred 5 (5 + 60 * second)

abbrev pub signed_in : Store
signed_in = record base {
  sessions = (ses_id, ses) ∷ [];
  session_token_hash = (ses_id, bytes "htok") ∷ [];
  session_by_token_hash = (bytes "htok", ses_id) ∷ [];
}

-- Alice signs in for a minute.
abbrev pub begun : Store
begun = (create_session hash_token alice cred 60 draw (some (bytes "tok")) 5 base).1

create_session_verifies_example :
    (ses.usr_id ≡ alice)
    × (ses.cred_id ≡ cred)
    × (ses.expires_at ≡ 5 + 60 * second)
    × (lookup ses_id begun.sessions ≡ some ses)
    × (lookup ses_id begun.session_token_hash ≡ some (bytes "htok"))
    × ((verify_session_token hash_token (bytes "tok") 7 begun).0 ≡ until_expiry ses 7)
unfolding create_session new_session lookup ◌==◌ new_credential fresh_id generate add_seconds
create_session_verifies_example =
    create_session_verifies hash_token alice cred 60 draw (some (bytes "tok")) 5 7 base
      (record { session = ses; token = bytes "tok" }) refl (omega arith)

-- Another session than the one in the store.
abbrev pub old_id : Text
old_id = bytes "ses_old"

abbrev pub old_ses : Session
old_ses = new_session old_id alice cred 5 65

abbrev pub with_old : Store
with_old = record base {
  sessions = (old_id, old_ses) ∷ [];
  session_token_hash = (old_id, bytes "htok") ∷ [];
  session_by_token_hash = (bytes "htok", old_id) ∷ [];
}

abbrev draw_next : Uuids
draw_next = record {
  new_v7 = some (bytes "0190f2a8-1b3c-7abc-8123-456789abcde0");
  parses = λ t. true;
}

abbrev next_id : Text
next_id = bytes "ses_0190f2a81b3c7abc8123456789abcde0"

abbrev next_ses : Session
next_ses = new_session next_id alice cred 10 (10 + 60 * second)

refresh_session_rotates_example :
    let s' = (refresh_session hash_token ses_id draw_next (some (bytes "new")) 9 10 begun).1 in
    (lookup ses_id s'.sessions ≡ some (record ses { revoked_at = some 10 }))
    × (lookup ses_id s'.session_token_hash ≡ none)
    × ((verify_session_token hash_token (bytes "tok") 11 s').0 ≡ err Types.invalid_token)
    × (lookup next_id s'.session_token_hash ≡ some (bytes "hnew"))
    × ((verify_session_token hash_token (bytes "new") 20 s').0 ≡ until_expiry next_ses 20)
    × (alice ≡ alice)
    × (cred ≡ cred)
    × (next_ses.expires_at ≡ (10 + ses.expires_at) - 5)
unfolding refresh_session create_session new_session new_credential lookup ◌==◌ fresh_id generate
    insert add_seconds admit_session
refresh_session_rotates_example =
    refresh_session_rotates hash_token ses_id (bytes "tok") draw_next (some (bytes "new")) 9 10 11
      20 begun ses (record { session = next_ses; token = bytes "new" }) refl refl refl
      (λ e. ground arith) (λ e. ground arith)

-- Bob's session survives the suspension of Alice.
abbrev pub bob : Text
bob = bytes "usr_bob"

abbrev pub bob_ses : Session
bob_ses = new_session (bytes "ses_bob") bob (bytes "cred_b") 5 65

abbrev pub with_bob : Store
with_bob = record with_old {
  sessions = (old_id, old_ses) ∷ (bytes "ses_bob", bob_ses) ∷ [];
  session_token_hash = (old_id, bytes "htok") ∷ (bytes "ses_bob", bytes "hbob") ∷ [];
  session_by_token_hash = (bytes "htok", old_id) ∷ (bytes "hbob", bytes "ses_bob") ∷ [];
}

user_sessions_end_example : bob ≢ alice
unfolding verify_session_token transition_user new_session lookup ◌==◌ cascade_user
    cascade_revoke_sessions_for_user revoke_sessions keys put_user revoke_session_at drop_token
    put_session insert remove
user_sessions_end_example =
    user_sessions_end alice alice_user suspended 9 9 (λ c. 9) with_bob refl refl refl refl
      hash_token (bytes "bob") 10 bob_ses refl

suspended_user_signs_in_example :
    let s' = (suspend_user alice 2 3 (λ c. 3) base).1 in
    let (r, s'') = create_session hash_token alice cred 60 draw (some (bytes "tok")) 5 s' in
    (lookup alice s'.users ≡ some (with_status alice_user suspended 2))
    × (r ≡ ok (record { session = ses; token = bytes "tok" }))
    × ((verify_session_token hash_token (bytes "tok") 7 s'').0 ≡ ok ses)
unfolding lookup generate new_credential add_seconds
suspended_user_signs_in_example =
    suspended_user_signs_in hash_token alice cred ses_id (bytes "tok") alice_user alice_cred 60 draw
      2 3 5 7 (λ c. 3) base refl refl refl refl refl refl (omega arith)
