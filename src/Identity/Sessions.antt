-- ===== src/Identity/Sessions.antt =====
-- packages/identity/inmem.go: sessions, their tokens, and the cascades that end them.
pub mod Tokens
pub mod Cascades
use flametrench_go.Base.{select}
use flametrench_go.Base.{
  ℕ, ◌+◌, ◌-◌, ◌*◌, ◌%◌, ◌^◌, Bool, true, false, not, ◌&&◌, ◌||◌, Option, none, some, List, [], ◌∷◌,
  ltb, eqb, if◌then◌else◌, present, Text, bytes, ◌==◌, lookup, insert, remove, keys, before,
}
use flametrench_go.Base.Action.{◌>>=◌, ◌>>◌, pure, gets, or_raise, raise_if, modify}
use flametrench_go.Ids.{Uuids}
use flametrench_go.Paging.{Page, paginate, sort_slice}
use flametrench_go.Identity.Types.{
  is_active, Session, SessionWithToken, not_found, invalid_token, session_expired,
  credential_not_active, precondition, cred_user_mismatch, random_failed,
}
use flametrench_go.Identity.Store.{Store, Method, fresh_id, second, or_zero_session, put_session}

-- if th, ok := s.sessionTokenHash[sid]; ok { delete both entries }
unfoldable pub drop_token : Text → Store → Store
drop_token sid s = elim (lookup sid s.session_token_hash) [
  | none ↦ s
  | some th ↦ record s {
    session_token_hash = remove sid s.session_token_hash;
    session_by_token_hash = remove th s.session_by_token_hash;
  }
]

-- One turn of the loops of cascadeRevokeSessionsForUser and cascadeRevokeSessionsForCredential, which
-- differ in the test on the session.
unfoldable pub revoke_session_at : (Session → Bool) → ℕ → Text → Store → Store
revoke_session_at owned now sid s = elim (lookup sid s.sessions) [
  | none ↦ s
  | some x ↦
      if owned x && not (present x.revoked_at)
      then drop_token sid (put_session sid (record x { revoked_at = some now }) s)
      else s
]

unfoldable pub revoke_sessions : (Session → Bool) → ℕ → List Text → Store → Store
revoke_sessions owned now [] s = s
revoke_sessions owned now (sid ∷ sids) s =
    revoke_sessions owned now sids (revoke_session_at owned now sid s)

unfoldable pub cascade_revoke_sessions_for_user : Text → ℕ → Store → Store
cascade_revoke_sessions_for_user usr now s =
    revoke_sessions (λ x. x.usr_id == usr) now (keys s.sessions) s

unfoldable pub cascade_revoke_sessions_for_credential : Text → ℕ → Store → Store
cascade_revoke_sessions_for_credential cred now s =
    revoke_sessions (λ x. x.cred_id == cred) now (keys s.sessions) s

-- The writes that store a session with its token's hash.
unfoldable pub admit_session : Text → Session → Text → Store → Store
admit_session id x th s = record s {
  sessions = insert id x s.sessions;
  session_token_hash = insert id th s.session_token_hash;
  session_by_token_hash = insert th id s.session_by_token_hash;
}

-- now.Add(time.Duration(seconds) * time.Second): the product is an int64, so it wraps, and from 2 ^ 63
-- on it is negative.
unfoldable pub add_seconds : ℕ → ℕ → ℕ
add_seconds now seconds =
    let d = (seconds * second) % 2 ^ 64 in if ltb d (2 ^ 63) then now + d else now - (2 ^ 64 - d)

unfoldable pub new_session : Text → Text → Text → ℕ → ℕ → Session
new_session id usr cred now expires = record {
  id = id;
  usr_id = usr;
  cred_id = cred;
  created_at = now;
  expires_at = expires;
  revoked_at = none;
}

unfoldable pub get_session : Text → Method Session
get_session id = do or_raise (← gets (λ s. lookup id s.sessions)) not_found

unfoldable pub session_before : Session → Session → Bool
session_before x y =
    ltb x.created_at y.created_at || (eqb x.created_at y.created_at && before x.id y.id)

unfoldable pub list_sessions_for_user : Text → Option Text → ℕ → Method (Page Session)
unfolding session_before select
list_sessions_for_user usr cursor limit = do
  or_raise (← gets (λ s. lookup usr s.users)) not_found
  gets (λ s.
      paginate (λ x. x.id) cursor limit
        (sort_slice session_before (select (λ x. x.usr_id == usr) s.sessions)))

unfoldable pub revoke_session : Text → ℕ → Method Session
revoke_session id now = do
  x ← or_raise (← gets (λ s. lookup id s.sessions)) not_found
  if present x.revoked_at then pure x else do
    modify (put_session id (record x { revoked_at = some now }))
    modify (drop_token id)
    pure (record x { revoked_at = some now })

-- `hash_token` is the hexadecimal SHA-256 digest. `drawn` is the base64 text of the 32 bytes that
-- rand.Read gives; none is its error.
module _ (hash_token : Text → Text) where
  unfoldable pub create_session :
      Text → Text → ℕ → Uuids → Option Text → ℕ → Method SessionWithToken
  create_session usr cred ttl_seconds u drawn now = do
    or_raise (← gets (λ s. lookup usr s.users)) not_found
    c ← or_raise (← gets (λ s. lookup cred s.credentials)) not_found
    raise_if (not (c.usr_id == usr)) (precondition cred_user_mismatch)
    raise_if (not (is_active c.status)) credential_not_active
    id ← fresh_id u (bytes "ses")
    token ← or_raise drawn random_failed
    let x = new_session id usr cred now (add_seconds now ttl_seconds)
    modify (admit_session id x (hash_token token))
    pure (record { session = x; token = token })

  unfoldable pub verify_session_token : Text → ℕ → Method Session
  verify_session_token token now = do
    id ← or_raise (← gets (λ s. lookup (hash_token token) s.session_by_token_hash)) invalid_token
    x ← gets (λ s. or_zero_session (lookup id s.sessions))
    raise_if (present x.revoked_at) session_expired
    raise_if (not (ltb now x.expires_at)) session_expired
    pure x

  -- `now_check` is the reading of the expiry test, `now` that of the writes. The new session lives for
  -- old.ExpiresAt.Sub(old.CreatedAt), which may be negative: now + expires_at - created_at.
  unfoldable pub refresh_session : Text → Uuids → Option Text → ℕ → ℕ → Method SessionWithToken
  refresh_session id u drawn now_check now = do
    old ← or_raise (← gets (λ s. lookup id s.sessions)) not_found
    raise_if (present old.revoked_at) session_expired
    raise_if (not (ltb now_check old.expires_at)) session_expired
    modify (put_session id (record old { revoked_at = some now }))
    modify (drop_token id)
    new_id ← fresh_id u (bytes "ses")
    token ← or_raise drawn random_failed
    let x = new_session new_id old.usr_id old.cred_id now ((now + old.expires_at) - old.created_at)
    modify (admit_session new_id x (hash_token token))
    pure (record { session = x; token = token })
