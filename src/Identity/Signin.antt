-- ===== src/Identity/Signin.antt =====
-- packages/identity/inmem.go: what suspending or revoking a user does to the sessions, and what it
-- leaves open.
use flametrench_go.Base.{
  lookup-insert_self, ◌∙◌, ℕ, ◌<◌, ◌≡◌, ◌≢◌, refl, Bool, true, false, ◌||◌, some, inl, inr, List,
  [], ◌∷◌, arith, Text, bytes, ◌==◌, lookup, insert, keys, eq_iff, Option-cases,
}
use flametrench_go.Base.Result.{ok}
use flametrench_go.Ids.{Uuids, generate}
use flametrench_go.Identity.Types.{
  Status, suspended, is_active, is_suspended, is_revoked, same_status, User, with_status,
  Credential, Session,
}
use flametrench_go.Identity.Store.{Store, put_user, put_session, fresh_id, zero_session}
use flametrench_go.Identity.Sessions.{
  cascade_revoke_sessions_for_user, revoke_sessions, revoke_session_at, drop_token, add_seconds,
  new_session, verify_session_token, create_session,
}
use flametrench_go.Identity.Sessions.Cascades.{ended, map_session, lookup-revoke_sessions}
use flametrench_go.Identity.Sessions.Tokens.{until_expiry, created_session}
use flametrench_go.Identity.Users.{
  revoke_credential_at, revoke_credentials, cascade_user, transition_user, suspend_user,
}

revoke_credential_at_sessions :
    (usr cid : Text) (at : ℕ) (s : Store)
    → (revoke_credential_at usr cid at s).sessions ≡ s.sessions
unfolding revoke_credential_at
revoke_credential_at_sessions usr cid at s = ground arith

revoke_credentials_sessions :
    (usr : Text) (at : Text → ℕ) (cids : List Text) (s : Store)
    → (revoke_credentials usr at cids s).sessions ≡ s.sessions
unfolding revoke_credentials
revoke_credentials_sessions usr at [] s = refl
revoke_credentials_sessions usr at (cid ∷ cids) s = ground (
  arith,
  revoke_credentials_sessions usr at cids (revoke_credential_at usr cid (at cid) s),
  revoke_credential_at_sessions usr cid (at cid) s,
)

-- The states to which transitionUser ends the sessions.
abbrev pub is_closing : Status → Bool
is_closing to = is_suspended to || is_revoked to

lookup-cascade_user :
    (usr i : Text) (to : Status) (now : ℕ) (at : Text → ℕ) (s : Store)
    → is_closing to ≡ true
    → lookup i (cascade_user usr to now at s).sessions
      ≡ map_session (ended (λ x. x.usr_id == usr) now) (lookup i s.sessions)
unfolding cascade_user cascade_revoke_sessions_for_user
lookup-cascade_user usr i to now at s closing =
    let mid = revoke_sessions (λ x. x.usr_id == usr) now (keys s.sessions) s in
    ground (
      arith,
      lookup-revoke_sessions (λ x. x.usr_id == usr) now i s,
      revoke_credentials_sessions usr at (keys mid.credentials) mid,
    )

module _ (usr : Text) (u : User) (to : Status) (now now_sessions : ℕ) (at : Text → ℕ) (s : Store)
    (stored : lookup usr s.users ≡ some u) (alive : is_revoked u.status ≡ false)
    (moves : same_status u.status to ≡ false) (closing : is_closing to ≡ true) where
  left :
      (i : Text)
      → lookup i (transition_user usr to now now_sessions at s).1.sessions
        ≡ map_session (ended (λ x. x.usr_id == usr) now_sessions) (lookup i s.sessions)
  unfolding transition_user put_user
  left i = ground (
    arith,
    lookup-cascade_user usr i to now_sessions at
        (record s { users = insert usr (with_status u to now) s.users }) closing,
  )

  -- When SuspendUser or RevokeUser moves a stored user to a status other than the one it has, and the
  -- user is not revoked, the user's sessions end: a token that verifies in the store that the call
  -- leaves, at any time, is not that of a session of the user.
  pub user_sessions_end :
      (hash_token : Text → Text) (token : Text) (later : ℕ) (x : Session)
      → (verify_session_token hash_token token later
          (transition_user usr to now now_sessions at s).1).0
        ≡ ok x
      → x.usr_id ≢ usr
  unfolding verify_session_token zero_session ended
  user_sessions_end hash_token token later x v same =
      let s' = (transition_user usr to now now_sessions at s).1 in
      elim (Option-cases (lookup (hash_token token) s'.session_by_token_hash)) [
        | inl unknown ↦ ground arith
        | inr (sid, known) ↦ elim (Option-cases (lookup sid s.sessions)) [
          | inl missing ↦ ground (arith, left sid)
          | inr (y, e) ↦ ground (arith, left sid, eq_iff y.usr_id usr)
        ]
      ]

drop_token_credentials :
    (sid : Text) (s : Store)
    → ((drop_token sid s).credentials ≡ s.credentials) × ((drop_token sid s).users ≡ s.users)
unfolding drop_token
drop_token_credentials sid s = (ground arith, ground arith)

revoke_session_at_credentials :
    (owned : Session → Bool) (now : ℕ) (sid : Text) (s : Store)
    → ((revoke_session_at owned now sid s).credentials ≡ s.credentials)
      × ((revoke_session_at owned now sid s).users ≡ s.users)
unfolding revoke_session_at put_session
revoke_session_at_credentials owned now sid s = elim (Option-cases (lookup sid s.sessions)) [
  | inl missing ↦ (ground arith, ground arith)
  | inr (x, e) ↦
      let s' : Store = record s {
        sessions = insert sid (record x { revoked_at = some now }) s.sessions;
      } in
      (ground (arith, drop_token_credentials sid s'), ground (arith, drop_token_credentials sid s'))
]

-- The cascades on sessions leave the credentials and the users alone.
pub revoke_sessions_credentials :
    (owned : Session → Bool) (now : ℕ) (sids : List Text) (s : Store)
    → ((revoke_sessions owned now sids s).credentials ≡ s.credentials)
      × ((revoke_sessions owned now sids s).users ≡ s.users)
unfolding revoke_sessions
revoke_sessions_credentials owned now [] s = (refl, refl)
revoke_sessions_credentials owned now (sid ∷ sids) s =
    let rest = revoke_sessions_credentials owned now sids (revoke_session_at owned now sid s) in
    let first = revoke_session_at_credentials owned now sid s in
    (rest.0 ∙ first.0, rest.1 ∙ first.1)

-- CreateSession does not read the status of the user: a user who was active and is suspended, one of
-- whose credentials is active, still gets a session, if its id can be minted, and its token verifies
-- before the session's expiry.
pub suspended_user_signs_in :
    (hash_token : Text → Text) (usr cred id token : Text) (x : User) (c : Credential)
    (ttl_seconds : ℕ) (u : Uuids) (now now_sessions at later : ℕ) (closed : Text → ℕ) (s : Store)
    → lookup usr s.users ≡ some x
    → is_active x.status ≡ true
    → lookup cred s.credentials ≡ some c
    → c.usr_id ≡ usr
    → is_active c.status ≡ true
    → generate u (bytes "ses") ≡ ok id
    → later < add_seconds at ttl_seconds
    → let s' = (suspend_user usr now now_sessions closed s).1 in
      let (r, s'') = create_session hash_token usr cred ttl_seconds u (some token) at s' in
      (lookup usr s'.users ≡ some (with_status x suspended now))
      × (r
          ≡ ok (record {
            session = new_session id usr cred at (add_seconds at ttl_seconds);
            token = token;
          }))
      × ((verify_session_token hash_token token later s'').0
          ≡ ok (new_session id usr cred at (add_seconds at ttl_seconds)))
unfolding suspend_user transition_user cascade_user cascade_revoke_sessions_for_user put_user
suspended_user_signs_in hash_token usr cred id token x c ttl_seconds u now now_sessions at later
      closed s ex ax ec ec' ac g soon =
    let held : Store = record s { users = insert usr (with_status x suspended now) s.users } in
    let owned = λ (y : Session). y.usr_id == usr in
    let s' = revoke_sessions owned now_sessions (keys s.sessions) held in
    let after : (suspend_user usr now now_sessions closed s).1 ≡ s' = ground arith in
    let kept = revoke_sessions_credentials owned now_sessions (keys s.sessions) held in
    let self = lookup-insert_self usr (with_status x suspended now) s.users in
    let known : lookup usr s'.users ≡ some (with_status x suspended now) = rw (kept.1) self in
    let cred_kept : lookup cred s'.credentials ≡ some c = rw (kept.0) ec in
    let made = created s' known cred_kept in
    let new = new_session id usr cred at (add_seconds at ttl_seconds) in
    let (a, b, c', d, f, answer) =
      created_session hash_token usr cred ttl_seconds u (some token) at later s'
        (record { session = new; token = token }) made in
    let live : until_expiry new later ≡ ok new = unfold new_session in (ground arith) in
    rw after (known, made, answer ∙ live)
  where
    created :
        (s' : Store)
        → lookup usr s'.users ≡ some (with_status x suspended now)
        → lookup cred s'.credentials ≡ some c
        → (create_session hash_token usr cred ttl_seconds u (some token) at s').0
          ≡ ok (record {
            session = new_session id usr cred at (add_seconds at ttl_seconds);
            token = token;
          })
    created s' known kept = unfold create_session fresh_id in (ground (arith, eq_iff c.usr_id usr))
