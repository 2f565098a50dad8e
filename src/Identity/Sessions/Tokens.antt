-- ===== src/Identity/Sessions/Tokens.antt =====
-- packages/identity/inmem.go: the token of a session, from CreateSession through RefreshSession.
use flametrench_go.Base.{
  ℕ, ◌+◌, ◌-◌, ◌*◌, ◌^◌, ◌≤◌, ◌<◌, ◌≡◌, ◌≢◌, ◌∙◌, Option, none, some, inl, inr, arith, ltb,
  if◌then◌else◌, Text, bytes, lookup, insert, remove, eq_iff, eq_refl, lookup-insert, lookup-remove,
  lookup-insert_self, Option-cases,
}
use flametrench_go.Base.Result.{Result, ok, err, Result-cases}
use flametrench_go.Ids.{Uuids, generate}
use flametrench_go.Identity.Types.{Error, Session, SessionWithToken, invalid_token, session_expired}
use flametrench_go.Identity.Store.{Store, fresh_id, second, put_session}
use flametrench_go.Identity.Sessions.{
  drop_token, admit_session, add_seconds, new_session, create_session, verify_session_token,
  refresh_session,
}

-- A lifetime whose nanoseconds fit an int64 is added as it is.
pub add_seconds-exact : (now n : ℕ) → n * second < 2 ^ 63 → add_seconds now n ≡ now + n * second
unfolding add_seconds
add_seconds-exact now n small = ground arith

-- A longer one, below twice the range, is negative.
pub add_seconds-wrapped :
    (now n : ℕ) → 2 ^ 63 ≤ n * second → n * second < 2 ^ 64 → add_seconds now n ≤ now
unfolding add_seconds
add_seconds-wrapped now n large small = ground arith

-- What VerifySessionToken says of a session that is not revoked.
abbrev pub until_expiry : Session → ℕ → Result Error Session
until_expiry x later = if ltb later x.expires_at then ok x else err session_expired

module _ (hash_token : Text → Text) where
  pub created_session :
      (usr cred : Text) (ttl_seconds : ℕ) (u : Uuids) (drawn : Option Text) (now later : ℕ)
      (s : Store) (r : SessionWithToken)
      → (create_session hash_token usr cred ttl_seconds u drawn now s).0 ≡ ok r
      → let s' = (create_session hash_token usr cred ttl_seconds u drawn now s).1 in
        (r.session.usr_id ≡ usr)
        × (r.session.cred_id ≡ cred)
        × (r.session.expires_at ≡ add_seconds now ttl_seconds)
        × (lookup r.session.id s'.sessions ≡ some r.session)
        × (lookup r.session.id s'.session_token_hash ≡ some (hash_token r.token))
        × ((verify_session_token hash_token r.token later s').0 ≡ until_expiry r.session later)
  unfolding create_session verify_session_token admit_session new_session fresh_id
  created_session usr cred ttl_seconds u drawn now later s r e =
      elim (Result-cases (generate u (bytes "ses"))) [
        | inr (x, g) ↦ absurd (ground arith)
        | inl (id, g) ↦ elim (Option-cases drawn) [
          | inl failed ↦ absurd (ground arith)
          | inr (token, d) ↦
              let x = new_session id usr cred now (add_seconds now ttl_seconds) in
              let th = hash_token token in
              let stored = lookup-insert_self id x s.sessions in
              let named = lookup-insert_self id th s.session_token_hash in
              let found = lookup-insert_self th id s.session_by_token_hash in
              (
                ground arith,
                ground arith,
                ground arith,
                ground (arith, stored),
                ground (arith, named),
                ground (arith, found, stored),
              )
        ]
      ]

  -- CreateSession with a lifetime of less than 2 ^ 63 nanoseconds: in the store that it leaves, the
  -- session is stored for the user and the credential with the hash of its token, and the token
  -- verifies as the session before `now` plus the lifetime, and is refused as expired from then on.
  pub create_session_verifies :
      (usr cred : Text) (ttl_seconds : ℕ) (u : Uuids) (drawn : Option Text) (now later : ℕ)
      (s : Store) (r : SessionWithToken)
      → (create_session hash_token usr cred ttl_seconds u drawn now s).0 ≡ ok r
      → ttl_seconds * second < 2 ^ 63
      → let s' = (create_session hash_token usr cred ttl_seconds u drawn now s).1 in
        (r.session.usr_id ≡ usr)
        × (r.session.cred_id ≡ cred)
        × (r.session.expires_at ≡ now + ttl_seconds * second)
        × (lookup r.session.id s'.sessions ≡ some r.session)
        × (lookup r.session.id s'.session_token_hash ≡ some (hash_token r.token))
        × ((verify_session_token hash_token r.token later s').0 ≡ until_expiry r.session later)
  create_session_verifies usr cred ttl_seconds u drawn now later s r e small =
      let (a, b, expiry, stored, named, answer) =
        created_session usr cred ttl_seconds u drawn now later s r e in
      (a, b, expiry ∙ add_seconds-exact now ttl_seconds small, stored, named, answer)

  -- CreateSession does not bound the lifetime: one from 2 ^ 63 up to 2 ^ 64 nanoseconds wraps, and the
  -- token of the session is refused as expired at every time from its creation on.
  long_session_is_expired :
      (usr cred : Text) (ttl_seconds : ℕ) (u : Uuids) (drawn : Option Text) (now later : ℕ)
      (s : Store) (r : SessionWithToken)
      → (create_session hash_token usr cred ttl_seconds u drawn now s).0 ≡ ok r
      → 2 ^ 63 ≤ ttl_seconds * second
      → ttl_seconds * second < 2 ^ 64
      → now ≤ later
      → (verify_session_token hash_token r.token later
          (create_session hash_token usr cred ttl_seconds u drawn now s).1).0
        ≡ err session_expired
  long_session_is_expired usr cred ttl_seconds u drawn now later s r e large small after =
      let (a, b, expiry, c, d, answer) =
        created_session usr cred ttl_seconds u drawn now later s r e in
      ground (arith, add_seconds-wrapped now ttl_seconds large small)

  -- RefreshSession rotates the token. Take a stored session and a token whose hash the store keeps for
  -- it. If the call succeeds with another id and a token of another hash, then in the store that it
  -- leaves the old session is revoked and keeps no token, the old token is refused as invalid, and the
  -- new token verifies until its expiry, and is refused as expired from then on, as a session of the
  -- same user and credential that is as long as the old one.
  pub refresh_session_rotates :
      (id old_token : Text) (u : Uuids) (drawn : Option Text) (now_check now at later : ℕ)
      (s : Store) (old : Session) (r : SessionWithToken)
      → lookup id s.sessions ≡ some old
      → lookup id s.session_token_hash ≡ some (hash_token old_token)
      → (refresh_session hash_token id u drawn now_check now s).0 ≡ ok r
      → hash_token r.token ≢ hash_token old_token
      → r.session.id ≢ id
      → let s' = (refresh_session hash_token id u drawn now_check now s).1 in
        (lookup id s'.sessions ≡ some (record old { revoked_at = some now }))
        × (lookup id s'.session_token_hash ≡ none)
        × ((verify_session_token hash_token old_token at s').0 ≡ err invalid_token)
        × (lookup r.session.id s'.session_token_hash ≡ some (hash_token r.token))
        × ((verify_session_token hash_token r.token later s').0 ≡ until_expiry r.session later)
        × (r.session.usr_id ≡ old.usr_id)
        × (r.session.cred_id ≡ old.cred_id)
        × (r.session.expires_at ≡ (now + old.expires_at) - old.created_at)
  unfolding refresh_session verify_session_token admit_session new_session fresh_id drop_token
      put_session
  refresh_session_rotates id old_token u drawn now_check now at later s old r eo named e other
        apart =
      elim (Result-cases (generate u (bytes "ses"))) [
        | inr (x, g) ↦ absurd (ground arith)
        | inl (new, g) ↦ elim (Option-cases drawn) [
          | inl failed ↦ absurd (ground arith)
          | inr (token, d) ↦
              let x =
                new_session new old.usr_id old.cred_id now
                  ((now + old.expires_at) - old.created_at) in
              let th = hash_token token in
              let before_ = hash_token old_token in
              let hashes = remove id s.session_token_hash in
              let back = remove before_ s.session_by_token_hash in
              let ended : Session = record old { revoked_at = some now } in
              let ends = insert id ended s.sessions in
              (
                ground (
                  arith,
                  eq_iff new id,
                  lookup-insert new id x ends,
                  lookup-insert_self id ended s.sessions,
                ),
                ground (
                  arith,
                  eq_iff new id,
                  eq_refl id,
                  lookup-insert new id th hashes,
                  lookup-remove id id s.session_token_hash,
                ),
                ground (
                  arith,
                  eq_iff th before_,
                  eq_refl before_,
                  lookup-insert th before_ new back,
                  lookup-remove before_ before_ s.session_by_token_hash,
                ),
                ground (arith, lookup-insert_self new th hashes),
                ground (arith, lookup-insert_self th new back, lookup-insert_self new x ends),
                ground arith,
                ground arith,
                ground arith,
              )
        ]
      ]
