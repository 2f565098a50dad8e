-- ===== src/Identity/Sessions/Cascades.antt =====
-- packages/identity/inmem.go: what the cascades leave of each session.
use flametrench_go.Base.{
  ℕ, ◌≡◌, refl, Bool, not, ◌&&◌, Option, none, some, inl, inr, List, [], ◌∷◌, arith, if◌then◌else◌,
  present, Text, ◌==◌, lookup, insert, keys, visits, eq_iff, lookup-insert, lookup-visits,
  Option-cases,
}
use flametrench_go.Identity.Types.{Session}
use flametrench_go.Identity.Store.{Store, put_session}
use flametrench_go.Identity.Sessions.{drop_token, revoke_session_at, revoke_sessions}

pub drop_token_sessions : (sid : Text) (s : Store) → (drop_token sid s).sessions ≡ s.sessions
unfolding drop_token
drop_token_sessions sid s = ground arith

-- What a cascade leaves of a session.
unfoldable pub ended : (Session → Bool) → ℕ → Session → Session
ended owned now x =
    if owned x && not (present x.revoked_at) then record x { revoked_at = some now } else x

abbrev pub map_session : (Session → Session) → Option Session → Option Session
map_session f none = none
map_session f (some x) = some (f x)

module _ (owned : Session → Bool) (now : ℕ) where
  lookup-revoke_session_at :
      (sid i : Text) (s : Store)
      → lookup i (revoke_session_at owned now sid s).sessions ≡ (
          if sid == i
          then map_session (ended owned now) (lookup i s.sessions)
          else lookup i s.sessions)
  unfolding revoke_session_at put_session ended
  lookup-revoke_session_at sid i s = elim (Option-cases (lookup sid s.sessions)) [
    | inl missing ↦ ground (arith, eq_iff sid i)
    | inr (x, e) ↦ ground (
      arith,
      eq_iff sid i,
      lookup-insert sid i (record x { revoked_at = some now }) s.sessions,
      drop_token_sessions sid
          (record s { sessions = insert sid (record x { revoked_at = some now }) s.sessions }),
    )
  ]

  ended_idem :
      (o : Option Session)
      → map_session (ended owned now) (map_session (ended owned now) o)
        ≡ map_session (ended owned now) o
  unfolding ended
  ended_idem none = refl
  ended_idem (some x) = ground arith

  lookup-revoke_from :
      (i : Text) (sids : List Text) (s : Store)
      → lookup i (revoke_sessions owned now sids s).sessions ≡ (
          if visits i sids
          then map_session (ended owned now) (lookup i s.sessions)
          else lookup i s.sessions)
  unfolding revoke_sessions visits
  lookup-revoke_from i [] s = refl
  lookup-revoke_from i (sid ∷ sids) s = ground (
    arith,
    lookup-revoke_from i sids (revoke_session_at owned now sid s),
    lookup-revoke_session_at sid i s,
    ended_idem (lookup i s.sessions),
  )

  -- The range over all sessions ends those that pass the test and leaves the others.
  pub lookup-revoke_sessions :
      (i : Text) (s : Store)
      → lookup i (revoke_sessions owned now (keys s.sessions) s).sessions
        ≡ map_session (ended owned now) (lookup i s.sessions)
  lookup-revoke_sessions i s = elim (Option-cases (lookup i s.sessions)) [
    | inl missing ↦ ground (arith, lookup-revoke_from i (keys s.sessions) s)
    | inr (x, e) ↦
        ground (arith, lookup-revoke_from i (keys s.sessions) s, lookup-visits i x s.sessions e)
  ]
