-- ===== src/Identity/Users.antt =====
-- packages/identity/inmem.go: users.
use flametrench_go.Base.{select}
use flametrench_go.Base.{
  ℕ, Bool, true, false, not, ◌&&◌, ◌||◌, Option, none, some, List, [], ◌∷◌, ltb, eqb, if◌then◌else◌,
  Text, bytes, ◌==◌, Map, lookup, insert, remove, keys, before,
}
use flametrench_go.Base.Action.{◌>>=◌, ◌>>◌, pure, gets, or_raise, raise_if, modify}
use flametrench_go.Ids.{Uuids}
use flametrench_go.Paging.{Page, paginate, sort_slice}
use flametrench_go.Base.Strings.{contains}
use flametrench_go.Identity.Types.{
  Status, active, suspended, revoked, is_active, is_suspended, is_revoked, same_status, User,
  with_status, Credential, UpdateUserInput, not_found, already_terminal, precondition,
  invalid_transition,
}
use flametrench_go.Identity.Store.{Store, Method, ident_key, fresh_id, put_user}
use flametrench_go.Identity.Sessions.{cascade_revoke_sessions_for_user}

unfoldable pub create_user : Option Text → Uuids → ℕ → Method User
create_user display_name u now = do
  id ← fresh_id u (bytes "usr")
  let x : User = record {
    id = id;
    status = active;
    created_at = now;
    updated_at = now;
    display_name = display_name;
  }
  modify (put_user id x)
  pure x

unfoldable pub get_user : Text → Method User
get_user usr = do or_raise (← gets (λ s. lookup usr s.users)) not_found

abbrev pub new_display_name : UpdateUserInput → Option Text → Option Text
new_display_name i old =
    if i.clear_display_name then none else elim i.display_name [ none ↦ old | some n ↦ some n ]

unfoldable pub update_user : Text → UpdateUserInput → ℕ → Method User
update_user usr i now = do
  x ← or_raise (← gets (λ s. lookup usr s.users)) not_found
  raise_if (is_revoked x.status) already_terminal
  let x' : User = record x { display_name = new_display_name i x.display_name; updated_at = now }
  modify (put_user usr x')
  pure x'

-- One turn of the loop of transitionUser over the credentials.
unfoldable pub revoke_credential_at : Text → Text → ℕ → Store → Store
revoke_credential_at usr cid at s = elim (lookup cid s.credentials) [
  | none ↦ s
  | some c ↦
      if c.usr_id == usr && is_active c.status
      then record s {
        credentials = insert cid (record c { status = revoked; updated_at = at }) s.credentials;
        active_cred_by_ident = remove (ident_key c.type_of c.identifier) s.active_cred_by_ident;
      }
      else s
]

unfoldable pub revoke_credentials : Text → (Text → ℕ) → List Text → Store → Store
revoke_credentials usr at [] s = s
revoke_credentials usr at (cid ∷ cids) s =
    revoke_credentials usr at cids (revoke_credential_at usr cid (at cid) s)

-- What transitionUser does past the write of the user.
unfoldable pub cascade_user : Text → Status → ℕ → (Text → ℕ) → Store → Store
cascade_user usr to now_sessions at s =
    let s' =
      if is_suspended to || is_revoked to
      then cascade_revoke_sessions_for_user usr now_sessions s
      else s in
    if is_revoked to then revoke_credentials usr at (keys s'.credentials) s' else s'

-- transitionUser
unfoldable pub transition_user : Text → Status → ℕ → ℕ → (Text → ℕ) → Method User
transition_user usr to now now_sessions at = do
  x ← or_raise (← gets (λ s. lookup usr s.users)) not_found
  raise_if (is_revoked x.status) already_terminal
  if same_status x.status to then pure x else do
    raise_if (is_active to && not (is_suspended x.status)) (precondition invalid_transition)
    modify (put_user usr (with_status x to now))
    modify (cascade_user usr to now_sessions at)
    pure (with_status x to now)

unfoldable pub suspend_user : Text → ℕ → ℕ → (Text → ℕ) → Method User
suspend_user usr = transition_user usr suspended

unfoldable pub reinstate_user : Text → ℕ → ℕ → (Text → ℕ) → Method User
reinstate_user usr = transition_user usr active

unfoldable pub revoke_user : Text → ℕ → ℕ → (Text → ℕ) → Method User
revoke_user usr = transition_user usr revoked

-- The order of sortUsersStable.
unfoldable pub user_before : User → User → Bool
user_before x y =
    ltb x.created_at y.created_at || (eqb x.created_at y.created_at && before x.id y.id)

unfoldable pub sort_users_stable : List User → List User
unfolding sort_slice user_before
sort_users_stable xs = sort_slice user_before xs

abbrev status_fits : Option Status → Status → Bool
status_fits none s = true
status_fits (some want) s = same_status s want

-- `to_lower` is strings.ToLower, which maps Unicode letters.
module _ (to_lower : Text → Text) where
  abbrev query_text : Option Text → Text
  query_text none = []
  query_text (some q) = to_lower q

  -- The loop of ListUsers over the credentials of a user.
  unfoldable pub mentioned : Text → Text → Map Credential → Bool
  unfolding contains
  mentioned q usr [] = false
  mentioned q usr ((id, c) ∷ m) =
      (c.usr_id == usr && (is_active c.status && contains (to_lower c.identifier) q))
      || mentioned q usr m

  unfoldable pub list_users : Option Status → Option Text → Option Text → ℕ → Method (Page User)
  unfolding mentioned select
  list_users status query cursor limit = gets (λ s.
      paginate (λ x. x.id) cursor limit
        (sort_users_stable (
          select
            (λ (x : User).
              status_fits status x.status
              && (query_text query == [] || mentioned (query_text query) x.id s.credentials))
            s.users)))
