-- ===== src/Tenancy/Invitations.antt =====
-- packages/tenancy/inmem.go: the methods on invitations, without ListInvitations, and the tuple
-- accessors.
use flametrench_go.Base.{
  ℕ, Bool, true, not, ◌&&◌, Option, none, some, List, [], ◌∷◌, ltb, if◌then◌else◌, present, Text,
  bytes, ◌==◌, Map, lookup, insert,
}
use flametrench_go.Base.Action.{◌>>=◌, ◌>>◌, pure, raise, gets, or_raise, raise_if, modify}
use flametrench_go.Ids.{Uuids}
use flametrench_go.Tenancy.Types.{
  Role, Tuple, PreTuple, Invitation, InvitationStatus, pending, accepted, declined, expired,
  is_pending, AcceptInvitationResult, not_found, duplicate_membership, invitation_not_pending,
  invitation_expired, identifier_binding_required, identifier_mismatch,
}
use flametrench_go.Tenancy.Store.{
  Store, Method, tuple_key, role_tuple, org_usr_key, fresh_id, new_membership, admit,
}

-- s.invitations[id] = inv
unfoldable pub put_invitation : Text → Invitation → Store → Store
put_invitation id inv s = record s { invitations = insert id inv s.invitations }

unfoldable pub new_invitation :
    Text → Text → Text → Role → Text → ℕ → List PreTuple → ℕ → Invitation
new_invitation id org identifier role invited_by expires_at pre_tuples now = record {
  id = id;
  org_id = org;
  identifier = identifier;
  role = role;
  status = pending;
  pre_tuples = pre_tuples;
  invited_by = invited_by;
  invited_user_id = none;
  created_at = now;
  expires_at = expires_at;
  terminal_at = none;
  terminal_by = none;
}

unfoldable pub create_invitation :
    Text → Text → Role → Text → ℕ → List PreTuple → Uuids → ℕ → Method Invitation
create_invitation org identifier role invited_by expires_at pre_tuples u now = do
  or_raise (← gets (λ s. lookup org s.orgs)) not_found
  id ← fresh_id u (bytes "inv")
  let inv = new_invitation id org identifier role invited_by expires_at pre_tuples now
  modify (put_invitation id inv)
  pure inv

-- The lazy and the eager transition to expired.
unfoldable pub expire : Invitation → ℕ → Invitation
expire inv now = record inv { status = expired; terminal_at = some now }

-- `now` is the reading that decides, `stamp` the one that is stored.
unfoldable pub get_invitation : Text → ℕ → ℕ → Method Invitation
get_invitation id now stamp = do
  inv ← or_raise (← gets (λ s. lookup id s.invitations)) not_found
  if is_pending inv.status && not (ltb now inv.expires_at)
      then (do modify (put_invitation id (expire inv stamp)); pure (expire inv stamp))
      else pure inv

-- The binding of ADR 0009: what an acceptance as `usr` with an identifier must satisfy.
unfoldable pub check_binding : Option Text → Option Text → Invitation → Method (Unit {0})
check_binding none identifier inv = pure tt
check_binding (some usr) none inv = raise identifier_binding_required
check_binding (some usr) (some identifier) inv =
    raise_if (not (identifier == inv.identifier)) identifier_mismatch

unfoldable pub accepting_user : Option Text → Uuids → Method Text
accepting_user none u = fresh_id u (bytes "usr")
accepting_user (some usr) u = pure usr

unfoldable pub pre_tuple_for : Text → PreTuple → Tuple
pre_tuple_for usr pt = record {
  subject_type = bytes "usr";
  subject_id = usr;
  relation = pt.relation;
  object_type = pt.object_type;
  object_id = pt.object_id;
}

unfoldable pub pre_tuples_for : Text → List PreTuple → List Tuple
unfolding pre_tuple_for
pre_tuples_for usr [] = []
pre_tuples_for usr (pt ∷ pts) = pre_tuple_for usr pt ∷ pre_tuples_for usr pts

-- The loop that stores the materialized tuples.
unfoldable pub put_tuples : List Tuple → Map Tuple → Map Tuple
put_tuples [] m = m
put_tuples (t ∷ ts) m = put_tuples ts (insert (tuple_key t) t m)

unfoldable pub materialize : Text → List PreTuple → Store → Store
materialize usr pts s = record s { tuples = put_tuples (pre_tuples_for usr pts) s.tuples }

unfoldable pub accepted_by : Invitation → Text → ℕ → Invitation
accepted_by inv usr now = record inv {
  status = accepted;
  invited_user_id = some usr;
  terminal_at = some now;
}

-- AcceptInvitation past its checks, for the accepting user `usr`.
unfoldable pub accept_as : Text → Invitation → Text → Uuids → ℕ → Method AcceptInvitationResult
accept_as id inv usr u_mem now = do
  raise_if (← gets (λ s. present (lookup (org_usr_key inv.org_id usr) s.active_mem)))
      duplicate_membership
  mem_id ← fresh_id u_mem (bytes "mem")
  let mem = new_membership mem_id usr inv.org_id inv.role (some inv.invited_by) now
  modify (admit mem_id mem)
  modify (materialize usr inv.pre_tuples)
  let inv' = accepted_by inv usr now
  modify (put_invitation id inv')
  pure (record {
    invitation = inv';
    membership = mem;
    materialized_tuples = role_tuple usr inv.role inv.org_id ∷ pre_tuples_for usr inv.pre_tuples;
  })

-- `now_check` and `stamp` are the readings of the expiry test; `now` is that of the acceptance.
unfoldable pub accept_invitation :
    Text → Option Text → Option Text → Uuids → Uuids → ℕ → ℕ → ℕ → Method AcceptInvitationResult
accept_invitation id as_usr identifier u_usr u_mem now_check stamp now = do
  inv ← or_raise (← gets (λ s. lookup id s.invitations)) not_found
  raise_if (not (is_pending inv.status)) invitation_not_pending
  if not (ltb now_check inv.expires_at)
      then (do modify (put_invitation id (expire inv stamp)); raise invitation_expired)
      else pure tt
  check_binding as_usr identifier inv
  usr ← accepting_user as_usr u_usr
  accept_as id inv usr u_mem now

abbrev or_else : Option Text → Option Text → Option Text
or_else none old = old
or_else (some x) old = some x

unfoldable pub declined_by : Invitation → Option Text → ℕ → Invitation
declined_by inv as_usr now = record inv {
  status = declined;
  invited_user_id = or_else as_usr inv.invited_user_id;
  terminal_at = some now;
  terminal_by = or_else as_usr inv.terminal_by;
}

unfoldable pub decline_invitation : Text → Option Text → ℕ → Method Invitation
decline_invitation id as_usr now = do
  inv ← or_raise (← gets (λ s. lookup id s.invitations)) not_found
  raise_if (not (is_pending inv.status)) invitation_not_pending
  let inv' = declined_by inv as_usr now
  modify (put_invitation id inv')
  pure inv'

unfoldable pub revoked_by : Invitation → Text → ℕ → Invitation
revoked_by inv admin_usr now = record inv {
  status = InvitationStatus.revoked;
  terminal_at = some now;
  terminal_by = some admin_usr;
}

unfoldable pub revoke_invitation : Text → Text → ℕ → Method Invitation
revoke_invitation id admin_usr now = do
  inv ← or_raise (← gets (λ s. lookup id s.invitations)) not_found
  raise_if (not (is_pending inv.status)) invitation_not_pending
  let inv' = revoked_by inv admin_usr now
  modify (put_invitation id inv')
  pure inv'

-- The values of a map that pass a test: a filtering range loop.
unfoldable pub select {ℓ} : {V : Type ℓ} → (V → Bool) → Map V → List V
select p [] = []
select p ((k, v) ∷ m) = let rest = select p m in if p v then v ∷ rest else rest

unfoldable pub list_tuples_for_subject : Text → Text → Method (List Tuple)
list_tuples_for_subject subject_type subject_id =
    gets (λ s. select (λ t. t.subject_type == subject_type && t.subject_id == subject_id) s.tuples)

abbrev matches_relation : Option Text → Text → Bool
matches_relation none r = true
matches_relation (some want) r = r == want

unfoldable pub list_tuples_for_object : Text → Text → Option Text → Method (List Tuple)
list_tuples_for_object object_type object_id relation = gets (λ s.
    select
      (λ t.
        (t.object_type == object_type && t.object_id == object_id)
        && matches_relation relation t.relation)
      s.tuples)
