-- ===== src/Tenancy/Members.antt =====
-- packages/tenancy/inmem.go: the methods on memberships, without ListMembers.
use flametrench_go.Base.{
  ℕ, Bool, false, not, ◌&&◌, Option, none, some, ltb, eqb, if◌then◌else◌, present, Text, bytes,
  ◌==◌, lookup, [],
}
use flametrench_go.Base.Action.{◌>>=◌, ◌>>◌, pure, raise, gets, or_raise, raise_if, modify}
use flametrench_go.Ids.{Uuids}
use flametrench_go.Tenancy.Types.{
  Role, role_owner, role_member, admin_rank, Status, active, suspended, revoked, is_active,
  is_suspended, is_revoked, Membership, TransferOwnershipResult, not_found, duplicate_membership,
  sole_owner, already_terminal, forbidden, role_hierarchy, precondition, invalid_transition,
  mem_not_active, already_owner, self_transfer, not_active_owner, not_active_member,
}
use flametrench_go.Tenancy.Store.{
  Store, Method, org_usr_key, put_membership, drop_grant, put_grant, fresh_id, new_membership,
  replacement, revoke_old, admit, change_role_atomic, count_active_owners, or_zero,
}

unfoldable pub add_member : Text → Text → Role → Option Text → Uuids → ℕ → Method Membership
add_member org usr role invited_by u now = do
  or_raise (← gets (λ s. lookup org s.orgs)) not_found
  raise_if (← gets (λ s. present (lookup (org_usr_key org usr) s.active_mem))) duplicate_membership
  id ← fresh_id u (bytes "mem")
  let mem = new_membership id usr org role invited_by now
  modify (admit id mem)
  pure mem

unfoldable pub get_membership : Text → Method Membership
get_membership mem = do or_raise (← gets (λ s. lookup mem s.memberships)) not_found

unfoldable pub is_sole_owner : Membership → Store → Bool
is_sole_owner m s = m.role == role_owner && eqb (count_active_owners m.org_id s) 1

unfoldable pub change_role : Text → Role → Uuids → ℕ → Method Membership
change_role mem role u now = do
  old ← or_raise (← gets (λ s. lookup mem s.memberships)) not_found
  raise_if (not (is_active old.status)) (precondition mem_not_active)
  if old.role == role then pure old else do
    raise_if (← gets (λ s. not (role == role_owner) && is_sole_owner old s)) sole_owner
    modify (revoke_old mem old now)
    id ← fresh_id u (bytes "mem")
    let m = replacement id mem old role now
    modify (admit id m)
    pure m

abbrev pub or_keep : Option Text → Option Text → Option Text
or_keep none old = old
or_keep (some x) old = some x

-- transitionMembership
unfoldable pub transition_membership : Text → Status → Option Text → ℕ → Method Membership
transition_membership mem to removed_by now = do
  m ← or_raise (← gets (λ s. lookup mem s.memberships)) not_found
  raise_if (is_revoked m.status) already_terminal
  raise_if (← gets (λ s. not (is_active to) && (is_active m.status && is_sole_owner m s)))
      sole_owner
  raise_if (is_active to && not (is_suspended m.status)) (precondition invalid_transition)
  taken ← gets (λ s. present (lookup (org_usr_key m.org_id m.usr_id) s.active_mem))
  raise_if (is_active to && taken) duplicate_membership
  modify (
      if is_active to
      then put_grant m.org_id m.usr_id m.role mem
      else drop_grant m.org_id m.usr_id m.role)
  let m' : Membership = record m {
    status = to;
    removed_by = or_keep removed_by m.removed_by;
    updated_at = now;
  }
  modify (put_membership mem m')
  pure m'

unfoldable pub suspend_membership : Text → ℕ → Method Membership
suspend_membership mem = transition_membership mem suspended none

unfoldable pub reinstate_membership : Text → ℕ → Method Membership
reinstate_membership mem = transition_membership mem active none

-- The last writes of SelfLeave and AdminRemove: `m` is revoked by `remover`.
unfoldable pub retire : Text → Membership → Text → ℕ → Store → Store
retire mem m remover now s =
    put_membership mem (record m { status = revoked; removed_by = some remover; updated_at = now })
      (drop_grant m.org_id m.usr_id m.role s)

-- The part of SelfLeave that promotes the transfer target of a sole owner.
unfoldable pub hand_over : Membership → Option Text → Uuids → ℕ → Method (Unit {0})
hand_over m none u now = raise sole_owner
hand_over m (some target) u now = do
  tt_mem ← or_raise (← gets (λ s. lookup (org_usr_key m.org_id target) s.active_mem)) not_found
  target_mem ← gets (λ s. or_zero (lookup tt_mem s.memberships))
  raise_if (target_mem.role == role_owner) (precondition already_owner)
  modify (change_role_atomic tt_mem role_owner u now)

unfoldable pub self_leave : Text → Option Text → Uuids → ℕ → ℕ → Method Membership
self_leave mem transfer_to u now_transfer now = do
  m ← or_raise (← gets (λ s. lookup mem s.memberships)) not_found
  raise_if (not (is_active m.status)) (precondition mem_not_active)
  sole ← gets (is_sole_owner m)
  if sole then hand_over m transfer_to u now_transfer else pure tt
  modify (retire mem m m.usr_id now)
  pure (record m { status = revoked; removed_by = some m.usr_id; updated_at = now })

unfoldable pub admin_remove : Text → Text → ℕ → Method Membership
admin_remove mem admin_usr now = do
  target ← or_raise (← gets (λ s. lookup mem s.memberships)) not_found
  raise_if (not (is_active target.status)) (precondition mem_not_active)
  admin_mem ←
      or_raise (← gets (λ s. lookup (org_usr_key target.org_id admin_usr) s.active_mem)) forbidden
  admin ← gets (λ s. or_zero (lookup admin_mem s.memberships))
  raise_if (ltb (admin_rank admin.role) 3) forbidden
  raise_if (ltb (admin_rank admin.role) (admin_rank target.role)) role_hierarchy
  raise_if (← gets (is_sole_owner target)) sole_owner
  modify (retire mem target admin_usr now)
  pure (record target { status = revoked; removed_by = some admin_usr; updated_at = now })

abbrev pub is_active_owner_of : Text → Option Membership → Bool
is_active_owner_of org none = false
is_active_owner_of org (some m) = m.org_id == org && (m.role == role_owner && is_active m.status)

abbrev pub is_active_member_of : Text → Option Membership → Bool
is_active_member_of org none = false
is_active_member_of org (some m) = m.org_id == org && is_active m.status

-- The membership that the index holds for a user: s.memberships[s.activeMemByOrgUsr[…]].
unfoldable pub current_membership : Text → Text → Store → Membership
current_membership org usr s = or_zero (elim (lookup (org_usr_key org usr) s.active_mem) [
  | none ↦ lookup [] s.memberships
  | some id ↦ lookup id s.memberships
])

unfoldable pub transfer_ownership :
    Text → Text → Text → Uuids → Uuids → ℕ → ℕ → Method TransferOwnershipResult
transfer_ownership org from_mem to_mem u_to u_from now_to now_from = do
  raise_if (from_mem == to_mem) (precondition self_transfer)
  from_found ← gets (λ s. lookup from_mem s.memberships)
  raise_if (not (is_active_owner_of org from_found)) (precondition not_active_owner)
  to_found ← gets (λ s. lookup to_mem s.memberships)
  raise_if (not (is_active_member_of org to_found)) (precondition not_active_member)
  modify (change_role_atomic to_mem role_owner u_to now_to)
  modify (change_role_atomic from_mem role_member u_from now_from)
  gets (λ s. record {
    from_membership = current_membership org (or_zero from_found).usr_id s;
    to_membership = current_membership org (or_zero to_found).usr_id s;
  })
