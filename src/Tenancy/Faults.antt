-- ===== src/Tenancy/Faults.antt =====
-- Calls after which the store no longer says what it means to say.
use flametrench_go.Base.{
  ℕ, ◌≡◌, ◌≢◌, ap, false, Option, none, some, arith, Text, bytes, lookup, eq_iff, eq_refl,
  lookup-insert, lookup-remove, lookup-insert_self,
}
use flametrench_go.Base.Result.{ok, err}
use flametrench_go.Ids.{Uuids, generate, IdError}
use flametrench_go.Tenancy.Types.{
  active, suspended, revoked, is_revoked, Organization, with_status, Membership, id_error,
}
use flametrench_go.Tenancy.Store.{
  Store, org_usr_key, put_membership, put_grant, drop_grant, fresh_id, count_active_owners,
  tuple_key, role_tuple,
}
use flametrench_go.Tenancy.Orgs.{create_org, check_new_slug, new_org, put_org, revoke_org}
use flametrench_go.Tenancy.Members.{transition_membership, suspend_membership, reinstate_membership}
use flametrench_go.Tenancy.Revocation.{
  revoked_store, revoke_org_result, lookup-revoked_store, orgs-revoked_store, free-revoked_store,
}
use flametrench_go.Tenancy.Cascade.{closed_by}

-- A user was suspended as `m`, added again as `x`, and `m` is suspended once more. The call
-- succeeds; `x` is still stored as active, but the index no longer names it, and its role tuple is
-- gone if the two roles are the same.
pub suspend_again_unindexes :
    (mem i : Text) (m x : Membership) (now : ℕ) (s : Store)
    → lookup mem s.memberships ≡ some m
    → m.status ≡ suspended
    → lookup i s.memberships ≡ some x
    → i ≢ mem
    → x.org_id ≡ m.org_id
    → x.usr_id ≡ m.usr_id
    → let (r, s') = suspend_membership mem now s in
      (r ≡ ok (record m { updated_at = now }))
      × (lookup i s'.memberships ≡ some x)
      × (lookup (org_usr_key x.org_id x.usr_id) s'.active_mem ≡ none)
      × (x.role ≡ m.role
          → lookup (tuple_key (role_tuple x.usr_id x.role x.org_id)) s'.tuples ≡ none)
unfolding suspend_membership transition_membership put_membership drop_grant
suspend_again_unindexes mem i m x now s em sm ex other eo eu = (
  ground arith,
  ground (
    arith,
    eq_iff mem i,
    lookup-insert mem i (record m { status = suspended; updated_at = now }) s.memberships,
  ),
  ground (arith, lookup-remove key key s.active_mem, eq_refl key),
  λ er. ground (arith, lookup-remove grant grant s.tuples, eq_refl grant),
)
  where
    key : Text
    key = org_usr_key m.org_id m.usr_id

    grant : Text
    grant = tuple_key (role_tuple m.usr_id m.role m.org_id)

unclosed : (x : Text) (t : ℕ) (m : Membership) → m.status ≡ suspended → closed_by x t m ≡ m
unfolding closed_by
unclosed x t m e = ground arith

readmit :
    (mem : Text) (m : Membership) (later : ℕ) (s : Store)
    → lookup mem s.memberships ≡ some m
    → m.status ≡ suspended
    → lookup (org_usr_key m.org_id m.usr_id) s.active_mem ≡ none
    → (org : Text) (x : Organization) → lookup org s.orgs ≡ some x
    → let (r, s') = reinstate_membership mem later s in
      (r ≡ ok (record m { status = active; updated_at = later }))
      × (lookup mem s'.memberships ≡ some (record m { status = active; updated_at = later }))
      × (lookup org s'.orgs ≡ some x)
unfolding reinstate_membership transition_membership put_membership put_grant
readmit mem m later s em idle free org x eo = (
  ground arith,
  ground (
    arith,
    lookup-insert_self mem (record m { status = active; updated_at = later }) s.memberships,
  ),
  ground arith,
)

-- RevokeOrg passes over a suspended membership, and ReinstateMembership does not read the
-- organization: the membership is active again in an organization that is revoked.
pub revoked_org_readmits :
    (org : Text) (o : Organization) (mem : Text) (m : Membership) (now later : ℕ) (at : Text → ℕ)
    (s : Store)
    → lookup org s.orgs ≡ some o
    → is_revoked o.status ≡ false
    → lookup mem s.memberships ≡ some m
    → m.org_id ≡ org
    → m.status ≡ suspended
    → lookup (org_usr_key m.org_id m.usr_id) s.active_mem ≡ none
    → let (r, s') = reinstate_membership mem later (revoke_org org now at s).1 in
      (r ≡ ok (record m { status = active; updated_at = later }))
      × (lookup mem s'.memberships ≡ some (record m { status = active; updated_at = later }))
      × (lookup org s'.orgs ≡ some (with_status o revoked now))
revoked_org_readmits org o mem m now later at s eo alive em same idle free =
    rw (revoke_org_result org o now at s eo alive) (
      readmit mem m later (revoked_store org o now at s)
        (rw (lookup-revoked_store org o now at s mem, em) (ap some (unclosed org (at mem) m idle)))
        idle (free-revoked_store org o now at s (org_usr_key m.org_id m.usr_id) free) org
        (with_status o revoked now) (orgs-revoked_store org o now at s))

-- If no id can be minted for the owner membership, CreateOrg fails and leaves an active organization
-- without an owner behind.
pub create_org_orphan :
    (creator org : Text) (name : Option Text) (u_org u_mem : Uuids) (e : IdError) (now : ℕ)
    (s : Store)
    → generate u_org (bytes "org") ≡ ok org
    → generate u_mem (bytes "mem") ≡ err e
    → count_active_owners org s ≡ 0
    → let (r, s') = create_org creator name none u_org u_mem now s in
      (r ≡ err (id_error e))
      × (lookup org s'.orgs ≡ some (new_org org name none now))
      × (count_active_owners org s' ≡ 0)
unfolding create_org fresh_id check_new_slug put_org new_org count_active_owners
create_org_orphan creator org name u_org u_mem e now s go gm unowned = (
  ground arith,
  ground (arith, lookup-insert_self org (new_org org name none now) s.orgs),
  ground arith,
)
