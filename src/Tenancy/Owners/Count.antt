-- ===== src/Tenancy/Owners/Count.antt =====
-- The number of active owners under each group of writes.
use flametrench_go.Base.{
  ℕ, ◌+◌, ◌≤◌, ◌<◌, ◌≡◌, refl, false, none, some, arith, Text, lookup, weight, tally-insert,
  weight-le-tally,
}
use flametrench_go.Tenancy.Types.{Role, revoked, is_revoked, Organization, Membership}
use flametrench_go.Tenancy.Store.{
  Store, put_membership, drop_grant, put_grant, revoke_old, admit, owner_weight,
  count_active_owners,
}
use flametrench_go.Tenancy.Members.{retire}

-- Every organization that is stored and not revoked has an active owner.
pub record HasOwner (s : Store) : Type 0 where
  pub owned :
      (org : Text) (o : Organization)
      → lookup org s.orgs ≡ some o
      → is_revoked o.status ≡ false
      → 0 < count_active_owners org s

module _ (org : Text) where
  pub count-put_membership :
      (id : Text) (m : Membership) (s : Store)
      → count_active_owners org (put_membership id m s)
          + weight (owner_weight org) (lookup id s.memberships)
        ≡ count_active_owners org s + owner_weight org m
  unfolding count_active_owners put_membership
  count-put_membership id m s = tally-insert (owner_weight org) id m s.memberships

  pub count-drop_grant :
      (o usr : Text) (role : Role) (s : Store)
      → count_active_owners org (drop_grant o usr role s) ≡ count_active_owners org s
  unfolding count_active_owners drop_grant
  count-drop_grant o usr role s = refl

  pub count-put_grant :
      (o usr : Text) (role : Role) (id : Text) (s : Store)
      → count_active_owners org (put_grant o usr role id s) ≡ count_active_owners org s
  unfolding count_active_owners put_grant
  count-put_grant o usr role id s = refl

  pub count-admit :
      (id : Text) (m : Membership) (s : Store)
      → lookup id s.memberships ≡ none
      → count_active_owners org (admit id m s) ≡ count_active_owners org s + owner_weight org m
  unfolding admit
  count-admit id m s h = ground (
    arith,
    count-put_grant m.org_id m.usr_id m.role id (put_membership id m s),
    count-put_membership id m s,
  )

  pub count-revoke_old :
      (mem : Text) (old : Membership) (now : ℕ) (s : Store)
      → lookup mem s.memberships ≡ some old
      → count_active_owners org (revoke_old mem old now s) + owner_weight org old
        ≡ count_active_owners org s
  unfolding revoke_old owner_weight
  count-revoke_old mem old now s h = ground (
    arith,
    count-drop_grant old.org_id old.usr_id old.role
        (put_membership mem (record old { status = revoked; updated_at = now }) s),
    count-put_membership mem (record old { status = revoked; updated_at = now }) s,
  )

  pub count-retire :
      (mem : Text) (m : Membership) (remover : Text) (now : ℕ) (s : Store)
      → lookup mem s.memberships ≡ some m
      → count_active_owners org (retire mem m remover now s) + owner_weight org m
        ≡ count_active_owners org s
  unfolding retire owner_weight drop_grant
  count-retire mem m remover now s h = ground (
    arith,
    count-drop_grant m.org_id m.usr_id m.role s,
    count-put_membership mem
        (record m { status = revoked; removed_by = some remover; updated_at = now })
        (drop_grant m.org_id m.usr_id m.role s),
  )

  -- A membership that is found counts among the owners of its organization.
  pub weight-le-count :
      (id : Text) (m : Membership) (s : Store)
      → lookup id s.memberships ≡ some m
      → owner_weight org m ≤ count_active_owners org s
  unfolding count_active_owners
  weight-le-count id m s h = ground (arith, weight-le-tally (owner_weight org) id s.memberships)
