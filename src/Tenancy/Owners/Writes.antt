-- ===== src/Tenancy/Owners/Writes.antt =====
-- The sole-owner rule under the writes that the methods on memberships make.
use flametrench_go.Base.{
  ℕ, ◌+◌, ◌≤◌, ◌<◌, ◌≡◌, false, not, ◌&&◌, Option, none, some, arith, Text, bytes, ◌==◌, lookup,
  eq_iff, eq_refl, lookup-insert,
}
use flametrench_go.Base.Result.{ok}
use flametrench_go.Ids.{Uuids, generate}
use flametrench_go.Tenancy.Types.{Role, role_owner, Status, active, revoked, is_active, Membership}
use flametrench_go.Tenancy.Store.{
  Store, put_membership, drop_grant, put_grant, revoke_old, admit, owner_weight, replacement,
  id_or_empty, change_role_atomic, count_active_owners,
}
use flametrench_go.Tenancy.Members.{is_sole_owner, retire}
use flametrench_go.Tenancy.Owners.Count.{
  HasOwner, count-put_membership, count-admit, count-revoke_old, count-retire,
}

-- The membership id that the draw gives is not in use.
abbrev pub IsFresh : Uuids → Store → Type 0
IsFresh u s = (id : Text) → generate u (bytes "mem") ≡ ok id → lookup id s.memberships ≡ none

pub admit-HasOwner :
    (id : Text) (m : Membership) (s : Store)
    → lookup id s.memberships ≡ none
    → HasOwner s
    → HasOwner (admit id m s)
admit-HasOwner id m s new h = record {
  owned = λ org o found live. omega (
    arith,
    count-admit org id m s new,
    h.owned org o (unfold admit put_grant put_membership in found) live,
  );
}

-- An owner that leaves is not the only one.
pub others_remain :
    (m : Membership) (s : Store) (org : Text)
    → is_sole_owner m s ≡ false
    → 0 < count_active_owners org s
    → owner_weight org m < count_active_owners org s
unfolding is_sole_owner owner_weight
others_remain m s org sole h = ground (arith, eq_iff m.org_id org)

pub retire-HasOwner :
    (mem : Text) (m : Membership) (by : Text) (now : ℕ) (s : Store)
    → lookup mem s.memberships ≡ some m
    → is_sole_owner m s ≡ false
    → HasOwner s
    → HasOwner (retire mem m by now s)
retire-HasOwner mem m by now s found sole h = record {
  owned = λ org o e live. omega (
    arith,
    count-retire org mem m by now s found,
    others_remain m s org sole (h.owned org o (unfold retire put_membership drop_grant in e) live),
  );
}

pub revoke_old-HasOwner :
    (mem : Text) (old : Membership) (now : ℕ) (s : Store)
    → lookup mem s.memberships ≡ some old
    → is_sole_owner old s ≡ false
    → HasOwner s
    → HasOwner (revoke_old mem old now s)
revoke_old-HasOwner mem old now s found sole h = record {
  owned = λ org o e live. omega (
    arith,
    count-revoke_old org mem old now s found,
    others_remain old s org sole
        (h.owned org o (unfold revoke_old put_membership drop_grant in e) live),
  );
}

-- An id that is not in use differs from that of the membership at hand.
pub fresh_after_revoke :
    (mem id : Text) (old : Membership) (now : ℕ) (s : Store)
    → lookup mem s.memberships ≡ some old
    → lookup id s.memberships ≡ none
    → lookup id (revoke_old mem old now s).memberships ≡ none
unfolding revoke_old put_membership drop_grant
fresh_after_revoke mem id old now s found new = ground (
  arith,
  eq_iff mem id,
  lookup-insert mem id (record old { status = revoked; updated_at = now }) s.memberships,
)

pub owner_weight-replacement :
    (org id mem : Text) (old : Membership) (now : ℕ)
    → owner_weight org old ≤ owner_weight org (replacement id mem old role_owner now)
unfolding owner_weight replacement
owner_weight-replacement org id mem old now = ground (arith, eq_refl role_owner)

-- A membership that is revoked and at once replaced as an owner leaves no count lower.
pub promote-HasOwner :
    (mem id : Text) (old : Membership) (now : ℕ) (s : Store)
    → lookup mem s.memberships ≡ some old
    → lookup id s.memberships ≡ none
    → HasOwner s
    → HasOwner (admit id (replacement id mem old role_owner now) (revoke_old mem old now s))
promote-HasOwner mem id old now s found new h = record {
  owned = λ org o e live. omega (
    arith,
    count-admit org id (replacement id mem old role_owner now) (revoke_old mem old now s)
        (fresh_after_revoke mem id old now s found new),
    count-revoke_old org mem old now s found,
    owner_weight-replacement org id mem old now,
    h.owned org o (unfold admit put_grant revoke_old put_membership drop_grant in e) live,
  );
}

-- Past its guards ChangeRole revokes no sole owner.
pub change_role_guard :
    (old : Membership) (role : Role) (s : Store)
    → (old.role == role) ≡ false
    → (not (role == role_owner) && is_sole_owner old s) ≡ false
    → is_sole_owner old s ≡ false
unfolding is_sole_owner
change_role_guard old role s = ground (arith, eq_iff role role_owner)

pub put_grant-HasOwner :
    (o usr : Text) (role : Role) (id : Text) (s : Store)
    → HasOwner s
    → HasOwner (put_grant o usr role id s)
unfolding put_grant count_active_owners
put_grant-HasOwner o usr role id s h = record { owned = h.owned }

pub drop_grant-HasOwner :
    (o usr : Text) (role : Role) (s : Store) → HasOwner s → HasOwner (drop_grant o usr role s)
unfolding drop_grant count_active_owners
drop_grant-HasOwner o usr role s h = record { owned = h.owned }

-- A write over a membership that takes no last owner away.
pub put_membership-HasOwner :
    (mem : Text) (m m' : Membership) (s : Store)
    → lookup mem s.memberships ≡ some m
    → ((org : Text)
        → 0 < count_active_owners org s
        → owner_weight org m < count_active_owners org s + owner_weight org m')
    → HasOwner s
    → HasOwner (put_membership mem m' s)
put_membership-HasOwner mem m m' s found keeps h = record {
  owned = λ org o e live.
      let before = h.owned org o (unfold put_membership in e) live in
      let after = keeps org before in ground (arith, count-put_membership org mem m' s);
}

module _ (m : Membership) (by : Option Text) (now : ℕ) (s : Store) (org : Text) where
  pub reinstated_weight :
      0 < count_active_owners org s
      → owner_weight org m
        < count_active_owners org s
          + owner_weight org (record m { status = active; removed_by = by; updated_at = now })
  unfolding owner_weight
  reinstated_weight h = ground arith

  pub left_weight :
      (to : Status)
      → (is_active m.status && is_sole_owner m s) ≡ false
      → 0 < count_active_owners org s
      → owner_weight org m
        < count_active_owners org s
          + owner_weight org (record m { status = to; removed_by = by; updated_at = now })
  unfolding owner_weight is_sole_owner
  left_weight to sole h = ground (arith, eq_iff m.org_id org)

-- The two writes of a transition: the grant, and the membership with its new status.
pub reinstate_writes-HasOwner :
    (mem : Text) (m : Membership) (by : Option Text) (now : ℕ) (s : Store)
    → lookup mem s.memberships ≡ some m
    → HasOwner s
    → HasOwner (
        put_membership mem
          (record m { status = active; removed_by = by; updated_at = now })
          (put_grant m.org_id m.usr_id m.role mem s))
unfolding put_grant count_active_owners
reinstate_writes-HasOwner mem m by now s found h =
    put_membership-HasOwner mem m (record m { status = active; removed_by = by; updated_at = now })
      (put_grant m.org_id m.usr_id m.role mem s) found (reinstated_weight m by now s)
      (put_grant-HasOwner m.org_id m.usr_id m.role mem s h)

pub leave_writes-HasOwner :
    (mem : Text) (m : Membership) (to : Status) (by : Option Text) (now : ℕ) (s : Store)
    → lookup mem s.memberships ≡ some m
    → (is_active m.status && is_sole_owner m s) ≡ false
    → HasOwner s
    → HasOwner (
        put_membership mem
          (record m { status = to; removed_by = by; updated_at = now })
          (drop_grant m.org_id m.usr_id m.role s))
unfolding drop_grant count_active_owners
leave_writes-HasOwner mem m to by now s found sole h =
    put_membership-HasOwner mem m (record m { status = to; removed_by = by; updated_at = now })
      (drop_grant m.org_id m.usr_id m.role s) found (λ org. left_weight m by now s org to sole)
      (drop_grant-HasOwner m.org_id m.usr_id m.role s h)

-- The store after the promotion of a found membership.
pub change_role_atomic-HasOwner :
    (mem : Text) (u : Uuids) (now : ℕ) (m : Membership) (s : Store)
    → lookup mem s.memberships ≡ some m
    → lookup (id_or_empty u (bytes "mem")) s.memberships ≡ none
    → HasOwner s
    → HasOwner (change_role_atomic mem role_owner u now s)
unfolding change_role_atomic
change_role_atomic-HasOwner mem u now m s found new h =
    ground (arith, promote-HasOwner mem (id_or_empty u (bytes "mem")) m now s)
