-- ===== src/Tenancy/Owners/Members.antt =====
-- The methods on memberships keep the sole-owner rule, whether they succeed or fail.
use flametrench_go.Base.{ℕ, Option, inl, inr, arith, Text, bytes, lookup, Option-cases}
use flametrench_go.Base.Result.{Result-cases}
use flametrench_go.Ids.{Uuids, generate}
use flametrench_go.Tenancy.Types.{Role, Status}
use flametrench_go.Tenancy.Store.{Store, revoke_old, fresh_id, new_membership, replacement}
use flametrench_go.Tenancy.Members.{
  add_member, change_role, transition_membership, admin_remove, or_keep,
}
use flametrench_go.Tenancy.Owners.Count.{HasOwner}
use flametrench_go.Tenancy.Owners.Writes.{
  IsFresh, admit-HasOwner, retire-HasOwner, revoke_old-HasOwner, fresh_after_revoke,
  change_role_guard, reinstate_writes-HasOwner, leave_writes-HasOwner,
}

-- AddMember keeps the rule.
pub add_member-HasOwner :
    (org usr : Text) (role : Role) (by : Option Text) (u : Uuids) (now : ℕ) (s : Store)
    → IsFresh u s
    → HasOwner s
    → HasOwner (add_member org usr role by u now s).1
unfolding add_member fresh_id
add_member-HasOwner org usr role by u now s fresh h =
    elim (Result-cases (generate u (bytes "mem"))) [
      | inl (id, e) ↦
          ground (arith, admit-HasOwner id (new_membership id usr org role by now) s (fresh id e) h)
      | inr (x, e) ↦ ground arith
    ]

-- AdminRemove keeps the rule.
pub admin_remove-HasOwner :
    (mem admin : Text) (now : ℕ) (s : Store)
    → HasOwner s
    → HasOwner (admin_remove mem admin now s).1
unfolding admin_remove
admin_remove-HasOwner mem admin now s h = elim (Option-cases (lookup mem s.memberships)) [
  | inl missing ↦ ground arith
  | inr (m, e) ↦ ground (arith, retire-HasOwner mem m admin now s e)
]

-- ChangeRole keeps the rule, also where minting the new id fails.
pub change_role-HasOwner :
    (mem : Text) (role : Role) (u : Uuids) (now : ℕ) (s : Store)
    → IsFresh u s
    → HasOwner s
    → HasOwner (change_role mem role u now s).1
unfolding change_role fresh_id
change_role-HasOwner mem role u now s fresh h = elim (Option-cases (lookup mem s.memberships)) [
  | inl missing ↦ ground arith
  | inr (old, e) ↦ elim (Result-cases (generate u (bytes "mem"))) [
    | inl (id, g) ↦ ground (
      arith,
      change_role_guard old role s,
      revoke_old-HasOwner mem old now s e,
      admit-HasOwner id (replacement id mem old role now) (revoke_old mem old now s)
          (fresh_after_revoke mem id old now s e (fresh id g)),
    )
    | inr (x, g) ↦ ground (arith, change_role_guard old role s, revoke_old-HasOwner mem old now s e)
  ]
]

-- Suspending and reinstating a membership keep the rule.
pub transition_membership-HasOwner :
    (mem : Text) (to : Status) (by : Option Text) (now : ℕ) (s : Store)
    → HasOwner s
    → HasOwner (transition_membership mem to by now s).1
unfolding transition_membership
transition_membership-HasOwner mem to by now s h = elim (Option-cases (lookup mem s.memberships)) [
  | inl missing ↦ ground arith
  | inr (m, e) ↦ ground (
    arith,
    reinstate_writes-HasOwner mem m (or_keep by m.removed_by) now s e h,
    leave_writes-HasOwner mem m to (or_keep by m.removed_by) now s e,
  )
]
