-- ===== src/Tenancy/Index/Methods.antt =====
-- The methods on memberships keep the index invariant, whether they succeed or fail.
use flametrench_go.Base.{
  ℕ, ◌≡◌, refl, true, false, Option, none, some, inl, inr, arith, Text, bytes, lookup, Option-cases,
}
use flametrench_go.Base.Result.{Result-cases}
use flametrench_go.Ids.{Uuids, generate}
use flametrench_go.Tenancy.Types.{Role, Status, active, is_active, Membership}
use flametrench_go.Tenancy.Store.{
  Store, org_usr_key, put_membership, drop_grant, put_grant, revoke_old, admit, fresh_id,
  new_membership, replacement,
}
use flametrench_go.Tenancy.Members.{
  add_member, change_role, transition_membership, admin_remove, or_keep,
}
use flametrench_go.Tenancy.Owners.Writes.{IsFresh, fresh_after_revoke}
use flametrench_go.Base.Keys.{no_bar}
use flametrench_go.Tenancy.Index.Writes.{
  IsIndexed, close-IsIndexed, open-IsIndexed, revoke_old-IsIndexed, retire-IsIndexed,
  revoke_old_frees,
}

pub admit_new-IsIndexed :
    (id : Text) (m : Membership) (s : Store)
    → is_active m.status ≡ true
    → no_bar m.org_id ≡ true
    → lookup (org_usr_key m.org_id m.usr_id) s.active_mem ≡ none
    → lookup id s.memberships ≡ none
    → IsIndexed s
    → IsIndexed (admit id m s)
admit_new-IsIndexed id m s live clean free new h =
    open-IsIndexed id m s live clean free h (λ x e. cc)

pub admit_built-IsIndexed :
    (id org usr : Text) (role : Role) (by : Option Text) (now : ℕ) (s : Store)
    → no_bar org ≡ true
    → lookup (org_usr_key org usr) s.active_mem ≡ none
    → lookup id s.memberships ≡ none
    → IsIndexed s
    → IsIndexed (admit id (new_membership id usr org role by now) s)
unfolding new_membership
admit_built-IsIndexed id org usr role by now s clean free new h =
    admit_new-IsIndexed id (new_membership id usr org role by now) s refl clean free new h

-- AddMember keeps the index invariant.
pub add_member-IsIndexed :
    (org usr : Text) (role : Role) (by : Option Text) (u : Uuids) (now : ℕ) (s : Store)
    → no_bar org ≡ true
    → IsFresh u s
    → IsIndexed s
    → IsIndexed (add_member org usr role by u now s).1
unfolding add_member fresh_id
add_member-IsIndexed org usr role by u now s clean fresh h =
    elim (Result-cases (generate u (bytes "mem"))) [
      | inl (id, e) ↦ elim (Option-cases (lookup (org_usr_key org usr) s.active_mem)) [
        | inl free ↦
            ground (arith, admit_built-IsIndexed id org usr role by now s clean free (fresh id e) h)
        | inr (i, taken) ↦ ground arith
      ]
      | inr (x, e) ↦ ground arith
    ]

-- AdminRemove keeps the index invariant.
pub admin_remove-IsIndexed :
    (mem admin : Text) (now : ℕ) (s : Store)
    → IsIndexed s
    → IsIndexed (admin_remove mem admin now s).1
unfolding admin_remove
admin_remove-IsIndexed mem admin now s h = elim (Option-cases (lookup mem s.memberships)) [
  | inl missing ↦ ground arith
  | inr (m, e) ↦ ground (arith, retire-IsIndexed mem m admin now s e)
]

-- A role change by revocation and replacement keeps the index invariant.
pub replace-IsIndexed :
    (mem id : Text) (old : Membership) (role : Role) (now : ℕ) (s : Store)
    → lookup mem s.memberships ≡ some old
    → is_active old.status ≡ true
    → lookup id s.memberships ≡ none
    → IsIndexed s
    → IsIndexed (admit id (replacement id mem old role now) (revoke_old mem old now s))
unfolding replacement
replace-IsIndexed mem id old role now s found live new h =
    admit_new-IsIndexed id (replacement id mem old role now) (revoke_old mem old now s) refl
      (h.clean mem old found) (revoke_old_frees mem old now s)
      (fresh_after_revoke mem id old now s found new)
      (revoke_old-IsIndexed mem old now s found live h)

-- ChangeRole keeps the index invariant, also where minting the new id fails.
pub change_role-IsIndexed :
    (mem : Text) (role : Role) (u : Uuids) (now : ℕ) (s : Store)
    → IsFresh u s
    → IsIndexed s
    → IsIndexed (change_role mem role u now s).1
unfolding change_role fresh_id
change_role-IsIndexed mem role u now s fresh h = elim (Option-cases (lookup mem s.memberships)) [
  | inl missing ↦ ground arith
  | inr (old, e) ↦ elim (Result-cases (generate u (bytes "mem"))) [
    | inl (id, g) ↦ ground (arith, fresh id g, replace-IsIndexed mem id old role now s e)
    | inr (x, g) ↦ ground (arith, revoke_old-IsIndexed mem old now s e)
  ]
]

reinstate-IsIndexed :
    (mem : Text) (m : Membership) (by : Option Text) (now : ℕ) (s : Store)
    → lookup mem s.memberships ≡ some m
    → is_active m.status ≡ false
    → lookup (org_usr_key m.org_id m.usr_id) s.active_mem ≡ none
    → IsIndexed s
    → IsIndexed (
        put_membership mem
          (record m { status = active; removed_by = by; updated_at = now })
          (put_grant m.org_id m.usr_id m.role mem s))
unfolding put_membership put_grant admit
reinstate-IsIndexed mem m by now s found idle free h =
    open-IsIndexed mem (record m { status = active; removed_by = by; updated_at = now }) s refl
      (h.clean mem m found) free h (λ x e. ground arith)

leave-IsIndexed :
    (mem : Text) (m : Membership) (to : Status) (by : Option Text) (now : ℕ) (s : Store)
    → lookup mem s.memberships ≡ some m
    → is_active m.status ≡ true
    → is_active to ≡ false
    → IsIndexed s
    → IsIndexed (
        put_membership mem
          (record m { status = to; removed_by = by; updated_at = now })
          (drop_grant m.org_id m.usr_id m.role s))
leave-IsIndexed mem m to by now s found live closed h =
    close-IsIndexed mem m (record m { status = to; removed_by = by; updated_at = now }) s found live
      closed refl h

-- A transition keeps the index invariant, unless it takes a membership that is not active to a
-- status that is not active.
pub transition_membership-IsIndexed :
    (mem : Text) (to : Status) (by : Option Text) (now : ℕ) (s : Store)
    → ((m : Membership)
        → lookup mem s.memberships ≡ some m
        → is_active to ≡ false
        → is_active m.status ≡ true)
    → IsIndexed s
    → IsIndexed (transition_membership mem to by now s).1
unfolding transition_membership
transition_membership-IsIndexed mem to by now s first h =
    elim (Option-cases (lookup mem s.memberships)) [
      | inl missing ↦ ground arith
      | inr (m, e) ↦ ground (
        arith,
        first m e,
        reinstate-IsIndexed mem m (or_keep by m.removed_by) now s e,
        leave-IsIndexed mem m to (or_keep by m.removed_by) now s e,
      )
    ]
