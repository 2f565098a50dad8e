-- ===== src/Tenancy/Transfers/Swap.antt =====
-- What changeRoleAtomicLocked does to a membership that is found, and to the others.
use flametrench_go.Base.{
  ℕ, ◌+◌, ◌≡◌, ◌≢◌, refl, true, none, some, arith, Text, bytes, lookup, eq_iff, lookup-insert,
}
use flametrench_go.Ids.{Uuids}
use flametrench_go.Tenancy.Types.{Role, Status, is_active, Membership}
use flametrench_go.Tenancy.Store.{
  Store, put_membership, drop_grant, put_grant, revoke_old, admit, replacement, id_or_empty,
  change_role_atomic, owner_weight, count_active_owners,
}
use flametrench_go.Tenancy.Owners.Writes.{fresh_after_revoke}
use flametrench_go.Tenancy.Owners.Count.{count-admit, count-revoke_old}
use flametrench_go.Tenancy.Index.Writes.{IsIndexed}
use flametrench_go.Tenancy.Index.Methods.{replace-IsIndexed}

abbrev pub new_id : Uuids → Text
new_id u = id_or_empty u (bytes "mem")

module _ (mem : Text) (old : Membership) (role : Role) (u : Uuids) (now : ℕ) (s : Store)
    (found : lookup mem s.memberships ≡ some old)
    (new : lookup (new_id u) s.memberships ≡ none) where
  abbrev swapped : Store
  swapped = change_role_atomic mem role u now s

  abbrev successor : Membership
  successor = replacement (new_id u) mem old role now

  -- With the membership found, the swap is a revocation followed by an admission.
  pub change_role_atomic_found : swapped ≡ admit (new_id u) successor (revoke_old mem old now s)
  unfolding change_role_atomic
  change_role_atomic_found = rw found

  pub count-change_role_atomic :
      (org : Text)
      → count_active_owners org swapped + owner_weight org old
        ≡ count_active_owners org s + owner_weight org successor
  count-change_role_atomic org = rw change_role_atomic_found (
      omega (
        arith,
        count-admit org (new_id u) successor (revoke_old mem old now s)
            (fresh_after_revoke mem (new_id u) old now s found new),
        count-revoke_old org mem old now s found,
      ))

  -- Any other membership that is stored stays as it is.
  pub lookup-change_role_atomic :
      (i : Text) (m : Membership)
      → i ≢ mem
      → lookup i s.memberships ≡ some m
      → lookup i swapped.memberships ≡ some m
  unfolding admit put_grant put_membership revoke_old drop_grant
  lookup-change_role_atomic i m other e = rw change_role_atomic_found (
      ground (
        arith,
        lookup-insert (new_id u) i successor (revoke_old mem old now s).memberships,
        lookup-insert mem i (record old { status = Status.revoked; updated_at = now })
            s.memberships,
        eq_iff (new_id u) i,
        eq_iff mem i,
      ))

  pub change_role_atomic-IsIndexed : is_active old.status ≡ true → IsIndexed s → IsIndexed swapped
  change_role_atomic-IsIndexed live h =
      rw change_role_atomic_found (replace-IsIndexed mem (new_id u) old role now s found live new h)

  -- The organizations are left alone.
  pub orgs-change_role_atomic : swapped.orgs ≡ s.orgs
  unfolding change_role_atomic admit put_grant put_membership revoke_old drop_grant
  orgs-change_role_atomic = refl
