-- ===== src/Tenancy/Transfers/Ownership.antt =====
-- TransferOwnership.
use flametrench_go.Base.{
  ℕ, ◌+◌, ◌≤◌, ◌≡◌, ◌≢◌, true, false, none, some, inl, inr, arith, Text, ◌==◌, lookup, eq_iff,
  eq_refl, lookup-insert, Option-cases, Bool-cases,
}
use flametrench_go.Ids.{Uuids}
use flametrench_go.Tenancy.Types.{role_owner, role_member, Status, is_active, Membership}
use flametrench_go.Tenancy.Store.{
  Store, put_membership, drop_grant, put_grant, revoke_old, admit, replacement, change_role_atomic,
  owner_weight, count_active_owners,
}
use flametrench_go.Tenancy.Members.{transfer_ownership}
use flametrench_go.Tenancy.Owners.Count.{HasOwner, count-revoke_old, weight-le-count}
use flametrench_go.Tenancy.Index.Writes.{IsIndexed}
use flametrench_go.Tenancy.Transfers.Swap.{
  new_id, change_role_atomic_found, count-change_role_atomic, lookup-change_role_atomic,
  change_role_atomic-IsIndexed,
}

-- The donor `f` and the recipient `t` are distinct memberships of one organization, and the two new
-- ids are unused and distinct.
module _ (from_mem to_mem : Text) (f t : Membership) (u_to u_from : Uuids) (now later : ℕ)
    (s : Store) (distinct : from_mem ≢ to_mem) (found_f : lookup from_mem s.memberships ≡ some f)
    (found_t : lookup to_mem s.memberships ≡ some t)
    (new_to : lookup (new_id u_to) s.memberships ≡ none)
    (new_from : lookup (new_id u_from) s.memberships ≡ none)
    (ids_differ : new_id u_to ≢ new_id u_from) where
  abbrev promoted : Store
  promoted = change_role_atomic to_mem role_owner u_to now s

  abbrev demoted : Store
  demoted = change_role_atomic from_mem role_member u_from later promoted

  donor_stays : lookup from_mem promoted.memberships ≡ some f
  donor_stays =
      lookup-change_role_atomic to_mem t role_owner u_to now s found_t new_to from_mem f distinct
        found_f

  new_from_stays : lookup (new_id u_from) promoted.memberships ≡ none
  unfolding admit put_grant put_membership revoke_old drop_grant
  new_from_stays = rw (change_role_atomic_found to_mem t role_owner u_to now s found_t new_to) (
      ground (
        arith,
        lookup-insert (new_id u_to) (new_id u_from)
            (replacement (new_id u_to) to_mem t role_owner now)
            (revoke_old to_mem t now s).memberships,
        lookup-insert to_mem (new_id u_from)
            (record t { status = Status.revoked; updated_at = now }) s.memberships,
        eq_iff (new_id u_to) (new_id u_from),
        eq_iff to_mem (new_id u_from),
      ))

  -- With the recipient revoked the donor still counts.
  donor_counts : (org : Text) → owner_weight org f + owner_weight org t ≤ count_active_owners org s
  unfolding revoke_old put_membership drop_grant
  donor_counts org = ground (
    arith,
    count-revoke_old org to_mem t now s found_t,
    weight-le-count org from_mem f (revoke_old to_mem t now s),
    lookup-insert to_mem from_mem (record t { status = Status.revoked; updated_at = now })
        s.memberships,
    eq_iff to_mem from_mem,
  )

  module _ (same_org : t.org_id ≡ f.org_id) where
    recipient_weighs :
        (org : Text)
        → (owner_weight org f
            ≤ owner_weight org (replacement (new_id u_to) to_mem t role_owner now))
          × (owner_weight org t
              ≤ owner_weight org (replacement (new_id u_to) to_mem t role_owner now))
    unfolding owner_weight replacement
    recipient_weighs org = (ground (arith, eq_refl role_owner), ground (arith, eq_refl role_owner))

    pub transfer-HasOwner : HasOwner s → HasOwner demoted
    transfer-HasOwner h = record {
      owned = λ org o e live. ground (
        arith,
        count-change_role_atomic from_mem f role_member u_from later promoted donor_stays
            new_from_stays org,
        count-change_role_atomic to_mem t role_owner u_to now s found_t new_to org,
        (recipient_weighs org).0,
        (recipient_weighs org).1,
        donor_counts org,
        h.owned org o
            (unfold change_role_atomic admit put_grant put_membership revoke_old drop_grant in e)
            live,
      );
    }

  pub transfer-IsIndexed :
      is_active f.status ≡ true → is_active t.status ≡ true → IsIndexed s → IsIndexed demoted
  transfer-IsIndexed live_f live_t h =
      change_role_atomic-IsIndexed from_mem f role_member u_from later promoted donor_stays
        new_from_stays live_f
        (change_role_atomic-IsIndexed to_mem t role_owner u_to now s found_t new_to live_t h)

-- The donor and the recipient that the guards let through.
module _ (org from_mem to_mem : Text) (u_to u_from : Uuids) (now later : ℕ) (s : Store) where
  -- TransferOwnership keeps the sole-owner rule.
  pub transfer_ownership-HasOwner :
      lookup (new_id u_to) s.memberships ≡ none
      → lookup (new_id u_from) s.memberships ≡ none
      → new_id u_to ≢ new_id u_from
      → HasOwner s
      → HasOwner (transfer_ownership org from_mem to_mem u_to u_from now later s).1
  unfolding transfer_ownership
  transfer_ownership-HasOwner new_to new_from differ h =
      elim (Option-cases (lookup from_mem s.memberships)) [
        | inl missing ↦ ground arith
        | inr (f, ef) ↦ elim (Option-cases (lookup to_mem s.memberships)) [
          | inl missing ↦ ground arith
          | inr (t, et) ↦ elim (Bool-cases (from_mem == to_mem)) [
            | inl same ↦ ground arith
            | inr other ↦ ground (
              arith,
              eq_iff f.org_id org,
              eq_iff t.org_id org,
              transfer-HasOwner from_mem to_mem f t u_to u_from now later s (distinct other) ef et
                  new_to new_from differ,
            )
          ]
        ]
      ]
    where
      distinct : (from_mem == to_mem) ≡ false → from_mem ≢ to_mem
      distinct other e = ground (arith, eq_iff from_mem to_mem)

  -- TransferOwnership keeps the index invariant.
  pub transfer_ownership-IsIndexed :
      lookup (new_id u_to) s.memberships ≡ none
      → lookup (new_id u_from) s.memberships ≡ none
      → new_id u_to ≢ new_id u_from
      → IsIndexed s
      → IsIndexed (transfer_ownership org from_mem to_mem u_to u_from now later s).1
  unfolding transfer_ownership
  transfer_ownership-IsIndexed new_to new_from differ h =
      elim (Option-cases (lookup from_mem s.memberships)) [
        | inl missing ↦ ground arith
        | inr (f, ef) ↦ elim (Option-cases (lookup to_mem s.memberships)) [
          | inl missing ↦ ground arith
          | inr (t, et) ↦ elim (Bool-cases (from_mem == to_mem)) [
            | inl same ↦ ground arith
            | inr other ↦ ground (
              arith,
              transfer-IsIndexed from_mem to_mem f t u_to u_from now later s (distinct other) ef et
                  new_to new_from differ,
            )
          ]
        ]
      ]
    where
      distinct : (from_mem == to_mem) ≡ false → from_mem ≢ to_mem
      distinct other e = ground (arith, eq_iff from_mem to_mem)
