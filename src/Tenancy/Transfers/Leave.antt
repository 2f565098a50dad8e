-- ===== src/Tenancy/Transfers/Leave.antt =====
-- SelfLeave.
use flametrench_go.Base.{
  ℕ, ◌+◌, ◌≤◌, ◌≡◌, ◌≢◌, true, false, Option, none, some, inl, inr, arith, Text, ◌==◌, lookup,
  eq_refl, Option-cases,
}
use flametrench_go.Ids.{Uuids}
use flametrench_go.Tenancy.Types.{role_owner, is_active, Membership}
use flametrench_go.Tenancy.Store.{
  Store, org_usr_key, put_membership, drop_grant, put_grant, revoke_old, admit, replacement,
  change_role_atomic, owner_weight,
}
use flametrench_go.Tenancy.Members.{retire, self_leave, hand_over, is_sole_owner}
use flametrench_go.Tenancy.Owners.Writes.{retire-HasOwner}
use flametrench_go.Tenancy.Owners.Count.{HasOwner, count-retire}
use flametrench_go.Tenancy.Index.Keys.{org_usr_key-injective}
use flametrench_go.Tenancy.Index.Writes.{IsIndexed, retire-IsIndexed}
use flametrench_go.Tenancy.Transfers.Swap.{
  new_id, count-change_role_atomic, lookup-change_role_atomic, change_role_atomic-IsIndexed,
}

-- A sole owner `m` hands over to `t`, a membership of the same organization that is no owner.
module _ (mem tt_mem : Text) (m t : Membership) (u : Uuids) (now later : ℕ) (s : Store)
    (found : lookup mem s.memberships ≡ some m) (target : lookup tt_mem s.memberships ≡ some t)
    (new : lookup (new_id u) s.memberships ≡ none) (owns : (m.role == role_owner) ≡ true)
    (not_owner : (t.role == role_owner) ≡ false) where
  abbrev handed : Store
  handed = change_role_atomic tt_mem role_owner u now s

  leaver_differs : mem ≢ tt_mem
  leaver_differs e = ground arith

  leaver_stays : lookup mem handed.memberships ≡ some m
  leaver_stays =
      lookup-change_role_atomic tt_mem t role_owner u now s target new mem m leaver_differs found

  module _ (same_org : t.org_id ≡ m.org_id) where
    successor_weighs :
        (org : Text)
        → owner_weight org m + owner_weight org t
          ≤ owner_weight org (replacement (new_id u) tt_mem t role_owner now)
    unfolding owner_weight replacement
    successor_weighs org = ground (arith, eq_refl role_owner)

    pub hand_over-HasOwner : HasOwner s → HasOwner (retire mem m m.usr_id later handed)
    hand_over-HasOwner h = record {
      owned = λ org o e live. omega (
        arith,
        count-retire org mem m m.usr_id later handed leaver_stays,
        count-change_role_atomic tt_mem t role_owner u now s target new org,
        successor_weighs org,
        h.owned org o
            (unfold retire change_role_atomic admit put_grant put_membership revoke_old
                drop_grant in
              e)
            live,
      );
    }

  pub hand_over-IsIndexed :
      is_active m.status ≡ true
      → is_active t.status ≡ true
      → IsIndexed s
      → IsIndexed (retire mem m m.usr_id later handed)
  hand_over-IsIndexed live_m live_t h =
      retire-IsIndexed mem m m.usr_id later handed leaver_stays live_m
        (change_role_atomic-IsIndexed tt_mem t role_owner u now s target new live_t h)

-- What the index says of a transfer target: a stored, active membership of the same organization.
target_of :
    (mem i target : Text) (m : Membership) (s : Store)
    → IsIndexed s
    → lookup mem s.memberships ≡ some m
    → lookup (org_usr_key m.org_id target) s.active_mem ≡ some i
    → (t : Membership) × (lookup i s.memberships ≡ some t)
      × (is_active t.status ≡ true)
      × (t.org_id ≡ m.org_id)
target_of mem i target m s h found e =
    let (t, at, live, key) = h.backward (org_usr_key m.org_id target) i e in
    (
      t,
      at,
      live,
      (org_usr_key-injective t.org_id m.org_id t.usr_id target (h.clean i t at)
          (h.clean mem m found) key).0,
    )

-- SelfLeave keeps the sole-owner rule: a sole owner leaves only by promoting another member.
pub self_leave-HasOwner :
    (mem : Text) (to : Option Text) (u : Uuids) (now later : ℕ) (s : Store)
    → lookup (new_id u) s.memberships ≡ none
    → IsIndexed s
    → HasOwner s
    → HasOwner (self_leave mem to u now later s).1
unfolding self_leave hand_over is_sole_owner
self_leave-HasOwner mem none u now later s new x h =
    elim (Option-cases (lookup mem s.memberships)) [
      | inl missing ↦ ground arith
      | inr (m, e) ↦ ground (arith, retire-HasOwner mem m m.usr_id later s e)
    ]
self_leave-HasOwner mem (some target) u now later s new x h =
    elim (Option-cases (lookup mem s.memberships)) [
      | inl missing ↦ ground arith
      | inr (m, e) ↦ elim (Option-cases (lookup (org_usr_key m.org_id target) s.active_mem)) [
        | inl gone ↦ ground (arith, retire-HasOwner mem m m.usr_id later s e)
        | inr (i, at) ↦
            let (t, ft, live, org) = target_of mem i target m s x e at in
            ground (
              arith,
              retire-HasOwner mem m m.usr_id later s e,
              hand_over-HasOwner mem i m t u now later s e ft new,
            )
      ]
    ]

-- SelfLeave keeps the index invariant.
pub self_leave-IsIndexed :
    (mem : Text) (to : Option Text) (u : Uuids) (now later : ℕ) (s : Store)
    → lookup (new_id u) s.memberships ≡ none
    → IsIndexed s
    → IsIndexed (self_leave mem to u now later s).1
unfolding self_leave hand_over is_sole_owner
self_leave-IsIndexed mem none u now later s new x = elim (Option-cases (lookup mem s.memberships)) [
  | inl missing ↦ ground arith
  | inr (m, e) ↦ ground (arith, retire-IsIndexed mem m m.usr_id later s e)
]
self_leave-IsIndexed mem (some target) u now later s new x =
    elim (Option-cases (lookup mem s.memberships)) [
      | inl missing ↦ ground arith
      | inr (m, e) ↦ elim (Option-cases (lookup (org_usr_key m.org_id target) s.active_mem)) [
        | inl gone ↦ ground (arith, retire-IsIndexed mem m m.usr_id later s e)
        | inr (i, at) ↦
            let (t, ft, live, org) = target_of mem i target m s x e at in
            ground (
              arith,
              retire-IsIndexed mem m m.usr_id later s e,
              hand_over-IsIndexed mem i m t u now later s e ft new,
            )
      ]
    ]
