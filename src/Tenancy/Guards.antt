-- ===== src/Tenancy/Guards.antt =====
-- What a method has checked when it succeeds.
use flametrench_go.Tenancy.Types.{role_guest}
use flametrench_go.Tenancy.Types.{role_member}
use flametrench_go.Tenancy.Types.{role_admin}
use flametrench_go.Tenancy.Types.{role_owner}
use flametrench_go.Base.{◌==◌}
use flametrench_go.Base.{
  ℕ, ◌≤◌, ◌<◌, ◌≡◌, refl, true, false, Option, none, some, inl, inr, arith, Text, bytes, lookup,
  eq_iff, Option-cases,
}
use flametrench_go.Base.Result.{ok, Result-cases}
use flametrench_go.Ids.{Uuids, generate}
use flametrench_go.Tenancy.Types.{
  admin_rank, active, revoked, is_active, pending, Membership, Invitation, AcceptInvitationResult,
}
use flametrench_go.Tenancy.Store.{Store, zero_membership, org_usr_key, fresh_id, new_membership}
use flametrench_go.Tenancy.Members.{admin_remove, is_sole_owner}
use flametrench_go.Tenancy.Invitations.{
  check_binding, accepting_user, accept_as, accept_invitation, accepted_by,
}

no_rank : admin_rank zero_membership.role ≡ 0
unfolding admin_rank zero_membership ◌==◌ role_owner role_admin role_member role_guest
no_rank = refl

-- AdminRemove succeeds only if the index names, for the remover in the target's organization, a stored
-- membership of rank admin or higher, at least that of the target, and the target is stored, active
-- and not the sole owner; what it returns is the target, revoked and removed by the remover. (It does
-- not look at the status of the remover's membership.)
pub admin_remove_guards :
    (mem admin_usr : Text) (now : ℕ) (s : Store) (r : Membership)
    → (admin_remove mem admin_usr now s).0 ≡ ok r
    → (target : Membership) × (admin : Membership) × (i : Text) × (lookup mem s.memberships
        ≡ some target)
      × (is_active target.status ≡ true)
      × (lookup (org_usr_key target.org_id admin_usr) s.active_mem ≡ some i)
      × (lookup i s.memberships ≡ some admin)
      × (3 ≤ admin_rank admin.role)
      × (admin_rank target.role ≤ admin_rank admin.role)
      × (is_sole_owner target s ≡ false)
      × (r ≡ record target { status = revoked; removed_by = some admin_usr; updated_at = now })
unfolding admin_remove
admin_remove_guards mem admin_usr now s r e = elim (Option-cases (lookup mem s.memberships)) [
  | inl missing ↦ absurd (ground arith)
  | inr (t, et) ↦ elim (Option-cases (lookup (org_usr_key t.org_id admin_usr) s.active_mem)) [
    | inl missing ↦ absurd (ground arith)
    | inr (i, ei) ↦ elim (Option-cases (lookup i s.memberships)) [
      | inl unknown ↦ absurd (ground (arith, no_rank))
      | inr (a, ea) ↦ (
        t,
        a,
        i,
        et,
        ground arith,
        ei,
        ea,
        ground arith,
        ground arith,
        ground arith,
        ground arith,
      )
    ]
  ]
]

-- The binding of an acceptance: a named user shows the identifier that was invited.
abbrev pub IsBound : Option Text → Option Text → Invitation → Membership → Type 0
IsBound none identifier inv m = Unit {0}
IsBound (some usr) identifier inv m = (identifier ≡ some inv.identifier) × (m.usr_id ≡ usr)

accept_as_result :
    (id : Text) (inv : Invitation) (usr : Text) (u_mem : Uuids) (now : ℕ) (s : Store)
    (r : AcceptInvitationResult)
    → (accept_as id inv usr u_mem now s).0 ≡ ok r
    → (r.membership.usr_id ≡ usr)
      × (r.membership.org_id ≡ inv.org_id)
      × (r.membership.role ≡ inv.role)
      × (r.membership.status ≡ active)
      × (r.invitation ≡ accepted_by inv usr now)
      × (lookup (org_usr_key inv.org_id usr) s.active_mem ≡ none)
unfolding accept_as fresh_id new_membership
accept_as_result id inv usr u_mem now s r e =
    elim (Option-cases (lookup (org_usr_key inv.org_id usr) s.active_mem)) [
      | inl free ↦ elim (Result-cases (generate u_mem (bytes "mem"))) [
        | inl (m, g) ↦ (ground arith, ground arith, ground arith, ground arith, ground arith, free)
        | inr (x, g) ↦ absurd (ground arith)
      ]
      | inr (i, taken) ↦ absurd (ground arith)
    ]

-- AcceptInvitation succeeds only on a stored, pending invitation before its expiry, bound to the
-- identifier where a user is named; the membership is active in the invitation's organization with
-- the invitation's role, and the invitation comes back accepted.
pub accept_invitation_guards :
    (id : Text) (as_usr identifier : Option Text) (u_usr u_mem : Uuids) (now_check stamp now : ℕ)
    (s : Store) (r : AcceptInvitationResult)
    → (accept_invitation id as_usr identifier u_usr u_mem now_check stamp now s).0 ≡ ok r
    → (inv : Invitation) × (lookup id s.invitations ≡ some inv)
      × (inv.status ≡ pending)
      × (now_check < inv.expires_at)
      × IsBound as_usr identifier inv r.membership
      × (r.membership.org_id ≡ inv.org_id)
      × (r.membership.role ≡ inv.role)
      × (r.membership.status ≡ active)
      × (r.invitation ≡ accepted_by inv r.membership.usr_id now)
unfolding accept_invitation accepting_user fresh_id check_binding
accept_invitation_guards id none identifier u_usr u_mem now_check stamp now s r e =
    elim (Option-cases (lookup id s.invitations)) [
      | inl missing ↦ absurd (ground arith)
      | inr (inv, ei) ↦ elim (Result-cases (generate u_usr (bytes "usr"))) [
        | inl (usr, g) ↦
            let done : (accept_as id inv usr u_mem now s).0 ≡ ok r = ground arith in
            let (u, o, ro, st, iv, free) = accept_as_result id inv usr u_mem now s r done in
            (inv, ei, ground arith, ground arith, tt, o, ro, st, rw u iv)
        | inr (x, g) ↦ absurd (ground arith)
      ]
    ]
accept_invitation_guards id (some usr) identifier u_usr u_mem now_check stamp now s r e =
    elim (Option-cases (lookup id s.invitations)) [
      | inl missing ↦ absurd (ground arith)
      | inr (inv, ei) ↦
          let done : (accept_as id inv usr u_mem now s).0 ≡ ok r = ground arith in
          let (u, o, ro, st, iv, free) = accept_as_result id inv usr u_mem now s r done in
          (
            inv,
            ei,
            ground arith,
            ground arith,
            (bound inv identifier (ground arith), u),
            o,
            ro,
            st,
            rw u iv,
          )
    ]
  where
    bound :
        (inv : Invitation) (given : Option Text)
        → (check_binding (some usr) given inv s).0 ≡ ok tt
        → given ≡ some inv.identifier
    bound inv none q = absurd (ground arith)
    bound inv (some x) q = ground (arith, eq_iff x inv.identifier)
