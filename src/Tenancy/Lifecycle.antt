-- ===== src/Tenancy/Lifecycle.antt =====
-- The terminal states: a revoked organization and an invitation that is no longer pending.
mod Frames
mod Revoked
mod Closed
use flametrench_go.Base.{
  ℕ, ◌≡◌, refl, ◌∙◌, true, false, Option, none, some, inl, inr, List, [], ◌∷◌, arith, Text, bytes,
  lookup, insert, keys, eq_iff, lookup-insert, Option-cases, Bool-cases,
}
use flametrench_go.Base.Result.{ok, Result-cases}
use flametrench_go.Ids.{Uuids, generate}
use flametrench_go.Tenancy.Types.{
  Role, Status, is_revoked, Organization, with_status, UpdateOrgInput, PreTuple, Invitation,
  is_pending,
}
use flametrench_go.Tenancy.Store.{
  Store, fresh_id, put_membership, put_grant, drop_grant, drop_slug, revoke_old, admit,
  change_role_atomic,
}
use flametrench_go.Tenancy.Orgs
use flametrench_go.Tenancy.Orgs.{
  check_new_slug, put_org, update_slug, revoke_member, revoke_members, cascade_revoke,
}
use flametrench_go.Tenancy.Members
use flametrench_go.Tenancy.Members.{retire, hand_over}
use flametrench_go.Tenancy.Invitations
use flametrench_go.Tenancy.Invitations.{
  put_invitation, expire, accepted_by, declined_by, revoked_by, new_invitation, accepting_user,
  check_binding, accept_as, materialize,
}
use flametrench_go.Tenancy.Cascade.{orgs-revoke_members}
use flametrench_go.Tenancy.Owners.Orgs.{drop_slug_frame, updated, update_slug_frame}
use flametrench_go.Tenancy.Machine.{Step, Reach, here, next}
use flametrench_go.Tenancy.Lifecycle.Frames.{
  transition_frame, change_role_frame, admin_remove_frame, change_role_atomic_frame,
  add_member_frame, self_leave_frame, transfer_frame, revoke_member_invitations,
  drop_slug_invitations, revoke_members_invitations, transition_org_invitations,
  update_org_invitations, create_org_invitations, accept_as_orgs, accept_invitation_orgs,
  simple_orgs, create_invitation_orgs,
}
use flametrench_go.Tenancy.Lifecycle.Revoked.{
  create_org_keeps, update_org_keeps, transition_org_keeps,
}
use flametrench_go.Tenancy.Lifecycle.Closed.{
  written_elsewhere, accept_as_keeps, accept_keeps, decline_keeps, revoke_keeps, get_keeps,
  create_keeps,
}

-- No call changes an organization that is revoked.
Step-revoked_org :
    {s t : Store} (org : Text) (o : Organization)
    → Step s t
    → is_revoked o.status ≡ true
    → lookup org s.orgs ≡ some o
    → lookup org t.orgs ≡ some o
Step-revoked_org org o (Step.create_org c n sl u v now s m x new f) dead e =
    create_org_keeps org o dead c n sl u v now s new e
Step-revoked_org org o (Step.update_org x i now s) dead e = update_org_keeps org o dead x i now s e
Step-revoked_org org o (Step.transition_org x to now at s) dead e =
    transition_org_keeps org o dead x to now at s e
Step-revoked_org org o (Step.add_member x usr r by u now s c f) dead e =
    rw ((add_member_frame x usr r by u now s).0) e
Step-revoked_org org o (Step.change_role mem r u now s f) dead e =
    rw ((change_role_frame mem now s r u).0) e
Step-revoked_org org o (Step.transition_membership mem to by now s f) dead e =
    rw ((transition_frame mem now s to by).0) e
Step-revoked_org org o (Step.self_leave mem to u now later s n) dead e =
    rw ((self_leave_frame mem to u now later s).0) e
Step-revoked_org org o (Step.admin_remove mem a now s) dead e =
    rw ((admin_remove_frame mem now s a).0) e
Step-revoked_org org o (Step.transfer_ownership x f t u v now later s a b d) dead e =
    rw ((transfer_frame x f t u v now later s).0) e
Step-revoked_org org o (Step.create_invitation x i r by t pts u now s n) dead e =
    rw (create_invitation_orgs x i r by t pts u now s) e
Step-revoked_org org o (Step.get_invitation id now st s) dead e = rw ((simple_orgs id now s).2 st) e
Step-revoked_org org o (Step.accept_invitation id au i u v c st now s x f) dead e =
    rw (accept_invitation_orgs id now s au i u v c st) e
Step-revoked_org org o (Step.decline_invitation id usr now s) dead e =
    rw ((simple_orgs id now s).1 usr) e
Step-revoked_org org o (Step.revoke_invitation id a now s) dead e =
    rw ((simple_orgs id now s).0 a) e

-- No call changes an invitation that is no longer pending.
Step-closed_invitation :
    {s t : Store} (id : Text) (inv : Invitation)
    → Step s t
    → is_pending inv.status ≡ false
    → lookup id s.invitations ≡ some inv
    → lookup id t.invitations ≡ some inv
Step-closed_invitation id inv (Step.create_org c n sl u v now s m x new f) over e =
    rw (create_org_invitations c n sl u v now s) e
Step-closed_invitation id inv (Step.update_org x i now s) over e =
    rw (update_org_invitations x now s i) e
Step-closed_invitation id inv (Step.transition_org x to now at s) over e =
    rw (transition_org_invitations x now s to at) e
Step-closed_invitation id inv (Step.add_member x usr r by u now s c f) over e =
    rw ((add_member_frame x usr r by u now s).1) e
Step-closed_invitation id inv (Step.change_role mem r u now s f) over e =
    rw ((change_role_frame mem now s r u).1) e
Step-closed_invitation id inv (Step.transition_membership mem to by now s f) over e =
    rw ((transition_frame mem now s to by).1) e
Step-closed_invitation id inv (Step.self_leave mem to u now later s n) over e =
    rw ((self_leave_frame mem to u now later s).1) e
Step-closed_invitation id inv (Step.admin_remove mem a now s) over e =
    rw ((admin_remove_frame mem now s a).1) e
Step-closed_invitation id inv (Step.transfer_ownership x f t u v now later s a b d) over e =
    rw ((transfer_frame x f t u v now later s).1) e
Step-closed_invitation id inv (Step.create_invitation x i r by t pts u now s n) over e =
    create_keeps id inv over x i r by t pts u now s n e
Step-closed_invitation id inv (Step.get_invitation x now st s) over e =
    get_keeps id inv over x now st s e
Step-closed_invitation id inv (Step.accept_invitation x au i u v c st now s y f) over e =
    accept_keeps id inv over x au i u v c st now s e
Step-closed_invitation id inv (Step.decline_invitation x usr now s) over e =
    decline_keeps id inv over x usr now s e
Step-closed_invitation id inv (Step.revoke_invitation x a now s) over e =
    revoke_keeps id inv over x a now s e

-- Whatever calls that Step of Machine lists follow, with minted ids that are not in use, an organization that is revoked stays as it is.
pub revoked_org_is_final :
    {s t : Store} (org : Text) (o : Organization)
    → Reach s t
    → is_revoked o.status ≡ true
    → lookup org s.orgs ≡ some o
    → lookup org t.orgs ≡ some o
revoked_org_is_final org o here dead e = e
revoked_org_is_final org o (next r st) dead e =
    Step-revoked_org org o st dead (revoked_org_is_final org o r dead e)

-- Whatever calls that Step of Machine lists follow, with minted ids that are not in use, an invitation that is no longer pending stays as it is.
pub closed_invitation_is_final :
    {s t : Store} (id : Text) (inv : Invitation)
    → Reach s t
    → is_pending inv.status ≡ false
    → lookup id s.invitations ≡ some inv
    → lookup id t.invitations ≡ some inv
closed_invitation_is_final id inv here over e = e
closed_invitation_is_final id inv (next r st) over e =
    Step-closed_invitation id inv st over (closed_invitation_is_final id inv r over e)
