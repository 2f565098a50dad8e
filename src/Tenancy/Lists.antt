-- ===== src/Tenancy/Lists.antt =====
-- packages/tenancy/inmem.go: ListOrgs, ListMembers and ListInvitations.
use flametrench_go.Base.{
  ℕ, Bool, true, false, ◌&&◌, ◌||◌, Option, none, some, [], ltb, eqb, Text, ◌==◌, lookup, before,
}
use flametrench_go.Base.Strings.{contains}
use flametrench_go.Base.Action.{◌>>=◌, ◌>>◌, gets, or_raise}
use flametrench_go.Paging.{Page, paginate, sort_slice}
use flametrench_go.Tenancy.Types.{
  Status, InvitationStatus, Organization, Membership, Invitation, not_found,
}
use flametrench_go.Tenancy.Store.{Method}
use flametrench_go.Tenancy.Invitations.{select}

-- o.Status == status
unfoldable pub same_status : Status → Status → Bool
same_status Status.active Status.active = true
same_status Status.suspended Status.suspended = true
same_status Status.revoked Status.revoked = true
same_status Status.unset Status.unset = true
same_status _ _ = false

unfoldable pub same_invitation_status : InvitationStatus → InvitationStatus → Bool
same_invitation_status InvitationStatus.pending InvitationStatus.pending = true
same_invitation_status InvitationStatus.accepted InvitationStatus.accepted = true
same_invitation_status InvitationStatus.declined InvitationStatus.declined = true
same_invitation_status InvitationStatus.revoked InvitationStatus.revoked = true
same_invitation_status InvitationStatus.expired InvitationStatus.expired = true
same_invitation_status _ _ = false

abbrev status_fits : Option Status → Status → Bool
status_fits none s = true
status_fits (some want) s = same_status s want

abbrev invitation_status_fits : Option InvitationStatus → InvitationStatus → Bool
invitation_status_fits none s = true
invitation_status_fits (some want) s = same_invitation_status s want

-- `to_lower` is strings.ToLower, which maps Unicode letters.
module _ (to_lower : Text → Text) where
  abbrev query_text : Option Text → Text
  query_text none = []
  query_text (some q) = to_lower q

  abbrev mentions : Option Text → Text → Bool
  mentions none q = false
  mentions (some t) q = contains (to_lower t) q

  unfoldable pub query_fits : Text → Organization → Bool
  unfolding contains
  query_fits q o = q == [] || (mentions o.name q || mentions o.slug q)

  unfoldable pub list_orgs :
      Option Status → Option Text → Option Text → ℕ → Method (Page Organization)
  unfolding query_fits select same_status
  list_orgs status query cursor limit = gets (λ s.
      paginate (λ o. o.id) cursor limit
        (sort_slice (λ (o p : Organization). before o.id p.id)
          (select (λ o. status_fits status o.status && query_fits (query_text query) o) s.orgs)))

unfoldable pub member_before : Membership → Membership → Bool
member_before m n =
    ltb m.created_at n.created_at || (eqb m.created_at n.created_at && before m.id n.id)

unfoldable pub list_members : Text → Option Status → Option Text → ℕ → Method (Page Membership)
unfolding member_before select same_status
list_members org status cursor limit = do
  or_raise (← gets (λ s. lookup org s.orgs)) not_found
  gets (λ s.
      paginate (λ m. m.id) cursor limit
        (sort_slice member_before
          (select (λ m. m.org_id == org && status_fits status m.status) s.memberships)))

unfoldable pub invitation_before : Invitation → Invitation → Bool
invitation_before i j =
    ltb i.created_at j.created_at || (eqb i.created_at j.created_at && before i.id j.id)

unfoldable pub list_invitations :
    Text → Option InvitationStatus → Option Text → ℕ → Method (Page Invitation)
unfolding invitation_before select same_invitation_status
list_invitations org status cursor limit = do
  or_raise (← gets (λ s. lookup org s.orgs)) not_found
  gets (λ s.
      paginate (λ i. i.id) cursor limit
        (sort_slice invitation_before
          (select (λ i. i.org_id == org && invitation_status_fits status i.status) s.invitations)))
