-- ===== src/Tenancy/Tests/Finals.antt =====
-- packages/tenancy/inmem.go: the theorems on final states, and on invitations, at small stores.
use flametrench_go.Base.{◌<◌, ◌≡◌, refl, false, none, some, [], ◌∷◌, Text, bytes, lookup, ◌==◌}
use flametrench_go.Base.Result.{ok}
use flametrench_go.Ids.{generate}
use flametrench_go.Tenancy.Types.{
  Organization, Invitation, UpdateOrgInput, AcceptInvitationResult, active, pending, revoked,
  role_member, with_status,
}
use flametrench_go.Tenancy.Store.{fresh_id, Store, empty, new_membership, role_tuple}
use flametrench_go.Tenancy.Orgs.{new_org, update_org}
use flametrench_go.Tenancy.Invitations.{
  check_binding, accepting_user, accept_as, pre_tuples_for, revoke_invitation, accept_invitation,
  accepted_by, new_invitation, declined_by,
}
use flametrench_go.Tenancy.Machine.{Step, here, next}
use flametrench_go.Tenancy.Guards.{IsBound, accept_invitation_guards}
use flametrench_go.Tenancy.Lifecycle.{revoked_org_is_final, closed_invitation_is_final}
use flametrench_go.Tenancy.Tests.{draw_mem, acme, acme_owner}

abbrev dead : Organization
dead = with_status (new_org acme none none 1) revoked 2

abbrev closed : Store
closed = record empty { orgs = (acme, dead) ∷ [] }

abbrev rename : UpdateOrgInput
rename = record { name = some (bytes "new"); slug = none; clear_name = false; clear_slug = false }

abbrev renamed : Store
renamed = (update_org acme rename 9 closed).1

revoked_org_is_final_example : lookup acme renamed.orgs ≡ some dead
unfolding lookup ◌==◌ new_org with_status
revoked_org_is_final_example =
    revoked_org_is_final acme dead (next here (Step.update_org acme rename 9 closed)) refl refl

abbrev inv : Text
inv = bytes "inv_1"

abbrev offer : Invitation
offer = new_invitation inv acme (bytes "bob@x") role_member (bytes "usr_alice") 100 [] 1

abbrev refused : Invitation
refused = declined_by offer none 2

abbrev turned_down : Store
turned_down = record empty { invitations = (inv, refused) ∷ [] }

closed_invitation_is_final_example :
    lookup inv (revoke_invitation inv (bytes "usr_alice") 9 turned_down).1.invitations
    ≡ some refused
unfolding lookup ◌==◌ new_invitation declined_by
closed_invitation_is_final_example =
    closed_invitation_is_final inv refused
      (next here (Step.revoke_invitation inv (bytes "usr_alice") 9 turned_down)) refl refl

abbrev open_offer : Store
open_offer = record empty { invitations = (inv, offer) ∷ [] }

abbrev taken_up : AcceptInvitationResult
taken_up = record {
  invitation = accepted_by offer (bytes "usr_bob") 9;
  membership =
      new_membership acme_owner (bytes "usr_bob") acme role_member (some (bytes "usr_alice")) 9;
  materialized_tuples = role_tuple (bytes "usr_bob") role_member acme ∷ [];
}

acceptance :
    (accept_invitation inv
      (some (bytes "usr_bob"))
      (some (bytes "bob@x"))
      draw_mem
      draw_mem
      9
      9
      9
      open_offer).0
    ≡ ok taken_up
unfolding accept_invitation lookup ◌==◌ new_invitation check_binding accepting_user accept_as
    fresh_id generate pre_tuples_for
acceptance = refl

accept_invitation_guards_example :
    (v : Invitation) × (lookup inv open_offer.invitations ≡ some v)
    × (v.status ≡ pending)
    × (9 < v.expires_at)
    × IsBound (some (bytes "usr_bob")) (some (bytes "bob@x")) v taken_up.membership
    × (taken_up.membership.org_id ≡ v.org_id)
    × (taken_up.membership.role ≡ v.role)
    × (taken_up.membership.status ≡ active)
    × (taken_up.invitation ≡ accepted_by v taken_up.membership.usr_id 9)
accept_invitation_guards_example =
    accept_invitation_guards inv (some (bytes "usr_bob")) (some (bytes "bob@x")) draw_mem draw_mem 9
      9 9 open_offer taken_up acceptance
