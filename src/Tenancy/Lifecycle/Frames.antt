-- ===== src/Tenancy/Lifecycle/Frames.antt =====
-- packages/tenancy/inmem.go: which parts of the store the methods leave alone.
use flametrench_go.Base.{
  ℕ, ◌≡◌, refl, ◌∙◌, Option, none, some, inl, inr, List, [], ◌∷◌, arith, Text, bytes, lookup,
  insert, keys, Option-cases,
}
use flametrench_go.Base.Result.{Result-cases}
use flametrench_go.Ids.{Uuids, generate}
use flametrench_go.Tenancy.Types.{Role, Status, with_status, UpdateOrgInput, PreTuple, Invitation}
use flametrench_go.Tenancy.Store.{
  Store, fresh_id, put_membership, put_grant, drop_grant, drop_slug, revoke_old, admit,
  change_role_atomic,
}
use flametrench_go.Tenancy.Orgs
use flametrench_go.Tenancy.Orgs.{
  check_new_slug, put_org, update_slug, revoke_member, revoke_members, cascade_revoke,
}
use flametrench_go.Tenancy.Members
use flametrench_go.Tenancy.Members.{retire, hand_over}
use flametrench_go.Tenancy.Invitations
use flametrench_go.Tenancy.Invitations.{
  put_invitation, expire, accepted_by, declined_by, revoked_by, new_invitation, accepting_user,
  check_binding, accept_as, materialize,
}

-- The methods on memberships write neither organizations nor invitations.
module _ (mem : Text) (now : ℕ) (s : Store) where
  pub transition_frame :
      (to : Status) (by : Option Text)
      → ((Members.transition_membership mem to by now s).1.orgs ≡ s.orgs)
        × ((Members.transition_membership mem to by now s).1.invitations ≡ s.invitations)
  unfolding Members.transition_membership put_grant drop_grant put_membership
  transition_frame to by = (ground arith, ground arith)

  pub change_role_frame :
      (role : Role) (u : Uuids)
      → ((Members.change_role mem role u now s).1.orgs ≡ s.orgs)
        × ((Members.change_role mem role u now s).1.invitations ≡ s.invitations)
  unfolding Members.change_role fresh_id revoke_old admit put_grant drop_grant put_membership
  change_role_frame role u = (ground arith, ground arith)

  pub admin_remove_frame :
      (admin : Text)
      → ((Members.admin_remove mem admin now s).1.orgs ≡ s.orgs)
        × ((Members.admin_remove mem admin now s).1.invitations ≡ s.invitations)
  unfolding Members.admin_remove retire drop_grant put_membership
  admin_remove_frame admin = (ground arith, ground arith)

  pub change_role_atomic_frame :
      (role : Role) (u : Uuids)
      → ((change_role_atomic mem role u now s).orgs ≡ s.orgs)
        × ((change_role_atomic mem role u now s).invitations ≡ s.invitations)
  unfolding change_role_atomic revoke_old admit put_grant drop_grant put_membership
  change_role_atomic_frame role u = (refl, refl)

pub add_member_frame :
    (org usr : Text) (role : Role) (by : Option Text) (u : Uuids) (now : ℕ) (s : Store)
    → ((Members.add_member org usr role by u now s).1.orgs ≡ s.orgs)
      × ((Members.add_member org usr role by u now s).1.invitations ≡ s.invitations)
unfolding Members.add_member fresh_id admit put_grant put_membership
add_member_frame org usr role by u now s = (ground arith, ground arith)

pub self_leave_frame :
    (mem : Text) (to : Option Text) (u : Uuids) (now later : ℕ) (s : Store)
    → ((Members.self_leave mem to u now later s).1.orgs ≡ s.orgs)
      × ((Members.self_leave mem to u now later s).1.invitations ≡ s.invitations)
unfolding Members.self_leave hand_over retire change_role_atomic revoke_old admit put_grant
    drop_grant put_membership
self_leave_frame mem none u now later s = (ground arith, ground arith)
self_leave_frame mem (some x) u now later s = (ground arith, ground arith)

pub transfer_frame :
    (org f t : Text) (u v : Uuids) (now later : ℕ) (s : Store)
    → ((Members.transfer_ownership org f t u v now later s).1.orgs ≡ s.orgs)
      × ((Members.transfer_ownership org f t u v now later s).1.invitations ≡ s.invitations)
unfolding Members.transfer_ownership change_role_atomic revoke_old admit put_grant drop_grant
    put_membership
transfer_frame org f t u v now later s = (ground arith, ground arith)

pub revoke_member_invitations :
    (org mid : Text) (at : ℕ) (s : Store) → (revoke_member org mid at s).invitations ≡ s.invitations
unfolding revoke_member drop_grant put_membership
revoke_member_invitations org mid at s = ground arith

pub drop_slug_invitations :
    (slug : Option Text) (s : Store) → (drop_slug slug s).invitations ≡ s.invitations
drop_slug_invitations none s = refl
drop_slug_invitations (some x) s = refl

pub revoke_members_invitations :
    (org : Text) (at : Text → ℕ) (mids : List Text) (s : Store)
    → (revoke_members org at mids s).invitations ≡ s.invitations
unfolding revoke_members
revoke_members_invitations org at [] s = refl
revoke_members_invitations org at (mid ∷ mids) s =
    revoke_members_invitations org at mids (revoke_member org mid (at mid) s)
    ∙ revoke_member_invitations org mid (at mid) s

-- The methods on organizations write no invitation.
module _ (org : Text) (now : ℕ) (s : Store) where
  pub transition_org_invitations :
      (to : Status) (at : Text → ℕ)
      → (Orgs.transition_org org to now at s).1.invitations ≡ s.invitations
  unfolding Orgs.transition_org cascade_revoke
  transition_org_invitations to at = elim (Option-cases (lookup org s.orgs)) [
    | inl missing ↦ ground arith
    | inr (o, e) ↦
        let o' = with_status o to now in
        let s' : Store = record s { orgs = insert org o' s.orgs } in
        ground (
          arith,
          revoke_members_invitations org at (keys s.memberships) s',
          drop_slug_invitations o'.slug (revoke_members org at (keys s.memberships) s'),
        )
  ]

  pub update_org_invitations :
      (input : UpdateOrgInput) → (Orgs.update_org org input now s).1.invitations ≡ s.invitations
  unfolding Orgs.update_org update_slug
  update_org_invitations input = ground arith

pub create_org_invitations :
    (c : Text) (name slug : Option Text) (u v : Uuids) (now : ℕ) (s : Store)
    → (Orgs.create_org c name slug u v now s).1.invitations ≡ s.invitations
unfolding Orgs.create_org check_new_slug fresh_id put_org admit put_grant put_membership
create_org_invitations c name slug u v now s = ground arith

-- The methods on invitations write no organization.
module _ (id : Text) (now : ℕ) (s : Store) where
  pub accept_as_orgs :
      (inv : Invitation) (usr : Text) (u : Uuids) → (accept_as id inv usr u now s).1.orgs ≡ s.orgs
  unfolding accept_as fresh_id admit put_grant put_membership materialize put_invitation
  accept_as_orgs inv usr u = ground arith

  pub accept_invitation_orgs :
      (as_usr identifier : Option Text) (u v : Uuids) (check stamp : ℕ)
      → (Invitations.accept_invitation id as_usr identifier u v check stamp now s).1.orgs ≡ s.orgs
  unfolding Invitations.accept_invitation accepting_user check_binding fresh_id put_invitation
  accept_invitation_orgs none identifier u v check stamp =
      elim (Option-cases (lookup id s.invitations)) [
        | inl missing ↦ ground arith
        | inr (inv, e) ↦ elim (Result-cases (generate u (bytes "usr"))) [
          | inl (usr, g) ↦ ground (arith, accept_as_orgs inv usr v)
          | inr (x, g) ↦ ground arith
        ]
      ]
  accept_invitation_orgs (some usr) identifier u v check stamp =
      elim (Option-cases (lookup id s.invitations)) [
        | inl missing ↦ ground arith
        | inr (inv, e) ↦ ground (arith, accept_as_orgs inv usr v)
      ]

  pub simple_orgs :
      ((admin : Text) → (Invitations.revoke_invitation id admin now s).1.orgs ≡ s.orgs)
      × ((usr : Option Text) → (Invitations.decline_invitation id usr now s).1.orgs ≡ s.orgs)
      × ((stamp : ℕ) → (Invitations.get_invitation id now stamp s).1.orgs ≡ s.orgs)
  unfolding Invitations.revoke_invitation Invitations.decline_invitation Invitations.get_invitation
      put_invitation
  simple_orgs = (λ admin. ground arith, λ usr. ground arith, λ stamp. ground arith)

pub create_invitation_orgs :
    (org i : Text) (r : Role) (by : Text) (e : ℕ) (pts : List PreTuple) (u : Uuids) (now : ℕ)
    (s : Store)
    → (Invitations.create_invitation org i r by e pts u now s).1.orgs ≡ s.orgs
unfolding Invitations.create_invitation fresh_id put_invitation
create_invitation_orgs org i r by e pts u now s = ground arith
