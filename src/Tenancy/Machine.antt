-- ===== src/Tenancy/Machine.antt =====
-- The store under any sequence of calls. The lock makes each call one step, so a history of the
-- store, however its callers interleave, is a sequence of these steps.
use flametrench_go.Base.{
  ℕ, ◌≡◌, ◌≢◌, ◌<◌, true, false, Option, none, some, List, Text, bytes, lookup,
}
use flametrench_go.Base.Result.{ok, is_ok}
use flametrench_go.Ids.{Uuids, generate}
use flametrench_go.Tenancy.Types.{
  Role, Status, is_active, is_revoked, Organization, Membership, UpdateOrgInput, PreTuple,
  Invitation,
}
use flametrench_go.Tenancy.Store.{Store, empty, org_usr_key, count_active_owners}
use flametrench_go.Tenancy.Orgs
use flametrench_go.Tenancy.Members
use flametrench_go.Tenancy.Invitations
use flametrench_go.Tenancy.Transfers.Swap.{new_id}
use flametrench_go.Tenancy.Transfers.Leave.{self_leave-HasOwner, self_leave-IsIndexed}
use flametrench_go.Tenancy.Transfers.Ownership.{
  transfer_ownership-HasOwner, transfer_ownership-IsIndexed,
}
use flametrench_go.Tenancy.Owners.Count.{HasOwner}
use flametrench_go.Tenancy.Owners.Writes.{IsFresh}
use flametrench_go.Tenancy.Owners.Members.{
  add_member-HasOwner, admin_remove-HasOwner, change_role-HasOwner, transition_membership-HasOwner,
}
use flametrench_go.Tenancy.Owners.Orgs.{
  create_org-HasOwner, update_org-HasOwner, transition_org-HasOwner,
}
use flametrench_go.Tenancy.Owners.Invitations.{
  IsSound, create_invitation-IsSound, get_invitation-IsSound, accept_invitation-IsSound,
  decline_invitation-IsSound, revoke_invitation-IsSound,
}
use flametrench_go.Tenancy.Index.Writes.{IsIndexed}
use flametrench_go.Base.Keys.{no_bar}
use flametrench_go.Tenancy.Index.Methods.{
  add_member-IsIndexed, admin_remove-IsIndexed, change_role-IsIndexed,
  transition_membership-IsIndexed,
}
use flametrench_go.Tenancy.Index.Orgs.{
  create_org-IsIndexed, update_org-IsIndexed, transition_org-IsIndexed,
}

-- One call that may write, with what the environment grants it: minted ids that are not in use,
-- organization ids without the separator, and a suspension only of a membership that is active.
pub data Step : Store → Store → Type 0 where
  create_org :
      (creator : Text) (name slug : Option Text) (u_org u_mem : Uuids) (now : ℕ) (s : Store)
      → is_ok (generate u_mem (bytes "mem")) ≡ true
      → ((org : Text)
          → generate u_org (bytes "org") ≡ ok org
          → (no_bar org ≡ true) × (lookup (org_usr_key org creator) s.active_mem ≡ none))
      → ((org : Text) → generate u_org (bytes "org") ≡ ok org → lookup org s.orgs ≡ none)
      → IsFresh u_mem s
      → Step s (Orgs.create_org creator name slug u_org u_mem now s).1
  update_org :
      (org : Text) (input : UpdateOrgInput) (now : ℕ) (s : Store)
      → Step s (Orgs.update_org org input now s).1
  transition_org :
      (org : Text) (to : Status) (now : ℕ) (at : Text → ℕ) (s : Store)
      → Step s (Orgs.transition_org org to now at s).1
  add_member :
      (org usr : Text) (role : Role) (by : Option Text) (u : Uuids) (now : ℕ) (s : Store)
      → no_bar org ≡ true
      → IsFresh u s
      → Step s (Members.add_member org usr role by u now s).1
  change_role :
      (mem : Text) (role : Role) (u : Uuids) (now : ℕ) (s : Store)
      → IsFresh u s
      → Step s (Members.change_role mem role u now s).1
  transition_membership :
      (mem : Text) (to : Status) (by : Option Text) (now : ℕ) (s : Store)
      → ((m : Membership)
          → lookup mem s.memberships ≡ some m
          → is_active to ≡ false
          → is_active m.status ≡ true)
      → Step s (Members.transition_membership mem to by now s).1
  self_leave :
      (mem : Text) (to : Option Text) (u : Uuids) (now later : ℕ) (s : Store)
      → lookup (new_id u) s.memberships ≡ none
      → Step s (Members.self_leave mem to u now later s).1
  admin_remove :
      (mem admin : Text) (now : ℕ) (s : Store) → Step s (Members.admin_remove mem admin now s).1
  transfer_ownership :
      (org from_mem to_mem : Text) (u_to u_from : Uuids) (now later : ℕ) (s : Store)
      → lookup (new_id u_to) s.memberships ≡ none
      → lookup (new_id u_from) s.memberships ≡ none
      → new_id u_to ≢ new_id u_from
      → Step s (Members.transfer_ownership org from_mem to_mem u_to u_from now later s).1
  create_invitation :
      (org identifier : Text) (role : Role) (by : Text) (expires : ℕ) (pts : List PreTuple)
      (u : Uuids) (now : ℕ) (s : Store)
      → ((id : Text) → generate u (bytes "inv") ≡ ok id → lookup id s.invitations ≡ none)
      → Step s (Invitations.create_invitation org identifier role by expires pts u now s).1
  get_invitation :
      (id : Text) (now stamp : ℕ) (s : Store) → Step s (Invitations.get_invitation id now stamp s).1
  accept_invitation :
      (id : Text) (as_usr identifier : Option Text) (u_usr u_mem : Uuids) (now_check stamp now : ℕ)
      (s : Store)
      → ((inv : Invitation) → lookup id s.invitations ≡ some inv → no_bar inv.org_id ≡ true)
      → IsFresh u_mem s
      → Step s
          (Invitations.accept_invitation id as_usr identifier u_usr u_mem now_check stamp now s).1
  decline_invitation :
      (id : Text) (usr : Option Text) (now : ℕ) (s : Store)
      → Step s (Invitations.decline_invitation id usr now s).1
  revoke_invitation :
      (id admin : Text) (now : ℕ) (s : Store)
      → Step s (Invitations.revoke_invitation id admin now s).1

pub data Reach (s : Store) : Store → Type 0 where
  here : Reach s s
  next : {t u : Store} → Reach s t → Step t u → Reach s u

both : {s : Store} → HasOwner s → IsIndexed s → IsSound s
both o i = record { has_owner = o; is_indexed = i }

pub Step-IsSound : {s t : Store} → Step s t → IsSound s → IsSound t
Step-IsSound (create_org c n sl uo um now s minted unused new fresh) h =
    both (create_org-HasOwner c n sl uo um now s minted fresh h.has_owner)
      (create_org-IsIndexed c n sl uo um now s unused fresh h.is_indexed)
Step-IsSound (update_org org i now s) h =
    both (update_org-HasOwner org i now s h.has_owner)
      (update_org-IsIndexed org i now s h.is_indexed)
Step-IsSound (transition_org org to now at s) h =
    both (transition_org-HasOwner org to now at s h.has_owner)
      (transition_org-IsIndexed org to now at s h.is_indexed)
Step-IsSound (add_member org usr r by u now s clean fresh) h =
    both (add_member-HasOwner org usr r by u now s fresh h.has_owner)
      (add_member-IsIndexed org usr r by u now s clean fresh h.is_indexed)
Step-IsSound (change_role mem r u now s fresh) h =
    both (change_role-HasOwner mem r u now s fresh h.has_owner)
      (change_role-IsIndexed mem r u now s fresh h.is_indexed)
Step-IsSound (transition_membership mem to by now s first) h =
    both (transition_membership-HasOwner mem to by now s h.has_owner)
      (transition_membership-IsIndexed mem to by now s first h.is_indexed)
Step-IsSound (self_leave mem to u now later s new) h =
    both (self_leave-HasOwner mem to u now later s new h.is_indexed h.has_owner)
      (self_leave-IsIndexed mem to u now later s new h.is_indexed)
Step-IsSound (admin_remove mem a now s) h =
    both (admin_remove-HasOwner mem a now s h.has_owner)
      (admin_remove-IsIndexed mem a now s h.is_indexed)
Step-IsSound (transfer_ownership org f t ut uf now later s nt nf d) h =
    both (transfer_ownership-HasOwner org f t ut uf now later s nt nf d h.has_owner)
      (transfer_ownership-IsIndexed org f t ut uf now later s nt nf d h.is_indexed)
Step-IsSound (create_invitation org i r by e pts u now s new) h =
    create_invitation-IsSound org i r by e pts u now s h
Step-IsSound (get_invitation id now st s) h = get_invitation-IsSound id now st s h
Step-IsSound (accept_invitation id au i uu um nc st now s clean fresh) h =
    accept_invitation-IsSound id au i uu um nc st now s clean fresh h
Step-IsSound (decline_invitation id usr now s) h = decline_invitation-IsSound id usr now s h
Step-IsSound (revoke_invitation id a now s) h = revoke_invitation-IsSound id a now s h

pub Reach-IsSound : {s t : Store} → IsSound s → Reach s t → IsSound t
Reach-IsSound h here = h
Reach-IsSound h (next r st) = Step-IsSound st (Reach-IsSound h r)

pub IsSound-empty : IsSound empty
unfolding lookup
IsSound-empty =
    both (record { owned = λ org o e live. cc })
      (record { forward = λ i m e live. cc; backward = λ k i e. absurd (cc); clean = λ i m e. cc })

-- From the empty store, after any calls that Step lists, under its assumptions on the minted ids and
-- on suspensions: every organization that is stored and not revoked has an active owner.
pub always_owned :
    (s : Store) (org : Text) (o : Organization)
    → Reach empty s
    → lookup org s.orgs ≡ some o
    → is_revoked o.status ≡ false
    → 0 < count_active_owners org s
always_owned s org o r = (Reach-IsSound IsSound-empty r).has_owner.owned org o

-- From the empty store, after any calls that Step lists, under its assumptions on the minted ids and
-- on suspensions: two active memberships of one user in one organization are
-- one and the same, and the index names it.
pub one_active_membership :
    (s : Store) (i j : Text) (m n : Membership)
    → Reach empty s
    → lookup i s.memberships ≡ some m
    → lookup j s.memberships ≡ some n
    → is_active m.status ≡ true
    → is_active n.status ≡ true
    → m.org_id ≡ n.org_id
    → m.usr_id ≡ n.usr_id
    → (i ≡ j) × (lookup (org_usr_key m.org_id m.usr_id) s.active_mem ≡ some i)
one_active_membership s i j m n r ei ej am an eo eu =
    let ix = (Reach-IsSound IsSound-empty r).is_indexed in
    (cc (ix.forward i m ei am, ix.forward j n ej an), ix.forward i m ei am)
