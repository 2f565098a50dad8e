-- ===== src/Tenancy/Owners/Invitations.antt =====
-- The methods on invitations keep the sole-owner rule and the index invariant.
use flametrench_go.Base.{
  ℕ, ◌≡◌, true, Option, none, some, inl, inr, List, arith, Text, bytes, lookup, Option-cases,
}
use flametrench_go.Base.Result.{Result-cases}
use flametrench_go.Ids.{Uuids, generate}
use flametrench_go.Tenancy.Types.{Role, PreTuple, Invitation}
use flametrench_go.Tenancy.Store.{
  Store, org_usr_key, admit, fresh_id, new_membership, count_active_owners,
}
use flametrench_go.Tenancy.Invitations.{
  put_invitation, expire, new_invitation, accepted_by, declined_by, revoked_by, create_invitation,
  get_invitation, check_binding, accepting_user, materialize, accept_as, accept_invitation,
  decline_invitation, revoke_invitation,
}
use flametrench_go.Tenancy.Owners.Count.{HasOwner}
use flametrench_go.Tenancy.Owners.Writes.{IsFresh, admit-HasOwner}
use flametrench_go.Base.Keys.{no_bar}
use flametrench_go.Tenancy.Index.Writes.{IsIndexed}
use flametrench_go.Tenancy.Index.Methods.{admit_built-IsIndexed}

-- Both invariants of the store.
pub record IsSound (s : Store) : Type 0 where
  pub has_owner : HasOwner s
  pub is_indexed : IsIndexed s

module _ (id : Text) (inv : Invitation) (s : Store) where
  put_invitation-IsSound : IsSound s → IsSound (put_invitation id inv s)
  unfolding put_invitation count_active_owners
  put_invitation-IsSound h = record {
    has_owner = record { owned = h.has_owner.owned };
    is_indexed = record {
      forward = h.is_indexed.forward;
      backward = h.is_indexed.backward;
      clean = h.is_indexed.clean;
    };
  }

materialize-IsSound :
    (usr : Text) (pts : List PreTuple) (s : Store) → IsSound s → IsSound (materialize usr pts s)
unfolding materialize count_active_owners
materialize-IsSound usr pts s h = record {
  has_owner = record { owned = h.has_owner.owned };
  is_indexed = record {
    forward = h.is_indexed.forward;
    backward = h.is_indexed.backward;
    clean = h.is_indexed.clean;
  };
}

pub admit_built-IsSound :
    (id org usr : Text) (role : Role) (by : Option Text) (now : ℕ) (s : Store)
    → no_bar org ≡ true
    → lookup (org_usr_key org usr) s.active_mem ≡ none
    → lookup id s.memberships ≡ none
    → IsSound s
    → IsSound (admit id (new_membership id usr org role by now) s)
admit_built-IsSound id org usr role by now s clean free new h = record {
  has_owner = admit-HasOwner id (new_membership id usr org role by now) s new h.has_owner;
  is_indexed = admit_built-IsIndexed id org usr role by now s clean free new h.is_indexed;
}

-- CreateInvitation keeps both invariants.
pub create_invitation-IsSound :
    (org identifier : Text) (role : Role) (by : Text) (expires : ℕ) (pts : List PreTuple)
    (u : Uuids) (now : ℕ) (s : Store)
    → IsSound s
    → IsSound (create_invitation org identifier role by expires pts u now s).1
unfolding create_invitation fresh_id
create_invitation-IsSound org identifier role by expires pts u now s h =
    elim (Result-cases (generate u (bytes "inv"))) [
      | inl (id, g) ↦ ground (
        arith,
        put_invitation-IsSound id (new_invitation id org identifier role by expires pts now) s h,
      )
      | inr (x, g) ↦ ground arith
    ]

-- GetInvitation, which may expire what it reads, keeps both invariants.
pub get_invitation-IsSound :
    (id : Text) (now stamp : ℕ) (s : Store) → IsSound s → IsSound (get_invitation id now stamp s).1
unfolding get_invitation
get_invitation-IsSound id now stamp s h = elim (Option-cases (lookup id s.invitations)) [
  | inl missing ↦ ground arith
  | inr (inv, e) ↦ ground (arith, put_invitation-IsSound id (expire inv stamp) s h)
]

-- DeclineInvitation keeps both invariants.
pub decline_invitation-IsSound :
    (id : Text) (usr : Option Text) (now : ℕ) (s : Store)
    → IsSound s
    → IsSound (decline_invitation id usr now s).1
unfolding decline_invitation
decline_invitation-IsSound id usr now s h = elim (Option-cases (lookup id s.invitations)) [
  | inl missing ↦ ground arith
  | inr (inv, e) ↦ ground (arith, put_invitation-IsSound id (declined_by inv usr now) s h)
]

-- RevokeInvitation keeps both invariants.
pub revoke_invitation-IsSound :
    (id admin : Text) (now : ℕ) (s : Store)
    → IsSound s
    → IsSound (revoke_invitation id admin now s).1
unfolding revoke_invitation
revoke_invitation-IsSound id admin now s h = elim (Option-cases (lookup id s.invitations)) [
  | inl missing ↦ ground arith
  | inr (inv, e) ↦ ground (arith, put_invitation-IsSound id (revoked_by inv admin now) s h)
]

-- The writes of an acceptance that passes every check.
accept_writes-IsSound :
    (id mem_id usr : Text) (inv : Invitation) (now : ℕ) (s : Store)
    → no_bar inv.org_id ≡ true
    → lookup (org_usr_key inv.org_id usr) s.active_mem ≡ none
    → lookup mem_id s.memberships ≡ none
    → IsSound s
    → IsSound (
        put_invitation id (accepted_by inv usr now) (
          materialize usr inv.pre_tuples (
            admit mem_id
              (new_membership mem_id usr inv.org_id inv.role (some inv.invited_by) now)
              s)))
accept_writes-IsSound id mem_id usr inv now s clean free new h =
    let admitted =
      admit mem_id (new_membership mem_id usr inv.org_id inv.role (some inv.invited_by) now) s in
    put_invitation-IsSound id (accepted_by inv usr now) (materialize usr inv.pre_tuples admitted) (
      materialize-IsSound usr inv.pre_tuples admitted (
        admit_built-IsSound mem_id inv.org_id usr inv.role (some inv.invited_by) now s clean free
          new h))

accept_as-IsSound :
    (id : Text) (inv : Invitation) (usr : Text) (u_mem : Uuids) (now : ℕ) (s : Store)
    → no_bar inv.org_id ≡ true
    → IsFresh u_mem s
    → IsSound s
    → IsSound (accept_as id inv usr u_mem now s).1
unfolding accept_as fresh_id
accept_as-IsSound id inv usr u_mem now s clean fresh h =
    elim (Result-cases (generate u_mem (bytes "mem"))) [
      | inl (mem_id, g) ↦ elim (Option-cases (lookup (org_usr_key inv.org_id usr) s.active_mem)) [
        | inl free ↦
            ground
              (arith, accept_writes-IsSound id mem_id usr inv now s clean free (fresh mem_id g) h)
        | inr (i, taken) ↦ ground arith
      ]
      | inr (x, g) ↦ ground arith
    ]

-- AcceptInvitation keeps both invariants, if the invitation's organization id holds no separator and
-- the id that is minted is not in use.
pub accept_invitation-IsSound :
    (id : Text) (as_usr identifier : Option Text) (u_usr u_mem : Uuids) (now_check stamp now : ℕ)
    (s : Store)
    → ((inv : Invitation) → lookup id s.invitations ≡ some inv → no_bar inv.org_id ≡ true)
    → IsFresh u_mem s
    → IsSound s
    → IsSound (accept_invitation id as_usr identifier u_usr u_mem now_check stamp now s).1
unfolding accept_invitation fresh_id accepting_user check_binding
accept_invitation-IsSound id none identifier u_usr u_mem now_check stamp now s clean fresh h =
    elim (Option-cases (lookup id s.invitations)) [
      | inl missing ↦ ground arith
      | inr (inv, e) ↦ elim (Result-cases (generate u_usr (bytes "usr"))) [
        | inl (usr, g) ↦ ground (
          arith,
          put_invitation-IsSound id (expire inv stamp) s h,
          accept_as-IsSound id inv usr u_mem now s (clean inv e) fresh h,
        )
        | inr (x, g) ↦ ground (arith, put_invitation-IsSound id (expire inv stamp) s h)
      ]
    ]
accept_invitation-IsSound id (some usr) identifier u_usr u_mem now_check stamp now s clean fresh h =
    elim (Option-cases (lookup id s.invitations)) [
      | inl missing ↦ ground arith
      | inr (inv, e) ↦ ground (
        arith,
        put_invitation-IsSound id (expire inv stamp) s h,
        accept_as-IsSound id inv usr u_mem now s (clean inv e) fresh h,
      )
    ]
