-- ===== src/Tenancy/Lifecycle/Closed.antt =====
-- packages/tenancy/inmem.go: an invitation that is no longer pending, under the methods that write invitations.
use flametrench_go.Base.{
  ℕ, ◌≡◌, true, false, Option, none, some, inl, inr, List, arith, Text, bytes, lookup, eq_iff,
  lookup-insert, Option-cases,
}
use flametrench_go.Base.Result.{ok, Result-cases}
use flametrench_go.Ids.{Uuids, generate}
use flametrench_go.Tenancy.Types.{Role, PreTuple, Invitation, is_pending}
use flametrench_go.Tenancy.Store.{Store, fresh_id, put_membership, put_grant, admit}
use flametrench_go.Tenancy.Invitations
use flametrench_go.Tenancy.Invitations.{
  put_invitation, expire, accepted_by, declined_by, revoked_by, new_invitation, accepting_user,
  check_binding, accept_as, materialize,
}

-- An invitation that is no longer pending, and what may be written over it.
module _ (id : Text) (inv : Invitation) (over : is_pending inv.status ≡ false) where
  pub written_elsewhere :
      (x : Text) (old new : Invitation) (s : Store)
      → lookup x s.invitations ≡ some old
      → is_pending old.status ≡ true
      → lookup id s.invitations ≡ some inv
      → lookup id (put_invitation x new s).invitations ≡ some inv
  unfolding put_invitation
  written_elsewhere x old new s ex open_ e =
      ground (arith, eq_iff x id, lookup-insert x id new s.invitations)

  pub accept_as_keeps :
      (x : Text) (old : Invitation) (usr : Text) (u : Uuids) (now : ℕ) (s : Store)
      → lookup x s.invitations ≡ some old
      → is_pending old.status ≡ true
      → lookup id s.invitations ≡ some inv
      → lookup id (accept_as x old usr u now s).1.invitations ≡ some inv
  unfolding accept_as fresh_id admit put_grant put_membership materialize put_invitation
  accept_as_keeps x old usr u now s ex open_ e =
      ground (arith, eq_iff x id, lookup-insert x id (accepted_by old usr now) s.invitations)

  pub accept_keeps :
      (x : Text) (as_usr identifier : Option Text) (u v : Uuids) (check stamp now : ℕ) (s : Store)
      → lookup id s.invitations ≡ some inv
      → lookup id
          (Invitations.accept_invitation x as_usr identifier u v check stamp now s).1.invitations
        ≡ some inv
  unfolding Invitations.accept_invitation accepting_user check_binding fresh_id
  accept_keeps x none identifier u v check stamp now s e =
      elim (Option-cases (lookup x s.invitations)) [
        | inl missing ↦ ground arith
        | inr (old, ex) ↦ elim (Result-cases (generate u (bytes "usr"))) [
          | inl (usr, g) ↦ ground (
            arith,
            written_elsewhere x old (expire old stamp) s ex,
            accept_as_keeps x old usr v now s ex,
          )
          | inr (y, g) ↦ ground (arith, written_elsewhere x old (expire old stamp) s ex)
        ]
      ]
  accept_keeps x (some usr) identifier u v check stamp now s e =
      elim (Option-cases (lookup x s.invitations)) [
        | inl missing ↦ ground arith
        | inr (old, ex) ↦ ground (
          arith,
          written_elsewhere x old (expire old stamp) s ex,
          accept_as_keeps x old usr v now s ex,
        )
      ]

  pub decline_keeps :
      (x : Text) (usr : Option Text) (now : ℕ) (s : Store)
      → lookup id s.invitations ≡ some inv
      → lookup id (Invitations.decline_invitation x usr now s).1.invitations ≡ some inv
  unfolding Invitations.decline_invitation
  decline_keeps x usr now s e = elim (Option-cases (lookup x s.invitations)) [
    | inl missing ↦ ground arith
    | inr (old, ex) ↦ ground (arith, written_elsewhere x old (declined_by old usr now) s ex)
  ]

  pub revoke_keeps :
      (x admin : Text) (now : ℕ) (s : Store)
      → lookup id s.invitations ≡ some inv
      → lookup id (Invitations.revoke_invitation x admin now s).1.invitations ≡ some inv
  unfolding Invitations.revoke_invitation
  revoke_keeps x admin now s e = elim (Option-cases (lookup x s.invitations)) [
    | inl missing ↦ ground arith
    | inr (old, ex) ↦ ground (arith, written_elsewhere x old (revoked_by old admin now) s ex)
  ]

  pub get_keeps :
      (x : Text) (now stamp : ℕ) (s : Store)
      → lookup id s.invitations ≡ some inv
      → lookup id (Invitations.get_invitation x now stamp s).1.invitations ≡ some inv
  unfolding Invitations.get_invitation
  get_keeps x now stamp s e = elim (Option-cases (lookup x s.invitations)) [
    | inl missing ↦ ground arith
    | inr (old, ex) ↦ ground (arith, written_elsewhere x old (expire old stamp) s ex)
  ]

  pub create_keeps :
      (org i : Text) (r : Role) (by : Text) (t : ℕ) (pts : List PreTuple) (u : Uuids) (now : ℕ)
      (s : Store)
      → ((x : Text) → generate u (bytes "inv") ≡ ok x → lookup x s.invitations ≡ none)
      → lookup id s.invitations ≡ some inv
      → lookup id (Invitations.create_invitation org i r by t pts u now s).1.invitations ≡ some inv
  unfolding Invitations.create_invitation fresh_id put_invitation
  create_keeps org i r by t pts u now s new e = elim (Result-cases (generate u (bytes "inv"))) [
    | inl (x, g) ↦ ground (
      arith,
      new x g,
      eq_iff x id,
      lookup-insert x id (new_invitation x org i r by t pts now) s.invitations,
    )
    | inr (x, g) ↦ ground arith
  ]
