-- ===== src/Tenancy/Lifecycle/Revoked.antt =====
-- packages/tenancy/inmem.go: an organization that is revoked, under the methods that write organizations.
use flametrench_go.Base.{
  ℕ, ◌≡◌, true, Option, none, some, inl, inr, arith, Text, bytes, lookup, insert, keys, eq_iff,
  lookup-insert, Option-cases, Bool-cases,
}
use flametrench_go.Base.Result.{ok, Result-cases}
use flametrench_go.Ids.{Uuids, generate}
use flametrench_go.Tenancy.Types.{Status, is_revoked, Organization, with_status, UpdateOrgInput}
use flametrench_go.Tenancy.Store.{Store, fresh_id, put_membership, put_grant, admit}
use flametrench_go.Tenancy.Orgs
use flametrench_go.Tenancy.Orgs.{
  check_new_slug, put_org, update_slug, revoke_member, revoke_members, cascade_revoke,
}
use flametrench_go.Tenancy.Cascade.{orgs-revoke_members}
use flametrench_go.Tenancy.Owners.Orgs.{drop_slug_frame, updated, update_slug_frame}

-- An organization that is revoked, and what may be written over it.
module _ (org : Text) (o : Organization) (dead : is_revoked o.status ≡ true) where
  pub create_org_keeps :
      (c : Text) (name slug : Option Text) (u v : Uuids) (now : ℕ) (s : Store)
      → ((x : Text) → generate u (bytes "org") ≡ ok x → lookup x s.orgs ≡ none)
      → lookup org s.orgs ≡ some o
      → lookup org (Orgs.create_org c name slug u v now s).1.orgs ≡ some o
  unfolding Orgs.create_org check_new_slug fresh_id put_org admit put_grant put_membership
  create_org_keeps c name slug u v now s new e = elim (Result-cases (generate u (bytes "org"))) [
    | inl (x, g) ↦
        ground
          (arith, new x g, eq_iff x org, lookup-insert x org (Orgs.new_org x name slug now) s.orgs)
    | inr (x, g) ↦ ground arith
  ]

  pub update_org_keeps :
      (x : Text) (input : UpdateOrgInput) (now : ℕ) (s : Store)
      → lookup org s.orgs ≡ some o
      → lookup org (Orgs.update_org x input now s).1.orgs ≡ some o
  unfolding Orgs.update_org updated
  update_org_keeps x input now s e = elim (Option-cases (lookup x s.orgs)) [
    | inl missing ↦ ground arith
    | inr (y, ey) ↦ elim (Bool-cases (is_revoked y.status)) [
      | inl stop ↦ ground arith
      | inr alive ↦
          let (r, s') = update_slug x input y.slug s in
          let frame = update_slug_frame x input y.slug s in
          elim (Result-cases (update_slug x input y.slug s).0) [
            | inl (slug, er) ↦ ground (
              arith,
              frame.0,
              eq_iff x org,
              lookup-insert x org (updated input now y slug) s'.orgs,
            )
            | inr (z, er) ↦ ground (arith, frame.0)
          ]
    ]
  ]

  pub transition_org_keeps :
      (x : Text) (to : Status) (now : ℕ) (at : Text → ℕ) (s : Store)
      → lookup org s.orgs ≡ some o
      → lookup org (Orgs.transition_org x to now at s).1.orgs ≡ some o
  unfolding Orgs.transition_org cascade_revoke
  transition_org_keeps x to now at s e = elim (Option-cases (lookup x s.orgs)) [
    | inl missing ↦ ground arith
    | inr (y, ey) ↦
        let y' = with_status y to now in
        let s' : Store = record s { orgs = insert x y' s.orgs } in
        ground (
          arith,
          eq_iff x org,
          lookup-insert x org y' s.orgs,
          orgs-revoke_members x at (keys s.memberships) s',
          (drop_slug_frame y'.slug (revoke_members x at (keys s.memberships) s')).0,
        )
  ]
