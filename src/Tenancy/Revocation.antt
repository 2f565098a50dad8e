-- ===== src/Tenancy/Revocation.antt =====
-- RevokeOrg: the store that it leaves behind.
use flametrench_go.Base.{
  ℕ, ◌≡◌, refl, false, Option, none, some, inl, inr, List, [], ◌∷◌, arith, Text, lookup, insert,
  keys, lookup-remove, Option-cases, lookup-insert_self,
}
use flametrench_go.Base.Result.{ok}
use flametrench_go.Tenancy.Types.{revoked, is_revoked, Organization, with_status}
use flametrench_go.Tenancy.Store.{Store, org_usr_key, put_membership, drop_grant, drop_slug}
use flametrench_go.Tenancy.Orgs.{
  revoke_member, revoke_members, cascade_revoke, transition_org, revoke_org,
}
use flametrench_go.Tenancy.Cascade.{closed_by, map_option, lookup-cascade, orgs-revoke_members}

drop_slug_keeps :
    (slug : Option Text) (s : Store)
    → ((drop_slug slug s).orgs ≡ s.orgs)
      × ((drop_slug slug s).memberships ≡ s.memberships)
      × ((drop_slug slug s).active_mem ≡ s.active_mem)
drop_slug_keeps none s = (refl, refl, refl)
drop_slug_keeps (some x) s = (refl, refl, refl)

revoke_member_only_removes :
    (org mid k : Text) (at : ℕ) (s : Store)
    → lookup k s.active_mem ≡ none
    → lookup k (revoke_member org mid at s).active_mem ≡ none
unfolding revoke_member drop_grant put_membership
revoke_member_only_removes org mid k at s h = elim (Option-cases (lookup mid s.memberships)) [
  | inl missing ↦ ground arith
  | inr (m, e) ↦ ground (arith, lookup-remove (org_usr_key org m.usr_id) k s.active_mem)
]

revoke_members_only_remove :
    (org k : Text) (at : Text → ℕ) (mids : List Text) (s : Store)
    → lookup k s.active_mem ≡ none
    → lookup k (revoke_members org at mids s).active_mem ≡ none
unfolding revoke_members
revoke_members_only_remove org k at [] s h = h
revoke_members_only_remove org k at (mid ∷ mids) s h =
    revoke_members_only_remove org k at mids (revoke_member org mid (at mid) s)
      (revoke_member_only_removes org mid k (at mid) s h)

-- The store that RevokeOrg leaves behind.
module _ (org : Text) (o : Organization) (now : ℕ) (at : Text → ℕ) (s : Store) where
  abbrev pub revoked_store : Store
  revoked_store =
      cascade_revoke (with_status o revoked now) org at
        (record s { orgs = insert org (with_status o revoked now) s.orgs })

  pub revoke_org_result :
      lookup org s.orgs ≡ some o
      → is_revoked o.status ≡ false
      → revoke_org org now at s ≡ (ok (with_status o revoked now), revoked_store)
  unfolding revoke_org transition_org
  revoke_org_result e alive = ground arith

  pub lookup-revoked_store :
      (i : Text)
      → lookup i revoked_store.memberships
        ≡ map_option (closed_by org (at i)) (lookup i s.memberships)
  unfolding cascade_revoke
  lookup-revoked_store i =
      let s' : Store = record s { orgs = insert org (with_status o revoked now) s.orgs } in
      let mids = keys s.memberships in
      rw ((drop_slug_keeps (with_status o revoked now).slug (revoke_members org at mids s')).1)
        (lookup-cascade org at i s')

  pub orgs-revoked_store : lookup org revoked_store.orgs ≡ some (with_status o revoked now)
  unfolding cascade_revoke
  orgs-revoked_store =
      let s' : Store = record s { orgs = insert org (with_status o revoked now) s.orgs } in
      let mids = keys s.memberships in
      rw
        (
          (drop_slug_keeps (with_status o revoked now).slug (revoke_members org at mids s')).0,
          orgs-revoke_members org at mids s',
        )
        (lookup-insert_self org (with_status o revoked now) s.orgs)

  pub free-revoked_store :
      (k : Text) → lookup k s.active_mem ≡ none → lookup k revoked_store.active_mem ≡ none
  unfolding cascade_revoke
  free-revoked_store k h =
      let s' : Store = record s { orgs = insert org (with_status o revoked now) s.orgs } in
      let mids = keys s.memberships in
      rw ((drop_slug_keeps (with_status o revoked now).slug (revoke_members org at mids s')).2)
        (revoke_members_only_remove org k at mids s' h)

-- What RevokeOrg does to one membership: an active one of the organization is revoked at its turn's
-- time, and any other is left as it is.
pub revoke_org_effect :
    (org : Text) (o : Organization) (now : ℕ) (at : Text → ℕ) (s : Store)
    → lookup org s.orgs ≡ some o
    → is_revoked o.status ≡ false
    → let (r, s') = revoke_org org now at s in
      (r ≡ ok (with_status o revoked now))
      × (lookup org s'.orgs ≡ some (with_status o revoked now))
      × ((i : Text)
          → lookup i s'.memberships ≡ map_option (closed_by org (at i)) (lookup i s.memberships))
revoke_org_effect org o now at s e alive =
    rw (revoke_org_result org o now at s e alive)
      (refl, orgs-revoked_store org o now at s, lookup-revoked_store org o now at s)
