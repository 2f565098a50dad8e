-- ===== src/Tenancy/Owners/Orgs.antt =====
-- The methods on organizations and invitations keep the sole-owner rule.
use flametrench_go.Base.{
  ℕ, ◌≡◌, refl, ap, true, false, Option, none, some, inl, inr, List, arith, Text, bytes, ◌==◌,
  lookup, insert, keys, eq_iff, eq_refl, lookup-insert, Option-cases, Bool-cases, if◌then◌else◌,
}
use flametrench_go.Base.Result.{Result-cases, is_ok}
use flametrench_go.Ids.{Uuids, generate}
use flametrench_go.Tenancy.Types.{
  role_owner, Status, is_revoked, Organization, with_status, UpdateOrgInput,
}
use flametrench_go.Tenancy.Store.{
  Store, put_membership, put_grant, admit, drop_slug, fresh_id, new_membership, owner_weight,
  count_active_owners,
}
use flametrench_go.Tenancy.Orgs.{
  check_new_slug, put_org, new_org, create_org, update_slug, update_org, new_name, revoke_members,
  cascade_revoke, transition_org,
}
use flametrench_go.Tenancy.Cascade.{count-revoke_members, orgs-revoke_members}
use flametrench_go.Tenancy.Owners.Count.{HasOwner, count-admit}
use flametrench_go.Tenancy.Owners.Writes.{IsFresh}

module _ (org : Text) (o : Organization) (s : Store) where
  memberships-put_org : (put_org org o s).memberships ≡ s.memberships
  unfolding put_org
  memberships-put_org = ground arith

  orgs-put_org : (put_org org o s).orgs ≡ insert org o s.orgs
  unfolding put_org
  orgs-put_org = ground arith

  count-put_org : (x : Text) → count_active_owners x (put_org org o s) ≡ count_active_owners x s
  unfolding count_active_owners
  count-put_org x = rw memberships-put_org

module _ (org_id mem_id creator : Text) (o : Organization) (now : ℕ) (s : Store) where
  abbrev founded : Store
  founded =
      admit mem_id (new_membership mem_id creator org_id role_owner none now) (put_org org_id o s)

  founder_weighs :
      (org : Text)
      → owner_weight org (new_membership mem_id creator org_id role_owner none now)
        ≡ (if org_id == org then 1 else 0)
  unfolding owner_weight new_membership
  founder_weighs org = ground (arith, eq_refl role_owner)

  orgs-founded : founded.orgs ≡ insert org_id o s.orgs
  unfolding admit put_grant put_membership
  orgs-founded = orgs-put_org org_id o s

  -- A new organization and its owner membership, written together.
  founded-HasOwner : lookup mem_id s.memberships ≡ none → HasOwner s → HasOwner founded
  founded-HasOwner new h = record {
    owned = λ org x e live. ground (
      arith,
      founder_weighs org,
      count-admit org mem_id (new_membership mem_id creator org_id role_owner none now)
          (put_org org_id o s),
      memberships-put_org org_id o s,
      count-put_org org_id o s org,
      orgs-founded,
      lookup-insert org_id org o s.orgs,
      h.owned org x,
    );
  }

-- CreateOrg keeps the rule, if the id of the owner membership can be minted and is not in use.
pub create_org-HasOwner :
    (creator : Text) (name slug : Option Text) (u_org u_mem : Uuids) (now : ℕ) (s : Store)
    → is_ok (generate u_mem (bytes "mem")) ≡ true
    → IsFresh u_mem s
    → HasOwner s
    → HasOwner (create_org creator name slug u_org u_mem now s).1
unfolding create_org fresh_id check_new_slug
create_org-HasOwner creator name slug u_org u_mem now s minted fresh h =
    elim (Result-cases (generate u_mem (bytes "mem"))) [
      | inl (mem_id, gm) ↦ elim (Result-cases (generate u_org (bytes "org"))) [
        | inl (org_id, go) ↦ elim (Option-cases slug) [
          | inl plain ↦ ground (
            arith,
            founded-HasOwner org_id mem_id creator (new_org org_id name slug now) now s
                (fresh mem_id gm) h,
          )
          | inr (x, given) ↦ ground (
            arith,
            founded-HasOwner org_id mem_id creator (new_org org_id name slug now) now s
                (fresh mem_id gm) h,
          )
        ]
        | inr (x, go) ↦ elim (Option-cases slug) [
          | inl plain ↦ ground arith
          | inr (x, given) ↦ ground arith
        ]
      ]
      | inr (x, gm) ↦ ground arith
    ]

-- The rule reads the organizations and the memberships alone.
pub same-HasOwner :
    (s s' : Store) → s'.orgs ≡ s.orgs → s'.memberships ≡ s.memberships → HasOwner s → HasOwner s'
unfolding count_active_owners
same-HasOwner s s' eo em h = record { owned = λ x y e live. ground (arith, eo, em, h.owned x y) }

-- A write over an organization that is alive.
rewritten-HasOwner :
    (org : Text) (o o' : Organization) (s s' : Store)
    → lookup org s.orgs ≡ some o
    → is_revoked o.status ≡ false
    → s'.orgs ≡ insert org o' s.orgs
    → s'.memberships ≡ s.memberships
    → HasOwner s
    → HasOwner s'
unfolding count_active_owners
rewritten-HasOwner org o o' s s' found alive eo em h = record {
  owned = λ x y e live. ground (
    arith,
    eo,
    em,
    eq_iff org x,
    lookup-insert org x o' s.orgs,
    h.owned x y,
    h.owned org o found alive,
  );
}

module _ (org : Text) (input : UpdateOrgInput) (old : Option Text) (s : Store) where
  pub update_slug_frame :
      ((update_slug org input old s).1.orgs ≡ s.orgs)
      × ((update_slug org input old s).1.memberships ≡ s.memberships)
  unfolding update_slug
  update_slug_frame = (ground arith, ground arith)

unfoldable pub updated : UpdateOrgInput → ℕ → Organization → Option Text → Organization
updated input now o slug = record o { name = new_name input o.name; slug = slug; updated_at = now }

-- UpdateOrg keeps the rule.
pub update_org-HasOwner :
    (org : Text) (input : UpdateOrgInput) (now : ℕ) (s : Store)
    → HasOwner s
    → HasOwner (update_org org input now s).1
unfolding update_org updated
update_org-HasOwner org input now s h = elim (Option-cases (lookup org s.orgs)) [
  | inl missing ↦ ground arith
  | inr (o, e) ↦ elim (Bool-cases (is_revoked o.status)) [
    | inl dead ↦ ground arith
    | inr alive ↦
        let (r, s') = update_slug org input o.slug s in
        let frame = update_slug_frame org input o.slug s in
        elim (Result-cases (update_slug org input o.slug s).0) [
          | inl (slug, er) ↦ ground (
            arith,
            rewritten-HasOwner org o (updated input now o slug) s
                (record s' { orgs = insert org (updated input now o slug) s'.orgs }) e alive
                (ap (insert org (updated input now o slug)) frame.0) frame.1 h,
          )
          | inr (x, er) ↦ ground (arith, same-HasOwner s s' frame.0 frame.1 h)
        ]
  ]
]

pub drop_slug_frame :
    (slug : Option Text) (s : Store)
    → ((drop_slug slug s).orgs ≡ s.orgs) × ((drop_slug slug s).memberships ≡ s.memberships)
drop_slug_frame none s = (refl, refl)
drop_slug_frame (some x) s = (refl, refl)

revoke_members-HasOwner :
    (org : Text) (o' : Organization) (at : Text → ℕ) (mids : List Text) (s : Store)
    → is_revoked o'.status ≡ true
    → HasOwner s
    → HasOwner (revoke_members org at mids (record s { orgs = insert org o' s.orgs }))
unfolding count_active_owners
revoke_members-HasOwner org o' at mids s dead h = record {
  owned = λ x y e live.
      let s' : Store = record s { orgs = insert org o' s.orgs } in
      ground (
        arith,
        eq_iff org x,
        lookup-insert org x o' s.orgs,
        orgs-revoke_members org at mids s',
        count-revoke_members org x at mids s',
        h.owned x y,
      );
}

-- The cascade spares the owners of every other organization.
cascade-HasOwner :
    (org : Text) (o o' : Organization) (now : ℕ) (at : Text → ℕ) (s : Store)
    → is_revoked o'.status ≡ true
    → HasOwner s
    → HasOwner (cascade_revoke o' org at (record s { orgs = insert org o' s.orgs }))
unfolding cascade_revoke
cascade-HasOwner org o o' now at s dead h =
    let s' : Store = record s { orgs = insert org o' s.orgs } in
    let after = revoke_members org at (keys s.memberships) s' in
    let frame = drop_slug_frame o'.slug after in
    same-HasOwner after (drop_slug o'.slug after) frame.0 frame.1
      (revoke_members-HasOwner org o' at (keys s.memberships) s dead h)

-- SuspendOrg, ReinstateOrg and RevokeOrg keep the rule.
pub transition_org-HasOwner :
    (org : Text) (to : Status) (now : ℕ) (at : Text → ℕ) (s : Store)
    → HasOwner s
    → HasOwner (transition_org org to now at s).1
unfolding transition_org with_status
transition_org-HasOwner org to now at s h = elim (Option-cases (lookup org s.orgs)) [
  | inl missing ↦ ground arith
  | inr (o, e) ↦
      let o' : Organization = record o { status = to; updated_at = now } in
      ground (
        arith,
        rewritten-HasOwner org o o' s (record s { orgs = insert org o' s.orgs }) e,
        cascade-HasOwner org o o' now at s,
      )
]
