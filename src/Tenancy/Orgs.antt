-- ===== src/Tenancy/Orgs.antt =====
-- packages/tenancy/inmem.go: the methods on organizations, without ListOrgs.
use flametrench_go.Base.{
  ℕ, Bool, false, not, ◌&&◌, Option, none, some, List, [], ◌∷◌, if◌then◌else◌, present, Text, bytes,
  ◌==◌, lookup, insert, keys,
}
use flametrench_go.Base.Action.{◌>>=◌, ◌>>◌, pure, gets, or_raise, raise_if, modify}
use flametrench_go.Ids.{Uuids}
use flametrench_go.Tenancy.Types.{
  role_owner, Status, active, suspended, revoked, is_active, is_suspended, is_revoked, Organization,
  with_status, CreateOrgResult, UpdateOrgInput, not_found, org_slug_conflict, already_terminal,
  precondition, invalid_slug, invalid_transition,
}
use flametrench_go.Tenancy.Store.{
  Store, Method, is_slug, put_membership, drop_grant, drop_slug, fresh_id, new_membership, admit,
}

-- The checks of the slug that CreateOrg makes before it writes.
unfoldable pub check_new_slug : Option Text → Method (Unit {0})
check_new_slug none = pure tt
check_new_slug (some slug) = do
  raise_if (not (is_slug slug)) (precondition invalid_slug)
  taken ← gets (λ s. present (lookup slug s.org_by_slug))
  raise_if taken org_slug_conflict

abbrev put_slug : Option Text → Text → Store → Store
put_slug none org s = s
put_slug (some slug) org s = record s { org_by_slug = insert slug org s.org_by_slug }

-- s.orgs[id] = org, and the slug's index entry.
unfoldable pub put_org : Text → Organization → Store → Store
put_org id o s = put_slug o.slug id (record s { orgs = insert id o s.orgs })

unfoldable pub new_org : Text → Option Text → Option Text → ℕ → Organization
new_org id name slug now = record {
  id = id;
  status = active;
  created_at = now;
  updated_at = now;
  name = name;
  slug = slug;
}

unfoldable pub create_org :
    Text → Option Text → Option Text → Uuids → Uuids → ℕ → Method CreateOrgResult
create_org creator name slug u_org u_mem now = do
  check_new_slug slug
  org_id ← fresh_id u_org (bytes "org")
  let org = new_org org_id name slug now
  modify (put_org org_id org)
  mem_id ← fresh_id u_mem (bytes "mem")
  let mem = new_membership mem_id creator org_id role_owner none now
  modify (admit mem_id mem)
  pure (record { org = org; owner_membership = mem })

unfoldable pub get_org : Text → Method Organization
get_org org = do or_raise (← gets (λ s. lookup org s.orgs)) not_found

abbrev pub new_name : UpdateOrgInput → Option Text → Option Text
new_name input old =
    if input.clear_name then none else elim input.name [ none ↦ old | some n ↦ some n ]

abbrev taken_by_other : Option Text → Text → Bool
taken_by_other none org = false
taken_by_other (some holder) org = not (holder == org)

-- The slug's part of UpdateOrg: the new slug of the organization.
unfoldable pub update_slug : Text → UpdateOrgInput → Option Text → Method (Option Text)
update_slug org input old =
    if input.clear_slug then (do modify (drop_slug old); pure none) else elim input.slug [
      | none ↦ pure old
      | some slug ↦ do
        raise_if (not (is_slug slug)) (precondition invalid_slug)
        raise_if (← gets (λ s. taken_by_other (lookup slug s.org_by_slug) org)) org_slug_conflict
        modify (drop_slug old)
        modify (λ s. record s { org_by_slug = insert slug org s.org_by_slug })
        pure (some slug)
    ]

unfoldable pub update_org : Text → UpdateOrgInput → ℕ → Method Organization
update_org org input now = do
  o ← or_raise (← gets (λ s. lookup org s.orgs)) not_found
  raise_if (is_revoked o.status) already_terminal
  slug ← update_slug org input o.slug
  let o' : Organization = record o { name = new_name input o.name; slug = slug; updated_at = now }
  modify (λ s. record s { orgs = insert org o' s.orgs })
  pure o'

-- One turn of the cascade of RevokeOrg, at the membership `mid`, at the time `at`.
unfoldable pub revoke_member : Text → Text → ℕ → Store → Store
revoke_member org mid at s = elim (lookup mid s.memberships) [
  | none ↦ s
  | some m ↦
      if m.org_id == org && is_active m.status
      then drop_grant org m.usr_id m.role
          (put_membership mid (record m { status = revoked; updated_at = at }) s)
      else s
]

-- The range over s.memberships, which reads the clock at each membership that it revokes.
unfoldable pub revoke_members : Text → (Text → ℕ) → List Text → Store → Store
revoke_members org at [] s = s
revoke_members org at (mid ∷ mids) s = revoke_members org at mids (revoke_member org mid (at mid) s)

unfoldable pub cascade_revoke : Organization → Text → (Text → ℕ) → Store → Store
cascade_revoke o org at s = drop_slug o.slug (revoke_members org at (keys s.memberships) s)

-- transitionOrg
unfoldable pub transition_org : Text → Status → ℕ → (Text → ℕ) → Method Organization
transition_org org to now at = do
  o ← or_raise (← gets (λ s. lookup org s.orgs)) not_found
  raise_if (is_revoked o.status) already_terminal
  raise_if (is_active to && not (is_suspended o.status)) (precondition invalid_transition)
  let o' = with_status o to now
  modify (λ s. record s { orgs = insert org o' s.orgs })
  modify (λ s. if is_revoked to then cascade_revoke o' org at s else s)
  pure o'

unfoldable pub suspend_org : Text → ℕ → (Text → ℕ) → Method Organization
suspend_org org = transition_org org suspended

unfoldable pub reinstate_org : Text → ℕ → (Text → ℕ) → Method Organization
reinstate_org org = transition_org org active

unfoldable pub revoke_org : Text → ℕ → (Text → ℕ) → Method Organization
revoke_org org = transition_org org revoked
