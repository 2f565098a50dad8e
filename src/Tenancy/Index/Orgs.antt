-- ===== src/Tenancy/Index/Orgs.antt =====
-- The methods on organizations keep the index invariant.
use flametrench_go.Base.{
  ℕ, ◌≡◌, true, Option, none, some, inl, inr, arith, Text, bytes, lookup, insert, keys, Map,
  Option-cases,
}
use flametrench_go.Base.Result.{ok, Result-cases}
use flametrench_go.Ids.{Uuids, generate}
use flametrench_go.Tenancy.Types.{role_owner, Status, Organization, with_status, UpdateOrgInput}
use flametrench_go.Tenancy.Store.{Store, org_usr_key, admit, drop_slug, fresh_id, new_membership}
use flametrench_go.Tenancy.Orgs.{
  check_new_slug, put_org, new_org, create_org, update_slug, update_org, revoke_members,
  cascade_revoke, transition_org,
}
use flametrench_go.Tenancy.Cascade.{revoke_members-IsIndexed}
use flametrench_go.Tenancy.Owners.Writes.{IsFresh}
use flametrench_go.Base.Keys.{no_bar}
use flametrench_go.Tenancy.Index.Writes.{IsIndexed}
use flametrench_go.Tenancy.Index.Methods.{admit_built-IsIndexed}

-- The invariant reads the memberships and the index alone.
pub same-IsIndexed :
    (s s' : Store)
    → s'.memberships ≡ s.memberships
    → s'.active_mem ≡ s.active_mem
    → IsIndexed s
    → IsIndexed s'
same-IsIndexed s s' em ea h = record {
  forward = λ i m e live. rw ea (h.forward i m (rw em at e) live);
  backward =
      λ k i e. let (m, at, live, key) = h.backward k i (rw ea at e) in (m, rw em at, live, key);
  clean = λ i m e. h.clean i m (rw em at e);
}

module _ (org : Text) (o : Organization) (s : Store) where
  put_org_frame :
      ((put_org org o s).memberships ≡ s.memberships)
      × ((put_org org o s).active_mem ≡ s.active_mem)
  unfolding put_org
  put_org_frame = (ground arith, ground arith)

  put_org-IsIndexed : IsIndexed s → IsIndexed (put_org org o s)
  put_org-IsIndexed = same-IsIndexed s (put_org org o s) put_org_frame.0 put_org_frame.1

  founded-IsIndexed :
      (mem_id creator : Text) (now : ℕ)
      → no_bar org ≡ true
      → lookup (org_usr_key org creator) s.active_mem ≡ none
      → lookup mem_id s.memberships ≡ none
      → IsIndexed s
      → IsIndexed
          (admit mem_id (new_membership mem_id creator org role_owner none now) (put_org org o s))
  founded-IsIndexed mem_id creator now clean free new h =
      admit_built-IsIndexed mem_id org creator role_owner none now (put_org org o s) clean
        (rw (put_org_frame.1) free) (rw (put_org_frame.0) new) (put_org-IsIndexed h)

-- CreateOrg keeps the index invariant, if its new ids are not in use and hold no separator.
pub create_org-IsIndexed :
    (creator : Text) (name slug : Option Text) (u_org u_mem : Uuids) (now : ℕ) (s : Store)
    → ((org : Text)
        → generate u_org (bytes "org") ≡ ok org
        → (no_bar org ≡ true) × (lookup (org_usr_key org creator) s.active_mem ≡ none))
    → IsFresh u_mem s
    → IsIndexed s
    → IsIndexed (create_org creator name slug u_org u_mem now s).1
unfolding create_org fresh_id check_new_slug
create_org-IsIndexed creator name slug u_org u_mem now s unused fresh h =
    elim (Result-cases (generate u_org (bytes "org"))) [
      | inl (org, go) ↦
          let o = new_org org name slug now in
          let (clean, free) = unused org go in
          elim (Result-cases (generate u_mem (bytes "mem"))) [
            | inl (mem, gm) ↦
                let after = founded-IsIndexed org o s mem creator now clean free (fresh mem gm) h in
                elim (Option-cases slug) [
                  | inl plain ↦ ground (arith, after)
                  | inr (x, given) ↦ ground (arith, after)
                ]
            | inr (x, gm) ↦
                let after = put_org-IsIndexed org o s h in
                elim (Option-cases slug) [
                  | inl plain ↦ ground (arith, after)
                  | inr (y, given) ↦ ground (arith, after)
                ]
          ]
      | inr (x, go) ↦ elim (Option-cases slug) [
        | inl plain ↦ ground arith
        | inr (y, given) ↦ ground arith
      ]
    ]

module _ (org : Text) (input : UpdateOrgInput) (now : ℕ) (s : Store) where
  pub update_org_frame :
      ((update_org org input now s).1.memberships ≡ s.memberships)
      × ((update_org org input now s).1.active_mem ≡ s.active_mem)
  unfolding update_org update_slug
  update_org_frame = (ground arith, ground arith)

  -- UpdateOrg keeps the index invariant.
  pub update_org-IsIndexed : IsIndexed s → IsIndexed (update_org org input now s).1
  update_org-IsIndexed =
      same-IsIndexed s (update_org org input now s).1 update_org_frame.0 update_org_frame.1

drop_slug-IsIndexed : (slug : Option Text) (s : Store) → IsIndexed s → IsIndexed (drop_slug slug s)
drop_slug-IsIndexed none s h = h
drop_slug-IsIndexed (some x) s h = record {
  forward = h.forward;
  backward = h.backward;
  clean = h.clean;
}

put_orgs-IsIndexed :
    (os : Map Organization) (s : Store) → IsIndexed s → IsIndexed (record s { orgs = os })
put_orgs-IsIndexed os s h = record { forward = h.forward; backward = h.backward; clean = h.clean }

cascade-IsIndexed :
    (o : Organization) (org : Text) (at : Text → ℕ) (s : Store)
    → IsIndexed s
    → IsIndexed (cascade_revoke o org at s)
unfolding cascade_revoke
cascade-IsIndexed o org at s h =
    drop_slug-IsIndexed o.slug (revoke_members org at (keys s.memberships) s)
      (revoke_members-IsIndexed org at (keys s.memberships) s h)

-- SuspendOrg, ReinstateOrg and RevokeOrg keep the index invariant.
pub transition_org-IsIndexed :
    (org : Text) (to : Status) (now : ℕ) (at : Text → ℕ) (s : Store)
    → IsIndexed s
    → IsIndexed (transition_org org to now at s).1
unfolding transition_org with_status
transition_org-IsIndexed org to now at s h = elim (Option-cases (lookup org s.orgs)) [
  | inl missing ↦ ground arith
  | inr (o, e) ↦
      let o' : Organization = record o { status = to; updated_at = now } in
      ground (
        arith,
        put_orgs-IsIndexed (insert org o' s.orgs) s h,
        cascade-IsIndexed o' org at (record s { orgs = insert org o' s.orgs }),
      )
]
