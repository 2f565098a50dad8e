-- ===== src/Tenancy/Cascade.antt =====
-- The cascade of RevokeOrg over the memberships.
use flametrench_go.Base.{
  ℕ, ◌≡◌, ◌≢◌, refl, sym, ◌∙◌, true, ◌&&◌, Option, none, some, inl, inr, List, [], ◌∷◌, arith, Text,
  ◌==◌, lookup, keys, visits, eq_iff, lookup-insert, lookup-visits, Option-cases, if◌then◌else◌,
}
use flametrench_go.Tenancy.Types.{revoked, is_active, Membership}
use flametrench_go.Tenancy.Store.{
  Store, put_membership, drop_grant, owner_weight, count_active_owners,
}
use flametrench_go.Tenancy.Orgs.{revoke_member, revoke_members}
use flametrench_go.Tenancy.Owners.Count.{count-put_membership, count-drop_grant}
use flametrench_go.Tenancy.Index.Writes.{IsIndexed, close-IsIndexed}

-- What the cascade makes of a membership that it visits.
unfoldable pub closed_by : Text → ℕ → Membership → Membership
closed_by org at m =
    if m.org_id == org && is_active m.status
    then record m { status = revoked; updated_at = at }
    else m

abbrev pub map_option : (Membership → Membership) → Option Membership → Option Membership
map_option f none = none
map_option f (some m) = some (f m)

module _ (org : Text) where
  lookup-revoke_member :
      (mid i : Text) (at : ℕ) (s : Store)
      → lookup i (revoke_member org mid at s).memberships ≡ (
          if mid == i
          then map_option (closed_by org at) (lookup i s.memberships)
          else lookup i s.memberships)
  unfolding revoke_member drop_grant put_membership closed_by
  lookup-revoke_member mid i at s = elim (Option-cases (lookup mid s.memberships)) [
    | inl missing ↦ ground (arith, eq_iff mid i)
    | inr (m, e) ↦ ground (
      arith,
      eq_iff mid i,
      lookup-insert mid i (record m { status = revoked; updated_at = at }) s.memberships,
    )
  ]

  closed_by_idem :
      (at : ℕ) (m : Membership) → closed_by org at (closed_by org at m) ≡ closed_by org at m
  unfolding closed_by
  closed_by_idem at m = ground arith

  map_closed_by_idem :
      (at : ℕ) (o : Option Membership)
      → map_option (closed_by org at) (map_option (closed_by org at) o)
        ≡ map_option (closed_by org at) o
  map_closed_by_idem at none = refl
  map_closed_by_idem at (some m) = ground (arith, closed_by_idem at m)

  lookup-revoke_members :
      (at : Text → ℕ) (i : Text) (mids : List Text) (s : Store)
      → lookup i (revoke_members org at mids s).memberships ≡ (
          if visits i mids
          then map_option (closed_by org (at i)) (lookup i s.memberships)
          else lookup i s.memberships)
  unfolding revoke_members visits
  lookup-revoke_members at i [] s = refl
  lookup-revoke_members at i (mid ∷ mids) s = ground (
    arith,
    eq_iff mid i,
    lookup-revoke_members at i mids (revoke_member org mid (at mid) s),
    lookup-revoke_member mid i (at mid) s,
    map_closed_by_idem (at i) (lookup i s.memberships),
  )

  -- The loop visits every membership: it closes exactly the active ones of the organization.
  pub lookup-cascade :
      (at : Text → ℕ) (i : Text) (s : Store)
      → lookup i (revoke_members org at (keys s.memberships) s).memberships
        ≡ map_option (closed_by org (at i)) (lookup i s.memberships)
  lookup-cascade at i s = elim (Option-cases (lookup i s.memberships)) [
    | inl missing ↦ ground (arith, lookup-revoke_members at i (keys s.memberships) s)
    | inr (m, e) ↦ ground (
      arith,
      lookup-revoke_members at i (keys s.memberships) s,
      lookup-visits i m s.memberships e,
    )
  ]

  count-revoke_member :
      (o mid : Text) (at : ℕ) (s : Store)
      → o ≢ org
      → count_active_owners o (revoke_member org mid at s) ≡ count_active_owners o s
  unfolding revoke_member owner_weight drop_grant
  count-revoke_member o mid at s other = elim (Option-cases (lookup mid s.memberships)) [
    | inl missing ↦ ground arith
    | inr (m, e) ↦ ground (
      arith,
      eq_iff m.org_id org,
      eq_iff m.org_id o,
      count-put_membership o mid (record m { status = revoked; updated_at = at }) s,
      count-drop_grant o org m.usr_id m.role
          (put_membership mid (record m { status = revoked; updated_at = at }) s),
    )
  ]

  -- The owners of the other organizations are left alone.
  pub count-revoke_members :
      (o : Text) (at : Text → ℕ) (mids : List Text) (s : Store)
      → o ≢ org
      → count_active_owners o (revoke_members org at mids s) ≡ count_active_owners o s
  unfolding revoke_members
  count-revoke_members o at [] s other = refl
  count-revoke_members o at (mid ∷ mids) s other =
      count-revoke_members o at mids (revoke_member org mid (at mid) s) other
      ∙ count-revoke_member o mid (at mid) s other

  orgs-revoke_member :
      (mid : Text) (at : ℕ) (s : Store) → (revoke_member org mid at s).orgs ≡ s.orgs
  unfolding revoke_member drop_grant put_membership
  orgs-revoke_member mid at s = ground arith

  pub orgs-revoke_members :
      (at : Text → ℕ) (mids : List Text) (s : Store) → (revoke_members org at mids s).orgs ≡ s.orgs
  unfolding revoke_members
  orgs-revoke_members at [] s = refl
  orgs-revoke_members at (mid ∷ mids) s =
      orgs-revoke_members at mids (revoke_member org mid (at mid) s)
      ∙ orgs-revoke_member mid (at mid) s

  close_at :
      (mid : Text) (m : Membership) (at : ℕ) (s : Store)
      → lookup mid s.memberships ≡ some m
      → is_active m.status ≡ true
      → m.org_id ≡ org
      → IsIndexed s
      → IsIndexed (
          drop_grant org m.usr_id m.role
            (put_membership mid (record m { status = revoked; updated_at = at }) s))
  unfolding drop_grant put_membership
  close_at mid m at s e live same h =
      rw (sym same) (
        close-IsIndexed mid m (record m { status = revoked; updated_at = at }) s e live refl refl h)

  revoke_member-IsIndexed :
      (mid : Text) (at : ℕ) (s : Store) → IsIndexed s → IsIndexed (revoke_member org mid at s)
  unfolding revoke_member
  revoke_member-IsIndexed mid at s h = elim (Option-cases (lookup mid s.memberships)) [
    | inl missing ↦ ground arith
    | inr (m, e) ↦ ground (arith, eq_iff m.org_id org, close_at mid m at s e)
  ]

  pub revoke_members-IsIndexed :
      (at : Text → ℕ) (mids : List Text) (s : Store)
      → IsIndexed s
      → IsIndexed (revoke_members org at mids s)
  unfolding revoke_members
  revoke_members-IsIndexed at [] s h = h
  revoke_members-IsIndexed at (mid ∷ mids) s h =
      revoke_members-IsIndexed at mids (revoke_member org mid (at mid) s)
        (revoke_member-IsIndexed mid (at mid) s h)
