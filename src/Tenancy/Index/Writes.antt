-- ===== src/Tenancy/Index/Writes.antt =====
-- The index invariant, and what each group of writes does to it.
use flametrench_go.Base.{
  ℕ, ◌≡◌, refl, true, false, none, some, inl, inr, arith, Text, ◌==◌, eq_iff, eq_refl, Bool-cases,
  lookup, lookup-insert, lookup-remove,
}
use flametrench_go.Tenancy.Types.{revoked, is_active, Membership}
use flametrench_go.Tenancy.Store.{
  Store, org_usr_key, put_membership, drop_grant, put_grant, revoke_old, admit,
}
use flametrench_go.Tenancy.Members.{retire}
use flametrench_go.Base.Keys.{no_bar}

-- The index holds exactly the active memberships, each under its organization and user, and the
-- organization ids hold no separator.
pub record IsIndexed (s : Store) : Type 0 where
  pub forward :
      (i : Text) (m : Membership)
      → lookup i s.memberships ≡ some m
      → is_active m.status ≡ true
      → lookup (org_usr_key m.org_id m.usr_id) s.active_mem ≡ some i
  pub backward :
      (k i : Text)
      → lookup k s.active_mem ≡ some i
      → (m : Membership) × (lookup i s.memberships ≡ some m)
        × (is_active m.status ≡ true)
        × (org_usr_key m.org_id m.usr_id ≡ k)
  pub clean : (i : Text) (m : Membership) → lookup i s.memberships ≡ some m → no_bar m.org_id ≡ true

abbrev key_of : Membership → Text
key_of m = org_usr_key m.org_id m.usr_id

module _ (mem : Text) (m m' : Membership) (s : Store) (found : lookup mem s.memberships ≡ some m)
    (was_active : is_active m.status ≡ true) (is_closed : is_active m'.status ≡ false)
    (same_org : m'.org_id ≡ m.org_id) (h : IsIndexed s) where
  abbrev closed : Store
  closed = put_membership mem m' (drop_grant m.org_id m.usr_id m.role s)

  close_forward :
      (i : Text) (x : Membership)
      → lookup i closed.memberships ≡ some x
      → is_active x.status ≡ true
      → lookup (key_of x) closed.active_mem ≡ some i
  unfolding put_membership drop_grant
  close_forward i x e a = ground (
    arith,
    lookup-insert mem i m' s.memberships,
    lookup-remove (key_of m) (key_of x) s.active_mem,
    eq_iff mem i,
    eq_iff (key_of m) (key_of x),
    h.forward i x,
    h.forward mem m found was_active,
  )

  close_backward :
      (k i : Text)
      → lookup k closed.active_mem ≡ some i
      → (x : Membership) × (lookup i closed.memberships ≡ some x)
        × (is_active x.status ≡ true)
        × (key_of x ≡ k)
  unfolding put_membership drop_grant
  close_backward k i e =
      let old : lookup k s.active_mem ≡ some i =
        ground (arith, lookup-remove (key_of m) k s.active_mem) in
      let (x, at, live, key) = h.backward k i old in
      (
        x,
        ground (
          arith,
          lookup-remove (key_of m) k s.active_mem,
          lookup-insert mem i m' s.memberships,
          eq_iff mem i,
          eq_iff (key_of m) k,
        ),
        live,
        key,
      )

  close_clean :
      (i : Text) (x : Membership) → lookup i closed.memberships ≡ some x → no_bar x.org_id ≡ true
  unfolding put_membership drop_grant
  close_clean i x e =
      ground (arith, lookup-insert mem i m' s.memberships, h.clean i x, h.clean mem m found)

  -- Closing an active membership and dropping its grant keeps the invariant.
  pub close-IsIndexed : IsIndexed closed
  close-IsIndexed = record {
    forward = close_forward;
    backward = close_backward;
    clean = close_clean;
  }

module _ (id : Text) (m : Membership) (s : Store) (is_open : is_active m.status ≡ true)
    (is_clean : no_bar m.org_id ≡ true) (free : lookup (key_of m) s.active_mem ≡ none)
    (h : IsIndexed s) where
  abbrev opened : Store
  opened = admit id m s

  -- The id is new, or that of a membership that is not active.
  module _
      (unused : (x : Membership)
        → lookup id s.memberships ≡ some x
        → is_active x.status ≡ false) where
    open_forward :
        (i : Text) (x : Membership)
        → lookup i opened.memberships ≡ some x
        → is_active x.status ≡ true
        → lookup (key_of x) opened.active_mem ≡ some i
    unfolding admit put_membership put_grant
    open_forward i x e a = ground (
      arith,
      lookup-insert id i m s.memberships,
      lookup-insert (key_of m) (key_of x) id s.active_mem,
      eq_iff id i,
      eq_iff (key_of m) (key_of x),
      h.forward i x,
    )

    open_backward :
        (k i : Text)
        → lookup k opened.active_mem ≡ some i
        → (x : Membership) × (lookup i opened.memberships ≡ some x)
          × (is_active x.status ≡ true)
          × (key_of x ≡ k)
    unfolding admit put_membership put_grant
    open_backward k i e = elim (Bool-cases (key_of m == k)) [
      | inl same ↦ (
        m,
        ground (
          arith,
          lookup-insert (key_of m) k id s.active_mem,
          lookup-insert id i m s.memberships,
          eq_refl id,
        ),
        is_open,
        ground (arith, eq_iff (key_of m) k),
      )
      | inr other ↦
          let old : lookup k s.active_mem ≡ some i =
            ground (arith, lookup-insert (key_of m) k id s.active_mem) in
          let (x, at, live, key) = h.backward k i old in
          (x, ground (arith, lookup-insert id i m s.memberships, eq_iff id i, unused x), live, key)
    ]

    open_clean :
        (i : Text) (x : Membership) → lookup i opened.memberships ≡ some x → no_bar x.org_id ≡ true
    unfolding admit put_membership put_grant
    open_clean i x e = ground (arith, lookup-insert id i m s.memberships, h.clean i x)

    -- Admitting a membership where its user has none keeps the invariant.
    pub open-IsIndexed : IsIndexed opened
    open-IsIndexed = record { forward = open_forward; backward = open_backward; clean = open_clean }

-- The two orders of the writes of a closing make one store.
pub revoke_old-IsIndexed :
    (mem : Text) (old : Membership) (now : ℕ) (s : Store)
    → lookup mem s.memberships ≡ some old
    → is_active old.status ≡ true
    → IsIndexed s
    → IsIndexed (revoke_old mem old now s)
unfolding revoke_old put_membership drop_grant
revoke_old-IsIndexed mem old now s found live h =
    close-IsIndexed mem old (record old { status = revoked; updated_at = now }) s found live refl
      refl h

pub retire-IsIndexed :
    (mem : Text) (m : Membership) (by : Text) (now : ℕ) (s : Store)
    → lookup mem s.memberships ≡ some m
    → is_active m.status ≡ true
    → IsIndexed s
    → IsIndexed (retire mem m by now s)
unfolding retire
retire-IsIndexed mem m by now s found live h =
    close-IsIndexed mem m (record m { status = revoked; removed_by = some by; updated_at = now }) s
      found live refl refl h

-- Past the first half of a role change the user has no entry in the index.
pub revoke_old_frees :
    (mem : Text) (old : Membership) (now : ℕ) (s : Store)
    → lookup (org_usr_key old.org_id old.usr_id) (revoke_old mem old now s).active_mem ≡ none
unfolding revoke_old put_membership drop_grant
revoke_old_frees mem old now s =
    ground (arith, lookup-remove (key_of old) (key_of old) s.active_mem, eq_refl (key_of old))
