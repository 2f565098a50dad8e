-- ===== src/Authz/Tuples/Cascade.antt =====
-- CascadeRevokeSubject.
use flametrench_go.Base.{
  ℕ, ◌≡◌, refl, ◌&&◌, Option, none, some, inl, inr, List, [], ◌∷◌, arith, Text, ◌==◌, lookup, keys,
  visits, eq_iff, lookup-remove, lookup-visits, Option-cases, if◌then◌else◌,
}
use flametrench_go.Authz.Types.{Tuple}
use flametrench_go.Authz.Tuples.{
  Store, drop_tuple, revoke_subject_at, revoke_subject_from, cascade_revoke_subject,
}

-- What is left of a stored tuple.
abbrev pub unless_subject : Text → Text → Option Tuple → Option Tuple
unless_subject st sid none = none
unless_subject st sid (some t) =
    if t.subject_type == st && t.subject_id == sid then none else some t

module _ (st sid : Text) where
  lookup-revoke_at :
      (id i : Text) (n : ℕ) (s : Store)
      → lookup i (revoke_subject_at st sid id (n, s)).1.tuples
        ≡ (if id == i then unless_subject st sid (lookup i s.tuples) else lookup i s.tuples)
  unfolding revoke_subject_at drop_tuple
  lookup-revoke_at id i n s = elim (Option-cases (lookup id s.tuples)) [
    | inl missing ↦ ground (arith, eq_iff id i)
    | inr (t, e) ↦ ground (arith, eq_iff id i, lookup-remove id i s.tuples)
  ]

  unless_idem :
      (o : Option Tuple) → unless_subject st sid (unless_subject st sid o) ≡ unless_subject st sid o
  unless_idem none = refl
  unless_idem (some t) = ground arith

  lookup-revoke_from :
      (i : Text) (ids : List Text) (acc : ℕ × Store)
      → lookup i (revoke_subject_from st sid ids acc).1.tuples ≡ (
          if visits i ids
          then unless_subject st sid (lookup i acc.1.tuples)
          else lookup i acc.1.tuples)
  unfolding revoke_subject_from visits
  lookup-revoke_from i [] acc = refl
  lookup-revoke_from i (id ∷ ids) acc = ground (
    arith,
    lookup-revoke_from i ids (revoke_subject_at st sid id acc),
    lookup-revoke_at id i acc.0 acc.1,
    unless_idem (lookup i acc.1.tuples),
  )

  -- CascadeRevokeSubject drops exactly the tuples of the subject.
  pub lookup-cascade_revoke_subject :
      (i : Text) (s : Store)
      → lookup i (cascade_revoke_subject st sid s).1.tuples
        ≡ unless_subject st sid (lookup i s.tuples)
  unfolding cascade_revoke_subject
  lookup-cascade_revoke_subject i s = elim (Option-cases (lookup i s.tuples)) [
    | inl missing ↦ ground (arith, lookup-revoke_from i (keys s.tuples) (0, s))
    | inr (t, e) ↦
        ground (arith, lookup-revoke_from i (keys s.tuples) (0, s), lookup-visits i t s.tuples e)
  ]
