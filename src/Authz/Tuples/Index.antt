-- ===== src/Authz/Tuples/Index.antt =====
-- The natural-key index against the stored tuples.
use flametrench_go.Base.{
  ℕ, ◌≡◌, none, some, inl, inr, List, [], ◌∷◌, arith, Text, bytes, ◌==◌, lookup, insert, keys,
  eq_iff, eq_refl, lookup-insert, lookup-remove, Option-cases, Bool-cases,
}
use flametrench_go.Base.Result.{ok, Result-cases}
use flametrench_go.Ids.{Uuids, generate}
use flametrench_go.Authz.Types.{Tuple}
use flametrench_go.Authz.Tuples.{
  Store, key_of, input_key, CreateTupleInput, new_tuple, put_tuple, drop_tuple, create_tuple,
  delete_tuple, revoke_subject_at, revoke_subject_from, cascade_revoke_subject,
}

-- The index holds exactly the stored tuples, each under its natural key.
pub record IsIndexed (s : Store) : Type 0 where
  pub forward :
      (id : Text) (t : Tuple) → lookup id s.tuples ≡ some t → lookup (key_of t) s.natural ≡ some id
  pub backward :
      (k id : Text)
      → lookup k s.natural ≡ some id
      → (t : Tuple) × (lookup id s.tuples ≡ some t) × (key_of t ≡ k)

module _ (id : Text) (t : Tuple) (s : Store) (h : IsIndexed s) where
  put_tuple-IsIndexed :
      lookup id s.tuples ≡ none → lookup (key_of t) s.natural ≡ none → IsIndexed (put_tuple id t s)
  unfolding put_tuple
  put_tuple-IsIndexed new free = record {
    forward = λ i x e. ground (
      arith,
      lookup-insert id i t s.tuples,
      lookup-insert (key_of t) (key_of x) id s.natural,
      eq_iff id i,
      eq_iff (key_of t) (key_of x),
      h.forward i x,
    );
    backward = λ k i e. found k i e;
  }
    where
      found :
          (k i : Text)
          → lookup k (insert (key_of t) id s.natural) ≡ some i
          → (x : Tuple) × (lookup i (insert id t s.tuples) ≡ some x) × (key_of x ≡ k)
      found k i e = elim (Bool-cases (key_of t == k)) [
        | inl same ↦ (
          t,
          ground (
            arith,
            lookup-insert (key_of t) k id s.natural,
            lookup-insert id i t s.tuples,
            eq_refl id,
          ),
          ground (arith, eq_iff (key_of t) k),
        )
        | inr other ↦
            let old : lookup k s.natural ≡ some i =
              ground (arith, lookup-insert (key_of t) k id s.natural) in
            let (x, ex, kx) = h.backward k i old in
            (x, ground (arith, lookup-insert id i t s.tuples, eq_iff id i), kx)
      ]

  drop_tuple-IsIndexed : lookup id s.tuples ≡ some t → IsIndexed (drop_tuple id t s)
  unfolding drop_tuple
  drop_tuple-IsIndexed at = record {
    forward = λ i x e. ground (
      arith,
      lookup-remove id i s.tuples,
      lookup-remove (key_of t) (key_of x) s.natural,
      eq_iff id i,
      eq_iff (key_of t) (key_of x),
      h.forward i x,
      h.forward id t at,
    );
    backward = λ k i e.
        let old : lookup k s.natural ≡ some i =
          ground (arith, lookup-remove (key_of t) k s.natural) in
        let (x, ex, kx) = h.backward k i old in
        (
          x,
          ground (
            arith,
            lookup-remove (key_of t) k s.natural,
            lookup-remove id i s.tuples,
            eq_iff id i,
            eq_iff (key_of t) k,
          ),
          kx,
        );
  }

-- CreateTuple keeps the index, if the id that is minted is not in use.
pub create_tuple-IsIndexed :
    (i : CreateTupleInput) (u : Uuids) (now : ℕ) (s : Store)
    → ((id : Text) → generate u (bytes "tup") ≡ ok id → lookup id s.tuples ≡ none)
    → IsIndexed s
    → IsIndexed (create_tuple i u now s).1
unfolding create_tuple new_tuple
create_tuple-IsIndexed i u now s new h = elim (Result-cases (generate u (bytes "tup"))) [
  | inl (id, g) ↦ elim (Option-cases (lookup (input_key i) s.natural)) [
    | inl free ↦ ground (arith, put_tuple-IsIndexed id (new_tuple id i now) s h (new id g) free)
    | inr (x, taken) ↦ ground arith
  ]
  | inr (x, g) ↦ ground arith
]

-- DeleteTuple keeps the index.
pub delete_tuple-IsIndexed : (id : Text) (s : Store) → IsIndexed s → IsIndexed (delete_tuple id s).1
unfolding delete_tuple
delete_tuple-IsIndexed id s h = elim (Option-cases (lookup id s.tuples)) [
  | inl missing ↦ ground arith
  | inr (t, e) ↦ ground (arith, drop_tuple-IsIndexed id t s h e)
]

revoke_subject_at-IsIndexed :
    (st sid id : Text) (n : ℕ) (s : Store)
    → IsIndexed s
    → IsIndexed (revoke_subject_at st sid id (n, s)).1
unfolding revoke_subject_at
revoke_subject_at-IsIndexed st sid id n s h = elim (Option-cases (lookup id s.tuples)) [
  | inl missing ↦ ground arith
  | inr (t, e) ↦ ground (arith, drop_tuple-IsIndexed id t s h e)
]

revoke_subject_from-IsIndexed :
    (st sid : Text) (ids : List Text) (acc : ℕ × Store)
    → IsIndexed acc.1
    → IsIndexed (revoke_subject_from st sid ids acc).1
unfolding revoke_subject_from
revoke_subject_from-IsIndexed st sid [] acc h = h
revoke_subject_from-IsIndexed st sid (id ∷ ids) acc h =
    revoke_subject_from-IsIndexed st sid ids (revoke_subject_at st sid id acc)
      (revoke_subject_at-IsIndexed st sid id acc.0 acc.1 h)

-- CascadeRevokeSubject keeps the index.
pub cascade_revoke_subject-IsIndexed :
    (st sid : Text) (s : Store) → IsIndexed s → IsIndexed (cascade_revoke_subject st sid s).1
unfolding cascade_revoke_subject
cascade_revoke_subject-IsIndexed st sid s h =
    revoke_subject_from-IsIndexed st sid (keys s.tuples) (0, s) h
