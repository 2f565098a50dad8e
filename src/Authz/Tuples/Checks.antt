-- ===== src/Authz/Tuples/Checks.antt =====
-- What Check answers after the writes, and where its keys run together.
use mathlib.Core.List.{append_assoc}
use flametrench_go.Base.{
  ℕ, zero, suc, ◌≡◌, true, false, none, some, inl, inr, [], ◌∷◌, ◌++◌, arith, Text, bytes, lookup,
  eq_refl, lookup-remove, lookup-insert_self, Option-cases,
}
use flametrench_go.Base.Result.{ok, Result-cases}
use flametrench_go.Ids.{Uuids, generate}
use flametrench_go.Authz.Types.{Tuple, CheckResult}
use flametrench_go.Authz.Rules.{Rules, rec, evaluate, max_depth, max_fan_out}
use flametrench_go.Authz.Rules.Meaning.{Grants, evaluate_sound}
use flametrench_go.Authz.Rules.Decision.{evaluate_complete}
use flametrench_go.Authz.Tuples.{
  Store, natural_key, key_of, input_key, CreateTupleInput, CheckInput, new_tuple, put_tuple,
  drop_tuple, create_tuple, delete_tuple, subjects_on, direct_lookup, frame_of,
  result_of_evaluation, check_with, check,
}

-- The request that a created tuple answers.
abbrev pub request : CreateTupleInput → CheckInput
request i = record {
  subject_type = i.subject_type;
  subject_id = i.subject_id;
  relation = i.relation;
  object_type = i.object_type;
  object_id = i.object_id;
}

direct_wins :
    (rules : Rules) (n : ℕ) (s : Store) (i : CheckInput) (id : Text)
    → direct_lookup i.subject_type i.subject_id s (frame_of i) ≡ some id
    → result_of_evaluation (
        rec
          (some rules)
          (direct_lookup i.subject_type i.subject_id s)
          (λ a b c. subjects_on a b c s.tuples)
          (max_fan_out s.fan_out)
          n
          (frame_of i)
          [])
      ≡ ok (record { allowed = true; matched_tuple_id = some id })
unfolding rec
direct_wins rules zero s i id e = rw e
direct_wins rules (suc n) s i id e = rw e

-- A request whose key is indexed is allowed by that tuple, with rules or without.
check_direct :
    (s : Store) (i : CheckInput) (id : Text)
    → direct_lookup i.subject_type i.subject_id s (frame_of i) ≡ some id
    → check i s ≡ ok (record { allowed = true; matched_tuple_id = some id })
unfolding check check_with evaluate
check_direct s i id e = elim (Option-cases s.rules) [
  | inl plain ↦ rw (plain, e)
  | inr (rules, given) ↦ rw given (direct_wins rules (max_depth s.depth) s i id e)
]

written :
    (id : Text) (i : CreateTupleInput) (now : ℕ) (s : Store)
    → let s' = put_tuple id (new_tuple id i now) s in
      (lookup (new_tuple id i now).id s'.tuples ≡ some (new_tuple id i now))
      × (check (request i) s'
          ≡ ok (record { allowed = true; matched_tuple_id = some (new_tuple id i now).id }))
unfolding put_tuple new_tuple
written id i now s = (
  lookup-insert_self id (new_tuple id i now) s.tuples,
  check_direct (put_tuple id (new_tuple id i now) s) (request i) id
      (lookup-insert_self (input_key i) id s.natural),
)

-- When CreateTuple succeeds, the tuple is stored, and Check allows its request by it, with rules or
-- without.
pub check-create_tuple :
    (i : CreateTupleInput) (u : Uuids) (now : ℕ) (s : Store) (t : Tuple)
    → (create_tuple i u now s).0 ≡ ok t
    → let s' = (create_tuple i u now s).1 in
      (lookup t.id s'.tuples ≡ some t)
      × (check (request i) s' ≡ ok (record { allowed = true; matched_tuple_id = some t.id }))
unfolding create_tuple
check-create_tuple i u now s t e = elim (Result-cases (generate u (bytes "tup"))) [
  | inr (x, g) ↦ absurd (ground arith)
  | inl (id, g) ↦
      let made : t ≡ new_tuple id i now = ground arith in
      let after : (create_tuple i u now s).1 ≡ put_tuple id (new_tuple id i now) s = ground arith in
      let stored = written id i now s in
      (ground (arith, made, after, stored.0), ground (arith, made, after, stored.1))
]

-- A deleted tuple's request is denied by a store without rules.
pub check-delete_tuple :
    (id : Text) (s : Store) (t : Tuple) (i : CheckInput)
    → s.rules ≡ none
    → lookup id s.tuples ≡ some t
    → natural_key i.subject_type i.subject_id i.relation i.object_type i.object_id ≡ key_of t
    → let (r, s') = delete_tuple id s in
      (r ≡ ok tt)
      × (lookup id s'.tuples ≡ none)
      × (check i s' ≡ ok (record { allowed = false; matched_tuple_id = none }))
unfolding delete_tuple drop_tuple check
check-delete_tuple id s t i plain e same = (
  ground arith,
  ground (arith, lookup-remove id id s.tuples, eq_refl id),
  ground (arith, lookup-remove (key_of t) (key_of t) s.natural, eq_refl (key_of t)),
)

-- With rules Check allows only what the rules derive from a stored key, and what it denies they do
-- not derive.
pub check_by_rules :
    (rules : Rules) (s : Store) (i : CheckInput) (r : CheckResult)
    → s.rules ≡ some rules
    → check i s ≡ ok r
    → let Derived =
        Grants
          (some rules)
          (direct_lookup i.subject_type i.subject_id s)
          (λ a b c. subjects_on a b c s.tuples)
          (max_fan_out s.fan_out) in
      (r.allowed ≡ true → (tid : Text) × (r.matched_tuple_id ≡ some tid) × Derived tid (frame_of i))
      × (r.allowed ≡ false → (tid : Text) → ¬ (Derived tid (frame_of i)))
unfolding check check_with
check_by_rules rules s i r given e =
    let direct = direct_lookup i.subject_type i.subject_id s in
    let listed = λ (a b c : Text). subjects_on a b c s.tuples in
    elim (Result-cases
      (evaluate (some rules) direct listed (max_fan_out s.fan_out) s.depth (frame_of i))) [
        | inr (x, er) ↦ absurd (ground arith)
        | inl (q, eq) ↦ (
          λ a. (
            q.matched_tuple_id,
            ground arith,
            evaluate_sound (some rules) direct listed (max_fan_out s.fan_out) s.depth (frame_of i) q
                eq (ground arith),
          ),
          λ a tid.
              evaluate_complete (some rules) direct listed (max_fan_out s.fan_out) s.depth
                (frame_of i) q tid eq (ground arith),
        )
      ]

-- The separator of the natural key is not escaped: the key of a tuple whose subject id holds bars is
-- also that of a request for another subject id, relation and object.
pub natural_key_confused :
    (st a r1 o1 x r2 o2 y : Text)
    → natural_key st (a ++ (b'|' ∷ r1 ++ (b'|' ∷ o1 ++ (b'|' ∷ x)))) r2 o2 y
      ≡ natural_key st a r1 o1 (x ++ (b'|' ∷ r2 ++ (b'|' ∷ o2 ++ (b'|' ∷ y))))
unfolding natural_key
natural_key_confused st a r1 o1 x r2 o2 y = simp append_assoc
