-- ===== src/Authz/Tuples/Exact.antt =====
-- What Check answers in the stores that sequences of calls make.
use flametrench_go.Base.{
  ℕ, ◌≡◌, ◌↔◌, ◌⊎◌, ◌∙◌, sym, refl, ap, Bool, true, false, ◌&&◌, Option, none, some, inl, inr, List,
  [], ◌∷◌, arith, eqb, Text, bytes, ◌==◌, lookup, keys, lookup-insert, lookup-remove, Option-cases,
  Bool-cases,
}
use flametrench_go.Base.Keys.{no_bar, bar_split}
use flametrench_go.Base.Result.{ok, Result-cases}
use flametrench_go.Ids.{Uuids, generate}
use flametrench_go.Patterns.{
  all_in, is_relation_name, is_type_prefix, matches, is_lower, is_relation_char,
}
use flametrench_go.Authz.Types.{Tuple}
use flametrench_go.Authz.Tuples.{
  Store, empty, natural_key, key_of, input_key, CreateTupleInput, CheckInput, new_tuple, put_tuple,
  drop_tuple, create_tuple, delete_tuple, revoke_subject_at, revoke_subject_from,
  cascade_revoke_subject, direct_lookup, frame_of, check,
}
use flametrench_go.Authz.Tuples.Index.{
  IsIndexed, create_tuple-IsIndexed, delete_tuple-IsIndexed, cascade_revoke_subject-IsIndexed,
}
use flametrench_go.Authz.Tuples.Cascade.{unless_subject, lookup-cascade_revoke_subject}

-- A text of characters that are not bars.
all_in-no_bar :
    (class_ : ℕ → Bool) (t : Text)
    → ((c : ℕ) → class_ c ≡ true → eqb c b'|' ≡ false)
    → all_in class_ t ≡ true
    → no_bar t ≡ true
unfolding all_in no_bar
all_in-no_bar class_ [] apart h = refl
all_in-no_bar class_ (c ∷ t) apart h = ground (arith, apart c, all_in-no_bar class_ t apart)

relation_name-no_bar : (t : Text) → is_relation_name t ≡ true → no_bar t ≡ true
unfolding is_relation_name matches
relation_name-no_bar t h = all_in-no_bar is_relation_char t (λ c e. ground arith) (ground arith)

type_prefix-no_bar : (t : Text) → is_type_prefix t ≡ true → no_bar t ≡ true
unfolding is_type_prefix matches
type_prefix-no_bar t h = all_in-no_bar is_lower t (λ c e. ground arith) (ground arith)

-- The parts of a natural key before the last hold no bar.
pub record IsClean (st sid r ot : Text) : Type 0 where
  pub subject_type : no_bar st ≡ true
  pub subject_id : no_bar sid ≡ true
  pub relation : no_bar r ≡ true
  pub object_type : no_bar ot ≡ true

-- Then the key determines its five parts.
natural_key-injective :
    (st sid r ot oid st' sid' r' ot' oid' : Text)
    → IsClean st sid r ot
    → IsClean st' sid' r' ot'
    → natural_key st sid r ot oid ≡ natural_key st' sid' r' ot' oid'
    → (st ≡ st') × (sid ≡ sid') × (r ≡ r') × (ot ≡ ot') × (oid ≡ oid')
unfolding natural_key
natural_key-injective st sid r ot oid st' sid' r' ot' oid' h k e =
    let (a, e1) = bar_split st st' _ _ h.subject_type k.subject_type e in
    let (b, e2) = bar_split sid sid' _ _ h.subject_id k.subject_id e1 in
    let (c, e3) = bar_split r r' _ _ h.relation k.relation e2 in
    let (d, e4) = bar_split ot ot' _ _ h.object_type k.object_type e3 in (a, b, c, d, e4)

abbrev IsCleanTuple : Tuple → Type 0
IsCleanTuple t = IsClean t.subject_type t.subject_id t.relation t.object_type

-- The stores that calls make from one without tuples and rules, where minted ids are not in use and no
-- tuple is created for a subject id with a bar in it.
pub data Reach : Store → Type 0 where
  start : (depth fan_out : ℕ) → Reach (record empty { depth = depth; fan_out = fan_out })
  created_call :
      (i : CreateTupleInput) (u : Uuids) (now : ℕ) (s : Store)
      → ((id : Text) → generate u (bytes "tup") ≡ ok id → lookup id s.tuples ≡ none)
      → no_bar i.subject_id ≡ true
      → Reach s
      → Reach (create_tuple i u now s).1
  deleted_call : (id : Text) (s : Store) → Reach s → Reach (delete_tuple id s).1
  cascaded_call : (st sid : Text) (s : Store) → Reach s → Reach (cascade_revoke_subject st sid s).1

record IsSound (s : Store) : Type 0 where
  plain : s.rules ≡ none
  indexed : IsIndexed s
  clean : (id : Text) (t : Tuple) → lookup id s.tuples ≡ some t → IsCleanTuple t

-- What CreateTuple has checked where it changes the store.
create_tuple-cases :
    (i : CreateTupleInput) (u : Uuids) (now : ℕ) (s : Store)
    → ((create_tuple i u now s).1 ≡ s)
      ⊎ ((new : Text) × ((create_tuple i u now s).1 ≡ put_tuple new (new_tuple new i now) s)
          × (is_relation_name i.relation ≡ true)
          × (is_type_prefix i.subject_type ≡ true)
          × (is_type_prefix i.object_type ≡ true))
unfolding create_tuple
create_tuple-cases i u now s =
    elim (Bool-cases (
      is_relation_name i.relation
      && (is_type_prefix i.subject_type && is_type_prefix i.object_type))) [
        | inr refused ↦ inl (ground arith)
        | inl valid ↦ elim (Option-cases (lookup (input_key i) s.natural)) [
          | inr (x, taken) ↦ inl (ground arith)
          | inl free ↦ elim (Result-cases (generate u (bytes "tup"))) [
            | inr (x, failed) ↦ inl (ground arith)
            | inl (new, drawn) ↦ inr (new, ground arith, ground arith, ground arith, ground arith)
          ]
        ]
      ]

create_tuple-IsSound :
    (i : CreateTupleInput) (u : Uuids) (now : ℕ) (s : Store)
    → ((id : Text) → generate u (bytes "tup") ≡ ok id → lookup id s.tuples ≡ none)
    → no_bar i.subject_id ≡ true
    → IsSound s
    → IsSound (create_tuple i u now s).1
unfolding put_tuple new_tuple
create_tuple-IsSound i u now s fresh subject h =
    let indexed = create_tuple-IsIndexed i u now s fresh h.indexed in
    elim (create_tuple-cases i u now s) [
      | inl same ↦ rw same h
      | inr (new, made, r, st, ot) ↦ record {
        plain = rw made h.plain;
        indexed = indexed;
        clean = λ id t e. elim (Bool-cases (new == id)) [
          | inl self ↦
              let is_new : t ≡ new_tuple new i now =
                ground (arith, made, lookup-insert new id (new_tuple new i now) s.tuples) in
              rw is_new (record {
                subject_type = type_prefix-no_bar i.subject_type st;
                subject_id = subject;
                relation = relation_name-no_bar i.relation r;
                object_type = type_prefix-no_bar i.object_type ot;
              })
          | inr other ↦
              h.clean id t
                (ground (arith, made, lookup-insert new id (new_tuple new i now) s.tuples))
        ];
      }
    ]

delete_tuple-IsSound : (id : Text) (s : Store) → IsSound s → IsSound (delete_tuple id s).1
unfolding delete_tuple drop_tuple
delete_tuple-IsSound id s h = elim (Option-cases (lookup id s.tuples)) [
  | inl missing ↦ ground (arith, h)
  | inr (t, there) ↦ record {
    plain = ground (arith, h.plain);
    indexed = delete_tuple-IsIndexed id s h.indexed;
    clean = λ i x e. h.clean i x (ground (arith, lookup-remove id i s.tuples));
  }
]

revoke_from_rules :
    (st sid : Text) (ids : List Text) (acc : ℕ × Store)
    → (revoke_subject_from st sid ids acc).1.rules ≡ acc.1.rules
unfolding revoke_subject_from revoke_subject_at drop_tuple
revoke_from_rules st sid [] acc = refl
revoke_from_rules st sid (id ∷ ids) acc =
    ground (arith, revoke_from_rules st sid ids (revoke_subject_at st sid id acc))

unless_some :
    (st sid : Text) (o : Option Tuple) (t : Tuple) → unless_subject st sid o ≡ some t → o ≡ some t
unless_some st sid none t e = e
unless_some st sid (some x) t e = ground arith

cascade_revoke_subject-IsSound :
    (st sid : Text) (s : Store) → IsSound s → IsSound (cascade_revoke_subject st sid s).1
cascade_revoke_subject-IsSound st sid s h = record {
  plain =
      unfold cascade_revoke_subject in (revoke_from_rules st sid (keys s.tuples) (0, s) ∙ h.plain);
  indexed = cascade_revoke_subject-IsIndexed st sid s h.indexed;
  clean = λ i x e. h.clean i x (
      unless_some st sid (lookup i s.tuples) x
        (sym (lookup-cascade_revoke_subject st sid i s) ∙ e));
}

Reach-IsSound : (s : Store) → Reach s → IsSound s
unfolding lookup
Reach-IsSound _ (start depth fan_out) = record {
  plain = refl;
  indexed = record {
    forward = λ i t e. absurd (ground arith);
    backward = λ k i e. absurd (ground arith);
  };
  clean = λ i t e. absurd (ground arith);
}
Reach-IsSound _ (created_call i u now s fresh subject r) =
    create_tuple-IsSound i u now s fresh subject (Reach-IsSound s r)
Reach-IsSound _ (deleted_call id s r) = delete_tuple-IsSound id s (Reach-IsSound s r)
Reach-IsSound _ (cascaded_call st sid s r) =
    cascade_revoke_subject-IsSound st sid s (Reach-IsSound s r)

-- The tuple has the five parts of the request.
abbrev pub Answers : Tuple → CheckInput → Type 0
Answers t i =
    (t.subject_type ≡ i.subject_type)
    × (t.subject_id ≡ i.subject_id)
    × (t.relation ≡ i.relation)
    × (t.object_type ≡ i.object_type)
    × (t.object_id ≡ i.object_id)

-- Check without rules is an exact match of five parts. Take any store that calls of CreateTuple,
-- DeleteTuple and CascadeRevokeSubject make from one without tuples and rules, where minted ids are
-- not in use and no subject id of a created tuple has a bar in it, and a request with no bar in its
-- first four parts. Check allows it by `id` exactly when the tuple stored as `id` has the subject
-- type, the subject id, the relation, the object type and the object id of the request.
pub check_exact :
    (s : Store) (i : CheckInput) (id : Text)
    → Reach s
    → IsClean i.subject_type i.subject_id i.relation i.object_type
    → (check i s ≡ ok (record { allowed = true; matched_tuple_id = some id }))
      ↔ ((t : Tuple) × (lookup id s.tuples ≡ some t) × Answers t i)
unfolding check
check_exact s i id r k =
    let h = Reach-IsSound s r in
    let plain = h.plain in
    let key = natural_key i.subject_type i.subject_id i.relation i.object_type i.object_id in
    (
      λ e.
          let found : direct_lookup i.subject_type i.subject_id s (frame_of i) ≡ some id =
            ground arith in
          let (t, there, same) = h.indexed.backward key id found in
          (
            t,
            there,
            natural_key-injective t.subject_type t.subject_id t.relation t.object_type t.object_id
                i.subject_type i.subject_id i.relation i.object_type i.object_id
                (h.clean id t there) k same,
          ),
      λ (t, there, answers).
          let (a, b, c, d, e) = answers in
          let same : key_of t ≡ key = rw (a, b, c, d, e) refl in
          let found : direct_lookup i.subject_type i.subject_id s (frame_of i) ≡ some id =
            (sym (ap (λ (x : Text). lookup x s.natural) same)) ∙ h.indexed.forward id t there in
          ground arith,
    )
