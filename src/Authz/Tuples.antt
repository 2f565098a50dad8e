-- ===== src/Authz/Tuples.antt =====
-- packages/authz/inmem.go: InMemoryTupleStore. Check without rules reads the natural-key index; with
-- rules it runs the evaluation over the same index and the stored tuples.
pub mod Index
pub mod Checks
pub mod Cascade
pub mod Exact
use flametrench_go.Base.{
  ℕ, zero, suc, ◌+◌, Bool, true, false, not, ◌&&◌, ◌||◌, Option, none, some, List, [], ◌∷◌, ◌++◌,
  ltb, eqb, if◌then◌else◌, present, Text, bytes, ◌==◌, Map, lookup, insert, remove, keys, before,
}
use flametrench_go.Base.Result.{Result, ok, err}
use flametrench_go.Base.Action.{
  Action, ◌>>=◌, ◌>>◌, pure, raise, lift, gets, or_raise, raise_if, modify,
}
use flametrench_go.Ids.{IdError, Uuids, generate}
use flametrench_go.Paging.{page_limit, page_at, start_index, Page, paginate, sort_slice}
use flametrench_go.Patterns.{is_relation_name, is_type_prefix}
use flametrench_go.Authz.Types.{
  Tuple, CheckResult, Error, invalid_format, duplicate_tuple, tuple_not_found, empty_relation_set,
  id_error,
}
use flametrench_go.Authz.Rules.{Rules, SubjectRef, Frame, Evaluation, Answer, max_fan_out, evaluate}

pub record Store : Type 0 where
  pub tuples : Map Tuple
  pub natural : Map Text
  pub rules : Option Rules
  pub depth : ℕ
  pub fan_out : ℕ

abbrev pub Method : Type 0 → Type 0
Method A = Action Store Error A

-- NewInMemoryTupleStore
abbrev pub empty : Store
empty = record { tuples = []; natural = []; rules = none; depth = 0; fan_out = 0 }

-- tupleNaturalKey
unfoldable pub natural_key : Text → Text → Text → Text → Text → Text
natural_key subject_type subject_id relation object_type object_id =
    subject_type
    ++ (b'|' ∷ subject_id ++ (b'|' ∷ relation ++ (b'|' ∷ object_type ++ (b'|' ∷ object_id))))

abbrev pub key_of : Tuple → Text
key_of t = natural_key t.subject_type t.subject_id t.relation t.object_type t.object_id

pub record CreateTupleInput : Type 0 where
  pub subject_type : Text
  pub subject_id : Text
  pub relation : Text
  pub object_type : Text
  pub object_id : Text
  pub created_by : Option Text

abbrev pub input_key : CreateTupleInput → Text
input_key i = natural_key i.subject_type i.subject_id i.relation i.object_type i.object_id

unfoldable pub new_tuple : Text → CreateTupleInput → ℕ → Tuple
new_tuple id i now = record {
  id = id;
  subject_type = i.subject_type;
  subject_id = i.subject_id;
  relation = i.relation;
  object_type = i.object_type;
  object_id = i.object_id;
  created_at = now;
  created_by = i.created_by;
}

abbrev pub from_ids : Result IdError Text → Result Error Text
from_ids (ok id) = ok id
from_ids (err e) = err (id_error e)

-- s.tuples[id] = t and s.naturalKeyToID[key] = id
unfoldable pub put_tuple : Text → Tuple → Store → Store
put_tuple id t s = record s {
  tuples = insert id t s.tuples;
  natural = insert (key_of t) id s.natural;
}

-- delete(s.tuples, id) and delete(s.naturalKeyToID, …)
unfoldable pub drop_tuple : Text → Tuple → Store → Store
drop_tuple id t s = record s { tuples = remove id s.tuples; natural = remove (key_of t) s.natural }

unfoldable pub create_tuple : CreateTupleInput → Uuids → ℕ → Method Tuple
create_tuple i u now = do
  raise_if (not (is_relation_name i.relation)) invalid_format
  raise_if (not (is_type_prefix i.subject_type)) invalid_format
  raise_if (not (is_type_prefix i.object_type)) invalid_format
  raise_if (← gets (λ s. present (lookup (input_key i) s.natural))) duplicate_tuple
  id ← lift (from_ids (generate u (bytes "tup")))
  modify (put_tuple id (new_tuple id i now))
  pure (new_tuple id i now)

unfoldable pub delete_tuple : Text → Method (Unit {0})
delete_tuple id = do
  t ← or_raise (← gets (λ s. lookup id s.tuples)) tuple_not_found
  modify (drop_tuple id t)

-- One turn of the loop of CascadeRevokeSubject; the count rises where a tuple is dropped.
unfoldable pub revoke_subject_at : Text → Text → Text → ℕ × Store → ℕ × Store
revoke_subject_at subject_type subject_id id (n, s) = elim (lookup id s.tuples) [
  | none ↦ (n, s)
  | some t ↦
      if t.subject_type == subject_type && t.subject_id == subject_id
      then (n + 1, drop_tuple id t s)
      else (n, s)
]

unfoldable pub revoke_subject_from : Text → Text → List Text → ℕ × Store → ℕ × Store
revoke_subject_from subject_type subject_id [] acc = acc
revoke_subject_from subject_type subject_id (id ∷ ids) acc =
    revoke_subject_from subject_type subject_id ids
      (revoke_subject_at subject_type subject_id id acc)

unfoldable pub cascade_revoke_subject : Text → Text → Method ℕ
cascade_revoke_subject subject_type subject_id s =
    let (n, s') = revoke_subject_from subject_type subject_id (keys s.tuples) (0, s) in (ok n, s')

pub record CheckInput : Type 0 where
  pub subject_type : Text
  pub subject_id : Text
  pub relation : Text
  pub object_type : Text
  pub object_id : Text

-- The subjects of the stored tuples on an object: the ListByObject callback.
unfoldable pub subjects_on : Text → Text → Text → Map Tuple → List SubjectRef
subjects_on object_type object_id relation [] = []
subjects_on object_type object_id relation ((id, t) ∷ m) =
    let rest = subjects_on object_type object_id relation m in
    if t.object_type == object_type && (t.object_id == object_id && t.relation == relation)
    then record { subject_type = t.subject_type; subject_id = t.subject_id; tuple_id = t.id } ∷ rest
    else rest

-- The DirectLookup callback for the request's subject.
abbrev pub direct_lookup : Text → Text → Store → Frame → Option Text
direct_lookup subject_type subject_id s f =
    lookup (natural_key subject_type subject_id f.relation f.object_type f.object_id) s.natural

abbrev pub result_of : Option Text → CheckResult
result_of none = record { allowed = false; matched_tuple_id = none }
result_of (some id) = record { allowed = true; matched_tuple_id = some id }

abbrev pub result_of_evaluation : Answer → Result Error CheckResult
result_of_evaluation (err e) = err e
result_of_evaluation (ok r) = ok (
    if r.allowed
    then record { allowed = true; matched_tuple_id = some r.matched_tuple_id }
    else record { allowed = false; matched_tuple_id = none })

abbrev pub frame_of : CheckInput → Frame
frame_of i = record { relation = i.relation; object_type = i.object_type; object_id = i.object_id }

unfoldable pub check_with : Rules → CheckInput → Store → Result Error CheckResult
check_with rules i s = result_of_evaluation (
    evaluate (some rules) (direct_lookup i.subject_type i.subject_id s)
      (λ object_type object_id relation. subjects_on object_type object_id relation s.tuples)
      (max_fan_out s.fan_out) s.depth (frame_of i))

-- Check reads the store only.
unfoldable pub check : CheckInput → Store → Result Error CheckResult
unfolding check_with
check i s = elim s.rules [
  | none ↦ ok (result_of (direct_lookup i.subject_type i.subject_id s (frame_of i)))
  | some rules ↦ check_with rules i s
]

-- The loop of CheckAny over the relations.
unfoldable pub check_each : CheckInput → List Text → Store → Result Error CheckResult
check_each i [] s = ok (result_of none)
check_each i (relation ∷ relations) s =
    let later = check_each i relations s in
    elim (check (record i { relation = relation }) s) [
      | err e ↦ err e
      | ok r ↦ if r.allowed then ok r else later
    ]

unfoldable pub check_any : CheckInput → List Text → Store → Result Error CheckResult
unfolding check_each
check_any i [] s = err empty_relation_set
check_any i (relation ∷ relations) s = check_each i (relation ∷ relations) s

unfoldable pub get_tuple : Text → Method Tuple
get_tuple id = do or_raise (← gets (λ s. lookup id s.tuples)) tuple_not_found

unfoldable pub select_tuples : (Tuple → Bool) → Map Tuple → List Tuple
select_tuples p [] = []
select_tuples p ((id, t) ∷ m) = let rest = select_tuples p m in if p t then t ∷ rest else rest

-- The order of paginateTuples: the time of creation, then the id.
unfoldable pub created_before : Tuple → Tuple → Bool
created_before t u =
    ltb t.created_at u.created_at || (eqb t.created_at u.created_at && before t.id u.id)

unfoldable pub paginate_tuples : List Tuple → Option Text → ℕ → Page Tuple
unfolding page_at start_index sort_slice created_before
paginate_tuples matched cursor limit =
    let sorted = sort_slice created_before matched in
    page_at (λ t. t.id) (start_index (λ t. t.id) cursor sorted) limit sorted

unfoldable pub list_tuples_by_subject : Text → Text → Option Text → ℕ → Method (Page Tuple)
list_tuples_by_subject subject_type subject_id cursor limit = gets (λ s.
    paginate_tuples
      (select_tuples (λ t. t.subject_type == subject_type && t.subject_id == subject_id) s.tuples)
      cursor (page_limit limit))

abbrev has_relation : Option Text → Text → Bool
has_relation none relation = true
has_relation (some want) relation = relation == want

unfoldable pub list_tuples_by_object :
    Text → Text → Option Text → Option Text → ℕ → Method (Page Tuple)
list_tuples_by_object object_type object_id relation cursor limit = gets (λ s.
    paginate_tuples
      (select_tuples
        (λ t.
          (t.object_type == object_type && t.object_id == object_id)
          && has_relation relation t.relation)
        s.tuples)
      cursor (page_limit limit))
