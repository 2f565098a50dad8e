-- ===== src/Flags/View.antt =====
-- packages/flags/store.go and inmem.go: the store as a map from scope and key to flags.
use flametrench_go.Base.{
  ℕ, ◌≡◌, refl, inl, inr, Bool, true, false, not, ◌&&◌, Option, none, some, [], ◌∷◌, arith,
  if◌then◌else◌, Text, bytes, present, ◌==◌, lookup, eq_iff, lookup-insert, lookup-remove,
  lookup-insert_self, Option-cases,
}
use flametrench_go.Base.Result.{ok, err}
use flametrench_go.Ids.{Uuids, generate, is_valid}
use flametrench_go.Patterns.{matches, is_key_char}
use flametrench_go.Flags.{
  Flag, Store, CreateFlagInput, UpdateFlagInput, scope_key, key_of, new_flag, put_flag, switched,
  updated, validate_rules, create_flag, update_flag, delete_flag, invalid_format,
}
use flametrench_go.Flags.Index.{
  IsSound, accepts, admitted, create_flag-cases, update_flag-cases, put_flag-IsSound,
  update_flag_missing, Op, create, update, delete, run, IsFresh, Reach, Reach-IsSound,
}

-- The abstract state: a function from the composed key to the flag, if there is one.
abbrev pub View : Type 0
View = Text → Option Flag

-- The view of a store, through its index.
unfoldable pub view : Store → View
view s k = elim (lookup k s.by_key) [ none ↦ none | some id ↦ lookup id s.flags ]

-- The abstract writes.
abbrev pub written : Flag → View → View
written f v k = if key_of f == k then some f else v k

abbrev pub erased : Text → View → View
erased gone v k = if gone == k then none else v k

module _ (s : Store) (h : IsSound s) where
  -- A flag is seen under its own key.
  view-stored : (id : Text) (f : Flag) → lookup id s.flags ≡ some f → view s (key_of f) ≡ some f
  unfolding view
  view-stored id f stored = ground (arith, h.listed id f)

  view-admitted :
      (id : Text) (f : Flag) (k : Text)
      → lookup id s.flags ≡ none
      → view (admitted id f s) k ≡ written f (view s) k
  unfolding view
  view-admitted id f k new = elim (Option-cases (lookup k s.by_key)) [
    | inl absent ↦
        ground (arith, lookup-insert (key_of f) k id s.by_key, lookup-insert_self id f s.flags)
    | inr (j, known) ↦
        let (g, stored, same) = h.named k j known in
        ground (
          arith,
          eq_iff id j,
          lookup-insert (key_of f) k id s.by_key,
          lookup-insert id j f s.flags,
          lookup-insert_self id f s.flags,
        )
  ]

  view-put_flag :
      (id : Text) (f g : Flag) (k : Text)
      → lookup id s.flags ≡ some f
      → key_of g ≡ key_of f
      → view (put_flag id g s) k ≡ written g (view s) k
  unfolding view put_flag
  view-put_flag id f g k stored same = elim (Option-cases (lookup k s.by_key)) [
    | inl absent ↦ ground (arith, same, eq_iff (key_of g) k, h.listed id f)
    | inr (j, known) ↦
        let (x, ex, ek) = h.named k j known in
        ground (
          arith,
          same,
          ek,
          eq_iff id j,
          eq_iff (key_of g) k,
          h.listed id f,
          lookup-insert id j g s.flags,
        )
  ]

  view-delete_flag :
      (id : Text) (f : Flag) (k : Text)
      → lookup id s.flags ≡ some f
      → view (delete_flag id s).1 k ≡ erased (key_of f) (view s) k
  unfolding view delete_flag
  view-delete_flag id f k stored = elim (Option-cases (lookup k s.by_key)) [
    | inl absent ↦ ground (arith, lookup-remove (key_of f) k s.by_key)
    | inr (j, known) ↦
        let (x, ex, ek) = h.named k j known in
        ground (
          arith,
          ek,
          eq_iff id j,
          eq_iff (key_of f) k,
          lookup-remove (key_of f) k s.by_key,
          lookup-remove id j s.flags,
        )
  ]

-- What each call means for the abstract map, where `target` is the flag that the call's id stands for.
abbrev pub creates : CreateFlagInput → View → Bool
creates i v =
    is_valid i.scope (bytes "org" ∷ [])
    && (matches is_key_char 1 128 i.key
        && (validate_rules i.rules && not (present (v (scope_key i.scope i.key)))))

unfoldable pub spec : Op → Option Flag → View → View
spec (create i u now) target v =
    if creates i v
    then elim (generate u (bytes "flag")) [ err e ↦ v | ok id ↦ written (new_flag id i now) v ]
    else v
spec (update i now) none v = v
spec (update i now) (some f) v = written (updated i f now) v
spec (delete id) none v = v
spec (delete id) (some f) v = erased (key_of f) v

abbrev pub target : Op → Store → Option Flag
target (create i u now) s = none
target (update i now) s = lookup i.id s.flags
target (delete id) s = lookup id s.flags

-- An update brings valid rules, or none.
abbrev pub IsAccepted : Op → Type 0
IsAccepted (create i u now) = Unit {0}
IsAccepted (update i now) = (i.update_rules && not (validate_rules i.rules)) ≡ false
IsAccepted (delete id) = Unit {0}

creates-accepts : (i : CreateFlagInput) (s : Store) → IsSound s → creates i (view s) ≡ accepts i s
unfolding view
creates-accepts i s h = elim (Option-cases (lookup (scope_key i.scope i.key) s.by_key)) [
  | inl free ↦ ground arith
  | inr (id, taken) ↦
      let found = h.named (scope_key i.scope i.key) id taken in ground (arith, found.1)
]

view-run_create :
    (i : CreateFlagInput) (u : Uuids) (now : ℕ) (s : Store) (k : Text)
    → IsSound s
    → IsFresh (create i u now) s
    → view (create_flag i u now s).1 k ≡ spec (create i u now) none (view s) k
unfolding spec new_flag
view-run_create i u now s k h fresh =
    let seen = creates-accepts i s h in
    elim (create_flag-cases i u now s) [
      | inl (bad, same) ↦ ground (arith, same, seen)
      | inr (inl (e, failed, same)) ↦ ground (arith, same, seen)
      | inr (inr (id, drawn, good, made)) ↦
          ground (arith, made, seen, view-admitted s h id (new_flag id i now) k (fresh id drawn))
    ]

view-run_update :
    (i : UpdateFlagInput) (now : ℕ) (s : Store) (k : Text)
    → IsSound s
    → IsAccepted (update i now)
    → view (update_flag i now s).1 k ≡ spec (update i now) (lookup i.id s.flags) (view s) k
unfolding spec
view-run_update i now s k h good = elim (Option-cases (lookup i.id s.flags)) [
  | inl missing ↦ ground (arith, update_flag_missing i now s missing)
  | inr (f, stored) ↦ elim (update_flag-cases i now s f stored) [
    | inl (bad, same, result) ↦ absurd (ground arith)
    | inr (fine, same, result) ↦
        let half = put_flag i.id (switched i f) s in
        let h' =
          put_flag-IsSound s h i.id f (switched i f) stored (unfold switched in refl)
            (unfold switched in (h.valid i.id f stored)) in
        let key1 : key_of (switched i f) ≡ key_of f = unfold switched in refl in
        let key2 : key_of (updated i f now) ≡ key_of (switched i f) = unfold updated in refl in
        let there : lookup i.id half.flags ≡ some (switched i f) =
          unfold put_flag in (lookup-insert_self i.id (switched i f) s.flags) in
        ground (
          arith,
          same,
          key1,
          key2,
          view-put_flag half h' i.id (switched i f) (updated i f now) k there key2,
          view-put_flag s h i.id f (switched i f) k stored key1,
        )
  ]
]

delete_flag_missing : (id : Text) (s : Store) → lookup id s.flags ≡ none → (delete_flag id s).1 ≡ s
unfolding delete_flag
delete_flag_missing id s missing = ground arith

view-run_delete :
    (id : Text) (s : Store) (k : Text)
    → IsSound s
    → view (delete_flag id s).1 k ≡ spec (delete id) (lookup id s.flags) (view s) k
unfolding spec
view-run_delete id s k h = elim (Option-cases (lookup id s.flags)) [
  | inl missing ↦ ground (arith, delete_flag_missing id s missing)
  | inr (f, stored) ↦ ground (arith, view-delete_flag s h id f k stored)
]

-- The store refines the abstract map: on every store that calls lead to, CreateFlag with a new id,
-- UpdateFlag with valid rules or none, and DeleteFlag change the flag seen under each key exactly as
-- the abstract map says.
pub view-run :
    (s : Store) (op : Op) (k : Text)
    → Reach s
    → IsFresh op s
    → IsAccepted op
    → view (run op s) k ≡ spec op (target op s) (view s) k
unfolding run
view-run s (create i u now) k r fresh good = view-run_create i u now s k (Reach-IsSound s r) fresh
view-run s (update i now) k r fresh good = view-run_update i now s k (Reach-IsSound s r) good
view-run s (delete id) k r fresh good = view-run_delete id s k (Reach-IsSound s r)

-- UpdateFlag with rules that are not valid reports invalid_format, and yet the switches of the input
-- are in the store: the flag is seen with them, and its old rules.
pub rejected_update_writes :
    (i : UpdateFlagInput) (now : ℕ) (s : Store) (f : Flag) (k : Text)
    → Reach s
    → lookup i.id s.flags ≡ some f
    → i.update_rules ≡ true
    → validate_rules i.rules ≡ false
    → ((update_flag i now s).0 ≡ err invalid_format)
      × (view (update_flag i now s).1 k ≡ written (switched i f) (view s) k)
rejected_update_writes i now s f k r stored asks bad = elim (update_flag-cases i now s f stored) [
  | inr (fine, same, result) ↦ absurd (ground arith)
  | inl (refused, same, result) ↦ (
    result,
    ground (
      arith,
      same,
      view-put_flag s (Reach-IsSound s r) i.id f (switched i f) k stored (unfold switched in refl),
    ),
  )
]
