-- ===== src/Flags/Index.antt =====
-- packages/flags/inmem.go: the index by scope and key, and the flags that it names.
use flametrench_go.Base.{
  ℕ, ◌≡◌, ◌⊎◌, refl, sym, subst, inl, inr, Bool, true, false, not, ◌&&◌, none, some, [], ◌∷◌, arith,
  present, Text, bytes, ◌==◌, lookup, insert, remove, eq_iff, lookup-insert, lookup-remove,
  lookup-insert_self, Option-cases, Bool-cases,
}
use flametrench_go.Base.Result.{ok, err, Result-cases}
use flametrench_go.Ids.{IdError, Uuids, generate, is_valid}
use flametrench_go.Patterns.{matches, is_key_char}
use flametrench_go.Flags.{
  Flag, Store, empty, CreateFlagInput, UpdateFlagInput, scope_key, key_of, new_flag, put_flag,
  switched, updated, validate_rules, create_flag, update_flag, delete_flag, invalid_format,
  not_found,
}

-- The index names stored flags under their own keys, and all of them; their rules are valid.
pub record IsSound (s : Store) : Type 0 where
  pub named :
      (k id : Text)
      → lookup k s.by_key ≡ some id
      → (f : Flag) × (lookup id s.flags ≡ some f) × (key_of f ≡ k)
  pub listed :
      (id : Text) (f : Flag) → lookup id s.flags ≡ some f → lookup (key_of f) s.by_key ≡ some id
  pub valid : (id : Text) (f : Flag) → lookup id s.flags ≡ some f → validate_rules f.rules ≡ true

-- What CreateFlag writes.
abbrev pub admitted : Text → Flag → Store → Store
admitted id f s = record s { flags = insert id f s.flags; by_key = insert (key_of f) id s.by_key }

-- The tests of CreateFlag.
abbrev pub accepts : CreateFlagInput → Store → Bool
accepts i s =
    is_valid i.scope (bytes "org" ∷ [])
    && (matches is_key_char 1 128 i.key
        && (validate_rules i.rules && not (present (lookup (scope_key i.scope i.key) s.by_key))))

-- CreateFlag changes nothing where a test or the draw of the id fails; else it admits the new flag.
pub create_flag-cases :
    (i : CreateFlagInput) (u : Uuids) (now : ℕ) (s : Store)
    → ((accepts i s ≡ false) × ((create_flag i u now s).1 ≡ s))
      ⊎ ((e : IdError) × (generate u (bytes "flag") ≡ err e) × ((create_flag i u now s).1 ≡ s))
      ⊎ ((id : Text) × (generate u (bytes "flag") ≡ ok id)
          × (accepts i s ≡ true)
          × ((create_flag i u now s).1 ≡ admitted id (new_flag id i now) s))
unfolding create_flag put_flag new_flag
create_flag-cases i u now s = elim (Bool-cases (accepts i s)) [
  | inr bad ↦ inl (bad, ground arith)
  | inl good ↦ elim (Result-cases (generate u (bytes "flag"))) [
    | inr (e, failed) ↦ inr (inl (e, failed, ground arith))
    | inl (id, drawn) ↦ inr (inr (id, drawn, good, ground arith))
  ]
]

module _ (s : Store) (h : IsSound s) where
  pub admitted-IsSound :
      (id : Text) (f : Flag)
      → lookup id s.flags ≡ none
      → lookup (key_of f) s.by_key ≡ none
      → validate_rules f.rules ≡ true
      → IsSound (admitted id f s)
  admitted-IsSound id f new free good = record {
    named = λ k j e. named_after k j e;
    listed = λ j g e. ground (
      arith,
      eq_iff id j,
      eq_iff (key_of f) (key_of g),
      lookup-insert id j f s.flags,
      lookup-insert (key_of f) (key_of g) id s.by_key,
      h.listed j g,
    );
    valid = λ j g e. ground (arith, eq_iff id j, lookup-insert id j f s.flags, h.valid j g);
  }
    where
      named_after :
          (k j : Text)
          → lookup k (insert (key_of f) id s.by_key) ≡ some j
          → (g : Flag) × (lookup j (insert id f s.flags) ≡ some g) × (key_of g ≡ k)
      named_after k j e = elim (Option-cases (lookup k s.by_key)) [
        | inl absent ↦ (
          f,
          ground (
            arith,
            eq_iff id j,
            lookup-insert id j f s.flags,
            lookup-insert (key_of f) k id s.by_key,
          ),
          ground (arith, eq_iff (key_of f) k, lookup-insert (key_of f) k id s.by_key),
        )
        | inr (i, known) ↦
            let same : lookup k s.by_key ≡ some j =
              ground (arith, eq_iff (key_of f) k, lookup-insert (key_of f) k id s.by_key) in
            let (g, eg, ek) = h.named k j same in
            (g, ground (arith, eq_iff id j, lookup-insert id j f s.flags), ek)
      ]

  -- A write through a flag's pointer that keeps its key and leaves its rules valid.
  pub put_flag-IsSound :
      (id : Text) (f g : Flag)
      → lookup id s.flags ≡ some f
      → key_of g ≡ key_of f
      → validate_rules g.rules ≡ true
      → IsSound (put_flag id g s)
  unfolding put_flag
  put_flag-IsSound id f g stored same good = record {
    named = λ k j e.
        let (x, ex, ek) = h.named k j e in
        elim (Bool-cases (id == j)) [
          | inl hit ↦ (
            g,
            ground (arith, lookup-insert id j g s.flags),
            ground (arith, same, ek, eq_iff id j),
          )
          | inr miss ↦ (x, ground (arith, lookup-insert id j g s.flags), ek)
        ];
    listed = λ j x e.
        ground
          (arith, same, eq_iff id j, lookup-insert id j g s.flags, h.listed j x, h.listed id f);
    valid = λ j x e. ground (arith, eq_iff id j, lookup-insert id j g s.flags, h.valid j x);
  }

  pub delete_flag-IsSound : (id : Text) → IsSound (delete_flag id s).1
  unfolding delete_flag
  delete_flag-IsSound id = elim (Option-cases (lookup id s.flags)) [
    | inl missing ↦
        let same : (delete_flag id s).1 ≡ s = ground arith in subst (λ t. IsSound t) (sym same) h
    | inr (f, stored) ↦
        let s' : Store = record s {
          by_key = remove (key_of f) s.by_key;
          flags = remove id s.flags;
        } in
        let same : (delete_flag id s).1 ≡ s' = ground arith in
        subst (λ t. IsSound t) (sym same)
          (record {
            named = λ k j e.
                let old : lookup k s.by_key ≡ some j =
                  ground (arith, lookup-remove (key_of f) k s.by_key) in
                let (x, ex, ek) = h.named k j old in
                (
                  x,
                  ground (
                    arith,
                    eq_iff id j,
                    ek,
                    eq_iff (key_of f) k,
                    lookup-remove (key_of f) k s.by_key,
                    lookup-remove id j s.flags,
                  ),
                  ek,
                );
            listed = λ j x e. ground (
              arith,
              eq_iff id j,
              eq_iff (key_of f) (key_of x),
              lookup-remove (key_of f) (key_of x) s.by_key,
              lookup-remove id j s.flags,
              h.listed j x,
              h.listed id f,
            );
            valid = λ j x e. ground (arith, lookup-remove id j s.flags, h.valid j x);
          })
  ]

  pub create_flag-IsSound :
      (i : CreateFlagInput) (u : Uuids) (now : ℕ)
      → ((id : Text) → generate u (bytes "flag") ≡ ok id → lookup id s.flags ≡ none)
      → IsSound (create_flag i u now s).1
  create_flag-IsSound i u now fresh = elim (create_flag-cases i u now s) [
    | inl (bad, same) ↦ subst (λ t. IsSound t) (sym same) h
    | inr (inl (e, failed, same)) ↦ subst (λ t. IsSound t) (sym same) h
    | inr (inr (id, drawn, good, made)) ↦
        let free : lookup (scope_key i.scope i.key) s.by_key ≡ none = ground arith in
        let rules : validate_rules i.rules ≡ true = ground arith in
        subst (λ t. IsSound t) (sym made)
          (admitted-IsSound id (new_flag id i now) (fresh id drawn) (unfold new_flag in free)
            (unfold new_flag in rules))
  ]

-- UpdateFlag writes through the pointer before it looks at the rules, and again after.
pub update_flag-cases :
    (i : UpdateFlagInput) (now : ℕ) (s : Store) (f : Flag)
    → lookup i.id s.flags ≡ some f
    → let half = put_flag i.id (switched i f) s in
      (((i.update_rules && not (validate_rules i.rules)) ≡ true)
        × ((update_flag i now s).1 ≡ half)
        × ((update_flag i now s).0 ≡ err invalid_format))
      ⊎ (((i.update_rules && not (validate_rules i.rules)) ≡ false)
          × ((update_flag i now s).1 ≡ put_flag i.id (updated i f now) half)
          × ((update_flag i now s).0 ≡ ok (updated i f now)))
unfolding update_flag
update_flag-cases i now s f stored =
    elim (Bool-cases (i.update_rules && not (validate_rules i.rules))) [
      | inl bad ↦ inl (bad, ground arith, ground arith)
      | inr good ↦ inr (good, ground arith, ground arith)
    ]

pub update_flag_missing :
    (i : UpdateFlagInput) (now : ℕ) (s : Store)
    → lookup i.id s.flags ≡ none
    → update_flag i now s ≡ (err not_found, s)
unfolding update_flag
update_flag_missing i now s missing = ground arith

updated_rules :
    (i : UpdateFlagInput) (f : Flag) (now : ℕ)
    → (i.update_rules && not (validate_rules i.rules)) ≡ false
    → validate_rules f.rules ≡ true
    → validate_rules (updated i f now).rules ≡ true
unfolding updated
updated_rules i f now good old = ground arith

pub update_flag-IsSound :
    (s : Store) → IsSound s → (i : UpdateFlagInput) (now : ℕ) → IsSound (update_flag i now s).1
update_flag-IsSound s h i now = elim (Option-cases (lookup i.id s.flags)) [
  | inl missing ↦ rw (update_flag_missing i now s missing) h
  | inr (f, stored) ↦
      let half = put_flag i.id (switched i f) s in
      let h' =
        put_flag-IsSound s h i.id f (switched i f) stored (unfold switched in refl)
          (unfold switched in (h.valid i.id f stored)) in
      elim (update_flag-cases i now s f stored) [
        | inl (bad, same, result) ↦ subst (λ t. IsSound t) (sym same) h'
        | inr (good, same, result) ↦
            subst (λ t. IsSound t) (sym same)
              (put_flag-IsSound half h' i.id (switched i f) (updated i f now)
                (unfold put_flag in (lookup-insert_self i.id (switched i f) s.flags))
                (unfold updated in refl) (updated_rules i f now good (h.valid i.id f stored)))
      ]
]

-- The calls that write.
pub data Op : Type 0 where
  create : CreateFlagInput → Uuids → ℕ → Op
  update : UpdateFlagInput → ℕ → Op
  delete : Text → Op

unfoldable pub run : Op → Store → Store
run (create i u now) s = (create_flag i u now s).1
run (update i now) s = (update_flag i now s).1
run (delete id) s = (delete_flag id s).1

-- The uuid that CreateFlag draws is not in use.
abbrev pub IsFresh : Op → Store → Type 0
IsFresh (create i u now) s =
    (id : Text) → generate u (bytes "flag") ≡ ok id → lookup id s.flags ≡ none
IsFresh (update i now) s = Unit {0}
IsFresh (delete id) s = Unit {0}

-- The stores that some sequence of calls leads to.
pub data Reach : Store → Type 0 where
  start : (s : Store) → s ≡ empty → Reach s
  next : (s s' : Store) (op : Op) → Reach s → IsFresh op s → s' ≡ run op s → Reach s'

run-IsSound : (op : Op) (s : Store) → IsSound s → IsFresh op s → IsSound (run op s)
unfolding run
run-IsSound (create i u now) s h fresh = create_flag-IsSound s h i u now fresh
run-IsSound (update i now) s h fresh = update_flag-IsSound s h i now
run-IsSound (delete id) s h fresh = delete_flag-IsSound s h id

IsSound-empty : IsSound empty
unfolding lookup
IsSound-empty = record {
  named = λ k id e. absurd (ground arith);
  listed = λ id f e. absurd (ground arith);
  valid = λ id f e. absurd (ground arith);
}

pub Reach-IsSound : (s : Store) → Reach s → IsSound s
Reach-IsSound s (start _ e) = subst (λ t. IsSound t) (sym e) IsSound-empty
Reach-IsSound s (next s0 _ op before_ fresh e) =
    subst (λ t. IsSound t) (sym e) (run-IsSound op s0 (Reach-IsSound s0 before_) fresh)
