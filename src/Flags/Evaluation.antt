-- ===== src/Flags/Evaluation.antt =====
-- packages/flags/inmem.go and bucket.go: what Evaluate answers.
use flametrench_go.Base.{
  ℕ, ◌<◌, ◌≤◌, ◌≡◌, ◌≢◌, ◌⊎◌, refl, sym, ap, subst, ◌∙◌, ◌↔◌, inl, inr, Bool, true, false, Option,
  none, some, List, [], ◌∷◌, arith, ltb, Text, ◌==◌, lookup, eq_iff, Option-cases, Bool-cases, ℤ,
  pos, negsuc,
}
use flametrench_go.Base.Result.{ok}
use flametrench_go.Flags.{
  Rule, RuleObject, Flag, Store, CheckFn, rule_kind_authz, rule_kind_percentage, is_valid_rule,
  validate_rules, in_basis, scope_key, uint32, assign_bucket, decides, first_match, evaluate_flag,
  evaluate,
}
use flametrench_go.Flags.Index.{IsSound, Reach, Reach-IsSound}

module _ (sha256 : Text → Text) where
  -- The subjects that a rule targets: those of whom the check holds, and those in its share of the
  -- buckets.
  pub data Targets (key subject : Text) (check : Option CheckFn) : Rule → Type 0 where
    by_check :
        (r : Rule) (c : CheckFn) (o : RuleObject)
        → r.kind ≡ rule_kind_authz
        → check ≡ some c
        → r.object ≡ some o
        → c subject r.relation o.type_of o.id ≡ true
        → Targets key subject check r
    by_share :
        (r : Rule) (n : ℕ)
        → r.kind ≡ rule_kind_percentage
        → r.basis_points ≡ pos n
        → assign_bucket sha256 key subject < n
        → Targets key subject check r

  -- The first rule that targets the subject gives its variant; with none it is the default.
  pub data First (key subject : Text) (check : Option CheckFn) (otherwise : Bool)
      : List Rule → Bool → Type 0 where
    exhausted : First key subject check otherwise [] otherwise
    hit :
        (r : Rule) (rs : List Rule) (b : Bool)
        → Targets key subject check r
        → b ≡ r.variant
        → First key subject check otherwise (r ∷ rs) b
    skip :
        (r : Rule) (rs : List Rule) (b : Bool)
        → ¬ Targets key subject check r
        → First key subject check otherwise rs b
        → First key subject check otherwise (r ∷ rs) b

  kinds_differ : rule_kind_authz ≢ rule_kind_percentage
  unfolding rule_kind_authz rule_kind_percentage
  kinds_differ e = ground arith

  uint32_small : (n : ℕ) → n ≤ 10000 → uint32 (pos n) ≡ n
  unfolding uint32
  uint32_small n small = omega arith

  module _ (key subject : Text) (check : Option CheckFn) where
    check_of :
        (r : Rule)
        → Targets key subject check r
        → r.kind ≡ rule_kind_authz
        → (c : CheckFn) × (o : RuleObject) × (check ≡ some c)
          × (r.object ≡ some o)
          × (c subject r.relation o.type_of o.id ≡ true)
    check_of _ (by_check r c o k ec eo yes_) kind = (c, o, ec, eo, yes_)
    check_of _ (by_share r n k en lt) kind = absurd (kinds_differ (sym kind ∙ k))

    share_of :
        (r : Rule)
        → Targets key subject check r
        → r.kind ≡ rule_kind_percentage
        → (n : ℕ) × (r.basis_points ≡ pos n) × (assign_bucket sha256 key subject < n)
    share_of _ (by_check r c o k ec eo yes_) kind = absurd (kinds_differ (sym k ∙ kind))
    share_of _ (by_share r n k en lt) kind = (n, en, lt)

    abbrev Verdict : Rule → Type 0
    Verdict r =
        ((decides sha256 key subject check r ≡ ok true) × Targets key subject check r)
        ⊎ ((decides sha256 key subject check r ≡ ok false) × (¬ Targets key subject check r))

    by_authz :
        (r : Rule) (o : RuleObject) → r.kind ≡ rule_kind_authz → r.object ≡ some o → Verdict r
    unfolding decides
    by_authz r o kind object = elim (Option-cases check) [
      | inl nil ↦ inr (
        ground (arith, eq_iff r.kind rule_kind_authz),
        λ t. let found = check_of r t kind in ground (arith, found.2),
      )
      | inr (c, given) ↦ elim (Bool-cases (c subject r.relation o.type_of o.id)) [
        | inl yes_ ↦
            inl
              (ground (arith, eq_iff r.kind rule_kind_authz), by_check r c o kind given object yes_)
        | inr no_ ↦ inr (
          ground (arith, eq_iff r.kind rule_kind_authz),
          λ t. let found = check_of r t kind in ground (arith, found.2, found.3, found.4),
        )
      ]
    ]

    by_percentage :
        (r : Rule) (n : ℕ)
        → r.kind ≡ rule_kind_percentage
        → r.basis_points ≡ pos n
        → n ≤ 10000
        → Verdict r
    unfolding decides
    by_percentage r n kind points small =
        let other : (r.kind == rule_kind_authz) ≡ false =
          ground (arith, eq_iff r.kind rule_kind_authz, kinds_differ) in
        elim (Bool-cases (ltb (assign_bucket sha256 key subject) n)) [
          | inl below ↦ inl (
            ground (arith, other, uint32_small n small, eq_iff r.kind rule_kind_percentage),
            by_share r n kind points (ground arith),
          )
          | inr above ↦ inr (
            ground (arith, other, uint32_small n small, eq_iff r.kind rule_kind_percentage),
            λ t. let found = share_of r t kind in ground (arith, found.1, found.2),
          )
        ]

    -- On a valid rule the code decides exactly the targets.
    decides_targets : (r : Rule) → is_valid_rule r ≡ true → Verdict r
    unfolding is_valid_rule
    decides_targets r good = elim (Bool-cases (r.kind == rule_kind_authz)) [
      | inl authz ↦ elim (Option-cases r.object) [
        | inl missing ↦ absurd (ground arith)
        | inr (o, object) ↦ by_authz r o ((eq_iff r.kind rule_kind_authz).0 authz) object
      ]
      | inr other ↦
          let kind : r.kind ≡ rule_kind_percentage =
            ground (arith, eq_iff r.kind rule_kind_percentage) in
          percentage r r.basis_points refl kind (ground arith)
    ]
      where
        percentage :
            (r : Rule) (z : ℤ)
            → r.basis_points ≡ z
            → r.kind ≡ rule_kind_percentage
            → in_basis z ≡ true
            → Verdict r
        percentage r (pos n) points kind small = by_percentage r n kind points (ground arith)
        percentage r (negsuc n) points kind small = absurd (ground arith)

    first_match_lem :
        (otherwise : Bool) (rs : List Rule)
        → validate_rules rs ≡ true
        → (b : Bool) × (first_match sha256 key subject check otherwise rs ≡ ok b)
          × First key subject check otherwise rs b
    unfolding first_match validate_rules
    first_match_lem otherwise [] good = (otherwise, refl, exhausted)
    first_match_lem otherwise (r ∷ rs) good =
        let (b, computed, chosen) = first_match_lem otherwise rs (ground arith) in
        elim (decides_targets r (ground arith)) [
          | inl (decided, targets) ↦
              (r.variant, ground (arith, decided), hit r rs r.variant targets refl)
          | inr (passed, misses) ↦ (b, ground (arith, passed, computed), skip r rs b misses chosen)
        ]

    abbrev Inverted : Bool → List Rule → Bool → Type 0
    Inverted otherwise [] b = b ≡ otherwise
    Inverted otherwise (r ∷ rs) b =
        (Targets key subject check r × (b ≡ r.variant))
        ⊎ ((¬ Targets key subject check r) × First key subject check otherwise rs b)

    invert :
        (otherwise : Bool) (rs : List Rule) (b : Bool)
        → First key subject check otherwise rs b
        → Inverted otherwise rs b
    invert otherwise _ _ exhausted = refl
    invert otherwise _ _ (hit r rs b targets e) = inl (targets, e)
    invert otherwise _ _ (skip r rs b misses rest) = inr (misses, rest)

    First-unique :
        (otherwise : Bool) (rs : List Rule) (b c : Bool)
        → First key subject check otherwise rs b
        → First key subject check otherwise rs c
        → b ≡ c
    First-unique otherwise [] b c p q = invert otherwise [] b p ∙ sym (invert otherwise [] c q)
    First-unique otherwise (r ∷ rs) b c p q = elim (invert otherwise (r ∷ rs) b p) [
      | inl (targets, e) ↦ elim (invert otherwise (r ∷ rs) c q) [
        | inl (targets', e') ↦ e ∙ sym e'
        | inr (misses, rest) ↦ absurd (misses targets)
      ]
      | inr (misses, rest) ↦ elim (invert otherwise (r ∷ rs) c q) [
        | inl (targets, e) ↦ absurd (misses targets)
        | inr (misses', rest') ↦ First-unique otherwise rs b c rest rest'
      ]
    ]

  -- What a store means for a flag's key and a subject: no flag is off, a disabled flag has its
  -- default, and an enabled one follows its rules.
  pub data Answer (scope key subject : Text) (check : Option CheckFn) (s : Store)
      : Bool → Type 0 where
    unknown : lookup (scope_key scope key) s.by_key ≡ none → Answer scope key subject check s false
    disabled :
        (id : Text) (f : Flag) (b : Bool)
        → lookup (scope_key scope key) s.by_key ≡ some id
        → lookup id s.flags ≡ some f
        → f.enabled ≡ false
        → b ≡ f.default_variant
        → Answer scope key subject check s b
    ruled :
        (id : Text) (f : Flag) (b : Bool)
        → lookup (scope_key scope key) s.by_key ≡ some id
        → lookup id s.flags ≡ some f
        → f.enabled ≡ true
        → First f.key subject check f.default_variant f.rules b
        → Answer scope key subject check s b

  module _ (scope key subject : Text) (check : Option CheckFn) where
    answers :
        (s : Store) (h : IsSound s)
        → (b : Bool) × (evaluate sha256 scope key subject check s ≡ ok b)
          × Answer scope key subject check s b
    unfolding evaluate evaluate_flag
    answers s h = elim (Option-cases (lookup (scope_key scope key) s.by_key)) [
      | inl missing ↦ (false, ground arith, unknown missing)
      | inr (id, known) ↦
          let (f, stored, same) = h.named (scope_key scope key) id known in
          elim (Bool-cases f.enabled) [
            | inr off ↦ (
              f.default_variant,
              ground arith,
              disabled id f f.default_variant known stored off refl,
            )
            | inl on ↦
                let (b, computed, chosen) =
                  first_match_lem f.key subject check f.default_variant f.rules
                    (h.valid id f stored) in
                (b, ground arith, ruled id f b known stored on chosen)
          ]
    ]

    abbrev Chosen : Flag → Bool → Type 0
    Chosen f b =
        ((f.enabled ≡ false) × (b ≡ f.default_variant))
        ⊎ ((f.enabled ≡ true) × First f.key subject check f.default_variant f.rules b)

    Chosen-once : (f : Flag) (c b : Bool) → Chosen f c → Chosen f b → c ≡ b
    Chosen-once f c b (inl (off, e)) (inl (off', e')) = e ∙ sym e'
    Chosen-once f c b (inl (off, e)) (inr (on, first)) = absurd (ground arith)
    Chosen-once f c b (inr (on, first)) (inl (off, e)) = absurd (ground arith)
    Chosen-once f c b (inr (on, first)) (inr (on', first')) =
        First-unique f.key subject check f.default_variant f.rules c b first first'

    abbrev Read : Store → Bool → Type 0
    Read s b =
        ((lookup (scope_key scope key) s.by_key ≡ none) × (b ≡ false))
        ⊎ ((id : Text) × (f : Flag) × (lookup (scope_key scope key) s.by_key ≡ some id)
            × (lookup id s.flags ≡ some f)
            × Chosen f b)

    read : (s : Store) (b : Bool) → Answer scope key subject check s b → Read s b
    read s _ (unknown missing) = inl (missing, refl)
    read s _ (disabled id f b known stored off e) = inr (id, f, known, stored, inl (off, e))
    read s _ (ruled id f b known stored on chosen) = inr (id, f, known, stored, inr (on, chosen))

    agree : (s : Store) (c b : Bool) → Read s c → Read s b → c ≡ b
    agree s c b (inl (missing, e)) (inl (missing', e')) = e ∙ sym e'
    agree s c b (inl (missing, e)) (inr (id, f, known, stored, p)) = absurd (ground arith)
    agree s c b (inr (id, f, known, stored, p)) (inl (missing, e)) = absurd (ground arith)
    agree s c b (inr (id, f, known, stored, p)) (inr (jd, g, known', stored', q)) =
        let here : id ≡ jd = ground arith in
        let same : g ≡ f = ground (arith, here) in
        Chosen-once f c b p (subst (λ x. Chosen x b) same q)

    -- On every store that calls lead to, Evaluate returns, without an error and without a panic, and
    -- it returns exactly the answer of the store: false for an unknown flag, the default of a
    -- disabled one, and otherwise the variant of the first rule that targets the subject, or the
    -- default if none does.
    pub evaluate_answers :
        (s : Store) (b : Bool)
        → Reach s
        → ((a : Bool) × (evaluate sha256 scope key subject check s ≡ ok a))
          × ((evaluate sha256 scope key subject check s ≡ ok b)
              ↔ Answer scope key subject check s b)
    evaluate_answers s b r =
        let (a, computed, answer) = answers s (Reach-IsSound s r) in
        (
          (a, computed),
          (
            λ e.
                let same : a ≡ b = ground (arith, computed) in
                subst (λ x. Answer scope key subject check s x) same answer,
            λ given. computed ∙ ap (λ x. ok x) (agree s a b (read s a answer) (read s b given)),
          ),
        )

  bucket_bound : (key subject : Text) → assign_bucket sha256 key subject < 10000
  unfolding assign_bucket
  bucket_bound key subject = omega arith

  -- A percentage rule never decides at 0 basis points and always decides at 10000; where the basis
  -- points grow, either the rule did not decide for the subject before, or it decides after.
  pub rollout_bounds :
      (key subject : Text) (check : Option CheckFn) (r : Rule) (low high : ℕ)
      → r.kind ≡ rule_kind_percentage
      → low ≤ high
      → high ≤ 10000
      → let at = λ (n : ℕ). decides sha256 key subject check (record r { basis_points = pos n }) in
        (at 0 ≡ ok false) × (at 10000 ≡ ok true) × ((at low ≡ ok false) ⊎ (at high ≡ ok true))
  unfolding decides
  rollout_bounds key subject check r low high kind grows within =
      let other : (r.kind == rule_kind_authz) ≡ false =
        ground (arith, eq_iff r.kind rule_kind_authz, kinds_differ) in
      let share = eq_iff r.kind rule_kind_percentage in
      (
        ground (arith, other, share, uint32_small 0 (omega arith)),
        ground (arith, other, share, uint32_small 10000 (omega arith), bucket_bound key subject),
        elim (Bool-cases (ltb (assign_bucket sha256 key subject) low)) [
          | inl taken ↦ inr (ground (arith, other, share, uint32_small high))
          | inr left ↦ inl (ground (arith, other, share, uint32_small low))
        ],
      )
