-- ===== src/Authz/Rules/Meaning.antt =====
-- What the rewrite rules mean, independently of the evaluation: a chain of hops to a direct tuple;
-- and that every answer "allowed" has such a chain.
use flametrench_go.Base.{
  ℕ, zero, suc, ◌≡◌, refl, subst, true, Option, none, some, inl, inr, ◌⊎◌, List, [], ◌∷◌, ◌++◌,
  arith, ltb, length, Text, Option-cases, Bool-cases,
}
use flametrench_go.Base.Result.{ok, Result-cases}
use flametrench_go.Authz.Rules.{
  this, other_node, computed_userset, tuple_to_userset, Rule, Rules, SubjectRef, Frame, Evaluation,
  granted, Answer, try_subjects, on_stack, rule_for, expand, through_rule, rec, evaluate, max_depth,
}

-- The frames of the subjects of one hop.
unfoldable pub subject_frames : Text → List SubjectRef → List Frame
subject_frames relation [] = []
subject_frames relation (sub ∷ subs) =
    record { relation = relation; object_type = sub.subject_type; object_id = sub.subject_id }
    ∷ subject_frames relation subs

-- The element stands in the list.
abbrev pub In : Frame → List Frame → Type 0
In g [] = ⊥
In g (x ∷ xs) = (g ≡ x) ⊎ In g xs

pub In-append_left : (g : Frame) (xs ys : List Frame) → In g xs → In g (xs ++ ys)
In-append_left g [] ys h = absurd h
In-append_left g (x ∷ xs) ys (inl e) = inl e
In-append_left g (x ∷ xs) ys (inr h) = inr (In-append_left g xs ys h)

pub In-append_right : (g : Frame) (xs ys : List Frame) → In g ys → In g (xs ++ ys)
In-append_right g [] ys h = h
In-append_right g (x ∷ xs) ys h = inr (In-append_right g xs ys h)

pub In-append_cases : (g : Frame) (xs ys : List Frame) → In g (xs ++ ys) → In g xs ⊎ In g ys
In-append_cases g [] ys h = inr h
In-append_cases g (x ∷ xs) ys (inl e) = inl (inl e)
In-append_cases g (x ∷ xs) ys (inr h) = elim (In-append_cases g xs ys h) [
  | inl l ↦ inl (inr l)
  | inr r ↦ inr r
]

module _ (rules : Option Rules) (direct : Frame → Option Text)
    (list_by_object : Text → Text → Text → List SubjectRef) (fan_out : ℕ) where
  -- The frames one hop away by the nodes of a rule.
  unfoldable pub node_hops : Frame → Rule → List Frame
  node_hops f [] = []
  node_hops f (this ∷ nodes) = node_hops f nodes
  node_hops f (other_node ∷ nodes) = node_hops f nodes
  node_hops f (computed_userset relation ∷ nodes) =
      (record f { relation = relation }) ∷ node_hops f nodes
  node_hops f (tuple_to_userset tupleset computed ∷ nodes) =
      subject_frames computed (list_by_object f.object_type f.object_id tupleset)
      ++ node_hops f nodes

  abbrev rule_hops : Frame → Option Rule → List Frame
  rule_hops f none = []
  rule_hops f (some rule) = node_hops f rule

  -- The frames one hop away from a frame.
  unfoldable pub hops : Frame → List Frame
  unfolding node_hops
  hops f = rule_hops f (rule_for rules direct list_by_object fan_out f)

  -- A chain of hops from the frame to one that the direct tuple `tid` satisfies.
  pub data Grants (tid : Text) : Frame → Type 0 where
    holds : {f : Frame} → direct f ≡ some tid → Grants tid f
    hop : {f : Frame} (g : Frame) → In g (hops f) → Grants tid g → Grants tid f

  -- The answers of the recursive calls that allow are right.
  abbrev IsSound : (Frame → Answer) → Type 0
  IsSound recur =
      (g : Frame) (r : Evaluation) → recur g ≡ ok r → r.allowed ≡ true → Grants r.matched_tuple_id g

  try_subjects_sound :
      (recur : Frame → Answer) (relation : Text) (subs : List SubjectRef) (r : Evaluation)
      → IsSound recur
      → try_subjects recur relation subs ≡ ok r
      → r.allowed ≡ true
      → (g : Frame) × In g (subject_frames relation subs) × Grants r.matched_tuple_id g
  unfolding try_subjects subject_frames
  try_subjects_sound recur relation [] r s e a = absurd (ground arith)
  try_subjects_sound recur relation (sub ∷ subs) r s e a =
      let g : Frame = record {
        relation = relation;
        object_type = sub.subject_type;
        object_id = sub.subject_id;
      } in
      elim (Result-cases (recur g)) [
        | inr (x, er) ↦ absurd (ground arith)
        | inl (q, eq) ↦ elim (Bool-cases q.allowed) [
          | inl yes_ ↦
              let same : q ≡ r = ground arith in
              (
                g,
                inl refl,
                subst (λ (z : Evaluation). Grants z.matched_tuple_id g) same (s g q eq yes_),
              )
          | inr no_ ↦
              let later : try_subjects recur relation subs ≡ ok r = ground arith in
              let (h, i, d) = try_subjects_sound recur relation subs r s later a in (h, inr i, d)
        ]
      ]

  abbrev Hit : Frame → Rule → Evaluation → Type 0
  Hit f nodes r = (g : Frame) × In g (node_hops f nodes) × Grants r.matched_tuple_id g

  expand_sound :
      (recur : Frame → Answer) (f : Frame) (nodes : Rule) (r : Evaluation)
      → IsSound recur
      → expand rules direct list_by_object fan_out recur f nodes ≡ ok r
      → r.allowed ≡ true
      → Hit f nodes r
  unfolding expand node_hops
  expand_sound recur f [] r s e a = absurd (ground arith)
  expand_sound recur f (this ∷ nodes) r s e a = expand_sound recur f nodes r s e a
  expand_sound recur f (other_node ∷ nodes) r s e a = absurd (ground arith)
  expand_sound recur f (computed_userset relation ∷ nodes) r s e a =
      let g : Frame = record f { relation = relation } in
      elim (Result-cases (recur g)) [
        | inr (x, er) ↦ absurd (ground arith)
        | inl (q, eq) ↦ elim (Bool-cases q.allowed) [
          | inl yes_ ↦
              let same : q ≡ r = ground arith in
              (
                g,
                inl refl,
                subst (λ (z : Evaluation). Grants z.matched_tuple_id g) same (s g q eq yes_),
              )
          | inr no_ ↦
              let later : expand rules direct list_by_object fan_out recur f nodes ≡ ok r =
                ground arith in
              let (h, i, d) = expand_sound recur f nodes r s later a in (h, inr i, d)
        ]
      ]
  expand_sound recur f (tuple_to_userset tupleset computed ∷ nodes) r s e a =
      let related = list_by_object f.object_type f.object_id tupleset in
      let near = subject_frames computed related in
      elim (Bool-cases (ltb fan_out (length related))) [
        | inl wide ↦ absurd (ground arith)
        | inr narrow ↦ elim (Result-cases (try_subjects recur computed related)) [
          | inr (x, er) ↦ absurd (ground arith)
          | inl (q, eq) ↦ elim (Bool-cases q.allowed) [
            | inl yes_ ↦
                let same : q ≡ r = ground arith in
                let (h, i, d) = try_subjects_sound recur computed related q s eq yes_ in
                (
                  h,
                  In-append_left h near (node_hops f nodes) i,
                  subst (λ (z : Evaluation). Grants z.matched_tuple_id h) same d,
                )
            | inr no_ ↦
                let later : expand rules direct list_by_object fan_out recur f nodes ≡ ok r =
                  ground arith in
                let (h, i, d) = expand_sound recur f nodes r s later a in
                (h, In-append_right h near (node_hops f nodes) i, d)
          ]
        ]
      ]

  abbrev rec_at : ℕ → Frame → List Frame → Answer
  rec_at = rec rules direct list_by_object fan_out

  through_rule_sound :
      (recur : Frame → Answer) (f : Frame) (stack : List Frame) (rule : Option Rule)
      (r : Evaluation)
      → IsSound recur
      → through_rule rules direct list_by_object fan_out (some recur) f stack rule ≡ ok r
      → r.allowed ≡ true
      → (g : Frame) × In g (rule_hops f rule) × Grants r.matched_tuple_id g
  unfolding through_rule
  through_rule_sound recur f stack none r s e a = absurd (ground arith)
  through_rule_sound recur f stack (some rule) r s e a = elim (Bool-cases (on_stack f stack)) [
    | inl cycle ↦ absurd (ground arith)
    | inr fresh ↦ expand_sound recur f rule r s (ground arith) a
  ]

  direct_sound :
      (f : Frame) (tid : Text) (r : Evaluation)
      → direct f ≡ some tid
      → ◌≡◌ {A = Answer} (ok (granted tid)) (ok r)
      → Grants r.matched_tuple_id f
  direct_sound f tid r d e = holds (ground arith)

  rec-IsSound : (left : ℕ) (stack : List Frame) → IsSound (λ g. rec_at left g stack)
  unfolding rec hops
  rec-IsSound zero stack f r e a = elim (Option-cases (direct f)) [
    | inl miss ↦ elim (Option-cases (rule_for rules direct list_by_object fan_out f)) [
      | inl nil ↦ absurd (ground arith)
      | inr (rule, er) ↦ elim (Bool-cases (on_stack f stack)) [
        | inl cycle ↦ absurd (ground arith)
        | inr fresh ↦ absurd (ground arith)
      ]
    ]
    | inr (tid, hit) ↦ direct_sound f tid r hit (ground arith)
  ]
  rec-IsSound (suc left) stack f r e a =
      let ih = rec-IsSound left (stack ++ f ∷ []) in
      elim (Option-cases (direct f)) [
        | inl miss ↦
            let (g, i, d) =
              through_rule_sound (λ g. rec_at left g (stack ++ f ∷ [])) f stack
                (rule_for rules direct list_by_object fan_out f) r ih (rw miss at e) a in
            hop g i d
        | inr (tid, hit) ↦ direct_sound f tid r hit (rw hit at e)
      ]

  -- If Evaluate allows a request, a chain of hops by the rules leads from it to a direct tuple, the one
  -- that it reports.
  pub evaluate_sound :
      (depth : ℕ) (f : Frame) (r : Evaluation)
      → evaluate rules direct list_by_object fan_out depth f ≡ ok r
      → r.allowed ≡ true
      → Grants r.matched_tuple_id f
  unfolding evaluate
  evaluate_sound depth f r = rec-IsSound (max_depth depth) [] f r
