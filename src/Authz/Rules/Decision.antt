-- ===== src/Authz/Rules/Decision.antt =====
-- An answer "denied" is final: no chain of hops leads to a direct tuple. The cycle test loses none,
-- since a chain that comes back to a frame can be cut short.
use flametrench_go.Base.{
  ℕ, zero, suc, ◌≡◌, refl, subst, sym, true, false, ◌||◌, Option, none, some, inl, inr, ◌⊎◌, List,
  [], ◌∷◌, ◌++◌, arith, ltb, length, Text, eq_iff, eq_refl, Option-cases, Bool-cases,
}
use flametrench_go.Base.Result.{ok, Result-cases}
use flametrench_go.Authz.Rules.{
  this, other_node, computed_userset, tuple_to_userset, Rule, Rules, SubjectRef, Frame, Evaluation,
  Answer, try_subjects, same_frame, on_stack, rule_for, expand, through_rule, rec, evaluate,
  max_depth,
}
use flametrench_go.Authz.Rules.Meaning.{
  In, In-append_cases, subject_frames, node_hops, hops, Grants, holds, hop,
}

same_frame_sound : (f g : Frame) → same_frame f g ≡ true → f ≡ g
unfolding same_frame
same_frame_sound f g h = ground (
  arith,
  eq_iff f.relation g.relation,
  eq_iff f.object_type g.object_type,
  eq_iff f.object_id g.object_id,
)

same_frame_refl : (f : Frame) → same_frame f f ≡ true
unfolding same_frame
same_frame_refl f = ground (arith, eq_refl f.relation, eq_refl f.object_type, eq_refl f.object_id)

on_stack-push :
    (x f : Frame) (stack : List Frame)
    → on_stack x (stack ++ f ∷ []) ≡ (on_stack x stack || same_frame f x)
unfolding on_stack
on_stack-push x f [] = ground arith
on_stack-push x f (g ∷ stack) = ground (arith, on_stack-push x f stack)

abbrev IsDenied : Answer → Type 0
IsDenied a = (r : Evaluation) × (a ≡ ok r) × (r.allowed ≡ false)

-- The answer lets the loop go on, and the loop ends denied.
try_subjects-IsDenied :
    (recur : Frame → Answer) (relation : Text) (subs : List SubjectRef) (r : Evaluation)
    → try_subjects recur relation subs ≡ ok r
    → r.allowed ≡ false
    → (g : Frame) → In g (subject_frames relation subs)
    → IsDenied (recur g)
unfolding try_subjects subject_frames
try_subjects-IsDenied recur relation [] r e a g i = absurd i
try_subjects-IsDenied recur relation (sub ∷ subs) r e a g i =
    let here : Frame = record {
      relation = relation;
      object_type = sub.subject_type;
      object_id = sub.subject_id;
    } in
    elim (Result-cases (recur here)) [
      | inr (x, er) ↦ absurd (ground arith)
      | inl (q, eq) ↦ elim (Bool-cases q.allowed) [
        | inl yes_ ↦ absurd (ground arith)
        | inr no_ ↦
            let later : try_subjects recur relation subs ≡ ok r = ground arith in
            elim i [
              | inl same ↦ subst (λ (z : Frame). IsDenied (recur z)) (sym same) (q, eq, no_)
              | inr rest ↦ try_subjects-IsDenied recur relation subs r later a g rest
            ]
      ]
    ]

module _ (rules : Option Rules) (direct : Frame → Option Text)
    (list_by_object : Text → Text → Text → List SubjectRef) (fan_out : ℕ) where
  abbrev hops_of : Frame → List Frame
  hops_of = hops rules direct list_by_object fan_out

  abbrev nodes_of : Frame → Rule → List Frame
  nodes_of = node_hops rules direct list_by_object fan_out

  abbrev expand_at : (Frame → Answer) → Frame → Rule → Answer
  expand_at = expand rules direct list_by_object fan_out

  expand-IsDenied :
      (recur : Frame → Answer) (f : Frame) (nodes : Rule) (r : Evaluation)
      → expand_at recur f nodes ≡ ok r
      → r.allowed ≡ false
      → (g : Frame) → In g (nodes_of f nodes)
      → IsDenied (recur g)
  unfolding expand node_hops
  expand-IsDenied recur f [] r e a g i = absurd i
  expand-IsDenied recur f (this ∷ nodes) r e a g i = expand-IsDenied recur f nodes r e a g i
  expand-IsDenied recur f (other_node ∷ nodes) r e a g i = absurd (ground arith)
  expand-IsDenied recur f (computed_userset relation ∷ nodes) r e a g i =
      elim (Result-cases (recur (record f { relation = relation }))) [
        | inr (x, er) ↦ absurd (ground arith)
        | inl (q, eq) ↦ elim (Bool-cases q.allowed) [
          | inl yes_ ↦ absurd (ground arith)
          | inr no_ ↦
              let later : expand_at recur f nodes ≡ ok r = ground arith in
              elim i [
                | inl same ↦ subst (λ (z : Frame). IsDenied (recur z)) (sym same) (q, eq, no_)
                | inr rest ↦ expand-IsDenied recur f nodes r later a g rest
              ]
        ]
      ]
  expand-IsDenied recur f (tuple_to_userset tupleset computed ∷ nodes) r e a g i =
      let related = list_by_object f.object_type f.object_id tupleset in
      elim (Bool-cases (ltb fan_out (length related))) [
        | inl wide ↦ absurd (ground arith)
        | inr narrow ↦ elim (Result-cases (try_subjects recur computed related)) [
          | inr (x, er) ↦ absurd (ground arith)
          | inl (q, eq) ↦ elim (Bool-cases q.allowed) [
            | inl yes_ ↦ absurd (ground arith)
            | inr no_ ↦
                let later : expand_at recur f nodes ≡ ok r = ground arith in
                elim (In-append_cases g (subject_frames computed related) (nodes_of f nodes) i) [
                  | inl near ↦ try_subjects-IsDenied recur computed related q eq no_ g near
                  | inr rest ↦ expand-IsDenied recur f nodes r later a g rest
                ]
          ]
        ]
      ]

  -- A chain to a direct tuple none of whose frames stands on the stack.
  data Avoids (tid : Text) (stack : List Frame) : Frame → Type 0 where
    holds_off : {f : Frame} → on_stack f stack ≡ false → direct f ≡ some tid → Avoids tid stack f
    hop_off :
        {f : Frame} (g : Frame)
        → on_stack f stack ≡ false
        → In g (hops_of f)
        → Avoids tid stack g
        → Avoids tid stack f

  abbrev Shortened : Text → List Frame → Frame → Frame → Type 0
  Shortened tid stack f x =
      Avoids tid (stack ++ f ∷ []) x
      ⊎ (direct f ≡ some tid)
      ⊎ ((g : Frame) × In g (hops_of f) × Avoids tid (stack ++ f ∷ []) g)

  push_off :
      (x f : Frame) (stack : List Frame)
      → on_stack x stack ≡ false
      → same_frame f x ≡ false
      → on_stack x (stack ++ f ∷ []) ≡ false
  push_off x f stack h k = ground (arith, on_stack-push x f stack)

  -- A chain either keeps off `f` too, or holds a shorter one that starts at `f`.
  shorten :
      (tid : Text) (stack : List Frame) (f : Frame) {x : Frame}
      → Avoids tid stack x
      → Shortened tid stack f x
  shorten tid stack f {x} (holds_off h d) = elim (Bool-cases (same_frame f x)) [
    | inl same ↦
        inr (inl (subst (λ (z : Frame). direct z ≡ some tid) (sym (same_frame_sound f x same)) d))
    | inr other ↦ inl (holds_off (push_off x f stack h other) d)
  ]
  shorten tid stack f {x} (hop_off g h i c) = elim (shorten tid stack f c) [
    | inl off ↦ elim (Bool-cases (same_frame f x)) [
      | inl same ↦ inr (
          inr (g, subst (λ (z : Frame). In g (hops_of z)) (sym (same_frame_sound f x same)) i, off))
      | inr other ↦ inl (hop_off g (push_off x f stack h other) i off)
    ]
    | inr rest ↦ inr rest
  ]

  not_on_itself : (tid : Text) (stack : List Frame) (f : Frame) → ¬ (Avoids tid (stack ++ f ∷ []) f)
  not_on_itself tid stack f (holds_off h d) =
      ground (arith, on_stack-push f f stack, same_frame_refl f)
  not_on_itself tid stack f (hop_off g h i c) =
      ground (arith, on_stack-push f f stack, same_frame_refl f)

  off_stack :
      (tid : Text) (stack : List Frame) (f : Frame) → Avoids tid stack f → on_stack f stack ≡ false
  off_stack tid stack f (holds_off h d) = h
  off_stack tid stack f (hop_off g h i c) = h

  no_rule :
      (tid : Text) (stack : List Frame) (f : Frame)
      → direct f ≡ none
      → rule_for rules direct list_by_object fan_out f ≡ none
      → ¬ (Avoids tid stack f)
  unfolding hops
  no_rule tid stack f miss nil (holds_off h d) = cc
  no_rule tid stack f miss nil (hop_off g h i c) = rw nil at i

  abbrev rec_of : ℕ → Frame → List Frame → Answer
  rec_of = rec rules direct list_by_object fan_out

  rec_complete :
      (left : ℕ) (tid : Text) (stack : List Frame) (f : Frame) (r : Evaluation)
      → rec_of left f stack ≡ ok r
      → r.allowed ≡ false
      → ¬ (Avoids tid stack f)
  unfolding rec through_rule
  rec_complete zero tid stack f r e a c = elim (Option-cases (direct f)) [
    | inr (t, hit) ↦ ground arith
    | inl miss ↦ elim (Option-cases (rule_for rules direct list_by_object fan_out f)) [
      | inl nil ↦ no_rule tid stack f miss nil c
      | inr (rule, er) ↦ ground (arith, off_stack tid stack f c)
    ]
  ]
  rec_complete (suc left) tid stack f r e a c = elim (Option-cases (direct f)) [
    | inr (t, hit) ↦ ground arith
    | inl miss ↦ elim (Option-cases (rule_for rules direct list_by_object fan_out f)) [
      | inl nil ↦ no_rule tid stack f miss nil c
      | inr (rule, er) ↦
          let recur = λ (g : Frame). rec_of left g (stack ++ f ∷ []) in
          let off = off_stack tid stack f c in
          let loop : expand_at recur f rule ≡ ok r = ground arith in
          elim (shorten tid stack f c) [
            | inl again ↦ not_on_itself tid stack f again
            | inr (inl hit) ↦ cc
            | inr (inr (g, i, rest)) ↦
                let (q, eq, no_) =
                  expand-IsDenied recur f rule r loop a g (hop_of_rule f rule g er i) in
                rec_complete left tid (stack ++ f ∷ []) g q eq no_ rest
          ]
    ]
  ]
    where
      hop_of_rule :
          (x : Frame) (rule : Rule) (g : Frame)
          → rule_for rules direct list_by_object fan_out x ≡ some rule
          → In g (hops_of x)
          → In g (nodes_of x rule)
      hop_of_rule x rule g er i = unfold hops in (rw er at i)

  keeps_off :
      (tid : Text) (f : Frame) → Grants rules direct list_by_object fan_out tid f → Avoids tid [] f
  unfolding on_stack
  keeps_off tid f (holds d) = holds_off refl d
  keeps_off tid f (hop g i c) = hop_off g refl i (keeps_off tid g c)

  -- If Evaluate denies a request, no chain of hops by the rules leads from it to a direct tuple.
  pub evaluate_complete :
      (depth : ℕ) (f : Frame) (r : Evaluation) (tid : Text)
      → evaluate rules direct list_by_object fan_out depth f ≡ ok r
      → r.allowed ≡ false
      → ¬ (Grants rules direct list_by_object fan_out tid f)
  unfolding evaluate
  evaluate_complete depth f r tid e a c =
      rec_complete (max_depth depth) tid [] f r e a (keeps_off tid f c)
