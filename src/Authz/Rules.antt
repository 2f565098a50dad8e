-- ===== src/Authz/Rules.antt =====
-- packages/authz/rewrite_rules.go: the evaluation of rewrite rules.
pub mod Meaning
pub mod Decision
use flametrench_go.Base.{
  ℕ, zero, suc, ◌+◌, ◌≡◌, Bool, true, false, ◌&&◌, ◌||◌, Option, none, some, List, [], ◌∷◌, ◌++◌,
  ltb, eqb, if◌then◌else◌, length, Text, ◌==◌, Map, lookup,
}
use flametrench_go.Base.Result.{Result, ok, err}
use flametrench_go.Authz.Types.{Error, evaluation_limit, unknown_rule_node}

-- The implementations of RuleNode, and what the switch on them does not know: a nil node, a pointer, a
-- type that embeds one of them.
pub data RuleNode : Type 0 where
  this : RuleNode
  computed_userset : Text → RuleNode
  tuple_to_userset : Text → Text → RuleNode
  other_node : RuleNode

abbrev pub Rule : Type 0
Rule = List RuleNode

-- object type, then relation
abbrev pub Rules : Type 0
Rules = Map (Map Rule)

pub record SubjectRef : Type 0 where
  pub subject_type : Text
  pub subject_id : Text
  pub tuple_id : Text

-- evalFrame
pub record Frame : Type 0 where
  pub relation : Text
  pub object_type : Text
  pub object_id : Text

pub record Evaluation : Type 0 where
  pub allowed : Bool
  pub matched_tuple_id : Text

abbrev pub denied : Evaluation
denied = record { allowed = false; matched_tuple_id = [] }

abbrev pub granted : Text → Evaluation
granted tid = record { allowed = true; matched_tuple_id = tid }

-- f == frame
unfoldable pub same_frame : Frame → Frame → Bool
same_frame f g =
    f.relation == g.relation && (f.object_type == g.object_type && f.object_id == g.object_id)

unfoldable pub on_stack : Frame → List Frame → Bool
unfolding same_frame
on_stack f [] = false
on_stack f (g ∷ stack) = same_frame g f || on_stack f stack

abbrev pub Answer : Type 0
Answer = Result Error Evaluation

-- The loop over the subjects of one hop: the first answer that is an error or that allows.
unfoldable pub try_subjects : (Frame → Answer) → Text → List SubjectRef → Answer
try_subjects recur relation [] = ok denied
try_subjects recur relation (sub ∷ subs) =
    let here = recur (record {
      relation = relation;
      object_type = sub.subject_type;
      object_id = sub.subject_id;
    }) in
    let later = try_subjects recur relation subs in
    elim here [ err e ↦ err e | ok r ↦ if r.allowed then ok r else later ]

-- DefaultMaxDepth and DefaultMaxFanOut, for the zero value of the option.
unfoldable pub max_depth : ℕ → ℕ
max_depth zero = 8
max_depth (suc n) = suc n

unfoldable pub max_fan_out : ℕ → ℕ
max_fan_out zero = 1024
max_fan_out (suc n) = suc n

unfoldable pub find_rule : Option (Map Rule) → Text → Option Rule
find_rule none relation = none
find_rule (some by_relation) relation = lookup relation by_relation

-- What Evaluate is called with, the request's subject inside the lookup.
module _ (rules : Option Rules) (direct : Frame → Option Text)
    (list_by_object : Text → Text → Text → List SubjectRef) (fan_out : ℕ) where
  -- rules[objectType][relation]
  unfoldable pub rule_for : Frame → Option Rule
  unfolding find_rule
  rule_for f = elim rules [
    | none ↦ none
    | some by_type ↦ find_rule (lookup f.object_type by_type) f.relation
  ]

  -- The loop over the nodes of a rule.
  unfoldable pub expand : (Frame → Answer) → Frame → Rule → Answer
  unfolding try_subjects
  expand recur f [] = ok denied
  expand recur f (this ∷ nodes) = expand recur f nodes
  expand recur f (other_node ∷ nodes) = err unknown_rule_node
  expand recur f (computed_userset relation ∷ nodes) =
      let later = expand recur f nodes in
      elim (recur (record f { relation = relation })) [
        | err e ↦ err e
        | ok r ↦ if r.allowed then ok r else later
      ]
  expand recur f (tuple_to_userset tupleset computed ∷ nodes) =
      let related = list_by_object f.object_type f.object_id tupleset in
      let later = expand recur f nodes in
      if ltb fan_out (length related)
      then err evaluation_limit
      else elim (try_subjects recur computed related) [
        | err e ↦ err e
        | ok r ↦ if r.allowed then ok r else later
      ]

  -- Past the direct lookup: the rule, the cycle test, the depth bound (`recur` is none once the depth
  -- is used up), the nodes.
  unfoldable pub through_rule : Option (Frame → Answer) → Frame → List Frame → Option Rule → Answer
  unfolding on_stack
  through_rule recur f stack none = ok denied
  through_rule recur f stack (some rule) =
      if on_stack f stack
      then ok denied
      else elim recur [ none ↦ err evaluation_limit | some call ↦ expand call f rule ]

  abbrev pub enter : Option (Frame → Answer) → Frame → List Frame → Option Text → Answer
  enter recur f stack (some tid) = ok (granted tid)
  enter recur f stack none = through_rule recur f stack (rule_for f)

  -- rec, on the depth that is left: maxDepth - depth.
  unfoldable pub rec : ℕ → Frame → List Frame → Answer
  unfolding through_rule rule_for expand
  rec zero f stack = enter none f stack (direct f)
  rec (suc left) f stack = enter (some (λ g. rec left g (stack ++ f ∷ []))) f stack (direct f)

  unfoldable pub evaluate : ℕ → Frame → Answer
  unfolding rec max_depth
  evaluate depth f = rec (max_depth depth) f []
