-- ===== src/Flags/Tests.antt =====
-- packages/flags: the theorems at a small store.
use flametrench_go.Base.{◌==◌}
use flametrench_go.Flags.{first_match}
use flametrench_go.Base.{◌==◌}
use flametrench_go.Base.{insert}
use flametrench_go.Flags.{put_flag}
use flametrench_go.Patterns.{is_relation_name}
use flametrench_go.Flags.{is_valid_rule}
use flametrench_go.Flags.{validate_rules}
use flametrench_go.Patterns.{matches}
use flametrench_go.Base.{◌==◌}
use flametrench_go.Ids.{is_registered}
use flametrench_go.Ids.{decode}
use flametrench_go.Ids.{is_valid}
use flametrench_go.Flags.{create_flag}
use flametrench_go.Base.{
  ℕ, ◌≡◌, ◌⊎◌, ◌↔◌, refl, arith, Bool, true, false, none, some, [], ◌∷◌, Text, bytes, lookup, pos,
}
use flametrench_go.Base.Result.{ok, err}
use flametrench_go.Ids.{Uuids, generate}
use flametrench_go.Flags.{
  Rule, Store, empty, CheckFn, CreateFlagInput, UpdateFlagInput, rule_kind_authz,
  rule_kind_percentage, scope_key, new_flag, switched, update_flag, decides, evaluate,
  invalid_format,
}
use flametrench_go.Flags.Index.{Reach, start, next, create, delete, run, IsFresh}
use flametrench_go.Flags.View.{view, written, spec, target, view-run, rejected_update_writes}
use flametrench_go.Flags.Evaluation.{Answer, evaluate_answers, rollout_bounds}

abbrev draw : Uuids
draw = record { new_v7 = some (bytes "0190f2a8-1b3c-7abc-8123-456789abcdef"); parses = λ t. true }

abbrev org : Text
org = bytes "org_0190f2a81b3c7abc8123456789abcdef"

abbrev flag_id : Text
flag_id = bytes "flag_0190f2a81b3c7abc8123456789abcdef"

abbrev beta : Text
beta = bytes "beta"

-- Members of a team, then half of all.
abbrev team_rule : Rule
team_rule = record {
  kind = rule_kind_authz;
  relation = bytes "member";
  object = some (record { type_of = bytes "team"; id = bytes "t1" });
  basis_points = pos 0;
  variant = true;
}

abbrev half_rule : Rule
half_rule = record {
  kind = rule_kind_percentage;
  relation = [];
  object = none;
  basis_points = pos 5000;
  variant = true;
}

abbrev input : CreateFlagInput
input = record {
  scope = org;
  key = beta;
  enabled = true;
  default_variant = false;
  rules = team_rule ∷ half_rule ∷ [];
}

abbrev made : Store
made = record {
  flags = (flag_id, new_flag flag_id input 5) ∷ [];
  by_key = (scope_key org beta, flag_id) ∷ [];
}

IsFresh-empty : IsFresh (create input draw 5) empty
unfolding lookup
IsFresh-empty id e = refl

Reach-made : Reach made
unfolding run create_flag is_valid decode is_registered ◌==◌ matches validate_rules is_valid_rule
    rule_kind_authz is_relation_name rule_kind_percentage lookup generate put_flag insert
Reach-made = next empty made (create input draw 5) (start empty refl) IsFresh-empty refl

-- A stand-in for the hash: the input itself.
abbrev sha : Text → Text
sha t = t

abbrev in_team : CheckFn
in_team subject relation kind id = true

evaluate_answers_example :
    ((a : Bool) × (evaluate sha org beta (bytes "usr_a") (some in_team) made ≡ ok a))
    × ((evaluate sha org beta (bytes "usr_a") (some in_team) made ≡ ok true)
        ↔ Answer sha org beta (bytes "usr_a") (some in_team) made true)
evaluate_answers_example =
    evaluate_answers sha org beta (bytes "usr_a") (some in_team) made true Reach-made

team_member_is_in : evaluate sha org beta (bytes "usr_a") (some in_team) made ≡ ok true
unfolding evaluate lookup ◌==◌ scope_key new_flag first_match decides rule_kind_authz
team_member_is_in = refl

rollout_bounds_example :
    let at = λ (n : ℕ).
      decides sha beta (bytes "usr_a") none (record half_rule { basis_points = pos n }) in
    (at 0 ≡ ok false) × (at 10000 ≡ ok true) × ((at 5000 ≡ ok false) ⊎ (at 6000 ≡ ok true))
rollout_bounds_example =
    rollout_bounds sha beta (bytes "usr_a") none half_rule 5000 6000 refl (omega arith)
      (omega arith)

view-run_example :
    view (run (delete flag_id) made) (scope_key org beta)
    ≡ spec (delete flag_id) (target (delete flag_id) made) (view made) (scope_key org beta)
view-run_example = view-run made (delete flag_id) (scope_key org beta) Reach-made tt tt

abbrev bad_rule : Rule
bad_rule = record half_rule { kind = bytes "weekday" }

-- The flag is switched off by a call that is refused for its rule.
abbrev off : UpdateFlagInput
off = record {
  id = flag_id;
  enabled = some false;
  default_variant = none;
  rules = bad_rule ∷ [];
  update_rules = true;
}

rejected_update_writes_example :
    ((update_flag off 9 made).0 ≡ err invalid_format)
    × (view (update_flag off 9 made).1 (scope_key org beta)
        ≡ written (switched off (new_flag flag_id input 5)) (view made) (scope_key org beta))
unfolding lookup ◌==◌ validate_rules is_valid_rule rule_kind_authz rule_kind_percentage
rejected_update_writes_example =
    rejected_update_writes off 9 made (new_flag flag_id input 5) (scope_key org beta) Reach-made
      refl refl refl
