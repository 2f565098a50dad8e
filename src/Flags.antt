-- ===== src/Flags.antt =====
-- packages/flags: feature flags (types.go, store.go, errors.go, bucket.go, inmem.go). A rule's int of
-- basis points is a ℤ; its 64 bits play no part, as every value that is stored is at most 10000.
pub mod Evaluation
pub mod Index
pub mod View
mod Tests
use flametrench_go.Base.{
  ℕ, zero, suc, ◌+◌, ◌-◌, ◌*◌, ◌%◌, ◌^◌, Bool, true, false, not, ◌&&◌, ◌||◌, Option, none, some,
  List, [], ◌∷◌, ◌++◌, ltb, leb, if◌then◌else◌, present, Text, bytes, ◌==◌, Map, lookup, insert,
  remove, before, select, ℤ, pos, negsuc,
}
use flametrench_go.Base.Result.{Result, ok, err}
use flametrench_go.Base.Action.{Action, ◌>>=◌, ◌>>◌, pure, lift, gets, or_raise, raise_if, modify}
use flametrench_go.Ids.{IdError, Uuids, generate, is_valid, byte_at}
use flametrench_go.Paging.{Page, page_limit, sort_slice, first_page, after_cursor}
use flametrench_go.Patterns.{matches, is_key_char, is_relation_name}

-- RuleKindAuthz and RuleKindPercentage; a kind is any string.
unfoldable pub rule_kind_authz : Text
rule_kind_authz = bytes "authz"

unfoldable pub rule_kind_percentage : Text
rule_kind_percentage = bytes "percentage"

pub record RuleObject : Type 0 where
  pub type_of : Text
  pub id : Text

pub record Rule : Type 0 where
  pub kind : Text
  pub relation : Text
  pub object : Option RuleObject
  pub basis_points : ℤ
  pub variant : Bool

pub record Flag : Type 0 where
  pub id : Text
  pub scope : Text
  pub key : Text
  pub enabled : Bool
  pub default_variant : Bool
  pub rules : List Rule
  pub created_at : ℕ
  pub updated_at : ℕ

-- `nil_pointer` is the panic on a nil pointer, of a flag that the index names and that is not stored,
-- or of an authz rule with no object.
pub data Error : Type 0 where
  not_found invalid_format precondition nil_pointer : Error
  id_error : IdError → Error

pub record Store : Type 0 where
  pub flags : Map Flag
  pub by_key : Map Text

-- NewInMemoryFlagsStore
abbrev pub empty : Store
empty = record { flags = []; by_key = [] }

abbrev pub Method : Type 0 → Type 0
Method A = Action Store Error A

pub record CreateFlagInput : Type 0 where
  pub scope : Text
  pub key : Text
  pub enabled : Bool
  pub default_variant : Bool
  pub rules : List Rule

pub record UpdateFlagInput : Type 0 where
  pub id : Text
  pub enabled : Option Bool
  pub default_variant : Option Bool
  pub rules : List Rule
  pub update_rules : Bool

-- CheckFn, and the subject, the relation, and the object's type and id that it reads; none is nil.
abbrev pub CheckFn : Type 0
CheckFn = Text → Text → Text → Text → Bool

abbrev pub in_basis : ℤ → Bool
in_basis (pos n) = leb n 10000
in_basis (negsuc n) = false

abbrev pub names_object : Option RuleObject → Bool
names_object none = false
names_object (some o) = not (o.type_of == []) && not (o.id == [])

-- The body of the loop of validateRules, as the test that it passes.
unfoldable pub is_valid_rule : Rule → Bool
is_valid_rule r =
    if r.kind == rule_kind_authz
    then is_relation_name r.relation && names_object r.object
    else (r.kind == rule_kind_percentage) && in_basis r.basis_points

-- validateRules returns nil
unfoldable pub validate_rules : List Rule → Bool
validate_rules [] = true
validate_rules (r ∷ rs) = is_valid_rule r && validate_rules rs

-- scope + "#" + key
unfoldable pub scope_key : Text → Text → Text
scope_key scope key = scope ++ (b'#' ∷ key)

abbrev pub key_of : Flag → Text
key_of f = scope_key f.scope f.key

unfoldable pub new_flag : Text → CreateFlagInput → ℕ → Flag
new_flag id i now = record {
  id = id;
  scope = i.scope;
  key = i.key;
  enabled = i.enabled;
  default_variant = i.default_variant;
  rules = i.rules;
  created_at = now;
  updated_at = now;
}

abbrev from_ids : Result IdError Text → Result Error Text
from_ids (ok id) = ok id
from_ids (err e) = err (id_error e)

-- s.flags[id] = f, or a write through the pointer that s.flags[id] is.
unfoldable pub put_flag : Text → Flag → Store → Store
put_flag id f s = record s { flags = insert id f s.flags }

unfoldable pub create_flag : CreateFlagInput → Uuids → ℕ → Method Flag
create_flag i u now = do
  raise_if (not (is_valid i.scope (bytes "org" ∷ []))) invalid_format
  raise_if (not (matches is_key_char 1 128 i.key)) invalid_format
  raise_if (not (validate_rules i.rules)) invalid_format
  raise_if (← gets (λ s. present (lookup (scope_key i.scope i.key) s.by_key))) precondition
  id ← lift (from_ids (generate u (bytes "flag")))
  let f = new_flag id i now
  modify (put_flag id f)
  modify (λ s. record s { by_key = insert (scope_key i.scope i.key) id s.by_key })
  pure f

unfoldable pub get_flag : Text → Method Flag
get_flag id = do or_raise (← gets (λ s. lookup id s.flags)) not_found

unfoldable pub get_flag_by_key : Text → Text → Method Flag
get_flag_by_key scope key = do
  id ← or_raise (← gets (λ s. lookup (scope_key scope key) s.by_key)) not_found
  or_raise (← gets (λ s. lookup id s.flags)) nil_pointer

unfoldable pub list_flags : Text → Option Text → ℕ → Method (Page Flag)
unfolding after_cursor first_page select
list_flags scope cursor limit = gets (λ s.
    first_page (λ f. f.id) (page_limit limit)
      (after_cursor (λ f. f.id) cursor
        (sort_slice (λ f g. before f.id g.id) (select (λ f. f.scope == scope) s.flags))))

abbrev pub or_keep : Option Bool → Bool → Bool
or_keep none b = b
or_keep (some b') b = b'

-- The first two assignments of UpdateFlag.
unfoldable pub switched : UpdateFlagInput → Flag → Flag
switched i f = record f {
  enabled = or_keep i.enabled f.enabled;
  default_variant = or_keep i.default_variant f.default_variant;
}

-- What UpdateFlag leaves where it succeeds.
unfoldable pub updated : UpdateFlagInput → Flag → ℕ → Flag
unfolding switched
updated i f now = record (switched i f) {
  rules = if i.update_rules then i.rules else f.rules;
  updated_at = now;
}

unfoldable pub update_flag : UpdateFlagInput → ℕ → Method Flag
update_flag i now = do
  f ← or_raise (← gets (λ s. lookup i.id s.flags)) not_found
  modify (put_flag i.id (switched i f))
  raise_if (i.update_rules && not (validate_rules i.rules)) invalid_format
  modify (put_flag i.id (updated i f now))
  pure (updated i f now)

unfoldable pub delete_flag : Text → Method (Unit {0})
delete_flag id = do
  f ← or_raise (← gets (λ s. lookup id s.flags)) not_found
  modify (λ s. record s { by_key = remove (key_of f) s.by_key; flags = remove id s.flags })

-- uint32(n) of an int.
unfoldable pub uint32 : ℤ → ℕ
uint32 (pos n) = n % 2 ^ 32
uint32 (negsuc n) = (2 ^ 32 - 1) - n % 2 ^ 32

-- binary.BigEndian.Uint32(digest[:4])
unfoldable pub uint32_be : Text → ℕ
unfolding byte_at
uint32_be d = ((byte_at d 0 * 256 + byte_at d 1) * 256 + byte_at d 2) * 256 + byte_at d 3

module _ (sha256 : Text → Text) where
  unfoldable pub assign_bucket : Text → Text → ℕ
  assign_bucket key subject = uint32_be (sha256 (key ++ (0 ∷ subject))) % 10000

  -- The two cases of the loop of Evaluate: whether the rule decides.
  unfoldable pub grants : Option CheckFn → Text → Rule → Result Error Bool
  grants none subject r = ok false
  grants (some check) subject r = elim r.object [
    | none ↦ err nil_pointer
    | some o ↦ ok (check subject r.relation o.type_of o.id)
  ]

  unfoldable pub decides : Text → Text → Option CheckFn → Rule → Result Error Bool
  unfolding grants
  decides key subject check r =
      if r.kind == rule_kind_authz
      then grants check subject r
      else if r.kind == rule_kind_percentage
      then ok (ltb (assign_bucket key subject) (uint32 r.basis_points))
      else ok false

  -- The loop: the variant of the first rule that decides, or the default.
  unfoldable pub first_match : Text → Text → Option CheckFn → Bool → List Rule → Result Error Bool
  first_match key subject check otherwise [] = ok otherwise
  first_match key subject check otherwise (r ∷ rs) =
      let rest = first_match key subject check otherwise rs in
      elim (decides key subject check r) [
        | err e ↦ err e
        | ok true ↦ ok r.variant
        | ok false ↦ rest
      ]

  unfoldable pub evaluate_flag : Text → Option CheckFn → Flag → Result Error Bool
  evaluate_flag subject check f =
      if f.enabled
      then first_match f.key subject check f.default_variant f.rules
      else ok f.default_variant

  -- Evaluate
  unfoldable pub evaluate : Text → Text → Text → Option CheckFn → Store → Result Error Bool
  unfolding evaluate_flag
  evaluate scope key subject check s = elim (lookup (scope_key scope key) s.by_key) [
    | none ↦ ok false
    | some id ↦ elim (lookup id s.flags) [
      | none ↦ err nil_pointer
      | some f ↦ evaluate_flag subject check f
    ]
  ]
