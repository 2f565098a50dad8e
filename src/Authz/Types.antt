-- ===== src/Authz/Types.antt =====
-- packages/authz/types.go and errors.go.
use flametrench_go.Base.{ℕ, Bool, Option, Text}
use flametrench_go.Ids.{IdError}

pub record Tuple : Type 0 where
  pub id : Text
  pub subject_type : Text
  pub subject_id : Text
  pub relation : Text
  pub object_type : Text
  pub object_id : Text
  pub created_at : ℕ
  pub created_by : Option Text

pub record CheckResult : Type 0 where
  pub allowed : Bool
  pub matched_tuple_id : Option Text

pub record Share : Type 0 where
  pub id : Text
  pub object_type : Text
  pub object_id : Text
  pub relation : Text
  pub created_by : Text
  pub expires_at : ℕ
  pub single_use : Bool
  pub consumed_at : Option ℕ
  pub revoked_at : Option ℕ
  pub created_at : ℕ

pub record VerifiedShare : Type 0 where
  pub share_id : Text
  pub object_type : Text
  pub object_id : Text
  pub relation : Text

-- ShareMaxTTLSeconds
abbrev pub share_max_ttl_seconds : ℕ
share_max_ttl_seconds = 31536000

pub data Error : Type 0 where
  invalid_format duplicate_tuple tuple_not_found empty_relation_set evaluation_limit : Error
  share_not_found invalid_share_token share_revoked share_consumed share_expired : Error
  random_failed unknown_rule_node : Error
  id_error : IdError → Error
