-- ===== src/Authz/Shares.antt =====
-- packages/authz/inmem.go: InMemoryShareStore.
pub mod Tokens
use flametrench_go.Base.{
  ℕ, ◌+◌, ◌*◌, Bool, true, false, not, ◌&&◌, ◌||◌, Option, none, some, List, [], ◌∷◌, ltb, eqb, leb,
  if◌then◌else◌, present, Text, bytes, ◌==◌, Map, lookup, insert, before,
}
use flametrench_go.Base.Result.{Result, ok, err}
use flametrench_go.Base.Action.{
  Action, ◌>>=◌, ◌>>◌, pure, raise, lift, gets, or_raise, raise_if, modify,
}
use flametrench_go.Ids.{Uuids, generate}
use flametrench_go.Paging.{Page, paginate, sort_slice}
use flametrench_go.Patterns.{is_relation_name}
use flametrench_go.Authz.Types.{
  Share, VerifiedShare, share_max_ttl_seconds, Error, invalid_format, share_not_found,
  invalid_share_token, share_revoked, share_consumed, share_expired, random_failed, id_error,
}
use flametrench_go.Authz.Tuples.{from_ids}

pub record Store : Type 0 where
  pub shares : Map Share
  pub token_hashes : Map Text
  pub id_by_hash : Map Text

abbrev pub Method : Type 0 → Type 0
Method A = Action Store Error A

abbrev pub empty : Store
empty = record { shares = []; token_hashes = []; id_by_hash = [] }

pub record CreateShareInput : Type 0 where
  pub object_type : Text
  pub object_id : Text
  pub relation : Text
  pub created_by : Text
  pub expires_in_seconds : ℕ
  pub single_use : Bool

pub record CreateShareResult : Type 0 where
  pub share : Share
  pub token : Text

-- One second in the clock's unit, the nanosecond.
abbrev pub second : ℕ
second = 1000000000

unfoldable pub new_share : Text → CreateShareInput → ℕ → Share
new_share id i now = record {
  id = id;
  object_type = i.object_type;
  object_id = i.object_id;
  relation = i.relation;
  created_by = i.created_by;
  expires_at = now + i.expires_in_seconds * second;
  single_use = i.single_use;
  consumed_at = none;
  revoked_at = none;
  created_at = now;
}

-- storedHash := s.shareTokenHashes[shareID], empty where it is missing.
abbrev pub or_no_hash : Option Text → Text
or_no_hash none = []
or_no_hash (some h) = h

-- `sha` is hex(sha256(token)); the source keeps the digest and its hexadecimal form side by side.
module _ (sha : Text → Text) where
  unfoldable pub put_share : Text → Share → Text → Store → Store
  put_share id share token s = record s {
    shares = insert id share s.shares;
    token_hashes = insert id (sha token) s.token_hashes;
    id_by_hash = insert (sha token) id s.id_by_hash;
  }

  -- `drawn` is the base64 text of the 32 bytes that rand.Read gives; none is its error.
  unfoldable pub create_share :
      CreateShareInput → Uuids → Option Text → ℕ → Method CreateShareResult
  unfolding put_share
  create_share i u drawn now = do
    raise_if (not (is_relation_name i.relation)) invalid_format
    raise_if (leb i.expires_in_seconds 0 || ltb share_max_ttl_seconds i.expires_in_seconds)
        invalid_format
    id ← lift (from_ids (generate u (bytes "shr")))
    token ← or_raise drawn random_failed
    modify (put_share id (new_share id i now) token)
    pure (record { share = new_share id i now; token = token })

  -- `now` is the reading that decides, `stamp` the one that is stored. A share that is missing reads
  -- as the zero Share, which is not revoked, not for single use, and past its expiry.
  unfoldable pub verify_share_token : Text → ℕ → ℕ → Method VerifiedShare
  verify_share_token token now stamp = do
    id ← or_raise (← gets (λ s. lookup (sha token) s.id_by_hash)) invalid_share_token
    stored ← gets (λ s. or_no_hash (lookup id s.token_hashes))
    raise_if (not (sha token == stored)) invalid_share_token
    sh ← or_raise (← gets (λ s. lookup id s.shares)) share_expired
    raise_if (present sh.revoked_at) share_revoked
    raise_if (sh.single_use && present sh.consumed_at) share_consumed
    raise_if (not (ltb now sh.expires_at)) share_expired
    modify (λ s.
        if sh.single_use
        then record s { shares = insert id (record sh { consumed_at = some stamp }) s.shares }
        else s)
    pure (record {
      share_id = sh.id;
      object_type = sh.object_type;
      object_id = sh.object_id;
      relation = sh.relation;
    })

unfoldable pub get_share : Text → Method Share
get_share id = do or_raise (← gets (λ s. lookup id s.shares)) share_not_found

unfoldable pub revoke_share : Text → ℕ → Method Share
revoke_share id now = do
  sh ← or_raise (← gets (λ s. lookup id s.shares)) share_not_found
  if present sh.revoked_at then pure sh else do
    modify (λ s. record s { shares = insert id (record sh { revoked_at = some now }) s.shares })
    pure (record sh { revoked_at = some now })

unfoldable pub select_shares : (Share → Bool) → Map Share → List Share
select_shares p [] = []
select_shares p ((id, sh) ∷ m) = let rest = select_shares p m in if p sh then sh ∷ rest else rest

unfoldable pub share_before : Share → Share → Bool
share_before t u =
    ltb t.created_at u.created_at || (eqb t.created_at u.created_at && before t.id u.id)

unfoldable pub list_shares_for_object : Text → Text → Option Text → ℕ → Method (Page Share)
list_shares_for_object object_type object_id cursor limit = gets (λ s.
    paginate (λ sh. sh.id) cursor limit
      (sort_slice share_before (
        select_shares (λ sh. sh.object_type == object_type && sh.object_id == object_id) s.shares)))
