-- ===== src/Identity/Pats.antt =====
-- packages/identity/inmem.go and pat.go: personal access tokens.
pub mod Verification
use flametrench_go.Base.{select}
use flametrench_go.Base.{
  ℕ, zero, suc, ◌+◌, ◌-◌, ◌*◌, Bool, true, false, not, ◌&&◌, ◌||◌, Option, none, some, List, [],
  ◌∷◌, ◌++◌, ltb, leb, eqb, if◌then◌else◌, present, length, Text, bytes, ◌==◌, lookup, insert,
  before,
}
use flametrench_go.Base.Result.{Result, ok, err}
use flametrench_go.Base.Action.{◌>>=◌, ◌>>◌, pure, lift, gets, or_raise, raise_if, modify}
use flametrench_go.Ids.{Uuids, split, all_hex, take, drop}
use flametrench_go.Paging.{Page, paginate, sort_slice}
use flametrench_go.Identity.Types.{
  PersonalAccessToken, PatStatus, VerifiedPat, Error, not_found, precondition, invalid_name,
  expires_too_late, random_failed, invalid_pat_token, pat_revoked, pat_expired,
}
use flametrench_go.Identity.Store.{Store, Method, fresh_id, second, or_empty, put_pat}
use flametrench_go.Identity.Credentials.{Hashing}

pub record CreatePatInput : Type 0 where
  pub usr_id : Text
  pub name : Text
  pub scope : List Text
  pub expires_at : Option ℕ

pub record CreatePatResult : Type 0 where
  pub pat : PersonalAccessToken
  pub token : Text

-- PatMaxLifetimeSeconds, PatMaxSecretLength and the default of patLastUsedCoalesceSeconds
abbrev pub pat_max_lifetime_seconds : ℕ
pat_max_lifetime_seconds = 31536000

abbrev pub pat_max_secret_length : ℕ
pat_max_secret_length = 256

abbrev pub pat_last_used_coalesce_seconds : ℕ
pat_last_used_coalesce_seconds = 60

-- [A-Za-z0-9_-]
abbrev pub is_base64url : ℕ → Bool
is_base64url c =
    ((leb b'A' c && leb c b'Z') || (leb b'a' c && leb c b'z'))
    || ((leb b'0' c && leb c b'9') || (eqb c b'_' || eqb c b'-'))

unfoldable pub all_base64url : Text → Bool
all_base64url [] = true
all_base64url (c ∷ s) = is_base64url c && all_base64url s

-- patWireFormat: ^pat_[0-9a-f]{32}_[A-Za-z0-9_-]+$
unfoldable pub is_structurally_valid_pat_token : Text → Bool
unfolding take drop all_hex all_base64url ◌==◌
is_structurally_valid_pat_token token =
    take 4 token == bytes "pat_"
    && ((eqb (length (take 32 (drop 4 token))) 32 && all_hex (take 32 (drop 4 token)))
        && (take 1 (drop 36 token) == bytes "_"
            && (not (drop 37 token == []) && all_base64url (drop 37 token))))

pub data AuthKind : Type 0 where
  pat share session system : AuthKind

unfoldable pub classify_bearer : Text → AuthKind
classify_bearer token =
    if take 4 token == bytes "pat_"
    then AuthKind.pat
    else if take 4 token == bytes "shr_"
    then AuthKind.share
    else AuthKind.session

-- strings.SplitN(token, "_", 3), with the first two parts joined again; none where there are fewer.
unfoldable pub split_token : Text → Option (Text × Text)
unfolding split
split_token token = elim (split token) [
  | none ↦ none
  | some (a, rest) ↦ elim (split rest) [
    | none ↦ none
    | some (b, secret) ↦ some (a ++ (b'_' ∷ b), secret)
  ]
]

-- in.ExpiresAt.After(max)
abbrev pub is_too_late : Option ℕ → ℕ → Bool
is_too_late none now = false
is_too_late (some t) now = ltb (now + pat_max_lifetime_seconds * second) t

-- pat.ExpiresAt != nil && !s.now().Before(*pat.ExpiresAt)
abbrev pub is_past : Option ℕ → ℕ → Bool
is_past none now = false
is_past (some t) now = not (ltb now t)

unfoldable pub new_pat : Text → CreatePatInput → ℕ → PersonalAccessToken
new_pat id i now = record {
  id = id;
  usr_id = i.usr_id;
  name = i.name;
  scope = i.scope;
  status = PatStatus.active;
  expires_at = i.expires_at;
  last_used_at = none;
  revoked_at = none;
  created_at = now;
  updated_at = now;
}

unfoldable pub get_pat : Text → Method PersonalAccessToken
get_pat id = do or_raise (← gets (λ s. lookup id s.pats)) not_found

unfoldable pub pat_before : PersonalAccessToken → PersonalAccessToken → Bool
pat_before p q =
    ltb p.created_at q.created_at || (eqb p.created_at q.created_at && before p.id q.id)

unfoldable pub list_pats_for_user : Text → Option Text → ℕ → Method (Page PersonalAccessToken)
unfolding pat_before select
list_pats_for_user usr cursor limit = do
  or_raise (← gets (λ s. lookup usr s.users)) not_found
  gets (λ s.
      paginate (λ p. p.id) cursor limit
        (sort_slice pat_before (select (λ p. p.usr_id == usr) s.pats)))

unfoldable pub revoke_pat : Text → ℕ → Method PersonalAccessToken
revoke_pat id now = do
  p ← or_raise (← gets (λ s. lookup id s.pats)) not_found
  if present p.revoked_at then pure p else do
    let p' : PersonalAccessToken = record p {
      revoked_at = some now;
      status = PatStatus.revoked;
      updated_at = now;
    }
    modify (put_pat id p')
    pure p'

-- The last use is written if none is, or if the one written is at least the coalescing time ago.
abbrev pub is_due : Option ℕ → ℕ → Bool
is_due none now = true
is_due (some prev) now = leb (prev + pat_last_used_coalesce_seconds * second) now

unfoldable pub touch_pat : Text → ℕ → Store → Store
touch_pat id now s =
    if is_due (lookup id s.pat_last_used_persist) now
    then elim (lookup id s.pats) [
      | none ↦ s
      | some p ↦
          if present p.revoked_at
          then s
          else put_pat id (record p { last_used_at = some now; updated_at = now })
              (record s { pat_last_used_persist = insert id now s.pat_last_used_persist })
    ]
    else s

module _ (h : Hashing) where
  -- `now_max` is the reading of the test of the expiry; `drawn` is the base64 text of the 32 bytes
  -- that rand.Read gives, none its error.
  unfoldable pub create_pat :
      CreatePatInput → ℕ → Uuids → Option Text → Option Text → ℕ → Method CreatePatResult
  create_pat i now_max u drawn salt now = do
    or_raise (← gets (λ s. lookup i.usr_id s.users)) not_found
    raise_if (ltb (length i.name) 1 || ltb 120 (length i.name)) (precondition invalid_name)
    raise_if (is_too_late i.expires_at now_max) (precondition expires_too_late)
    id ← fresh_id u (bytes "pat")
    secret ← or_raise drawn random_failed
    phc ← lift (h.hash_password secret salt)
    let p = new_pat id i now
    modify (put_pat id p)
    modify (λ s. record s { pat_secret_hashes = insert id phc s.pat_secret_hashes })
    pure (record { pat = p; token = id ++ (b'_' ∷ secret) })

  -- VerifyPatToken past its structural checks, on the id and the secret. The decoy verifications
  -- return nothing, so they are left out. `now_check` is the reading of the expiry test.
  unfoldable pub verify_pat : Text → Text → ℕ → ℕ → Method VerifiedPat
  verify_pat id secret now_check now = do
    raise_if (ltb pat_max_secret_length (length secret)) invalid_pat_token
    p ← or_raise (← gets (λ s. lookup id s.pats)) invalid_pat_token
    raise_if (present p.revoked_at) (pat_revoked id)
    raise_if (is_past p.expires_at now_check) (pat_expired id)
    phc ← gets (λ s. or_empty (lookup id s.pat_secret_hashes))
    good ← lift (h.verify_password_hash phc secret)
    raise_if (not good) invalid_pat_token
    modify (touch_pat id now)
    pure (record { pat_id = id; usr_id = p.usr_id; scope = p.scope })

  unfoldable pub verify_pat_token : Text → ℕ → ℕ → Method VerifiedPat
  unfolding split_token
  verify_pat_token token now_check now = do
    raise_if (not (is_structurally_valid_pat_token token)) invalid_pat_token
    (id, secret) ← or_raise (split_token token) invalid_pat_token
    verify_pat id secret now_check now
