-- ===== src/Identity/Factors.antt =====
-- packages/identity/inmem.go: MFA factors, their policies and their verification.
use flametrench_go.Base.{select}
use flametrench_go.Base.{
  ℕ, ◌+◌, Bool, true, false, Option, none, some, List, [], ◌∷◌, if◌then◌else◌, Text, bytes, ◌==◌,
  Map, lookup, insert, remove, length,
}
use flametrench_go.Base.Result.{Result, ok, err}
use flametrench_go.Base.Action.{◌>>=◌, ◌>>◌, pure, lift, gets, or_raise, raise_if, modify}
use flametrench_go.Ids.{Uuids}
use flametrench_go.Identity.Types.{
  Factor, FactorType, FactorStatus, factor_type_totp, factor_type_webauthn, factor_type_recovery,
  is_active_factor, is_revoked_factor, UserMfaPolicy, Error, not_found, already_terminal,
  random_failed,
}
use flametrench_go.Identity.Store.{Method, singleton_key, fresh_id, put_factor}
use flametrench_go.Identity.Credentials.{Hashing}

-- The functions of mfa.go and webauthn.go that the store calls: TotpVerify at the defaults with one
-- window of drift (a secret, a code, a time in nanoseconds); NormalizeRecoveryInput and
-- IsValidRecoveryCode; WebAuthnVerifyAssertion with both flags required.
pub record WebAuthnProof : Type 0 where
  pub credential_id : Text
  pub authenticator_data : Text
  pub client_data_json : Text
  pub signature : Text
  pub expected_challenge : Text
  pub expected_origin : Text

pub record Verifiers : Type 0 where
  pub totp_verify : Text → Text → ℕ → Result Error Bool
  pub normalize : Text → Text
  pub is_valid_code : Text → Bool
  pub assertion : Text → ℕ → Text → WebAuthnProof → Result Error ℕ

unfoldable pub new_factor : Text → Text → FactorType → Text → FactorStatus → ℕ → Factor
new_factor id usr type_of identifier status now = record {
  id = id;
  usr_id = usr;
  type_of = type_of;
  identifier = identifier;
  status = status;
  replaces = none;
  created_at = now;
  updated_at = now;
  rp_id = [];
  sign_count = 0;
  remaining = 0;
}

-- The secret comes back beside the factor; its base32 text and the otpauth URI are left out. `drawn`
-- is what GenerateTotpSecret gives; none is its error.
unfoldable pub enroll_totp_factor : Text → Text → Uuids → Option Text → ℕ → Method (Factor × Text)
enroll_totp_factor usr label u drawn now = do
  or_raise (← gets (λ s. lookup usr s.users)) not_found
  id ← fresh_id u (bytes "mfa")
  secret ← or_raise drawn random_failed
  let f = new_factor id usr factor_type_totp label FactorStatus.pending now
  modify (put_factor id f)
  modify (λ s. record s { totp_secrets = insert id secret s.totp_secrets })
  pure (f, secret)

unfoldable pub enroll_webauthn_factor : Text → Text → Text → ℕ → Text → Uuids → ℕ → Method Factor
enroll_webauthn_factor usr credential_id key sign_count rp_id u now = do
  or_raise (← gets (λ s. lookup usr s.users)) not_found
  id ← fresh_id u (bytes "mfa")
  let f : Factor =
      record (new_factor id usr factor_type_webauthn credential_id FactorStatus.pending now) {
        rp_id = rp_id;
        sign_count = sign_count;
      }
  modify (put_factor id f)
  modify (λ s. record s { webauthn_public_keys = insert id key s.webauthn_public_keys })
  pure f

-- make([]bool, n)
unfoldable pub unused {ℓ} : {A : Type ℓ} → List A → List Bool
unused [] = []
unused (x ∷ xs) = false ∷ unused xs

-- The loop that hashes the codes, each with its own salt; a missing salt is a failed draw.
unfoldable pub hash_codes : Hashing → List Text → List (Option Text) → Result Error (List Text)
hash_codes h [] salts = ok []
hash_codes h (c ∷ cs) [] = err random_failed
hash_codes h (c ∷ cs) (salt ∷ salts) =
    let rest = hash_codes h cs salts in
    elim (h.hash_password c salt) [
      | err e ↦ err e
      | ok phc ↦ elim rest [ err e ↦ err e | ok phcs ↦ ok (phc ∷ phcs) ]
    ]

-- `codes` is what GenerateRecoveryCodes gives; none is its error.
unfoldable pub enroll_recovery_factor :
    Hashing
    → Text
    → Option (List Text)
    → List (Option Text)
    → Uuids
    → ℕ
    → Method (Factor × List Text)
enroll_recovery_factor h usr drawn salts u now = do
  or_raise (← gets (λ s. lookup usr s.users)) not_found
  codes ← or_raise drawn random_failed
  hashes ← lift (hash_codes h codes salts)
  id ← fresh_id u (bytes "mfa")
  let f : Factor = record (new_factor id usr factor_type_recovery [] FactorStatus.active now) {
    remaining = length codes;
  }
  modify (put_factor id f)
  modify (λ s. record s {
    recovery_hashes = insert id hashes s.recovery_hashes;
    recovery_consumed = insert id (unused codes) s.recovery_consumed;
  })
  pure (f, codes)

unfoldable pub get_factor : Text → Method Factor
get_factor id = do or_raise (← gets (λ s. lookup id s.factors)) not_found

unfoldable pub list_factors_for_user : Text → Method (List Factor)
unfolding select
list_factors_for_user usr = do
  or_raise (← gets (λ s. lookup usr s.users)) not_found
  gets (λ s. select (λ f. f.usr_id == usr) s.factors)

-- transitionFactor
unfoldable pub transition_factor : Text → FactorStatus → ℕ → Method Factor
transition_factor id to now = do
  f ← or_raise (← gets (λ s. lookup id s.factors)) not_found
  raise_if (is_revoked_factor f.status) already_terminal
  let f' : Factor = record f { status = to; updated_at = now }
  modify (put_factor id f')
  modify (λ s.
      if is_active_factor to
      then s
      else record s { mfa_singleton = remove (singleton_key f.usr_id f.type_of) s.mfa_singleton })
  pure f'

unfoldable pub suspend_factor : Text → ℕ → Method Factor
suspend_factor id = transition_factor id FactorStatus.suspended

unfoldable pub reinstate_factor : Text → ℕ → Method Factor
reinstate_factor id = transition_factor id FactorStatus.active

unfoldable pub revoke_factor : Text → ℕ → Method Factor
revoke_factor id = transition_factor id FactorStatus.revoked

unfoldable pub get_user_mfa_policy : Text → ℕ → Method UserMfaPolicy
get_user_mfa_policy usr now = do
  or_raise (← gets (λ s. lookup usr s.users)) not_found
  gets (λ s. elim (lookup usr s.mfa_policies) [
    | none ↦ record { usr_id = usr; required = false; grace_until = none; updated_at = now }
    | some p ↦ p
  ])

unfoldable pub set_user_mfa_policy : Text → Bool → Option ℕ → ℕ → Method UserMfaPolicy
set_user_mfa_policy usr required grace_until now = do
  or_raise (← gets (λ s. lookup usr s.users)) not_found
  let p : UserMfaPolicy = record {
    usr_id = usr;
    required = required;
    grace_until = grace_until;
    updated_at = now;
  }
  modify (λ s. record s { mfa_policies = insert usr p s.mfa_policies })
  pure p

-- The first factor in the map's order that passes the test: a range loop with a break.
unfoldable pub find_factor : (Factor → Bool) → Map Factor → Option Text
find_factor p [] = none
find_factor p ((id, f) ∷ m) = let rest = find_factor p m in if p f then some id else rest

-- The loop of verifyRecoveryProof: the position of the first code that is not consumed and matches.
unfoldable pub match_code : Hashing → Text → List Text → List Bool → Result Error (Option ℕ)
match_code h candidate [] used = ok none
match_code h candidate (phc ∷ phcs) [] = ok none
match_code h candidate (phc ∷ phcs) (true ∷ used) = elim (match_code h candidate phcs used) [
  | err e ↦ err e
  | ok none ↦ ok none
  | ok (some i) ↦ ok (some (i + 1))
]
match_code h candidate (phc ∷ phcs) (false ∷ used) =
    let rest = match_code h candidate phcs used in
    elim (h.verify_password_hash phc candidate) [
      | err e ↦ err e
      | ok true ↦ ok (some 0)
      | ok false ↦ elim rest [ err e ↦ err e | ok none ↦ ok none | ok (some i) ↦ ok (some (i + 1)) ]
    ]
