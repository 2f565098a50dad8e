-- ===== src/Identity/Mfa.antt =====
-- packages/identity/inmem.go: the confirmation of factors and VerifyMfa. The two methods on WebAuthn
-- assertions release the lock while the assertion is verified: each is two steps, and the method is
-- their sequence.
use flametrench_go.Base.{
  ℕ, ◌+◌, Bool, true, not, ◌&&◌, ◌||◌, Option, none, some, List, [], ◌∷◌, zero, suc, if◌then◌else◌,
  Text, ◌==◌, lookup, insert,
}
use flametrench_go.Base.Result.{Result}
use flametrench_go.Base.Action.{◌>>=◌, ◌>>◌, pure, raise, lift, gets, or_raise, raise_if, modify}
use flametrench_go.Identity.Types.{
  Factor, FactorStatus, factor_type_totp, factor_type_webauthn, factor_type_recovery,
  is_pending_factor, is_active_factor, MfaVerifyResult, Error, not_found, invalid_credential,
  precondition, invalid_transition, cred_id_mismatch, empty_proof,
}
use flametrench_go.Identity.Store.{
  Store, Method, singleton_key, or_empty, or_zero_factor, put_factor,
}
use flametrench_go.Identity.Credentials.{Hashing}
use flametrench_go.Identity.Factors.{WebAuthnProof, Verifiers, find_factor, match_code}

-- What an assertion is verified against: the factor's id, its public key, and the factor as read.
pub record Pending : Type 0 where
  pub mfa_id : Text
  pub key : Text
  pub factor : Factor

-- MfaProof; `nothing` has none of its fields set.
pub data MfaProof : Type 0 where
  totp recovery : Text → MfaProof
  webauthn : WebAuthnProof → MfaProof
  nothing : MfaProof

abbrev pub or_nil {ℓ} : {A : Type ℓ} → Option (List A) → List A
or_nil none = []
or_nil (some xs) = xs

-- consumed[i] = true
unfoldable pub mark : ℕ → List Bool → List Bool
mark i [] = []
mark zero (b ∷ bs) = true ∷ bs
mark (suc i) (b ∷ bs) = b ∷ mark i bs

-- The codes that are not consumed.
unfoldable pub count_unused : List Bool → ℕ
count_unused [] = 0
count_unused (b ∷ bs) = (if b then 0 else 1) + count_unused bs

-- What confirmWebAuthnFactor checks before it releases the lock, and what it reads.
unfoldable pub begin_confirm : Text → WebAuthnProof → Method Pending
begin_confirm id proof = do
  f ← or_raise (← gets (λ s. lookup id s.factors)) not_found
  raise_if (not (f.type_of == factor_type_webauthn) || not (is_pending_factor f.status))
      (precondition invalid_transition)
  raise_if (not (f.identifier == proof.credential_id)) (precondition cred_id_mismatch)
  key ← gets (λ s. or_empty (lookup id s.webauthn_public_keys))
  pure (record { mfa_id = id; key = key; factor = f })

-- What it writes once it holds the lock again: the factor is read anew.
unfoldable pub finish_confirm : Text → ℕ → ℕ → Method Factor
finish_confirm id count now = do
  f ← gets (λ s. or_zero_factor (lookup id s.factors))
  let f' : Factor = record f { status = FactorStatus.active; sign_count = count; updated_at = now }
  modify (put_factor id f')
  pure f'

-- The factor that verifyWebAuthnProof finds.
unfoldable pub begin_webauthn : Text → WebAuthnProof → Method Pending
unfolding find_factor
begin_webauthn usr proof = do
  id ←
      or_raise
        (← gets (λ s.
          find_factor
            (λ f.
              (f.usr_id == usr && f.type_of == factor_type_webauthn)
              && (is_active_factor f.status && f.identifier == proof.credential_id))
            s.factors))
        not_found
  f ← gets (λ s. or_zero_factor (lookup id s.factors))
  key ← gets (λ s. or_empty (lookup id s.webauthn_public_keys))
  pure (record { mfa_id = id; key = key; factor = f })

unfoldable pub finish_webauthn : Text → ℕ → ℕ → ℕ → Method MfaVerifyResult
finish_webauthn id count now at = do
  f ← gets (λ s. or_zero_factor (lookup id s.factors))
  modify (put_factor id (record f { sign_count = count; updated_at = now }))
  pure (record {
    mfa_id = id;
    type_of = factor_type_webauthn;
    mfa_verified_at = at;
    new_sign_count = some count;
  })

module _ (h : Hashing) (v : Verifiers) where
  -- `now_code` is the reading that the code is computed at.
  unfoldable pub confirm_totp_factor : Text → Text → ℕ → ℕ → Method Factor
  confirm_totp_factor id code now_code now = do
    f ← or_raise (← gets (λ s. lookup id s.factors)) not_found
    raise_if (not (f.type_of == factor_type_totp) || not (is_pending_factor f.status))
        (precondition invalid_transition)
    secret ← gets (λ s. or_empty (lookup id s.totp_secrets))
    good ← lift (v.totp_verify secret code now_code)
    raise_if (not good) invalid_credential
    let f' : Factor = record f { status = FactorStatus.active; updated_at = now }
    modify (put_factor id f')
    modify (λ s. record s {
      mfa_singleton = insert (singleton_key f.usr_id factor_type_totp) id s.mfa_singleton;
    })
    pure f'

  abbrev assertion_of : Pending → WebAuthnProof → Result Error ℕ
  assertion_of p proof = v.assertion p.key p.factor.sign_count p.factor.rp_id proof

  unfoldable pub confirm_webauthn_factor : Text → WebAuthnProof → ℕ → Method Factor
  unfolding begin_confirm finish_confirm
  confirm_webauthn_factor id proof now = do
    p ← begin_confirm id proof
    count ← lift (assertion_of p proof)
    finish_confirm id count now

  unfoldable pub verify_webauthn_proof : Text → WebAuthnProof → ℕ → ℕ → Method MfaVerifyResult
  unfolding begin_webauthn finish_webauthn
  verify_webauthn_proof usr proof now at = do
    p ← begin_webauthn usr proof
    count ← lift (assertion_of p proof)
    finish_webauthn p.mfa_id count now at

  unfoldable pub verify_totp_proof : Text → Text → ℕ → ℕ → Method MfaVerifyResult
  verify_totp_proof usr code now_code at = do
    id ←
        or_raise (← gets (λ s. lookup (singleton_key usr factor_type_totp) s.mfa_singleton))
          not_found
    f ← gets (λ s. or_zero_factor (lookup id s.factors))
    raise_if (not (is_active_factor f.status)) invalid_credential
    secret ← gets (λ s. or_empty (lookup id s.totp_secrets))
    good ← lift (v.totp_verify secret code now_code)
    raise_if (not good) invalid_credential
    pure (record {
      mfa_id = id;
      type_of = factor_type_totp;
      mfa_verified_at = at;
      new_sign_count = none;
    })

  -- The code at position `i` of the factor is consumed.
  unfoldable pub consume : Text → ℕ → ℕ → Store → Store
  consume id i now s =
      let used = mark i (or_nil (lookup id s.recovery_consumed)) in
      let f = or_zero_factor (lookup id s.factors) in
      put_factor id (record f { remaining = count_unused used; updated_at = now })
        (record s { recovery_consumed = insert id used s.recovery_consumed })

  unfoldable pub verify_recovery_proof : Text → Text → ℕ → ℕ → Method MfaVerifyResult
  unfolding consume
  verify_recovery_proof usr code now at = do
    raise_if (not (v.is_valid_code (v.normalize code))) invalid_credential
    id ←
        or_raise
          (← gets (λ s.
            find_factor
              (λ f.
                f.usr_id == usr && (f.type_of == factor_type_recovery && is_active_factor f.status))
              s.factors))
          not_found
    hashes ← gets (λ s. or_nil (lookup id s.recovery_hashes))
    used ← gets (λ s. or_nil (lookup id s.recovery_consumed))
    found ← lift (match_code h (v.normalize code) hashes used)
    i ← or_raise found invalid_credential
    modify (consume id i now)
    pure (record {
      mfa_id = id;
      type_of = factor_type_recovery;
      mfa_verified_at = at;
      new_sign_count = none;
    })

  -- The clock readings are those of the branch that is taken.
  unfoldable pub verify_mfa : Text → MfaProof → ℕ → ℕ → Method MfaVerifyResult
  verify_mfa usr (totp code) now at = verify_totp_proof usr code now at
  verify_mfa usr (recovery code) now at = verify_recovery_proof usr code now at
  verify_mfa usr (webauthn proof) now at = verify_webauthn_proof usr proof now at
  verify_mfa usr nothing now at = raise empty_proof
