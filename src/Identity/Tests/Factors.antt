-- ===== src/Identity/Tests/Factors.antt =====
-- packages/identity/inmem.go: the theorems on MFA factors at small stores.
use flametrench_go.Base.{◌==◌}
use flametrench_go.Identity.Mfa.{begin_confirm}
use flametrench_go.Base.{◌==◌}
use flametrench_go.Base.{◌==◌}
use flametrench_go.Identity.Factors.{match_code}
use flametrench_go.Base.{◌==◌}
use flametrench_go.Identity.Factors.{find_factor}
use flametrench_go.Base.{◌+◌, ◌≡◌, refl, true, false, none, some, [], ◌∷◌, Text, bytes, lookup}
use flametrench_go.Base.Result.{ok, err}
use flametrench_go.Identity.Types.{
  Factor, FactorStatus, factor_type_totp, factor_type_recovery, factor_type_webauthn, not_found,
}
use flametrench_go.Identity.Store.{Store}
use flametrench_go.Identity.Factors.{
  WebAuthnProof, new_factor, suspend_factor, reinstate_factor, revoke_factor,
}
use flametrench_go.Identity.Mfa.{
  finish_confirm, verify_totp_proof, verify_recovery_proof, or_nil, count_unused,
}
use flametrench_go.Identity.Recovery.{recovery_consumes_one}
use flametrench_go.Identity.Faults.{reinstated_totp_is_lost, revoked_factor_confirmed}
use flametrench_go.Identity.Tests.{alice, base, hashing, verifiers}

abbrev mfa : Text
mfa = bytes "mfa_a"

abbrev codes : Factor
codes = record (new_factor mfa alice factor_type_recovery [] FactorStatus.active 1) {
  remaining = 1;
}

-- The first of two codes is used already.
abbrev with_codes : Store
with_codes = record base {
  factors = (mfa, codes) ∷ [];
  recovery_hashes = (mfa, bytes "one" ∷ bytes "two" ∷ []) ∷ [];
  recovery_consumed = (mfa, true ∷ false ∷ []) ∷ [];
}

recovery_consumes_one_example :
    let s' = (verify_recovery_proof hashing verifiers alice (bytes "two") 8 9 with_codes).1 in
    (count_unused (or_nil (lookup mfa s'.recovery_consumed)) + 1
      ≡ count_unused (or_nil (lookup mfa with_codes.recovery_consumed)))
    × ((f : Factor) × (lookup mfa s'.factors ≡ some f)
        × (f.remaining ≡ count_unused (or_nil (lookup mfa s'.recovery_consumed))))
unfolding verify_recovery_proof find_factor ◌==◌ new_factor factor_type_recovery match_code lookup
recovery_consumes_one_example =
    recovery_consumes_one hashing verifiers alice (bytes "two") 8 9 with_codes
      (record {
        mfa_id = mfa;
        type_of = factor_type_recovery;
        mfa_verified_at = 9;
        new_sign_count = none;
      })
      refl

abbrev totp_factor : FactorStatus → Factor
totp_factor status = new_factor mfa alice factor_type_totp (bytes "phone") status 1

abbrev with_totp : FactorStatus → Store
with_totp status = record base {
  factors = (mfa, totp_factor status) ∷ [];
  totp_secrets = (mfa, bytes "123456") ∷ [];
}

reinstated_totp_is_lost_example :
    let s = with_totp FactorStatus.active in
    let s' = (reinstate_factor mfa 3 (suspend_factor mfa 2 s).1).1 in
    (lookup mfa s'.factors
      ≡ some (record (totp_factor FactorStatus.active) {
        status = FactorStatus.active;
        updated_at = 3;
      }))
    × ((verify_totp_proof hashing verifiers alice (bytes "123456") 4 5 s').0 ≡ err not_found)
unfolding new_factor lookup ◌==◌
reinstated_totp_is_lost_example =
    reinstated_totp_is_lost hashing verifiers mfa (totp_factor FactorStatus.active) 2 3
      (bytes "123456") 4 5 (with_totp FactorStatus.active) refl refl refl

abbrev key_factor : Factor
key_factor = new_factor mfa alice factor_type_webauthn (bytes "key") FactorStatus.pending 1

abbrev with_key : Store
with_key = record base { factors = (mfa, key_factor) ∷ [] }

abbrev proof : WebAuthnProof
proof = record {
  credential_id = bytes "key";
  authenticator_data = [];
  client_data_json = [];
  signature = [];
  expected_challenge = [];
  expected_origin = [];
}

revoked_factor_confirmed_example :
    let (r, s') = revoke_factor mfa 2 with_key in
    (r ≡ ok (record key_factor { status = FactorStatus.revoked; updated_at = 2 }))
    × ((finish_confirm mfa 7 3 s').0
        ≡ ok (record key_factor { status = FactorStatus.active; sign_count = 7; updated_at = 3 }))
unfolding begin_confirm lookup ◌==◌ new_factor factor_type_webauthn
revoked_factor_confirmed_example =
    revoked_factor_confirmed mfa proof (record { mfa_id = mfa; key = []; factor = key_factor }) 7 2
      3 with_key refl
