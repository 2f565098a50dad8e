-- ===== src/Identity/Faults.antt =====
-- packages/identity/inmem.go: calls after which the store no longer says what it means to say.
use flametrench_go.Base.{
  ℕ, ◌≡◌, true, some, inl, inr, arith, Text, lookup, insert, eq_refl, lookup-remove,
  lookup-insert_self, Option-cases,
}
use flametrench_go.Base.Result.{ok, err}
use flametrench_go.Identity.Types.{
  Factor, FactorStatus, is_pending_factor, is_active_factor, factor_type_totp, not_found,
  precondition, invalid_transition,
}
use flametrench_go.Identity.Store.{Store, singleton_key, put_factor}
use flametrench_go.Identity.Credentials.{Hashing}
use flametrench_go.Identity.Factors.{
  WebAuthnProof, Verifiers, transition_factor, suspend_factor, reinstate_factor, revoke_factor,
}
use flametrench_go.Identity.Mfa.{
  Pending, begin_confirm, finish_confirm, confirm_totp_factor, verify_totp_proof,
}

-- SuspendFactor takes a TOTP factor off the index and ReinstateFactor does not put it back: the factor
-- is stored as active again, but no code verifies for its user, at any time.
pub reinstated_totp_is_lost :
    (h : Hashing) (v : Verifiers) (id : Text) (f : Factor) (t1 t2 : ℕ) (code : Text) (now at : ℕ)
    (s : Store)
    → lookup id s.factors ≡ some f
    → is_active_factor f.status ≡ true
    → f.type_of ≡ factor_type_totp
    → let s' = (reinstate_factor id t2 (suspend_factor id t1 s).1).1 in
      (lookup id s'.factors ≡ some (record f { status = FactorStatus.active; updated_at = t2 }))
      × ((verify_totp_proof h v f.usr_id code now at s').0 ≡ err not_found)
unfolding reinstate_factor suspend_factor transition_factor put_factor verify_totp_proof
reinstated_totp_is_lost h v id f t1 t2 code now at s e live totp =
    let held : Factor = record f { status = FactorStatus.suspended; updated_at = t1 } in
    let back : Factor = record f { status = FactorStatus.active; updated_at = t2 } in
    let key = singleton_key f.usr_id f.type_of in
    (
      ground (
        arith,
        lookup-insert_self id held s.factors,
        lookup-insert_self id back (insert id held s.factors),
      ),
      ground (
        arith,
        totp,
        lookup-insert_self id held s.factors,
        lookup-remove key key s.mfa_singleton,
        eq_refl key,
      ),
    )

-- ReinstateFactor makes a pending factor active without any proof, and the confirmation, with
-- whatever code, is refused from then on.
pub pending_factor_reinstated :
    (h : Hashing) (v : Verifiers) (id : Text) (f : Factor) (now now_code at : ℕ) (code : Text)
    (s : Store)
    → lookup id s.factors ≡ some f
    → is_pending_factor f.status ≡ true
    → let (r, s') = reinstate_factor id now s in
      (r ≡ ok (record f { status = FactorStatus.active; updated_at = now }))
      × ((confirm_totp_factor h v id code now_code at s').0 ≡ err (precondition invalid_transition))
unfolding reinstate_factor transition_factor put_factor confirm_totp_factor
pending_factor_reinstated h v id f now now_code at code s e waiting =
    let back : Factor = record f { status = FactorStatus.active; updated_at = now } in
    (ground arith, ground (arith, lookup-insert_self id back s.factors))

-- ConfirmWebAuthnFactor releases the lock while it verifies the assertion. If the factor is revoked in
-- between, the confirmation makes the revoked factor active.
pub revoked_factor_confirmed :
    (id : Text) (proof : WebAuthnProof) (p : Pending) (count t1 t2 : ℕ) (s : Store)
    → (begin_confirm id proof s).0 ≡ ok p
    → let (r, s') = revoke_factor id t1 s in
      (r ≡ ok (record p.factor { status = FactorStatus.revoked; updated_at = t1 }))
      × ((finish_confirm id count t2 s').0
          ≡ ok (record p.factor {
            status = FactorStatus.active;
            sign_count = count;
            updated_at = t2;
          }))
unfolding begin_confirm revoke_factor transition_factor put_factor finish_confirm
revoked_factor_confirmed id proof p count t1 t2 s e = elim (Option-cases (lookup id s.factors)) [
  | inl missing ↦ absurd (ground arith)
  | inr (f, ef) ↦
      let gone : Factor = record f { status = FactorStatus.revoked; updated_at = t1 } in
      (ground arith, ground (arith, lookup-insert_self id gone s.factors))
]
