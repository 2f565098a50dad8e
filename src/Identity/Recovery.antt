-- ===== src/Identity/Recovery.antt =====
-- packages/identity/inmem.go: recovery codes are used up one at a time.
use flametrench_go.Base.{
  ℕ, ◌+◌, ◌≡◌, Bool, true, false, ◌&&◌, some, inl, inr, List, [], ◌∷◌, arith, Text, ◌==◌, lookup,
  lookup-insert_self, Option-cases, Bool-cases,
}
use flametrench_go.Base.Result.{ok, Result-cases}
use flametrench_go.Identity.Types.{Factor, factor_type_recovery, is_active_factor, MfaVerifyResult}
use flametrench_go.Identity.Store.{Store, put_factor, or_zero_factor}
use flametrench_go.Identity.Credentials.{Hashing}
use flametrench_go.Identity.Factors.{Verifiers, find_factor, match_code}
use flametrench_go.Identity.Mfa.{or_nil, mark, count_unused, consume, verify_recovery_proof}

-- The code that the loop picks is not consumed yet.
mark_count :
    (h : Hashing) (c : Text) (hashes : List Text) (used : List Bool) (i : ℕ)
    → match_code h c hashes used ≡ ok (some i)
    → count_unused (mark i used) + 1 ≡ count_unused used
unfolding match_code mark count_unused
mark_count h c [] used i e = absurd (ground arith)
mark_count h c (x ∷ xs) [] i e = absurd (ground arith)
mark_count h c (x ∷ xs) (true ∷ used) i e = elim (Result-cases (match_code h c xs used)) [
  | inr (bad, eb) ↦ absurd (ground arith)
  | inl (found, ef) ↦ elim (Option-cases found) [
    | inl missing ↦ absurd (ground arith)
    | inr (j, ej) ↦ ground (arith, mark_count h c xs used j)
  ]
]
mark_count h c (x ∷ xs) (false ∷ used) i e = elim (Result-cases (h.verify_password_hash x c)) [
  | inr (bad, eb) ↦ absurd (ground arith)
  | inl (good, eg) ↦ elim (Bool-cases good) [
    | inl hit ↦ ground arith
    | inr miss ↦ elim (Result-cases (match_code h c xs used)) [
      | inr (bad, eb) ↦ absurd (ground arith)
      | inl (found, ef) ↦ elim (Option-cases found) [
        | inl missing ↦ absurd (ground arith)
        | inr (j, ej) ↦ ground (arith, mark_count h c xs used j)
      ]
    ]
  ]
]

-- Each success of a recovery proof uses up one code of the factor it reports: of the codes that were
-- not consumed one is left less, and the factor shows how many are left.
pub recovery_consumes_one :
    (h : Hashing) (v : Verifiers) (usr code : Text) (now at : ℕ) (s : Store) (r : MfaVerifyResult)
    → (verify_recovery_proof h v usr code now at s).0 ≡ ok r
    → let s' = (verify_recovery_proof h v usr code now at s).1 in
      (count_unused (or_nil (lookup r.mfa_id s'.recovery_consumed)) + 1
        ≡ count_unused (or_nil (lookup r.mfa_id s.recovery_consumed)))
      × ((f : Factor) × (lookup r.mfa_id s'.factors ≡ some f)
          × (f.remaining ≡ count_unused (or_nil (lookup r.mfa_id s'.recovery_consumed))))
unfolding verify_recovery_proof consume put_factor
recovery_consumes_one h v usr code now at s r e =
    let wanted = λ (f : Factor).
      f.usr_id == usr && (f.type_of == factor_type_recovery && is_active_factor f.status) in
    elim (Option-cases (find_factor wanted s.factors)) [
      | inl missing ↦ absurd (ground arith)
      | inr (id, ei) ↦
          let hashes = or_nil (lookup id s.recovery_hashes) in
          let used = or_nil (lookup id s.recovery_consumed) in
          elim (Result-cases (match_code h (v.normalize code) hashes used)) [
            | inr (bad, eb) ↦ absurd (ground arith)
            | inl (found, ef) ↦ elim (Option-cases found) [
              | inl missing ↦ absurd (ground arith)
              | inr (i, hit) ↦
                  let f : Factor = record (or_zero_factor (lookup id s.factors)) {
                    remaining = count_unused (mark i used);
                    updated_at = now;
                  } in
                  (
                    ground (
                      arith,
                      lookup-insert_self id (mark i used) s.recovery_consumed,
                      mark_count h (v.normalize code) hashes used i,
                    ),
                    (
                      f,
                      ground (arith, lookup-insert_self id f s.factors),
                      ground (arith, lookup-insert_self id (mark i used) s.recovery_consumed),
                    ),
                  )
            ]
          ]
    ]
