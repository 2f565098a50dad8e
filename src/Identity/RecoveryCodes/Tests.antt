-- ===== src/Identity/RecoveryCodes/Tests.antt =====
-- packages/identity/mfa.go: the theorems on recovery codes at a few draws.
use flametrench_go.Base.{◌≡◌, refl, true, [], ◌∷◌, Text, bytes}
use flametrench_go.Ids.{byte_at}
use flametrench_go.Identity.RecoveryCodes.{generate_recovery_code, is_valid_recovery_code}
use flametrench_go.Identity.RecoveryCodes.Codes.{generate_recovery_code-IsValid}

-- The second byte is drawn again.
abbrev draws : Text
draws = 0 ∷ 250 ∷ 1 ∷ 2 ∷ 3 ∷ 4 ∷ 5 ∷ 6 ∷ 7 ∷ 8 ∷ 9 ∷ 247 ∷ 100 ∷ 77 ∷ []

generate_recovery_code-IsValid_example : is_valid_recovery_code (bytes "ABCD-EFGH-JK9H") ≡ true
unfolding generate_recovery_code byte_at
generate_recovery_code-IsValid_example =
    generate_recovery_code-IsValid draws (77 ∷ []) (bytes "ABCD-EFGH-JK9H") refl
