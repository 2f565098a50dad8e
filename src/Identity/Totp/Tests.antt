-- ===== src/Identity/Totp/Tests.antt =====
-- packages/identity/mfa.go: the theorems on TOTP codes, with the counter itself as its digest.
use flametrench_go.Base.{◌==◌}
use flametrench_go.Identity.Totp.{counter}
use flametrench_go.Identity.Totp.{truncation_offset}
use flametrench_go.Identity.Totp.{big_endian}
use flametrench_go.Ids.{byte_at}
use flametrench_go.Identity.Totp.{truncated}
use flametrench_go.Identity.Totp.{zero_padded}
use flametrench_go.Identity.Totp.{modulus}
use flametrench_go.Base.{◌==◌}
use flametrench_go.Base.{◌==◌}
use flametrench_go.Base.{◌==◌}
use flametrench_go.Base.{
  ℕ, ◌*◌, ◌≤◌, ◌≡◌, ◌↔◌, refl, arith, true, false, [], ◌∷◌, ◌++◌, Text, bytes, pos,
}
use flametrench_go.Base.Result.{ok}
use flametrench_go.Ids.{drop}
use flametrench_go.Patterns.{all_in}
use flametrench_go.Identity.Totp.{
  default_options, period, digits, hash, zeros, totp_compute, window, totp_verify,
}
use flametrench_go.Identity.Totp.Windows.{totp_verify_exact}

abbrev mac : Text → Text → Text → Text
mac alg secret message = drop 4 message ++ zeros 15 ++ 0 ∷ []

totp_verify_exact_example :
    (totp_verify mac (bytes "key") (bytes "000003") (pos 60) (pos 1) default_options ≡ ok true) ↔ (
      (j : ℕ) × (j ≤ 2 * 1)
      × (totp_compute mac
            (bytes "key")
            (window (pos 60) (period default_options) 1 j)
            default_options
          ≡ ok (bytes "000003")))
unfolding hash ◌==◌ digits
totp_verify_exact_example =
    totp_verify_exact mac (bytes "key") (bytes "000003") (pos 60) 1 default_options (bytes "sha1")
      refl (omega arith) (omega arith) (omega arith)

-- The code of the next half minute is accepted, and that of a minute ahead is not.
next_code_accepted :
    totp_verify mac (bytes "key") (bytes "000003") (pos 60) (pos 1) default_options ≡ ok true
unfolding totp_verify digits all_in totp_compute hash ◌==◌ modulus zero_padded truncated byte_at
    drop big_endian truncation_offset counter period
next_code_accepted = refl

far_code_refused :
    totp_verify mac (bytes "key") (bytes "000004") (pos 60) (pos 1) default_options ≡ ok false
unfolding totp_verify digits all_in totp_compute hash ◌==◌ modulus zero_padded truncated byte_at
    drop big_endian truncation_offset counter period
far_code_refused = refl
