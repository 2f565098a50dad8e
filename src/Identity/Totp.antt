-- ===== src/Identity/Totp.antt =====
-- packages/identity/mfa.go: TOTP codes. HMAC over a hash of the given name is a parameter; the options
-- are naturals, as a negative period or number of digits means nothing to the code.
pub mod Windows
mod Tests
use flametrench_go.Base.{
  ℕ, zero, suc, ◌+◌, ◌-◌, ◌*◌, ◌/◌, ◌%◌, ◌^◌, Bool, true, false, not, ◌&&◌, ◌||◌, Option, none,
  some, List, [], ◌∷◌, ◌++◌, ltb, leb, eqb, if◌then◌else◌, length, Text, bytes, ◌==◌, ℤ, pos,
  negsuc, pos_part, neg_part, sub_ℕ,
}
use flametrench_go.Base.Result.{Result, ok, err, ◌>>=◌, ◌>>◌, fail_if}
use flametrench_go.Ids.{byte_at}
use flametrench_go.Patterns.{all_in, is_digit}
use flametrench_go.Identity.Types.{Error, unsupported_algorithm, drift_out_of_range, divide_by_zero}
use flametrench_go.Identity.Hashing.{decimal}

pub record TotpComputeOptions : Type 0 where
  pub period_option : ℕ
  pub digits_option : ℕ
  pub algorithm : Text

-- TotpComputeOptions{}
abbrev pub default_options : TotpComputeOptions
default_options = record { period_option = 0; digits_option = 0; algorithm = [] }

unfoldable pub period : TotpComputeOptions → ℕ
period o = if eqb o.period_option 0 then 30 else o.period_option

unfoldable pub digits : TotpComputeOptions → ℕ
digits o = if eqb o.digits_option 0 then 6 else o.digits_option

-- TotpComputeOptions.hash: the name of the hash.
unfoldable pub hash : TotpComputeOptions → Result Error Text
hash o =
    let alg = if o.algorithm == [] then bytes "sha1" else o.algorithm in
    if alg == bytes "sha1" || (alg == bytes "sha256" || alg == bytes "sha512")
    then ok alg
    else err unsupported_algorithm

-- uint64(timestamp / int64(period)): the division rounds towards zero, and a negative counter wraps.
unfoldable pub counter : ℤ → ℕ → ℕ
counter (pos n) p = (n / p) % 2 ^ 64
counter (negsuc n) p = (2 ^ 64 - (suc n / p) % 2 ^ 64) % 2 ^ 64

-- The low `n` bytes of a number, the highest first: binary.BigEndian.PutUint64 for eight.
unfoldable pub big_endian : ℕ → ℕ → Text
big_endian zero k = []
big_endian (suc n) k = big_endian n (k / 256) ++ (k % 256) ∷ []

-- digest[len(digest)-1] & 0x0F
unfoldable pub truncation_offset : Text → ℕ
truncation_offset d = byte_at d (length d - 1) % 16

-- binary.BigEndian.Uint32(digest[offset:offset+4]) & 0x7FFFFFFF
unfoldable pub truncated : Text → ℕ → ℕ
truncated d i =
    (((byte_at d i * 256 + byte_at d (i + 1)) * 256 + byte_at d (i + 2)) * 256 + byte_at d (i + 3))
    % 2 ^ 31

-- The loop over the digits, on a uint32.
unfoldable pub modulus : ℕ → ℕ
modulus zero = 1
modulus (suc n) = modulus n * 10 % 2 ^ 32

unfoldable pub zeros : ℕ → Text
zeros zero = []
zeros (suc n) = b'0' ∷ zeros n

-- fmt.Sprintf("%0*d", digits, code)
unfoldable pub zero_padded : ℕ → ℕ → Text
unfolding zeros decimal
zero_padded width n = zeros (width - length (decimal n)) ++ decimal n

-- timestamp + offset * period, for offset = j - drift. The sum stays inside an int64.
unfoldable pub window : ℤ → ℕ → ℕ → ℕ → ℤ
window timestamp p drift j = sub_ℕ (pos_part timestamp + j * p) (neg_part timestamp + drift * p)

abbrev pub in_drift : ℤ → Bool
in_drift (pos n) = leb n 10
in_drift (negsuc n) = false

module _ (hmac : Text → Text → Text → Text) where
  -- TotpCompute; a modulus of zero, from 32 digits on, makes the remainder panic.
  unfoldable pub totp_compute : Text → ℤ → TotpComputeOptions → Result Error Text
  totp_compute secret timestamp o = do
    alg ← hash o
    let digest = hmac alg secret (big_endian 8 (counter timestamp (period o)))
    fail_if (eqb (modulus (digits o)) 0) divide_by_zero
    ok (zero_padded (digits o) (truncated digest (truncation_offset digest) % modulus (digits o)))

  -- The loop over the windows: `n` are left, from the one at `j`.
  unfoldable pub try_windows : Text → Text → ℤ → ℕ → TotpComputeOptions → ℕ → ℕ → Result Error Bool
  unfolding window
  try_windows secret candidate timestamp drift o zero j = ok false
  try_windows secret candidate timestamp drift o (suc n) j =
      let rest = try_windows secret candidate timestamp drift o n (suc j) in
      elim (totp_compute secret (window timestamp (period o) drift j) o) [
        | err e ↦ err e
        | ok expected ↦ if expected == candidate then ok true else rest
      ]

  unfoldable pub totp_verify : Text → Text → ℤ → ℤ → TotpComputeOptions → Result Error Bool
  unfolding try_windows
  totp_verify secret candidate timestamp drift o = do
    fail_if (not (in_drift drift)) drift_out_of_range
    if not (eqb (length candidate) (digits o)) || not (all_in is_digit candidate)
        then ok false
        else try_windows secret candidate timestamp (pos_part drift) o (2 * pos_part drift + 1) 0
