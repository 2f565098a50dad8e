-- ===== src/Identity/Totp/Windows.antt =====
-- packages/identity/mfa.go: the shape of a TOTP code, and the codes that TotpVerify accepts.
use native.Mathlib.Nat.{mod-lt}
use flametrench_go.Base.{
  ℕ, zero, suc, ◌+◌, ◌-◌, ◌*◌, ◌/◌, ◌%◌, ◌^◌, ◌<◌, ◌≤◌, ◌≡◌, ◌↔◌, refl, subst, inl, inr, Bool, true,
  ◌&&◌, [], ◌∷◌, ◌++◌, arith, ltb, eqb, length, Text, ◌==◌, eq_iff, Bool-cases, holds_under,
  at-holds_under, ℤ, pos,
}
use flametrench_go.Base.Result.{Result, ok}
use flametrench_go.Patterns.{all_in, is_digit}
use flametrench_go.Identity.Hashing.{decimal, decimal_in}
use flametrench_go.Identity.Types.{Error}
use flametrench_go.Identity.Totp.{
  TotpComputeOptions, counter, big_endian, truncated, truncation_offset, period, digits, hash,
  modulus, zeros, zero_padded, totp_compute, window, try_windows, totp_verify,
}

all_in-append : (p : ℕ → Bool) (s t : Text) → all_in p (s ++ t) ≡ (all_in p s && all_in p t)
unfolding all_in
all_in-append p [] t = refl
all_in-append p (c ∷ s) t = ground (arith, all_in-append p s t)

length-append : (s t : Text) → length (s ++ t) ≡ length s + length t
length-append [] t = omega arith
length-append (c ∷ s) t = omega (arith, length-append s t)

zeros-length : (n : ℕ) → length (zeros n) ≡ n
unfolding zeros
zeros-length zero = refl
zeros-length (suc n) = omega (arith, zeros-length n)

zeros-digits : (n : ℕ) → all_in is_digit (zeros n) ≡ true
unfolding zeros all_in
zeros-digits zero = refl
zeros-digits (suc n) = zeros-digits n

decimal_in-digits : (fuel n : ℕ) → all_in is_digit (decimal_in fuel n) ≡ true
unfolding decimal_in all_in
decimal_in-digits zero n = refl
decimal_in-digits (suc fuel) n = ground (
  arith,
  decimal_in-digits fuel (n / 10),
  all_in-append is_digit (decimal_in fuel (n / 10)) ((b'0' + n % 10) ∷ []),
)

ten_pow_suc : (e : ℕ) → 10 ^ suc e ≡ 10 * 10 ^ e
ten_pow_suc e = omega arith

decimal_in-length : (fuel n d : ℕ) → n < 10 ^ suc d → length (decimal_in fuel n) ≤ suc d
unfolding decimal_in
decimal_in-length zero n d h = omega arith
decimal_in-length (suc fuel) n zero h = ground arith
decimal_in-length (suc fuel) n (suc d) h =
    let small : n / 10 < 10 ^ suc d = omega (arith, ten_pow_suc (suc d)) in
    ground (
      arith,
      decimal_in-length fuel (n / 10) d small,
      length-append (decimal_in fuel (n / 10)) ((b'0' + n % 10) ∷ []),
    )

zero_padded_lem :
    (d n : ℕ)
    → n < 10 ^ suc d
    → (length (zero_padded (suc d) n) ≡ suc d) × (all_in is_digit (zero_padded (suc d) n) ≡ true)
unfolding zero_padded decimal
zero_padded_lem d n h =
    let gap = suc d - length (decimal_in 10 n) in
    (
      omega (
        arith,
        length-append (zeros gap) (decimal_in 10 n),
        zeros-length gap,
        decimal_in-length 10 n d h,
      ),
      ground (
        arith,
        all_in-append is_digit (zeros gap) (decimal_in 10 n),
        zeros-digits gap,
        decimal_in-digits 10 n,
      ),
    )

-- Up to nine digits the loop computes the power of ten.
abbrev is_power : ℕ → Bool
is_power n = eqb (modulus n) (10 ^ n) && ltb 0 (10 ^ n)

modulus_table : holds_under is_power 10 ≡ true
unfolding holds_under modulus
modulus_table = refl

modulus_lem : (n : ℕ) → n ≤ 9 → (modulus n ≡ 10 ^ n) × (0 < 10 ^ n)
modulus_lem n h =
    let checked = at-holds_under is_power n 10 (omega arith) modulus_table in
    (ground arith, ground arith)

module _ (hmac : Text → Text → Text → Text) where
  -- With one to nine digits and a hash that is supported, TotpCompute gives a text of that many
  -- decimal digits.
  pub totp_compute_shape :
      (secret : Text) (timestamp : ℤ) (o : TotpComputeOptions) (alg : Text)
      → hash o ≡ ok alg
      → 1 ≤ digits o
      → digits o ≤ 9
      → (code : Text) × (totp_compute hmac secret timestamp o ≡ ok code)
        × (length code ≡ digits o)
        × (all_in is_digit code ≡ true)
  unfolding totp_compute
  totp_compute_shape secret timestamp o alg known some_digits few =
      let digest = hmac alg secret (big_endian 8 (counter timestamp (period o))) in
      let x = truncated digest (truncation_offset digest) in
      let (power, positive) = modulus_lem (digits o) few in
      let more : digits o ≡ suc (digits o - 1) = omega arith in
      let small : x % modulus (digits o) < 10 ^ digits o = rw power (mod-lt x positive) in
      let shape = zero_padded_lem (digits o - 1) (x % modulus (digits o)) (rw (← more) small) in
      (
        zero_padded (digits o) (x % modulus (digits o)),
        ground (arith, power, positive),
        rw (← more) at (shape.0),
        rw (← more) at (shape.1),
      )

  module _ (secret candidate : Text) (timestamp : ℤ) (drift : ℕ) (o : TotpComputeOptions)
      (alg : Text) (known : hash o ≡ ok alg) (some_digits : 1 ≤ digits o) (few : digits o ≤ 9) where
    abbrev code_at : ℕ → Result Error Text
    code_at j = totp_compute hmac secret (window timestamp (period o) drift j) o

    -- A window at which the candidate is the code.
    abbrev Hit : ℕ → ℕ → Type 0
    Hit n j = (k : ℕ) × (j ≤ k) × (k < j + n) × (code_at k ≡ ok candidate)

    accepted_hits :
        (n j : ℕ) → try_windows hmac secret candidate timestamp drift o n j ≡ ok true → Hit n j
    unfolding try_windows
    accepted_hits zero j h = absurd (ground arith)
    accepted_hits (suc n) j h =
        let (code, computed, sized, plain) =
          totp_compute_shape secret (window timestamp (period o) drift j) o alg known some_digits
            few in
        elim (Bool-cases (code == candidate)) [
          | inl same ↦
              (j, omega arith, omega arith, ground (arith, computed, eq_iff code candidate))
          | inr other ↦
              let (k, low, high, e) = accepted_hits n (suc j) (ground (arith, computed)) in
              (k, omega arith, omega arith, e)
        ]

    hits_accepted :
        (n j : ℕ) → Hit n j → try_windows hmac secret candidate timestamp drift o n j ≡ ok true
    unfolding try_windows
    hits_accepted zero j (k, low, high, e) = absurd (omega arith)
    hits_accepted (suc n) j (k, low, high, e) =
        let (code, computed, sized, plain) =
          totp_compute_shape secret (window timestamp (period o) drift j) o alg known some_digits
            few in
        elim (Bool-cases (code == candidate)) [
          | inl same ↦ ground (arith, computed)
          | inr other ↦ elim (Bool-cases (eqb k j)) [
            | inl here ↦
                let at : k ≡ j = ground arith in
                let e' : code_at j ≡ ok candidate = subst (λ i. code_at i ≡ ok candidate) at e in
                absurd (ground (arith, computed, e', eq_iff code candidate))
            | inr later ↦
                ground (arith, computed, hits_accepted n (suc j) (k, ground arith, omega arith, e))
          ]
        ]

    -- TotpVerify with a drift of at most ten windows accepts exactly the codes of the windows from
    -- `drift` before the time to `drift` after it, where the options ask for one to nine digits and
    -- name a hash that is supported.
    pub totp_verify_exact :
        drift ≤ 10
        → (totp_verify hmac secret candidate timestamp (pos drift) o ≡ ok true) ↔ (
            (j : ℕ) × (j ≤ 2 * drift)
            × (totp_compute hmac secret (window timestamp (period o) drift j) o ≡ ok candidate))
    unfolding totp_verify
    totp_verify_exact within = (
      λ h.
          let (k, low, high, e) = accepted_hits (2 * drift + 1) 0 (ground arith) in
          (k, omega arith, e),
      λ (k, near, e).
          let (code, computed, sized, plain) =
            totp_compute_shape secret (window timestamp (period o) drift k) o alg known some_digits
              few in
          let same : code ≡ candidate = ground (arith, computed, e) in
          let size : length candidate ≡ digits o = rw (← same) sized in
          let clean : all_in is_digit candidate ≡ true = rw (← same) plain in
          ground
            (arith, size, clean, hits_accepted (2 * drift + 1) 0 (k, omega arith, omega arith, e)),
    )
