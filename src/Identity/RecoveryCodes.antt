-- ===== src/Identity/RecoveryCodes.antt =====
-- packages/identity/mfa.go: recovery codes. `draws` is what the calls of rand.Read give, a byte each;
-- its end is an error. strings.ToUpper and strings.TrimSpace map Unicode text, and are parameters.
pub mod Codes
mod Tests
use flametrench_go.Base.{
  ℕ, zero, suc, ◌+◌, ◌*◌, ◌/◌, ◌%◌, Bool, true, false, not, ◌&&◌, ◌||◌, Option, none, some, List,
  [], ◌∷◌, ◌++◌, ltb, eqb, if◌then◌else◌, length, Text, bytes, split_on, pos,
}
use flametrench_go.Base.Result.{Result}
use flametrench_go.Ids.{byte_at, take, drop}
use flametrench_go.Patterns.{all_in}
use flametrench_go.Identity.Types.{Error}
use flametrench_go.Identity.Store.{second}
use flametrench_go.Identity.Factors.{WebAuthnProof, Verifiers}
use flametrench_go.Identity.Totp.{totp_verify, default_options}

unfoldable pub recovery_alphabet : Text
recovery_alphabet = bytes "ABCDEFGHJKMNPQRSTUVWXYZ23456789"

abbrev pub recovery_code_count : ℕ
recovery_code_count = 10

abbrev pub recovery_code_length : ℕ
recovery_code_length = 12

-- The largest multiple of the alphabet's length, 31, that fits in a byte.
unfoldable pub threshold : ℕ
unfolding recovery_alphabet
threshold = 256 / length recovery_alphabet * length recovery_alphabet

unfoldable pub letter : ℕ → ℕ
unfolding recovery_alphabet
letter b = byte_at recovery_alphabet (b % length recovery_alphabet)

-- The inner loop: bytes from the threshold on are drawn again.
unfoldable pub draw_letter : Text → Option (ℕ × Text)
unfolding threshold letter
draw_letter [] = none
draw_letter (b ∷ draws) =
    let again = draw_letter draws in if ltb b threshold then some (letter b, draws) else again

-- The outer loop, for the letters that are left.
unfoldable pub draw_letters : ℕ → Text → Option (Text × Text)
unfolding draw_letter
draw_letters zero draws = some ([], draws)
draw_letters (suc n) draws = elim (draw_letter draws) [
  | none ↦ none
  | some (c, draws') ↦ elim (draw_letters n draws') [
    | none ↦ none
    | some (cs, rest) ↦ some (c ∷ cs, rest)
  ]
]

-- fmt.Sprintf("%s-%s-%s", chars[0:4], chars[4:8], chars[8:12])
unfoldable pub hyphenated : Text → Text
unfolding take drop
hyphenated cs = take 4 cs ++ (b'-' ∷ (take 4 (drop 4 cs) ++ (b'-' ∷ take 4 (drop 8 cs))))

unfoldable pub generate_recovery_code : Text → Option (Text × Text)
unfolding draw_letters hyphenated
generate_recovery_code draws = elim (draw_letters recovery_code_length draws) [
  | none ↦ none
  | some (cs, rest) ↦ some (hyphenated cs, rest)
]

-- The loop of GenerateRecoveryCodes, for the codes that are left.
unfoldable pub generate_codes : ℕ → Text → Option (List Text)
unfolding generate_recovery_code
generate_codes zero draws = some []
generate_codes (suc n) draws = elim (generate_recovery_code draws) [
  | none ↦ none
  | some (code, rest) ↦ elim (generate_codes n rest) [
    | none ↦ none
    | some codes ↦ some (code ∷ codes)
  ]
]

unfoldable pub generate_recovery_codes : Text → Option (List Text)
unfolding generate_codes
generate_recovery_codes draws = generate_codes recovery_code_count draws

-- strings.ContainsRune on ASCII
unfoldable pub contains_byte : Text → ℕ → Bool
contains_byte [] c = false
contains_byte (d ∷ s) c = eqb d c || contains_byte s c

abbrev pub is_recovery_char : ℕ → Bool
is_recovery_char = contains_byte recovery_alphabet

unfoldable pub is_recovery_part : Text → Bool
unfolding contains_byte recovery_alphabet all_in
is_recovery_part p = eqb (length p) 4 && all_in is_recovery_char p

abbrev three_parts : List Text → Bool
three_parts (p ∷ q ∷ r ∷ []) = is_recovery_part p && (is_recovery_part q && is_recovery_part r)
three_parts parts = false

unfoldable pub is_valid_recovery_code : Text → Bool
unfolding is_recovery_part split_on
is_valid_recovery_code code =
    eqb (length code) (recovery_code_length + 2) && three_parts (split_on b'-' code)

module _ (hmac : Text → Text → Text → Text) (to_upper trim_space : Text → Text)
    (assertion : Text → ℕ → Text → WebAuthnProof → Result Error ℕ) where
  unfoldable pub normalize_recovery_input : Text → Text
  normalize_recovery_input code = to_upper (trim_space code)

  -- The functions of mfa.go as the store calls them, with one window of drift.
  abbrev pub verifiers : Verifiers
  verifiers = record {
    totp_verify = λ secret code now.
        totp_verify hmac secret code (pos (now / second)) (pos 1) default_options;
    normalize = normalize_recovery_input;
    is_valid_code = is_valid_recovery_code;
    assertion = assertion;
  }
