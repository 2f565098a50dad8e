-- ===== src/Identity/Hashing.antt =====
-- packages/identity/hashing.go: passwords as Argon2id hashes in PHC strings. The Argon2id function of
-- golang.org/x/crypto is a parameter.
pub mod Base64
pub mod Phc
mod Tests
use flametrench_go.Base.{
  ℕ, zero, suc, ◌+◌, ◌-◌, ◌*◌, ◌/◌, ◌%◌, ◌^◌, ◌<◌, ◌≡◌, refl, Bool, true, false, not, ◌&&◌, ◌||◌,
  Option, none, some, List, [], ◌∷◌, ◌++◌, ltb, leb, eqb, if◌then◌else◌, length, Text, bytes, ◌==◌,
  has_prefix, split_on, ℤ, pos, negsuc,
}
use flametrench_go.Base.Result.{Result, ok, err, ◌>>=◌, ◌>>◌, fail_if}
use flametrench_go.Identity.Types.{Error, password_too_long, random_failed}
use flametrench_go.Identity.Credentials.{Hashing}
use flametrench_go.Identity.Hashing.Base64.{encode_base64, decode_base64}

abbrev pub max_password_bytes : ℕ
max_password_bytes = 1024

abbrev pub argon2id_key_len : ℕ
argon2id_key_len = 32

abbrev pub argon2id_version : ℕ
argon2id_version = 19

pub record Argon2idParams : Type 0 where
  pub memory_kib : ℕ
  pub time_cost : ℕ
  pub parallelism : ℕ

abbrev pub argon2id_floor : Argon2idParams
argon2id_floor = record { memory_kib = 19456; time_cost = 2; parallelism = 1 }

unfoldable pub check_password_length : Text → Result Error (Unit {0})
check_password_length plaintext =
    fail_if (ltb max_password_bytes (length plaintext)) password_too_long

-- %d of a number below 10 ^ fuel.
unfoldable pub decimal_in : ℕ → ℕ → Text
decimal_in zero n = []
decimal_in (suc fuel) n =
    let more = decimal_in fuel (n / 10) ++ (b'0' + n % 10) ∷ [] in
    if ltb n 10 then (b'0' + n) ∷ [] else more

-- %d of a uint32, which has ten digits at most.
unfoldable pub decimal : ℕ → Text
unfolding decimal_in
decimal n = decimal_in 10 n

unfoldable pub encode_phc : Text → Text → Text
unfolding decimal
encode_phc salt key =
    bytes "$argon2id$v="
    ++ (decimal argon2id_version
        ++ (bytes "$m="
            ++ (decimal argon2id_floor.memory_kib
                ++ (bytes ",t="
                    ++ (decimal argon2id_floor.time_cost
                        ++ (bytes ",p="
                            ++ (decimal argon2id_floor.parallelism
                                ++ (b'$'
                                    ∷ (encode_base64 salt ++ (b'$' ∷ encode_base64 key))))))))))

-- The value of a text of decimal digits, after what was read before; none at another character.
unfoldable pub digits_value : ℕ → Text → Option ℕ
digits_value acc [] = some acc
digits_value acc (c ∷ s) =
    let rest = digits_value (acc * 10 + (c - b'0')) s in
    if leb b'0' c && leb c b'9' then rest else none

-- strconv.ParseUint(s, 10, 32)
unfoldable pub parse_uint32 : Text → Option ℕ
unfolding digits_value
parse_uint32 [] = none
parse_uint32 (c ∷ s) = elim (digits_value 0 (c ∷ s)) [
  | none ↦ none
  | some n ↦ if ltb n (2 ^ 32) then some n else none
]

-- strconv.Atoi: digits, after a sign or none, in the range of a 64-bit int.
abbrev negated : ℕ → ℤ
negated zero = pos 0
negated (suc n) = negsuc n

abbrev int_of : Bool → Option ℕ → Option ℤ
int_of minus none = none
int_of true (some n) = if leb n (2 ^ 63) then some (negated n) else none
int_of false (some n) = if ltb n (2 ^ 63) then some (pos n) else none

abbrev digits_of : Text → Option ℕ
digits_of [] = none
digits_of (c ∷ s) = digits_value 0 (c ∷ s)

unfoldable pub atoi : Text → Option ℤ
unfolding digits_value
atoi [] = none
atoi (c ∷ s) =
    if eqb c b'-'
    then int_of true (digits_of s)
    else if eqb c b'+'
    then int_of false (digits_of s)
    else int_of false (digits_of (c ∷ s))

abbrev pub is_version : Option ℤ → Bool
is_version none = false
is_version (some (pos n)) = eqb n argon2id_version
is_version (some (negsuc n)) = false

-- strings.IndexByte(kv, '=') with the two slices round it.
unfoldable pub cut_param : Text → Option (Text × Text)
cut_param [] = none
cut_param (c ∷ s) =
    let rest = cut_param s in
    if eqb c b'='
    then some ([], s)
    else elim rest [ none ↦ none | some (key, val) ↦ some (c ∷ key, val) ]

-- The switch on the key; uint8(n) keeps the lowest byte.
unfoldable pub set_param : Text → ℕ → Argon2idParams → Option Argon2idParams
set_param key n p =
    if key == bytes "m"
    then some (record p { memory_kib = n })
    else if key == bytes "t"
    then some (record p { time_cost = n })
    else if key == bytes "p"
    then some (record p { parallelism = n % 256 })
    else none

abbrev and_then {ℓ κ} : {A : Type ℓ} {B : Type κ} → Option A → (A → Option B) → Option B
and_then none f = none
and_then (some a) f = f a

unfoldable pub read_param : Text → Argon2idParams → Option Argon2idParams
unfolding cut_param parse_uint32 set_param
read_param kv p =
    and_then (cut_param kv) (λ c. and_then (parse_uint32 c.1) (λ n. set_param c.0 n p))

-- The loop over the parameters.
unfoldable pub read_params : List Text → Argon2idParams → Option Argon2idParams
unfolding read_param
read_params [] p = some p
read_params (kv ∷ kvs) p = and_then (read_param kv p) (λ q. read_params kvs q)

abbrev pub no_params : Argon2idParams
no_params = record { memory_kib = 0; time_cost = 0; parallelism = 0 }

abbrev pub is_set : Argon2idParams → Bool
is_set p = not (eqb p.memory_kib 0 || (eqb p.time_cost 0 || eqb p.parallelism 0))

pub record Decoded : Type 0 where
  pub params : Argon2idParams
  pub salt : Text
  pub key : Text

-- parts[2][2:]
abbrev after_prefix : Text → Text
after_prefix (c ∷ d ∷ s) = s
after_prefix s = []

-- The tests on the six parts.
unfoldable pub decode_parts : Text → Text → Text → Text → Text → Text → Option Decoded
unfolding read_params atoi
decode_parts lead variant version params salt key =
    if lead == []
      && (variant == bytes "argon2id"
          && (has_prefix version (bytes "v=") && is_version (atoi (after_prefix version))))
    then and_then (read_params (split_on b',' params) no_params) (λ p.
      if is_set p
      then and_then (decode_base64 salt)
          (λ s. and_then (decode_base64 key) (λ k. some (record { params = p; salt = s; key = k })))
      else none)
    else none

abbrev six : List Text → Option Decoded
six (a ∷ b ∷ c ∷ d ∷ e ∷ f ∷ []) = decode_parts a b c d e f
six parts = none

-- decodePHC; none is an error.
unfoldable pub decode_phc : Text → Option Decoded
unfolding decode_parts
decode_phc phc = six (split_on b'$' phc)

module _ (argon2_id_key : Text → Text → ℕ → ℕ → ℕ → ℕ → Text) where
  -- HashPassword; `salt` is what rand.Read gives, none its error.
  unfoldable pub hash_password : Text → Option Text → Result Error Text
  unfolding check_password_length
  hash_password plaintext none = do check_password_length plaintext; err random_failed
  hash_password plaintext (some salt) = do
    check_password_length plaintext
    ok (
        encode_phc salt (
          argon2_id_key plaintext salt argon2id_floor.time_cost argon2id_floor.memory_kib
            argon2id_floor.parallelism argon2id_key_len))

  -- subtle.ConstantTimeCompare is the equality of the two texts.
  abbrev matches_key : Text → Decoded → Bool
  matches_key candidate d =
      argon2_id_key candidate d.salt d.params.time_cost d.params.memory_kib d.params.parallelism
        (length d.key)
      == d.key

  unfoldable pub verify_password_hash : Text → Text → Result Error Bool
  unfolding check_password_length
  verify_password_hash phc candidate = do
    check_password_length candidate
    elim (decode_phc phc) [ none ↦ ok false | some d ↦ ok (matches_key candidate d) ]

  -- The functions that the store calls.
  abbrev pub argon2id_hashing : Hashing
  argon2id_hashing = record {
    hash_password = hash_password;
    verify_password_hash = verify_password_hash;
  }
