-- ===== src/Ids.antt =====
-- packages/ids/id.go: the wire format <type>_<32 lowercase hex digits>.
use flametrench_go.Base.{
  ℕ, zero, suc, ◌+◌, Bool, true, false, not, ◌&&◌, ◌||◌, Option, none, some, List, [], ◌∷◌, ◌++◌,
  leb, eqb, if◌then◌else◌, length, Text, bytes, ◌==◌,
}
use flametrench_go.Base.Result.{Result, ok, err, ◌>>=◌, ◌>>◌, fail_if, is_ok}

-- InvalidIDError and InvalidTypeError
pub data IdError : Type 0 where
  invalid_id invalid_type : IdError

-- The third-party uuid package at one call of Generate: what NewV7 returns (none is its error), and
-- which texts Parse accepts.
pub record Uuids : Type 0 where
  pub new_v7 : Option Text
  pub parses : Text → Bool

-- The keys of Types.
unfoldable pub types : List Text
types =
    bytes "usr"
    ∷ bytes "org"
    ∷ bytes "mem"
    ∷ bytes "inv"
    ∷ bytes "ses"
    ∷ bytes "cred"
    ∷ bytes "tup"
    ∷ bytes "mfa"
    ∷ bytes "shr"
    ∷ bytes "pat"
    ∷ bytes "aud"
    ∷ bytes "file"
    ∷ bytes "flag"
    ∷ bytes "not"
    ∷ []

unfoldable pub listed : Text → List Text → Bool
listed t [] = false
listed t (u ∷ us) = (u == t) || listed t us

-- _, ok := Types[t]
unfoldable pub is_registered : Text → Bool
unfolding types listed
is_registered t = listed t types

unfoldable pub assert_type : Text → Result IdError (Unit {0})
assert_type t = fail_if (not (is_registered t)) invalid_type

pub record DecodedId : Type 0 where
  pub type_of : Text
  pub uuid : Text

abbrev pub hex_payload_length : ℕ
hex_payload_length = 32

abbrev pub is_hex_digit : ℕ → Bool
is_hex_digit c = (leb b'0' c && leb c b'9') || (leb b'a' c && leb c b'f')

unfoldable pub all_hex : Text → Bool
all_hex [] = true
all_hex (c ∷ s) = is_hex_digit c && all_hex s

unfoldable pub is_hex_lower : Text → Bool
is_hex_lower s = eqb (length s) hex_payload_length && all_hex s

unfoldable pub is_version_nibble_valid : ℕ → Bool
is_version_nibble_valid b = leb b'1' b && leb b b'8'

-- s[i], for an i that the callers keep in range; 0 outside.
unfoldable pub byte_at : Text → ℕ → ℕ
byte_at [] i = 0
byte_at (c ∷ s) zero = c
byte_at (c ∷ s) (suc i) = byte_at s i

-- s[:n] and s[n:]
unfoldable pub take : ℕ → Text → Text
take zero s = []
take (suc n) [] = []
take (suc n) (c ∷ s) = c ∷ take n s

unfoldable pub drop : ℕ → Text → Text
drop zero s = s
drop (suc n) [] = []
drop (suc n) (c ∷ s) = drop n s

-- strings.ToLower on ASCII, which is what uuid.Parse lets through.
abbrev pub lower : ℕ → ℕ
lower c = if leb b'A' c && leb c b'Z' then c + 32 else c

-- strings.ToLower(strings.ReplaceAll(s, "-", ""))
unfoldable pub strip : Text → Text
strip [] = []
strip (c ∷ s) = let rest = strip s in if eqb c b'-' then rest else lower c ∷ rest

unfoldable pub is_canonical_shape : Text → Bool
unfolding byte_at
is_canonical_shape u =
    eqb (length u) 36
    && (eqb (byte_at u 8) b'-'
        && (eqb (byte_at u 13) b'-' && (eqb (byte_at u 18) b'-' && eqb (byte_at u 23) b'-')))

unfoldable pub encode : (Text → Bool) → Text → Text → Result IdError Text
unfolding assert_type is_registered is_canonical_shape strip ◌==◌
encode parses typ u = do
  assert_type typ
  fail_if (not (is_canonical_shape u)) invalid_id
  fail_if (not (parses u)) invalid_id
  ok (typ ++ (b'_' ∷ strip u))

-- strings.IndexByte(id, '_') with the two slices round it.
unfoldable pub split : Text → Option (Text × Text)
split [] = none
split (c ∷ s) =
    let rest = split s in
    if eqb c b'_' then some ([], s) else elim rest [ none ↦ none | some (t, h) ↦ some (c ∷ t, h) ]

unfoldable pub is_empty : Text → Bool
is_empty [] = true
is_empty (c ∷ s) = false

unfoldable pub check_shape : Option (Text × Text) → Result IdError (Text × Text)
unfolding is_empty is_hex_lower all_hex is_version_nibble_valid byte_at
check_shape none = err invalid_id
check_shape (some (typ, hex)) = do
  fail_if (is_empty typ) invalid_id
  fail_if (not (is_hex_lower hex)) invalid_id
  fail_if (not (is_version_nibble_valid (byte_at hex 12))) invalid_id
  ok (typ, hex)

unfoldable pub decode_shape : Text → Result IdError (Text × Text)
unfolding split check_shape
decode_shape id = check_shape (split id)

unfoldable pub reconstruct_canonical : Text → Text
unfolding take drop
reconstruct_canonical hex =
    take 8 hex
    ++ (b'-' ∷ take 4 (drop 8 hex)
        ++ (b'-' ∷ take 4 (drop 12 hex)
            ++ (b'-' ∷ take 4 (drop 16 hex) ++ (b'-' ∷ take 12 (drop 20 hex)))))

unfoldable pub decode : Text → Result IdError DecodedId
unfolding decode_shape assert_type reconstruct_canonical
decode id = do
  (typ, hex) ← decode_shape id
  assert_type typ
  ok (record { type_of = typ; uuid = reconstruct_canonical hex })

unfoldable pub decode_any : Text → Result IdError DecodedId
unfolding decode_shape reconstruct_canonical
decode_any id = do
  (typ, hex) ← decode_shape id
  ok (record { type_of = typ; uuid = reconstruct_canonical hex })

-- The loop over expectedType.
unfoldable pub expects : List Text → Text → Bool
expects [] typ = true
expects (want ∷ wants) typ =
    if not (is_empty want) && not (typ == want) then false else expects wants typ

unfoldable pub is_valid : Text → List Text → Bool
unfolding expects
is_valid s expected = elim (decode s) [ err e ↦ false | ok d ↦ expects expected d.type_of ]

unfoldable pub is_valid_shape : Text → Bool
is_valid_shape s = is_ok (decode_any s)

unfoldable pub type_of : Text → Result IdError Text
type_of id = do d ← decode id; ok d.type_of

abbrev or_invalid : Option Text → Result IdError Text
or_invalid none = err invalid_id
or_invalid (some u) = ok u

unfoldable pub generate : Uuids → Text → Result IdError Text
unfolding assert_type is_registered encode
generate u typ = do assert_type typ; v ← or_invalid u.new_v7; encode u.parses typ v
