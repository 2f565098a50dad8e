-- ===== src/Identity/Hashing/Base64.antt =====
-- encoding/base64, base64.RawStdEncoding, as packages/identity/hashing.go uses it: no padding, line
-- breaks skipped on reading, and the unused bits of the last character not looked at.
use flametrench_go.Base.{
  ℕ, ◌+◌, ◌-◌, ◌*◌, ◌/◌, ◌%◌, ◌<◌, ◌≡◌, refl, Bool, true, false, ◌&&◌, ◌||◌, Option, none, some,
  List, [], ◌∷◌, arith, ltb, leb, eqb, if◌then◌else◌, Text, is_bytes, lacks,
}

-- The character of six bits, and the bits of a character.
unfoldable pub symbol : ℕ → ℕ
symbol v =
    if ltb v 26
    then v + b'A'
    else if ltb v 52
    then (v - 26) + b'a'
    else if ltb v 62
    then (v - 52) + b'0'
    else if ltb v 63
    then b'+'
    else b'/'

unfoldable pub value : ℕ → Option ℕ
value c =
    if leb b'A' c && leb c b'Z'
    then some (c - b'A')
    else if leb b'a' c && leb c b'z'
    then some (c - b'a' + 26)
    else if leb b'0' c && leb c b'9'
    then some (c - b'0' + 52)
    else if eqb c b'+'
    then some 62
    else if eqb c b'/'
    then some 63
    else none

unfoldable pub encode_base64 : Text → Text
unfolding symbol
encode_base64 [] = []
encode_base64 (a ∷ []) = symbol (a / 4) ∷ symbol (a % 4 * 16) ∷ []
encode_base64 (a ∷ b ∷ []) =
    symbol (a / 4) ∷ symbol (a % 4 * 16 + b / 16) ∷ symbol (b % 16 * 4) ∷ []
encode_base64 (a ∷ b ∷ c ∷ s) =
    symbol (a / 4)
    ∷ symbol (a % 4 * 16 + b / 16)
    ∷ symbol (b % 16 * 4 + c / 64)
    ∷ symbol (c % 64)
    ∷ encode_base64 s

-- Carriage returns and line feeds are skipped; any other character must have a value.
abbrev pub is_break : ℕ → Bool
is_break c = eqb c 10 || eqb c 13

unfoldable pub values : Text → Option (List ℕ)
unfolding value
values [] = some []
values (c ∷ s) =
    let rest = values s in
    if is_break c then rest else elim (value c) [
      | none ↦ none
      | some v ↦ elim rest [ none ↦ none | some vs ↦ some (v ∷ vs) ]
    ]

unfoldable pub packed : List ℕ → Option Text
packed [] = some []
packed (a ∷ []) = none
packed (a ∷ b ∷ []) = some ((a * 4 + b / 16) ∷ [])
packed (a ∷ b ∷ c ∷ []) = some ((a * 4 + b / 16) ∷ (b % 16 * 16 + c / 4) ∷ [])
packed (a ∷ b ∷ c ∷ d ∷ vs) =
    let rest = packed vs in
    elim rest [
      | none ↦ none
      | some s ↦ some ((a * 4 + b / 16) ∷ (b % 16 * 16 + c / 4) ∷ (c % 4 * 64 + d) ∷ s)
    ]

unfoldable pub decode_base64 : Text → Option Text
unfolding values packed
decode_base64 s = elim (values s) [ none ↦ none | some vs ↦ packed vs ]

value-symbol : (v : ℕ) → v < 64 → value (symbol v) ≡ some v
unfolding value symbol
value-symbol v h = ground arith

symbol_plain : (v : ℕ) → v < 64 → (is_break (symbol v) ≡ false) × (eqb (symbol v) b'$' ≡ false)
unfolding symbol
symbol_plain v h = (ground arith, ground arith)

values-symbol :
    (v : ℕ) (s : Text) (vs : List ℕ)
    → v < 64
    → values s ≡ some vs
    → values (symbol v ∷ s) ≡ some (v ∷ vs)
unfolding values
values-symbol v s vs small e = ground (arith, (symbol_plain v small).0, value-symbol v small)

-- The sextets of a text, between its bytes and its characters.
sextets : Text → List ℕ
sextets [] = []
sextets (a ∷ []) = a / 4 ∷ a % 4 * 16 ∷ []
sextets (a ∷ b ∷ []) = a / 4 ∷ (a % 4 * 16 + b / 16) ∷ b % 16 * 4 ∷ []
sextets (a ∷ b ∷ c ∷ s) = a / 4 ∷ (a % 4 * 16 + b / 16) ∷ (b % 16 * 4 + c / 64) ∷ c % 64 ∷ sextets s

values_nil : values [] ≡ some []
unfolding values
values_nil = refl

values-encode_base64 : (s : Text) → is_bytes s ≡ true → values (encode_base64 s) ≡ some (sextets s)
unfolding encode_base64 sextets is_bytes
values-encode_base64 [] h = values_nil
values-encode_base64 (a ∷ []) h =
    values-symbol (a / 4) _ _ (ground arith)
      (values-symbol (a % 4 * 16) _ _ (ground arith) values_nil)
values-encode_base64 (a ∷ b ∷ []) h = values-symbol (a / 4) _ _ (ground arith) (
    values-symbol (a % 4 * 16 + b / 16) _ _ (ground arith)
      (values-symbol (b % 16 * 4) _ _ (ground arith) values_nil))
values-encode_base64 (a ∷ b ∷ c ∷ s) h = values-symbol (a / 4) _ _ (ground arith) (
    values-symbol (a % 4 * 16 + b / 16) _ _ (ground arith) (
      values-symbol (b % 16 * 4 + c / 64) _ _ (ground arith)
        (values-symbol (c % 64) _ _ (ground arith) (values-encode_base64 s (ground arith)))))

-- The bytes that four sextets hold.
first_byte : (a b : ℕ) → b < 256 → a / 4 * 4 + (a % 4 * 16 + b / 16) / 16 ≡ a
first_byte a b h = omega arith

second_byte :
    (a b c : ℕ)
    → b < 256
    → c < 256
    → (a % 4 * 16 + b / 16) % 16 * 16 + (b % 16 * 4 + c / 64) / 4 ≡ b
second_byte a b c h k = omega arith

third_byte : (b c : ℕ) → c < 256 → (b % 16 * 4 + c / 64) % 4 * 64 + c % 64 ≡ c
third_byte b c h = omega arith

three_bytes :
    (a b c : ℕ) (s : Text)
    → is_bytes (a ∷ b ∷ c ∷ s) ≡ true
    → (a < 256) × (b < 256) × (c < 256) × (is_bytes s ≡ true)
unfolding is_bytes
three_bytes a b c s h = ground arith

packed-cons :
    (a b c d : ℕ) (vs : List ℕ) (s : Text)
    → packed vs ≡ some s
    → packed (a ∷ b ∷ c ∷ d ∷ vs)
      ≡ some ((a * 4 + b / 16) ∷ (b % 16 * 16 + c / 4) ∷ (c % 4 * 64 + d) ∷ s)
unfolding packed
packed-cons a b c d vs s e = ground arith

packed-sextets : (s : Text) → is_bytes s ≡ true → packed (sextets s) ≡ some s
unfolding packed sextets is_bytes
packed-sextets [] h = refl
packed-sextets (a ∷ []) h = ground arith
packed-sextets (a ∷ b ∷ []) h = ground arith
packed-sextets (a ∷ b ∷ c ∷ s) h =
    let (ha, hb, hc, hs) = three_bytes a b c s h in
    let four =
      packed-cons (a / 4) (a % 4 * 16 + b / 16) (b % 16 * 4 + c / 64) (c % 64) (sextets s) s
        (packed-sextets s hs) in
    cc (four, first_byte a b hb, second_byte a b c hb hc, third_byte b c hc)

-- Bytes that were encoded are read back.
pub decode-encode_base64 : (s : Text) → is_bytes s ≡ true → decode_base64 (encode_base64 s) ≡ some s
unfolding decode_base64
decode-encode_base64 s h = ground (arith, values-encode_base64 s h, packed-sextets s h)

-- No character of an encoding is a dollar sign.
pub encode_base64-lacks : (s : Text) → is_bytes s ≡ true → lacks b'$' (encode_base64 s) ≡ true
unfolding encode_base64 lacks is_bytes
encode_base64-lacks [] h = refl
encode_base64-lacks (a ∷ []) h =
    ground
      (arith, (symbol_plain (a / 4) (ground arith)).1, (symbol_plain (a % 4 * 16) (ground arith)).1)
encode_base64-lacks (a ∷ b ∷ []) h = ground (
  arith,
  (symbol_plain (a / 4) (ground arith)).1,
  (symbol_plain (a % 4 * 16 + b / 16) (ground arith)).1,
  (symbol_plain (b % 16 * 4) (ground arith)).1,
)
encode_base64-lacks (a ∷ b ∷ c ∷ s) h = ground (
  arith,
  (symbol_plain (a / 4) (ground arith)).1,
  (symbol_plain (a % 4 * 16 + b / 16) (ground arith)).1,
  (symbol_plain (b % 16 * 4 + c / 64) (ground arith)).1,
  (symbol_plain (c % 64) (ground arith)).1,
  encode_base64-lacks s,
)
