-- ===== src/Patterns.antt =====
-- The anchored character-class patterns of the packages: authz/patterns.go, keyRe and relationRe of
-- flags/inmem.go, typeRe of notify/inmem.go and checksumValueRe of file-metadata/inmem.go.
use flametrench_go.Base.{ℕ, Bool, true, ◌&&◌, ◌||◌, [], ◌∷◌, leb, eqb, length, Text}

unfoldable pub all_in : (ℕ → Bool) → Text → Bool
all_in class_ [] = true
all_in class_ (c ∷ s) = class_ c && all_in class_ s

-- ^[class]{low,high}$
unfoldable pub matches : (ℕ → Bool) → ℕ → ℕ → Text → Bool
unfolding all_in
matches class_ low high s = (leb low (length s) && leb (length s) high) && all_in class_ s

abbrev pub is_lower : ℕ → Bool
is_lower c = leb b'a' c && leb c b'z'

abbrev pub is_digit : ℕ → Bool
is_digit c = leb b'0' c && leb c b'9'

-- [a-z_]
abbrev pub is_relation_char : ℕ → Bool
is_relation_char c = is_lower c || eqb c b'_'

-- [a-z0-9._\-]
abbrev pub is_key_char : ℕ → Bool
is_key_char c = (is_lower c || is_digit c) || (eqb c b'.' || (eqb c b'_' || eqb c b'-'))

-- RelationNamePattern and relationRe
unfoldable pub is_relation_name : Text → Bool
unfolding matches
is_relation_name = matches is_relation_char 2 32

-- TypePrefixPattern
unfoldable pub is_type_prefix : Text → Bool
unfolding matches
is_type_prefix = matches is_lower 2 6

-- checksumValueRe
unfoldable pub is_checksum_value : Text → Bool
unfolding matches
is_checksum_value = matches (λ c. is_digit c || (leb b'a' c && leb c b'f')) 64 64
