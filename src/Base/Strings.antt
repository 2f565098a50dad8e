-- ===== src/Base/Strings.antt =====
-- A Go string is a sequence of bytes. `bytes` reads an ASCII literal.
use Prim.Native.Nat.{ℕ}
use Prim.Native.Char.{code}
use Prim.Native.String.{String}
use mathlib.Core.Path.{◌≡◌, refl, subst}
use mathlib.Core.Logic.{◌↔◌, ◌≢◌}
use mathlib.Core.Bool.{Bool, true, false, not, ◌&&◌, ◌||◌}
use mathlib.Core.List.{List, [], ◌∷◌, ◌++◌}
use native.Mathlib.Omega.{arith}
use flametrench_go.Base.Core.{ltb, eqb, if◌then◌else◌}

abbrev pub Text : Type 0
Text = List ℕ

abbrev pub bytes : String → Text
bytes String.[] = []
bytes (String.◌∷◌ c s) = code c ∷ bytes s

-- The operator == on strings.
infix 50 ◌==◌
unfoldable pub ◌==◌ : Text → Text → Bool
[] == [] = true
[] == (y ∷ ys) = false
(x ∷ xs) == [] = false
(x ∷ xs) == (y ∷ ys) = eqb x y && (xs == ys)

eq_sound : (s t : Text) → (s == t) ≡ true → s ≡ t
unfolding ◌==◌
eq_sound [] [] h = refl
eq_sound [] (y ∷ ys) h = ground arith
eq_sound (x ∷ xs) [] h = ground arith
eq_sound (x ∷ xs) (y ∷ ys) h = ground (arith, eq_sound xs ys)

pub eq_refl : (s : Text) → (s == s) ≡ true
unfolding ◌==◌
eq_refl [] = refl
eq_refl (x ∷ xs) = ground (arith, eq_refl xs)

pub eq_iff : (s t : Text) → ((s == t) ≡ true) ↔ (s ≡ t)
eq_iff s t = (eq_sound s t, λ e. subst (λ u. (s == u) ≡ true) e (eq_refl s))

pub eq_ne : (s t : Text) → s ≢ t → (s == t) ≡ false
eq_ne s t h = ground (arith, eq_iff s t)

-- The operator < on strings, byte by byte.
unfoldable pub before : Text → Text → Bool
before [] [] = false
before [] (y ∷ ys) = true
before (x ∷ xs) [] = false
before (x ∷ xs) (y ∷ ys) = ltb x y || (eqb x y && before xs ys)

-- strings.HasPrefix and strings.Contains
unfoldable pub has_prefix : Text → Text → Bool
has_prefix s [] = true
has_prefix [] (c ∷ q) = false
has_prefix (d ∷ s) (c ∷ q) = eqb d c && has_prefix s q

unfoldable pub contains : Text → Text → Bool
unfolding has_prefix
contains [] q = has_prefix [] q
contains (c ∷ s) q = has_prefix (c ∷ s) q || contains s q

-- The numbers are bytes.
unfoldable pub is_bytes : Text → Bool
is_bytes [] = true
is_bytes (c ∷ s) = ltb c 256 && is_bytes s

-- strings.Split with a separator of one byte.
abbrev pub prepend : ℕ → List Text → List Text
prepend c [] = (c ∷ []) ∷ []
prepend c (part ∷ parts) = (c ∷ part) ∷ parts

unfoldable pub split_on : ℕ → Text → List Text
split_on sep [] = [] ∷ []
split_on sep (c ∷ s) = let rest = split_on sep s in if eqb c sep then [] ∷ rest else prepend c rest

unfoldable pub lacks : ℕ → Text → Bool
lacks sep [] = true
lacks sep (c ∷ s) = not (eqb c sep) && lacks sep s

pub split_on-lacks : (sep : ℕ) (s : Text) → lacks sep s ≡ true → split_on sep s ≡ s ∷ []
unfolding split_on lacks
split_on-lacks sep [] h = refl
split_on-lacks sep (c ∷ s) h = ground (arith, split_on-lacks sep s)

pub split_on-append :
    (sep : ℕ) (s t : Text) → lacks sep s ≡ true → split_on sep (s ++ sep ∷ t) ≡ s ∷ split_on sep t
unfolding split_on lacks
split_on-append sep [] t h = ground arith
split_on-append sep (c ∷ s) t h = ground (arith, split_on-append sep s t)
