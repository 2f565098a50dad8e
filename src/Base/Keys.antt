-- ===== src/Base/Keys.antt =====
-- The separator of the composite keys: parts that do not hold it can be read back.
use mathlib.Core.Path.{◌≡◌, refl}
use mathlib.Core.Bool.{Bool, true, not, ◌&&◌}
use mathlib.Core.List.{[], ◌∷◌, ◌++◌}
use native.Mathlib.Omega.{arith}
use flametrench_go.Base.Core.{eqb}
use flametrench_go.Base.Strings.{Text}

-- The text holds no '|'.
unfoldable pub no_bar : Text → Bool
no_bar [] = true
no_bar (c ∷ s) = not (eqb c b'|') && no_bar s

-- A text is split at its first bar in one way.
pub bar_split :
    (a b c d : Text)
    → no_bar a ≡ true
    → no_bar b ≡ true
    → (a ++ (b'|' ∷ c)) ≡ (b ++ (b'|' ∷ d))
    → (a ≡ b) × (c ≡ d)
unfolding no_bar
bar_split [] [] c d h k e = (refl, cc)
bar_split [] (y ∷ b) c d h k e = ground arith
bar_split (x ∷ a) [] c d h k e = ground arith
bar_split (x ∷ a) (y ∷ b) c d h k e = ground (arith, bar_split a b c d)
