-- ===== src/Base/Maps.antt =====
-- A Go map with string keys, as an association list. Its order is that in which a `range` loop
-- visits the entries; Go fixes none, and the theorems hold for every list.
use Prim.Native.Nat.{ℕ, ◌+◌, ◌≤◌}
use mathlib.Core.Path.{◌≡◌, refl}
use mathlib.Core.Bool.{Bool, true, false, ◌||◌}
use mathlib.Core.Option.{Option, none, some}
use mathlib.Core.List.{List, [], ◌∷◌}
use native.Mathlib.Omega.{arith}
use flametrench_go.Base.Core.{if◌then◌else◌}
use flametrench_go.Base.Strings.{Text, ◌==◌, eq_iff, eq_refl}

abbrev pub Map {ℓ} : Type ℓ → Type ℓ
Map V = List (Text × V)

-- Membership in a list of keys, as a Boolean.
unfoldable pub visits : Text → List Text → Bool
visits k [] = false
visits k (j ∷ js) = (j == k) || visits k js

module _ {ℓ} {V : Type ℓ} where
  -- v, ok := m[k]
  unfoldable pub lookup : Text → Map V → Option V
  lookup want [] = none
  lookup want (entry ∷ rest) = if entry.0 == want then some entry.1 else lookup want rest

  -- m[k] = v
  unfoldable pub insert : Text → V → Map V → Map V
  insert at new [] = (at, new) ∷ []
  insert at new (entry ∷ rest) =
      if entry.0 == at then (at, new) ∷ rest else entry ∷ insert at new rest

  -- delete(m, k)
  unfoldable pub remove : Text → Map V → Map V
  remove gone [] = []
  remove gone (entry ∷ rest) =
      let kept = remove gone rest in if entry.0 == gone then kept else entry ∷ kept

  unfoldable pub keys : Map V → List Text
  keys [] = []
  keys ((j, v) ∷ m) = j ∷ keys m

  -- The values that pass a test: a filtering range loop.
  unfoldable pub select : (V → Bool) → Map V → List V
  select p [] = []
  select p ((k, v) ∷ m) = let rest = select p m in if p v then v ∷ rest else rest

  -- The sum of a weight over the values, as a counting loop makes it.
  unfoldable pub tally : (V → ℕ) → Map V → ℕ
  tally w [] = 0
  tally w ((j, v) ∷ m) = w v + tally w m

  -- The weight of the entry at a key.
  abbrev pub weight : (V → ℕ) → Option V → ℕ
  weight w none = 0
  weight w (some v) = w v

  -- A read after a write.
  pub lookup-insert :
      (at want : Text) (new : V) (m : Map V)
      → lookup want (insert at new m) ≡ (if at == want then some new else lookup want m)
  unfolding lookup insert
  lookup-insert at want new [] = refl
  lookup-insert at want new (entry ∷ rest) = ground (
    arith,
    lookup-insert at want new rest,
    eq_iff at want,
    eq_iff entry.0 want,
    eq_iff entry.0 at,
  )

  -- A read after a deletion.
  pub lookup-remove :
      (gone want : Text) (m : Map V)
      → lookup want (remove gone m) ≡ (if gone == want then none else lookup want m)
  unfolding lookup remove
  lookup-remove gone want [] = ground arith
  lookup-remove gone want (entry ∷ rest) = ground (
    arith,
    eq_iff entry.0 gone,
    lookup-remove gone want rest,
    eq_iff gone want,
    eq_iff entry.0 want,
  )

  pub lookup-insert_self : (k : Text) (v : V) (m : Map V) → lookup k (insert k v m) ≡ some v
  lookup-insert_self k v m = simp (lookup-insert, eq_refl)

  -- A write adds the new weight and takes the old one away.
  pub tally-insert :
      (w : V → ℕ) (k : Text) (v : V) (m : Map V)
      → tally w (insert k v m) + weight w (lookup k m) ≡ tally w m + w v
  unfolding tally insert lookup
  tally-insert w k v [] = omega arith
  tally-insert w k v ((i, u) ∷ m) = ground (arith, tally-insert w k v m)

  -- An entry that is found weighs no more than the whole.
  pub weight-le-tally : (w : V → ℕ) (k : Text) (m : Map V) → weight w (lookup k m) ≤ tally w m
  unfolding tally lookup
  weight-le-tally w k [] = omega arith
  weight-le-tally w k ((i, u) ∷ m) = ground (arith, weight-le-tally w k m)

  pub lookup-visits :
      (k : Text) (v : V) (m : Map V) → lookup k m ≡ some v → visits k (keys m) ≡ true
  unfolding lookup keys visits
  lookup-visits k v [] h = cc
  lookup-visits k v ((i, u) ∷ m) h = ground (arith, lookup-visits k v m)
