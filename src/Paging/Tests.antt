-- ===== src/Paging/Tests.antt =====
-- The theorems on sorting and paging at three names.
use mathlib.Core.List.{Perm}
use flametrench_go.Base.{
  ℕ, ◌≡◌, refl, true, false, none, List, [], ◌∷◌, arith, ltb, Text, bytes, ◌==◌,
}
use flametrench_go.Paging.{sort_slice}
use flametrench_go.Paging.Order.{IsRising, sort_slice_sorts}
use flametrench_go.Paging.Walk.{is_keyed, walk, walk_all}

ltb_asymmetric : (x y : ℕ) → ltb x y ≡ true → ltb y x ≡ false
ltb_asymmetric x y h = ground arith

sort_slice_sorts_example :
    IsRising ltb (sort_slice ltb (3 ∷ 1 ∷ 2 ∷ []))
    × Perm (sort_slice ltb (3 ∷ 1 ∷ 2 ∷ [])) (3 ∷ 1 ∷ 2 ∷ [])
sort_slice_sorts_example = sort_slice_sorts ltb ltb_asymmetric (3 ∷ 1 ∷ 2 ∷ [])

abbrev names : List Text
names = bytes "a" ∷ bytes "b" ∷ bytes "c" ∷ []

walk_all_example : walk (λ (t : Text). t) 4 none 2 names ≡ names
unfolding is_keyed ◌==◌
walk_all_example = walk_all (λ (t : Text). t) 2 names refl
