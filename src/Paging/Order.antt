-- ===== src/Paging/Order.antt =====
-- The sort returns its elements in order, each as often as it got them.
use mathlib.Core.List.{Perm, perm_middle}
use mathlib.Core.List.Perm
use flametrench_go.Base.{◌≡◌, Bool, true, false, inl, inr, List, [], ◌∷◌, ◌++◌, arith, Bool-cases}
use flametrench_go.Paging.{sink, onto, sort_from, sort_slice}

onto-perm {ℓ} : {A : Type ℓ} (xs acc : List A) → Perm (onto xs acc) (xs ++ acc)
unfolding onto
onto-perm [] acc = Perm.refl acc
onto-perm (x ∷ xs) acc = Perm.trans (onto-perm xs (x ∷ acc)) (perm_middle xs acc)

module _ {ℓ} {A : Type ℓ} (less : A → A → Bool) where
  sink-perm : (x : A) (ys : List A) → Perm (sink less x ys) (x ∷ ys)
  unfolding sink
  sink-perm x [] = Perm.refl (x ∷ [])
  sink-perm x (y ∷ ys) = elim (Bool-cases (less x y)) [
    | inl further ↦ rw further (Perm.trans (Perm.cons y (sink-perm x ys)) (Perm.swap x y ys))
    | inr stop ↦ rw stop (Perm.refl (x ∷ y ∷ ys))
  ]

  sort_from-perm : (done rest : List A) → Perm (sort_from less done rest) (done ++ rest)
  unfolding sort_from
  sort_from-perm done [] = onto-perm done []
  sort_from-perm done (x ∷ rest) = Perm.trans (sort_from-perm (sink less x done) rest) (
      Perm.trans (Perm.append (sink-perm x done) (Perm.refl rest))
        (Perm.symm (perm_middle done rest)))

  -- The sort loses nothing and adds nothing.
  pub sort_slice-perm : (xs : List A) → Perm (sort_slice less xs) xs
  unfolding sort_slice
  sort_slice-perm xs = sort_from-perm [] xs

  -- No element is less than the one before it.
  abbrev pub IsRising : List A → Type 0
  IsRising [] = Unit {0}
  IsRising (x ∷ []) = Unit {0}
  IsRising (x ∷ y ∷ ys) = (less y x ≡ false) × IsRising (y ∷ ys)

  -- The same from the end backwards.
  abbrev IsFalling : List A → Type 0
  IsFalling [] = Unit {0}
  IsFalling (x ∷ []) = Unit {0}
  IsFalling (x ∷ y ∷ ys) = (less x y ≡ false) × IsFalling (y ∷ ys)

  module _ (asymmetric : (x y : A) → less x y ≡ true → less y x ≡ false) where
    sink-IsFalling : (x : A) (ys : List A) → IsFalling ys → IsFalling (sink less x ys)
    unfolding sink
    sink-IsFalling x [] h = tt
    sink-IsFalling x (y ∷ []) h = ground (arith, asymmetric x y)
    sink-IsFalling x (y ∷ z ∷ ys) h = ground (arith, asymmetric x y, sink-IsFalling x (z ∷ ys) h.1)

    onto-IsRising :
        (x : A) (xs acc : List A)
        → IsFalling (x ∷ xs)
        → IsRising (x ∷ acc)
        → IsRising (onto (x ∷ xs) acc)
    unfolding onto
    onto-IsRising x [] acc f r = r
    onto-IsRising x (y ∷ ys) acc f r = onto-IsRising y ys (x ∷ acc) f.1 (f.0, r)

    sorted_end : (done : List A) → IsFalling done → IsRising (onto done [])
    unfolding onto
    sorted_end [] f = tt
    sorted_end (x ∷ xs) f = onto-IsRising x xs [] f tt

    sort_from-IsRising : (done rest : List A) → IsFalling done → IsRising (sort_from less done rest)
    unfolding sort_from
    sort_from-IsRising done [] f = sorted_end done f
    sort_from-IsRising done (x ∷ rest) f =
        sort_from-IsRising (sink less x done) rest (sink-IsFalling x done f)

    -- By an asymmetric order, the sort leaves no element less than the one before it, and returns its
    -- elements, each as often as it got them.
    pub sort_slice_sorts :
        (xs : List A) → IsRising (sort_slice less xs) × Perm (sort_slice less xs) xs
    unfolding sort_slice
    sort_slice_sorts xs = (sort_from-IsRising [] xs tt, sort_slice-perm xs)
