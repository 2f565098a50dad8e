-- ===== src/Paging.antt =====
-- The sort and the cursor pages that every List method repeats (ListOrgs, ListMembers and
-- ListInvitations of packages/tenancy/inmem.go, paginateTuples and ListSharesForObject of
-- packages/authz/inmem.go; ListFlags, ListNotifications and ListFileMetadata page in the second way).
pub mod Order
pub mod Walk
mod Tests
use flametrench_go.Base.{
  ℕ, zero, suc, ◌+◌, ◌-◌, ◌≡◌, Bool, true, false, ◌&&◌, ◌||◌, not, Option, none, some, List, [],
  ◌∷◌, ltb, leb, eqb, if◌then◌else◌, length, Text, ◌==◌,
}

pub record Page {ℓ} (A : Type ℓ) : Type ℓ where
  pub items : List A
  pub next_cursor : Option Text

-- if limit <= 0 { limit = 50 }; a limit below zero is the same to the code as 0.
unfoldable pub page_limit : ℕ → ℕ
page_limit zero = 50
page_limit (suc n) = suc n

module _ {ℓ} {A : Type ℓ} where
  unfoldable pub take : ℕ → List A → List A
  take zero xs = []
  take (suc n) [] = []
  take (suc n) (x ∷ xs) = x ∷ take n xs

  unfoldable pub drop : ℕ → List A → List A
  drop zero xs = xs
  drop (suc n) [] = []
  drop (suc n) (x ∷ xs) = drop n xs

  -- The array again: the sorted part turned round, before the rest.
  unfoldable pub onto : List A → List A → List A
  onto [] acc = acc
  onto (x ∷ xs) acc = onto xs (x ∷ acc)

  module _ (less : A → A → Bool) where
    -- The inner loop: the new element sinks past the larger ones. The sorted part of the array is
    -- held from its end backwards.
    unfoldable pub sink : A → List A → List A
    sink x [] = x ∷ []
    sink x (y ∷ ys) = let further = y ∷ sink x ys in if less x y then further else x ∷ y ∷ ys

    -- The outer loop: `done` is the sorted part, backwards, and then comes the rest of the array.
    unfoldable pub sort_from : List A → List A → List A
    sort_from done [] = onto done []
    sort_from done (x ∷ rest) = sort_from (sink x done) rest

    unfoldable pub sort_slice : List A → List A
    unfolding sort_from sink onto
    sort_slice xs = sort_from [] xs

  module _ (ident : A → Text) where
    -- The first position that holds the id.
    unfoldable pub position : Text → List A → Option ℕ
    position c [] = none
    position c (x ∷ xs) =
        let later = position c xs in
        if ident x == c then some 0 else elim later [ none ↦ none | some i ↦ some (suc i) ]

    abbrev pub start_after : Option ℕ → ℕ
    start_after none = 0
    start_after (some i) = suc i

    -- The start of the page: after the cursor's element, or 0 for no cursor, an empty one, or one
    -- that is not found.
    unfoldable pub start_index : Option Text → List A → ℕ
    unfolding position
    start_index none xs = 0
    start_index (some c) xs = if c == [] then 0 else start_after (position c xs)

    unfoldable pub last_id : List A → Option Text
    last_id [] = none
    last_id (x ∷ []) = some (ident x)
    last_id (x ∷ y ∷ xs) = last_id (y ∷ xs)

    -- The page that starts at `start`.
    unfoldable pub page_at : ℕ → ℕ → List A → Page A
    unfolding take drop last_id
    page_at start limit xs =
        let stop = if ltb (length xs) (start + limit) then length xs else start + limit in
        let data_ = take (stop - start) (drop start xs) in
        record { items = data_; next_cursor = if ltb stop (length xs) then last_id data_ else none }

    unfoldable pub paginate : Option Text → ℕ → List A → Page A
    unfolding start_index page_at page_limit
    paginate cursor limit xs = page_at (start_index cursor xs) (page_limit limit) xs

    -- The other way to page: the elements after the cursor's, or all if there is no cursor or it is
    -- not found; then the first of them, with a cursor where some are left.
    unfoldable pub after_cursor : Option Text → List A → List A
    unfolding position drop
    after_cursor none xs = xs
    after_cursor (some c) xs = elim (position c xs) [ none ↦ xs | some i ↦ drop (suc i) xs ]

    unfoldable pub first_page : ℕ → List A → Page A
    unfolding take last_id
    first_page limit xs =
        if ltb limit (length xs)
        then record { items = take limit xs; next_cursor = last_id (take limit xs) }
        else record { items = xs; next_cursor = none }
