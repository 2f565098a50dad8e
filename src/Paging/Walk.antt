-- ===== src/Paging/Walk.antt =====
-- Following the cursors visits every element once, in order.
use mathlib.Core.List.{append_assoc, append-nil}
use flametrench_go.Base.{
  ℕ, zero, suc, ◌+◌, ◌≤◌, ◌<◌, ◌≡◌, refl, ap, subst, sym, ◌∙◌, Bool, true, false, not, ◌&&◌, Option,
  none, some, inl, inr, List, [], ◌∷◌, ◌++◌, arith, ltb, Bool-cases, length, Text, ◌==◌, eq_iff,
  eq_refl,
}
use flametrench_go.Paging.{
  page_limit, take, drop, position, start_index, last_id, page_at, paginate,
}

module _ {A : Type 0} (ident : A → Text) where
  -- No element has the id.
  unfoldable pub absent : Text → List A → Bool
  absent c [] = true
  absent c (x ∷ xs) = not (ident x == c) && absent c xs

  -- No two elements share an id, and none has the empty one.
  unfoldable pub is_keyed : List A → Bool
  unfolding absent
  is_keyed [] = true
  is_keyed (x ∷ xs) = (not (ident x == []) && absent (ident x) xs) && is_keyed xs

  -- The pages from a cursor on, one after the other, on fuel.
  unfoldable pub walk : ℕ → Option Text → ℕ → List A → List A
  walk zero cursor limit xs = []
  walk (suc fuel) cursor limit xs =
      let page = paginate ident cursor limit xs in
      page.items ++ elim page.next_cursor [ none ↦ [] | some c ↦ walk fuel (some c) limit xs ]

  absent-append :
      (c : Text) (u : List A) (b : A) (v : List A)
      → absent c (u ++ b ∷ v) ≡ true
      → (ident b == c) ≡ false
  unfolding absent
  absent-append c [] b v h = ground arith
  absent-append c (x ∷ u) b v h = ground (arith, absent-append c u b v)

  position-middle :
      (u : List A) (b : A) (v : List A)
      → is_keyed (u ++ b ∷ v) ≡ true
      → position ident (ident b) (u ++ b ∷ v) ≡ some (length u)
  unfolding position is_keyed
  position-middle [] b v h = ground (arith, eq_refl (ident b))
  position-middle (x ∷ u) b v h = ground (
    arith,
    position-middle u b v,
    absent-append (ident x) u b v,
    eq_iff (ident x) (ident b),
    eq_iff (ident b) (ident x),
  )

  keyed_nonempty :
      (u : List A) (b : A) (v : List A) → is_keyed (u ++ b ∷ v) ≡ true → (ident b == []) ≡ false
  unfolding is_keyed
  keyed_nonempty [] b v h = ground arith
  keyed_nonempty (x ∷ u) b v h = ground (arith, keyed_nonempty u b v)

  drop-append : (u v : List A) → drop (length u) (u ++ v) ≡ v
  unfolding drop
  drop-append [] v = refl
  drop-append (x ∷ u) v = drop-append u v

  length-append : (u v : List A) → length (u ++ v) ≡ length u + length v
  length-append [] v = omega arith
  length-append (x ∷ u) v = omega (arith, length-append u v)

  take_all : (v : List A) → take (length v) v ≡ v
  unfolding take
  take_all [] = refl
  take_all (x ∷ v) = ap (λ r. x ∷ r) (take_all v)

  last_id-append : (q : List A) (b : A) → last_id ident (q ++ b ∷ []) ≡ some (ident b)
  unfolding last_id
  last_id-append [] b = refl
  last_id-append (x ∷ []) b = refl
  last_id-append (x ∷ y ∷ q) b = last_id-append (y ∷ q) b

  -- A page that does not reach the end: its last element `b`, and what comes after it.
  record Cut (n : ℕ) (suf : List A) : Type 0 where
    before : List A
    last : A
    after : List A
    whole : suf ≡ before ++ last ∷ after
    front : take n suf ≡ before ++ last ∷ []

  cut : (n : ℕ) (suf : List A) → 0 < n → n < length suf → Cut n suf
  unfolding take
  cut zero suf h k = absurd (omega arith)
  cut (suc n) [] h k = absurd (omega arith)
  cut (suc zero) (x ∷ suf) h k = record {
    before = [];
    last = x;
    after = suf;
    whole = refl;
    front = refl;
  }
  cut (suc (suc n)) (x ∷ suf) h k =
      let rest = cut (suc n) suf (omega arith) (omega arith) in
      record {
        before = x ∷ rest.before;
        last = rest.last;
        after = rest.after;
        whole = ap (λ r. x ∷ r) rest.whole;
        front = ap (λ r. x ∷ r) rest.front;
      }

  page_at_end :
      (n : ℕ) (u suf : List A)
      → length suf ≤ n
      → page_at ident (length u) n (u ++ suf) ≡ record { items = suf; next_cursor = none }
  unfolding page_at
  page_at_end n u suf h = ground (arith, length-append u suf, drop-append u suf, take_all suf)

  page_at_middle :
      (n : ℕ) (u suf : List A) (short : 0 < n) (more : n < length suf)
      → let c = cut n suf short more in
        page_at ident (length u) n (u ++ suf)
        ≡ record { items = c.before ++ c.last ∷ []; next_cursor = some (ident c.last) }
  unfolding page_at
  page_at_middle n u suf short more =
      let c = cut n suf short more in
      ground
        (arith, length-append u suf, drop-append u suf, c.front, last_id-append c.before c.last)

  page_limit_pos : (limit : ℕ) → 0 < page_limit limit
  unfolding page_limit
  page_limit_pos zero = omega arith
  page_limit_pos (suc n) = omega arith

  length_last : (u : List A) (b : A) → length (u ++ b ∷ []) ≡ suc (length u)
  length_last u b = omega (arith, length-append u (b ∷ []))

  start_index-last :
      (u : List A) (b : A) (v : List A)
      → is_keyed (u ++ b ∷ v) ≡ true
      → start_index ident (some (ident b)) (u ++ b ∷ v) ≡ suc (length u)
  unfolding start_index
  start_index-last u b v h = ground (arith, keyed_nonempty u b v h, position-middle u b v h)

  module _ (cursor : Option Text) (limit : ℕ) (u suf : List A) where
    paginate_end :
        start_index ident cursor (u ++ suf) ≡ length u
        → length suf ≤ page_limit limit
        → paginate ident cursor limit (u ++ suf) ≡ record { items = suf; next_cursor = none }
    unfolding paginate
    paginate_end at h =
        ap (λ (n : ℕ). page_at ident n (page_limit limit) (u ++ suf)) at
        ∙ page_at_end (page_limit limit) u suf h

    paginate_middle :
        (at : start_index ident cursor (u ++ suf) ≡ length u) (short : 0 < page_limit limit)
        (more : page_limit limit < length suf)
        → let c = cut (page_limit limit) suf short more in
          paginate ident cursor limit (u ++ suf)
          ≡ record { items = c.before ++ c.last ∷ []; next_cursor = some (ident c.last) }
    unfolding paginate
    paginate_middle at short more =
        ap (λ (n : ℕ). page_at ident n (page_limit limit) (u ++ suf)) at
        ∙ page_at_middle (page_limit limit) u suf short more

  regroup :
      (u q : List A) (b : A) (v xs suf : List A)
      → xs ≡ u ++ suf
      → suf ≡ q ++ b ∷ v
      → (xs ≡ (u ++ q) ++ b ∷ v) × (xs ≡ ((u ++ q) ++ b ∷ []) ++ v)
  regroup u q b v xs suf e w =
      let first : xs ≡ (u ++ q) ++ b ∷ v =
        e ∙ (ap (λ r. u ++ r) w ∙ sym (append_assoc u q (b ∷ v))) in
      (first, first ∙ sym (append_assoc (u ++ q) (b ∷ []) v))

  -- From a cursor that stands at the end of `u`, the pages hold what comes after `u`.
  walk_from :
      (fuel : ℕ) (cursor : Option Text) (limit : ℕ) (xs u suf : List A)
      → xs ≡ u ++ suf
      → length suf < fuel
      → is_keyed xs ≡ true
      → start_index ident cursor xs ≡ length u
      → walk fuel cursor limit xs ≡ suf
  unfolding walk
  walk_from zero cursor limit xs u suf e f keyed at = absurd (omega arith)
  walk_from (suc fuel) cursor limit xs u suf e f keyed at =
      let at' : start_index ident cursor (u ++ suf) ≡ length u =
        subst (λ (ys : List A). start_index ident cursor ys ≡ length u) e at in
      elim (Bool-cases (ltb (page_limit limit) (length suf))) [
        | inr last_page ↦
            rw
              (ap (λ (ys : List A). paginate ident cursor limit ys) e
                ∙ paginate_end cursor limit u suf at' (ground arith))
              (append-nil suf)
        | inl more ↦
            let short = page_limit_pos limit in
            let longer : page_limit limit < length suf = ground arith in
            let c = cut (page_limit limit) suf short longer in
            let groups = regroup u c.before c.last c.after xs suf e c.whole in
            let next_start : start_index ident (some (ident c.last)) xs
                ≡ suc (length (u ++ c.before)) =
              subst
                (λ (ys : List A).
                  start_index ident (some (ident c.last)) ys ≡ suc (length (u ++ c.before)))
                (sym groups.0)
                (start_index-last (u ++ c.before) c.last c.after
                  (subst (λ (ys : List A). is_keyed ys ≡ true) groups.0 keyed)) in
            let rest : walk fuel (some (ident c.last)) limit xs ≡ c.after =
              walk_from fuel (some (ident c.last)) limit xs ((u ++ c.before) ++ c.last ∷ []) c.after
                groups.1 (shorter c.before c.last c.after suf c.whole f) keyed
                (next_start ∙ sym (length_last (u ++ c.before) c.last)) in
            rw
              (
                ap (λ (ys : List A). paginate ident cursor limit ys) e
                    ∙ paginate_middle cursor limit u suf at' short longer,
                rest,
              )
              (append_assoc c.before (c.last ∷ []) c.after ∙ sym c.whole)
      ]
    where
      shorter :
          (q : List A) (b : A) (v w : List A)
          → w ≡ q ++ b ∷ v
          → length w < suc fuel
          → length v < fuel
      shorter q b v w e2 h =
          omega (arith, length-append q (b ∷ v), ap (λ (r : List A). length r) e2)

  -- Over elements with distinct ids, none of them empty, the pages that the cursors lead through from
  -- the start hold every element once, in order, whatever the limit; as many pages as there are
  -- elements, and one, are enough.
  pub walk_all :
      (limit : ℕ) (xs : List A) → is_keyed xs ≡ true → walk (suc (length xs)) none limit xs ≡ xs
  walk_all limit xs keyed =
      walk_from (suc (length xs)) none limit xs [] xs refl (omega arith) keyed start
    where
      start : start_index ident none xs ≡ 0
      start = unfold start_index in refl
