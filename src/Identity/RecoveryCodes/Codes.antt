-- ===== src/Identity/RecoveryCodes/Codes.antt =====
-- packages/identity/mfa.go: the codes that are generated are well formed, and their letters are drawn
-- evenly.
use flametrench_go.Base.{
  ℕ, zero, suc, ◌+◌, ◌<◌, ◌≤◌, ◌≡◌, refl, inl, inr, Bool, true, false, not, ◌&&◌, some, [], ◌∷◌,
  ◌++◌, arith, ltb, eqb, if◌then◌else◌, length, Text, lacks, split_on-lacks, split_on-append,
  Option-cases, Bool-cases, holds_under, at-holds_under,
}
use flametrench_go.Ids.{byte_at, take, drop}
use flametrench_go.Patterns.{all_in}
use flametrench_go.Identity.RecoveryCodes.{
  recovery_alphabet, threshold, letter, draw_letter, draw_letters, hyphenated,
  generate_recovery_code, contains_byte, is_recovery_char, is_recovery_part, is_valid_recovery_code,
}

abbrev gives_letter : ℕ → Bool
gives_letter b = contains_byte recovery_alphabet (letter b) && not (eqb (letter b) b'-')

-- Every byte below the threshold gives a letter of the alphabet, which is no hyphen.
letter_table : holds_under gives_letter 248 ≡ true
unfolding holds_under letter contains_byte byte_at
letter_table = refl

letter_lem :
    (b : ℕ)
    → ltb b threshold ≡ true
    → (is_recovery_char (letter b) ≡ true) × (eqb (letter b) b'-' ≡ false)
unfolding threshold
letter_lem b below =
    let checked = at-holds_under gives_letter b 248 (ground arith) letter_table in
    (ground arith, ground arith)

draw_letter_lem :
    (draws rest : Text) (c : ℕ)
    → draw_letter draws ≡ some (c, rest)
    → (is_recovery_char c ≡ true) × (eqb c b'-' ≡ false)
unfolding draw_letter
draw_letter_lem [] rest c h = absurd (ground arith)
draw_letter_lem (b ∷ draws) rest c h = elim (Bool-cases (ltb b threshold)) [
  | inl below ↦
      let drawn : letter b ≡ c = ground arith in
      let checked = letter_lem b below in
      (ground (arith, drawn, checked.0), ground (arith, drawn, checked.1))
  | inr above ↦ draw_letter_lem draws rest c (ground arith)
]

draw_letters_lem :
    (n : ℕ) (draws rest cs : Text)
    → draw_letters n draws ≡ some (cs, rest)
    → (length cs ≡ n) × (all_in is_recovery_char cs ≡ true) × (lacks b'-' cs ≡ true)
unfolding draw_letters all_in lacks
draw_letters_lem zero draws rest cs h = (ground arith, ground arith, ground arith)
draw_letters_lem (suc n) draws rest cs h = elim (Option-cases (draw_letter draws)) [
  | inl failed ↦ absurd (ground arith)
  | inr ((c, draws'), drawn) ↦ elim (Option-cases (draw_letters n draws')) [
    | inl failed ↦ absurd (ground arith)
    | inr ((cs', rest'), more) ↦
        let (plain, other) = draw_letter_lem draws draws' c drawn in
        let (sized, all_plain, no_hyphen) = draw_letters_lem n draws' rest' cs' more in
        let whole : cs ≡ c ∷ cs' = ground arith in
        rw whole (ground arith, ground arith, ground arith)
  ]
]

-- The pieces of a text of letters.
take-lacks : (n : ℕ) (s : Text) → lacks b'-' s ≡ true → lacks b'-' (take n s) ≡ true
unfolding take lacks
take-lacks zero s h = refl
take-lacks (suc n) [] h = refl
take-lacks (suc n) (c ∷ s) h = ground (arith, take-lacks n s)

drop-lacks : (n : ℕ) (s : Text) → lacks b'-' s ≡ true → lacks b'-' (drop n s) ≡ true
unfolding drop lacks
drop-lacks zero s h = h
drop-lacks (suc n) [] h = refl
drop-lacks (suc n) (c ∷ s) h = drop-lacks n s (ground arith)

take-all_in : (p : ℕ → Bool) (n : ℕ) (s : Text) → all_in p s ≡ true → all_in p (take n s) ≡ true
unfolding take all_in
take-all_in p zero s h = refl
take-all_in p (suc n) [] h = refl
take-all_in p (suc n) (c ∷ s) h = ground (arith, take-all_in p n s)

drop-all_in : (p : ℕ → Bool) (n : ℕ) (s : Text) → all_in p s ≡ true → all_in p (drop n s) ≡ true
unfolding drop all_in
drop-all_in p zero s h = h
drop-all_in p (suc n) [] h = refl
drop-all_in p (suc n) (c ∷ s) h = drop-all_in p n s (ground arith)

length-take : (n : ℕ) (s : Text) → n ≤ length s → length (take n s) ≡ n
unfolding take
length-take zero s h = refl
length-take (suc n) [] h = absurd (omega arith)
length-take (suc n) (c ∷ s) h = omega (arith, length-take n s)

length-drop : (n m : ℕ) (s : Text) → length s ≡ n + m → length (drop n s) ≡ m
unfolding drop
length-drop zero m s h = omega arith
length-drop (suc n) m [] h = absurd (omega arith)
length-drop (suc n) m (c ∷ s) h = length-drop n m s (omega arith)

length-append : (s t : Text) → length (s ++ t) ≡ length s + length t
length-append [] t = omega arith
length-append (c ∷ s) t = omega (arith, length-append s t)

part : (p : Text) → length p ≡ 4 → all_in is_recovery_char p ≡ true → is_recovery_part p ≡ true
unfolding is_recovery_part
part p sized plain = ground arith

-- Three parts of four letters, joined by hyphens, are a code.
joined :
    (p q r : Text)
    → is_recovery_part p ≡ true
    → is_recovery_part q ≡ true
    → is_recovery_part r ≡ true
    → length p ≡ 4
    → length q ≡ 4
    → length r ≡ 4
    → lacks b'-' p ≡ true
    → lacks b'-' q ≡ true
    → lacks b'-' r ≡ true
    → is_valid_recovery_code (p ++ (b'-' ∷ (q ++ (b'-' ∷ r)))) ≡ true
unfolding is_valid_recovery_code
joined p q r hp hq hr np nq nr lp lq lr = ground (
  arith,
  split_on-append b'-' p (q ++ (b'-' ∷ r)) lp,
  split_on-append b'-' q r lq,
  split_on-lacks b'-' r lr,
  length-append p (b'-' ∷ (q ++ (b'-' ∷ r))),
  length-append q (b'-' ∷ r),
)

-- Whatever is drawn, a code that GenerateRecoveryCode gives is one that IsValidRecoveryCode accepts.
pub generate_recovery_code-IsValid :
    (draws rest code : Text)
    → generate_recovery_code draws ≡ some (code, rest)
    → is_valid_recovery_code code ≡ true
unfolding generate_recovery_code hyphenated
generate_recovery_code-IsValid draws rest code h = elim (Option-cases (draw_letters 12 draws)) [
  | inl failed ↦ absurd (ground arith)
  | inr ((cs, rest'), drawn) ↦
      let (sized, plain, bare) = draw_letters_lem 12 draws rest' cs drawn in
      let p = take 4 cs in
      let q = take 4 (drop 4 cs) in
      let r = take 4 (drop 8 cs) in
      let np : length p ≡ 4 = length-take 4 cs (omega arith) in
      let nq : length q ≡ 4 =
        length-take 4 (drop 4 cs) (omega (arith, length-drop 4 8 cs (omega arith))) in
      let nr : length r ≡ 4 =
        length-take 4 (drop 8 cs) (omega (arith, length-drop 8 4 cs (omega arith))) in
      let valid =
        joined p q r (part p np (take-all_in is_recovery_char 4 cs plain))
          (part q nq
            (take-all_in is_recovery_char 4 (drop 4 cs) (drop-all_in is_recovery_char 4 cs plain)))
          (part r nr
            (take-all_in is_recovery_char 4 (drop 8 cs) (drop-all_in is_recovery_char 8 cs plain)))
          np nq nr (take-lacks 4 cs bare) (take-lacks 4 (drop 4 cs) (drop-lacks 4 cs bare))
          (take-lacks 4 (drop 8 cs) (drop-lacks 8 cs bare)) in
      let whole : code ≡ hyphenated cs = unfold hyphenated in (ground arith) in rw whole valid
]

-- How many of the bytes below `n` are kept and give the character.
unfoldable pub kept_for : ℕ → ℕ → ℕ
kept_for c zero = 0
kept_for c (suc b) = (if ltb b threshold && eqb (letter b) c then 1 else 0) + kept_for c b

abbrev is_even : ℕ → Bool
is_even i = eqb (kept_for (byte_at recovery_alphabet i) 256) 8

even_table : holds_under is_even 31 ≡ true
unfolding holds_under kept_for letter byte_at threshold
even_table = refl

-- The draw of a letter is unbiased: of the 256 bytes, exactly eight give each letter of the alphabet.
pub letters_drawn_evenly : (i : ℕ) → i < 31 → kept_for (byte_at recovery_alphabet i) 256 ≡ 8
letters_drawn_evenly i h = let checked = at-holds_under is_even i 31 h even_table in ground arith
