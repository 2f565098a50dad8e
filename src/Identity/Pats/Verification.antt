-- ===== src/Identity/Pats/Verification.antt =====
-- packages/identity/inmem.go: a personal access token that was created verifies, and what a
-- verification vouches for.
use flametrench_go.Base.{
  ℕ, suc, ◌≤◌, ◌≡◌, ◌≢◌, refl, ap, subst, inl, inr, true, false, ◌||◌, none, some, [], ◌∷◌, ◌++◌,
  arith, ltb, length, Text, bytes, is_bytes, lookup, eq_ne, Option-cases, Bool-cases,
  lookup-insert_self,
}
use flametrench_go.Base.Result.{ok, Result-cases}
use flametrench_go.Ids.{Uuids, generate, split, all_hex, is_hex_lower, take, drop}
use flametrench_go.Identity.Types.{PersonalAccessToken, PatStatus, VerifiedPat}
use flametrench_go.Identity.Store.{Store, or_empty, put_pat, fresh_id}
use flametrench_go.Identity.Credentials.{Hashing, IsHashing}
use flametrench_go.Identity.Pats.{
  CreatePatInput, CreatePatResult, pat_max_secret_length, all_base64url,
  is_structurally_valid_pat_token, split_token, is_past, is_too_late, new_pat, create_pat,
  verify_pat, verify_pat_token, revoke_pat,
}

take-append : (a b : Text) → take (length a) (a ++ b) ≡ a
unfolding take
take-append [] b = refl
take-append (x ∷ a) b = ap (λ t. x ∷ t) (take-append a b)

drop-append : (a b : Text) → drop (length a) (a ++ b) ≡ b
unfolding drop
drop-append [] b = refl
drop-append (x ∷ a) b = drop-append a b

drop-append_suc : (a : Text) (x : ℕ) (b : Text) → drop (suc (length a)) (a ++ x ∷ b) ≡ b
unfolding drop
drop-append_suc [] x b = refl
drop-append_suc (y ∷ a) x b = drop-append_suc a x b

-- A hexadecimal text has no underscore, so the first one that is found stands behind it.
split-append :
    (hex secret : Text) → all_hex hex ≡ true → split (hex ++ b'_' ∷ secret) ≡ some (hex, secret)
unfolding split all_hex
split-append [] secret good = refl
split-append (c ∷ hex) secret good = ground (arith, split-append hex secret)

hex-length : (hex : Text) → is_hex_lower hex ≡ true → length hex ≡ 32
unfolding is_hex_lower
hex-length hex good = ground arith

hex-all : (hex : Text) → is_hex_lower hex ≡ true → all_hex hex ≡ true
unfolding is_hex_lower
hex-all hex good = ground arith

abbrev token_of : Text → Text → Text
token_of hex secret = bytes "pat_" ++ (hex ++ b'_' ∷ secret)

module _ (hex secret : Text) (good : is_hex_lower hex ≡ true) where
  parts :
      (take 32 (hex ++ b'_' ∷ secret) ≡ hex)
      × (drop 32 (hex ++ b'_' ∷ secret) ≡ b'_' ∷ secret)
      × (drop 33 (hex ++ b'_' ∷ secret) ≡ secret)
  parts = (
    subst (λ n. take n (hex ++ b'_' ∷ secret) ≡ hex) (hex-length hex good)
        (take-append hex (b'_' ∷ secret)),
    subst (λ n. drop n (hex ++ b'_' ∷ secret) ≡ b'_' ∷ secret) (hex-length hex good)
        (drop-append hex (b'_' ∷ secret)),
    subst (λ n. drop (suc n) (hex ++ b'_' ∷ secret) ≡ secret) (hex-length hex good)
        (drop-append_suc hex b'_' secret),
  )

  structurally_valid :
      all_base64url secret ≡ true
      → secret ≢ []
      → is_structurally_valid_pat_token (token_of hex secret) ≡ true
  unfolding is_structurally_valid_pat_token
  structurally_valid letters some_text =
      let p = parts in
      rw (p.0, p.1, p.2)
        (ground (arith, hex-length hex good, hex-all hex good, eq_ne secret [] some_text))

  split-token_of : split_token (token_of hex secret) ≡ some (bytes "pat_" ++ hex, secret)
  unfolding split_token
  split-token_of = ground (arith, split-append hex secret (hex-all hex good))

-- A token that CreatePat returned verifies until it expires, for its owner and with its scope, where
-- the salt is bytes, the uuid package gives a well-formed id and the secret that was drawn is a
-- nonempty base64url text of at most 256 bytes.
pub create_pat_verifies :
    (h : Hashing) (i : CreatePatInput) (u : Uuids) (hex secret salt : Text)
    (now_max now later_check later : ℕ) (s : Store) (r : CreatePatResult)
    → IsHashing h
    → is_bytes salt ≡ true
    → generate u (bytes "pat") ≡ ok (bytes "pat_" ++ hex)
    → is_hex_lower hex ≡ true
    → all_base64url secret ≡ true
    → secret ≢ []
    → length secret ≤ pat_max_secret_length
    → is_past i.expires_at later_check ≡ false
    → (create_pat h i now_max u (some secret) (some salt) now s).0 ≡ ok r
    → (verify_pat_token h r.token later_check later
        (create_pat h i now_max u (some secret) (some salt) now s).1).0
      ≡ ok (record { pat_id = bytes "pat_" ++ hex; usr_id = i.usr_id; scope = i.scope })
unfolding create_pat fresh_id verify_pat_token verify_pat put_pat new_pat
create_pat_verifies h i u hex secret salt now_max now later_check later s r hashing salted g good
      letters some_text short fresh made =
    let id : Text = bytes "pat_" ++ hex in
    elim (Option-cases (lookup i.usr_id s.users)) [
      | inl unknown ↦ absurd (ground arith)
      | inr (x, known) ↦ elim (Bool-cases (ltb (length i.name) 1 || ltb 120 (length i.name))) [
        | inl bad ↦ absurd (ground arith)
        | inr named ↦ elim (Bool-cases (is_too_late i.expires_at now_max)) [
          | inl late ↦ absurd (ground arith)
          | inr early ↦ elim (Result-cases (h.hash_password secret (some salt))) [
            | inr (e, failed) ↦ absurd (ground arith)
            | inl (phc, hashed) ↦
                let token : r.token ≡ token_of hex secret = ground arith in
                rw token (
                  ground (
                    arith,
                    structurally_valid hex secret good letters some_text,
                    split-token_of hex secret good,
                    lookup-insert_self id (new_pat id i now) s.pats,
                    lookup-insert_self id phc s.pat_secret_hashes,
                    hashing.verifies secret salt phc salted hashed,
                  ))
          ]
        ]
      ]
    ]

-- VerifyPatToken accepts a token only for a stored access token that is not revoked and had not
-- expired when it was read, whose stored hash verifies a secret of at most 256 bytes; it reports the
-- owner and the scope that are stored.
pub verify_pat_token_guards :
    (h : Hashing) (token : Text) (now_check now : ℕ) (s : Store) (r : VerifiedPat)
    → (verify_pat_token h token now_check now s).0 ≡ ok r
    → (p : PersonalAccessToken) × (secret : Text) × (split_token token ≡ some (r.pat_id, secret))
      × (lookup r.pat_id s.pats ≡ some p)
      × (p.revoked_at ≡ none)
      × (is_past p.expires_at now_check ≡ false)
      × (length secret ≤ pat_max_secret_length)
      × (h.verify_password_hash (or_empty (lookup r.pat_id s.pat_secret_hashes)) secret ≡ ok true)
      × (r.usr_id ≡ p.usr_id)
      × (r.scope ≡ p.scope)
unfolding verify_pat_token verify_pat
verify_pat_token_guards h token now_check now s r done = elim (Option-cases (split_token token)) [
  | inl none_there ↦ absurd (unfold split_token in (ground arith))
  | inr ((id, secret), cut) ↦ elim (Option-cases (lookup id s.pats)) [
    | inl missing ↦ absurd (ground arith)
    | inr (p, stored) ↦
        elim (Result-cases
          (h.verify_password_hash (or_empty (lookup id s.pat_secret_hashes)) secret)) [
            | inr (e, failed) ↦ absurd (ground arith)
            | inl (match, verified) ↦ (
              p,
              secret,
              ground arith,
              ground arith,
              ground arith,
              ground arith,
              ground arith,
              ground arith,
              ground arith,
              ground arith,
            )
          ]
  ]
]

-- After RevokePat, no token of the revoked access token is accepted.
pub revoked_pat_is_refused :
    (h : Hashing) (id token : Text) (now now_check later : ℕ) (s : Store) (r : VerifiedPat)
    → (verify_pat_token h token now_check later (revoke_pat id now s).1).0 ≡ ok r
    → r.pat_id ≢ id
unfolding revoke_pat put_pat
revoked_pat_is_refused h id token now now_check later s r done same =
    let s' = (revoke_pat id now s).1 in
    let found = verify_pat_token_guards h token now_check later s' r done in
    let stored = found.3 in
    let live = found.4 in
    elim (Option-cases (lookup id s.pats)) [
      | inl missing ↦ ground (arith, same)
      | inr (q, known) ↦ ground (
        arith,
        same,
        lookup-insert_self id
            (record q { revoked_at = some now; status = PatStatus.revoked; updated_at = now })
            s.pats,
      )
    ]
