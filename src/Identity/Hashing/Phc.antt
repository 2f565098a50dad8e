-- ===== src/Identity/Hashing/Phc.antt =====
-- packages/identity/hashing.go: a hash that HashPassword made verifies.
use flametrench_go.Base.{
  ℕ, ◌≤◌, ◌≡◌, refl, inl, inr, true, some, [], ◌∷◌, ◌++◌, arith, ltb, length, Text, ◌==◌,
  has_prefix, is_bytes, split_on, split_on-lacks, split_on-append, eq_refl, Bool-cases,
}
use flametrench_go.Base.Result.{ok}
use flametrench_go.Identity.Credentials.{IsHashing}
use flametrench_go.Identity.Hashing.Base64.{
  encode_base64, decode-encode_base64, encode_base64-lacks,
}
use flametrench_go.Identity.Hashing.{
  argon2id_floor, encode_phc, decode_phc, decode_parts, hash_password, verify_password_hash,
  argon2id_hashing,
}

-- The two last parts of a PHC string.
split-tail :
    (salt key : Text)
    → is_bytes salt ≡ true
    → is_bytes key ≡ true
    → split_on b'$' (encode_base64 salt ++ (b'$' ∷ encode_base64 key))
      ≡ encode_base64 salt ∷ encode_base64 key ∷ []
split-tail salt key hs hk =
    rw (split_on-append b'$' (encode_base64 salt) (encode_base64 key) (encode_base64-lacks salt hs))
      (rw (split_on-lacks b'$' (encode_base64 key) (encode_base64-lacks key hk)) refl)

-- A PHC string is read back: the parameters of the floor, the salt and the key.
pub decode-encode_phc :
    (salt key : Text)
    → is_bytes salt ≡ true
    → is_bytes key ≡ true
    → decode_phc (encode_phc salt key)
      ≡ some (record { params = argon2id_floor; salt = salt; key = key })
unfolding decode_phc encode_phc split_on ◌==◌ has_prefix decode_parts
decode-encode_phc salt key hs hk =
    ground
      (arith, split-tail salt key hs hk, decode-encode_base64 salt hs, decode-encode_base64 key hk)

module _ (argon2_id_key : Text → Text → ℕ → ℕ → ℕ → ℕ → Text) where
  -- What the Argon2id function documents: it returns a key of bytes of the length asked for.
  pub record IsKeyed : Type 0 where
    pub sized :
        (password salt : Text) (t m p n : ℕ) → length (argon2_id_key password salt t m p n) ≡ n
    pub keyed :
        (password salt : Text) (t m p n : ℕ) → is_bytes (argon2_id_key password salt t m p n) ≡ true

  -- A hash that HashPassword made with a salt of bytes verifies its password, and verifies another
  -- password that is not too long exactly if Argon2id gives both the same key with that salt.
  pub hash_password_verifies :
      (password salt phc candidate : Text)
      → IsKeyed
      → is_bytes salt ≡ true
      → hash_password argon2_id_key password (some salt) ≡ ok phc
      → length candidate ≤ 1024
      → let key = λ (t : Text). argon2_id_key t salt 2 19456 1 32 in
        (verify_password_hash argon2_id_key phc password ≡ ok true)
        × (verify_password_hash argon2_id_key phc candidate ≡ ok (key candidate == key password))
  unfolding hash_password verify_password_hash
  hash_password_verifies password salt phc candidate h bytes_ made short =
      let key = argon2_id_key password salt 2 19456 1 32 in
      let back = decode-encode_phc salt key bytes_ (h.keyed password salt 2 19456 1 32) in
      let sized = h.sized password salt 2 19456 1 32 in
      elim (Bool-cases (ltb 1024 (length password))) [
        | inl long ↦ absurd (ground arith)
        | inr fits ↦
            let same : encode_phc salt key ≡ phc = ground arith in
            (ground (arith, back, sized, same, eq_refl key), ground (arith, back, sized, same))
      ]

  pub argon2id_hashing-IsHashing : IsKeyed → IsHashing (argon2id_hashing argon2_id_key)
  argon2id_hashing-IsHashing h = record {
    verifies = λ password salt phc b e.
        (hash_password_verifies password salt phc [] h b e (omega arith)).0;
  }
