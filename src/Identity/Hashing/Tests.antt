-- ===== src/Identity/Hashing/Tests.antt =====
-- packages/identity/hashing.go: the theorem at a small password, with the padded password as its key.
use flametrench_go.Identity.Hashing.Base64.{decode_base64}
use flametrench_go.Base.{has_prefix}
use flametrench_go.Base.{split_on}
use flametrench_go.Identity.Hashing.{decode_phc}
use flametrench_go.Identity.Hashing.Base64.{encode_base64}
use flametrench_go.Base.{
  ℕ, zero, suc, ◌%◌, ◌≡◌, refl, ap, arith, true, false, [], ◌∷◌, length, Text, bytes, ◌==◌,
  is_bytes,
}
use flametrench_go.Base.Result.{ok}
use flametrench_go.Identity.Hashing.{hash_password, verify_password_hash, encode_phc}
use flametrench_go.Identity.Hashing.Phc.{IsKeyed, hash_password_verifies}

unfoldable padded : ℕ → Text → Text
padded zero s = []
padded (suc n) [] = 0 ∷ padded n []
padded (suc n) (c ∷ s) = (c % 256) ∷ padded n s

padded-length : (n : ℕ) (s : Text) → length (padded n s) ≡ n
unfolding padded
padded-length zero s = refl
padded-length (suc n) [] = ap (λ k. suc k) (padded-length n [])
padded-length (suc n) (c ∷ s) = ap (λ k. suc k) (padded-length n s)

padded-is_bytes : (n : ℕ) (s : Text) → is_bytes (padded n s) ≡ true
unfolding padded is_bytes
padded-is_bytes zero s = refl
padded-is_bytes (suc n) [] = padded-is_bytes n []
padded-is_bytes (suc n) (c ∷ s) = ground (arith, padded-is_bytes n s)

abbrev key : Text → Text → ℕ → ℕ → ℕ → ℕ → Text
key password salt t m p n = padded n password

key-IsKeyed : IsKeyed key
key-IsKeyed = record {
  sized = λ password salt t m p n. padded-length n password;
  keyed = λ password salt t m p n. padded-is_bytes n password;
}

abbrev phc : Text
phc =
    bytes
      "$argon2id$v=19$m=19456,t=2,p=1$c2FsdHNhbHRzYWx0c2FsdA$aHVudGVyMgAAAAAAAAAAAAAAAAAAAAAAAAAAAAAAAAA"

hash_password_verifies_example :
    (verify_password_hash key phc (bytes "hunter2") ≡ ok true)
    × (verify_password_hash key phc (bytes "hunter3")
        ≡ ok (padded 32 (bytes "hunter3") == padded 32 (bytes "hunter2")))
unfolding is_bytes hash_password encode_phc encode_base64 padded
hash_password_verifies_example =
    hash_password_verifies key (bytes "hunter2") (bytes "saltsaltsaltsalt") phc (bytes "hunter3")
      key-IsKeyed refl refl (omega arith)

hunter3_is_refused : verify_password_hash key phc (bytes "hunter3") ≡ ok false
unfolding verify_password_hash decode_phc split_on ◌==◌ has_prefix decode_base64 padded
hunter3_is_refused = refl
