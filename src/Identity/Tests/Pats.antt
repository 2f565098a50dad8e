-- ===== src/Identity/Tests/Pats.antt =====
-- packages/identity/inmem.go: the theorems on personal access tokens at small stores.
use flametrench_go.Base.{is_bytes}
use flametrench_go.Identity.Pats.{verify_pat}
use flametrench_go.Identity.Pats.{is_structurally_valid_pat_token}
use flametrench_go.Identity.Store.{fresh_id}
use flametrench_go.Identity.Pats.{all_base64url}
use flametrench_go.Ids.{all_hex}
use flametrench_go.Ids.{is_hex_lower}
use flametrench_go.Ids.{generate}
use flametrench_go.Base.{
  ◌≤◌, ◌≡◌, refl, arith, true, false, none, some, [], ◌∷◌, ◌++◌, Text, bytes, lookup, length,
}
use flametrench_go.Base.Result.{ok}
use flametrench_go.Identity.Types.{PersonalAccessToken, VerifiedPat}
use flametrench_go.Identity.Store.{Store, or_empty}
use flametrench_go.Identity.Pats.{
  CreatePatInput, create_pat, verify_pat_token, new_pat, split_token, is_past,
  pat_max_secret_length,
}
use flametrench_go.Identity.Pats.Verification.{create_pat_verifies, verify_pat_token_guards}
use flametrench_go.Identity.Tests.{alice, base, hashing, hashing-IsHashing, draw, hex}

abbrev input : CreatePatInput
input = record {
  usr_id = alice;
  name = bytes "ci";
  scope = bytes "repo:read" ∷ [];
  expires_at = some 100;
}

abbrev id : Text
id = bytes "pat_" ++ hex

abbrev secret : Text
secret = bytes "s3cr-et_"

abbrev token : Text
token = id ++ (b'_' ∷ secret)

abbrev vouched : VerifiedPat
vouched = record { pat_id = id; usr_id = alice; scope = bytes "repo:read" ∷ [] }

create_pat_verifies_example :
    (verify_pat_token hashing token 50 51
      (create_pat hashing input 5 draw (some secret) (some (bytes "salt")) 6 base).1).0
    ≡ ok vouched
unfolding generate is_hex_lower all_hex all_base64url create_pat lookup fresh_id is_bytes
create_pat_verifies_example =
    create_pat_verifies hashing input draw hex secret (bytes "salt") 5 6 50 51 base
      (record { pat = new_pat id input 6; token = token }) hashing-IsHashing refl refl refl refl
      (λ e. ground arith) (omega arith) refl refl

abbrev with_pat : Store
with_pat = record base {
  pats = (id, new_pat id input 6) ∷ [];
  pat_secret_hashes = (id, secret) ∷ [];
}

verify_pat_token_guards_example :
    (p : PersonalAccessToken) × (plain : Text) × (split_token token ≡ some (id, plain))
    × (lookup id with_pat.pats ≡ some p)
    × (p.revoked_at ≡ none)
    × (is_past p.expires_at 50 ≡ false)
    × (length plain ≤ pat_max_secret_length)
    × (hashing.verify_password_hash (or_empty (lookup id with_pat.pat_secret_hashes)) plain
        ≡ ok true)
    × (alice ≡ p.usr_id)
    × (vouched.scope ≡ p.scope)
unfolding verify_pat_token is_structurally_valid_pat_token verify_pat lookup new_pat
verify_pat_token_guards_example = verify_pat_token_guards hashing token 50 51 with_pat vouched refl

-- Another token is revoked; this one still verifies.
abbrev other : Text
other = bytes "pat_other"

abbrev with_two : Store
with_two = record base {
  pats = (id, new_pat id input 6) ∷ (other, new_pat other input 6) ∷ [];
  pat_secret_hashes = (id, secret) ∷ [];
}
