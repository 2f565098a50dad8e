-- ===== src/Authz/Shares/Tokens.antt =====
-- Verification of share tokens.
use flametrench_go.Base.{
  ℕ, ◌+◌, ◌*◌, ◌≤◌, ◌<◌, ◌≡◌, true, Option, none, some, inl, inr, arith, Text, bytes, lookup,
  eq_refl, lookup-insert_self, Option-cases,
}
use flametrench_go.Base.Result.{ok, err, Result-cases}
use flametrench_go.Ids.{Uuids, generate}
use flametrench_go.Authz.Types.{
  Share, VerifiedShare, share_consumed, share_max_ttl_seconds, share_revoked,
}
use flametrench_go.Authz.Shares.{
  Store, CreateShareInput, CreateShareResult, second, new_share, create_share, verify_share_token,
  revoke_share,
}

module _ (sha : Text → Text) where
  -- A token is verified only for a share that its hash names and that is not revoked, not consumed if
  -- it is for single use, and not expired.
  pub verify_guards :
      (token : Text) (now stamp : ℕ) (s : Store) (v : VerifiedShare)
      → (verify_share_token sha token now stamp s).0 ≡ ok v
      → (id : Text) × (sh : Share) × (lookup (sha token) s.id_by_hash ≡ some id)
        × (lookup id s.shares ≡ some sh)
        × (sh.revoked_at ≡ none)
        × (sh.single_use ≡ true → sh.consumed_at ≡ none)
        × (now < sh.expires_at)
        × (v.relation ≡ sh.relation)
        × (v.object_id ≡ sh.object_id)
  unfolding verify_share_token
  verify_guards token now stamp s v e = elim (Option-cases (lookup (sha token) s.id_by_hash)) [
    | inl missing ↦ absurd (ground arith)
    | inr (id, ei) ↦ elim (Option-cases (lookup id s.shares)) [
      | inl missing ↦ absurd (ground arith)
      | inr (sh, es) ↦ (
        id,
        sh,
        ei,
        es,
        ground arith,
        λ single. ground arith,
        ground arith,
        ground arith,
        ground arith,
      )
    ]
  ]

  -- A single-use token is verified once: after a success the same token is refused as consumed, at
  -- any time.
  pub single_use_once :
      (token : Text) (now stamp later stamp' : ℕ) (s : Store) (v : VerifiedShare) (id : Text)
      (sh : Share)
      → lookup (sha token) s.id_by_hash ≡ some id
      → lookup id s.shares ≡ some sh
      → sh.single_use ≡ true
      → (verify_share_token sha token now stamp s).0 ≡ ok v
      → (verify_share_token sha token later stamp' (verify_share_token sha token now stamp s).1).0
        ≡ err share_consumed
  unfolding verify_share_token
  single_use_once token now stamp later stamp' s v id sh ei es single e =
      ground (arith, lookup-insert_self id (record sh { consumed_at = some stamp }) s.shares)

  -- A revoked share's token is refused from then on.
  pub revoked_refused :
      (token : Text) (at now stamp : ℕ) (s : Store) (id : Text) (sh : Share)
      → lookup (sha token) s.id_by_hash ≡ some id
      → lookup id s.token_hashes ≡ some (sha token)
      → lookup id s.shares ≡ some sh
      → (verify_share_token sha token now stamp (revoke_share id at s).1).0 ≡ err share_revoked
  unfolding verify_share_token revoke_share
  revoked_refused token at now stamp s id sh ei eh es = ground (
    arith,
    eq_refl (sha token),
    lookup-insert_self id (record sh { revoked_at = some at }) s.shares,
  )

  -- A share that CreateShare returns lives between one second and 365 days, and until it expires its
  -- token is verified.
  pub create_share_verifies :
      (i : CreateShareInput) (u : Uuids) (drawn : Option Text) (now later stamp : ℕ) (s : Store)
      (r : CreateShareResult)
      → (create_share sha i u drawn now s).0 ≡ ok r
      → later < r.share.expires_at
      → (now + second ≤ r.share.expires_at)
        × (r.share.expires_at ≤ now + share_max_ttl_seconds * second)
        × ((verify_share_token sha r.token later stamp (create_share sha i u drawn now s).1).0
            ≡ ok (record {
              share_id = r.share.id;
              object_type = i.object_type;
              object_id = i.object_id;
              relation = i.relation;
            }))
  unfolding create_share new_share verify_share_token
  create_share_verifies i u drawn now later stamp s r e soon =
      elim (Result-cases (generate u (bytes "shr"))) [
        | inr (x, g) ↦ absurd (ground arith)
        | inl (id, g) ↦ elim (Option-cases drawn) [
          | inl failed ↦ absurd (ground arith)
          | inr (token, d) ↦ (
            ground arith,
            ground arith,
            ground (
              arith,
              lookup-insert_self (sha token) id s.id_by_hash,
              lookup-insert_self id (sha token) s.token_hashes,
              lookup-insert_self id (new_share id i now) s.shares,
              eq_refl (sha token),
            ),
          )
        ]
      ]
