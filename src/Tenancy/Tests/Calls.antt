-- ===== src/Tenancy/Tests/Calls.antt =====
-- packages/tenancy/inmem.go: the theorems on single calls at small stores.
use flametrench_go.Base.{
  ◌<◌, ◌≤◌, ◌≡◌, ◌≢◌, refl, subst, arith, true, false, none, some, Option, [], ◌∷◌, ℕ, Text, bytes,
  lookup, insert, ◌==◌, eq_iff,
}
use flametrench_go.Base.Result.{ok, err}
use flametrench_go.Ids.{Uuids, generate, invalid_id}
use flametrench_go.Tenancy.Types.{
  Organization, Membership, Invitation, active, suspended, revoked, pending, is_active, admin_rank,
  role_owner, role_member, with_status, id_error, AcceptInvitationResult,
}
use flametrench_go.Tenancy.Store.{
  Store, empty, org_usr_key, new_membership, count_active_owners, tuple_key, role_tuple,
}
use flametrench_go.Tenancy.Orgs.{create_org, revoke_org, new_org}
use flametrench_go.Tenancy.Members.{
  add_member, self_leave, admin_remove, is_sole_owner, suspend_membership, reinstate_membership,
  transfer_ownership,
}
use flametrench_go.Tenancy.Cascade.{closed_by, map_option}
use flametrench_go.Tenancy.Owners.Writes.{IsFresh}
use flametrench_go.Tenancy.Tests.{draw, draw_org, alice, acme, founded, acme_org, generate_org}
use flametrench_go.Tenancy.Guards.{admin_remove_guards}
use flametrench_go.Tenancy.Revocation.{revoke_org_effect}
use flametrench_go.Tenancy.Faults.{suspend_again_unindexes, revoked_org_readmits, create_org_orphan}

abbrev bob : Text
bob = bytes "usr_bob"

-- Bob's membership is stored and indexed beside Alice's.
abbrev mem_a : Text
mem_a = bytes "mem_a"

abbrev mem_b : Text
mem_b = bytes "mem_b"

revoke_org_effect_example :
    let (r, s') = revoke_org acme 9 (λ i. 9) founded in
    (r ≡ ok (with_status (new_org acme none (some (bytes "acme")) 5) revoked 9))
    × (lookup acme s'.orgs
        ≡ some (with_status (new_org acme none (some (bytes "acme")) 5) revoked 9))
    × ((i : Text)
        → lookup i s'.memberships ≡ map_option (closed_by acme 9) (lookup i founded.memberships))
unfolding new_org
revoke_org_effect_example =
    revoke_org_effect acme (new_org acme none (some (bytes "acme")) 5) 9 (λ i. 9) founded acme_org
      refl

-- One organization; Bob was suspended as mem_a and added again as mem_b.
abbrev was : Membership
was = record (new_membership mem_a bob acme role_member none 1) { status = suspended }

abbrev again : Membership
again = new_membership mem_b bob acme role_member none 2

abbrev readded : Store
readded = record empty {
  memberships = (mem_a, was) ∷ (mem_b, again) ∷ [];
  active_mem = (org_usr_key acme bob, mem_b) ∷ [];
}

differ : mem_b ≢ mem_a
unfolding ◌==◌
differ e = let wrong : false ≡ true = (eq_iff mem_b mem_a).1 e in cc

suspend_again_unindexes_example :
    let (r, s') = suspend_membership mem_a 9 readded in
    (r ≡ ok (record was { updated_at = 9 }))
    × (lookup mem_b s'.memberships ≡ some again)
    × (lookup (org_usr_key acme bob) s'.active_mem ≡ none)
    × (role_member ≡ role_member
        → lookup (tuple_key (role_tuple bob role_member acme)) s'.tuples ≡ none)
unfolding lookup ◌==◌ new_membership
suspend_again_unindexes_example =
    suspend_again_unindexes mem_a mem_b was again 9 readded refl refl refl differ refl refl

abbrev idle : Store
idle = record empty {
  orgs = (acme, new_org acme none none 1) ∷ [];
  memberships = (mem_a, was) ∷ [];
}

revoked_org_readmits_example :
    let (r, s') = reinstate_membership mem_a 10 (revoke_org acme 9 (λ i. 9) idle).1 in
    (r ≡ ok (record was { status = active; updated_at = 10 }))
    × (lookup mem_a s'.memberships ≡ some (record was { status = active; updated_at = 10 }))
    × (lookup acme s'.orgs ≡ some (with_status (new_org acme none none 1) revoked 9))
unfolding lookup ◌==◌ new_membership new_org
revoked_org_readmits_example =
    revoked_org_readmits acme (new_org acme none none 1) mem_a was 9 10 (λ i. 9) idle refl refl refl
      refl refl refl

-- Bob joins, and Alice removes him.
abbrev bob_member : Text
bob_member = bytes "mem_0190f2a81b3c7abc8123456789abcde1"

abbrev joined : Store
joined =
    (add_member acme bob role_member none (draw "0190f2a8-1b3c-7abc-8123-456789abcde1") 6 founded).1

abbrev removed : Membership
removed = record (new_membership bob_member bob acme role_member none 6) {
  status = revoked;
  removed_by = some alice;
  updated_at = 9;
}

removal : (admin_remove bob_member alice 9 joined).0 ≡ ok removed
unfolding create_org add_member lookup flametrench_go.Tenancy.Orgs.check_new_slug
    flametrench_go.Tenancy.Store.is_slug flametrench_go.Tenancy.Store.fresh_id generate
    flametrench_go.Tenancy.Store.admit flametrench_go.Tenancy.Store.put_grant
    flametrench_go.Tenancy.Store.put_membership flametrench_go.Tenancy.Orgs.put_org new_org insert
    org_usr_key new_membership ◌==◌ admin_remove admin_rank role_owner role_member
    flametrench_go.Tenancy.Types.role_admin flametrench_go.Base.remove flametrench_go.Base.tally
    is_sole_owner flametrench_go.Tenancy.Members.retire count_active_owners
    flametrench_go.Tenancy.Store.drop_grant flametrench_go.Tenancy.Store.owner_weight role_tuple
    tuple_key flametrench_go.Tenancy.Store.zero_membership flametrench_go.Tenancy.Types.role_guest
removal = refl

abbrev draw_bob : Uuids
draw_bob = draw "0190f2a8-1b3c-7abc-8123-456789abcde1"

generate_bob : generate draw_bob (bytes "mem") ≡ ok bob_member
unfolding generate
generate_bob = refl

not_yet : lookup bob_member founded.memberships ≡ none
unfolding create_org add_member lookup flametrench_go.Tenancy.Orgs.check_new_slug
    flametrench_go.Tenancy.Store.is_slug flametrench_go.Tenancy.Store.fresh_id generate
    flametrench_go.Tenancy.Store.admit flametrench_go.Tenancy.Store.put_grant
    flametrench_go.Tenancy.Store.put_membership flametrench_go.Tenancy.Orgs.put_org new_org insert
    org_usr_key new_membership ◌==◌
not_yet = refl

bob_unused : IsFresh draw_bob founded
bob_unused id e = subst (λ (x : Text). lookup x founded.memberships ≡ none) same not_yet
  where
    same : bob_member ≡ id
    same = cc (generate_bob, e)

admin_remove_guards_example :
    (target : Membership) × (admin : Membership) × (i : Text) × (lookup bob_member
        joined.memberships
      ≡ some target)
    × (is_active target.status ≡ true)
    × (lookup (org_usr_key target.org_id alice) joined.active_mem ≡ some i)
    × (lookup i joined.memberships ≡ some admin)
    × (3 ≤ admin_rank admin.role)
    × (admin_rank target.role ≤ admin_rank admin.role)
    × (is_sole_owner target joined ≡ false)
    × (removed ≡ record target { status = revoked; removed_by = some alice; updated_at = 9 })
admin_remove_guards_example = admin_remove_guards bob_member alice 9 joined removed removal

abbrev no_draw : Uuids
no_draw = record { new_v7 = none; parses = λ t. true }

create_org_orphan_example :
    let (r, s') = create_org alice none none draw_org no_draw 5 empty in
    (r ≡ err (id_error invalid_id))
    × (lookup acme s'.orgs ≡ some (new_org acme none none 5))
    × (count_active_owners acme s' ≡ 0)
unfolding count_active_owners flametrench_go.Base.tally generate
create_org_orphan_example =
    create_org_orphan alice acme none draw_org no_draw invalid_id 5 empty generate_org refl refl
