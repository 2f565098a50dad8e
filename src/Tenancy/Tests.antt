-- ===== src/Tenancy/Tests.antt =====
-- packages/tenancy/inmem.go: the invariants at a small store.
mod Calls
mod Finals
use Prim.Native.String.{String}
use flametrench_go.Base.{◌<◌, ◌≡◌, refl, subst, true, none, some, Text, bytes, lookup, insert}
use flametrench_go.Base.Result.{ok}
use flametrench_go.Ids.{Uuids, generate}
use flametrench_go.Tenancy.Types.{role_owner}
use flametrench_go.Tenancy.Store.{
  Store, empty, org_usr_key, fresh_id, admit, put_membership, put_grant, new_membership,
  count_active_owners, is_slug,
}
use flametrench_go.Tenancy.Orgs.{create_org, new_org, put_org, check_new_slug}
use flametrench_go.Base.Keys.{no_bar}
use flametrench_go.Tenancy.Machine.{Reach, Step, here, next, always_owned, one_active_membership}

abbrev pub draw : String → Uuids
draw s = record { new_v7 = some (bytes s); parses = λ t. true }

abbrev pub draw_org : Uuids
draw_org = draw "0190f2a8-1b3c-7abc-8123-456789abcdef"

abbrev pub draw_mem : Uuids
draw_mem = draw "0190f2a8-1b3c-7abc-8123-456789abcde0"

abbrev pub alice : Text
alice = bytes "usr_alice"

abbrev pub acme : Text
acme = bytes "org_0190f2a81b3c7abc8123456789abcdef"

abbrev pub acme_owner : Text
acme_owner = bytes "mem_0190f2a81b3c7abc8123456789abcde0"

pub generate_org : generate draw_org (bytes "org") ≡ ok acme
unfolding generate
generate_org = refl

generate_mem : generate draw_mem (bytes "mem") ≡ ok acme_owner
unfolding generate
generate_mem = refl

-- The store after the first CreateOrg.
abbrev pub founded : Store
founded = (create_org alice none (some (bytes "acme")) draw_org draw_mem 5 empty).1

pub acme_org : lookup acme founded.orgs ≡ some (new_org acme none (some (bytes "acme")) 5)
unfolding create_org check_new_slug is_slug fresh_id generate put_org admit put_grant put_membership
    lookup insert new_org org_usr_key
acme_org = refl

pub acme_member :
    lookup acme_owner founded.memberships
    ≡ some (new_membership acme_owner alice acme role_owner none 5)
unfolding create_org check_new_slug is_slug fresh_id generate put_org admit put_grant put_membership
    lookup insert new_membership new_org
acme_member = refl

minted_clean :
    (org : Text)
    → generate draw_org (bytes "org") ≡ ok org
    → (no_bar org ≡ true) × (lookup (org_usr_key org alice) empty.active_mem ≡ none)
unfolding lookup
minted_clean org e = (subst (λ (x : Text). no_bar x ≡ true) same acme_clean, refl)
  where
    same : acme ≡ org
    same = cc (generate_org, e)

    acme_clean : no_bar acme ≡ true
    acme_clean = unfold no_bar in refl

founding : Step empty founded
unfolding lookup
founding =
    Step.create_org alice none (some (bytes "acme")) draw_org draw_mem 5 empty (rw generate_mem)
      minted_clean (λ org e. refl) (λ id e. refl)

pub history : Reach empty founded
history = next here founding

always_owned_example : 0 < count_active_owners acme founded
unfolding new_org
always_owned_example =
    always_owned founded acme (new_org acme none (some (bytes "acme")) 5) history acme_org refl

one_active_membership_example :
    (acme_owner ≡ acme_owner)
    × (lookup (org_usr_key acme alice) founded.active_mem ≡ some acme_owner)
unfolding new_membership
one_active_membership_example =
    one_active_membership founded acme_owner acme_owner
      (new_membership acme_owner alice acme role_owner none 5)
      (new_membership acme_owner alice acme role_owner none 5) history acme_member acme_member refl
      refl refl refl
