-- ===== src/Tenancy/Store.antt =====
-- packages/tenancy/inmem.go: the state of InMemoryTenancyStore, its keys, and the groups of writes
-- that its methods share. A method takes the clock readings and the uuid draws that it makes as
-- arguments, in the order in which it makes them.
use flametrench_go.Base.{
  ℕ, Bool, true, false, ◌&&◌, ◌||◌, Option, none, some, [], ◌∷◌, ◌++◌, leb, if◌then◌else◌, length,
  Text, bytes, ◌==◌, Map, lookup, insert, remove, tally,
}
use flametrench_go.Base.Result.{Result, ok, err}
use flametrench_go.Base.Action.{Action}
use flametrench_go.Ids.{IdError, Uuids, generate}
use flametrench_go.Tenancy.Types.{
  Role, role_owner, active, revoked, unset, is_active, Organization, Membership, Tuple, Invitation,
  Error, id_error,
}

pub record Store : Type 0 where
  pub orgs : Map Organization
  pub memberships : Map Membership
  pub invitations : Map Invitation
  pub tuples : Map Tuple
  pub org_by_slug : Map Text
  pub active_mem : Map Text

-- NewInMemoryTenancyStore
abbrev pub empty : Store
empty = record {
  orgs = [];
  memberships = [];
  invitations = [];
  tuples = [];
  org_by_slug = [];
  active_mem = [];
}

abbrev pub Method : Type 0 → Type 0
Method A = Action Store Error A

abbrev is_alnum : ℕ → Bool
is_alnum c = (leb b'a' c && leb c b'z') || (leb b'0' c && leb c b'9')

all_slug : Text → Bool
all_slug [] = true
all_slug (c ∷ s) = (is_alnum c || (leb b'-' c && leb c b'-')) && all_slug s

ends_alnum : Text → Bool
ends_alnum [] = false
ends_alnum (c ∷ []) = is_alnum c
ends_alnum (c ∷ d ∷ s) = ends_alnum (d ∷ s)

starts_alnum : Text → Bool
starts_alnum [] = false
starts_alnum (c ∷ s) = is_alnum c

-- slugRe: ^[a-z0-9]([a-z0-9-]{0,61}[a-z0-9])?$
unfoldable pub is_slug : Text → Bool
unfolding all_slug ends_alnum starts_alnum
is_slug s = starts_alnum s && (ends_alnum s && (all_slug s && leb (length s) 63))

-- tupleKey and orgUsrKey
unfoldable pub tuple_key : Tuple → Text
tuple_key t =
    t.subject_type
    ++ (b'|' ∷ t.subject_id
        ++ (b'|' ∷ t.relation ++ (b'|' ∷ t.object_type ++ (b'|' ∷ t.object_id))))

unfoldable pub org_usr_key : Text → Text → Text
org_usr_key org usr = org ++ (b'|' ∷ usr)

-- The tuple that mirrors an active membership.
unfoldable pub role_tuple : Text → Role → Text → Tuple
role_tuple usr role org = record {
  subject_type = bytes "usr";
  subject_id = usr;
  relation = role;
  object_type = bytes "org";
  object_id = org;
}

-- s.memberships[id] = m
unfoldable pub put_membership : Text → Membership → Store → Store
put_membership id m s = record s { memberships = insert id m s.memberships }

-- delete(s.activeMemByOrgUsr, …) and delete(s.tuples, …)
unfoldable pub drop_grant : Text → Text → Role → Store → Store
drop_grant org usr role s = record s {
  active_mem = remove (org_usr_key org usr) s.active_mem;
  tuples = remove (tuple_key (role_tuple usr role org)) s.tuples;
}

-- s.activeMemByOrgUsr[…] = id and s.tuples[…] = t
unfoldable pub put_grant : Text → Text → Role → Text → Store → Store
put_grant org usr role id s = record s {
  active_mem = insert (org_usr_key org usr) id s.active_mem;
  tuples = insert (tuple_key (role_tuple usr role org)) (role_tuple usr role org) s.tuples;
}

abbrev pub drop_slug : Option Text → Store → Store
drop_slug none s = s
drop_slug (some slug) s = record s { org_by_slug = remove slug s.org_by_slug }

abbrev pub from_ids : Result IdError Text → Result Error Text
from_ids (ok id) = ok id
from_ids (err e) = err (id_error e)

-- id, err := flametrenchids.Generate(typ)
unfoldable pub fresh_id : Uuids → Text → Method Text
fresh_id u typ s = (from_ids (generate u typ), s)

-- id, _ := flametrenchids.Generate(typ): the empty text where it fails.
unfoldable pub id_or_empty : Uuids → Text → Text
id_or_empty u typ = elim (generate u typ) [ ok id ↦ id | err e ↦ [] ]

-- What the loop of countActiveOwnersLocked adds for one membership.
unfoldable pub owner_weight : Text → Membership → ℕ
owner_weight org m =
    if m.org_id == org && (is_active m.status && m.role == role_owner) then 1 else 0

-- countActiveOwnersLocked
unfoldable pub count_active_owners : Text → Store → ℕ
count_active_owners org s = tally (owner_weight org) s.memberships

-- Membership{}, the value that s.memberships[id] has for a missing id.
unfoldable pub zero_membership : Membership
zero_membership = record {
  id = [];
  usr_id = [];
  org_id = [];
  role = [];
  status = unset;
  replaces = none;
  invited_by = none;
  removed_by = none;
  created_at = 0;
  updated_at = 0;
}

abbrev pub or_zero : Option Membership → Membership
or_zero none = zero_membership
or_zero (some m) = m

-- An active membership as CreateOrg, AddMember and AcceptInvitation build it.
unfoldable pub new_membership : Text → Text → Text → Role → Option Text → ℕ → Membership
new_membership id usr org role invited_by now = record {
  id = id;
  usr_id = usr;
  org_id = org;
  role = role;
  status = active;
  replaces = none;
  invited_by = invited_by;
  removed_by = none;
  created_at = now;
  updated_at = now;
}

-- The membership that replaces an old one under a new role.
unfoldable pub replacement : Text → Text → Membership → Role → ℕ → Membership
replacement id old_id old role now = record {
  id = id;
  usr_id = old.usr_id;
  org_id = old.org_id;
  role = role;
  status = active;
  replaces = some old_id;
  invited_by = old.invited_by;
  removed_by = none;
  created_at = now;
  updated_at = now;
}

-- The first half of a role change: the old membership is revoked and its grant is dropped.
unfoldable pub revoke_old : Text → Membership → ℕ → Store → Store
revoke_old mem old now s =
    drop_grant old.org_id old.usr_id old.role
      (put_membership mem (record old { status = revoked; updated_at = now }) s)

-- The second half: the new membership and its grant.
unfoldable pub admit : Text → Membership → Store → Store
admit id m s = put_grant m.org_id m.usr_id m.role id (put_membership id m s)

-- changeRoleAtomicLocked
unfoldable pub change_role_atomic : Text → Role → Uuids → ℕ → Store → Store
change_role_atomic mem role u now s =
    let old = or_zero (lookup mem s.memberships) in
    let id = id_or_empty u (bytes "mem") in
    admit id (replacement id mem old role now) (revoke_old mem old now s)
