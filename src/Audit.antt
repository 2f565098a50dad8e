-- ===== src/Audit.antt =====
-- packages/audit: the audit log (types.go, errors.go, inmem.go). An event holds pointers and a map,
-- which the caller of Write shares: they are addresses, and the memory they lead to is part of the
-- state.
pub mod Log
mod Tests
use flametrench_go.Base.{
  ℕ, ◌+◌, Bool, true, false, not, ◌&&◌, ◌||◌, Option, none, some, [], ◌∷◌, ltb, eqb, if◌then◌else◌,
  present, length, Text, bytes, ◌==◌, Map, lookup, insert,
}
use flametrench_go.Base.Result.{Result, ok, err}
use flametrench_go.Base.Action.{Action, ◌>>=◌, ◌>>◌, pure, lift, gets, or_raise, raise_if, modify}
use flametrench_go.Ids.{IdError, DecodedId, Uuids, generate, decode, is_registered}
use flametrench_go.Patterns.{is_type_prefix}

-- OutcomeSuccess and the others; an outcome is any string.
unfoldable pub is_outcome : Text → Bool
is_outcome t =
    t == bytes "success" || (t == bytes "failure" || (t == bytes "denied" || t == bytes "pending"))

unfoldable pub auth_kind_session : Text
auth_kind_session = bytes "session"

unfoldable pub auth_kind_pat : Text
auth_kind_pat = bytes "pat"

unfoldable pub auth_kind_share : Text
auth_kind_share = bytes "share"

unfoldable pub auth_kind_system : Text
auth_kind_system = bytes "system"

-- Where a pointer or a map leads; a nil one is none.
abbrev pub Address : Type 0
Address = ℕ

pub record Auth : Type 0 where
  pub kind : Text
  pub session_id : Option Address
  pub pat_id : Option Address
  pub share_id : Option Address
  pub system_id : Option Address

pub record OnBehalf : Type 0 where
  pub agent_id : Text

pub record Target : Type 0 where
  pub kind : Text
  pub id : Text

pub record Scope : Type 0 where
  pub kind : Text
  pub id : Text

pub record EventContext : Type 0 where
  pub request_id : Option Address
  pub ip : Option Address
  pub user_agent : Option Address

-- An element of a metadata map: a value that is copied whole, with its text, or one that refers to
-- memory (a nested map, a slice, a pointer).
pub data Value : Type 0 where
  scalar : Text → Value
  reference : Address → Value

-- What addresses lead to, for each type; `next` is the first address that has no map yet.
pub record Memory : Type 0 where
  pub strings : Address → Text
  pub auths : Address → Auth
  pub agents : Address → OnBehalf
  pub scopes : Address → Scope
  pub contexts : Address → EventContext
  pub maps : Address → Map Value
  pub next : Address

pub record AuditEvent : Type 0 where
  pub id : Text
  pub occurred_at : ℕ
  pub recorded_at : ℕ
  pub actor_usr_id : Option Address
  pub auth : Option Address
  pub on_behalf : Option Address
  pub action : Text
  pub target : Target
  pub scope : Option Address
  pub outcome : Text
  pub metadata : Option Address
  pub context : Option Address

pub record WriteInput : Type 0 where
  pub occurred_at : ℕ
  pub actor_usr_id : Option Address
  pub auth : Option Address
  pub on_behalf : Option Address
  pub action : Text
  pub target : Target
  pub scope : Option Address
  pub outcome : Text
  pub metadata : Option Address
  pub context : Option Address

pub data Error : Type 0 where
  not_found invalid_format : Error
  id_error : IdError → Error

-- The store's map, and the memory that it shares with its callers.
pub record Store : Type 0 where
  pub events : Map AuditEvent
  pub memory : Memory

-- NewInMemoryAuditStore
abbrev pub empty : Memory → Store
empty mem = record { events = []; memory = mem }

abbrev pub Method : Type 0 → Type 0
Method A = Action Store Error A

abbrev pub max_event_bytes : ℕ
max_event_bytes = 65536

abbrev is_usr : Result IdError DecodedId → Bool
is_usr (err e) = false
is_usr (ok d) = d.type_of == bytes "usr"

unfoldable pub is_actor : Memory → Option Address → Bool
is_actor mem none = true
is_actor mem (some p) = is_usr (decode (mem.strings p))

abbrev pub one_if : Option Address → ℕ
one_if none = 0
one_if (some p) = 1

-- sidCount
unfoldable pub count_ids : Auth → ℕ
count_ids a = one_if a.session_id + (one_if a.pat_id + (one_if a.share_id + one_if a.system_id))

-- The switch on the kind: the matching id is present.
unfoldable pub matches_kind : Auth → Bool
matches_kind a =
    if a.kind == auth_kind_session
    then present a.session_id
    else if a.kind == auth_kind_pat
    then present a.pat_id
    else if a.kind == auth_kind_share
    then present a.share_id
    else a.kind == auth_kind_system && present a.system_id

unfoldable pub is_auth : Memory → Option Address → Bool
unfolding count_ids matches_kind
is_auth mem none = true
is_auth mem (some p) = eqb (count_ids (mem.auths p)) 1 && matches_kind (mem.auths p)

unfoldable pub is_target_kind : Text → Bool
is_target_kind kind = kind == [] || (is_registered kind || is_type_prefix kind)

-- The size test of what json.Marshal returns; where it fails there is none.
abbrev pub is_small : Option Text → Bool
is_small none = true
is_small (some raw) = not (ltb max_event_bytes (length raw))

-- The entries of a map; a nil map has none.
abbrev pub entries_of : Option Address → Memory → Map Value
entries_of none mem = []
entries_of (some p) mem = mem.maps p

-- m[…] = entries, for a map that is there or a new one.
abbrev pub set_map : Address → Map Value → Memory → Memory
set_map p m mem = record mem { maps = λ q. if eqb p q then m else mem.maps q }

-- make, and the loop that copies the entries: a new map with the entries of the one given.
unfoldable pub copy_metadata : Option Address → Memory → Memory
copy_metadata given mem = record (set_map mem.next (entries_of given mem) mem) {
  next = mem.next + 1;
}

unfoldable pub new_event : Text → WriteInput → ℕ → Address → AuditEvent
new_event id i now meta = record {
  id = id;
  occurred_at = i.occurred_at;
  recorded_at = now;
  actor_usr_id = i.actor_usr_id;
  auth = i.auth;
  on_behalf = i.on_behalf;
  action = i.action;
  target = i.target;
  scope = i.scope;
  outcome = i.outcome;
  metadata = some meta;
  context = i.context;
}

abbrev from_ids : Result IdError Text → Result Error Text
from_ids (ok id) = ok id
from_ids (err e) = err (id_error e)

-- s.events[audID] = ev
unfoldable pub put_event : Text → AuditEvent → Store → Store
put_event id e s = record s { events = insert id e s.events }

-- `marshal` is json.Marshal of the struct with the metadata, none where it returns an error.
module _ (marshal : Memory → Option Address → Option Text) where
  -- validateWrite returns nil
  unfoldable pub validate_write : WriteInput → Memory → Bool
  unfolding is_actor is_auth is_target_kind is_outcome
  validate_write i mem =
      is_outcome i.outcome
      && (is_actor mem i.actor_usr_id
          && (is_auth mem i.auth
              && (is_target_kind i.target.kind && is_small (marshal mem i.metadata))))

  unfoldable pub write : WriteInput → Uuids → ℕ → Method AuditEvent
  write i u now = do
    raise_if (← gets (λ s. not (validate_write i s.memory))) invalid_format
    id ← lift (from_ids (generate u (bytes "aud")))
    meta ← gets (λ s. s.memory.next)
    modify (λ s. record s { memory = copy_metadata i.metadata s.memory })
    modify (put_event id (new_event id i now meta))
    pure (new_event id i now meta)

unfoldable pub get : Text → Method AuditEvent
get id = do or_raise (← gets (λ s. lookup id s.events)) not_found
