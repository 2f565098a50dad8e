-- ===== src/Audit/Tests.antt =====
-- packages/audit/inmem.go: the theorem at a small log.
use flametrench_go.Base.{
  ◌<◌, ◌≡◌, ◌≢◌, refl, subst, true, Option, none, some, [], ◌∷◌, arith, Text, bytes, ◌==◌, lookup,
  insert,
}
use flametrench_go.Base.Result.{ok}
use flametrench_go.Ids.{is_registered, decode, Uuids, generate}
use flametrench_go.Audit.{
  Address, Value, scalar, Memory, AuditEvent, WriteInput, Store, empty, is_outcome,
  auth_kind_session, put_event, validate_write, new_event, write, get,
}
use flametrench_go.Audit.Log.{
  HasShape, assign, Later, no_more, writes, assigns, written_event_is_kept,
}

abbrev draw : Uuids
draw = record { new_v7 = some (bytes "0190f2a8-1b3c-7abc-8123-456789abcdef"); parses = λ t. true }

abbrev draw_next : Uuids
draw_next = record {
  new_v7 = some (bytes "0190f2a8-1b3c-7abc-8123-456789abcde0");
  parses = λ t. true;
}

abbrev first_id : Text
first_id = bytes "aud_0190f2a81b3c7abc8123456789abcdef"

-- The caller's memory: one map, at 0, with one entry; one authentication and one string.
abbrev user_agent : Value
user_agent = scalar (bytes "curl")

abbrev memory : Memory
memory = record {
  strings = λ p. bytes "usr_0190f2a81b3c7abc8123456789abcdef";
  auths = λ p. record {
    kind = auth_kind_session;
    session_id = some 1;
    pat_id = none;
    share_id = none;
    system_id = none;
  };
  agents = λ p. record { agent_id = bytes "agent" };
  scopes = λ p. record { kind = bytes "org"; id = bytes "org_1" };
  contexts = λ p. record { request_id = none; ip = none; user_agent = none };
  maps = λ p. (bytes "agent", user_agent) ∷ [];
  next = 1;
}

-- A stand-in for json.Marshal.
abbrev marshal : Memory → Option Address → Option Text
marshal mem m = some (bytes "{}")

abbrev input : WriteInput
input = record {
  occurred_at = 4;
  actor_usr_id = some 0;
  auth = some 0;
  on_behalf = none;
  action = bytes "org.create";
  target = record { kind = bytes "org"; id = bytes "org_1" };
  scope = none;
  outcome = bytes "success";
  metadata = some 0;
  context = none;
}

abbrev first_event : AuditEvent
first_event = new_event first_id input 5 1

abbrev logged : Store
logged = (write marshal input draw 5 (empty memory)).1

-- The caller empties the entry of the map that it gave, and writes a second event.
abbrev changed : Store
changed = assign 0 (bytes "agent") (scalar []) logged

abbrev both : Store
both = (write marshal input draw_next 6 changed).1

abbrev next_id : Text
next_id = bytes "aud_0190f2a81b3c7abc8123456789abcde0"

next_drawn : generate draw_next (bytes "aud") ≡ ok next_id
unfolding generate
next_drawn = refl

next_absent : lookup next_id changed.events ≡ none
unfolding generate lookup write assign validate_write decode auth_kind_session put_event insert
next_absent = refl

next_is_new :
    (id : Text) → generate draw_next (bytes "aud") ≡ ok id → lookup id changed.events ≡ none
next_is_new id e =
    let same : next_id ≡ id = cc (next_drawn, e) in
    subst (λ (x : Text). lookup x changed.events ≡ none) same next_absent

later : Later marshal 1 logged both
later =
    assigns logged both 0 (bytes "agent") (scalar []) (λ e. omega arith)
      (writes changed both input draw_next 6 next_is_new (no_more both))

written_event_is_kept_example :
    (is_outcome (bytes "success") ≡ true)
    × HasShape memory (some 0)
    × ((p : Address) → p < 1 → p ≢ 1)
    × ((get first_id both).0 ≡ ok first_event)
    × (both.memory.maps 1 ≡ (bytes "agent", user_agent) ∷ [])
unfolding new_event write validate_write ◌==◌ decode is_registered auth_kind_session generate
    put_event insert
written_event_is_kept_example =
    written_event_is_kept marshal input draw 5 (empty memory) both first_event 1 refl refl later
