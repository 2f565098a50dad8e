-- ===== src/Audit/Log.antt =====
-- packages/audit/inmem.go: what the log holds, and that it is append-only.
use flametrench_go.Base.{
  ℕ, ◌<◌, ◌≡◌, ◌≢◌, ◌∙◌, refl, inl, inr, true, ◌&&◌, Option, none, some, arith, eqb, if◌then◌else◌,
  Text, bytes, ◌==◌, lookup, insert, eq_iff, lookup-insert, lookup-insert_self, Option-cases,
  Bool-cases,
}
use flametrench_go.Base.Result.{ok, Result-cases}
use flametrench_go.Ids.{Uuids, generate}
use flametrench_go.Audit.{
  Address, Auth, Value, Memory, AuditEvent, WriteInput, Store, is_outcome, is_auth, count_ids,
  matches_kind, auth_kind_session, auth_kind_pat, auth_kind_share, auth_kind_system, entries_of,
  set_map, copy_metadata, validate_write, new_event, put_event, write, get,
}

-- The four shapes of an authentication: the id of its kind is there, and no other.
pub data Shape : Auth → Type 0 where
  by_session :
      (a : Auth) (id : Address)
      → a.kind ≡ auth_kind_session
      → a.session_id ≡ some id
      → a.pat_id ≡ none
      → a.share_id ≡ none
      → a.system_id ≡ none
      → Shape a
  by_pat :
      (a : Auth) (id : Address)
      → a.kind ≡ auth_kind_pat
      → a.session_id ≡ none
      → a.pat_id ≡ some id
      → a.share_id ≡ none
      → a.system_id ≡ none
      → Shape a
  by_share :
      (a : Auth) (id : Address)
      → a.kind ≡ auth_kind_share
      → a.session_id ≡ none
      → a.pat_id ≡ none
      → a.share_id ≡ some id
      → a.system_id ≡ none
      → Shape a
  by_system :
      (a : Auth) (id : Address)
      → a.kind ≡ auth_kind_system
      → a.session_id ≡ none
      → a.pat_id ≡ none
      → a.share_id ≡ none
      → a.system_id ≡ some id
      → Shape a

abbrev pub HasShape : Memory → Option Address → Type 0
HasShape mem none = Unit {0}
HasShape mem (some p) = Shape (mem.auths p)

shape : (a : Auth) → (eqb (count_ids a) 1 && matches_kind a) ≡ true → Shape a
unfolding count_ids matches_kind
shape a good = elim (Bool-cases (a.kind == auth_kind_session)) [
  | inl session ↦ elim (Option-cases a.session_id) [
    | inl missing ↦ absurd (ground arith)
    | inr (id, there) ↦
        by_session a id ((eq_iff a.kind auth_kind_session).0 session) there (ground arith)
          (ground arith) (ground arith)
  ]
  | inr no_session ↦ elim (Bool-cases (a.kind == auth_kind_pat)) [
    | inl pat ↦ elim (Option-cases a.pat_id) [
      | inl missing ↦ absurd (ground arith)
      | inr (id, there) ↦
          by_pat a id ((eq_iff a.kind auth_kind_pat).0 pat) (ground arith) there (ground arith)
            (ground arith)
    ]
    | inr no_pat ↦ elim (Bool-cases (a.kind == auth_kind_share)) [
      | inl share ↦ elim (Option-cases a.share_id) [
        | inl missing ↦ absurd (ground arith)
        | inr (id, there) ↦
            by_share a id ((eq_iff a.kind auth_kind_share).0 share) (ground arith) (ground arith)
              there (ground arith)
      ]
      | inr no_share ↦ elim (Option-cases a.system_id) [
        | inl missing ↦ absurd (ground arith)
        | inr (id, there) ↦
            by_system a id (ground (arith, eq_iff a.kind auth_kind_system)) (ground arith)
              (ground arith) (ground arith) there
      ]
    ]
  ]
]

auth_shape : (mem : Memory) (p : Option Address) → is_auth mem p ≡ true → HasShape mem p
unfolding is_auth
auth_shape mem none good = tt
auth_shape mem (some p) good = shape (mem.auths p) good

-- *p = x, by code outside the store.
unfoldable pub set_auth : Address → Auth → Store → Store
set_auth p x s = record s {
  memory = record s.memory { auths = λ q. if eqb p q then x else s.memory.auths q };
}

-- m[key] = v, by code outside the store.
unfoldable pub assign : Address → Text → Value → Store → Store
assign p key v s = record s { memory = set_map p (insert key v (s.memory.maps p)) s.memory }

-- What may follow the writing of an event whose metadata is the map at `own`: calls of Write with
-- minted ids that are not in use, assignments to any other map, and writes through Auth pointers.
pub data Later (marshal : Memory → Option Address → Option Text) (own : Address)
    : Store → Store → Type 0 where
  no_more : (s : Store) → Later marshal own s s
  writes :
      (s s' : Store) (i : WriteInput) (u : Uuids) (now : ℕ)
      → ((id : Text) → generate u (bytes "aud") ≡ ok id → lookup id s.events ≡ none)
      → Later marshal own (write marshal i u now s).1 s'
      → Later marshal own s s'
  assigns :
      (s s' : Store) (p : Address) (key : Text) (v : Value)
      → p ≢ own
      → Later marshal own (assign p key v s) s'
      → Later marshal own s s'
  points :
      (s s' : Store) (p : Address) (x : Auth)
      → Later marshal own (set_auth p x s) s'
      → Later marshal own s s'

module _ (marshal : Memory → Option Address → Option Text) where
  write-keeps :
      (i : WriteInput) (u : Uuids) (now : ℕ) (s : Store) (id : Text) (e : AuditEvent)
      (own : Address)
      → ((new : Text) → generate u (bytes "aud") ≡ ok new → lookup new s.events ≡ none)
      → lookup id s.events ≡ some e
      → own < s.memory.next
      → let s' = (write marshal i u now s).1 in
        (lookup id s'.events ≡ some e)
        × (own < s'.memory.next)
        × (s'.memory.maps own ≡ s.memory.maps own)
  unfolding write put_event copy_metadata
  write-keeps i u now s id e own fresh stored below =
      elim (Result-cases (generate u (bytes "aud"))) [
        | inr (bad, failed) ↦ (ground arith, ground arith, ground arith)
        | inl (new, drawn) ↦
            let event = new_event new i now s.memory.next in
            (
              ground (arith, fresh new drawn, eq_iff new id, lookup-insert new id event s.events),
              ground arith,
              ground arith,
            )
      ]

  kept :
      (own : Address) (s s' : Store) (id : Text) (e : AuditEvent)
      → Later marshal own s s'
      → lookup id s.events ≡ some e
      → own < s.memory.next
      → (lookup id s'.events ≡ some e) × (s'.memory.maps own ≡ s.memory.maps own)
  unfolding assign set_auth
  kept own s _ id e (no_more _) stored below = (stored, refl)
  kept own s s' id e (writes _ _ i u now fresh rest) stored below =
      let (a, b, c) = write-keeps i u now s id e own fresh stored below in
      let (d, f) = kept own (write marshal i u now s).1 s' id e rest a b in (d, f ∙ c)
  kept own s s' id e (assigns _ _ p key v other rest) stored below =
      let (d, f) = kept own (assign p key v s) s' id e rest stored below in (d, f ∙ (ground arith))
  kept own s s' id e (points _ _ p x rest) stored below =
      kept own (set_auth p x s) s' id e rest stored below

  -- When Write succeeds, the event has one of the four outcomes and an authentication, if any, that
  -- holds at that time the id of its kind and no other. Its metadata is a map that was not there
  -- before, with the entries of the map that was given. And whatever follows of calls of Write, with
  -- minted ids that are not in use, of assignments to other maps, such as one that was there before,
  -- and of writes through Auth pointers, Get returns the event, and its metadata has the same entries.
  -- (Entries are texts and references; what a reference or an Auth pointer leads to may change.)
  pub written_event_is_kept :
      (i : WriteInput) (u : Uuids) (now : ℕ) (s s' : Store) (e : AuditEvent) (own : Address)
      → (write marshal i u now s).0 ≡ ok e
      → e.metadata ≡ some own
      → Later marshal own (write marshal i u now s).1 s'
      → (is_outcome e.outcome ≡ true)
        × HasShape s.memory e.auth
        × ((p : Address) → p < s.memory.next → p ≢ own)
        × ((get e.id s').0 ≡ ok e)
        × (s'.memory.maps own ≡ entries_of i.metadata s.memory)
  unfolding write put_event new_event validate_write get copy_metadata
  written_event_is_kept i u now s s' e own made held later =
      elim (Result-cases (generate u (bytes "aud"))) [
        | inr (bad, failed) ↦ absurd (ground arith)
        | inl (id, drawn) ↦
            let event = new_event id i now s.memory.next in
            let s1 = (write marshal i u now s).1 in
            let good : validate_write marshal i s.memory ≡ true = ground arith in
            let same : e ≡ event = ground arith in
            let mine : own ≡ s.memory.next = ground arith in
            let there : lookup id s1.events ≡ some event =
              ground (arith, lookup-insert_self id event s.events) in
            let copied : s1.memory.maps own ≡ entries_of i.metadata s.memory = ground arith in
            let below : own < s1.memory.next = ground arith in
            let (a, b) = kept own s1 s' id event later there below in
            (
              ground arith,
              rw same (auth_shape s.memory i.auth (ground arith)),
              (λ p old eq. ground arith),
              ground (arith, a),
              b ∙ copied,
            )
      ]

  -- The pointers of an event are the caller's: after a write through the one that it gave as Auth, the
  -- event that Get returns leads to what was written.
  written_auth_is_shared :
      (i : WriteInput) (u : Uuids) (now : ℕ) (s : Store) (e : AuditEvent) (p : Address) (x : Auth)
      → (write marshal i u now s).0 ≡ ok e
      → i.auth ≡ some p
      → let s' = set_auth p x (write marshal i u now s).1 in
        ((get e.id s').0 ≡ ok e) × (e.auth ≡ some p) × (s'.memory.auths p ≡ x)
  unfolding write put_event new_event get copy_metadata set_auth
  written_auth_is_shared i u now s e p x made given =
      elim (Result-cases (generate u (bytes "aud"))) [
        | inr (bad, failed) ↦ absurd (ground arith)
        | inl (id, drawn) ↦
            let event = new_event id i now s.memory.next in
            (ground (arith, lookup-insert_self id event s.events), ground arith, ground arith)
      ]
