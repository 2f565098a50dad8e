-- ===== src/Notify.antt =====
-- packages/notify/inmem.go and types.go: InMemoryNotificationStore. A notification's data stands as
-- its JSON encoding, which is what the store's copies keep of it.
pub mod Privacy
pub mod Lifecycle
mod Tests
use flametrench_go.Base.{
  ℕ, suc, Bool, true, false, not, ◌&&◌, ◌||◌, Option, none, some, List, [], ◌∷◌, ltb, eqb,
  if◌then◌else◌, length, Text, bytes, ◌==◌, Map, lookup, insert, tally, before,
}
use flametrench_go.Base.Result.{Result, ok, err}
use flametrench_go.Base.Action.{
  Action, ◌>>=◌, ◌>>◌, pure, raise, lift, gets, or_raise, raise_if, modify,
}
use flametrench_go.Ids.{IdError, Uuids, generate, is_valid}
use flametrench_go.Paging.{Page, page_limit, after_cursor, first_page, sort_slice}
use flametrench_go.Base.{select}
use flametrench_go.Patterns.{matches, is_key_char}

pub data State : Type 0 where
  unread read dismissed : State

abbrev pub is_unread : State → Bool
is_unread State.unread = true
is_unread _ = false

abbrev pub is_read : State → Bool
is_read State.read = true
is_read _ = false

abbrev pub is_dismissed : State → Bool
is_dismissed State.dismissed = true
is_dismissed _ = false

pub record Subject : Type 0 where
  pub kind : Text
  pub id : Text

pub record Notification : Type 0 where
  pub id : Text
  pub scope : Text
  pub recipient : Text
  pub type_of : Text
  pub subject : Subject
  pub data_ : Option Text
  pub state : State
  pub created_at : ℕ
  pub state_changed_at : ℕ

pub data Error : Type 0 where
  invalid_format not_found precondition : Error
  id_error : IdError → Error

pub record Store : Type 0 where
  pub notifs : Map Notification

-- NewInMemoryNotificationStore
abbrev pub empty : Store
empty = record { notifs = [] }

abbrev pub Method : Type 0 → Type 0
Method A = Action Store Error A

-- `data_` is none for a nil map, and otherwise what json.Marshal makes of the map: its text, or none
-- where it fails.
pub record CreateNotificationInput : Type 0 where
  pub scope : Text
  pub recipient : Text
  pub type_of : Text
  pub subject : Subject
  pub data_ : Option (Option Text)

-- The encoding is missing or longer than 16 KB.
abbrev pub is_bad_data : Option (Option Text) → Bool
is_bad_data none = false
is_bad_data (some none) = true
is_bad_data (some (some b)) = ltb 16384 (length b)

-- cloneData, on the encoding.
abbrev pub clone_data : Option (Option Text) → Option Text
clone_data none = none
clone_data (some b) = b

unfoldable pub new_notification : Text → CreateNotificationInput → ℕ → Notification
new_notification id i now = record {
  id = id;
  scope = i.scope;
  recipient = i.recipient;
  type_of = i.type_of;
  subject = i.subject;
  data_ = clone_data i.data_;
  state = unread;
  created_at = now;
  state_changed_at = now;
}

abbrev from_ids : Result IdError Text → Result Error Text
from_ids (ok id) = ok id
from_ids (err e) = err (id_error e)

-- s.notifs[id] = n
unfoldable pub put_notification : Text → Notification → Store → Store
put_notification id n s = record s { notifs = insert id n s.notifs }

unfoldable pub create_notification : CreateNotificationInput → Uuids → ℕ → Method Notification
create_notification i u now = do
  raise_if (not (is_valid i.scope (bytes "org" ∷ []))) invalid_format
  raise_if (not (is_valid i.recipient (bytes "usr" ∷ []))) invalid_format
  raise_if (not (matches is_key_char 1 64 i.type_of)) invalid_format
  raise_if (i.subject.kind == [] || i.subject.id == []) invalid_format
  raise_if (is_bad_data i.data_) invalid_format
  id ← lift (from_ids (generate u (bytes "not")))
  modify (put_notification id (new_notification id i now))
  pure (new_notification id i now)

-- The lookup that the methods on one notification begin with: it must be the caller's.
unfoldable pub owned : Text → Text → Method Notification
owned usr id = do
  n ← or_raise (← gets (λ s. lookup id s.notifs)) not_found
  raise_if (not (n.recipient == usr)) not_found
  pure n

unfoldable pub get_notification : Text → Text → Method Notification
unfolding owned
get_notification usr id = owned usr id

-- n.State = to, n.StateChangedAt = time.Now().UTC()
unfoldable pub moved : Notification → State → ℕ → Notification
moved n to now = record n { state = to; state_changed_at = now }

unfoldable pub mark_read : Text → Text → ℕ → Method Notification
unfolding owned
mark_read usr id now = do
  n ← owned usr id
  raise_if (is_dismissed n.state) precondition
  if is_read n.state
      then pure n
      else do modify (put_notification id (moved n read now)); pure (moved n read now)

unfoldable pub mark_unread : Text → Text → ℕ → Method Notification
unfolding owned
mark_unread usr id now = do
  n ← owned usr id
  raise_if (is_dismissed n.state) precondition
  if is_unread n.state
      then pure n
      else do modify (put_notification id (moved n unread now)); pure (moved n unread now)

unfoldable pub dismiss : Text → Text → ℕ → Method Notification
unfolding owned
dismiss usr id now = do
  n ← owned usr id
  raise_if (is_dismissed n.state) precondition
  modify (put_notification id (moved n dismissed now))
  pure (moved n dismissed now)

unfoldable pub unread_weight : Text → Notification → ℕ
unread_weight usr n = if n.recipient == usr && is_unread n.state then 1 else 0

-- CountUnread
unfoldable pub count_unread : Text → Store → ℕ
count_unread usr s = tally (unread_weight usr) s.notifs

unfoldable pub same_state : State → State → Bool
same_state State.unread State.unread = true
same_state State.read State.read = true
same_state State.dismissed State.dismissed = true
same_state _ _ = false

pub record ListNotificationsOptions : Type 0 where
  pub recipient : Text
  pub scope : Text
  pub state : Option State
  pub type_of : Option Text
  pub cursor : Option Text
  pub limit : ℕ

abbrev state_fits : Option State → State → Bool
state_fits none s = true
state_fits (some want) s = same_state s want

abbrev type_fits : Option Text → Text → Bool
type_fits none t = true
type_fits (some want) t = t == want

-- The tests of the loop of ListNotifications.
unfoldable pub matching : ListNotificationsOptions → Notification → Bool
unfolding same_state
matching o n =
    n.recipient == o.recipient
    && ((o.scope == [] || n.scope == o.scope)
        && (state_fits o.state n.state && type_fits o.type_of n.type_of))

unfoldable pub list_notifications : ListNotificationsOptions → Method (Page Notification)
unfolding matching select after_cursor first_page page_limit sort_slice
list_notifications o = gets (λ s.
    first_page (λ n. n.id) (page_limit o.limit)
      (after_cursor (λ n. n.id) o.cursor
        (sort_slice (λ (n k : Notification). before n.id k.id) (select (matching o) s.notifs))))
