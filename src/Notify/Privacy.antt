-- ===== src/Notify/Privacy.antt =====
-- packages/notify/inmem.go: what the methods on one notification tell another user, and the count of
-- the unread ones.
use flametrench_go.Base.{
  ℕ, ◌+◌, ◌≡◌, ◌≢◌, none, some, arith, Text, lookup, remove, tally-insert, eq_iff, eq_refl,
  lookup-remove, insert, tally, lookup-insert_self,
}
use flametrench_go.Base.Result.{err}
use flametrench_go.Notify.{
  unread, read, Notification, not_found, Store, Method, owned, get_notification, mark_read,
  mark_unread, dismiss, moved, put_notification, unread_weight, count_unread,
}

-- The methods that take the id of a notification.
pub data Request : Type 0 where
  getting reading unreading dismissing : Request

abbrev pub ask : Request → Text → Text → ℕ → Method Notification
ask Request.getting usr id now = get_notification usr id
ask Request.reading usr id now = mark_read usr id now
ask Request.unreading usr id now = mark_unread usr id now
ask Request.dismissing usr id now = dismiss usr id now

-- Without the notification.
abbrev pub without : Text → Store → Store
without id s = record s { notifs = remove id s.notifs }

missing :
    (q : Request) (usr id : Text) (now : ℕ) (s : Store)
    → lookup id s.notifs ≡ none
    → ask q usr id now s ≡ (err not_found, s)
unfolding get_notification mark_read mark_unread dismiss owned
missing Request.getting usr id now s e = ground arith
missing Request.reading usr id now s e = ground arith
missing Request.unreading usr id now s e = ground arith
missing Request.dismissing usr id now s e = ground arith

foreign :
    (q : Request) (usr id : Text) (now : ℕ) (s : Store) (n : Notification)
    → lookup id s.notifs ≡ some n
    → n.recipient ≢ usr
    → ask q usr id now s ≡ (err not_found, s)
unfolding get_notification mark_read mark_unread dismiss owned
foreign Request.getting usr id now s n e other = ground (arith, eq_iff n.recipient usr)
foreign Request.reading usr id now s n e other = ground (arith, eq_iff n.recipient usr)
foreign Request.unreading usr id now s n e other = ground (arith, eq_iff n.recipient usr)
foreign Request.dismissing usr id now s n e other = ground (arith, eq_iff n.recipient usr)

-- Get, MarkRead, MarkUnread and Dismiss answer a user about another's notification, whatever its
-- state, as if it were not stored, and leave the store as it is.
pub foreign_is_missing :
    (q : Request) (usr id : Text) (now : ℕ) (s : Store) (n : Notification)
    → lookup id s.notifs ≡ some n
    → n.recipient ≢ usr
    → ((ask q usr id now s).0 ≡ (ask q usr id now (without id s)).0) × ((ask q usr id now s).1 ≡ s)
foreign_is_missing q usr id now s n e other =
    let gone : lookup id (remove id s.notifs) ≡ none =
      ground (arith, lookup-remove id id s.notifs, eq_refl id) in
    let hidden = foreign q usr id now s n e other in
    let absent = missing q usr id now (without id s) gone in (cc (hidden, absent), cc hidden)

-- MarkRead takes an unread notification of the user off the count of CountUnread, and MarkUnread puts
-- it back.
pub count-mark_read :
    (usr id : Text) (now later : ℕ) (s : Store) (n : Notification)
    → lookup id s.notifs ≡ some n
    → n.recipient ≡ usr
    → n.state ≡ unread
    → let s' = (mark_read usr id now s).1 in
      (count_unread usr s' + 1 ≡ count_unread usr s)
      × (count_unread usr (mark_unread usr id later s').1 ≡ count_unread usr s)
unfolding mark_read mark_unread owned put_notification moved count_unread unread_weight
count-mark_read usr id now later s n e own fresh =
    let once : Notification = moved n read now in
    let m = insert id once s.notifs in
    let w = unread_weight usr in
    let down : tally w m + 1 ≡ tally w s.notifs =
      ground (arith, tally-insert w id once s.notifs, eq_iff n.recipient usr) in
    let found : lookup id m ≡ some once = lookup-insert_self id once s.notifs in
    let after : (mark_read usr id now s).1 ≡ record { notifs = m } =
      ground (arith, eq_iff n.recipient usr) in
    (
      rw after down,
      rw after (
          ground (
            arith,
            down,
            found,
            eq_iff n.recipient usr,
            tally-insert w id (moved once unread later) m,
          )),
    )
