-- ===== src/Notify/Lifecycle.antt =====
-- packages/notify/inmem.go: a dismissed notification is final.
use flametrench_go.Base.{
  ℕ, ◌≡◌, true, none, some, inl, inr, arith, Text, bytes, lookup, lookup-insert, eq_iff,
  Option-cases,
}
use flametrench_go.Base.Result.{ok, Result-cases}
use flametrench_go.Ids.{Uuids, generate}
use flametrench_go.Notify.{
  State, is_dismissed, Notification, Store, CreateNotificationInput, owned, put_notification,
  new_notification, create_notification, mark_read, mark_unread, dismiss, moved,
}

-- One call that may write; a minted id is not in use.
pub data Step : Store → Store → Type 0 where
  creation :
      (i : CreateNotificationInput) (u : Uuids) (now : ℕ) (s : Store)
      → ((id : Text) → generate u (bytes "not") ≡ ok id → lookup id s.notifs ≡ none)
      → Step s (create_notification i u now s).1
  reading : (usr id : Text) (now : ℕ) (s : Store) → Step s (mark_read usr id now s).1
  unreading : (usr id : Text) (now : ℕ) (s : Store) → Step s (mark_unread usr id now s).1
  dismissal : (usr id : Text) (now : ℕ) (s : Store) → Step s (dismiss usr id now s).1

pub data Reach (s : Store) : Store → Type 0 where
  here : Reach s s
  next : {t u : Store} → Reach s t → Step t u → Reach s u

module _ (at : Text) (n : Notification) (over : is_dismissed n.state ≡ true) where
  step_keeps : {s t : Store} → Step s t → lookup at s.notifs ≡ some n → lookup at t.notifs ≡ some n
  unfolding create_notification mark_read mark_unread dismiss owned put_notification
  step_keeps (creation i u now s new) e = elim (Result-cases (generate u (bytes "not"))) [
    | inl (id, g) ↦
        ground
          (arith, new id g, eq_iff id at, lookup-insert id at (new_notification id i now) s.notifs)
    | inr (x, g) ↦ ground arith
  ]
  step_keeps (reading usr id now s) e = elim (Option-cases (lookup id s.notifs)) [
    | inl none_ ↦ ground arith
    | inr (m, em) ↦
        ground (arith, eq_iff id at, lookup-insert id at (moved m State.read now) s.notifs)
  ]
  step_keeps (unreading usr id now s) e = elim (Option-cases (lookup id s.notifs)) [
    | inl none_ ↦ ground arith
    | inr (m, em) ↦
        ground (arith, eq_iff id at, lookup-insert id at (moved m State.unread now) s.notifs)
  ]
  step_keeps (dismissal usr id now s) e = elim (Option-cases (lookup id s.notifs)) [
    | inl none_ ↦ ground arith
    | inr (m, em) ↦
        ground (arith, eq_iff id at, lookup-insert id at (moved m State.dismissed now) s.notifs)
  ]

-- Whatever calls follow, with minted ids that are not in use, a notification that is dismissed stays as it is.
pub dismissed_is_final :
    {s t : Store} (id : Text) (n : Notification)
    → Reach s t
    → is_dismissed n.state ≡ true
    → lookup id s.notifs ≡ some n
    → lookup id t.notifs ≡ some n
dismissed_is_final id n here over e = e
dismissed_is_final id n (next r st) over e =
    step_keeps id n over st (dismissed_is_final id n r over e)
