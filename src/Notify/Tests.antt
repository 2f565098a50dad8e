-- ===== src/Notify/Tests.antt =====
-- The theorems of packages/notify at one notification.
use flametrench_go.Base.{
  ◌≡◌, ◌≢◌, refl, true, false, none, some, [], ◌∷◌, Text, bytes, ◌==◌, lookup, eq_iff,
}
use flametrench_go.Notify.{unread, dismissed, Notification, Store, mark_unread}
use flametrench_go.Notify.Privacy.{Request, ask, without, foreign_is_missing}
use flametrench_go.Notify.Lifecycle.{Step, here, next, dismissed_is_final}

abbrev note_id : Text
note_id = bytes "not_1"

abbrev carol : Text
carol = bytes "usr_carol"

abbrev dave : Text
dave = bytes "usr_dave"

abbrev note : Notification
note = record {
  id = note_id;
  scope = bytes "org_1";
  recipient = carol;
  type_of = bytes "task.done";
  subject = record { kind = bytes "task"; id = bytes "7" };
  data_ = none;
  state = unread;
  created_at = 1;
  state_changed_at = 1;
}

abbrev inbox : Store
inbox = record { notifs = (note_id, note) ∷ [] }

two_users : carol ≢ dave
unfolding ◌==◌
two_users e = let wrong : false ≡ true = (eq_iff carol dave).1 e in cc

foreign_is_missing_example :
    ((ask Request.dismissing dave note_id 5 inbox).0
      ≡ (ask Request.dismissing dave note_id 5 (without note_id inbox)).0)
    × ((ask Request.dismissing dave note_id 5 inbox).1 ≡ inbox)
unfolding lookup ◌==◌
foreign_is_missing_example =
    foreign_is_missing Request.dismissing dave note_id 5 inbox note refl two_users

abbrev gone : Notification
gone = record note { state = dismissed; state_changed_at = 3 }

abbrev dismissed_inbox : Store
dismissed_inbox = record { notifs = (note_id, gone) ∷ [] }

dismissed_is_final_example :
    lookup note_id (mark_unread carol note_id 9 dismissed_inbox).1.notifs ≡ some gone
unfolding lookup ◌==◌
dismissed_is_final_example =
    dismissed_is_final note_id gone (next here (Step.unreading carol note_id 9 dismissed_inbox))
      refl refl
