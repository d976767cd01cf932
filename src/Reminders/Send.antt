-- ===== src/Reminders/Send.antt =====
-- src/notifications/notification_dispatcher.py: `_send_reminder`, one reminder to one client. The two
-- keys stand for the client with the ids of `_reminder_dedupe_ids`; `delivers` is what the push service
-- answers (src/notifications/push_sender.py). The text and the payload are left out.
use yobi_analytics.Prelude.{ℕ, Bool, true, false, not, ◌&&◌, if◌then◌else◌}
use yobi_analytics.DeliveryLog.{
  Key, LogTable, mark_delivered, confirm_delivered, release_claim, LogResult, succeeded, refused,
  store_error, log_call, already_delivered, handled_within,
}

-- `raised` is a NotificationDeliveryLogStoreError that leaves the function.
pub data SendResult : Type 0 where
  sent not_sent raised : SendResult

-- What a run returns, and whether it handed the reminder to the push service.
pub record Attempt (State : Type 0) : Type 0 where
  pub result : SendResult
  pub pushed : Bool
  pub log : State

-- After the push: a release where it failed, whose error is raised; else a confirmation, whose error
-- is caught.
unfoldable pub release_result : LogResult → SendResult
release_result store_error = raised
release_result _ = not_sent

module _ (t : LogTable) (delivers : Bool) (dedupe_key legacy_key : Key) where
  unfoldable pub after_push : (now : ℕ) → t.State → Attempt t.State
  unfolding release_result log_call
  after_push now s =
      if delivers
      then record {
        result = sent;
        pushed = true;
        log = (log_call t dedupe_key (confirm_delivered now) s).1;
      }
      else let (answer, s') = log_call t dedupe_key release_claim s in
        record { result = release_result answer; pushed = true; log = s' }

  unfoldable pub after_claim : LogResult → (now : ℕ) → t.State → Attempt t.State
  unfolding after_push
  after_claim succeeded now s = after_push now s
  after_claim refused now s = record { result = not_sent; pushed = false; log = s }
  after_claim store_error now s = record { result = raised; pushed = false; log = s }

  -- `now` is the run's instant, `clock` the one that the log reads, `window` _LEGACY_DEDUPE_WINDOW.
  unfoldable pub send_reminder :
      (is_premiere : Bool) (now clock window : ℕ) → t.State → Attempt t.State
  unfolding after_claim log_call already_delivered handled_within
  send_reminder is_premiere now clock window s =
      if not is_premiere && handled_within (t.read s legacy_key) window now
      then record { result = not_sent; pushed = false; log = s }
      else if already_delivered (t.read s dedupe_key) clock
      then record { result = not_sent; pushed = false; log = s }
      else let (answer, s') = log_call t dedupe_key (mark_delivered now clock) s in
        after_claim answer now s'
