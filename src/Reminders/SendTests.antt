-- ===== src/Reminders/SendTests.antt =====
-- Runs of a reminder's sending at concrete inputs.
use yobi_analytics.Prelude.{◌≡◌, refl, true, false, Bool, List, [], ◌∷◌, arith}
use yobi_analytics.DeliveryLog.{
  Key, LogCall, mark_delivered, log_call, log_write, may_claim, already_delivered, handled_within,
}
use yobi_analytics.DeliveryLog.Memory.{Memory, log_memory, empty_log}
use yobi_analytics.DeliveryLog.Claims.{serve_log, IsAttempt}
use yobi_analytics.Reminders.Send.{Attempt, send_reminder, after_claim, after_push, release_result}
use yobi_analytics.Reminders.Once.{sent_is_not_repeated, failed_push_is_retried}

abbrev reminder_key : Key
reminder_key = ("client-1", "video-1:reminder:start@100")

abbrev old_key : Key
old_key = ("client-1", "video-1:reminder:start")

abbrev first_run : Bool → Attempt Memory
first_run delivers =
    send_reminder log_memory delivers reminder_key old_key false 6000000000 6001000000 300000000
      empty_log

abbrev rivals : List (Key × LogCall)
rivals =
    (reminder_key, mark_delivered 6000000000 6002000000)
    ∷ (("client-2", "video-1:reminder:start@100"), mark_delivered 6000000000 6002000000)
    ∷ []

sent_is_not_repeated_example :
    (send_reminder log_memory true reminder_key old_key false 6060000000 6061000000 300000000
      (serve_log log_memory rivals (first_run true).log).1).pushed
    ≡ false
unfolding send_reminder after_claim after_push log_call log_write may_claim already_delivered
    handled_within IsAttempt
sent_is_not_repeated_example =
    sent_is_not_repeated log_memory reminder_key true false old_key 6000000000 6001000000 300000000
      empty_log rivals true false old_key 6060000000 6061000000 300000000 refl
      (λ _. omega arith, (λ _. omega arith, tt)) (omega arith)

failed_push_is_retried_example :
    (already_delivered (log_memory.read (first_run false).log reminder_key) 6010000000 ≡ false)
    × (may_claim 6010000000 (log_memory.read (first_run false).log reminder_key) ≡ true)
unfolding send_reminder after_claim after_push log_call log_write may_claim already_delivered
    handled_within release_result
failed_push_is_retried_example =
    failed_push_is_retried log_memory reminder_key false false old_key 6000000000 6001000000
      300000000 empty_log refl refl 6010000000
