-- ===== src/Reminders/OneAdvance.antt =====
-- The advance reminder and the catch-up of one run of `_deliver_reminders_if_due` of
-- src/notifications/notification_dispatcher.py, which share a key of the delivery log.
use yobi_analytics.Prelude.{◌+◌, ◌≤◌, ◌≡◌, refl, sym, ◌∙◌, Bool, true, false, Bool-cases, inl, inr}
use yobi_analytics.DeliveryLog.{LogTable, claim_expiry, already_delivered}
use yobi_analytics.Reminders.Send.{Attempt, sent}
use yobi_analytics.Reminders.Once.{
  IsSent, send_reminder-item, send_reminder-ReachesPush, sent-handled, handled-is_not_pushed,
  not_sent-ne-sent,
}
use yobi_analytics.Reminders.Deliver.{
  Delivery, advance_wanted, catch_up_wanted, is_raised, send_advance, send_catch_up, after_advance,
  after_catch_up, deliver_if, deliver_reminders_if_due,
}

module _ (t : LogTable) (d : Delivery) where
  send_advance-IsSent :
      (s : t.State)
      → (send_advance t d s).result ≡ sent
      → IsSent d.now (t.read (send_advance t d s).log d.advance_key)
  unfolding send_advance
  send_advance-IsSent s h = elim (Bool-cases (advance_wanted d)) [
    | inl e ↦ rw e (
        send_reminder-item t d.advance_key d.advance_delivers d.advance_legacy_key d.now _
          (send_reminder-ReachesPush t d.advance_key d.advance_delivers d.advance_legacy_key false
            d.now d.advance_clock d.legacy_window s)
          (rw e at h))
    | inr e ↦ absurd (not_sent-ne-sent (rw e at h))
  ]

  send_catch_up-handled :
      (s : t.State)
      → already_delivered (t.read s d.advance_key) d.catch_up_clock ≡ true
      → (send_catch_up t d s).pushed ≡ false
  unfolding send_catch_up
  send_catch_up-handled s h = elim (Bool-cases (catch_up_wanted d)) [
    | inl e ↦ rw e (
        handled-is_not_pushed t d.advance_key d.catch_up_delivers d.advance_legacy_key false d.now
          d.catch_up_clock d.legacy_window s h)
    | inr e ↦ rw e refl
  ]

  after_advance-once :
      (s : t.State)
      → (send_advance t d s).result ≡ sent
      → d.catch_up_clock ≤ d.now + claim_expiry
      → (after_advance t d (send_advance t d s)).catch_up.pushed ≡ false
  unfolding after_advance after_catch_up
  after_advance-once s h early = elim (Bool-cases (is_raised (send_advance t d s).result)) [
    | inl r ↦ rw r refl
    | inr r ↦ rw r (
        send_catch_up-handled _
          (sent-handled t d.advance_key d.now d.catch_up_clock _ (send_advance-IsSent s h) early))
  ]

  after_advance-result : (a : Attempt t.State) → (after_advance t d a).advance.result ≡ a.result
  unfolding after_advance after_catch_up
  after_advance-result a = elim (Bool-cases (is_raised a.result)) [
    | inl r ↦ rw r refl
    | inr r ↦ rw r refl
  ]

  deliver_if-once :
      (b : Bool) (s : t.State)
      → (deliver_if t d b s).advance.result ≡ sent
      → d.catch_up_clock ≤ d.now + claim_expiry
      → (deliver_if t d b s).catch_up.pushed ≡ false
  unfolding deliver_if
  deliver_if-once true s h early =
      after_advance-once s (sym (after_advance-result (send_advance t d s)) ∙ h) early
  deliver_if-once false s h early = refl

  -- Once the run has sent the advance reminder, and the log's clock at the catch-up is at most 20
  -- minutes past the run's instant, the run does not push the catch-up.
  pub run_sends_advance_once :
      (s : t.State)
      → (deliver_reminders_if_due t d s).advance.result ≡ sent
      → d.catch_up_clock ≤ d.now + claim_expiry
      → (deliver_reminders_if_due t d s).catch_up.pushed ≡ false
  unfolding deliver_reminders_if_due
  run_sends_advance_once s h early = deliver_if-once d.allowed_now s h early
