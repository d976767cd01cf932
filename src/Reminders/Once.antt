-- ===== src/Reminders/Once.antt =====
-- Runs of `_send_reminder` of src/notifications/notification_dispatcher.py for one target, one after
-- another.
use yobi_analytics.Prelude.{
  ℕ, ◌+◌, ◌≤◌, ◌≡◌, ◌≢◌, subst, refl, ◌∙◌, ◌⊎◌, inl, inr, Bool, true, false, not, ◌&&◌, Option,
  none, some, List, arith, All, All-map_pred, Bool-cases,
}
use yobi_analytics.ConditionalTable.{Reply, done, condition_failed, other_error, Effect}
use yobi_analytics.DeliveryLog.{
  LogRow, claimed, delivered, claim_expiry, Key, same_key, LogTable, LogCall, confirm_delivered,
  release_claim, log_write, LogResult, succeeded, refused, store_error, result_of, log_call,
  already_delivered, is_expired, handled_within, may_claim,
}
use yobi_analytics.DeliveryLog.Claims.{
  serve_log, IsAttempt, attempt-blocked, attempt-settled, serve_log-blocked, claimed_item,
  same_key_refl,
}
use yobi_analytics.Reminders.Send.{
  sent, not_sent, raised, Attempt, release_result, after_push, after_claim, send_reminder,
}

pub not_sent-ne-sent : not_sent ≡ sent → ⊥
not_sent-ne-sent h = cc

raised-ne-sent : raised ≡ sent → ⊥
raised-ne-sent h = cc

-- The item of a target that has been sent: confirmed, or still the claim if that failed.
abbrev pub IsSent : (now : ℕ) → Option LogRow → Type 0
IsSent now item = (item ≡ some (claimed now)) ⊎ (item ≡ some (delivered now))

module _ (t : LogTable) (key : Key) where
  confirm-Effect :
      (now : ℕ) (s s' : t.State) (reply : Reply)
      → IsSent now (t.read s key)
      → Effect same_key t.read reply (log_write (confirm_delivered now)) key s s'
      → IsSent now (t.read s' key)
  unfolding log_write
  confirm-Effect now s s' done h (met, reads) = inr (reads key ∙ rw (same_key_refl key) refl)
  confirm-Effect now s s' condition_failed h (met, reads) = rw (reads key) h
  confirm-Effect now s s' other_error h (inl (met, reads)) =
      inr (reads key ∙ rw (same_key_refl key) refl)
  confirm-Effect now s s' other_error h (inr reads) = rw (reads key) h

  release_result-ne-sent : (r : LogResult) → release_result r ≡ sent → ⊥
  unfolding release_result
  release_result-ne-sent succeeded h = cc
  release_result-ne-sent refused h = cc
  release_result-ne-sent store_error h = cc

  after_push-item :
      (delivers : Bool) (legacy_key : Key) (now : ℕ) (s : t.State)
      → t.read s key ≡ some (claimed now)
      → (after_push t delivers key legacy_key now s).result ≡ sent
      → IsSent now (t.read (after_push t delivers key legacy_key now s).log key)
  unfolding after_push log_call
  after_push-item true legacy_key now s h e =
      confirm-Effect now s _ _ (inl h) (t.write_effect (log_write (confirm_delivered now)) key s)
  after_push-item false legacy_key now s h e = absurd (release_result-ne-sent _ e)

  -- A run reaches the push with its claim in the log, or it neither pushes nor reports a sending.
  pub ReachesPush : (delivers : Bool) (legacy_key : Key) (now : ℕ) → Attempt t.State → Type 0
  ReachesPush delivers legacy_key now a =
      ((s : t.State) × (t.read s key ≡ some (claimed now))
        × (after_push t delivers key legacy_key now s ≡ a))
      ⊎ (a.pushed ≡ false) × (a.result ≢ sent)

  after_claim-ReachesPush :
      (delivers : Bool) (legacy_key : Key) (r : LogResult) (now : ℕ) (s : t.State)
      → (r ≡ succeeded → t.read s key ≡ some (claimed now))
      → ReachesPush delivers legacy_key now (after_claim t delivers key legacy_key r now s)
  unfolding after_claim ReachesPush
  after_claim-ReachesPush delivers legacy_key succeeded now s h = inl (s, h refl, refl)
  after_claim-ReachesPush delivers legacy_key refused now s h = inr (refl, not_sent-ne-sent)
  after_claim-ReachesPush delivers legacy_key store_error now s h = inr (refl, raised-ne-sent)

  pub send_reminder-ReachesPush :
      (delivers : Bool) (legacy_key : Key) (is_premiere : Bool) (now clock window : ℕ) (s : t.State)
      → ReachesPush delivers legacy_key now
          (send_reminder t delivers key legacy_key is_premiere now clock window s)
  unfolding send_reminder ReachesPush
  send_reminder-ReachesPush delivers legacy_key is_premiere now clock window s =
      elim (Bool-cases (not is_premiere && handled_within (t.read s legacy_key) window now)) [
        | inl b ↦ rw b (inr (refl, not_sent-ne-sent))
        | inr b ↦ elim (Bool-cases (already_delivered (t.read s key) clock)) [
          | inl d ↦ rw (b, d) (inr (refl, not_sent-ne-sent))
          | inr d ↦
              rw (b, d)
                (after_claim-ReachesPush delivers legacy_key _ now _
                  (claimed_item t key now clock s))
        ]
      ]

  pub send_reminder-item :
      (delivers : Bool) (legacy_key : Key) (now : ℕ) (a : Attempt t.State)
      → ReachesPush delivers legacy_key now a
      → a.result ≡ sent
      → IsSent now (t.read a.log key)
  unfolding ReachesPush
  send_reminder-item delivers legacy_key now a (inl (s, h, p)) =
      subst (λ a. a.result ≡ sent → IsSent now (t.read a.log key)) p
        (after_push-item delivers legacy_key now s h)
  send_reminder-item delivers legacy_key now a (inr (_, never)) = λ e. absurd (never e)

  release-item :
      (s s' : t.State) (reply : Reply)
      → Effect same_key t.read reply (log_write release_claim) key s s'
      → release_result (result_of reply) ≡ not_sent
      → t.read s' key ≡ none
  unfolding log_write release_result
  release-item s s' done (met, reads) e = reads key ∙ rw (same_key_refl key) refl
  release-item s s' condition_failed (unmet, reads) e = absurd cc
  release-item s s' other_error h e = absurd cc

  after_push-released :
      (delivers : Bool) (legacy_key : Key) (now : ℕ) (s : t.State)
      → (after_push t delivers key legacy_key now s).result ≡ not_sent
      → t.read (after_push t delivers key legacy_key now s).log key ≡ none
  unfolding after_push log_call
  after_push-released true legacy_key now s e = absurd cc
  after_push-released false legacy_key now s e =
      release-item s _ _ (t.write_effect (log_write release_claim) key s) e

  failed-item :
      (delivers : Bool) (legacy_key : Key) (now : ℕ) (a : Attempt t.State)
      → ReachesPush delivers legacy_key now a
      → a.pushed ≡ true
      → a.result ≡ not_sent
      → t.read a.log key ≡ none
  unfolding ReachesPush
  failed-item delivers legacy_key now a (inl (s, h, p)) pushed =
      subst (λ a. a.result ≡ not_sent → t.read a.log key ≡ none) p
        (after_push-released delivers legacy_key now s)
  failed-item delivers legacy_key now a (inr (never, _)) pushed = absurd cc

  absent-is_free :
      (clock : ℕ) (o : Option LogRow)
      → o ≡ none
      → (already_delivered o clock ≡ false) × (may_claim clock o ≡ true)
  unfolding already_delivered may_claim
  absent-is_free clock none h = (refl, refl)
  absent-is_free clock (some row) h = absurd cc

  pub sent-handled :
      (now clock : ℕ) (o : Option LogRow)
      → IsSent now o
      → clock ≤ now + claim_expiry
      → already_delivered o clock ≡ true
  unfolding already_delivered is_expired
  sent-handled now clock o (inl h) early = rw h (ground arith)
  sent-handled now clock o (inr h) early = rw h refl

  pub handled-is_not_pushed :
      (delivers : Bool) (legacy_key : Key) (is_premiere : Bool) (now clock window : ℕ) (s : t.State)
      → already_delivered (t.read s key) clock ≡ true
      → (send_reminder t delivers key legacy_key is_premiere now clock window s).pushed ≡ false
  unfolding send_reminder
  handled-is_not_pushed delivers legacy_key is_premiere now clock window s d =
      elim (Bool-cases (not is_premiere && handled_within (t.read s legacy_key) window now)) [
        | inl b ↦ rw b refl
        | inr b ↦ rw (b, d) refl
      ]

  others-keep :
      (now : ℕ) (calls : List (Key × LogCall)) (s : t.State)
      → IsSent now (t.read s key)
      → All (λ e. (same_key e.0 key ≡ true) → IsAttempt (now + claim_expiry) e.1) calls
      → IsSent now (t.read (serve_log t calls s).1 key)
  others-keep now calls s (inl h) others =
      inl
        (serve_log-blocked t key _ calls s h
          (All-map_pred (λ e k same. attempt-blocked now e.1 (k same)) calls others)).0
  others-keep now calls s (inr h) others =
      inr
        (serve_log-blocked t key _ calls s h
          (All-map_pred (λ e k same. attempt-settled now e.1 (k same)) calls others)).0

  -- A reminder that a run has sent is not handed to the push service by a later run whose clock is at
  -- most 20 minutes past the first run's instant, even where the confirmation failed, whatever the log
  -- serves in between: calls for other keys, and for this one suppressions and claims of that time.
  pub sent_is_not_repeated :
      (delivers is_premiere : Bool) (legacy_key : Key) (now clock window : ℕ) (s : t.State)
      (calls : List (Key × LogCall)) (delivers' is_premiere' : Bool) (legacy_key' : Key)
      (now' clock' window' : ℕ)
      → (send_reminder t delivers key legacy_key is_premiere now clock window s).result ≡ sent
      → All (λ e. (same_key e.0 key ≡ true) → IsAttempt (now + claim_expiry) e.1) calls
      → clock' ≤ now + claim_expiry
      → let later =
          (serve_log t calls
            (send_reminder t delivers key legacy_key is_premiere now clock window s).log).1 in
        (send_reminder t delivers' key legacy_key' is_premiere' now' clock' window' later).pushed
        ≡ false
  sent_is_not_repeated delivers is_premiere legacy_key now clock window s calls delivers'
        is_premiere' legacy_key' now' clock' window' h others early =
      handled-is_not_pushed delivers' legacy_key' is_premiere' now' clock' window' _ (
        sent-handled now clock' _
          (others-keep now calls _
            (send_reminder-item delivers legacy_key now _
              (send_reminder-ReachesPush delivers legacy_key is_premiere now clock window s) h)
            others)
          early)

  -- After a run that pushed and reports nothing sent, which is a failed push whose release was answered,
  -- the target does not count as handled, at any clock, and its claim may be made.
  pub failed_push_is_retried :
      (delivers is_premiere : Bool) (legacy_key : Key) (now clock window : ℕ) (s : t.State)
      → (send_reminder t delivers key legacy_key is_premiere now clock window s).pushed ≡ true
      → (send_reminder t delivers key legacy_key is_premiere now clock window s).result ≡ not_sent
      → (clock' : ℕ)
      → let item =
          t.read (send_reminder t delivers key legacy_key is_premiere now clock window s).log key in
        (already_delivered item clock' ≡ false) × (may_claim clock' item ≡ true)
  failed_push_is_retried delivers is_premiere legacy_key now clock window s pushed failed clock' =
      absent-is_free clock' _ (
        failed-item delivers legacy_key now _
          (send_reminder-ReachesPush delivers legacy_key is_premiere now clock window s) pushed
          failed)
