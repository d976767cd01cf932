-- ===== src/Reminders/DeliverTests.antt =====
-- One run's reminders of a stream to a client, at concrete inputs.
use yobi_analytics.Prelude.{
  inr, false, ◌∷◌, ◌≡◌, refl, if◌then◌else◌, true, false, none, some, [], arith,
}
use yobi_analytics.DeliveryLog.{
  claimed, same_key, is_expired, log_call, log_write, may_claim, already_delivered, handled_within,
}
use yobi_analytics.DeliveryLog.Memory.{Memory, log_memory, empty_log}
use yobi_analytics.Reminders.{
  thirty_minutes, is_advance_reminder_due, is_advance_due, is_moment_due, is_start_reminder_due,
  is_advance_catch_up_due, is_catch_up_due, seen_at,
}
use yobi_analytics.Reminders.Send.{send_reminder, after_claim, after_push}
use yobi_analytics.Reminders.Deliver.{
  Delivery, deliver_reminders_if_due, deliver_if, after_advance, after_catch_up, send_advance,
  send_catch_up, send_start, advance_wanted, catch_up_wanted, start_wanted, sent_any,
}
use yobi_analytics.Reminders.Timely.{IsInTime, pushes_are_timely}
use yobi_analytics.Reminders.Instants.{
  evaluation_instants, anchor_ms_of, scheduled_instant, last_ms_of, instants_since, fill_instants,
}
use yobi_analytics.Reminders.NoGap.{is_served, moment_is_served}
use yobi_analytics.Reminders.OneAdvance.{run_sends_advance_once}

-- The stream starts in minute 100; it is minute 70, the client's setting is of minute 0.
abbrev at_minute_70 : Delivery
at_minute_70 = record {
  setting = record {
    notify_at_start = true;
    advance_reminder = some thirty_minutes;
    updated_at = some 0;
  };
  start = 6000000;
  status = some "upcoming";
  first_seen =
      some (record { start_minute = 100; first_seen_at = some 60000000; prior_start_minutes = [] });
  subscription_updated_at = some 0;
  preference_updated_at = some 0;
  now = 4201000000;
  evaluate_at = 4201000000;
  recovered = false;
  window_ms = 60000;
  allowed_now = true;
  allowed_at = λ _. true;
  catch_up_enabled = true;
  earlier_handled = false;
  advance_key = ("client-1", "video-1:reminder:advance@100");
  advance_legacy_key = ("client-1", "video-1:reminder:advance");
  start_key = ("client-1", "video-1:reminder:start@100");
  start_legacy_key = ("client-1", "video-1:reminder:start");
  legacy_window = 120000000;
  advance_delivers = true;
  catch_up_delivers = true;
  start_delivers = true;
  advance_clock = 4202000000;
  catch_up_clock = 4203000000;
  start_clock = 4203000000;
}

run_sends_test : sent_any (deliver_reminders_if_due log_memory at_minute_70 empty_log) ≡ true
unfolding deliver_reminders_if_due deliver_if after_advance after_catch_up send_advance
    send_catch_up send_start advance_wanted catch_up_wanted start_wanted is_advance_reminder_due
    is_advance_due is_moment_due is_start_reminder_due send_reminder after_claim after_push log_call
    log_write may_claim already_delivered handled_within
run_sends_test = refl

pushes_are_timely_example :
    IsInTime log_memory at_minute_70 (deliver_reminders_if_due log_memory at_minute_70 empty_log)
pushes_are_timely_example = pushes_are_timely log_memory at_minute_70 empty_log

run_sends_advance_once_example :
    (deliver_reminders_if_due log_memory at_minute_70 empty_log).catch_up.pushed ≡ false
unfolding deliver_reminders_if_due deliver_if after_advance after_catch_up send_advance
    advance_wanted is_advance_reminder_due is_advance_due is_moment_due send_reminder after_claim
    after_push log_call log_write may_claim already_delivered handled_within
run_sends_advance_once_example =
    run_sends_advance_once log_memory at_minute_70 empty_log refl (omega arith)

-- The stream was first seen in minute 71 and a catch-up pushed in minute 72, whose confirmation failed.
-- In minute 93 the claim has expired and the catch-up is pushed again.
abbrev at_minute_93 : Delivery
at_minute_93 = record at_minute_70 {
  first_seen =
      some
        (record { start_minute = 100; first_seen_at = some 4260000000; prior_start_minutes = [] });
  now = 5580000000;
  evaluate_at = 5580000000;
  advance_clock = 5581000000;
  catch_up_clock = 5581000000;
  start_clock = 5581000000;
}

abbrev claim_of_minute_72 : Memory
claim_of_minute_72 key =
    if same_key key ("client-1", "video-1:reminder:advance@100")
    then some (claimed 4320000000)
    else none

catch_up_again_test :
    (deliver_reminders_if_due log_memory at_minute_93 claim_of_minute_72).catch_up.pushed ≡ true
unfolding deliver_reminders_if_due deliver_if after_advance after_catch_up send_advance
    send_catch_up advance_wanted catch_up_wanted is_advance_reminder_due is_advance_due
    is_moment_due is_advance_catch_up_due is_catch_up_due seen_at send_reminder after_claim
    after_push log_call log_write may_claim already_delivered handled_within is_expired
catch_up_again_test = refl

-- The last run served minute 100 and this one is of minute 104: it serves minutes 101 to 103 too.
instants_of_104_test :
    evaluation_instants (some 6000000) none 6240000000 ≡ 6060000 ∷ 6120000 ∷ 6180000 ∷ 6240000 ∷ []
unfolding evaluation_instants anchor_ms_of scheduled_instant last_ms_of instants_since fill_instants
instants_of_104_test = refl

moment_is_served_example :
    is_served 6100000 0 (evaluation_instants (some 6000000) none 6240000000) ≡ true
unfolding anchor_ms_of scheduled_instant last_ms_of
moment_is_served_example =
    moment_is_served (some 6000000) none 6240000000 6100000 0 (omega arith) (inr (omega arith))
      (omega arith) (omega arith)

-- After 30 minutes without a run, a start of 20 minutes before is due at no instant.
start_long_ago_test :
    is_served 6600000 0 (evaluation_instants (some 6000000) none 7800000000) ≡ false
unfolding evaluation_instants anchor_ms_of scheduled_instant last_ms_of instants_since fill_instants
    is_moment_due
start_long_ago_test = refl

-- Two runs 80 seconds apart: a start ten seconds after the first is due at no instant of the second.
start_in_gap_test : is_served 6010000 0 (evaluation_instants (some 6000000) none 6080000000) ≡ false
unfolding evaluation_instants anchor_ms_of scheduled_instant last_ms_of instants_since is_moment_due
start_in_gap_test = refl
