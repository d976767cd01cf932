-- ===== src/Lib.antt =====
-- Yobi Analytics collects YouTube view counts of many channels once a day, follows livestreams and
-- serves what it collected. This library models the parts that decide: who may run a day's
-- collection, which videos are observed, what an observation does to a video's tier, how a shard of
-- the history is collected and collected again, how a livestream's end becomes an archive, when a
-- reminder of a livestream is due, who may send it, and how channels and videos are ranked.
--
-- Parts and files
--
-- ExecutionLock (src/collection/execution_lock.py): the lease that lets one execution run a
--   report date. acquire_execution_lock, renew_execution_lock, mark_execution_complete and
--   mark_execution_failed are the calls of ExecutionLock/Table (`Call`, `perform`), each one
--   conditional write (`acquire_write`, `renew_write`, `complete_write`, `failed_write`). An
--   interleaving of callers is a list of calls (`serve`). ExecutionLock/Message is
--   _sanitize_error_message.
-- ConditionalTable: DynamoDB, for ExecutionLock and DeliveryLog, as the record
--   `ConditionalTable`: a conditional write applies at one key or answers that its condition
--   failed, and after another error it may have been applied or not.
-- TrackingSchedule (src/tracking/tracking_schedule.py): is_due_today, select_due_video_ids and
--   classify_after_observation under their own names. Its binary64 arithmetic is the record
--   `Floats`, of which nothing is assumed; a video's md5 digest is a parameter.
-- HistoryWorker (src/collection/history_worker.py, with the records of
--   src/tracking/video_master.py, src/tracking/tracking_manifest.py and
--   src/stores/history_store.py): `collect_history_shard` with _carry_forward_non_due_rows,
--   _select_classification_due_ids, _build_scheduler_updates and _patch_manifest_activity_states.
--   It calls TrackingSchedule for the due set and for the new tier of each observed video. `Stores`
--   is the state it reads and writes; YouTube (`fetch`) and the sha256 shard of an id (`shard_of`)
--   are parameters.
-- Livestream (src/tracking/livestream_lifecycle.py, with is_completed_premiere and the probe of
--   src/collection/youtube_client.py): a completion cycle. Livestream/Candidates is
--   _resolve_candidates, Livestream/Lookups is _evaluate_archive, _archive_window_open and
--   _run_archive_lookups, Livestream/Cycle is refresh_snapshot around them, with _prune_ended and
--   the readers of the ended map. Livestream/Display is the display job (refresh_display_snapshot),
--   read_serving_snapshot and _streams_for_completion. The streams obtained, YouTube's answers,
--   Creator Master and Video Master's answers to the side write are parameters; a write that fails
--   is an argument of the two jobs.
-- DeliveryLog (src/stores/notification_delivery_log_store.py): mark_delivered, mark_suppressed,
--   confirm_delivered and release_claim are the calls `LogCall`, each one write of the table
--   (`log_write`, `log_call`); already_delivered, row_status and handled_within are of the item
--   that is read. DeliveryLog/Bulk is _batch_get_rows, handled_ids and delivered_video_ids with its
--   cache; BatchGetItem is the parameter `Ask`, of which IsBatchGet says what is documented, and
--   IsAvailable that it serves the requests of one to 100 different keys.
-- Reminders (src/notifications/live_reminder.py): the reminder settings and when a reminder is
--   due. Reminders/Candidates is src/notifications/reminder_candidates.py without find_candidates
--   itself, Reminders/Derive is derive_first_seen. Of src/notifications/notification_dispatcher.py,
--   Reminders/Send is _send_reminder over the calls of DeliveryLog, and Reminders/Deliver is
--   _deliver_reminders_if_due with _deliver_catch_up_advance_if_due and _recovery_allows around it;
--   what the push service, should_notify_now, the catch-up switch and the guard of earlier
--   reminders answer is part of the record `Delivery`. Reminders/Instants is _evaluation_instants,
--   whose loop has fuel for ten rounds: each is a minute and the lookback is ten.
-- Ranking (src/analytics): Ranking/Order is the sort key `(-count, id)` of every ranking.
--   Ranking/Subscribers and Ranking/Leaderboards are subscriber_ranking.py: the checks of a row
--   (`current_check`, `anchor_check`), the loop that both builders run (`judge_rows`), the builders
--   and filter_by_organization for either kind of row. Ranking/VideoCatalog is history_ranking.py
--   and build_creator_video_catalog of video_ranking.py, Ranking/VideoRanking is rank_video_rows
--   over the rows that video_ranking_result.py persists. Ranking/Reducer is
--   _build_and_persist_video_rankings of ranking_reducer.py, whose buckets are the record `Sources`,
--   and Ranking/Handler is its lambda_handler over the calls of ExecutionLock/Table.
--   Ranking/ViewGrowth is view_growth_analytics.py.
-- Slots (src/stores/notification_slot_store.py and src/notifications/delivery_slots.py): the index of
--   the clients that chose a local half hour for their notifications. Slots/Sync gives the writes
--   of sync_client_slots and remove_client (`SlotWrite`) from the items that the index answers, and
--   `apply_all` their effect on one client's items and the registry of zones. A sync that fails has
--   made some first of its requests (`sync_batches`) and any writes of the next one. Slots/Keys and
--   Slots/Due are the keys and due_local_slots, to which zoneinfo is a parameter.
-- PushTtl (src/notifications/push_ttl.py): the lifetimes of notifications, under their own names.
-- Prelude: tests on numbers, lists, association lists, integers, the order of text, sorting.
--
-- Conventions
--
-- An instant is its number of microseconds since the epoch and a date its ordinal, both ℕ; a
-- stored timestamp stands for the aware instant that its text parses to, and a publication date
-- that does not parse is `none`. Counts are ℕ, as the source's are never negative, and
-- differences of counts are the ℤ of Prelude/Integers; a percentage, which no decision reads, is
-- its two numbers. Text that is compared or stored is String; an error message is its list of
-- code points. The loops of the modelled code run over lists, but the 16 shards of
-- Ranking/Reducer, Reminders/Instants and two of DeliveryLog/Bulk: a batch has five attempts
-- as in the source, and the batches of 100 ids have the number of ids as
-- fuel, where each takes one at least. Where the source compares with a time minus an offset,
-- the model adds the offset on the other side.
--
-- Not modelled
--
-- canonicalize_report_date (a time zone library), the boto3 clients, the conflict retries of
-- patch_shard, the maps of topics, content types and live statuses that collect_history_shard
-- returns beside its rows, a run with no Video Master, the retries of the Holodex fetch, the
-- premiere archive times and the notifications of the livestream lifecycle, the parsing of
-- stored reminder items, find_candidates, premiere reminders, the dispatchers' loops and the
-- texts they send, the read API, the subscriber ranking's payload and the loading of its
-- anchors, validate_time_zone, the labels of slots and the queries of their index, the quota
-- ledger, the stores' S3 and DynamoDB encodings, the frontend and the infrastructure.
pub mod Prelude
pub mod ExecutionLock
pub mod TrackingSchedule
pub mod HistoryWorker
pub mod Livestream
pub mod Ranking
pub mod Slots
pub mod PushTtl
pub mod Reminders
pub mod DeliveryLog
pub mod ConditionalTable
