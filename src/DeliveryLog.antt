-- ===== src/DeliveryLog.antt =====
-- src/stores/notification_delivery_log_store.py: the log of delivered notifications. An item's key is
-- its client and its video id; an instant is the number of microseconds since the epoch. The code
-- compares ISO texts of one UTC offset, which order as the instants do.
use yobi_analytics.Prelude.{
  ℕ, ◌+◌, ◌*◌, String, Bool, true, false, not, ◌&&◌, Option, none, some, ltb, leb, str_eq,
}
use yobi_analytics.ConditionalTable.{
  Write, ConditionalTable, Reply, done, condition_failed, other_error,
}
pub mod Memory
pub mod Claims
pub mod Bulk
pub mod Paging
pub mod Passing
pub mod Cached
pub mod Available
mod Tests
mod BulkTests

-- `_CLAIM_EXPIRY`
abbrev pub claim_expiry : ℕ
claim_expiry = 20 * 60 * 1000000

-- An item by its status, with the one instant that the code puts beside it.
pub data LogRow : Type 0 where
  claimed : (claimed_at : ℕ) → LogRow
  delivered : (delivered_at : ℕ) → LogRow
  suppressed : (suppressed_at : ℕ) → LogRow

unfoldable pub is_expired : (claimed_at now : ℕ) → Bool
is_expired claimed_at now = ltb (claimed_at + claim_expiry) now

-- `already_delivered`, of the item that is read.
unfoldable pub already_delivered : Option LogRow → (now : ℕ) → Bool
unfolding is_expired
already_delivered none now = false
already_delivered (some (claimed at)) now = not (is_expired at now)
already_delivered (some (delivered _)) now = true
already_delivered (some (suppressed _)) now = true

pub data RowStatus : Type 0 where
  is_delivered is_suppressed is_claimed : RowStatus

unfoldable pub live_claim : Bool → Option RowStatus
live_claim true = none
live_claim false = some is_claimed

unfoldable pub row_status : Option LogRow → (now : ℕ) → Option RowStatus
unfolding is_expired live_claim
row_status none now = none
row_status (some (claimed at)) now = live_claim (is_expired at now)
row_status (some (delivered _)) now = some is_delivered
row_status (some (suppressed _)) now = some is_suppressed

-- `now - handled_at <= within`
unfoldable pub handled_within : Option LogRow → (within now : ℕ) → Bool
unfolding is_expired
handled_within none within now = false
handled_within (some (claimed at)) within now = not (is_expired at now) && leb now (at + within)
handled_within (some (delivered at)) within now = leb now (at + within)
handled_within (some (suppressed at)) within now = leb now (at + within)

abbrev pub Key : Type 0
Key = String × String

abbrev pub same_key : Key → Key → Bool
same_key (c, v) (d, w) = str_eq c d && str_eq v w

abbrev pub LogTable : Type 1
LogTable = ConditionalTable Key LogRow same_key

-- `attribute_not_exists(clientId) OR (#status = :claimed AND claimedAt < :cutoff)`
unfoldable pub may_claim : (now : ℕ) → Option LogRow → Bool
may_claim now none = true
may_claim now (some (claimed at)) = ltb (at + claim_expiry) now
may_claim now (some _) = false

abbrev pub is_absent : Option LogRow → Bool
is_absent none = true
is_absent (some _) = false

-- One call of a write of this module, with what its caller passes and the clock it reads.
pub data LogCall : Type 0 where
  mark_delivered : (claimed_at now : ℕ) → LogCall
  mark_suppressed : (suppressed_at : ℕ) → LogCall
  confirm_delivered : (delivered_at : ℕ) → LogCall
  release_claim : LogCall

unfoldable pub log_write : LogCall → Write LogRow
unfolding may_claim
log_write (mark_delivered at now) = record {
  condition = may_claim now;
  item = λ _. some (claimed at);
}
log_write (mark_suppressed at) = record { condition = is_absent; item = λ _. some (suppressed at) }
log_write (confirm_delivered at) = record { condition = λ _. true; item = λ _. some (delivered at) }
log_write release_claim = record { condition = λ _. true; item = λ _. none }

-- What a call returns; `confirm_delivered` and `release_claim` return nothing, here `succeeded`.
pub data LogResult : Type 0 where
  succeeded refused store_error : LogResult

abbrev pub result_of : Reply → LogResult
result_of done = succeeded
result_of condition_failed = refused
result_of other_error = store_error

unfoldable pub log_call : (t : LogTable) → Key → LogCall → t.State → LogResult × t.State
unfolding log_write
log_call t key c s = let (reply, s') = t.write (log_write c) key s in (result_of reply, s')
